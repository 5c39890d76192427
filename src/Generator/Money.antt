-- ===== src/Generator/Money.antt =====
-- generator/realism/distributions.py, `cents`, and what it takes of Python's `decimal`: a number is
-- an integer over a power of ten. Sums are exact, as they are for amounts below 10^24; a product
-- and a quotient are rounded to 28 significant digits, halves to even.
use nordbank_data_platform.Common.{
  ℕ, zero, suc, ◌+◌, ◌-◌, ◌*◌, ◌/◌, ◌%◌, ◌^◌, arith, ap, sym, ◌∙◌, max, ◌≡◌, refl, Bool, true,
  false, ltb, if◌then◌else◌,
}
use nordbank_data_platform.Common.Int.{
  ℤ, pos, negsuc, ◌+ℤ◌, ◌-ℤ◌, ◌*ℤ◌, ltb_ℤ, pos_part, neg_part, eq_of_parts, +ℤ_parts, -ℤ_parts,
}

pub record Decimal : Type 0 where
  pub unscaled : ℤ
  pub scale : ℕ

-- What is done to the magnitude, the sign kept.
abbrev pub negated : ℕ → ℤ
negated zero = pos 0
negated (suc n) = negsuc n

abbrev pub magnitude : ℤ → ℕ
magnitude (pos n) = n
magnitude (negsuc n) = suc n

abbrev pub sign_of : ℤ → ℤ
sign_of (pos _) = pos 1
sign_of (negsuc _) = negsuc 0

abbrev pub on_magnitude : (ℕ → ℕ) → ℤ → ℤ
on_magnitude f (pos n) = pos (f n)
on_magnitude f (negsuc n) = negated (f (suc n))

-- a / b to the nearest integer
abbrev pub half_up : ℕ → ℕ → ℕ
half_up a b = (2 * a + b) / (2 * b)

unfoldable pub half_even : ℕ → ℕ → ℕ
half_even a b =
    let q = a / b in
    let r = a % b in if ltb (2 * r) b then q else if ltb b (2 * r) then suc q else q + q % 2

-- The first s for which a * 10^s / b has 28 digits, and the first t for which a / (b * 10^t) has
-- no more than 28.
unfoldable pub digits_short : ℕ → ℕ → ℕ → ℕ
digits_short zero a b = 0
digits_short (suc f) a b = elim (ltb a (10 ^ 27 * b)) [
  | true ↦ suc (digits_short f (10 * a) b)
  | false ↦ 0
]

unfoldable pub digits_over : ℕ → ℕ → ℕ → ℕ
digits_over zero a b = 0
digits_over (suc f) a b = elim (ltb a (10 ^ 28 * b)) [
  | true ↦ 0
  | false ↦ suc (digits_over f a (10 * b))
]

-- n / b in 28 significant digits, for b that is not 0
unfoldable pub rounded : ℤ → ℕ → Decimal
unfolding half_even digits_short digits_over
rounded n b =
    let a = magnitude n in
    let s = digits_short (b + 28) a b in
    let t = digits_over (suc a) a b in
    elim a [
      | zero ↦ record { unscaled = pos 0; scale = 0 }
      | suc _ ↦ record {
        unscaled = on_magnitude (λ m. half_even (m * 10 ^ s) (b * 10 ^ t) * 10 ^ t) n;
        scale = s;
      }
    ]

unfoldable pub times : Decimal → Decimal → Decimal
unfolding rounded ◌*ℤ◌
times x y = rounded (x.unscaled *ℤ y.unscaled) (10 ^ (x.scale + y.scale))

-- Division by a number that is not 0, the sign of the divisor moved to the dividend.
unfoldable pub over : Decimal → Decimal → Decimal
unfolding rounded ◌*ℤ◌
over x y =
    rounded (x.unscaled *ℤ sign_of y.unscaled *ℤ pos (10 ^ y.scale))
      (magnitude y.unscaled * 10 ^ x.scale)

abbrev pub aligned : Decimal → ℕ → ℤ
aligned x s = x.unscaled *ℤ pos (10 ^ (s - x.scale))

unfoldable pub plus : Decimal → Decimal → Decimal
unfolding ◌+ℤ◌ ◌*ℤ◌
plus x y =
    let s = max x.scale y.scale in record { unscaled = aligned x s +ℤ aligned y s; scale = s }

unfoldable pub minus : Decimal → Decimal → Decimal
unfolding ◌-ℤ◌ ◌*ℤ◌
minus x y =
    let s = max x.scale y.scale in record { unscaled = aligned x s -ℤ aligned y s; scale = s }

unfoldable pub less : Decimal → Decimal → Bool
unfolding ◌*ℤ◌
less x y = let s = max x.scale y.scale in ltb_ℤ (aligned x s) (aligned y s)

abbrev pub of_int : ℕ → Decimal
of_int n = record { unscaled = pos n; scale = 0 }

-- A number of cents at the storage scale of four places.
unfoldable pub hundreds : ℤ → ℤ
hundreds c = on_magnitude (λ m. 100 * m) c

abbrev pub of_cents : ℤ → Decimal
of_cents c = record { unscaled = hundreds c; scale = 4 }

abbrev pub nearest_cents : Decimal → ℤ
nearest_cents x = on_magnitude (λ m. half_up (100 * m) (10 ^ x.scale)) x.unscaled

unfoldable pub cents : Decimal → Decimal
cents x = of_cents (nearest_cents x)

money_runs :
    (cents (record { unscaled = pos 12345; scale = 3 }) ≡ of_cents (pos 1235))
    × (over (of_int 1) (of_int 3)
        ≡ record { unscaled = pos 3333333333333333333333333333; scale = 28 })
    × (over (of_int 2) (of_int 3)
        ≡ record { unscaled = pos 6666666666666666666666666667; scale = 28 })
    × (times (record { unscaled = pos 15; scale = 1 }) (record { unscaled = negsuc 1; scale = 0 })
        ≡ record { unscaled = negsuc 2999999999999999999999999999; scale = 27 })
unfolding times over cents hundreds
money_runs = (refl, refl, refl, refl)

half_up_cents : (m : ℕ) → half_up (100 * (100 * m)) 10000 ≡ m
half_up_cents m = omega arith

on_magnitude-negated : (f : ℕ → ℕ) (n : ℕ) → f 0 ≡ 0 → on_magnitude f (negated n) ≡ negated (f n)
on_magnitude-negated f zero h = ap pos h ∙ sym (ap negated h)
on_magnitude-negated f (suc n) h = refl

negated_parts : (n : ℕ) → (pos_part (negated n) ≡ 0) × (neg_part (negated n) ≡ n)
negated_parts zero = (refl, refl)
negated_parts (suc n) = (refl, refl)

-- Whole cents stay what they are, and their sums and differences are whole cents.
nearest-of_cents : (c : ℤ) → nearest_cents (of_cents c) ≡ c
unfolding hundreds
nearest-of_cents (pos m) = ap pos (half_up_cents m)
nearest-of_cents (negsuc m) =
    on_magnitude-negated (λ n. half_up (100 * n) 10000) (100 * suc m) refl
    ∙ ap negated (half_up_cents (suc m))

pub cents-of_cents : (c : ℤ) → cents (of_cents c) ≡ of_cents c
unfolding cents
cents-of_cents c = ap of_cents (nearest-of_cents c)

hundreds_parts :
    (a : ℤ)
    → (pos_part (hundreds a) ≡ 100 * pos_part a) × (neg_part (hundreds a) ≡ 100 * neg_part a)
unfolding hundreds
hundreds_parts (pos m) = (refl, refl)
hundreds_parts (negsuc m) = negated_parts (100 * suc m)

times_one : (a : ℤ) → a *ℤ pos (10 ^ 0) ≡ a
unfolding ◌*ℤ◌
times_one a = ground arith

sum_of_hundreds : (a b : ℤ) → hundreds a +ℤ hundreds b ≡ hundreds (a +ℤ b)
sum_of_hundreds a b =
    eq_of_parts (hundreds a +ℤ hundreds b) (hundreds (a +ℤ b))
      (grind (arith, hundreds_parts, +ℤ_parts))

difference_of_hundreds : (a b : ℤ) → hundreds a -ℤ hundreds b ≡ hundreds (a -ℤ b)
difference_of_hundreds a b =
    eq_of_parts (hundreds a -ℤ hundreds b) (hundreds (a -ℤ b))
      (grind (arith, hundreds_parts, -ℤ_parts))

pub plus-of_cents : (a b : ℤ) → plus (of_cents a) (of_cents b) ≡ of_cents (a +ℤ b)
unfolding plus
plus-of_cents a b =
    ap (λ u. record { unscaled = u; scale = 4 })
      (ap (λ x. x +ℤ (hundreds b *ℤ pos (10 ^ 0))) (times_one (hundreds a))
        ∙ ap (λ y. hundreds a +ℤ y) (times_one (hundreds b))
        ∙ sum_of_hundreds a b)

pub minus-of_cents : (a b : ℤ) → minus (of_cents a) (of_cents b) ≡ of_cents (a -ℤ b)
unfolding minus
minus-of_cents a b =
    ap (λ u. record { unscaled = u; scale = 4 })
      (ap (λ x. x -ℤ (hundreds b *ℤ pos (10 ^ 0))) (times_one (hundreds a))
        ∙ ap (λ y. hundreds a -ℤ y) (times_one (hundreds b))
        ∙ difference_of_hundreds a b)
