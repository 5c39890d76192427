-- ===== src/Generator/Lending/Plan.antt =====
-- The installment plan: it repays the principal exactly, an installment a month.
use nordbank_data_platform.Common.{
  ℕ, zero, suc, ◌+◌, ◌-◌, ◌*◌, ◌≤◌, ◌<◌, ◌≡◌, refl, ap, ◌∙◌, arith, Bool-cases, List, [], ◌∷◌,
  length, All, ◌==◌, ==_iff, inl, inr, ok,
}
use nordbank_data_platform.Common.Time.{CivilDate}
use nordbank_data_platform.Common.Int.{ℤ, pos, ◌+ℤ◌, ◌-ℤ◌, eq_of_parts, +ℤ_parts, -ℤ_parts}
use nordbank_data_platform.Generator.Money.{
  Decimal, of_int, of_cents, nearest_cents, cents, times, over, plus, minus, less, cents-of_cents,
  plus-of_cents, minus-of_cents,
}
use nordbank_data_platform.Generator.Calendar.{IsDate, add_months}
use nordbank_data_platform.Generator.Calendar.Months.{IsMonthLater, add_months-IsMonthLater}
use nordbank_data_platform.Generator.Lending.{
  Installment, annuity_payment, principal_part, installment, installments, schedule,
}

abbrev pub total_principal : List Installment → Decimal
total_principal [] = of_cents (pos 0)
total_principal (x ∷ xs) = plus x.principal_component (total_principal xs)

-- Installments numbered on, each that many months after the first.
abbrev pub AreMonthly : CivilDate → ℕ → List Installment → Type 0
AreMonthly first number [] = Unit
AreMonthly first number (x ∷ xs) =
    (x.number ≡ number)
    × IsMonthLater first (pos (number - 1)) x.due_date
    × AreMonthly first (suc number) xs

abbrev pub AddsUp : Installment → Type 0
AddsUp x = x.due_amount ≡ plus x.principal_component x.interest_component

-- What the installments that are left repay of an outstanding amount.
abbrev repaid : ℕ → ℤ → ℤ
repaid zero c = pos 0
repaid (suc left) c = c

record IsPlanFrom (first : CivilDate) (left number : ℕ) (c : ℤ) (plan : List Installment)
    : Type 0 where
  pub counted : length plan ≡ left
  pub monthly : AreMonthly first number plan
  pub adding : All AddsUp plan
  pub repaying : total_principal plan ≡ of_cents (repaid left c)

plus_zero : (c : ℤ) → c +ℤ pos 0 ≡ c
unfolding ◌+ℤ◌
plus_zero c = ground arith

plus-minus : (p c : ℤ) → p +ℤ (c -ℤ p) ≡ c
plus-minus p c = eq_of_parts (p +ℤ (c -ℤ p)) c (omega (arith, +ℤ_parts p (c -ℤ p), -ℤ_parts c p))

last_part :
    (number term : ℕ) (payment outstanding interest : Decimal)
    → number ≡ term
    → principal_part number term payment outstanding interest ≡ outstanding
unfolding principal_part
last_part number term payment outstanding interest h = rw ((==_iff number term).1 h) refl

part_in_cents :
    (number term : ℕ) (payment interest : Decimal) (c : ℤ)
    → (p : ℤ) × (principal_part number term payment (of_cents c) interest ≡ of_cents p)
unfolding principal_part cents
part_in_cents number term payment interest c = elim (Bool-cases (number == term)) [
  | inl e ↦ (c, rw e refl)
  | inr e ↦ elim (Bool-cases (less (of_cents c) (cents (minus payment interest)))) [
    | inl l ↦ (c, rw e (rw l refl))
    | inr l ↦ (nearest_cents (minus payment interest), rw e (rw l refl))
  ]
]

-- The part that an installment repays leaves what the later ones repay.
part_then_rest :
    (left number term : ℕ) (payment interest : Decimal) (c : ℤ)
    → number + left ≡ term
    → (p : ℤ) × (principal_part number term payment (of_cents c) interest ≡ of_cents p)
      × (p +ℤ repaid left (c -ℤ p) ≡ c)
part_then_rest zero number term payment interest c h =
    (c, last_part number term payment (of_cents c) interest (omega arith), plus_zero c)
part_then_rest (suc left) number term payment interest c h =
    let part = part_in_cents number term payment interest c in (part.0, part.1, plus-minus part.0 c)

due_date_later :
    (first : CivilDate) (k : ℕ)
    → IsDate first
    → first.year * 12 + (first.month - 1) + k < 120000
    → (due : CivilDate) × (add_months first (pos k) ≡ ok due) × IsMonthLater first (pos k) due
unfolding ◌+ℤ◌
due_date_later first k h below =
    let start : ℕ = first.year * 12 + (first.month - 1) in
    add_months-IsMonthLater first (pos k) (start + k) h
      (eq_of_parts (pos start +ℤ pos k) (pos (start + k)) (ground arith)) (omega arith) below

cents_lem : (x : Decimal) → cents x ≡ of_cents (nearest_cents x)
unfolding cents
cents_lem x = refl

cents-plus :
    {x y : Decimal} (a b : ℤ) → x ≡ of_cents a → y ≡ of_cents b → cents (plus x y) ≡ plus x y
cents-plus a b at_a at_b = rw at_a (rw at_b (rw (plus-of_cents a b) (cents-of_cents (a +ℤ b))))

AddsUp-installment :
    (number term : ℕ) (payment rate : Decimal) (c : ℤ) (due : CivilDate)
    → AddsUp (installment number term payment rate (of_cents c) due)
unfolding installment
AddsUp-installment number term payment rate c due =
    let interest : Decimal = cents (times (of_cents c) rate) in
    let part = part_in_cents number term payment interest c in
    cents-plus part.0 (nearest_cents (times (of_cents c) rate)) part.1
      (cents_lem (times (of_cents c) rate))

total_of :
    {x y : Decimal} (a b : ℤ) → x ≡ of_cents a → y ≡ of_cents b → plus x y ≡ of_cents (a +ℤ b)
total_of a b at_a at_b = rw at_a (rw at_b (plus-of_cents a b))

installments-step :
    (left number term : ℕ) (payment rate outstanding : Decimal) (first due : CivilDate)
    {remaining : Decimal} {rest : List Installment}
    → add_months first (pos (number - 1)) ≡ ok due
    → cents (
        minus outstanding
          (installment number term payment rate outstanding due).principal_component)
      ≡ remaining
    → installments left (suc number) term payment rate remaining first ≡ ok rest
    → installments (suc left) number term payment rate outstanding first
      ≡ ok (installment number term payment rate outstanding due ∷ rest)
unfolding installments
installments-step left number term payment rate outstanding first due at_due at_left at_rest =
    rw at_due (rw at_left (rw at_rest refl))

-- The lending plan of whole cents, from an installment on.
installments-IsPlanFrom :
    (left number term : ℕ) (payment rate : Decimal) (c : ℤ) (first : CivilDate)
    → number + left ≡ suc term
    → 1 ≤ number
    → IsDate first
    → first.year * 12 + (first.month - 1) + term ≤ 120000
    → (plan : List Installment) × (installments left number term payment rate (of_cents c) first
        ≡ ok plan)
      × IsPlanFrom first left number c plan
unfolding installment installments
installments-IsPlanFrom zero number term payment rate c first h from date_ok below =
    ([], refl, record { counted = refl; monthly = tt; adding = tt; repaying = refl })
installments-IsPlanFrom (suc left) number term payment rate c first h from date_ok below =
    let due = due_date_later first (number - 1) date_ok (omega arith) in
    let part =
      part_then_rest left number term payment (cents (times (of_cents c) rate)) c (omega arith) in
    let x : Installment = installment number term payment rate (of_cents c) due.0 in
    let ih =
      installments-IsPlanFrom left (suc number) term payment rate (c -ℤ part.0) first (omega arith)
        (omega arith) date_ok below in
    let left_over : cents (minus (of_cents c) x.principal_component) ≡ of_cents (c -ℤ part.0) =
      ap (λ p. cents (minus (of_cents c) p)) part.1
      ∙ ap cents (minus-of_cents c part.0)
      ∙ cents-of_cents (c -ℤ part.0) in
    (
      x ∷ ih.0,
      installments-step left number term payment rate (of_cents c) first due.0 due.1 left_over ih.1,
      record {
        counted = ap (λ n. suc n) ih.2.counted;
        monthly = (refl, due.2, ih.2.monthly);
        adding = (AddsUp-installment number term payment rate c due.0, ih.2.adding);
        repaying =
            total_of part.0 (repaid left (c -ℤ part.0)) part.1 ih.2.repaying ∙ ap of_cents part.2;
      },
    )

no_payment :
    (power : Decimal → ℕ → Decimal) (principal annual_rate : Decimal) {payment : Decimal}
    → annuity_payment power principal annual_rate 0 ≡ ok payment
    → ⊥
unfolding annuity_payment
no_payment power principal annual_rate h = cc

-- What a plan of `term` installments of a principal is.
pub record IsPlan (principal : Decimal) (term : ℕ) (first : CivilDate) (plan : List Installment)
    : Type 0 where
  pub counted : length plan ≡ term
  pub monthly : AreMonthly first 1 plan
  pub adding : All AddsUp plan
  pub repaying : total_principal plan ≡ principal

-- When the principal is a whole number of cents, the level payment is returned, and no
-- installment falls due after the year 9999, then `schedule` returns a plan: as many installments
-- as months of the term, numbered from 1, the n-th due n - 1 months after the first, each the
-- exact sum of its principal and its interest, the principal components summing to the principal.
pub schedule-IsPlan :
    (power : Decimal → ℕ → Decimal) (annual_rate : Decimal) (term : ℕ) (first : CivilDate) (c : ℤ)
    {payment : Decimal}
    → annuity_payment power (of_cents c) annual_rate term ≡ ok payment
    → IsDate first
    → first.year * 12 + (first.month - 1) + term ≤ 120000
    → (plan : List Installment) × (schedule power (of_cents c) annual_rate term first ≡ ok plan)
      × IsPlan (of_cents c) term first plan
unfolding schedule
schedule-IsPlan power annual_rate zero first c paid date_ok below =
    absurd (no_payment power (of_cents c) annual_rate paid)
schedule-IsPlan power annual_rate (suc n) first c {payment} paid date_ok below =
    let plan =
      installments-IsPlanFrom (suc n) 1 (suc n) payment (over annual_rate (of_int 12)) c first
        (omega arith) (omega arith) date_ok below in
    (
      plan.0,
      rw paid plan.1,
      record {
        counted = plan.2.counted;
        monthly = plan.2.monthly;
        adding = plan.2.adding;
        repaying = plan.2.repaying;
      },
    )
