-- ===== src/Common/Lists.antt =====
-- Lists measured by native numbers, filters and predicates by recursion, under the library's names.
use Prim.Native.Nat.{ℕ, zero, suc, ◌+◌}
use mathlib.Core.Path.{◌≡◌, refl, ap}
use mathlib.Core.Logic.{◌⊎◌, ◌↔◌, inl, inr}
use mathlib.Core.Bool.{Bool, true, false, ◌||◌, ◌&&◌}
use mathlib.Core.List.{List, [], ◌∷◌, ◌++◌, map}
use native.Mathlib.Omega.{arith}
use nordbank_data_platform.Common.Tests.{if◌then◌else◌, Bool-cases}

module _ {ℓ} {A : Type ℓ} where
  abbrev pub length : List A → ℕ
  length [] = 0
  length (x ∷ xs) = suc (length xs)

  abbrev pub get_or : List A → ℕ → A → A
  get_or [] i d = d
  get_or (x ∷ xs) zero d = x
  get_or (x ∷ xs) (suc i) d = get_or xs i d

  -- `[x for x in xs if p(x)]`
  abbrev pub filter : (A → Bool) → List A → List A
  filter p [] = []
  filter p (x ∷ xs) = let rest = filter p xs in if p x then x ∷ rest else rest

  abbrev pub any : (A → Bool) → List A → Bool
  any p [] = false
  any p (x ∷ xs) = p x || any p xs

  abbrev pub all : (A → Bool) → List A → Bool
  all p [] = true
  all p (x ∷ xs) = p x && all p xs

  -- A predicate on every entry, and on some entry.
  abbrev pub All {κ} : (A → Type κ) → List A → Type κ
  All P [] = Unit
  All P (x ∷ xs) = P x × All P xs

  abbrev pub Any : (A → Type 0) → List A → Type 0
  Any P [] = ⊥
  Any P (x ∷ xs) = P x ⊎ Any P xs

  pub append_nil : (xs : List A) → xs ++ [] ≡ xs
  append_nil [] = refl
  append_nil (x ∷ xs) = ap (λ ys. x ∷ ys) (append_nil xs)

  pub append_assoc : (xs ys zs : List A) → (xs ++ ys) ++ zs ≡ xs ++ (ys ++ zs)
  append_assoc [] ys zs = refl
  append_assoc (x ∷ xs) ys zs = ap (λ t. x ∷ t) (append_assoc xs ys zs)

  pub length-append : (xs ys : List A) → length (xs ++ ys) ≡ length xs + length ys
  length-append [] ys = omega arith
  length-append (x ∷ xs) ys = omega (arith, length-append xs ys)

module _ {ℓ κ} {A : Type ℓ} where
  pub All-append :
      (P : A → Type κ) (front back : List A) → All P front → All P back → All P (front ++ back)
  All-append P [] back none_of b = b
  All-append P (f ∷ front) back (head, tail) b = (head, All-append P front back tail b)

  pub All-impl : (P Q : A → Type κ) (xs : List A) → ((a : A) → P a → Q a) → All P xs → All Q xs
  All-impl P Q [] f h = tt
  All-impl P Q (x ∷ xs) f h = (f x h.0, All-impl P Q xs f h.1)

pub map-append {ℓ κ} :
    {A : Type ℓ} {B : Type κ} (f : A → B) (xs ys : List A) → map f (xs ++ ys) ≡ map f xs ++ map f ys
map-append f [] ys = refl
map-append f (x ∷ xs) ys = ap (λ zs. f x ∷ zs) (map-append f xs ys)

pub filter-Any {ℓ} :
    {A : Type ℓ} (P : A → Type 0) (p : A → Bool) (xs : List A)
    → Any P (filter p xs)
    → Any (λ x. (p x ≡ true) × P x) xs
filter-Any P p [] h = absurd h
filter-Any P p (x ∷ xs) h = elim (Bool-cases (p x)) [
  | inl e ↦
      let k : Any P (x ∷ filter p xs) = rw e at h in
      elim k [ inl q ↦ inl (e, q) | inr q ↦ inr (filter-Any P p xs q) ]
  | inr e ↦ inr (filter-Any P p xs (rw e at h))
]

pub map-Any {ℓ κ} :
    {A : Type ℓ} {B : Type κ} (P : B → Type 0) (f : A → B) (xs : List A)
    → Any P (map f xs)
    → Any (λ x. P (f x)) xs
map-Any P f [] h = absurd h
map-Any P f (x ∷ xs) (inl h) = inl h
map-Any P f (x ∷ xs) (inr h) = inr (map-Any P f xs h)

pub Any-impl {ℓ} :
    {A : Type ℓ} (P Q : A → Type 0) (xs : List A) → ((a : A) → P a → Q a) → Any P xs → Any Q xs
Any-impl P Q [] f h = absurd h
Any-impl P Q (x ∷ xs) f (inl h) = inl (f x h)
Any-impl P Q (x ∷ xs) f (inr h) = inr (Any-impl P Q xs f h)

pub Any-with-All {ℓ} :
    {A : Type ℓ} (P Q : A → Type 0) (xs : List A) → Any P xs → All Q xs → Any (λ x. P x × Q x) xs
Any-with-All P Q [] m h = m
Any-with-All P Q (x ∷ xs) (inl m) h = inl (m, h.0)
Any-with-All P Q (x ∷ xs) (inr m) h = inr (Any-with-All P Q xs m h.1)

module _ {ℓ} {A : Type ℓ} (P : A → Type 0) (p : A → Bool) where
  pub filter-All : (xs : List A) → All P (filter p xs) → All (λ x. p x ≡ true → P x) xs
  filter-All [] h = tt
  filter-All (x ∷ xs) h = elim (Bool-cases (p x)) [
    | inl e ↦ let k : All P (x ∷ filter p xs) = rw e at h in ((λ _. k.0), filter-All xs k.1)
    | inr e ↦ ((λ t. cc), filter-All xs (rw e at h))
  ]

  pub filter-from-All : (xs : List A) → All (λ x. p x ≡ true → P x) xs → All P (filter p xs)
  filter-from-All [] h = tt
  filter-from-All (x ∷ xs) h = elim (Bool-cases (p x)) [
    | inl e ↦ rw e (h.0 e, filter-from-All xs h.1)
    | inr e ↦ rw e (filter-from-All xs h.1)
  ]

module _ {ℓ} {A : Type ℓ} (P : A → Type 0) (p : A → Bool)
    (decides : (x : A) → (p x ≡ true) ↔ P x) where
  pub Any_of_any : (xs : List A) → any p xs ≡ true → Any P xs
  Any_of_any [] h = cc
  Any_of_any (x ∷ xs) h = elim (Bool-cases (p x)) [
    | inl e ↦ inl ((decides x).0 e)
    | inr e ↦ inr (Any_of_any xs (rw e at h))
  ]

  pub any_of_Any : (xs : List A) → Any P xs → any p xs ≡ true
  any_of_Any [] h = absurd h
  any_of_Any (x ∷ xs) (inl h) = rw ((decides x).1 h) refl
  any_of_Any (x ∷ xs) (inr h) = ground (arith, any_of_Any xs h)
