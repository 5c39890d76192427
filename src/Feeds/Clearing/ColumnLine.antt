-- ===== src/Feeds/Clearing/ColumnLine.antt =====
-- When a column line is accepted.
use nordbank_data_platform.Common.{
  String, ◌≡◌, ◌↔◌, refl, sym, Bool, true, false, not, none, List, [], ◌∷◌, filter, has_name,
  str_eq, str_eq_iff, str_eq_refl, Bool-cases, inl, inr,
}
use mathlib.Core.Path.{subst}
use nordbank_data_platform.Feeds.Clearing.{
  names_eq, absent_fields, present_fields, check_order, classify_absent, classify_column_line,
}

names_eq_sound : (ns ms : List String) → names_eq ns ms ≡ true → ns ≡ ms
names_eq_sound [] [] h = refl
names_eq_sound [] (m ∷ ms) h = cc
names_eq_sound (n ∷ ns) [] h = cc
names_eq_sound (n ∷ ns) (m ∷ ms) h = elim (Bool-cases (str_eq n m)) [
  | inl e ↦ let rest = names_eq_sound ns ms (rw e at h) in let same = (str_eq_iff n m).0 e in cc
  | inr e ↦ let k : false ≡ true = rw e at h in cc
]

names_eq_refl : (ns : List String) → names_eq ns ns ≡ true
names_eq_refl [] = refl
names_eq_refl (n ∷ ns) = rw (str_eq_refl n, names_eq_refl ns) refl

-- A name of a filtered list is a name of the list.
has_name-filter :
    (p : String → Bool) (n : String) (ns : List String)
    → has_name n (filter p ns) ≡ true
    → has_name n ns ≡ true
has_name-filter p n [] h = h
has_name-filter p n (m ∷ ms) h = elim (Bool-cases (p m)) [
  | inl e ↦ elim (Bool-cases (str_eq n m)) [
    | inl q ↦ rw q refl
    | inr q ↦ rw q (has_name-filter p n ms (rw (e, q) at h))
  ]
  | inr e ↦ elim (Bool-cases (str_eq n m)) [
    | inl q ↦ rw q refl
    | inr q ↦ rw q (has_name-filter p n ms (rw e at h))
  ]
]

own_names :
    (ns : List String) (line : List String)
    → ((n : String) → has_name n ns ≡ true → has_name n line ≡ true)
    → filter (λ n. not (has_name n line)) ns ≡ []
own_names [] line h = refl
own_names (n ∷ ns) line h = rw (h n (rw (str_eq_refl n) refl)) (
    own_names ns line
      (λ m k. h m (elim (Bool-cases (str_eq m n)) [ inl q ↦ rw q refl | inr q ↦ rw q k ])))

-- A column line is accepted exactly where the contract's fields, with any others left out, arrive
-- in the contract's order.
pub classify_column_line-accepts :
    (line expected : List String)
    → ((classify_column_line line expected).1 ≡ none) ↔ (present_fields line expected ≡ expected)
unfolding classify_column_line classify_absent check_order
classify_column_line-accepts line expected = (to (absent_fields line expected), from)
  where
    ordered : (check_order line expected).1 ≡ none → present_fields line expected ≡ expected
    ordered h = elim (Bool-cases (names_eq (present_fields line expected) expected)) [
      | inl e ↦ names_eq_sound (present_fields line expected) expected e
      | inr e ↦ let k = rw e at h in cc
    ]

    to :
        (missing : List String)
        → (classify_absent line expected missing).1 ≡ none
        → present_fields line expected ≡ expected
    to [] h = ordered h
    to (m ∷ ms) h = cc

    from :
        present_fields line expected ≡ expected
        → (classify_absent line expected (absent_fields line expected)).1 ≡ none
    from h =
        let here : absent_fields line expected ≡ [] = own_names expected line (λ n k.
          has_name-filter (λ m. has_name m expected) n line
            (subst (λ x. has_name n x ≡ true) (sym h) k)) in
        let same : names_eq (present_fields line expected) expected ≡ true =
          subst (λ x. names_eq x expected ≡ true) (sym h) (names_eq_refl expected) in
        subst (λ m. (classify_absent line expected m).1 ≡ none) (sym here) (rw same refl)
