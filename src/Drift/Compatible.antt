-- ===== src/Drift/Compatible.antt =====
-- When a live shape breaks the contract in force.
use nordbank_data_platform.Common.{
  String, ◌≡◌, refl, sym, ◌∙◌, ap, ◌↔◌, Bool, true, false, not, Option, none, some, List, [], ◌∷◌,
  ◌++◌, map, filter, filter-All, filter-from-All, All, All-impl, All-append, has_name, sorted_set,
  sorted_set-All, sorted_set-keeps-All, str_eq, str_eq_iff, str_eq_refl, Bool-cases, inl, inr,
  arith,
}
use nordbank_data_platform.Common.Dict.{Dict, lookup, keys}
use nordbank_data_platform.Validation.Schema.{Column, Contract}
use nordbank_data_platform.Drift.{
  DriftObservation, is_breaking, is_any, is_breaking_report, contracted, declared_type, actual_type,
  minus, shared, added, removed, retyped, is_retyped, rekeyed, classify,
}

-- The source has every column of the contract with the type the contract declares, and the key
-- that it is keyed on, where one is known, is the contract's.
pub record IsCompatible (c : Contract) (live : Dict String) (key : Option String) : Type 0 where
  pub typed : All (λ n. lookup n live ≡ some (declared_type (contracted c) n)) (keys (contracted c))
  pub keyed : (k : String) → key ≡ some k → k ≡ c.primary_key

abbrev Harmless : DriftObservation → Type 0
Harmless o = is_breaking o ≡ false

is_any-All : (os : List DriftObservation) → is_any (filter is_breaking os) ≡ false → All Harmless os
is_any-All [] h = tt
is_any-All (o ∷ os) h = elim (Bool-cases (is_breaking o)) [
  | inl e ↦ let k : true ≡ false = rw e at h in cc
  | inr e ↦ (e, is_any-All os (rw e at h))
]

All-is_any : (os : List DriftObservation) → All Harmless os → is_any (filter is_breaking os) ≡ false
All-is_any [] h = refl
All-is_any (o ∷ os) h = rw h.0 (All-is_any os h.1)

All-left :
    (xs ys : List DriftObservation) → All Harmless (xs ++ ys) → All Harmless xs × All Harmless ys
All-left [] ys h = (tt, h)
All-left (x ∷ xs) ys h = let (a, b) = All-left xs ys h.1 in ((h.0, a), b)

added-All : (live : Dict String) (ns : List String) → All Harmless (map (added live) ns)
added-All live [] = tt
added-All live (n ∷ ns) = (refl, added-All live ns)

abbrev None : {A : Type 0} → List A → Type 0
None xs = All (λ _. ⊥) xs

removed-None : (d : Dict Column) (ns : List String) → All Harmless (map (removed d) ns) → None ns
removed-None d [] h = tt
removed-None d (n ∷ ns) h = let e : true ≡ false = h.0 in cc

None-removed : (d : Dict Column) (ns : List String) → None ns → All Harmless (map (removed d) ns)
None-removed d [] h = tt
None-removed d (n ∷ ns) h = absurd h.0

retyped-None :
    (d : Dict Column) (live : Dict String) (ns : List String)
    → All Harmless (map (retyped d live) ns)
    → None ns
retyped-None d live [] h = tt
retyped-None d live (n ∷ ns) h = let e : true ≡ false = h.0 in cc

None-retyped :
    (d : Dict Column) (live : Dict String) (ns : List String)
    → None ns
    → All Harmless (map (retyped d live) ns)
None-retyped d live [] h = tt
None-retyped d live (n ∷ ns) h = absurd h.0

rekeyed-keyed :
    (c : Contract) (key : Option String)
    → All Harmless (rekeyed c key)
    → (k : String) → key ≡ some k
    → k ≡ c.primary_key
rekeyed-keyed c none h k e = cc
rekeyed-keyed c (some j) h k e = elim (Bool-cases (str_eq j c.primary_key)) [
  | inl q ↦ let r = (str_eq_iff j c.primary_key).0 q in cc
  | inr q ↦ let r : (true ≡ false) × Unit {0} = rw q at h in let s = r.0 in cc
]

keyed-rekeyed :
    (c : Contract) (key : Option String)
    → ((k : String) → key ≡ some k → k ≡ c.primary_key)
    → All Harmless (rekeyed c key)
keyed-rekeyed c none h = tt
keyed-rekeyed c (some j) h = rw (h j refl, str_eq_refl c.primary_key) tt

has_name-lookup :
    (n : String) (live : Dict String)
    → has_name n (keys live) ≡ true
    → lookup n live ≡ some (actual_type live n)
has_name-lookup n [] h = cc
has_name-lookup n ((m, t) ∷ live) h =
    ground (arith, str_eq_iff m n, str_eq_iff n m, has_name-lookup n live)

lookup-has_name :
    (n t : String) (live : Dict String) → lookup n live ≡ some t → has_name n (keys live) ≡ true
lookup-has_name n t [] h = cc
lookup-has_name n t ((m, s) ∷ live) h =
    ground (arith, str_eq_iff m n, str_eq_iff n m, lookup-has_name n t live)

-- What the classification asks of one contracted name, and what compatibility says of it.
abbrev Asked : Dict Column → Dict String → String → Type 0
Asked d live n =
    ((not (has_name n (keys live)) ≡ true → ⊥)
      × (has_name n (keys live) ≡ true → is_retyped d live n ≡ true → ⊥))

Asked-typed :
    (d : Dict Column) (live : Dict String) (n : String)
    → Asked d live n
    → lookup n live ≡ some (declared_type d n)
Asked-typed d live n (a, b) = elim (Bool-cases (has_name n (keys live))) [
  | inl e ↦ elim (Bool-cases (str_eq (declared_type d n) (actual_type live n))) [
    | inl q ↦ has_name-lookup n live e ∙ ap some (sym ((str_eq_iff _ _).0 q))
    | inr q ↦ absurd (b e (rw q refl))
  ]
  | inr e ↦ absurd (a (rw e refl))
]

typed-Asked :
    (d : Dict Column) (live : Dict String) (n : String)
    → lookup n live ≡ some (declared_type d n)
    → Asked d live n
typed-Asked d live n h =
    let e = lookup-has_name n (declared_type d n) live h in
    (
      (λ t. let k : false ≡ true = rw e at t in cc),
      (λ _ t. let k : false ≡ true = rw (h, str_eq_refl (declared_type d n)) at t in cc),
    )

All-both :
    (P Q : String → Type 0) (ns : List String) → All P ns → All Q ns → All (λ n. P n × Q n) ns
All-both P Q [] h k = tt
All-both P Q (n ∷ ns) h k = ((h.0, k.0), All-both P Q ns h.1 k.1)

-- A live shape is breaking in no other case than that it is not compatible: a contracted column is
-- gone, has another type, or the key is another.
pub classify-IsCompatible :
    (c : Contract) (live : Dict String) (key : Option String)
    → (is_breaking_report (classify c live key) ≡ false) ↔ IsCompatible c live key
unfolding classify
classify-IsCompatible c live key = (to, from)
  where
    d : Dict Column
    d = contracted c

    gone_test : String → Bool
    gone_test n = not (has_name n (keys live))

    here_test : String → Bool
    here_test n = has_name n (keys live)

    differ_test : String → Bool
    differ_test n = is_retyped d live n

    gone_names : List String
    gone_names = sorted_set (minus (keys d) (keys live))

    here_names : List String
    here_names = sorted_set (shared (keys d) (keys live))

    differ_names : List String
    differ_names = filter differ_test here_names

    news : List DriftObservation
    news = map (added live) (sorted_set (minus (keys live) (keys d)))

    olds : List DriftObservation
    olds = map (removed d) gone_names

    changes : List DriftObservation
    changes = map (retyped d live) differ_names

    to : is_breaking_report (classify c live key) ≡ false → IsCompatible c live key
    to h =
        let (_, h1) =
          All-left news (olds ++ (changes ++ rekeyed c key))
            (is_any-All (news ++ (olds ++ (changes ++ rekeyed c key))) h) in
        let (gone, h2) = All-left olds (changes ++ rekeyed c key) h1 in
        let (other, last) = All-left changes (rekeyed c key) h2 in
        let absent =
          filter-All (λ _. ⊥) gone_test (keys d)
            (sorted_set-All (λ _. ⊥) (minus (keys d) (keys live))
              (removed-None d gone_names gone)) in
        let same =
          filter-All (λ _. ⊥) differ_test here_names (retyped-None d live differ_names other) in
        let differ =
          filter-All (λ n. differ_test n ≡ true → ⊥) here_test (keys d)
            (sorted_set-All (λ n. differ_test n ≡ true → ⊥) (shared (keys d) (keys live)) same) in
        record {
          typed =
              All-impl (Asked d live) (λ n. lookup n live ≡ some (declared_type d n)) (keys d)
                (Asked-typed d live)
                (All-both (λ n. gone_test n ≡ true → ⊥)
                  (λ n. here_test n ≡ true → differ_test n ≡ true → ⊥) (keys d) absent differ);
          keyed = rekeyed-keyed c key last;
        }

    from : IsCompatible c live key → is_breaking_report (classify c live key) ≡ false
    from h =
        let asked : All (Asked d live) (keys d) =
          All-impl (λ n. lookup n live ≡ some (declared_type d n)) (Asked d live) (keys d)
            (typed-Asked d live) h.typed in
        let absent : All (λ n. gone_test n ≡ true → ⊥) (keys d) =
          All-impl (Asked d live) (λ n. gone_test n ≡ true → ⊥) (keys d) (λ n a. a.0) asked in
        let differ : All (λ n. here_test n ≡ true → differ_test n ≡ true → ⊥) (keys d) =
          All-impl (Asked d live) (λ n. here_test n ≡ true → differ_test n ≡ true → ⊥) (keys d)
            (λ n a. a.1) asked in
        All-is_any (news ++ (olds ++ (changes ++ rekeyed c key))) (
          All-append Harmless news (olds ++ (changes ++ rekeyed c key)) (added-All live _) (
            All-append Harmless olds (changes ++ rekeyed c key)
              (None-removed d gone_names (
                sorted_set-keeps-All (λ _. ⊥) (minus (keys d) (keys live))
                  (filter-from-All (λ _. ⊥) gone_test (keys d) absent)))
              (All-append Harmless changes (rekeyed c key)
                (None-retyped d live differ_names (
                  filter-from-All (λ _. ⊥) differ_test here_names
                    (sorted_set-keeps-All (λ n. differ_test n ≡ true → ⊥)
                      (shared (keys d) (keys live))
                      (filter-from-All (λ n. differ_test n ≡ true → ⊥) here_test (keys d) differ))))
                (keyed-rekeyed c key h.keyed))))
