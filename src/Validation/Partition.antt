-- ===== src/Validation/Partition.antt =====
-- What `validate` does with a batch: every record lands or is quarantined, in order; what lands
-- conforms to the contract and has a key of its own, and what is quarantined does not.
use nordbank_data_platform.Common.{
  true, false, true, false, ◌≡◌, ◌⊎◌, inl, inr, Option, none, some, List, [], ◌∷◌, map, All, Any,
  All-impl, ok, ◌>>=◌, bind-eq-ok, ok-injective,
}
use nordbank_data_platform.Validation.{
  Key, record_key, key_eq, Rejection, ValidationResult, validate_record, validate_from, validate,
}
use nordbank_data_platform.Validation.Schema.{Contract, Record}
use nordbank_data_platform.Validation.Conformance.{
  Conforms, IsIn, has_key-All, validate_record-none, validate_record-some,
}

-- `all` is an interleaving of the two lists that keeps the order of each.
pub data Split {A : Type 0} : List A → List A → List A → Type 0 where
  none_left : Split [] [] []
  to_left : {ls rs all : List A} (a : A) → Split ls rs all → Split (a ∷ ls) rs (a ∷ all)
  to_right : {ls rs all : List A} (a : A) → Split ls rs all → Split ls (a ∷ rs) (a ∷ all)

-- The landed records' keys differ from those seen before and from each other.
abbrev pub Distinct : Contract → List Key → List Record → Type 0
Distinct c seen [] = Unit
Distinct c seen (l ∷ ls) =
    All (λ k. key_eq (record_key l c) k ≡ false) seen × Distinct c (record_key l c ∷ seen) ls

-- A record that is refused breaks the contract, or has the key of a record that lands.
abbrev pub Refusable : Contract → List Key → List Record → Record → Type 0
Refusable c seen landed r =
    ¬ Conforms c r
    ⊎ (IsIn (record_key r c) seen
        ⊎ Any (λ l. key_eq (record_key r c) (record_key l c) ≡ true) landed)

pub record IsPartition (c : Contract) (seen : List Key) (rs : List Record) (v : ValidationResult)
    : Type 0 where
  pub split : Split v.landed (map (λ (p : Record × Rejection). p.0) v.rejected) rs
  pub conform : All (Conforms c) v.landed
  pub distinct : Distinct c seen v.landed
  pub refused : All (λ (p : Record × Rejection). Refusable c seen v.landed p.0) v.rejected

Refusable-land :
    (c : Contract) (seen : List Key) (l : Record) (ls : List Record) (r : Record)
    → Refusable c (record_key l c ∷ seen) ls r
    → Refusable c seen (l ∷ ls) r
Refusable-land c seen l ls r (inl n) = inl n
Refusable-land c seen l ls r (inr (inl (inl e))) = inr (inr (inl e))
Refusable-land c seen l ls r (inr (inl (inr e))) = inr (inl e)
Refusable-land c seen l ls r (inr (inr e)) = inr (inr (inr e))

Refusable-now :
    (c : Contract) (seen : List Key) (r : Record) (ls : List Record)
    → ¬ Conforms c r ⊎ IsIn (record_key r c) seen
    → Refusable c seen ls r
Refusable-now c seen r ls (inl n) = inl n
Refusable-now c seen r ls (inr m) = inr (inl m)

validate_from-IsPartition :
    (c : Contract) (seen : List Key) (rs : List Record) (v : ValidationResult)
    → validate_from c seen rs ≡ ok v
    → IsPartition c seen rs v
unfolding validate_from
validate_from-IsPartition c seen [] v h =
    rw (← ok-injective h) (record { split = none_left; conform = tt; distinct = tt; refused = tt })
validate_from-IsPartition c seen (r ∷ rs) v h =
    let (o, p, q) = bind-eq-ok (validate_record r c seen) _ h in
    go o p q (λ seen' rest. validate_from-IsPartition c seen' rs rest)
  where
    go :
        (o : Option Rejection)
        → validate_record r c seen ≡ ok o
        → (elim o [
          | none ↦
              (validate_from c (record_key r c ∷ seen) rs >>= λ rest.
              ok (record rest { landed = r ∷ rest.landed }))
          | some j ↦
              (validate_from c seen rs >>= λ rest.
              ok (record rest { rejected = (r, j) ∷ rest.rejected }))
        ])
          ≡ ok v
        → ((seen' : List Key) (rest : ValidationResult)
            → validate_from c seen' rs ≡ ok rest
            → IsPartition c seen' rs rest)
        → IsPartition c seen (r ∷ rs) v
    go none p q ih =
        let (rest, p', q') = bind-eq-ok (validate_from c (record_key r c ∷ seen) rs) _ q in
        let (fits, new) = validate_record-none r c seen p in
        let part = ih (record_key r c ∷ seen) rest p' in
        rw (← ok-injective q') (record {
          split = to_left r part.split;
          conform = (fits, part.conform);
          distinct = (has_key-All (record_key r c) seen new, part.distinct);
          refused =
              All-impl _ _ rest.rejected (λ x. Refusable-land c seen r rest.landed x.0)
                part.refused;
        })
    go (some j) p q ih =
        let (rest, p', q') = bind-eq-ok (validate_from c seen rs) _ q in
        let part = ih seen rest p' in
        rw (← ok-injective q') (record {
          split = to_right r part.split;
          conform = part.conform;
          distinct = part.distinct;
          refused = (
            Refusable-now c seen r rest.landed (validate_record-some r c seen j p),
            part.refused,
          );
        })

-- Whatever the batch, a validation that returns is such a partition of it.
pub validate-IsPartition :
    (rs : List Record) (c : Contract) (v : ValidationResult)
    → validate rs c ≡ ok v
    → IsPartition c [] rs v
unfolding validate
validate-IsPartition rs c v h = validate_from-IsPartition c [] rs v h
