-- ===== src/Validation/Total.antt =====
-- `validate` returns for every batch, where the contract's types are known to the gate.
use nordbank_data_platform.Common.{
  if◌then◌else◌, Result, is_ok, is_ok-bind, value_of_ok, map, inl, inr, ◌≡◌, refl, Bool, true,
  false, ◌||◌, Option, none, some, String, List, [], ◌∷◌, arith, All, Option-cases, ok, has_name,
  str_eq, ◌>>=◌,
}
use nordbank_data_platform.Common.Dict.{lookup}
use text.Mathlib.Text.{starts_with}
use nordbank_data_platform.Validation.{
  Key, record_key, Rejection, ValidationResult, hash_key, null_key, check_column, check_columns,
  validate_record, validate_from, validate,
}
use nordbank_data_platform.Validation.Values.{
  Value, is_list_or_dict, base_type, matches_base, matches_type, textual, integral, decimals,
}
use nordbank_data_platform.Validation.Schema.{Column, Contract, Record, get, contract_keys}
use nordbank_data_platform.Validation.Partition.{IsPartition, validate-IsPartition}

-- The base types that the gate knows.
abbrev pub known_base : String → Bool
known_base b =
    has_name b textual
    || (has_name b integral
        || (has_name b decimals
            || (str_eq b "boolean"
                || (str_eq b "date"
                    || (starts_with b "timestamp"
                        || (has_name b ("double precision" ∷ "real" ∷ []) || str_eq b "json"))))))

abbrev pub IsKnown : Column → Type 0
IsKnown c = known_base (base_type c.data_type) ≡ true

-- One rung of a ladder of tests that each return.
one_of :
    (p q x : Bool) (m : Result Bool)
    → (p || q) ≡ true
    → (q ≡ true → is_ok m ≡ true)
    → is_ok (if p then ok x else m) ≡ true
one_of true q x m h k = refl
one_of false q x m h k = k h

matches_base-total :
    (v : Value) (d b : String) → known_base b ≡ true → is_ok (matches_base v d b) ≡ true
unfolding matches_base
matches_base-total v d b h = one_of (has_name b textual) _ _ _ h λ h.
    one_of (has_name b integral) _ _ _ h λ h. one_of (has_name b decimals) _ _ _ h λ h.
      one_of (str_eq b "boolean") _ _ _ h λ h. one_of (str_eq b "date") _ _ _ h λ h.
        one_of (starts_with b "timestamp") _ _ _ h
          λ h. one_of (has_name b ("double precision" ∷ "real" ∷ [])) _ _ _ h λ h. rw h refl

matches_type-total :
    (v : Value) (d : String) → known_base (base_type d) ≡ true → is_ok (matches_type v d) ≡ true
unfolding matches_type
matches_type-total v d h = matches_base-total v d (base_type d) h

check_column-total :
    (c : Column) (o : Option Value) (key : Key) → IsKnown c → is_ok (check_column c o key) ≡ true
unfolding check_column
check_column-total c none key h = refl
check_column-total c (some v) key h = ground (arith, matches_type-total v c.data_type h)

check_columns-total :
    (cs : List Column) (r : Record) (key : Key)
    → All IsKnown cs
    → is_ok (check_columns cs r key) ≡ true
unfolding check_columns
check_columns-total [] r key h = refl
check_columns-total (c ∷ cs) r key h =
    is_ok-bind (check_column c (lookup c.name r) key) _
      (check_column-total c (lookup c.name r) key h.0)
      (λ o _. next o (check_columns-total cs r key h.1))
  where
    next :
        (o : Option Rejection)
        → is_ok (check_columns cs r key) ≡ true
        → is_ok (elim o [ some j ↦ ok (some j) | none ↦ check_columns cs r key ]) ≡ true
    next none rest = rest
    next (some j) rest = refl

-- No key column holds a list or a mapping.
abbrev pub HasHashableKey : Contract → Record → Type 0
HasHashableKey c r = All (λ k. is_list_or_dict (get r k) ≡ false) (contract_keys c)

hash_key-total :
    (r : Record) (ks : List String)
    → All (λ k. is_list_or_dict (get r k) ≡ false) ks
    → is_ok (hash_key (map (get r) ks)) ≡ true
unfolding hash_key
hash_key-total r [] h = refl
hash_key-total r (k ∷ ks) h = rw (h.0) (hash_key-total r ks h.1)

validate_record-total :
    (r : Record) (c : Contract) (seen : List Key)
    → All IsKnown c.columns
    → HasHashableKey c r
    → is_ok (validate_record r c seen) ≡ true
unfolding validate_record
validate_record-total r c seen known key = elim (Option-cases (null_key (contract_keys c) r)) [
  | inl e ↦
      rw (e, validate_record)
        (is_ok-bind (hash_key (record_key r c)) _ (hash_key-total r (contract_keys c) key)
          (λ _ _. ground (arith, check_columns-total c.columns r (record_key r c) known)))
  | inr (k, e) ↦ rw (e, validate_record) refl
]

validate_from-total :
    (c : Contract) (seen : List Key) (rs : List Record)
    → All IsKnown c.columns
    → All (HasHashableKey c) rs
    → is_ok (validate_from c seen rs) ≡ true
unfolding validate_from
validate_from-total c seen [] known keyed = refl
validate_from-total c seen (r ∷ rs) known keyed =
    is_ok-bind (validate_record r c seen) _ (validate_record-total r c seen known keyed.0)
      (λ o _. next o (λ seen'. validate_from-total c seen' rs known keyed.1))
  where
    next :
        (o : Option Rejection)
        → ((seen' : List Key) → is_ok (validate_from c seen' rs) ≡ true)
        → is_ok (elim o [
          | none ↦
              (validate_from c (record_key r c ∷ seen) rs >>= λ rest.
              ok (record rest { landed = r ∷ rest.landed }))
          | some j ↦
              (validate_from c seen rs >>= λ rest.
              ok (record rest { rejected = (r, j) ∷ rest.rejected }))
        ])
          ≡ true
    next none ih = ground (arith, ih (record_key r c ∷ seen))
    next (some j) ih = ground (arith, ih seen)

-- Under a contract whose declared types the gate knows, and over records whose key columns hold no
-- list or mapping, `validate` returns.
pub validate-total :
    (rs : List Record) (c : Contract)
    → All IsKnown c.columns
    → All (HasHashableKey c) rs
    → (v : ValidationResult) × (validate rs c ≡ ok v) × IsPartition c [] rs v
unfolding validate
validate-total rs c known keyed =
    let (v, e) = value_of_ok (validate_from c [] rs) (validate_from-total c [] rs known keyed) in
    (v, e, validate-IsPartition rs c v e)
