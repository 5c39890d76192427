-- ===== src/Validation.antt =====
-- airflow/plugins/nordbank_ops/validation.py: the gate that a batch's records pass or are
-- quarantined at. Children hold the values, the contract, and the proofs.
pub mod Values
pub mod Schema
pub mod Conformance
pub mod Partition
pub mod Total
mod Tests
use nordbank_data_platform.Common.{
  ℕ, String, Bool, true, false, ◌||◌, ◌&&◌, Option, none, some, List, [], ◌∷◌, map, ◌++◌, length,
  if◌then◌else◌, Result, ok, err, ◌>>=◌, ◌>>◌, ◌+◌,
}
use nordbank_data_platform.Common.Dict.{lookup}
use Values.{Value, null, is_null, matches_type, value_eq, hashable}
use Schema.{Column, Contract, Record, get, contract_keys}

-- A record's primary key, one value for each key column. (Python has the bare value for a key of one
-- column; one contract never mixes the two.)
abbrev pub Key : Type 0
Key = List Value

unfoldable pub record_key : Record → Contract → Key
record_key r c = map (get r) (contract_keys c)

unfoldable pub key_eq : Key → Key → Bool
unfolding value_eq
key_eq [] [] = true
key_eq (v ∷ vs) (w ∷ ws) = value_eq v w && key_eq vs ws
key_eq [] (w ∷ ws) = false
key_eq (v ∷ vs) [] = false

-- `key in seen_keys`, on a set without repetition
unfoldable pub has_key : Key → List Key → Bool
unfolding key_eq
has_key k [] = false
has_key k (j ∷ js) = key_eq k j || has_key k js

-- Python hashes a key before it looks for it.
unfoldable pub hash_key : Key → Result Bool
unfolding hashable
hash_key [] = ok true
hash_key (v ∷ vs) = do hashable v; hash_key vs

abbrev pub null_in_non_nullable : String
null_in_non_nullable = "null in a non-nullable column"

abbrev pub type_mismatch : String
type_mismatch = "value does not parse as its declared type"

abbrev pub primary_key_null : String
primary_key_null = "primary key is null"

abbrev pub primary_key_duplicate : String
primary_key_duplicate = "primary key is duplicated within the batch"

abbrev pub missing_column : String
missing_column = "column declared by the contract is absent from the record"

-- The offending value is the value itself (a list of one), or the whole key of a duplicate; `none` is
-- Python's `None`, as it is for a `record_key` that is not given.
pub record Rejection : Type 0 where
  pub column : String
  pub reason : String
  pub value : Option (List Value)
  pub record_key : Option Key

pub record ValidationResult : Type 0 where
  pub landed : List Record
  pub rejected : List (Record × Rejection)

abbrev pub rows_landed : ValidationResult → ℕ
rows_landed v = length v.landed

abbrev pub rows_quarantined : ValidationResult → ℕ
rows_quarantined v = length v.rejected

abbrev pub rows_read : ValidationResult → ℕ
rows_read v = rows_landed v + rows_quarantined v

-- The first key column that is null.
unfoldable pub null_key : List String → Record → Option String
null_key [] r = none
null_key (k ∷ ks) r = if is_null (get r k) then some k else null_key ks r

-- What the loop over the columns makes of a value that is present and not null.
unfoldable pub check_match : Column → Value → Key → Bool → Option Rejection
check_match c v key matched =
    if matched
    then none
    else some (record {
      column = c.name;
      reason = type_mismatch;
      value = some (v ∷ []);
      record_key = some key;
    })

-- What it makes of a column that is present.
unfoldable pub check_value : Column → Value → Key → Result (Option Rejection)
unfolding check_match
check_value c v key =
    if is_null v
    then (if c.is_nullable
        then ok none
        else ok (
            some (record {
              column = c.name;
              reason = null_in_non_nullable;
              value = none;
              record_key = some key;
            })))
    else (matches_type v c.data_type >>= λ matched. ok (check_match c v key matched))

unfoldable pub check_column : Column → Option Value → Key → Result (Option Rejection)
unfolding check_value
check_column c none key = ok (
    some (record { column = c.name; reason = missing_column; value = none; record_key = some key }))
check_column c (some v) key = check_value c v key

unfoldable pub check_columns : List Column → Record → Key → Result (Option Rejection)
unfolding check_column
check_columns [] r key = ok none
check_columns (c ∷ cs) r key = do
  found ← check_column c (lookup c.name r) key
  elim found [ some j ↦ ok (some j) | none ↦ check_columns cs r key ]

-- The duplicate test and the columns, once no key column is null.
unfoldable pub check_unseen : Record → Contract → List Key → Result (Option Rejection)
unfolding record_key has_key check_columns
check_unseen r c seen =
    if has_key (record_key r c) seen
    then ok (
        some (record {
          column = c.primary_key;
          reason = primary_key_duplicate;
          value = some (record_key r c);
          record_key = some (record_key r c);
        }))
    else check_columns c.columns r (record_key r c)

-- The first reason this record is refused, or none.
unfoldable pub validate_record : Record → Contract → List Key → Result (Option Rejection)
unfolding null_key hash_key check_unseen
validate_record r c seen = elim (null_key (contract_keys c) r) [
  | some k ↦
      ok (some (record { column = k; reason = primary_key_null; value = none; record_key = none }))
  | none ↦ hash_key (record_key r c) >> check_unseen r c seen
]

-- The loop of `validate`, over the keys seen so far.
unfoldable pub validate_from : Contract → List Key → List Record → Result ValidationResult
unfolding validate_record
validate_from c seen [] = ok (record { landed = []; rejected = [] })
validate_from c seen (r ∷ rs) = do
  verdict ← validate_record r c seen
  elim verdict [
    | none ↦ do
      rest ← validate_from c (record_key r c ∷ seen) rs
      ok (record rest { landed = r ∷ rest.landed })
    | some j ↦ do
      rest ← validate_from c seen rs
      ok (record rest { rejected = (r, j) ∷ rest.rejected })
  ]

unfoldable pub validate : List Record → Contract → Result ValidationResult
unfolding validate_from
validate rs c = validate_from c [] rs

-- The record reduced to the contract's columns, in their order.
unfoldable pub project : Record → List String → Record
project r [] = []
project r (n ∷ ns) = (n, get r n) ∷ project r ns
