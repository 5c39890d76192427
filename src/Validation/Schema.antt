-- ===== src/Validation/Schema.antt =====
-- The contract that a batch is validated against (`Contract` and `ContractColumn` of
-- scripts/data_contract.py) and the record that a source delivers.
use nordbank_data_platform.Common.{
  ℕ, String, Bool, Option, none, some, List, [], ◌∷◌, map, str_eq, filter,
}
use nordbank_data_platform.Common.Dict.{Dict, lookup}
use nordbank_data_platform.Validation.Values.{Value, null}

pub record Column : Type 0 where
  pub name : String
  pub data_type : String
  pub is_nullable : Bool
  pub classification : String
  pub origin : String

-- `fingerprint` is a SHA-256 of the contract's content, and `format` what an authored contract says
-- of its delivery: the fields of its header record, or those of its totals record.
pub record Contract : Type 0 where
  pub source_system : String
  pub source_schema : String
  pub entity : String
  pub contract_version : ℕ
  pub watermark_column : String
  pub primary_key : String
  pub key_columns : List String
  pub columns : List Column
  pub in_force_from : Option ℕ
  pub dictionary_revision : Option String
  pub fingerprint : String
  pub header_fields : List String
  pub fields : List String

-- `key_columns or (primary_key,)`
unfoldable pub key_names : List String → String → List String
key_names [] primary = primary ∷ []
key_names (k ∷ ks) primary = k ∷ ks

abbrev pub contract_keys : Contract → List String
contract_keys c = key_names c.key_columns c.primary_key

abbrev pub column_names : Contract → List String
column_names c = map (λ (k : Column). k.name) c.columns

abbrev pub record_columns : Contract → List String
record_columns c =
    map (λ (k : Column). k.name) (filter (λ (k : Column). str_eq k.origin "record") c.columns)

abbrev pub identifier_columns : Contract → List String
identifier_columns c =
    map (λ (k : Column). k.name)
      (filter (λ (k : Column). str_eq k.classification "identifier") c.columns)

abbrev pub Record : Type 0
Record = Dict Value

abbrev value_or_null : Option Value → Value
value_or_null none = null
value_or_null (some v) = v

-- `record.get(name)`: null for a column that is absent, as for one that is null.
abbrev pub get : Record → String → Value
get r name = value_or_null (lookup name r)
