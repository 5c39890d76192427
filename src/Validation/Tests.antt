-- ===== src/Validation/Tests.antt =====
-- The gate at a concrete contract and batch.
use nordbank_data_platform.Common.{◌≡◌, refl, true, false, none, some, List, [], ◌∷◌, All, ok}
use nordbank_data_platform.Common.Int.{pos}
use nordbank_data_platform.Validation.{
  ValidationResult, validate, project, type_mismatch, primary_key_duplicate, primary_key_null,
}
use nordbank_data_platform.Validation.Values.{null, str, integer, boolean, base_type, matches_type}
use nordbank_data_platform.Validation.Schema.{Contract, Record, key_names}
use nordbank_data_platform.Validation.Partition.{IsPartition, validate-IsPartition}
use nordbank_data_platform.Validation.Total.{IsKnown, HasHashableKey, validate-total}

abbrev contract : Contract
contract = record {
  source_system = "corebank";
  source_schema = "core";
  entity = "payments";
  contract_version = 1;
  watermark_column = "updated_at";
  primary_key = "id";
  key_columns = [];
  columns =
      record {
        name = "id";
        data_type = "bigint";
        is_nullable = false;
        classification = "key";
        origin = "record";
      }
      ∷ record {
        name = "iban";
        data_type = "Character Varying(34)";
        is_nullable = true;
        classification = "identifier";
        origin = "record";
      }
      ∷ [];
  in_force_from = none;
  dictionary_revision = some "r1";
  fingerprint = "f1";
  header_fields = [];
  fields = [];
}

abbrev good : Record
good = ("id", integer (pos 1)) ∷ ("iban", str "DE1") ∷ []

abbrev twin : Record
twin = ("id", integer (pos 1)) ∷ ("iban", null) ∷ []

abbrev keyless : Record
keyless = ("iban", str "DE1") ∷ []

-- In Python `True` is an `int`; the gate refuses it all the same.
abbrev odd : Record
odd = ("id", boolean false) ∷ ("iban", null) ∷ []

abbrev batch : List Record
batch = good ∷ twin ∷ keyless ∷ odd ∷ []

abbrev outcome : ValidationResult
outcome = record {
  landed = good ∷ [];
  rejected =
      (
        twin,
        record {
          column = "id";
          reason = primary_key_duplicate;
          value = some (integer (pos 1) ∷ []);
          record_key = some (integer (pos 1) ∷ []);
        },
      )
      ∷ (
        keyless,
        record { column = "id"; reason = primary_key_null; value = none; record_key = none },
      )
      ∷ (
        odd,
        record {
          column = "id";
          reason = type_mismatch;
          value = some (boolean false ∷ []);
          record_key = some (boolean false ∷ []);
        },
      )
      ∷ [];
}

validate_runs : validate batch contract ≡ ok outcome
unfolding validate matches_type key_names
validate_runs = refl

project_runs : project twin ("iban" ∷ "x" ∷ []) ≡ ("iban", null) ∷ ("x", null) ∷ []
unfolding project
project_runs = refl

validate-IsPartition_example : IsPartition contract [] batch outcome
validate-IsPartition_example = validate-IsPartition batch contract outcome validate_runs

known : All IsKnown contract.columns
unfolding base_type
known = (refl, (refl, tt))

keyed : All (HasHashableKey contract) batch
unfolding key_names
keyed = ((refl, tt), ((refl, tt), ((refl, tt), ((refl, tt), tt))))

validate-total_example :
    (v : ValidationResult) × (validate batch contract ≡ ok v) × IsPartition contract [] batch v
validate-total_example = validate-total batch contract known keyed
