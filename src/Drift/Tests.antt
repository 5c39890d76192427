-- ===== src/Drift/Tests.antt =====
-- The drift classification at a contract of two columns.
use nordbank_data_platform.Common.{
  String, ◌≡◌, ◌↔◌, refl, true, false, none, some, [], ◌∷◌, sorted_set,
}
use nordbank_data_platform.Common.Dict.{Dict}
use nordbank_data_platform.Validation.Schema.{Contract}
use nordbank_data_platform.Drift.{is_breaking_report, classify}
use nordbank_data_platform.Drift.Compatible.{IsCompatible, classify-IsCompatible}

abbrev contract : Contract
contract = record {
  source_system = "corebank";
  source_schema = "core";
  entity = "payments";
  contract_version = 1;
  watermark_column = "updated_at";
  primary_key = "payment_id";
  key_columns = [];
  columns =
      (record {
        name = "payment_id";
        data_type = "bigint";
        is_nullable = false;
        classification = "none";
        origin = "source";
      })
      ∷ [];
  in_force_from = none;
  dictionary_revision = some "r1";
  fingerprint = "f1";
  header_fields = [];
  fields = [];
}

abbrev live : Dict String
live = ("payment_id", "bigint") ∷ ("note", "text") ∷ []

classify_runs :
    (is_breaking_report (classify contract live none) ≡ false)
    × (is_breaking_report (classify contract live (some "note")) ≡ true)
    × (is_breaking_report (classify contract [] none) ≡ true)
    × (is_breaking_report (classify contract (("payment_id", "text") ∷ []) none) ≡ true)
unfolding classify sorted_set
classify_runs = (refl, refl, refl, refl)

classify-IsCompatible_example :
    (is_breaking_report (classify contract live none) ≡ false) ↔ IsCompatible contract live none
classify-IsCompatible_example = classify-IsCompatible contract live none
