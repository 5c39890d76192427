-- ===== src/Feeds/Settlement/Tests.antt =====
-- A day of the settlement feed: a file, a renamed copy of it, one that declares the same over
-- different content, and a day without any.
use Prim.Native.String.{String}
use nordbank_data_platform.Common.{
  ℕ, ◌≡◌, refl, false, Option, none, some, List, [], ◌∷◌, map, Result, ok, err, sorted_set,
}
use nordbank_data_platform.Common.Time.{midnight}
use nordbank_data_platform.Validation.Schema.{Contract}
use nordbank_data_platform.Contracts.{VersionChains}
use nordbank_data_platform.Warehouse.{empty_warehouse}
use nordbank_data_platform.Registry.{format_batch_id}
use nordbank_data_platform.Feeds.Allocation.{OpenedBatch}
use nordbank_data_platform.Feeds.SettlementFile.{SettlementFile}
use nordbank_data_platform.Feeds.Settlement.{SettlementUnit, Context, settlement_open}
use nordbank_data_platform.Feeds.Settlement.Declares.{DeclaresOnce, settlement_open-DeclaresOnce}
use nordbank_data_platform.Feeds.Settlement.Opened.{OpenedOutcome, settlement_open-OpenedOutcome}

abbrev contract : Contract
contract = record {
  source_system = "cardnet";
  source_schema = "cardnet";
  entity = "settlements";
  contract_version = 1;
  watermark_column = "";
  primary_key = "record_id";
  key_columns = [];
  columns = [];
  in_force_from = none;
  dictionary_revision = some "r1";
  fingerprint = "f1";
  header_fields = [];
  fields = [];
}

abbrev chains : VersionChains
chains =
    ("settlements", contract ∷ [])
    ∷ (
      "settlement_totals",
      record contract { entity = "settlement_totals"; fingerprint = "f2" } ∷ [],
    )
    ∷ []

abbrev monday : ℕ
monday = 739817

abbrev context : Context
context = record {
  chains = chains;
  start = midnight monday;
  run_id = "run";
  opened_at = 5;
  now = 5;
}

abbrev file : String → String → SettlementFile
file key checksum = record {
  candidate = record { key = key; checksum = checksum; size = 10 };
  settlement_date = some monday;
  file_sequence = some 1;
  revision = some 0;
  structural_fault = none;
}

abbrev files : List SettlementFile
files = file "a.csv" "aa" ∷ file "b.csv" "aa" ∷ file "c.csv" "cc" ∷ []

abbrev handed_on : Result (List SettlementUnit) → List (List String × Option String)
handed_on (err e) = []
handed_on (ok us) =
    map (λ (u : SettlementUnit). (map (λ (b : OpenedBatch). b.opened.batch_id) u.batches, u.refuse))
      us

opens_files :
    handed_on (settlement_open context files false empty_warehouse).0
    ≡ ("settlements-20260720T000000-01" ∷ "settlement_totals-20260720T000000-01" ∷ [], none)
      ∷ (
        "settlements-20260720T000000-02" ∷ "settlement_totals-20260720T000000-02" ∷ [],
        some
            "declaration conflict: c.csv declares settlement date 2026-07-20, sequence 1, revision 0, which settlements-20260720T000000-01 already carries with different content",
      )
      ∷ []
unfolding settlement_open format_batch_id sorted_set
opens_files = refl

opens_empty :
    handed_on (settlement_open context [] false empty_warehouse).0
    ≡ ("settlements-20260720T000000-01" ∷ "settlement_totals-20260720T000000-01" ∷ [], none) ∷ []
unfolding settlement_open format_batch_id sorted_set
opens_empty = refl

settlement_open-OpenedOutcome_example :
    OpenedOutcome monday false empty_warehouse (settlement_open context files false empty_warehouse)
settlement_open-OpenedOutcome_example =
    settlement_open-OpenedOutcome context files false empty_warehouse
      (record { unique = tt; named = tt })

abbrev units_in : Result (List SettlementUnit) → List SettlementUnit
units_in (err e) = []
units_in (ok us) = us

settlement_open-DeclaresOnce_example :
    DeclaresOnce monday (units_in (settlement_open context files false empty_warehouse).0)
unfolding settlement_open format_batch_id sorted_set
settlement_open-DeclaresOnce_example =
    settlement_open-DeclaresOnce context files false empty_warehouse
      (units_in (settlement_open context files false empty_warehouse).0) refl
