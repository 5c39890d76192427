-- ===== src/Phases/ClosingTests.antt =====
-- The register step of a run of two entities, one of which did not report.
use nordbank_data_platform.Common.{
  ℕ, ◌≡◌, refl, String, none, some, List, [], ◌∷◌, Result, ok, err, ◌+◌, other, sorted_set,
}
use nordbank_data_platform.Common.Time.{midnight}
use nordbank_data_platform.Validation.Schema.{Contract}
use nordbank_data_platform.Contracts.{VersionChains, body}
use nordbank_data_platform.Warehouse.{Warehouse, empty_warehouse}
use nordbank_data_platform.Registry.{BatchKey, Opening, allocate, format_batch_id}
use nordbank_data_platform.Registry.Table.{IsWellFormed}
use nordbank_data_platform.Registry.History.{Statement, after, after_all, after_all-Evolution}
use nordbank_data_platform.Register.{Services, Entry}
use nordbank_data_platform.Register.Run.{RegisterReport}
use nordbank_data_platform.Phases.Closing.{current_reports, register_phase, gate_phase}
use nordbank_data_platform.Phases.Closing.Complete.{PhaseOutcome, register_phase-PhaseOutcome}

abbrev day_one : ℕ
day_one = 739817

abbrev services : Services
services = record {
  read_quarantine = λ _. ok [];
  select_distinct = λ _ _ _ _. ok [];
  count_ticks = λ _. ok 1;
  sum_changed = λ _ _. ok 2;
  token = λ v. v;
}

abbrev contract : Contract
contract = record {
  source_system = "corebank";
  source_schema = "core";
  entity = "payments";
  contract_version = 1;
  watermark_column = "updated_at";
  primary_key = "payment_id";
  key_columns = [];
  columns = [];
  in_force_from = none;
  dictionary_revision = some "r1";
  fingerprint = "f1";
  header_fields = [];
  fields = [];
}

abbrev chains : VersionChains
chains =
    ("payments", contract ∷ [])
    ∷ ("loans", record contract { entity = "loans"; fingerprint = "f2" } ∷ [])
    ∷ []

abbrev opening : Opening
opening = record {
  source_schema = "core";
  ingest_date = day_one;
  interval_end = midnight (day_one + 1);
  contract_version = 1;
  watermark_from = none;
  opened_at = 5;
  triggering_run_id = "run";
  reusable = none;
}

abbrev key_of : String → BatchKey
key_of entity = record {
  source_system = "corebank";
  entity = entity;
  interval_start = midnight day_one;
}

abbrev script : List Statement
script =
    Statement.allocates (key_of "payments") opening
    ∷ Statement.allocates (key_of "loans") opening
    ∷ []

abbrev begun : Warehouse
begun = after_all script empty_warehouse

begun-IsWellFormed : IsWellFormed begun.batches
begun-IsWellFormed =
    (after_all-Evolution script empty_warehouse (record { unique = tt; named = tt })).0

abbrev allocated : List String
allocated = "payments-20260720T000000-01" ∷ "loans-20260720T000000-01" ∷ []

-- The second is a report of an earlier try, for a batch that this run did not allocate.
abbrev pulled : List Entry
pulled =
    record {
      entity = "payments";
      batch_id = "payments-20260720T000000-01";
      status = "written";
      rows_read = 3;
      rows_landed = 2;
      rows_quarantined = 1;
      watermark_from = none;
      watermark_to = some 900;
      quarantine_keys = [];
      landed_by_source_date = ("2026-07-20", 2) ∷ [];
      drift = [];
      failure_reason = "";
    }
    ∷ record {
      entity = "loans";
      batch_id = "loans-20260720T000000-00";
      status = "written";
      rows_read = 0;
      rows_landed = 0;
      rows_quarantined = 0;
      watermark_from = none;
      watermark_to = none;
      quarantine_keys = [];
      landed_by_source_date = [];
      drift = [];
      failure_reason = "";
    }
    ∷ []

abbrev settled_as : Result RegisterReport → List String × List (String × String)
settled_as (ok report) = (report.registered, report.failed)
settled_as (err e) = ([], [])

abbrev passed : Result RegisterReport → Result (Unit {0})
passed (ok report) = gate_phase report
passed (err e) = err e

register_phase_runs :
    (settled_as (register_phase services chains (midnight day_one) 7 allocated pulled begun).0
      ≡ ("payments" ∷ [], ("loans", "the extract task did not report") ∷ []))
    × (passed (register_phase services chains (midnight day_one) 7 allocated pulled begun).0
        ≡ err (other "RuntimeError"))
unfolding register_phase gate_phase after_all after allocate format_batch_id body sorted_set
register_phase_runs = (refl, refl)

register_phase-PhaseOutcome_example :
    PhaseOutcome chains
      (midnight day_one)
      (current_reports allocated pulled)
      begun
      (register_phase services chains (midnight day_one) 7 allocated pulled begun)
register_phase-PhaseOutcome_example =
    register_phase-PhaseOutcome services chains (midnight day_one) 7 allocated pulled begun
      begun-IsWellFormed
