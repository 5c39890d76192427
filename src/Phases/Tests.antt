-- ===== src/Phases/Tests.antt =====
-- The open step on an empty registry, and again after the batch was registered.
use nordbank_data_platform.Common.{
  some, ℕ, String, ◌≡◌, refl, none, List, [], ◌∷◌, ok, map, Result, err, sorted_set,
}
use nordbank_data_platform.Common.Time.{midnight}
use nordbank_data_platform.Validation.Schema.{Contract}
use nordbank_data_platform.Contracts.{VersionChains}
use nordbank_data_platform.Warehouse.{BatchRow, Warehouse, registered, empty_warehouse}
use nordbank_data_platform.Registry.{format_batch_id}
use nordbank_data_platform.Phases.{Opened, OpenReport, open_phase}
use nordbank_data_platform.Phases.Outcome.{OpenOutcome, open_phase-OpenOutcome}

abbrev day_one : ℕ
day_one = 739817

abbrev contract : Contract
contract = record {
  source_system = "corebank";
  source_schema = "core";
  entity = "payments";
  contract_version = 1;
  watermark_column = "updated_at";
  primary_key = "payment_id";
  key_columns = [];
  columns = [];
  in_force_from = none;
  dictionary_revision = some "r1";
  fingerprint = "f1";
  header_fields = [];
  fields = [];
}

abbrev chains : VersionChains
chains =
    ("payments", contract ∷ [])
    ∷ ("loans", record contract { entity = "loans"; fingerprint = "f2" } ∷ [])
    ∷ []

abbrev opened_ids : Result OpenReport → List String
opened_ids (ok r) = map (λ (o : Opened). o.batch_id) r.allocations
opened_ids (err e) = []

abbrev skipped : Result OpenReport → List String
skipped (ok r) = r.already
skipped (err e) = []

abbrev begun : Warehouse
begun = (open_phase chains (midnight day_one) 5 "run" 10 empty_warehouse).1

-- The same warehouse, with every batch registered.
abbrev finished : Warehouse
finished = record begun {
  batches = map (λ (r : BatchRow). record r { status = registered }) begun.batches;
}

open_phase_runs :
    (opened_ids (open_phase chains (midnight day_one) 5 "run" 10 empty_warehouse).0
      ≡ "loans-20260720T000000-01" ∷ "payments-20260720T000000-01" ∷ [])
    × (opened_ids (open_phase chains (midnight day_one) 6 "again" 10 begun).0
        ≡ "loans-20260720T000000-01" ∷ "payments-20260720T000000-01" ∷ [])
    × (skipped (open_phase chains (midnight day_one) 6 "again" 10 finished).0
        ≡ "loans" ∷ "payments" ∷ [])
unfolding open_phase sorted_set format_batch_id
open_phase_runs = (refl, refl, refl)

open_phase-OpenOutcome_example :
    OpenOutcome chains
      (midnight day_one)
      empty_warehouse
      (open_phase chains (midnight day_one) 5 "run" 10 empty_warehouse)
open_phase-OpenOutcome_example =
    open_phase-OpenOutcome chains (midnight day_one) 5 "run" 10 empty_warehouse
      (record { unique = tt; named = tt })
