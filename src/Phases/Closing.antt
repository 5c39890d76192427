-- ===== src/Phases/Closing.antt =====
-- airflow/plugins/nordbank_ops/phases.py: the register step of a run, which fails the batches that
-- did not report, and the gate. The reports of the extract step, and the batches that this run's
-- open step allocated, are what Airflow hands over.
pub mod Reported
pub mod Complete
use nordbank_data_platform.Common.{
  ℕ, String, Bool, true, false, ◌||◌, Option, none, some, List, [], ◌∷◌, ◌++◌, map, filter,
  has_name, str_lt, str_eq, sorted_set, if◌then◌else◌, Result, err, ok, other, ◌>>=◌,
}
use nordbank_data_platform.Common.Dict.{Dict, lookup, insert, keys}
use nordbank_data_platform.Common.Time.{date_of}
use nordbank_data_platform.Validation.Schema.{Contract}
use nordbank_data_platform.Warehouse.{Status, BatchRow, Warehouse, is_unregistered}
use nordbank_data_platform.Warehouse.Action.{Action, resume}
use nordbank_data_platform.Contracts.{VersionChains, chain_of, body}
use nordbank_data_platform.Registry.{BatchKey, existing_in, find_batch, format_batch_id}
use nordbank_data_platform.Register.{Services, Entry}
use nordbank_data_platform.Register.Run.{RegisterReport, contract_for, register_run}
use nordbank_data_platform.Phases.{current_of}

-- `{entity: versions[-1] for entity, versions in chains.items()}`
unfoldable pub current_contracts : VersionChains → Result (Dict Contract)
current_contracts [] = ok []
current_contracts ((entity, chain) ∷ chains) =
    current_of chain >>= λ c. current_contracts chains >>= λ rest. ok ((entity, c) ∷ rest)

-- The contract that a reported batch was opened under stands in for its entity's current one.
unfoldable pub opened_contract :
    VersionChains → Warehouse → Entry → Option BatchRow → Dict Contract → Result (Dict Contract)
unfolding body
opened_contract chains w report none contracts = ok contracts
opened_contract chains w report (some opened) contracts =
    (body chains report.entity opened.contract_version w).0 >>= λ c.
    ok (insert report.entity c contracts)

unfoldable pub opened_contracts :
    VersionChains → Warehouse → List Entry → Dict Contract → Result (Dict Contract)
unfolding find_batch opened_contract
opened_contracts chains w [] contracts = ok contracts
opened_contracts chains w (report ∷ reports) contracts =
    opened_contract chains w report (find_batch w.batches report.batch_id) contracts >>= λ next.
    opened_contracts chains w reports next

-- The report made up for a batch that was opened and did not report.
abbrev pub unreported : String → ℕ → ℕ × Status → Entry
unreported entity start (sequence, _) = record {
  entity = entity;
  batch_id = format_batch_id entity start sequence;
  status = "failed";
  rows_read = 0;
  rows_landed = 0;
  rows_quarantined = 0;
  watermark_from = none;
  watermark_to = none;
  quarantine_keys = [];
  landed_by_source_date = [];
  drift = [];
  failure_reason = "the extract task did not report";
}

abbrev pub key_at : Contract → String → ℕ → BatchKey
key_at c entity start = record {
  source_system = c.source_system;
  entity = entity;
  interval_start = start;
}

-- The unregistered batches of an interval under a key, as reports.
unfoldable pub unreported_of : List BatchRow → BatchKey → List Entry
unfolding existing_in
unreported_of rows key =
    map (unreported key.entity key.interval_start)
      (filter (λ p. is_unregistered p.1) (existing_in rows key))

unfoldable pub unreported_all :
    Dict Contract → ℕ → List String → List BatchRow → List String → Result (List Entry)
unfolding unreported_of
unreported_all contracts start reported rows [] = ok []
unreported_all contracts start reported rows (entity ∷ entities) =
    let rest = unreported_all contracts start reported rows entities in
    if has_name entity reported
    then rest
    else (contract_for entity (lookup entity contracts) >>= λ c.
        rest >>= λ later. ok (unreported_of rows (key_at c entity start) ++ later))

-- `sorted(reports, key=lambda r: r["entity"])`, which keeps the order of equal entities.
unfoldable pub insert_entry : Entry → List Entry → List Entry
insert_entry e [] = e ∷ []
insert_entry e (f ∷ fs) =
    let rest = insert_entry e fs in if str_lt f.entity e.entity then f ∷ rest else e ∷ f ∷ fs

unfoldable pub by_entity : List Entry → List Entry
unfolding insert_entry
by_entity [] = []
by_entity (e ∷ es) = insert_entry e (by_entity es)

-- Only the reports for batches that this run's open step allocated.
abbrev pub current_reports : List String → List Entry → List Entry
current_reports allocated reports = filter (λ r. has_name r.batch_id allocated) reports

abbrev pub reported_entities : List Entry → List String
reported_entities reports = map (λ (r : Entry). r.entity) reports

-- The contracts and the reports of a run, those of the batches that did not report included.
unfoldable pub read_run :
    VersionChains → ℕ → List String → List Entry → Warehouse → Result (Dict Contract × List Entry)
unfolding current_contracts opened_contracts unreported_all by_entity
read_run chains start allocated pulled w =
    let reports = current_reports allocated pulled in
    current_contracts chains >>= λ current.
    opened_contracts chains w reports current >>= λ contracts.
    unreported_all contracts start (reported_entities reports) w.batches (sorted_set (keys chains))
    >>= λ missing. ok (contracts, by_entity (reports ++ missing))

unfoldable pub register_phase :
    Services → VersionChains → ℕ → ℕ → List String → List Entry → Action Warehouse RegisterReport
unfolding read_run register_run
register_phase s chains start now allocated pulled w =
    resume (read_run chains start allocated pulled w)
      (λ run. register_run s (date_of start) now run.0 run.1) w

abbrev pub gate_on : List (String × String) → Result (Unit {0})
gate_on [] = ok tt
gate_on (f ∷ failed) = err (other "RuntimeError")

unfoldable pub gate_phase : RegisterReport → Result (Unit {0})
gate_phase summary = gate_on summary.failed
