-- ===== src/Phases.antt =====
-- airflow/plugins/nordbank_ops/phases.py: the open step and the gate of an ingestion run. The
-- interval is a day from its start; the clock, the run's id and the extract lag are arguments.
pub mod Frame
pub mod Divided
pub mod Outcome
pub mod Closing
mod Tests
mod ClosingTests
use nordbank_data_platform.Common.{
  ℕ, String, ◌+◌, ◌-◌, Bool, Option, none, some, List, [], ◌∷◌, ◌++◌, any, sorted_set, length,
  if◌then◌else◌, Result, ok, err, other, vanished,
}
use nordbank_data_platform.Common.Dict.{keys}
use nordbank_data_platform.Common.Time.{day_length, date_of}
use nordbank_data_platform.Validation.Schema.{Contract}
use nordbank_data_platform.Warehouse.{Status, BatchRow, Warehouse, is_registered}
use nordbank_data_platform.Warehouse.Action.{Action, pure, lift, transaction, ◌>>=◌, ◌>>◌}
use nordbank_data_platform.Contracts.{VersionChains, chain_of, sync, select, body}
use nordbank_data_platform.Registry.{
  BatchKey, Allocation, Opening, existing_batches, watermark, allocate, batch,
}

-- One entity's batch, as the open step hands it to the extract step.
pub record Opened : Type 0 where
  pub entity : String
  pub batch_id : String
  pub contract_version : ℕ
  pub ingest_date : ℕ
  pub opened_at : ℕ
  pub watermark_from : Option ℕ
  pub reused : Bool

pub record OpenReport : Type 0 where
  pub allocations : List Opened
  pub already : List String

-- `chains[entity][-1]`
abbrev pub current_of : List Contract → Result Contract
current_of [] = err (other "IndexError")
current_of (c ∷ []) = ok c
current_of (c ∷ d ∷ cs) = current_of (d ∷ cs)

-- `None if held is None else held - lag`
abbrev pub lagged : Option ℕ → ℕ → Option ℕ
lagged none lag = none
lagged (some held) lag = some (held - lag)

abbrev pub has_registered : List (ℕ × Status) → Bool
has_registered existing = any (λ p. is_registered p.1) existing

abbrev pub read_back : String → Option BatchRow → Result BatchRow
read_back id none = err (vanished id)
read_back id (some b) = ok b

abbrev pub opened_as : String → BatchRow → Bool → Opened
opened_as entity b reused = record {
  entity = entity;
  batch_id = b.batch_id;
  contract_version = b.contract_version;
  ingest_date = b.ingest_date;
  opened_at = b.opened_at;
  watermark_from = b.watermark_from;
  reused = reused;
}

abbrev pub with_opened : Opened → OpenReport → OpenReport
with_opened o r = record r { allocations = r.allocations ++ o ∷ [] }

abbrev pub with_already : String → OpenReport → OpenReport
with_already entity r = record r { already = r.already ++ entity ∷ [] }

module _ (chains : VersionChains) (start opened_at : ℕ) (run_id : String) (lag : ℕ) where
  abbrev pub key_of : Contract → String → BatchKey
  key_of c entity = record {
    source_system = c.source_system;
    entity = entity;
    interval_start = start;
  }

  abbrev pub opening_of : Contract → Option ℕ → Opening
  opening_of c held = record {
    source_schema = c.source_schema;
    ingest_date = date_of start;
    interval_end = start + day_length;
    contract_version = c.contract_version;
    watermark_from = lagged held lag;
    opened_at = opened_at;
    triggering_run_id = run_id;
    reusable = none;
  }

  unfoldable pub open_batch :
      String → Contract → Option ℕ → OpenReport → Action Warehouse OpenReport
  unfolding allocate batch
  open_batch entity c held report = do
    allocation ← allocate (key_of c entity) (opening_of c held)
    found ← batch allocation.batch_id
    b ← lift (read_back allocation.batch_id found)
    pure (with_opened (opened_as entity b allocation.reused) report)

  -- An entity that has a registered batch of the interval is skipped.
  unfoldable pub open_unless :
      String → Contract → Option ℕ → OpenReport → List (ℕ × Status) → Action Warehouse OpenReport
  unfolding open_batch
  open_unless entity c held report existing =
      if has_registered existing
      then pure (with_already entity report)
      else open_batch entity c held report

  unfoldable pub open_entity : String → OpenReport → Action Warehouse OpenReport
  unfolding select body watermark existing_batches open_unless
  open_entity entity report = do
    current ← lift (current_of (chain_of entity chains))
    version ← select current.source_system entity (date_of start)
    c ← body chains entity version
    held ← watermark c.source_system entity
    existing ← existing_batches (key_of c entity)
    open_unless entity c held report existing

  unfoldable pub open_entities : List String → OpenReport → Action Warehouse OpenReport
  unfolding open_entity
  open_entities [] report = pure report
  open_entities (entity ∷ entities) report = do
    next ← open_entity entity report
    open_entities entities next

  unfoldable pub open_all : Action Warehouse OpenReport
  unfolding sync open_entities
  open_all = do
    sync chains opened_at
    open_entities (sorted_set (keys chains)) (record { allocations = []; already = [] })

  unfoldable pub open_phase : Action Warehouse OpenReport
  unfolding open_all
  open_phase = transaction open_all
