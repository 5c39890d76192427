-- ===== src/Register/Run.antt =====
-- airflow/plugins/nordbank_ops/register.py: `register_run`, one transaction over every batch of a
-- run.
use nordbank_data_platform.Common.{
  ℕ, String, ◌+◌, Option, none, some, List, [], ◌∷◌, ◌++◌, str_eq, if◌then◌else◌, Result, ok, err,
  missing_key, vanished,
}
use nordbank_data_platform.Common.Dict.{Dict, lookup}
use nordbank_data_platform.Validation.Schema.{Contract, identifier_columns}
use nordbank_data_platform.Warehouse.{BatchRow, Warehouse}
use nordbank_data_platform.Warehouse.Action.{Action, pure, lift, transaction, ◌>>=◌, ◌>>◌}
use nordbank_data_platform.Registry.{
  Failure, Written, batch, mark_written, mark_failed, mark_registered, advance_watermark,
}
use nordbank_data_platform.Register.{
  Services, Entry, read_identifier_values, upsert_vault, load_quarantine, claimed_by_source,
  landed_on_day, write_reconciliation, record_drift,
}

-- What the register step says of a batch that it registered: it emits an asset event for each.
pub record RegisteredBatch : Type 0 where
  pub batch_id : String
  pub entity : String
  pub rows_landed : ℕ
  pub empty_reason : Option String

pub record RegisterReport : Type 0 where
  pub registered : List String
  pub registered_batches : List RegisteredBatch
  pub failed : List (String × String)
  pub vault_rows_added : ℕ
  pub quarantine_rows_loaded : ℕ
  pub reconciliation_rows : ℕ
  pub drift_rows : ℕ

abbrev pub empty_report : RegisterReport
empty_report = record {
  registered = [];
  registered_batches = [];
  failed = [];
  vault_rows_added = 0;
  quarantine_rows_loaded = 0;
  reconciliation_rows = 0;
  drift_rows = 0;
}

-- `contracts[entity]`
abbrev pub contract_for : String → Option Contract → Result Contract
contract_for entity none = err (missing_key entity)
contract_for entity (some c) = ok c

abbrev pub present : String → Option BatchRow → Result BatchRow
present id none = err (vanished id)
present id (some b) = ok b

unfoldable pub upsert_columns :
    Services → Contract → BatchRow → ℕ → Entry → List String → Action Warehouse ℕ
unfolding upsert_vault read_identifier_values
upsert_columns s c b now e [] = pure 0
upsert_columns s c b now e (column ∷ columns) = do
  values ← lift (read_identifier_values s c (column ∷ []) e.watermark_from e.watermark_to)
  added ←
      upsert_vault s.token
        (record {
          source_system = b.source_system;
          entity = e.entity;
          column = column;
          batch_id = b.batch_id;
          now = now;
        })
        values
  rest ← upsert_columns s c b now e columns
  pure (added + rest)

abbrev pub with_failed : Entry → ℕ → RegisterReport → RegisterReport
with_failed e loaded r = record r {
  quarantine_rows_loaded = r.quarantine_rows_loaded + loaded;
  failed = r.failed ++ (e.entity, e.failure_reason) ∷ [];
}

abbrev pub with_registered : Entry → BatchRow → ℕ → ℕ → RegisterReport → RegisterReport
with_registered e b added loaded r = record r {
  registered = r.registered ++ e.entity ∷ [];
  registered_batches =
      r.registered_batches
      ++ (record {
        batch_id = b.batch_id;
        entity = e.entity;
        rows_landed = e.rows_landed;
        empty_reason = none;
      })
        ∷ [];
  vault_rows_added = r.vault_rows_added + added;
  quarantine_rows_loaded = r.quarantine_rows_loaded + loaded;
  reconciliation_rows = r.reconciliation_rows + 1;
}

-- What the step passes on of a report to `mark_failed` and to `mark_written`.
abbrev pub failure_of : ℕ → Entry → Failure
failure_of now e = record {
  reason = e.failure_reason;
  ended_at = now;
  rows_read = e.rows_read;
  rows_quarantined = e.rows_quarantined;
}

abbrev pub written_of : ℕ → Entry → Written
written_of now e = record {
  rows_read = e.rows_read;
  rows_landed = e.rows_landed;
  rows_quarantined = e.rows_quarantined;
  watermark_to = e.watermark_to;
  written_at = now;
  empty_reason = none;
}

module _ (s : Services) (source_date now : ℕ) where
  unfoldable pub register_failed :
      BatchRow → Entry → RegisterReport → Action Warehouse RegisterReport
  unfolding mark_failed load_quarantine
  register_failed b e report = do
    mark_failed b.batch_id (failure_of now e)
    loaded ← load_quarantine s e.quarantine_keys
    pure (with_failed e loaded report)

  -- What follows the registration of a batch: the vault, the quarantine index, the reconciliation.
  unfoldable pub index_landed :
      Contract → BatchRow → Entry → RegisterReport → Action Warehouse RegisterReport
  unfolding upsert_columns load_quarantine write_reconciliation claimed_by_source
  index_landed c b e report = do
    added ← upsert_columns s c b now e (identifier_columns c)
    loaded ← load_quarantine s e.quarantine_keys
    claimed ← lift (claimed_by_source s c source_date)
    write_reconciliation (record {
      source_system = b.source_system;
      entity = e.entity;
      source_date = source_date;
      batch_id = b.batch_id;
      rows_claimed = claimed;
      rows_landed = landed_on_day e source_date;
      rows_quarantined = e.rows_quarantined;
      recorded_at = now;
    })
    pure (with_registered e b added loaded report)

  unfoldable pub register_landed :
      Contract → BatchRow → Entry → RegisterReport → Action Warehouse RegisterReport
  unfolding mark_written mark_registered advance_watermark index_landed
  register_landed c b e report = do
    mark_written b.batch_id (written_of now e)
    mark_registered b.batch_id now
    advance_watermark b.source_system e.entity e.watermark_to b.batch_id now
    index_landed c b e report

  unfoldable pub register_as :
      Contract → BatchRow → Entry → RegisterReport → Action Warehouse RegisterReport
  unfolding register_failed register_landed
  register_as c b e report =
      if str_eq e.status "failed" then register_failed b e report else register_landed c b e report

  unfoldable pub register_entry :
      Dict Contract → Entry → RegisterReport → Action Warehouse RegisterReport
  unfolding batch record_drift register_as
  register_entry contracts e report = do
    c ← lift (contract_for e.entity (lookup e.entity contracts))
    found ← batch e.batch_id
    b ← lift (present e.batch_id found)
    drift ← record_drift b e.drift now
    register_as c b e (record report { drift_rows = report.drift_rows + drift })

  unfoldable pub register_entries :
      Dict Contract → List Entry → RegisterReport → Action Warehouse RegisterReport
  unfolding register_entry
  register_entries contracts [] report = pure report
  register_entries contracts (e ∷ es) report = do
    next ← register_entry contracts e report
    register_entries contracts es next

  unfoldable pub register_run : Dict Contract → List Entry → Action Warehouse RegisterReport
  unfolding register_entries
  register_run contracts entries = transaction (register_entries contracts entries empty_report)
