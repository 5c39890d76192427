-- ===== src/Warehouse.antt =====
-- The warehouse that the Python code keeps its state in: the tables of `ops`, `meta` and `dq` that
-- airflow/plugins/nordbank_ops reads and writes (infra/warehouse/schema/*.sql), a row to a record.
-- A table is the list of its rows. Times are microseconds and dates ordinals, as in Common.Time.
pub mod Action
pub mod Connect
use nordbank_data_platform.Common.{ℕ, String, Bool, true, false, Option, none, some, List, []}

-- The statuses that the check constraint of `ops.batch_registry` admits.
pub data Status : Type 0 where
  opened written registered failed : Status

pub record BatchRow : Type 0 where
  pub batch_id : String
  pub source_system : String
  pub source_schema : String
  pub entity : String
  pub ingest_date : ℕ
  pub interval_start : ℕ
  pub interval_end : ℕ
  pub batch_sequence : ℕ
  pub contract_version : ℕ
  pub watermark_from : Option ℕ
  pub watermark_to : Option ℕ
  pub rows_read : ℕ
  pub rows_landed : ℕ
  pub rows_quarantined : ℕ
  pub object_prefix : String
  pub status : Status
  pub failure_reason : Option String
  pub empty_reason : Option String
  pub opened_at : ℕ
  pub written_at : Option ℕ
  pub ended_at : Option ℕ
  pub triggering_run_id : String

pub record WatermarkRow : Type 0 where
  pub source_system : String
  pub entity : String
  pub watermark_at : Option ℕ
  pub advanced_by_batch_id : Option String
  pub updated_at : ℕ

pub record VersionRow : Type 0 where
  pub source_system : String
  pub entity : String
  pub contract_version : ℕ
  pub dictionary_revision : Option String
  pub contract_fingerprint : String
  pub in_force_from : Option ℕ
  pub first_seen_at : ℕ

pub record VaultRow : Type 0 where
  pub token : String
  pub raw_value : String
  pub classification : String
  pub first_seen_source_system : String
  pub first_seen_entity : String
  pub first_seen_column : String
  pub first_seen_batch_id : String
  pub created_at : ℕ

pub record QuarantineRow : Type 0 where
  pub batch_id : String
  pub source_system : String
  pub entity : String
  pub record_key : Option String
  pub column_name : String
  pub reason : String
  pub offending_value : Option String
  pub value_is_tokenised : Bool
  pub quarantined_at : ℕ

pub record ReconciliationRow : Type 0 where
  pub source_system : String
  pub entity : String
  pub source_date : ℕ
  pub batch_id : String
  pub rows_claimed : Option ℕ
  pub rows_landed : ℕ
  pub rows_quarantined : ℕ
  pub recorded_at : ℕ

pub record DriftRow : Type 0 where
  pub batch_id : String
  pub source_system : String
  pub entity : String
  pub column_name : String
  pub drift_kind : String
  pub contract_version : ℕ
  pub action_taken : String
  pub detail : String
  pub observed_at : ℕ

pub record IngestedRow : Type 0 where
  pub content_checksum : String
  pub source_system : String
  pub entity : String
  pub object_key : String
  pub byte_size : ℕ
  pub business_date : Option ℕ
  pub file_sequence : Option ℕ
  pub revision : Option ℕ
  pub publisher_version : Option String
  pub batch_id : String
  pub first_ingested_at : ℕ

pub record SightingRow : Type 0 where
  pub content_checksum : String
  pub source_system : String
  pub object_key : String
  pub ingest_date : ℕ
  pub outcome : String
  pub batch_id : Option String
  pub triggering_run_id : String
  pub seen_at : ℕ

pub record RequestRow : Type 0 where
  pub batch_id : String
  pub source_system : String
  pub entity : String
  pub request_key : String
  pub attempts : ℕ
  pub final_status : Option ℕ
  pub outcome : String
  pub detail : Option String
  pub rows_landed : ℕ
  pub requested_at : ℕ

pub record Warehouse : Type 0 where
  pub batches : List BatchRow
  pub watermarks : List WatermarkRow
  pub versions : List VersionRow
  pub vault : List VaultRow
  pub quarantine : List QuarantineRow
  pub reconciliation : List ReconciliationRow
  pub drift : List DriftRow
  pub ingested : List IngestedRow
  pub sightings : List SightingRow
  pub requests : List RequestRow

abbrev pub empty_warehouse : Warehouse
empty_warehouse = record {
  batches = [];
  watermarks = [];
  versions = [];
  vault = [];
  quarantine = [];
  reconciliation = [];
  drift = [];
  ingested = [];
  sightings = [];
  requests = [];
}

-- `status in ('open', 'written')`
abbrev pub is_unregistered : Status → Bool
is_unregistered opened = true
is_unregistered written = true
is_unregistered registered = false
is_unregistered failed = false

abbrev pub is_registered : Status → Bool
is_registered registered = true
is_registered _ = false

abbrev pub is_written : Status → Bool
is_written written = true
is_written _ = false
