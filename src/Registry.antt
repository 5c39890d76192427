-- ===== src/Registry.antt =====
-- airflow/plugins/nordbank_ops/registry.py: batch identity, the choice of a batch's sequence, and
-- the statements on `ops.batch_registry` and `ops.extract_watermark`. The proofs are in the children.
pub mod Sequence
pub mod Table
pub mod Lifecycle
pub mod History
mod Tests
use nordbank_data_platform.Common.{
  ℕ, ◌+◌, max, String, Bool, true, false, not, ◌&&◌, ◌||◌, Option, none, some, List, [], ◌∷◌, ◌++◌,
  map, filter, any, ◌==◌, leb, str_eq, if◌then◌else◌, pad_two, not_in_registry, already_registered,
  not_written, duplicate_key,
}
use Prim.Native.String.{◌++◌ as join}
use nordbank_data_platform.Common.Time.{isoformat, compact_stamp}
use nordbank_data_platform.Warehouse.{
  Status, opened, written, registered, failed, BatchRow, WatermarkRow, Warehouse, is_unregistered,
  is_registered, is_written,
}
use nordbank_data_platform.Warehouse.Action.{Action, pure, raise, gets, modify, ◌>>=◌, ◌>>◌}

pub record BatchKey : Type 0 where
  pub source_system : String
  pub entity : String
  pub interval_start : ℕ

pub record Allocation : Type 0 where
  pub batch_id : String
  pub sequence : ℕ
  pub reused : Bool

abbrev joined : List String → String
joined [] = ""
joined (s ∷ ss) = join s (joined ss)

unfoldable pub format_batch_id : String → ℕ → ℕ → String
unfolding compact_stamp pad_two
format_batch_id entity interval_start sequence =
    joined (entity ∷ "-" ∷ compact_stamp interval_start ∷ "-" ∷ pad_two sequence ∷ [])

-- `sequence in reusable`, where none was given means any
abbrev has_number : ℕ → List ℕ → Bool
has_number n [] = false
has_number n (m ∷ ms) = n == m || has_number n ms

abbrev pub may_reuse : Option (List ℕ) → ℕ → Bool
may_reuse none n = true
may_reuse (some ms) n = has_number n ms

abbrev pub max_of : ℕ → List ℕ → ℕ
max_of m [] = m
max_of m (n ∷ ns) = max_of (max m n) ns

abbrev pub first_of_pair : ℕ × Status → ℕ
first_of_pair (n, _) = n

-- The sequences of the unregistered batches that the caller may reuse.
abbrev pub reusable_sequences : List (ℕ × Status) → Option (List ℕ) → List ℕ
reusable_sequences existing reusable =
    map first_of_pair
      (filter (λ (p : ℕ × Status). is_unregistered p.1 && may_reuse reusable p.0) existing)

-- `max(unregistered), True`, or the next sequence after all that is recorded.
abbrev chosen : List ℕ → ℕ → List (ℕ × Status) → ℕ × Bool
chosen [] first rest = (max_of first (map first_of_pair rest) + 1, false)
chosen (u ∷ us) first rest = (max_of u us, true)

unfoldable pub choose_sequence : List (ℕ × Status) → Option (List ℕ) → ℕ × Bool
choose_sequence [] reusable = (1, false)
choose_sequence (p ∷ ps) reusable = chosen (reusable_sequences (p ∷ ps) reusable) p.0 ps

unfoldable pub object_prefix : String → String → String → ℕ → String → String
unfolding isoformat
object_prefix prefix source_system entity ingest_date batch_id = joined (
    prefix
    ∷ "/"
    ∷ source_system
    ∷ "/"
    ∷ entity
    ∷ "/ingest_date="
    ∷ isoformat ingest_date
    ∷ "/batch_id="
    ∷ batch_id
    ∷ "/"
    ∷ [])

unfoldable pub bronze_prefix : String → String → ℕ → String → String
unfolding object_prefix
bronze_prefix = object_prefix "bronze"

unfoldable pub quarantine_prefix : String → String → ℕ → String → String
unfolding object_prefix
quarantine_prefix = object_prefix "quarantine"

-- `source_system = ? and entity = ? and interval_start = ?`
abbrev pub is_of_key : BatchKey → BatchRow → Bool
is_of_key key r =
    str_eq r.source_system key.source_system
    && (str_eq r.entity key.entity && r.interval_start == key.interval_start)

-- `order by batch_sequence`
unfoldable pub insert_by_sequence : ℕ × Status → List (ℕ × Status) → List (ℕ × Status)
insert_by_sequence p [] = p ∷ []
insert_by_sequence p (q ∷ qs) = if leb p.0 q.0 then p ∷ q ∷ qs else q ∷ insert_by_sequence p qs

unfoldable pub by_sequence : List (ℕ × Status) → List (ℕ × Status)
unfolding insert_by_sequence
by_sequence [] = []
by_sequence (p ∷ ps) = insert_by_sequence p (by_sequence ps)

abbrev pub sequence_and_status : BatchRow → ℕ × Status
sequence_and_status r = (r.batch_sequence, r.status)

unfoldable pub existing_in : List BatchRow → BatchKey → List (ℕ × Status)
unfolding by_sequence
existing_in rows key = by_sequence (map sequence_and_status (filter (is_of_key key) rows))

unfoldable pub existing_batches : BatchKey → Action Warehouse (List (ℕ × Status))
unfolding existing_in
existing_batches key = gets (λ w. existing_in w.batches key)

-- The row of the table's primary key (source_system, entity), if it has one.
abbrev pub is_of_feed : String → String → WatermarkRow → Bool
is_of_feed system entity r = str_eq r.source_system system && str_eq r.entity entity

unfoldable pub watermark_in : List WatermarkRow → String → String → Option ℕ
watermark_in [] system entity = none
watermark_in (r ∷ rs) system entity =
    if is_of_feed system entity r then r.watermark_at else watermark_in rs system entity

unfoldable pub watermark : String → String → Action Warehouse (Option ℕ)
unfolding watermark_in
watermark system entity = gets (λ w. watermark_in w.watermarks system entity)

-- `update ops.batch_registry set ... where ...`
abbrev pub update_where : (BatchRow → Bool) → (BatchRow → BatchRow) → List BatchRow → List BatchRow
update_where test f [] = []
update_where test f (r ∷ rs) = (if test r then f r else r) ∷ update_where test f rs

unfoldable pub update_batches : (BatchRow → Bool) → (BatchRow → BatchRow) → Action Warehouse Unit
update_batches test f = modify (λ w. record w { batches = update_where test f w.batches })

abbrev pub has_id : String → BatchRow → Bool
has_id id r = str_eq r.batch_id id

unfoldable pub find_batch : List BatchRow → String → Option BatchRow
find_batch [] id = none
find_batch (r ∷ rs) id = if has_id id r then some r else find_batch rs id

-- `insert into ops.batch_registry`, under its primary key.
unfoldable pub insert_batch : BatchRow → Action Warehouse Unit
insert_batch r w =
    if any (has_id r.batch_id) w.batches
    then raise (duplicate_key r.batch_id) w
    else (pure tt (record w { batches = w.batches ++ r ∷ [] }))

-- What a caller of `allocate` passes beside the key.
pub record Opening : Type 0 where
  pub source_schema : String
  pub ingest_date : ℕ
  pub interval_end : ℕ
  pub contract_version : ℕ
  pub watermark_from : Option ℕ
  pub opened_at : ℕ
  pub triggering_run_id : String
  pub reusable : Option (List ℕ)

-- The row of a reused batch: it keeps its own `opened_at`, and its counts are reset.
unfoldable pub reopened : Opening → BatchRow → BatchRow
reopened o r = record r {
  status = opened;
  rows_read = 0;
  rows_landed = 0;
  rows_quarantined = 0;
  watermark_from = o.watermark_from;
  watermark_to = none;
  failure_reason = none;
  empty_reason = none;
  written_at = none;
  ended_at = none;
  triggering_run_id = o.triggering_run_id;
}

unfoldable pub new_row : BatchKey → Opening → String → ℕ → BatchRow
new_row key o batch_id sequence = record {
  batch_id = batch_id;
  source_system = key.source_system;
  source_schema = o.source_schema;
  entity = key.entity;
  ingest_date = o.ingest_date;
  interval_start = key.interval_start;
  interval_end = o.interval_end;
  batch_sequence = sequence;
  contract_version = o.contract_version;
  watermark_from = o.watermark_from;
  watermark_to = none;
  rows_read = 0;
  rows_landed = 0;
  rows_quarantined = 0;
  object_prefix = bronze_prefix key.source_system key.entity o.ingest_date batch_id;
  status = opened;
  failure_reason = none;
  empty_reason = none;
  opened_at = o.opened_at;
  written_at = none;
  ended_at = none;
  triggering_run_id = o.triggering_run_id;
}

-- The insertion or the reuse, once the sequence is chosen.
unfoldable pub reserve : BatchKey → Opening → ℕ × Bool → Action Warehouse Allocation
unfolding reopened new_row update_batches insert_batch
reserve key o (sequence, true) =
    let id = format_batch_id key.entity key.interval_start sequence in
    update_batches (has_id id) (reopened o)
    >> pure (record { batch_id = id; sequence = sequence; reused = true })
reserve key o (sequence, false) =
    let id = format_batch_id key.entity key.interval_start sequence in
    insert_batch (new_row key o id sequence)
    >> pure (record { batch_id = id; sequence = sequence; reused = false })

-- Reserve a batch id, inserting an `open` row unless an unregistered batch is reused.
unfoldable pub allocate : BatchKey → Opening → Action Warehouse Allocation
unfolding existing_batches choose_sequence reserve
allocate key o = do
  existing ← existing_batches key
  reserve key o (choose_sequence existing o.reusable)

unfoldable pub batch : String → Action Warehouse (Option BatchRow)
unfolding find_batch
batch id = gets (λ w. find_batch w.batches id)

-- What a batch wrote.
pub record Written : Type 0 where
  pub rows_read : ℕ
  pub rows_landed : ℕ
  pub rows_quarantined : ℕ
  pub watermark_to : Option ℕ
  pub written_at : ℕ
  pub empty_reason : Option String

unfoldable pub wrote : Written → BatchRow → BatchRow
wrote p r = record r {
  status = written;
  rows_read = p.rows_read;
  rows_landed = p.rows_landed;
  rows_quarantined = p.rows_quarantined;
  watermark_to = p.watermark_to;
  written_at = some p.written_at;
  empty_reason = p.empty_reason;
}

unfoldable pub mark_written : String → Written → Action Warehouse Unit
unfolding update_batches wrote
mark_written id p = update_batches (λ r. has_id id r && is_unregistered r.status) (wrote p)

-- What a batch read and refused before it failed.
pub record Failure : Type 0 where
  pub reason : String
  pub ended_at : ℕ
  pub rows_read : ℕ
  pub rows_quarantined : ℕ

unfoldable pub refused : Failure → BatchRow → BatchRow
refused f r = record r {
  status = failed;
  failure_reason = some f.reason;
  ended_at = some f.ended_at;
  rows_read = f.rows_read;
  rows_landed = 0;
  rows_quarantined = f.rows_quarantined;
}

unfoldable pub mark_failed : String → Failure → Action Warehouse Unit
unfolding update_batches refused
mark_failed id f = update_batches (λ r. has_id id r && not (is_registered r.status)) (refused f)

unfoldable pub finished : ℕ → BatchRow → BatchRow
finished ended_at r = record r { status = registered; ended_at = some ended_at }

-- The three refusals of `mark_registered`, on the row that it reads.
unfoldable pub check_registrable : String → Option BatchRow → Action Warehouse Unit
check_registrable id none = raise (not_in_registry id)
check_registrable id (some r) =
    if is_registered r.status
    then raise (already_registered id)
    else if is_written r.status
    then pure tt
    else raise (not_written id)

-- A `written` batch becomes `registered`; any other is refused.
unfoldable pub mark_registered : String → ℕ → Action Warehouse Unit
unfolding batch check_registrable update_batches finished
mark_registered id ended_at = do
  current ← batch id
  check_registrable id current
  update_batches (has_id id) (finished ended_at)

-- `on conflict (source_system, entity) do nothing`
abbrev insert_if_absent : WatermarkRow → List WatermarkRow → List WatermarkRow
insert_if_absent r [] = r ∷ []
insert_if_absent r (s ∷ ss) =
    if is_of_feed r.source_system r.entity s then s ∷ ss else s ∷ insert_if_absent r ss

-- `on conflict (source_system, entity) do update`
abbrev upsert_watermark : WatermarkRow → List WatermarkRow → List WatermarkRow
upsert_watermark r [] = r ∷ []
upsert_watermark r (s ∷ ss) =
    if is_of_feed r.source_system r.entity s then r ∷ ss else s ∷ upsert_watermark r ss

-- Move the watermark to the batch's observed maximum; an empty batch observed none.
unfoldable pub advanced :
    List WatermarkRow → String → String → Option ℕ → String → ℕ → List WatermarkRow
advanced rows system entity none id now =
    insert_if_absent
      (record {
        source_system = system;
        entity = entity;
        watermark_at = none;
        advanced_by_batch_id = none;
        updated_at = now;
      })
      rows
advanced rows system entity (some t) id now =
    upsert_watermark
      (record {
        source_system = system;
        entity = entity;
        watermark_at = some t;
        advanced_by_batch_id = some id;
        updated_at = now;
      })
      rows

unfoldable pub advance_watermark : String → String → Option ℕ → String → ℕ → Action Warehouse Unit
unfolding advanced
advance_watermark system entity watermark_to id now =
    modify (λ w. record w { watermarks = advanced w.watermarks system entity watermark_to id now })
