-- ===== src/Register.antt =====
-- airflow/plugins/nordbank_ops/register.py: what the register step writes beside the registry, and
-- in Register.Run the step itself. The source, the lake and the tokeniser are `Services`.
pub mod Vault
pub mod Run
pub mod Frame
pub mod Statuses
pub mod Settled
pub mod Outcome
mod Tests
use nordbank_data_platform.Common.{
  ℕ, String, ◌+◌, ◌-◌, ◌==◌, Bool, ◌&&◌, Option, none, some, List, [], ◌∷◌, ◌++◌, length, any,
  has_name, str_eq, if◌then◌else◌, Result, ok, ◌>>=◌ as ◌>>=R◌,
}
use nordbank_data_platform.Common.Dict.{Dict, lookup}
use nordbank_data_platform.Common.Time.{isoformat}
use nordbank_data_platform.Validation.Schema.{Contract}
use nordbank_data_platform.Warehouse.{
  BatchRow, VaultRow, QuarantineRow, ReconciliationRow, DriftRow, Warehouse,
}
use nordbank_data_platform.Warehouse.Action.{Action, pure, lift, modify, ◌>>=◌, ◌>>◌}
use nordbank_data_platform.Drift.{DriftObservation, action}

-- What the step reads outside the warehouse: the quarantine objects of the lake, the source's
-- distinct values of some columns between two watermarks (a row per tuple, null for null), its
-- control totals (`platform.tick_log` and `platform.tick_table_counts`), and the keyed hash.
pub record Services : Type 0 where
  pub read_quarantine : String → Result (List QuarantineRow)
  pub select_distinct : Contract → List String → Option ℕ → ℕ → Result (List (List (Option String)))
  pub count_ticks : ℕ → Result ℕ
  pub sum_changed : ℕ → String → Result ℕ
  pub token : String → String

-- An extract report, with the keys that `ExtractReport.as_dict` writes and the step reads. Its
-- timestamps are parsed; the failure reason of a report that did not fail is the empty text.
pub record Entry : Type 0 where
  pub entity : String
  pub batch_id : String
  pub status : String
  pub rows_read : ℕ
  pub rows_landed : ℕ
  pub rows_quarantined : ℕ
  pub watermark_from : Option ℕ
  pub watermark_to : Option ℕ
  pub quarantine_keys : List String
  pub landed_by_source_date : Dict ℕ
  pub drift : List DriftObservation
  pub failure_reason : String

-- The distinct values that are not null, in the order they are met.
abbrev pub add_values : List String → List (Option String) → List String
add_values values [] = values
add_values values (none ∷ row) = add_values values row
add_values values (some v ∷ row) =
    add_values (if has_name v values then values else values ++ v ∷ []) row

abbrev pub add_rows : List String → List (List (Option String)) → List String
add_rows values [] = values
add_rows values (row ∷ rows) = add_rows (add_values values row) rows

unfoldable pub read_identifier_values :
    Services → Contract → List String → Option ℕ → Option ℕ → Result (List String)
read_identifier_values s c [] from to = ok []
read_identifier_values s c (n ∷ ns) from none = ok []
read_identifier_values s c (n ∷ ns) from (some to) =
    s.select_distinct c (n ∷ ns) from to >>=R λ rows. ok (add_rows [] rows)

-- Where a raw value was first seen.
pub record FirstSeen : Type 0 where
  pub source_system : String
  pub entity : String
  pub column : String
  pub batch_id : String
  pub now : ℕ

abbrev pub has_token : String → VaultRow → Bool
has_token t r = str_eq r.token t

abbrev pub vault_row : FirstSeen → String → String → VaultRow
vault_row f t v = record {
  token = t;
  raw_value = v;
  classification = "identifier";
  first_seen_source_system = f.source_system;
  first_seen_entity = f.entity;
  first_seen_column = f.column;
  first_seen_batch_id = f.batch_id;
  created_at = f.now;
}

-- `seen.setdefault(token, (token, value))`, and the insertion `on conflict (token) do nothing`.
unfoldable pub insert_new : VaultRow → List VaultRow → List VaultRow
insert_new r rows = if any (has_token r.token) rows then rows else rows ++ r ∷ []

unfoldable pub incoming_rows :
    (String → String) → FirstSeen → List VaultRow → List String → List VaultRow
unfolding insert_new
incoming_rows token f rows [] = rows
incoming_rows token f rows (v ∷ vs) =
    incoming_rows token f (insert_new (vault_row f (token v) v) rows) vs

unfoldable pub insert_rows : List VaultRow → List VaultRow → List VaultRow
unfolding insert_new
insert_rows table [] = table
insert_rows table (r ∷ rs) = insert_rows (insert_new r table) rs

unfoldable pub upserted :
    (String → String) → FirstSeen → List String → List VaultRow → List VaultRow
unfolding insert_rows incoming_rows
upserted token f values table = insert_rows table (incoming_rows token f [] values)

unfoldable pub upsert_vault : (String → String) → FirstSeen → List String → Action Warehouse ℕ
unfolding upserted
upsert_vault token f [] = pure 0
upsert_vault token f (v ∷ vs) = λ w.
    let after = upserted token f (v ∷ vs) w.vault in
    pure (length after - length w.vault) (record w { vault = after })

-- The insertion of an object's rows, one after the other.
unfoldable pub index_rows : List QuarantineRow → Action Warehouse Unit
index_rows rows = modify (λ w. record w { quarantine = w.quarantine ++ rows })

unfoldable pub load_quarantine : Services → List String → Action Warehouse ℕ
unfolding index_rows
load_quarantine s [] = pure 0
load_quarantine s (key ∷ keys) = do
  rows ← lift (s.read_quarantine key)
  index_rows rows
  loaded ← load_quarantine s keys
  pure (length rows + loaded)

unfoldable pub claimed_by_source : Services → Contract → ℕ → Result (Option ℕ)
claimed_by_source s c date = s.count_ticks date >>=R λ ticks.
    if ticks == 0
    then ok none
    else if str_eq c.source_schema "core"
    then (s.sum_changed date c.entity >>=R λ changed. ok (some changed))
    else ok none

abbrev count_of : Option ℕ → ℕ
count_of none = 0
count_of (some n) = n

unfoldable pub landed_on_day : Entry → ℕ → ℕ
unfolding isoformat
landed_on_day e date = count_of (lookup (isoformat date) e.landed_by_source_date)

-- The primary key of `ops.source_reconciliation`.
abbrev pub same_contribution : ReconciliationRow → ReconciliationRow → Bool
same_contribution r s =
    str_eq s.source_system r.source_system
    && (str_eq s.entity r.entity
        && (s.source_date == r.source_date && str_eq s.batch_id r.batch_id))

-- `on conflict (...) do update set ...`
unfoldable pub upsert_contribution :
    ReconciliationRow → List ReconciliationRow → List ReconciliationRow
upsert_contribution r [] = r ∷ []
upsert_contribution r (s ∷ ss) =
    if same_contribution r s then r ∷ ss else s ∷ upsert_contribution r ss

unfoldable pub write_reconciliation : ReconciliationRow → Action Warehouse Unit
unfolding upsert_contribution
write_reconciliation r =
    modify (λ w. record w { reconciliation = upsert_contribution r w.reconciliation })

abbrev pub same_drift : DriftRow → DriftRow → Bool
same_drift r s =
    str_eq s.batch_id r.batch_id
    && (str_eq s.column_name r.column_name && str_eq s.drift_kind r.drift_kind)

abbrev pub drift_row : BatchRow → DriftObservation → ℕ → DriftRow
drift_row b o now = record {
  batch_id = b.batch_id;
  source_system = b.source_system;
  entity = b.entity;
  column_name = o.column;
  drift_kind = o.kind;
  contract_version = b.contract_version;
  action_taken = action o;
  detail = o.detail;
  observed_at = now;
}

abbrev pub add_drift : BatchRow → ℕ → List DriftRow → List DriftObservation → List DriftRow
add_drift b now rows [] = rows
add_drift b now rows (o ∷ os) =
    let r = drift_row b o now in
    add_drift b now (if any (same_drift r) rows then rows else rows ++ r ∷ []) os

unfoldable pub record_drift : BatchRow → List DriftObservation → ℕ → Action Warehouse ℕ
record_drift b os now w = pure (length os) (record w { drift = add_drift b now w.drift os })
