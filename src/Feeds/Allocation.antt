-- ===== src/Feeds/Allocation.antt =====
-- airflow/plugins/nordbank_ops/feeds/phases.py, the allocation of a feed's batches: `_allocate`, and
-- `_sequences_of`, the sequences that a delivery, or any delivery, was allocated before.
pub mod Stands
use Prim.Native.Char.{Char, code}
use Prim.Native.String.{◌++◌ as joined}
use nordbank_data_platform.Common.{
  ℕ, zero, suc, String, ◌+◌, ◌-◌, ◌*◌, leb, ◌==◌, Bool, true, false, ◌&&◌, Option, none, some, List,
  [], ◌∷◌, str_eq, if◌then◌else◌, Result, ok, err, other, ◌>>=◌ as ◌>>=R◌,
}
use nordbank_data_platform.Common.Time.{day_length, date_of}
use nordbank_data_platform.Validation.Schema.{Contract}
use nordbank_data_platform.Warehouse.{BatchRow, SightingRow, Warehouse}
use nordbank_data_platform.Warehouse.Action.{Action, pure, lift, ◌>>=◌, ◌>>◌}
use nordbank_data_platform.Warehouse.Connect.{occurs_in}
use nordbank_data_platform.Contracts.{VersionChains, chain_of, select, body}
use nordbank_data_platform.Registry.{BatchKey, Opening, Allocation, allocate, batch}
use nordbank_data_platform.Phases.{Opened, current_of, read_back, opened_as}

-- What a feed passes by keyword.
pub record Placement : Type 0 where
  pub interval_start : ℕ
  pub interval_end : Option ℕ
  pub ingest_date : ℕ
  pub watermark_from : Option ℕ
  pub opened_at : ℕ
  pub run_id : String
  pub selected_on : Option ℕ
  pub reusable : Option (List ℕ)

pub record OpenedBatch : Type 0 where
  pub opened : Opened
  pub interval_start : ℕ

abbrev pub or_else : Option ℕ → ℕ → ℕ
or_else none n = n
or_else (some m) n = m

abbrev pub opening_for : Contract → Placement → Opening
opening_for c p = record {
  source_schema = c.source_schema;
  ingest_date = p.ingest_date;
  interval_end = or_else p.interval_end (p.interval_start + day_length);
  contract_version = c.contract_version;
  watermark_from = p.watermark_from;
  opened_at = p.opened_at;
  triggering_run_id = p.run_id;
  reusable = p.reusable;
}

abbrev pub key_for : Contract → String → Placement → BatchKey
key_for c entity p = record {
  source_system = c.source_system;
  entity = entity;
  interval_start = p.interval_start;
}

abbrev pub opened_batch : String → Bool → BatchRow → OpenedBatch
opened_batch entity reused b = record {
  opened = opened_as entity b reused;
  interval_start = b.interval_start;
}

-- The batch is read back once it is allocated.
unfoldable pub allocate_under : String → Placement → Contract → Action Warehouse OpenedBatch
unfolding allocate batch
allocate_under entity p c = do
  allocation ← allocate (key_for c entity p) (opening_for c p)
  found ← batch allocation.batch_id
  b ← lift (read_back allocation.batch_id found)
  pure (opened_batch entity allocation.reused b)

-- One batch, under the contract in force when the sender produced the delivery.
unfoldable pub allocate_one : VersionChains → String → Placement → Action Warehouse OpenedBatch
unfolding select body allocate_under
allocate_one chains entity p = do
  current ← lift (current_of (chain_of entity chains))
  version ← select current.source_system entity (or_else p.selected_on (date_of p.interval_start))
  c ← body chains entity version
  allocate_under entity p c

unfoldable pub allocate_each :
    VersionChains → List String → (String → Placement) → Action Warehouse (List OpenedBatch)
unfolding allocate_one
allocate_each chains [] placed = pure []
allocate_each chains (entity ∷ entities) placed = do
  b ← allocate_one chains entity (placed entity)
  rest ← allocate_each chains entities placed
  pure (b ∷ rest)

-- `int(batch_id.rsplit("-", 1)[1])`
abbrev pub digits_value : ℕ → String → Option ℕ
digits_value n String.[] = some n
digits_value n (String.◌∷◌ c s) =
    let rest = digits_value (10 * n + (code c - 48)) s in
    if leb 48 (code c) && leb (code c) 57 then rest else none

abbrev pub last_part : String → Option String
last_part String.[] = none
last_part (String.◌∷◌ c s) = elim (last_part s) [
  | some part ↦ some part
  | none ↦ if code c == 45 then some s else none
]

abbrev pub sequence_in : Option String → Result ℕ
sequence_in none = err (other "IndexError")
sequence_in (some String.[]) = err (other "ValueError")
sequence_in (some part) = elim (digits_value 0 part) [
  | none ↦ err (other "ValueError")
  | some n ↦ ok n
]

abbrev pub is_delivery_of : Option String → SightingRow → Bool
is_delivery_of none s = true
is_delivery_of (some checksum) s = str_eq s.content_checksum checksum

-- The batch of a sighting, where it is of the interval.
abbrev pub batch_within : String → String → Option String → SightingRow → Option String
batch_within system stamp checksum s = elim s.batch_id [
  | none ↦ none
  | some id ↦
      if str_eq s.source_system system
        && (occurs_in (joined "-" (joined stamp "-")) id && is_delivery_of checksum s)
      then some id
      else none
]

abbrev pub with_sequence : Option String → Result (List ℕ) → Result (List ℕ)
with_sequence none rest = rest
with_sequence (some id) rest = sequence_in (last_part id) >>=R λ n. rest >>=R λ ns. ok (n ∷ ns)

abbrev pub sequences_in : String → Option String → String → List SightingRow → Result (List ℕ)
sequences_in system checksum stamp [] = ok []
sequences_in system checksum stamp (s ∷ ss) =
    with_sequence (batch_within system stamp checksum s) (sequences_in system checksum stamp ss)

unfoldable pub sequences_of : String → Option String → String → Action Warehouse (List ℕ)
unfolding occurs_in
sequences_of system checksum stamp w = (sequences_in system checksum stamp w.sightings, w)
