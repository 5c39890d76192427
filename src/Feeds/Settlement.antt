-- ===== src/Feeds/Settlement.antt =====
-- airflow/plugins/nordbank_ops/feeds/phases.py, the open step of the card settlement feed:
-- `settlement_open` under `open_unit`. The contracts on disk are its `chains`.
pub mod Placed
pub mod Files
pub mod Empty
pub mod Opened
pub mod Declares
mod Tests
use Prim.Native.String.{◌++◌ as joined}
use nordbank_data_platform.Common.{
  ℕ, String, ◌==◌, Bool, true, false, not, ◌&&◌, ◌||◌, Option, none, some, List, [], ◌∷◌, ◌++◌, map,
  filter, any, str_eq, if◌then◌else◌, str_of, ok,
}
use nordbank_data_platform.Common.Time.{midnight, compact_stamp, date_of}
use nordbank_data_platform.Warehouse.{Status, SightingRow, Warehouse}
use nordbank_data_platform.Warehouse.Action.{Action, pure, lift, gets, transaction, ◌>>=◌, ◌>>◌}
use nordbank_data_platform.Common.Dict.{Dict}
use nordbank_data_platform.Contracts.{VersionChains, sync}
use nordbank_data_platform.Registry.{BatchKey, existing_batches, may_reuse, first_of_pair}
use nordbank_data_platform.Feeds.Identity.{Candidate, Declaration, declared_conflict, landed_as}
use nordbank_data_platform.Feeds.SettlementFile.{
  SettlementFile, Declared, declaration_of, earlier_in, declare, conflict_with, refusal_of,
}
use nordbank_data_platform.Feeds.Allocation.{
  Placement, OpenedBatch, or_else, allocate_each, allocate_one, sequences_of,
}
use nordbank_data_platform.Feeds.Admission.{
  Run, Parked, Attempted, OpenedUnit, parked, open_delivery, first_id,
}

abbrev pub cardnet : String
cardnet = "cardnet"

abbrev pub settlement_entities : List String
settlement_entities = "settlements" ∷ "settlement_totals" ∷ []

abbrev pub no_arrival : String
no_arrival = "no_arrival_within_window"

pub record SettlementUnit : Type 0 where
  pub file : Option SettlementFile
  pub batches : List OpenedBatch
  pub refuse : Option String
  pub empty_reason : Option String

-- The loop's state: the units opened, the deliveries attempted and the declarations made.
pub record Progress : Type 0 where
  pub units : List SettlementUnit
  pub attempted : Attempted
  pub declared : Declared

abbrev pub covers : ℕ → Option SettlementFile → Bool
covers day none = false
covers day (some f) = elim f.settlement_date [ none ↦ false | some d ↦ d == day ]

-- The sequences of the interval that no delivery was allocated.
abbrev pub untaken : List ℕ → List (ℕ × Status) → List ℕ
untaken taken existing = filter (λ n. not (may_reuse (some taken) n)) (map first_of_pair existing)

-- A unit without a file says why it has none.
abbrev pub empty_unit : List OpenedBatch → SettlementUnit
empty_unit batches = record {
  file = none;
  batches = batches;
  refuse = none;
  empty_reason = some no_arrival;
}

module _ (r : Run) where
  abbrev pub business_of : SettlementFile → ℕ
  business_of f = or_else f.settlement_date r.day

  abbrev pub file_placement : ℕ → List ℕ → String → Placement
  file_placement interval own entity = record {
    interval_start = interval;
    interval_end = none;
    ingest_date = r.day;
    watermark_from = none;
    opened_at = r.opened_at;
    run_id = r.run_id;
    selected_on = some r.day;
    reusable = some own;
  }

  -- A file may reuse the batches that it was allocated before, and no other's.
  unfoldable pub allocate_file : SettlementFile → Action Warehouse (List OpenedBatch)
  unfolding sequences_of allocate_each compact_stamp
  allocate_file f = do
    let interval = midnight (business_of f)
    own ← sequences_of cardnet (some f.candidate.checksum) (compact_stamp interval)
    allocate_each r.chains settlement_entities (file_placement interval own)

  abbrev pub declaration : SettlementFile → Declaration
  declaration f = record {
    business_date = some (business_of f);
    file_sequence = f.file_sequence;
    revision = f.revision;
    publisher_version = none;
  }

  abbrev pub with_unit : SettlementFile → OpenedUnit → String → Option String → Progress → Progress
  unfolding refusal_of
  with_unit f u batch_id landed p =
      let declares = declaration_of (business_of f) f.file_sequence f.revision in
      let conflict = conflict_with landed (earlier_in declares p.declared) f.candidate.checksum in
      record p {
        units =
            p.units
            ++ (record {
              file = some f;
              batches = u.batches;
              refuse = refusal_of (business_of f) f f.structural_fault conflict;
              empty_reason = none;
            })
              ∷ [];
        declared = declare declares (batch_id, f.candidate.checksum) p.declared;
      }

  -- A file that is attempted is judged by its structure and by what it declares.
  unfoldable pub judge_file :
      SettlementFile → List OpenedUnit → Progress → Action Warehouse Progress
  unfolding declared_conflict with_unit
  judge_file f [] p = pure p
  judge_file f (u ∷ us) p = do
    batch_id ← lift (first_id u.batches)
    landed ← declared_conflict cardnet f.candidate.checksum (declaration f)
    pure (with_unit f u batch_id landed p)

  unfoldable pub open_file : SettlementFile → Progress → Action Warehouse Progress
  unfolding allocate_file open_delivery judge_file
  open_file f p = do
    one ← open_delivery r (λ _. allocate_file f) f.candidate p.attempted
    judge_file f one.0 (record p { attempted = one.1 })

  unfoldable pub open_files : List SettlementFile → Progress → Action Warehouse Progress
  unfolding open_file
  open_files [] p = pure p
  open_files (f ∷ fs) p = do next ← open_file f p; open_files fs next

  abbrev pub empty_placement : ℕ → List ℕ → Placement
  empty_placement start free = record {
    interval_start = start;
    interval_end = none;
    ingest_date = r.day;
    watermark_from = none;
    opened_at = r.opened_at;
    run_id = r.run_id;
    selected_on = none;
    reusable = some free;
  }

  unfoldable pub allocate_empty : ℕ → List ℕ → List String → Action Warehouse (List OpenedBatch)
  unfolding existing_batches allocate_one
  allocate_empty start taken [] = pure []
  allocate_empty start taken (entity ∷ entities) = do
    existing ←
        existing_batches
          (record { source_system = cardnet; entity = entity; interval_start = start })
    b ← allocate_one r.chains entity (empty_placement start (untaken taken existing))
    rest ← allocate_empty start taken entities
    pure (b ∷ rest)

  -- Where no file of the day came, an empty batch for each entity says so.
  unfoldable pub open_empty :
      Bool → ℕ → List SettlementUnit → Action Warehouse (List SettlementUnit)
  unfolding sequences_of allocate_empty compact_stamp
  open_empty true start units = pure units
  open_empty false start units = do
    taken ← sequences_of cardnet none (compact_stamp start)
    batches ← allocate_empty start taken settlement_entities
    pure (units ++ empty_unit batches ∷ [])

  unfoldable pub open_run : ℕ → List SettlementFile → Bool → Action Warehouse (List SettlementUnit)
  unfolding open_files open_empty
  open_run start files found = do
    p ← open_files files (record { units = []; attempted = []; declared = [] })
    open_empty (any (λ (u : SettlementUnit). covers r.day u.file) p.units || found) start p.units

-- What the run has at hand: `start` is its logical date, and `found` says that the sensor saw a
-- file of its day.
pub record Context : Type 0 where
  pub chains : VersionChains
  pub start : ℕ
  pub run_id : String
  pub opened_at : ℕ
  pub now : ℕ

abbrev pub checksums_of : List SettlementFile → List String
checksums_of files = map (λ (f : SettlementFile). f.candidate.checksum) files

abbrev pub run_of : Context → Dict String → Dict Parked → Run
run_of c landed held = record {
  chains = c.chains;
  system = cardnet;
  entities = settlement_entities;
  day = date_of c.start;
  selected_on = date_of c.start;
  run_id = c.run_id;
  opened_at = c.opened_at;
  landed = landed;
  held = held;
}

unfoldable pub open_within :
    Context → List SettlementFile → Bool → Action Warehouse (List SettlementUnit)
unfolding landed_as parked open_run
open_within c files found = do
  landed ← landed_as (checksums_of files)
  held ← parked cardnet (checksums_of files)
  open_run (run_of c landed held) c.start files found

-- The versions on disk are recorded first, in the transaction.
unfoldable pub settlement_open :
    Context → List SettlementFile → Bool → Action Warehouse (List SettlementUnit)
unfolding sync open_within
settlement_open c files found = transaction (sync c.chains c.now >> open_within c files found)
