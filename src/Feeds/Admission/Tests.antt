-- ===== src/Feeds/Admission/Tests.antt =====
-- The deliveries of a day: a new one, a renamed copy of it, one that has landed and a parked one.
use nordbank_data_platform.Common.{ℕ, String, ◌≡◌, refl, false, none, some, List, [], ◌∷◌, map, ok}
use nordbank_data_platform.Warehouse.{failed, BatchRow, SightingRow, Warehouse, empty_warehouse}
use nordbank_data_platform.Warehouse.Action.{pure}
use nordbank_data_platform.Feeds.Identity.{Candidate}
use nordbank_data_platform.Feeds.Allocation.{OpenedBatch}
use nordbank_data_platform.Feeds.Admission.{Run, Parked, OpenedUnit, parked, open_deliveries}
use nordbank_data_platform.Feeds.Admission.Sighted.{OpenedAll, open_deliveries-OpenedAll}

abbrev candidate : String → String → Candidate
candidate key checksum = record { key = key; checksum = checksum; size = 10 }

abbrev found : List Candidate
found =
    candidate "a.csv" "aa"
    ∷ candidate "b.csv" "bb"
    ∷ candidate "c.csv" "aa"
    ∷ candidate "d.csv" "dd"
    ∷ []

abbrev refused : Parked
refused = record { batch_id = "settlements-x-01"; reason = "breaking drift"; fingerprints = [] }

-- A feed of no entity, so that the fingerprints in force are none.
abbrev day_run : Run
day_run = record {
  chains = [];
  system = "cardnet";
  entities = [];
  day = 739817;
  selected_on = 739817;
  run_id = "run";
  opened_at = 5;
  landed = ("bb", "settlements-x-02") ∷ [];
  held = ("dd", refused) ∷ [];
}

abbrev allocated : Candidate → List OpenedBatch
allocated c =
    (record {
      opened = record {
        entity = "settlements";
        batch_id = c.key;
        contract_version = 1;
        ingest_date = 739817;
        opened_at = 5;
        watermark_from = none;
        reused = false;
      };
      interval_start = 0;
    })
    ∷ []

abbrev opened : OpenedUnit
opened = record {
  candidate = candidate "a.csv" "aa";
  outcome = "new";
  batches = allocated (candidate "a.csv" "aa");
}

abbrev sightings_of : Warehouse → List String
sightings_of w = map (λ (s : SightingRow). s.outcome) w.sightings

open_deliveries_runs :
    sightings_of (open_deliveries day_run (λ c. pure (allocated c)) found [] empty_warehouse).1
    ≡ "new" ∷ "already_ingested" ∷ "new" ∷ "parked" ∷ []
unfolding open_deliveries
open_deliveries_runs = refl

opened_once :
    (open_deliveries day_run (λ c. pure (allocated c)) found [] empty_warehouse).0
    ≡ ok (opened ∷ [], ("aa", ("new", "a.csv")) ∷ [])
unfolding open_deliveries
opened_once = refl

-- The batch of the latest attempt decides: it failed with a verdict.
abbrev failed_batch : BatchRow
failed_batch = record {
  batch_id = "settlements-x-01";
  source_system = "cardnet";
  source_schema = "cardnet";
  entity = "settlements";
  ingest_date = 739816;
  interval_start = 0;
  interval_end = 0;
  batch_sequence = 1;
  contract_version = 1;
  watermark_from = none;
  watermark_to = none;
  rows_read = 0;
  rows_landed = 0;
  rows_quarantined = 0;
  object_prefix = "p";
  triggering_run_id = "run";
  status = failed;
  failure_reason = some "breaking drift: gone";
  empty_reason = none;
  opened_at = 1;
  written_at = none;
  ended_at = some 2;
}

abbrev attempt : String → ℕ → SightingRow
attempt batch_id seen_at = record {
  content_checksum = "aa";
  source_system = "cardnet";
  object_key = "a.csv";
  ingest_date = 739816;
  outcome = "new";
  batch_id = some batch_id;
  triggering_run_id = "run";
  seen_at = seen_at;
}

abbrev refused_before : Warehouse
refused_before = record empty_warehouse {
  batches = failed_batch ∷ [];
  sightings = attempt "settlements-x-00" 1 ∷ attempt "settlements-x-01" 2 ∷ [];
}

parked_runs :
    (parked "cardnet" ("aa" ∷ "bb" ∷ []) refused_before).0
    ≡ ok (
        (
          "aa",
          record {
            batch_id = "settlements-x-01";
            reason = "breaking drift: gone";
            fingerprints = [];
          },
        )
        ∷ [])
unfolding parked
parked_runs = refl

open_deliveries-OpenedAll_example :
    OpenedAll day_run [] found
      (opened ∷ [])
      empty_warehouse
      (open_deliveries day_run (λ c. pure (allocated c)) found [] empty_warehouse).1
open_deliveries-OpenedAll_example =
    open_deliveries-OpenedAll day_run (λ c. pure (allocated c)) found [] empty_warehouse
      (opened ∷ []) (("aa", ("new", "a.csv")) ∷ []) (λ c w. refl) opened_once
