-- ===== src/Backfill.antt =====
-- scripts/backfill.py, with the reports on the registry that it reads (scripts/ingest_state.py and
-- scripts/feed_state.py): what a day lacks, and whether the source is ticked for it. Each report is
-- made of the batch registry; a date is its ordinal, and a set is a sorted list.
pub mod Verdict
pub mod Days
mod Tests
use nordbank_data_platform.Common.{
  ℕ, suc, String, ◌+◌, ◌-◌, ◌%◌, ◌==◌, leb, ltb, Bool, true, false, not, ◌||◌, ◌&&◌, Option, none,
  some, List, [], ◌∷◌, ◌++◌, map, filter, any, length, has_name, str_eq, str_lt, sorted_set,
  if◌then◌else◌, Result, ok, err, unreached, out_of_step,
}
use nordbank_data_platform.Common.Time.{midnight, civil}
use nordbank_data_platform.Warehouse.{
  Status, registered, failed, is_registered, BatchRow, SightingRow, Warehouse,
}
use nordbank_data_platform.Feeds.Identity.{starts, landed_in}
use nordbank_data_platform.Feeds.Admission.{parked_as, sibling_suffix, ends, is_failed_batch}

abbrev pub reference_dag : String
reference_dag = "ingest_reference_data"

abbrev pub core_dag : String
core_dag = "ingest_core_banking"

abbrev pub settlement_dag : String
settlement_dag = "ingest_card_settlements"

abbrev pub fx_dag : String
fx_dag = "ingest_fx_rates"

abbrev pub sanctions_dag : String
sanctions_dag = "ingest_sanctions_list"

abbrev pub macro_dag : String
macro_dag = "ingest_macro_series"

-- `EXPECTED[dag]`, for the DAGs of `RELATIONAL`, with their schemas in its order.
abbrev pub relational_dags : List (String × String × ℕ)
relational_dags = (reference_dag, "ref", 29) ∷ (core_dag, "core", 16) ∷ []

-- ingest_state.py: the batches of the interval that starts on a day.
abbrev pub is_of : ℕ → String → BatchRow → Bool
is_of day system b = b.interval_start == midnight day && str_eq b.source_system system

abbrev pub row_lt : BatchRow → BatchRow → Bool
row_lt a b =
    str_lt a.entity b.entity || (str_eq a.entity b.entity && ltb a.batch_sequence b.batch_sequence)

abbrev pub insert_row : (BatchRow → BatchRow → Bool) → BatchRow → List BatchRow → List BatchRow
insert_row lt b [] = b ∷ []
insert_row lt b (c ∷ cs) = let rest = insert_row lt b cs in if lt c b then c ∷ rest else b ∷ c ∷ cs

-- `order by`
unfoldable pub order_by : (BatchRow → BatchRow → Bool) → List BatchRow → List BatchRow
order_by lt [] = []
order_by lt (b ∷ bs) = insert_row lt b (order_by lt bs)

unfoldable pub interval_batches : ℕ → String → Warehouse → List BatchRow
unfolding order_by
interval_batches day system w = order_by row_lt (filter (is_of day system) w.batches)

abbrev pub registers : String → BatchRow → Bool
registers entity b = is_registered b.status && str_eq b.entity entity

-- A failed batch beside a registered one of its entity is resolved.
abbrev pub unresolved : List BatchRow → List BatchRow
unresolved batches =
    filter (λ (b : BatchRow). is_failed_batch b.status && not (any (registers b.entity) batches))
      batches

-- feed_state.py: what became of the delivery that a failed batch attempted.
pub data Delivery : Type 0 where
  landed parked : Delivery

abbrev pub attempts_sibling : String → String → SightingRow → Bool
attempts_sibling system suffix s =
    str_eq s.source_system system
    && (has_name s.outcome ("new" ∷ "reattempted" ∷ [])
        && elim s.batch_id [ none ↦ false | some id ↦ ends id (String.◌∷◌ "-" suffix) ])

abbrev pub first_checksum : (SightingRow → Bool) → List SightingRow → Option String
first_checksum test [] = none
first_checksum test (s ∷ ss) = if test s then some s.content_checksum else first_checksum test ss

abbrev pub fate_of : Warehouse → String → Option String → Option Delivery
fate_of w system none = none
fate_of w system (some checksum) = elim (landed_in w.ingested (checksum ∷ [])) [
  | [] ↦ elim (parked_as w system checksum) [ none ↦ none | some p ↦ some parked ]
  | r ∷ rs ↦ some landed
]

unfoldable pub delivery_of : Warehouse → String → String → Option Delivery
delivery_of w system batch_id =
    fate_of w system
      (first_checksum (attempts_sibling system (sibling_suffix batch_id)) w.sightings)

pub record FeedBatch : Type 0 where
  pub entity : String
  pub interval_start : ℕ
  pub status : Status
  pub failure_reason : Option String
  pub delivery : Option Delivery

abbrev pub feed_batch : Warehouse → BatchRow → FeedBatch
unfolding delivery_of
feed_batch w b = record {
  entity = b.entity;
  interval_start = b.interval_start;
  status = b.status;
  failure_reason = b.failure_reason;
  delivery = if is_failed_batch b.status then delivery_of w b.source_system b.batch_id else none;
}

unfoldable pub feed_batches : String → Warehouse → List FeedBatch
unfolding order_by delivery_of
feed_batches run_id w = map (feed_batch w) (
    order_by (λ a b. str_lt a.batch_id b.batch_id)
      (filter (λ (b : BatchRow). str_eq b.triggering_run_id run_id) w.batches))

abbrev pub prefixes : List String
prefixes = "structurally malformed" ∷ "declaration conflict" ∷ []

abbrev pub sender_resolves : Option String → Bool
sender_resolves none = false
sender_resolves (some reason) =
    not (str_eq reason "") && any (λ prefix. starts prefix reason) prefixes

-- The entities that a schema has registered, each once, are as many as are expected.
abbrev pub registered_in : String → List BatchRow → List String
registered_in schema batches =
    map (λ (b : BatchRow). b.entity)
      (filter (λ (b : BatchRow). is_registered b.status && str_eq b.source_schema schema) batches)

abbrev pub is_complete : List BatchRow → String × String × ℕ → Bool
is_complete batches (dag, schema, expected) =
    leb expected (length (sorted_set (registered_in schema batches)))

-- The DAGs whose value in `relational_complete` is false.
unfoldable pub relational_pending : List BatchRow → List String
unfolding sorted_set
relational_pending batches =
    map (λ (d : String × String × ℕ). d.0)
      (filter (λ (d : String × String × ℕ). not (is_complete batches d)) relational_dags)

-- A feed's standing for a day. What `halt` prints of a failure is its name and its reason.
pub record FeedDay : Type 0 where
  pub complete : Bool
  pub parked : List FeedBatch
  pub failures : List (String × Option String)

pub data Fate : Type 0 where
  accounted waits fails : Fate

abbrev pub registers_interval : FeedBatch → FeedBatch → Bool
registers_interval b r =
    is_registered r.status && (str_eq r.entity b.entity && r.interval_start == b.interval_start)

abbrev pub fate_by : List FeedBatch → FeedBatch → Option Delivery → Fate
fate_by batches b none = if any (registers_interval b) batches then accounted else fails
fate_by batches b (some landed) = accounted
fate_by batches b (some parked) = if sender_resolves b.failure_reason then waits else fails

abbrev pub fate : List FeedBatch → FeedBatch → Fate
fate batches b = if is_failed_batch b.status then fate_by batches b b.delivery else accounted

abbrev pub is_waiting : Fate → Bool
is_waiting waits = true
is_waiting _ = false

abbrev pub is_failing : Fate → Bool
is_failing fails = true
is_failing _ = false

abbrev pub has_failed : FeedBatch → Bool
has_failed b = is_failed_batch b.status

abbrev pub printed : FeedBatch → String × Option String
printed b = (b.entity, b.failure_reason)

-- A run that failed before any of its batches did.
abbrev pub early_failure : String → String → List FeedBatch → List (String × Option String)
early_failure dag state batches =
    if str_eq state "failed" && not (any has_failed batches)
    then (dag, some "the run failed before any batch failed; see its tasks") ∷ []
    else []

abbrev pub is_empty {ℓ} : {A : Type ℓ} → List A → Bool
is_empty [] = true
is_empty (x ∷ xs) = false

unfoldable pub failing_of : List FeedBatch → List (String × Option String)
failing_of batches = map printed (filter (λ b. is_failing (fate batches b)) batches)

unfoldable pub judge_feed : String → Option String → List FeedBatch → FeedDay
unfolding failing_of
judge_feed dag none batches = record { complete = false; parked = []; failures = [] }
judge_feed dag (some state) batches =
    let failures = failing_of batches ++ early_failure dag state batches in
    record {
      complete = is_empty failures;
      parked = filter (λ b. is_waiting (fate batches b)) batches;
      failures = failures;
    }

-- The feeds of a day: a list is published on a Monday, a series on the fifteenth.
unfoldable pub feeds_due : ℕ → List String
unfolding civil
feeds_due day =
    settlement_dag
    ∷ fx_dag
    ∷ ((if (day + 6) % 7 == 0 then sanctions_dag ∷ [] else [])
        ++ (if (civil day).day == 15 then macro_dag ∷ [] else []))

-- Whether to tick the source to a day, or refuse to work on it.
unfoldable pub tick_needed : ℕ → ℕ → ℕ → Bool → Result Bool
tick_needed day simulated anchor pending =
    if ltb anchor day && suc simulated == day
    then (if pending then ok true else err (unreached day simulated))
    else (if simulated == day || (ltb day simulated && not pending)
        then ok false
        else err (out_of_step day simulated))

-- From the day before the earliest business day, through the day before the anchor.
unfoldable pub history_range : ℕ → ℕ → Option (ℕ × ℕ)
history_range earliest anchor =
    if leb (earliest - 1) (anchor - 1) then some (earliest - 1, anchor - 1) else none
