-- ===== src/Backfill/Days.antt =====
-- scripts/backfill.py, the loop over days. What the script talks to (Airflow's interface, the
-- source database and the programs it starts) is a `Stack`; the calls made are kept, latest first.
pub mod InStep
pub mod Kept
pub mod Whole
use nordbank_data_platform.Common.{
  ℕ, zero, suc, String, ◌+◌, ◌-◌, ◌==◌, Bool, true, false, not, ◌||◌, ◌&&◌, Option, none, some,
  List, [], ◌∷◌, ◌++◌, map, filter, has_name, str_eq, if◌then◌else◌, Result, ok, err, Error,
  no_simulation, not_ticked, not_delivered,
}
use nordbank_data_platform.Warehouse.{BatchRow, Warehouse}
use nordbank_data_platform.Warehouse.Action.{Action, pure, raise, lift, gets, ◌>>=◌, ◌>>◌}
use nordbank_data_platform.Backfill.{
  reference_dag, core_dag, settlement_dag, interval_batches, unresolved, feed_batches,
  relational_pending, is_empty, FeedDay, FeedBatch, judge_feed, feeds_due, tick_needed,
}

pub record AirflowRun : Type 0 where
  pub run_id : String
  pub state : String

-- How a settlement run is told to wait: its `conf`.
pub record SensorConf : Type 0 where
  pub timeout_seconds : ℕ
  pub poke_seconds : ℕ

abbrev pub settlement_conf : SensorConf
settlement_conf = record { timeout_seconds = 40; poke_seconds = 3 }

-- A program answers whether it ended with the code 0. A call may raise.
pub record Stack (W : Type 0) : Type 0 where
  pub warehouse : W → Warehouse
  pub find_run : W → String → ℕ → Option AirflowRun
  pub simulation : W → Option (ℕ × ℕ)
  pub advance : ℕ → W → Bool × W
  pub send_files : ℕ → W → Bool × W
  pub publish_list : ℕ → W → Bool × W
  pub clear_run : String → String → Action W (Unit {0})
  pub trigger : String → ℕ → Option SensorConf → Action W String
  pub wait_for : String → String → Action W String
  pub deferral_demo : ℕ → Action W String

pub data Call : Type 0 where
  simulation_read : ℕ → Call
  ticked : ℕ → Call
  files_sent : ℕ → Call
  list_published : ℕ → Call
  extracted : String → ℕ → Call
  feed_started : String → ℕ → Call
  waited : String → Call

pub record Session (W : Type 0) : Type 0 where
  pub world : W
  pub calls : List Call

-- Active runs of the day are waited for.
abbrev pub active : List String
active = "queued" ∷ "running" ∷ []

-- How the loop ended: the days processed and skipped, or the day it halted at and why.
pub data Ending : Type 0 where
  complete : ℕ → ℕ → Ending
  halted : ℕ → List (String × Option String) → Ending

pub data DayEnding : Type 0 where
  skipped processed : DayEnding
  failing : List (String × Option String) → DayEnding

abbrev pub printed_row : BatchRow → String × Option String
printed_row b = (b.entity, b.failure_reason)

abbrev pub incomplete : List (String × FeedDay) → List String
incomplete [] = []
incomplete ((dag, v) ∷ vs) = let rest = incomplete vs in if v.complete then rest else dag ∷ rest

abbrev pub failures_of : List FeedDay → List (String × Option String)
failures_of [] = []
failures_of (v ∷ vs) = v.failures ++ failures_of vs

abbrev pub is_demo : Option ℕ → ℕ → Bool
is_demo none day = false
is_demo (some d) day = d == day

abbrev pub conf_of : String → Option SensorConf
conf_of dag = if str_eq dag settlement_dag then some settlement_conf else none

abbrev pub others : Bool → List String → List String
others false dags = dags
others true dags = filter (λ dag. not (str_eq dag settlement_dag)) dags

abbrev pub ended : List (String × Option String) → DayEnding
ended [] = processed
ended (f ∷ fs) = failing (f ∷ fs)

abbrev pub check : {W : Type 0} → Error → Bool × W → Result (Unit {0}) × W
check e (true, w) = (ok tt, w)
check e (false, w) = (err e, w)

module _ {W : Type 0} (stack : Stack W) where
  abbrev pub Act : Type 0 → Type 0
  Act A = Action (Session W) A

  abbrev pub note : Call → Session W → Session W
  note c s = record s { calls = c ∷ s.calls }

  abbrev pub on_world : {A : Type 0} → A × W → Session W → A × Session W
  on_world (a, w) s = (a, record s { world = w })

  -- A call on the stack, noted as it is made.
  unfoldable pub calling : {A : Type 0} → Call → Action W A → Act A
  calling c m s = on_world (m s.world) (note c s)

  unfoldable pub quietly : {A : Type 0} → Action W A → Act A
  quietly m s = on_world (m s.world) s

  abbrev pub state_answered : Option (ℕ × ℕ) → Act (ℕ × ℕ)
  state_answered none s = (err no_simulation, s)
  state_answered (some (anchor, simulated)) s =
      (ok (anchor, simulated), note (simulation_read simulated) s)

  unfoldable pub simulation_state : Act (ℕ × ℕ)
  simulation_state s = state_answered (stack.simulation s.world) s

  unfoldable pub tick : ℕ → Act (Unit {0})
  unfolding calling
  tick day = calling (ticked day) (λ w. check (not_ticked day) (stack.advance day w))

  unfoldable pub send_files : ℕ → Bool → Act (Unit {0})
  unfolding calling
  send_files day true =
      calling (files_sent day) (λ w. check (not_delivered day) (stack.send_files day w))
  send_files day false = pure tt

  unfoldable pub deliver : ℕ → Bool → Act (Unit {0})
  unfolding send_files calling
  deliver day files = do
    send_files day files
    calling (list_published day) (λ w. check (not_delivered day) (stack.publish_list day w))

  unfoldable pub existing_run : String → ℕ → Act (Option AirflowRun)
  existing_run dag day = gets (λ (s : Session W). stack.find_run s.world dag day)

  unfoldable pub settle_held : String → Option AirflowRun → Act (Unit {0})
  unfolding calling
  settle_held dag none = pure tt
  settle_held dag (some held) =
      if has_name held.state active
      then (calling (waited dag) (stack.wait_for dag held.run_id) >> pure tt)
      else pure tt

  unfoldable pub settle_runs : List String → ℕ → Act (Unit {0})
  unfolding settle_held existing_run
  settle_runs [] day = pure tt
  settle_runs (dag ∷ dags) day = do
    held ← existing_run dag day
    settle_held dag held
    settle_runs dags day

  abbrev pub feed_day_of : W → String → Option AirflowRun → FeedDay
  feed_day_of w dag none = judge_feed dag none []
  feed_day_of w dag (some held) =
      judge_feed dag (some held.state) (feed_batches held.run_id (stack.warehouse w))

  abbrev pub feed_day : W → ℕ → String → FeedDay
  feed_day w day dag = feed_day_of w dag (stack.find_run w dag day)

  -- A run of the day is cleared where there is one, and triggered where there is none.
  abbrev pub run_of : String → ℕ → Option SensorConf → Option AirflowRun → Action W String
  run_of dag day conf none = stack.trigger dag day conf
  run_of dag day conf (some held) = do stack.clear_run dag held.run_id; pure held.run_id

  unfoldable pub start_run : Call → String → ℕ → Option SensorConf → Act String
  unfolding calling
  start_run c dag day conf = calling c (λ w. run_of dag day conf (stack.find_run w dag day) w)

  unfoldable pub trigger_and_wait : String → ℕ → Act String
  unfolding start_run quietly
  trigger_and_wait dag day = do
    run_id ← start_run (extracted dag day) dag day none
    quietly (stack.wait_for dag run_id)

  unfoldable pub extract_all : List String → ℕ → Act (Unit {0})
  unfolding trigger_and_wait
  extract_all [] day = pure tt
  extract_all (dag ∷ dags) day = do trigger_and_wait dag day; extract_all dags day

  unfoldable pub start_feeds : List String → ℕ → Act (List (String × String))
  unfolding start_run
  start_feeds [] day = pure []
  start_feeds (dag ∷ dags) day = do
    run_id ← start_run (feed_started dag day) dag day (conf_of dag)
    rest ← start_feeds dags day
    pure ((dag, run_id) ∷ rest)

  -- On the day of the demonstration the settlement run is started first, before its file.
  unfoldable pub start_demo : Bool → ℕ → Act (List (String × String))
  unfolding calling
  start_demo false day = pure []
  start_demo true day = do
    run_id ← calling (feed_started settlement_dag day) (stack.deferral_demo day)
    pure ((settlement_dag, run_id) ∷ [])

  unfoldable pub judge_started : List (String × String) → Act (List FeedDay)
  unfolding quietly
  judge_started [] = pure []
  judge_started ((dag, run_id) ∷ started) = do
    state ← quietly (stack.wait_for dag run_id)
    batches ← gets (λ (s : Session W). feed_batches run_id (stack.warehouse s.world))
    rest ← judge_started started
    pure (judge_feed dag (some state) batches ∷ rest)

  abbrev pub day_batches : ℕ → W → List BatchRow
  day_batches day w = interval_batches day "corebank" (stack.warehouse w)

  -- What failed and is not resolved, once reference data and core banking have run.
  abbrev pub failed_extraction : List String → ℕ → W → List BatchRow
  failed_extraction [] day w = []
  failed_extraction (dag ∷ dags) day w = unresolved (day_batches day w)

  unfoldable pub feed_the_day : Bool → List String → ℕ → Act DayEnding
  unfolding start_demo start_feeds judge_started
  feed_the_day demo_today feeds day = do
    first ← start_demo demo_today day
    rest ← start_feeds (others demo_today feeds) day
    verdicts ← judge_started (first ++ rest)
    pure (ended (failures_of verdicts))

  abbrev pub unless_failed : List BatchRow → Act DayEnding → Act DayEnding
  unless_failed [] next = next
  unless_failed (b ∷ bs) next = pure (failing (map printed_row (b ∷ bs)))

  abbrev pub tick_if : Bool → ℕ → Act (Unit {0})
  unfolding tick
  tick_if true day = tick day
  tick_if false day = pure tt

  -- What follows where the source stands at the day.
  unfoldable pub after_tick : List String → List String → Bool → ℕ → Act DayEnding
  unfolding deliver extract_all feed_the_day
  after_tick relational feeds demo_today day = do
    deliver day (not demo_today)
    extract_all relational day
    rows ← gets (λ (s : Session W). failed_extraction relational day s.world)
    unless_failed rows (feed_the_day demo_today feeds day)

  -- A day with work left: what of reference data and core banking, and of the feeds, is pending.
  unfoldable pub work_on : ℕ → Option ℕ → List String → List String → ℕ → Act DayEnding
  unfolding simulation_state tick_needed tick_if after_tick
  work_on anchor demo relational feeds day = do
    state ← simulation_state
    needed ← lift (tick_needed day state.1 anchor (not (is_empty relational)))
    tick_if needed day
    after_tick relational feeds (is_demo demo day && has_name settlement_dag feeds) day

  abbrev pub work_if : ℕ → Option ℕ → List String → List String → ℕ → Act DayEnding
  unfolding work_on
  work_if anchor demo [] [] day = pure skipped
  work_if anchor demo relational feeds day = work_on anchor demo relational feeds day

  -- What is pending on a day, as the registry and the runs stand.
  unfoldable pub judge_day : ℕ → Option ℕ → ℕ → Act DayEnding
  unfolding feeds_due judge_feed feed_batches interval_batches relational_pending work_if
  judge_day anchor demo day s =
      work_if anchor demo (relational_pending (day_batches day s.world))
        (incomplete (map (λ dag. (dag, feed_day s.world day dag)) (feeds_due day))) day s

  unfoldable pub ingest_day : ℕ → Option ℕ → ℕ → Act DayEnding
  unfolding settle_runs judge_day
  ingest_day anchor demo day = do
    settle_runs (reference_dag ∷ core_dag ∷ feeds_due day) day
    judge_day anchor demo day

  -- The loop goes on to the next day, or halts.
  abbrev pub go_on : ℕ → DayEnding → Act Ending → Act Ending → Act Ending
  go_on day skipped after_skip after_work = after_skip
  go_on day processed after_skip after_work = after_work
  go_on day (failing fs) after_skip after_work = pure (halted day fs)

  -- The loop, by the number of days left, with the days processed and skipped so far.
  unfoldable pub ingest_from : ℕ → ℕ → Option ℕ → ℕ → ℕ → ℕ → Act Ending
  unfolding ingest_day
  ingest_from zero anchor demo day p k = pure (complete p k)
  ingest_from (suc left) anchor demo day p k = ingest_day anchor demo day >>= λ ending.
      go_on day ending (ingest_from left anchor demo (suc day) p (suc k))
        (ingest_from left anchor demo (suc day) (suc p) k)

  unfoldable pub ingest_days : ℕ → ℕ → ℕ → Option ℕ → Act Ending
  unfolding ingest_from
  ingest_days start end anchor demo = ingest_from (suc end - start) anchor demo start 0 0
