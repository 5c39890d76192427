-- ===== src/Generator/SimulationTests.antt =====
-- Runs of the simulation on a small source: a book that is a number, whose phases add one to it.
use nordbank_data_platform.Common.{
  ℕ, zero, suc, ◌≡◌, refl, ap, arith, true, none, some, List, [], ◌∷◌, ◌++◌, map, length, max, ◌⊎◌,
  ok, is_ok, value_of_ok,
}
use nordbank_data_platform.Generator.Drift.{
  Column, apply_deltas, classification_rows, due_events, fire_all, revert_all, reversed,
}
use nordbank_data_platform.Generator.Drift.Replay.{
  IsBaseline, live, schema_after, fire_all-apply_deltas, revert_all-fired_by,
}
use nordbank_data_platform.Generator.Drift.Timetable.{fired_by, due_events-fired_by}
use nordbank_data_platform.Generator.Guard.{Queries, GuardResult, guard, guard_failed}
use nordbank_data_platform.Generator.Guard.Verdict.{IsCoherent, Reports, guard-IsVerdict}
use nordbank_data_platform.Generator.Source.{Source, SimulationState, classification_of, reset}
use nordbank_data_platform.Generator.Tick.{Engine, Request, TickReport, target_of, run}
use nordbank_data_platform.Generator.Tick.Progress.{IsOnTime}
use nordbank_data_platform.Generator.Tick.Outcome.{HasAdvanced, run-HasAdvanced}
use nordbank_data_platform.Generator.Ticks.{Runner, dates, run_ticks}
use nordbank_data_platform.Generator.Ticks.Reached.{
  IsOnTimeFrom, IsOnTimeAt, run_ticks-IsOnTimeFrom, run_ticks-IsOnTimeAt,
}
use nordbank_data_platform.Generator.Ticks.Reseeded.{reset-IsOnTime}

abbrev remittance : Column
remittance = record {
  schema = "core";
  table = "payments";
  name = "remittance_reference";
  data_type = "character varying(140)";
  is_nullable = true;
  classification = "personal";
  description = "Free text.";
  consumed_by = "-";
}

abbrev documented : List Column
documented = remittance ∷ []

documented-IsBaseline : IsBaseline documented
documented-IsBaseline = record { without_score = (refl, tt); narrow = ((λ _. refl), tt) }

abbrev draw_ones : List ℕ → ℕ → List ℕ
draw_ones ids zero = []
draw_ones ids (suc k) = 1 ∷ draw_ones ids k

draw_ones-length : (ids : List ℕ) (k : ℕ) → length (draw_ones ids k) ≡ k
draw_ones-length ids zero = refl
draw_ones-length ids (suc k) = ap (λ n. suc n) (draw_ones-length ids k)

abbrev queries : Queries ℕ
queries = record {
  check_balances = λ book ids. 0;
  check_login_sessions_resolve = λ book day. 0;
  check_login_coverage = λ book day. (190, 200);
}

abbrev engine : Engine ℕ
engine = record {
  phase = λ name state log day work.
      ok (record { book = suc work.book; touched_accounts = 7 ∷ work.touched_accounts });
  queries = queries;
  draw = λ day. draw_ones;
  write_counts = λ work. ok tt;
  floor = (8, 10);
}

abbrev anchored : SimulationState
anchored = record {
  profile = "ci";
  seed = 42;
  anchor_date = 739817;
  simulated_date = 739817;
  tick_sequence = 0;
  last_tick_completed_at = none;
}

abbrev seeded : Source ℕ
seeded = record {
  simulation = some anchored;
  tick_log = [];
  drift_log = [];
  classifications = map classification_of documented;
  schema = map live documented;
  book = 0;
}

abbrev request : Request
request = record {
  requested_date = some 739818;
  profile = "ci";
  fail_after = none;
  started_at = 5;
  completed_at = 6;
}

abbrev runner : Runner ℕ
runner = record {
  engine = engine;
  profile = "ci";
  clock = λ source. (5, 6);
  reconcile = λ source. ok tt;
  synchronise = λ source. ok tt;
}

seeded-IsOnTime : IsOnTime documented seeded anchored
unfolding apply_deltas classification_rows
seeded-IsOnTime = record {
  running = refl;
  dated = refl;
  ticked = refl;
  fired = refl;
  shaped = refl;
  classified = refl;
}

due_events-fired_by_example :
    fired_by 100 111 ++ map (λ event. event.name) (due_events 100 140 (fired_by 100 111))
    ≡ fired_by 100 140
due_events-fired_by_example = due_events-fired_by 100 111 140 (omega arith)

fire_all-apply_deltas_example :
    fire_all (due_events 100 140 (fired_by 100 111)) (schema_after documented (fired_by 100 111))
    ≡ schema_after documented (fired_by 100 140)
fire_all-apply_deltas_example =
    fire_all-apply_deltas documented 100 111 140 documented-IsBaseline (omega arith)

revert_all-fired_by_example :
    revert_all (fired_by 100 140) (schema_after documented (fired_by 100 140))
    ≡ (map live documented, reversed (fired_by 100 140))
revert_all-fired_by_example = revert_all-fired_by documented 100 140 documented-IsBaseline

guard-IsVerdict_example :
    ((r : GuardResult) × (guard queries 3 (9 ∷ 2 ∷ []) 739818 (some draw_ones) (8, 10) ≡ ok r)
      × IsCoherent queries 3 (9 ∷ 2 ∷ []) 739818 (some draw_ones) (8, 10)
      × Reports queries 3 (9 ∷ 2 ∷ []) 739818 r)
    ⊎ ((guard queries 3 (9 ∷ 2 ∷ []) 739818 (some draw_ones) (8, 10) ≡ guard_failed)
        × (IsCoherent queries 3 (9 ∷ 2 ∷ []) 739818 (some draw_ones) (8, 10) → ⊥))
guard-IsVerdict_example =
    guard-IsVerdict queries 3 (9 ∷ 2 ∷ []) 739818 draw_ones (8, 10)
      (λ ids k h. draw_ones-length ids k)

returned : is_ok (run engine request seeded) ≡ true
unfolding run
returned = refl

ticked : (r : Source ℕ × TickReport) × (run engine request seeded ≡ ok r)
ticked = value_of_ok (run engine request seeded) returned

run-HasAdvanced_example :
    (target_of (some 739818) anchored ≡ 739818)
    × (anchored.profile ≡ "ci")
    × HasAdvanced documented anchored 6 (ticked.0.0) (ticked.0.1)
run-HasAdvanced_example =
    run-HasAdvanced engine documented request seeded anchored documented-IsBaseline seeded-IsOnTime
      (omega arith) (ticked.1)

run_ticks-IsOnTimeFrom_example :
    IsOnTimeFrom documented anchored
      (run_ticks runner (none ∷ some 739819 ∷ some 739819 ∷ []) seeded).0
run_ticks-IsOnTimeFrom_example =
    run_ticks-IsOnTimeFrom runner documented (none ∷ some 739819 ∷ some 739819 ∷ []) seeded anchored
      documented-IsBaseline (λ source. omega arith) seeded-IsOnTime

run_ticks-IsOnTimeAt_example :
    IsOnTimeAt documented anchored
      (max 739817 739819)
      (run_ticks runner (dates anchored none (some 739819)) seeded).0
unfolding run_ticks dates
run_ticks-IsOnTimeAt_example =
    run_ticks-IsOnTimeAt runner documented 739819 seeded anchored documented-IsBaseline
      (λ source. omega arith) seeded-IsOnTime refl

reset-IsOnTime_example :
    IsOnTime documented (reset "dev" 1 739900 seeded) (record {
      profile = "dev";
      seed = 1;
      anchor_date = 739900;
      simulated_date = 739900;
      tick_sequence = 0;
      last_tick_completed_at = none;
    })
    × ((reset "dev" 1 739900 seeded).schema ≡ map live documented)
    × ((reset "dev" 1 739900 seeded).classifications ≡ map classification_of documented)
reset-IsOnTime_example =
    reset-IsOnTime documented "dev" 1 739900 seeded anchored documented-IsBaseline seeded-IsOnTime
