-- ===== src/Backfill/Tests.antt =====
-- A source one day behind the window, with an empty registry: every day is extracted.
use nordbank_data_platform.Common.{
  ℕ, ◌+◌, ◌≡◌, refl, true, false, none, some, [], ◌∷◌, ok, err, out_of_step,
}
use nordbank_data_platform.Warehouse.{registered, failed, empty_warehouse}
use nordbank_data_platform.Warehouse.Action.{pure}
use nordbank_data_platform.Backfill.{
  FeedBatch, parked, judge_feed, feeds_due, tick_needed, fx_dag, settlement_dag, sanctions_dag,
  reference_dag, core_dag, history_range,
}
use nordbank_data_platform.Backfill.Verdict.{IsJudgement, judge_feed-IsJudgement}
use nordbank_data_platform.Backfill.Days
use nordbank_data_platform.Backfill.Days.InStep.{IsInStep}
use nordbank_data_platform.Backfill.Days.Whole.{ingest_days-IsInStep}

-- A Monday.
abbrev monday : ℕ
monday = 739817

monday_feeds : feeds_due monday ≡ settlement_dag ∷ fx_dag ∷ sanctions_dag ∷ []
unfolding feeds_due
monday_feeds = refl

refuses_ahead : tick_needed 100 101 99 true ≡ err (out_of_step 100 101)
unfolding tick_needed
refuses_ahead = refl

accepts_ahead_for_feeds : tick_needed 100 101 99 false ≡ ok false
unfolding tick_needed
accepts_ahead_for_feeds = refl

history : history_range 90 100 ≡ some (89, 99)
unfolding history_range
history = refl

abbrev drifted : FeedBatch
drifted = record {
  entity = "fx_rates";
  interval_start = 5;
  status = failed;
  failure_reason = some "breaking drift: rate";
  delivery = none;
}

abbrev malformed : FeedBatch
malformed = record drifted {
  entity = "settlements";
  failure_reason = some "structurally malformed: no header";
  delivery = some parked;
}

abbrev retried : FeedBatch
retried = record drifted { status = registered; failure_reason = none }

judged : judge_feed "dag" (some "failed") (drifted ∷ malformed ∷ []) ≡ record {
  complete = false;
  parked = malformed ∷ [];
  failures = ("fx_rates", some "breaking drift: rate") ∷ [];
}
unfolding judge_feed
judged = refl

judge_feed-IsJudgement_example :
    IsJudgement
      (some "success")
      (drifted ∷ malformed ∷ retried ∷ [])
      (judge_feed "dag" (some "success") (drifted ∷ malformed ∷ retried ∷ []))
judge_feed-IsJudgement_example =
    judge_feed-IsJudgement "dag" (some "success") (drifted ∷ malformed ∷ retried ∷ [])

-- The source by the day that it stands at.
abbrev calm : Days.Stack ℕ
calm = record {
  warehouse = λ w. empty_warehouse;
  find_run = λ w dag day. none;
  simulation = λ w. some (monday, w);
  advance = λ day w. (true, day);
  send_files = λ day w. (true, w);
  publish_list = λ day w. (true, w);
  clear_run = λ dag run_id. pure tt;
  trigger = λ dag day conf. pure dag;
  wait_for = λ dag run_id. pure "success";
  deferral_demo = λ day. pure "demo";
}

abbrev fresh : Days.Session ℕ
fresh = record { world = monday; calls = [] }

ingests : Days.ingest_days calm (monday + 1) (monday + 1) monday none fresh ≡ (
  ok (Days.complete 1 0),
  record {
    world = monday + 1;
    calls =
        Days.feed_started fx_dag (monday + 1)
        ∷ Days.feed_started settlement_dag (monday + 1)
        ∷ Days.extracted core_dag (monday + 1)
        ∷ Days.extracted reference_dag (monday + 1)
        ∷ Days.list_published (monday + 1)
        ∷ Days.files_sent (monday + 1)
        ∷ Days.ticked (monday + 1)
        ∷ Days.simulation_read monday
        ∷ [];
  },
)
unfolding Days.ingest_days
ingests = refl

ingest_days-IsInStep_example :
    IsInStep monday (Days.ingest_days calm (monday + 1) (monday + 2) monday none fresh).1.calls
ingest_days-IsInStep_example =
    ingest_days-IsInStep calm monday (monday + 1) (monday + 2) none monday
