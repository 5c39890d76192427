-- ===== src/Backfill/Days/Kept.antt =====
-- What each call of a day keeps: what is known of the source, and the calls in step with it.
use nordbank_data_platform.Common.{
  ℕ, String, ◌≡◌, refl, sym, ◌∙◌, Bool, true, false, not, Option, none, some, List, [], ◌∷◌, ◌++◌,
  map, Bool-cases, inl, inr, has_name, not_delivered,
}
use nordbank_data_platform.Warehouse.{BatchRow}
use mathlib.Core.Path.{subst}
use nordbank_data_platform.Warehouse.Action.{Action}
use nordbank_data_platform.Backfill.{settlement_dag, feed_batches, judge_feed}
use nordbank_data_platform.Backfill.Days
use nordbank_data_platform.Backfill.Days.InStep.{
  known, IsInStepAfter, KeepsAt, KeepsAt-bind, KeepsAt-pure, KeepsAt-gets, KeepsAt-quietly,
  KeepsAt-calling,
}

module _ {W : Type 0} (stack : Days.Stack W) (anchor : ℕ) where
  -- A call that is no tick, and no extraction.
  abbrev IsNeutral : Days.Call → Type 0
  IsNeutral c =
      (calls : List Days.Call) → IsInStepAfter anchor calls c × (known (c ∷ calls) ≡ known calls)

  neutral-KeepsAt :
      {A : Type 0} (k : Option ℕ) (c : Days.Call) (m : Action W A)
      → IsNeutral c
      → KeepsAt stack anchor k (Days.calling stack c m)
  neutral-KeepsAt k c m h =
      KeepsAt-calling stack anchor k c m (λ calls e. (h calls).0) (λ calls e. (h calls).1 ∙ e)

  existing_run-KeepsAt :
      (k : Option ℕ) (dag : String) (day : ℕ)
      → KeepsAt stack anchor k (Days.existing_run stack dag day)
  unfolding Days.existing_run
  existing_run-KeepsAt k dag day = KeepsAt-gets stack anchor k (λ s. stack.find_run s.world dag day)

  settle_held-KeepsAt :
      (k : Option ℕ) (dag : String) (held : Option Days.AirflowRun)
      → KeepsAt stack anchor k (Days.settle_held stack dag held)
  unfolding Days.settle_held
  settle_held-KeepsAt k dag none = KeepsAt-pure stack anchor k tt
  settle_held-KeepsAt k dag (some run) = elim (Bool-cases (has_name run.state Days.active)) [
    | inl q ↦ rw q (
        KeepsAt-bind stack anchor k _ _
          (neutral-KeepsAt k (Days.waited dag) (stack.wait_for dag run.run_id)
            (λ calls. (tt, refl)))
          (λ _. KeepsAt-pure stack anchor k tt))
    | inr q ↦ rw q (KeepsAt-pure stack anchor k tt)
  ]

  pub settle_runs-KeepsAt :
      (k : Option ℕ) (dags : List String) (day : ℕ)
      → KeepsAt stack anchor k (Days.settle_runs stack dags day)
  unfolding Days.settle_runs
  settle_runs-KeepsAt k [] day = KeepsAt-pure stack anchor k tt
  settle_runs-KeepsAt k (dag ∷ dags) day =
      KeepsAt-bind stack anchor k _ _ (existing_run-KeepsAt k dag day) (λ held.
        KeepsAt-bind stack anchor k _ _ (settle_held-KeepsAt k dag held)
          (λ _. settle_runs-KeepsAt k dags day))

  send_files-KeepsAt :
      (k : Option ℕ) (day : ℕ) (files : Bool)
      → KeepsAt stack anchor k (Days.send_files stack day files)
  unfolding Days.send_files
  send_files-KeepsAt k day true =
      neutral-KeepsAt k (Days.files_sent day) (λ w. Days.check _ (stack.send_files day w))
        (λ calls. (tt, refl))
  send_files-KeepsAt k day false = KeepsAt-pure stack anchor k tt

  deliver-KeepsAt :
      (k : Option ℕ) (day : ℕ) (files : Bool)
      → KeepsAt stack anchor k (Days.deliver stack day files)
  unfolding Days.deliver
  deliver-KeepsAt k day files =
      KeepsAt-bind stack anchor k _ _ (send_files-KeepsAt k day files) (λ _.
        neutral-KeepsAt k (Days.list_published day)
          (λ w. Days.check (not_delivered day) (stack.publish_list day w)) (λ calls. (tt, refl)))

  start_run-KeepsAt :
      (k : Option ℕ) (c : Days.Call) (dag : String) (day : ℕ) (conf : Option Days.SensorConf)
      → ((calls : List Days.Call) → known calls ≡ k → IsInStepAfter anchor calls c)
      → ((calls : List Days.Call) → known (c ∷ calls) ≡ known calls)
      → KeepsAt stack anchor k (Days.start_run stack c dag day conf)
  unfolding Days.start_run
  start_run-KeepsAt k c dag day conf allowed same =
      KeepsAt-calling stack anchor k c
        (λ w. Days.run_of stack dag day conf (stack.find_run w dag day) w) allowed
        (λ calls e. same calls ∙ e)

  trigger_and_wait-KeepsAt :
      (dag : String) (day : ℕ)
      → KeepsAt stack anchor (some day) (Days.trigger_and_wait stack dag day)
  unfolding Days.trigger_and_wait
  trigger_and_wait-KeepsAt dag day =
      KeepsAt-bind stack anchor (some day) _ _
        (start_run-KeepsAt (some day) (Days.extracted dag day) dag day none (λ calls e. e)
          (λ calls. refl))
        (λ run_id. KeepsAt-quietly stack anchor (some day) (stack.wait_for dag run_id))

  extract_all-KeepsAt :
      (dags : List String) (day : ℕ)
      → KeepsAt stack anchor (some day) (Days.extract_all stack dags day)
  unfolding Days.extract_all
  extract_all-KeepsAt [] day = KeepsAt-pure stack anchor (some day) tt
  extract_all-KeepsAt (dag ∷ dags) day =
      KeepsAt-bind stack anchor (some day) _ _ (trigger_and_wait-KeepsAt dag day)
        (λ _. extract_all-KeepsAt dags day)

  start_feeds-KeepsAt :
      (k : Option ℕ) (dags : List String) (day : ℕ)
      → KeepsAt stack anchor k (Days.start_feeds stack dags day)
  unfolding Days.start_feeds
  start_feeds-KeepsAt k [] day = KeepsAt-pure stack anchor k []
  start_feeds-KeepsAt k (dag ∷ dags) day =
      KeepsAt-bind stack anchor k _ _
        (start_run-KeepsAt k (Days.feed_started dag day) dag day (Days.conf_of dag) (λ calls e. tt)
          (λ calls. refl))
        (λ run_id.
          KeepsAt-bind stack anchor k _ _ (start_feeds-KeepsAt k dags day)
            (λ rest. KeepsAt-pure stack anchor k ((dag, run_id) ∷ rest)))

  judge_started-KeepsAt :
      (k : Option ℕ) (started : List (String × String))
      → KeepsAt stack anchor k (Days.judge_started stack started)
  unfolding Days.judge_started
  judge_started-KeepsAt k [] = KeepsAt-pure stack anchor k []
  judge_started-KeepsAt k ((dag, run_id) ∷ started) =
      KeepsAt-bind stack anchor k _ _ (KeepsAt-quietly stack anchor k (stack.wait_for dag run_id))
        (λ state.
          KeepsAt-bind stack anchor k _ _
            (KeepsAt-gets stack anchor k (λ s. feed_batches run_id (stack.warehouse s.world)))
            (λ batches.
              KeepsAt-bind stack anchor k _ _ (judge_started-KeepsAt k started)
                (λ rest. KeepsAt-pure stack anchor k (judge_feed dag (some state) batches ∷ rest))))

  start_demo-KeepsAt :
      (k : Option ℕ) (demo : Bool) (day : ℕ)
      → KeepsAt stack anchor k (Days.start_demo stack demo day)
  unfolding Days.start_demo
  start_demo-KeepsAt k false day = KeepsAt-pure stack anchor k []
  start_demo-KeepsAt k true day =
      KeepsAt-bind stack anchor k _ _
        (neutral-KeepsAt k (Days.feed_started settlement_dag day) (stack.deferral_demo day)
          (λ calls. (tt, refl)))
        (λ run_id. KeepsAt-pure stack anchor k ((settlement_dag, run_id) ∷ []))

  feed_the_day-KeepsAt :
      (k : Option ℕ) (demo : Bool) (feeds : List String) (day : ℕ)
      → KeepsAt stack anchor k (Days.feed_the_day stack demo feeds day)
  unfolding Days.feed_the_day
  feed_the_day-KeepsAt k demo feeds day =
      KeepsAt-bind stack anchor k _ _ (start_demo-KeepsAt k demo day) (λ first.
        KeepsAt-bind stack anchor k _ _ (start_feeds-KeepsAt k (Days.others demo feeds) day)
          (λ rest.
            KeepsAt-bind stack anchor k _ _ (judge_started-KeepsAt k (first ++ rest))
              (λ verdicts. KeepsAt-pure stack anchor k (Days.ended (Days.failures_of verdicts)))))

  -- What is known allows the extractions that are pending.
  abbrev pub Allows : Option ℕ → List String → ℕ → Type 0
  Allows k [] day = Unit
  Allows k (dag ∷ dags) day = k ≡ some day

  allowed-KeepsAt :
      (k : Option ℕ) (dags : List String) (day : ℕ)
      → Allows k dags day
      → KeepsAt stack anchor k (Days.extract_all stack dags day)
  unfolding Days.extract_all
  allowed-KeepsAt k [] day h = KeepsAt-pure stack anchor k tt
  allowed-KeepsAt k (dag ∷ dags) day h =
      subst (λ j. KeepsAt stack anchor j (Days.extract_all stack (dag ∷ dags) day)) (sym h)
        (extract_all-KeepsAt (dag ∷ dags) day)

  unless_failed-KeepsAt :
      (k : Option ℕ) (rows : List BatchRow) (next : Days.Act stack Days.DayEnding)
      → KeepsAt stack anchor k next
      → KeepsAt stack anchor k (Days.unless_failed stack rows next)
  unless_failed-KeepsAt k [] next h = h
  unless_failed-KeepsAt k (b ∷ bs) next h =
      KeepsAt-pure stack anchor k (Days.failing (map Days.printed_row (b ∷ bs)))

  pub after_tick-KeepsAt :
      (k : Option ℕ) (relational feeds : List String) (demo_today : Bool) (day : ℕ)
      → Allows k relational day
      → KeepsAt stack anchor k (Days.after_tick stack relational feeds demo_today day)
  unfolding Days.after_tick
  after_tick-KeepsAt k relational feeds demo_today day h =
      KeepsAt-bind stack anchor k _ _ (deliver-KeepsAt k day (not demo_today)) (λ _.
        KeepsAt-bind stack anchor k _ _ (allowed-KeepsAt k relational day h) (λ _.
          KeepsAt-bind stack anchor k _ _
            (KeepsAt-gets stack anchor k (λ s. Days.failed_extraction stack relational day s.world))
            (λ rows.
              unless_failed-KeepsAt k rows (Days.feed_the_day stack demo_today feeds day)
                (feed_the_day-KeepsAt k demo_today feeds day))))
