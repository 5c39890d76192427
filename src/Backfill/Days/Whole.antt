-- ===== src/Backfill/Days/Whole.antt =====
-- The loop over days, from end to end.
use nordbank_data_platform.Common.{
  ℕ, zero, suc, String, ◌≡◌, ◌<◌, refl, ap, ◌∙◌, ◌-◌, Bool, true, false, not, ◌&&◌, Option, none,
  some, List, [], ◌∷◌, arith, Result, ok, err, has_name, not_ticked,
}
use nordbank_data_platform.Warehouse.Action.{lift, ◌>>=◌, ◌>>◌}
use nordbank_data_platform.Backfill.{
  settlement_dag, reference_dag, core_dag, is_empty, feeds_due, tick_needed,
}
use nordbank_data_platform.Backfill.Days
use nordbank_data_platform.Backfill.Days.InStep.{
  known, IsInStep, Leaves, Leaves-bind, StandsInStep, on_world-Leaves,
}
use nordbank_data_platform.Backfill.Days.Kept.{settle_runs-KeepsAt, Allows, after_tick-KeepsAt}

-- When the source is ticked, and where it stands when it is not.
ticked_for :
    (day simulated anchor : ℕ) (pending : Bool)
    → tick_needed day simulated anchor pending ≡ ok true
    → (suc simulated ≡ day) × (anchor < day)
unfolding tick_needed
ticked_for day simulated anchor pending h = ground arith

not_ticked_for :
    (day simulated anchor : ℕ) → tick_needed day simulated anchor true ≡ ok false → simulated ≡ day
unfolding tick_needed
not_ticked_for day simulated anchor h = ground arith

module _ {W : Type 0} (stack : Days.Stack W) (anchor : ℕ) where
  -- A call that leaves the calls in step, whatever is known.
  abbrev StaysInStep : {A : Type 0} → Days.Act stack A → Type 0
  StaysInStep m =
      (s : Days.Session W)
      → StandsInStep stack anchor s
      → Leaves (StandsInStep stack anchor) (λ _ t. Unit {0}) (m s)

  weaker :
      {A : Type 0} (k : Option ℕ) (r : Result A × Days.Session W)
      → Leaves (StandsInStep stack anchor) (λ _ t. known t.calls ≡ k) r
      → Leaves (StandsInStep stack anchor) (λ _ t. Unit {0}) r
  weaker k (ok a, t) l = (l.0, tt)
  weaker k (err e, t) l = l

  StaysInStep-bind :
      {A B : Type 0} (m : Days.Act stack A) (f : A → Days.Act stack B)
      → StaysInStep m
      → ((a : A) → StaysInStep (f a))
      → StaysInStep (m >>= f)
  StaysInStep-bind m f h g s i =
      Leaves-bind (StandsInStep stack anchor) (λ _ t. Unit {0}) (λ _ t. Unit {0}) m f s (h s i)
        (λ a t j _. g a t j)

  state_answered-known :
      (answer : Option (ℕ × ℕ)) (s : Days.Session W)
      → StandsInStep stack anchor s
      → Leaves
          (StandsInStep stack anchor)
          (λ state t. known t.calls ≡ some state.1)
          (Days.state_answered stack answer s)
  state_answered-known none s i = i
  state_answered-known (some (anchor, simulated)) s i = ((tt, i), refl)

  lifted :
      {A : Type 0} (r c : Result A) (k : Option ℕ) (s : Days.Session W)
      → r ≡ c
      → StandsInStep stack anchor s
      → known s.calls ≡ k
      → Leaves (StandsInStep stack anchor) (λ a t. (known t.calls ≡ k) × (r ≡ ok a)) (lift c s)
  lifted r (ok a) k s h i e = (i, (e, h))
  lifted r (err x) k s h i e = i

  Allows-here : (dags : List String) (day : ℕ) → Allows stack anchor (some day) dags day
  Allows-here [] day = tt
  Allows-here (dag ∷ dags) day = refl

  Allows-untouched :
      (k : Option ℕ) (dags : List String) (day simulated : ℕ)
      → k ≡ some simulated
      → tick_needed day simulated anchor (not (is_empty dags)) ≡ ok false
      → Allows stack anchor k dags day
  Allows-untouched k [] day simulated e h = tt
  Allows-untouched k (dag ∷ dags) day simulated e h =
      e ∙ ap some (not_ticked_for day simulated anchor h)

  tick_if-Allows :
      (needed : Bool) (dags : List String) (day simulated : ℕ) (s : Days.Session W)
      → StandsInStep stack anchor s
      → known s.calls ≡ some simulated
      → tick_needed day simulated anchor (not (is_empty dags)) ≡ ok needed
      → Leaves
          (StandsInStep stack anchor)
          (λ _ t. Allows stack anchor (known t.calls) dags day)
          (Days.tick_if stack needed day s)
  unfolding Days.tick_if Days.calling
  tick_if-Allows true dags day simulated s i e h =
      let (next, past) = ticked_for day simulated anchor (not (is_empty dags)) h in
      on_world-Leaves stack anchor (λ t. Allows stack anchor (known t.calls) dags day)
        (Days.check (not_ticked day) (stack.advance day s.world))
        (Days.note stack (Days.ticked day) s) ((simulated, e, next, past), i)
        (λ w. Allows-here dags day)
  tick_if-Allows false dags day simulated s i e h =
      (i, Allows-untouched (known s.calls) dags day simulated e h)

  work_on-StaysInStep :
      (demo : Option ℕ) (relational feeds : List String) (day : ℕ)
      → StaysInStep (Days.work_on stack anchor demo relational feeds day)
  unfolding Days.work_on
  work_on-StaysInStep demo relational feeds day s i =
      Leaves-bind I (λ state t. known t.calls ≡ some state.1) (λ _ t. Unit {0})
        (Days.simulation_state stack) asking s (state_answered-known (stack.simulation s.world) s i)
        (λ state t j known_state.
          Leaves-bind I (λ needed u. (known u.calls ≡ some state.1) × (ask state ≡ ok needed))
            (λ _ u. Unit {0}) (lift (ask state)) ticking t
            (lifted (ask state) (ask state) (some state.1) t refl j known_state)
            (λ needed u l q.
              Leaves-bind I (λ _ v. Allows stack anchor (known v.calls) relational day)
                (λ _ v. Unit {0}) (Days.tick_if stack needed day) (λ _. working) u
                (tick_if-Allows needed relational day state.1 u l q.0 q.1)
                (λ _ v o allows. weaker (known v.calls) (working v) (
                  (after_tick-KeepsAt stack anchor (known v.calls) relational feeds demo_today day
                      allows).at
                    v o refl))))
    where
      I : Days.Session W → Type 0
      I = StandsInStep stack anchor

      ask : ℕ × ℕ → Result Bool
      ask state = tick_needed day state.1 anchor (not (is_empty relational))

      demo_today : Bool
      demo_today = Days.is_demo demo day && has_name settlement_dag feeds

      working : Days.Act stack Days.DayEnding
      working = Days.after_tick stack relational feeds demo_today day

      ticking : Bool → Days.Act stack Days.DayEnding
      ticking needed = Days.tick_if stack needed day >> working

      asking : ℕ × ℕ → Days.Act stack Days.DayEnding
      asking state = lift (ask state) >>= ticking

  work_if-StaysInStep :
      (demo : Option ℕ) (relational feeds : List String) (day : ℕ)
      → StaysInStep (Days.work_if stack anchor demo relational feeds day)
  unfolding Days.work_if
  work_if-StaysInStep demo [] [] day s i = (i, tt)
  work_if-StaysInStep demo [] (feed ∷ feeds) day s i =
      work_on-StaysInStep demo [] (feed ∷ feeds) day s i
  work_if-StaysInStep demo (dag ∷ dags) feeds day s i =
      work_on-StaysInStep demo (dag ∷ dags) feeds day s i

  judge_day-StaysInStep :
      (demo : Option ℕ) (day : ℕ) → StaysInStep (Days.judge_day stack anchor demo day)
  unfolding Days.judge_day
  judge_day-StaysInStep demo day s i = work_if-StaysInStep demo _ _ day s i

  ingest_day-StaysInStep :
      (demo : Option ℕ) (day : ℕ) → StaysInStep (Days.ingest_day stack anchor demo day)
  unfolding Days.ingest_day
  ingest_day-StaysInStep demo day =
      StaysInStep-bind (Days.settle_runs stack dags day) (λ _. Days.judge_day stack anchor demo day)
        (λ s i.
          weaker (known s.calls) (Days.settle_runs stack dags day s)
            ((settle_runs-KeepsAt stack anchor (known s.calls) dags day).at s i refl))
        (λ _. judge_day-StaysInStep demo day)
    where
      dags : List String
      dags = reference_dag ∷ core_dag ∷ feeds_due day

  go_on-StaysInStep :
      (day : ℕ) (ending : Days.DayEnding) (after_skip after_work : Days.Act stack Days.Ending)
      → StaysInStep after_skip
      → StaysInStep after_work
      → StaysInStep (Days.go_on stack day ending after_skip after_work)
  go_on-StaysInStep day Days.skipped after_skip after_work h k s i = h s i
  go_on-StaysInStep day Days.processed after_skip after_work h k s i = k s i
  go_on-StaysInStep day (Days.failing fs) after_skip after_work h k s i = (i, tt)

  ingest_from-StaysInStep :
      (left : ℕ) (demo : Option ℕ) (day p k : ℕ)
      → StaysInStep (Days.ingest_from stack left anchor demo day p k)
  unfolding Days.ingest_from
  ingest_from-StaysInStep zero demo day p k s i = (i, tt)
  ingest_from-StaysInStep (suc left) demo day p k s i =
      StaysInStep-bind (Days.ingest_day stack anchor demo day) _ (ingest_day-StaysInStep demo day)
        (λ ending.
          go_on-StaysInStep day ending _ _ (ingest_from-StaysInStep left demo (suc day) p (suc k))
            (ingest_from-StaysInStep left demo (suc day) (suc p) k))
        s i

  state_of :
      {A : Type 0} (r : Result A × Days.Session W)
      → Leaves (StandsInStep stack anchor) (λ _ t. Unit {0}) r
      → IsInStep anchor r.1.calls
  state_of (ok a, t) h = h.0
  state_of (err e, t) h = h

  -- However the loop over a window of days ends, the calls it has made are in step with the source:
  -- each tick follows a reading that the source stands at the day before, and goes past the
  -- anchor; each extraction of reference data or core banking is for the day that the latest reading
  -- or tick says the source stands at.
  pub ingest_days-IsInStep :
      (start end : ℕ) (demo : Option ℕ) (world : W)
      → IsInStep anchor
          (Days.ingest_days stack start end anchor demo
            (record { world = world; calls = [] })).1.calls
  unfolding Days.ingest_days
  ingest_days-IsInStep start end demo world =
      state_of (Days.ingest_from stack (suc end - start) anchor demo start 0 0 fresh)
        (ingest_from-StaysInStep (suc end - start) demo start 0 0 fresh tt)
    where
      fresh : Days.Session W
      fresh = record { world = world; calls = [] }
