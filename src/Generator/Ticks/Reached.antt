-- ===== src/Generator/Ticks/Reached.antt =====
-- What a sequence of days reaches.
use nordbank_data_platform.Common.{
  Result-cases, ℕ, zero, suc, ◌+◌, ◌≤◌, ◌≡◌, refl, max, arith, Bool-cases, inl, inr, Option, none,
  some, List, [], ◌∷◌, leb, leb→le, Error, err, ok,
}
use nordbank_data_platform.Generator.Drift.{Column}
use nordbank_data_platform.Generator.Drift.Replay.{IsBaseline}
use nordbank_data_platform.Generator.Source.{Source, SimulationState, next_date}
use nordbank_data_platform.Generator.Tick.{Request, TickReport, run}
use nordbank_data_platform.Generator.Tick.Progress.{IsOnTime, state_after}
use nordbank_data_platform.Generator.Tick.Outcome.{run-HasAdvanced}
use nordbank_data_platform.Generator.Ticks.{Runner, dates, days_upto, request_of, run_ticks}

-- The source on time at some day of the same simulation, not before a given one.
pub record IsOnTimeFrom {Book : Type 0} (documented : List Column) (from : SimulationState)
    (source : Source Book) : Type 0 where
  pub state : SimulationState
  pub on_time : IsOnTime documented source state
  pub same_anchor : state.anchor_date ≡ from.anchor_date
  pub not_before : from.simulated_date ≤ state.simulated_date

abbrev pub ClockIsMonotone : {Book : Type 0} → Runner Book → Type 0
ClockIsMonotone {Book} runner =
    (source : Source Book) → (runner.clock source).0 ≤ (runner.clock source).1

-- The three ways in which the loop goes on from a day.
run_ticks_raised :
    {Book : Type 0} (runner : Runner Book) (target : Option ℕ) (targets : List (Option ℕ))
    (source : Source Book) (raised : Error)
    → run runner.engine (request_of runner target source) source ≡ err raised
    → run_ticks runner (target ∷ targets) source ≡ (source, err raised)
unfolding run_ticks
run_ticks_raised runner target targets source raised h = rw h refl

run_ticks_stopped :
    {Book : Type 0} (runner : Runner Book) (target : Option ℕ) (targets : List (Option ℕ))
    (source later : Source Book) (report : TickReport) (raised : Error)
    → run runner.engine (request_of runner target source) source ≡ ok (later, report)
    → runner.reconcile later ≡ err raised
    → run_ticks runner (target ∷ targets) source ≡ (later, err raised)
unfolding run_ticks
run_ticks_stopped runner target targets source later report raised h k = rw h (rw k refl)

run_ticks_on :
    {Book : Type 0} (runner : Runner Book) (target : Option ℕ) (targets : List (Option ℕ))
    (source later : Source Book) (report : TickReport) (agreed : Unit {0})
    → run runner.engine (request_of runner target source) source ≡ ok (later, report)
    → runner.reconcile later ≡ ok agreed
    → run_ticks runner (target ∷ targets) source ≡ run_ticks runner targets later
unfolding run_ticks
run_ticks_on runner target targets source later report agreed h k = rw h (rw k refl)

a_day_earlier :
    {Book : Type 0} (documented : List Column) (state : SimulationState) (completed : ℕ)
    {source : Source Book}
    → IsOnTimeFrom documented (state_after state completed) source
    → IsOnTimeFrom documented state source
a_day_earlier documented state completed h = record {
  state = h.state;
  on_time = h.on_time;
  same_anchor = h.same_anchor;
  not_before = omega (arith, h.not_before);
}

still_on_time :
    {Book : Type 0} (documented : List Column) (state : SimulationState) {source : Source Book}
    → IsOnTime documented source state
    → IsOnTimeFrom documented state source
still_on_time documented state on_time = record {
  state = state;
  on_time = on_time;
  same_anchor = refl;
  not_before = omega arith;
}

-- However a sequence of ticks ends, each returning, refused or raising, the source it leaves is on
-- time, at a day of the same simulation that is not earlier, when it was on time before, the clock
-- does not go backwards and the dictionary is the one the events are written for.
pub run_ticks-IsOnTimeFrom :
    {Book : Type 0} (runner : Runner Book) (documented : List Column) (targets : List (Option ℕ))
    (source : Source Book) (state : SimulationState)
    → IsBaseline documented
    → ClockIsMonotone runner
    → IsOnTime documented source state
    → IsOnTimeFrom documented state (run_ticks runner targets source).0
unfolding run_ticks
run_ticks-IsOnTimeFrom runner documented [] source state h monotone on_time =
    still_on_time documented state on_time
run_ticks-IsOnTimeFrom {Book} runner documented (target ∷ targets) source state h monotone on_time =
    let request : Request = request_of runner target source in
    elim (Result-cases (run runner.engine request source)) [
      | inr raised ↦
          rw (run_ticks_raised runner target targets source raised.0 raised.1)
            (still_on_time documented state on_time)
      | inl ticked ↦
          let later : Source Book = ticked.0.0 in
          let report : TickReport = ticked.0.1 in
          let after : SimulationState = state_after state request.completed_at in
          let advanced : IsOnTime documented later after =
            (run-HasAdvanced runner.engine documented request source state h on_time
              (monotone source) ticked.1).2.on_time in
          elim (Result-cases (runner.reconcile later)) [
            | inr raised ↦
                rw
                  (run_ticks_stopped runner target targets source later report raised.0 ticked.1
                    raised.1)
                  (a_day_earlier documented state request.completed_at
                    (still_on_time documented after advanced))
            | inl agreed ↦
                rw
                  (run_ticks_on runner target targets source later report agreed.0 ticked.1
                    agreed.1)
                  (a_day_earlier documented state request.completed_at (
                    run_ticks-IsOnTimeFrom runner documented targets later after h monotone
                      advanced))
          ]
    ]

-- The source on time at a day of the same simulation.
pub record IsOnTimeAt {Book : Type 0} (documented : List Column) (from : SimulationState) (day : ℕ)
    (source : Source Book) : Type 0 where
  pub state : SimulationState
  pub on_time : IsOnTime documented source state
  pub same_anchor : state.anchor_date ≡ from.anchor_date
  pub at_day : state.simulated_date ≡ day

module _ {Book : Type 0} (runner : Runner Book) (documented : List Column)
    (baseline : IsBaseline documented) (monotone : ClockIsMonotone runner) where
  -- A day of the loop, where the days after it reach the date.
  ticked_on :
      (targets : SimulationState → List (Option ℕ)) (upto : ℕ) (source : Source Book)
      (state : SimulationState)
      → IsOnTime documented source state
      → next_date state ≤ upto
      → ((later : Source Book) (completed : ℕ)
          → IsOnTime documented later (state_after state completed)
          → (run_ticks runner (targets (state_after state completed)) later).1 ≡ ok tt
          → IsOnTimeAt documented
              (state_after state completed)
              (max (next_date state) upto)
              (run_ticks runner (targets (state_after state completed)) later).0)
      → (run_ticks runner
          (some (next_date state)
            ∷ targets (
                state_after state (request_of runner (some (next_date state)) source).completed_at))
          source).1
        ≡ ok tt
      → IsOnTimeAt documented state
          (max state.simulated_date upto)
          (run_ticks runner
            (some (next_date state)
              ∷ targets (
                  state_after state
                    (request_of runner (some (next_date state)) source).completed_at))
            source).0
  ticked_on targets upto source state on_time passed reaches ended =
      elim (Result-cases (run runner.engine request source)) [
        | inr raised ↦
            let k =
              rw (run_ticks_raised runner (some day) rest source raised.0 raised.1) at ended in
            cc
        | inl ticked ↦
            let later : Source Book = ticked.0.0 in
            let advanced : IsOnTime documented later after =
              (run-HasAdvanced runner.engine documented request source state baseline on_time
                (monotone source) ticked.1).2.on_time in
            elim (Result-cases (runner.reconcile later)) [
              | inr raised ↦
                  let k =
                    rw
                      (run_ticks_stopped runner (some day) rest source later ticked.0.1 raised.0
                        ticked.1 raised.1)
                      at ended in
                  cc
              | inl agreed ↦
                  let on =
                    run_ticks_on runner (some day) rest source later ticked.0.1 agreed.0 ticked.1
                      agreed.1 in
                  let reached = reaches later request.completed_at advanced (rw on at ended) in
                  rw on (record {
                    state = reached.state;
                    on_time = reached.on_time;
                    same_anchor = reached.same_anchor;
                    at_day = omega (arith, reached.at_day);
                  })
            ]
      ]
    where
      day : ℕ
      day = next_date state

      request : Request
      request = request_of runner (some day) source

      after : SimulationState
      after = state_after state request.completed_at

      rest : List (Option ℕ)
      rest = targets after

  days_upto-IsOnTimeAt :
      (left upto : ℕ) (source : Source Book) (state : SimulationState)
      → IsOnTime documented source state
      → upto ≤ left + state.simulated_date
      → (run_ticks runner (days_upto left (next_date state) upto) source).1 ≡ ok tt
      → IsOnTimeAt documented state
          (max state.simulated_date upto)
          (run_ticks runner (days_upto left (next_date state) upto) source).0
  unfolding run_ticks
  days_upto-IsOnTimeAt zero upto source state on_time enough ended = record {
    state = state;
    on_time = on_time;
    same_anchor = refl;
    at_day = omega arith;
  }
  days_upto-IsOnTimeAt (suc left) upto source state on_time enough ended =
      elim (Bool-cases (leb (next_date state) upto)) [
        | inr done ↦
            let reached : upto ≤ state.simulated_date = ground arith in
            rw done (record {
              state = state;
              on_time = on_time;
              same_anchor = refl;
              at_day = omega arith;
            })
        | inl ahead ↦ rw ahead (
            ticked_on (λ after. days_upto left (next_date after) upto) upto source state on_time
              (leb→le (next_date state) upto ahead)
              (λ later completed on_time ended.
                days_upto-IsOnTimeAt left upto later (state_after state completed) on_time
                  (omega arith) ended)
              (rw ahead at ended))
      ]

-- Ticking to a date: when the source is on time, the clock does not go backwards, and the loop over
-- the days ends without an exception, the source is on time at that date, or where it was if that is
-- later.
pub run_ticks-IsOnTimeAt :
    {Book : Type 0} (runner : Runner Book) (documented : List Column) (upto : ℕ)
    (source : Source Book) (state : SimulationState)
    → IsBaseline documented
    → ClockIsMonotone runner
    → IsOnTime documented source state
    → (run_ticks runner (dates state none (some upto)) source).1 ≡ ok tt
    → IsOnTimeAt documented state
        (max state.simulated_date upto)
        (run_ticks runner (dates state none (some upto)) source).0
unfolding dates
run_ticks-IsOnTimeAt runner documented upto source state h monotone on_time ended =
    days_upto-IsOnTimeAt runner documented h monotone (suc upto) upto source state on_time
      (omega arith) ended
