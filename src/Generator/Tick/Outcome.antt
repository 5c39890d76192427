-- ===== src/Generator/Tick/Outcome.antt =====
-- What a tick that returns has done.
use nordbank_data_platform.Common.{
  ℕ, suc, ◌+◌, ◌≤◌, ◌≡◌, refl, ap, sym, ◌∙◌, arith, Bool-cases, inl, inr, String, Option, some,
  List, ◌++◌, map, leb, Error, Result, err, ok, ◌>>=◌, bind-eq-ok, ok-injective,
}
use mathlib.Core.Path.{subst}
use nordbank_data_platform.Generator.Drift.{Column, due_events, fire_all}
use nordbank_data_platform.Generator.Drift.Replay.{IsBaseline}
use nordbank_data_platform.Generator.Drift.Timetable.{fired_by, due_events-fired_by}
use nordbank_data_platform.Generator.Guard.{GuardResult, guard}
use nordbank_data_platform.Generator.Source.{
  Source, SimulationState, require, advance, log_tick, fired_names,
}
use nordbank_data_platform.Generator.Source.Log.{fired_names_lem}
use nordbank_data_platform.Generator.Tick.{
  Engine, Context, TickReport, Request, run_phases, phases, target_of, tick_row, report_at,
  commit_tick, opened, run_day, run, is_known,
}
use nordbank_data_platform.Generator.Tick.Progress.{
  IsOnTime, HasFired, state_after, require_lem, phases-fire, commit_tick-IsOnTime,
}

-- What a tick of a source on time reports, and the source it leaves.
pub record HasAdvanced {Book : Type 0} (documented : List Column) (state : SimulationState)
    (completed : ℕ) (later : Source Book) (report : TickReport) : Type 0 where
  pub on_time : IsOnTime documented later (state_after state completed)
  pub reported_date : report.simulated_date ≡ suc state.simulated_date
  pub reported_sequence : report.tick_sequence ≡ suc state.tick_sequence
  pub reported_drift :
      fired_by state.anchor_date state.simulated_date ++ report.drift_fired
      ≡ fired_by state.anchor_date (suc state.simulated_date)

pub phases-HasFired :
    {Book : Type 0} (engine : Engine Book) (documented : List Column) (source : Source Book)
    (state : SimulationState) (fail_after : Option String) {context : Context Book}
    → IsOnTime documented source state
    → run_phases engine state source.drift_log
        (suc state.simulated_date)
        fail_after
        phases
        (opened source)
      ≡ ok context
    → HasFired state source context
phases-HasFired engine documented source state fail_after on_time h =
    let day : ℕ = suc state.simulated_date in
    let seen : fired_names source.drift_log ≡ fired_by state.anchor_date state.simulated_date =
      fired_names_lem source.drift_log (leb (state.anchor_date + 12) state.simulated_date)
        (leb (state.anchor_date + 37) state.simulated_date) on_time.fired in
    let fired = phases-fire engine state source.drift_log day fail_after (opened source) h in
    (
      fired.0
          ∙ ap (λ seen_names. fire_all (due_events state.anchor_date day seen_names) source.schema)
              seen,
      fired.1
          ∙ ap
              (λ seen_names.
                map (λ event. event.name) (due_events state.anchor_date day seen_names))
              seen,
    )

commit_tick-HasAdvanced :
    {Book : Type 0} (documented : List Column) (source : Source Book) (state : SimulationState)
    (started completed : ℕ) (context : Context Book) (guarded : GuardResult)
    (counts : Result (Unit {0})) {later : Source Book} {report : TickReport}
    → IsBaseline documented
    → IsOnTime documented source state
    → started ≤ completed
    → HasFired state source context
    → commit_tick state (suc state.simulated_date) started completed context guarded source counts
      ≡ ok (later, report)
    → HasAdvanced documented state completed later report
unfolding commit_tick
commit_tick-HasAdvanced {Book} documented source state started completed context guarded counts
      {later} {report} h on_time in_time has_fired returned =
    let day : ℕ = suc state.simulated_date in
    let advanced_to = bind-eq-ok (advance source.simulation day completed) _ returned in
    let logged =
      bind-eq-ok
        (log_tick (tick_row state day advanced_to.0.tick_sequence started completed)
          source.tick_log)
        _ advanced_to.2 in
    let counted = bind-eq-ok counts _ logged.2 in
    let written =
      subst
        (λ k. commit_tick state day started completed context guarded source k ≡ ok (later, report))
        counted.1 returned in
    let commits =
      commit_tick-IsOnTime documented source state started completed context guarded h on_time
        in_time has_fired in
    let as_reported : TickReport =
      report_at state
        (tick_row state (suc state.simulated_date) (suc state.tick_sequence) started completed)
        context guarded in
    let same : ◌≡◌ {A = Source Book × TickReport} (commits.0, as_reported) (later, report) =
      ok-injective (sym commits.1 ∙ written) in
    let advanced : HasAdvanced documented state completed commits.0 as_reported = record {
      on_time = commits.2;
      reported_date = refl;
      reported_sequence = refl;
      reported_drift =
          ap (λ l. fired_by state.anchor_date state.simulated_date ++ l) has_fired.1
          ∙ due_events-fired_by state.anchor_date state.simulated_date (suc state.simulated_date)
              (omega arith);
    } in
    subst (λ p. HasAdvanced documented state completed p.0 p.1) same advanced

run_day-HasAdvanced :
    {Book : Type 0} (engine : Engine Book) (documented : List Column) (request : Request)
    (source : Source Book) (state : SimulationState) {later : Source Book} {report : TickReport}
    → IsBaseline documented
    → IsOnTime documented source state
    → request.started_at ≤ request.completed_at
    → target_of request.requested_date state ≡ suc state.simulated_date
    → run_day engine request state source ≡ ok (later, report)
    → HasAdvanced documented state request.completed_at later report
unfolding run_day
run_day-HasAdvanced {Book} engine documented request source state {later} {report} h on_time in_time
      at_next returned =
    let day : ℕ = suc state.simulated_date in
    let phased =
      bind-eq-ok
        (run_phases engine state source.drift_log day request.fail_after phases (opened source))
        (λ context.
          guard engine.queries context.work.book context.work.touched_accounts day
            (some (engine.draw day)) engine.floor
          >>= λ guarded.
              commit_tick state day request.started_at request.completed_at context guarded source
                (engine.write_counts context.work))
        (rw at_next at returned) in
    let context : Context Book = phased.0 in
    let passed =
      bind-eq-ok
        (guard engine.queries context.work.book context.work.touched_accounts day
          (some (engine.draw day)) engine.floor)
        (λ guarded.
          commit_tick state day request.started_at request.completed_at context guarded source
            (engine.write_counts context.work))
        phased.2 in
    commit_tick-HasAdvanced documented source state request.started_at request.completed_at context
      passed.0 (engine.write_counts context.work) h on_time in_time
      (phases-HasFired engine documented source state request.fail_after on_time phased.1) passed.2

-- A tick that returns was asked for the day after the simulated date, by its date or by none, and
-- for the recorded profile; its report has that day, the next sequence number and the drift events
-- due since; and when the source was on time and the clock did not go backwards, it leaves the
-- source on time a day later, if the dictionary is the one the events are written for.
pub run-HasAdvanced :
    {Book : Type 0} (engine : Engine Book) (documented : List Column) (request : Request)
    (source : Source Book) (state : SimulationState) {later : Source Book} {report : TickReport}
    → IsBaseline documented
    → IsOnTime documented source state
    → request.started_at ≤ request.completed_at
    → run engine request source ≡ ok (later, report)
    → (target_of request.requested_date state ≡ suc state.simulated_date)
      × (state.profile ≡ request.profile)
      × HasAdvanced documented state request.completed_at later report
unfolding run
run-HasAdvanced {Book} engine documented request source state {later} {report} h on_time in_time
      returned =
    elim (Bool-cases (is_known request.fail_after)) [
      | inr unknown ↦
          let raised : ◌≡◌ {A = Result (Source Book × TickReport)} (err (Error.other "ValueError"))
              (ok (later, report)) =
            rw unknown at returned in
          cc
      | inl known ↦
          let required =
            bind-eq-ok (require source.simulation request.requested_date request.profile)
              (λ current. run_day engine request current source) (rw known at returned) in
          let allowed : require (some state) request.requested_date request.profile
              ≡ ok required.0 =
            rw on_time.running at required.1 in
          let permitted = require_lem state request allowed in
          let at_state : run_day engine request state source ≡ ok (later, report) =
            rw permitted.0 at required.2 in
          (
            permitted.1,
            permitted.2,
            run_day-HasAdvanced engine documented request source state h on_time in_time permitted.1
                at_state,
          )
    ]
