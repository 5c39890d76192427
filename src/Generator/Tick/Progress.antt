-- ===== src/Generator/Tick/Progress.antt =====
-- A simulation on time: what the source holds after any number of ticks from its anchor, and that a
-- tick which commits keeps it so.
use nordbank_data_platform.Common.{
  map-append, ℕ, suc, ◌+◌, ◌≤◌, ◌≡◌, refl, ap, sym, ◌∙◌, arith, false, All, Bool-cases, inl, inr,
  String, str_eq, str_eq_iff, Option, none, some, List, [], ◌∷◌, ◌++◌, map, leb, ◌==◌, ==_iff,
  if◌then◌else◌, Error, err, ok, bind-eq-ok, ok-injective,
}
use nordbank_data_platform.Generator.Drift.{Column, DriftEvent, due_events, fire_all}
use nordbank_data_platform.Generator.Drift.Replay.{IsBaseline, schema_after, fire_all-apply_deltas}
use nordbank_data_platform.Generator.Drift.Timetable.{names, fired_by}
use nordbank_data_platform.Generator.Guard.{GuardResult}
use nordbank_data_platform.Generator.Source.{
  Source, SimulationState, TickLogRow, DriftLogRow, next_date, permits, refuse, require, advance,
  fired_names, logged,
}
use nordbank_data_platform.Generator.Source.Log.{
  days_after, ticks_of, record_fired-later, log_tick-next, classified_after,
}
use nordbank_data_platform.Generator.Tick.{
  Engine, Context, Request, drift_phase, run_phase, run_phases, is_named, phases, target_of,
  tick_row, committed, report_at, commit_tick,
}

-- The source n ticks after its anchor: the day, the log with a row per day in order, and the
-- drift log, the schema and the classifications of the events whose day has come.
pub record IsOnTime {Book : Type 0} (documented : List Column) (source : Source Book)
    (state : SimulationState) : Type 0 where
  pub running : source.simulation ≡ some state
  pub dated : state.simulated_date ≡ state.anchor_date + state.tick_sequence
  pub ticked : ticks_of source.tick_log ≡ days_after state.anchor_date state.tick_sequence
  pub fired : logged source.drift_log ≡ fired_by state.anchor_date state.simulated_date
  pub shaped :
      source.schema ≡ schema_after documented (fired_by state.anchor_date state.simulated_date)
  pub classified :
      source.classifications
      ≡ classified_after documented (fired_by state.anchor_date state.simulated_date)

-- The phases but the drift phase touch neither the schema nor what has fired.
abbrev KeepsShape : {Book : Type 0} → Context Book → Context Book → Type 0
KeepsShape before after = (after.schema ≡ before.schema) × (after.drift_fired ≡ before.drift_fired)

module _ {Book : Type 0} (engine : Engine Book) (state : SimulationState) (log : List DriftLogRow)
    (day : ℕ) where
  run_phase-KeepsShape :
      (name : String) (before : Context Book) {after : Context Book}
      → str_eq name "drift" ≡ false
      → run_phase engine state log day name before ≡ ok after
      → KeepsShape before after
  unfolding run_phase
  run_phase-KeepsShape name before e h =
      let returned =
        bind-eq-ok (engine.phase name state log day before.work)
          (λ work.
            ok (record { work = work; schema = before.schema; drift_fired = before.drift_fired }))
          (rw e at h) in
      (
        ap (λ c. c.schema) (sym (ok-injective returned.2)),
        ap (λ c. c.drift_fired) (sym (ok-injective returned.2)),
      )

  -- The body of the loop, for a phase that returned and after which no failure was induced.
  not_induced :
      (fail_after : Option String) (name : String) (names : List String) (before : Context Book)
      {after : Context Book}
      → run_phases engine state log day fail_after (name ∷ names) before ≡ ok after
      → (mid : Context Book) × (run_phase engine state log day name before ≡ ok mid)
        × (run_phases engine state log day fail_after names mid ≡ ok after)
  unfolding run_phases
  not_induced fail_after name names before {after} h =
      let returned =
        bind-eq-ok (run_phase engine state log day name before)
          (λ mid.
            if is_named fail_after name
            then err (Error.other "InducedFailureError")
            else run_phases engine state log day fail_after names mid)
          h in
      elim (Bool-cases (is_named fail_after name)) [
        | inl e ↦
            let induced : err (Error.other "InducedFailureError") ≡ ok after = rw e at returned.2 in
            cc
        | inr e ↦ (returned.0, returned.1, rw e at returned.2)
      ]

  drift_last :
      (fail_after : Option String) (before : Context Book) {after : Context Book}
      → run_phases engine state log day fail_after ("drift" ∷ []) before ≡ ok after
      → after ≡ drift_phase state log day before
  unfolding run_phases
  drift_last fail_after before h =
      let step = not_induced fail_after "drift" [] before h in
      sym (ok-injective step.2) ∙ sym (ok-injective step.1)

  run_phases-drift :
      (fail_after : Option String) (names : List String) (before : Context Book)
      {after : Context Book}
      → All (λ name. str_eq name "drift" ≡ false) names
      → run_phases engine state log day fail_after (names ++ ("drift" ∷ [])) before ≡ ok after
      → (mid : Context Book) × KeepsShape before mid × (after ≡ drift_phase state log day mid)
  run_phases-drift fail_after [] before others h =
      (before, (refl, refl), drift_last fail_after before h)
  run_phases-drift fail_after (name ∷ names) before others h =
      let step = not_induced fail_after name (names ++ ("drift" ∷ [])) before h in
      let kept = run_phase-KeepsShape name before others.0 step.1 in
      let rest = run_phases-drift fail_after names step.0 others.1 step.2 in
      (rest.0, (rest.1.0 ∙ kept.0, rest.1.1 ∙ kept.1), rest.2)

  -- The phases of a tick fire the events that are due and no other.
  pub phases-fire :
      (fail_after : Option String) (before : Context Book) {after : Context Book}
      → run_phases engine state log day fail_after phases before ≡ ok after
      → (after.schema ≡ fire_all (due_events state.anchor_date day (fired_names log)) before.schema)
        × (after.drift_fired
            ≡ before.drift_fired
              ++ map (λ event. event.name) (due_events state.anchor_date day (fired_names log)))
  unfolding drift_phase
  phases-fire fail_after before h =
      let last =
        run_phases-drift fail_after
          ("lifecycle" ∷ "acquisition" ∷ "movements" ∷ "dispositions" ∷ "dirt" ∷ "deletes" ∷ [])
          before (refl, (refl, (refl, (refl, (refl, (refl, tt)))))) h in
      let due : List DriftEvent = due_events state.anchor_date day (fired_names log) in
      (
        ap (λ c. c.schema) last.2 ∙ ap (fire_all due) last.1.0,
        ap (λ c. c.drift_fired) last.2 ∙ ap (λ l. l ++ map (λ event. event.name) due) last.1.1,
      )

permits_lem :
    (state : SimulationState) (requested : Option ℕ) {current : SimulationState}
    → permits state requested ≡ ok current
    → (current ≡ state) × (target_of requested state ≡ suc state.simulated_date)
permits_lem state none h = (sym (ok-injective h), refl)
permits_lem state (some requested) {current} h = elim (Bool-cases (requested == next_date state)) [
  | inl e ↦ (
    let at_next : ok state ≡ ok current = rw e at h in sym (ok-injective at_next),
    (==_iff requested (next_date state)).0 e,
  )
  | inr e ↦ elim (Bool-cases (leb requested state.simulated_date)) [
    | inl past ↦
        let refused : refuse "already advanced through" ≡ ok current = rw past at (rw e at h) in cc
    | inr skips ↦ let refused : refuse "skips days" ≡ ok current = rw skips at (rw e at h) in cc
  ]
]

-- A state that a tick may start from, at the day it asks for.
pub require_lem :
    (state : SimulationState) (request : Request) {current : SimulationState}
    → require (some state) request.requested_date request.profile ≡ ok current
    → (current ≡ state)
      × (target_of request.requested_date state ≡ suc state.simulated_date)
      × (state.profile ≡ request.profile)
unfolding require
require_lem state request {current} h = elim (Bool-cases (str_eq state.profile request.profile)) [
  | inr other ↦ let refused : refuse "seeded at another profile" ≡ ok current = rw other at h in cc
  | inl same ↦
      let permitted = permits_lem state request.requested_date (rw same at h) in
      (permitted.0, permitted.1, (str_eq_iff state.profile request.profile).0 same)
]

-- The source on time a day later.
abbrev pub state_after : SimulationState → ℕ → SimulationState
state_after state completed = record {
  profile = state.profile;
  seed = state.seed;
  anchor_date = state.anchor_date;
  simulated_date = suc state.simulated_date;
  tick_sequence = suc state.tick_sequence;
  last_tick_completed_at = some completed;
}

-- What the phases of a tick leave where nothing was due but what the day brings.
abbrev pub HasFired : {Book : Type 0} → SimulationState → Source Book → Context Book → Type 0
HasFired state source context =
    let due =
      due_events state.anchor_date (suc state.simulated_date)
        (fired_by state.anchor_date state.simulated_date) in
    (context.schema ≡ fire_all due source.schema)
    × (context.drift_fired ≡ map (λ event. event.name) due)

-- A tick of a source on time commits, and the source is on time a day later.
pub commit_tick-IsOnTime :
    {Book : Type 0} (documented : List Column) (source : Source Book) (state : SimulationState)
    (started completed : ℕ) (context : Context Book) (guarded : GuardResult)
    → IsBaseline documented
    → IsOnTime documented source state
    → started ≤ completed
    → HasFired state source context
    → (later : Source Book) × (commit_tick state
          (suc state.simulated_date)
          started
          completed
          context
          guarded
          source
          (ok tt)
        ≡ ok (
          later,
          report_at state
              (tick_row state
                (suc state.simulated_date)
                (suc state.tick_sequence)
                started
                completed)
              context
              guarded,
        ))
      × IsOnTime documented later (state_after state completed)
unfolding commit_tick advance
commit_tick-IsOnTime {Book} documented source state started completed context guarded h on_time
      in_time has_fired =
    let day : ℕ = suc state.simulated_date in
    let sequence : ℕ = suc state.tick_sequence in
    let row : TickLogRow = tick_row state day sequence started completed in
    let tick_log : List TickLogRow = source.tick_log ++ (row ∷ []) in
    let next_day : day ≡ state.anchor_date + sequence = omega (arith, on_time.dated) in
    let at_log =
      log_tick-next row source.tick_log state.anchor_date state.tick_sequence on_time.ticked refl
        next_day in_time in
    let records =
      record_fired-later documented state.anchor_date state.simulated_date day sequence completed
        source.drift_log source.classifications h (omega arith) on_time.fired on_time.classified in
    let later : Source Book =
      committed (state_after state completed) tick_log
        (records.0, classified_after documented (fired_by state.anchor_date day)) context in
    (
      later,
      rw on_time.running (rw at_log (rw has_fired.1 (rw records.1 refl))),
      record {
        running = refl;
        dated = next_day;
        ticked =
            map-append (λ r. (r.tick_sequence, r.simulated_date)) source.tick_log (row ∷ [])
            ∙ ap (λ l. l ++ ((sequence, day) ∷ [])) on_time.ticked
            ∙ ap (λ d. days_after state.anchor_date state.tick_sequence ++ ((sequence, d) ∷ []))
                next_day;
        fired = records.2;
        shaped =
            has_fired.0
            ∙ ap
                (fire_all (
                  due_events state.anchor_date day
                    (fired_by state.anchor_date state.simulated_date)))
                on_time.shaped
            ∙ fire_all-apply_deltas documented state.anchor_date state.simulated_date day h
                (omega arith);
        classified = refl;
      },
    )
