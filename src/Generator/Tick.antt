-- ===== src/Generator/Tick.antt =====
-- generator/mutation/tick.py: a day of the simulation as one transaction. A tick that raises leaves
-- the source as it was; a tick that returns gives the source it commits. The phases that change
-- the book are a parameter; the drift phase, generator/mutation/phases/drift.py, is not.
pub mod Progress
pub mod Outcome
use nordbank_data_platform.Common.{
  ℕ, suc, ◌+◌, ◌*◌, ◌≡◌, refl, Bool, true, false, not, String, Option, none, some, List, [], ◌∷◌,
  ◌++◌, map, has_name, str_eq, leb, ◌==◌, if◌then◌else◌, Error, Result, err, ok, ◌>>=◌,
}
use nordbank_data_platform.Generator.Drift.{LiveColumn, DriftEvent, due_events, fire_all}
use nordbank_data_platform.Generator.Guard.{Queries, GuardResult, guard}
use nordbank_data_platform.Generator.Source.{
  Source, SimulationState, TickLogRow, DriftLogRow, Classification, Records, next_date, require,
  advance, log_tick, fired_names, record_fired,
}

-- The book as the phases of a tick leave it, and the accounts whose balance they moved.
pub record Work (Book : Type 0) : Type 0 where
  pub book : Book
  pub touched_accounts : List ℕ

-- The code of the tick that is not modelled: the phases but the drift phase, given the state, the
-- drift log and the tick's day; the guard's queries and its random source on a day; the writes
-- of what the phases counted; and the floor.
pub record Engine (Book : Type 0) : Type 0 where
  pub phase : String → SimulationState → List DriftLogRow → ℕ → Work Book → Result (Work Book)
  pub queries : Queries Book
  pub draw : ℕ → List ℕ → ℕ → List ℕ
  -- the inserts into `tick_table_counts` and `tick_deleted_keys`
  pub write_counts : Work Book → Result (Unit {0})
  pub floor : ℕ × ℕ

pub record Context (Book : Type 0) : Type 0 where
  pub work : Work Book
  pub schema : List LiveColumn
  pub drift_fired : List String

pub record TickReport : Type 0 where
  pub simulated_date : ℕ
  pub profile : String
  pub seed : ℕ
  pub tick_sequence : ℕ
  pub started_at : ℕ
  pub completed_at : ℕ
  pub drift_fired : List String
  pub guard : GuardResult

abbrev pub phases : List String
phases =
    "lifecycle" ∷ "acquisition" ∷ "movements" ∷ "dispositions" ∷ "dirt" ∷ "deletes" ∷ "drift" ∷ []

-- `run` of generator/mutation/phases/drift.py
unfoldable pub drift_phase :
    {Book : Type 0} → SimulationState → List DriftLogRow → ℕ → Context Book → Context Book
unfolding fired_names due_events fire_all
drift_phase state log day context =
    let due = due_events state.anchor_date day (fired_names log) in
    record {
      work = context.work;
      schema = fire_all due context.schema;
      drift_fired = context.drift_fired ++ map (λ event. event.name) due;
    }

unfoldable pub run_phase :
    {Book : Type 0}
    → Engine Book
    → SimulationState
    → List DriftLogRow
    → ℕ
    → String
    → Context Book
    → Result (Context Book)
unfolding drift_phase
run_phase engine state log day name context =
    if str_eq name "drift"
    then ok (drift_phase state log day context)
    else (engine.phase name state log day context.work >>= λ work.
        ok (record { work = work; schema = context.schema; drift_fired = context.drift_fired }))

abbrev pub is_named : Option String → String → Bool
is_named none name = false
is_named (some other) name = str_eq other name

-- The loop over the phases, with the failure that a test may induce after one.
unfoldable pub run_phases :
    {Book : Type 0}
    → Engine Book
    → SimulationState
    → List DriftLogRow
    → ℕ
    → Option String
    → List String
    → Context Book
    → Result (Context Book)
unfolding run_phase
run_phases engine state log day fail_after [] context = ok context
run_phases engine state log day fail_after (name ∷ names) context =
    run_phase engine state log day name context >>= λ after.
    if is_named fail_after name
    then err (Error.other "InducedFailureError")
    else run_phases engine state log day fail_after names after

abbrev pub is_known : Option String → Bool
is_known none = true
is_known (some name) = has_name name phases

abbrev pub target_of : Option ℕ → SimulationState → ℕ
target_of none state = next_date state
target_of (some requested) state = requested

abbrev pub tick_row : SimulationState → ℕ → ℕ → ℕ → ℕ → TickLogRow
tick_row state day sequence started completed = record {
  tick_sequence = sequence;
  simulated_date = day;
  profile = state.profile;
  seed = state.seed;
  started_at = started;
  completed_at = completed;
}

-- The source and the report of a tick that commits.
abbrev pub committed :
    {Book : Type 0} → SimulationState → List TickLogRow → Records → Context Book → Source Book
committed state tick_log (drift_log, classifications) context = record {
  simulation = some state;
  tick_log = tick_log;
  drift_log = drift_log;
  classifications = classifications;
  schema = context.schema;
  book = context.work.book;
}

abbrev pub report_at :
    {Book : Type 0} → SimulationState → TickLogRow → Context Book → GuardResult → TickReport
report_at current row context guarded = record {
  simulated_date = row.simulated_date;
  profile = current.profile;
  seed = current.seed;
  tick_sequence = row.tick_sequence;
  started_at = row.started_at;
  completed_at = row.completed_at;
  drift_fired = context.drift_fired;
  guard = guarded;
}

-- What a tick writes to platform once its phases and its guard have passed. The counts of the
-- phases are written after the log's row.
unfoldable pub commit_tick :
    {Book : Type 0}
    → SimulationState
    → ℕ
    → ℕ
    → ℕ
    → Context Book
    → GuardResult
    → Source Book
    → Result (Unit {0})
    → Result (Source Book × TickReport)
unfolding advance log_tick record_fired
commit_tick current day started completed context guarded source counts =
    advance source.simulation day completed >>= λ state.
    let row = tick_row current day state.tick_sequence started completed in
    log_tick row source.tick_log >>= λ tick_log. counts >>= λ _.
    record_fired context.drift_fired day state.tick_sequence completed
      (source.drift_log, source.classifications)
    >>= λ records.
        ok (committed state tick_log records context, report_at current row context guarded)

abbrev pub opened : {Book : Type 0} → Source Book → Context Book
opened source = record {
  work = record { book = source.book; touched_accounts = [] };
  schema = source.schema;
  drift_fired = [];
}

-- What a tick asks for: its date, its profile, a failure to induce, and the times of the clock.
pub record Request : Type 0 where
  pub requested_date : Option ℕ
  pub profile : String
  pub fail_after : Option String
  pub started_at : ℕ
  pub completed_at : ℕ

-- The tick from the locked state on.
unfoldable pub run_day :
    {Book : Type 0}
    → Engine Book
    → Request
    → SimulationState
    → Source Book
    → Result (Source Book × TickReport)
unfolding run_phases guard commit_tick
run_day engine request current source =
    let day = target_of request.requested_date current in
    run_phases engine current source.drift_log day request.fail_after phases (opened source)
    >>= λ context.
        guard engine.queries context.work.book context.work.touched_accounts day
          (some (engine.draw day)) engine.floor
        >>= λ guarded.
            commit_tick current day request.started_at request.completed_at context guarded source
              (engine.write_counts context.work)

unfoldable pub run :
    {Book : Type 0} → Engine Book → Request → Source Book → Result (Source Book × TickReport)
unfolding require run_day
run engine request source =
    if not (is_known request.fail_after)
    then err (Error.other "ValueError")
    else (require source.simulation request.requested_date request.profile >>= λ current.
        run_day engine request current source)
