-- ===== src/Generator/Source.antt =====
-- The source database as the generator's tick sees it: the tables of platform in
-- infra/docker/postgres-source/schema, its own schema, and the book of the bank, whose tables are
-- a parameter. generator/mutation/state.py, `write` of generator/mutation/report.py,
-- `fired_names` and `record_fired` of the drift timeline, and generator/mutation/reset.py.
pub mod Log
use nordbank_data_platform.Common.{
  ℕ, suc, ◌+◌, ◌≡◌, refl, Bool, true, false, ◌||◌, ◌&&◌, not, String, Option, none, some, List, [],
  ◌∷◌, ◌++◌, map, filter, any, str_eq, has_name, strip, leb, ltb, ◌==◌, if◌then◌else◌, Error,
  Result, err, ok, ◌>>=◌,
}
use nordbank_data_platform.Generator.Drift.{
  Column, LiveColumn, DriftType, DriftEvent, event_by_name, is_at, revert_all, reversed,
}

pub record SimulationState : Type 0 where
  pub profile : String
  pub seed : ℕ
  pub anchor_date : ℕ
  pub simulated_date : ℕ
  pub tick_sequence : ℕ
  pub last_tick_completed_at : Option ℕ

pub record TickLogRow : Type 0 where
  pub tick_sequence : ℕ
  pub simulated_date : ℕ
  pub profile : String
  pub seed : ℕ
  pub started_at : ℕ
  pub completed_at : ℕ

pub record DriftLogRow : Type 0 where
  pub event_name : String
  pub drift_type : DriftType
  pub target_schema : String
  pub target_table : String
  pub target_column : String
  pub simulated_date : ℕ
  pub tick_sequence : ℕ
  pub applied_at : ℕ

pub record Classification : Type 0 where
  pub schema_name : String
  pub table_name : String
  pub column_name : String
  pub classification : String
  pub rationale : String

-- Rows are in the order of their generated ids.
pub record Source (Book : Type 0) : Type 0 where
  pub simulation : Option SimulationState
  pub tick_log : List TickLogRow
  pub drift_log : List DriftLogRow
  pub classifications : List Classification
  pub schema : List LiveColumn
  pub book : Book

abbrev pub next_date : SimulationState → ℕ
next_date state = suc state.simulated_date

-- What `TickRefusedError` says; the two last for a date that is not the next.
abbrev pub refuse {ℓ} : {A : Type ℓ} → String → Result A
refuse why = err (Error.other why)

-- `requested == state.next_date` and the refusals of any other date
abbrev pub permits : SimulationState → Option ℕ → Result SimulationState
permits state none = ok state
permits state (some requested) =
    if requested == next_date state
    then ok state
    else if leb requested state.simulated_date
    then refuse "already advanced through"
    else refuse "skips days"

unfoldable pub require : Option SimulationState → Option ℕ → String → Result SimulationState
require none requested profile = refuse "not seeded"
require (some state) requested profile =
    if not (str_eq state.profile profile)
    then refuse "seeded at another profile"
    else permits state requested

-- The state a day on; without a row there is nothing that `fetchone` returns.
unfoldable pub advance : Option SimulationState → ℕ → ℕ → Result SimulationState
advance none to completed_at = err (Error.other "TypeError")
advance (some state) to completed_at = ok (record {
  profile = state.profile;
  seed = state.seed;
  anchor_date = state.anchor_date;
  simulated_date = to;
  tick_sequence = suc state.tick_sequence;
  last_tick_completed_at = some completed_at;
})

-- The insert into platform.tick_log, under its constraints.
unfoldable pub log_tick : TickLogRow → List TickLogRow → Result (List TickLogRow)
log_tick row log =
    if any (λ r. r.tick_sequence == row.tick_sequence || r.simulated_date == row.simulated_date) log
    then err (Error.duplicate_key "tick_log")
    else if ltb row.completed_at row.started_at
    then err (Error.other "CheckViolation")
    else ok (log ++ (row ∷ []))

unfoldable pub fired_names : List DriftLogRow → List String
fired_names log = map (λ row. strip row.event_name) log

-- `insert ... on conflict ... do update`
abbrev pub classify : Classification → List Classification → List Classification
classify row [] = row ∷ []
classify row (r ∷ rows) =
    if is_at r.schema_name r.table_name r.column_name row.schema_name row.table_name row.column_name
    then row ∷ rows
    else r ∷ classify row rows

abbrev pub classification_of : Column → Classification
classification_of c = record {
  schema_name = c.schema;
  table_name = c.table;
  column_name = c.name;
  classification = c.classification;
  rationale = c.description;
}

abbrev pub log_row : DriftEvent → ℕ → ℕ → ℕ → DriftLogRow
log_row event simulated_date tick_sequence applied_at = record {
  event_name = event.name;
  drift_type = event.drift_type;
  target_schema = event.target_schema;
  target_table = event.target_table;
  target_column = event.target_column;
  simulated_date = simulated_date;
  tick_sequence = tick_sequence;
  applied_at = applied_at;
}

-- The names that the unique constraint of the drift log compares.
abbrev pub logged : List DriftLogRow → List String
logged log = map (λ row. row.event_name) log

-- The drift log and the classifications, as `record_fired` leaves them.
abbrev pub Records : Type 0
Records = List DriftLogRow × List Classification

abbrev pub record_event : DriftEvent → ℕ → ℕ → ℕ → Records → Result Records
record_event event date sequence applied_at (log, classifications) =
    if has_name event.name (logged log)
    then err (Error.duplicate_key event.name)
    else ok (
      log ++ (log_row event date sequence applied_at ∷ []),
      elim event.added [
        | none ↦ classifications
        | some c ↦ classify (classification_of c) classifications
      ],
    )

unfoldable pub record_fired : List String → ℕ → ℕ → ℕ → Records → Result Records
record_fired [] date sequence applied_at records = ok records
record_fired (name ∷ names) date sequence applied_at records = elim (event_by_name name) [
  | none ↦ err (Error.other "ValueError")
  | some event ↦ record_event event date sequence applied_at records >>= λ rest.
      record_fired names date sequence applied_at rest
]

-- The rows that a seed deletes with an event's added column.
abbrev pub unclassify : List String → List Classification → List Classification
unclassify [] rows = rows
unclassify (name ∷ names) rows = elim (event_by_name name) [
  | none ↦ unclassify names rows
  | some event ↦ elim event.added [
    | none ↦ unclassify names rows
    | some c ↦ unclassify names (
        filter (λ r. not (is_at r.schema_name r.table_name r.column_name c.schema c.table c.name))
          rows)
  ]
]

-- `reset` of generator/mutation/reset.py, which a seed runs before it loads a new book.
unfoldable pub reset : {Book : Type 0} → String → ℕ → ℕ → Source Book → Source Book
unfolding fired_names revert_all
reset profile seed anchor source = record {
  simulation = some (record {
    profile = profile;
    seed = seed;
    anchor_date = anchor;
    simulated_date = anchor;
    tick_sequence = 0;
    last_tick_completed_at = none;
  });
  tick_log = [];
  drift_log = [];
  classifications = unclassify (reversed (fired_names source.drift_log)) source.classifications;
  schema = (revert_all (fired_names source.drift_log) source.schema).0;
  book = source.book;
}
