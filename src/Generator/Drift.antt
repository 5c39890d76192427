-- ===== src/Generator/Drift.antt =====
-- generator/drift/timeline.py: the scripted changes of the source's schema, when each fires, and
-- what it does in both directions. The schema of the database is the list of its columns, an
-- added column at the end, and the SQL of an event is what it does to that list.
pub mod Replay
pub mod Timetable
use nordbank_data_platform.Common.{
  ℕ, ◌+◌, ◌≡◌, refl, Bool, true, false, not, ◌&&◌, String, Option, none, some, List, [], ◌∷◌, ◌++◌,
  map, filter, any, has_name, str_eq, leb, if◌then◌else◌,
}

-- `Column` of scripts/schema_contract.py
pub record Column : Type 0 where
  pub schema : String
  pub table : String
  pub name : String
  pub data_type : String
  pub is_nullable : Bool
  pub classification : String
  pub description : String
  pub consumed_by : String

-- A column as the database holds it.
pub record LiveColumn : Type 0 where
  pub schema : String
  pub table : String
  pub name : String
  pub data_type : String
  pub is_nullable : Bool

pub data DriftType : Type 0 where
  column_added : DriftType
  type_widened : DriftType

-- The statements of the events' SQL, to be run any number of times.
pub data Statement : Type 0 where
  -- `alter table ... add column if not exists ...`
  add_column : LiveColumn → Statement
  -- `alter table ... drop column if exists ...`
  drop_column : String → String → String → Statement
  -- `alter table ... alter column ... type ...`
  alter_type : String → String → String → String → Statement

pub record DriftEvent : Type 0 where
  pub name : String
  pub drift_type : DriftType
  pub offset_days : ℕ
  pub target_schema : String
  pub target_table : String
  pub target_column : String
  pub apply_sql : Statement
  pub revert_sql : Statement
  pub added : Option Column
  pub widened_to : String

abbrev pub fires_on : DriftEvent → ℕ → ℕ
fires_on event anchor = anchor + event.offset_days

-- Whether a column stands under a schema, a table and a name.
abbrev pub is_at : String → String → String → String → String → String → Bool
is_at schema table name s t n = str_eq schema s && str_eq table t && str_eq name n

abbrev pub is_live_at : String → String → String → LiveColumn → Bool
is_live_at s t n c = is_at c.schema c.table c.name s t n

abbrev pub retype_live : String → LiveColumn → LiveColumn
retype_live data_type c = record {
  schema = c.schema;
  table = c.table;
  name = c.name;
  data_type = data_type;
  is_nullable = c.is_nullable;
}

unfoldable pub execute : Statement → List LiveColumn → List LiveColumn
execute (add_column c) live =
    if any (is_live_at c.schema c.table c.name) live then live else live ++ (c ∷ [])
execute (drop_column s t n) live = filter (λ c. not (is_live_at s t n c)) live
execute (alter_type s t n data_type) live =
    map (λ c. if is_live_at s t n c then retype_live data_type c else c) live

abbrev pub risk_score : Column
risk_score = record {
  schema = "core";
  table = "merchants";
  name = "merchant_risk_score";
  data_type = "numeric(18,8)";
  is_nullable = true;
  classification = "non-personal";
  description =
      "Acquirer risk score for the merchant, added mid-history by a scripted drift event. Null until the acquirer first scores the merchant. A decimal fraction, not a percentage.";
  consumed_by = "-";
}

abbrev pub merchants_risk_score_added : DriftEvent
merchants_risk_score_added = record {
  name = "merchants_risk_score_added";
  drift_type = column_added;
  offset_days = 12;
  target_schema = "core";
  target_table = "merchants";
  target_column = "merchant_risk_score";
  apply_sql = add_column (record {
    schema = "core";
    table = "merchants";
    name = "merchant_risk_score";
    data_type = "numeric(18,8)";
    is_nullable = true;
  });
  revert_sql = drop_column "core" "merchants" "merchant_risk_score";
  added = some risk_score;
  widened_to = "";
}

abbrev pub payments_remittance_widened : DriftEvent
payments_remittance_widened = record {
  name = "payments_remittance_widened";
  drift_type = type_widened;
  offset_days = 37;
  target_schema = "core";
  target_table = "payments";
  target_column = "remittance_reference";
  apply_sql = alter_type "core" "payments" "remittance_reference" "character varying(280)";
  revert_sql = alter_type "core" "payments" "remittance_reference" "character varying(140)";
  added = none;
  widened_to = "character varying(280)";
}

abbrev pub events : List DriftEvent
events = merchants_risk_score_added ∷ payments_remittance_widened ∷ []

abbrev pub event_in : List DriftEvent → String → Option DriftEvent
event_in [] name = none
event_in (event ∷ rest) name = if str_eq event.name name then some event else event_in rest name

abbrev pub event_by_name : String → Option DriftEvent
event_by_name name = event_in events name

unfoldable pub due_events : ℕ → ℕ → List String → List DriftEvent
due_events anchor simulated_date already =
    filter
      (λ event. not (has_name event.name already) && leb (fires_on event anchor) simulated_date)
      events

-- The loop of generator/mutation/phases/drift.py over the events that are due.
unfoldable pub fire_all : List DriftEvent → List LiveColumn → List LiveColumn
unfolding execute
fire_all [] columns = columns
fire_all (event ∷ due) columns = fire_all due (execute event.apply_sql columns)

abbrev pub retype : String → Column → Column
retype data_type c = record {
  schema = c.schema;
  table = c.table;
  name = c.name;
  data_type = data_type;
  is_nullable = c.is_nullable;
  classification = c.classification;
  description = c.description;
  consumed_by = c.consumed_by;
}

-- What one event does to the documented columns.
abbrev pub apply_delta : DriftEvent → List Column → List Column
apply_delta event columns = elim event.drift_type [
  | column_added ↦ (elim event.added [ none ↦ columns | some c ↦ columns ++ (c ∷ []) ])
  | type_widened ↦
      map
        (λ c.
          if is_at c.schema c.table c.name event.target_schema event.target_table
            event.target_column
          then retype event.widened_to c
          else c)
        columns
]

unfoldable pub apply_deltas : List Column → List String → List Column
apply_deltas columns [] = columns
apply_deltas columns (name ∷ fired) = elim (event_by_name name) [
  | none ↦ apply_deltas columns fired
  | some event ↦ apply_deltas (apply_delta event columns) fired
]

unfoldable pub classification_rows : List String → List Column
classification_rows [] = []
classification_rows (name ∷ fired) = elim (event_by_name name) [
  | none ↦ classification_rows fired
  | some event ↦ elim event.drift_type [
    | column_added ↦ elim event.added [
      | none ↦ classification_rows fired
      | some c ↦ c ∷ classification_rows fired
    ]
    | type_widened ↦ classification_rows fired
  ]
]

-- The loop over the names, in the order given.
abbrev pub revert_each : List String → List LiveColumn → List LiveColumn × List String
revert_each [] live = (live, [])
revert_each (name ∷ names) live = elim (event_by_name name) [
  | none ↦ revert_each names live
  | some event ↦
      let rest = revert_each names (execute event.revert_sql live) in (rest.0, name ∷ rest.1)
]

abbrev pub reversed {ℓ} : {A : Type ℓ} → List A → List A
reversed [] = []
reversed (x ∷ xs) = reversed xs ++ (x ∷ [])

unfoldable pub revert_all : List String → List LiveColumn → List LiveColumn × List String
unfolding execute
revert_all fired live = revert_each (reversed fired) live
