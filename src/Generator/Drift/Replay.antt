-- ===== src/Generator/Drift/Replay.antt =====
-- The two descriptions of an event agree: its SQL moves the database as its delta moves the
-- documented schema, and firing and reverting the timeline gives the documented schema back.
use nordbank_data_platform.Common.{
  map-append, ℕ, ◌+◌, ◌≤◌, leb, append_nil, ◌≡◌, refl, ap, sym, ◌∙◌, Bool, true, false, Bool-cases,
  inl, inr, not, ◌&&◌, String, List, [], ◌∷◌, ◌++◌, map, filter, any, All, All-append,
  if◌then◌else◌,
}
use nordbank_data_platform.Generator.Drift.{
  Column, LiveColumn, is_at, is_live_at, retype, retype_live, execute, apply_delta, apply_deltas,
  risk_score, merchants_risk_score_added, payments_remittance_widened, fire_all, due_events,
  reversed, revert_all,
}
use nordbank_data_platform.Generator.Drift.Timetable.{
  names, filter_by, fired_by, due_events_lem, still_due, earlier_due,
}

-- What the database holds of a documented column.
abbrev pub live : Column → LiveColumn
live c = record {
  schema = c.schema;
  table = c.table;
  name = c.name;
  data_type = c.data_type;
  is_nullable = c.is_nullable;
}

abbrev pub is_column_at : String → String → String → Column → Bool
is_column_at s t n c = is_at c.schema c.table c.name s t n

live-retyped :
    (s t n data_type : String) (columns : List Column)
    → map (λ c. if is_live_at s t n c then retype_live data_type c else c) (map live columns)
      ≡ map live (map (λ c. if is_column_at s t n c then retype data_type c else c) columns)
live-retyped s t n data_type [] = refl
live-retyped s t n data_type (c ∷ columns) = elim (Bool-cases (is_column_at s t n c)) [
  | inl e ↦
      rw e (ap (λ rest. live (retype data_type c) ∷ rest) (live-retyped s t n data_type columns))
  | inr e ↦ rw e (ap (λ rest. live c ∷ rest) (live-retyped s t n data_type columns))
]

not_at :
    (s t n : String) (columns : List Column)
    → All (λ c. is_column_at s t n c ≡ false) columns
    → any (is_live_at s t n) (map live columns) ≡ false
not_at s t n [] h = refl
not_at s t n (c ∷ columns) h = rw h.0 (not_at s t n columns h.1)

-- Dropping a column that stands nowhere else.
dropped :
    (s t n : String) (columns : List Column) (added : List LiveColumn)
    → All (λ c. is_column_at s t n c ≡ false) columns
    → filter (λ c. not (is_live_at s t n c)) (map live columns ++ added)
      ≡ map live columns ++ filter (λ c. not (is_live_at s t n c)) added
dropped s t n [] added h = refl
dropped s t n (c ∷ columns) added h =
    rw h.0 (ap (λ rest. live c ∷ rest) (dropped s t n columns added h.1))

-- Retyping a column back to what it was.
retyped_back :
    (s t n before after : String) (columns : List LiveColumn)
    → All (λ c. is_live_at s t n c ≡ true → c.data_type ≡ before) columns
    → map
        (λ c. if is_live_at s t n c then retype_live before c else c)
        (map (λ c. if is_live_at s t n c then retype_live after c else c) columns)
      ≡ columns
retyped_back s t n before after [] h = refl
retyped_back s t n before after (c ∷ columns) h = elim (Bool-cases (is_live_at s t n c)) [
  | inl e ↦
      let back : retype_live before c ≡ c = ap (λ ty. retype_live ty c) (sym (h.0 e)) in
      rw e (rw e (rw (retyped_back s t n before after columns h.1) (ap (λ x. x ∷ columns) back)))
  | inr e ↦ rw e (rw e (ap (λ rest. c ∷ rest) (retyped_back s t n before after columns h.1)))
]

-- The dictionary the events are written for: without the column that is to be added, and with the
-- type that is to be widened.
pub record IsBaseline (documented : List Column) : Type 0 where
  pub without_score :
      All (λ c. is_column_at "core" "merchants" "merchant_risk_score" c ≡ false) documented
  pub narrow :
      All
        (λ c.
          is_column_at "core" "payments" "remittance_reference" c ≡ true
          → c.data_type ≡ "character varying(140)")
        documented

score_added :
    (documented : List Column)
    → IsBaseline documented
    → execute merchants_risk_score_added.apply_sql (map live documented)
      ≡ map live documented ++ (live risk_score ∷ [])
unfolding execute
score_added documented h =
    rw (not_at "core" "merchants" "merchant_risk_score" documented h.without_score) refl

widened :
    (columns : List Column)
    → execute payments_remittance_widened.apply_sql (map live columns)
      ≡ map live (apply_delta payments_remittance_widened columns)
unfolding execute
widened columns =
    live-retyped "core" "payments" "remittance_reference" "character varying(280)" columns

-- The schema of a database on which the events of a log have fired.
abbrev pub schema_after : List Column → List String → List LiveColumn
schema_after documented fired = map live (apply_deltas documented fired)

scored :
    (documented : List Column)
    → IsBaseline documented
    → execute merchants_risk_score_added.apply_sql (map live documented)
      ≡ map live (apply_delta merchants_risk_score_added documented)
scored documented h = score_added documented h ∙ sym (map-append live documented (risk_score ∷ []))

-- Which events have fired, and which are found due later, as the answers whether their day has come.
pub fired_later :
    (documented : List Column) (first second first_later second_later : Bool)
    → IsBaseline documented
    → (first ≡ true → first_later ≡ true)
    → (second ≡ true → second_later ≡ true)
    → (second ≡ true → first ≡ true)
    → (second_later ≡ true → first_later ≡ true)
    → fire_all
        (filter_by (not first && first_later) (not second && second_later))
        (schema_after documented (names first second))
      ≡ schema_after documented (names first_later second_later)
unfolding fire_all apply_deltas
fired_later documented true true c d h f g k l = rw (f refl) (rw (g refl) refl)
fired_later documented true false c true h f g k l =
    rw (f refl) (widened (apply_delta merchants_risk_score_added documented))
fired_later documented true false c false h f g k l = rw (f refl) refl
fired_later documented false true c d h f g k l = let out_of_order : false ≡ true = k refl in cc
fired_later documented false false true true h f g k l =
    rw (scored documented h) (widened (apply_delta merchants_risk_score_added documented))
fired_later documented false false true false h f g k l = scored documented h
fired_later documented false false false true h f g k l =
    let out_of_order : false ≡ true = l refl in cc
fired_later documented false false false false h f g k l = refl

-- On a schema that is the documented one with the deltas of the events due by a day, the SQL of the
-- events found due on that day or a later one gives the documented schema with the deltas of the
-- events due by the later day, if the dictionary is the one the events are written for.
pub fire_all-apply_deltas :
    (documented : List Column) (anchor day later : ℕ)
    → IsBaseline documented
    → day ≤ later
    → fire_all
        (due_events anchor later (fired_by anchor day))
        (schema_after documented (fired_by anchor day))
      ≡ schema_after documented (fired_by anchor later)
fire_all-apply_deltas documented anchor day later h upto =
    let first : Bool = leb (anchor + 12) day in
    let second : Bool = leb (anchor + 37) day in
    rw (due_events_lem anchor later first second) (
      fired_later documented first second (leb (anchor + 12) later) (leb (anchor + 37) later) h
        (still_due (anchor + 12) day later upto) (still_due (anchor + 37) day later upto)
        (earlier_due anchor day) (earlier_due anchor later))

All-live :
    (P : LiveColumn → Type 0) (columns : List Column)
    → All (λ c. P (live c)) columns
    → All P (map live columns)
All-live P [] h = tt
All-live P (c ∷ columns) h = (h.0, All-live P columns h.1)

narrow_with_score :
    (documented : List Column)
    → IsBaseline documented
    → All
        (λ c.
          is_live_at "core" "payments" "remittance_reference" c ≡ true
          → c.data_type ≡ "character varying(140)")
        (map live (apply_delta merchants_risk_score_added documented))
narrow_with_score documented h = rw (map-append live documented (risk_score ∷ [])) (
    All-append
      (λ c.
        is_live_at "core" "payments" "remittance_reference" c ≡ true
        → c.data_type ≡ "character varying(140)")
      (map live documented) (live risk_score ∷ [])
      (All-live
        (λ c.
          is_live_at "core" "payments" "remittance_reference" c ≡ true
          → c.data_type ≡ "character varying(140)")
        documented h.narrow)
      ((λ elsewhere. cc), tt))

score_dropped :
    (documented : List Column)
    → IsBaseline documented
    → filter
        (λ c. not (is_live_at "core" "merchants" "merchant_risk_score" c))
        (map live (apply_delta merchants_risk_score_added documented))
      ≡ map live documented
score_dropped documented h = rw (map-append live documented (risk_score ∷ [])) (
    dropped "core" "merchants" "merchant_risk_score" documented (live risk_score ∷ [])
      h.without_score
    ∙ append_nil (map live documented))

narrowed :
    (documented : List Column)
    → IsBaseline documented
    → execute payments_remittance_widened.revert_sql (
        map live (
          apply_delta payments_remittance_widened
            (apply_delta merchants_risk_score_added documented)))
      ≡ map live (apply_delta merchants_risk_score_added documented)
unfolding execute
narrowed documented h =
    let scored_columns : List Column = apply_delta merchants_risk_score_added documented in
    ap
      (λ columns.
        map
          (λ c.
            if is_live_at "core" "payments" "remittance_reference" c
            then retype_live "character varying(140)" c
            else c)
          columns)
      (sym (widened scored_columns))
    ∙ retyped_back "core" "payments" "remittance_reference" "character varying(140)"
        "character varying(280)" (map live scored_columns) (narrow_with_score documented h)

reverted :
    (documented : List Column) (first second : Bool)
    → IsBaseline documented
    → (second ≡ true → first ≡ true)
    → revert_all (names first second) (schema_after documented (names first second))
      ≡ (map live documented, reversed (names first second))
unfolding revert_all apply_deltas
reverted documented true true h k =
    rw (narrowed documented h)
      (ap (λ columns. (columns, reversed (names true true))) (score_dropped documented h))
reverted documented true false h k =
    ap (λ columns. (columns, reversed (names true false))) (score_dropped documented h)
reverted documented false true h k = let out_of_order : false ≡ true = k refl in cc
reverted documented false false h k = refl

-- On a schema that is the documented one with the deltas of the events due by a day, reverting the
-- log of those events gives the documented schema back, and reports every event, newest first, if
-- the dictionary is the one the events are written for.
pub revert_all-fired_by :
    (documented : List Column) (anchor day : ℕ)
    → IsBaseline documented
    → revert_all (fired_by anchor day) (schema_after documented (fired_by anchor day))
      ≡ (map live documented, reversed (fired_by anchor day))
revert_all-fired_by documented anchor day h =
    reverted documented (leb (anchor + 12) day) (leb (anchor + 37) day) h (earlier_due anchor day)
