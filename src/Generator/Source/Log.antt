-- ===== src/Generator/Source/Log.antt =====
-- The logs of the source: what the inserts of a tick do to logs that hold the days so far.
use nordbank_data_platform.Common.{
  map-append, ℕ, zero, suc, ◌+◌, ◌≤◌, ◌<◌, ◌≡◌, refl, ap, sym, ◌∙◌, arith, Bool, true, false,
  Bool-cases, inl, inr, ◌||◌, ◌&&◌, not, String, has_name, str_eq, List, [], ◌∷◌, ◌++◌, map, any,
  All, append_assoc, append_nil, leb, ltb, ◌==◌, ok, strip,
}
use nordbank_data_platform.Generator.Drift.{
  Column, DriftEvent, due_events, risk_score, merchants_risk_score_added,
  payments_remittance_widened, classification_rows,
}
use nordbank_data_platform.Generator.Drift.Replay.{IsBaseline, is_column_at}
use nordbank_data_platform.Generator.Drift.Timetable.{
  names, filter_by, fired_by, first_logged, second_logged, due_events_lem, due_events-fired_by,
  still_due,
}
use nordbank_data_platform.Generator.Source.{
  DriftLogRow, TickLogRow, Classification, fired_names, logged, log_row, log_tick, record_fired,
  classify, classification_of,
}

-- The sequence numbers and the days of the ticks after an anchor.
abbrev pub days_after : ℕ → ℕ → List (ℕ × ℕ)
days_after anchor zero = []
days_after anchor (suc n) = days_after anchor n ++ ((suc n, anchor + suc n) ∷ [])

abbrev pub ticks_of : List TickLogRow → List (ℕ × ℕ)
ticks_of log = map (λ row. (row.tick_sequence, row.simulated_date)) log

any-map :
    {A B : Type 0} (p : B → Bool) (f : A → B) (xs : List A)
    → any p (map f xs) ≡ any (λ x. p (f x)) xs
any-map p f [] = refl
any-map p f (x ∷ xs) = ap (λ b. p (f x) || b) (any-map p f xs)

any-append_false :
    {A : Type 0} (p : A → Bool) (xs ys : List A)
    → any p xs ≡ false
    → any p ys ≡ false
    → any p (xs ++ ys) ≡ false
any-append_false p [] ys h k = k
any-append_false p (x ∷ xs) ys h k = elim (Bool-cases (p x)) [
  | inl e ↦ let t : true ≡ false = rw e at h in cc
  | inr e ↦ let rest : any p xs ≡ false = rw e at h in rw e (any-append_false p xs ys rest k)
]

abbrev same_tick : ℕ → ℕ → ℕ × ℕ → Bool
same_tick sequence day (s, d) = (s == sequence) || (d == day)

not_same_tick :
    (anchor n m : ℕ) → n < m → any (same_tick m (anchor + m)) (days_after anchor n) ≡ false
not_same_tick anchor zero m h = refl
not_same_tick anchor (suc n) m h =
    any-append_false (same_tick m (anchor + m)) (days_after anchor n) ((suc n, anchor + suc n) ∷ [])
      (not_same_tick anchor n m (omega arith)) (ground arith)

-- A log of the days so far takes the row of the next one.
pub log_tick-next :
    (row : TickLogRow) (log : List TickLogRow) (anchor n : ℕ)
    → ticks_of log ≡ days_after anchor n
    → row.tick_sequence ≡ suc n
    → row.simulated_date ≡ anchor + suc n
    → row.started_at ≤ row.completed_at
    → log_tick row log ≡ ok (log ++ (row ∷ []))
unfolding log_tick
log_tick-next row log anchor n at_log at_sequence at_day in_time =
    let unlogged : any
          (λ r. r.tick_sequence == row.tick_sequence || r.simulated_date == row.simulated_date) log
        ≡ false =
      sym (
        any-map (same_tick row.tick_sequence row.simulated_date)
          (λ r. (r.tick_sequence, r.simulated_date)) log)
      ∙ ap (any (same_tick row.tick_sequence row.simulated_date)) at_log
      ∙ rw at_sequence (rw at_day (not_same_tick anchor n (suc n) (omega arith))) in
    let ordered : ltb row.completed_at row.started_at ≡ false = ground arith in
    rw unlogged (rw ordered refl)

pub strip-names : (first second : Bool) → map strip (names first second) ≡ names first second
unfolding strip
strip-names true true = refl
strip-names true false = refl
strip-names false true = refl
strip-names false false = refl

map-map :
    {A B C : Type 0} (g : B → C) (f : A → B) (xs : List A)
    → map g (map f xs) ≡ map (λ x. g (f x)) xs
map-map g f [] = refl
map-map g f (x ∷ xs) = ap (λ ys. g (f x) ∷ ys) (map-map g f xs)

pub fired_names_lem :
    (log : List DriftLogRow) (first second : Bool)
    → logged log ≡ names first second
    → fired_names log ≡ names first second
unfolding fired_names
fired_names_lem log first second h =
    sym (map-map strip (λ row. row.event_name) log) ∙ ap (map strip) h ∙ strip-names first second

has_name-append :
    (n : String) (xs ys : List String)
    → has_name n xs ≡ false
    → has_name n ys ≡ false
    → has_name n (xs ++ ys) ≡ false
has_name-append n [] ys h k = k
has_name-append n (x ∷ xs) ys h k = elim (Bool-cases (str_eq n x)) [
  | inl e ↦ let t : true ≡ false = rw e at h in cc
  | inr e ↦ let rest : has_name n xs ≡ false = rw e at h in rw e (has_name-append n xs ys rest k)
]

abbrev pub rows_of : List DriftEvent → ℕ → ℕ → ℕ → List DriftLogRow
rows_of due day sequence at = map (λ event. log_row event day sequence at) due

abbrev pub with_score : Bool → List Classification → List Classification
with_score true rows = classify (classification_of risk_score) rows
with_score false rows = rows

-- Events that the log has not are recorded: a row for each, and a classification for the column.
pub record_fired-due :
    (first second : Bool) (day sequence at : ℕ) (log : List DriftLogRow)
    (rows : List Classification)
    → (first ≡ true → has_name merchants_risk_score_added.name (logged log) ≡ false)
    → (second ≡ true → has_name payments_remittance_widened.name (logged log) ≡ false)
    → record_fired (names first second) day sequence at (log, rows)
      ≡ ok (log ++ rows_of (filter_by first second) day sequence at, with_score first rows)
unfolding record_fired
record_fired-due false false day sequence at log rows f g =
    ap (λ l. ok (l, rows)) (sym (append_nil log))
record_fired-due true false day sequence at log rows f g = rw (f refl) refl
record_fired-due false true day sequence at log rows f g = rw (g refl) refl
record_fired-due true true day sequence at log rows f g =
    let row : DriftLogRow = log_row merchants_risk_score_added day sequence at in
    let still_unlogged : has_name payments_remittance_widened.name (logged (log ++ (row ∷ [])))
        ≡ false =
      rw (map-append (λ r. r.event_name) log (row ∷ [])) (
        has_name-append payments_remittance_widened.name (logged log) (row.event_name ∷ []) (g refl)
          refl) in
    rw (f refl) (
      rw still_unlogged (
        ap (λ l. ok (l, with_score true rows))
          (append_assoc log (row ∷ [])
            (rows_of (payments_remittance_widened ∷ []) day sequence at))))

logged-rows :
    (due : List DriftEvent) (day sequence at : ℕ)
    → logged (rows_of due day sequence at) ≡ map (λ event. event.name) due
logged-rows due day sequence at =
    map-map (λ r. r.event_name) (λ event. log_row event day sequence at) due

pub logged-append :
    (log : List DriftLogRow) (due : List DriftEvent) (day sequence at : ℕ)
    → logged (log ++ rows_of due day sequence at) ≡ logged log ++ map (λ event. event.name) due
logged-append log due day sequence at =
    map-append (λ r. r.event_name) log (rows_of due day sequence at)
    ∙ ap (λ l. logged log ++ l) (logged-rows due day sequence at)

classify-new :
    (documented : List Column)
    → All (λ c. is_column_at "core" "merchants" "merchant_risk_score" c ≡ false) documented
    → classify (classification_of risk_score) (map classification_of documented)
      ≡ map classification_of (documented ++ (risk_score ∷ []))
classify-new [] h = refl
classify-new (c ∷ documented) h =
    rw h.0 (ap (λ rest. classification_of c ∷ rest) (classify-new documented h.1))

-- The rows the classifications are to hold when the events of a log have fired.
abbrev pub classified_after : List Column → List String → List Classification
classified_after documented fired = map classification_of (documented ++ classification_rows fired)

abbrev score_if : Bool → List Column
score_if true = risk_score ∷ []
score_if false = []

rows-names : (first second : Bool) → classification_rows (names first second) ≡ score_if first
unfolding classification_rows
rows-names true true = refl
rows-names true false = refl
rows-names false true = refl
rows-names false false = refl

with_score-if :
    (documented : List Column) (first first_later : Bool)
    → IsBaseline documented
    → (first ≡ true → first_later ≡ true)
    → with_score (not first && first_later) (map classification_of (documented ++ score_if first))
      ≡ map classification_of (documented ++ score_if first_later)
with_score-if documented true later h f = rw (f refl) refl
with_score-if documented false true h f =
    rw (append_nil documented) (classify-new documented h.without_score)
with_score-if documented false false h f = refl

pub with_score-due :
    (documented : List Column) (first second first_later second_later : Bool)
    → IsBaseline documented
    → (first ≡ true → first_later ≡ true)
    → with_score (not first && first_later) (classified_after documented (names first second))
      ≡ classified_after documented (names first_later second_later)
with_score-due documented first second first_later second_later h f =
    rw (rows-names first second)
      (rw (rows-names first_later second_later) (with_score-if documented first first_later h f))

not_before : (x y : Bool) → (not x && y) ≡ true → x ≡ false
not_before true y h = sym h
not_before false y h = refl

-- Recording the events found due on a later day brings the log and the classifications, which held
-- those due by a day, to those due by the later one.
pub record_fired-later :
    (documented : List Column) (anchor day later sequence at : ℕ) (log : List DriftLogRow)
    (rows : List Classification)
    → IsBaseline documented
    → day ≤ later
    → logged log ≡ fired_by anchor day
    → rows ≡ classified_after documented (fired_by anchor day)
    → (log_later : List DriftLogRow) × (record_fired
          (map (λ event. event.name) (due_events anchor later (fired_by anchor day)))
          later
          sequence
          at
          (log, rows)
        ≡ ok (log_later, classified_after documented (fired_by anchor later)))
      × (logged log_later ≡ fired_by anchor later)
record_fired-later documented anchor day later sequence at log rows h upto at_log at_rows =
    let first : Bool = leb (anchor + 12) day in
    let second : Bool = leb (anchor + 37) day in
    let first_due : Bool = not first && leb (anchor + 12) later in
    let second_due : Bool = not second && leb (anchor + 37) later in
    let due : List DriftEvent = filter_by first_due second_due in
    let found : due_events anchor later (fired_by anchor day) ≡ due =
      due_events_lem anchor later first second in
    let recorded =
      record_fired-due first_due second_due later sequence at log rows
        (λ e.
          ap (has_name merchants_risk_score_added.name) at_log
          ∙ first_logged first second
          ∙ not_before first (leb (anchor + 12) later) e)
        (λ e.
          ap (has_name payments_remittance_widened.name) at_log
          ∙ second_logged first second
          ∙ not_before second (leb (anchor + 37) later) e) in
    let classified : with_score first_due rows
        ≡ classified_after documented (fired_by anchor later) =
      ap (with_score first_due) at_rows
      ∙ with_score-due documented first second (leb (anchor + 12) later) (leb (anchor + 37) later) h
          (still_due (anchor + 12) day later upto) in
    let log_later : List DriftLogRow = log ++ rows_of due later sequence at in
    (
      log_later,
      ap (λ d. record_fired (map (λ event. event.name) d) later sequence at (log, rows)) found
          ∙ recorded
          ∙ ap (λ r. ok (log_later, r)) classified,
      logged-append log due later sequence at
          ∙ ap (λ l. l ++ map (λ event. event.name) due) at_log
          ∙ ap (λ d. fired_by anchor day ++ map (λ event. event.name) d) (sym found)
          ∙ due_events-fired_by anchor day later upto,
    )
