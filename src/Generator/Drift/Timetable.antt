-- ===== src/Generator/Drift/Timetable.antt =====
-- When the events fire: whatever the days looked at, an event has fired once its day has come.
use nordbank_data_platform.Common.{
  ℕ, ◌+◌, ◌≤◌, ◌≡◌, refl, arith, Bool, true, false, has_name, not, ◌&&◌, if◌then◌else◌, String,
  List, [], ◌∷◌, ◌++◌, map, filter, leb,
}
use nordbank_data_platform.Generator.Drift.{
  DriftEvent, events, merchants_risk_score_added, payments_remittance_widened, fires_on, due_events,
}

-- The names of the events whose day has come, in the timeline's order.
abbrev pub fired_by : ℕ → ℕ → List String
fired_by anchor day =
    map (λ event. event.name) (filter (λ event. leb (fires_on event anchor) day) events)

pub still_due : (a day later : ℕ) → day ≤ later → leb a day ≡ true → leb a later ≡ true
still_due a day later h k = ground arith

pub earlier_due : (anchor day : ℕ) → leb (anchor + 37) day ≡ true → leb (anchor + 12) day ≡ true
earlier_due anchor day h = ground arith

abbrev pub filter_by : Bool → Bool → List DriftEvent
filter_by first second =
    let rest = if second then payments_remittance_widened ∷ [] else [] in
    if first then merchants_risk_score_added ∷ rest else rest

abbrev pub names : Bool → Bool → List String
names first second = map (λ event. event.name) (filter_by first second)

-- The timeline for the answers whether each day has come: of the two tests now, and of the two later.
found_later :
    (first second first_later second_later : Bool)
    → (first ≡ true → first_later ≡ true)
    → (second ≡ true → second_later ≡ true)
    → (second ≡ true → first ≡ true)
    → names first second
        ++ map
            (λ event. event.name)
            (filter_by
              (not (has_name merchants_risk_score_added.name (names first second)) && first_later)
              (not (has_name payments_remittance_widened.name (names first second))
                && second_later))
      ≡ names first_later second_later
found_later true true c d f g k = rw (f refl) (rw (g refl) refl)
found_later true false c true f g k = rw (f refl) refl
found_later true false c false f g k = rw (f refl) refl
found_later false true c d f g k = let out_of_order : false ≡ true = k refl in cc
found_later false false true true f g k = refl
found_later false false true false f g k = refl
found_later false false false true f g k = refl
found_later false false false false f g k = refl

-- When the log holds the events due by a day, the events found due on that day or a later one are
-- those that bring the log to the events due by the later day.
pub due_events-fired_by :
    (anchor day later : ℕ)
    → day ≤ later
    → fired_by anchor day
        ++ map (λ event. event.name) (due_events anchor later (fired_by anchor day))
      ≡ fired_by anchor later
unfolding due_events
due_events-fired_by anchor day later h =
    found_later (leb (anchor + 12) day) (leb (anchor + 37) day) (leb (anchor + 12) later)
      (leb (anchor + 37) later) (still_due (anchor + 12) day later h)
      (still_due (anchor + 37) day later h) (earlier_due anchor day)

pub first_logged :
    (first second : Bool) → has_name merchants_risk_score_added.name (names first second) ≡ first
first_logged true second = refl
first_logged false true = refl
first_logged false false = refl

pub second_logged :
    (first second : Bool) → has_name payments_remittance_widened.name (names first second) ≡ second
second_logged true true = refl
second_logged true false = refl
second_logged false true = refl
second_logged false false = refl

-- The events found due, by the answers whether each day has come.
pub due_events_lem :
    (anchor later : ℕ) (first second : Bool)
    → due_events anchor later (names first second)
      ≡ filter_by (not first && leb (anchor + 12) later) (not second && leb (anchor + 37) later)
unfolding due_events
due_events_lem anchor later first second =
    rw (first_logged first second) (rw (second_logged first second) refl)
