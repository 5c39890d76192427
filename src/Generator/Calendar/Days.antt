-- ===== src/Generator/Calendar/Days.antt =====
-- The days of a month that a range holds: the month's days, in order, within the range.
use nordbank_data_platform.Common.{
  ℕ, zero, suc, ◌+◌, ◌≤◌, ◌<◌, ◌≡◌, refl, ap, arith, true, List, [], ◌∷◌, filter, ltb, ◌==◌, ==_iff,
  ok, ◌⊎◌, ◌↔◌, inl, inr, Bool-cases,
}
use nordbank_data_platform.Common.Time.{CivilDate}
use nordbank_data_platform.Generator.Calendar.{
  IsDate, month_length, day_after, plus_days, is_within, on_or_before, days_from, days_of_month,
}
use nordbank_data_platform.Generator.Calendar.Months.{days_in_month_lem}

abbrev pub on_day : CivilDate → ℕ → CivilDate
on_day month_start day = record { year = month_start.year; month = month_start.month; day = day }

-- The n days of a month from `day` on.
abbrev pub month_days : CivilDate → ℕ → ℕ → List CivilDate
month_days month_start zero day = []
month_days month_start (suc n) day = on_day month_start day ∷ month_days month_start n (suc day)

day_after-on_day :
    (ms : CivilDate) (k : ℕ)
    → k < month_length ms.year ms.month
    → day_after (on_day ms k) ≡ ok (on_day ms (suc k))
unfolding day_after
day_after-on_day ms k h =
    let before_end : ltb k (month_length ms.year ms.month) ≡ true = ground arith in
    rw before_end refl

plus_days-on_day :
    (ms : CivilDate) (k : ℕ)
    → ms.day ≡ 1
    → k < month_length ms.year ms.month
    → plus_days ms k ≡ ok (on_day ms (suc k))
unfolding plus_days
plus_days-on_day ms zero h below = ap (λ day. ok (on_day ms day)) h
plus_days-on_day ms (suc k) h below =
    rw (plus_days-on_day ms k h (omega arith)) (day_after-on_day ms (suc k) below)

days_from-month_days :
    (ms first last : CivilDate) (n k : ℕ)
    → ms.day ≡ 1
    → k + n ≤ month_length ms.year ms.month
    → days_from ms first last n k ≡ ok (filter (is_within first last) (month_days ms n (suc k)))
unfolding days_from
days_from-month_days ms first last zero k h below = refl
days_from-month_days ms first last (suc n) k h below =
    let same_month : (ms.month == ms.month) ≡ true = (==_iff ms.month ms.month).1 refl in
    rw (plus_days-on_day ms k h (omega arith))
      (rw same_month (rw (days_from-month_days ms first last n (suc k) h (omega arith)) refl))

-- The order of civil dates.
abbrev pub IsOnOrBefore : CivilDate → CivilDate → Type 0
IsOnOrBefore a b =
    (a.year < b.year)
    ⊎ ((a.year ≡ b.year) × ((a.month < b.month) ⊎ ((a.month ≡ b.month) × (a.day ≤ b.day))))

abbrev pub IsInRange : CivilDate → CivilDate → CivilDate → Type 0
IsInRange first last day = IsOnOrBefore first day × IsOnOrBefore day last

-- A list in its order, with the entries of which P holds and no other.
pub data Selects (P : CivilDate → Type 0) : List CivilDate → List CivilDate → Type 0 where
  nothing : Selects P [] []
  taken :
      (day : CivilDate) (days selected : List CivilDate)
      → P day
      → Selects P days selected
      → Selects P (day ∷ days) (day ∷ selected)
  passed :
      (day : CivilDate) (days selected : List CivilDate)
      → ¬ P day
      → Selects P days selected
      → Selects P (day ∷ days) selected

on_or_before_iff : (a b : CivilDate) → (on_or_before a b ≡ true) ↔ IsOnOrBefore a b
unfolding on_or_before
on_or_before_iff a b = ground arith

filter-Selects :
    (first last : CivilDate) (days : List CivilDate)
    → Selects (IsInRange first last) days (filter (is_within first last) days)
filter-Selects first last [] = nothing
filter-Selects first last (day ∷ days) = elim (Bool-cases (on_or_before first day)) [
  | inr e ↦ rw e (
      passed day days _ (λ h. let k = (on_or_before_iff first day).1 h.0 in cc)
        (filter-Selects first last days))
  | inl e ↦ elim (Bool-cases (on_or_before day last)) [
    | inl d ↦
        rw (e, d)
          (taken day days _ ((on_or_before_iff first day).0 e, (on_or_before_iff day last).0 d)
            (filter-Selects first last days))
    | inr d ↦
        rw (e, d)
          (passed day days _ (λ h. let k = (on_or_before_iff day last).1 h.1 in cc)
            (filter-Selects first last days))
  ]
]

-- For the first day of a month, `days_of_month` returns the month's days in order, with those from
-- the first day of the range to its last, both included, and no other.
pub days_of_month-Selects :
    (ms first last : CivilDate)
    → IsDate ms
    → ms.day ≡ 1
    → (days : List CivilDate) × (days_of_month ms first last ≡ ok days)
      × Selects (IsInRange first last) (month_days ms (month_length ms.year ms.month) 1) days
unfolding days_of_month
days_of_month-Selects ms first last h at_first =
    let all = month_days ms (month_length ms.year ms.month) 1 in
    let returned =
      days_from-month_days ms first last (month_length ms.year ms.month) 0 at_first (omega arith) in
    (
      filter (is_within first last) all,
      rw (days_in_month_lem ms.year ms.month h.year_from h.year_to h.month_from h.month_to)
          returned,
      filter-Selects first last all,
    )
