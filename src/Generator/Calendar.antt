-- ===== src/Generator/Calendar.antt =====
-- generator/realism/calendar.py: months and days on the civil dates of Python's `datetime`.
pub mod Months
pub mod Days
use nordbank_data_platform.Common.{
  ℕ, zero, suc, ◌+◌, ◌-◌, ◌*◌, ◌/◌, ◌%◌, ◌≤◌, min, ◌≡◌, refl, Bool, true, false, ◌&&◌, ◌||◌, not,
  List, [], ◌∷◌, ltb, leb, ◌==◌, if◌then◌else◌, Error, Result, err, ok,
}
use nordbank_data_platform.Common.{◌>>=◌}
use nordbank_data_platform.Common.Time.{CivilDate, day_length}
use nordbank_data_platform.Common.Int.{ℤ, pos, negsuc, ◌-ℤ◌, ◌+ℤ◌, ◌*ℤ◌, sub_ℕ}

-- The Gregorian calendar.
abbrev pub is_leap : ℕ → Bool
is_leap year = (year % 4 == 0) && (not (year % 100 == 0) || (year % 400 == 0))

unfoldable pub month_length : ℕ → ℕ → ℕ
month_length year month =
    if month == 2
    then (if is_leap year then 29 else 28)
    else if month == 4 || month == 6 || month == 9 || month == 11
    then 30
    else 31

pub record IsDate (d : CivilDate) : Type 0 where
  pub year_from : 1 ≤ d.year
  pub year_to : d.year ≤ 9999
  pub month_from : 1 ≤ d.month
  pub month_to : d.month ≤ 12
  pub day_from : 1 ≤ d.day
  pub day_to : d.day ≤ month_length d.year d.month

abbrev pub between : ℕ → ℕ → ℕ → Bool
between a b n = leb a n && leb n b

-- `dt.date(year, month, day)`, which raises ValueError
unfoldable pub date : ℕ → ℕ → ℕ → Result CivilDate
unfolding month_length
date year month day =
    if between 1 9999 year && between 1 12 month && between 1 (month_length year month) day
    then ok (record { year = year; month = month; day = day })
    else err (Error.other "ValueError")

-- `value - dt.timedelta(days=1)`, which raises OverflowError before the first date
unfoldable pub day_before : CivilDate → Result CivilDate
unfolding month_length
day_before d =
    if ltb 1 d.day
    then ok (record { year = d.year; month = d.month; day = d.day - 1 })
    else if ltb 1 d.month
    then ok (record { year = d.year; month = d.month - 1; day = month_length d.year (d.month - 1) })
    else if ltb 1 d.year
    then ok (record { year = d.year - 1; month = 12; day = 31 })
    else err (Error.other "OverflowError")

-- `value + dt.timedelta(days=1)`
unfoldable pub day_after : CivilDate → Result CivilDate
unfolding month_length
day_after d =
    if ltb d.day (month_length d.year d.month)
    then ok (record { year = d.year; month = d.month; day = suc d.day })
    else if ltb d.month 12
    then ok (record { year = d.year; month = suc d.month; day = 1 })
    else if ltb d.year 9999
    then ok (record { year = suc d.year; month = 1; day = 1 })
    else err (Error.other "OverflowError")

unfoldable pub days_in_month : ℕ → ℕ → Result ℕ
unfolding date day_before
days_in_month year month =
    if month == 12
    then ok 31
    else date year (month + 1) 1 >>= λ first. day_before first >>= λ last. ok last.day

-- A number of months counted from year 0, split as `divmod` splits it; before year 0 no date is.
unfoldable pub month_of_total : ℤ → ℕ → Result CivilDate
unfolding days_in_month date
month_of_total (negsuc _) day = err (Error.other "ValueError")
month_of_total (pos total) day = days_in_month (total / 12) (total % 12 + 1) >>= λ days.
    date (total / 12) (total % 12 + 1) (min day days)

unfoldable pub add_months : CivilDate → ℤ → Result CivilDate
unfolding month_of_total ◌+ℤ◌
add_months value months =
    month_of_total (pos (value.year * 12 + (value.month - 1)) +ℤ months) value.day

unfoldable pub month_index : CivilDate → CivilDate → ℤ
unfolding ◌+ℤ◌ ◌-ℤ◌ ◌*ℤ◌
month_index start value =
    (pos value.year -ℤ pos start.year) *ℤ pos 12 +ℤ (pos value.month -ℤ pos start.month)

unfoldable pub clamp_day_of_month : ℕ → ℕ → ℕ → Result CivilDate
unfolding days_in_month date
clamp_day_of_month year month day =
    days_in_month year month >>= λ days. date year month (min day days)

-- `a <= b` on dates
unfoldable pub on_or_before : CivilDate → CivilDate → Bool
on_or_before a b =
    ltb a.year b.year
    || (a.year == b.year && (ltb a.month b.month || (a.month == b.month && leb a.day b.day)))

-- `value + dt.timedelta(days=n)`
unfoldable pub plus_days : CivilDate → ℕ → Result CivilDate
unfolding day_after
plus_days value zero = ok value
plus_days value (suc n) = plus_days value n >>= day_after

abbrev pub is_within : CivilDate → CivilDate → CivilDate → Bool
is_within first last day = on_or_before first day && on_or_before day last

-- The body of the loop from an offset on, for a number of offsets.
unfoldable pub days_from : CivilDate → CivilDate → CivilDate → ℕ → ℕ → Result (List CivilDate)
unfolding plus_days on_or_before
days_from month_start first last zero offset = ok []
days_from month_start first last (suc n) offset =
    let rest = days_from month_start first last n (suc offset) in
    plus_days month_start offset >>= λ day.
    if not (day.month == month_start.month)
    then ok []
    else (rest >>= λ out. ok (if is_within first last day then day ∷ out else out))

unfoldable pub days_of_month : CivilDate → CivilDate → CivilDate → Result (List CivilDate)
unfolding days_in_month days_from
days_of_month month_start first last = days_in_month month_start.year month_start.month >>= λ count.
    days_from month_start first last count 0

calendar_runs :
    (add_months (record { year = 2024; month = 1; day = 31 }) (pos 1)
      ≡ ok (record { year = 2024; month = 2; day = 29 }))
    × (add_months (record { year = 2026; month = 7; day = 20 }) (negsuc 17)
        ≡ ok (record { year = 2025; month = 1; day = 20 }))
    × (month_index
          (record { year = 2024; month = 12; day = 31 })
          (record { year = 2025; month = 1; day = 20 })
        ≡ pos 1)
unfolding add_months month_index
calendar_runs = (refl, refl, refl)
