-- ===== src/Generator/Calendar/Months.antt =====
-- The calendar's months: the length the code computes is the Gregorian one, and a date moved by
-- months is the date it should be.
use nordbank_data_platform.Common.{
  ◌≢◌, Bool-cases, ==_iff, ◌==◌, inl, inr, ℕ, ◌+◌, ◌-◌, ◌*◌, ◌/◌, ◌%◌, ◌≤◌, ◌<◌, min, ◌≡◌, refl, ap,
  arith, true, ltb, ok,
}
use nordbank_data_platform.Common.Time.{CivilDate}
use nordbank_data_platform.Common.Int.{
  ℤ, pos, ◌+ℤ◌, pos_part, neg_part, eq_of_parts, +ℤ_parts, -ℤ_parts, ◌-ℤ◌, ◌*ℤ◌,
}
use nordbank_data_platform.Generator.Calendar.{
  IsDate, date, days_in_month, day_before, month_length, between, add_months, month_index,
}

between-true : (a b n : ℕ) → a ≤ n → n ≤ b → between a b n ≡ true
between-true a b n h k = ground arith

month_length_bounds : (y m : ℕ) → (28 ≤ month_length y m) × (month_length y m ≤ 31)
unfolding month_length
month_length_bounds y m = ground arith

pub date-IsDate : (d : CivilDate) → IsDate d → date d.year d.month d.day ≡ ok d
unfolding date
date-IsDate d h = rw (between-true 1 9999 d.year h.year_from h.year_to) (
    rw (between-true 1 12 d.month h.month_from h.month_to)
      (rw (between-true 1 (month_length d.year d.month) d.day h.day_from h.day_to) refl))

day_before-first :
    (y m : ℕ)
    → 1 ≤ m
    → day_before (record { year = y; month = m + 1; day = 1 })
      ≡ ok (record { year = y; month = m; day = month_length y m })
unfolding day_before
day_before-first y m h =
    let later : ltb 1 (m + 1) ≡ true = ground arith in
    let back : m + 1 - 1 ≡ m = omega arith in rw later (rw back refl)

first-IsDate :
    (y m : ℕ) → 1 ≤ y → y ≤ 9999 → 1 ≤ m → m ≤ 12 → IsDate (record { year = y; month = m; day = 1 })
first-IsDate y m y1 y2 m1 m2 = record {
  year_from = y1;
  year_to = y2;
  month_from = m1;
  month_to = m2;
  day_from = omega arith;
  day_to = omega (arith, month_length_bounds y m);
}

december : (y m : ℕ) → m ≡ 12 → 31 ≡ month_length y m
unfolding month_length
december y m h = rw h refl

pub days_in_month_lem :
    (y m : ℕ) → 1 ≤ y → y ≤ 9999 → 1 ≤ m → m ≤ 12 → days_in_month y m ≡ ok (month_length y m)
unfolding days_in_month
days_in_month_lem y m y1 y2 m1 m2 = elim (Bool-cases (m == 12)) [
  | inl e ↦ rw e (ap ok (december y m ((==_iff m 12).0 e)))
  | inr e ↦
      let not_december : m ≢ 12 = λ at. let t : (m == 12) ≡ true = (==_iff m 12).1 at in cc in
      let first_of_next : CivilDate = record { year = y; month = m + 1; day = 1 } in
      rw e (
        rw (date-IsDate first_of_next (first-IsDate y (m + 1) y1 y2 (omega arith) (omega arith)))
          (rw (day_before-first y m m1) refl))
]

clamped-IsDate :
    (y m day : ℕ)
    → 1 ≤ y
    → y ≤ 9999
    → 1 ≤ m
    → m ≤ 12
    → 1 ≤ day
    → IsDate (record { year = y; month = m; day = min day (month_length y m) })
clamped-IsDate y m day y1 y2 m1 m2 d1 = record {
  year_from = y1;
  year_to = y2;
  month_from = m1;
  month_to = m2;
  day_from = omega (arith, month_length_bounds y m);
  day_to = omega arith;
}

-- The date `months` later than d, and if its month is too short, the last of it.
pub record IsMonthLater (d : CivilDate) (months : ℤ) (e : CivilDate) : Type 0 where
  pub exists : IsDate e
  pub same_day : e.day ≡ min d.day (month_length e.year e.month)
  pub months_on : month_index d e ≡ months

add_months-at :
    (d : CivilDate) (months : ℤ) (total days : ℕ) {e : CivilDate}
    → pos (d.year * 12 + (d.month - 1)) +ℤ months ≡ pos total
    → days_in_month (total / 12) (total % 12 + 1) ≡ ok days
    → date (total / 12) (total % 12 + 1) (min d.day days) ≡ ok e
    → add_months d months ≡ ok e
unfolding add_months
add_months-at d months total days at_total length_of there = rw at_total (rw length_of there)

twelvefold_parts :
    (a : ℤ) → pos_part (a *ℤ pos 12) + 12 * neg_part a ≡ neg_part (a *ℤ pos 12) + 12 * pos_part a
unfolding ◌*ℤ◌
twelvefold_parts a = ground arith

month_index-total :
    (d : CivilDate) (months : ℤ) (total day : ℕ)
    → pos (d.year * 12 + (d.month - 1)) +ℤ months ≡ pos total
    → 1 ≤ d.month
    → month_index d (record { year = total / 12; month = total % 12 + 1; day = day }) ≡ months
unfolding month_index
month_index-total d months total day at_total h =
    let years : ℤ = pos (total / 12) -ℤ pos d.year in
    let rest : ℤ = pos (total % 12 + 1) -ℤ pos d.month in
    eq_of_parts (years *ℤ pos 12 +ℤ rest) months (
      omega (
        arith,
        +ℤ_parts (years *ℤ pos 12) rest,
        twelvefold_parts years,
        -ℤ_parts (pos (total / 12)) (pos d.year),
        -ℤ_parts (pos (total % 12 + 1)) (pos d.month),
        +ℤ_parts (pos (d.year * 12 + (d.month - 1))) months,
        ap pos_part at_total,
        ap neg_part at_total,
      ))

-- For an existing date and a number of months, negative or not, that lead to a month of the years
-- 1 to 9999, `add_months` returns, and its date exists, has the month index of that many months,
-- and the same day, or the last of its month if that is earlier.
pub add_months-IsMonthLater :
    (d : CivilDate) (months : ℤ) (total : ℕ)
    → IsDate d
    → pos (d.year * 12 + (d.month - 1)) +ℤ months ≡ pos total
    → 12 ≤ total
    → total < 120000
    → (e : CivilDate) × (add_months d months ≡ ok e) × IsMonthLater d months e
add_months-IsMonthLater d months total h at_total from to =
    let year : ℕ = total / 12 in
    let month : ℕ = total % 12 + 1 in
    let e : CivilDate = record {
      year = year;
      month = month;
      day = min d.day (month_length year month);
    } in
    let y1 : 1 ≤ year = omega arith in
    let y2 : year ≤ 9999 = omega arith in
    let m1 : 1 ≤ month = omega arith in
    let m2 : month ≤ 12 = omega arith in
    let existing : IsDate e = clamped-IsDate year month d.day y1 y2 m1 m2 h.day_from in
    let there : add_months d months ≡ ok e =
      add_months-at d months total (month_length year month) at_total
        (days_in_month_lem year month y1 y2 m1 m2) (date-IsDate e existing) in
    (
      e,
      there,
      record {
        exists = existing;
        same_day = refl;
        months_on =
            month_index-total d months total (min d.day (month_length year month)) at_total
              h.month_from;
      },
    )
