-- ===== src/Generator/Tests.antt =====
-- Runs of the generator's own arithmetic on concrete loans and dates.
use nordbank_data_platform.Common.{
  ℕ, zero, suc, ◌*◌, ◌+◌, ◌-◌, ◌≡◌, refl, arith, List, [], ◌∷◌, map, ok, ◌>>=◌,
}
use nordbank_data_platform.Common.Time.{CivilDate}
use nordbank_data_platform.Common.Int.{pos, ◌+ℤ◌}
use nordbank_data_platform.Generator.Money.{
  Decimal, of_int, of_cents, nearest_cents, times, hundreds,
}
use nordbank_data_platform.Generator.Calendar.{IsDate, month_length, add_months, days_of_month}
use nordbank_data_platform.Generator.Calendar.Months.{add_months-IsMonthLater, IsMonthLater}
use nordbank_data_platform.Generator.Calendar.Days.{
  month_days, IsInRange, Selects, days_of_month-Selects,
}
use nordbank_data_platform.Generator.Lending.{Installment, annuity_payment, schedule}
use nordbank_data_platform.Generator.Lending.Plan.{IsPlan, schedule-IsPlan}

abbrev last_of_january : CivilDate
last_of_january = record { year = 2024; month = 1; day = 31 }

abbrev power_by_products : Decimal → ℕ → Decimal
power_by_products x zero = of_int 1
power_by_products x (suc n) = times (power_by_products x n) x

abbrev six_percent : Decimal
six_percent = record { unscaled = pos 6; scale = 2 }

last_of_january-IsDate : IsDate last_of_january
unfolding month_length
last_of_january-IsDate = record {
  year_from = omega arith;
  year_to = omega arith;
  month_from = omega arith;
  month_to = omega arith;
  day_from = omega arith;
  day_to = omega arith;
}

payment_runs :
    (annuity_payment power_by_products (of_cents (pos 120000)) six_percent 3
      ≡ ok (of_cents (pos 40401)))
unfolding annuity_payment times hundreds
payment_runs = refl

schedule_runs :
    (schedule power_by_products (of_cents (pos 120000)) six_percent 3 last_of_january >>= λ plan.
    ok (map (λ x. nearest_cents x.principal_component) plan))
    ≡ ok (pos 39801 ∷ pos 40000 ∷ pos 40199 ∷ [])
unfolding schedule times hundreds
schedule_runs = refl

schedule-IsPlan_example :
    (plan : List Installment) × (schedule power_by_products
        (of_cents (pos 120000))
        six_percent
        3
        last_of_january
      ≡ ok plan)
    × IsPlan (of_cents (pos 120000)) 3 last_of_january plan
schedule-IsPlan_example =
    schedule-IsPlan power_by_products six_percent 3 last_of_january (pos 120000) payment_runs
      last_of_january-IsDate (omega arith)

a_month_on : pos (2024 * 12 + (1 - 1)) +ℤ pos 13 ≡ pos 24301
unfolding ◌+ℤ◌
a_month_on = refl

add_months-IsMonthLater_example :
    (e : CivilDate) × (add_months last_of_january (pos 13) ≡ ok e)
    × IsMonthLater last_of_january (pos 13) e
add_months-IsMonthLater_example =
    add_months-IsMonthLater last_of_january (pos 13) 24301 last_of_january-IsDate a_month_on
      (omega arith) (omega arith)

abbrev february : CivilDate
february = record { year = 2024; month = 2; day = 1 }

february-IsDate : IsDate february
unfolding month_length
february-IsDate = record {
  year_from = omega arith;
  year_to = omega arith;
  month_from = omega arith;
  month_to = omega arith;
  day_from = omega arith;
  day_to = omega arith;
}

days_of_month-Selects_example :
    (days : List CivilDate) × (days_of_month february last_of_january
        (record { year = 2024; month = 2; day = 3 })
      ≡ ok days)
    × Selects
        (IsInRange last_of_january (record { year = 2024; month = 2; day = 3 }))
        (month_days february (month_length 2024 2) 1)
        days
days_of_month-Selects_example =
    days_of_month-Selects february last_of_january (record { year = 2024; month = 2; day = 3 })
      february-IsDate refl
