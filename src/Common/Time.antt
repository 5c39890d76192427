-- ===== src/Common/Time.antt =====
-- Dates and timestamps of Python's `datetime`, in UTC. A date is its proleptic ordinal (1 is
-- 0001-01-01); a timestamp is the microseconds since the start of that day.
use Prim.Native.Nat.{ℕ, ◌+◌, ◌-◌, ◌*◌, ◌/◌, ◌%◌}
use Prim.Native.String.{String, ◌++◌}
use mathlib.Core.Path.{◌≡◌, refl}
use nordbank_data_platform.Common.Tests.{ltb, leb, if◌then◌else◌}
use nordbank_data_platform.Common.Text.{str_of, pad_two}

abbrev pub day_length : ℕ
day_length = 86400000000

abbrev pub midnight : ℕ → ℕ
midnight ordinal = (ordinal - 1) * day_length

abbrev pub date_of : ℕ → ℕ
date_of t = t / day_length + 1

pub record CivilDate : Type 0 where
  pub year : ℕ
  pub month : ℕ
  pub day : ℕ

-- Counted from March, so that the leap day is the last of its year.
unfoldable pub civil : ℕ → CivilDate
civil ordinal =
    let z = ordinal + 305 in
    let era = z / 146097 in
    let doe = z % 146097 in
    let yoe = (doe + doe / 36524 - doe / 1460 - doe / 146096) / 365 in
    let doy = doe - (365 * yoe + yoe / 4 - yoe / 100) in
    let mp = (5 * doy + 2) / 153 in
    let day = doy - (153 * mp + 2) / 5 + 1 in
    let month = if ltb mp 10 then mp + 3 else mp - 9 in
    let year = if leb month 2 then yoe + era * 400 + 1 else yoe + era * 400 in
    record { year = year; month = month; day = day }

-- `date.isoformat()`, for years of four digits
unfoldable pub isoformat : ℕ → String
unfolding civil str_of pad_two
isoformat ordinal =
    let d = civil ordinal in str_of d.year ++ "-" ++ pad_two d.month ++ "-" ++ pad_two d.day

-- `f"{t:%Y%m%dT%H%M%S}"`
unfoldable pub compact_stamp : ℕ → String
unfolding civil str_of pad_two
compact_stamp t =
    let d = civil (date_of t) in
    let seconds = t % day_length / 1000000 in
    str_of d.year
    ++ pad_two d.month
    ++ pad_two d.day
    ++ "T"
    ++ pad_two (seconds / 3600)
    ++ pad_two (seconds / 60 % 60)
    ++ pad_two (seconds % 60)

isoformat_runs :
    (isoformat 738945 ≡ "2024-02-29")
    × (isoformat 730485 ≡ "2000-12-31")
    × (isoformat 739310 ≡ "2025-02-28")
unfolding isoformat
isoformat_runs = (refl, refl, refl)

compact_stamp_runs : compact_stamp (midnight 739817 + 3723000000) ≡ "20260720T010203"
unfolding compact_stamp
compact_stamp_runs = refl
