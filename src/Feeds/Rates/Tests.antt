-- ===== src/Feeds/Rates/Tests.antt =====
-- The rates of three dates: one published, one answered with an earlier date, and one that failed.
use nordbank_data_platform.Common.{
  ℕ, String, ◌≡◌, refl, none, some, List, [], ◌∷◌, map, ok, err, Result, str_eq, if◌then◌else◌,
  sorted_set,
}
use nordbank_data_platform.Common.Dict.{Dict}
use nordbank_data_platform.Common.Time.{isoformat}
use nordbank_data_platform.Feeds.Fetch.{Fetched, returned, gave_up}
use nordbank_data_platform.Feeds.Json.{Json, object, text, decimal, member, end}
use nordbank_data_platform.Common.{other}
use nordbank_data_platform.Feeds.Rates.{Formats, dates_to_fetch}
use nordbank_data_platform.Feeds.Rates.Dates.{Requests, dates_to_fetch-Requests}
use nordbank_data_platform.Feeds.Rates.Requests.{Interval, RequestOutcome, fetch_dates}
use nordbank_data_platform.Feeds.Rates.Whole.{IsLogged, IsWhole, fetch_dates-IsWhole}

abbrev expected : Dict String
expected = ("base", "string") ∷ ("date", "date") ∷ ("rates", "object") ∷ []

-- Friday 2026-07-24 is published.
abbrev friday : ℕ
friday = 739821

abbrev friday_rates : Json
friday_rates = object (
    member "base" (text "EUR") (
      member "date" (text "2026-07-24")
        (member "rates" (object (member "USD" (decimal "1.1") end)) end)))

abbrev formats : Formats
formats = record {
  loads = λ _. ok friday_rates;
  parse_date = λ _. ok friday;
  shown = λ _. some "2026-07-24";
}

abbrev answers : String → Fetched
answers url =
    returned
      (record { url = url; status = some 200; body = some "{}"; attempts = []; error = none })

abbrev refuses : String → Fetched
refuses url =
    if str_eq url "https://api/v1/2026-07-25"
    then gave_up (record { url = url; status = none; body = none; attempts = []; error = none })
    else answers url

abbrev kept_outcomes : Result Interval → List (String × (String × ℕ))
kept_outcomes (ok i) = map (λ (o : RequestOutcome). (o.key, (o.outcome, o.rows))) i.outcomes
kept_outcomes (err e) = []

fetch_dates_run :
    (kept_outcomes (
        fetch_dates formats expected "https://api/v1/" answers
          (dates_to_fetch (some 739820) 739822))
      ≡ ("2026-07-24", ("landed", 1)) ∷ ("2026-07-25", ("absent_no_publication", 0)) ∷ [])
    × (kept_outcomes (
          fetch_dates formats expected "https://api/v1/" refuses
            (dates_to_fetch (some 739820) 739822))
        ≡ ("2026-07-24", ("discarded", 0)) ∷ ("2026-07-25", ("failed", 0)) ∷ [])
unfolding fetch_dates dates_to_fetch sorted_set isoformat
fetch_dates_run = (refl, refl)

dates_to_fetch-Requests_example :
    Requests (some 739818) 739821 (dates_to_fetch (some 739818) 739821)
dates_to_fetch-Requests_example = dates_to_fetch-Requests (some 739818) 739821

abbrev value_of_result : Result Interval → Interval
value_of_result (ok i) = i
value_of_result (err e) = record {
  records = [];
  payloads = [];
  drift = [];
  breaking = none;
  outcomes = [];
  failure = none;
}

abbrev refused : Interval
refused =
    value_of_result (fetch_dates formats expected "https://api/v1/" refuses (739821 ∷ 739822 ∷ []))

refused_runs :
    fetch_dates formats expected "https://api/v1/" refuses (739821 ∷ 739822 ∷ []) ≡ ok refused
unfolding fetch_dates isoformat sorted_set
refused_runs = refl

fetch_dates-IsWhole_example : IsLogged (739821 ∷ 739822 ∷ []) refused × IsWhole refused
fetch_dates-IsWhole_example =
    fetch_dates-IsWhole formats expected "https://api/v1/" refuses (739821 ∷ 739822 ∷ []) refused
      refused_runs

-- Bodies that are no JSON.
abbrev unreadable : Formats
unreadable = record formats { loads = λ _. err (other "JSONDecodeError") }
