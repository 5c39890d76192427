-- ===== src/Feeds/Rates/Requests.antt =====
-- airflow/plugins/nordbank_ops/feeds/fx.py: `fetch_dates`, the requests of an interval of dates and
-- what their outcomes come to.
use nordbank_data_platform.Common.{
  ℕ, String, ◌-◌, ◌==◌, Bool, false, not, Option, none, some, List, [], ◌∷◌, ◌++◌, map, filter,
  length, str_of, str_eq, if◌then◌else◌, Result, ok, ◌>>=◌,
}
use Prim.Native.Char.{code}
use Prim.Native.String.{◌++◌ as ◌+++◌}
use nordbank_data_platform.Common.Dict.{Dict}
use nordbank_data_platform.Common.Time.{isoformat}
use nordbank_data_platform.Feeds.Fetch.{
  FetchResult, Attempt, Fetched, returned, gave_up, is_ok_result, attempt_count,
}
use nordbank_data_platform.Feeds.Json.{Json, object, value_of}
use nordbank_data_platform.Feeds.Rates.{Rate, FeedDrift, Breaking, Formats, Answer, parse_response}

abbrev pub landed : String
landed = "landed"

abbrev pub absent : String
absent = "absent_no_publication"

abbrev pub failed : String
failed = "failed"

abbrev pub discarded : String
discarded = "discarded"

pub record RequestOutcome : Type 0 where
  pub key : String
  pub outcome : String
  pub status : Option ℕ
  pub attempts : ℕ
  pub rows : ℕ
  pub detail : Option String

abbrev pub has_outcome : String → RequestOutcome → Bool
has_outcome name o = str_eq o.outcome name

-- `Fetched`, with the parts of its `Parsed` that this feed fills.
pub record Interval : Type 0 where
  pub records : List Rate
  pub payloads : List String
  pub drift : List FeedDrift
  pub breaking : Option Breaking
  pub outcomes : List RequestOutcome
  pub failure : Option String

-- `base_url.rstrip('/')`
abbrev pub without_slash : String → String
without_slash String.[] = ""
without_slash (String.◌∷◌ c s) =
    let rest = without_slash s in
    if code c == b'/' then (if str_eq rest "" then "" else String.◌∷◌ c rest) else String.◌∷◌ c rest

unfoldable pub request_url : String → ℕ → String
request_url base_url requested = without_slash base_url +++ ("/" +++ isoformat requested)

-- The error, or the status, of the last attempt that `FetchFailedError` was raised with.
abbrev pub last_of : List Attempt → Option Attempt
last_of [] = none
last_of (a ∷ []) = some a
last_of (a ∷ b ∷ rest) = last_of (b ∷ rest)

abbrev pub status_of : Option Attempt → Option ℕ
status_of none = none
status_of (some a) = a.status

abbrev pub status_text : Option ℕ → String
status_text none = "HTTP None"
status_text (some s) = "HTTP " +++ str_of s

abbrev pub reason_of : Option Attempt → String
reason_of none = "no attempt made"
reason_of (some a) = elim a.error [ none ↦ status_text a.status | some e ↦ e ]

abbrev pub failure_text : FetchResult → String
failure_text r =
    r.url
    +++ (": gave up after "
        +++ (str_of (attempt_count r) +++ (" attempt(s): " +++ reason_of (last_of r.attempts))))

-- One request's outcome, with what it adds to the interval.
pub record Requested : Type 0 where
  pub outcome : RequestOutcome
  pub answer : Answer

abbrev pub no_answer : Answer
no_answer = record { records = []; payloads = []; drift = []; breaking = none }

abbrev pub shown_date : Option String → String
shown_date none = "no date"
shown_date (some t) = t

module _ (f : Formats) (expected : Dict String) (base_url : String) (fetch : String → Fetched) where
  abbrev pub date_shown : Option Json → String
  date_shown none = "no date"
  date_shown (some v) = shown_date (f.shown v)

  -- `_answered_date`
  abbrev pub answered_date : Result Json → String
  answered_date (ok (object response)) = date_shown (value_of "date" response)
  answered_date _ = "an unreadable body"

  abbrev pub body_text : Option String → String
  body_text none = ""
  body_text (some b) = b

  abbrev pub answered_outcome : FetchResult → ℕ → List Rate → RequestOutcome
  answered_outcome r requested [] = record {
    key = isoformat requested;
    outcome = absent;
    status = r.status;
    attempts = attempt_count r;
    rows = 0;
    detail =
        some (
          "answered with " +++ (answered_date (f.loads (body_text r.body)) +++ "; nothing landed"));
  }
  answered_outcome r requested (x ∷ xs) = record {
    key = isoformat requested;
    outcome = landed;
    status = r.status;
    attempts = attempt_count r;
    rows = length (x ∷ xs);
    detail = none;
  }

  abbrev pub unanswered : ℕ → String → Option ℕ → ℕ → String → Requested
  unanswered requested outcome status attempts detail = record {
    outcome = record {
      key = isoformat requested;
      outcome = outcome;
      status = status;
      attempts = attempts;
      rows = 0;
      detail = some detail;
    };
    answer = no_answer;
  }

  abbrev pub is_status : ℕ → Option ℕ → Bool
  is_status n none = false
  is_status n (some s) = s == n

  unfoldable pub take_result : ℕ → FetchResult → Result Requested
  unfolding parse_response
  take_result requested r =
      if is_status 404 r.status
      then ok (unanswered requested absent (some 404) (attempt_count r) "beyond published data")
      else if not (is_ok_result r)
      then ok (unanswered requested failed r.status (attempt_count r) (status_text r.status))
      else (parse_response f expected (body_text r.body) requested >>= λ answer.
          ok (record { outcome = answered_outcome r requested answer.records; answer = answer }))

  unfoldable pub take_fetched : ℕ → Fetched → Result Requested
  unfolding take_result
  take_fetched requested (gave_up r) = ok (
      unanswered requested failed (status_of (last_of r.attempts)) (attempt_count r)
        (failure_text r))
  take_fetched requested (returned r) = take_result requested r

  -- A later date's breaking reason takes the place of an earlier one's.
  abbrev pub later : Option Breaking → Option Breaking → Option Breaking
  later first none = first
  later first (some b) = some b

  abbrev pub with_request : Requested → Interval → Interval
  with_request q rest = record {
    records = q.answer.records ++ rest.records;
    payloads = q.answer.payloads ++ rest.payloads;
    drift = q.answer.drift ++ rest.drift;
    breaking = later q.answer.breaking rest.breaking;
    outcomes = q.outcome ∷ rest.outcomes;
    failure = none;
  }

  unfoldable pub request_dates : List ℕ → Result Interval
  unfolding take_fetched request_url
  request_dates [] = ok (record {
    records = [];
    payloads = [];
    drift = [];
    breaking = none;
    outcomes = [];
    failure = none;
  })
  request_dates (requested ∷ dates) =
      take_fetched requested (fetch (request_url base_url requested)) >>= λ q.
      request_dates dates >>= λ rest. ok (with_request q rest)

  abbrev pub discard : RequestOutcome → RequestOutcome
  discard o =
      if has_outcome landed o
      then record o {
        outcome = discarded;
        rows = 0;
        detail = some "answered; not landed, because the interval failed";
      }
      else o

  abbrev pub failed_text : RequestOutcome → String
  failed_text o = o.key +++ (": " +++ elim o.detail [ none ↦ "None" | some t ↦ t ])

  abbrev pub joined : List RequestOutcome → String
  joined [] = ""
  joined (o ∷ []) = failed_text o
  joined (o ∷ p ∷ rest) = failed_text o +++ ("; " +++ joined (p ∷ rest))

  abbrev pub interval_failure : List RequestOutcome → List RequestOutcome → String
  interval_failure outcomes failures =
      str_of (length outcomes - length failures)
      +++ (" of " +++ (str_of (length outcomes) +++ (" date(s) answered; " +++ joined failures)))

  -- One failure discards all that the interval answered.
  unfoldable pub settle_interval : Interval → List RequestOutcome → Interval
  settle_interval i [] = i
  settle_interval i (o ∷ failures) = record i {
    records = [];
    payloads = [];
    outcomes = map discard i.outcomes;
    failure = some (interval_failure i.outcomes (o ∷ failures));
  }

  unfoldable pub fetch_dates : List ℕ → Result Interval
  unfolding request_dates settle_interval
  fetch_dates dates =
      request_dates dates >>= λ i. ok (settle_interval i (filter (has_outcome failed) i.outcomes))
