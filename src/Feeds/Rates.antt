-- ===== src/Feeds/Rates.antt =====
-- airflow/plugins/nordbank_ops/feeds/fx.py: the reference rates, one request per date, all of an
-- interval or nothing of it.
pub mod Dates
pub mod Requests
pub mod Request
pub mod Whole
pub mod Raised
mod Tests
use nordbank_data_platform.Common.{
  ℕ, zero, suc, String, ◌+◌, ◌-◌, ◌==◌, Bool, true, false, not, ltb, Option, none, some, List, [],
  ◌∷◌, ◌++◌, map, filter, length, has_name, sorted_set, str_of, str_eq, if◌then◌else◌, Result, ok,
  err, ◌>>=◌, ◌>>◌, missing_key, other, Option-cases,
}
use Prim.Native.Char.{code}
use Prim.Native.String.{◌++◌ as ◌+++◌}
use nordbank_data_platform.Common.Dict.{Dict, keys}
use nordbank_data_platform.Common.Time.{isoformat}
use nordbank_data_platform.Drift.{DriftObservation}
use nordbank_data_platform.Feeds.Fetch.{
  FetchResult, Attempt, Fetched, returned, gave_up, is_ok_result, attempt_count,
}
use nordbank_data_platform.Feeds.Json.{
  Json, object, null, Members, member, end, value_of, names, type_name, is_kind,
}

-- `[watermark + timedelta(days=n) for n in range(1, count + 1)]`
abbrev pub days_after : ℕ → ℕ → List ℕ
days_after watermark zero = []
days_after watermark (suc n) = suc watermark ∷ days_after (suc watermark) n

unfoldable pub dates_to_fetch : Option ℕ → ℕ → List ℕ
dates_to_fetch none day = day ∷ []
dates_to_fetch (some watermark) day =
    if ltb watermark day then days_after watermark (day - watermark) else day ∷ []

-- An observation of drift, with the action that the feed takes.
pub record FeedDrift : Type 0 where
  pub column : String
  pub kind : String
  pub detail : String
  pub action : String

-- Why a response breaks the contract; the message's text is not modelled, what it names is.
pub data Breaking : Type 0 where
  not_an_object : Breaking
  shape_changed : List String → List String → Breaking

-- `response[key]` is there and is not of the kind expected.
abbrev pub is_wrong : Option Json → String → Bool
is_wrong none kind = false
is_wrong (some v) kind = not (is_kind v kind)

abbrev pub wrong_keys : Members → Dict String → List String
wrong_keys response [] = []
wrong_keys response ((key, kind) ∷ expected) =
    let rest = wrong_keys response expected in
    if is_wrong (value_of key response) kind then key ∷ rest else rest

abbrev text_of : Option String → String
text_of none = ""
text_of (some t) = t

abbrev name_of : Option Json → String
name_of none = ""
name_of (some v) = type_name v

abbrev kind_of : String → Dict String → String
kind_of key [] = ""
kind_of key ((k, kind) ∷ expected) = if str_eq k key then kind else kind_of key expected

abbrev pub broken : List String → List String → Option Breaking
broken [] [] = none
broken (m ∷ ms) wrong = some (shape_changed (m ∷ ms) wrong)
broken [] (k ∷ ks) = some (shape_changed [] (k ∷ ks))

unfoldable pub shape_drift : Members → Dict String → List FeedDrift × Option Breaking
unfolding is_kind
shape_drift response expected =
    let unknown = filter (λ k. not (has_name k (keys expected))) (names response) in
    let missing = filter (λ k. not (has_name k (names response))) (keys expected) in
    let wrong = wrong_keys response expected in
    (
      map
            (λ k. record {
              column = k;
              kind = "additive";
              detail = "a response key the contract does not describe";
              action = "logged, not landed";
            })
            unknown
          ++ (map
                (λ k. record {
                  column = k;
                  kind = "removed_column";
                  detail = "a response key the contract requires is absent";
                  action = "batch failed";
                })
                missing
              ++ map
                  (λ k. record {
                    column = k;
                    kind = "type_change";
                    detail =
                        "expected "
                        +++ (kind_of k expected +++ (", got " +++ name_of (value_of k response)));
                    action = "batch failed";
                  })
                  wrong),
      broken missing wrong,
    )

pub record Rate : Type 0 where
  pub rate_date : ℕ
  pub base_currency : Json
  pub quote_currency : String
  pub rate : Json

-- What one date's response comes to.
pub record Answer : Type 0 where
  pub records : List Rate
  pub payloads : List String
  pub drift : List FeedDrift
  pub breaking : Option Breaking

-- What the feed uses of `json` and `datetime`, and the text of a value where it is truthy.
pub record Formats : Type 0 where
  pub loads : String → Result Json
  pub parse_date : Json → Result ℕ
  pub shown : Json → Option String

abbrev pub required : String → Option Json → Result Json
required key none = err (missing_key key)
required key (some v) = ok v

abbrev pub members_of : Json → Result Members
members_of (object ms) = ok ms
members_of _ = err (other "TypeError")

abbrev pub value_or_null : Option Json → Json
value_or_null none = null
value_or_null (some v) = v

abbrev pub rates_of : ℕ → Json → Members → List String → List Rate
rates_of served base rates [] = []
rates_of served base rates (currency ∷ currencies) =
    (record {
      rate_date = served;
      base_currency = base;
      quote_currency = currency;
      rate = value_or_null (value_of currency rates);
    })
    ∷ rates_of served base rates currencies

abbrev pub repeat : {A B : Type 0} → A → List B → List A
repeat a [] = []
repeat a (b ∷ bs) = a ∷ repeat a bs

-- `response["base"]` is read once per currency.
abbrev pub base_for : Members → Members → Result Json
base_for response end = ok null
base_for response (member k v ms) = required "base" (value_of "base" response)

abbrev pub served_answer : String → ℕ → List FeedDrift → Members → Json → Answer
served_answer body served drift rates base = record {
  records = rates_of served base rates (sorted_set (names rates));
  payloads = repeat body (sorted_set (names rates));
  drift = drift;
  breaking = none;
}

abbrev pub empty_answer : List FeedDrift → Option Breaking → Answer
empty_answer drift breaking = record {
  records = [];
  payloads = [];
  drift = drift;
  breaking = breaking;
}

module _ (f : Formats) (expected : Dict String) where
  -- A response for the date requested lands its rates; one for another date lands nothing.
  unfoldable pub rates_served : String → ℕ → Members → List FeedDrift → ℕ → Result Answer
  rates_served body requested response drift served =
      if not (served == requested)
      then ok (empty_answer drift none)
      else (required "rates" (value_of "rates" response) >>= λ rates.
          members_of rates >>= λ entries.
          base_for response entries >>= λ base. ok (served_answer body served drift entries base))

  unfoldable pub parse_members :
      String → ℕ → Members → List FeedDrift × Option Breaking → Result Answer
  unfolding rates_served
  parse_members body requested response (drift, some b) = ok (empty_answer drift (some b))
  parse_members body requested response (drift, none) = do
    date ← required "date" (value_of "date" response)
    served ← f.parse_date date
    rates_served body requested response drift served

  abbrev not_object_drift : Json → FeedDrift
  not_object_drift v = record {
    column = "*";
    kind = "type_change";
    detail = "the response is a JSON " +++ (type_name v +++ ", not an object");
    action = "batch failed";
  }

  unfoldable pub parse_json : String → ℕ → Json → Result Answer
  unfolding parse_members shape_drift
  parse_json body requested (object response) =
      parse_members body requested response (shape_drift response expected)
  parse_json body requested v = ok (empty_answer (not_object_drift v ∷ []) (some not_an_object))

  unfoldable pub parse_response : String → ℕ → Result Answer
  unfolding parse_json
  parse_response body requested = f.loads body >>= λ v. parse_json body requested v
