-- ===== src/Feeds/Rates/Request.antt =====
-- What one date's request comes to: the rates of that date, or none.
use nordbank_data_platform.Common.{
  ℕ, suc, String, ◌==◌, ==_iff, ◌≡◌, refl, ap, inl, inr, false, Option, none, some, List, [], ◌∷◌,
  length, All, sorted_set, Bool-cases, ok, bind-eq-ok, ok-injective,
}
use mathlib.Core.Path.{subst}
use nordbank_data_platform.Common.Dict.{Dict}
use nordbank_data_platform.Common.Time.{isoformat}
use nordbank_data_platform.Feeds.Fetch.{FetchResult, Fetched, returned, gave_up, is_ok_result}
use nordbank_data_platform.Feeds.Json.{
  Json, object, null, boolean, integer, decimal, text, array, Members, value_of, names,
}
use nordbank_data_platform.Feeds.Rates.{
  Rate, FeedDrift, Breaking, Formats, Answer, required, members_of, rates_of, repeat, rates_served,
  parse_members, parse_json, parse_response, shape_drift, base_for, served_answer, empty_answer,
}
use nordbank_data_platform.Feeds.Rates.Requests.{
  Requested, landed, has_outcome, take_result, take_fetched, is_status, body_text, answered_outcome,
  unanswered,
}

-- The landing rule for one date: every rate is dated the date requested, and has its payload.
pub record Lands (requested : ℕ) (a : Answer) : Type 0 where
  pub served : All (λ (r : Rate). r.rate_date ≡ requested) a.records
  pub aligned : length a.payloads ≡ length a.records

rates_of-All :
    (served requested : ℕ) (base : Json) (rates : Members) (currencies : List String)
    → served ≡ requested
    → All (λ (r : Rate). r.rate_date ≡ requested) (rates_of served base rates currencies)
rates_of-All served requested base rates [] h = tt
rates_of-All served requested base rates (c ∷ cs) h =
    (h, rates_of-All served requested base rates cs h)

repeat-length :
    (body : String) (served : ℕ) (base : Json) (rates : Members) (currencies : List String)
    → length (repeat body currencies) ≡ length (rates_of served base rates currencies)
repeat-length body served base rates [] = refl
repeat-length body served base rates (c ∷ cs) = ap suc (repeat-length body served base rates cs)

module _ (f : Formats) (expected : Dict String) where
  rates_served-Lands :
      (body : String) (requested : ℕ) (response : Members) (drift : List FeedDrift) (served : ℕ)
      (a : Answer)
      → rates_served f expected body requested response drift served ≡ ok a
      → Lands requested a
  unfolding rates_served
  rates_served-Lands body requested response drift served a h =
      elim (Bool-cases (served == requested)) [
        | inl q ↦
            let k = rw q at h in
            let (rates, _, k1) = bind-eq-ok (required "rates" (value_of "rates" response)) _ k in
            let (entries, _, k2) = bind-eq-ok (members_of rates) _ k1 in
            let (base, _, k3) = bind-eq-ok (base_for response entries) _ k2 in
            let e : served_answer body served drift entries base ≡ a = ok-injective k3 in
            let same = (==_iff served requested).0 q in
            subst (Lands requested) e (record {
              served = rates_of-All served requested base entries (sorted_set (names entries)) same;
              aligned = repeat-length body served base entries (sorted_set (names entries));
            })
        | inr q ↦
            let e : empty_answer drift none ≡ a = ok-injective (rw q at h) in
            subst (Lands requested) e empty-Lands
      ]
    where
      empty-Lands : Lands requested (empty_answer drift none)
      empty-Lands = record { served = tt; aligned = refl }

  parse_members-Lands :
      (body : String) (requested : ℕ) (response : Members) (d : List FeedDrift × Option Breaking)
      (a : Answer)
      → parse_members f expected body requested response d ≡ ok a
      → Lands requested a
  unfolding parse_members
  parse_members-Lands body requested response (drift, some b) a h =
      subst (Lands requested) (ok-injective h) (record { served = tt; aligned = refl })
  parse_members-Lands body requested response (drift, none) a h =
      let (date, _, k) = bind-eq-ok (required "date" (value_of "date" response)) _ h in
      let (served, _, k') = bind-eq-ok (f.parse_date date) _ k in
      rates_served-Lands body requested response drift served a k'

  parse_json-Lands :
      (body : String) (requested : ℕ) (v : Json) (a : Answer)
      → parse_json f expected body requested v ≡ ok a
      → Lands requested a
  unfolding parse_json
  parse_json-Lands body requested (object response) a h =
      parse_members-Lands body requested response (shape_drift response expected) a h
  parse_json-Lands body requested null a h =
      subst (Lands requested) (ok-injective h) (record { served = tt; aligned = refl })
  parse_json-Lands body requested (boolean b) a h =
      subst (Lands requested) (ok-injective h) (record { served = tt; aligned = refl })
  parse_json-Lands body requested (integer n) a h =
      subst (Lands requested) (ok-injective h) (record { served = tt; aligned = refl })
  parse_json-Lands body requested (decimal n) a h =
      subst (Lands requested) (ok-injective h) (record { served = tt; aligned = refl })
  parse_json-Lands body requested (text t) a h =
      subst (Lands requested) (ok-injective h) (record { served = tt; aligned = refl })
  parse_json-Lands body requested (array es) a h =
      subst (Lands requested) (ok-injective h) (record { served = tt; aligned = refl })

  parse_response-Lands :
      (body : String) (requested : ℕ) (a : Answer)
      → parse_response f expected body requested ≡ ok a
      → Lands requested a
  unfolding parse_response
  parse_response-Lands body requested a h =
      let (v, _, k) = bind-eq-ok (f.loads body) _ h in parse_json-Lands body requested v a k

-- One request: its outcome is of its date, counts the rates it landed, and none where it did not.
pub record IsRequested (requested : ℕ) (q : Requested) : Type 0 where
  pub lands : Lands requested q.answer
  pub key : q.outcome.key ≡ isoformat requested
  pub counted : q.outcome.rows ≡ length q.answer.records
  pub idle : has_outcome landed q.outcome ≡ false → q.outcome.rows ≡ 0

module _ (f : Formats) (expected : Dict String) (base_url : String) (fetch : String → Fetched) where
  answered_rows :
      (requested : ℕ) (r : FetchResult) (rates : List Rate)
      → ((answered_outcome f expected base_url fetch r requested rates).key ≡ isoformat requested)
        × ((answered_outcome f expected base_url fetch r requested rates).rows ≡ length rates)
        × (has_outcome landed (answered_outcome f expected base_url fetch r requested rates) ≡ false
            → (answered_outcome f expected base_url fetch r requested rates).rows ≡ 0)
  answered_rows requested r [] = (refl, refl, λ _. refl)
  answered_rows requested r (x ∷ xs) = (refl, refl, λ e. cc)

  take_result-IsRequested :
      (requested : ℕ) (r : FetchResult) (q : Requested)
      → take_result f expected base_url fetch requested r ≡ ok q
      → IsRequested requested q
  unfolding take_result
  take_result-IsRequested requested r q h =
      elim (Bool-cases (is_status f expected base_url fetch 404 r.status)) [
        | inl e ↦ subst (IsRequested requested) (ok-injective (rw e at h)) idle-IsRequested
        | inr e ↦ elim (Bool-cases (is_ok_result r)) [
          | inl o ↦
              let (a, p, k) =
                bind-eq-ok
                  (parse_response f expected (body_text f expected base_url fetch r.body) requested)
                  _ (rw (e, o) at h) in
              let (key, counted, idle) = answered_rows requested r a.records in
              subst (IsRequested requested) (ok-injective k) (record {
                lands = parse_response-Lands f expected _ requested a p;
                key = key;
                counted = counted;
                idle = idle;
              })
          | inr o ↦ subst (IsRequested requested) (ok-injective (rw (e, o) at h)) idle-IsRequested
        ]
      ]
    where
      idle-IsRequested :
          {o : String} {s : Option ℕ} {n : ℕ} {d : String}
          → IsRequested requested (unanswered f expected base_url fetch requested o s n d)
      idle-IsRequested = record {
        lands = record { served = tt; aligned = refl };
        key = refl;
        counted = refl;
        idle = λ _. refl;
      }

  pub take_fetched-IsRequested :
      (requested : ℕ) (r : Fetched) (q : Requested)
      → take_fetched f expected base_url fetch requested r ≡ ok q
      → IsRequested requested q
  unfolding take_fetched
  take_fetched-IsRequested requested (gave_up r) q h =
      subst (IsRequested requested) (ok-injective h) (record {
        lands = record { served = tt; aligned = refl };
        key = refl;
        counted = refl;
        idle = λ _. refl;
      })
  take_fetched-IsRequested requested (returned r) q h = take_result-IsRequested requested r q h
