-- ===== src/Feeds/Rates/Whole.antt =====
-- What the requests of an interval come to: all of what was answered, or nothing.
use nordbank_data_platform.Common.{
  ℕ, String, ◌+◌, ◌≡◌, refl, ap, ◌∙◌, ◌⊎◌, inl, inr, false, none, List, [], ◌∷◌, map, filter,
  length, length-append, All, All-impl, All-append, Any, Bool-cases, arith, ok, bind-eq-ok,
  ok-injective, ◌≢◌,
}
use mathlib.Core.Path.{subst}
use nordbank_data_platform.Common.Dict.{Dict}
use nordbank_data_platform.Common.Time.{isoformat}
use nordbank_data_platform.Feeds.Fetch.{Fetched}
use nordbank_data_platform.Feeds.Rates.{Rate, Formats}
use nordbank_data_platform.Feeds.Rates.Requests.{
  RequestOutcome, Interval, landed, failed, has_outcome, take_fetched, request_dates, discard,
  settle_interval, fetch_dates, request_url,
}
use nordbank_data_platform.Feeds.Rates.Request.{take_fetched-IsRequested}

abbrev pub total_rows : List RequestOutcome → ℕ
total_rows [] = 0
total_rows (o ∷ os) = o.rows + total_rows os

-- The log has one outcome per date, in order; every rate is of a date requested and has its
-- payload; and the log counts the rates.
pub record IsLogged (dates : List ℕ) (i : Interval) : Type 0 where
  pub logged : map (λ (o : RequestOutcome). o.key) i.outcomes ≡ map isoformat dates
  pub served : All (λ (r : Rate). Any (λ d. r.rate_date ≡ d) dates) i.records
  pub aligned : length i.payloads ≡ length i.records
  pub counted : total_rows i.outcomes ≡ length i.records

-- Nothing failed, and what was answered is kept; or something failed, and nothing is landed.
abbrev pub IsWhole : Interval → Type 0
IsWhole i =
    (i.failure ≡ none × All (λ o. has_outcome failed o ≡ false) i.outcomes)
    ⊎ ((i.failure ≢ none) × (i.records ≡ []) × All (λ o. has_outcome landed o ≡ false) i.outcomes)

abbrev IsIdle : RequestOutcome → Type 0
IsIdle o = has_outcome landed o ≡ false → o.rows ≡ 0

module _ (f : Formats) (expected : Dict String) (base_url : String) (fetch : String → Fetched) where
  request_dates-IsLogged :
      (dates : List ℕ) (i : Interval)
      → request_dates f expected base_url fetch dates ≡ ok i
      → IsLogged dates i × All IsIdle i.outcomes × (i.failure ≡ none)
  unfolding request_dates
  request_dates-IsLogged [] i h =
      subst (λ i. IsLogged [] i × All IsIdle i.outcomes × (i.failure ≡ none)) (ok-injective h)
        (record { logged = refl; served = tt; aligned = refl; counted = refl }, tt, refl)
  request_dates-IsLogged (d ∷ ds) i h =
      let (q, hq, k) =
        bind-eq-ok (take_fetched f expected base_url fetch d (fetch (request_url base_url d))) _
          h in
      let (rest, hr, k') = bind-eq-ok (request_dates f expected base_url fetch ds) _ k in
      let one =
        take_fetched-IsRequested f expected base_url fetch d (fetch (request_url base_url d)) q
          hq in
      let (log, idle, _) = request_dates-IsLogged ds rest hr in
      subst (λ i. IsLogged (d ∷ ds) i × All IsIdle i.outcomes × (i.failure ≡ none))
        (ok-injective k')
        (
          record {
            logged = rw (one.key, log.logged) refl;
            served =
                All-append (λ (r : Rate). Any (λ x. r.rate_date ≡ x) (d ∷ ds)) q.answer.records
                  rest.records (All-impl _ _ q.answer.records (λ r e. inl e) one.lands.served)
                  (All-impl _ _ rest.records (λ r m. inr m) log.served);
            aligned = omega (
              arith,
              length-append q.answer.payloads rest.payloads,
              length-append q.answer.records rest.records,
              one.lands.aligned,
              log.aligned,
            );
            counted =
                omega
                  (arith, length-append q.answer.records rest.records, one.counted, log.counted);
          },
          (one.idle, idle),
          refl,
        )

  discarded_keys :
      (outcomes : List RequestOutcome)
      → map (λ (o : RequestOutcome). o.key) (map (discard f expected base_url fetch) outcomes)
        ≡ map (λ (o : RequestOutcome). o.key) outcomes
  discarded_keys [] = refl
  discarded_keys (o ∷ outcomes) = elim (Bool-cases (has_outcome landed o)) [
    | inl e ↦ rw e (ap (λ x. o.key ∷ x) (discarded_keys outcomes))
    | inr e ↦ rw e (ap (λ x. o.key ∷ x) (discarded_keys outcomes))
  ]

  discarded_rows :
      (outcomes : List RequestOutcome)
      → All IsIdle outcomes
      → (total_rows (map (discard f expected base_url fetch) outcomes) ≡ 0)
        × All (λ o. has_outcome landed o ≡ false) (map (discard f expected base_url fetch) outcomes)
  discarded_rows [] h = (refl, tt)
  discarded_rows (o ∷ outcomes) h =
      let (none_left, others) = discarded_rows outcomes h.1 in
      elim (Bool-cases (has_outcome landed o)) [
        | inl e ↦ rw e (omega (arith, none_left), (refl, others))
        | inr e ↦ rw e (omega (arith, none_left, h.0 e), (e, others))
      ]

  none_failed :
      (outcomes : List RequestOutcome)
      → filter (has_outcome failed) outcomes ≡ []
      → All (λ o. has_outcome failed o ≡ false) outcomes
  none_failed [] h = tt
  none_failed (o ∷ outcomes) h = elim (Bool-cases (has_outcome failed o)) [
    | inl e ↦
        let k : Path (List RequestOutcome) (o ∷ filter (has_outcome failed) outcomes) [] =
          rw e at h in
        cc
    | inr e ↦ (e, none_failed outcomes (rw e at h))
  ]

  settle_interval-IsWhole :
      (dates : List ℕ) (i : Interval) (failures : List RequestOutcome)
      → filter (has_outcome failed) i.outcomes ≡ failures
      → IsLogged dates i
      → All IsIdle i.outcomes
      → i.failure ≡ none
      → IsLogged dates (settle_interval f expected base_url fetch i failures)
        × IsWhole (settle_interval f expected base_url fetch i failures)
  unfolding settle_interval
  settle_interval-IsWhole dates i [] e log idle n = (log, inl (n, none_failed i.outcomes e))
  settle_interval-IsWhole dates i (o ∷ failures) e log idle n =
      let (rows, dropped) = discarded_rows i.outcomes idle in
      (
        record {
          logged = discarded_keys i.outcomes ∙ log.logged;
          served = tt;
          aligned = refl;
          counted = rows;
        },
        inr ((λ q. cc), refl, dropped),
      )

  -- Where the requests of some dates return, the log has one outcome per date, in order; every rate
  -- is dated by a date requested, has a payload and is counted; and either no request failed, or
  -- nothing is landed and the interval is failed.
  pub fetch_dates-IsWhole :
      (dates : List ℕ) (i : Interval)
      → fetch_dates f expected base_url fetch dates ≡ ok i
      → IsLogged dates i × IsWhole i
  unfolding fetch_dates
  fetch_dates-IsWhole dates i h =
      let (raw, p, k) = bind-eq-ok (request_dates f expected base_url fetch dates) _ h in
      let (log, idle, n) = request_dates-IsLogged dates raw p in
      subst (λ x. IsLogged dates x × IsWhole x) (ok-injective k)
        (settle_interval-IsWhole dates raw (filter (has_outcome failed) raw.outcomes) refl log idle
          n)
