-- ===== src/Feeds/Fetch/Bounds.antt =====
-- How often a request is tried, what is tried again, and how long it waits.
use nordbank_data_platform.Common.{
  ℕ, suc, zero, String, ◌+◌, ◌-◌, ◌*◌, ◌^◌, ◌≤◌, ◌==◌, min, ◌≡◌, refl, sym, ap, Bool, true, false,
  Option, none, some, List, [], ◌∷◌, ◌++◌, length, length-append, All, All-append, arith,
  Bool-cases, inl, inr, ==_iff,
}
use nordbank_data_platform.Common.Int.{ℤ, pos, negsuc}
use mathlib.Core.Path.{subst}
use nordbank_data_platform.Feeds.Fetch.{
  is_retried, RetryPolicy, Draw, delay, Attempt, FetchResult, Reply, lost, answered, Fetched,
  returned, gave_up, waiting, with_loss, with_answer, retry, react, attempts_from, fetch,
}

-- An attempt that is tried again: no answer, or a status that is retried.
abbrev pub is_retryable : Option ℕ → Bool
is_retryable none = true
is_retryable (some s) = is_retried s

pub record IsTried (p : RetryPolicy) (a : Attempt) : Type 0 where
  pub retryable : is_retryable a.status ≡ true
  pub bounded : a.waited ≤ p.max_delay

-- A request that was answered: after attempts that were tried again, one whose status is not.
pub record IsAnswered (p : RetryPolicy) (r : FetchResult) : Type 0 where
  pub earlier : List Attempt
  pub last : Attempt
  pub attempts : r.attempts ≡ earlier ++ last ∷ []
  pub tried : All (IsTried p) earlier
  pub status : r.status ≡ last.status
  pub settled : is_retryable r.status ≡ false
  pub within : length r.attempts ≤ p.max_attempts

-- A request that was given up: every attempt the policy allows was made, and tried again.
pub record IsGivenUp (p : RetryPolicy) (r : FetchResult) : Type 0 where
  pub tried : All (IsTried p) r.attempts
  pub used : length r.attempts ≡ p.max_attempts

abbrev pub IsBounded : RetryPolicy → Fetched → Type 0
IsBounded p (returned r) = IsAnswered p r
IsBounded p (gave_up r) = IsGivenUp p r

module _ (p : RetryPolicy) (draw : Draw) (drawn : (n c : ℕ) → draw n c ≤ c) where
  delay-bounded : (n : ℕ) (after : Option ℤ) → delay p draw n after ≤ p.max_delay
  unfolding delay
  delay-bounded n (some (pos t)) = omega arith
  delay-bounded n (some (negsuc t)) = omega arith
  delay-bounded n none = omega (arith, drawn n (min (p.base_delay * 2 ^ (n - 1)) p.max_delay))

  waiting-length :
      (wait : ℕ) (tries : List Attempt) (a : Attempt)
      → length (waiting wait (tries ++ a ∷ [])) ≡ suc (length tries)
  unfolding waiting
  waiting-length wait [] a = refl
  waiting-length wait (b ∷ []) a = refl
  waiting-length wait (b ∷ c ∷ tries) a = ap suc (waiting-length wait (c ∷ tries) a)

  waiting-IsTried :
      (wait : ℕ) (tries : List Attempt) (a : Attempt)
      → wait ≤ p.max_delay
      → is_retryable a.status ≡ true
      → All (IsTried p) tries
      → All (IsTried p) (waiting wait (tries ++ a ∷ []))
  unfolding waiting
  waiting-IsTried wait [] a w h t = (record { retryable = h; bounded = w }, tt)
  waiting-IsTried wait (b ∷ []) a w h t = (t.0, (record { retryable = h; bounded = w }, tt))
  waiting-IsTried wait (b ∷ c ∷ tries) a w h t = (t.0, waiting-IsTried wait (c ∷ tries) a w h t.1)

  module _ (redact : String → String) where
    retry-IsBounded :
        (attempt : ℕ) (after : Option ℤ) (again : FetchResult → Fetched) (r : FetchResult)
        (earlier : List Attempt) (a : Attempt)
        → r.attempts ≡ earlier ++ a ∷ []
        → attempt ≡ suc (length earlier)
        → is_retryable a.status ≡ true
        → a.waited ≡ 0
        → All (IsTried p) earlier
        → ((next : FetchResult)
            → length next.attempts ≡ suc (length earlier)
            → All (IsTried p) next.attempts
            → IsBounded p (again next))
        → IsBounded p (retry p draw redact attempt after again r)
    retry-IsBounded attempt after again r earlier a e n h z t k =
        elim (Bool-cases (attempt == p.max_attempts)) [
          | inl q ↦ rw q (record {
            tried = subst (All (IsTried p)) (sym e) (
                All-append (IsTried p) earlier (a ∷ []) t
                  (record { retryable = h; bounded = omega (arith, z) }, tt));
            used = omega (
              arith,
              ap length e,
              length-append earlier (a ∷ []),
              n,
              (==_iff attempt p.max_attempts).0 q,
            );
          })
          | inr q ↦ rw q (
              k _
                (subst (λ x. length (waiting wait x) ≡ suc (length earlier)) (sym e)
                  (waiting-length wait earlier a))
                (subst (λ x. All (IsTried p) (waiting wait x)) (sym e)
                  (waiting-IsTried wait earlier a (delay-bounded attempt after) h t)))
        ]
      where
        wait : ℕ
        wait = delay p draw attempt after

    react-IsBounded :
        (attempt : ℕ) (again : FetchResult → Fetched) (r : FetchResult) (reply : Reply)
        → attempt ≡ suc (length r.attempts)
        → attempt ≤ p.max_attempts
        → All (IsTried p) r.attempts
        → ((next : FetchResult)
            → length next.attempts ≡ suc (length r.attempts)
            → All (IsTried p) next.attempts
            → IsBounded p (again next))
        → IsBounded p (react p draw redact attempt r again reply)
    react-IsBounded attempt again r (lost e) n m t k =
        retry-IsBounded attempt none again (with_loss (redact e) r) r.attempts _ refl n refl refl t
          k
    react-IsBounded attempt again r (answered s body after) n m t k =
        elim (Bool-cases (is_retried s)) [
          | inl q ↦ rw q (
              retry-IsBounded attempt after again (with_answer s body r) r.attempts _ refl n q refl
                t k)
          | inr q ↦ rw q (record {
            earlier = r.attempts;
            last = record { status = some s; error = none; waited = 0 };
            attempts = refl;
            tried = t;
            status = refl;
            settled = q;
            within = omega (arith, length-append r.attempts _, n, m);
          })
        ]

    attempts_from-IsBounded :
        (get : ℕ → Reply) (left attempt : ℕ) (r : FetchResult)
        → attempt ≡ suc (length r.attempts)
        → left + length r.attempts ≡ p.max_attempts
        → All (IsTried p) r.attempts
        → IsBounded p (attempts_from p draw redact get left attempt r)
    unfolding attempts_from
    attempts_from-IsBounded get zero attempt r n k t = record { tried = t; used = omega (arith, k) }
    attempts_from-IsBounded get (suc left) attempt r n k t =
        react-IsBounded attempt _ r (get attempt) n (omega arith) t (λ next l u.
          attempts_from-IsBounded get left (suc attempt) next (omega arith) (omega arith) u)

    -- With a random source that draws up to its ceiling: a request ends in at most the policy's
    -- number of attempts, each wait is at most its longest delay, only retryable attempts are tried
    -- again, a result returned has a status that is not, and it gives up only when all are used.
    pub fetch-IsBounded :
        (get : ℕ → Reply) (url : String) → IsBounded p (fetch p draw redact get url)
    unfolding fetch
    fetch-IsBounded get url = attempts_from-IsBounded get p.max_attempts 1 _ refl (omega arith) tt
