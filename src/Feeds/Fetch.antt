-- ===== src/Feeds/Fetch.antt =====
-- airflow/plugins/nordbank_ops/feeds/fetch.py: one HTTP request, retried within bounds. Times are
-- whole milliseconds. The transport answers attempt by attempt; the random source draws a number
-- up to a ceiling.
pub mod Bounds
mod Tests
use nordbank_data_platform.Common.{
  ℕ, suc, zero, String, ◌+◌, ◌-◌, ◌*◌, ◌^◌, ◌==◌, min, Bool, true, false, ◌||◌, ◌&&◌, leb, ltb,
  Option, none, some, List, [], ◌∷◌, ◌++◌, length, if◌then◌else◌,
}
use nordbank_data_platform.Common.Int.{ℤ, pos, negsuc}

abbrev pub is_retried : ℕ → Bool
is_retried status = (status == 429) || (leb 500 status && leb status 599)

pub record RetryPolicy : Type 0 where
  pub max_attempts : ℕ
  pub base_delay : ℕ
  pub max_delay : ℕ

-- `rng.uniform(0.0, ceiling)`, at each attempt.
abbrev pub Draw : Type 0
Draw = ℕ → ℕ → ℕ

-- `max(retry_after, 0.0)`
abbrev pub at_least_zero : ℤ → ℕ
at_least_zero (pos n) = n
at_least_zero (negsuc n) = 0

-- The wait after failed attempt `attempt`, counting from 1.
unfoldable pub delay : RetryPolicy → Draw → ℕ → Option ℤ → ℕ
delay p draw attempt (some t) = min (at_least_zero t) p.max_delay
delay p draw attempt none = draw attempt (min (p.base_delay * 2 ^ (attempt - 1)) p.max_delay)

pub record Attempt : Type 0 where
  pub status : Option ℕ
  pub error : Option String
  pub waited : ℕ

pub record FetchResult : Type 0 where
  pub url : String
  pub status : Option ℕ
  pub body : Option String
  pub attempts : List Attempt
  pub error : Option String

abbrev pub is_success : Option ℕ → Bool
is_success none = false
is_success (some s) = leb 200 s && ltb s 300

abbrev pub is_ok_result : FetchResult → Bool
is_ok_result r = is_success r.status

abbrev pub attempt_count : FetchResult → ℕ
attempt_count r = length r.attempts

-- What one call of the transport comes to: a timeout or a lost connection, with the exception's
-- text, or a response with its `Retry-After` header where that is a number.
pub data Reply : Type 0 where
  lost : String → Reply
  answered : ℕ → String → Option ℤ → Reply

-- `fetch` returned a result, or raised `FetchFailedError` with it.
pub data Fetched : Type 0 where
  returned : FetchResult → Fetched
  gave_up : FetchResult → Fetched

-- `result.attempts[-1].waited = wait`
unfoldable pub waiting : ℕ → List Attempt → List Attempt
waiting wait [] = []
waiting wait (a ∷ []) = (record a { waited = wait }) ∷ []
waiting wait (a ∷ b ∷ rest) = a ∷ waiting wait (b ∷ rest)

abbrev pub with_loss : String → FetchResult → FetchResult
with_loss e r = record r {
  status = none;
  body = none;
  error = some e;
  attempts = r.attempts ++ (record { status = none; error = some e; waited = 0 }) ∷ [];
}

abbrev pub with_answer : ℕ → String → FetchResult → FetchResult
with_answer s body r = record r {
  status = some s;
  body = some body;
  error = none;
  attempts = r.attempts ++ (record { status = some s; error = none; waited = 0 }) ∷ [];
}

module _ (p : RetryPolicy) (draw : Draw) (redact : String → String) where
  -- After an attempt that is tried again: the last one is the end, and any other waits.
  abbrev pub retry : ℕ → Option ℤ → (FetchResult → Fetched) → FetchResult → Fetched
  retry attempt after again r =
      if attempt == p.max_attempts
      then gave_up r
      else again (record r { attempts = waiting (delay p draw attempt after) r.attempts })

  abbrev pub react : ℕ → FetchResult → (FetchResult → Fetched) → Reply → Fetched
  react attempt r again (lost e) = retry attempt none again (with_loss (redact e) r)
  react attempt r again (answered s body after) =
      if is_retried s
      then retry attempt after again (with_answer s body r)
      else returned (with_answer s body r)

  module _ (get : ℕ → Reply) where
    unfoldable pub attempts_from : ℕ → ℕ → FetchResult → Fetched
    unfolding waiting delay
    attempts_from zero attempt r = gave_up r
    attempts_from (suc left) attempt r =
        react attempt r (λ next. attempts_from left (suc attempt) next) (get attempt)

    unfoldable pub fetch : String → Fetched
    unfolding attempts_from
    fetch url =
        attempts_from p.max_attempts 1
          (record { url = url; status = none; body = none; attempts = []; error = none })
