-- ===== src/Feeds/Fetch/Tests.antt =====
-- Retries at a policy of three attempts.
use nordbank_data_platform.Common.{ℕ, ◌≡◌, refl, none, some, [], ◌∷◌, ◌==◌, if◌then◌else◌, arith}
use nordbank_data_platform.Feeds.Fetch.{
  RetryPolicy, Reply, lost, answered, returned, gave_up, fetch,
}
use nordbank_data_platform.Feeds.Fetch.Bounds.{IsBounded, fetch-IsBounded}

abbrev policy : RetryPolicy
policy = record { max_attempts = 3; base_delay = 1000; max_delay = 1500 }

abbrev flaky : ℕ → Reply
flaky n = if n == 2 then answered 200 "{}" none else lost "Timeout"

fetch_runs :
    fetch policy (λ _ c. c) (λ e. e) flaky "u"
    ≡ returned (record {
      url = "u";
      status = some 200;
      body = some "{}";
      error = none;
      attempts =
          (record { status = none; error = some "Timeout"; waited = 1000 })
          ∷ (record { status = some 200; error = none; waited = 0 })
          ∷ [];
    })
unfolding fetch
fetch_runs = refl

fetch_gives_up :
    fetch policy (λ _ c. c) (λ e. e) (λ _. answered 503 "" none) "u"
    ≡ gave_up (record {
      url = "u";
      status = some 503;
      body = some "";
      error = none;
      attempts =
          (record { status = some 503; error = none; waited = 1000 })
          ∷ (record { status = some 503; error = none; waited = 1500 })
          ∷ (record { status = some 503; error = none; waited = 0 })
          ∷ [];
    })
unfolding fetch
fetch_gives_up = refl

fetch-IsBounded_example : IsBounded policy (fetch policy (λ _ c. c) (λ e. e) flaky "u")
fetch-IsBounded_example = fetch-IsBounded policy (λ _ c. c) (λ n c. omega arith) (λ e. e) flaky "u"
