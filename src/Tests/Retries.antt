-- ===== src/Tests/Retries.antt =====
-- A Redis operation that fails twice.
use stellar_payment_api.Base.{
  ℕ, zero, suc, ◌+◌, ◌*◌, ◌≤◌, ◌≡◌, refl, false, some, [], ◌∷◌, length, arith,
}
use stellar_payment_api.RedisRetry.{
  Options, RedisError, Environment, Attempt, succeeds, fails, Run, returned, includes,
  is_retryable_redis_error, compute_backoff_delay, is_over, slept, after_attempt, retry_from,
  with_idempotency_retry,
}
use stellar_payment_api.RedisRetry.Budget.{retries_end}

abbrev options : Options
options = record { max_retries = 3; base_delay_ms = 25; max_delay_ms = 250; total_budget_ms = 500 }

abbrev reset_error : RedisError
reset_error = record {
  name = "Error";
  code = "ECONNRESET";
  is_syntax_error = false;
  says_closed = false;
  has_reply_prefix = false;
  says_transient = false;
}

abbrev third_succeeds : ℕ → Attempt ℕ
third_succeeds zero = fails reset_error
third_succeeds (suc zero) = fails reset_error
third_succeeds (suc (suc i)) = succeeds 7

abbrev shaky : Environment ℕ
shaky = record { ends = third_succeeds; elapsed = λ i. 10 + 300 * i; jittered = λ i delay. delay }

abbrev recovered : Run ℕ
recovered = record { result = returned 7; delays = 25 ∷ 50 ∷ [] }

shaky_recovers : with_idempotency_retry options shaky ≡ some recovered
unfolding with_idempotency_retry retry_from after_attempt slept is_over compute_backoff_delay
    is_retryable_redis_error includes
shaky_recovers = refl

retries_end_example :
    (r : Run ℕ) × (with_idempotency_retry options shaky ≡ some r) × (length r.delays ≤ 3)
retries_end_example = retries_end options shaky

clock_passes : (i : ℕ) → 10 + 300 * i + compute_backoff_delay options shaky i ≤ 10 + 300 * suc i
unfolding compute_backoff_delay
clock_passes i = omega arith
