-- ===== src/RedisRetry.antt =====
-- The retries of Redis operations for idempotency keys, backend/src/lib/idempotency-retry.js:
-- `isRetryableRedisError`, `computeBackoffDelay` and `withIdempotencyRetry`.
use stellar_payment_api.Base.{
  ℕ, zero, suc, ◌+◌, ◌-◌, ◌*◌, ◌^◌, min, String, Bool, true, false, not, Option, none, some, ◌&&◌,
  ◌||◌, List, [], ◌∷◌, if◌then◌else◌, ltb, leb, str_eq,
}
pub mod Budget

pub record Options : Type 0 where
  pub max_retries : ℕ
  pub base_delay_ms : ℕ
  pub max_delay_ms : ℕ
  pub total_budget_ms : ℕ

-- An error, with what the regular expressions and the prefixes say of its message.
pub record RedisError : Type 0 where
  pub name : String
  pub code : String
  pub is_syntax_error : Bool
  pub says_closed : Bool
  pub has_reply_prefix : Bool
  pub says_transient : Bool

unfoldable pub includes : String → List String → Bool
includes s [] = false
includes s (t ∷ ts) = str_eq t s || includes s ts

abbrev pub retryable_codes : List String
retryable_codes =
    "ECONNRESET" ∷ "ECONNREFUSED" ∷ "ETIMEDOUT" ∷ "EPIPE" ∷ "EAI_AGAIN" ∷ "EHOSTUNREACH"
    ∷ "ENETUNREACH" ∷ []

abbrev pub retryable_error_names : List String
retryable_error_names =
    "ConnectionTimeoutError" ∷ "SocketClosedUnexpectedlyError" ∷ "TimeoutError" ∷ "AbortError" ∷ []

unfoldable pub is_retryable_redis_error : RedisError → Bool
is_retryable_redis_error e =
    if str_eq e.name "ClientClosedError" || e.says_closed
    then false
    else if e.is_syntax_error
    then false
    else if includes e.code retryable_codes
    then true
    else if includes e.name retryable_error_names
    then true
    else if e.has_reply_prefix
    then true
    else e.says_transient

-- How an attempt ends.
pub data Attempt (A : Type 0) : Type 0 where
  succeeds : A → Attempt A
  fails : RedisError → Attempt A

-- `elapsed` is what the clock says after a failed attempt, since the start; `jittered` what the
-- random jitter makes of a delay.
pub record Environment (A : Type 0) : Type 0 where
  pub ends : (attempt : ℕ) → Attempt A
  pub elapsed : (attempt : ℕ) → ℕ
  pub jittered : (attempt exponential : ℕ) → ℕ

pub data Result (A : Type 0) : Type 0 where
  returned : A → Result A
  thrown : RedisError → Result A

-- The result, and the delays slept before it.
pub record Run (A : Type 0) : Type 0 where
  pub result : Result A
  pub delays : List ℕ

module _ {A : Type 0} (options : Options) (env : Environment A) where
  unfoldable pub compute_backoff_delay : ℕ → ℕ
  compute_backoff_delay attempt =
      env.jittered attempt (min (options.base_delay_ms * 2 ^ attempt) options.max_delay_ms)

  unfoldable pub is_over : ℕ → Bool
  is_over attempt =
      leb options.max_retries attempt
      || ltb options.total_budget_ms (env.elapsed attempt + compute_backoff_delay attempt)

  unfoldable pub slept : ℕ → Option (Run A) → Option (Run A)
  slept delay none = none
  slept delay (some r) = some (record r { delays = delay ∷ r.delays })

  -- What follows an attempt; `rest` is the loop from the next one.
  unfoldable pub after_attempt : ℕ → Attempt A → Option (Run A) → Option (Run A)
  after_attempt attempt (succeeds a) rest = some (record { result = returned a; delays = [] })
  after_attempt attempt (fails e) rest =
      if not (is_retryable_redis_error e) || is_over attempt
      then some (record { result = thrown e; delays = [] })
      else slept (compute_backoff_delay attempt) rest

  -- The loop, with fuel; `none` when it runs out.
  unfoldable pub retry_from : ℕ → ℕ → Option (Run A)
  retry_from zero attempt = none
  retry_from (suc fuel) attempt =
      after_attempt attempt (env.ends attempt) (retry_from fuel (suc attempt))

  unfoldable pub with_idempotency_retry : Option (Run A)
  with_idempotency_retry = retry_from (options.max_retries + 1) 0
