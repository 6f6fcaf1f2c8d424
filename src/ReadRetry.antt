-- ===== src/ReadRetry.antt =====
-- The retries of idempotent reads, backend/src/lib/backoff-retry.js: `resolveBackoffOptions`,
-- `retryWithBackoff` and `retrySupabaseRead`. Logs are left out.
use stellar_payment_api.Base.{
  ℕ, zero, suc, ◌-◌, ◌*◌, ◌^◌, min, max, Bool, true, false, not, Option, none, some, ◌&&◌, ◌||◌,
  List, [], ◌∷◌, if◌then◌else◌, ltb, leb,
}
pub mod Answers
pub mod Times

-- An option as it is given: missing or not a finite number, below zero, or a number whose integer
-- part this is.
pub data Given : Type 0 where
  unusable negative : Given
  number : ℕ → Given

pub record Resolved : Type 0 where
  pub max_attempts : ℕ
  pub base_delay_ms : ℕ
  pub max_delay_ms : ℕ

pub record Spec : Type 0 where
  pub defaults : Resolved
  pub max_attempts_ceiling : ℕ
  pub max_delay_ceiling_ms : ℕ

unfoldable pub clamp_int : Given → ℕ → ℕ → ℕ → ℕ
clamp_int unusable fallback low high = fallback
clamp_int negative fallback low high = min low high
clamp_int (number n) fallback low high = min (max n low) high

-- An option, or the variable of the environment in its place.
pub record Sources : Type 0 where
  pub attempts : Given
  pub base : Given
  pub maximum : Given

unfoldable pub resolve_backoff_options : Sources → Spec → Resolved
resolve_backoff_options s spec =
    let base = clamp_int s.base spec.defaults.base_delay_ms 0 spec.max_delay_ceiling_ms in
    record {
      max_attempts = clamp_int s.attempts spec.defaults.max_attempts 1 spec.max_attempts_ceiling;
      base_delay_ms = base;
      max_delay_ms = clamp_int s.maximum spec.defaults.max_delay_ms base spec.max_delay_ceiling_ms;
    }

-- A JavaScript error: `X` is all of it but the field retryAttempts, which only an object can get.
pub record Failure (X : Type 0) : Type 0 where
  pub value : X
  pub is_object : Bool
  pub retry_attempts : Option ℕ

-- `{ data, error }`
pub record Result (D X : Type 0) : Type 0 where
  pub data_of : D
  pub error : Option (Failure X)

-- What a query does, or the whole read.
pub data Answer (D X : Type 0) : Type 0 where
  answers : Result D X → Answer D X
  throws : Failure X → Answer D X

-- What the loop catches: a `RetryableResultError` that carries a result, with the attempts noted on
-- it once it is thrown on, or another error.
pub data Caught (D X : Type 0) : Type 0 where
  carried : Result D X → (retry_attempts : Option ℕ) → Caught D X
  raised : Failure X → Caught D X

pub data Attempt (D X : Type 0) : Type 0 where
  gives : Result D X → Attempt D X
  fails : Caught D X → Attempt D X

pub data Event : Type 0 where
  scheduled : (attempt delay_ms : ℕ) → Event
  recovered exhausted : (attempts : ℕ) → Event

pub record Run (D X : Type 0) : Type 0 where
  pub outcome : Attempt D X
  pub events : List Event

-- `ends` is what the query does in each attempt, counted from 1; `jittered` is the random part of a
-- delay, rounded down.
pub record Environment (D X : Type 0) : Type 0 where
  pub ends : (attempt : ℕ) → Answer D X
  pub should_retry : Failure X → Bool
  pub jittered : (retry_index ceiling : ℕ) → ℕ

module _ {X : Type 0} where
  -- `if (typeof err === "object") err.retryAttempts = attempts`
  unfoldable pub mark : Option ℕ → Failure X → Failure X
  mark attempts e = if e.is_object then record e { retry_attempts = attempts } else e

  unfoldable pub mark_error : Option ℕ → Option (Failure X) → Option (Failure X)
  mark_error attempts none = none
  mark_error attempts (some e) = some (mark attempts e)

module _ {D X : Type 0} where
  -- What the loop throws after an attempt.
  unfoldable pub mark_caught : ℕ → Caught D X → Caught D X
  mark_caught attempt (carried r attempts) = carried r (some attempt)
  mark_caught attempt (raised e) = raised (mark (some attempt) e)

  unfoldable pub unwrap : Attempt D X → Answer D X
  unwrap (gives r) = answers r
  unwrap (fails (carried r attempts)) = answers (record r { error = mark_error attempts r.error })
  unwrap (fails (raised e)) = throws e

  unfoldable pub sleeping : Event → Option (Run D X) → Option (Run D X)
  sleeping event none = none
  sleeping event (some run) = some (record run { events = event ∷ run.events })

  unfoldable pub read_of : Option (Run D X) → Option (Answer D X × List Event)
  read_of none = none
  read_of (some run) = some (unwrap run.outcome, run.events)

module _ {D X : Type 0} (env : Environment D X) where
  unfoldable pub carry : Result D X → Option (Failure X) → Attempt D X
  carry r none = gives r
  carry r (some e) = if env.should_retry e then fails (carried r none) else gives r

  unfoldable pub run_query : Answer D X → Attempt D X
  run_query (answers r) = carry r r.error
  run_query (throws e) = fails (raised e)

  unfoldable pub is_retryable : Caught D X → Bool
  is_retryable (carried r attempts) = true
  is_retryable (raised e) = env.should_retry e

module _ {D X : Type 0} (env : Environment D X) (resolved : Resolved) where
  unfoldable pub compute_backoff_delay : ℕ → ℕ
  compute_backoff_delay retry_index =
      env.jittered retry_index
        (min resolved.max_delay_ms (resolved.base_delay_ms * 2 ^ retry_index))

  -- What follows an attempt; `rest` is the loop from the next one.
  unfoldable pub after_attempt : ℕ → Attempt D X → Option (Run D X) → Option (Run D X)
  after_attempt attempt (gives r) rest =
      some (record {
        outcome = gives r;
        events = if ltb 1 attempt then recovered attempt ∷ [] else [];
      })
  after_attempt attempt (fails f) rest =
      let last = leb resolved.max_attempts attempt in
      if not (is_retryable env f) || last
      then some (record {
        outcome = fails (mark_caught attempt f);
        events = if is_retryable env f && last then exhausted attempt ∷ [] else [];
      })
      else sleeping (scheduled attempt (compute_backoff_delay (attempt - 1))) rest

  -- The loop, with fuel; `none` when it runs out.
  unfoldable pub retry_from : ℕ → ℕ → Option (Run D X)
  retry_from zero attempt = none
  retry_from (suc fuel) attempt =
      after_attempt attempt (run_query env (env.ends attempt)) (retry_from fuel (suc attempt))

  unfoldable pub retry_with_backoff : Option (Run D X)
  retry_with_backoff = retry_from resolved.max_attempts 1

  unfoldable pub retry_supabase_read : Option (Answer D X × List Event)
  retry_supabase_read = read_of retry_with_backoff
