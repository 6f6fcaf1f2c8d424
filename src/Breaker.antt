-- ===== src/Breaker.antt =====
-- The three-state circuit breaker of the audit logger, backend/src/lib/audit-circuit-breaker.js.
-- Times are milliseconds. Metrics, logs and the `on…` callbacks are left out.
use stellar_payment_api.Base.{
  ℕ, zero, suc, ◌+◌, ◌*◌, ◌^◌, Bool, true, false, ◌||◌, Option, none, some, List, [], ◌∷◌,
  if◌then◌else◌, ltb, leb,
}
pub mod States
pub mod Execution

pub data CircuitState : Type 0 where
  closed open_state half_open : CircuitState

pub record Breaker : Type 0 where
  pub failure_threshold : ℕ
  pub reset_timeout_ms : ℕ
  pub half_open_required : ℕ
  pub state : CircuitState
  pub failures : ℕ
  pub opened_at : Option ℕ
  pub half_open_successes : ℕ

pub create : (failure_threshold reset_timeout_ms half_open_required : ℕ) → Breaker
create f r h = record {
  failure_threshold = f;
  reset_timeout_ms = r;
  half_open_required = h;
  state = closed;
  failures = 0;
  opened_at = none;
  half_open_successes = 0;
}

-- `openedAt` in arithmetic: null counts as 0.
abbrev pub opened_or_zero : Option ℕ → ℕ
opened_or_zero none = 0
opened_or_zero (some t) = t

unfoldable pub is_open_in : CircuitState → ℕ → Breaker → Breaker × Bool
is_open_in open_state now b =
    if leb (opened_or_zero b.opened_at + b.reset_timeout_ms) now
    then (record b { state = half_open; half_open_successes = 0 }, false)
    else (b, true)
is_open_in closed now b = (b, false)
is_open_in half_open now b = (b, false)

-- `isOpen`: an open circuit lets trial requests through when its time is over.
unfoldable pub is_open : ℕ → Breaker → Breaker × Bool
unfolding is_open_in
is_open now b = is_open_in b.state now b

record_success_in : CircuitState → Breaker → Breaker
record_success_in half_open b =
    let successes = b.half_open_successes + 1 in
    if leb b.half_open_required successes
    then record b { state = closed; failures = 0; half_open_successes = 0; opened_at = none }
    else record b { half_open_successes = successes }
record_success_in closed b = record b { failures = 0 }
record_success_in open_state b = record b { failures = 0 }

-- `recordSuccess`
pub record_success : Breaker → Breaker
unfolding record_success_in
record_success b = record_success_in b.state b

abbrev pub is_half_open : CircuitState → Bool
is_half_open half_open = true
is_half_open _ = false

-- `recordFailure`
pub record_failure : ℕ → Breaker → Breaker
record_failure now b =
    let failed = record b { failures = b.failures + 1 } in
    if is_half_open b.state || leb b.failure_threshold (b.failures + 1)
    then record failed { state = open_state; opened_at = some now; half_open_successes = 0 }
    else failed

pub reset : Breaker → Breaker
reset b = record b { state = closed; failures = 0; opened_at = none; half_open_successes = 0 }

-- How one call of the protected function ends: `_isRetryable` is applied to its error.
pub data Attempt : Type 0 where
  succeeds : Attempt
  fails : (retryable : Bool) → Attempt

-- What `execute` meets: the function's end at each attempt, the clock, the random jitter, and what
-- other callers do to the breaker while the function runs or the retry waits.
pub record Environment : Type 0 where
  pub attempt : ℕ → Breaker → Breaker × Attempt
  pub waiting : ℕ → Breaker → Breaker
  pub clock : ℕ → ℕ
  pub jitter : ℕ → ℕ

pub data Executed : Type 0 where
  returned : Executed
  circuit_open_error : Executed
  threw_last_error : Executed

-- The breaker after the call, how it ended, and the delays that it waited.
pub record Run : Type 0 where
  pub breaker : Breaker
  pub ended : Executed
  pub delays : List ℕ

module _ (env : Environment) (base_delay_ms : ℕ) where
  abbrev pub delay_ms : ℕ → ℕ
  delay_ms i = base_delay_ms * 2 ^ i + env.jitter i

  -- The last attempt, or one whose error is not retryable.
  give_up : ℕ → Breaker → Run
  give_up i b = record {
    breaker = record_failure (env.clock i) b;
    ended = threw_last_error;
    delays = [];
  }

  succeed : Breaker → Run
  succeed b = record { breaker = record_success b; ended = returned; delays = [] }

  last_attempt : ℕ → Breaker × Attempt → Run
  last_attempt i (b, succeeds) = succeed b
  last_attempt i (b, fails _) = give_up i b

  -- After a wait: the circuit may have been opened by another caller.
  after_wait : Breaker × Bool → (Breaker → Run) → Run
  after_wait (b, true) again = record { breaker = b; ended = circuit_open_error; delays = [] }
  after_wait (b, false) again = again b

  waited : ℕ → Run → Run
  waited d r = record r { delays = d ∷ r.delays }

  next_attempt : ℕ → Breaker × Attempt → (Breaker → Run) → Run
  next_attempt i (b, succeeds) again = succeed b
  next_attempt i (b, fails false) again = give_up i b
  next_attempt i (b, fails true) again =
      waited (delay_ms i) (after_wait (is_open (env.clock i) (env.waiting i b)) again)

  -- The loop at attempt `i`, with `left` retries to go.
  execute_from : (left i : ℕ) → Breaker → Run
  execute_from zero i b = last_attempt i (env.attempt i b)
  execute_from (suc left) i b = next_attempt i (env.attempt i b) (execute_from left (suc i))

  -- `execute`, with the options resolved.
  pub execute : (max_retries now : ℕ) → Breaker → Run
  execute max_retries now b = after_wait (is_open now b) (execute_from max_retries 0)
