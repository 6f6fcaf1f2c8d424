-- ===== src/Trustlines/Recovery.antt =====
-- `TrustlineErrorRecovery`: the circuit of each context, the dead letter queue, the metrics, and
-- `executeWithRecovery`. Its calls run side by side: an event begins one or ends an attempt of one.
-- The delay between two attempts is the time between two events. Logs and Prometheus are left out.
pub mod Contexts
pub mod Probes
pub mod Letters
use stellar_payment_api.Base.{
  ℕ, zero, suc, ◌+◌, String, Bool, true, false, not, ◌||◌, Option, none, some, List, [], ◌∷◌, ◌++◌,
  if◌then◌else◌, ltb, leb, ◌==◌, length,
}
use stellar_payment_api.OrderedMap
use stellar_payment_api.Trustlines.Errors.{
  OperationError, null_error, ErrorType, Priority, classify_error, EnhancedError, enhance_error,
  classify_error_priority, is_retryable_error, get_recommended_action,
}
use stellar_payment_api.Trustlines.Circuits.{
  Circuit, CircuitState, DeadLetter, Metrics, Recent, closed, half_open, new_circuit, opened,
  Disposition, allow, circuit_breaker_disposition, circuit_or_new, letter, metrics_or_new, probe,
  push_to_dead_letter_queue, record_failure, record_success, reject, take_probe,
  update_recovery_metrics,
}

-- What the caller of `executeWithRecovery` is told.
pub data Failure : Type 0 where
  circuit_open : Failure
  failed : EnhancedError → Failure

pub data Result (R : Type 0) : Type 0 where
  returned : R → Result R
  threw : Failure → Result R

-- A running call: `attempt` counts from 1. The fallback returns a value or throws.
pub record Call (R : Type 0) : Type 0 where
  pub id : ℕ
  pub context : String
  pub attempt : ℕ
  pub max_attempts : ℕ
  pub fallback : Option (Failure → Option R)

-- How an attempt of the operation ends, the timeout included.
pub data End (R : Type 0) : Type 0 where
  succeeds : R → End R
  fails : OperationError → End R

-- The maps of the module, the running calls, and what the ended calls gave, oldest first.
pub record Recovery (R : Type 0) : Type 0 where
  pub circuits : List (String × Circuit)
  pub dead_letters : List DeadLetter
  pub metrics : List (String × Metrics)
  pub calls : ℕ
  pub running : List (Call R)
  pub settled : List (ℕ × Result R)

-- `return await fallback(error)`, or `throw error`.
unfoldable pub with_fallback : {R : Type 0} → Failure → Option (Failure → Option R) → Result R
with_fallback e none = threw e
with_fallback e (some f) = elim (f e) [ none ↦ threw e | some r ↦ returned r ]

module _ {R : Type 0} where
  -- A change of the circuit of a context, which is made when it is not there.
  unfoldable pub on_circuit : String → (Circuit → Circuit) → Recovery R → Recovery R
  on_circuit context change s = record s {
    circuits =
        OrderedMap.set context (change (circuit_or_new (OrderedMap.get context s.circuits)))
          s.circuits;
  }

  unfoldable pub count_outcome : ℕ → String → Bool → Recovery R → Recovery R
  count_outcome now context success s = record s {
    metrics =
        OrderedMap.set context
          (update_recovery_metrics now success
            (metrics_or_new now (OrderedMap.get context s.metrics)))
          s.metrics;
  }

  unfoldable pub failure_recorded : ℕ → String → Recovery R → Recovery R
  failure_recorded now context s =
      count_outcome now context false (on_circuit context (record_failure now) s)

  unfoldable pub success_recorded : ℕ → String → Recovery R → Recovery R
  success_recorded now context s =
      count_outcome now context true (on_circuit context record_success s)

  unfoldable pub dead_lettered : DeadLetter → Recovery R → Recovery R
  dead_lettered d s = record s { dead_letters = push_to_dead_letter_queue d s.dead_letters }

  unfoldable pub settle : ℕ → Result R → Recovery R → Recovery R
  settle id r s = record s { settled = s.settled ++ ((id, r) ∷ []) }

  -- The end of `executeWithRecovery` below its loop, which only a call without attempts reaches.
  unfoldable pub exhausted : ℕ → Call R → Recovery R → Recovery R
  exhausted now c s =
      settle c.id
        (with_fallback
          (failed (enhance_error null_error c.max_attempts (classify_error null_error))) c.fallback)
        (dead_lettered (letter now c.context null_error c.max_attempts)
          (failure_recorded now c.context s))

  unfoldable pub enter : ℕ → Call R → Recovery R → Recovery R
  enter now c s =
      if c.max_attempts == 0 then exhausted now c s else record s { running = c ∷ s.running }

  unfoldable pub dispatch : ℕ → Call R → Disposition → Recovery R → Recovery R
  dispatch now c allow s = enter now c s
  dispatch now c probe s = enter now (record c { max_attempts = 1 }) s
  dispatch now c reject s = settle c.id (with_fallback circuit_open c.fallback) s

  -- `executeWithRecovery`, up to its first attempt.
  unfoldable pub execute_with_recovery :
      ℕ → String → ℕ → Option (Failure → Option R) → Recovery R → Recovery R
  execute_with_recovery now context max_attempts fallback s =
      let c = circuit_or_new (OrderedMap.get context s.circuits) in
      let (c', disposition) = take_probe (circuit_breaker_disposition now c) in
      let call : Call R = record {
        id = s.calls;
        context = context;
        attempt = 1;
        max_attempts = max_attempts;
        fallback = fallback;
      } in
      dispatch now call disposition
        (record (on_circuit context (λ _. c') s) { calls = suc s.calls })

  -- The attempts of a call are over with this error.
  unfoldable pub give_up : ℕ → Call R → OperationError → Recovery R → Recovery R
  give_up now c e s =
      let class = classify_error e in
      let recorded = failure_recorded now c.context s in
      settle c.id (with_fallback (failed (enhance_error e c.attempt class)) c.fallback) (
        if class.retryable
        then recorded
        else dead_lettered (letter now c.context e c.attempt) recorded)

  -- Whether an attempt that ends so is the last one of its call.
  unfoldable pub is_last : Call R → End R → Bool
  is_last c (succeeds r) = true
  is_last c (fails e) = not (classify_error e).retryable || (c.attempt == c.max_attempts)

  unfoldable pub finish : ℕ → Call R → End R → Recovery R → Recovery R
  finish now c (succeeds r) s = settle c.id (returned r) (success_recorded now c.context s)
  finish now c (fails e) s = give_up now c e s

  -- The call at a place of the list, and the others.
  unfoldable pub extract : ℕ → List (Call R) → Option (Call R × List (Call R))
  extract i [] = none
  extract zero (c ∷ cs) = some (c, cs)
  extract (suc i) (c ∷ cs) = elim (extract i cs) [ none ↦ none | some (d, ds) ↦ some (d, c ∷ ds) ]

  unfoldable pub attempt_ended :
      ℕ → End R → Option (Call R × List (Call R)) → Recovery R → Recovery R
  attempt_ended now end none s = s
  attempt_ended now end (some (c, others)) s =
      if is_last c end
      then finish now c end (record s { running = others })
      else record s { running = record c { attempt = suc c.attempt } ∷ others }

  unfoldable pub asked : ℕ → String → Recovery R → Recovery R
  asked now context s = on_circuit context (λ c. (circuit_breaker_disposition now c).0) s

  unfoldable pub reset_circuit_breaker : Option String → Recovery R → Recovery R
  reset_circuit_breaker none s = record s { circuits = [] }
  reset_circuit_breaker (some context) s = record s {
    circuits = OrderedMap.delete context s.circuits;
  }

  unfoldable pub drain_dead_letter_queue : Recovery R → Recovery R
  drain_dead_letter_queue s = record s { dead_letters = [] }

-- What happens to the module: calls of its functions, and the ends of attempts.
pub data Event (R : Type 0) : Type 0 where
  executes : (now : ℕ) (context : String) (max_attempts : ℕ) → Option (Failure → Option R) → Event R
  attempt_ends : (now place : ℕ) → End R → Event R
  asks : (now : ℕ) (context : String) → Event R
  resets : Option String → Event R
  drains : Event R
  records_failure : (now : ℕ) → Event R

module _ {R : Type 0} where
  unfoldable pub step : Event R → Recovery R → Recovery R
  step (executes now context max_attempts fallback) s =
      execute_with_recovery now context max_attempts fallback s
  step (attempt_ends now place end) s = attempt_ended now end (extract place s.running) s
  step (asks now context) s = asked now context s
  step (resets context) s = reset_circuit_breaker context s
  step drains s = drain_dead_letter_queue s
  step (records_failure now) s = failure_recorded now "default" s

  unfoldable pub run : List (Event R) → Recovery R → Recovery R
  run [] s = s
  run (e ∷ es) s = run es (step e s)

  unfoldable pub start : Recovery R
  start = record {
    circuits = [];
    dead_letters = [];
    metrics = [];
    calls = 0;
    running = [];
    settled = [];
  }
