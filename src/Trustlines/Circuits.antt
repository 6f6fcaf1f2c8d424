-- ===== src/Trustlines/Circuits.antt =====
-- The circuit of a context, its metrics, and the dead letters of the trustline manager. Logs and
-- Prometheus are left out.
use stellar_payment_api.Base.{
  ℕ, suc, ◌+◌, String, Bool, true, false, Option, none, some, List, [], ◌∷◌, ◌++◌, if◌then◌else◌,
  ltb, leb, length,
}
use stellar_payment_api.Trustlines.Errors.{
  OperationError, ErrorType, Priority, classify_error, classify_error_priority, is_retryable_error,
  get_recommended_action,
}

pub data CircuitState : Type 0 where
  closed opened half_open : CircuitState

-- An entry of `circuitBreakerRegistry`, without `successAfterHalfOpen`, which is never above 0,
-- and the text of its last error.
pub record Circuit : Type 0 where
  pub state : CircuitState
  pub failures : ℕ
  pub last_failure_time : Option ℕ
  pub probe_in_flight : Bool
  pub total_failures : ℕ
  pub total_recoveries : ℕ

abbrev pub new_circuit : Circuit
new_circuit = record {
  state = closed;
  failures = 0;
  last_failure_time = none;
  probe_in_flight = false;
  total_failures = 0;
  total_recoveries = 0;
}

pub record Recent : Type 0 where
  pub success : Bool
  pub timestamp : ℕ

-- An entry of `recoveryMetrics`.
pub record Metrics : Type 0 where
  pub success_count : ℕ
  pub failure_count : ℕ
  pub last_updated : ℕ
  pub recent_outcomes : List Recent

pub record DeadLetter : Type 0 where
  pub context : String
  pub error_type : ErrorType
  pub attempts : ℕ
  pub enqueued_at : ℕ
  pub priority : Priority
  pub retryable : Bool
  pub recommended_action : String

pub data Disposition : Type 0 where
  allow probe reject : Disposition

unfoldable pub or_zero : Option ℕ → ℕ
or_zero none = 0
or_zero (some t) = t

unfoldable pub circuit_or_new : Option Circuit → Circuit
circuit_or_new none = new_circuit
circuit_or_new (some c) = c

unfoldable pub disposition_in : CircuitState → ℕ → Circuit → Circuit × Disposition
disposition_in closed now c = (c, allow)
disposition_in opened now c =
    if leb (or_zero c.last_failure_time + 30000) now
    then (record c { state = half_open; probe_in_flight = false }, probe)
    else (c, reject)
disposition_in half_open now c = (c, probe)

-- `_circuitBreakerDisposition`
unfoldable pub circuit_breaker_disposition : ℕ → Circuit → Circuit × Disposition
circuit_breaker_disposition now c = disposition_in c.state now c

-- The head of `executeWithRecovery`: a probe that runs already makes this call a rejected one.
unfoldable pub take_probe : Circuit × Disposition → Circuit × Disposition
take_probe (c, allow) = (c, allow)
take_probe (c, reject) = (c, reject)
take_probe (c, probe) =
    if c.probe_in_flight then (c, reject) else (record c { probe_in_flight = true }, probe)

unfoldable pub failed_state : CircuitState → ℕ → CircuitState
failed_state half_open failures = opened
failed_state opened failures = opened
failed_state closed failures = if leb 5 failures then opened else closed

-- `_recordFailure`, on the circuit.
unfoldable pub record_failure : ℕ → Circuit → Circuit
record_failure now c = record c {
  state = failed_state c.state (c.failures + 1);
  failures = c.failures + 1;
  last_failure_time = some now;
  probe_in_flight = false;
  total_failures = c.total_failures + 1;
}

unfoldable pub recovered_state : CircuitState → CircuitState
recovered_state half_open = closed
recovered_state opened = opened
recovered_state closed = closed

unfoldable pub is_recovery : CircuitState → ℕ → Bool
is_recovery half_open failures = true
is_recovery opened failures = ltb 0 failures
is_recovery closed failures = ltb 0 failures

-- `_recordSuccess`, on the circuit.
unfoldable pub record_success : Circuit → Circuit
record_success c = record c {
  state = recovered_state c.state;
  failures = 0;
  probe_in_flight = false;
  total_recoveries =
      if is_recovery c.state c.failures then c.total_recoveries + 1 else c.total_recoveries;
}

unfoldable pub metrics_or_new : ℕ → Option Metrics → Metrics
metrics_or_new now none = record {
  success_count = 0;
  failure_count = 0;
  last_updated = now;
  recent_outcomes = [];
}
metrics_or_new now (some m) = m

-- `if (list.length > size) list.shift()`
unfoldable pub shift_above {ℓ} : {A : Type ℓ} → ℕ → List A → List A
shift_above size [] = []
shift_above size (x ∷ xs) = if ltb size (suc (length xs)) then xs else x ∷ xs

unfoldable pub within_window : ℕ → List Recent → List Recent
within_window now [] = []
within_window now (r ∷ rs) =
    let rest = within_window now rs in if ltb now (r.timestamp + 60000) then r ∷ rest else rest

-- `_updateRecoveryMetrics`, on the entry.
unfoldable pub update_recovery_metrics : ℕ → Bool → Metrics → Metrics
update_recovery_metrics now success m = record {
  success_count = if success then m.success_count + 1 else m.success_count;
  failure_count = if success then m.failure_count else m.failure_count + 1;
  last_updated = now;
  recent_outcomes =
      within_window now (
        shift_above 100
          (m.recent_outcomes ++ (record { success = success; timestamp = now } ∷ [])));
}

unfoldable pub letter : ℕ → String → OperationError → ℕ → DeadLetter
letter now context e attempts =
    let type = (classify_error e).type in
    record {
      context = context;
      error_type = type;
      attempts = attempts;
      enqueued_at = now;
      priority = classify_error_priority type;
      retryable = is_retryable_error type;
      recommended_action = get_recommended_action type;
    }

-- `_pushToDeadLetterQueue`
unfoldable pub push_to_dead_letter_queue : DeadLetter → List DeadLetter → List DeadLetter
push_to_dead_letter_queue d ds = shift_above 99 ds ++ (d ∷ [])
