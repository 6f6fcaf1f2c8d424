-- ===== src/Tests/Trustlines.antt =====
-- A small history of the trustline manager.
use stellar_payment_api.Base.{ℕ, ◌≡◌, refl, true, false, none, some, List, [], ◌∷◌, ◌++◌}
use stellar_payment_api.OrderedMap
use stellar_payment_api.Trustlines.Errors.{
  OperationError, includes, or_status, is_status, is_between, classify_error,
  classify_trustline_error, classify_client_error, is_network_error,
}
use stellar_payment_api.Trustlines.Circuits.{
  half_open, Circuit, or_zero, circuit_or_new, disposition_in, circuit_breaker_disposition,
  take_probe, failed_state, record_failure, metrics_or_new, shift_above, within_window,
  update_recovery_metrics,
}
use stellar_payment_api.Trustlines.Recovery.{
  Recovery, with_fallback, on_circuit, count_outcome, failure_recorded, dead_lettered, settle,
  enter, dispatch, execute_with_recovery, give_up, is_last, finish, extract, attempt_ended, Event,
  executes, attempt_ends, asks, fails, step, run, start,
}
use stellar_payment_api.Trustlines.Recovery.Contexts.{running_in}
use stellar_payment_api.Trustlines.Recovery.Probes.{decides, probe_alone}
use stellar_payment_api.Trustlines.Recovery.Letters.{
  allows_attempt, AllowsAttempts, HasFinalLetters, run-HasFinalLetters,
}

abbrev unauthorized : OperationError
unauthorized = record {
  message = "unauthorized";
  status = some 401;
  response_status = none;
  is_timeout = false;
}

-- One call that fails for good.
abbrev failing : ℕ → List (Event ℕ)
failing now = executes now "horizon" 3 none ∷ attempt_ends now 0 (fails unauthorized) ∷ []

-- Five failures open the circuit, and half a minute later a probe begins.
abbrev history : List (Event ℕ)
history =
    failing 1
    ++ failing 2
    ++ failing 3
    ++ failing 4
    ++ failing 5
    ++ (executes 6 "horizon" 3 none ∷ executes 40000 "horizon" 3 none ∷ [])

abbrev probing : Recovery ℕ
probing = run history start

abbrev circuit : Circuit
circuit = record {
  state = half_open;
  failures = 5;
  last_failure_time = some 5;
  probe_in_flight = true;
  total_failures = 5;
  total_recoveries = 0;
}

probing_circuit : OrderedMap.get "horizon" probing.circuits ≡ some circuit
unfolding run step execute_with_recovery circuit_or_new circuit_breaker_disposition disposition_in
    or_zero take_probe dispatch enter on_circuit settle with_fallback attempt_ended extract is_last
    classify_error classify_trustline_error classify_client_error is_network_error includes
    or_status is_status is_between finish give_up failure_recorded count_outcome record_failure
    failed_state dead_lettered start metrics_or_new update_recovery_metrics shift_above
    within_window
probing_circuit = refl

-- Meanwhile: a rejected call, and a call in another context.
abbrev meanwhile : List (Event ℕ)
meanwhile =
    executes 40001 "horizon" 3 none ∷ asks 40002 "horizon" ∷ executes 40003 "database" 3 none ∷ []

probe_alone_example :
    (OrderedMap.get "horizon" (run meanwhile probing).circuits ≡ some circuit)
    × (running_in "horizon" (run meanwhile probing).running ≡ running_in "horizon" probing.running)
unfolding decides
probe_alone_example =
    probe_alone "horizon" meanwhile probing circuit probing_circuit refl refl
      (refl, (refl, (refl, tt)))

history-AllowsAttempts : AllowsAttempts history
unfolding allows_attempt
history-AllowsAttempts = (
  refl,
  (refl, (refl, (refl, (refl, (refl, (refl, (refl, (refl, (refl, (refl, (refl, tt))))))))))),
)

run-HasFinalLetters_example : HasFinalLetters probing.dead_letters
run-HasFinalLetters_example = run-HasFinalLetters history history-AllowsAttempts
