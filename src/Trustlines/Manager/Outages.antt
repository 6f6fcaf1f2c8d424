-- ===== src/Trustlines/Manager/Outages.antt =====
-- The error recovery of verifications, which sees no error.
use stellar_payment_api.Base.{
  ℕ, ◌≡◌, refl, sym, subst, String, true, Option, none, some, List, [], ◌∷◌, All, arith,
  Option-cases, inl, inr,
}
use stellar_payment_api.OrderedMap
use stellar_payment_api.OrderedMap.{All-set, get-All}
use Prim.Native.String
use stellar_payment_api.Trustlines.Recovery.{
  Call, succeeds, Recovery, on_circuit, count_outcome, success_recorded, settle, enter, dispatch,
  execute_with_recovery, is_last, finish, extract, attempt_ended, start,
}
use stellar_payment_api.Trustlines.Circuits.{
  closed, Circuit, Metrics, allow, circuit_or_new, disposition_in, circuit_breaker_disposition,
  take_probe, record_success, recovered_state, metrics_or_new, update_recovery_metrics,
}
use stellar_payment_api.Trustlines.Verifier.{Verification, Cache, verify_trustline_signature}
use stellar_payment_api.Trustlines.Verifier.Settles.{given, settles}
use stellar_payment_api.Trustlines.Operations.{Validators}
use stellar_payment_api.Trustlines.Manager.{
  Manager, Event, verifies, verified, verify_trustline_transaction, attempt_verified, end_of, step,
  run, create,
}

abbrev pub IsQuietCircuit : String × Circuit → Type 0
IsQuietCircuit (context, c) = (c.state ≡ closed) × (c.failures ≡ 0) × (c.total_failures ≡ 0)

abbrev pub IsQuietMetrics : String × Metrics → Type 0
IsQuietMetrics (context, m) = m.failure_count ≡ 0

-- Nothing in the error recovery tells of a failure.
pub record IsQuiet (s : Recovery Verification) : Type 0 where
  pub circuits_quiet : All IsQuietCircuit s.circuits
  pub metrics_quiet : All IsQuietMetrics s.metrics
  pub no_letters : s.dead_letters ≡ []

circuit_quiet :
    (context : String) (m : List (String × Circuit))
    → All IsQuietCircuit m
    → IsQuietCircuit (context, circuit_or_new (OrderedMap.get context m))
unfolding circuit_or_new
circuit_quiet context m quiet = elim (Option-cases (OrderedMap.get context m)) [
  | inl out ↦ rw out (refl, refl, refl)
  | inr (c, found) ↦ rw found (get-All IsQuietCircuit context m found quiet)
]

metrics_or_new_quiet :
    (now : ℕ) (context : String) (m : List (String × Metrics))
    → All IsQuietMetrics m
    → (metrics_or_new now (OrderedMap.get context m)).failure_count ≡ 0
unfolding metrics_or_new
metrics_or_new_quiet now context m quiet = elim (Option-cases (OrderedMap.get context m)) [
  | inl out ↦ rw out refl
  | inr (c, found) ↦ rw found (get-All IsQuietMetrics context m found quiet)
]

allowed :
    (now : ℕ) (c : Circuit)
    → c.state ≡ closed
    → take_probe (circuit_breaker_disposition now c) ≡ (c, allow)
unfolding take_probe circuit_breaker_disposition disposition_in
allowed now c is_closed = ground (arith, is_closed)

success-IsQuietCircuit :
    (context : String) (c : Circuit)
    → IsQuietCircuit (context, c)
    → IsQuietCircuit (context, record_success c)
unfolding record_success recovered_state
success-IsQuietCircuit context c quiet = ground (arith, quiet)

execute-IsQuiet :
    (now : ℕ) (context : String) (s : Recovery Verification)
    → IsQuiet s
    → IsQuiet (execute_with_recovery now context 3 none s)
unfolding execute_with_recovery dispatch enter on_circuit
execute-IsQuiet now context s quiet =
    let c = circuit_or_new (OrderedMap.get context s.circuits) in
    let still = circuit_quiet context s.circuits quiet.circuits_quiet in
    rw (allowed now c (still.0)) (record {
      circuits_quiet = All-set IsQuietCircuit context c s.circuits still quiet.circuits_quiet;
      metrics_quiet = quiet.metrics_quiet;
      no_letters = quiet.no_letters;
    })

success-IsQuiet :
    (now : ℕ) (context : String) (s : Recovery Verification)
    → IsQuiet s
    → IsQuiet (success_recorded now context s)
unfolding success_recorded on_circuit count_outcome update_recovery_metrics
success-IsQuiet now context s quiet =
    let c = circuit_or_new (OrderedMap.get context s.circuits) in
    let m = metrics_or_new now (OrderedMap.get context s.metrics) in
    record {
      circuits_quiet =
          All-set IsQuietCircuit context (record_success c) s.circuits
            (success-IsQuietCircuit context c
              (circuit_quiet context s.circuits quiet.circuits_quiet))
            quiet.circuits_quiet;
      metrics_quiet =
          All-set IsQuietMetrics context (update_recovery_metrics now true m) s.metrics
            (metrics_or_new_quiet now context s.metrics quiet.metrics_quiet) quiet.metrics_quiet;
      no_letters = quiet.no_letters;
    }

attempt_ended-IsQuiet :
    (now : ℕ) (r : Verification) (o : Option (Call Verification × List (Call Verification)))
    (s : Recovery Verification)
    → IsQuiet s
    → IsQuiet (attempt_ended now (succeeds r) o s)
unfolding attempt_ended is_last finish settle
attempt_ended-IsQuiet now r none s quiet = quiet
attempt_ended-IsQuiet now r (some (c, others)) s quiet =
    let ended : Recovery Verification = record s { running = others } in
    let recorded = success-IsQuiet now c.context ended (record {
      circuits_quiet = quiet.circuits_quiet;
      metrics_quiet = quiet.metrics_quiet;
      no_letters = quiet.no_letters;
    }) in
    record {
      circuits_quiet = recorded.circuits_quiet;
      metrics_quiet = recorded.metrics_quiet;
      no_letters = recorded.no_letters;
    }

module _ (validators : Validators) where
  step-IsQuiet :
      (e : Event) (s : Manager) → IsQuiet s.recovery → IsQuiet (step validators e s).recovery
  unfolding step verify_trustline_transaction attempt_verified
  step-IsQuiet (verifies now tx_hash) s quiet =
      execute-IsQuiet now (String.◌++◌ "verify trustline transaction " tx_hash) s.recovery quiet
  step-IsQuiet (verified now place q rejection) s quiet =
      let (m, r) = verify_trustline_signature validators q s.cache in
      subst
        (λ (p : Cache × Option Verification).
          IsQuiet (
            attempt_ended now (end_of rejection p.1) (extract place s.recovery.running) s.recovery))
        (sym (settles validators q s.cache))
        (unfold end_of in
          unfold given in
          attempt_ended-IsQuiet now r (extract place s.recovery.running) s.recovery quiet)

  run-IsQuiet :
      (es : List Event) (s : Manager) → IsQuiet s.recovery → IsQuiet (run validators es s).recovery
  unfolding run
  run-IsQuiet [] s quiet = quiet
  run-IsQuiet (e ∷ es) s quiet = run-IsQuiet es (step validators e s) (step-IsQuiet e s quiet)

  -- Whatever Horizon answers, and also where all of its calls throw, since the verification catches
  -- what is thrown in it: in every run of verifications of which none times out, the error recovery
  -- sees no failure. No circuit opens, none counts a failure, and no letter is left.
  pub verifications-IsQuiet : (es : List Event) → IsQuiet (run validators es create).recovery
  verifications-IsQuiet es = run-IsQuiet es create (
      unfold create in
      unfold start in record { circuits_quiet = tt; metrics_quiet = tt; no_letters = refl })
