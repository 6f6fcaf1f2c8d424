-- ===== src/Trustlines/Recovery/Probes.antt =====
-- A half-open circuit and its probe.
use stellar_payment_api.Base.{
  ℕ, ◌≡◌, refl, ◌∙◌, String, Bool, true, false, Option, some, List, [], ◌∷◌, str_eq, eq_iff,
  eq_refl, subst, sym, Bool-cases, inl, inr, arith,
}
use stellar_payment_api.OrderedMap
use stellar_payment_api.OrderedMap.{get-set, get-delete_ne}
use stellar_payment_api.Trustlines.Recovery.{
  Recovery, Failure, on_circuit, settle, dispatch, execute_with_recovery, extract, asked,
  drain_dead_letter_queue, Event, executes, attempt_ends, asks, resets, drains, records_failure,
  step, run,
}
use stellar_payment_api.Trustlines.Circuits.{
  half_open, Circuit, Metrics, reject, circuit_or_new, disposition_in, circuit_breaker_disposition,
  take_probe,
}
use stellar_payment_api.Trustlines.Recovery.Contexts.{
  resets_circuit, running_in, ends_call, concerns, Keeps, attempt_ended-Keeps, reset-Keeps,
  step-Keeps, failure_recorded-Keeps,
}

module _ (c : Circuit) (now : ℕ) (waits : c.state ≡ half_open) where
  rejected : c.probe_in_flight ≡ true → take_probe (circuit_breaker_disposition now c) ≡ (c, reject)
  unfolding take_probe circuit_breaker_disposition disposition_in
  rejected in_flight = ground (arith, waits, in_flight)

  asked_again : (circuit_breaker_disposition now c).0 ≡ c
  unfolding circuit_breaker_disposition disposition_in
  asked_again = ground (arith, waits)

module _ {R : Type 0} (context : String) where
  -- Whether an event ends a call of the context, or resets the context's circuit.
  unfoldable pub decides : Event R → Recovery R → Bool
  decides (executes now other max_attempts fallback) s = false
  decides (attempt_ends now place end) s = ends_call context end (extract place s.running)
  decides (asks now other) s = false
  decides (resets other) s = resets_circuit context other
  decides drains s = false
  decides (records_failure now) s = str_eq "default" context

  abbrev pub Undecided : List (Event R) → Recovery R → Type 0
  Undecided [] s = Unit
  Undecided (e ∷ es) s = (decides e s ≡ false) × Undecided es (step e s)

  -- While the probe of a half-open circuit runs.
  module _ (c : Circuit) (m : Option Metrics) (n : ℕ) (waits : c.state ≡ half_open)
      (in_flight : c.probe_in_flight ≡ true) where
    set-Keeps :
        (s : Recovery R)
        → Keeps context (some c) m n s
        → Keeps context (some c) m n (on_circuit context (λ _. c) s)
    unfolding on_circuit
    set-Keeps s (circuit, metrics, running) =
        (get-set context context c s.circuits ∙ ground (arith, eq_refl context), metrics, running)

    waiting-Keeps :
        (now max_attempts : ℕ) (fallback : Option (Failure → Option R)) (s : Recovery R)
        → Keeps context (some c) m n s
        → Keeps context (some c) m n (execute_with_recovery now context max_attempts fallback s)
    unfolding execute_with_recovery dispatch settle circuit_or_new
    waiting-Keeps now max_attempts fallback s (circuit, metrics, running) =
        rw (circuit, rejected c now waits in_flight) (set-Keeps s (circuit, metrics, running))

    asked-Keeps :
        (now : ℕ) (s : Recovery R)
        → Keeps context (some c) m n s
        → Keeps context (some c) m n (asked now context s)
    unfolding asked on_circuit circuit_or_new
    asked-Keeps now s (circuit, metrics, running) =
        rw (circuit, asked_again c now waits)
          (unfold on_circuit in set-Keeps s (circuit, metrics, running))

    undecided-step :
        (e : Event R) (s : Recovery R)
        → decides e s ≡ false
        → Keeps context (some c) m n s
        → Keeps context (some c) m n (step e s)
    unfolding step decides concerns drain_dead_letter_queue
    undecided-step (executes now other max_attempts fallback) s undecided keeps =
        elim (Bool-cases (str_eq other context)) [
          | inl here ↦
              subst
                (λ k.
                  Keeps context (some c) m n (execute_with_recovery now k max_attempts fallback s))
                (sym ((eq_iff other context).0 here))
                (waiting-Keeps now max_attempts fallback s keeps)
          | inr ne ↦
              step-Keeps context (some c) m n (executes now other max_attempts fallback) s ne keeps
        ]
    undecided-step (attempt_ends now place end) s undecided keeps =
        attempt_ended-Keeps context (some c) m n now place end s undecided keeps
    undecided-step (asks now other) s undecided keeps = elim (Bool-cases (str_eq other context)) [
      | inl here ↦
          subst (λ k. Keeps context (some c) m n (asked now k s))
            (sym ((eq_iff other context).0 here)) (asked-Keeps now s keeps)
      | inr ne ↦ step-Keeps context (some c) m n (asks now other) s ne keeps
    ]
    undecided-step (resets other) s undecided keeps =
        reset-Keeps context (some c) m n other s undecided keeps
    undecided-step drains s undecided keeps = keeps
    undecided-step (records_failure now) s undecided keeps =
        failure_recorded-Keeps context (some c) m n "default" undecided now s keeps

    run-Keeps :
        (es : List (Event R)) (s : Recovery R)
        → Undecided es s
        → Keeps context (some c) m n s
        → Keeps context (some c) m n (run es s)
    unfolding run
    run-Keeps [] s undecided keeps = keeps
    run-Keeps (e ∷ es) s (same, undecided) keeps =
        run-Keeps es (step e s) undecided (undecided-step e s same keeps)

  -- While the probe of a half-open circuit runs, every other call in its context is rejected: until
  -- a call of the context ends or its circuit is reset, whatever calls are made and attempts end in
  -- between, the circuit waits for its probe, and as many calls of the context run as before.
  pub probe_alone :
      (es : List (Event R)) (s : Recovery R) (c : Circuit)
      → OrderedMap.get context s.circuits ≡ some c
      → c.state ≡ half_open
      → c.probe_in_flight ≡ true
      → Undecided es s
      → (OrderedMap.get context (run es s).circuits ≡ some c)
        × (running_in context (run es s).running ≡ running_in context s.running)
  probe_alone es s c here waits in_flight undecided =
      let (circuit, metrics, running) =
        run-Keeps c (OrderedMap.get context s.metrics) (running_in context s.running) waits
          in_flight es s undecided (here, refl, refl) in
      (circuit, running)
