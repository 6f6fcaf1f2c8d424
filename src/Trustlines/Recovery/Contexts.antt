-- ===== src/Trustlines/Recovery/Contexts.antt =====
-- The contexts of the error recovery side by side.
use stellar_payment_api.Base.{
  ℕ, zero, suc, ◌≡◌, refl, ◌∙◌, String, Bool, true, false, ◌&&◌, Option, none, some, List, [], ◌∷◌,
  if◌then◌else◌, ◌==◌, str_eq, eq_iff, Option-cases, inl, inr, if_both, arith,
}
use stellar_payment_api.OrderedMap
use stellar_payment_api.OrderedMap.{get-set, get-delete_ne}
use stellar_payment_api.Trustlines.Recovery.{
  Call, succeeds, fails, End, Recovery, on_circuit, count_outcome, failure_recorded,
  success_recorded, dead_lettered, settle, exhausted, enter, dispatch, execute_with_recovery,
  give_up, is_last, finish, extract, attempt_ended, asked, reset_circuit_breaker,
  drain_dead_letter_queue, Event, executes, attempt_ends, asks, resets, drains, records_failure,
  step, run,
}
use stellar_payment_api.Trustlines.Circuits.{
  Circuit, Metrics, update_recovery_metrics, metrics_or_new, record_failure, record_success,
  Disposition, allow, probe, reject, circuit_or_new, circuit_breaker_disposition, take_probe,
  letter,
}
use stellar_payment_api.Trustlines.Errors.{classify_error}

-- Whether a reset is one of the context's circuit.
unfoldable pub resets_circuit : String → Option String → Bool
resets_circuit context none = true
resets_circuit context (some other) = str_eq other context

module _ {R : Type 0} (context : String) where
  -- How many calls run in the context.
  unfoldable pub running_in : List (Call R) → ℕ
  running_in [] = 0
  running_in (c ∷ cs) = if str_eq c.context context then suc (running_in cs) else running_in cs

  unfoldable pub ends_call : End R → Option (Call R × List (Call R)) → Bool
  ends_call end none = false
  ends_call end (some (c, others)) = str_eq c.context context && is_last c end

  unfoldable pub belongs : Option (Call R × List (Call R)) → Bool
  belongs none = false
  belongs (some (c, others)) = str_eq c.context context

  -- Whether an event is about the context.
  unfoldable pub concerns : Event R → Recovery R → Bool
  concerns (executes now other max_attempts fallback) s = str_eq other context
  concerns (attempt_ends now place end) s = belongs (extract place s.running)
  concerns (asks now other) s = str_eq other context
  concerns (resets other) s = resets_circuit context other
  concerns drains s = false
  concerns (records_failure now) s = str_eq "default" context

  abbrev pub IsElsewhere : List (Event R) → Recovery R → Type 0
  IsElsewhere [] s = Unit
  IsElsewhere (e ∷ es) s = (concerns e s ≡ false) × IsElsewhere es (step e s)

  -- The circuit and the metrics of the context, and how many of its calls run.
  abbrev pub Keeps : Option Circuit → Option Metrics → ℕ → Recovery R → Type 0
  Keeps o m n s =
      (OrderedMap.get context s.circuits ≡ o)
      × (OrderedMap.get context s.metrics ≡ m)
      × (running_in s.running ≡ n)

  running_in-extract :
      (i : ℕ) (cs : List (Call R)) {c : Call R} {others : List (Call R)}
      → extract i cs ≡ some (c, others)
      → running_in (c ∷ others) ≡ running_in cs
  unfolding extract running_in
  running_in-extract i [] e = cc
  running_in-extract zero (d ∷ cs) e = ground (arith, e)
  running_in-extract (suc i) (d ∷ cs) {c} e = elim (Option-cases (extract i cs)) [
    | inl out ↦ ground (arith, out)
    | inr ((c', others'), found) ↦ ground (arith, found, running_in-extract i cs found)
  ]

  -- What concerns another context.
  module _ (o : Option Circuit) (m : Option Metrics) (n : ℕ) (other : String)
      (ne : str_eq other context ≡ false) where
    on_circuit-Keeps :
        (change : Circuit → Circuit) (s : Recovery R)
        → Keeps o m n s
        → Keeps o m n (on_circuit other change s)
    unfolding on_circuit
    on_circuit-Keeps change s (circuit, metrics, running) = (
      get-set other context (change (circuit_or_new (OrderedMap.get other s.circuits))) s.circuits
          ∙ ground (arith, ne, circuit),
      metrics,
      running,
    )

    count_outcome-Keeps :
        (now : ℕ) (success : Bool) (s : Recovery R)
        → Keeps o m n s
        → Keeps o m n (count_outcome now other success s)
    unfolding count_outcome
    count_outcome-Keeps now success s (circuit, metrics, running) = (
      circuit,
      get-set other context
            (update_recovery_metrics now success
              (metrics_or_new now (OrderedMap.get other s.metrics)))
            s.metrics
          ∙ ground (arith, ne, metrics),
      running,
    )

    pub failure_recorded-Keeps :
        (now : ℕ) (s : Recovery R) → Keeps o m n s → Keeps o m n (failure_recorded now other s)
    unfolding failure_recorded
    failure_recorded-Keeps now s keeps =
        count_outcome-Keeps now false (on_circuit other (record_failure now) s)
          (on_circuit-Keeps (record_failure now) s keeps)

  module _ (o : Option Circuit) (m : Option Metrics) (n : ℕ) where
    enter-Keeps :
        (now : ℕ) (call : Call R) (s : Recovery R)
        → str_eq call.context context ≡ false
        → Keeps o m n s
        → Keeps o m n (enter now call s)
    unfolding enter exhausted settle dead_lettered running_in
    enter-Keeps now call s ne keeps =
        if_both (Keeps o m n) (call.max_attempts == 0) (exhausted now call s)
          (record s { running = call ∷ s.running })
          (λ _. failure_recorded-Keeps o m n call.context ne now s keeps)
          (λ _. ground (arith, ne, keeps))

    dispatch-Keeps :
        (now : ℕ) (call : Call R) (d : Disposition) (s : Recovery R)
        → str_eq call.context context ≡ false
        → Keeps o m n s
        → Keeps o m n (dispatch now call d s)
    unfolding dispatch settle
    dispatch-Keeps now call allow s ne keeps = enter-Keeps now call s ne keeps
    dispatch-Keeps now call probe s ne keeps =
        enter-Keeps now (record call { max_attempts = 1 }) s ne keeps
    dispatch-Keeps now call reject s ne keeps = keeps

    finish-Keeps :
        (now : ℕ) (call : Call R) (end : End R) (s : Recovery R)
        → str_eq call.context context ≡ false
        → Keeps o m n s
        → Keeps o m n (finish now call end s)
    unfolding finish give_up success_recorded settle dead_lettered
    finish-Keeps now call (succeeds r) s ne keeps =
        count_outcome-Keeps o m n call.context ne now true
          (on_circuit call.context record_success s)
          (on_circuit-Keeps o m n call.context ne record_success s keeps)
    finish-Keeps now call (fails e) s ne keeps =
        let recorded = failure_recorded now call.context s in
        let kept = failure_recorded-Keeps o m n call.context ne now s keeps in
        if_both (Keeps o m n) (classify_error e).retryable recorded
          (dead_lettered (letter now call.context e call.attempt) recorded) (λ _. kept) (λ _. kept)

    pub attempt_ended-Keeps :
        (now place : ℕ) (end : End R) (s : Recovery R)
        → ends_call end (extract place s.running) ≡ false
        → Keeps o m n s
        → Keeps o m n (attempt_ended now end (extract place s.running) s)
    unfolding attempt_ended ends_call running_in
    attempt_ended-Keeps now place end s undecided (circuit, metrics, running) =
        elim (Option-cases (extract place s.running)) [
          | inl out ↦ rw out (circuit, metrics, running)
          | inr ((call, others), found) ↦
              let counted = running_in-extract place s.running found in
              rw found (
                if_both (Keeps o m n) (is_last call end)
                  (finish now call end (record s { running = others }))
                  (record s { running = record call { attempt = suc call.attempt } ∷ others })
                  (λ last.
                    finish-Keeps now call end (record s { running = others })
                      (ground (arith, undecided, found, last))
                      (circuit, metrics, ground (arith, undecided, found, last, counted, running)))
                  (λ _. (circuit, metrics, counted ∙ running)))
        ]

    pub reset-Keeps :
        (other : Option String) (s : Recovery R)
        → resets_circuit context other ≡ false
        → Keeps o m n s
        → Keeps o m n (reset_circuit_breaker other s)
    unfolding reset_circuit_breaker resets_circuit
    reset-Keeps none s ne keeps = cc
    reset-Keeps (some other) s ne (circuit, metrics, running) = (
      get-delete_ne context other s.circuits (ground (arith, ne, eq_iff other context)) ∙ circuit,
      metrics,
      running,
    )

    belongs-ends_call :
        (end : End R) (o' : Option (Call R × List (Call R)))
        → belongs o' ≡ false
        → ends_call end o' ≡ false
    unfolding belongs ends_call
    belongs-ends_call end none ne = refl
    belongs-ends_call end (some (call, others)) ne = ground (arith, ne)

    pub step-Keeps :
        (e : Event R) (s : Recovery R)
        → concerns e s ≡ false
        → Keeps o m n s
        → Keeps o m n (step e s)
    unfolding step concerns execute_with_recovery asked drain_dead_letter_queue
    step-Keeps (executes now other max_attempts fallback) s ne keeps =
        let c = circuit_or_new (OrderedMap.get other s.circuits) in
        let (c', disposition) = take_probe (circuit_breaker_disposition now c) in
        let call : Call R = record {
          id = s.calls;
          context = other;
          attempt = 1;
          max_attempts = max_attempts;
          fallback = fallback;
        } in
        dispatch-Keeps now call disposition
          (record (on_circuit other (λ _. c') s) { calls = suc s.calls }) ne
          (on_circuit-Keeps o m n other ne (λ _. c') s keeps)
    step-Keeps (attempt_ends now place end) s ne keeps =
        attempt_ended-Keeps now place end s (belongs-ends_call end (extract place s.running) ne)
          keeps
    step-Keeps (asks now other) s ne keeps =
        on_circuit-Keeps o m n other ne (λ c. (circuit_breaker_disposition now c).0) s keeps
    step-Keeps (resets other) s ne keeps = reset-Keeps other s ne keeps
    step-Keeps drains s ne keeps = keeps
    step-Keeps (records_failure now) s ne keeps =
        failure_recorded-Keeps o m n "default" ne now s keeps

    elsewhere_from :
        (es : List (Event R)) (s : Recovery R)
        → IsElsewhere es s
        → Keeps o m n s
        → Keeps o m n (run es s)
    unfolding run
    elsewhere_from [] s elsewhere keeps = keeps
    elsewhere_from (e ∷ es) s (ne, elsewhere) keeps =
        elsewhere_from es (step e s) elsewhere (step-Keeps e s ne keeps)

  -- Whatever happens in the other contexts, side by side: the circuit and the metrics of a context
  -- stay as they are, and none of its calls begins or ends.
  contexts_isolated :
      (es : List (Event R)) (s : Recovery R)
      → IsElsewhere es s
      → Keeps
          (OrderedMap.get context s.circuits)
          (OrderedMap.get context s.metrics)
          (running_in s.running)
          (run es s)
  contexts_isolated es s elsewhere =
      elsewhere_from (OrderedMap.get context s.circuits) (OrderedMap.get context s.metrics)
        (running_in s.running) es s elsewhere (refl, refl, refl)
