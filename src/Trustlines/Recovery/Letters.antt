-- ===== src/Trustlines/Recovery/Letters.antt =====
-- What stands in the dead letter queue.
use stellar_payment_api.Base.{
  ℕ, suc, ◌≤◌, ◌≡◌, ◌≢◌, String, Bool, true, false, Option, none, some, List, [], ◌∷◌, ltb, ◌==◌,
  length, length-append, refl, sym, ◌∙◌, All, All-append, if_both, arith,
}
use stellar_payment_api.Trustlines.Errors.{
  OperationError, low, classify_error, classify_error-is_retryable_error, unretryable_priority,
}
use stellar_payment_api.Trustlines.Recovery.{
  Call, End, succeeds, fails, Recovery, on_circuit, count_outcome, failure_recorded,
  success_recorded, dead_lettered, settle, exhausted, enter, dispatch, execute_with_recovery,
  give_up, is_last, finish, extract, attempt_ended, asked, reset_circuit_breaker,
  drain_dead_letter_queue, Event, executes, attempt_ends, asks, resets, drains, records_failure,
  step, run, start,
}
use stellar_payment_api.Trustlines.Circuits.{
  DeadLetter, Disposition, allow, probe, reject, circuit_or_new, circuit_breaker_disposition,
  take_probe, shift_above, letter, push_to_dead_letter_queue,
}

-- The letter is of an error that is not retryable, and not of the lowest priority.
abbrev pub IsFinal : DeadLetter → Type 0
IsFinal d = (d.retryable ≡ false) × (d.priority ≢ low)

abbrev pub HasFinalLetters : List DeadLetter → Type 0
HasFinalLetters ds = All IsFinal ds × (length ds ≤ 100)

length-shift_above :
    {A : Type 0} (size : ℕ) (xs : List A)
    → length xs ≤ suc size
    → length (shift_above size xs) ≤ size
unfolding shift_above
length-shift_above size [] short = omega arith
length-shift_above size (x ∷ xs) short = ground arith

All-shift_above :
    {A : Type 0} (P : A → Type 0) (size : ℕ) (xs : List A) → All P xs → All P (shift_above size xs)
unfolding shift_above
All-shift_above P size [] holds = tt
All-shift_above P size (x ∷ xs) (p, holds) =
    if_both (All P) (ltb size (suc (length xs))) xs (x ∷ xs) (λ _. holds) (λ _. (p, holds))

push-HasFinalLetters :
    (d : DeadLetter) (ds : List DeadLetter)
    → IsFinal d
    → HasFinalLetters ds
    → HasFinalLetters (push_to_dead_letter_queue d ds)
unfolding push_to_dead_letter_queue
push-HasFinalLetters d ds final (all, short) = (
  All-append IsFinal (shift_above 99 ds) (d ∷ []) (All-shift_above IsFinal 99 ds all) (final, tt),
  omega (arith, length-append (shift_above 99 ds) (d ∷ []), length-shift_above 99 ds short),
)

letter-IsFinal :
    (now : ℕ) (context : String) (e : OperationError) (attempts : ℕ)
    → (classify_error e).retryable ≡ false
    → IsFinal (letter now context e attempts)
unfolding letter
letter-IsFinal now context e attempts unretryable =
    let same = sym (classify_error-is_retryable_error e) ∙ unretryable in
    (same, unretryable_priority (classify_error e).type same)

module _ {R : Type 0} where
  -- Every call is allowed an attempt.
  unfoldable pub allows_attempt : Event R → Bool
  allows_attempt (executes now context max_attempts fallback) = ltb 0 max_attempts
  allows_attempt e = true

  abbrev pub AllowsAttempts : List (Event R) → Type 0
  AllowsAttempts = All (λ e. allows_attempt e ≡ true)

  abbrev IsFine : Recovery R → Type 0
  IsFine s = HasFinalLetters s.dead_letters

  enter-IsFine :
      (now : ℕ) (c : Call R) (s : Recovery R)
      → ltb 0 c.max_attempts ≡ true
      → IsFine s
      → IsFine (enter now c s)
  unfolding enter
  enter-IsFine now c s some_attempt fine =
      if_both IsFine (c.max_attempts == 0) (exhausted now c s)
        (record s { running = c ∷ s.running })
        (λ no_attempt. absurd (ground (arith, some_attempt, no_attempt))) (λ _. fine)

  dispatch-IsFine :
      (now : ℕ) (c : Call R) (d : Disposition) (s : Recovery R)
      → ltb 0 c.max_attempts ≡ true
      → IsFine s
      → IsFine (dispatch now c d s)
  unfolding dispatch settle
  dispatch-IsFine now c allow s some_attempt fine = enter-IsFine now c s some_attempt fine
  dispatch-IsFine now c probe s some_attempt fine =
      enter-IsFine now (record c { max_attempts = 1 }) s refl fine
  dispatch-IsFine now c reject s some_attempt fine = fine

  finish-IsFine :
      (now : ℕ) (c : Call R) (end : End R) (s : Recovery R) → IsFine s → IsFine (finish now c end s)
  unfolding finish give_up success_recorded failure_recorded count_outcome on_circuit settle
      dead_lettered
  finish-IsFine now c (succeeds r) s fine = fine
  finish-IsFine now c (fails e) s fine =
      let recorded = failure_recorded now c.context s in
      if_both IsFine (classify_error e).retryable recorded
        (dead_lettered (letter now c.context e c.attempt) recorded) (λ _. fine)
        (λ unretryable.
          push-HasFinalLetters (letter now c.context e c.attempt) s.dead_letters
            (letter-IsFinal now c.context e c.attempt unretryable) fine)

  attempt_ended-IsFine :
      (now : ℕ) (end : End R) (o : Option (Call R × List (Call R))) (s : Recovery R)
      → IsFine s
      → IsFine (attempt_ended now end o s)
  unfolding attempt_ended
  attempt_ended-IsFine now end none s fine = fine
  attempt_ended-IsFine now end (some (c, others)) s fine =
      if_both IsFine (is_last c end) (finish now c end (record s { running = others }))
        (record s { running = record c { attempt = suc c.attempt } ∷ others })
        (λ _. finish-IsFine now c end (record s { running = others }) fine) (λ _. fine)

  step-IsFine :
      (e : Event R) (s : Recovery R) → allows_attempt e ≡ true → IsFine s → IsFine (step e s)
  unfolding step allows_attempt execute_with_recovery on_circuit asked reset_circuit_breaker
      drain_dead_letter_queue failure_recorded count_outcome
  step-IsFine (executes now context max_attempts fallback) s allowed fine =
      let c = circuit_or_new (stellar_payment_api.OrderedMap.get context s.circuits) in
      let (c', disposition) = take_probe (circuit_breaker_disposition now c) in
      let call : Call R = record {
        id = s.calls;
        context = context;
        attempt = 1;
        max_attempts = max_attempts;
        fallback = fallback;
      } in
      dispatch-IsFine now call disposition
        (record (on_circuit context (λ _. c') s) { calls = suc s.calls }) allowed fine
  step-IsFine (attempt_ends now place end) s allowed fine =
      attempt_ended-IsFine now end (extract place s.running) s fine
  step-IsFine (asks now context) s allowed fine = fine
  step-IsFine (resets none) s allowed fine = fine
  step-IsFine (resets (some context)) s allowed fine = fine
  step-IsFine drains s allowed fine = (tt, omega arith)
  step-IsFine (records_failure now) s allowed fine = fine

  run-IsFine :
      (es : List (Event R)) (s : Recovery R) → AllowsAttempts es → IsFine s → IsFine (run es s)
  unfolding run
  run-IsFine [] s allowed fine = fine
  run-IsFine (e ∷ es) s (now_allowed, allowed) fine =
      run-IsFine es (step e s) allowed (step-IsFine e s now_allowed fine)

  -- In every run whose calls allow an attempt at least, the dead letter queue holds at most 100
  -- letters, and all of them are of errors that are not retryable, none of the lowest priority: a
  -- failure that has used up its retries leaves no letter.
  pub run-HasFinalLetters :
      (es : List (Event R)) → AllowsAttempts es → HasFinalLetters (run es start).dead_letters
  run-HasFinalLetters es allowed = run-IsFine es start allowed (unfold start in (tt, omega arith))
