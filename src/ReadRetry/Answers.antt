-- ===== src/ReadRetry/Answers.antt =====
-- Which query a read answers with.
use stellar_payment_api.Base.{
  ℕ, zero, suc, ◌+◌, ◌-◌, ◌≤◌, ◌≡◌, ◌∙◌, sym, ap, ◌⊎◌, inl, inr, refl, ◌&&◌, Bool, true, false,
  Option, none, some, List, [], ◌∷◌, if◌then◌else◌, ltb, leb, Bool-cases, arith,
}
use stellar_payment_api.ReadRetry.{
  Resolved, Failure, Result, mark, mark_caught, mark_error, Answer, answers, throws, Attempt, gives,
  fails, Event, scheduled, recovered, exhausted, Run, Environment, carry, run_query, is_retryable,
  compute_backoff_delay, sleeping, after_attempt, retry_from, retry_with_backoff, unwrap, read_of,
  retry_supabase_read,
}

module _ {D X : Type 0} (env : Environment D X) where
  unfoldable pub is_transient_error : Option (Failure X) → Bool
  is_transient_error none = false
  is_transient_error (some e) = env.should_retry e

  -- The query failed in a way that a retry can mend.
  unfoldable pub is_transient : Answer D X → Bool
  is_transient (answers r) = is_transient_error r.error
  is_transient (throws e) = env.should_retry e

  -- The answer of a query as the caller sees it: an error that is thrown, and a transient error of a
  -- result, have the number of attempts noted on them, if they are objects. Nothing else changes.
  unfoldable pub noted : ℕ → Answer D X → Answer D X
  noted attempts (throws e) =
      throws (if e.is_object then record e { retry_attempts = some attempts } else e)
  noted attempts (answers r) = answers (record r {
    error = elim r.error [
      | none ↦ none
      | some e ↦ some (
          if env.should_retry e && e.is_object
          then record e { retry_attempts = some attempts }
          else e)
    ];
  })

  unfoldable goes_on : Attempt D X → Bool
  goes_on (gives r) = false
  goes_on (fails f) = is_retryable env f

  goes_on-carry :
      (r : Result D X) (o : Option (Failure X)) → goes_on (carry env r o) ≡ is_transient_error o
  unfolding goes_on carry is_transient_error is_retryable
  goes_on-carry r none = refl
  goes_on-carry r (some e) = ground arith

  goes_on-run_query : (a : Answer D X) → goes_on (run_query env a) ≡ is_transient a
  unfolding goes_on run_query is_transient is_retryable
  goes_on-run_query (answers r) = goes_on-carry r r.error
  goes_on-run_query (throws e) = refl

  -- How an attempt that is the last one ends the loop.
  unfoldable ended : ℕ → Attempt D X → Attempt D X
  ended attempt (gives r) = gives r
  ended attempt (fails f) = fails (mark_caught attempt f)

  unwrap-ended_carry :
      (attempt : ℕ) (d : D) (o : Option (Failure X))
      → unwrap (ended attempt (carry env (record { data_of = d; error = o }) o))
        ≡ noted attempt (answers (record { data_of = d; error = o }))
  unfolding unwrap carry ended mark_caught mark_error mark noted
  unwrap-ended_carry attempt d none = refl
  unwrap-ended_carry attempt d (some e) = ground (arith, Bool-cases (env.should_retry e))

  unwrap-ended :
      (attempt : ℕ) (a : Answer D X) → unwrap (ended attempt (run_query env a)) ≡ noted attempt a
  unfolding unwrap run_query ended mark_caught mark noted
  unwrap-ended attempt (answers r) = unwrap-ended_carry attempt r.data_of r.error
  unwrap-ended attempt (throws e) = refl

module _ {D X : Type 0} (env : Environment D X) (resolved : Resolved) where
  -- An attempt ends the loop, or a sleep comes before the next one.
  after_attempt-cases :
      (attempt : ℕ) (t : Attempt D X) (rest : Option (Run D X))
      → ((events : List Event) × (after_attempt env resolved attempt t rest
            ≡ some (record { outcome = ended env attempt t; events = events }))
          × ((goes_on env t ≡ false) ⊎ (resolved.max_attempts ≤ attempt)))
        ⊎ ((goes_on env t ≡ true)
            × (suc attempt ≤ resolved.max_attempts)
            × (after_attempt env resolved attempt t rest
                ≡ sleeping
                    (scheduled attempt (compute_backoff_delay env resolved (attempt - 1)))
                    rest))
  unfolding after_attempt goes_on ended
  after_attempt-cases attempt (gives r) rest =
      inl (if ltb 1 attempt then recovered attempt ∷ [] else [], refl, inl refl)
  after_attempt-cases attempt (fails f) rest =
      let last = leb resolved.max_attempts attempt in
      let events = if is_retryable env f && last then exhausted attempt ∷ [] else [] in
      elim (Bool-cases (is_retryable env f)) [
        | inr not_one ↦ inl (events, ground (arith, not_one), inl not_one)
        | inl retryable ↦ elim (Bool-cases last) [
          | inl over ↦ inl (events, ground (arith, retryable, over), inr (ground (arith, over)))
          | inr more ↦ inr (retryable, ground (arith, more), ground (arith, retryable, more))
        ]
      ]

  -- What a read answers, from an attempt on.
  abbrev pub AnswersFrom : ℕ → Option (Run D X) → Type 0
  AnswersFrom attempt o =
      (n : ℕ) × (events : List Event) × (read_of o ≡ some (noted env n (env.ends n), events))
      × (attempt ≤ n)
      × (n ≤ resolved.max_attempts)
      × ((is_transient env (env.ends n) ≡ false) ⊎ (n ≡ resolved.max_attempts))
      × ((i : ℕ) → attempt ≤ i → suc i ≤ n → is_transient env (env.ends i) ≡ true)

  last_because :
      (attempt : ℕ)
      → attempt ≤ resolved.max_attempts
      → (goes_on env (run_query env (env.ends attempt)) ≡ false) ⊎ (resolved.max_attempts ≤ attempt)
      → (is_transient env (env.ends attempt) ≡ false) ⊎ (attempt ≡ resolved.max_attempts)
  last_because attempt within (inl fine) =
      inl (sym (goes_on-run_query env (env.ends attempt)) ∙ fine)
  last_because attempt within (inr last) = inr (omega (arith, within, last))

  unfoldable told : Event → Option (Answer D X × List Event) → Option (Answer D X × List Event)
  told event none = none
  told event (some (a, events)) = some (a, event ∷ events)

  read_of-sleeping :
      (event : Event) (o : Option (Run D X)) → read_of (sleeping event o) ≡ told event (read_of o)
  unfolding read_of sleeping told
  read_of-sleeping event none = refl
  read_of-sleeping event (some run) = refl

  answers_from :
      (fuel attempt : ℕ)
      → fuel + attempt ≡ suc resolved.max_attempts
      → attempt ≤ resolved.max_attempts
      → AnswersFrom attempt (retry_from env resolved fuel attempt)
  unfolding retry_from told read_of
  answers_from zero attempt enough within = absurd (omega (arith, enough, within))
  answers_from (suc fuel) attempt enough within =
      let a = env.ends attempt in
      elim (after_attempt-cases attempt (run_query env a)
        (retry_from env resolved fuel (suc attempt))) [
          | inl (events, ends, why) ↦ (
            attempt,
            events,
            ap read_of ends ∙ ap (λ x. some (x, events)) (unwrap-ended env attempt a),
            omega arith,
            within,
            last_because attempt within why,
            λ i low high. absurd (omega (arith, low, high)),
          )
          | inr (again, more, sleeps) ↦
              let (n, events, reads, low, high, why, before) =
                answers_from fuel (suc attempt) (omega (arith, enough)) more in
              let event = scheduled attempt (compute_backoff_delay env resolved (attempt - 1)) in
              (
                n,
                event ∷ events,
                ap read_of sleeps
                    ∙ read_of-sleeping event (retry_from env resolved fuel (suc attempt))
                    ∙ ap (told event) reads,
                omega (arith, low),
                high,
                why,
                λ i from_here below. elim (Bool-cases (leb (suc attempt) i)) [
                  | inl later ↦ before i (ground (arith, later)) below
                  | inr here ↦
                      ap (λ j. is_transient env (env.ends j)) (ground (arith, here, from_here))
                      ∙ sym (goes_on-run_query env a)
                      ∙ again
                ],
              )
        ]

  -- With at least one attempt, a read ends, and with the answer of a single query: the first one
  -- that is not transient, or the one of the last attempt. On an error that is thrown, and on a
  -- transient error in a result, the number of attempts is noted if it is an object; the answer is
  -- the query's otherwise.
  pub retry_supabase_read_lem :
      1 ≤ resolved.max_attempts
      → (n : ℕ) × (events : List Event) × (retry_supabase_read env resolved
          ≡ some (noted env n (env.ends n), events))
        × (1 ≤ n)
        × (n ≤ resolved.max_attempts)
        × ((is_transient env (env.ends n) ≡ false) ⊎ (n ≡ resolved.max_attempts))
        × ((i : ℕ) → 1 ≤ i → suc i ≤ n → is_transient env (env.ends i) ≡ true)
  unfolding retry_supabase_read retry_with_backoff
  retry_supabase_read_lem some_attempt =
      answers_from resolved.max_attempts 1 (omega arith) some_attempt
