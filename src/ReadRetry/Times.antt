-- ===== src/ReadRetry/Times.antt =====
-- How often a read tries, and how long it sleeps.
use stellar_payment_api.Base.{
  ℕ, zero, suc, ◌+◌, ◌-◌, ◌*◌, ◌^◌, min, ◌≤◌, ◌≡◌, ◌∙◌, ap, sym, inl, inr, refl, not, ◌||◌, ◌&&◌,
  ◌⊎◌, Option, none, some, List, [], ◌∷◌, if◌then◌else◌, ltb, leb, Bool-cases, arith,
}
use stellar_payment_api.ReadRetry.{
  Given, unusable, negative, number, Resolved, Spec, Sources, clamp_int, resolve_backoff_options,
  Answer, Attempt, gives, fails, Event, scheduled, recovered, exhausted, Run, Environment,
  run_query, unwrap, mark_caught, is_retryable, compute_backoff_delay, sleeping, after_attempt,
  retry_from, retry_with_backoff, read_of, retry_supabase_read,
}

clamped :
    (given : Given) (fallback low high : ℕ)
    → low ≤ high
    → low ≤ fallback
    → fallback ≤ high
    → (low ≤ clamp_int given fallback low high) × (clamp_int given fallback low high ≤ high)
unfolding clamp_int
clamped unusable fallback low high ordered above below = (above, below)
clamped negative fallback low high ordered above below = (omega (arith, ordered), omega arith)
clamped (number n) fallback low high ordered above below = (omega (arith, ordered), omega arith)

clamp_int_below :
    (given : Given) (fallback low high : ℕ)
    → fallback ≤ high
    → clamp_int given fallback low high ≤ high
unfolding clamp_int
clamp_int_below unusable fallback low high below = below
clamp_int_below negative fallback low high below = omega arith
clamp_int_below (number n) fallback low high below = omega arith

-- The milliseconds that the scheduled retries sleep.
unfoldable pub slept_ms : List Event → ℕ
slept_ms [] = 0
slept_ms (scheduled attempt delay ∷ events) = delay + slept_ms events
slept_ms (recovered attempts ∷ events) = slept_ms events
slept_ms (exhausted attempts ∷ events) = slept_ms events

-- How many retries are scheduled; there is one query more.
unfoldable pub retries : List Event → ℕ
retries [] = 0
retries (scheduled attempt delay ∷ events) = suc (retries events)
retries (recovered attempts ∷ events) = retries events
retries (exhausted attempts ∷ events) = retries events

module _ {D X : Type 0} (env : Environment D X) (resolved : Resolved) where
  -- An attempt ends the loop without a sleep, or it is not the last one.
  after_attempt-sleeps :
      (attempt : ℕ) (t : Attempt D X) (rest : Option (Run D X))
      → ((run : Run D X) × (after_attempt env resolved attempt t rest ≡ some run)
          × (slept_ms run.events ≡ 0)
          × (retries run.events ≡ 0))
        ⊎ ((suc attempt ≤ resolved.max_attempts)
            × (after_attempt env resolved attempt t rest
                ≡ sleeping
                    (scheduled attempt (compute_backoff_delay env resolved (attempt - 1)))
                    rest))
  unfolding after_attempt slept_ms retries
  after_attempt-sleeps attempt (gives r) rest =
      let run : Run D X = record {
        outcome = gives r;
        events = if ltb 1 attempt then recovered attempt ∷ [] else [];
      } in
      inl (run, refl, ground arith, ground arith)
  after_attempt-sleeps attempt (fails f) rest =
      let last = leb resolved.max_attempts attempt in
      let run : Run D X = record {
        outcome = fails (mark_caught attempt f);
        events = if is_retryable env f && last then exhausted attempt ∷ [] else [];
      } in
      elim (Bool-cases (not (is_retryable env f) || last)) [
        | inl over ↦ inl (run, ground (arith, over), ground arith, ground arith)
        | inr more ↦ inr (ground (arith, more), ground (arith, more))
      ]

  slept_from :
      (left attempt : ℕ)
      → ((i c : ℕ) → env.jittered i c ≤ c)
      → left + attempt ≡ resolved.max_attempts
      → (run : Run D X) × (retry_from env resolved (suc left) attempt ≡ some run)
        × (retries run.events ≤ left)
        × (slept_ms run.events ≤ left * resolved.max_delay_ms)
  unfolding retry_from sleeping slept_ms retries compute_backoff_delay
  slept_from zero attempt below enough =
      elim (after_attempt-sleeps attempt (run_query env (env.ends attempt)) none) [
        | inl (run, ends, none_slept, none_retried) ↦
            (run, ends, omega (arith, none_retried), omega (arith, none_slept))
        | inr (more, sleeps) ↦ absurd (omega (arith, more, enough))
      ]
  slept_from (suc left) attempt below enough =
      let (last, continues, few, before) =
        slept_from left (suc attempt) below (omega (arith, enough)) in
      let rest = retry_from env resolved (suc left) (suc attempt) in
      elim (after_attempt-sleeps attempt (run_query env (env.ends attempt)) rest) [
        | inl (run, ends, none_slept, none_retried) ↦
            (run, ends, omega (arith, none_retried), omega (arith, none_slept))
        | inr (more, sleeps) ↦
            let delay = compute_backoff_delay env resolved (attempt - 1) in
            let short =
              below (attempt - 1)
                (min resolved.max_delay_ms (resolved.base_delay_ms * 2 ^ (attempt - 1))) in
            (
              record last { events = scheduled attempt delay ∷ last.events },
              ground (arith, sleeps, continues),
              omega (arith, few),
              omega (arith, short, before),
            )
      ]

module _ {D X : Type 0} (env : Environment D X) where
  -- Whatever the options and the environment variables say, where the defaults lie within the
  -- ceilings and the random part of a delay is at most the delay: a read ends with an answer, after
  -- at most as many queries as the ceiling says, one more than the retries it schedules; and it
  -- sleeps in all at most the longest delay allowed for each retry that the ceiling allows.
  pub sleeps_below_ceilings :
      (sources : Sources) (spec : Spec)
      → ((i c : ℕ) → env.jittered i c ≤ c)
      → 1 ≤ spec.defaults.max_attempts
      → spec.defaults.max_attempts ≤ spec.max_attempts_ceiling
      → spec.defaults.max_delay_ms ≤ spec.max_delay_ceiling_ms
      → (a : Answer D X) × (events : List Event) × (retry_supabase_read env
            (resolve_backoff_options sources spec)
          ≡ some (a, events))
        × (suc (retries events) ≤ spec.max_attempts_ceiling)
        × (slept_ms events ≤ (spec.max_attempts_ceiling - 1) * spec.max_delay_ceiling_ms)
  unfolding retry_supabase_read retry_with_backoff resolve_backoff_options read_of
  sleeps_below_ceilings sources spec below some_default attempts_in delay_in =
      let resolved = resolve_backoff_options sources spec in
      let (low, high) =
        clamped sources.attempts spec.defaults.max_attempts 1 spec.max_attempts_ceiling
          (omega (arith, some_default, attempts_in)) some_default attempts_in in
      let (run, ends, few, short) =
        slept_from env resolved (resolved.max_attempts - 1) 1 below (omega (arith, low)) in
      let fuelled : suc (resolved.max_attempts - 1) ≡ resolved.max_attempts = omega (arith, low) in
      (
        unwrap run.outcome,
        run.events,
        ap (λ n. read_of (retry_from env resolved n 1)) (sym fuelled) ∙ ap read_of ends,
        omega (arith, few, low, high),
        grind (
          arith,
          short,
          high,
          clamp_int_below sources.maximum spec.defaults.max_delay_ms resolved.base_delay_ms
              spec.max_delay_ceiling_ms delay_in,
        ),
      )
