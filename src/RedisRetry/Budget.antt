-- ===== src/RedisRetry/Budget.antt =====
-- The retries end, and sleep within their budget.
use stellar_payment_api.Base.{
  ℕ, zero, suc, ◌+◌, ◌≤◌, ◌≡◌, ◌⊎◌, inl, inr, refl, not, ◌||◌, Option, some, List, [], ◌∷◌,
  Bool-cases, Option-cases, length, arith,
}
use stellar_payment_api.RedisRetry.{
  Options, Environment, Attempt, succeeds, fails, Run, returned, thrown, is_retryable_redis_error,
  compute_backoff_delay, is_over, slept, after_attempt, retry_from, with_idempotency_retry,
}

unfoldable pub sum : List ℕ → ℕ
sum [] = 0
sum (d ∷ ds) = d + sum ds

module _ {A : Type 0} (options : Options) (env : Environment A) where
  -- An attempt ends the run, or it is not the last one and a sleep comes before the rest.
  after_attempt-cases :
      (attempt : ℕ) (end : Attempt A) (rest : Option (Run A))
      → ((r : Run A) × (after_attempt options env attempt end rest ≡ some r) × (r.delays ≡ []))
        ⊎ ((suc attempt ≤ options.max_retries)
            × (env.elapsed attempt + compute_backoff_delay options env attempt
                ≤ options.total_budget_ms)
            × (after_attempt options env attempt end rest
                ≡ slept options env (compute_backoff_delay options env attempt) rest))
  unfolding after_attempt is_over
  after_attempt-cases attempt (succeeds a) rest =
      inl (record { result = returned a; delays = [] }, refl, refl)
  after_attempt-cases attempt (fails e) rest =
      elim (Bool-cases (not (is_retryable_redis_error e) || is_over options env attempt)) [
        | inl over ↦ inl (record { result = thrown e; delays = [] }, ground (arith, over), refl)
        | inr again ↦ inr (ground (arith, again), ground (arith, again), ground (arith, again))
      ]

  ends_from :
      (fuel attempt : ℕ)
      → suc options.max_retries ≤ fuel + attempt
      → attempt ≤ options.max_retries
      → (r : Run A) × (retry_from options env fuel attempt ≡ some r)
        × (length r.delays + attempt ≤ options.max_retries)
  unfolding retry_from slept
  ends_from zero attempt enough within = absurd (omega (arith, enough, within))
  ends_from (suc fuel) attempt enough within =
      elim (after_attempt-cases attempt (env.ends attempt)
        (retry_from options env fuel (suc attempt))) [
          | inl (r, ends, none_slept) ↦ (r, ends, ground (arith, none_slept, within))
          | inr (more, budget, sleeps) ↦
              let (r, rest, few) = ends_from fuel (suc attempt) (omega (arith, enough)) more in
              (
                record r { delays = compute_backoff_delay options env attempt ∷ r.delays },
                ground (arith, sleeps, rest),
                omega (arith, few),
              )
        ]

  -- However the attempts end, whatever the clock says and however the delays are jittered: as many
  -- rounds as retries are allowed, and one more, are enough for the loop to end, with a result or an
  -- error; it sleeps at most once for each retry allowed.
  pub retries_end :
      (r : Run A) × (with_idempotency_retry options env ≡ some r)
      × (length r.delays ≤ options.max_retries)
  unfolding with_idempotency_retry
  retries_end =
      let (r, ends, few) = ends_from (options.max_retries + 1) 0 (omega arith) (omega arith) in
      (r, ends, omega (arith, few))

  slept_within :
      (fuel attempt : ℕ) (r : Run A)
      → ((i : ℕ) → env.elapsed i + compute_backoff_delay options env i ≤ env.elapsed (suc i))
      → retry_from options env fuel attempt ≡ some r
      → (r.delays ≡ []) ⊎ (env.elapsed attempt + sum r.delays ≤ options.total_budget_ms)
  unfolding retry_from slept sum
  slept_within zero attempt r passes ends = cc
  slept_within (suc fuel) attempt r passes ends =
      elim (after_attempt-cases attempt (env.ends attempt)
        (retry_from options env fuel (suc attempt))) [
          | inl (r', ends', none_slept) ↦ inl (ground (arith, ends, ends', none_slept))
          | inr (more, budget, sleeps) ↦
              elim (Option-cases (retry_from options env fuel (suc attempt))) [
                | inl out ↦ ground (arith, ends, sleeps, out)
                | inr (r', rest) ↦ elim (slept_within fuel (suc attempt) r' passes rest) [
                  | inl no_more ↦ ground (arith, ends, sleeps, rest, no_more, budget)
                  | inr within ↦ ground (arith, ends, sleeps, rest, within, passes attempt)
                ]
              ]
        ]

  -- When the clock moves on by at least each delay that is slept, the delays of a run are together
  -- at most the total budget.
  sleeps_within_budget :
      (r : Run A)
      → ((i : ℕ) → env.elapsed i + compute_backoff_delay options env i ≤ env.elapsed (suc i))
      → with_idempotency_retry options env ≡ some r
      → sum r.delays ≤ options.total_budget_ms
  unfolding with_idempotency_retry sum
  sleeps_within_budget r passes ends =
      elim (slept_within (options.max_retries + 1) 0 r passes ends) [
        | inl none_slept ↦ ground (arith, none_slept)
        | inr within ↦ omega (arith, within)
      ]
