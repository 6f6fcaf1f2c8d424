-- ===== src/RelayLock/Waits.antt =====
-- The wait for a lock ends in its budget.
use stellar_payment_api.Base.{
  ℕ, String, zero, suc, ◌+◌, ◌-◌, ◌≤◌, ◌≡◌, ◌⊎◌, inl, inr, refl, Option, none, some, [], ◌∷◌, leb,
  Bool-cases, Option-cases, arith,
}
use stellar_payment_api.ReadRetry.{Given, unusable, negative, number}
use stellar_payment_api.RedisRetry.Budget.{sum}
use stellar_payment_api.RelayLock.{
  Locks, Lease, Options, Environment, Run, resolve_wait_ms, retry_interval, delay, try_at, slept,
  returned, after_attempt, acquire_from, acquire_relay_lock,
}

module _ (options : Options) (key : String) (env : Environment) where
  -- The clock moves on by at least what is slept.
  abbrev pub Passes : Type 0
  Passes = (i : ℕ) → env.elapsed i + delay options key env i ≤ env.elapsed (suc i)

  -- The jitter of an interval of ten milliseconds and more is no zero.
  abbrev pub Jitters : Type 0
  Jitters = (i n : ℕ) → 10 ≤ n → 1 ≤ env.jittered i n

  interval_least : (g : Given) → 10 ≤ retry_interval g
  unfolding retry_interval
  interval_least unusable = ground arith
  interval_least negative = ground arith
  interval_least (number n) = ground arith

  delay_bounds :
      (i : ℕ)
      → Jitters
      → suc (env.elapsed i) ≤ resolve_wait_ms options.wait_ms
      → (1 ≤ delay options key env i)
        × (delay options key env i + env.elapsed i ≤ resolve_wait_ms options.wait_ms)
  unfolding delay
  delay_bounds i jitters time =
      let some_time =
        jitters i (retry_interval options.retry_interval_ms)
          (interval_least options.retry_interval_ms) in
      (ground (arith, some_time, time), ground (arith, time))

  after_attempt-cases :
      (attempt : ℕ) (lease : Option Lease) (locks : Locks) (rest : Option Run)
      → ((r : Run) × (after_attempt options key env attempt lease locks rest ≡ some r)
          × (r.delays ≡ [])
          × (r.elapsed ≡ env.elapsed attempt)
          × ((r.lease ≡ none) → resolve_wait_ms options.wait_ms ≤ r.elapsed))
        ⊎ ((suc (env.elapsed attempt) ≤ resolve_wait_ms options.wait_ms)
            × (after_attempt options key env attempt lease locks rest
                ≡ slept options key env (delay options key env attempt) rest))
  unfolding after_attempt returned
  after_attempt-cases attempt (some lease) locks rest = inl (_, refl, refl, refl, λ e. cc e)
  after_attempt-cases attempt none locks rest =
      elim (Bool-cases (leb (resolve_wait_ms options.wait_ms) (env.elapsed attempt))) [
        | inl over ↦ inl (
          record { lease = none; locks = locks; elapsed = env.elapsed attempt; delays = [] },
          ground (arith, over),
          refl,
          refl,
          λ _. ground (arith, over),
        )
        | inr time ↦ inr (ground (arith, time), ground (arith, time))
      ]

  ends_from :
      (fuel attempt : ℕ) (locks : Locks)
      → Passes
      → Jitters
      → 1 ≤ fuel
      → suc (resolve_wait_ms options.wait_ms) ≤ fuel + env.elapsed attempt
      → (r : Run) × (acquire_from options key env fuel attempt locks ≡ some r)
        × (sum r.delays ≤ resolve_wait_ms options.wait_ms - env.elapsed attempt)
        × ((r.lease ≡ none) → resolve_wait_ms options.wait_ms ≤ r.elapsed)
  unfolding acquire_from slept sum
  ends_from zero attempt locks passes jitters fuelled enough = absurd (omega (arith, fuelled))
  ends_from (suc fuel) attempt locks passes jitters fuelled enough =
      let tried = try_at options key env attempt locks in
      elim (after_attempt-cases attempt tried.0 tried.1
        (acquire_from options key env fuel (suc attempt) tried.1)) [
          | inl (r, ends, none_slept, at_end, late) ↦ (r, ends, ground (arith, none_slept), late)
          | inr (time, sleeps) ↦
              let (slept_some, within) = delay_bounds attempt jitters time in
              let passed = passes attempt in
              let (r, rest, few, late) =
                ends_from fuel (suc attempt) tried.1 passes jitters (omega (arith, enough, time))
                  (omega (arith, enough, passed, slept_some)) in
              (
                record r { delays = delay options key env attempt ∷ r.delays },
                ground (arith, sleeps, rest),
                omega (arith, few, within, passed),
                late,
              )
        ]

  -- However Redis answers and whatever others do, when the clock moves on by at least what is slept
  -- and no jittered interval is zero: one attempt for each millisecond of the resolved wait, and one
  -- more, are enough for the wait to end; it sleeps no longer than the resolved wait in total, and it
  -- ends with a lease or when that time has passed.
  pub waits_end :
      (locks : Locks)
      → Passes
      → Jitters
      → (r : Run) × (acquire_relay_lock options key env locks ≡ some r)
        × (sum r.delays ≤ resolve_wait_ms options.wait_ms)
        × (((lease : Lease) × (r.lease ≡ some lease))
            ⊎ (resolve_wait_ms options.wait_ms ≤ r.elapsed))
  unfolding acquire_relay_lock
  waits_end locks passes jitters =
      let (r, ends, few, late) =
        ends_from (resolve_wait_ms options.wait_ms + 1) 0 locks passes jitters (omega arith)
          (omega arith) in
      (
        r,
        ends,
        omega (arith, few),
        elim (Option-cases r.lease) [ inl busy ↦ inr (late busy) | inr taken ↦ inl taken ],
      )
