-- ===== src/Breaker/Execution.antt =====
-- What `execute` does with the breaker and its retries.
use stellar_payment_api.Base.{
  ℕ, zero, suc, ◌+◌, ◌*◌, ◌^◌, ◌≤◌, ◌<◌, Bool, true, false, List, [], ◌∷◌, ◌≡◌, ◌≢◌, refl, length,
  arith, dec_lt,
}
use stellar_payment_api.Breaker.{
  open_state, Breaker, is_open_in, is_open, record_success, Attempt, succeeds, fails, Environment,
  returned, Run, delay_ms, give_up, succeed, last_attempt, after_wait, waited, next_attempt,
  execute_from, execute,
}

module _ (env : Environment) (base : ℕ) where
  -- The delays are those of the schedule from attempt `i` on, `base * 2 ^ i` and the jitter.
  abbrev pub Follows : ℕ → List ℕ → Type 0
  Follows i [] = Unit
  Follows i (d ∷ ds) = (d ≡ base * 2 ^ i + env.jitter i) × Follows (suc i) ds

  next_Follows :
      (left i : ℕ) (x : Breaker × Attempt) (again : Breaker → Run)
      → ((b : Breaker) → Follows (suc i) (again b).delays × (length (again b).delays ≤ left))
      → Follows i (next_attempt env base i x again).delays
        × (length (next_attempt env base i x again).delays ≤ suc left)
  unfolding next_attempt succeed give_up waited after_wait
  next_Follows left i (b, succeeds) again h = (tt, omega arith)
  next_Follows left i (b, fails false) again h = (tt, omega arith)
  next_Follows left i (b, fails true) again h = after (is_open (env.clock i) (env.waiting i b))
    where
      after :
          (y : Breaker × Bool)
          → ((delay_ms env base i ≡ base * 2 ^ i + env.jitter i)
              × Follows (suc i) (after_wait env base y again).delays)
            × (suc (length (after_wait env base y again).delays) ≤ suc left)
      after (c, true) = ((refl, tt), omega arith)
      after (c, false) = ((refl, (h c).0), omega (arith, (h c).1))

  execute_from-Follows :
      (left i : ℕ) (b : Breaker)
      → Follows i (execute_from env base left i b).delays
        × (length (execute_from env base left i b).delays ≤ left)
  unfolding execute_from last_attempt succeed give_up
  execute_from-Follows zero i b = ends (env.attempt i b)
    where
      ends :
          (x : Breaker × Attempt)
          → Follows i (last_attempt env base i x).delays
            × (length (last_attempt env base i x).delays ≤ 0)
      ends (c, succeeds) = (tt, omega arith)
      ends (c, fails r) = (tt, omega arith)
  execute_from-Follows (suc left) i b =
      next_Follows left i (env.attempt i b) (execute_from env base left (suc i))
        (execute_from-Follows left (suc i))

  started-Follows :
      (n : ℕ) (y : Breaker × Bool) (again : Breaker → Run)
      → ((b : Breaker) → Follows 0 (again b).delays × (length (again b).delays ≤ n))
      → Follows 0 (after_wait env base y again).delays
        × (length (after_wait env base y again).delays ≤ n)
  unfolding after_wait
  started-Follows n (c, true) again h = (tt, omega arith)
  started-Follows n (c, false) again h = h c

  -- Whatever the function and the other callers do, `execute` waits at most as often as retries
  -- are allowed, and its waits are those of the exponential schedule, in order.
  execute-Follows :
      (max_retries now : ℕ) (b : Breaker)
      → Follows 0 (execute env base max_retries now b).delays
        × (length (execute env base max_retries now b).delays ≤ max_retries)
  unfolding execute
  execute-Follows max_retries now b =
      started-Follows max_retries (is_open now b) (execute_from env base max_retries 0)
        (execute_from-Follows max_retries 0)

  -- While no other caller touches the breaker.
  module _ (outcome : ℕ → Attempt)
      (alone : (i : ℕ) (b : Breaker) → env.attempt i b ≡ (b, outcome i))
      (quiet : (i : ℕ) (b : Breaker) → env.waiting i b ≡ b) where
    stays_shut : (now : ℕ) (b : Breaker) → b.state ≢ open_state → is_open now b ≡ (b, false)
    unfolding is_open is_open_in
    stays_shut now b e = ground arith

    retried :
        (left i : ℕ) (b : Breaker)
        → b.state ≢ open_state
        → outcome i ≡ fails true
        → execute_from env base (suc left) i b
          ≡ waited env base (delay_ms env base i) (execute_from env base left (suc i) b)
    unfolding execute_from next_attempt after_wait
    retried left i b shut f = rw (alone i b, f, quiet i b, stays_shut (env.clock i) b shut)

    succeeds_from :
        (k left i : ℕ) (b : Breaker)
        → b.state ≢ open_state
        → ((j : ℕ) → j < k → outcome j ≡ fails true)
        → outcome k ≡ succeeds
        → i ≤ k
        → k ≤ i + left
        → ((execute_from env base left i b).ended ≡ returned)
          × ((execute_from env base left i b).breaker ≡ record_success b)
          × (i + length (execute_from env base left i b).delays ≡ k)
    unfolding last_attempt next_attempt succeed waited
    succeeds_from k zero i b shut before last le ge =
        let e : i ≡ k = omega arith in
        unfold execute_from in rw (alone i b, e, last) (refl, refl, omega arith)
    succeeds_from k (suc left) i b shut before last le ge = elim (dec_lt i k) [
      | yes lt ↦
          let (ends, kept, n) =
            succeeds_from k left (suc i) b shut before last (omega arith) (omega arith) in
          rw (retried left i b shut (before i lt)) (ends, kept, omega arith)
      | no ge' ↦
          let e : i ≡ k = omega arith in
          unfold execute_from in rw (alone i b, e, last) (refl, refl, omega arith)
    ]

    -- While no other caller touches the breaker: if the function fails `k` times with errors worth
    -- a retry and then succeeds, and `k` retries are allowed, a circuit that is not open returns
    -- the result after `k` waits, and counts one success and no failure.
    pub execute_recovers :
        (k max_retries now : ℕ) (b : Breaker)
        → b.state ≢ open_state
        → ((j : ℕ) → j < k → outcome j ≡ fails true)
        → outcome k ≡ succeeds
        → k ≤ max_retries
        → ((execute env base max_retries now b).ended ≡ returned)
          × ((execute env base max_retries now b).breaker ≡ record_success b)
          × (length (execute env base max_retries now b).delays ≡ k)
    unfolding execute after_wait
    execute_recovers k max_retries now b shut before last le =
        let (ends, kept, n) =
          succeeds_from k max_retries 0 b shut before last (omega arith) (omega arith) in
        rw (stays_shut now b shut) (ends, kept, omega arith)
