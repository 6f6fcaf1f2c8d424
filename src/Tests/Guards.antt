-- ===== src/Tests/Guards.antt =====
-- The limiter and the circuit breaker of the audit logger at concrete states.
use stellar_payment_api.Base.{
  ℕ, zero, suc, ◌+◌, ◌<◌, ◌≡◌, ◌≢◌, refl, true, false, none, some, [], ◌∷◌, length, inr, arith,
}
use stellar_payment_api.Limiter
use stellar_payment_api.Limiter.{Limiter, acquire, release}
use stellar_payment_api.Limiter.Invariant.{IsValid}
use stellar_payment_api.Limiter.Laws
use stellar_payment_api.Limiter.Laws.{release_all, Reach-IsValid}
use stellar_payment_api.Breaker.{
  Breaker, open_state, half_open, closed, is_open, is_open_in, record_success, Attempt, succeeds,
  fails, Environment, returned, execute,
}
use stellar_payment_api.Breaker.Execution.{execute_recovers}

-- Two slots, taken by the promises 0 and 1, with 2 and 3 in the queue.
abbrev crowded : Limiter
crowded = record {
  max_concurrent = 2;
  max_queue = 5;
  queue_timeout_ms = 1000;
  active = 2;
  queue = 2 ∷ 3 ∷ [];
  held = 1 ∷ 0 ∷ [];
  next = 4;
}

crowded-IsValid : IsValid crowded
crowded-IsValid = record {
  bounded = omega arith;
  waiters = omega arith;
  slots = refl;
  busy = inr refl;
  held_below = ground arith;
  all_distinct = ground arith;
  queue_below = ground arith;
}

Reach-IsValid_example : IsValid (release 0 (acquire (Limiter.create 2 5 1000)).0).0
Reach-IsValid_example =
    Reach-IsValid 2 5 1000
      (Laws.Reach.next (Laws.Reach.next Laws.Reach.here Laws.Step.acquires) (Laws.Step.releases 0))

abbrev tripped : Breaker
tripped = record {
  failure_threshold = 5;
  reset_timeout_ms = 100;
  half_open_required = 2;
  state = open_state;
  failures = 5;
  opened_at = some 10;
  half_open_successes = 0;
}

abbrev trial : Breaker
trial = record tripped { state = half_open; half_open_successes = 1 }

abbrev untripped : Breaker
untripped = record tripped { state = closed; failures = 0; opened_at = none }

tripped_lets_through : (is_open 110 tripped).1 ≡ false
unfolding is_open is_open_in
tripped_lets_through = refl

abbrev twice_failing : ℕ → Attempt
twice_failing zero = fails true
twice_failing (suc zero) = fails true
twice_failing (suc (suc i)) = succeeds

abbrev calm : Environment
calm = record {
  attempt = λ i b. (b, twice_failing i);
  waiting = λ i b. b;
  clock = λ i. 1000 + i;
  jitter = λ i. 7;
}

twice_failing_before : (j : ℕ) → j < 2 → twice_failing j ≡ fails true
twice_failing_before zero lt = refl
twice_failing_before (suc zero) lt = refl
twice_failing_before (suc (suc j)) lt = absurd (omega arith)

closed_is_not_open : untripped.state ≢ open_state
closed_is_not_open = cc

execute_recovers_example :
    ((execute calm 100 3 1000 untripped).ended ≡ returned)
    × ((execute calm 100 3 1000 untripped).breaker ≡ record_success untripped)
    × (length (execute calm 100 3 1000 untripped).delays ≡ 2)
execute_recovers_example =
    execute_recovers calm 100 twice_failing (λ i b. refl) (λ i b. refl) 2 3 1000 untripped
      closed_is_not_open twice_failing_before refl (omega arith)
