-- ===== src/Poller/Cycle/Failures.antt =====
-- How the poller counts failed cycles.
use stellar_payment_api.Base.{
  ℕ, ◌+◌, ◌-◌, ◌≤◌, ◌<◌, min, true, false, ◌≡◌, ◌↔◌, ◌⊎◌, ◌==◌, refl, none, some, List, [], ◌∷◌,
  All, length, if◌then◌else◌, arith,
}
use stellar_payment_api.Poller.Cycle.{
  circuit_breaker_open, circuit_open, Health, Tick, fetching, start, fetch_failed, fetch_succeeded,
  finish, cycle, run, max_consecutive_failures, circuit_breaker_reset_ms, backoff_delay_ms,
}

-- Between two cycles the back-off index counts the failures up to three, and the breaker is open
-- exactly when five failures have come in a row.
pub record IsValid (h : Health) : Type 0 where
  pub idle : h.running ≡ false
  pub counted : h.backoff_index ≡ min h.consecutive_failures 3
  pub bounded : h.consecutive_failures ≤ max_consecutive_failures
  pub tripped :
      (0 < h.circuit_breaker_open_at) ↔ (h.consecutive_failures ≡ max_consecutive_failures)

pub cycle-IsValid : (t : Tick) (h : Health) → 0 < t.later → IsValid h → IsValid (cycle t h).0
unfolding cycle start fetch_failed fetch_succeeded finish
cycle-IsValid t h pos v = ground arith

abbrev pub fresh : Health
fresh = record {
  running = false;
  consecutive_failures = 0;
  circuit_breaker_open_at = 0;
  backoff_index = 0;
}

-- In a valid state a cycle fetches exactly when fewer than five failures have come in a row, or
-- when the breaker has been open for five minutes.
start_fetches_iff :
    (now : ℕ) (h : Health)
    → IsValid h
    → ((start now h).1 ≡ fetching) ↔ (
        (h.consecutive_failures < max_consecutive_failures)
        ⊎ (circuit_breaker_reset_ms ≤ now - h.circuit_breaker_open_at))
unfolding start
start_fetches_iff now h v = ground arith

-- In a valid state a cycle that fetches successfully waits for nothing and leaves the state of a poller that never failed.
cycle_recovers :
    (t : Tick) (h : Health)
    → IsValid h
    → (start t.now h).1 ≡ fetching
    → t.fetched ≡ true
    → cycle t h ≡ (fresh, none)
unfolding cycle start fetch_succeeded finish
cycle_recovers t h v go good = ground arith

abbrev pub IsFailing : Tick → Type 0
IsFailing t = (t.fetched ≡ false) × (0 < t.later)

-- One more failed cycle, in a valid state below the threshold: it is counted, it waits by the
-- schedule, and the fifth opens the breaker at the end of its wait.
failing_cycle :
    (t : Tick) (h : Health)
    → IsValid h
    → h.consecutive_failures < max_consecutive_failures
    → IsFailing t
    → ((cycle t h).0.consecutive_failures ≡ h.consecutive_failures + 1)
      × ((cycle t h).1 ≡ some (backoff_delay_ms h.consecutive_failures))
      × ((cycle t h).0.circuit_breaker_open_at
          ≡ (if h.consecutive_failures == 4 then t.later else 0))
unfolding cycle start fetch_failed finish
failing_cycle t h v few f = (ground arith, ground arith, ground arith)

failing_run_from :
    (ts : List Tick) (h : Health)
    → IsValid h
    → h.consecutive_failures + length ts ≤ max_consecutive_failures
    → All IsFailing ts
    → IsValid (run ts h) × ((run ts h).consecutive_failures ≡ h.consecutive_failures + length ts)
unfolding run
failing_run_from [] h v few fs = (v, omega arith)
failing_run_from (t ∷ ts) h v few (f, fs) =
    let (counted, _, _) = failing_cycle t h v (omega arith) f in
    let (valid, total) =
      failing_run_from ts (cycle t h).0 (cycle-IsValid t h f.1 v) (omega arith) fs in
    (valid, omega arith)

fresh-IsValid : IsValid fresh
fresh-IsValid = record {
  idle = refl;
  counted = refl;
  bounded = omega arith;
  tripped = (λ p. omega arith, λ e. omega arith);
}

-- From a fresh start, up to five failed cycles in a row are counted one by one, and the breaker is
-- open after them exactly when they were five.
pub failing_run :
    (ts : List Tick)
    → length ts ≤ max_consecutive_failures
    → All IsFailing ts
    → ((run ts fresh).consecutive_failures ≡ length ts)
      × ((0 < (run ts fresh).circuit_breaker_open_at) ↔ (length ts ≡ max_consecutive_failures))
failing_run ts few fs =
    let (v, n) = failing_run_from ts fresh fresh-IsValid (omega arith) fs in
    (omega arith, (λ open'. omega (arith, v.tripped.0 open'), λ five. v.tripped.1 (omega arith)))

-- Whatever the fetches answer and whenever the timer fires, the state after a failed cycle being
-- taken at a positive time, the poller's state stays valid.
run-IsValid :
    (ts : List Tick) (h : Health) → All (λ t. 0 < t.later) ts → IsValid h → IsValid (run ts h)
unfolding run
run-IsValid [] h ps v = v
run-IsValid (t ∷ ts) h (p, ps) v = run-IsValid ts (cycle t h).0 ps (cycle-IsValid t h p v)

-- While no cycle runs, the health report calls the circuit open exactly when the next cycle would
-- be skipped for it.
health_report_iff :
    (now : ℕ) (h : Health)
    → h.running ≡ false
    → (circuit_breaker_open now h ≡ true) ↔ ((start now h).1 ≡ circuit_open)
unfolding circuit_breaker_open start
health_report_iff now h idle = ground arith
