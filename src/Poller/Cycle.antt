-- ===== src/Poller/Cycle.antt =====
-- One cycle of `pollPendingPayments` of backend/src/lib/horizon-poller.js around the fetch of the
-- pending payments: the re-entrancy flag, the circuit breaker and the back-off.
use stellar_payment_api.Base.{
  ℕ, suc, ◌+◌, ◌-◌, ◌*◌, min, Bool, true, false, ◌&&◌, Option, none, some, List, [], ◌∷◌, ltb, leb,
  if◌then◌else◌,
}
pub mod Failures

-- The module-level variables.
pub record Health : Type 0 where
  pub running : Bool
  pub consecutive_failures : ℕ
  pub circuit_breaker_open_at : ℕ
  pub backoff_index : ℕ

abbrev pub max_consecutive_failures : ℕ
max_consecutive_failures = 5

abbrev pub circuit_breaker_reset_ms : ℕ
circuit_breaker_reset_ms = 300000

-- `BACKOFF_DELAYS_MS[Math.min(i, BACKOFF_DELAYS_MS.length - 1)]`
abbrev pub backoff_delay_ms : ℕ → ℕ
backoff_delay_ms i =
    let k = min i 3 in
    if ltb k 1 then 5000 else if ltb k 2 then 15000 else if ltb k 3 then 30000 else 60000

pub data Started : Type 0 where
  busy : Started
  circuit_open : Started
  fetching : Started

-- `resetPollerState`, and the reset inside the cycle.
reset_failures : Health → Health
reset_failures h = record h {
  consecutive_failures = 0;
  circuit_breaker_open_at = 0;
  backoff_index = 0;
}

-- `circuitBreakerOpen` of `getPollerHealth`.
pub circuit_breaker_open : ℕ → Health → Bool
circuit_breaker_open now h =
    ltb 0 h.circuit_breaker_open_at
    && ltb (now - h.circuit_breaker_open_at) circuit_breaker_reset_ms

-- From the call up to the fetch.
pub start : (now : ℕ) → Health → Health × Started
unfolding reset_failures
start now h =
    if h.running
    then (h, busy)
    else if ltb 0 h.circuit_breaker_open_at
    then if ltb (now - h.circuit_breaker_open_at) circuit_breaker_reset_ms
      then (h, circuit_open)
      else (record (reset_failures h) { running = true }, fetching)
    else (record h { running = true }, fetching)

-- The fetch failed: the cycle waits, and trips the breaker at the time `later`.
pub fetch_failed : (later : ℕ) → Health → Health × ℕ
fetch_failed later h =
    let failures = h.consecutive_failures + 1 in
    (
      record h {
        consecutive_failures = failures;
        backoff_index = min (h.backoff_index + 1) 3;
        circuit_breaker_open_at =
            if leb max_consecutive_failures failures then later else h.circuit_breaker_open_at;
      },
      backoff_delay_ms h.backoff_index,
    )

pub fetch_succeeded : Health → Health
fetch_succeeded h =
    if ltb 0 h.consecutive_failures
    then record h { consecutive_failures = 0; backoff_index = 0 }
    else h

-- `finally { _running = false }`
pub finish : Health → Health
finish h = record h { running = false }

-- When the timer fires, whether the fetch succeeds, and when a failed cycle's wait is over.
pub record Tick : Type 0 where
  pub now : ℕ
  pub fetched : Bool
  pub later : ℕ

after_start : Tick → Health × Started → Health × Option ℕ
after_start t (h, fetching) =
    if t.fetched
    then (finish (fetch_succeeded h), none)
    else let (h', delay) = fetch_failed t.later h in (finish h', some delay)
after_start t (h, _) = (h, none)

-- A whole cycle, with the delay that it waited for after a failed fetch.
pub cycle : Tick → Health → Health × Option ℕ
unfolding after_start
cycle t h = after_start t (start t.now h)

pub run : List Tick → Health → Health
run [] h = h
run (t ∷ ts) h = run ts (cycle t h).0
