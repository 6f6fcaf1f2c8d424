-- ===== src/RelayLock.antt =====
-- The locks of the WebSocket relay, backend/src/lib/websocket-relay-lock.js: the table of a process
-- that stands in for Redis, one try to acquire a lock, the wait for it, and its renewal and release.
-- What Redis answers, the digest and the random tokens are arguments; metrics and logs are left out.
use stellar_payment_api.Base.{
  ℕ, zero, suc, ◌+◌, ◌-◌, min, max, String, Bool, true, false, not, Option, none, some, ◌||◌, List,
  [], ◌∷◌, if◌then◌else◌, ltb, leb, ◌==◌, str_eq,
}
use stellar_payment_api.OrderedMap
use stellar_payment_api.ReadRetry.{Given, unusable, negative, number}
pub mod Table
pub mod Waits

-- An entry of `localLocks`.
pub record Lock : Type 0 where
  pub token : String
  pub expires_at : ℕ

abbrev pub Locks : Type 0
Locks = List (String × Lock)

unfoldable pub resolve_relay_lock_ttl_ms : Given → ℕ
resolve_relay_lock_ttl_ms unusable = 15000
resolve_relay_lock_ttl_ms negative = 1000
resolve_relay_lock_ttl_ms (number n) = min (max n 1000) 120000

unfoldable pub resolve_wait_ms : Given → ℕ
resolve_wait_ms (number n) = min n 30000
resolve_wait_ms other = 0

unfoldable pub acquire_local_after : Option Lock → String → String → ℕ → ℕ → Locks → Bool × Locks
acquire_local_after none key token ttl now locks =
    (true, OrderedMap.set key (record { token = token; expires_at = now + ttl }) locks)
acquire_local_after (some existing) key token ttl now locks =
    if ltb now existing.expires_at
    then (false, locks)
    else (true, OrderedMap.set key (record { token = token; expires_at = now + ttl }) locks)

unfoldable pub acquire_local : String → String → ℕ → ℕ → Locks → Bool × Locks
acquire_local key token ttl now locks =
    acquire_local_after (OrderedMap.get key locks) key token ttl now locks

unfoldable pub release_local_after : Option Lock → String → String → Locks → Bool × Locks
release_local_after none key token locks = (false, locks)
release_local_after (some existing) key token locks =
    if str_eq existing.token token then (true, OrderedMap.delete key locks) else (false, locks)

unfoldable pub release_local : String → String → Locks → Bool × Locks
release_local key token locks = release_local_after (OrderedMap.get key locks) key token locks

unfoldable pub renew_local_after : Option Lock → String → String → ℕ → ℕ → Locks → Bool × Locks
renew_local_after none key token ttl now locks = (false, locks)
renew_local_after (some existing) key token ttl now locks =
    if not (str_eq existing.token token) || leb existing.expires_at now
    then (false, locks)
    else (true, OrderedMap.set key (record existing { expires_at = now + ttl }) locks)

unfoldable pub renew_local : String → String → ℕ → ℕ → Locks → Bool × Locks
renew_local key token ttl now locks =
    renew_local_after (OrderedMap.get key locks) key token ttl now locks

pub data Backend : Type 0 where
  redis local : Backend

pub record Lease : Type 0 where
  pub key : String
  pub token : String
  pub backend : Backend
  pub ttl_ms : ℕ
  pub acquired_at : ℕ

-- What SET NX PX gives: there may be no usable client, or the command fails.
pub data Reply : Type 0 where
  no_client ok refused fails : Reply

unfoldable pub build_lease : String → String → Backend → ℕ → ℕ → Lease
build_lease key token backend ttl now = record {
  key = key;
  token = token;
  backend = backend;
  ttl_ms = ttl;
  acquired_at = now;
}

unfoldable pub local_lease : Bool → Lease → Option Lease
local_lease acquired lease = if acquired then some lease else none

unfoldable pub try_local : String → String → ℕ → ℕ → Locks → Option Lease × Locks
try_local key token ttl now locks =
    let (acquired, locks') = acquire_local key token ttl now locks in
    (local_lease acquired (build_lease key token local ttl now), locks')

-- `tryAcquireRelayLock`, at a time.
unfoldable pub try_acquire_relay_lock :
    Given → String → String → Reply → ℕ → Locks → Option Lease × Locks
try_acquire_relay_lock ttl key token ok now locks =
    (some (build_lease key token redis (resolve_relay_lock_ttl_ms ttl) now), locks)
try_acquire_relay_lock ttl key token refused now locks = (none, locks)
try_acquire_relay_lock ttl key token no_client now locks =
    try_local key token (resolve_relay_lock_ttl_ms ttl) now locks
try_acquire_relay_lock ttl key token fails now locks =
    try_local key token (resolve_relay_lock_ttl_ms ttl) now locks

-- The methods of a lease; `none` where the script fails, and else what it answers.
unfoldable pub script_answer : Option ℕ → Bool
script_answer none = false
script_answer (some n) = n == 1

unfoldable pub renew : Lease → Option ℕ → ℕ → Locks → Bool × Locks
renew lease answer now locks = elim lease.backend [
  | local ↦ renew_local lease.key lease.token lease.ttl_ms now locks
  | redis ↦ (script_answer answer, locks)
]

unfoldable pub release : Lease → Option ℕ → Locks → Bool × Locks
release lease answer locks = elim lease.backend [
  | local ↦ release_local lease.key lease.token locks
  | redis ↦ (script_answer answer, locks)
]

-- What a waiting caller sees at each of its attempts: the token, the answer of Redis, the clock, and
-- the time since its start after the attempt. `others` is what the rest of the process does to the
-- table before an attempt, and `jittered` what the random jitter makes of the interval.
pub record Environment : Type 0 where
  pub token : (attempt : ℕ) → String
  pub reply : (attempt : ℕ) → Reply
  pub clock : (attempt : ℕ) → ℕ
  pub elapsed : (attempt : ℕ) → ℕ
  pub jittered : (attempt interval : ℕ) → ℕ
  pub others : (attempt : ℕ) → Locks → Locks

-- Zero and what is no number are unusable.
unfoldable pub retry_interval : Given → ℕ
retry_interval unusable = 100
retry_interval negative = 10
retry_interval (number n) = max 10 n

pub record Run : Type 0 where
  pub lease : Option Lease
  pub locks : Locks
  pub elapsed : ℕ
  pub delays : List ℕ

pub record Options : Type 0 where
  pub ttl_ms : Given
  pub wait_ms : Given
  pub retry_interval_ms : Given

module _ (options : Options) (key : String) (env : Environment) where
  unfoldable pub delay : ℕ → ℕ
  delay attempt =
      min (env.jittered attempt (retry_interval options.retry_interval_ms))
        (resolve_wait_ms options.wait_ms - env.elapsed attempt)

  unfoldable pub try_at : ℕ → Locks → Option Lease × Locks
  try_at attempt locks =
      try_acquire_relay_lock options.ttl_ms key (env.token attempt) (env.reply attempt)
        (env.clock attempt) (env.others attempt locks)

  unfoldable pub slept : ℕ → Option Run → Option Run
  slept ms none = none
  slept ms (some r) = some (record r { delays = ms ∷ r.delays })

  unfoldable pub returned : ℕ → Option Lease → Locks → Option Run
  returned attempt lease locks =
      some (record { lease = lease; locks = locks; elapsed = env.elapsed attempt; delays = [] })

  -- What follows an attempt; `rest` is the loop from the next one.
  unfoldable pub after_attempt : ℕ → Option Lease → Locks → Option Run → Option Run
  after_attempt attempt (some lease) locks rest = returned attempt (some lease) locks
  after_attempt attempt none locks rest =
      if leb (resolve_wait_ms options.wait_ms) (env.elapsed attempt)
      then returned attempt none locks
      else slept (delay attempt) rest

  -- The loop, with fuel; `none` when it runs out.
  unfoldable pub acquire_from : ℕ → ℕ → Locks → Option Run
  acquire_from zero attempt locks = none
  acquire_from (suc fuel) attempt locks =
      let (lease, locks') = try_at attempt locks in
      after_attempt attempt lease locks' (acquire_from fuel (suc attempt) locks')

  unfoldable pub acquire_relay_lock : Locks → Option Run
  acquire_relay_lock locks = acquire_from (resolve_wait_ms options.wait_ms + 1) 0 locks
