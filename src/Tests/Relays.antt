-- ===== src/Tests/Relays.antt =====
-- A lock of the relay, and a wait for it.
use stellar_payment_api.Base.{◌⊎◌, ◌*◌, ◌≤◌, ◌≡◌, refl, min, true, some, List, [], ◌∷◌, arith}
use stellar_payment_api.ReadRetry.{unusable, number}
use stellar_payment_api.RedisRetry.Budget.{sum}
use stellar_payment_api.RelayLock.{
  Locks, Options, Environment, Run, Lease, no_client, acquire_local, acquire_local_after,
  release_local, resolve_wait_ms, delay, acquire_relay_lock,
}
use stellar_payment_api.RelayLock.Table.{
  Call, acquires, releases, renews, perform_all, acquisitions, IsForeign, acquired_alone,
}
use stellar_payment_api.RelayLock.Waits.{waits_end}

-- Another caller tries to take, renew and free the lock, and takes one of its own.
abbrev calls : List Call
calls =
    acquires "k" "t2" 1000 5
    ∷ renews "k" "t2" 1000 6
    ∷ releases "k" "t2"
    ∷ acquires "j" "t2" 1000 7
    ∷ []

acquired_alone_example :
    (acquisitions "k" calls (acquire_local "k" "t1" 1000 0 []).1 ≡ 0)
    × ((release_local "k" "t1" (perform_all calls (acquire_local "k" "t1" 1000 0 []).1)).0 ≡ true)
unfolding acquire_local acquire_local_after IsForeign
acquired_alone_example =
    acquired_alone "k" "t1" 1000 0 [] calls refl
      ((refl, omega arith), (refl, (refl, ((refl, omega arith), tt))))

-- Another caller holds the lock for 150 milliseconds.
abbrev locked : Locks
locked = ("k", record { token = "t2"; expires_at = 150 }) ∷ []

abbrev environment : Environment
environment = record {
  token = λ i. "t1";
  reply = λ i. no_client;
  clock = λ i. 100 * i;
  elapsed = λ i. 100 * i;
  jittered = λ i n. min n 100;
  others = λ i locks. locks;
}

abbrev patient : Options
patient = record { ttl_ms = number 1000; wait_ms = number 400; retry_interval_ms = unusable }

waits_end_example :
    (r : Run) × (acquire_relay_lock patient "k" environment locked ≡ some r)
    × (sum r.delays ≤ resolve_wait_ms (number 400))
    × (((lease : Lease) × (r.lease ≡ some lease)) ⊎ (resolve_wait_ms (number 400) ≤ r.elapsed))
unfolding delay resolve_wait_ms
waits_end_example =
    waits_end patient "k" environment locked (λ i. omega arith) (λ i n ten. omega (arith, ten))
