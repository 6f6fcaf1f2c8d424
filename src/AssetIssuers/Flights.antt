-- ===== src/AssetIssuers/Flights.antt =====
-- `verifyOperation`: its cache, and the map of the verifications that are in flight, which callers
-- of the same key join. A call is numbered; `R` are the results. A verification starts in a call and
-- ends in an event of its own, with what it found, or with an error; the `finally` block of the call
-- belongs to that event.
use stellar_payment_api.Base.{
  ℕ, zero, suc, ◌+◌, String, Bool, true, false, Option, none, some, List, [], ◌∷◌, ◌++◌,
  if◌then◌else◌, ltb, leb, str_eq, length,
}
use stellar_payment_api.OrderedMap
pub mod Alone

pub record Cached (R : Type 0) : Type 0 where
  pub result : R
  pub timestamp : ℕ

-- A verification in flight, with the number of the call that started it.
pub record Flight : Type 0 where
  pub id : ℕ
  pub cache_key : String
  pub skip_cache : Bool

-- How a call is answered at once: from the cache, by a flight that it joins, or by its own flight.
pub data Reply (R : Type 0) : Type 0 where
  cached : R → Reply R
  joins : (flight : ℕ) → Reply R
  starts : Reply R

-- `pending` is `pendingVerifications`; `replies` are those of the calls so far, oldest first.
pub record Verifier (R : Type 0) : Type 0 where
  pub cache : List (String × Cached R)
  pub pending : List (String × ℕ)
  pub flights : List Flight
  pub calls : ℕ
  pub replies : List (ℕ × Reply R)

-- How a verification ends: with a result, which is stored or not, or with an error.
pub data End (R : Type 0) : Type 0 where
  gives : R → (stored : Bool) → End R
  throws : End R

-- The flight at a place, and the others.
unfoldable pub extract : ℕ → List Flight → Option (Flight × List Flight)
extract i [] = none
extract zero (f ∷ fs) = some (f, fs)
extract (suc i) (f ∷ fs) = elim (extract i fs) [ none ↦ none | some (g, gs) ↦ some (g, f ∷ gs) ]

module _ {R : Type 0} where
  unfoldable pub replied : Reply R → Verifier R → Verifier R
  replied r s = record s { calls = suc s.calls; replies = s.replies ++ ((s.calls, r) ∷ []) }

  unfoldable pub start : String → Bool → Verifier R → Verifier R
  start key skip s = replied starts (record s {
    pending = if skip then s.pending else OrderedMap.set key s.calls s.pending;
    flights = record { id = s.calls; cache_key = key; skip_cache = skip } ∷ s.flights;
  })

  unfoldable pub join : String → Option ℕ → Verifier R → Verifier R
  join key none s = start key false s
  join key (some flight) s = replied (joins flight) s

  unfoldable pub look_up : ℕ → String → Option (Cached R) → Verifier R → Verifier R
  look_up now key none s = join key (OrderedMap.get key s.pending) s
  look_up now key (some e) s =
      if ltb now (e.timestamp + 300000)
      then replied (cached e.result) s
      else join key (OrderedMap.get key s.pending)
          (record s { cache = OrderedMap.delete key s.cache })

  -- `verifyOperation`, up to the verification that it starts or joins.
  unfoldable pub verify_operation : ℕ → String → Bool → Verifier R → Verifier R
  verify_operation now key true s = start key true s
  verify_operation now key false s = look_up now key (OrderedMap.get key s.cache) s

  unfoldable pub evict : Option String → List (String × Cached R) → List (String × Cached R)
  evict none m = m
  evict (some oldest) m = OrderedMap.delete oldest m

  unfoldable pub make_room : List (String × Cached R) → List (String × Cached R)
  make_room m = if leb 1000 (length m) then evict (OrderedMap.first_key m) m else m

  unfoldable pub store : ℕ → Flight → End R → Verifier R → Verifier R
  store now f throws s = s
  store now f (gives r stored) s =
      if f.skip_cache
      then s
      else if stored
      then record s {
        cache =
            OrderedMap.set f.cache_key (record { result = r; timestamp = now }) (make_room s.cache);
      }
      else s

  -- The `finally` block of the call that started the flight.
  unfoldable pub release : String → Verifier R → Verifier R
  release key s = record s { pending = OrderedMap.delete key s.pending }

  unfoldable pub land : ℕ → End R → Option (Flight × List Flight) → Verifier R → Verifier R
  land now end none s = s
  land now end (some (f, others)) s =
      release f.cache_key (store now f end (record s { flights = others }))

-- A call of `verifyOperation`, or the end of the flight at a place.
pub data Event (R : Type 0) : Type 0 where
  verifies : (now : ℕ) (cache_key : String) (skip_cache : Bool) → Event R
  lands : (now place : ℕ) → End R → Event R

module _ {R : Type 0} where
  unfoldable pub step : Event R → Verifier R → Verifier R
  step (verifies now key skip) s = verify_operation now key skip s
  step (lands now place end) s = land now end (extract place s.flights) s

  unfoldable pub run : List (Event R) → Verifier R → Verifier R
  run [] s = s
  run (e ∷ es) s = run es (step e s)

  unfoldable pub create : Verifier R
  create = record { cache = []; pending = []; flights = []; calls = 0; replies = [] }
