-- ===== src/AssetIssuers/Flights/Alone.antt =====
-- How many verifications of one key are in flight.
use stellar_payment_api.Base.{
  ℕ, zero, suc, ◌+◌, ◌≤◌, ◌≡◌, refl, sym, ap, subst, ◌∙◌, String, Bool, true, false, Option, none,
  some, List, [], ◌∷◌, if◌then◌else◌, if_both, ltb, str_eq, eq_iff, eq_refl, All, Option-cases,
  Bool-cases, inl, inr, arith,
}
use stellar_payment_api.OrderedMap
use stellar_payment_api.OrderedMap.{
  get-set, get-delete_ne, get-Absent, Absent-delete_self, HasDistinctKeys, set-HasDistinctKeys,
  delete-HasDistinctKeys,
}
use stellar_payment_api.AssetIssuers.Flights.{
  Cached, Flight, Reply, cached, Verifier, End, gives, throws, replied, start, join, look_up,
  verify_operation, store, release, extract, land, Event, verifies, lands, step, run, create,
}

-- How many flights verify the key.
unfoldable pub in_flight : String → List Flight → ℕ
in_flight key [] = 0
in_flight key (f ∷ fs) = if str_eq f.cache_key key then suc (in_flight key fs) else in_flight key fs

-- 1 where an entry is there.
unfoldable pub is_pending : Option ℕ → ℕ
is_pending none = 0
is_pending (some flight) = 1

in_flight-extract :
    (key : String) (i : ℕ) (fs : List Flight) {f : Flight} {others : List Flight}
    → extract i fs ≡ some (f, others)
    → in_flight key (f ∷ others) ≡ in_flight key fs
unfolding extract in_flight
in_flight-extract key i [] e = cc
in_flight-extract key zero (g ∷ fs) e = ground (arith, e)
in_flight-extract key (suc i) (g ∷ fs) e = elim (Option-cases (extract i fs)) [
  | inl out ↦ ground (arith, out)
  | inr ((f', others'), found) ↦ ground (arith, found, in_flight-extract key i fs found)
]

is_pending_few : (o : Option ℕ) → is_pending o ≤ 1
unfolding is_pending
is_pending_few none = ground arith
is_pending_few (some flight) = ground arith

-- Without one of the flights and the entry of its key, flights and entries still agree.
released_counted :
    (f : Flight) (others : List Flight) (pending : List (String × ℕ))
    → HasDistinctKeys pending
    → ((k : String) → in_flight k (f ∷ others) ≡ is_pending (OrderedMap.get k pending))
    → (k : String)
    → in_flight k others ≡ is_pending (OrderedMap.get k (OrderedMap.delete f.cache_key pending))
unfolding in_flight is_pending
released_counted f others pending distinct counted k = elim (Bool-cases (str_eq f.cache_key k)) [
  | inl same ↦
      let key : f.cache_key ≡ k = (eq_iff f.cache_key k).0 same in
      let gone =
        get-Absent f.cache_key (OrderedMap.delete f.cache_key pending)
          (Absent-delete_self f.cache_key pending distinct) in
      let few = is_pending_few (OrderedMap.get k pending) in
      let there = counted k in
      subst
        (λ x.
          in_flight k others
          ≡ is_pending (OrderedMap.get x (OrderedMap.delete f.cache_key pending)))
        key (ground (arith, gone, few, there, same))
  | inr other ↦ ground (
    arith,
    other,
    counted k,
    eq_iff f.cache_key k,
    get-delete_ne k f.cache_key pending (λ e. cc (sym e, other, eq_refl k)),
  )
]

module _ {R : Type 0} where
  -- No call skips the cache.
  unfoldable pub uses_cache : Event R → Bool
  uses_cache (verifies now key true) = false
  uses_cache (verifies now key false) = true
  uses_cache (lands now place end) = true

  -- Each key has as many flights as pending entries, none or one.
  record IsTracked (s : Verifier R) : Type 0 where
    counted : (key : String) → in_flight key s.flights ≡ is_pending (OrderedMap.get key s.pending)
    distinct : HasDistinctKeys s.pending

  start-IsTracked :
      (key : String) (s : Verifier R)
      → OrderedMap.get key s.pending ≡ none
      → IsTracked s
      → IsTracked (start key false s)
  unfolding start replied in_flight is_pending
  start-IsTracked key s free tracked = record {
    counted =
        λ k. ground (arith, get-set key k s.calls s.pending, tracked.counted k, free, eq_iff key k);
    distinct = set-HasDistinctKeys key s.calls s.pending tracked.distinct;
  }

  join-IsTracked :
      (key : String) (o : Option ℕ) (s : Verifier R)
      → OrderedMap.get key s.pending ≡ o
      → IsTracked s
      → IsTracked (join key o s)
  unfolding join replied
  join-IsTracked key none s free tracked = start-IsTracked key s free tracked
  join-IsTracked key (some flight) s free tracked = record {
    counted = tracked.counted;
    distinct = tracked.distinct;
  }

  replied-IsTracked : (r : Reply R) (s : Verifier R) → IsTracked s → IsTracked (replied r s)
  unfolding replied
  replied-IsTracked r s tracked = record { counted = tracked.counted; distinct = tracked.distinct }

  cleared :
      (key : String) (s : Verifier R)
      → IsTracked s
      → IsTracked (record s { cache = OrderedMap.delete key s.cache })
  cleared key s tracked = record { counted = tracked.counted; distinct = tracked.distinct }

  look_up-IsTracked :
      (now : ℕ) (key : String) (o : Option (Cached R)) (s : Verifier R)
      → IsTracked s
      → IsTracked (look_up now key o s)
  unfolding look_up replied
  look_up-IsTracked now key none s tracked =
      join-IsTracked key (OrderedMap.get key s.pending) s refl tracked
  look_up-IsTracked now key (some e) s tracked =
      if_both IsTracked (ltb now (e.timestamp + 300000)) _ _
        (λ fresh. replied-IsTracked (cached e.result) s tracked)
        (λ old.
          join-IsTracked key (OrderedMap.get key s.pending)
            (record s { cache = OrderedMap.delete key s.cache }) refl (cleared key s tracked))

  -- The cache, which an end of a flight may change, is no part of the invariant.
  store-flights :
      (now : ℕ) (f : Flight) (end : End R) (s : Verifier R)
      → ((store now f end s).flights ≡ s.flights) × ((store now f end s).pending ≡ s.pending)
  unfolding store
  store-flights now f throws s = (refl, refl)
  store-flights now f (gives r stored) s =
      ground (arith, Bool-cases f.skip_cache, Bool-cases stored)

  release-IsTracked :
      (f : Flight) (s t : Verifier R)
      → t.pending ≡ s.pending
      → ((k : String) → in_flight k (f ∷ t.flights) ≡ in_flight k s.flights)
      → IsTracked s
      → IsTracked (release f.cache_key t)
  unfolding release
  release-IsTracked f s t same fewer tracked =
      let distinct = subst HasDistinctKeys (sym same) tracked.distinct in
      record {
        counted = released_counted f t.flights t.pending distinct (λ k.
            fewer k ∙ tracked.counted k ∙ ap (λ m. is_pending (OrderedMap.get k m)) (sym same));
        distinct = delete-HasDistinctKeys f.cache_key t.pending distinct;
      }

  land-IsTracked :
      (now : ℕ) (end : End R) (o : Option (Flight × List Flight)) (place : ℕ) (s : Verifier R)
      → extract place s.flights ≡ o
      → IsTracked s
      → IsTracked (land now end o s)
  unfolding land
  land-IsTracked now end none place s found tracked = tracked
  land-IsTracked now end (some (f, others)) place s found tracked =
      let (kept, pending) = store-flights now f end (record s { flights = others }) in
      release-IsTracked f s (store now f end (record s { flights = others })) pending
        (λ k. ap (λ fs. in_flight k (f ∷ fs)) kept ∙ in_flight-extract k place s.flights found)
        tracked

  step-IsTracked :
      (e : Event R) (s : Verifier R) → uses_cache e ≡ true → IsTracked s → IsTracked (step e s)
  unfolding step verify_operation uses_cache
  step-IsTracked (verifies now key true) s uses tracked = absurd (cc uses)
  step-IsTracked (verifies now key false) s uses tracked =
      look_up-IsTracked now key (OrderedMap.get key s.cache) s tracked
  step-IsTracked (lands now place end) s uses tracked =
      land-IsTracked now end (extract place s.flights) place s refl tracked

  run-IsTracked :
      (es : List (Event R)) (s : Verifier R)
      → All (λ e. uses_cache e ≡ true) es
      → IsTracked s
      → IsTracked (run es s)
  unfolding run
  run-IsTracked [] s all tracked = tracked
  run-IsTracked (e ∷ es) s (uses, all) tracked =
      run-IsTracked es (step e s) all (step-IsTracked e s uses tracked)

  create-IsTracked : IsTracked create
  unfolding create in_flight is_pending
  create-IsTracked = record { counted = λ k. refl; distinct = tt }

  -- While no call skips the cache, whatever the order of calls and ends, at most one verification
  -- of a key is in flight, and a key has one exactly while it has a pending entry to join.
  pub flight_alone :
      (es : List (Event R)) (key : String)
      → All (λ e. uses_cache e ≡ true) es
      → (in_flight key (run es create).flights ≤ 1)
        × (in_flight key (run es create).flights
            ≡ is_pending (OrderedMap.get key (run es create).pending))
  flight_alone es key all =
      let same = (run-IsTracked es create all create-IsTracked).counted key in
      (ground (arith, same, is_pending_few (OrderedMap.get key (run es create).pending)), same)

  -- The end of a verification that skips the cache frees its key: while the pending entries have
  -- distinct keys and the cache has no entry of the key, a call that skips the cache, the end of
  -- its verification, and another call give one more verification of the key in flight, however
  -- many there were, so that the other call does not join any of them.
  pub skip_breaks_sharing :
      (s : Verifier R) (now later : ℕ) (key : String) (end : End R)
      → HasDistinctKeys s.pending
      → OrderedMap.get key s.cache ≡ none
      → in_flight key
          (run
            (verifies now key true ∷ lands later 0 end ∷ verifies later key false ∷ [])
            s).flights
        ≡ suc (in_flight key s.flights)
  unfolding in_flight run step verify_operation look_up join start replied land extract store
      release
  skip_breaks_sharing s now later key (gives r stored) distinct missing = ground (
    arith,
    eq_refl key,
    missing,
    get-Absent key (OrderedMap.delete key s.pending) (Absent-delete_self key s.pending distinct),
  )
  skip_breaks_sharing s now later key throws distinct missing = ground (
    arith,
    eq_refl key,
    missing,
    get-Absent key (OrderedMap.delete key s.pending) (Absent-delete_self key s.pending distinct),
  )
