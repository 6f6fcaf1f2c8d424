-- ===== src/SignerCache/Tiers.antt =====
-- What the verification cache serves: never an expired entry, always what was just stored.
use stellar_payment_api.Base.{
  ℕ, ◌+◌, ◌-◌, ◌≤◌, String, Bool, Option, none, some, List, [], ◌∷◌, ◌≡◌, ◌≢◌, ◌↔◌, ◌⊎◌, refl,
  if◌then◌else◌, length, arith, eq_refl, eq_iff, inl, inr,
}
use stellar_payment_api.OrderedMap
use stellar_payment_api.OrderedMap.{get-set, get-delete_ne, HasDistinctKeys, Absent, get-Absent}
use stellar_payment_api.SignerCache.{
  Entry, Memory, ttl_ms, is_expired, memory_found, memory_get, make_room, memory_set, prune_from,
  memory_prune, RedisAnswer, failing, missing, malformed, found, Cache, get_after, get, set,
}

module _ {R : Type 0} where
  -- An entry that its time to live still covers.
  abbrev pub IsFresh : ℕ → Memory R → Entry R → Type 0
  IsFresh now m e = now - e.inserted_at ≤ ttl_ms m e

  memory_found-IsFresh :
      (now : ℕ) (k : String) (m : Memory R) (o : Option (Entry R)) {e : Entry R}
      → (memory_found now k m o).1 ≡ some e
      → (o ≡ some e) × IsFresh now m e
  unfolding memory_found
  memory_found-IsFresh now k m none h = cc
  memory_found-IsFresh now k m (some x) {e} h = ground arith

  stored :
      (now : ℕ) (k : String) (m : Memory R) (e : Entry R)
      → IsFresh now m e
      → (memory_found now k m (some e)).1 ≡ some e
  unfolding memory_found
  stored now k m e f = ground arith

  memory_get_stored :
      (now : ℕ) (k : String) (m : Memory R) (e : Entry R)
      → OrderedMap.get k m.cache ≡ some e
      → IsFresh now m e
      → (memory_get now k m).1 ≡ some e
  unfolding memory_get
  memory_get_stored now k m e h f = rw h (stored now k m e f)

  get-memory_set :
      (now : ℕ) (k : String) (r : R) (v : Bool) (m : Memory R)
      → OrderedMap.get k (memory_set now k r v m).cache
        ≡ some (record { result = r; inserted_at = now; valid = v })
  unfolding memory_set
  get-memory_set now k r v m =
      rw (get-set k k _ (make_room m.max_entries (OrderedMap.delete k m.cache)), eq_refl k)

  -- Pruning keeps what is fresh, and counts what it drops.
  length-prune_from :
      (now : ℕ) (m : Memory R) (c : List (String × Entry R))
      → length (prune_from now m c).0 + (prune_from now m c).1 ≡ length c
  unfolding prune_from
  length-prune_from now m [] = omega arith
  length-prune_from now m ((k, e) ∷ c) = ground (arith, length-prune_from now m c)

  pub set-memory :
      (now : ℕ) (k : String) (r : R) (v : Bool) (writes : Option Bool) (c : Cache R)
      → (set now k r v writes c).0.memory ≡ memory_set now k r v c.memory
  unfolding set
  set-memory now k r v none c = refl
  set-memory now k r v (some fails) c = ground arith

  get_after_hit :
      (now : ℕ) (k : String) (redis : Option (RedisAnswer R)) (c : Cache R)
      (x : Memory R × Option (Entry R)) (e : Entry R)
      → x.1 ≡ some e
      → (get_after now k redis c x).1 ≡ some e.result
  unfolding get_after
  get_after_hit now k redis c (m, some x) e h = ground arith
  get_after_hit now k redis c (m, none) e h = cc

  -- Directly after it has been stored, a result is served within its time to live, whatever Redis
  -- answers then and whether or not the write to Redis succeeded.
  pub get-set_fresh :
      (then' now : ℕ) (k : String) (r : R) (v : Bool) (writes : Option Bool)
      (redis : Option (RedisAnswer R)) (c : Cache R)
      → now - then' ≤ (if v then c.memory.valid_ttl_ms else c.memory.invalid_ttl_ms)
      → (get now k redis (set then' k r v writes c).0).1 ≡ some r
  unfolding get memory_set
  get-set_fresh then' now k r v writes redis c h =
      let e : Entry R = record { result = r; inserted_at = then'; valid = v } in
      get_after_hit now k redis (set then' k r v writes c).0 _ e (
        rw (set-memory then' k r v writes c) (
          memory_get_stored now k (memory_set then' k r v c.memory) e
            (get-memory_set then' k r v c.memory) h))

  get_after_source :
      (now : ℕ) (k : String) (redis : Option (RedisAnswer R)) (c : Cache R)
      (x : Memory R × Option (Entry R)) (r : R)
      → (get_after now k redis c x).1 ≡ some r
      → ((e : Entry R) × (x.1 ≡ some e) × (e.result ≡ r))
        ⊎ ((v : Bool) × (redis ≡ some (found r v)))
  unfolding get
  get_after_source now k redis c (m, some e) r h = inl (e, refl, ground arith)
  get_after_source now k none c (m, none) r h = cc
  get_after_source now k (some failing) c (m, none) r h = cc
  get_after_source now k (some missing) c (m, none) r h = cc
  get_after_source now k (some malformed) c (m, none) r h = cc
  get_after_source now k (some (found q v)) c (m, none) r h = inr (v, ground arith)

  -- What is served is a fresh entry of the memory tier, or what Redis has just answered.
  get_source :
      (now : ℕ) (k : String) (redis : Option (RedisAnswer R)) (c : Cache R) (r : R)
      → (get now k redis c).1 ≡ some r
      → ((e : Entry R) × (OrderedMap.get k c.memory.cache ≡ some e)
          × IsFresh now c.memory e
          × (e.result ≡ r))
        ⊎ ((v : Bool) × (redis ≡ some (found r v)))
  unfolding get memory_get
  get_source now k redis c r h =
      elim (get_after_source now k redis c (memory_get now k c.memory) r h) [
        | inl (e, served, same) ↦
            let (there, fresh) =
              memory_found-IsFresh now k c.memory (OrderedMap.get k c.memory.cache) {e = e}
                served in
            inl (e, there, fresh, same)
        | inr answered ↦ inr answered
      ]

  -- Each lookup counts once: as a hit if it serves a result, and as a miss otherwise.
  get_counts :
      (now : ℕ) (k : String) (redis : Option (RedisAnswer R)) (c : Cache R)
      → ((get now k redis c).0.hits + (get now k redis c).0.misses ≡ c.hits + c.misses + 1)
        × (((get now k redis c).1 ≡ none) ↔ ((get now k redis c).0.hits ≡ c.hits))
  unfolding get
  get_counts now k redis c = counted (memory_get now k c.memory)
    where
      counted :
          (x : Memory R × Option (Entry R))
          → ((get_after now k redis c x).0.hits + (get_after now k redis c x).0.misses
              ≡ c.hits + c.misses + 1)
            × (((get_after now k redis c x).1 ≡ none)
                ↔ ((get_after now k redis c x).0.hits ≡ c.hits))
      counted (m, some e) = ground arith
      counted (m, none) = ground arith

  memory_found_other :
      (now : ℕ) (k q : String) (m : Memory R) (o : Option (Entry R))
      → q ≢ k
      → OrderedMap.get q (memory_found now k m o).0.cache ≡ OrderedMap.get q m.cache
  unfolding memory_found
  memory_found_other now k q m none n = refl
  memory_found_other now k q m (some e) n =
      ground (
        arith,
        get-delete_ne q k m.cache n,
        get-set k q e (OrderedMap.delete k m.cache),
        eq_iff k q,
      )

  get-make_room_kept :
      (most : ℕ) (q : String) (c : List (String × Entry R))
      → (most ≤ length c → OrderedMap.first_key c ≢ some q)
      → OrderedMap.get q (make_room most c) ≡ OrderedMap.get q c
  unfolding make_room
  get-make_room_kept most q [] n = ground arith
  get-make_room_kept most q ((j, e) ∷ c) n = ground (arith, eq_iff j q, eq_refl j)

  -- Storing a result changes no other entry, unless the cache is full and the entry is the least
  -- recently used, the one at the head of the order.
  memory_set_others :
      (now : ℕ) (k q : String) (r : R) (v : Bool) (m : Memory R)
      → q ≢ k
      → (m.max_entries ≤ length (OrderedMap.delete k m.cache)
          → OrderedMap.first_key (OrderedMap.delete k m.cache) ≢ some q)
      → OrderedMap.get q (memory_set now k r v m).cache ≡ OrderedMap.get q m.cache
  unfolding memory_set
  memory_set_others now k q r v m n kept =
      let c = OrderedMap.delete k m.cache in
      let e : Entry R = record { result = r; inserted_at = now; valid = v } in
      ground (
        arith,
        get-set k q e (make_room m.max_entries c),
        eq_iff k q,
        get-make_room_kept m.max_entries q c kept,
        get-delete_ne q k m.cache n,
      )

  -- What a lookup of the key gives from a list of entries.
  served_from : ℕ → Memory R → Option (Entry R) → Option (Entry R)
  served_from now m none = none
  served_from now m (some e) = if is_expired now m e then none else some e

  get-prune_from :
      (now : ℕ) (q : String) (m : Memory R) (c : List (String × Entry R))
      → HasDistinctKeys c
      → OrderedMap.get q (prune_from now m c).0 ≡ served_from now m (OrderedMap.get q c)
  unfolding prune_from served_from
  get-prune_from now q m [] d = refl
  get-prune_from now q m ((k, e) ∷ c) d =
      ground (arith, eq_iff k q, get-prune_from now q m c d.1, get-Absent k c)

  served_twice :
      (now : ℕ) (m : Memory R) (o : Option (Entry R))
      → served_from now m (served_from now m o) ≡ served_from now m o
  unfolding served_from
  served_twice now m none = refl
  served_twice now m (some e) = ground arith

  memory_found_served :
      (now : ℕ) (k : String) (m : Memory R) (o : Option (Entry R))
      → (memory_found now k m o).1 ≡ served_from now m o
  unfolding memory_found served_from
  memory_found_served now k m none = refl
  memory_found_served now k m (some e) = ground arith

  -- Where no hash stands twice, pruning is invisible to a lookup at that time, and what it reports
  -- is how many entries went.
  memory_prune_invisible :
      (now : ℕ) (k : String) (m : Memory R)
      → HasDistinctKeys m.cache
      → ((memory_get now k (memory_prune now m).0).1 ≡ (memory_get now k m).1)
        × (length (memory_prune now m).0.cache + (memory_prune now m).1 ≡ length m.cache)
  unfolding memory_get memory_prune served_from
  memory_prune_invisible now k m d = (
    rw
        (
          memory_found_served now k m (OrderedMap.get k m.cache),
          memory_found_served now k (memory_prune now m).0
              (OrderedMap.get k (prune_from now m m.cache).0),
          get-prune_from now k m m.cache d,
        )
        (served_twice now m (OrderedMap.get k m.cache)),
    length-prune_from now m m.cache,
  )
