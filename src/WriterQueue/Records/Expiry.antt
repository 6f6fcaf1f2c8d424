-- ===== src/WriterQueue/Records/Expiry.antt =====
-- What the record cache serves, and how large it gets.
use stellar_payment_api.Base.{
  ℕ, suc, ◌+◌, ◌≤◌, max, ◌≡◌, refl, ◌∙◌, ap, String, Bool, Option, none, some, List, [], ◌∷◌,
  if◌then◌else◌, if_both, ltb, length, arith, eq_refl,
}
use stellar_payment_api.OrderedMap
use stellar_payment_api.OrderedMap.{get-set, length-set-le, length-delete-le, length-delete_first}
use stellar_payment_api.WriterQueue.Records.{
  Entry, Records, Reply, no_client, closed, throws, nothing, value, create, evict_oldest,
  evict_if_full, set_memory_cache, hit, miss, ask_redis, found, get_cached_record, ttl_ms_of,
  set_cached_record, invalidate_cached_record, clear_cache, Call, gets, sets, invalidates, clears,
  perform, perform_all,
}

module _ {A : Type 0} where
  abbrev pub IsBounded : Records A → Type 0
  IsBounded r = length r.memory ≤ max 1 r.max_memory_cache_size

  evicted :
      (size : ℕ) (m : List (String × Entry A))
      → length m ≤ max 1 size
      → suc (length (evict_if_full size m)) ≤ max 1 size
  unfolding evict_if_full evict_oldest
  evicted size [] bounded = ground (arith, bounded)
  evicted size ((k, e) ∷ m) bounded =
      ground (arith, bounded, length-delete_first ((k, e) ∷ m) {k = k} refl)

  set_memory_cache-IsBounded :
      (now : ℕ) (key : String) (x : A) (ttl : ℕ) (r : Records A)
      → IsBounded r
      → IsBounded (set_memory_cache now key x ttl r)
  unfolding set_memory_cache
  set_memory_cache-IsBounded now key x ttl r bounded = omega (
    arith,
    evicted r.max_memory_cache_size r.memory bounded,
    length-set-le key (record { data_of = x; expires_at = now + ttl })
        (evict_if_full r.max_memory_cache_size r.memory),
  )

  ask_redis-IsBounded :
      (later : ℕ) (key : String) (reply : Reply A) (r : Records A)
      → IsBounded r
      → IsBounded (ask_redis later key reply r).0
  unfolding ask_redis hit miss
  ask_redis-IsBounded later key no_client r bounded = bounded
  ask_redis-IsBounded later key closed r bounded = bounded
  ask_redis-IsBounded later key throws r bounded = bounded
  ask_redis-IsBounded later key nothing r bounded = bounded
  ask_redis-IsBounded later key (value x) r bounded =
      set_memory_cache-IsBounded later key x r.default_ttl_ms r bounded

  found-IsBounded :
      (now later : ℕ) (key : String) (reply : Reply A) (r : Records A) (o : Option (Entry A))
      → IsBounded r
      → IsBounded (found now later key reply r o).0
  unfolding found hit
  found-IsBounded now later key reply r none bounded = ask_redis-IsBounded later key reply r bounded
  found-IsBounded now later key reply r (some e) bounded =
      let fewer = record r { memory = OrderedMap.delete key r.memory } in
      if_both (λ (p : Records A × Option A). IsBounded p.0) (ltb now e.expires_at)
        (hit r, some e.data_of) (ask_redis later key reply fewer) (λ _. bounded)
        (λ _.
          ask_redis-IsBounded later key reply fewer
            (omega (arith, bounded, length-delete-le key r.memory)))

  perform-IsBounded : (c : Call A) (r : Records A) → IsBounded r → IsBounded (perform c r)
  unfolding perform get_cached_record set_cached_record invalidate_cached_record clear_cache
  perform-IsBounded (gets now later key reply) r bounded =
      found-IsBounded now later key reply r (OrderedMap.get key r.memory) bounded
  perform-IsBounded (sets now key x ttl fails) r bounded =
      let kept = set_memory_cache now key x (ttl_ms_of ttl r.default_ttl_ms) r in
      let still = set_memory_cache-IsBounded now key x (ttl_ms_of ttl r.default_ttl_ms) r bounded in
      if_both IsBounded fails (record kept { cache_errors = kept.cache_errors + 1 }) kept
        (λ _. still) (λ _. still)
  perform-IsBounded (invalidates key fails) r bounded =
      let kept = record r { memory = OrderedMap.delete key r.memory } in
      if_both IsBounded fails (record kept { cache_errors = kept.cache_errors + 1 }) kept
        (λ _. omega (arith, bounded, length-delete-le key r.memory))
        (λ _. omega (arith, bounded, length-delete-le key r.memory))
  perform-IsBounded clears r bounded = omega arith

  perform_all-IsBounded :
      (cs : List (Call A)) (r : Records A) → IsBounded r → IsBounded (perform_all cs r)
  unfolding perform_all
  perform_all-IsBounded [] r bounded = bounded
  perform_all-IsBounded (c ∷ cs) r bounded =
      perform_all-IsBounded cs (perform c r) (perform-IsBounded c r bounded)

  -- In every run of a new record cache the memory holds at most as many records as it may, with at
  -- least one place.
  new_cache-IsBounded :
      (cs : List (Call A)) (size ttl : ℕ) → IsBounded (perform_all cs (create size ttl))
  new_cache-IsBounded cs size ttl =
      perform_all-IsBounded cs (create size ttl) (unfold create in omega arith)

  -- What Redis has to say of a key.
  unfoldable pub answer_of : Reply A → Option A
  answer_of (value x) = some x
  answer_of reply = none

  asked :
      (later : ℕ) (key : String) (reply : Reply A) (r : Records A)
      → (ask_redis later key reply r).1 ≡ answer_of reply
  unfolding ask_redis answer_of
  asked later key reply r = ground arith

  set-get :
      (set_at ttl_ms : ℕ) (key : String) (x : A) (r : Records A)
      → OrderedMap.get key (set_memory_cache set_at key x ttl_ms r).memory
        ≡ some (record { data_of = x; expires_at = set_at + ttl_ms })
  unfolding set_memory_cache
  set-get set_at ttl_ms key x r =
      let e : Entry A = record { data_of = x; expires_at = set_at + ttl_ms } in
      get-set key key e (evict_if_full r.max_memory_cache_size r.memory)
      ∙ ap
          (λ b.
            if b
            then some e
            else OrderedMap.get key (evict_if_full r.max_memory_cache_size r.memory))
          (eq_refl key)

  -- A found record, and what is answered.
  found-answer :
      (now later expires : ℕ) (key : String) (x : A) (reply : Reply A) (r : Records A)
      → (found now later key reply r (some (record { data_of = x; expires_at = expires }))).1
        ≡ (if ltb now expires then some x else answer_of reply)
  unfolding found
  found-answer now later expires key x reply r =
      let fewer = record r { memory = OrderedMap.delete key r.memory } in
      ground (arith, asked later key reply fewer)

  -- A look-up directly after a record has been set is answered from the memory, whatever Redis is,
  -- while its time to live is not over, and otherwise as Redis answers.
  served_until_expiry :
      (set_at now later : ℕ) (key : String) (x : A) (ttl : Option ℕ) (fails : Bool)
      (reply : Reply A) (r : Records A)
      → (get_cached_record now later key reply (set_cached_record set_at key x ttl fails r)).1
        ≡ (if ltb now (set_at + ttl_ms_of ttl r.default_ttl_ms) then some x else answer_of reply)
  unfolding get_cached_record set_cached_record
  served_until_expiry set_at now later key x ttl fails reply r =
      let ttl_ms = ttl_ms_of ttl r.default_ttl_ms in
      let kept = set_memory_cache set_at key x ttl_ms r in
      let failed = record kept { cache_errors = kept.cache_errors + 1 } in
      let here = set-get set_at ttl_ms key x r in
      let expected = if ltb now (set_at + ttl_ms) then some x else answer_of reply in
      if_both (λ p. (found now later key reply p (OrderedMap.get key p.memory)).1 ≡ expected) fails
        failed kept
        (λ _.
          ap (λ o. (found now later key reply failed o).1) here
          ∙ found-answer now later (set_at + ttl_ms) key x reply failed)
        (λ _.
          ap (λ o. (found now later key reply kept o).1) here
          ∙ found-answer now later (set_at + ttl_ms) key x reply kept)
