-- ===== src/SignerCache.antt =====
-- The verification cache of the transaction signer, backend/src/lib/transaction-signer-cache.js:
-- an in-memory map with least-recently-used eviction and two times to live, before an optional
-- Redis tier. Times are milliseconds; `now` is `Date.now()`.
use stellar_payment_api.Base.{
  ℕ, suc, ◌+◌, ◌-◌, min, String, Bool, true, false, Option, none, some, List, [], ◌∷◌,
  if◌then◌else◌, length, ltb, leb,
}
use stellar_payment_api.OrderedMap
pub mod Capacity
pub mod Tiers
pub mod Runs
pub mod Kept
pub mod Serves

pub record Entry (R : Type 0) : Type 0 where
  pub result : R
  pub inserted_at : ℕ
  pub valid : Bool

-- `VerificationMemoryCache`
pub record Memory (R : Type 0) : Type 0 where
  pub max_entries : ℕ
  pub valid_ttl_ms : ℕ
  pub invalid_ttl_ms : ℕ
  pub cache : List (String × Entry R)

module _ {R : Type 0} where
  abbrev pub ttl_ms : Memory R → Entry R → ℕ
  ttl_ms m e = if e.valid then m.valid_ttl_ms else m.invalid_ttl_ms

  abbrev pub is_expired : ℕ → Memory R → Entry R → Bool
  is_expired now m e = ltb (ttl_ms m e) (now - e.inserted_at)

  pub memory_found : ℕ → String → Memory R → Option (Entry R) → Memory R × Option (Entry R)
  memory_found now k m none = (m, none)
  memory_found now k m (some e) =
      if is_expired now m e
      then (record m { cache = OrderedMap.delete k m.cache }, none)
      else (record m { cache = OrderedMap.set k e (OrderedMap.delete k m.cache) }, some e)

  pub memory_get : ℕ → String → Memory R → Memory R × Option (Entry R)
  unfolding memory_found
  memory_get now k m = memory_found now k m (OrderedMap.get k m.cache)

  -- `if (cache.size >= maxEntries) { delete the oldest, if there is one }`
  evict_first : Option String → List (String × Entry R) → List (String × Entry R)
  evict_first none c = c
  evict_first (some oldest) c = OrderedMap.delete oldest c

  make_room : ℕ → List (String × Entry R) → List (String × Entry R)
  unfolding evict_first
  make_room most c = if leb most (length c) then evict_first (OrderedMap.first_key c) c else c

  pub memory_set : ℕ → String → R → Bool → Memory R → Memory R
  unfolding make_room
  memory_set now k r v m = record m {
    cache =
        OrderedMap.set k (record { result = r; inserted_at = now; valid = v })
          (make_room m.max_entries (OrderedMap.delete k m.cache));
  }

  pub prune_from : ℕ → Memory R → List (String × Entry R) → List (String × Entry R) × ℕ
  prune_from now m [] = ([], 0)
  prune_from now m ((k, e) ∷ c) =
      let (kept, pruned) = prune_from now m c in
      if is_expired now m e then (kept, suc pruned) else ((k, e) ∷ kept, pruned)

  -- The entries that have expired go, and are counted.
  pub memory_prune : ℕ → Memory R → Memory R × ℕ
  unfolding prune_from
  memory_prune now m =
      let (kept, pruned) = prune_from now m m.cache in (record m { cache = kept }, pruned)

  -- A falsy hash (null or "") clears everything.
  pub memory_invalidate : Option String → Memory R → Memory R
  memory_invalidate none m = record m { cache = [] }
  memory_invalidate (some k) m = record m { cache = OrderedMap.delete k m.cache }

-- What a GET of the Redis tier gives: an error, nothing, a text that is no object with a result,
-- or such an object.
pub data RedisAnswer (R : Type 0) : Type 0 where
  failing missing malformed : RedisAnswer R
  found : (result : R) (valid : Bool) → RedisAnswer R

-- `TransactionSignerCache`
pub record Cache (R : Type 0) : Type 0 where
  pub memory : Memory R
  pub redis_ttl_seconds : ℕ
  pub hits : ℕ
  pub misses : ℕ
  pub fallbacks : ℕ

-- `SET key {result, valid} EX ttl`
pub record RedisWrite (R : Type 0) : Type 0 where
  pub tx_hash : String
  pub result : R
  pub valid : Bool
  pub ttl_seconds : ℕ

module _ {R : Type 0} where
  missed : Cache R → Cache R × Option R
  missed c = (record c { misses = c.misses + 1 }, none)

  -- The second tier; without a client the answer is `none`.
  redis_get : ℕ → String → Option (RedisAnswer R) → Cache R → Cache R × Option R
  redis_get now k none c = missed c
  redis_get now k (some failing) c = missed (record c { fallbacks = c.fallbacks + 1 })
  redis_get now k (some missing) c = missed c
  redis_get now k (some malformed) c = missed c
  redis_get now k (some (found r v)) c =
      (record c { memory = memory_set now k r v c.memory; hits = c.hits + 1 }, some r)

  pub get_after :
      ℕ
      → String
      → Option (RedisAnswer R)
      → Cache R
      → Memory R × Option (Entry R)
      → Cache R × Option R
  get_after now k redis c (m, some e) = (record c { memory = m; hits = c.hits + 1 }, some e.result)
  get_after now k redis c (m, none) = redis_get now k redis (record c { memory = m })

  pub get : ℕ → String → Option (RedisAnswer R) → Cache R → Cache R × Option R
  unfolding missed redis_get get_after
  get now k redis c = get_after now k redis c (memory_get now k c.memory)

  -- The write goes to both tiers; `redis` says whether there is a client, and whether it fails.
  redis_set : String → R → Bool → Option Bool → Cache R → Cache R × Option (RedisWrite R)
  redis_set k r v none c = (c, none)
  redis_set k r v (some fails) c =
      let write : RedisWrite R = record {
        tx_hash = k;
        result = r;
        valid = v;
        ttl_seconds = if v then c.redis_ttl_seconds else min 60 c.redis_ttl_seconds;
      } in
      (if fails then record c { fallbacks = c.fallbacks + 1 } else c, some write)

  pub set : ℕ → String → R → Bool → Option Bool → Cache R → Cache R × Option (RedisWrite R)
  unfolding redis_set
  set now k r v redis c =
      redis_set k r v redis (record c { memory = memory_set now k r v c.memory })

  pub invalidate : Option String → Cache R → Cache R
  invalidate k c = record c { memory = memory_invalidate k c.memory }

  pub prune : ℕ → Cache R → Cache R × ℕ
  prune now c = let (m, pruned) = memory_prune now c.memory in (record c { memory = m }, pruned)

  pub clear : Cache R → Cache R
  clear c = record c {
    memory = memory_invalidate none c.memory;
    hits = 0;
    misses = 0;
    fallbacks = 0;
  }
