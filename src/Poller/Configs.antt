-- ===== src/Poller/Configs.antt =====
-- The merchant notification configs of backend/src/lib/horizon-poller.js: the module-level cache
-- with a time to live (`MerchantConfigCache`), the batch preload of a cycle, and the lookup of one
-- merchant.
use stellar_payment_api.Base.{
  ℕ, suc, ◌-◌, String, Bool, true, false, Option, none, some, List, [], ◌∷◌, ◌++◌, if◌then◌else◌,
  length, ltb, leb, str_eq,
}
use stellar_payment_api.OrderedMap
pub mod Lookups
pub mod Kept
pub mod Repeats

-- What the caches hold for a merchant: the sentinel `MERCHANT_NOT_FOUND`, `null`, or the config.
pub data Cached (C : Type 0) : Type 0 where
  not_found null : Cached C
  config : C → Cached C

pub record Stamped (C : Type 0) : Type 0 where
  pub stored : Cached C
  pub inserted_at : ℕ

pub record ConfigCache (C : Type 0) : Type 0 where
  pub max_entries : ℕ
  pub ttl_ms : ℕ
  pub cache : List (String × Stamped C)

-- The reply to the batch query; a throw is an exception of the client.
pub data BatchReply (C : Type 0) : Type 0 where
  rows : List (String × C) → BatchReply C
  query_error throws : BatchReply C

-- The reply to the query for one merchant.
pub data SingleReply (C : Type 0) : Type 0 where
  row : Option C → SingleReply C
  lookup_error : SingleReply C

-- The answer of a lookup, whether the database was asked, and both caches after it.
pub record Loaded (C : Type 0) : Type 0 where
  pub answer : Option C
  pub queried : Bool
  pub lru : ConfigCache C
  pub cycle : List (String × Cached C)

module _ {C : Type 0} where
  pub cache_found :
      ℕ → String → ConfigCache C → Option (Stamped C) → ConfigCache C × Option (Cached C)
  cache_found now id c none = (c, none)
  cache_found now id c (some e) =
      if ltb c.ttl_ms (now - e.inserted_at)
      then (record c { cache = OrderedMap.delete id c.cache }, none)
      else (record c { cache = OrderedMap.set id e (OrderedMap.delete id c.cache) }, some e.stored)

  -- `MerchantConfigCache.get`; a stored `null` reads like a miss for both callers.
  pub cache_get : ℕ → String → ConfigCache C → ConfigCache C × Option (Cached C)
  unfolding cache_found
  cache_get now id c = cache_found now id c (OrderedMap.get id c.cache)

  evict_oldest : Option String → List (String × Stamped C) → List (String × Stamped C)
  evict_oldest none m = m
  evict_oldest (some oldest) m = OrderedMap.delete oldest m

  -- `MerchantConfigCache.set`
  pub cache_set : ℕ → String → Cached C → ConfigCache C → ConfigCache C
  unfolding evict_oldest
  cache_set now id v c =
      let m = OrderedMap.delete id c.cache in
      let kept =
        if leb c.max_entries (length m) then evict_oldest (OrderedMap.first_key m) m else m in
      record c { cache = OrderedMap.set id (record { stored = v; inserted_at = now }) kept }

  -- The split of the batch's merchants into those cached and those to fetch.
  split_cached :
      ℕ → List String → ConfigCache C → ConfigCache C × List (String × Cached C) × List String
  split_cached now [] c = (c, [], [])
  split_cached now (id ∷ ids) c =
      let (c', entry) = cache_get now id c in
      let (last, cached, to_fetch) = split_cached now ids c' in
      elim entry [
        | none ↦ (last, cached, id ∷ to_fetch)
        | some null ↦ (last, cached, id ∷ to_fetch)
        | some v ↦ (last, (id, v) ∷ cached, to_fetch)
      ]

  set_all : List (String × Cached C) → List (String × Cached C) → List (String × Cached C)
  set_all [] cycle = cycle
  set_all ((id, v) ∷ more) cycle = set_all more (OrderedMap.set id v cycle)

  store_rows :
      ℕ
      → List (String × C)
      → ConfigCache C
      → List (String × Cached C)
      → ConfigCache C × List (String × Cached C)
  store_rows now [] c cycle = (c, cycle)
  store_rows now ((id, m) ∷ more) c cycle =
      store_rows now more (cache_set now id (config m) c) (OrderedMap.set id (config m) cycle)

  store_absent :
      ℕ
      → List String
      → ConfigCache C
      → List (String × Cached C)
      → ConfigCache C × List (String × Cached C)
  store_absent now [] c cycle = (c, cycle)
  store_absent now (id ∷ ids) c cycle =
      let known = OrderedMap.get id cycle in
      store_absent now ids (elim known [ none ↦ cache_set now id not_found c | some _ ↦ c ])
        (elim known [ none ↦ OrderedMap.set id not_found cycle | some _ ↦ cycle ])

  fetch_rest :
      ℕ
      → List String
      → BatchReply C
      → ConfigCache C
      → List (String × Cached C)
      → ConfigCache C × List (String × Cached C)
  fetch_rest now [] reply c cycle = (c, cycle)
  fetch_rest now (id ∷ ids) (rows rs) c cycle =
      let (c', cycle') = store_rows now rs c cycle in store_absent now (id ∷ ids) c' cycle'
  fetch_rest now (id ∷ ids) query_error c cycle = (c, cycle)
  fetch_rest now (id ∷ ids) throws c cycle = (record c { cache = [] }, [])

  -- `preloadMerchantConfigs` for the distinct merchant ids of the batch: the cycle's cache.
  pub preload :
      ℕ → List String → BatchReply C → ConfigCache C → ConfigCache C × List (String × Cached C)
  unfolding split_cached set_all fetch_rest store_rows store_absent
  preload now ids reply c =
      let (c', cached, to_fetch) = split_cached now ids c in
      fetch_rest now to_fetch reply c' (set_all cached [])

  -- What a caller gets for a cached value: the sentinel is translated back to null.
  resolved : Cached C → Option C
  resolved not_found = none
  resolved null = none
  resolved (config m) = some m

  as_cached : Option C → Cached C
  as_cached none = null
  as_cached (some m) = config m

  -- `result === null ? MERCHANT_NOT_FOUND : result`
  pub or_not_found : Option C → Cached C
  or_not_found none = not_found
  or_not_found (some m) = config m

  from_query : ℕ → String → SingleReply C → ConfigCache C → List (String × Cached C) → Loaded C
  from_query now id lookup_error c cycle = record {
    answer = none;
    queried = true;
    lru = cache_set now id not_found c;
    cycle = OrderedMap.set id null cycle;
  }
  from_query now id (row r) c cycle = record {
    answer = r;
    queried = true;
    lru = cache_set now id (or_not_found r) c;
    cycle = OrderedMap.set id (as_cached r) cycle;
  }

  pub from_lru :
      ℕ
      → String
      → SingleReply C
      → List (String × Cached C)
      → ConfigCache C × Option (Cached C)
      → Loaded C
  from_lru now id reply cycle (c, none) = from_query now id reply c cycle
  from_lru now id reply cycle (c, some null) = from_query now id reply c cycle
  from_lru now id reply cycle (c, some v) = record {
    answer = resolved v;
    queried = false;
    lru = c;
    cycle = OrderedMap.set id (as_cached (resolved v)) cycle;
  }

  from_cycle :
      ℕ
      → String
      → SingleReply C
      → ConfigCache C
      → List (String × Cached C)
      → Option (Cached C)
      → Loaded C
  from_cycle now id reply c cycle (some v) = record {
    answer = resolved v;
    queried = false;
    lru = c;
    cycle = cycle;
  }
  from_cycle now id reply c cycle none = from_lru now id reply cycle (cache_get now id c)

  -- `loadMerchantNotificationConfig` for a merchant id that is not empty.
  pub load : ℕ → String → SingleReply C → ConfigCache C → List (String × Cached C) → Loaded C
  unfolding from_cycle from_lru from_query resolved as_cached or_not_found
  load now id reply c cycle = from_cycle now id reply c cycle (OrderedMap.get id cycle)
