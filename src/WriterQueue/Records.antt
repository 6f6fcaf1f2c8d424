-- ===== src/WriterQueue/Records.antt =====
-- The record cache of the audit writer queue, in backend/src/lib/audit-writer-queue.js: a bounded
-- map in memory in front of Redis. A call is one step, whose answer from Redis is an argument. Keys
-- are formatted already and not empty, and the data is not undefined.
use stellar_payment_api.Base.{
  ℕ, zero, suc, ◌+◌, ◌*◌, String, Bool, true, false, Option, none, some, List, [], ◌∷◌,
  if◌then◌else◌, ltb, leb, length,
}
use stellar_payment_api.OrderedMap
pub mod Expiry

pub record Entry (A : Type 0) : Type 0 where
  pub data_of : A
  pub expires_at : ℕ

pub record Records (A : Type 0) : Type 0 where
  pub memory : List (String × Entry A)
  pub max_memory_cache_size : ℕ
  pub default_ttl_ms : ℕ
  pub cache_hits : ℕ
  pub cache_misses : ℕ
  pub cache_errors : ℕ

-- What Redis is for a read: there is no client, or it is closed; it or `JSON.parse` throws; it has
-- no value, or one.
pub data Reply (A : Type 0) : Type 0 where
  no_client closed throws nothing : Reply A
  value : A → Reply A

-- `ttlSeconds ? ttlSeconds * 1000 : this.defaultTtlMs`
unfoldable pub ttl_ms_of : Option ℕ → ℕ → ℕ
ttl_ms_of none default = default
ttl_ms_of (some zero) default = default
ttl_ms_of (some (suc s)) default = suc s * 1000

module _ {A : Type 0} where
  unfoldable pub create : ℕ → ℕ → Records A
  create size ttl = record {
    memory = [];
    max_memory_cache_size = size;
    default_ttl_ms = ttl;
    cache_hits = 0;
    cache_misses = 0;
    cache_errors = 0;
  }

  unfoldable pub evict_oldest : Option String → List (String × Entry A) → List (String × Entry A)
  evict_oldest none m = m
  evict_oldest (some oldest) m = OrderedMap.delete oldest m

  unfoldable pub evict_if_full : ℕ → List (String × Entry A) → List (String × Entry A)
  evict_if_full size m = if leb size (length m) then evict_oldest (OrderedMap.first_key m) m else m

  -- `_setMemoryCache`: it evicts also when the key is there already.
  unfoldable pub set_memory_cache : ℕ → String → A → ℕ → Records A → Records A
  set_memory_cache now key x ttl_ms r = record r {
    memory =
        OrderedMap.set key (record { data_of = x; expires_at = now + ttl_ms })
          (evict_if_full r.max_memory_cache_size r.memory);
  }

  unfoldable pub hit : Records A → Records A
  hit r = record r { cache_hits = r.cache_hits + 1 }

  unfoldable pub miss : Records A → Records A
  miss r = record r { cache_misses = r.cache_misses + 1 }

  -- The second tier, at the time it has answered.
  unfoldable pub ask_redis : ℕ → String → Reply A → Records A → Records A × Option A
  ask_redis later key no_client r = (miss r, none)
  ask_redis later key closed r = (miss r, none)
  ask_redis later key throws r = (miss (record r { cache_errors = r.cache_errors + 1 }), none)
  ask_redis later key nothing r = (miss r, none)
  ask_redis later key (value x) r = (hit (set_memory_cache later key x r.default_ttl_ms r), some x)

  unfoldable pub found :
      ℕ → ℕ → String → Reply A → Records A → Option (Entry A) → Records A × Option A
  found now later key reply r none = ask_redis later key reply r
  found now later key reply r (some e) =
      if ltb now e.expires_at
      then (hit r, some e.data_of)
      else ask_redis later key reply (record r { memory = OrderedMap.delete key r.memory })

  unfoldable pub get_cached_record : ℕ → ℕ → String → Reply A → Records A → Records A × Option A
  get_cached_record now later key reply r =
      found now later key reply r (OrderedMap.get key r.memory)

  -- `fails` tells whether the write to Redis fails.
  unfoldable pub set_cached_record : ℕ → String → A → Option ℕ → Bool → Records A → Records A
  set_cached_record now key x ttl_seconds fails r =
      let kept = set_memory_cache now key x (ttl_ms_of ttl_seconds r.default_ttl_ms) r in
      if fails then record kept { cache_errors = kept.cache_errors + 1 } else kept

  unfoldable pub invalidate_cached_record : String → Bool → Records A → Records A
  invalidate_cached_record key fails r =
      let kept = record r { memory = OrderedMap.delete key r.memory } in
      if fails then record kept { cache_errors = kept.cache_errors + 1 } else kept

  unfoldable pub clear_cache : Records A → Records A
  clear_cache r = record r { memory = [] }

pub data Call (A : Type 0) : Type 0 where
  gets : (now later : ℕ) (key : String) → Reply A → Call A
  sets : (now : ℕ) (key : String) → A → (ttl_seconds : Option ℕ) (fails : Bool) → Call A
  invalidates : (key : String) (fails : Bool) → Call A
  clears : Call A

module _ {A : Type 0} where
  unfoldable pub perform : Call A → Records A → Records A
  perform (gets now later key reply) r = (get_cached_record now later key reply r).0
  perform (sets now key x ttl fails) r = set_cached_record now key x ttl fails r
  perform (invalidates key fails) r = invalidate_cached_record key fails r
  perform clears r = clear_cache r

  unfoldable pub perform_all : List (Call A) → Records A → Records A
  perform_all [] r = r
  perform_all (c ∷ cs) r = perform_all cs (perform c r)
