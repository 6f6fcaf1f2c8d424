-- ===== src/SignerCache/Runs.antt =====
-- The verification cache over any sequence of calls.
use stellar_payment_api.Base.{
  ℕ, ◌≤◌, String, Bool, Option, none, some, List, [], ◌∷◌, ◌≡◌, refl, length, arith, subst,
}
use stellar_payment_api.OrderedMap.{
  HasDistinctKeys, Absent, delete-HasDistinctKeys, length-delete-le,
}
use stellar_payment_api.SignerCache.{
  Entry, Memory, memory_get, memory_set, prune_from, memory_prune, memory_invalidate, RedisAnswer,
  failing, missing, malformed, found, Cache, get_after, get, set, invalidate, prune, clear,
}
use stellar_payment_api.SignerCache.Capacity.{IsValid, memory_get-IsValid, memory_set-IsValid}

pub data Call (R : Type 0) : Type 0 where
  gets : (now : ℕ) (tx_hash : String) (redis : Option (RedisAnswer R)) → Call R
  sets : (now : ℕ) (tx_hash : String) (result : R) (valid : Bool) (writes : Option Bool) → Call R
  invalidates : (tx_hash : Option String) → Call R
  prunes : (now : ℕ) → Call R
  clears : Call R

module _ {R : Type 0} where
  unfoldable pub perform : Call R → Cache R → Cache R
  perform (gets now k redis) c = (get now k redis c).0
  perform (sets now k r v writes) c = (set now k r v writes c).0
  perform (invalidates k) c = invalidate k c
  perform (prunes now) c = (prune now c).0
  perform clears c = clear c

  unfoldable pub perform_all : List (Call R) → Cache R → Cache R
  perform_all [] c = c
  perform_all (call ∷ calls) c = perform_all calls (perform call c)

  Absent-prune_from :
      (now : ℕ) (q : String) (m : Memory R) (c : List (String × Entry R))
      → Absent q c
      → Absent q (prune_from now m c).0
  unfolding prune_from
  Absent-prune_from now q m [] a = tt
  Absent-prune_from now q m ((k, e) ∷ c) a = ground (arith, Absent-prune_from now q m c a.1)

  prune_from-HasDistinctKeys :
      (now : ℕ) (m : Memory R) (c : List (String × Entry R))
      → HasDistinctKeys c
      → HasDistinctKeys (prune_from now m c).0
  unfolding prune_from
  prune_from-HasDistinctKeys now m [] d = tt
  prune_from-HasDistinctKeys now m ((k, e) ∷ c) d =
      ground (arith, prune_from-HasDistinctKeys now m c d.1, Absent-prune_from now k m c d.0)

  pub length-prune_from-le :
      (now : ℕ) (m : Memory R) (c : List (String × Entry R))
      → length (prune_from now m c).0 ≤ length c
  unfolding prune_from
  length-prune_from-le now m [] = omega arith
  length-prune_from-le now m ((k, e) ∷ c) = ground (arith, length-prune_from-le now m c)

  get-IsValid :
      (now : ℕ) (k : String) (redis : Option (RedisAnswer R)) (c : Cache R)
      (x : Memory R × Option (Entry R))
      → IsValid x.0
      → IsValid (get_after now k redis c x).0.memory
  unfolding get
  get-IsValid now k redis c (m, some e) v = v
  get-IsValid now k none c (m, none) v = v
  get-IsValid now k (some failing) c (m, none) v = v
  get-IsValid now k (some missing) c (m, none) v = v
  get-IsValid now k (some malformed) c (m, none) v = v
  get-IsValid now k (some (found r w)) c (m, none) v = memory_set-IsValid now k r w m v

  set-memory :
      (now : ℕ) (k : String) (r : R) (v : Bool) (writes : Option Bool) (c : Cache R)
      → memory_set now k r v c.memory ≡ (set now k r v writes c).0.memory
  unfolding set
  set-memory now k r v none c = refl
  set-memory now k r v (some fails) c = ground arith

  perform-IsValid :
      (call : Call R) (c : Cache R) → IsValid c.memory → IsValid (perform call c).memory
  unfolding perform get invalidate memory_invalidate prune memory_prune clear
  perform-IsValid (gets now k redis) c v =
      get-IsValid now k redis c (memory_get now k c.memory) (memory_get-IsValid now k c.memory v)
  perform-IsValid (sets now k r w writes) c v =
      subst IsValid (set-memory now k r w writes c) (memory_set-IsValid now k r w c.memory v)
  perform-IsValid (invalidates none) c v = record { distinct = tt; bounded = omega arith }
  perform-IsValid (invalidates (some k)) c v = record {
    distinct = delete-HasDistinctKeys k c.memory.cache v.distinct;
    bounded = omega (arith, length-delete-le k c.memory.cache, v.bounded);
  }
  perform-IsValid (prunes now) c v = record {
    distinct = prune_from-HasDistinctKeys now c.memory c.memory.cache v.distinct;
    bounded = omega (arith, length-prune_from-le now c.memory c.memory.cache, v.bounded);
  }
  perform-IsValid clears c v = record { distinct = tt; bounded = omega arith }

  -- From a valid memory tier, whatever calls come, at whatever times and with whatever answers of
  -- Redis, the memory tier holds no hash twice and at most `max_entries` results (one where
  -- `max_entries` is 0).
  pub perform_all-IsValid :
      (calls : List (Call R)) (c : Cache R)
      → IsValid c.memory
      → IsValid (perform_all calls c).memory
  unfolding perform_all
  perform_all-IsValid [] c v = v
  perform_all-IsValid (call ∷ calls) c v =
      perform_all-IsValid calls (perform call c) (perform-IsValid call c v)
