-- ===== src/Poller/Configs/Kept.antt =====
-- What keeps an answer in the module-level cache: other entries behind it, fewer than it has room for.
use stellar_payment_api.Base.{
  ℕ, suc, ◌-◌, ◌≤◌, String, Option, none, some, List, ◌≡◌, ◌≢◌, if_both, if◌then◌else◌, ltb, leb,
  length, Option-cases, inl, inr, arith,
}
use stellar_payment_api.OrderedMap
use stellar_payment_api.OrderedMap.{Absent, Absent-delete, missing-Absent}
use stellar_payment_api.Recency.{Recent, delete-Recent, set-Recent, delete_set-Recent, evict-Recent}
use stellar_payment_api.Poller.Configs.{
  Cached, not_found, null, config, Stamped, ConfigCache, SingleReply, row, lookup_error,
  evict_oldest, cache_found, cache_set, from_query, from_lru, or_not_found,
}

module _ {C : Type 0} where
  pub record Keeps (k : String) (e : Stamped C) (n : ℕ) (base c : ConfigCache C) : Type 0 where
    pub recent : Recent k e n c.cache
    pub same_max : c.max_entries ≡ base.max_entries
    pub same_ttl : c.ttl_ms ≡ base.ttl_ms

  pub weaken :
      (k : String) (e : Stamped C) (n : ℕ) (base c : ConfigCache C)
      → Keeps k e n base c
      → Keeps k e (suc n) base c
  weaken k e n base c h = record {
    recent = (h.recent.0, omega (arith, h.recent.1));
    same_max = h.same_max;
    same_ttl = h.same_ttl;
  }

  -- Setting a key, when what is left without it keeps the entry.
  cache_set-Keeps :
      (now : ℕ) (k j : String) (v : Cached C) (e : Stamped C) (n : ℕ) (base c : ConfigCache C)
      → suc (suc n) ≤ base.max_entries
      → k ≢ j
      → Keeps k e n base (record c { cache = OrderedMap.delete j c.cache })
      → Keeps k e (suc n) base (cache_set now j v c)
  unfolding cache_set evict_oldest
  cache_set-Keeps now k j v e n base c room apart h =
      let m = OrderedMap.delete j c.cache in
      record {
        recent =
            set-Recent k j e (record { stored = v; inserted_at = now }) n
              (if leb c.max_entries (length m) then evict_oldest (OrderedMap.first_key m) m else m)
              apart
              (if_both (Recent k e n) (leb c.max_entries (length m)) _ _
                (λ full. elim (Option-cases (OrderedMap.first_key m)) [
                  | inl empty ↦ ground (arith, empty, h.recent)
                  | inr (i, head) ↦
                      let kept =
                        evict-Recent k e n c.max_entries m i (omega (arith, room, h.same_max))
                          h.recent head (ground (arith, full)) in
                      ground (arith, head, kept)
                ])
                (λ small. h.recent));
        same_max = h.same_max;
        same_ttl = h.same_ttl;
      }

  pub with_recent :
      (k : String) (e : Stamped C) (n i : ℕ) (base c : ConfigCache C)
      (m : List (String × Stamped C))
      → Keeps k e n base c
      → Recent k e i m
      → Keeps k e i base (record c { cache = m })
  with_recent k e n i base c m h recent = record {
    recent = recent;
    same_max = h.same_max;
    same_ttl = h.same_ttl;
  }

  query-Keeps :
      (now : ℕ) (k j : String) (reply : SingleReply C) (cycle : List (String × Cached C))
      (e : Stamped C) (n : ℕ) (base c : ConfigCache C)
      → suc (suc n) ≤ base.max_entries
      → k ≢ j
      → Keeps k e n base (record c { cache = OrderedMap.delete j c.cache })
      → Keeps k e (suc n) base (from_query now j reply c cycle).lru
  unfolding from_query
  query-Keeps now k j lookup_error cycle e n base c room apart h =
      cache_set-Keeps now k j not_found e n base c room apart h
  query-Keeps now k j (row r) cycle e n base c room apart h =
      cache_set-Keeps now k j (or_not_found r) e n base c room apart h

  touched_other :
      (now : ℕ) (k j : String) (reply : SingleReply C) (cycle : List (String × Cached C))
      (e : Stamped C) (n : ℕ) (base c : ConfigCache C) (x : Stamped C)
      (m : List (String × Stamped C)) (v : Cached C)
      → suc (suc n) ≤ base.max_entries
      → k ≢ j
      → Keeps k e n base c
      → Recent k e n m
      → Keeps k e
          (suc n)
          base
          (from_lru now j reply cycle (record c { cache = OrderedMap.set j x m }, some v)).lru
  unfolding from_lru
  touched_other now k j reply cycle e n base c x m null room apart h left =
      query-Keeps now k j reply cycle e n base (record c { cache = OrderedMap.set j x m }) room
        apart
        (with_recent k e n n base c (OrderedMap.delete j (OrderedMap.set j x m)) h
          (delete_set-Recent k j e x n m apart left))
  touched_other now k j reply cycle e n base c x m not_found room apart h left =
      with_recent k e n (suc n) base c (OrderedMap.set j x m) h (set-Recent k j e x n m apart left)
  touched_other now k j reply cycle e n base c x m (config a) room apart h left =
      with_recent k e n (suc n) base c (OrderedMap.set j x m) h (set-Recent k j e x n m apart left)

  -- The lookup of another merchant.
  pub other-Keeps :
      (now : ℕ) (k j : String) (reply : SingleReply C) (cycle : List (String × Cached C))
      (e : Stamped C) (n : ℕ) (base c : ConfigCache C) (o : Option (Stamped C))
      → suc (suc n) ≤ base.max_entries
      → k ≢ j
      → Keeps k e n base c
      → Keeps k e (suc n) base (from_lru now j reply cycle (cache_found now j c o)).lru
  unfolding cache_found from_lru
  other-Keeps now k j reply cycle e n base c none room apart h =
      query-Keeps now k j reply cycle e n base c room apart (
        with_recent k e n n base c (OrderedMap.delete j c.cache) h
          (delete-Recent k j e n c.cache apart h.recent))
  other-Keeps now k j reply cycle e n base c (some x) room apart h =
      let fewer = OrderedMap.delete j c.cache in
      let left = delete-Recent k j e n c.cache apart h.recent in
      if_both (λ p. Keeps k e (suc n) base (from_lru now j reply cycle p).lru)
        (ltb c.ttl_ms (now - x.inserted_at)) (record c { cache = fewer }, none)
        (record c { cache = OrderedMap.set j x fewer }, some x.stored)
        (λ old.
          query-Keeps now k j reply cycle e n base (record c { cache = fewer }) room apart
            (with_recent k e n n base c (OrderedMap.delete j fewer) h
              (delete-Recent k j e n fewer apart left)))
        (λ fresh. touched_other now k j reply cycle e n base c x fewer x.stored room apart h left)
