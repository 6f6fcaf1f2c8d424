-- ===== src/SignerCache/Kept.antt =====
-- What keeps an entry of the memory tier: other entries behind it, fewer than the tier has room for.
use stellar_payment_api.Base.{
  ℕ, suc, ◌≤◌, String, Bool, false, Option, none, some, List, [], ◌∷◌, ◌≡◌, ◌≢◌, length, if_both,
  leb, str_eq, Bool-cases, Option-cases, inl, inr, arith,
}
use stellar_payment_api.OrderedMap
use stellar_payment_api.OrderedMap.{Absent, Absent-delete, Absent-delete_self, HasDistinctKeys}
use stellar_payment_api.Recency.{behind, Recent, delete-Recent, set-Recent, evict-Recent}
use stellar_payment_api.SignerCache.{
  Entry, Memory, is_expired, evict_first, make_room, memory_found, memory_set, prune_from,
  RedisAnswer, failing, missing, malformed, found, Cache, missed, redis_get, get_after,
}
use stellar_payment_api.SignerCache.Runs.{length-prune_from-le}

module _ {R : Type 0} where
  make_room-Recent :
      (k : String) (e : Entry R) (n most : ℕ) (c : List (String × Entry R))
      → suc (suc n) ≤ most
      → Recent k e n c
      → Recent k e n (make_room most c)
  unfolding make_room evict_first
  make_room-Recent k e n most c room recent = elim (Bool-cases (leb most (length c))) [
    | inl full ↦ elim (Option-cases (OrderedMap.first_key c)) [
      | inl empty ↦ ground (arith, full, empty, recent)
      | inr (j, head) ↦
          let kept = evict-Recent k e n most c j room recent head (ground (arith, full)) in
          ground (arith, full, head, kept)
    ]
    | inr small ↦ ground (arith, small, recent)
  ]

  memory_set-Recent :
      (now : ℕ) (k j : String) (r : R) (v : Bool) (e : Entry R) (n : ℕ) (m : Memory R)
      → suc (suc n) ≤ m.max_entries
      → k ≢ j
      → Recent k e n m.cache
      → Recent k e (suc n) (memory_set now j r v m).cache
  unfolding memory_set
  memory_set-Recent now k j r v e n m room apart recent =
      let c = OrderedMap.delete j m.cache in
      set-Recent k j e (record { result = r; inserted_at = now; valid = v }) n
        (make_room m.max_entries c) apart
        (make_room-Recent k e n m.max_entries c room (delete-Recent k j e n m.cache apart recent))

  -- The memory tier has the entry, with few others behind it, and is configured as another one.
  pub record Keeps (k : String) (e : Entry R) (n : ℕ) (base m : Memory R) : Type 0 where
    pub recent : Recent k e n m.cache
    pub same_max : m.max_entries ≡ base.max_entries
    pub same_valid : m.valid_ttl_ms ≡ base.valid_ttl_ms
    pub same_invalid : m.invalid_ttl_ms ≡ base.invalid_ttl_ms

  pub weaken :
      (k : String) (e : Entry R) (n : ℕ) (base m : Memory R)
      → Keeps k e n base m
      → Keeps k e (suc n) base m
  weaken k e n base m h = record {
    recent = (h.recent.0, omega (arith, h.recent.1));
    same_max = h.same_max;
    same_valid = h.same_valid;
    same_invalid = h.same_invalid;
  }

  pub set-Keeps :
      (now : ℕ) (k j : String) (r : R) (v : Bool) (e : Entry R) (n : ℕ) (base m : Memory R)
      → suc (suc n) ≤ base.max_entries
      → k ≢ j
      → Keeps k e n base m
      → Keeps k e (suc n) base (memory_set now j r v m)
  unfolding memory_set
  set-Keeps now k j r v e n base m room apart h = record {
    recent = memory_set-Recent now k j r v e n m (omega (arith, room, h.same_max)) apart h.recent;
    same_max = h.same_max;
    same_valid = h.same_valid;
    same_invalid = h.same_invalid;
  }

  pub delete-Keeps :
      (k j : String) (e : Entry R) (n : ℕ) (base m : Memory R)
      → k ≢ j
      → Keeps k e n base m
      → Keeps k e n base (record m { cache = OrderedMap.delete j m.cache })
  delete-Keeps k j e n base m apart h = record {
    recent = delete-Recent k j e n m.cache apart h.recent;
    same_max = h.same_max;
    same_valid = h.same_valid;
    same_invalid = h.same_invalid;
  }

  touch-Keeps :
      (k j : String) (e x : Entry R) (n : ℕ) (base m : Memory R)
      → k ≢ j
      → Keeps k e n base m
      → Keeps k e
          (suc n)
          base
          (record m { cache = OrderedMap.set j x (OrderedMap.delete j m.cache) })
  touch-Keeps k j e x n base m apart h = record {
    recent =
        set-Recent k j e x n (OrderedMap.delete j m.cache) apart
          (delete-Recent k j e n m.cache apart h.recent);
    same_max = h.same_max;
    same_valid = h.same_valid;
    same_invalid = h.same_invalid;
  }

  asks_redis-Keeps :
      (now : ℕ) (k j : String) (e : Entry R) (n : ℕ) (base m : Memory R)
      (redis : Option (RedisAnswer R)) (c : Cache R)
      → suc (suc n) ≤ base.max_entries
      → k ≢ j
      → Keeps k e n base m
      → Keeps k e (suc n) base (get_after now j redis c (m, none)).0.memory
  unfolding get_after redis_get missed
  asks_redis-Keeps now k j e n base m none c room apart h = weaken k e n base m h
  asks_redis-Keeps now k j e n base m (some failing) c room apart h = weaken k e n base m h
  asks_redis-Keeps now k j e n base m (some missing) c room apart h = weaken k e n base m h
  asks_redis-Keeps now k j e n base m (some malformed) c room apart h = weaken k e n base m h
  asks_redis-Keeps now k j e n base m (some (found r v)) c room apart h =
      set-Keeps now k j r v e n base m room apart h

  -- The look-up of another key, in both tiers.
  pub look_up-Keeps :
      (now : ℕ) (k j : String) (e : Entry R) (n : ℕ) (base : Memory R) (o : Option (Entry R))
      (redis : Option (RedisAnswer R)) (c : Cache R)
      → suc (suc n) ≤ base.max_entries
      → k ≢ j
      → Keeps k e n base c.memory
      → Keeps k e (suc n) base (get_after now j redis c (memory_found now j c.memory o)).0.memory
  unfolding memory_found get_after
  look_up-Keeps now k j e n base none redis c room apart h =
      asks_redis-Keeps now k j e n base c.memory redis c room apart h
  look_up-Keeps now k j e n base (some x) redis c room apart h =
      if_both (λ p. Keeps k e (suc n) base (get_after now j redis c p).0.memory)
        (is_expired now c.memory x) _ _
        (λ old.
          asks_redis-Keeps now k j e n base
            (record c.memory { cache = OrderedMap.delete j c.memory.cache }) redis c room apart
            (delete-Keeps k j e n base c.memory apart h))
        (λ fresh. touch-Keeps k j e x n base c.memory apart h)

  -- Pruning, while the entry is fresh.
  pub prune_from-Recent :
      (now : ℕ) (k : String) (e : Entry R) (n : ℕ) (m : Memory R) (c : List (String × Entry R))
      → is_expired now m e ≡ false
      → Recent k e n c
      → Recent k e n (prune_from now m c).0
  unfolding prune_from behind
  prune_from-Recent now k e n m [] fresh (there, few) = cc there
  prune_from-Recent now k e n m ((j, x) ∷ c) fresh (there, few) = elim (Bool-cases (str_eq j k)) [
    | inl same ↦ ground (arith, same, there, few, fresh, length-prune_from-le now m c)
    | inr other ↦
        let kept =
          prune_from-Recent now k e n m c fresh
            (ground (arith, other, there), ground (arith, other, few)) in
        ground (arith, other, kept)
  ]
