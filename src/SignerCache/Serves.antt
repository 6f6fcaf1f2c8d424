-- ===== src/SignerCache/Serves.antt =====
-- How long a stored result is served.
use stellar_payment_api.Base.{
  ℕ, suc, ◌+◌, ◌-◌, ◌≤◌, String, Bool, false, Option, none, some, List, [], ◌∷◌, ◌≡◌, refl, length,
  if◌then◌else◌, str_eq, eq_iff, eq_refl, All, Bool-cases, Option-cases, inl, inr, subst, sym,
  arith,
}
use stellar_payment_api.OrderedMap
use stellar_payment_api.OrderedMap.{Absent, Absent-delete, Absent-delete_self, HasDistinctKeys}
use stellar_payment_api.Recency.{appended-Recent, touch-Recent}
use stellar_payment_api.SignerCache.{
  Entry, Memory, ttl_ms, is_expired, evict_first, make_room, memory_found, memory_get, memory_set,
  memory_prune, memory_invalidate, RedisAnswer, Cache, get_after, get, set, invalidate, prune,
}
use stellar_payment_api.SignerCache.Tiers.{set-memory}
use stellar_payment_api.SignerCache.Runs.{
  Call, gets, sets, invalidates, prunes, clears, perform, perform_all,
}
use stellar_payment_api.SignerCache.Kept.{
  Keeps, weaken, set-Keeps, delete-Keeps, look_up-Keeps, prune_from-Recent,
}

module _ {R : Type 0} where
  -- A call that may come between: one about another key, or a look-up or a pruning while the time to
  -- live is not over.
  unfoldable pub IsHarmless : String → ℕ → ℕ → Call R → Type 0
  IsHarmless k since ttl (gets now j redis) = now - since ≤ ttl
  IsHarmless k since ttl (sets now j r v writes) = str_eq j k ≡ false
  IsHarmless k since ttl (invalidates none) = ⊥
  IsHarmless k since ttl (invalidates (some j)) = str_eq j k ≡ false
  IsHarmless k since ttl (prunes now) = now - since ≤ ttl
  IsHarmless k since ttl clears = ⊥

  not_expired :
      (now : ℕ) (k : String) (e : Entry R) (n : ℕ) (base m : Memory R)
      → Keeps k e n base m
      → now - e.inserted_at ≤ ttl_ms base e
      → is_expired now m e ≡ false
  not_expired now k e n base m h fresh =
      ground (arith, fresh, h.same_valid, h.same_invalid, Bool-cases e.valid)

  found_self-Keeps :
      (now : ℕ) (k : String) (e : Entry R) (n : ℕ) (base : Memory R) (o : Option (Entry R))
      (redis : Option (RedisAnswer R)) (c : Cache R)
      → now - e.inserted_at ≤ ttl_ms base e
      → o ≡ some e
      → Keeps k e n base c.memory
      → Keeps k e n base (get_after now k redis c (memory_found now k c.memory o)).0.memory
        × ((get_after now k redis c (memory_found now k c.memory o)).1 ≡ some e.result)
  unfolding memory_found get_after
  found_self-Keeps now k e n base none redis c fresh there h = cc there
  found_self-Keeps now k e n base (some x) redis c fresh there h =
      let same : x ≡ e = ground (arith, there) in
      subst
        (λ (y : Entry R).
          Keeps k e n base (get_after now k redis c (memory_found now k c.memory (some y))).0.memory
          × ((get_after now k redis c (memory_found now k c.memory (some y))).1 ≡ some e.result))
        (sym same)
        (rw (not_expired now k e n base c.memory h fresh) (
          record {
            recent = touch-Recent k e n c.memory.cache h.recent;
            same_max = h.same_max;
            same_valid = h.same_valid;
            same_invalid = h.same_invalid;
          },
          refl,
        ))

  get-Keeps :
      (now : ℕ) (k j : String) (e : Entry R) (n : ℕ) (base : Memory R)
      (redis : Option (RedisAnswer R)) (c : Cache R)
      → suc (suc n) ≤ base.max_entries
      → now - e.inserted_at ≤ ttl_ms base e
      → Keeps k e n base c.memory
      → Keeps k e (suc n) base (get now j redis c).0.memory
  unfolding get memory_get
  get-Keeps now k j e n base redis c room fresh h = elim (Bool-cases (str_eq j k)) [
    | inl same ↦
        subst
          (λ (q : String).
            Keeps k e (suc n) base
              (get_after now q redis c
                (memory_found now q c.memory (OrderedMap.get q c.memory.cache))).0.memory)
          (sym ((eq_iff j k).0 same))
          (weaken k e n base _
            (found_self-Keeps now k e n base (OrderedMap.get k c.memory.cache) redis c fresh
              h.recent.0 h).0)
    | inr other ↦
        look_up-Keeps now k j e n base (OrderedMap.get j c.memory.cache) redis c room
          (λ same. cc (same, other, eq_refl k)) h
  ]

  perform-Keeps :
      (k : String) (e : Entry R) (n : ℕ) (base : Memory R) (call : Call R) (c : Cache R)
      → suc (suc n) ≤ base.max_entries
      → IsHarmless k e.inserted_at (ttl_ms base e) call
      → Keeps k e n base c.memory
      → Keeps k e (suc n) base (perform call c).memory
  unfolding IsHarmless perform invalidate prune memory_prune memory_invalidate
  perform-Keeps k e n base (gets now j redis) c room harmless h =
      get-Keeps now k j e n base redis c room harmless h
  perform-Keeps k e n base (sets now j r v writes) c room harmless h =
      subst (Keeps k e (suc n) base) (sym (set-memory now j r v writes c))
        (set-Keeps now k j r v e n base c.memory room (λ same. cc (same, harmless, eq_refl k)) h)
  perform-Keeps k e n base (invalidates none) c room harmless h = absurd harmless
  perform-Keeps k e n base (invalidates (some j)) c room harmless h =
      weaken k e n base _
        (delete-Keeps k j e n base c.memory (λ same. cc (same, harmless, eq_refl k)) h)
  perform-Keeps k e n base (prunes now) c room harmless h = weaken k e n base _ (record {
    recent =
        prune_from-Recent now k e n c.memory c.memory.cache
          (not_expired now k e n base c.memory h harmless) h.recent;
    same_max = h.same_max;
    same_valid = h.same_valid;
    same_invalid = h.same_invalid;
  })
  perform-Keeps k e n base clears c room harmless h = absurd harmless

  perform_all-Keeps :
      (k : String) (e : Entry R) (n : ℕ) (base : Memory R) (calls : List (Call R)) (c : Cache R)
      → n + length calls ≤ base.max_entries - 1
      → All (IsHarmless k e.inserted_at (ttl_ms base e)) calls
      → Keeps k e n base c.memory
      → Keeps k e (n + length calls) base (perform_all calls c).memory
  unfolding perform_all
  perform_all-Keeps k e n base [] c room all h =
      subst (λ i. Keeps k e i base c.memory) (omega arith) h
  perform_all-Keeps k e n base (call ∷ calls) c room (harmless, all) h =
      subst (λ i. Keeps k e i base (perform_all calls (perform call c)).memory) (omega arith)
        (perform_all-Keeps k e (suc n) base calls (perform call c) (omega (arith, room)) all
          (perform-Keeps k e n base call c (omega (arith, room)) harmless h))

  make_room-Absent :
      (k : String) (most : ℕ) (c : List (String × Entry R))
      → Absent k c
      → Absent k (make_room most c)
  unfolding make_room evict_first
  make_room-Absent k most c absent = elim (Option-cases (OrderedMap.first_key c)) [
    | inl empty ↦ ground (arith, empty, absent)
    | inr (j, head) ↦ ground (arith, head, absent, Absent-delete k j c absent)
  ]

  set-fresh_Keeps :
      (now : ℕ) (k : String) (r : R) (v : Bool) (m : Memory R)
      → HasDistinctKeys m.cache
      → Keeps k (record { result = r; inserted_at = now; valid = v }) 0 m (memory_set now k r v m)
  unfolding memory_set
  set-fresh_Keeps now k r v m distinct = record {
    recent =
        appended-Recent k (record { result = r; inserted_at = now; valid = v }) 0
          (make_room m.max_entries (OrderedMap.delete k m.cache))
          (make_room-Absent k m.max_entries (OrderedMap.delete k m.cache)
            (Absent-delete_self k m.cache distinct));
    same_max = refl;
    same_valid = refl;
    same_invalid = refl;
  }

  -- Where the memory tier holds no key twice when a result is stored, and only calls of the following
  -- kinds come between, fewer than the tier has entries: look-ups of any keys and prunings, all
  -- within the result's time to live, and writes and invalidations of other keys. Then a look-up
  -- within the time to live gives the result, whatever Redis answers and whether or not the write to
  -- Redis succeeded.
  pub served_while_fresh :
      (since now : ℕ) (k : String) (r : R) (v : Bool) (writes : Option Bool)
      (redis : Option (RedisAnswer R)) (calls : List (Call R)) (c : Cache R)
      → HasDistinctKeys c.memory.cache
      → length calls ≤ c.memory.max_entries - 1
      → All
          (IsHarmless k since (if v then c.memory.valid_ttl_ms else c.memory.invalid_ttl_ms))
          calls
      → now - since ≤ (if v then c.memory.valid_ttl_ms else c.memory.invalid_ttl_ms)
      → (get now k redis (perform_all calls (set since k r v writes c).0)).1 ≡ some r
  unfolding get memory_get
  served_while_fresh since now k r v writes redis calls c distinct few all fresh =
      let e : Entry R = record { result = r; inserted_at = since; valid = v } in
      let c' = (set since k r v writes c).0 in
      let last = perform_all calls c' in
      let start =
        subst (Keeps k e 0 c.memory) (sym (set-memory since k r v writes c))
          (set-fresh_Keeps since k r v c.memory distinct) in
      let kept = perform_all-Keeps k e 0 c.memory calls c' (omega (arith, few)) all start in
      (found_self-Keeps now k e (0 + length calls) c.memory (OrderedMap.get k last.memory.cache)
        redis last fresh kept.recent.0 kept).1
