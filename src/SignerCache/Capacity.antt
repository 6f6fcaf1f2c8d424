-- ===== src/SignerCache/Capacity.antt =====
-- The in-memory tier: its capacity, what it serves and what it forgets.
use stellar_payment_api.Base.{
  ℕ, suc, ◌≤◌, max, String, Bool, Option, none, some, List, [], ◌∷◌, ◌≡◌, refl, length, leb, arith,
  Bool-cases, inl, inr,
}
use stellar_payment_api.OrderedMap
use stellar_payment_api.OrderedMap.{
  HasDistinctKeys, delete-HasDistinctKeys, set-HasDistinctKeys, length-set_absent, length-delete,
  length-delete-le, length-delete_first, get-set, get-delete_ne, get-Absent, Absent-delete_self,
  Absent-delete,
}
use stellar_payment_api.SignerCache.{
  Entry, Memory, is_expired, memory_found, memory_get, evict_first, make_room, memory_set,
}

module _ {R : Type 0} where
  pub record IsValid (m : Memory R) : Type 0 where
    pub distinct : HasDistinctKeys m.cache
    pub bounded : length m.cache ≤ max 1 m.max_entries

  get-delete_self :
      (k : String) (c : List (String × Entry R))
      → HasDistinctKeys c
      → OrderedMap.get k (OrderedMap.delete k c) ≡ none
  get-delete_self k c d = get-Absent k (OrderedMap.delete k c) (Absent-delete_self k c d)

  memory_found-IsValid :
      (now : ℕ) (k : String) (m : Memory R) (o : Option (Entry R))
      → OrderedMap.get k m.cache ≡ o
      → IsValid m
      → IsValid (memory_found now k m o).0
  unfolding memory_found
  memory_found-IsValid now k m none e v = v
  memory_found-IsValid now k m (some x) e v = elim (Bool-cases (is_expired now m x)) [
    | inl old ↦ rw old (record {
      distinct = delete-HasDistinctKeys k m.cache v.distinct;
      bounded = omega (arith, length-delete-le k m.cache, v.bounded);
    })
    | inr new ↦ rw new (record {
      distinct =
          set-HasDistinctKeys k x (OrderedMap.delete k m.cache)
            (delete-HasDistinctKeys k m.cache v.distinct);
      bounded = omega (
        arith,
        length-set_absent k x (OrderedMap.delete k m.cache) (get-delete_self k m.cache v.distinct),
        length-delete k x m.cache e,
        v.bounded,
      );
    })
  ]

  pub memory_get-IsValid :
      (now : ℕ) (k : String) (m : Memory R) → IsValid m → IsValid (memory_get now k m).0
  unfolding memory_get
  memory_get-IsValid now k m v = memory_found-IsValid now k m (OrderedMap.get k m.cache) refl v

  make_room-HasDistinctKeys :
      (most : ℕ) (c : List (String × Entry R))
      → HasDistinctKeys c
      → HasDistinctKeys (make_room most c)
  unfolding make_room
  make_room-HasDistinctKeys most c d = elim (Bool-cases (leb most (length c))) [
    | inl full ↦ rw full (evicted (OrderedMap.first_key c))
    | inr free ↦ rw free d
  ]
    where
      evicted : (o : Option String) → HasDistinctKeys (evict_first o c)
      evicted none = d
      evicted (some k) = delete-HasDistinctKeys k c d

  -- After making room one more entry fits (a cache of no capacity still takes one).
  length-make_room :
      (most : ℕ) (c : List (String × Entry R))
      → length c ≤ max 1 most
      → suc (length (make_room most c)) ≤ max 1 most
  unfolding make_room
  length-make_room most [] h = ground arith
  length-make_room most ((k, e) ∷ c) h =
      ground (arith, length-delete_first ((k, e) ∷ c) {k = k} refl)

  get-make_room_new :
      (most : ℕ) (k : String) (c : List (String × Entry R))
      → OrderedMap.Absent k c
      → OrderedMap.get k (make_room most c) ≡ none
  unfolding make_room
  get-make_room_new most k [] a = ground arith
  get-make_room_new most k ((j, e) ∷ c) a = ground (
    arith,
    get-Absent k c,
    get-Absent k (OrderedMap.delete j ((j, e) ∷ c)),
    Absent-delete k j ((j, e) ∷ c),
  )

  pub memory_set-IsValid :
      (now : ℕ) (k : String) (r : R) (v : Bool) (m : Memory R)
      → IsValid m
      → IsValid (memory_set now k r v m)
  unfolding memory_set
  memory_set-IsValid now k r v m h =
      let c = OrderedMap.delete k m.cache in
      let d = delete-HasDistinctKeys k m.cache h.distinct in
      let e : Entry R = record { result = r; inserted_at = now; valid = v } in
      record {
        distinct =
            set-HasDistinctKeys k e (make_room m.max_entries c)
              (make_room-HasDistinctKeys m.max_entries c d);
        bounded = omega (
          arith,
          length-set_absent k e (make_room m.max_entries c)
              (get-make_room_new m.max_entries k c (Absent-delete_self k m.cache h.distinct)),
          length-make_room m.max_entries c (omega (arith, length-delete-le k m.cache, h.bounded)),
        );
      }
