-- ===== src/Recency.antt =====
-- How many entries of a map stand behind a key: a map whose oldest entry is evicted keeps the key
-- while they are few.
use stellar_payment_api.Base.{
  ℕ, suc, ◌≤◌, ◌≡◌, ◌≢◌, String, some, List, [], ◌∷◌, if◌then◌else◌, str_eq, eq_iff, eq_refl,
  length, arith,
}
use stellar_payment_api.OrderedMap
use stellar_payment_api.OrderedMap.{
  Absent, get-set, get-delete_ne, length-set-le, length-delete-le, get-Absent,
}

module _ {V : Type 0} where
  unfoldable pub behind : String → List (String × V) → ℕ
  behind k [] = 0
  behind k ((j, v) ∷ m) = if str_eq j k then length m else behind k m

  -- The key has the value, with few entries behind it.
  abbrev pub Recent : String → V → ℕ → List (String × V) → Type 0
  Recent k v n m = (OrderedMap.get k m ≡ some v) × (behind k m ≤ n)

  behind-delete :
      (k j : String) (m : List (String × V)) → k ≢ j → behind k (OrderedMap.delete j m) ≤ behind k m
  unfolding behind
  behind-delete k j [] n = omega arith
  behind-delete k j ((i, v) ∷ m) n =
      ground (arith, behind-delete k j m n, length-delete-le j m, eq_iff i j, eq_iff i k)

  behind-set :
      (k j : String) (v : V) (m : List (String × V))
      → k ≢ j
      → behind k (OrderedMap.set j v m) ≤ suc (behind k m)
  unfolding behind
  behind-set k j v [] n = ground (arith, eq_iff j k)
  behind-set k j v ((i, w) ∷ m) n =
      ground (arith, behind-set k j v m n, length-set-le j v m, eq_iff i j, eq_iff i k, eq_iff j k)

  behind-set_self :
      (k : String) (v : V) (m : List (String × V)) → behind k (OrderedMap.set k v m) ≤ length m
  unfolding behind
  behind-set_self k v [] = ground (arith, eq_refl k)
  behind-set_self k v ((i, w) ∷ m) = ground (arith, behind-set_self k v m, eq_refl k)

  behind-touch :
      (k : String) (v : V) (m : List (String × V))
      → behind k (OrderedMap.set k v (OrderedMap.delete k m)) ≤ behind k m
  unfolding behind
  behind-touch k v [] = ground (arith, eq_refl k)
  behind-touch k v ((i, w) ∷ m) = ground (arith, behind-touch k v m, behind-set_self k v m)

  -- A key that is set where it was missing has nothing behind it.
  behind-append :
      (k : String) (v : V) (m : List (String × V))
      → Absent k m
      → behind k (OrderedMap.set k v m) ≡ 0
  unfolding behind
  behind-append k v [] absent = ground (arith, eq_refl k)
  behind-append k v ((i, w) ∷ m) absent = ground (arith, absent, behind-append k v m)

  pub appended-Recent :
      (k : String) (v : V) (n : ℕ) (m : List (String × V))
      → Absent k m
      → Recent k v n (OrderedMap.set k v m)
  appended-Recent k v n m absent =
      (ground (arith, get-set k k v m, eq_refl k), ground (arith, behind-append k v m absent))

  pub delete-Recent :
      (k j : String) (v : V) (n : ℕ) (m : List (String × V))
      → k ≢ j
      → Recent k v n m
      → Recent k v n (OrderedMap.delete j m)
  delete-Recent k j v n m apart (there, few) =
      let fewer = behind-delete k j m apart in
      (ground (arith, there, get-delete_ne k j m apart), omega (arith, fewer, few))

  pub set-Recent :
      (k j : String) (v w : V) (n : ℕ) (m : List (String × V))
      → k ≢ j
      → Recent k v n m
      → Recent k v (suc n) (OrderedMap.set j w m)
  set-Recent k j v w n m apart (there, few) =
      let more = behind-set k j w m apart in
      (ground (arith, there, get-set j k w m, eq_iff j k, apart), omega (arith, more, few))

  pub touch-Recent :
      (k : String) (v : V) (n : ℕ) (m : List (String × V))
      → Recent k v n m
      → Recent k v n (OrderedMap.set k v (OrderedMap.delete k m))
  touch-Recent k v n m (there, few) =
      let fewer = behind-touch k v m in
      (ground (arith, get-set k k v (OrderedMap.delete k m), eq_refl k), omega (arith, fewer, few))

  length-delete_set :
      (j : String) (w : V) (m : List (String × V))
      → length (OrderedMap.delete j (OrderedMap.set j w m)) ≤ length m
  length-delete_set j w [] = ground (arith, eq_refl j)
  length-delete_set j w ((i, v) ∷ m) = ground (arith, eq_refl j, length-delete_set j w m)

  behind-delete_set :
      (k j : String) (w : V) (m : List (String × V))
      → k ≢ j
      → behind k (OrderedMap.delete j (OrderedMap.set j w m)) ≤ behind k m
  unfolding behind
  behind-delete_set k j w [] apart = ground (arith, eq_refl j)
  behind-delete_set k j w ((i, v) ∷ m) apart = ground (
    arith,
    eq_refl j,
    eq_iff i j,
    eq_iff i k,
    behind-delete_set k j w m apart,
    length-delete_set j w m,
  )

  pub delete_set-Recent :
      (k j : String) (v w : V) (n : ℕ) (m : List (String × V))
      → k ≢ j
      → Recent k v n m
      → Recent k v n (OrderedMap.delete j (OrderedMap.set j w m))
  delete_set-Recent k j v w n m apart (there, few) =
      let fewer = behind-delete_set k j w m apart in
      (
        ground (
          arith,
          there,
          apart,
          get-delete_ne k j (OrderedMap.set j w m) apart,
          get-set j k w m,
          eq_iff j k,
        ),
        omega (arith, fewer, few),
      )

  head_behind :
      (k j : String) (m : List (String × V))
      → OrderedMap.first_key m ≡ some j
      → k ≡ j
      → length m ≤ suc (behind k m)
  unfolding behind
  head_behind k j [] head same = cc
  head_behind k j ((i, v) ∷ m) head same = ground (arith, head, same, eq_iff i k)

  -- The entry at the head of a full map is deleted.
  pub evict-Recent :
      (k : String) (v : V) (n most : ℕ) (m : List (String × V)) (j : String)
      → suc (suc n) ≤ most
      → Recent k v n m
      → OrderedMap.first_key m ≡ some j
      → most ≤ length m
      → Recent k v n (OrderedMap.delete j m)
  evict-Recent k v n most m j room recent head full =
      delete-Recent k j v n m
        (λ same.
          let size = head_behind k j m head same in omega (arith, size, full, room, recent.1))
        recent
