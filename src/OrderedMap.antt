-- ===== src/OrderedMap.antt =====
-- A JavaScript `Map` with texts as keys: its entries in the order of insertion. Setting a key that
-- is there keeps its place; `keys().next().value` is the key at the head.
use stellar_payment_api.Base.{
  suc, ◌≤◌, String, false, Option, none, some, List, [], ◌∷◌, ◌≡◌, ◌≢◌, refl, if◌then◌else◌, str_eq,
  eq_iff, length, arith, All, if_both, subst, Bool-cases, inl, inr,
}

module _ {V : Type 0} where
  abbrev pub get : String → List (String × V) → Option V
  get k [] = none
  get k ((j, v) ∷ m) = if str_eq j k then some v else get k m

  abbrev pub delete : String → List (String × V) → List (String × V)
  delete k [] = []
  delete k ((j, v) ∷ m) = if str_eq j k then m else (j, v) ∷ delete k m

  abbrev pub set : String → V → List (String × V) → List (String × V)
  set k v [] = (k, v) ∷ []
  set k v ((j, w) ∷ m) = if str_eq j k then (k, v) ∷ m else (j, w) ∷ set k v m

  abbrev pub first_key : List (String × V) → Option String
  first_key [] = none
  first_key ((k, v) ∷ m) = some k

  abbrev pub Absent : String → List (String × V) → Type 0
  Absent k [] = Unit
  Absent k ((j, v) ∷ m) = (str_eq j k ≡ false) × Absent k m

  abbrev pub HasDistinctKeys : List (String × V) → Type 0
  HasDistinctKeys [] = Unit
  HasDistinctKeys ((k, v) ∷ m) = Absent k m × HasDistinctKeys m

  pub get-Absent : (k : String) (m : List (String × V)) → Absent k m → get k m ≡ none
  get-Absent k [] a = refl
  get-Absent k ((j, v) ∷ m) a = ground (arith, get-Absent k m)

  pub missing-Absent : (k : String) (m : List (String × V)) → get k m ≡ none → Absent k m
  missing-Absent k [] e = tt
  missing-Absent k ((j, v) ∷ m) e = ground (arith, missing-Absent k m)

  pub Absent-delete : (k j : String) (m : List (String × V)) → Absent k m → Absent k (delete j m)
  Absent-delete k j [] a = tt
  Absent-delete k j ((i, v) ∷ m) a = ground (arith, Absent-delete k j m)

  pub delete-HasDistinctKeys :
      (k : String) (m : List (String × V)) → HasDistinctKeys m → HasDistinctKeys (delete k m)
  delete-HasDistinctKeys k [] d = tt
  delete-HasDistinctKeys k ((j, v) ∷ m) d =
      ground (arith, delete-HasDistinctKeys k m, Absent-delete j k m)

  pub Absent-delete_self :
      (k : String) (m : List (String × V)) → HasDistinctKeys m → Absent k (delete k m)
  Absent-delete_self k [] d = tt
  Absent-delete_self k ((j, v) ∷ m) d = ground (arith, Absent-delete_self k m, eq_iff j k)

  pub get-delete_ne : (k j : String) (m : List (String × V)) → k ≢ j → get k (delete j m) ≡ get k m
  get-delete_ne k j [] n = refl
  get-delete_ne k j ((i, v) ∷ m) n = ground (arith, get-delete_ne k j m, eq_iff i k, eq_iff i j)

  pub get-set :
      (k j : String) (v : V) (m : List (String × V))
      → get j (set k v m) ≡ (if str_eq k j then some v else get j m)
  get-set k j v [] = refl
  get-set k j v ((i, w) ∷ m) = ground (arith, get-set k j v m, eq_iff i k, eq_iff i j, eq_iff k j)

  pub Absent-set :
      (k j : String) (v : V) (m : List (String × V))
      → str_eq k j ≡ false
      → Absent j m
      → Absent j (set k v m)
  Absent-set k j v [] n a = (n, tt)
  Absent-set k j v ((i, w) ∷ m) n a = ground (arith, Absent-set k j v m)

  pub set-HasDistinctKeys :
      (k : String) (v : V) (m : List (String × V)) → HasDistinctKeys m → HasDistinctKeys (set k v m)
  set-HasDistinctKeys k v [] d = (tt, tt)
  set-HasDistinctKeys k v ((j, w) ∷ m) d =
      ground (arith, set-HasDistinctKeys k v m, Absent-set k j v m, eq_iff j k, eq_iff k j)

  pub length-set_absent :
      (k : String) (v : V) (m : List (String × V))
      → get k m ≡ none
      → length (set k v m) ≡ suc (length m)
  length-set_absent k v [] e = refl
  length-set_absent k v ((j, w) ∷ m) e = ground (arith, length-set_absent k v m)

  pub length-delete :
      (k : String) (v : V) (m : List (String × V))
      → get k m ≡ some v
      → suc (length (delete k m)) ≡ length m
  length-delete k v [] e = cc
  length-delete k v ((j, w) ∷ m) e = ground (arith, length-delete k v m)

  pub length-delete-le : (k : String) (m : List (String × V)) → length (delete k m) ≤ length m
  length-delete-le k [] = omega arith
  length-delete-le k ((j, w) ∷ m) = ground (arith, length-delete-le k m)

  pub length-delete_first :
      (m : List (String × V)) {k : String}
      → first_key m ≡ some k
      → suc (length (delete k m)) ≡ length m
  length-delete_first [] e = cc
  length-delete_first ((j, w) ∷ m) {k} e = ground (arith, eq_iff j k)

  pub length-set-le :
      (k : String) (v : V) (m : List (String × V)) → length (set k v m) ≤ suc (length m)
  length-set-le k v [] = omega arith
  length-set-le k v ((j, w) ∷ m) = ground (arith, length-set-le k v m)

-- Predicates on the entries.
module _ {V : Type 0} (P : String × V → Type 0) where
  pub All-set :
      (k : String) (v : V) (m : List (String × V)) → P (k, v) → All P m → All P (set k v m)
  All-set k v [] p holds = (p, tt)
  All-set k v ((j, w) ∷ m) p (q, holds) =
      if_both (All P) (str_eq j k) ((k, v) ∷ m) ((j, w) ∷ set k v m) (λ _. (p, holds))
        (λ _. (q, All-set k v m p holds))

  pub All-delete : (k : String) (m : List (String × V)) → All P m → All P (delete k m)
  All-delete k [] holds = tt
  All-delete k ((j, w) ∷ m) (q, holds) =
      if_both (All P) (str_eq j k) m ((j, w) ∷ delete k m) (λ _. holds)
        (λ _. (q, All-delete k m holds))

  pub get-All : (k : String) (m : List (String × V)) {v : V} → get k m ≡ some v → All P m → P (k, v)
  get-All k [] {v} found holds = absurd (cc found)
  get-All k ((j, w) ∷ m) {v} found (q, holds) = elim (Bool-cases (str_eq j k)) [
    | inl here ↦ subst P (ground (arith, found, here, eq_iff j k)) q
    | inr there ↦ get-All k m (ground (arith, found, there)) holds
  ]
