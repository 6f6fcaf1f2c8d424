-- ===== src/Limiter/Numbers.antt =====
-- Lists of promise numbers without repetition, as the queue and the held slots are.
use stellar_payment_api.Base.{
  ℕ, suc, ◌+◌, ◌<◌, ◌≡◌, refl, true, false, List, [], ◌∷◌, ◌++◌, length, arith, ◌||◌,
}
use stellar_payment_api.Limiter.{contains, remove}

-- The promises are told apart: no number is held or queued twice, and all are below `next`.
abbrev pub Distinct : List ℕ → Type 0
Distinct [] = Unit
Distinct (x ∷ xs) = (contains x xs ≡ false) × Distinct xs

abbrev pub Below : ℕ → List ℕ → Type 0
Below n [] = Unit
Below n (x ∷ xs) = (x < n) × Below n xs

pub contains-append :
    (a : ℕ) (xs ys : List ℕ) → contains a (xs ++ ys) ≡ (contains a xs || contains a ys)
contains-append a [] ys = refl
contains-append a (x ∷ xs) ys = ground (arith, contains-append a xs ys)

pub Below-suc : (n : ℕ) (xs : List ℕ) → Below n xs → Below (suc n) xs
Below-suc n [] h = tt
Below-suc n (x ∷ xs) h = (omega arith, Below-suc n xs h.1)

pub not-contains_of_Below : (n : ℕ) (xs : List ℕ) → Below n xs → contains n xs ≡ false
not-contains_of_Below n [] h = refl
not-contains_of_Below n (x ∷ xs) h = ground (arith, not-contains_of_Below n xs h.1)

pub length-remove :
    (a : ℕ) (xs : List ℕ) → contains a xs ≡ true → length (remove a xs) + 1 ≡ length xs
length-remove a [] h = cc
length-remove a (x ∷ xs) h = ground (arith, length-remove a xs)

pub contains-remove_none :
    (b a : ℕ) (xs : List ℕ) → contains b xs ≡ false → contains b (remove a xs) ≡ false
contains-remove_none b a [] h = refl
contains-remove_none b a (x ∷ xs) h = ground (arith, contains-remove_none b a xs)

pub contains-remove_self : (a : ℕ) (xs : List ℕ) → Distinct xs → contains a (remove a xs) ≡ false
contains-remove_self a [] d = refl
contains-remove_self a (x ∷ xs) d = ground (arith, contains-remove_self a xs d.1)

pub Below-remove : (n a : ℕ) (xs : List ℕ) → Below n xs → Below n (remove a xs)
Below-remove n a [] h = tt
Below-remove n a (x ∷ xs) h = ground (arith, Below-remove n a xs h.1)

pub Distinct-remove_left :
    (a : ℕ) (xs ys : List ℕ) → Distinct (xs ++ ys) → Distinct (remove a xs ++ ys)
Distinct-remove_left a [] ys d = d
Distinct-remove_left a (x ∷ xs) ys d = ground (
  arith,
  Distinct-remove_left a xs ys d.1,
  contains-append x xs ys,
  contains-append x (remove a xs) ys,
  contains-remove_none x a xs,
)

pub Distinct-remove_right :
    (a : ℕ) (xs ys : List ℕ) → Distinct (xs ++ ys) → Distinct (xs ++ remove a ys)
Distinct-remove_right a [] [] d = tt
Distinct-remove_right a [] (y ∷ ys) d =
    ground (arith, Distinct-remove_right a [] ys d.1, contains-remove_none y a ys)
Distinct-remove_right a (x ∷ xs) ys d = ground (
  arith,
  Distinct-remove_right a xs ys d.1,
  contains-append x xs ys,
  contains-append x xs (remove a ys),
  contains-remove_none x a ys,
)

pub Distinct-right : (xs ys : List ℕ) → Distinct (xs ++ ys) → Distinct ys
Distinct-right [] ys d = d
Distinct-right (x ∷ xs) ys d = Distinct-right xs ys d.1

-- A waiter may move from the end of the queue to the held slots, and a new number to either.
pub Distinct-insert :
    (a : ℕ) (xs ys : List ℕ)
    → Distinct (xs ++ ys)
    → contains a (xs ++ ys) ≡ false
    → Distinct (xs ++ a ∷ ys)
Distinct-insert a [] ys d h = (h, d)
Distinct-insert a (x ∷ xs) ys d h =
    ground
      (arith, Distinct-insert a xs ys d.1, contains-append x xs ys, contains-append x xs (a ∷ ys))

pub Distinct-snoc :
    (a : ℕ) (xs ys : List ℕ)
    → Distinct (xs ++ ys)
    → contains a (xs ++ ys) ≡ false
    → Distinct ((xs ++ a ∷ []) ++ ys)
Distinct-snoc a [] ys d h = (h, d)
Distinct-snoc a (x ∷ xs) ys d h = ground (
  arith,
  Distinct-snoc a xs ys d.1,
  contains-append x xs ys,
  contains-append x (xs ++ a ∷ []) ys,
  contains-append x xs (a ∷ []),
)

pub Below-snoc : (n : ℕ) (xs : List ℕ) → Below n xs → Below (suc n) (xs ++ n ∷ [])
Below-snoc n [] h = (omega arith, tt)
Below-snoc n (x ∷ xs) h = (omega arith, Below-snoc n xs h.1)
