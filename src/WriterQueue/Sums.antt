-- ===== src/WriterQueue/Sums.antt =====
-- Sums over the calls in a list, and the number of refused calls.
use stellar_payment_api.Base.{
  ℕ, zero, suc, ◌+◌, some, List, [], ◌∷◌, ◌++◌, ◌≡◌, Option-cases, inl, inr, arith,
}
use stellar_payment_api.WriterQueue.{Outcome, written, failed, dropped, cached, extract}

-- The sum of a weight over the calls of a list.
unfoldable pub weigh : {B : Type 0} → (ℕ → ℕ) → (B → ℕ) → List B → ℕ
weigh w key [] = 0
weigh w key (x ∷ xs) = w (key x) + weigh w key xs

unfoldable pub weigh_below : (ℕ → ℕ) → ℕ → ℕ
weigh_below w zero = 0
weigh_below w (suc n) = w n + weigh_below w n

pub weigh-append :
    {B : Type 0} (w : ℕ → ℕ) (key : B → ℕ) (xs ys : List B)
    → weigh w key (xs ++ ys) ≡ weigh w key xs + weigh w key ys
unfolding weigh
weigh-append w key [] ys = omega arith
weigh-append w key (x ∷ xs) ys = omega (arith, weigh-append w key xs ys)

pub weigh-extract :
    {B : Type 0} (w : ℕ → ℕ) (key : B → ℕ) (k : ℕ) (xs : List B) (x : B) (rest : List B)
    → extract key k xs ≡ some (x, rest)
    → weigh w key xs ≡ w (key x) + weigh w key rest
unfolding extract weigh
weigh-extract w key k [] x rest found = ground (arith, found)
weigh-extract w key k (y ∷ xs) x rest found = elim (Option-cases (extract key k xs)) [
  | inl none_left ↦ ground (arith, none_left, found)
  | inr ((z, zs), e) ↦ ground (arith, e, found, weigh-extract w key k xs z zs e)
]

-- The number of calls that were refused.
unfoldable pub drops : List (ℕ × Outcome) → ℕ
drops [] = 0
drops ((c, dropped) ∷ os) = suc (drops os)
drops ((c, o) ∷ os) = drops os

pub drops-append : (os ps : List (ℕ × Outcome)) → drops (os ++ ps) ≡ drops os + drops ps
unfolding drops
drops-append [] ps = omega arith
drops-append ((c, written) ∷ os) ps = drops-append os ps
drops-append ((c, failed) ∷ os) ps = drops-append os ps
drops-append ((c, cached) ∷ os) ps = drops-append os ps
drops-append ((c, dropped) ∷ os) ps = omega (arith, drops-append os ps)

-- The sum of a weight over the calls whose writes have ended, well or not.
unfoldable pub weigh_done : (ℕ → ℕ) → List (ℕ × Outcome) → ℕ
weigh_done w [] = 0
weigh_done w ((c, written) ∷ os) = w c + weigh_done w os
weigh_done w ((c, failed) ∷ os) = w c + weigh_done w os
weigh_done w ((c, dropped) ∷ os) = weigh_done w os
weigh_done w ((c, cached) ∷ os) = weigh_done w os

pub weigh_done-append :
    (w : ℕ → ℕ) (os ps : List (ℕ × Outcome))
    → weigh_done w (os ++ ps) ≡ weigh_done w os + weigh_done w ps
unfolding weigh_done
weigh_done-append w [] ps = omega arith
weigh_done-append w ((c, written) ∷ os) ps = omega (arith, weigh_done-append w os ps)
weigh_done-append w ((c, failed) ∷ os) ps = omega (arith, weigh_done-append w os ps)
weigh_done-append w ((c, cached) ∷ os) ps = weigh_done-append w os ps
weigh_done-append w ((c, dropped) ∷ os) ps = weigh_done-append w os ps
