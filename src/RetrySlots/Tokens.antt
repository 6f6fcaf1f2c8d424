-- ===== src/RetrySlots/Tokens.antt =====
-- The tokens of the slots that are held.
use stellar_payment_api.Base.{
  ℕ, zero, suc, ◌≤◌, ◌<◌, ◌≡◌, inl, inr, ◌∙◌, subst, String, Option, none, some, List, [], ◌∷◌,
  if◌then◌else◌, str_eq, eq_iff, eq_refl, All, Bool-cases, Option-cases, arith,
}
use stellar_payment_api.OrderedMap
use stellar_payment_api.OrderedMap.{
  get-set, get-delete_ne, get-Absent, Absent-delete_self, HasDistinctKeys, set-HasDistinctKeys,
  delete-HasDistinctKeys,
}
use stellar_payment_api.RetrySlots.{Slot, remove, extract}

-- The tokens of an operation's slots.
unfoldable pub tokens_for : String → List Slot → List ℕ
tokens_for op [] = []
tokens_for op (s ∷ ss) =
    let rest = tokens_for op ss in if str_eq s.operation op then s.token ∷ rest else rest

-- The tokens fall, and are below a number.
unfoldable pub Falls : ℕ → List Slot → Type 0
Falls n [] = Unit
Falls n (s ∷ ss) = (s.token < n) × Falls s.token ss

unfoldable pub tokens_at : Option ℕ → (ℕ → List ℕ) → List ℕ
tokens_at none sets = []
tokens_at (some i) sets = sets i

pub Falls-weaken : (m n : ℕ) (ss : List Slot) → m ≤ n → Falls m ss → Falls n ss
unfolding Falls
Falls-weaken m n [] le falls = tt
Falls-weaken m n (s ∷ ss) le (below, falls) = (omega (arith, le, below), falls)

pub extract-Falls :
    (i n : ℕ) (ss : List Slot) {s : Slot} {others : List Slot}
    → extract i ss ≡ some (s, others)
    → Falls n ss
    → (s.token < n) × Falls n others
unfolding extract Falls
extract-Falls i n [] e falls = cc
extract-Falls zero n (t ∷ ss) {s} {others} e (below, falls) =
    let weaker = Falls-weaken t.token n ss (omega (arith, below)) falls in
    (ground (arith, e, below), subst (Falls n) (ground (arith, e)) weaker)
extract-Falls (suc i) n (t ∷ ss) {s} {others} e (below, falls) =
    elim (Option-cases (extract i ss)) [
      | inl out ↦ ground (arith, out)
      | inr ((s', others'), found) ↦
          let (lower, rest) = extract-Falls i t.token ss found falls in
          let here : t ∷ others' ≡ others = ground (arith, e, found) in
          (ground (arith, e, found, lower, below), subst (Falls n) here (below, rest))
    ]

-- Releasing one slot takes its token out of those of its operation, and no other one.
pub extract-tokens :
    (i n : ℕ) (ss : List Slot) {s : Slot} {others : List Slot}
    → extract i ss ≡ some (s, others)
    → Falls n ss
    → (op : String)
    → tokens_for op others
      ≡ (if str_eq s.operation op then remove s.token (tokens_for op ss) else tokens_for op ss)
unfolding extract Falls tokens_for remove
extract-tokens i n [] e falls op = cc
extract-tokens zero n (t ∷ ss) {s} {others} e falls op = elim (Bool-cases (str_eq t.operation op)) [
  | inl same ↦ ground (arith, e, same)
  | inr other ↦ ground (arith, e, other)
]
extract-tokens (suc i) n (t ∷ ss) {s} {others} e (below, falls) op =
    elim (Option-cases (extract i ss)) [
      | inl out ↦ ground (arith, out)
      | inr ((s', others'), found) ↦
          let (lower, rest) = extract-Falls i t.token ss found falls in
          let tail = extract-tokens i t.token ss found falls op in
          elim (Bool-cases (str_eq t.operation op)) [
            | inl same ↦ ground (arith, e, found, same, tail, lower)
            | inr other ↦ ground (arith, e, found, other, tail)
          ]
    ]

pub extract-All :
    (P : Slot → Type 0) (i : ℕ) (ss : List Slot) {s : Slot} {others : List Slot}
    → extract i ss ≡ some (s, others)
    → All P ss
    → P s × All P others
unfolding extract
extract-All P i [] e all = cc
extract-All P zero (t ∷ ss) {s} {others} e (here, all) =
    (subst P (ground (arith, e)) here, subst (All P) (ground (arith, e)) all)
extract-All P (suc i) (t ∷ ss) {s} {others} e (here, all) = elim (Option-cases (extract i ss)) [
  | inl out ↦ ground (arith, out)
  | inr ((s', others'), found) ↦
      let (first, rest) = extract-All P i ss found all in
      let tail : t ∷ others' ≡ others = ground (arith, e, found) in
      (subst P (ground (arith, e, found)) first, subst (All P) tail (here, rest))
]

-- Every slot that is held has its operation's set.
abbrev pub IsPlaced : List (String × ℕ) → List Slot → Type 0
IsPlaced m held = All (λ s. OrderedMap.get s.operation m ≡ some s.set) held

pub set-IsPlaced :
    (op : String) (i : ℕ) (m : List (String × ℕ)) (held : List Slot)
    → OrderedMap.get op m ≡ none
    → IsPlaced m held
    → IsPlaced (OrderedMap.set op i m) held
set-IsPlaced op i m [] free placed = tt
set-IsPlaced op i m (s ∷ ss) free (here, placed) = (
  ground (arith, get-set op s.operation i m, here, free, eq_iff op s.operation),
  set-IsPlaced op i m ss free placed,
)

pub delete-IsPlaced :
    (op : String) (m : List (String × ℕ)) (held : List Slot)
    → tokens_for op held ≡ []
    → IsPlaced m held
    → IsPlaced (OrderedMap.delete op m) held
unfolding tokens_for
delete-IsPlaced op m [] gone placed = tt
delete-IsPlaced op m (s ∷ ss) gone (here, placed) = elim (Bool-cases (str_eq s.operation op)) [
  | inl same ↦ ground (arith, gone, same)
  | inr other ↦ (
    get-delete_ne s.operation op m (λ e. cc (e, other, eq_refl op)) ∙ here,
    delete-IsPlaced op m ss (ground (arith, gone, other)) placed,
  )
]
