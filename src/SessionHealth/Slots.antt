-- ===== src/SessionHealth/Slots.antt =====
-- Arithmetic of slots: the quotients and remainders of times.
use native.Mathlib.Nat.{mod-add-div', mod-lt, mul-le-mul_right, suc-mul}
use stellar_payment_api.Base.{ℕ, suc, ◌+◌, ◌/◌, ◌%◌, ◌≤◌, ◌<◌, ◌≡◌, arith, dec_lt}

-- Two slots of one bucket that are less than a window apart are the same.
pub same_slot : (n s t : ℕ) → s % n ≡ t % n → s ≤ t → t < s + n → s ≡ t
same_slot n s t same before near = elim (dec_lt (s / n) (t / n)) [
  | yes less ↦ absurd (
      omega (
        arith,
        same,
        before,
        near,
        mod-add-div' s n,
        mod-add-div' t n,
        mul-le-mul_right {m = suc (s / n)} {n = t / n} n less,
      ))
  | no more ↦ omega (
    arith,
    same,
    before,
    near,
    mod-add-div' s n,
    mod-add-div' t n,
    mul-le-mul_right {m = t / n} {n = s / n} n (omega (arith, more)),
  )
]

pub div-le : (t u b : ℕ) → 0 < b → t ≤ u → t / b ≤ u / b
div-le t u b positive before = elim (dec_lt (u / b) (t / b)) [
  | yes less ↦ absurd (
      omega (
        arith,
        before,
        mod-add-div' t b,
        mod-add-div' u b,
        mod-lt u positive,
        suc-mul (u / b) b,
        mul-le-mul_right {m = suc (u / b)} {n = t / b} b less,
      ))
  | no more ↦ omega (arith, more)
]
