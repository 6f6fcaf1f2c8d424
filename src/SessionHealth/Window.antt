-- ===== src/SessionHealth/Window.antt =====
-- The ring of buckets holds the last window of the evaluations.
use native.Mathlib.Decide.{ℕ_discrete}
use stellar_payment_api.Base.{
  ℕ, ◌+◌, ◌/◌, ◌%◌, ◌≤◌, Bool, true, false, ◌&&◌, some, List, [], ◌∷◌, if◌then◌else◌, ◌==◌, ◌≡◌, ap,
  ◌∙◌, arith, All, inl, inr, Bool-cases, Option-cases, dec_lt,
}
use stellar_payment_api.SessionHealth.{
  Evaluation, Bucket, no_counts, is_slot, bucket_for, count_in, in_window,
}
use stellar_payment_api.SessionHealth.Worth.{
  Kind, tally, worth, tally-count_in, tally-no_counts, logged, Before, logged-le,
}
use stellar_payment_api.SessionHealth.Slots.{same_slot}

-- The bucket's share of the window's count.
unfoldable pub share : Kind → ℕ → ℕ → Bucket → ℕ
share k n current b = if in_window n current b.slot then tally k b.counts else 0

-- The test of a column of the window.
abbrev pub column : ℕ → ℕ → ℕ → ℕ → Bool
column n current i s = in_window n current (some s) && (s % n == i)

-- The buckets hold the last window of the evaluations, the last of which is in the slot `top`.
pub record HasWindow (bucket_ms n top : ℕ) (bs : ℕ → Bucket) (es : List Evaluation) : Type 0 where
  pub shares :
      (k : Kind) (i current : ℕ)
      → top ≤ current
      → share k n current (bs i) ≡ logged k bucket_ms (column n current i) es
  pub placed : (i s : ℕ) → (bs i).slot ≡ some s → (s % n ≡ i) × (s ≤ top)
  pub before : All (Before bucket_ms top) es

abbrev pub put : ℕ → ℕ → Evaluation → (ℕ → Bucket) → ℕ → Bucket
put n s e bs i = if i == s % n then count_in e (bucket_for s (bs i)) else bs i

-- A bucket that is about to be emptied has nothing in the window, and nothing of its column is.
pub emptied :
    (k : Kind) (bucket_ms n top s current : ℕ) (bs : ℕ → Bucket) (es : List Evaluation)
    → HasWindow bucket_ms n top bs es
    → top ≤ s
    → s ≤ current
    → is_slot s (bs (s % n)).slot ≡ false
    → logged k bucket_ms (column n current (s % n)) es ≡ 0
unfolding share in_window is_slot
emptied k bucket_ms n top s current bs es v later now other =
    let none_shared : share k n s (bs (s % n)) ≡ 0 = elim (Option-cases (bs (s % n)).slot) [
      | inl e ↦ ground (arith, e)
      | inr (t, e) ↦
          let (place, old) = v.placed (s % n) t e in
          elim (dec_lt s (t + n)) [
            | yes near ↦
                absurd
                  (ground (arith, e, other, same_slot n t s place (omega (arith, old, later)) near))
            | no far ↦ ground (arith, e, far)
          ]
    ] in
    let fewer =
      logged-le k bucket_ms top (column n current (s % n)) (column n s (s % n)) es v.before
        (λ t old hit. ground (arith, hit, old, later, now)) in
    omega (arith, none_shared, v.shares k (s % n) s later, fewer)

pub share-count_in :
    (k : Kind) (n current : ℕ) (e : Evaluation) (b : Bucket)
    → share k n current (count_in e b)
      ≡ (if in_window n current b.slot then worth k e + tally k b.counts else 0)
unfolding share count_in
share-count_in k n current e b =
    ap (λ x. if in_window n current b.slot then x else 0) (tally-count_in k e b)

pub bucket_kept :
    (s : ℕ) (b : Bucket) → is_slot s b.slot ≡ true → (bucket_for s b ≡ b) × (b.slot ≡ some s)
unfolding bucket_for is_slot
bucket_kept s b kept = (rw kept, ground (arith, kept))

pub bucket_emptied :
    (s : ℕ) (b : Bucket)
    → is_slot s b.slot ≡ false
    → bucket_for s b ≡ record { slot = some s; counts = no_counts }
unfolding bucket_for
bucket_emptied s b fresh = rw fresh

-- The bucket of the evaluation, after it.
pub share-own :
    (k : Kind) (bucket_ms n top current : ℕ) (e : Evaluation) (bs : ℕ → Bucket)
    (es : List Evaluation)
    → HasWindow bucket_ms n top bs es
    → top ≤ e.time / bucket_ms
    → e.time / bucket_ms ≤ current
    → let s = e.time / bucket_ms in
      share k n current (count_in e (bucket_for s (bs (s % n))))
      ≡ (if in_window n current (some s) then worth k e else 0)
        + logged k bucket_ms (column n current (s % n)) es
unfolding share
share-own k bucket_ms n top current e bs es v later now =
    let s = e.time / bucket_ms in
    let b = bs (s % n) in
    let shared = v.shares k (s % n) current (omega (arith, later, now)) in
    elim (Bool-cases (is_slot s b.slot)) [
      | inl kept ↦
          let (same, slot) = bucket_kept s b kept in
          ap (λ c. share k n current (count_in e c)) same
          ∙ share-count_in k n current e b
          ∙ ground (arith, slot, shared)
      | inr fresh ↦
          let empty : Bucket = record { slot = some s; counts = no_counts } in
          ap (λ c. share k n current (count_in e c)) (bucket_emptied s b fresh)
          ∙ share-count_in k n current e empty
          ∙ ground (
            arith,
            tally-no_counts k,
            emptied k bucket_ms n top s current bs es v later now fresh,
          )
    ]

pub shares-put :
    (k : Kind) (bucket_ms n top i current : ℕ) (e : Evaluation) (bs : ℕ → Bucket)
    (es : List Evaluation)
    → HasWindow bucket_ms n top bs es
    → top ≤ e.time / bucket_ms
    → e.time / bucket_ms ≤ current
    → share k n current (put n (e.time / bucket_ms) e bs i)
      ≡ logged k bucket_ms (column n current i) (e ∷ es)
unfolding logged
shares-put k bucket_ms n top i current e bs es v later now =
    let s = e.time / bucket_ms in
    let shared = v.shares k i current (omega (arith, later, now)) in
    elim (ℕ_discrete i (s % n)) [
      | no other ↦ ground (arith, shared, other)
      | yes same ↦ ground (arith, same, share-own k bucket_ms n top current e bs es v later now)
    ]

pub slot-bucket_for :
    (s : ℕ) (e : Evaluation) (b : Bucket) → (count_in e (bucket_for s b)).slot ≡ some s
unfolding count_in bucket_for is_slot
slot-bucket_for s e b = ground arith

pub All-Before :
    (bucket_ms top s : ℕ) (es : List Evaluation)
    → All (Before bucket_ms top) es
    → top ≤ s
    → All (Before bucket_ms s) es
All-Before bucket_ms top s [] before later = tt
All-Before bucket_ms top s (e ∷ es) (first, before) later =
    (omega (arith, first, later), All-Before bucket_ms top s es before later)

pub put-HasWindow :
    (bucket_ms n top : ℕ) (e : Evaluation) (bs : ℕ → Bucket) (es : List Evaluation)
    → HasWindow bucket_ms n top bs es
    → top ≤ e.time / bucket_ms
    → HasWindow bucket_ms n (e.time / bucket_ms) (put n (e.time / bucket_ms) e bs) (e ∷ es)
put-HasWindow bucket_ms n top e bs es v later =
    let s = e.time / bucket_ms in
    record {
      shares = λ k i current now. shares-put k bucket_ms n top i current e bs es v later now;
      placed = λ i t there. elim (ℕ_discrete i (s % n)) [
        | no other ↦
            let (place, old) = v.placed i t (ground (arith, there, other)) in
            (place, omega (arith, old, later))
        | yes same ↦ ground (arith, there, same, slot-bucket_for s e (bs i))
      ];
      before = (omega arith, All-Before bucket_ms top s es v.before later);
    }
