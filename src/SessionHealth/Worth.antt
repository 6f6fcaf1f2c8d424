-- ===== src/SessionHealth/Worth.antt =====
-- The worth of a history of evaluations in each of the four counts.
use native.Mathlib.Nat.{mod-lt}
use stellar_payment_api.Base.{
  ℕ, suc, ◌+◌, ◌/◌, ◌%◌, ◌≤◌, ◌<◌, Bool, true, ◌&&◌, none, List, [], ◌∷◌, if◌then◌else◌, ltb, ◌==◌,
  ◌≡◌, refl, arith, All,
}
use stellar_payment_api.SessionHealth.{
  Evaluation, Counts, Bucket, no_counts, add_outcome, add_suspicion, count_in, plus,
}

-- The four counts.
pub data Kind : Type 0 where
  acceptances rejections failures suspicions : Kind

unfoldable pub tally : Kind → Counts → ℕ
tally acceptances c = c.accepted_count
tally rejections c = c.rejected_count
tally failures c = c.errors
tally suspicions c = c.suspicious

-- What an evaluation adds to a count.
unfoldable pub worth : Kind → Evaluation → ℕ
worth k e = tally k (count_in e (record { slot = none; counts = no_counts })).counts

pub tally-plus : (k : Kind) (c d : Counts) → tally k (plus c d) ≡ tally k c + tally k d
unfolding tally
tally-plus k c d = ground arith

pub tally-count_in :
    (k : Kind) (e : Evaluation) (b : Bucket)
    → tally k (count_in e b).counts ≡ worth k e + tally k b.counts
unfolding tally worth count_in add_suspicion add_outcome
tally-count_in k e b = ground arith

pub tally-no_counts : (k : Kind) → tally k no_counts ≡ 0
unfolding tally
tally-no_counts k = ground arith

-- The worth of the evaluations whose slot passes a test.
unfoldable pub logged : Kind → ℕ → (ℕ → Bool) → List Evaluation → ℕ
logged k bucket_ms p [] = 0
logged k bucket_ms p (e ∷ es) =
    let rest = logged k bucket_ms p es in if p (e.time / bucket_ms) then worth k e + rest else rest

-- The slots of the evaluations are at most `top`.
abbrev pub Before : ℕ → ℕ → Evaluation → Type 0
Before bucket_ms top e = e.time / bucket_ms ≤ top

pub logged-le :
    (k : Kind) (bucket_ms top : ℕ) (p q : ℕ → Bool) (es : List Evaluation)
    → All (Before bucket_ms top) es
    → ((s : ℕ) → s ≤ top → p s ≡ true → q s ≡ true)
    → logged k bucket_ms p es ≤ logged k bucket_ms q es
unfolding logged
logged-le k bucket_ms top p q [] before implies = omega arith
logged-le k bucket_ms top p q (e ∷ es) (first, before) implies =
    ground
      (arith, logged-le k bucket_ms top p q es before implies, implies (e.time / bucket_ms) first)

-- The evaluations of the first columns, and those of the next one.
pub logged-suc :
    (k : Kind) (bucket_ms n i : ℕ) (p : ℕ → Bool) (es : List Evaluation)
    → logged k bucket_ms (λ s. p s && ltb (s % n) (suc i)) es
      ≡ logged k bucket_ms (λ s. p s && ltb (s % n) i) es
        + logged k bucket_ms (λ s. p s && (s % n == i)) es
unfolding logged
logged-suc k bucket_ms n i p [] = refl
logged-suc k bucket_ms n i p (e ∷ es) = ground (arith, logged-suc k bucket_ms n i p es)

pub logged-zero :
    (k : Kind) (bucket_ms n : ℕ) (p : ℕ → Bool) (es : List Evaluation)
    → logged k bucket_ms (λ s. p s && ltb (s % n) 0) es ≡ 0
unfolding logged
logged-zero k bucket_ms n p [] = refl
logged-zero k bucket_ms n p (e ∷ es) = ground (arith, logged-zero k bucket_ms n p es)

pub logged-all :
    (k : Kind) (bucket_ms n : ℕ) (p : ℕ → Bool) (es : List Evaluation)
    → 0 < n
    → logged k bucket_ms (λ s. p s && ltb (s % n) n) es ≡ logged k bucket_ms p es
unfolding logged
logged-all k bucket_ms n p [] positive = refl
logged-all k bucket_ms n p (e ∷ es) positive =
    ground (arith, logged-all k bucket_ms n p es positive, mod-lt (e.time / bucket_ms) positive)
