-- ===== src/WriterQueue/Still.antt =====
-- What moves only the loop and the semaphore.
use stellar_payment_api.Base.{ℕ, zero, suc, ◌+◌, ◌-◌, ◌≡◌, if_both, refl, ltb, arith}
use stellar_payment_api.WriterQueue.{
  idle, acquired, Queue, drain_from, drain_semaphore_waiters, release_slot, acquire_slot, loop_head,
  process_queue,
}

module _ {A : Type 0} where
  -- The semaphore and the loop's place do not matter here.
  abbrev pub still : Queue A → Queue A
  still q = record q { loop = idle; active = 0; waiters = 0 }

  pub still-loop_head : (q : Queue A) → still (loop_head q) ≡ still q
  unfolding loop_head acquire_slot
  still-loop_head q = ground arith

  pub still-process_queue : (q : Queue A) → still (process_queue q) ≡ still q
  unfolding process_queue loop_head acquire_slot
  still-process_queue q = ground arith

  pub still-drain_from : (w : ℕ) (q : Queue A) → still (drain_from w q) ≡ still q
  unfolding drain_from
  still-drain_from zero q = refl
  still-drain_from (suc w) q =
      if_both (λ p. still p ≡ still q) (ltb q.active q.max_concurrency)
        (drain_from w (record q { active = q.active + 1; loop = acquired }))
        (record q { waiters = suc w })
        (λ _. still-drain_from w (record q { active = q.active + 1; loop = acquired })) (λ _. refl)

  pub still-release_slot : (q : Queue A) → still (release_slot q) ≡ still q
  unfolding release_slot drain_semaphore_waiters
  still-release_slot q = still-drain_from q.waiters (record q { active = q.active - 1 })
