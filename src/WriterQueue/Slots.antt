-- ===== src/WriterQueue/Slots.antt =====
-- The semaphore of the audit writer queue: slots, the loop, and no lost wake-up.
use stellar_payment_api.Base.{
  ℕ, zero, suc, ◌+◌, ◌-◌, ◌≤◌, Bool, true, false, ◌||◌, Option, none, some, List, [], ◌∷◌, ◌++◌,
  ◌≡◌, subst, if_both, Option-cases, refl, sym, ap, ◌∙◌, inl, inr, ltb, leb, length, arith, All,
}
use stellar_payment_api.WriterQueue.{
  Lookup, Item, DeadLetter, written, failed, Loop, idle, waiting, acquired, awaiting, Queue,
  extract, create, drain_from, drain_semaphore_waiters, release_slot, acquire_slot, loop_head,
  process_queue, admit, refuse, push, enqueue, lookup_ended, end_write, begin_write, look_up,
  add_to_dlq, attempt_ended, is_running, dispatch, resume, split_eligible, requeue_last_first,
  recover_dead_letter_queue, purge_dlq, set_max_concurrency, set_max_retries, Event, enqueues,
  lookup_ends, attempt_ends, resumes, recovers, purges, sets_max_concurrency, sets_max_retries,
  step, run,
}
pub mod Runs

-- The slots and the waiters that are the loop's.
unfoldable pub slots_of : Loop → ℕ
slots_of acquired = 1
slots_of loop = 0

unfoldable pub waiters_of : Loop → ℕ
waiters_of waiting = 1
waiters_of loop = 0

length-extract :
    {A : Type 0} (key : A → ℕ) (k : ℕ) (xs : List A) (x : A) (rest : List A)
    → extract key k xs ≡ some (x, rest)
    → length xs ≡ suc (length rest)
unfolding extract
length-extract key k [] x rest found = ground (arith, found)
length-extract key k (y ∷ xs) x rest found = elim (Option-cases (extract key k xs)) [
  | inl none_left ↦ ground (arith, none_left, found)
  | inr ((z, zs), e) ↦ ground (arith, e, found, length-extract key k xs z zs e)
]

module _ {A : Type 0} (limit : ℕ) where
  -- The `limit` is above every value that `maxConcurrency` has had.
  pub record HasSlots (loop : Loop) (active waiters concurrency writes : ℕ) (queue : List (Item A))
      : Type 0 where
    pub counted : active ≡ writes + slots_of loop
    pub waits : waiters ≡ waiters_of loop
    pub full : loop ≡ waiting → concurrency ≤ active
    pub busy : loop ≡ idle → queue ≡ []
    pub positive : 1 ≤ concurrency
    pub bounded : active ≤ limit
    pub below : concurrency ≤ limit

  abbrev pub IsValid : Queue A → Type 0
  IsValid q = HasSlots q.loop q.active q.waiters q.max_concurrency (length q.running) q.queue

  loop_head-IsValid :
      (q : Queue A)
      → q.active ≡ length q.running
      → q.waiters ≡ 0
      → 1 ≤ q.max_concurrency
      → q.active ≤ limit
      → q.max_concurrency ≤ limit
      → IsValid (loop_head q)
  unfolding loop_head acquire_slot slots_of waiters_of
  loop_head-IsValid q counted none_waits positive bounded below = record {
    counted = ground arith;
    waits = ground arith;
    full = λ h. ground arith;
    busy = λ h. ground arith;
    positive = ground arith;
    bounded = ground arith;
    below = ground arith;
  }

  -- Waking the loop, from a state that may have free slots while it waits.
  drain_from-IsValid :
      (w : ℕ) (q : Queue A)
      → w ≡ waiters_of q.loop
      → q.active ≡ length q.running + slots_of q.loop
      → (q.loop ≡ idle → q.queue ≡ [])
      → 1 ≤ q.max_concurrency
      → q.active ≤ limit
      → q.max_concurrency ≤ limit
      → IsValid (drain_from w q)
  unfolding drain_from slots_of waiters_of
  drain_from-IsValid zero q waits counted busy positive bounded below = record {
    counted = ground arith;
    waits = ground arith;
    full = λ h. ground arith;
    busy = λ h. ground arith;
    positive = ground arith;
    bounded = ground arith;
    below = ground arith;
  }
  drain_from-IsValid (suc zero) q waits counted busy positive bounded below = record {
    counted = ground arith;
    waits = ground arith;
    full = λ h. ground arith;
    busy = λ h. ground arith;
    positive = ground arith;
    bounded = ground arith;
    below = ground arith;
  }
  drain_from-IsValid (suc (suc w)) q waits counted busy positive bounded below =
      absurd (ground arith)

  drain-IsValid :
      (q : Queue A)
      → q.waiters ≡ waiters_of q.loop
      → q.active ≡ length q.running + slots_of q.loop
      → (q.loop ≡ idle → q.queue ≡ [])
      → 1 ≤ q.max_concurrency
      → q.active ≤ limit
      → q.max_concurrency ≤ limit
      → IsValid (drain_semaphore_waiters q)
  unfolding drain_semaphore_waiters
  drain-IsValid q = drain_from-IsValid q.waiters q

  -- Giving back a slot that no running write has.
  release_slot-IsValid :
      (q : Queue A)
      → q.active ≡ suc (length q.running + slots_of q.loop)
      → q.waiters ≡ waiters_of q.loop
      → (q.loop ≡ idle → q.queue ≡ [])
      → 1 ≤ q.max_concurrency
      → q.active ≤ limit
      → q.max_concurrency ≤ limit
      → IsValid (release_slot q)
  unfolding release_slot
  release_slot-IsValid q counted waits busy positive bounded below =
      drain-IsValid (record q { active = q.active - 1 }) waits (omega (arith, counted)) busy
        positive (omega (arith, bounded)) below

  admit-IsValid :
      (c : ℕ) (w : A) (keyed : Bool) (retries : Option ℕ) (q : Queue A)
      → IsValid q
      → IsValid (admit c w keyed retries q)
  unfolding admit refuse push process_queue loop_head acquire_slot slots_of waiters_of
  admit-IsValid c w keyed retries q v = record {
    counted = ground (arith, v.counted, v.waits, v.full);
    waits = ground (arith, v.counted, v.waits, v.full);
    full = λ h. ground (arith, v.counted, v.waits, v.full, v.busy);
    busy = λ h. ground (arith, v.counted, v.waits, v.full, v.busy);
    positive = ground (arith, v.positive);
    bounded = ground (arith, v.bounded, v.below);
    below = ground (arith, v.below);
  }

  enqueue-IsValid :
      (w : A) (keyed skip : Bool) (retries : Option ℕ) (q : Queue A)
      → IsValid q
      → IsValid (enqueue w keyed skip retries q)
  unfolding enqueue look_up
  enqueue-IsValid w true false retries q v = v
  enqueue-IsValid w true true retries q v =
      admit-IsValid q.calls w true retries (record q { calls = q.calls + 1 }) v
  enqueue-IsValid w false skip retries q v =
      admit-IsValid q.calls w false retries (record q { calls = q.calls + 1 }) v

  lookup_ended-IsValid :
      (hit : Bool) (found : Option (Lookup A × List (Lookup A))) (q : Queue A)
      → IsValid q
      → IsValid (lookup_ended hit found q)
  unfolding lookup_ended
  lookup_ended-IsValid hit none q v = v
  lookup_ended-IsValid true (some (l, rest)) q v = v
  lookup_ended-IsValid false (some (l, rest)) q v =
      admit-IsValid l.call l.write true l.retries (record q { lookups = rest }) v

  -- No waiter: the slot is only given back.
  pub release_slot_alone :
      (q : Queue A)
      → q.waiters ≡ 0
      → release_slot q ≡ record q { active = q.active - 1; waiters = 0 }
  unfolding release_slot drain_semaphore_waiters drain_from
  release_slot_alone q alone = rw alone
