-- ===== src/WriterQueue/Drains.antt =====
-- The queue empties when the writes end.
use stellar_payment_api.Base.{
  ℕ, zero, suc, ◌+◌, ◌-◌, ◌*◌, ◌≤◌, ◌<◌, true, some, List, [], ◌∷◌, ◌++◌, ◌≡◌, refl, ap, ◌∙◌, ◌⊎◌,
  inl, inr, length, arith, All,
}
use stellar_payment_api.WriterQueue.{
  Item, written, extract, Loop, idle, waiting, acquired, awaiting, Queue, loop_head, acquire_slot,
  create, release_slot, drain_semaphore_waiters, drain_from, attempt_ended, end_write, begin_write,
  dispatch, is_running, resume, Event, attempt_ends, resumes, step, run,
}
use stellar_payment_api.WriterQueue.Slots.{release_slot_alone, IsValid, slots_of, waiters_of}
use stellar_payment_api.WriterQueue.Slots.Runs.{step-IsValid, run-IsValid, create-IsValid, Fits}

unfoldable pub steps_of : Loop → ℕ
steps_of idle = 0
steps_of waiting = 1
steps_of acquired = 1
steps_of (awaiting c) = 2

module _ {A : Type 0} where
  -- A schedule: the write that started last ends with success; where none runs, the loop goes on.
  unfoldable pub turn_of : List (Item A) → Event A
  turn_of [] = resumes
  turn_of (i ∷ is) = attempt_ends i.call 0 true

  unfoldable pub rounds : ℕ → Queue A → Queue A
  rounds zero q = q
  rounds (suc n) q = rounds n (step (turn_of q.running) q)

  -- An upper bound on the rounds to go.
  unfoldable pub rounds_left : Queue A → ℕ
  rounds_left q = 4 * length q.queue + 2 * length q.running + steps_of q.loop

  rounds_left-drain_from :
      (w : ℕ) (q : Queue A) → w ≡ waiters_of q.loop → rounds_left (drain_from w q) ≤ rounds_left q
  unfolding drain_from rounds_left steps_of waiters_of
  rounds_left-drain_from zero q waits = omega arith
  rounds_left-drain_from (suc zero) q waits = ground arith
  rounds_left-drain_from (suc (suc w)) q waits = absurd (ground arith)

  extract_first :
      (i : Item A) (is : List (Item A)) → extract Item.call i.call (i ∷ is) ≡ some (i, is)
  unfolding extract
  extract_first i is = ground arith

  slot_released :
      (i : Item A) (is : List (Item A)) (q : Queue A)
      → length q.running ≡ suc (length is)
      → q.waiters ≡ waiters_of q.loop
      → rounds_left (release_slot (end_write i is written q)) < rounds_left q
  unfolding release_slot drain_semaphore_waiters end_write rounds_left
  slot_released i is q fewer waits =
      let p = record q {
        running = is;
        settled = q.settled ++ ((i.call, written) ∷ []);
        active = q.active - 1;
      } in
      omega (arith, rounds_left-drain_from q.waiters p waits, fewer)

  module _ (limit : ℕ) where
    -- The end of a write is a round less.
    write_ends :
        (i : Item A) (is : List (Item A)) (q : Queue A)
        → q.running ≡ i ∷ is
        → IsValid limit q
        → rounds_left (step (attempt_ends i.call 0 true) q) < rounds_left q
    unfolding step attempt_ended
    write_ends i is q running v =
        let first : extract Item.call i.call q.running ≡ some (i, is) =
          ap (extract Item.call i.call) running ∙ extract_first i is in
        rw first (slot_released i is q (ap length running) v.waits)

    dispatched :
        (items : List (Item A)) (q : Queue A)
        → q.queue ≡ items
        → q.loop ≡ acquired
        → q.running ≡ []
        → IsValid limit q
        → rounds_left (dispatch items q) < rounds_left q
    unfolding dispatch begin_write loop_head acquire_slot rounds_left steps_of waiters_of slots_of
    dispatched [] q items loop running v =
        rw (release_slot_alone limit q (v.waits ∙ ap waiters_of loop)) (ground (arith, items))
    dispatched (i ∷ is) q items loop running v = ground (arith, ap length items, v.counted)

    resumed :
        (loop : Loop) (q : Queue A)
        → q.loop ≡ loop
        → q.running ≡ []
        → IsValid limit q
        → (q.loop ≡ idle) ⊎ (rounds_left (resume loop q) < rounds_left q)
    unfolding resume loop_head acquire_slot rounds_left steps_of waiters_of slots_of is_running
    resumed idle q loop running v = inl loop
    resumed waiting q loop running v =
        absurd (ground (arith, v.counted, v.full, v.positive, ap length running))
    resumed acquired q loop running v = inr (dispatched q.queue q refl loop running v)
    resumed (awaiting c) q loop running v = inr (rw running (ground arith))

    loop_goes_on :
        (q : Queue A)
        → q.running ≡ []
        → IsValid limit q
        → (q.loop ≡ idle) ⊎ (rounds_left (step resumes q) < rounds_left q)
    unfolding step
    loop_goes_on q running v = resumed q.loop q refl running v

    idle_stays :
        (q : Queue A)
        → q.loop ≡ idle
        → q.running ≡ []
        → IsValid limit q
        → (step resumes q ≡ q) × (rounds_left q ≡ 0)
    unfolding step resume rounds_left steps_of
    idle_stays q loop running v = (rw loop, ground (arith, running, loop, v.busy loop))

    one_round :
        (q : Queue A) (items : List (Item A))
        → q.running ≡ items
        → IsValid limit q
        → (rounds_left (step (turn_of items) q) < rounds_left q)
          ⊎ ((rounds_left q ≡ 0) × (step (turn_of items) q ≡ q))
    unfolding turn_of
    one_round q [] running v = elim (loop_goes_on q running v) [
      | inl loop ↦ inr ((idle_stays q loop running v).1, (idle_stays q loop running v).0)
      | inr less ↦ inl less
    ]
    one_round q (i ∷ is) running v = inl (write_ends i is q running v)

    turn-IsValid :
        (items : List (Item A)) (q : Queue A)
        → IsValid limit q
        → IsValid limit (step (turn_of items) q)
    unfolding turn_of
    turn-IsValid [] q v = step-IsValid limit resumes q tt v
    turn-IsValid (i ∷ is) q v = step-IsValid limit (attempt_ends i.call 0 true) q tt v

    rounds_enough :
        (n : ℕ) (q : Queue A) → IsValid limit q → rounds_left q ≤ n → rounds_left (rounds n q) ≡ 0
    unfolding rounds
    rounds_enough zero q v enough = omega (arith, enough)
    rounds_enough (suc n) q v enough =
        rounds_enough n (step (turn_of q.running) q) (turn-IsValid q.running q v)
          (elim (one_round q q.running refl v) [
            | inl less ↦ omega (arith, less, enough)
            | inr (none_left, same) ↦ omega (arith, none_left, ap rounds_left same)
          ])

    drained :
        (q : Queue A) → rounds_left q ≡ 0 → (q.queue ≡ []) × (q.running ≡ []) × (q.loop ≡ idle)
    unfolding rounds_left steps_of
    drained q none_left =
        (ground (arith, none_left), ground (arith, none_left), ground (arith, none_left))

  -- After any run of a queue that is created with at least one slot: when from then on the write that
  -- started last ends with success, and the loop goes on wherever no write runs, then after as many
  -- rounds as `rounds_left` says no call is queued, no write runs, and the loop has ended.
  pub queue_drains :
      (es : List (Event A)) (size concurrency retries dlq_size interval limit : ℕ)
      → 1 ≤ concurrency
      → concurrency ≤ limit
      → All (Fits limit) es
      → let q = run es (create size concurrency retries dlq_size interval) in
        let p = rounds (rounds_left q) q in (p.queue ≡ []) × (p.running ≡ []) × (p.loop ≡ idle)
  queue_drains es size concurrency retries dlq_size interval limit positive below fits =
      let q = run es (create size concurrency retries dlq_size interval) in
      drained limit (rounds (rounds_left q) q) (
        rounds_enough limit (rounds_left q) q
          (run-IsValid limit es (create size concurrency retries dlq_size interval) fits
            (create-IsValid limit size concurrency retries dlq_size interval positive below))
          (omega arith))
