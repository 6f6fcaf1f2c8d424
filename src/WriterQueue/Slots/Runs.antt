-- ===== src/WriterQueue/Slots/Runs.antt =====
-- The runs of a queue keep its slots.
use stellar_payment_api.Base.{
  ℕ, suc, ◌+◌, ◌-◌, ◌≤◌, Bool, true, false, ◌||◌, Option, none, some, List, [], ◌∷◌, ◌++◌, ◌≡◌,
  subst, if_both, refl, sym, ap, ◌∙◌, ltb, leb, length, arith, All,
}
use stellar_payment_api.WriterQueue.{
  Lookup, Item, DeadLetter, written, failed, Loop, idle, waiting, acquired, awaiting, Queue,
  extract, create, drain_semaphore_waiters, release_slot, acquire_slot, loop_head, end_write,
  begin_write, add_to_dlq, attempt_ended, is_running, dispatch, resume, split_eligible,
  requeue_last_first, recover_dead_letter_queue, purge_dlq, set_max_concurrency, set_max_retries,
  Event, enqueues, lookup_ends, attempt_ends, resumes, recovers, purges, sets_max_concurrency,
  sets_max_retries, step, run,
}
use stellar_payment_api.WriterQueue.Slots.{
  slots_of, waiters_of, length-extract, HasSlots, IsValid, loop_head-IsValid, drain-IsValid,
  release_slot-IsValid, release_slot_alone, enqueue-IsValid, lookup_ended-IsValid,
}

module _ {A : Type 0} (limit : ℕ) where
  dispatch-IsValid :
      (items : List (Item A)) (q : Queue A)
      → q.loop ≡ acquired
      → IsValid limit q
      → IsValid limit (dispatch items q)
  unfolding dispatch begin_write loop_head acquire_slot slots_of waiters_of
  dispatch-IsValid [] q loop v =
      let alone : q.waiters ≡ 0 = v.waits ∙ ap waiters_of loop in
      subst (λ p. IsValid limit (loop_head p)) (sym (release_slot_alone limit q alone))
        (loop_head-IsValid limit (record q { active = q.active - 1; waiters = 0 })
          (ground (arith, v.counted, loop)) refl v.positive (omega (arith, v.bounded)) v.below)
  dispatch-IsValid (i ∷ rest) q loop v = record {
    counted = ground (arith, v.counted, v.waits);
    waits = ground (arith, v.counted, v.waits);
    full = λ h. ground (arith, v.counted);
    busy = λ h. ground (arith, v.counted);
    positive = ground (arith, v.positive);
    bounded = ground (arith, v.bounded, v.below);
    below = ground (arith, v.below);
  }

  resume-IsValid :
      (loop : Loop) (q : Queue A) → q.loop ≡ loop → IsValid limit q → IsValid limit (resume loop q)
  unfolding resume slots_of waiters_of
  resume-IsValid idle q at v = v
  resume-IsValid waiting q at v = v
  resume-IsValid acquired q at v = dispatch-IsValid q.queue q at v
  resume-IsValid (awaiting c) q at v =
      if_both (IsValid limit) (is_running c q.running) q (loop_head q) (λ _. v)
        (λ _.
          loop_head-IsValid limit q (ground (arith, v.counted, at)) (v.waits ∙ ap waiters_of at)
            v.positive v.bounded v.below)

  attempt_ended-IsValid :
      (ok : Bool) (now : ℕ) (found : Option (Item A × List (Item A))) (q : Queue A)
      → ((i : Item A) (rest : List (Item A))
          → found ≡ some (i, rest)
          → length q.running ≡ suc (length rest))
      → IsValid limit q
      → IsValid limit (attempt_ended ok now found q)
  unfolding attempt_ended end_write add_to_dlq
  attempt_ended-IsValid ok now none q shorter v = v
  attempt_ended-IsValid true now (some (i, rest)) q shorter v =
      release_slot-IsValid limit (end_write i rest written q)
        (omega (arith, v.counted, shorter i rest refl)) v.waits v.busy v.positive v.bounded v.below
  attempt_ended-IsValid false now (some (i, rest)) q shorter v =
      let tried = record i { attempts = i.attempts + 1 } in
      let ended =
        add_to_dlq now tried
          (record q { running = rest; settled = q.settled ++ ((i.call, failed) ∷ []) }) in
      let fewer : length q.running ≡ suc (length rest) = shorter i rest refl in
      if_both (IsValid limit) (leb tried.attempts tried.max_retries)
        (record q { running = tried ∷ rest }) (release_slot ended)
        (λ _.
          subst (λ n. HasSlots limit q.loop q.active q.waiters q.max_concurrency n q.queue) fewer v)
        (λ _.
          release_slot-IsValid limit ended (omega (arith, v.counted, fewer)) v.waits v.busy
            v.positive v.bounded v.below)

  requeue-IsValid :
      (taken : List (DeadLetter A)) (q : Queue A)
      → IsValid limit q
      → IsValid limit (requeue_last_first taken q)
  unfolding requeue_last_first
  requeue-IsValid [] q v = v
  requeue-IsValid (d ∷ ds) q v =
      enqueue-IsValid limit d.write d.keyed false (some 0) (requeue_last_first ds q)
        (requeue-IsValid ds q v)

  recover-IsValid :
      (batch : ℕ) (force_all : Bool) (now : ℕ) (q : Queue A)
      → IsValid limit q
      → IsValid limit (recover_dead_letter_queue batch force_all now q).0
  unfolding recover_dead_letter_queue
  recover-IsValid batch force_all now q v =
      let (taken, kept) = split_eligible batch (λ d. force_all || leb d.next_retry_at now) q.dlq in
      requeue-IsValid taken (record q { dlq = kept }) v

  -- The new limit must stay below `limit`.
  abbrev pub Fits : Event A → Type 0
  Fits (sets_max_concurrency n) = n ≤ limit
  Fits e = Unit

  pub step-IsValid :
      (e : Event A) (q : Queue A) → Fits e → IsValid limit q → IsValid limit (step e q)
  unfolding step purge_dlq set_max_retries set_max_concurrency
  step-IsValid (enqueues w keyed skip retries) q fits v =
      enqueue-IsValid limit w keyed skip retries q v
  step-IsValid (lookup_ends c hit) q fits v =
      lookup_ended-IsValid limit hit (extract Lookup.call c q.lookups) q v
  step-IsValid (attempt_ends c now ok) q fits v =
      attempt_ended-IsValid ok now (extract Item.call c q.running) q
        (λ i rest found. length-extract Item.call c q.running i rest found) v
  step-IsValid resumes q fits v = resume-IsValid q.loop q refl v
  step-IsValid (recovers batch now force_all) q fits v = recover-IsValid batch force_all now q v
  step-IsValid purges q fits v = v
  step-IsValid (sets_max_concurrency n) q fits v =
      if_both (λ o. IsValid limit (elim o [ none ↦ q | some q' ↦ q' ])) (ltb n 1) none
        (some (drain_semaphore_waiters (record q { max_concurrency = n }))) (λ _. v)
        (λ e.
          drain-IsValid limit (record q { max_concurrency = n }) v.waits v.counted v.busy
            (ground (arith, e)) v.bounded fits)
  step-IsValid (sets_max_retries n) q fits v = v

  pub run-IsValid :
      (es : List (Event A)) (q : Queue A) → All Fits es → IsValid limit q → IsValid limit (run es q)
  unfolding run
  run-IsValid [] q fits v = v
  run-IsValid (e ∷ es) q (fit, fits) v = run-IsValid es (step e q) fits (step-IsValid e q fit v)

  pub create-IsValid :
      (size concurrency retries dlq_size interval : ℕ)
      → 1 ≤ concurrency
      → concurrency ≤ limit
      → IsValid {A = A} limit (create size concurrency retries dlq_size interval)
  unfolding create slots_of waiters_of
  create-IsValid size concurrency retries dlq_size interval positive below = record {
    counted = refl;
    waits = refl;
    full = λ h. ground (arith, h);
    busy = λ h. refl;
    positive = positive;
    bounded = omega arith;
    below = below;
  }

  -- In every run of a queue that is created with at least one slot: the semaphore's count is the
  -- number of writes that are running, and one more while the loop has a slot in its hand; at most
  -- as many run as the largest concurrency that has been set; as long as a call is queued, the
  -- loop is running; and when it waits for a slot, all slots are taken.
  pub run_slots :
      (es : List (Event A)) (size concurrency retries dlq_size interval : ℕ)
      → 1 ≤ concurrency
      → concurrency ≤ limit
      → All Fits es
      → IsValid limit (run es (create size concurrency retries dlq_size interval))
        × (length (run es (create size concurrency retries dlq_size interval)).running ≤ limit)
  run_slots es size concurrency retries dlq_size interval positive below fits =
      let v =
        run-IsValid es (create size concurrency retries dlq_size interval) fits
          (create-IsValid size concurrency retries dlq_size interval positive below) in
      (v, omega (arith, v.counted, v.bounded))
