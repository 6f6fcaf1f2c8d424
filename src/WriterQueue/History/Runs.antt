-- ===== src/WriterQueue/History/Runs.antt =====
-- The runs of a queue keep its history.
use stellar_payment_api.Base.{
  ℕ, zero, suc, ◌+◌, ◌≤◌, max, Bool, true, false, ◌||◌, Option, none, some, List, [], ◌∷◌, ◌++◌,
  map, ◌≡◌, if_both, refl, ltb, leb, length, length-append, arith,
}
use stellar_payment_api.WriterQueue.{
  end_write, Lookup, Item, DeadLetter, Outcome, written, failed, Queue, extract, create,
  drain_semaphore_waiters, release_slot, make_room, letter, add_to_dlq, attempt_ended,
  split_eligible, requeue_last_first, recover_dead_letter_queue, purge_dlq, set_max_concurrency,
  set_max_retries, Event, enqueues, lookup_ends, attempt_ends, resumes, recovers, purges,
  sets_max_concurrency, sets_max_retries, step, run,
}
use stellar_payment_api.WriterQueue.Sums.{
  weigh, weigh_below, weigh-append, weigh-extract, drops, drops-append, weigh_done,
  weigh_done-append,
}
use stellar_payment_api.WriterQueue.Still.{still-drain_from, still-release_slot}
use stellar_payment_api.WriterQueue.History.{
  IsTracked, HasHistory, IsTracked-still, enqueue-IsTracked, lookup_ended-IsTracked,
  resume-IsTracked,
}

module _ {A : Type 0} where
  room_made :
      (limit : ℕ) (ds : List (DeadLetter A))
      → length ds ≤ max 1 limit
      → suc (length (make_room limit ds)) ≤ max 1 limit
  unfolding make_room
  room_made limit [] bounded = ground (arith, bounded)
  room_made limit (d ∷ ds) bounded = ground (arith, bounded)

  add_to_dlq-IsTracked :
      (now : ℕ) (i : Item A) (q : Queue A) → IsTracked [] q → IsTracked [] (add_to_dlq now i q)
  unfolding add_to_dlq
  add_to_dlq-IsTracked now i q v = record {
    fifo = v.fifo;
    fits = v.fits;
    letters = omega (
      arith,
      room_made q.max_dlq_size q.dlq v.letters,
      length-append (make_room q.max_dlq_size q.dlq) (letter now i q ∷ []),
    );
    refused = v.refused;
    begun = v.begun;
    once = v.once;
  }

  end_write-IsTracked :
      (i : Item A) (rest : List (Item A)) (o : Outcome) (c : ℕ) (q : Queue A)
      → drops ((i.call, o) ∷ []) ≡ 0
      → ((w : ℕ → ℕ) → weigh_done w ((i.call, o) ∷ []) ≡ w i.call)
      → extract Item.call c q.running ≡ some (i, rest)
      → IsTracked [] q
      → IsTracked [] (end_write i rest o q)
  unfolding end_write weigh
  end_write-IsTracked i rest o c q kept done here v = record {
    fifo = v.fifo;
    fits = v.fits;
    letters = v.letters;
    refused = omega (arith, v.refused, kept, drops-append q.settled ((i.call, o) ∷ []));
    begun = λ w. omega (
      arith,
      v.begun w,
      done w,
      weigh-extract w Item.call c q.running i rest here,
      weigh_done-append w q.settled ((i.call, o) ∷ []),
    );
    once = λ w. omega (
      arith,
      v.once w,
      weigh-extract w Item.call c q.running i rest here,
      weigh-append w (λ p. p.0) q.settled ((i.call, o) ∷ []),
    );
  }

  attempt_ended-IsTracked :
      (ok : Bool) (now c : ℕ) (found : Option (Item A × List (Item A))) (q : Queue A)
      → extract Item.call c q.running ≡ found
      → IsTracked [] q
      → IsTracked [] (attempt_ended ok now found q)
  unfolding attempt_ended weigh drops weigh_done
  attempt_ended-IsTracked ok now c none q here v = v
  attempt_ended-IsTracked true now c (some (i, rest)) q here v =
      let ended = end_write i rest written q in
      IsTracked-still [] (release_slot ended) ended (still-release_slot ended)
        (end_write-IsTracked i rest written c q refl (λ w. omega arith) here v)
  attempt_ended-IsTracked false now c (some (i, rest)) q here v =
      let tried = record i { attempts = i.attempts + 1 } in
      let ended = add_to_dlq now tried (end_write i rest failed q) in
      if_both (IsTracked []) (leb tried.attempts tried.max_retries)
        (record q { running = tried ∷ rest }) (release_slot ended)
        (λ _. record {
          fifo = v.fifo;
          fits = v.fits;
          letters = v.letters;
          refused = v.refused;
          begun = λ w. omega (arith, v.begun w, weigh-extract w Item.call c q.running i rest here);
          once = λ w. omega (arith, v.once w, weigh-extract w Item.call c q.running i rest here);
        })
        (λ _. IsTracked-still [] (release_slot ended) ended (still-release_slot ended) (
          add_to_dlq-IsTracked now tried (end_write i rest failed q)
            (end_write-IsTracked i rest failed c q refl (λ w. omega arith) here v)))

  requeue-IsTracked :
      (taken : List (DeadLetter A)) (q : Queue A)
      → IsTracked [] q
      → IsTracked [] (requeue_last_first taken q)
  unfolding requeue_last_first
  requeue-IsTracked [] q v = v
  requeue-IsTracked (d ∷ ds) q v =
      enqueue-IsTracked d.write d.keyed false (some 0) (requeue_last_first ds q)
        (requeue-IsTracked ds q v)

  split_eligible-length :
      (batch : ℕ) (eligible : DeadLetter A → Bool) (ds : List (DeadLetter A))
      → length (split_eligible batch eligible ds).0 + length (split_eligible batch eligible ds).1
        ≡ length ds
  unfolding split_eligible
  split_eligible-length batch eligible [] = refl
  split_eligible-length zero eligible (d ∷ ds) = omega arith
  split_eligible-length (suc batch) eligible (d ∷ ds) = ground (
    arith,
    split_eligible-length batch eligible ds,
    split_eligible-length (suc batch) eligible ds,
  )

  fewer_letters :
      (kept : List (DeadLetter A)) (q : Queue A)
      → length kept ≤ length q.dlq
      → IsTracked [] q
      → IsTracked [] (record q { dlq = kept })
  fewer_letters kept q fewer v = record {
    fifo = v.fifo;
    fits = v.fits;
    letters = omega (arith, v.letters, fewer);
    refused = v.refused;
    begun = v.begun;
    once = v.once;
  }

  step-IsTracked : (e : Event A) (q : Queue A) → IsTracked [] q → IsTracked [] (step e q)
  unfolding step purge_dlq set_max_retries set_max_concurrency recover_dead_letter_queue
      drain_semaphore_waiters
  step-IsTracked (enqueues w keyed skip retries) q v = enqueue-IsTracked w keyed skip retries q v
  step-IsTracked (lookup_ends c hit) q v =
      lookup_ended-IsTracked hit c (extract Lookup.call c q.lookups) q refl v
  step-IsTracked (attempt_ends c now ok) q v =
      attempt_ended-IsTracked ok now c (extract Item.call c q.running) q refl v
  step-IsTracked resumes q v = resume-IsTracked q.loop q v
  step-IsTracked (recovers batch now force_all) q v =
      let eligible : DeadLetter A → Bool = λ d. force_all || leb d.next_retry_at now in
      let (taken, kept) = split_eligible batch eligible q.dlq in
      requeue-IsTracked taken (record q { dlq = kept })
        (fewer_letters kept q (omega (arith, split_eligible-length batch eligible q.dlq)) v)
  step-IsTracked purges q v = fewer_letters [] q (omega arith) v
  step-IsTracked (sets_max_concurrency n) q v =
      let p = record q { max_concurrency = n } in
      if_both (λ o. IsTracked [] (elim o [ none ↦ q | some q' ↦ q' ])) (ltb n 1) none
        (some (drain_semaphore_waiters p)) (λ _. v)
        (λ _. IsTracked-still [] (drain_semaphore_waiters p) p (still-drain_from q.waiters p) v)
  step-IsTracked (sets_max_retries n) q v = v

  run-IsTracked : (es : List (Event A)) (q : Queue A) → IsTracked [] q → IsTracked [] (run es q)
  unfolding run
  run-IsTracked [] q v = v
  run-IsTracked (e ∷ es) q v = run-IsTracked es (step e q) (step-IsTracked e q v)

  create-IsTracked :
      (size concurrency retries dlq_size interval : ℕ)
      → IsTracked {A = A} [] (create size concurrency retries dlq_size interval)
  unfolding create weigh weigh_below drops weigh_done
  create-IsTracked size concurrency retries dlq_size interval = record {
    fifo = refl;
    fits = omega arith;
    letters = omega arith;
    refused = refl;
    begun = λ w. refl;
    once = λ w. refl;
  }

  -- In every run of a new queue, however a weight is given to the calls of `enqueue`: the calls that
  -- look up the cache, are queued, run or have settled weigh as much together as all the calls that
  -- have been made, so each call is in exactly one of these places, once; the calls whose writes
  -- have started weigh as much as those that run and those whose writes have ended, well or not, so
  -- each of these has started once, and no call that was refused or found in the cache has. The
  -- count of dropped calls is the number of calls that have settled as refused.
  pub each_call_once :
      (es : List (Event A)) (size concurrency retries dlq_size interval : ℕ) (w : ℕ → ℕ)
      → let q = run es (create size concurrency retries dlq_size interval) in
        (weigh w Lookup.call q.lookups
            + weigh w Item.call q.queue
            + weigh w Item.call q.running
            + weigh w (λ o. o.0) q.settled
          ≡ weigh_below w q.calls)
        × (weigh w (λ c. c) q.started ≡ weigh w Item.call q.running + weigh_done w q.settled)
        × (q.dropped_count ≡ drops q.settled)
  unfolding weigh
  each_call_once es size concurrency retries dlq_size interval w =
      let v =
        run-IsTracked es (create size concurrency retries dlq_size interval)
          (create-IsTracked size concurrency retries dlq_size interval) in
      (omega (arith, v.once w), v.begun w, v.refused)

  -- In every run of a new queue, the writes that have started, followed by the calls that are
  -- queued, are the calls that have been accepted, in the order in which they were.
  pub started_in_order :
      (es : List (Event A)) (size concurrency retries dlq_size interval : ℕ)
      → let q = run es (create size concurrency retries dlq_size interval) in
        q.admitted ≡ q.started ++ map Item.call q.queue
  started_in_order es size concurrency retries dlq_size interval = HasHistory.fifo (
      run-IsTracked es (create size concurrency retries dlq_size interval)
        (create-IsTracked size concurrency retries dlq_size interval))

  -- In every run of a new queue, the queue and the dead letters stay within their sizes, with at
  -- least one place for a dead letter, and the count of dropped calls is the number of calls that
  -- have been refused.
  sizes_bounded :
      (es : List (Event A)) (size concurrency retries dlq_size interval : ℕ)
      → let q = run es (create size concurrency retries dlq_size interval) in
        (length q.queue ≤ q.max_queue_size)
        × (length q.dlq ≤ max 1 q.max_dlq_size)
        × (q.dropped_count ≡ drops q.settled)
  sizes_bounded es size concurrency retries dlq_size interval =
      let v =
        run-IsTracked es (create size concurrency retries dlq_size interval)
          (create-IsTracked size concurrency retries dlq_size interval) in
      (v.fits, v.letters, v.refused)
