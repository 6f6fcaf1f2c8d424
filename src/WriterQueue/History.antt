-- ===== src/WriterQueue/History.antt =====
-- What becomes of each call: queued in order, and settled once.
use mathlib.Core.List.{append_assoc, map-append}
use stellar_payment_api.Base.{
  ℕ, zero, suc, ◌+◌, ◌≤◌, ◌<◌, max, Bool, true, false, ◌&&◌, ◌||◌, not, Option, none, some, List,
  [], ◌∷◌, ◌++◌, map, ◌≡◌, subst, if_both, refl, sym, ap, ◌∙◌, ltb, leb, ◌==◌, length,
  length-append, arith,
}
use stellar_payment_api.WriterQueue.{
  begin_write, end_write, look_up, Lookup, Item, DeadLetter, Outcome, written, failed, dropped,
  cached, Loop, idle, waiting, acquired, awaiting, Queue, extract, create, drain_semaphore_waiters,
  release_slot, loop_head, process_queue, admit, refuse, push, new_item, enqueue, lookup_ended,
  make_room, letter, add_to_dlq, attempt_ended, is_running, dispatch, resume, split_eligible,
  requeue_last_first, recover_dead_letter_queue, purge_dlq, set_max_concurrency, set_max_retries,
  Event, enqueues, lookup_ends, attempt_ends, resumes, recovers, purges, sets_max_concurrency,
  sets_max_retries, step, run,
}
use stellar_payment_api.WriterQueue.Sums.{
  weigh, weigh_below, weigh-append, weigh-extract, drops, drops-append, weigh_done,
  weigh_done-append,
}
use stellar_payment_api.WriterQueue.Still.{
  still, still-loop_head, still-process_queue, still-drain_from, still-release_slot,
}
pub mod Runs

module _ {A : Type 0} where
  -- `owed` are calls that have been made and are in no list yet.
  pub record HasHistory (owed : List ℕ) (size dlq_size calls : ℕ) (lookups : List (Lookup A))
      (queue running : List (Item A)) (dlq : List (DeadLetter A)) (dropped_count : ℕ)
      (admitted started : List ℕ) (settled : List (ℕ × Outcome)) : Type 0 where
    pub fifo : admitted ≡ started ++ map Item.call queue
    pub fits : length queue ≤ size
    pub letters : length dlq ≤ max 1 dlq_size
    pub refused : dropped_count ≡ drops settled
    pub begun :
        (w : ℕ → ℕ) → weigh w (λ c. c) started ≡ weigh w Item.call running + weigh_done w settled
    pub once :
        (w : ℕ → ℕ)
        → weigh w (λ c. c) owed
            + weigh w Lookup.call lookups
            + weigh w Item.call queue
            + weigh w Item.call running
            + weigh w (λ o. o.0) settled
          ≡ weigh_below w calls

  abbrev pub IsTracked : List ℕ → Queue A → Type 0
  IsTracked owed q =
      HasHistory owed q.max_queue_size q.max_dlq_size q.calls q.lookups q.queue q.running q.dlq
        q.dropped_count q.admitted q.started q.settled

  IsTracked-still :
      (owed : List ℕ) (p q : Queue A) → still p ≡ still q → IsTracked owed q → IsTracked owed p
  IsTracked-still owed p q same v = subst (IsTracked owed) (sym same) v

  refuse-IsTracked : (c : ℕ) (q : Queue A) → IsTracked (c ∷ []) q → IsTracked [] (refuse c q)
  unfolding refuse drops weigh weigh_done
  refuse-IsTracked c q v = record {
    fifo = v.fifo;
    fits = v.fits;
    letters = v.letters;
    refused = omega (arith, v.refused, drops-append q.settled ((c, dropped) ∷ []));
    begun = λ w. omega (arith, v.begun w, weigh_done-append w q.settled ((c, dropped) ∷ []));
    once = λ w. omega (arith, v.once w, weigh-append w (λ o. o.0) q.settled ((c, dropped) ∷ []));
  }

  push-IsTracked :
      (i : Item A) (q : Queue A)
      → length q.queue < q.max_queue_size
      → IsTracked (i.call ∷ []) q
      → IsTracked [] (push i q)
  unfolding push weigh
  push-IsTracked i q room v = record {
    fifo =
        ap (λ l. l ++ (i.call ∷ [])) v.fifo
        ∙ append_assoc q.started (map Item.call q.queue) (i.call ∷ [])
        ∙ ap (λ l. q.started ++ l) (sym (map-append Item.call q.queue (i ∷ [])));
    fits = omega (arith, room, length-append q.queue (i ∷ []));
    letters = v.letters;
    refused = v.refused;
    begun = v.begun;
    once = λ w. omega (arith, v.once w, weigh-append w Item.call q.queue (i ∷ []));
  }

  admit-IsTracked :
      (c : ℕ) (w : A) (keyed : Bool) (retries : Option ℕ) (q : Queue A)
      → IsTracked (c ∷ []) q
      → IsTracked [] (admit c w keyed retries q)
  unfolding admit
  admit-IsTracked c w keyed retries q v =
      let i = new_item c w keyed retries q in
      if_both (IsTracked []) (leb q.max_queue_size (length q.queue)) (refuse c q)
        (process_queue (push i q)) (λ _. refuse-IsTracked c q v)
        (λ room.
          IsTracked-still [] (process_queue (push i q)) (push i q) (still-process_queue (push i q))
            (push-IsTracked i q (ground (arith, room)) v))

  -- A new call is owed its place.
  called :
      (q : Queue A) → IsTracked [] q → IsTracked (q.calls ∷ []) (record q { calls = q.calls + 1 })
  unfolding weigh weigh_below
  called q v = record {
    fifo = v.fifo;
    fits = v.fits;
    letters = v.letters;
    refused = v.refused;
    begun = v.begun;
    once = λ w. ground (arith, v.once w);
  }

  look_up-IsTracked :
      (c : ℕ) (w : A) (retries : Option ℕ) (q : Queue A)
      → IsTracked (c ∷ []) q
      → IsTracked [] (look_up c w retries q)
  unfolding look_up weigh
  look_up-IsTracked c w retries q v = record {
    fifo = v.fifo;
    fits = v.fits;
    letters = v.letters;
    refused = v.refused;
    begun = v.begun;
    once = λ u. omega (
      arith,
      v.once u,
      weigh-append u Lookup.call q.lookups (record { call = c; write = w; retries = retries } ∷ []),
    );
  }

  enqueue-IsTracked :
      (w : A) (keyed skip : Bool) (retries : Option ℕ) (q : Queue A)
      → IsTracked [] q
      → IsTracked [] (enqueue w keyed skip retries q)
  unfolding enqueue
  enqueue-IsTracked w keyed skip retries q v =
      let p = record q { calls = q.calls + 1 } in
      if_both (IsTracked []) (keyed && not skip) (look_up q.calls w retries p)
        (admit q.calls w keyed retries p) (λ _. look_up-IsTracked q.calls w retries p (called q v))
        (λ _. admit-IsTracked q.calls w keyed retries p (called q v))

  lookup_ended-IsTracked :
      (hit : Bool) (c : ℕ) (found : Option (Lookup A × List (Lookup A))) (q : Queue A)
      → extract Lookup.call c q.lookups ≡ found
      → IsTracked [] q
      → IsTracked [] (lookup_ended hit found q)
  unfolding lookup_ended weigh drops weigh_done
  lookup_ended-IsTracked hit c none q here v = v
  lookup_ended-IsTracked true c (some (l, rest)) q here v = record {
    fifo = v.fifo;
    fits = v.fits;
    letters = v.letters;
    refused = omega (arith, v.refused, drops-append q.settled ((l.call, cached) ∷ []));
    begun = λ w. omega (arith, v.begun w, weigh_done-append w q.settled ((l.call, cached) ∷ []));
    once = λ w. omega (
      arith,
      v.once w,
      weigh-extract w Lookup.call c q.lookups l rest here,
      weigh-append w (λ o. o.0) q.settled ((l.call, cached) ∷ []),
    );
  }
  lookup_ended-IsTracked false c (some (l, rest)) q here v =
      admit-IsTracked l.call l.write true l.retries (record q { lookups = rest })
        (record {
          fifo = v.fifo;
          fits = v.fits;
          letters = v.letters;
          refused = v.refused;
          begun = v.begun;
          once = λ w. omega (arith, v.once w, weigh-extract w Lookup.call c q.lookups l rest here);
        })

  begin_write-IsTracked :
      (i : Item A) (rest : List (Item A)) (q : Queue A)
      → q.queue ≡ i ∷ rest
      → IsTracked [] q
      → IsTracked [] (begin_write i rest q)
  unfolding begin_write weigh
  begin_write-IsTracked i rest q first v =
      let u : IsTracked [] (record q { queue = i ∷ rest }) =
        subst (λ l. IsTracked [] (record q { queue = l })) first v in
      record {
        fifo = u.fifo ∙ sym (append_assoc q.started (i.call ∷ []) (map Item.call rest));
        fits = omega (arith, u.fits);
        letters = v.letters;
        refused = v.refused;
        begun = λ w. omega (arith, u.begun w, weigh-append w (λ c. c) q.started (i.call ∷ []));
        once = λ w. omega (arith, u.once w);
      }

  dispatch-IsTracked :
      (items : List (Item A)) (q : Queue A)
      → q.queue ≡ items
      → IsTracked [] q
      → IsTracked [] (dispatch items q)
  unfolding dispatch
  dispatch-IsTracked [] q same v =
      IsTracked-still [] (loop_head (release_slot q)) q
        (still-loop_head (release_slot q) ∙ still-release_slot q) v
  dispatch-IsTracked (i ∷ rest) q same v =
      let begun = begin_write i rest q in
      let u = begin_write-IsTracked i rest q same v in
      if_both (IsTracked []) (q.max_concurrency == 1) (record begun { loop = awaiting i.call })
        (loop_head begun) (λ _. u)
        (λ _. IsTracked-still [] (loop_head begun) begun (still-loop_head begun) u)

  resume-IsTracked : (loop : Loop) (q : Queue A) → IsTracked [] q → IsTracked [] (resume loop q)
  unfolding resume
  resume-IsTracked idle q v = v
  resume-IsTracked waiting q v = v
  resume-IsTracked acquired q v = dispatch-IsTracked q.queue q refl v
  resume-IsTracked (awaiting c) q v =
      if_both (IsTracked []) (is_running c q.running) q (loop_head q) (λ _. v)
        (λ _. IsTracked-still [] (loop_head q) q (still-loop_head q) v)
