-- ===== src/WriterQueue/Recovery.antt =====
-- What the recovery of dead letters does with room in the queue, and without.
use mathlib.Core.List.{append_assoc, append-nil, map-append}
use stellar_payment_api.Base.{
  ℕ, zero, suc, ◌+◌, ◌≤◌, Bool, false, ◌||◌, some, List, [], ◌∷◌, ◌++◌, map, ◌≡◌, refl, sym, ap,
  subst, ◌∙◌, leb, length, length-append, arith, All, if_both,
}
use stellar_payment_api.WriterQueue.{
  Item, DeadLetter, Queue, process_queue, admit, refuse, push, new_item, enqueue, split_eligible,
  requeue_last_first, recover_dead_letter_queue,
}
use stellar_payment_api.WriterQueue.Still.{still-process_queue}

module _ {A : Type 0} where
  abbrev pub Unkeyed : DeadLetter A → Type 0
  Unkeyed d = d.keyed ≡ false

  -- The list that a letter's write ends, after those that follow it.
  unfoldable pub last_first : List (DeadLetter A) → List A
  last_first [] = []
  last_first (d ∷ ds) = last_first ds ++ (d.write ∷ [])

  abbrev pub writes : Queue A → List A
  writes q = map Item.write q.queue

  refused :
      (d : DeadLetter A) (q : Queue A)
      → Unkeyed d
      → q.max_queue_size ≤ length q.queue
      → enqueue d.write d.keyed false (some 0) q ≡ refuse q.calls (record q { calls = q.calls + 1 })
  unfolding enqueue admit
  refused d q plain full = ground arith

  admitted :
      (d : DeadLetter A) (q : Queue A)
      → Unkeyed d
      → suc (length q.queue) ≤ q.max_queue_size
      → enqueue d.write d.keyed false (some 0) q
        ≡ process_queue
            (push (new_item q.calls d.write false (some 0) q) (record q { calls = q.calls + 1 }))
  unfolding enqueue admit
  admitted d q plain room = ground arith

  -- What `q` has become when the letters are queued behind it.
  record IsRequeued (ds : List (DeadLetter A)) (q p : Queue A) : Type 0 where
    behind : writes p ≡ writes q ++ last_first ds
    longer : length p.queue ≡ length q.queue + length ds
    size : p.max_queue_size ≡ q.max_queue_size
    letters : p.dlq ≡ q.dlq
    drops : p.dropped_count ≡ q.dropped_count

  push-IsRequeued :
      (d : DeadLetter A) (ds : List (DeadLetter A)) (q p : Queue A)
      → IsRequeued ds q p
      → IsRequeued
          (d ∷ ds)
          q
          (push (new_item p.calls d.write false (some 0) p) (record p { calls = p.calls + 1 }))
  unfolding push last_first
  push-IsRequeued d ds q p v =
      let i = new_item p.calls d.write false (some 0) p in
      record {
        behind =
            map-append Item.write p.queue (i ∷ [])
            ∙ ap (λ l. l ++ (d.write ∷ [])) v.behind
            ∙ append_assoc (writes q) (last_first ds) (d.write ∷ []);
        longer = omega (arith, v.longer, length-append p.queue (i ∷ []));
        size = v.size;
        letters = v.letters;
        drops = v.drops;
      }

  process_queue-IsRequeued :
      (ds : List (DeadLetter A)) (q p : Queue A)
      → IsRequeued ds q p
      → IsRequeued ds q (process_queue p)
  process_queue-IsRequeued ds q p v =
      let same = still-process_queue p in
      record {
        behind = ap writes same ∙ v.behind;
        longer = ap (λ r. length r.queue) same ∙ v.longer;
        size = ap Queue.max_queue_size same ∙ v.size;
        letters = ap Queue.dlq same ∙ v.letters;
        drops = ap Queue.dropped_count same ∙ v.drops;
      }

  requeue-IsRequeued :
      (ds : List (DeadLetter A)) (q : Queue A)
      → All Unkeyed ds
      → length q.queue + length ds ≤ q.max_queue_size
      → IsRequeued ds q (requeue_last_first ds q)
  unfolding requeue_last_first last_first
  requeue-IsRequeued [] q plain room = record {
    behind = sym (append-nil (writes q));
    longer = omega arith;
    size = refl;
    letters = refl;
    drops = refl;
  }
  requeue-IsRequeued (d ∷ ds) q (plain, plains) room =
      let p = requeue_last_first ds q in
      let v = requeue-IsRequeued ds q plains (omega (arith, room)) in
      let pushed =
        push (new_item p.calls d.write false (some 0) p) (record p { calls = p.calls + 1 }) in
      subst (IsRequeued (d ∷ ds) q)
        (sym (admitted d p plain (omega (arith, room, v.longer, v.size))))
        (process_queue-IsRequeued (d ∷ ds) q pushed (push-IsRequeued d ds q p v))

  record IsLost (ds : List (DeadLetter A)) (q p : Queue A) : Type 0 where
    kept : p.queue ≡ q.queue
    size : p.max_queue_size ≡ q.max_queue_size
    letters : p.dlq ≡ q.dlq
    searches : p.lookups ≡ q.lookups
    drops : p.dropped_count ≡ q.dropped_count + length ds

  requeue-IsLost :
      (ds : List (DeadLetter A)) (q : Queue A)
      → All Unkeyed ds
      → q.max_queue_size ≤ length q.queue
      → IsLost ds q (requeue_last_first ds q)
  unfolding requeue_last_first refuse
  requeue-IsLost [] q plain full = record {
    kept = refl;
    size = refl;
    letters = refl;
    searches = refl;
    drops = omega arith;
  }
  requeue-IsLost (d ∷ ds) q (plain, plains) full =
      let p = requeue_last_first ds q in
      let v = requeue-IsLost ds q plains full in
      let same = refused d p plain (omega (arith, full, v.size, ap length v.kept)) in
      subst (IsLost (d ∷ ds) q) (sym same) (record {
        kept = v.kept;
        size = v.size;
        letters = v.letters;
        searches = v.searches;
        drops = omega (arith, v.drops);
      })

  -- What the split takes: at most a batch, all eligible.
  split-All :
      (P : DeadLetter A → Type 0) (batch : ℕ) (eligible : DeadLetter A → Bool)
      (ds : List (DeadLetter A))
      → All P ds
      → All P (split_eligible batch eligible ds).0
  unfolding split_eligible
  split-All P batch eligible [] all = all
  split-All P zero eligible (d ∷ ds) all = tt
  split-All P (suc batch) eligible (d ∷ ds) (p, all) =
      let (taken, kept) = split_eligible batch eligible ds in
      let (taken', kept') = split_eligible (suc batch) eligible ds in
      if_both (λ (r : List (DeadLetter A) × List (DeadLetter A)). All P r.0) (eligible d)
        (d ∷ taken, kept) (taken', d ∷ kept') (λ _. (p, split-All P batch eligible ds all))
        (λ _. split-All P (suc batch) eligible ds all)

  split-batch :
      (batch : ℕ) (eligible : DeadLetter A → Bool) (ds : List (DeadLetter A))
      → length (split_eligible batch eligible ds).0 ≤ batch
  unfolding split_eligible
  split-batch batch eligible [] = omega arith
  split-batch zero eligible (d ∷ ds) = omega arith
  split-batch (suc batch) eligible (d ∷ ds) =
      ground (arith, split-batch batch eligible ds, split-batch (suc batch) eligible ds)

  -- The letters that a recovery takes and leaves.
  abbrev pub split : ℕ → Bool → ℕ → Queue A → List (DeadLetter A) × List (DeadLetter A)
  split batch force_all now q =
      split_eligible batch (λ d. force_all || leb d.next_retry_at now) q.dlq

  -- Where the dead letters have no cache key and the queue has room for a batch: a recovery puts the
  -- writes of the letters that it takes behind the queued ones, the letter that died last first,
  -- drops no call, leaves the other letters, and counts what it has queued.
  pub recovered_behind :
      (batch now : ℕ) (force_all : Bool) (q : Queue A)
      → All Unkeyed q.dlq
      → length q.queue + batch ≤ q.max_queue_size
      → let (p, recovered) = recover_dead_letter_queue batch force_all now q in
        let (taken, kept) = split batch force_all now q in
        (writes p ≡ writes q ++ last_first taken)
        × (p.dlq ≡ kept)
        × (p.dropped_count ≡ q.dropped_count)
        × (length p.queue ≡ length q.queue + recovered)
  unfolding recover_dead_letter_queue
  recovered_behind batch now force_all q plain room =
      let eligible : DeadLetter A → Bool = λ d. force_all || leb d.next_retry_at now in
      let (taken, kept) = split batch force_all now q in
      let v =
        requeue-IsRequeued taken (record q { dlq = kept })
          (split-All Unkeyed batch eligible q.dlq plain)
          (omega (arith, room, split-batch batch eligible q.dlq)) in
      (v.behind, v.letters, v.drops, v.longer)

  -- Where the dead letters have no cache key and the queue is full: a recovery takes the letters out
  -- of the dead letter queue and queues none of them. Every one is counted as recovered and as
  -- dropped, and is in no list any more.
  pub recovered_lost :
      (batch now : ℕ) (force_all : Bool) (q : Queue A)
      → All Unkeyed q.dlq
      → q.max_queue_size ≤ length q.queue
      → let (p, recovered) = recover_dead_letter_queue batch force_all now q in
        let (taken, kept) = split batch force_all now q in
        (p.queue ≡ q.queue)
        × (p.lookups ≡ q.lookups)
        × (p.dlq ≡ kept)
        × (recovered ≡ length taken)
        × (p.dropped_count ≡ q.dropped_count + recovered)
  unfolding recover_dead_letter_queue
  recovered_lost batch now force_all q plain full =
      let eligible : DeadLetter A → Bool = λ d. force_all || leb d.next_retry_at now in
      let (taken, kept) = split batch force_all now q in
      let v =
        requeue-IsLost taken (record q { dlq = kept })
          (split-All Unkeyed batch eligible q.dlq plain) full in
      (v.kept, v.searches, v.letters, refl, v.drops)
