-- ===== src/Limiter/Invariant.antt =====
-- What holds of a limiter between any two calls, and that every call keeps it.
use stellar_payment_api.Base.{
  ℕ, suc, ◌+◌, ◌≤◌, ◌<◌, ◌≡◌, refl, true, false, List, [], ◌∷◌, ◌++◌, length, length-append, ltb,
  leb, ◌⊎◌, inl, inr, arith, Bool-cases, ap, subst,
}
use stellar_payment_api.Limiter.{
  Limiter, contains, remove, create, acquire, release_slot_for, release, expire,
}
use stellar_payment_api.Limiter.Numbers.{
  Distinct, Below, contains-append, Below-suc, not-contains_of_Below, length-remove, Below-remove,
  Distinct-remove_left, Distinct-remove_right, Distinct-insert, Distinct-snoc, Below-snoc,
}

pub record IsValid (l : Limiter) : Type 0 where
  pub bounded : l.active ≤ l.max_concurrent
  pub waiters : length l.queue ≤ l.max_queue
  pub slots : length l.held ≡ l.active
  pub busy : (l.queue ≡ []) ⊎ (l.active ≡ l.max_concurrent)
  pub held_below : Below l.next l.held
  pub all_distinct : Distinct (l.queue ++ l.held)
  pub queue_below : Below l.next l.queue

pub create-IsValid : (m q t : ℕ) → IsValid (create m q t)
unfolding create
create-IsValid m q t = record {
  bounded = omega arith;
  waiters = omega arith;
  slots = refl;
  busy = inl refl;
  held_below = tt;
  all_distinct = tt;
  queue_below = tt;
}

next_absent : (l : Limiter) → IsValid l → contains l.next (l.queue ++ l.held) ≡ false
next_absent l v = ground (
  arith,
  contains-append l.next l.queue l.held,
  not-contains_of_Below l.next l.queue v.queue_below,
  not-contains_of_Below l.next l.held v.held_below,
)

grant-IsValid :
    (l : Limiter)
    → IsValid l
    → l.active < l.max_concurrent
    → IsValid (record l { active = l.active + 1; held = l.next ∷ l.held; next = suc l.next })
grant-IsValid l v free = record {
  bounded = omega arith;
  waiters = v.waiters;
  slots = omega arith;
  busy = ground arith;
  held_below = (omega arith, Below-suc l.next l.held v.held_below);
  all_distinct = Distinct-insert l.next l.queue l.held v.all_distinct (next_absent l v);
  queue_below = Below-suc l.next l.queue v.queue_below;
}

enqueue-IsValid :
    (l : Limiter)
    → IsValid l
    → l.max_concurrent ≤ l.active
    → length l.queue < l.max_queue
    → IsValid (record l { queue = l.queue ++ l.next ∷ []; next = suc l.next })
enqueue-IsValid l v full room = record {
  bounded = v.bounded;
  waiters = omega (arith, length-append {0} l.queue (l.next ∷ []));
  slots = v.slots;
  busy = inr (omega arith);
  held_below = Below-suc l.next l.held v.held_below;
  all_distinct = Distinct-snoc l.next l.queue l.held v.all_distinct (next_absent l v);
  queue_below = Below-snoc l.next l.queue v.queue_below;
}

pub acquire-IsValid : (l : Limiter) → IsValid l → IsValid (acquire l).0
unfolding acquire
acquire-IsValid l v = elim (Bool-cases (ltb l.active l.max_concurrent)) [
  | inl free ↦ rw (free, acquire) (grant-IsValid l v (ground arith))
  | inr full ↦ elim (Bool-cases (leb l.max_queue (length l.queue))) [
    | inl over ↦
        rw (full, over, acquire)
          (record {
            bounded = v.bounded;
            waiters = v.waiters;
            slots = v.slots;
            busy = v.busy;
            held_below = Below-suc l.next l.held v.held_below;
            all_distinct = v.all_distinct;
            queue_below = Below-suc l.next l.queue v.queue_below;
          })
    | inr room ↦ rw (full, room, acquire) (enqueue-IsValid l v (ground arith) (ground arith))
  ]
]

-- The slot of the closure `h` goes to the first waiter, or is free.
free_slot-IsValid :
    (h : ℕ) (q : List ℕ) (l : Limiter)
    → l.queue ≡ q
    → contains h l.held ≡ true
    → IsValid l
    → IsValid (release_slot_for q (record l { held = remove h l.held }))
unfolding release_slot_for
free_slot-IsValid h [] l e c v = record {
  bounded = omega arith;
  waiters = v.waiters;
  slots = omega (arith, length-remove h l.held c);
  busy = inl e;
  held_below = Below-remove l.next h l.held v.held_below;
  all_distinct = Distinct-remove_right h l.queue l.held v.all_distinct;
  queue_below = v.queue_below;
}
free_slot-IsValid h (w ∷ ws) l e c v =
    let d : Distinct (w ∷ ws ++ l.held) = subst (λ q. Distinct (q ++ l.held)) e v.all_distinct in
    let b : Below l.next (w ∷ ws) = subst (Below l.next) e v.queue_below in
    let n : length l.queue ≡ suc (length ws) = ap length e in
    let d' : Distinct (w ∷ ws ++ remove h l.held) = Distinct-remove_right h (w ∷ ws) l.held d in
    record {
      bounded = v.bounded;
      waiters = omega arith;
      slots = omega (arith, length-remove h l.held c);
      busy = ground arith;
      held_below = (b.0, Below-remove l.next h l.held v.held_below);
      all_distinct = Distinct-insert w ws (remove h l.held) d'.1 d'.0;
      queue_below = b.1;
    }

pub release-IsValid : (h : ℕ) (l : Limiter) → IsValid l → IsValid (release h l).0
unfolding release
release-IsValid h l v = elim (Bool-cases (contains h l.held)) [
  | inl mine ↦ rw (mine, release) (free_slot-IsValid h l.queue l refl mine v)
  | inr done ↦ rw (done, release) v
]

pub expire-IsValid : (w : ℕ) (l : Limiter) → IsValid l → IsValid (expire w l)
unfolding expire
expire-IsValid w l v = elim (Bool-cases (contains w l.queue)) [
  | inl queued ↦
      rw (queued, expire)
        (record {
          bounded = v.bounded;
          waiters = omega (arith, length-remove w l.queue queued);
          slots = v.slots;
          busy = ground arith;
          held_below = v.held_below;
          all_distinct = Distinct-remove_left w l.queue l.held v.all_distinct;
          queue_below = Below-remove l.next w l.queue v.queue_below;
        })
  | inr gone ↦ rw (gone, expire) v
]
