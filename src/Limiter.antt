-- ===== src/Limiter.antt =====
-- The per-process semaphore with a bounded FIFO queue:
-- backend/src/lib/stellar/horizon-client/concurrency-limiter.js.
-- A promise that `acquire` makes is named by a number. `held` lists the release closures whose
-- `released` flag is still false.
use stellar_payment_api.Base.{
  ℕ, suc, ◌-◌, ◌+◌, Bool, true, false, List, [], ◌∷◌, ◌++◌, length, ltb, leb, ◌==◌, if◌then◌else◌,
  ◌||◌,
}
pub mod Numbers
pub mod Invariant
pub mod Laws

pub record Limiter : Type 0 where
  pub max_concurrent : ℕ
  pub max_queue : ℕ
  pub queue_timeout_ms : ℕ
  pub active : ℕ
  pub queue : List ℕ
  pub held : List ℕ
  -- The number of the next call of `acquire`.
  pub next : ℕ

pub data Acquired : Type 0 where
  granted : Acquired
  queue_full : Acquired
  waiting : (timer : Bool) → Acquired

abbrev pub contains : ℕ → List ℕ → Bool
contains a [] = false
contains a (x ∷ xs) = a == x || contains a xs

-- `queue.splice(queue.indexOf(w), 1)`, and the `released = true` of one closure.
abbrev pub remove : ℕ → List ℕ → List ℕ
remove a [] = []
remove a (x ∷ xs) = if a == x then xs else x ∷ remove a xs

-- The constructor, after `resolveConcurrencyOptions`.
pub create : (max_concurrent max_queue queue_timeout_ms : ℕ) → Limiter
create m q t = record {
  max_concurrent = m;
  max_queue = q;
  queue_timeout_ms = t;
  active = 0;
  queue = [];
  held = [];
  next = 0;
}

-- The promise is the number `l.next`: settled at once with a release closure, rejected at once,
-- or queued, with a timer if the time-out is positive.
pub acquire : Limiter → Limiter × Acquired
acquire l =
    if ltb l.active l.max_concurrent
    then (record l { active = l.active + 1; held = l.next ∷ l.held; next = suc l.next }, granted)
    else if leb l.max_queue (length l.queue)
    then (record l { next = suc l.next }, queue_full)
    else (
      record l { queue = l.queue ++ l.next ∷ []; next = suc l.next },
      waiting (ltb 0 l.queue_timeout_ms),
    )

-- `_releaseSlot`: the slot goes to the waiter that has waited longest, if there is one.
release_slot_for : List ℕ → Limiter → Limiter
release_slot_for (w ∷ ws) l = record l { queue = ws; held = w ∷ l.held }
release_slot_for [] l = record l { active = l.active - 1 }

release_slot : Limiter → Limiter
unfolding release_slot_for
release_slot l = release_slot_for l.queue l

-- The closure of `_makeRelease` for the promise `h`: it frees its slot at its first call only.
pub release : ℕ → Limiter → Limiter × Bool
unfolding release_slot
release h l =
    if contains h l.held
    then (release_slot (record l { held = remove h l.held }), true)
    else (l, false)

-- The timer's callback: the waiter leaves the queue and its promise is rejected.
pub expire : ℕ → Limiter → Limiter
expire w l = if contains w l.queue then record l { queue = remove w l.queue } else l
