-- ===== src/WriterQueue.antt =====
-- The queue in front of the audit writer, backend/src/lib/audit-writer-queue.js.
-- A call of `enqueue` is numbered; the number stands for its promise. `A` are the write functions.
-- The cached records themselves, telemetry and metrics are left out.
use stellar_payment_api.Base.{
  ℕ, zero, suc, ◌+◌, ◌-◌, Bool, true, false, ◌&&◌, ◌||◌, not, Option, none, some, List, [], ◌∷◌,
  ◌++◌, if◌then◌else◌, ltb, leb, ◌==◌, length,
}
pub mod Sums
mod Still
pub mod Slots
pub mod History
pub mod Drains
pub mod Recovery
pub mod Records

-- A call that looks up the cache, before it is queued.
pub record Lookup (A : Type 0) : Type 0 where
  pub call : ℕ
  pub write : A
  pub retries : Option ℕ

pub record Item (A : Type 0) : Type 0 where
  pub call : ℕ
  pub write : A
  pub keyed : Bool
  pub max_retries : ℕ
  pub attempts : ℕ

pub record DeadLetter (A : Type 0) : Type 0 where
  pub write : A
  pub keyed : Bool
  pub attempts : ℕ
  pub next_retry_at : ℕ

-- How a call's promise settles.
pub data Outcome : Type 0 where
  written failed dropped cached : Outcome

-- Where `processQueue` stands: not running; waiting for a slot; with a slot, before `shift`; waiting
-- for the write of a call.
pub data Loop : Type 0 where
  idle waiting acquired : Loop
  awaiting : (call : ℕ) → Loop

-- The lists `admitted`, `started` and `settled` record what has happened, oldest first.
pub record Queue (A : Type 0) : Type 0 where
  pub max_queue_size : ℕ
  pub max_retries : ℕ
  pub max_dlq_size : ℕ
  pub dlq_recovery_interval_ms : ℕ
  pub max_concurrency : ℕ
  pub calls : ℕ
  pub lookups : List (Lookup A)
  pub queue : List (Item A)
  pub running : List (Item A)
  pub dlq : List (DeadLetter A)
  pub loop : Loop
  pub active : ℕ
  pub waiters : ℕ
  pub dropped_count : ℕ
  pub admitted : List ℕ
  pub started : List ℕ
  pub settled : List (ℕ × Outcome)

-- An element by its number, and the others.
unfoldable pub extract : {A : Type 0} → (A → ℕ) → ℕ → List A → Option (A × List A)
extract key k [] = none
extract key k (x ∷ xs) =
    if key x == k
    then some (x, xs)
    else (elim (extract key k xs) [ none ↦ none | some (y, ys) ↦ some (y, x ∷ ys) ])

module _ {A : Type 0} where
  unfoldable pub create : ℕ → ℕ → ℕ → ℕ → ℕ → Queue A
  create size concurrency retries dlq_size interval = record {
    max_queue_size = size;
    max_retries = retries;
    max_dlq_size = dlq_size;
    dlq_recovery_interval_ms = interval;
    max_concurrency = concurrency;
    calls = 0;
    lookups = [];
    queue = [];
    running = [];
    dlq = [];
    loop = idle;
    active = 0;
    waiters = 0;
    dropped_count = 0;
    admitted = [];
    started = [];
    settled = [];
  }

  -- `_drainSemaphoreWaiters`, over the waiters; the loop is the only one that waits.
  unfoldable pub drain_from : ℕ → Queue A → Queue A
  drain_from zero q = record q { waiters = 0 }
  drain_from (suc w) q =
      if ltb q.active q.max_concurrency
      then drain_from w (record q { active = q.active + 1; loop = acquired })
      else record q { waiters = suc w }

  unfoldable pub drain_semaphore_waiters : Queue A → Queue A
  drain_semaphore_waiters q = drain_from q.waiters q

  unfoldable pub release_slot : Queue A → Queue A
  release_slot q = drain_semaphore_waiters (record q { active = q.active - 1 })

  unfoldable pub acquire_slot : Queue A → Queue A
  acquire_slot q =
      if ltb q.active q.max_concurrency
      then record q { active = q.active + 1; loop = acquired }
      else record q { waiters = q.waiters + 1; loop = waiting }

  -- The test of the `while` loop, and the wait for a slot.
  unfoldable pub loop_head : Queue A → Queue A
  loop_head q = elim q.queue [ [] ↦ record q { loop = idle } | _ ∷ _ ↦ acquire_slot q ]

  unfoldable pub process_queue : Queue A → Queue A
  process_queue q = elim q.loop [ idle ↦ loop_head q | _ ↦ q ]

  unfoldable pub refuse : ℕ → Queue A → Queue A
  refuse c q = record q {
    dropped_count = q.dropped_count + 1;
    settled = q.settled ++ ((c, dropped) ∷ []);
  }

  unfoldable pub push : Item A → Queue A → Queue A
  push i q = record q { queue = q.queue ++ (i ∷ []); admitted = q.admitted ++ (i.call ∷ []) }

  -- `attempts` and the retries allowed are fixed when the item is queued.
  abbrev pub new_item : ℕ → A → Bool → Option ℕ → Queue A → Item A
  new_item c w keyed retries q = record {
    call = c;
    write = w;
    keyed = keyed;
    max_retries = elim retries [ none ↦ q.max_retries | some n ↦ n ];
    attempts = 0;
  }

  -- `enqueue` after the lookup.
  unfoldable pub admit : ℕ → A → Bool → Option ℕ → Queue A → Queue A
  admit c w keyed retries q =
      if leb q.max_queue_size (length q.queue)
      then refuse c q
      else process_queue (push (new_item c w keyed retries q) q)

  unfoldable pub look_up : ℕ → A → Option ℕ → Queue A → Queue A
  look_up c w retries q = record q {
    lookups = q.lookups ++ (record { call = c; write = w; retries = retries } ∷ []);
  }

  unfoldable pub enqueue : A → Bool → Bool → Option ℕ → Queue A → Queue A
  enqueue w keyed skip_cache retries q =
      let called = record q { calls = q.calls + 1 } in
      if keyed && not skip_cache
      then look_up q.calls w retries called
      else admit q.calls w keyed retries called

  unfoldable pub lookup_ended : Bool → Option (Lookup A × List (Lookup A)) → Queue A → Queue A
  lookup_ended hit none q = q
  lookup_ended true (some (l, rest)) q = record q {
    lookups = rest;
    settled = q.settled ++ ((l.call, cached) ∷ []);
  }
  lookup_ended false (some (l, rest)) q =
      admit l.call l.write true l.retries (record q { lookups = rest })

  -- `_addToDlq`
  unfoldable pub make_room : ℕ → List (DeadLetter A) → List (DeadLetter A)
  make_room limit [] = []
  make_room limit (d ∷ ds) = if leb limit (length (d ∷ ds)) then ds else d ∷ ds

  abbrev pub letter : ℕ → Item A → Queue A → DeadLetter A
  letter now i q = record {
    write = i.write;
    keyed = i.keyed;
    attempts = (if i.attempts == 0 then 1 else i.attempts);
    next_retry_at = now + q.dlq_recovery_interval_ms;
  }

  unfoldable pub add_to_dlq : ℕ → Item A → Queue A → Queue A
  add_to_dlq now i q = record q { dlq = make_room q.max_dlq_size q.dlq ++ (letter now i q ∷ []) }

  -- A write has ended for good: its promise settles.
  unfoldable pub end_write : Item A → List (Item A) → Outcome → Queue A → Queue A
  end_write i rest outcome q = record q {
    running = rest;
    settled = q.settled ++ ((i.call, outcome) ∷ []);
  }

  -- One attempt of `_executeWithRetry`, and what follows the last one in the promise chain of
  -- `dispatch`: the item's promise settles, and the slot is released.
  unfoldable pub attempt_ended : Bool → ℕ → Option (Item A × List (Item A)) → Queue A → Queue A
  attempt_ended ok now none q = q
  attempt_ended true now (some (i, rest)) q = release_slot (end_write i rest written q)
  attempt_ended false now (some (i, rest)) q =
      let tried = record i { attempts = i.attempts + 1 } in
      if leb tried.attempts tried.max_retries
      then record q { running = tried ∷ rest }
      else release_slot (add_to_dlq now tried (end_write i rest failed q))

  unfoldable pub is_running : ℕ → List (Item A) → Bool
  is_running c [] = false
  is_running c (i ∷ is) = i.call == c || is_running c is

  unfoldable pub begin_write : Item A → List (Item A) → Queue A → Queue A
  begin_write i rest q = record q {
    queue = rest;
    running = i ∷ q.running;
    started = q.started ++ (i.call ∷ []);
  }

  -- `processQueue` with a slot.
  unfoldable pub dispatch : List (Item A) → Queue A → Queue A
  dispatch [] q = loop_head (release_slot q)
  dispatch (i ∷ rest) q =
      let begun = begin_write i rest q in
      if q.max_concurrency == 1 then record begun { loop = awaiting i.call } else loop_head begun

  -- `processQueue` goes on, where nothing that it awaits is pending.
  unfoldable pub resume : Loop → Queue A → Queue A
  resume idle q = q
  resume waiting q = q
  resume acquired q = dispatch q.queue q
  resume (awaiting c) q = if is_running c q.running then q else loop_head q

  -- The eligible dead letters, at most `batch`, and the others.
  unfoldable pub split_eligible :
      ℕ → (DeadLetter A → Bool) → List (DeadLetter A) → List (DeadLetter A) × List (DeadLetter A)
  split_eligible batch eligible [] = ([], [])
  split_eligible zero eligible (d ∷ ds) = ([], d ∷ ds)
  split_eligible (suc batch) eligible (d ∷ ds) =
      let (taken, kept) = split_eligible batch eligible ds in
      let (taken', kept') = split_eligible (suc batch) eligible ds in
      if eligible d then (d ∷ taken, kept) else (taken', d ∷ kept')

  -- The letters are queued again in the reverse order; each with a single attempt.
  unfoldable pub requeue_last_first : List (DeadLetter A) → Queue A → Queue A
  requeue_last_first [] q = q
  requeue_last_first (d ∷ ds) q = enqueue d.write d.keyed false (some 0) (requeue_last_first ds q)

  -- The second component is `recoveredCount`.
  unfoldable pub recover_dead_letter_queue : ℕ → Bool → ℕ → Queue A → Queue A × ℕ
  recover_dead_letter_queue batch force_all now q =
      let (taken, kept) = split_eligible batch (λ d. force_all || leb d.next_retry_at now) q.dlq in
      (requeue_last_first taken (record q { dlq = kept }), length taken)

  unfoldable pub purge_dlq : Queue A → Queue A
  purge_dlq q = record q { dlq = [] }

  -- `none` is the RangeError.
  unfoldable pub set_max_concurrency : ℕ → Queue A → Option (Queue A)
  set_max_concurrency n q =
      if ltb n 1 then none else some (drain_semaphore_waiters (record q { max_concurrency = n }))

  unfoldable pub set_max_retries : ℕ → Queue A → Queue A
  set_max_retries n q = record q { max_retries = n }

-- What happens to a queue: calls of its methods, the end of a lookup or of an attempt to write, and
-- the continuation of `processQueue`.
pub data Event (A : Type 0) : Type 0 where
  enqueues : A → (keyed skip_cache : Bool) → (retries : Option ℕ) → Event A
  lookup_ends : (call : ℕ) (hit : Bool) → Event A
  attempt_ends : (call now : ℕ) (ok : Bool) → Event A
  resumes : Event A
  recovers : (batch now : ℕ) (force_all : Bool) → Event A
  purges : Event A
  sets_max_concurrency sets_max_retries : (n : ℕ) → Event A

module _ {A : Type 0} where
  unfoldable pub step : Event A → Queue A → Queue A
  step (enqueues w keyed skip retries) q = enqueue w keyed skip retries q
  step (lookup_ends c hit) q = lookup_ended hit (extract Lookup.call c q.lookups) q
  step (attempt_ends c now ok) q = attempt_ended ok now (extract Item.call c q.running) q
  step resumes q = resume q.loop q
  step (recovers batch now force_all) q = (recover_dead_letter_queue batch force_all now q).0
  step purges q = purge_dlq q
  step (sets_max_concurrency n) q = elim (set_max_concurrency n q) [ none ↦ q | some q' ↦ q' ]
  step (sets_max_retries n) q = set_max_retries n q

  unfoldable pub run : List (Event A) → Queue A → Queue A
  run [] q = q
  run (e ∷ es) q = run es (step e q)
