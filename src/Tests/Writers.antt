-- ===== src/Tests/Writers.antt =====
-- A small audit writer queue.
use stellar_payment_api.Base.{
  ℕ, String, ◌+◌, ◌≡◌, ◌≤◌, refl, true, false, none, List, [], ◌∷◌, ◌++◌, map, length, arith, All,
}
use stellar_payment_api.WriterQueue.{
  Item, Lookup, DeadLetter, Queue, Event, enqueues, attempt_ends, resumes, idle, run, create, step,
  enqueue, look_up, admit, refuse, push, process_queue, loop_head, acquire_slot, resume, dispatch,
  begin_write, end_write, attempt_ended, add_to_dlq, make_room, release_slot,
  drain_semaphore_waiters, drain_from, extract, is_running, recover_dead_letter_queue,
  split_eligible, requeue_last_first, failed, written, dropped,
}
use stellar_payment_api.WriterQueue.Sums.{weigh, weigh_below, weigh_done, drops}
use stellar_payment_api.WriterQueue.Slots.{IsValid}
use stellar_payment_api.WriterQueue.Slots.Runs.{Fits, run_slots}
use stellar_payment_api.WriterQueue.History.Runs.{each_call_once, started_in_order}
use stellar_payment_api.WriterQueue.Drains.{rounds, rounds_left, queue_drains}
use stellar_payment_api.WriterQueue.Recovery.{
  writes, recovered_behind, recovered_lost, last_first, split,
}

-- Two places and one slot: the third write is dropped, the first one fails, the second one starts.
abbrev events : List (Event String)
events =
    enqueues "a" false false none
    ∷ enqueues "b" false false none
    ∷ enqueues "c" false false none
    ∷ resumes
    ∷ attempt_ends 0 500 false
    ∷ resumes
    ∷ resumes
    ∷ enqueues "d" false false none
    ∷ enqueues "e" false false none
    ∷ []

abbrev writer : Queue String
writer = run events (create 2 1 0 3 1000)

abbrev all_settle : List (ℕ × stellar_payment_api.WriterQueue.Outcome)
all_settle = (2, dropped) ∷ (0, failed) ∷ []

writer_settled : writer.settled ≡ all_settle
unfolding run create step enqueue look_up admit refuse push process_queue loop_head acquire_slot
    resume dispatch begin_write end_write attempt_ended add_to_dlq make_room release_slot
    drain_semaphore_waiters drain_from extract is_running
writer_settled = refl

events-Fits : All (Fits 1) events
events-Fits = (tt, (tt, (tt, (tt, (tt, (tt, (tt, (tt, (tt, tt)))))))))

run_slots_example : IsValid 1 writer × (length writer.running ≤ 1)
run_slots_example = run_slots 1 events 2 1 0 3 1000 (omega arith) (omega arith) events-Fits

abbrev double : ℕ → ℕ
double c = c + c

each_call_once_example :
    (weigh double Lookup.call writer.lookups
        + weigh double Item.call writer.queue
        + weigh double Item.call writer.running
        + weigh double (λ o. o.0) writer.settled
      ≡ weigh_below double writer.calls)
    × (weigh double (λ c. c) writer.started
        ≡ weigh double Item.call writer.running + weigh_done double writer.settled)
    × (writer.dropped_count ≡ drops writer.settled)
each_call_once_example = each_call_once events 2 1 0 3 1000 double

started_in_order_example : writer.admitted ≡ writer.started ++ map Item.call writer.queue
started_in_order_example = started_in_order events 2 1 0 3 1000

queue_drains_example :
    let p = rounds (rounds_left writer) writer in
    (p.queue ≡ []) × (p.running ≡ []) × (p.loop ≡ idle)
queue_drains_example = queue_drains events 2 1 0 3 1000 1 (omega arith) (omega arith) events-Fits

-- The queue is full again, and the letter of the first write is lost.
recovered_lost_example :
    let (p, recovered) = recover_dead_letter_queue 10 true 600 writer in
    let (taken, kept) = split 10 true 600 writer in
    (p.queue ≡ writer.queue)
    × (p.lookups ≡ writer.lookups)
    × (p.dlq ≡ kept)
    × (recovered ≡ length taken)
    × (p.dropped_count ≡ writer.dropped_count + recovered)
unfolding run create step enqueue look_up admit refuse push process_queue loop_head acquire_slot
    resume dispatch begin_write end_write attempt_ended add_to_dlq make_room release_slot
    drain_semaphore_waiters drain_from extract is_running
recovered_lost_example = recovered_lost 10 600 true writer (refl, tt) (omega arith)

abbrev letters : List (DeadLetter String)
letters =
    record { write = "a"; keyed = false; attempts = 1; next_retry_at = 100 }
    ∷ record { write = "b"; keyed = false; attempts = 1; next_retry_at = 900 }
    ∷ record { write = "c"; keyed = false; attempts = 3; next_retry_at = 200 }
    ∷ []

abbrev failing : Queue String
failing = record (create 5 1 2 3 1000) { dlq = letters }

abbrev last_two : List String
last_two = "c" ∷ "a" ∷ []

recovered_writes : writes (recover_dead_letter_queue 4 false 600 failing).0 ≡ last_two
unfolding create recover_dead_letter_queue split_eligible requeue_last_first enqueue look_up admit
    refuse push process_queue loop_head acquire_slot
recovered_writes = refl

recovered_behind_example :
    let (p, recovered) = recover_dead_letter_queue 4 false 600 failing in
    let (taken, kept) = split 4 false 600 failing in
    (writes p ≡ writes failing ++ last_first taken)
    × (p.dlq ≡ kept)
    × (p.dropped_count ≡ failing.dropped_count)
    × (length p.queue ≡ length failing.queue + recovered)
unfolding create
recovered_behind_example =
    recovered_behind 4 600 false failing (refl, (refl, (refl, tt))) (omega arith)
