-- ===== src/Tests/Locks.antt =====
-- Idempotent requests: posts with the same key.
use stellar_payment_api.Base.{
  ℕ, zero, suc, String, some, List, [], ◌∷◌, ◌++◌, ◌≡◌, refl, true, false, str_eq, arith,
}
use stellar_payment_api.Idempotency.{
  answered, completing, in_flight_conflict, payload_mismatch, redis_replies, redis_fails,
  handler_replies, Action, request, act_all, fresh, inflight, Event, resolve_existing, is_mismatch,
  parse_record, first_read, second_read, acquire_lock, settle, swap, move, act, status_or_201,
}
use stellar_payment_api.Idempotency.Replays.{Ran, replayed_response}
use stellar_payment_api.Idempotency.Exclusion.{foreign_lock_kept, holds, take_turns, locked_alone}

abbrev hashes : ℕ → String
hashes zero = "b0"
hashes (suc i) = "a1"

hashes_full : (i : ℕ) → str_eq (hashes i) "" ≡ false
hashes_full zero = refl
hashes_full (suc i) = refl

-- The first request locks the key, loses Redis' reply to its completion, and is served.
abbrev created : List (Action String)
created =
    request 1 redis_replies
    ∷ request 1 redis_replies
    ∷ request 1 (handler_replies 201 "created")
    ∷ request 1 (redis_fails true)
    ∷ []

abbrev repeated : List (Action String)
repeated = created ++ (request 2 redis_replies ∷ [])

replayed_response_example : Ran hashes "a1" 201 "created" (act_all hashes repeated fresh)
unfolding act_all act move first_read acquire_lock settle swap parse_record resolve_existing
    is_mismatch status_or_201
replayed_response_example = replayed_response hashes hashes_full repeated 2 201 "created" refl

-- Another payload under the same key, and a duplicate while the first one runs.
other_payload :
    (act_all hashes (created ++ (request 0 redis_replies ∷ [])) fresh).pc 0
    ≡ answered payload_mismatch
unfolding act_all act move first_read acquire_lock settle swap parse_record resolve_existing
    is_mismatch
other_payload = refl

abbrev raced : List (ℕ × Event String)
raced =
    (2, redis_replies)
    ∷ (1, redis_replies)
    ∷ (1, redis_replies)
    ∷ (2, redis_replies)
    ∷ (2, redis_replies)
    ∷ []

conflict : (take_turns hashes raced fresh).pc 2 ≡ answered in_flight_conflict
unfolding take_turns act move first_read second_read acquire_lock parse_record resolve_existing
    is_mismatch
conflict = refl

abbrev winner : ℕ
winner = 1

locked_alone_example :
    (winner ≡ 1) × ((take_turns hashes raced fresh).store ≡ some (inflight (some "a1") winner))
unfolding take_turns act move first_read second_read acquire_lock parse_record resolve_existing
    is_mismatch holds
locked_alone_example = locked_alone hashes raced 1 1 refl refl

abbrev response : String
response = "created"

-- A completion whose lock has expired and gone to another request.
foreign_lock_kept_example :
    (move 1 "a1" redis_replies (completing 201 response) (some (inflight (some "a1") 2))).0
    ≡ some (inflight (some "a1") 2)
foreign_lock_kept_example =
    foreign_lock_kept 1 2 "a1" (some "a1") redis_replies (completing 201 response)
      (some (inflight (some "a1") 2)) (λ bad. ground (arith, bad)) (omega arith) refl
