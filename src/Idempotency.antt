-- ===== src/Idempotency.antt =====
-- Idempotent POST requests, backend/src/lib/idempotency.js, for one Redis key: all the requests of a
-- merchant with the same Idempotency-Key, interleaved in any order.
-- A request is named by a number, which is also its token (`crypto.randomUUID()`); Redis holds what
-- `JSON.parse` gives of the stored text. Clients run the Lua scripts (`client.eval`).
use stellar_payment_api.Base.{
  ℕ, String, Bool, true, false, ◌&&◌, Option, none, some, List, [], ◌∷◌, if◌then◌else◌, ltb, leb,
  ◌==◌, str_eq,
}
pub mod Turns
pub mod Replays
pub mod Exclusion

-- The stored text: no record at all, this file's records, or one of an older version. `A` are the
-- response bodies; a hash or a status code that is missing is `none`.
pub data Raw (A : Type 0) : Type 0 where
  malformed : Raw A
  inflight : (hash : Option String) (token : ℕ) → Raw A
  completed : (hash : Option String) (status_code : Option ℕ) (response : A) → Raw A
  legacy : (hash : Option String) (response : A) → Raw A

-- What `parseRecord` makes of it.
pub data Record (A : Type 0) : Type 0 where
  in_progress : (hash : Option String) → Record A
  finished : (hash : Option String) (status_code : Option ℕ) (response : A) → Record A

-- What a request is answered without running its handler.
pub data Answer (A : Type 0) : Type 0 where
  payload_mismatch in_flight_conflict : Answer A
  replay : (status_code : ℕ) (response : A) → Answer A

-- Where a request stands.
pub data Pc (A : Type 0) : Type 0 where
  -- Before the first GET, the DEL of a malformed record, the SET NX, and the second GET.
  arriving cleaning locking looking : Pc A
  -- In the handler, with the lock or by failing open.
  running : (locked : Bool) → Pc A
  -- Before the script that stores the response, or that deletes the lock.
  completing : (status_code : ℕ) (response : A) → Pc A
  releasing : Pc A
  answered : Answer A → Pc A
  served : (locked : Bool) (status_code : ℕ) (response : A) → Pc A
  aborted : Pc A

-- What moves a request: Redis replies; Redis fails, after or before it has carried out the command;
-- the handler calls `res.json`; the connection closes.
pub data Event (A : Type 0) : Type 0 where
  redis_replies : Event A
  redis_fails : (carried_out : Bool) → Event A
  handler_replies : (status_code : ℕ) (response : A) → Event A
  connection_closes : Event A

-- `record.hash && record.hash !== payloadHash`
unfoldable pub is_mismatch : Option String → String → Bool
is_mismatch none hash = false
is_mismatch (some h) hash = if str_eq h "" then false else if str_eq h hash then false else true

unfoldable pub status_or_201 : Option ℕ → ℕ
status_or_201 none = 201
status_or_201 (some st) = st

module _ {A : Type 0} where
  unfoldable pub parse_record : Raw A → Option (Record A)
  parse_record malformed = none
  parse_record (inflight h t) = some (in_progress h)
  parse_record (completed h st r) = some (finished h st r)
  parse_record (legacy h r) = some (finished h (some 201) r)

  -- `resolveExisting` and `replay`
  unfoldable pub resolve_existing : Record A → String → Answer A
  resolve_existing (in_progress h) hash =
      if is_mismatch h hash then payload_mismatch else in_flight_conflict
  resolve_existing (finished h st r) hash =
      if is_mismatch h hash then payload_mismatch else replay (status_or_201 st) r

  -- `COMPLETE_LOCK_SCRIPT` and `RELEASE_LOCK_SCRIPT`: only the record with the token is changed.
  unfoldable pub swap : ℕ → Option (Raw A) → Option (Raw A) → Option (Raw A)
  swap token new (some (inflight h t)) = if t == token then new else some (inflight h t)
  swap token new store = store

  -- After the first GET.
  unfoldable pub first_read : String → Option (Raw A) → Pc A
  first_read hash none = locking
  first_read hash (some raw) = elim (parse_record raw) [
    | none ↦ cleaning
    | some r ↦ answered (resolve_existing r hash)
  ]

  -- After the second GET: a winner that has vanished lets the request through without a lock.
  unfoldable pub second_read : String → Option (Raw A) → Pc A
  second_read hash none = running false
  second_read hash (some raw) = elim (parse_record raw) [
    | none ↦ running false
    | some r ↦ answered (resolve_existing r hash)
  ]

  -- SET NX
  unfoldable pub acquire_lock : ℕ → String → Option (Raw A) → Option (Raw A) × Pc A
  acquire_lock token hash none = (some (inflight (some hash) token), running true)
  acquire_lock token hash (some raw) = (some raw, looking)

  -- `idempotentJson`, for a request with the lock.
  unfoldable pub settle : ℕ → A → Pc A
  settle st r = if leb 200 st && ltb st 300 then completing st r else releasing

  -- One step of the request `token`, whose payload has the hash. An event that does not concern it
  -- where it stands changes nothing.
  unfoldable pub move : ℕ → String → Event A → Pc A → Option (Raw A) → Option (Raw A) × Pc A
  move token hash redis_replies arriving store = (store, first_read hash store)
  move token hash (redis_fails c) arriving store = (store, running false)
  move token hash redis_replies cleaning store = (none, locking)
  move token hash (redis_fails true) cleaning store = (none, running false)
  move token hash (redis_fails false) cleaning store = (store, running false)
  move token hash redis_replies locking store = acquire_lock token hash store
  move token hash (redis_fails true) locking store =
      ((acquire_lock token hash store).0, running false)
  move token hash (redis_fails false) locking store = (store, running false)
  move token hash redis_replies looking store = (store, second_read hash store)
  move token hash (redis_fails c) looking store = (store, running false)
  move token hash (handler_replies st r) (running true) store = (store, settle st r)
  move token hash connection_closes (running true) store = (store, releasing)
  move token hash (handler_replies st r) (running false) store = (store, served false st r)
  move token hash connection_closes (running false) store = (store, aborted)
  move token hash redis_replies (completing st r) store =
      (swap token (some (completed (some hash) (some st) r)) store, served true st r)
  move token hash (redis_fails true) (completing st r) store =
      (swap token (some (completed (some hash) (some st) r)) store, served true st r)
  move token hash (redis_fails false) (completing st r) store = (store, served true st r)
  move token hash redis_replies releasing store = (swap token none store, aborted)
  move token hash (redis_fails true) releasing store = (swap token none store, aborted)
  move token hash (redis_fails false) releasing store = (store, aborted)
  move token hash e pc store = (store, pc)

  abbrev pub update : (ℕ → Pc A) → ℕ → Pc A → ℕ → Pc A
  update pcs i pc j = if i == j then pc else pcs j

-- The key and the requests.
pub record System (A : Type 0) : Type 0 where
  pub store : Option (Raw A)
  pub pc : ℕ → Pc A

-- A request moves, or the record's time to live runs out.
pub data Action (A : Type 0) : Type 0 where
  request : (i : ℕ) → Event A → Action A
  expires : Action A

module _ {A : Type 0} (hash : ℕ → String) where
  unfoldable pub act : Action A → System A → System A
  act (request i e) s =
      let (store, pc) = move i (hash i) e (s.pc i) s.store in
      record { store = store; pc = update s.pc i pc }
  act expires s = record s { store = none }

  unfoldable pub act_all : List (Action A) → System A → System A
  act_all [] s = s
  act_all (a ∷ as') s = act_all as' (act a s)

abbrev pub fresh : {A : Type 0} → System A
fresh = record { store = none; pc = λ _. arriving }
