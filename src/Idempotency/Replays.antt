-- ===== src/Idempotency/Replays.antt =====
-- Where a replayed response comes from, in any interleaving, with failures and expiries of Redis.
use stellar_payment_api.Base.{
  ℕ, String, Bool, true, false, ◌&&◌, Option, none, some, List, [], ◌∷◌, ltb, leb, ◌≡◌, ◌≢◌, refl,
  sym, ap, ◌∙◌, subst, ◌⊎◌, inl, inr, arith, str_eq, eq_iff,
}
use stellar_payment_api.Idempotency.{
  Raw, inflight, completed, legacy, replay, Pc, completing, answered, served, Event, parse_record,
  is_mismatch, status_or_201, resolve_existing, swap, first_read, second_read, acquire_lock, settle,
  move, System, Action, request, expires, act, act_all, fresh,
}
use stellar_payment_api.Idempotency.Turns.{act_self, act-cases}

abbrev pub Succeeds : ℕ → Type 0
Succeeds st = (leb 200 st && ltb st 300) ≡ true

module _ {A : Type 0} where
  -- What a move may write.
  move_writes :
      (t : ℕ) (h : String) (e : Event A) (pc : Pc A) (store : Option (Raw A))
      → ((move t h e pc store).0 ≡ store)
        ⊎ ((move t h e pc store).0 ≡ none)
        ⊎ ((move t h e pc store).0 ≡ some (inflight (some h) t))
        ⊎ ((st : ℕ) × (r : A) × (pc ≡ completing st r)
            × ((move t h e pc store).1 ≡ served true st r)
            × ((move t h e pc store).0 ≡ some (completed (some h) (some st) r)))
  unfolding move acquire_lock swap
  move_writes t h e pc store = ground arith

  move-served :
      (t : ℕ) (h : String) (e : Event A) (l : Bool) (st : ℕ) (r : A) (store : Option (Raw A))
      → move t h e (served l st r) store ≡ (store, served l st r)
  unfolding move
  move-served t h e l st r store = ground arith

  move_completing :
      (t : ℕ) (h : String) (e : Event A) (pc : Pc A) (store : Option (Raw A)) (st : ℕ) (r : A)
      → (move t h e pc store).1 ≡ completing st r
      → (pc ≡ completing st r) ⊎ Succeeds st
  unfolding move acquire_lock settle first_read second_read
  move_completing t h e pc store st r k = ground arith

  -- A replay comes from a record in Redis with the request's hash, or with none.
  move_replays :
      (t : ℕ) (h : String) (e : Event A) (pc : Pc A) (store : Option (Raw A)) (st : ℕ) (r : A)
      → (move t h e pc store).1 ≡ answered (replay st r)
      → (pc ≡ answered (replay st r))
        ⊎ ((k : Option String) × (c : Option ℕ) × (store ≡ some (completed k c r))
            × (status_or_201 c ≡ st)
            × (is_mismatch k h ≡ false))
        ⊎ ((k : Option String) × (store ≡ some (legacy k r)))
  unfolding move acquire_lock settle first_read second_read parse_record resolve_existing
  move_replays t h e pc store st r k = ground arith

-- A record with a hash that is not empty is replayed only for that hash.
same_payload : (k h : String) → str_eq k "" ≡ false → is_mismatch (some k) h ≡ false → k ≡ h
unfolding is_mismatch
same_payload k h full passes = ground (arith, eq_iff k h)

module _ {A : Type 0} (hash : ℕ → String) where
  -- Some request with this hash has run its handler with this successful response.
  abbrev pub Ran : String → ℕ → A → System A → Type 0
  Ran h st r s = (i : ℕ) × (s.pc i ≡ served true st r) × (hash i ≡ h) × Succeeds st

module _ {A : Type 0} (hash : ℕ → String) (hashed : (i : ℕ) → str_eq (hash i) "" ≡ false) where
  record IsFaithful (s : System A) : Type 0 where
    stored :
        (h : Option String) (c : Option ℕ) (r : A)
        → s.store ≡ some (completed h c r)
        → (k : String) × (st : ℕ) × (h ≡ some k) × (c ≡ some st) × Ran hash k st r s
    current : (h : Option String) (r : A) → s.store ≢ some (legacy h r)
    ready : (i st : ℕ) (r : A) → s.pc i ≡ completing st r → Succeeds st
    faithful : (j st : ℕ) (r : A) → s.pc j ≡ answered (replay st r) → Ran hash (hash j) st r s

  -- What has been served stays so.
  update_served :
      (i k : ℕ) (e : Event A) (s : System A) (st : ℕ) (r : A)
      → s.pc k ≡ served true st r
      → (act hash (request i e) s).pc k ≡ served true st r
  unfolding act
  update_served i k e s st r there =
      ground (arith, there, move-served i (hash i) e true st r s.store)

  Ran-act :
      (h : String) (st : ℕ) (r : A) (a : Action A) (s : System A)
      → Ran hash h st r s
      → Ran hash h st r (act hash a s)
  unfolding act
  Ran-act h st r expires s ran = ran
  Ran-act h st r (request i e) s (k, there, same, ok) =
      (k, update_served i k e s st r there, same, ok)

  -- The record that a move leaves is one that was there, or the response it has just served.
  stored-act :
      (i : ℕ) (e : Event A) (s : System A) (h : Option String) (c : Option ℕ) (r : A)
      → IsFaithful s
      → (act hash (request i e) s).store ≡ some (completed h c r)
      → (k : String) × (st : ℕ) × (h ≡ some k)
        × (c ≡ some st)
        × Ran hash k st r (act hash (request i e) s)
  unfolding act
  stored-act i e s h c r v kept = elim (move_writes i (hash i) e (s.pc i) s.store) [
    | inl same ↦
        let (k, st, hk, cst, ran) = v.stored h c r (sym same ∙ kept) in
        (k, st, hk, cst, Ran-act k st r (request i e) s ran)
    | inr (inl gone) ↦ ground (arith, gone, kept)
    | inr (inr (inl locked)) ↦ ground (arith, locked, kept)
    | inr (inr (inr (st, x, was, now, wrote))) ↦ (
      hash i,
      st,
      ground (arith, wrote, kept),
      ground (arith, wrote, kept),
      (i, ground (arith, wrote, kept, act_self hash i e s, now), refl, v.ready i st x was),
    )
  ]

  Ran-same :
      (h k : String) (st code : ℕ) (r : A) (s : System A)
      → h ≡ k
      → st ≡ code
      → Ran hash h st r s
      → Ran hash k code r s
  Ran-same h k st code r s same_hash same_code (i, there, hashes, ok) = (
    i,
    ground (arith, there, same_code),
    ground (arith, hashes, same_hash),
    subst Succeeds same_code ok,
  )

  replayed-act :
      (i : ℕ) (e : Event A) (s : System A) (st : ℕ) (r : A)
      → IsFaithful s
      → (move i (hash i) e (s.pc i) s.store).1 ≡ answered (replay st r)
      → Ran hash (hash i) st r s
  unfolding status_or_201
  replayed-act i e s st r v now = elim (move_replays i (hash i) e (s.pc i) s.store st r now) [
    | inl before ↦ v.faithful i st r before
    | inr (inl (k, c, there, code, passes)) ↦
        let (h, st', hk, cst, ran) = v.stored k c r there in
        Ran-same h (hash i) st' st r s ground
          (arith, same_payload (hash ran.0) (hash i) (hashed ran.0), ran.2, hk) ground
          (arith, code, cst) ran
    | inr (inr (k, there)) ↦ absurd (v.current k r there)
  ]

  ready-act :
      (i j : ℕ) (e : Event A) (s : System A) (st : ℕ) (r : A)
      → IsFaithful s
      → (act hash (request i e) s).pc j ≡ completing st r
      → Succeeds st
  ready-act i j e s st r v at = elim (act-cases hash i j e s) [
    | inl (same, now) ↦ elim (move_completing i (hash i) e (s.pc i) s.store st r (sym now ∙ at)) [
      | inl before ↦ v.ready i st r before
      | inr ok ↦ ok
    ]
    | inr still ↦ v.ready j st r (sym still ∙ at)
  ]

  faithful-act :
      (i j : ℕ) (e : Event A) (s : System A) (st : ℕ) (r : A)
      → IsFaithful s
      → (act hash (request i e) s).pc j ≡ answered (replay st r)
      → Ran hash (hash j) st r s
  faithful-act i j e s st r v at = elim (act-cases hash i j e s) [
    | inl (same, now) ↦
        Ran-same (hash i) (hash j) st st r s (ap hash same) refl
          (replayed-act i e s st r v (sym now ∙ at))
    | inr still ↦ v.faithful j st r (sym still ∙ at)
  ]

  current-act :
      (i : ℕ) (e : Event A) (s : System A) (h : Option String) (r : A)
      → IsFaithful s
      → (act hash (request i e) s).store ≢ some (legacy h r)
  unfolding act
  current-act i e s h r v kept = elim (move_writes i (hash i) e (s.pc i) s.store) [
    | inl same ↦ v.current h r (sym same ∙ kept)
    | inr (inl gone) ↦ ground (arith, gone, kept)
    | inr (inr (inl locked)) ↦ ground (arith, locked, kept)
    | inr (inr (inr (st, x, was, now, wrote))) ↦ ground (arith, wrote, kept)
  ]

  act-IsFaithful : (a : Action A) (s : System A) → IsFaithful s → IsFaithful (act hash a s)
  unfolding act
  act-IsFaithful expires s v = record {
    stored = λ h c r kept. ground (arith, kept);
    current = λ h r kept. ground (arith, kept);
    ready = v.ready;
    faithful = v.faithful;
  }
  act-IsFaithful (request i e) s v = record {
    stored = λ h c r. stored-act i e s h c r v;
    current = λ h r. current-act i e s h r v;
    ready = λ j st r. ready-act i j e s st r v;
    faithful = λ j st r at. Ran-act (hash j) st r (request i e) s (faithful-act i j e s st r v at);
  }

  act_all-IsFaithful :
      (actions : List (Action A)) (s : System A)
      → IsFaithful s
      → IsFaithful (act_all hash actions s)
  unfolding act_all
  act_all-IsFaithful [] s v = v
  act_all-IsFaithful (a ∷ rest) s v = act_all-IsFaithful rest (act hash a s) (act-IsFaithful a s v)

  fresh-IsFaithful : IsFaithful fresh
  fresh-IsFaithful = record {
    stored = λ h c r kept. ground (arith, kept);
    current = λ h r kept. ground (arith, kept);
    ready = λ i st r at. ground (arith, at);
    faithful = λ j st r at. ground (arith, at);
  }

  -- From a key with no record, however the requests interleave, fail or abort, and whenever Redis
  -- fails or lets the record expire: a request that is answered with a replayed response has been
  -- preceded by a request with the same payload hash, which held the lock and was served by its
  -- handler with exactly this status code and body, and the status code is a 2xx one. The hashes
  -- are not empty.
  pub replayed_response :
      (actions : List (Action A)) (j st : ℕ) (r : A)
      → (act_all hash actions fresh).pc j ≡ answered (replay st r)
      → Ran hash (hash j) st r (act_all hash actions fresh)
  replayed_response actions j st r =
      IsFaithful.faithful (act_all-IsFaithful actions fresh fresh-IsFaithful) j st r
