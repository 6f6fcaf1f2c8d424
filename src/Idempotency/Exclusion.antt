-- ===== src/Idempotency/Exclusion.antt =====
-- Mutual exclusion by the lock record, while it does not expire.
use native.Mathlib.Decide.{ℕ_discrete}
use stellar_payment_api.Base.{
  ℕ, String, Bool, true, false, Option, some, List, [], ◌∷◌, ◌≡◌, ◌≢◌, sym, ◌∙◌, ◌⊎◌, inl, inr,
  arith,
}
use stellar_payment_api.Idempotency.{
  Raw, malformed, inflight, Pc, cleaning, running, completing, releasing, Event, parse_record, swap,
  first_read, second_read, acquire_lock, settle, move, System, request, act, fresh,
}
use stellar_payment_api.Idempotency.Turns.{act-cases}

module _ {A : Type 0} where
  -- A request holds the lock while its handler runs with it and until its last script.
  unfoldable pub holds : Pc A → Bool
  holds (running l) = l
  holds (completing st r) = true
  holds releasing = true
  holds pc = false

  -- While Redis holds the lock record of another request, no event moves a request to change that
  -- record, unless the request is about to delete a record that it has found malformed.
  pub foreign_lock_kept :
      (t u : ℕ) (h : String) (k : Option String) (e : Event A) (pc : Pc A) (store : Option (Raw A))
      → pc ≢ cleaning
      → t ≢ u
      → store ≡ some (inflight k u)
      → (move t h e pc store).0 ≡ some (inflight k u)
  unfolding move acquire_lock swap
  foreign_lock_kept t u h k e pc store dirty other locked = ground arith

  -- A request that holds the lock has its own record in Redis.
  move-holds :
      (t : ℕ) (h : String) (e : Event A) (pc : Pc A) (store : Option (Raw A))
      → (holds pc ≡ true → store ≡ some (inflight (some h) t))
      → holds (move t h e pc store).1 ≡ true
      → (move t h e pc store).0 ≡ some (inflight (some h) t)
  unfolding move acquire_lock swap holds settle first_read second_read
  move-holds t h e pc store own now = ground arith

  move_cleans :
      (t : ℕ) (h : String) (e : Event A) (pc : Pc A) (store : Option (Raw A))
      → (move t h e pc store).1 ≡ cleaning
      → (pc ≡ cleaning) ⊎ (store ≡ some malformed)
  unfolding move acquire_lock settle first_read second_read parse_record
  move_cleans t h e pc store now = ground arith

  move_malformed :
      (t : ℕ) (h : String) (e : Event A) (pc : Pc A) (store : Option (Raw A))
      → store ≢ some malformed
      → (move t h e pc store).0 ≢ some malformed
  unfolding move acquire_lock swap
  move_malformed t h e pc store well bad = ground arith

module _ {A : Type 0} (hash : ℕ → String) where
  record IsExclusive (s : System A) : Type 0 where
    own : (i : ℕ) → holds (s.pc i) ≡ true → s.store ≡ some (inflight (some (hash i)) i)
    clean : (i : ℕ) → s.pc i ≢ cleaning
    well : s.store ≢ some malformed

  own-act :
      (i j : ℕ) (e : Event A) (s : System A)
      → IsExclusive s
      → holds ((act hash (request i e) s).pc j) ≡ true
      → (act hash (request i e) s).store ≡ some (inflight (some (hash j)) j)
  unfolding act
  own-act i j e s v now = elim (ℕ_discrete i j) [
    | yes same ↦ ground (arith, move-holds i (hash i) e (s.pc i) s.store (v.own i), now)
    | no other ↦
        foreign_lock_kept i j (hash i) (some (hash j)) e (s.pc i) s.store (v.clean i) other
          (v.own j ground (arith, now))
  ]

  clean-act :
      (i j : ℕ) (e : Event A) (s : System A)
      → IsExclusive s
      → (act hash (request i e) s).pc j ≢ cleaning
  clean-act i j e s v bad = elim (act-cases hash i j e s) [
    | inl (same, now) ↦ elim (move_cleans i (hash i) e (s.pc i) s.store (sym now ∙ bad)) [
      | inl before ↦ v.clean i before
      | inr stored ↦ v.well stored
    ]
    | inr still ↦ v.clean j (sym still ∙ bad)
  ]

  request-IsExclusive :
      (i : ℕ) (e : Event A) (s : System A) → IsExclusive s → IsExclusive (act hash (request i e) s)
  unfolding act
  request-IsExclusive i e s v = record {
    own = λ j. own-act i j e s v;
    clean = λ j. clean-act i j e s v;
    well = move_malformed i (hash i) e (s.pc i) s.store v.well;
  }

  -- The requests' moves, without the record's time to live.
  unfoldable pub take_turns : List (ℕ × Event A) → System A → System A
  take_turns [] s = s
  take_turns ((i, e) ∷ turns) s = take_turns turns (act hash (request i e) s)

  take_turns-IsExclusive :
      (turns : List (ℕ × Event A)) (s : System A) → IsExclusive s → IsExclusive (take_turns turns s)
  unfolding take_turns
  take_turns-IsExclusive [] s v = v
  take_turns-IsExclusive ((i, e) ∷ turns) s v =
      take_turns-IsExclusive turns (act hash (request i e) s) (request-IsExclusive i e s v)

  fresh-IsExclusive : IsExclusive fresh
  unfolding holds
  fresh-IsExclusive = record {
    own = λ i now. ground (arith, now);
    clean = λ i bad. ground (arith, bad);
    well = λ bad. ground (arith, bad);
  }

  -- From a key with no record, as long as the record's time to live does not run out: however the
  -- requests interleave, fail or abort, and whenever Redis fails, two requests that hold the lock
  -- are the same request, and Redis has its token.
  pub locked_alone :
      (turns : List (ℕ × Event A)) (i j : ℕ)
      → holds ((take_turns turns fresh).pc i) ≡ true
      → holds ((take_turns turns fresh).pc j) ≡ true
      → (i ≡ j) × ((take_turns turns fresh).store ≡ some (inflight (some (hash i)) i))
  locked_alone turns i j first second =
      let v = take_turns-IsExclusive turns fresh fresh-IsExclusive in
      (ground (arith, v.own i first, v.own j second), v.own i first)
