-- ===== src/Idempotency/Turns.antt =====
-- What the turn of one request changes.
use stellar_payment_api.Base.{ℕ, String, ◌≡◌, ◌⊎◌, arith}
use stellar_payment_api.Idempotency.{Event, move, System, request, act}

module _ {A : Type 0} (hash : ℕ → String) where
  pub act_self :
      (i : ℕ) (e : Event A) (s : System A)
      → (act hash (request i e) s).pc i ≡ (move i (hash i) e (s.pc i) s.store).1
  unfolding act
  act_self i e s = ground arith

  pub act-cases :
      (i j : ℕ) (e : Event A) (s : System A)
      → ((i ≡ j) × ((act hash (request i e) s).pc j ≡ (move i (hash i) e (s.pc i) s.store).1))
        ⊎ ((act hash (request i e) s).pc j ≡ s.pc j)
  unfolding act
  act-cases i j e s = ground arith
