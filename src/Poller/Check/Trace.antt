-- ===== src/Poller/Check/Trace.antt =====
-- When an event of the monitor's trace has its reason among the earlier ones.
use stellar_payment_api.Base.{String, List, [], ◌∷◌, Has}
use stellar_payment_api.Effects.{M, Outcome, ok, threw, Post, Holds}
use stellar_payment_api.Poller.{
  confirmed, failed, Notice, underpaid, overpaid, paid, Event, signature_passed, update_sent,
  claimed, sse, socket, webhook, receipt_email, Outside, World,
}
use stellar_payment_api.Poller.Check.{lifted, lift, emit}

module _ {Amount : Type 0} where
  -- A failure is announced after some claim of the payment as failed; a confirmation after the
  -- claim of the payment as confirmed by that transaction.
  abbrev pub NoticeReason : String → Notice Amount → List (Event Amount) → Type 0
  NoticeReason id (underpaid e r) t = (tx : String) × Has (claimed id tx failed) t
  NoticeReason id (overpaid tx) t = Has (claimed id tx confirmed) t
  NoticeReason id (paid tx) t = Has (claimed id tx confirmed) t

  abbrev pub Reason : Event Amount → List (Event Amount) → Type 0
  Reason (update_sent id tx st) t = Has (signature_passed tx) t
  Reason (claimed id tx st) t = Has (update_sent id tx st) t
  Reason (sse id n) t = NoticeReason id n t
  Reason (socket m id n) t = NoticeReason id n t
  Reason (webhook url payload secret id headers) t =
      Has (claimed payload.payment_id payload.tx_id confirmed) t
  Reason (receipt_email to id tx) t = Has (claimed id tx confirmed) t
  Reason _ t = Unit

  abbrev pub Grounded : List (Event Amount) → Type 0
  Grounded [] = Unit
  Grounded (e ∷ t) = Reason e t × Grounded t

  abbrev pub Knows : Event Amount → List (Event Amount) → Type 0
  Knows k t = Grounded t × Has k t

module _ (o : Outside) where
  open o use {State, Amount}

  abbrev pub Traced : (List (Event Amount) → Type 0) → World o → Type 0
  Traced R w = R w.trace

  -- Whatever follows, and also if it throws, every event of the trace has its reason.
  abbrev pub Safe : {A : Type 0} → (List (Event Amount) → Type 0) → M (World o) A → Type 0
  Safe R m = Holds (Traced R) m (λ _. Traced Grounded) (Traced Grounded)

  Post-lifted :
      {A : Type 0} (R E : List (Event Amount) → Type 0) (t : List (Event Amount))
      (r : Outcome A × State)
      → R t
      → E t
      → Post (λ _. Traced R) (Traced E) (lifted o t r)
  unfolding lifted
  Post-lifted R E t (ok a, s) h g = h
  Post-lifted R E t (threw, s) h g = g

  -- A call of the outside leaves the trace as it was.
  pub lift-Holds :
      {A : Type 0} (R : List (Event Amount) → Type 0) (m : M State A)
      → ((t : List (Event Amount)) → R t → Grounded t)
      → Holds (Traced R) (lift o m) (λ _. Traced R) (Traced Grounded)
  unfolding lift
  lift-Holds R m g = record {
    run = λ w h. Post-lifted R Grounded w.trace (m w.outside) h (g w.trace h);
  }

  pub emit-Holds :
      {P : World o → Type 0} {Q : Unit {0} → World o → Type 0} {E : World o → Type 0}
      (e : Event Amount)
      → ((w : World o) → P w → Q tt (record w { trace = e ∷ w.trace }))
      → Holds P (emit o e) Q E
  unfolding emit
  emit-Holds e reason = record { run = λ w h. reason w h }

  pub lift-Keeps :
      {A : Type 0} (R : List (Event Amount) → Type 0) (m : M State A)
      → Holds (Traced R) (lift o m) (λ _. Traced R) (Traced R)
  unfolding lift
  lift-Keeps R m = record { run = λ w h. Post-lifted R R w.trace (m w.outside) h h }
