-- ===== src/Poller/Check/Settles.antt =====
-- The branches of `checkPayment` that settle a payment, and the whole of it.
use stellar_payment_api.Base.{
  String, Bool, true, false, ◌≡◌, Option, none, some, List, inl, inr, Has, refl, Bool-cases,
}
use stellar_payment_api.Effects.{
  M, Outcome, Post, ok, threw, Holds, attempt, when, OrThrown, Holds-bind, Holds-pure, Holds-when,
  Holds-weaken, Holds-catch, Holds-attempt,
}
use stellar_payment_api.Poller.{
  confirmed, failed, Payment, underpaid, overpaid, skipped_check, failed_check, confirmed_check,
  Event, signature_passed, claimed, checked, Outside, World,
}
use stellar_payment_api.Poller.Check
use stellar_payment_api.Poller.Check.Trace.{Grounded, Knows, Traced, Safe, lift-Holds, emit-Holds}
use stellar_payment_api.Poller.Check.Updates.{Replied, update-Replies}
use stellar_payment_api.Poller.Check.Grounds.{announce-Keeps, after_confirm-Safe}

module _ (o : Outside) where
  open o use {
    State, Amount, Metadata, less, minus, minus_tolerance, tolerance, validate_payment_record,
    is_valid_transaction_hash, to_number,
  }

  settle_underpayment-Safe :
      (p : Payment Metadata) (tx : String) (e r : Amount)
      → Safe o (Knows (signature_passed tx)) (Check.settle_underpayment o p tx e r)
  unfolding Check.settle_underpayment
  settle_underpayment-Safe p tx e r =
      Holds-bind (λ reply. Traced o (Replied o p.id tx failed reply)) (update-Replies o _)
        (λ reply.
          Holds-when reply.updated
            (λ done.
              Holds-weaken (λ w h. (h.0.0, h.1 done)) (λ a w h. h.0)
                (announce-Keeps o (claimed p.id tx failed) p failed_check (underpaid e r)
                  (λ t h. (tx, h))))
            (λ _ w h. h.0.0))

  settle_overpayment-Safe :
      (p : Payment Metadata) (tx : String) (e r : Amount)
      → Safe o (Knows (signature_passed tx)) (Check.settle_overpayment o p tx e r)
  unfolding Check.settle_overpayment
  settle_overpayment-Safe p tx e r =
      Holds-bind (λ _. Traced o (Knows (signature_passed tx))) (lift-Holds o _ _ (λ t h. h.0))
        (λ latency.
          Holds-bind (λ reply. Traced o (Replied o p.id tx confirmed reply)) (update-Replies o _)
            (λ reply.
              Holds-when reply.updated
                (λ done.
                  Holds-weaken (λ w h. (h.0.0, h.1 done)) (λ a w h. h.0)
                    (announce-Keeps o (claimed p.id tx confirmed) p confirmed_check (overpaid tx)
                      (λ t h. h)))
                (λ _ w h. h.0.0)))

  settle_wrong_amount-Safe :
      (p : Payment Metadata) (tx : String) (e r : Amount)
      → Safe o (Knows (signature_passed tx)) (Check.settle_wrong_amount o p tx e r)
  unfolding Check.settle_wrong_amount
  settle_wrong_amount-Safe p tx e r = elim (Bool-cases (less (minus r e) minus_tolerance)) [
    | inl under ↦ rw under (settle_underpayment-Safe p tx e r)
    | inr other ↦ rw other (
        Holds-when (less tolerance (minus r e)) (λ _. settle_overpayment-Safe p tx e r)
          (λ _ w h. h.0))
  ]

  -- A positive answer of the verifier stands in the trace.
  abbrev Verified : String → Bool → List (Event Amount) → Type 0
  Verified tx valid t = Grounded t × (valid ≡ true → Has (signature_passed tx) t)

  passed-Verified :
      (tx : String) (r : Option Bool)
      → Holds
          (Traced o Grounded)
          (Check.passed_event o tx r)
          (λ v. Traced o (Verified tx v))
          (Traced o Grounded)
  unfolding Check.passed_event
  passed-Verified tx none = Holds-pure false (λ w h. (h, λ e. cc))
  passed-Verified tx (some false) = Holds-pure false (λ w h. (h, λ e. cc))
  passed-Verified tx (some true) =
      Holds-bind (λ _. Traced o (Knows (signature_passed tx)))
        (emit-Holds o _ (λ w h. ((tt, h), inl refl)))
        (λ _. Holds-pure true (λ w h. (h.0, λ _. h.1)))

  limited-Holds :
      {A : Type 0} (m : M State A)
      → Holds
          (Traced o Grounded)
          (Check.with_rate_limit o m)
          (λ _. Traced o Grounded)
          (Traced o Grounded)
  unfolding Check.with_rate_limit
  limited-Holds m =
      Holds-bind (λ _. Traced o Grounded) (lift-Holds o Grounded _ (λ t h. h))
        (λ _. lift-Holds o Grounded _ (λ t h. h))

  limited_attempt :
      {A : Type 0} (m : M State A)
      → Holds
          (Traced o Grounded)
          (attempt (Check.with_rate_limit o m))
          (λ _. Traced o Grounded)
          (Traced o Grounded)
  limited_attempt {A} m =
      Holds-weaken (λ w h. h) either
        (Holds-attempt (λ _. Traced o Grounded) (Traced o Grounded) (limited-Holds m))
    where
      either :
          (a : Option A) (w : World o)
          → OrThrown (λ _. Traced o Grounded) (Traced o Grounded) a w
          → Grounded w.trace
      either none w h = h
      either (some a) w h = h

  verify-Verified :
      (tx : String)
      → Holds
          (Traced o Grounded)
          (Check.verify_ledger_signature o tx)
          (λ v. Traced o (Verified tx v))
          (Traced o Grounded)
  unfolding Check.verify_ledger_signature
  verify-Verified tx =
      Holds-bind (λ _. Traced o Grounded) (limited_attempt _) (λ r. passed-Verified tx r)

  when-Verified :
      {tx : String} {m : M (World o) (Unit {0})} (valid : Bool)
      → Safe o (Knows (signature_passed tx)) m
      → Safe o (Verified tx valid) (when valid m)
  when-Verified valid h =
      Holds-when valid (λ yes'. Holds-weaken (λ w k. (k.0, k.1 yes')) (λ a w k. k) h) (λ _ w k. k.0)

  wrong_amount_found-Safe :
      (p : Payment Metadata) (f : Option (Option (String × String)))
      → Safe o Grounded (Check.wrong_amount_found o p f)
  unfolding Check.wrong_amount_found
  wrong_amount_found-Safe p none = Holds-pure tt (λ w h. h)
  wrong_amount_found-Safe p (some none) = Holds-pure tt (λ w h. h)
  wrong_amount_found-Safe p (some (some (tx, received))) =
      Holds-bind (λ v. Traced o (Verified tx v)) (verify-Verified tx)
        (λ valid. when-Verified valid (settle_wrong_amount-Safe p tx _ _))

  check_wrong_amount-Safe : (p : Payment Metadata) → Safe o Grounded (Check.check_wrong_amount o p)
  unfolding Check.check_wrong_amount
  check_wrong_amount-Safe p =
      Holds-bind (λ _. Traced o Grounded) (limited_attempt _) (λ f. wrong_amount_found-Safe p f)

  confirm_unclaimed-Safe :
      (p : Payment Metadata) (tx : String) (other : Option String)
      → Safe o (Knows (signature_passed tx)) (Check.confirm_unclaimed o p tx other)
  unfolding Check.confirm_unclaimed
  confirm_unclaimed-Safe p tx (some other) = Holds-pure tt (λ w h. h.0)
  confirm_unclaimed-Safe p tx none =
      Holds-bind (λ _. Traced o (Knows (signature_passed tx))) (lift-Holds o _ _ (λ t h. h.0))
        (λ latency.
          Holds-bind (λ reply. Traced o (Replied o p.id tx confirmed reply)) (update-Replies o _)
            (λ reply. after_confirm-Safe o p tx reply))

  skipped-Safe : Safe o Grounded (Check.emit o (checked skipped_check))
  skipped-Safe = emit-Holds o _ (λ w h. (tt, h))

  confirm_match-Safe :
      (p : Payment Metadata) (tx : String)
      → Safe o (Knows (signature_passed tx)) (Check.confirm_match o p tx)
  unfolding Check.confirm_match
  confirm_match-Safe p tx = elim (Bool-cases (is_valid_transaction_hash tx)) [
    | inl good ↦ rw good (
        Holds-bind (λ _. Traced o (Knows (signature_passed tx))) (lift-Holds o _ _ (λ t h. h.0))
          (λ other. confirm_unclaimed-Safe p tx other))
    | inr bad ↦ rw bad (Holds-weaken (λ w h. h.0) (λ a w h. h) skipped-Safe)
  ]

  match_found-Safe :
      (p : Payment Metadata) (f : Option (Option String))
      → Safe o Grounded (Check.match_found o p f)
  unfolding Check.match_found
  match_found-Safe p none = skipped-Safe
  match_found-Safe p (some none) = check_wrong_amount-Safe p
  match_found-Safe p (some (some tx)) =
      Holds-bind (λ v. Traced o (Verified tx v)) (verify-Verified tx)
        (λ valid. when-Verified valid (confirm_match-Safe p tx))

  check_body-Safe : (p : Payment Metadata) → Safe o Grounded (Check.check_body o p)
  unfolding Check.check_body
  check_body-Safe p = elim (Bool-cases (validate_payment_record p)) [
    | inl good ↦
        rw good
          (Holds-bind (λ _. Traced o Grounded) (limited_attempt _) (λ f. match_found-Safe p f))
    | inr bad ↦ rw bad skipped-Safe
  ]

  check_payment-Safe : (p : Payment Metadata) → Safe o Grounded (Check.check_payment o p)
  unfolding Check.check_payment
  check_payment-Safe p = Holds-catch (Traced o Grounded) (check_body-Safe p) skipped-Safe

  Post-either :
      {A : Type 0} (r : Outcome A × World o)
      → Post (λ _. Traced o Grounded) (Traced o Grounded) r
      → Grounded r.1.trace
  Post-either (ok a, w) h = h
  Post-either (threw, w) h = h

  -- If each event of the trace has its reason before it, so has each after a run of
  -- `checkPayment`, whatever the outside answers and also if a call throws: an update is sent only
  -- for a transaction whose signature passed; each confirmation, notice of an overpayment, webhook
  -- and receipt follows a reply that named the payment as confirmed by that transaction; and each
  -- notice of an underpayment follows a reply that named the payment as failed.
  pub check_payment-Grounded :
      (p : Payment Metadata) (w : World o)
      → Grounded w.trace
      → Grounded (Check.check_payment o p w).1.trace
  check_payment-Grounded p w g =
      Post-either (Check.check_payment o p w) ((check_payment-Safe p).run w g)
