-- ===== src/Poller/Check/Grounds.antt =====
-- Whatever Horizon, the database and the merchants answer, `checkPayment` writes and announces
-- nothing without its reason.
use stellar_payment_api.Base.{String, Option, none, some, List, inl, inr, Has, Option-cases}
use stellar_payment_api.Effects.{
  M, Holds, ◌>>◌, Holds-bind, Holds-pure, Holds-when, Holds-weaken, Holds-catch,
}
use stellar_payment_api.Poller.{
  confirmed, Payment, Merchant, Reply, Notice, paid, CheckResult, confirmed_check, Event, claimed,
  checked, Outside, World,
}
use stellar_payment_api.Poller.Check
use stellar_payment_api.Poller.Check.{payload_for, truthy, or_else}
use stellar_payment_api.Poller.Check.Trace.{
  NoticeReason, Grounded, Knows, Traced, Safe, lift-Holds, lift-Keeps, emit-Holds,
}
use stellar_payment_api.Poller.Check.Updates.{Replied}

module _ (o : Outside) where
  open o use {
    State, Amount, Metadata, less, minus, minus_tolerance, tolerance, validate_payment_record,
    is_valid_transaction_hash, to_number,
  }

  -- The event `k` is in the trace before and after.
  abbrev pub Keeps : Event Amount → M (World o) (Unit {0}) → Type 0
  Keeps k m = Holds (Traced o (Knows k)) m (λ _. Traced o (Knows k)) (Traced o Grounded)

  Keeps-then :
      {m n : M (World o) (Unit {0})} (k : Event Amount) → Keeps k m → Keeps k n → Keeps k (m >> n)
  Keeps-then k h g = Holds-bind (λ _. Traced o (Knows k)) h (λ _. g)

  Safe-Keeps : {m : M (World o) (Unit {0})} (k : Event Amount) → Keeps k m → Safe o (Knows k) m
  Safe-Keeps k h = Holds-weaken (λ w p. p) (λ a w p. p.0) h

  checked-Keeps : (k : Event Amount) (r : CheckResult) → Keeps k (Check.emit o (checked r))
  checked-Keeps k r = emit-Holds o _ (λ w h. ((tt, h.0), inr h.1))

  safe_invalidate-Keeps : (k : Event Amount) (id : String) → Keeps k (Check.safe_invalidate o id)
  unfolding Check.safe_invalidate
  safe_invalidate-Keeps k id =
      Holds-catch (Traced o (Knows k))
        (Holds-bind (λ _. Traced o (Knows k)) (lift-Keeps o _ _)
          (λ _. emit-Holds o _ (λ w h. ((tt, h.0), inr h.1))))
        (Holds-pure tt (λ w h. h))

  room-Keeps :
      (k : Event Amount) (m : Option String) (id : String) (n : Notice Amount)
      → ((t : List (Event Amount)) → Has k t → NoticeReason id n t)
      → Keeps k (Check.to_merchant_room o m id n)
  unfolding Check.to_merchant_room
  room-Keeps k none id n r = Holds-pure tt (λ w h. h)
  room-Keeps k (some m) id n r = emit-Holds o _ (λ w h. ((r w.trace h.1, h.0), inr h.1))

  notify-Keeps :
      (k : Event Amount) (p : Payment Metadata) (n : Notice Amount)
      → ((t : List (Event Amount)) → Has k t → NoticeReason p.id n t)
      → Keeps k (Check.notify_payment_event o p n)
  unfolding Check.notify_payment_event
  notify-Keeps k p n r =
      Keeps-then k (emit-Holds o _ (λ w h. ((r w.trace h.1, h.0), inr h.1)))
        (room-Keeps k (truthy p.merchant_id) p.id n r)

  pub announce-Keeps :
      (k : Event Amount) (p : Payment Metadata) (c : CheckResult) (n : Notice Amount)
      → ((t : List (Event Amount)) → Has k t → NoticeReason p.id n t)
      → Keeps k (
          Check.safe_invalidate o p.id
          >> (Check.emit o (checked c) >> Check.notify_payment_event o p n))
  announce-Keeps k p c n r =
      Keeps-then k (safe_invalidate-Keeps k p.id)
        (Keeps-then k (checked-Keeps k c) (notify-Keeps k p n r))

  module _ (p : Payment Metadata) (tx : String) where
    abbrev Paid : Event Amount
    Paid = claimed p.id tx confirmed

    webhook-Keeps :
        (url : Option String) (m : Merchant) → Keeps Paid (Check.send_webhook_if o url p tx m)
    unfolding Check.send_webhook_if payload_for
    webhook-Keeps none m = Holds-pure tt (λ w h. h)
    webhook-Keeps (some url) m =
        Holds-when m.subscribed (λ _. emit-Holds o _ (λ w h. ((h.1, h.0), inr h.1))) (λ _ w h. h)

    receipt-Keeps : (to : Option String) → Keeps Paid (Check.send_receipt_to o to p tx)
    unfolding Check.send_receipt_to
    receipt-Keeps none = Holds-pure tt (λ w h. h)
    receipt-Keeps (some to) = emit-Holds o _ (λ w h. ((h.1, h.0), inr h.1))

    deliver-Keeps : (m : Option Merchant) → Keeps Paid (Check.deliver o p tx m)
    unfolding Check.deliver
    deliver-Keeps none = Holds-pure tt (λ w h. h)
    deliver-Keeps (some m) =
        Keeps-then Paid (webhook-Keeps (truthy p.webhook_url) m)
          (receipt-Keeps (or_else (truthy m.notification_email) (truthy m.email)))

    pub after_confirm-Safe :
        (reply : Reply)
        → Safe o (Replied o p.id tx confirmed reply) (Check.after_confirm o p tx reply)
    unfolding Check.after_confirm
    after_confirm-Safe reply = elim (Option-cases reply.error) [
      | inl fine ↦ rw fine (
          Holds-when reply.updated
            (λ done.
              Holds-weaken (λ w h. (h.0.0, h.1 done)) (λ a w h. h.0)
                (Keeps-then Paid (safe_invalidate-Keeps Paid p.id) (
                  Keeps-then Paid (checked-Keeps Paid confirmed_check) (
                    Keeps-then Paid (notify-Keeps Paid p (paid tx) (λ t h. h)) (
                      Holds-bind (λ _. Traced o (Knows Paid)) (lift-Holds o _ _ (λ t h. h.0))
                        (λ m. deliver-Keeps m))))))
            (λ _ w h. h.0.0))
      | inr (e, error) ↦ rw error (Holds-pure tt (λ w h. h.0.0))
    ]
