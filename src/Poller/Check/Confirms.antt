-- ===== src/Poller/Check/Confirms.antt =====
-- What `checkPayment` does with a payment that Horizon has received as requested.
use stellar_payment_api.Base.{
  ◌≡◌, refl, String, true, Option, none, some, List, [], ◌∷◌, ◌++◌, Bool-cases, inl, inr,
  if◌then◌else◌,
}
use mathlib.Core.List.{append_assoc}
use stellar_payment_api.Effects.{M, ok, when}
use stellar_payment_api.Poller.{
  confirmed, Payment, Merchant, Claim, confirmed_check, Notice, paid, Event, signature_passed,
  update_sent, claimed, cache_invalidated, checked, sse, socket, webhook, receipt_email, Outside,
  World,
}
use stellar_payment_api.Poller.Check
use stellar_payment_api.Poller.Check.Runs.{
  Does, Does-bind, Does-lift, Does-emit, Does-pure, Does-attempt, Does-catch,
}

-- Every call that the monitor makes answers, and in favour of the payment.
pub record Favours (o : Outside) (p : Payment o.Metadata) (tx : String) (m : Option Merchant)
    : Type 0 where
  pub is_valid_record : o.validate_payment_record p ≡ true
  pub is_valid_hash : o.is_valid_transaction_hash tx ≡ true
  pub slot : (s : o.State) → (o.wait_for_slot s).0 ≡ ok tt
  pub found : (s : o.State) → (o.find_matching_payment p s).0 ≡ ok (some tx)
  pub verified : (s : o.State) → (o.verify_transaction_signature tx s).0 ≡ ok true
  pub unclaimed : (s : o.State) → (o.other_payment_with_tx tx p.id s).0 ≡ ok none
  pub latency : o.Amount
  pub timed : (s : o.State) → (o.latency_seconds p.created_at s).0 ≡ ok latency
  pub updates :
      (c : Claim o.Amount o.Metadata) (s : o.State)
      → (o.update_pending c s).0 ≡ ok (record { updated = true; error = none })
  pub invalidates : (s : o.State) → (o.invalidate_payment_cache p.id s).0 ≡ ok tt
  pub loads : (s : o.State) → (o.load_merchant p.merchant_id s).0 ≡ ok m

module _ (o : Outside) where
  -- What a notice to the merchant's room, the webhook and the receipt add to the trace.
  abbrev pub room_events : Option String → String → Notice o.Amount → List (Event o.Amount)
  room_events none id n = []
  room_events (some m) id n = socket m id n ∷ []

  abbrev pub webhook_events :
      Option String → Payment o.Metadata → String → Merchant → List (Event o.Amount)
  webhook_events none p tx m = []
  webhook_events (some url) p tx m =
      if m.subscribed
      then webhook url (Check.payload_for p tx) m.webhook_secret p.id m.webhook_custom_headers ∷ []
      else []

  abbrev pub receipt_events : Option String → String → String → List (Event o.Amount)
  receipt_events none id tx = []
  receipt_events (some to) id tx = receipt_email to id tx ∷ []

  abbrev pub delivery_events : Payment o.Metadata → String → Option Merchant → List (Event o.Amount)
  delivery_events p tx none = []
  delivery_events p tx (some m) =
      receipt_events (Check.or_else (Check.truthy m.notification_email) (Check.truthy m.email)) p.id
        tx
      ++ webhook_events (Check.truthy p.webhook_url) p tx m

module _ (o : Outside) (p : Payment o.Metadata) (tx : String) (m : Option Merchant)
    (f : Favours o p tx m) where
  -- The one update that the monitor sends.
  claim_sent : Claim o.Amount o.Metadata
  claim_sent = record {
    id = p.id;
    status = confirmed;
    tx_id = tx;
    completion_duration_seconds = some (o.floor f.latency);
    metadata = none;
  }

  limited-Does :
      {A : Type 0} {a : A} (c : M o.State A) {t : List (Event o.Amount)}
      → ((s : o.State) → (c s).0 ≡ ok a)
      → Does o (Check.with_rate_limit o c) a t t
  unfolding Check.with_rate_limit
  limited-Does c h = Does-bind _ (Does-lift _ f.slot) (Does-lift c h)

  verify-Does :
      {t : List (Event o.Amount)}
      → Does o (Check.verify_ledger_signature o tx) true t (signature_passed tx ∷ t)
  unfolding Check.verify_ledger_signature Check.passed_event
  verify-Does =
      Does-bind _ (Does-attempt (limited-Does _ f.verified)) (Does-bind _ Does-emit Does-pure)

  update-Does :
      {t : List (Event o.Amount)}
      → Does o
          (Check.send_update o claim_sent)
          (record { updated = true; error = none })
          t
          (claimed p.id tx confirmed ∷ update_sent p.id tx confirmed ∷ t)
  unfolding Check.send_update claim_sent when
  update-Does =
      Does-bind _ Does-emit
        (Does-bind _ (Does-lift _ (f.updates _)) (Does-bind _ Does-emit Does-pure))

  retry-Does :
      {t : List (Event o.Amount)}
      → Does o
          (Check.retry_transient_db_operation o (Check.send_update o claim_sent))
          (record { updated = true; error = none })
          t
          (claimed p.id tx confirmed ∷ update_sent p.id tx confirmed ∷ t)
  unfolding Check.retry_transient_db_operation Check.retry_from Check.is_transient_db_error
  retry-Does = Does-bind _ update-Does Does-pure

  invalidate-Does :
      {t : List (Event o.Amount)}
      → Does o (Check.safe_invalidate o p.id) tt t (cache_invalidated p.id ∷ t)
  unfolding Check.safe_invalidate
  invalidate-Does = Does-catch _ (Does-bind _ (Does-lift _ f.invalidates) Does-emit)

  room-Does :
      (to : Option String) (n : Notice o.Amount) {t : List (Event o.Amount)}
      → Does o (Check.to_merchant_room o to p.id n) tt t (room_events o to p.id n ++ t)
  unfolding Check.to_merchant_room
  room-Does none n = Does-pure
  room-Does (some to) n = Does-emit

  webhook-Does :
      (url : Option String) (c : Merchant) {t : List (Event o.Amount)}
      → Does o (Check.send_webhook_if o url p tx c) tt t (webhook_events o url p tx c ++ t)
  unfolding Check.send_webhook_if
  webhook-Does none c = Does-pure
  webhook-Does (some url) c = elim (Bool-cases c.subscribed) [
    | inl yes' ↦ rw yes' (unfold when in Does-emit)
    | inr no' ↦ rw no' (unfold when in Does-pure)
  ]

  receipt-Does :
      (to : Option String) {t : List (Event o.Amount)}
      → Does o (Check.send_receipt_to o to p tx) tt t (receipt_events o to p.id tx ++ t)
  unfolding Check.send_receipt_to
  receipt-Does none = Does-pure
  receipt-Does (some to) = Does-emit

  deliver-Does :
      (c : Option Merchant) {t : List (Event o.Amount)}
      → Does o (Check.deliver o p tx c) tt t (delivery_events o p tx c ++ t)
  unfolding Check.deliver
  deliver-Does none = Does-pure
  deliver-Does (some c) {t} =
      rw
        (append_assoc
          (receipt_events o
            (Check.or_else (Check.truthy c.notification_email) (Check.truthy c.email)) p.id tx)
          (webhook_events o (Check.truthy p.webhook_url) p tx c) t)
        (Does-bind _ (webhook-Does (Check.truthy p.webhook_url) c) (receipt-Does _))

  announced-Does :
      {t : List (Event o.Amount)}
      → Does o (Check.after_confirm o p tx (record { updated = true; error = none })) tt t (
          delivery_events o p tx m
          ++ (room_events o (Check.truthy p.merchant_id) p.id (paid tx)
              ++ sse p.id (paid tx) ∷ checked confirmed_check ∷ cache_invalidated p.id ∷ t))
  unfolding Check.after_confirm Check.notify_payment_event when
  announced-Does = Does-bind _ invalidate-Does (
      Does-bind _ Does-emit (
        Does-bind _ (Does-bind _ Does-emit (room-Does _ _))
          (Does-bind _ (Does-lift _ f.loads) (deliver-Does m))))

  confirm-Does :
      {t : List (Event o.Amount)}
      → Does o (Check.confirm_match o p tx) tt t (
          delivery_events o p tx m
          ++ (room_events o (Check.truthy p.merchant_id) p.id (paid tx)
              ++ sse p.id (paid tx)
                ∷ checked confirmed_check
                ∷ cache_invalidated p.id
                ∷ claimed p.id tx confirmed
                ∷ update_sent p.id tx confirmed
                ∷ t))
  unfolding Check.confirm_match Check.confirm_unclaimed claim_sent
  confirm-Does = rw f.is_valid_hash (
      Does-bind _ (Does-lift _ f.unclaimed)
        (Does-bind _ (Does-lift _ f.timed) (Does-bind _ retry-Does announced-Does)))

  check-Does :
      {t : List (Event o.Amount)}
      → Does o (Check.check_payment o p) tt t (
          delivery_events o p tx m
          ++ (room_events o (Check.truthy p.merchant_id) p.id (paid tx)
              ++ sse p.id (paid tx)
                ∷ checked confirmed_check
                ∷ cache_invalidated p.id
                ∷ claimed p.id tx confirmed
                ∷ update_sent p.id tx confirmed
                ∷ signature_passed tx
                ∷ t))
  unfolding Check.check_payment Check.check_body Check.match_found when
  check-Does = Does-catch _ (
      rw f.is_valid_record (
        Does-bind _ (Does-attempt (limited-Does _ f.found)) (Does-bind _ verify-Does confirm-Does)))

  -- When Horizon has a valid matching transaction that no other payment claims, and every call
  -- answers in favour of the payment, the check returns after exactly these events: the signature
  -- passed, the claim was sent and won, the cache was invalidated, the confirmation was counted
  -- and announced to the customer and the merchant's room, and the webhook and the receipt went
  -- to the merchant that has asked for them.
  pub check_payment_confirms :
      (w : World o)
      → ((Check.check_payment o p w).0 ≡ ok tt)
        × ((Check.check_payment o p w).1.trace
            ≡ delivery_events o p tx m
              ++ (room_events o (Check.truthy p.merchant_id) p.id (paid tx)
                  ++ sse p.id (paid tx)
                    ∷ checked confirmed_check
                    ∷ cache_invalidated p.id
                    ∷ claimed p.id tx confirmed
                    ∷ update_sent p.id tx confirmed
                    ∷ signature_passed tx
                    ∷ w.trace))
  check_payment_confirms w = let (s, ends) = check-Does.run w refl in rw ends (refl, refl)
