-- ===== src/Poller/Check.antt =====
-- `checkPayment` and the helpers that it calls.
pub mod Trace
mod Updates
mod Grounds
mod Runs
pub mod Settles
pub mod Confirms
use stellar_payment_api.Base.{
  ℕ, zero, suc, ◌*◌, ◌^◌, String, Bool, true, false, not, ◌&&◌, ◌||◌, Option, none, some, List, [],
  ◌∷◌, if◌then◌else◌, str_eq,
}
use text.Mathlib.Text.{starts_with, find?}
use Prim.Native.Char.{Char, code}
use Prim.Native.String
use stellar_payment_api.Effects.{M, Outcome, pure, ◌>>=◌, ◌>>◌, catch, attempt, when}
use stellar_payment_api.Poller.{
  Status, pending, confirmed, failed, Payment, Merchant, Claim, DbError, Reply, WebhookPayload,
  CheckResult, skipped_check, failed_check, confirmed_check, Notice, underpaid, overpaid, paid,
  Event, signature_passed, update_sent, claimed, cache_invalidated, checked, sse, socket, webhook,
  receipt_email, Outside, World,
}

-- `message.includes(part)`
includes : String → String → Bool
includes message part = elim (find? message part) [ none ↦ false | some _ ↦ true ]

-- The message is given in lower case.
unfoldable pub is_transient_db_error : Option DbError → Bool
unfolding includes
is_transient_db_error none = false
is_transient_db_error (some e) =
    starts_with e.code "08"
    || str_eq e.code "40001"
    || str_eq e.code "40P01"
    || includes e.message "timeout"
    || includes e.message "temporarily unavailable"
    || includes e.message "connection"

-- `getPayloadForVersion(version, "payment.confirmed", …)`: every version resolves to v1.
pub payload_for : {Metadata : Type 0} → Payment Metadata → String → WebhookPayload
payload_for p tx = record {
  payment_id = p.id;
  amount = p.amount;
  asset = p.asset;
  asset_issuer = p.asset_issuer;
  recipient = p.recipient;
  tx_id = tx;
}

-- `a || b` on texts, where null and "" are false; `none` is the falsy end.
pub truthy : Option String → Option String
truthy none = none
truthy (some s) = if str_eq s "" then none else some s

pub or_else : Option String → Option String → Option String
or_else (some s) b = some s
or_else none b = b

module _ (o : Outside) where
  open o use {
    State, Metadata, Amount, to_number, minus, less, floor, round_7, tolerance, minus_tolerance,
    validate_payment_record, is_valid_transaction_hash, underpaid_metadata, overpaid_metadata,
    latency_seconds, wait_for_slot, sleep, find_matching_payment, find_any_recent_payment,
    verify_transaction_signature, other_payment_with_tx, update_pending, invalidate_payment_cache,
    load_merchant,
  }

  pub lifted : {A : Type 0} → List (Event Amount) → Outcome A × State → Outcome A × World o
  lifted t (r, s) = (r, record { outside = s; trace = t })

  pub lift : {A : Type 0} → M State A → M (World o) A
  unfolding lifted
  lift m w = lifted w.trace (m w.outside)

  pub emit : Event Amount → M (World o) (Unit {0})
  emit e w = (Outcome.ok tt, record w { trace = e ∷ w.trace })

  -- One round trip of the guarded update. The second event is the reply's.
  pub send_update : Claim Amount Metadata → M (World o) Reply
  send_update c = do
    emit (update_sent c.id c.tx_id c.status)
    reply ← lift (update_pending c)
    when reply.updated (emit (claimed c.id c.tx_id c.status))
    pure reply

  -- The loop of `retryTransientDbOperation`; `left` counts the attempts after this one.
  pub retry_from : ℕ → (delay_ms : ℕ) → M (World o) Reply → M (World o) Reply
  retry_from zero delay_ms operation = do
    reply ← operation
    if is_transient_db_error reply.error then (do lift (sleep delay_ms); pure reply) else pure reply
  retry_from (suc left) delay_ms operation =
      let rest = retry_from left (delay_ms * 2) operation in
      do
        reply ← operation
        if is_transient_db_error reply.error then (do lift (sleep delay_ms); rest) else pure reply

  -- Two retries, after 100 and 200 ms, and a last wait of 400 ms.
  pub retry_transient_db_operation : M (World o) Reply → M (World o) Reply
  retry_transient_db_operation operation = retry_from 2 100 operation

  pub with_rate_limit : {A : Type 0} → M State A → M (World o) A
  with_rate_limit operation = do lift wait_for_slot; lift operation

  -- `verifyLedgerTransactionSignature`
  pub passed_event : String → Option Bool → M (World o) Bool
  passed_event tx none = pure false
  passed_event tx (some false) = pure false
  passed_event tx (some true) = do emit (signature_passed tx); pure true

  pub verify_ledger_signature : String → M (World o) Bool
  verify_ledger_signature tx = do
    result ← attempt (with_rate_limit (verify_transaction_signature tx))
    passed_event tx result

  pub safe_invalidate : String → M (World o) (Unit {0})
  safe_invalidate id =
      catch (do lift (invalidate_payment_cache id); emit (cache_invalidated id)) (pure tt)

  pub to_merchant_room : Option String → String → Notice Amount → M (World o) (Unit {0})
  to_merchant_room none id n = pure tt
  to_merchant_room (some m) id n = emit (socket m id n)

  pub notify_payment_event : Payment Metadata → Notice Amount → M (World o) (Unit {0})
  notify_payment_event p n = do emit (sse p.id n); to_merchant_room (truthy p.merchant_id) p.id n

  pub send_webhook_if :
      Option String → Payment Metadata → String → Merchant → M (World o) (Unit {0})
  send_webhook_if none p tx m = pure tt
  send_webhook_if (some url) p tx m =
      when m.subscribed
        (emit (webhook url (payload_for p tx) m.webhook_secret p.id m.webhook_custom_headers))

  pub send_receipt_to : Option String → Payment Metadata → String → M (World o) (Unit {0})
  send_receipt_to none p tx = pure tt
  send_receipt_to (some to) p tx = emit (receipt_email to p.id tx)

  pub deliver : Payment Metadata → String → Option Merchant → M (World o) (Unit {0})
  deliver p tx none = pure tt
  deliver p tx (some m) = do
    send_webhook_if (truthy p.webhook_url) p tx m
    send_receipt_to (or_else (truthy m.notification_email) (truthy m.email)) p tx

  pub settle_underpayment : Payment Metadata → String → Amount → Amount → M (World o) (Unit {0})
  settle_underpayment p tx expected received = do
    reply ← retry_transient_db_operation (
        send_update (record {
          id = p.id;
          status = failed;
          tx_id = tx;
          completion_duration_seconds = none;
          metadata =
              some (
                underpaid_metadata p.metadata expected received
                  (round_7 (minus expected received)));
        }))
    when reply.updated (do
      safe_invalidate p.id
      emit (checked failed_check)
      notify_payment_event p (underpaid expected received))

  pub settle_overpayment : Payment Metadata → String → Amount → Amount → M (World o) (Unit {0})
  settle_overpayment p tx expected received = do
    latency ← lift (latency_seconds p.created_at)
    reply ← retry_transient_db_operation (
        send_update (record {
          id = p.id;
          status = confirmed;
          tx_id = tx;
          completion_duration_seconds = some (floor latency);
          metadata =
              some (
                overpaid_metadata p.metadata expected received (round_7 (minus received expected)));
        }))
    when reply.updated (do
      safe_invalidate p.id
      emit (checked confirmed_check)
      notify_payment_event p (overpaid tx))

  -- The comparison of the received with the expected amount.
  pub settle_wrong_amount : Payment Metadata → String → Amount → Amount → M (World o) (Unit {0})
  settle_wrong_amount p tx expected received =
      let diff = minus received expected in
      if less diff minus_tolerance
      then settle_underpayment p tx expected received
      else when (less tolerance diff) (settle_overpayment p tx expected received)

  -- The branch without a match: is there a payment of another amount?
  pub wrong_amount_found :
      Payment Metadata → Option (Option (String × String)) → M (World o) (Unit {0})
  wrong_amount_found p none = pure tt
  wrong_amount_found p (some none) = pure tt
  wrong_amount_found p (some (some (tx, received))) = do
    valid ← verify_ledger_signature tx
    when valid (settle_wrong_amount p tx (to_number p.amount) (to_number received))

  pub check_wrong_amount : Payment Metadata → M (World o) (Unit {0})
  check_wrong_amount p = do
    found ← attempt (with_rate_limit (find_any_recent_payment p))
    wrong_amount_found p found

  -- What follows the update of an exact match.
  pub after_confirm : Payment Metadata → String → Reply → M (World o) (Unit {0})
  after_confirm p tx reply = elim reply.error [
    | some e ↦ pure tt
    | none ↦ when reply.updated (do
      safe_invalidate p.id
      emit (checked confirmed_check)
      notify_payment_event p (paid tx)
      merchant ← lift (load_merchant p.merchant_id)
      deliver p tx merchant)
  ]

  pub confirm_unclaimed : Payment Metadata → String → Option String → M (World o) (Unit {0})
  confirm_unclaimed p tx (some other) = pure tt
  confirm_unclaimed p tx none = do
    latency ← lift (latency_seconds p.created_at)
    reply ← retry_transient_db_operation (
        send_update (record {
          id = p.id;
          status = confirmed;
          tx_id = tx;
          completion_duration_seconds = some (floor latency);
          metadata = none;
        }))
    after_confirm p tx reply

  pub confirm_match : Payment Metadata → String → M (World o) (Unit {0})
  confirm_match p tx =
      if is_valid_transaction_hash tx
      then (do other ← lift (other_payment_with_tx tx p.id); confirm_unclaimed p tx other)
      else emit (checked skipped_check)

  pub match_found : Payment Metadata → Option (Option String) → M (World o) (Unit {0})
  match_found p none = emit (checked skipped_check)
  match_found p (some none) = check_wrong_amount p
  match_found p (some (some tx)) = do
    valid ← verify_ledger_signature tx
    when valid (confirm_match p tx)

  pub check_body : Payment Metadata → M (World o) (Unit {0})
  check_body p =
      if validate_payment_record p
      then (do found ← attempt (with_rate_limit (find_matching_payment p)); match_found p found)
      else emit (checked skipped_check)

  pub check_payment : Payment Metadata → M (World o) (Unit {0})
  check_payment p = catch (check_body p) (emit (checked skipped_check))
