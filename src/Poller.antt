-- ===== src/Poller.antt =====
-- The ledger monitor, backend/src/lib/horizon-poller.js: its data, and what it calls.
-- What stands outside the file (Horizon, the database, the clock, the number type of JavaScript)
-- is the parameter `Outside`; what the monitor sends is a trace of events, the latest first.
use stellar_payment_api.Base.{ℕ, String, Bool, Option, List}
use stellar_payment_api.Effects.{M}
pub mod Check
pub mod Configs
pub mod Cycle
pub mod Groups
pub mod RateLimiter

pub data Status : Type 0 where
  pending confirmed failed : Status

-- A row of `fetchPendingPayments`. The metadata is opaque.
pub record Payment (Metadata : Type 0) : Type 0 where
  pub id : String
  pub recipient : String
  pub asset : String
  pub asset_issuer : Option String
  pub amount : String
  pub memo : Option String
  pub memo_type : Option String
  pub webhook_url : Option String
  pub created_at : String
  pub merchant_id : Option String
  pub metadata : Metadata

-- The fields of `MERCHANT_NOTIFICATION_FIELDS` that the monitor reads; `subscribed` is
-- `isEventSubscribed(merchant, "payment.confirmed")`.
pub record Merchant : Type 0 where
  pub webhook_secret : String
  pub webhook_version : Option String
  pub notification_email : Option String
  pub email : Option String
  pub webhook_custom_headers : Option String
  pub subscribed : Bool

-- `update({ … }).eq("id", id).eq("status", "pending").is("tx_id", null)`
pub record Claim (Amount Metadata : Type 0) : Type 0 where
  pub id : String
  pub status : Status
  pub tx_id : String
  pub completion_duration_seconds : Option Amount
  pub metadata : Option Metadata

pub record DbError : Type 0 where
  pub code : String
  pub message : String

-- The reply to such an update: the row that was written, if any, or an error.
pub record Reply : Type 0 where
  pub updated : Bool
  pub error : Option DbError

-- The payload of version 1, the only one that the registry of webhooks/resolver.js holds.
pub record WebhookPayload : Type 0 where
  pub payment_id : String
  pub amount : String
  pub asset : String
  pub asset_issuer : Option String
  pub recipient : String
  pub tx_id : String

pub data CheckResult : Type 0 where
  skipped_check failed_check confirmed_check : CheckResult

pub data Notice (Amount : Type 0) : Type 0 where
  underpaid : (expected received : Amount) → Notice Amount
  overpaid : (tx_id : String) → Notice Amount
  paid : (tx_id : String) → Notice Amount

pub data Event (Amount : Type 0) : Type 0 where
  -- The signature verifier passed the transaction.
  signature_passed : (tx_id : String) → Event Amount
  -- The update was sent, and its reply named the row as written.
  update_sent : (id tx_id : String) (status : Status) → Event Amount
  claimed : (id tx_id : String) (status : Status) → Event Amount
  cache_invalidated : (id : String) → Event Amount
  -- `ledgerMonitorPaymentsChecked`
  checked : CheckResult → Event Amount
  -- `streamManager.notify`, and the emit to the merchant's socket room.
  sse : (id : String) → Notice Amount → Event Amount
  socket : (merchant_id id : String) → Notice Amount → Event Amount
  webhook :
      (url : String) (payload : WebhookPayload) (secret : String) (id : String)
      (headers : Option String)
      → Event Amount
  receipt_email : (to id tx_id : String) → Event Amount

pub record Outside : Type 1 where
  pub State : Type 0
  pub Metadata : Type 0
  -- JavaScript numbers: `Number(text)`, `a - b`, `a < b`, `Math.floor`, `Number(a.toFixed(7))`,
  -- and the constants 0.0000001 and -0.0000001.
  pub Amount : Type 0
  pub to_number : String → Amount
  pub minus : Amount → Amount → Amount
  pub less : Amount → Amount → Bool
  pub floor : Amount → Amount
  pub round_7 : Amount → Amount
  pub tolerance : Amount
  pub minus_tolerance : Amount
  -- ledger-monitor-security.js
  pub validate_payment_record : Payment Metadata → Bool
  pub is_valid_transaction_hash : String → Bool
  pub underpaid_metadata : Metadata → (expected received shortfall : Amount) → Metadata
  pub overpaid_metadata : Metadata → (expected received excess : Amount) → Metadata
  -- The clock: seconds from `created_at` to now.
  pub latency_seconds : String → M State Amount
  -- `_rateLimiter.waitForSlot` and `sleep`
  pub wait_for_slot : M State (Unit {0})
  pub sleep : ℕ → M State (Unit {0})
  -- Horizon: the hash of a matching transaction; the hash and the received amount of any other.
  pub find_matching_payment : Payment Metadata → M State (Option String)
  pub find_any_recent_payment : Payment Metadata → M State (Option (String × String))
  pub verify_transaction_signature : String → M State Bool
  -- The database: another payment that has the hash, and the guarded update.
  pub other_payment_with_tx : (tx_id id : String) → M State (Option String)
  pub update_pending : Claim Amount Metadata → M State Reply
  pub invalidate_payment_cache : String → M State (Unit {0})
  -- `loadMerchantNotificationConfig`
  pub load_merchant : Option String → M State (Option Merchant)

pub record World (o : Outside) : Type 0 where
  pub outside : o.State
  pub trace : List (Event o.Amount)
