-- ===== src/SessionValidator.antt =====
-- The validation of a payment session, `validatePaymentSession` of
-- backend/src/lib/payment-session-validator.js: the session rules in their order, and the outcome
-- that the health monitor records. Metrics and logs are left out.
use stellar_payment_api.Base.{
  ℕ, String, Bool, true, false, Option, none, some, List, [], ◌∷◌, if◌then◌else◌,
}
use stellar_payment_api.SessionRules.{
  Text, Value, undefined, scalar, text, node, Fields, Reason, Suspicion, Sanitized, accepted,
  rejected,
}
use stellar_payment_api.SessionRules.Payloads.{as_text, get_field, sanitize_session_payload}
use stellar_payment_api.SessionRules.Issuers.{
  TextCalls, Rejection, issued, refused, resolve_and_validate_issuer, validate_allowed_issuers,
}
use stellar_payment_api.SessionRules.Limits.{
  Numbers, AssetLimits, AmountFault, not_positive, Refusal, is_session_asset,
  validate_session_amount, validate_per_asset_limits,
}
use stellar_payment_api.SessionHealth.{Monitor, record_evaluation}
use stellar_payment_api.SessionHealth
pub mod Passed
pub mod Unlisted

-- A request: its body, `amount` where that is a number, and whether a scalar `asset` is null. The
-- sanitizer does not touch `amount`.
pub record Request (N : Type 0) : Type 0 where
  pub body : Value
  pub amount : Option N
  pub asset_is_null : Bool

pub record Merchant (N R : Type 0) : Type 0 where
  pub payment_limits : Option (List (String × Option (AssetLimits N R)))
  pub allowed_issuers : Option (List (Option String))

-- What the validator calls; `native` is a text of code units as it is compared.
pub record Calls (N R : Type 0) : Type 0 where
  pub nfc : Text → Text
  pub upper : Text → Text
  pub native : Text → String
  pub issuers : TextCalls
  pub numbers : Numbers N R

-- `payload.asset?.toUpperCase()` throws for what is neither a text nor missing.
pub data Asset : Type 0 where
  given : Text → Asset
  missing throws : Asset

unfoldable pub asset_of : Bool → Option Value → Asset
asset_of is_null none = missing
asset_of is_null (some undefined) = missing
asset_of is_null (some scalar) = if is_null then missing else throws
asset_of is_null (some (text s)) = given s
asset_of is_null (some (node is_array fields)) = throws

pub data Verdict (N : Type 0) : Type 0 where
  sanitization_refused : Reason → Verdict N
  asset_refused : Verdict N
  amount_refused : AmountFault → Verdict N
  issuer_refused : Rejection → Verdict N
  limit_refused : Refusal N → Verdict N
  allowlist_refused : Rejection → Verdict N
  passed : (payload : Fields) (asset : Text) (asset_issuer : Option String) → Verdict N
  thrown : Verdict N

-- `reject` and the two calls of `finish`.
unfoldable pub outcome_of : {N : Type 0} → Verdict N → SessionHealth.Outcome
outcome_of (passed payload asset issuer) = SessionHealth.accepted
outcome_of thrown = SessionHealth.error
outcome_of v = SessionHealth.rejected

unfoldable pub is_suspicious : Sanitized → Bool
is_suspicious (rejected modified [] reason) = false
is_suspicious (rejected modified (x ∷ xs) reason) = true
is_suspicious (accepted payload modified []) = false
is_suspicious (accepted payload modified (x ∷ xs)) = true

module _ {N R : Type 0} (calls : Calls N R) (merchant : Merchant N R) where
  unfoldable pub check_allowlist : Fields → Text → Option String → Verdict N
  check_allowlist payload asset issuer =
      elim (validate_allowed_issuers (calls.native asset) issuer merchant.allowed_issuers) [
        | none ↦ passed payload asset issuer
        | some r ↦ allowlist_refused r
      ]

  -- The limits are looked up under the asset as it was sent.
  unfoldable pub check_limits : Fields → Text → Text → N → Option String → Verdict N
  check_limits payload raw asset amount issuer =
      elim (validate_per_asset_limits calls.numbers (calls.native raw) amount
        merchant.payment_limits) [
          | none ↦ check_allowlist payload asset issuer
          | some r ↦ limit_refused r
        ]

  unfoldable pub raw_issuer : Fields → Option String
  raw_issuer payload = elim (as_text (get_field "asset_issuer" payload)) [
    | none ↦ none
    | some s ↦ some (calls.native s)
  ]

  unfoldable pub check_asset_issuer : Fields → Text → Text → N → Verdict N
  check_asset_issuer payload raw asset amount =
      elim (resolve_and_validate_issuer calls.issuers (calls.native asset) (raw_issuer payload)) [
        | issued issuer ↦ check_limits payload raw asset amount issuer
        | refused r ↦ issuer_refused r
      ]

  unfoldable pub check_amount : Fields → Text → Text → Option N → Verdict N
  check_amount payload raw asset none = amount_refused not_positive
  check_amount payload raw asset (some amount) =
      elim (validate_session_amount calls.numbers (some amount)) [
        | none ↦ check_asset_issuer payload raw asset amount
        | some fault ↦ amount_refused fault
      ]

  unfoldable pub check_asset : Fields → Option N → Asset → Verdict N
  check_asset payload amount missing = asset_refused
  check_asset payload amount throws = thrown
  check_asset payload amount (given raw) =
      if is_session_asset (some (calls.upper raw))
      then check_amount payload raw (calls.upper raw) amount
      else asset_refused

  unfoldable pub check_sanitized : Request N → Sanitized → Verdict N
  check_sanitized request (rejected modified suspicious reason) = sanitization_refused reason
  check_sanitized request (accepted payload modified suspicious) =
      check_asset payload request.amount
        (asset_of request.asset_is_null (get_field "asset" payload))

  unfoldable pub validate_payment_session : Request N → Verdict N
  validate_payment_session request =
      check_sanitized request (sanitize_session_payload calls.nfc request.body)

  -- The whole call, at a time: what it answers, and the health window after it.
  unfoldable pub evaluate : ℕ → Request N → Monitor → Verdict N × Monitor
  evaluate now request monitor =
      let verdict = validate_payment_session request in
      (
        verdict,
        record_evaluation
            (record {
              time = now;
              outcome = outcome_of verdict;
              is_suspicious = is_suspicious (sanitize_session_payload calls.nfc request.body);
            })
            monitor,
      )
