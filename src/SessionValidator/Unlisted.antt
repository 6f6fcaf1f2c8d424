-- ===== src/SessionValidator/Unlisted.antt =====
-- Limits that are configured under another spelling of the asset.
use stellar_payment_api.Base.{
  String, Bool, ◌≡◌, refl, sym, ap, ◌∙◌, Option, none, some, List, if◌then◌else◌, arith,
}
use stellar_payment_api.OrderedMap
use stellar_payment_api.SessionRules.{Text, Value, Fields, Suspicion, accepted}
use stellar_payment_api.SessionRules.Payloads.{as_text, get_field, sanitize_session_payload}
use stellar_payment_api.SessionRules.Issuers.{
  Resolved, issued, refused, resolve_and_validate_issuer,
}
use stellar_payment_api.SessionRules.Limits.{
  AssetLimits, Refusal, validate_per_asset_limits, is_session_asset,
}
use stellar_payment_api.SessionRules.Limits.Within.{unlisted_unlimited}
use stellar_payment_api.SessionValidator.{
  Request, Merchant, Calls, given, asset_of, Verdict, issuer_refused, limit_refused, asset_refused,
  check_allowlist, check_limits, raw_issuer, check_asset_issuer, check_amount, check_asset,
  check_sanitized, validate_payment_session,
}

asset_of-text :
    (is_null : Bool) (v : Option Value) (raw : Text)
    → as_text v ≡ some raw
    → asset_of is_null v ≡ given raw
unfolding asset_of as_text
asset_of-text is_null v raw e = ground (arith, e)

module _ {N R : Type 0} (calls : Calls N R) (merchant : Merchant N R) where
  abbrev pub unlimited : Merchant N R
  unlimited = record merchant { payment_limits = none }

  without_limits :
      (raw : String) (amount : N) → validate_per_asset_limits calls.numbers raw amount none ≡ none
  unfolding validate_per_asset_limits
  without_limits raw amount = refl

  module _ (raw : Text) (limits : List (String × Option (AssetLimits N R)))
      (configured : merchant.payment_limits ≡ some limits)
      (unlisted : OrderedMap.get (calls.native raw) limits ≡ none) where
    same_limits :
        (payload : Fields) (asset : Text) (amount : N) (issuer : Option String)
        → check_limits calls merchant payload raw asset amount issuer
          ≡ check_limits calls unlimited payload raw asset amount issuer
    unfolding check_limits check_allowlist
    same_limits payload asset amount issuer =
        let here : validate_per_asset_limits calls.numbers (calls.native raw) amount
              merchant.payment_limits
            ≡ none =
          ap (validate_per_asset_limits calls.numbers (calls.native raw) amount) configured
          ∙ unlisted_unlimited calls.numbers (calls.native raw) amount limits unlisted in
        let settle : Option (Refusal N) → Verdict N = λ o. elim o [
          | none ↦ check_allowlist calls merchant payload asset issuer
          | some r ↦ limit_refused r
        ] in
        ap settle (here ∙ sym (without_limits (calls.native raw) amount))

    same_resolved :
        (payload : Fields) (asset : Text) (amount : N) (r : Resolved)
        → (elim r [
          | issued i ↦ check_limits calls merchant payload raw asset amount i
          | refused f ↦ issuer_refused f
        ])
          ≡ (elim r [
            | issued i ↦ check_limits calls unlimited payload raw asset amount i
            | refused f ↦ issuer_refused f
          ])
    same_resolved payload asset amount (issued i) = same_limits payload asset amount i
    same_resolved payload asset amount (refused f) = refl

    same_issuer :
        (payload : Fields) (asset : Text) (amount : N)
        → check_asset_issuer calls merchant payload raw asset amount
          ≡ check_asset_issuer calls unlimited payload raw asset amount
    unfolding check_asset_issuer raw_issuer
    same_issuer payload asset amount = same_resolved payload asset amount (
        resolve_and_validate_issuer calls.issuers (calls.native asset)
          (raw_issuer calls merchant payload))

    same_amount :
        (payload : Fields) (asset : Text) (amount : Option N)
        → check_amount calls merchant payload raw asset amount
          ≡ check_amount calls unlimited payload raw asset amount
    unfolding check_amount
    same_amount payload asset none = refl
    same_amount payload asset (some n) = ground (arith, same_issuer payload asset n)

    -- Where the asset of the sanitized payload is no key of the merchant's limits, a session is
    -- answered as for a merchant without limits: also when the limits have its upper case, the asset
    -- that is validated and answered, as a key.
    pub unlisted_as_unlimited :
        (request : Request N) (p : Fields) (m : List String) (s : List Suspicion)
        → sanitize_session_payload calls.nfc request.body ≡ accepted p m s
        → as_text (get_field "asset" p) ≡ some raw
        → validate_payment_session calls merchant request
          ≡ validate_payment_session calls unlimited request
    unfolding validate_payment_session check_sanitized check_asset
    unlisted_as_unlimited request p m s sanitized there =
        rw (sanitized, asset_of-text request.asset_is_null (get_field "asset" p) raw there)
          (ap (λ v. if is_session_asset (some (calls.upper raw)) then v else asset_refused)
            (same_amount p (calls.upper raw) request.amount))
