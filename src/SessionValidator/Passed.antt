-- ===== src/SessionValidator/Passed.antt =====
-- What a payment session that passes the validation satisfies.
use stellar_payment_api.Base.{
  String, Bool, true, false, ◌≡◌, refl, sym, ap, ◌∙◌, inl, Option, none, some, List, ◌∷◌, Has,
  eq_iff, length, ◌≤◌, str_eq, arith,
}
use stellar_payment_api.SessionRules.{
  Text, Value, node, Fields, Suspicion, Sanitized, accepted, rejected,
}
use stellar_payment_api.SessionRules.Payloads.{as_text, get_field, sanitize_session_payload}
use stellar_payment_api.SessionRules.Issuers.{
  issued, resolve_and_validate_issuer, validate_allowed_issuers, normalize_asset_code,
}
use stellar_payment_api.SessionRules.Issuers.Accepted.{IsSource, issued_issuer, allowed_issuers_iff}
use stellar_payment_api.SessionRules.Limits.{
  is_session_asset, validate_session_amount, validate_per_asset_limits,
}
use stellar_payment_api.SessionRules.Values.{IsClean}
use stellar_payment_api.SessionRules.Limits.Within.{sound_amount}
use stellar_payment_api.SessionRules.Payloads.Accepted.{accepted_fields}
use stellar_payment_api.SessionValidator.{
  Request, Merchant, Calls, Asset, given, asset_of, passed, check_allowlist, check_limits,
  raw_issuer, check_asset_issuer, check_amount, check_asset, check_sanitized,
  validate_payment_session,
}

module _ {N R : Type 0} (calls : Calls N R) (merchant : Merchant N R) where
  -- The rules that a passed session has met, with the asset as it was sent and the amount.
  pub record Meets (payload : Fields) (raw asset : Text) (amount : N) (issuer : Option String)
      : Type 0 where
    pub upper_case : asset ≡ calls.upper raw
    pub well_formed : is_session_asset (some asset) ≡ true
    pub amount_allowed : validate_session_amount calls.numbers (some amount) ≡ none
    pub issuer_resolved :
        resolve_and_validate_issuer calls.issuers
          (calls.native asset)
          (raw_issuer calls merchant payload)
        ≡ issued issuer
    pub within_limits :
        validate_per_asset_limits calls.numbers (calls.native raw) amount merchant.payment_limits
        ≡ none
    pub issuer_allowed :
        validate_allowed_issuers (calls.native asset) issuer merchant.allowed_issuers ≡ none

  allowlist-passed :
      (payload p : Fields) (asset a : Text) (issuer i : Option String)
      → check_allowlist calls merchant payload asset issuer ≡ passed p a i
      → (payload ≡ p)
        × (asset ≡ a)
        × (issuer ≡ i)
        × (validate_allowed_issuers (calls.native asset) issuer merchant.allowed_issuers ≡ none)
  unfolding check_allowlist
  allowlist-passed payload p asset a issuer i e = ground (arith, e)

  limits-passed :
      (payload p : Fields) (raw asset a : Text) (amount : N) (issuer i : Option String)
      → check_limits calls merchant payload raw asset amount issuer ≡ passed p a i
      → (validate_per_asset_limits calls.numbers (calls.native raw) amount merchant.payment_limits
          ≡ none)
        × (check_allowlist calls merchant payload asset issuer ≡ passed p a i)
  unfolding check_limits
  limits-passed payload p raw asset a amount issuer i e = ground (arith, e)

  issuer-passed :
      (payload p : Fields) (raw asset a : Text) (amount : N) (i : Option String)
      → check_asset_issuer calls merchant payload raw asset amount ≡ passed p a i
      → (o : Option String) × (resolve_and_validate_issuer calls.issuers
            (calls.native asset)
            (raw_issuer calls merchant payload)
          ≡ issued o)
        × (check_limits calls merchant payload raw asset amount o ≡ passed p a i)
  unfolding check_asset_issuer
  issuer-passed payload p raw asset a amount i e = ground (arith, e)

  amount-passed :
      (payload p : Fields) (raw asset a : Text) (amount : Option N) (i : Option String)
      → check_amount calls merchant payload raw asset amount ≡ passed p a i
      → (n : N) × (amount ≡ some n)
        × (validate_session_amount calls.numbers (some n) ≡ none)
        × (check_asset_issuer calls merchant payload raw asset n ≡ passed p a i)
  unfolding check_amount
  amount-passed payload p raw asset a none i e = cc
  amount-passed payload p raw asset a (some n) i e = (n, refl, ground (arith, e), ground (arith, e))

  asset-passed :
      (payload p : Fields) (amount : Option N) (asset : Asset) (a : Text) (i : Option String)
      → check_asset calls merchant payload amount asset ≡ passed p a i
      → (raw : Text) × (asset ≡ given raw)
        × (is_session_asset (some (calls.upper raw)) ≡ true)
        × (check_amount calls merchant payload raw (calls.upper raw) amount ≡ passed p a i)
  unfolding check_asset
  asset-passed payload p amount asset a i e = ground (arith, e)

  asset_of-given :
      (is_null : Bool) (v : Option Value) (raw : Text)
      → asset_of is_null v ≡ given raw
      → as_text v ≡ some raw
  unfolding asset_of as_text
  asset_of-given is_null v raw e = ground (arith, e)

  -- The sanitized payload, the asset as it was sent and the amount behind a passed session.
  abbrev pub ComesFrom : Request N → Fields → Text → Option String → Type 0
  ComesFrom request p a i =
      (m : List String) × (s : List Suspicion) × (raw : Text) × (n : N) × (sanitize_session_payload
          calls.nfc request.body
        ≡ accepted p m s)
      × (as_text (get_field "asset" p) ≡ some raw)
      × (request.amount ≡ some n)
      × Meets p raw a n i

  given-passed :
      (payload p : Fields) (raw a : Text) (amount : Option N) (i : Option String)
      → is_session_asset (some (calls.upper raw)) ≡ true
      → check_amount calls merchant payload raw (calls.upper raw) amount ≡ passed p a i
      → (n : N) × (amount ≡ some n) × (payload ≡ p) × Meets p raw a n i
  given-passed payload p raw a amount i formed e =
      let (n, there, fine, e1) = amount-passed payload p raw (calls.upper raw) a amount i e in
      let (o, resolved, e2) = issuer-passed payload p raw (calls.upper raw) a n i e1 in
      let (within, e3) = limits-passed payload p raw (calls.upper raw) a n o i e2 in
      let (same_p, same_a, same_i, allowed) =
        allowlist-passed payload p (calls.upper raw) a o i e3 in
      (
        n,
        there,
        same_p,
        record {
          upper_case = sym same_a;
          well_formed = ground (arith, formed, same_a);
          amount_allowed = fine;
          issuer_resolved = ground (arith, resolved, same_a, same_i, same_p);
          within_limits = within;
          issuer_allowed = ground (arith, allowed, same_a, same_i);
        },
      )

  sanitized-passed :
      (request : Request N) (r : Sanitized) (p : Fields) (a : Text) (i : Option String)
      → sanitize_session_payload calls.nfc request.body ≡ r
      → check_sanitized calls merchant request r ≡ passed p a i
      → ComesFrom request p a i
  unfolding check_sanitized
  sanitized-passed request (rejected m s reason) p a i e h = cc
  sanitized-passed request (accepted payload m s) p a i e h =
      let found = get_field "asset" payload in
      let (raw, there, formed, checked) =
        asset-passed payload p request.amount (asset_of request.asset_is_null found) a i h in
      let (n, amount, same, meets) = given-passed payload p raw a request.amount i formed checked in
      (
        m,
        s,
        raw,
        n,
        e ∙ ap (λ f. accepted f m s) same,
        ap (λ f. as_text (get_field "asset" f)) (sym same)
            ∙ asset_of-given request.asset_is_null found raw there,
        amount,
        meets,
      )

  session-passed :
      (request : Request N) (p : Fields) (a : Text) (i : Option String)
      → validate_payment_session calls merchant request ≡ passed p a i
      → ComesFrom request p a i
  unfolding validate_payment_session
  session-passed request p a i e =
      sanitized-passed request (sanitize_session_payload calls.nfc request.body) p a i refl e

  -- A session that passes: the asset that is answered is the upper case of the one in the sanitized
  -- payload, which holds no control, bidi or zero-width character and has at most 12 units; it is
  -- a well-formed asset code; the amount is finite, positive, at most Stellar's maximum, with at most
  -- seven decimals, and the merchant's limits for the asset as it was sent let it pass.
  pub passed_session :
      (request : Request N) (body p : Fields) (a : Text) (i : Option String)
      → request.body ≡ node false body
      → validate_payment_session calls merchant request ≡ passed p a i
      → (raw : Text) × (n : N) × (as_text (get_field "asset" p) ≡ some raw)
        × (a ≡ calls.upper raw)
        × (length raw ≤ 12)
        × IsClean raw
        × (is_session_asset (some a) ≡ true)
        × (request.amount ≡ some n)
        × (calls.numbers.is_finite n ≡ true)
        × (calls.numbers.is_at_most_zero n ≡ false)
        × (calls.numbers.exceeds_stellar_max n ≡ false)
        × (calls.numbers.has_seven_decimals n ≡ true)
        × (validate_per_asset_limits calls.numbers (calls.native raw) n merchant.payment_limits
            ≡ none)
  passed_session request body p a i is_body e =
      let (m, s, raw, n, sanitized, there, amount, v) = session-passed request p a i e in
      let (short, clean) =
        accepted_fields calls.nfc body p m s "asset" 12 raw
          (ap (sanitize_session_payload calls.nfc) (sym is_body) ∙ sanitized) (inl refl) there in
      let (finite, positive, small, precise) = sound_amount calls.numbers n v.amount_allowed in
      (
        raw, n, there, v.upper_case, short, clean, v.well_formed, amount, finite, positive, small,
        precise, v.within_limits,
      )

  -- A session that passes for another asset than XLM, with a merchant whose allowlist has entries:
  -- the issuer that is answered is a valid public key, comes from the request or is the default of
  -- the asset, and is in the allowlist. It is not empty when it is a valid key.
  passed_issuer :
      (request : Request N) (p : Fields) (a : Text) (i : Option String) (entry : Option String)
      (entries : List (Option String))
      → validate_payment_session calls merchant request ≡ passed p a i
      → str_eq (calls.native a) "XLM" ≡ false
      → calls.issuers.is_valid_public_key "" ≡ false
      → merchant.allowed_issuers ≡ some (entry ∷ entries)
      → (issuer : String) × (i ≡ some issuer)
        × (calls.issuers.is_valid_public_key issuer ≡ true)
        × IsSource calls.issuers
            (normalize_asset_code calls.issuers (calls.native a))
            (raw_issuer calls merchant p)
            issuer
        × Has (some issuer) (entry ∷ entries)
  passed_issuer request p a i entry entries e other key listed =
      let (m, s, raw, n, sanitized, there, amount, v) = session-passed request p a i e in
      let (issuer, same, valid, source) =
        issued_issuer calls.issuers (calls.native a) (raw_issuer calls merchant p) i other
          v.issuer_resolved in
      let full : str_eq issuer "" ≡ false = ground (arith, eq_iff issuer "", key, valid) in
      let allowed : validate_allowed_issuers (calls.native a) (some issuer) (some (entry ∷ entries))
          ≡ none =
        ground (arith, v.issuer_allowed, same, listed) in
      (
        issuer,
        same,
        valid,
        source,
        (allowed_issuers_iff (calls.native a) issuer entry entries other full).0 allowed,
      )
