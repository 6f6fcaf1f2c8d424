-- ===== src/Tests/Validator.antt =====
-- A session in USDC, sent in lower case.
use stellar_payment_api.Base.{
  ℕ, ◌-◌, ◌≤◌, String, true, false, ◌≡◌, refl, Option, none, some, List, [], ◌∷◌, map,
  if◌then◌else◌, ltb, length, str_eq,
}
use stellar_payment_api.SessionRules.{
  Text, text_eq, between, text, node, Fields, field, end, is_control, is_bidi, is_zero_width,
  is_space, strip, trim_start, keep_nonspace, trim_end, trim, sanitize_session_string, is_forbidden,
  is_required, any, accepted,
}
use stellar_payment_api.SessionRules.Payloads.{
  child_path, get_field, as_text, set_field, stored, clean_text, sanitize_field, sanitize_from,
  sanitize_scanned, sanitize_session_payload, find_forbidden_keys,
}
use stellar_payment_api.SessionRules.Values.{IsClean}
use stellar_payment_api.SessionRules.Issuers.{
  supplied_or_default, normalize_asset_code, resolve_asset_issuer, check_issuer,
  resolve_and_validate_issuer, includes_issuer, check_allowed, validate_allowed_issuers,
}
use stellar_payment_api.SessionRules.Limits.{
  Numbers, AssetLimits, numeric, is_code_unit, all, is_session_asset, validate_session_amount,
  check_max, check_bounds, check_entry, validate_per_asset_limits, to_finite_bound, finite_or_none,
}
use stellar_payment_api.SessionValidator.{
  Request, Merchant, Calls, asset_of, passed, limit_refused, check_allowlist, check_limits,
  raw_issuer, check_asset_issuer, check_amount, check_asset, check_sanitized,
  validate_payment_session,
}
use stellar_payment_api.SessionRules.Limits.{below_min}
use stellar_payment_api.SessionValidator.Passed.{passed_session}
use stellar_payment_api.SessionValidator.Unlisted.{unlimited, unlisted_as_unlimited}

abbrev usdc : Text
usdc = 0x75 ∷ 0x73 ∷ 0x64 ∷ 0x63 ∷ []

abbrev upper_usdc : Text
upper_usdc = 0x55 ∷ 0x53 ∷ 0x44 ∷ 0x43 ∷ []

abbrev to_native : Text → String
to_native s = if text_eq s usdc then "usdc" else if text_eq s upper_usdc then "USDC" else "G"

abbrev whole : Numbers ℕ String
whole = record {
  below = ltb;
  is_finite = λ n. true;
  is_at_most_zero = λ n. ltb n 1;
  exceeds_stellar_max = λ n. ltb 922337203685 n;
  has_seven_decimals = λ n. true;
  rounded_difference = λ a b. a - b;
  to_number = λ s. 0;
}

abbrev calls : Calls ℕ String
calls = record {
  nfc = λ s. s;
  upper = map (λ c. if between 97 122 c then c - 32 else c);
  native = to_native;
  issuers = record {
    trim = λ s. s;
    upper = λ s. s;
    lower = λ s. s;
    is_valid_public_key = λ s. str_eq s "G";
    network = none;
  };
  numbers = whole;
}

abbrev limits : List (String × Option (AssetLimits ℕ String))
limits = ("USDC", some (record { lowest = numeric 50; highest = numeric 100 })) ∷ []

abbrev merchant : Merchant ℕ String
merchant = record { payment_limits = some limits; allowed_issuers = some (none ∷ some "G" ∷ []) }

abbrev payload : Text → Fields
payload asset = field "asset" (text asset) (field "asset_issuer" (text (0x47 ∷ [])) end)

abbrev session : Text → Request ℕ
session asset = record {
  body = node false (payload asset);
  amount = some 20;
  asset_is_null = false;
}

usdc_passes :
    validate_payment_session calls merchant (session usdc)
    ≡ passed (payload usdc) upper_usdc (some "G")
unfolding is_control is_bidi is_zero_width is_space strip trim_start keep_nonspace trim_end trim
    sanitize_session_string is_forbidden is_required any child_path get_field as_text set_field
    stored clean_text sanitize_field sanitize_from sanitize_scanned sanitize_session_payload
    find_forbidden_keys supplied_or_default normalize_asset_code resolve_asset_issuer check_issuer
    resolve_and_validate_issuer includes_issuer check_allowed validate_allowed_issuers is_code_unit
    all is_session_asset validate_session_amount check_max check_bounds check_entry
    validate_per_asset_limits to_finite_bound finite_or_none asset_of check_allowlist check_limits
    raw_issuer check_asset_issuer check_amount check_asset check_sanitized validate_payment_session
usdc_passes = refl

-- In upper case the same amount is below the merchant's minimum.
upper_usdc_refused :
    validate_payment_session calls merchant (session upper_usdc) ≡ limit_refused (below_min 50 30)
unfolding is_control is_bidi is_zero_width is_space strip trim_start keep_nonspace trim_end trim
    sanitize_session_string is_forbidden is_required any child_path get_field as_text set_field
    stored clean_text sanitize_field sanitize_from sanitize_scanned sanitize_session_payload
    find_forbidden_keys supplied_or_default normalize_asset_code resolve_asset_issuer check_issuer
    resolve_and_validate_issuer includes_issuer check_allowed validate_allowed_issuers is_code_unit
    all is_session_asset validate_session_amount check_max check_bounds check_entry
    validate_per_asset_limits to_finite_bound finite_or_none asset_of check_allowlist check_limits
    raw_issuer check_asset_issuer check_amount check_asset check_sanitized validate_payment_session
upper_usdc_refused = refl

usdc_sanitized :
    sanitize_session_payload calls.nfc (node false (payload usdc)) ≡ accepted (payload usdc) [] []
unfolding is_control is_bidi is_zero_width is_space strip trim_start keep_nonspace trim_end trim
    sanitize_session_string is_forbidden is_required any child_path get_field as_text set_field
    stored clean_text sanitize_field sanitize_from sanitize_scanned sanitize_session_payload
    find_forbidden_keys
usdc_sanitized = refl

usdc_asset : as_text (get_field "asset" (payload usdc)) ≡ some usdc
unfolding get_field as_text
usdc_asset = refl

passed_session_example :
    (raw : Text) × (n : ℕ) × (as_text (get_field "asset" (payload usdc)) ≡ some raw)
    × (upper_usdc ≡ calls.upper raw)
    × (length raw ≤ 12)
    × IsClean raw
    × (is_session_asset (some upper_usdc) ≡ true)
    × ((session usdc).amount ≡ some n)
    × (whole.is_finite n ≡ true)
    × (whole.is_at_most_zero n ≡ false)
    × (whole.exceeds_stellar_max n ≡ false)
    × (whole.has_seven_decimals n ≡ true)
    × (validate_per_asset_limits whole (to_native raw) n merchant.payment_limits ≡ none)
passed_session_example =
    passed_session calls merchant (session usdc) (payload usdc) (payload usdc) upper_usdc (some "G")
      refl usdc_passes

unlisted_as_unlimited_example :
    validate_payment_session calls merchant (session usdc)
    ≡ validate_payment_session calls (unlimited calls merchant) (session usdc)
unlisted_as_unlimited_example =
    unlisted_as_unlimited calls merchant usdc limits refl refl (session usdc) (payload usdc) [] []
      usdc_sanitized usdc_asset
