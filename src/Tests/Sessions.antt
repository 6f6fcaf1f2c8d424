-- ===== src/Tests/Sessions.antt =====
-- The session rules at a concrete body and configuration.
use stellar_payment_api.Base.{
  ℕ, ◌-◌, ◌≤◌, ◌≡◌, refl, String, true, false, Option, none, some, List, [], ◌∷◌, Has, str_eq, ltb,
  ◌⊎◌, inl, arith,
}
use stellar_payment_api.SessionRules.{
  Text, text, scalar, node, Fields, end, field, is_forbidden, accepted, is_control, is_bidi,
  is_zero_width, is_space, strip, trim_start, keep_nonspace, trim_end, trim, any,
  sanitize_session_string, is_required,
}
use stellar_payment_api.SessionRules.Values.{IsClean}
use stellar_payment_api.SessionRules.Payloads.{
  find_forbidden_keys, child_path, set_field, stored, clean_text, sanitize_field, sanitize_from,
  sanitize_scanned, sanitize_session_payload, get_field, as_text,
}
use stellar_payment_api.SessionRules.Payloads.Accepted.{accepted_fields}
use stellar_payment_api.SessionRules.Issuers.{
  TextCalls, issued, supplied_or_default, resolve_asset_issuer, check_issuer, normalize_asset_code,
  resolve_and_validate_issuer,
}
use stellar_payment_api.SessionRules.Limits.{
  Numbers, numeric, AssetLimits, min_greater_than_max, to_finite_bound, finite_or_none, is_set,
  unusable, are_inverted, noted, inspect_entry, inspect_payment_limits_config,
}

abbrev same_text : Text → Text
same_text s = s

-- { "amount": …, "asset": " XLM", "metadata": { "order": … } }
abbrev body : Fields
body = field "amount" scalar (
    field "asset" (text (32 ∷ 0x58 ∷ 0x4c ∷ 0x4d ∷ []))
      (field "metadata" (node false (field "order" scalar end)) end))

abbrev cleaned : Fields
cleaned = field "amount" scalar (
    field "asset" (text (0x58 ∷ 0x4c ∷ 0x4d ∷ []))
      (field "metadata" (node false (field "order" scalar end)) end))

body_is_accepted :
    sanitize_session_payload same_text (node false body) ≡ accepted cleaned ("asset" ∷ []) []
unfolding is_control is_bidi is_zero_width is_space strip trim_start keep_nonspace trim_end trim
    sanitize_session_string is_forbidden is_required any child_path get_field as_text set_field
    stored clean_text sanitize_field sanitize_from sanitize_scanned sanitize_session_payload
    find_forbidden_keys
body_is_accepted = refl

cleaned_asset : as_text (get_field "asset" cleaned) ≡ some (0x58 ∷ 0x4c ∷ 0x4d ∷ [])
unfolding get_field as_text
cleaned_asset = refl

accepted_fields_example : (3 ≤ 12) × IsClean (0x58 ∷ 0x4c ∷ 0x4d ∷ [])
accepted_fields_example =
    accepted_fields same_text body cleaned ("asset" ∷ []) [] "asset" 12 (0x58 ∷ 0x4c ∷ 0x4d ∷ [])
      body_is_accepted (inl refl) cleaned_asset

abbrev calls : TextCalls
calls = record {
  trim = λ s. s;
  upper = λ s. s;
  lower = λ s. s;
  is_valid_public_key = λ s. str_eq s "GISSUER";
  network = none;
}

issuer_is_issued :
    resolve_and_validate_issuer calls "EURT" (some "GISSUER") ≡ issued (some "GISSUER")
unfolding supplied_or_default normalize_asset_code resolve_asset_issuer check_issuer
    resolve_and_validate_issuer
issuer_is_issued = refl

-- Whole numbers in place of JavaScript's.
abbrev whole : Numbers ℕ String
whole = record {
  below = ltb;
  is_finite = λ n. true;
  is_at_most_zero = λ n. ltb n 1;
  exceeds_stellar_max = λ n. ltb 922337203685 n;
  has_seven_decimals = λ n. true;
  rounded_difference = λ a b. a - b;
  to_number = λ s. 0;
}

abbrev limits : List (String × Option (AssetLimits ℕ String))
limits =
    ("XLM", some (record { lowest = numeric 5; highest = numeric 100 }))
    ∷ ("USDC", some (record { lowest = numeric 50; highest = numeric 10 }))
    ∷ []

usable : (n : ℕ) → to_finite_bound whole (numeric n) ≡ some n
unfolding to_finite_bound finite_or_none
usable n = refl

comparable : (a c : ℕ) → ltb a c ≡ true → (ltb a 20 ≡ true) ⊎ (ltb 20 c ≡ true)
comparable a c lt = ground arith

usdc_is_inverted :
    Has min_greater_than_max (inspect_payment_limits_config whole "USDC" (some limits))
unfolding finite_or_none to_finite_bound is_set unusable are_inverted noted inspect_entry
    inspect_payment_limits_config
usdc_is_inverted = inl refl
