-- ===== src/SessionRules/Issuers.antt =====
-- The issuer rules: `resolveAndValidateIssuer`, `validateAllowedIssuers` and the defaults of
-- backend/src/constants/assetConstants.js. `trim`, `toUpperCase`, `toLowerCase` and the test for a
-- Stellar public key are parameters, as is the configured network (none or empty: testnet).
use stellar_payment_api.Base.{
  ℕ, zero, suc, ◌+◌, ◌≤◌, ◌<◌, String, Bool, true, false, not, ◌&&◌, ◌||◌, ◌≡◌, ◌≢◌, ◌↔◌, refl, sym,
  ap, ◌∙◌, ◌⊎◌, inl, inr, Option, none, some, List, [], ◌∷◌, ◌++◌, if◌then◌else◌, length, ltb, leb,
  ◌==◌, Bool-cases, Option-cases, Has, str_eq, eq_iff, eq_refl, arith,
}
pub mod Accepted

-- `ASSET_DEFAULTS[asset]`: the issuers on the test network and on the public one.
asset_defaults : String → Option (String × String)
asset_defaults asset =
    if str_eq asset "USDC"
    then some (
      "GBBD47IF6LWK7P7MDEVSCWR7DPUWV3NY3DTQEVFL4NAT4AQH3ZLLFLA5",
      "GA5ZSEJYB37JRC5AVCIAZDL2Y44SCRY6S4T6R4V4E35I7XY7C2NMA72S",
    )
    else none

-- `defaults[networkKey] || defaults.testnet`
network_issuer : String → Option (String × String) → Option String
network_issuer key none = none
network_issuer key (some (testnet, public)) = some (if str_eq key "public" then public else testnet)

-- `x || fallback` for a text that may be missing.
text_or : String → Option String → String
text_or fallback none = fallback
text_or fallback (some s) = if str_eq s "" then fallback else s

pub data Rejection : Type 0 where
  missing_issuer invalid_issuer issuer_not_allowed : Rejection

pub data Resolved : Type 0 where
  refused : Rejection → Resolved
  issued : (asset_issuer : Option String) → Resolved

pub record TextCalls : Type 0 where
  pub trim : String → String
  pub upper : String → String
  pub lower : String → String
  pub is_valid_public_key : String → Bool
  pub network : Option String

module _ (calls : TextCalls) where
  -- `normalizeAssetCode`
  unfoldable pub normalize_asset_code : String → String
  normalize_asset_code code = calls.upper (calls.trim code)

  -- `getDefaultAssetIssuer`
  pub get_default_asset_issuer : String → Option String
  get_default_asset_issuer code =
      network_issuer (calls.lower (calls.trim (text_or "testnet" calls.network)))
        (asset_defaults (normalize_asset_code code))

  unfoldable pub supplied_or_default : String → Option String → Option String
  supplied_or_default asset none = get_default_asset_issuer asset
  supplied_or_default asset (some raw) =
      if str_eq (calls.trim raw) "" then get_default_asset_issuer asset else some (calls.trim raw)

  -- `resolveAssetIssuer`
  unfoldable pub resolve_asset_issuer : String → Option String → Option String
  resolve_asset_issuer code raw =
      let asset = normalize_asset_code code in
      if str_eq asset "XLM" then none else supplied_or_default asset raw

  unfoldable pub check_issuer : Bool → Option String → Resolved
  check_issuer true issuer = issued issuer
  check_issuer false none = refused missing_issuer
  check_issuer false (some issuer) =
      if str_eq issuer ""
      then refused missing_issuer
      else if calls.is_valid_public_key issuer
      then issued (some issuer)
      else refused invalid_issuer

  -- `resolveAndValidateIssuer`
  unfoldable pub resolve_and_validate_issuer : String → Option String → Resolved
  resolve_and_validate_issuer asset raw =
      check_issuer (str_eq asset "XLM") (resolve_asset_issuer asset raw)

-- `allowed.includes(assetIssuer)` after the entries that are no strings are filtered out.
unfoldable pub includes_issuer : String → List (Option String) → Bool
includes_issuer issuer [] = false
includes_issuer issuer (none ∷ entries) = includes_issuer issuer entries
includes_issuer issuer (some s ∷ entries) = str_eq s issuer || includes_issuer issuer entries

unfoldable pub check_allowed : Option String → List (Option String) → Option Rejection
check_allowed issuer [] = none
check_allowed none (entry ∷ entries) = some issuer_not_allowed
check_allowed (some issuer) (entry ∷ entries) =
    if not (str_eq issuer "") && includes_issuer issuer (entry ∷ entries)
    then none
    else some issuer_not_allowed

-- `validateAllowedIssuers`; `none` is an allowlist that is no array.
unfoldable pub validate_allowed_issuers :
    String → Option String → Option (List (Option String)) → Option Rejection
validate_allowed_issuers asset issuer none = none
validate_allowed_issuers asset issuer (some entries) =
    if str_eq asset "XLM" then none else check_allowed issuer entries
