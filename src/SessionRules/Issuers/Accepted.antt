-- ===== src/SessionRules/Issuers/Accepted.antt =====
-- Which issuers pass the two rules.
use stellar_payment_api.Base.{
  String, true, false, ◌≡◌, ◌↔◌, refl, sym, ap, ◌⊎◌, inl, inr, Option, none, some, List, [], ◌∷◌,
  Bool-cases, Has, str_eq, eq_iff, arith,
}
use stellar_payment_api.SessionRules.Issuers.{
  TextCalls, issued, get_default_asset_issuer, supplied_or_default, resolve_asset_issuer,
  check_issuer, resolve_and_validate_issuer, normalize_asset_code, includes_issuer, check_allowed,
  validate_allowed_issuers,
}

includes_issuer_sound :
    (issuer : String) (entries : List (Option String))
    → includes_issuer issuer entries ≡ true
    → Has (some issuer) entries
unfolding includes_issuer
includes_issuer_sound issuer [] e = ground arith
includes_issuer_sound issuer (none ∷ entries) e = inr (includes_issuer_sound issuer entries e)
includes_issuer_sound issuer (some s ∷ entries) e = elim (Bool-cases (str_eq s issuer)) [
  | inl same ↦ inl (ap some (sym ((eq_iff s issuer).0 same)))
  | inr other ↦ inr (includes_issuer_sound issuer entries (ground (arith, other)))
]

includes_issuer_complete :
    (issuer : String) (entries : List (Option String))
    → Has (some issuer) entries
    → includes_issuer issuer entries ≡ true
unfolding includes_issuer
includes_issuer_complete issuer [] h = absurd h
includes_issuer_complete issuer (none ∷ entries) (inl e) = cc
includes_issuer_complete issuer (none ∷ entries) (inr h) = includes_issuer_complete issuer entries h
includes_issuer_complete issuer (some s ∷ entries) (inl e) = ground (arith, eq_iff s issuer)
includes_issuer_complete issuer (some s ∷ entries) (inr h) =
    ground (arith, includes_issuer_complete issuer entries h)

-- An allowlist with entries lets a payment in another asset than XLM pass exactly when the issuer
-- is one of its entries.
pub allowed_issuers_iff :
    (asset issuer : String) (entry : Option String) (entries : List (Option String))
    → str_eq asset "XLM" ≡ false
    → str_eq issuer "" ≡ false
    → (validate_allowed_issuers asset (some issuer) (some (entry ∷ entries)) ≡ none)
      ↔ Has (some issuer) (entry ∷ entries)
unfolding validate_allowed_issuers check_allowed
allowed_issuers_iff asset issuer entry entries other given = (
  λ h. includes_issuer_sound issuer (entry ∷ entries) (ground (arith, other, given)),
  λ h. rw (other, given, includes_issuer_complete issuer (entry ∷ entries) h) refl,
)

module _ (calls : TextCalls) where
  check_issuer-issued :
      (i : String) (o : Option String)
      → check_issuer calls false (some i) ≡ issued o
      → (o ≡ some i) × (str_eq i "" ≡ false) × (calls.is_valid_public_key i ≡ true)
  unfolding check_issuer
  check_issuer-issued i o e = ground arith

  -- Where an issuer comes from: the request, or the default of the asset.
  abbrev pub IsSource : String → Option String → String → Type 0
  IsSource asset raw i =
      ((s : String) × (raw ≡ some s) × (calls.trim s ≡ i))
      ⊎ (get_default_asset_issuer calls asset ≡ some i)

  supplied-IsSource :
      (asset : String) (raw : Option String) (i : String)
      → supplied_or_default calls asset raw ≡ some i
      → IsSource asset raw i
  unfolding supplied_or_default
  supplied-IsSource asset none i e = inr e
  supplied-IsSource asset (some s) i e = elim (Bool-cases (str_eq (calls.trim s) "")) [
    | inl empty ↦ inr (ground (arith, empty))
    | inr given ↦ inl (s, refl, ground (arith, given))
  ]

  resolved-IsSource :
      (asset : String) (raw : Option String) (i : String)
      → resolve_asset_issuer calls asset raw ≡ some i
      → IsSource (normalize_asset_code calls asset) raw i
  unfolding resolve_asset_issuer
  resolved-IsSource asset raw i e =
      supplied-IsSource (normalize_asset_code calls asset) raw i (ground arith)

  issued-cases :
      (asset : String) (raw found o : Option String)
      → resolve_asset_issuer calls asset raw ≡ found
      → check_issuer calls false found ≡ issued o
      → (i : String) × (o ≡ some i)
        × (calls.is_valid_public_key i ≡ true)
        × IsSource (normalize_asset_code calls asset) raw i
  unfolding check_issuer
  issued-cases asset raw none o e h = cc
  issued-cases asset raw (some i) o e h =
      let (same, given, valid) = check_issuer-issued i o h in
      (i, same, valid, resolved-IsSource asset raw i e)

  -- For another asset than XLM, what is issued is a valid public key, and it is the trimmed issuer
  -- of the request or the default issuer of the asset.
  pub issued_issuer :
      (asset : String) (raw o : Option String)
      → str_eq asset "XLM" ≡ false
      → resolve_and_validate_issuer calls asset raw ≡ issued o
      → (i : String) × (o ≡ some i)
        × (calls.is_valid_public_key i ≡ true)
        × IsSource (normalize_asset_code calls asset) raw i
  unfolding resolve_and_validate_issuer
  issued_issuer asset raw o other h =
      issued-cases asset raw (resolve_asset_issuer calls asset raw) o refl (rw other at h)
