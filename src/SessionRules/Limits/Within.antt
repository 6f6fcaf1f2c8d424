-- ===== src/SessionRules/Limits/Within.antt =====
-- Which amounts a merchant's limits let pass.
use stellar_payment_api.Base.{
  String, Bool, true, false, ◌≡◌, ◌≢◌, ◌↔◌, refl, ◌⊎◌, inl, inr, Option, none, some, List, ◌++◌,
  Has, arith,
}
use stellar_payment_api.OrderedMap
use stellar_payment_api.SessionRules.Limits.{
  Numbers, AssetLimits, validate_session_amount, invalid_min, invalid_max, min_greater_than_max,
  to_finite_bound, check_max, check_bounds, check_entry, validate_per_asset_limits, unusable,
  are_inverted, noted, inspect_entry, inspect_payment_limits_config,
}

module _ {N R : Type 0} (num : Numbers N R) where
  -- For an asset with a finite minimum and a finite maximum an amount passes exactly when it is
  -- neither below the one nor above the other.
  passes_iff :
      (raw_asset : String) (amount low high : N) (limits : List (String × Option (AssetLimits N R)))
      (l : AssetLimits N R)
      → OrderedMap.get raw_asset limits ≡ some (some l)
      → to_finite_bound num l.lowest ≡ some low
      → to_finite_bound num l.highest ≡ some high
      → (validate_per_asset_limits num raw_asset amount (some limits) ≡ none)
        ↔ ((num.below amount low ≡ false) × (num.below high amount ≡ false))
  unfolding validate_per_asset_limits check_entry check_bounds check_max
  passes_iff raw_asset amount low high limits l there e f = rw (there, e, f) (ground arith)

  noted-Has :
      (b c d : Bool)
      → Has min_greater_than_max
          (noted num b invalid_min ++ noted num c invalid_max ++ noted num d min_greater_than_max)
      → d ≡ true
  unfolding noted
  noted-Has b c true h = refl
  noted-Has true true false (inl e) = cc
  noted-Has true true false (inr (inl e)) = cc
  noted-Has true true false (inr (inr e)) = absurd e
  noted-Has true false false (inl e) = cc
  noted-Has true false false (inr e) = absurd e
  noted-Has false true false (inl e) = cc
  noted-Has false true false (inr e) = absurd e
  noted-Has false false false h = absurd h

  check_bounds_inverted :
      (amount : N) (lowest highest : Option N)
      → ((a c : N)
          → num.below a c ≡ true
          → (num.below a amount ≡ true) ⊎ (num.below amount c ≡ true))
      → are_inverted num lowest highest ≡ true
      → check_bounds num amount lowest highest ≢ none
  unfolding are_inverted check_bounds check_max
  check_bounds_inverted amount none none comparable i = cc
  check_bounds_inverted amount none (some high) comparable i = cc
  check_bounds_inverted amount (some low) none comparable i = cc
  check_bounds_inverted amount (some low) (some high) comparable i = elim (comparable high low i) [
    | inl above ↦ ground (arith, above)
    | inr below ↦ ground (arith, below)
  ]

  check_entry_inverted :
      (amount : N) (entry : Option (Option (AssetLimits N R)))
      → ((a c : N)
          → num.below a c ≡ true
          → (num.below a amount ≡ true) ⊎ (num.below amount c ≡ true))
      → Has min_greater_than_max (inspect_entry num entry)
      → check_entry num amount entry ≢ none
  unfolding inspect_entry check_entry
  check_entry_inverted amount none comparable h = absurd h
  check_entry_inverted amount (some none) comparable (inl e) = cc
  check_entry_inverted amount (some none) comparable (inr e) = absurd e
  check_entry_inverted amount (some (some l)) comparable h =
      let lowest = to_finite_bound num l.lowest in
      let highest = to_finite_bound num l.highest in
      check_bounds_inverted amount lowest highest comparable (
        noted-Has (unusable num l.lowest lowest) (unusable num l.highest highest)
          (are_inverted num lowest highest) h)

  -- When the inspection of a merchant's limits reports a minimum above the maximum, every amount
  -- that compares with the two, as a finite number does, is refused.
  inverted_limits_refuse :
      (raw_asset : String) (amount : N) (limits : Option (List (String × Option (AssetLimits N R))))
      → ((a c : N)
          → num.below a c ≡ true
          → (num.below a amount ≡ true) ⊎ (num.below amount c ≡ true))
      → Has min_greater_than_max (inspect_payment_limits_config num raw_asset limits)
      → validate_per_asset_limits num raw_asset amount limits ≢ none
  unfolding inspect_payment_limits_config validate_per_asset_limits
  inverted_limits_refuse raw_asset amount none comparable h = absurd h
  inverted_limits_refuse raw_asset amount (some limits) comparable h =
      check_entry_inverted amount (OrderedMap.get raw_asset limits) comparable h

  -- An asset that is no key of the configured limits has no limits.
  pub unlisted_unlimited :
      (raw_asset : String) (amount : N) (limits : List (String × Option (AssetLimits N R)))
      → OrderedMap.get raw_asset limits ≡ none
      → validate_per_asset_limits num raw_asset amount (some limits) ≡ none
  unfolding validate_per_asset_limits check_entry
  unlisted_unlimited raw_asset amount limits unlisted = rw unlisted

  -- An amount without a fault is finite, positive, and one that Stellar can represent.
  pub sound_amount :
      (amount : N)
      → validate_session_amount num (some amount) ≡ none
      → (num.is_finite amount ≡ true)
        × (num.is_at_most_zero amount ≡ false)
        × (num.exceeds_stellar_max amount ≡ false)
        × (num.has_seven_decimals amount ≡ true)
  unfolding validate_session_amount
  sound_amount amount e = ground arith
