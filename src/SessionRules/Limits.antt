-- ===== src/SessionRules/Limits.antt =====
-- The rules on asset codes and amounts: `validateSessionAsset`, `validateSessionAmount`,
-- `toFiniteBound`, `validatePerAssetLimits` and `inspectPaymentLimitsConfig`. JavaScript's numbers
-- and what it does with them are parameters.
use stellar_payment_api.Base.{
  ℕ, zero, suc, ◌+◌, ◌≤◌, ◌<◌, String, Bool, true, false, not, ◌&&◌, ◌||◌, ◌≡◌, ◌≢◌, ◌↔◌, refl, sym,
  ap, ◌∙◌, ◌⊎◌, inl, inr, Option, none, some, List, [], ◌∷◌, ◌++◌, if◌then◌else◌, length, ltb, leb,
  ◌==◌, Bool-cases, Option-cases, Has, str_eq, eq_iff, eq_refl, arith,
}
use stellar_payment_api.SessionRules.{Text, between}
use stellar_payment_api.OrderedMap
pub mod Within

-- `N` are the numbers, and `R` the values of a configuration that are neither missing nor numbers.
pub record Numbers (N R : Type 0) : Type 0 where
  pub below : N → N → Bool
  pub is_finite : N → Bool
  pub is_at_most_zero : N → Bool
  pub exceeds_stellar_max : N → Bool
  pub has_seven_decimals : N → Bool
  pub rounded_difference : N → N → N
  pub to_number : R → N

-- A bound as the merchant configured it: `undefined` or `null`, "", a number, or anything else.
pub data Bound (N R : Type 0) : Type 0 where
  unset empty_text : Bound N R
  numeric : N → Bound N R
  other : R → Bound N R

pub record AssetLimits (N R : Type 0) : Type 0 where
  pub lowest : Bound N R
  pub highest : Bound N R

pub data Refusal (N : Type 0) : Type 0 where
  below_min above_max : (bound delta : N) → Refusal N

pub data Anomaly : Type 0 where
  invalid_entry invalid_min invalid_max min_greater_than_max : Anomaly

pub data AmountFault : Type 0 where
  not_positive too_large too_precise : AmountFault

-- /^[A-Z0-9]{1,12}$/
unfoldable pub is_code_unit : ℕ → Bool
is_code_unit c = between 0x41 0x5a c || between 0x30 0x39 c

unfoldable pub all : (ℕ → Bool) → Text → Bool
all p [] = true
all p (c ∷ s) = p c && all p s

-- `validateSessionAsset`: whether there is no rejection. `none` is an asset that is no string.
unfoldable pub is_session_asset : Option Text → Bool
is_session_asset none = false
is_session_asset (some s) = between 1 12 (length s) && all is_code_unit s

module _ {N R : Type 0} (num : Numbers N R) where
  -- `validateSessionAmount`; `none` is an amount that is no number.
  unfoldable pub validate_session_amount : Option N → Option AmountFault
  validate_session_amount none = some not_positive
  validate_session_amount (some amount) =
      if not (num.is_finite amount) || num.is_at_most_zero amount
      then some not_positive
      else if num.exceeds_stellar_max amount
      then some too_large
      else if not (num.has_seven_decimals amount)
      then some too_precise
      else none

  unfoldable pub finite_or_none : N → Option N
  finite_or_none n = if num.is_finite n then some n else none

  -- `toFiniteBound`
  unfoldable pub to_finite_bound : Bound N R → Option N
  to_finite_bound unset = none
  to_finite_bound empty_text = none
  to_finite_bound (numeric n) = finite_or_none n
  to_finite_bound (other r) = finite_or_none (num.to_number r)

  unfoldable pub check_max : N → Option N → Option (Refusal N)
  check_max amount none = none
  check_max amount (some highest) =
      if num.below highest amount
      then some (above_max highest (num.rounded_difference amount highest))
      else none

  unfoldable pub check_bounds : N → Option N → Option N → Option (Refusal N)
  check_bounds amount none highest = check_max amount highest
  check_bounds amount (some lowest) highest =
      if num.below amount lowest
      then some (below_min lowest (num.rounded_difference lowest amount))
      else check_max amount highest

  -- The entry of an asset: `none` is one that is no object.
  unfoldable pub check_entry : N → Option (Option (AssetLimits N R)) → Option (Refusal N)
  check_entry amount none = none
  check_entry amount (some none) = none
  check_entry amount (some (some limits)) =
      check_bounds amount (to_finite_bound limits.lowest) (to_finite_bound limits.highest)

  -- `validatePerAssetLimits`; `none` is a configuration that is no object.
  unfoldable pub validate_per_asset_limits :
      String → N → Option (List (String × Option (AssetLimits N R))) → Option (Refusal N)
  validate_per_asset_limits raw_asset amount none = none
  validate_per_asset_limits raw_asset amount (some limits) =
      check_entry amount (OrderedMap.get raw_asset limits)

  unfoldable pub is_set : Bound N R → Bool
  is_set unset = false
  is_set _ = true

  unfoldable pub unusable : Bound N R → Option N → Bool
  unusable b none = is_set b
  unusable b (some n) = false

  unfoldable pub are_inverted : Option N → Option N → Bool
  are_inverted (some lowest) (some highest) = num.below highest lowest
  are_inverted _ _ = false

  unfoldable pub noted : Bool → Anomaly → List Anomaly
  noted true a = a ∷ []
  noted false a = []

  unfoldable pub inspect_entry : Option (Option (AssetLimits N R)) → List Anomaly
  inspect_entry none = []
  inspect_entry (some none) = invalid_entry ∷ []
  inspect_entry (some (some limits)) =
      let lowest = to_finite_bound limits.lowest in
      let highest = to_finite_bound limits.highest in
      noted (unusable limits.lowest lowest) invalid_min
      ++ noted (unusable limits.highest highest) invalid_max
      ++ noted (are_inverted lowest highest) min_greater_than_max

  -- `inspectPaymentLimitsConfig`
  unfoldable pub inspect_payment_limits_config :
      String → Option (List (String × Option (AssetLimits N R))) → List Anomaly
  inspect_payment_limits_config raw_asset none = []
  inspect_payment_limits_config raw_asset (some limits) =
      inspect_entry (OrderedMap.get raw_asset limits)
