-- ===== src/AssetIssuers/Operations.antt =====
-- `verifyAssetIssuerOperation`: the first operation of a transaction that is about assets. What
-- Horizon answers and the validators of codes and keys are arguments; the texts of reasons are left
-- out. An expectation that is not given is the empty text.
use stellar_payment_api.Base.{
  String, Bool, true, false, not, ◌&&◌, ◌||◌, Option, none, some, List, [], ◌∷◌, if◌then◌else◌,
  str_eq,
}
use stellar_payment_api.Trustlines.Operations.{Asset, native, credit, or_text}
pub mod Expected

-- The operations, with the assets that they may lack.
pub data Operation : Type 0 where
  payment : (asset : Option Asset) (amount : String) → Operation
  change_trust : (asset : Option Asset) → Operation
  manage_buy_offer manage_sell_offer : (selling buying : Option Asset) (amount : String) → Operation
  path_payment_strict_receive path_payment_strict_send :
      (dest_asset : Option Asset) (dest_amount dest_min : Option String) → Operation
  create_passive_sell_offer claim_claimable_balance unrelated : Operation

pub record Validators : Type 0 where
  pub is_valid_asset_code : String → Bool
  pub is_valid_public_key : String → Bool

pub record Expectation : Type 0 where
  pub operation : String
  pub asset_code : String
  pub asset_issuer : String

-- The asset and the amount that are found: `none` is null.
pub record Found : Type 0 where
  pub asset_code : Option String
  pub asset_issuer : Option String
  pub amount : Option String

pub data Fault : Type 0 where
  no_operations no_relevant_operation type_mismatch native_trustline : Fault
  code_mismatch issuer_mismatch failed : Fault

pub data Verdict : Type 0 where
  passed : (operation_type : String) → Found → Verdict
  refused : Fault → Verdict

unfoldable pub is_relevant : Operation → Bool
is_relevant unrelated = false
is_relevant op = true

unfoldable pub first_relevant : List Operation → Option Operation
first_relevant [] = none
first_relevant (op ∷ ops) = if is_relevant op then some op else first_relevant ops

unfoldable pub operation_type : Operation → String
operation_type (payment asset amount) = "payment"
operation_type (change_trust asset) = "changeTrust"
operation_type (manage_buy_offer selling buying amount) = "manageBuyOffer"
operation_type (manage_sell_offer selling buying amount) = "manageSellOffer"
operation_type (path_payment_strict_receive asset amount least) = "pathPaymentStrictReceive"
operation_type (path_payment_strict_send asset amount least) = "pathPaymentStrictSend"
operation_type create_passive_sell_offer = "createPassiveSellOffer"
operation_type claim_claimable_balance = "claimClaimableBalance"
operation_type unrelated = "unrelated"

-- `expected && actual !== expected`
unfoldable pub differs : String → Option String → Bool
differs expected none = not (str_eq expected "")
differs expected (some actual) = not (str_eq expected "") && not (str_eq actual expected)

unfoldable pub is_native_trustline : Operation → Found → Bool
is_native_trustline (change_trust asset) f = not (differs "XLM" f.asset_code)
is_native_trustline op f = false

module _ (validators : Validators) where
  -- `extractAsset`: the code and the issuer; `none` where it throws.
  unfoldable pub extract_asset : Option Asset → Option (String × Option String)
  extract_asset none = some ("XLM", none)
  extract_asset (some native) = some ("XLM", none)
  extract_asset (some (credit code issuer)) =
      if validators.is_valid_asset_code code && validators.is_valid_public_key issuer
      then some (code, some issuer)
      else none

  unfoldable pub found_asset : Option String → Option (String × Option String) → Option Found
  found_asset amount none = none
  found_asset amount (some (code, issuer)) =
      some (record { asset_code = some code; asset_issuer = issuer; amount = amount })

  -- An offer has the code that is bought, and its issuer or else that of what is sold.
  unfoldable pub found_offer :
      String → Option (String × Option String) → Option (String × Option String) → Option Found
  found_offer amount none buying = none
  found_offer amount (some selling) none = none
  found_offer amount (some (sold, seller)) (some (code, issuer)) = some (record {
    asset_code = some code;
    asset_issuer = or_text issuer seller;
    amount = some amount;
  })

  unfoldable pub find_asset : Operation → Option Found
  find_asset (payment asset amount) = found_asset (some amount) (extract_asset asset)
  find_asset (change_trust asset) = found_asset none (extract_asset asset)
  find_asset (manage_buy_offer selling buying amount) =
      found_offer amount (extract_asset selling) (extract_asset buying)
  find_asset (manage_sell_offer selling buying amount) =
      found_offer amount (extract_asset selling) (extract_asset buying)
  find_asset (path_payment_strict_receive asset amount least) =
      found_asset (or_text amount least) (extract_asset asset)
  find_asset (path_payment_strict_send asset amount least) =
      found_asset (or_text amount least) (extract_asset asset)
  find_asset op = some (record { asset_code = none; asset_issuer = none; amount = none })

  unfoldable pub check_found : Expectation → Operation → Option Found → Verdict
  check_found e op none = refused failed
  check_found e op (some f) =
      if is_native_trustline op f
      then refused native_trustline
      else if differs e.asset_code f.asset_code
      then refused code_mismatch
      else if differs e.asset_issuer f.asset_issuer
      then refused issuer_mismatch
      else passed (operation_type op) f

  unfoldable pub check_first : Expectation → Option Operation → Verdict
  check_first e none = refused no_relevant_operation
  check_first e (some op) =
      if differs e.operation (some (operation_type op))
      then refused type_mismatch
      else check_found e op (find_asset op)

  unfoldable pub check_operations : Expectation → List Operation → Verdict
  check_operations e [] = refused no_operations
  check_operations e (op ∷ ops) = check_first e (first_relevant (op ∷ ops))

  -- `none` where the call of Horizon throws.
  unfoldable pub verify_asset_issuer_operation : Expectation → Option (List Operation) → Verdict
  verify_asset_issuer_operation e none = refused failed
  verify_asset_issuer_operation e (some ops) = check_operations e ops
