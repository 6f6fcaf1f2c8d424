-- ===== src/Trustlines/Operations.antt =====
-- `verifyTrustlineOperation`: the first operation on trustlines of a transaction. What Horizon
-- answers and the validators of codes and accounts are arguments; the texts of reasons are left out.
use stellar_payment_api.Base.{
  ℕ, String, Bool, true, false, not, ◌&&◌, Option, none, some, List, [], ◌∷◌, if◌then◌else◌, str_eq,
}

-- What `verifyTransactionSignature` answers.
pub record Signature : Type 0 where
  pub valid : Bool
  pub is_multisig : Bool
  pub signature_count : ℕ
  pub threshold_met : Bool

pub data Asset : Type 0 where
  native : Asset
  credit : (code issuer : String) → Asset

-- The operations of a transaction. `asset` may be missing on a decoded operation.
pub data Operation : Type 0 where
  change_trust : (asset : Option Asset) (limit : String) → Operation
  allow_trust : (asset_code : String) (source : Option String) (trustor : String) → Operation
  other_operation : Operation

pub record Transaction : Type 0 where
  pub operations : List Operation
  pub source : Option String
  pub source_account : Option String

-- Horizon, at one verification: `none` where a call throws.
pub record Outside : Type 0 where
  pub signature : Option Signature
  pub transaction : Option Transaction

pub record Validators : Type 0 where
  pub is_valid_asset_code : String → Bool
  pub is_valid_account_id : String → Bool

pub record OperationInfo : Type 0 where
  pub operation_type : String
  pub asset_code : String
  pub asset_issuer : Option String
  pub limit : Option String

pub data Fault : Type 0 where
  no_trustline_operation type_mismatch native_asset invalid_asset_code : Fault
  invalid_issuer invalid_trustor lookup_failed : Fault

pub data Verdict : Type 0 where
  passed : OperationInfo → Verdict
  refused : Fault → Verdict

-- `a || b`, where null and "" are false.
unfoldable pub or_text : Option String → Option String → Option String
or_text none other = other
or_text (some t) other = if str_eq t "" then other else some t

unfoldable pub is_trustline_operation : Operation → Bool
is_trustline_operation (change_trust asset limit) = true
is_trustline_operation (allow_trust asset_code source trustor) = true
is_trustline_operation other_operation = false

unfoldable pub first_trustline_operation : List Operation → Option Operation
first_trustline_operation [] = none
first_trustline_operation (op ∷ ops) =
    if is_trustline_operation op then some op else first_trustline_operation ops

unfoldable pub operation_type : Operation → String
operation_type (change_trust asset limit) = "changeTrust"
operation_type (allow_trust asset_code source trustor) = "allowTrust"
operation_type other_operation = "other"

module _ (validators : Validators) where
  -- The issuer of an `allowTrust` operation, or null.
  unfoldable pub is_valid_issuer : Option String → Bool
  is_valid_issuer none = true
  is_valid_issuer (some issuer) = validators.is_valid_account_id issuer

  unfoldable pub check_asset : Option Asset → String → Verdict
  check_asset none limit = refused lookup_failed
  check_asset (some native) limit = refused native_asset
  check_asset (some (credit code issuer)) limit =
      if not (validators.is_valid_asset_code code)
      then refused invalid_asset_code
      else if not (validators.is_valid_account_id issuer)
      then refused invalid_issuer
      else passed (record {
        operation_type = "changeTrust";
        asset_code = code;
        asset_issuer = some issuer;
        limit = some limit;
      })

  unfoldable pub check_allowed : String → Option String → String → Verdict
  check_allowed code issuer trustor =
      if not (validators.is_valid_asset_code code)
      then refused invalid_asset_code
      else if not (is_valid_issuer issuer)
      then refused invalid_issuer
      else if not (validators.is_valid_account_id trustor)
      then refused invalid_trustor
      else passed (record {
        operation_type = "allowTrust";
        asset_code = code;
        asset_issuer = issuer;
        limit = none;
      })

  unfoldable pub check_operation : Transaction → Operation → Verdict
  check_operation tx (change_trust asset limit) = check_asset asset limit
  check_operation tx (allow_trust code source trustor) =
      check_allowed code (or_text source (or_text tx.source (or_text tx.source_account none)))
        trustor
  check_operation tx other_operation = refused no_trustline_operation

  unfoldable pub check_first : String → Transaction → Option Operation → Verdict
  check_first expected tx none = refused no_trustline_operation
  check_first expected tx (some op) =
      if not (str_eq expected "") && not (str_eq (operation_type op) expected)
      then refused type_mismatch
      else check_operation tx op

  unfoldable pub verify_trustline_operation : String → Option Transaction → Verdict
  verify_trustline_operation expected none = refused lookup_failed
  verify_trustline_operation expected (some tx) =
      check_first expected tx (first_trustline_operation tx.operations)
