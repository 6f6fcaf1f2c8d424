-- ===== src/Trustlines/Queries.antt =====
-- `findPaymentsByAsset`: the conditions of the query, with numbered placeholders, and its
-- parameters. The texts of the query are left out.
use stellar_payment_api.Base.{
  ℕ, zero, suc, ◌+◌, String, Bool, Option, none, some, List, [], ◌∷◌, ◌++◌, if◌then◌else◌, str_eq,
}
pub mod Placeholders

pub data Value : Type 0 where
  text : String → Value
  number : ℕ → Value

pub data Operator : Type 0 where
  equals at_least at_most : Operator

-- `column op $place`, or `column IS NULL`.
pub data Condition : Type 0 where
  compares : Operator → (column : String) → (place : ℕ) → Condition
  is_null : (column : String) → Condition

pub record Options : Type 0 where
  pub status : Option String
  pub limit : ℕ
  pub offset : ℕ
  pub date_from : Option String
  pub date_to : Option String

-- The query while it is built: `whereConditions`, `params`, `paramIndex`.
pub record Draft : Type 0 where
  pub conditions : List Condition
  pub params : List Value
  pub param_index : ℕ

unfoldable pub begin_query : String → String → Draft
begin_query merchant_id asset_code = record {
  conditions =
      compares equals "p.merchant_id" 1 ∷ compares equals "p.asset" 2 ∷ is_null "p.deleted_at" ∷ [];
  params = text merchant_id ∷ text asset_code ∷ [];
  param_index = 3;
}

unfoldable pub add_condition : Operator → String → String → Draft → Draft
add_condition op column value d = record {
  conditions = d.conditions ++ (compares op column d.param_index ∷ []);
  params = d.params ++ (text value ∷ []);
  param_index = d.param_index + 1;
}

-- `if (value) { … }`: the empty text counts as missing.
unfoldable pub add_given : Operator → String → Option String → Draft → Draft
add_given op column none d = d
add_given op column (some value) d = if str_eq value "" then d else add_condition op column value d

unfoldable pub add_issuer : Option String → Draft → Draft
add_issuer none d = d
add_issuer (some issuer) d =
    if str_eq issuer ""
    then record d { conditions = d.conditions ++ (is_null "p.asset_issuer" ∷ []) }
    else add_condition equals "p.asset_issuer" issuer d

pub record Query : Type 0 where
  pub conditions : List Condition
  pub params : List Value
  pub limit_place : ℕ
  pub offset_place : ℕ

unfoldable pub end_query : ℕ → ℕ → Draft → Query
end_query limit offset d = record {
  conditions = d.conditions;
  params = d.params ++ (number limit ∷ number offset ∷ []);
  limit_place = d.param_index;
  offset_place = d.param_index + 1;
}

unfoldable pub find_payments_by_asset : String → String → Option String → Options → Query
find_payments_by_asset merchant_id asset_code asset_issuer o = end_query o.limit o.offset (
    add_given at_most "p.created_at" o.date_to (
      add_given at_least "p.created_at" o.date_from (
        add_given equals "p.status" o.status
          (add_issuer asset_issuer (begin_query merchant_id asset_code)))))
