-- ===== src/Trustlines/Verifier/Genuine.antt =====
-- What a valid verification rests on.
use stellar_payment_api.Base.{
  ◌≡◌, ◌⊎◌, inl, inr, refl, sym, ap, ◌∙◌, String, Bool, true, false, Option, none, some, if_both,
  str_eq, eq_iff, Bool-cases, Option-cases, arith,
}
use stellar_payment_api.Trustlines.Verifier.{
  Verification, invalid_signature, combine, Request, verify_signed, verify_uncached,
}
use stellar_payment_api.Trustlines.Operations.{
  Signature, native, credit, Operation, change_trust, allow_trust, other_operation, Transaction,
  Validators, OperationInfo, Verdict, passed, refused, first_trustline_operation, operation_type,
  is_valid_issuer, check_asset, check_allowed, check_operation, check_first,
  verify_trustline_operation,
}

module _ (validators : Validators) where
  -- The transaction of the request is signed, and its first operation on trustlines is of the type
  -- that is expected, if one is, and names a valid asset, the one in the result.
  pub record IsGenuine (q : Request) (r : Verification) : Type 0 where
    pub signature : Signature
    pub transaction : Transaction
    pub operation : Operation
    pub info : OperationInfo
    pub signed : q.outside.signature ≡ some signature
    pub is_valid : signature.valid ≡ true
    pub answered : q.outside.transaction ≡ some transaction
    pub first : first_trustline_operation transaction.operations ≡ some operation
    pub expected : (q.expected_operation ≡ "") ⊎ (operation_type operation ≡ q.expected_operation)
    pub told : r.info ≡ some info
    pub same_type : info.operation_type ≡ operation_type operation
    pub valid_code : validators.is_valid_asset_code info.asset_code ≡ true
    pub valid_issuer : is_valid_issuer validators info.asset_issuer ≡ true

  checked :
      (tx : Transaction) (op : Operation) (info : OperationInfo)
      → check_operation validators tx op ≡ passed info
      → (info.operation_type ≡ operation_type op)
        × (validators.is_valid_asset_code info.asset_code ≡ true)
        × (is_valid_issuer validators info.asset_issuer ≡ true)
  unfolding check_operation check_asset check_allowed operation_type is_valid_issuer
  checked tx (change_trust none limit) info passes = ground (arith, passes)
  checked tx (change_trust (some native) limit) info passes = ground (arith, passes)
  checked tx (change_trust (some (credit code issuer)) limit) info passes = ground (arith, passes)
  checked tx (allow_trust code source trustor) info passes = ground (arith, passes)
  checked tx other_operation info passes = ground (arith, passes)

  expects :
      (expected : String) (tx : Transaction) (op : Operation) (info : OperationInfo)
      → check_first validators expected tx (some op) ≡ passed info
      → ((expected ≡ "") ⊎ (operation_type op ≡ expected))
        × (check_operation validators tx op ≡ passed info)
  unfolding check_first
  expects expected tx op info passes = elim (Bool-cases (str_eq expected "")) [
    | inl any ↦ (inl ((eq_iff expected "").0 any), ground (arith, any, passes))
    | inr some_type ↦ elim (Bool-cases (str_eq (operation_type op) expected)) [
      | inl same ↦ (
        inr ((eq_iff (operation_type op) expected).0 same),
        ground (arith, some_type, same, passes),
      )
      | inr other ↦ ground (arith, some_type, other, passes)
    ]
  ]

  operation-IsGenuine :
      (q : Request) (g : Signature) (o : Option Transaction) (v : Verdict)
      → q.outside.signature ≡ some g
      → g.valid ≡ true
      → q.outside.transaction ≡ o
      → verify_trustline_operation validators q.expected_operation o ≡ v
      → (combine g v).valid ≡ true
      → IsGenuine q (combine g v)
  unfolding combine verify_trustline_operation
  operation-IsGenuine q g none (refused f) signed valid answered verdict ok = absurd (cc ok)
  operation-IsGenuine q g none (passed info) signed valid answered verdict ok = absurd (cc verdict)
  operation-IsGenuine q g (some tx) (refused f) signed valid answered verdict ok = absurd (cc ok)
  operation-IsGenuine q g (some tx) (passed info) signed valid answered verdict ok =
      elim (Option-cases (first_trustline_operation tx.operations)) [
        | inl out ↦ absurd (unfold check_first in ground (arith, verdict, out))
        | inr (op, first) ↦
            let (expected, passes) =
              expects q.expected_operation tx op info
                (ap (check_first validators q.expected_operation tx) (sym first) ∙ verdict) in
            let (same, code, issuer) = checked tx op info passes in
            record {
              signature = g;
              transaction = tx;
              operation = op;
              info = info;
              signed = signed;
              is_valid = valid;
              answered = answered;
              first = first;
              expected = expected;
              told = refl;
              same_type = same;
              valid_code = code;
              valid_issuer = issuer;
            }
      ]

  verify_signed-IsGenuine :
      (q : Request) (o : Option Signature)
      → q.outside.signature ≡ o
      → (verify_signed validators q o).0.valid ≡ true
      → IsGenuine q (verify_signed validators q o).0
  unfolding verify_signed invalid_signature
  verify_signed-IsGenuine q none signed ok = absurd (cc ok)
  verify_signed-IsGenuine q (some g) signed ok =
      let v = verify_trustline_operation validators q.expected_operation q.outside.transaction in
      if_both (λ (p : Verification × Bool). p.0.valid ≡ true → IsGenuine q p.0) g.valid
        (combine g v, true) (invalid_signature g, false)
        (λ valid ok'. operation-IsGenuine q g q.outside.transaction v signed valid refl refl ok')
        (λ _ ok'. absurd (cc ok')) ok

  pub verify_uncached-IsGenuine :
      (q : Request)
      → (verify_uncached validators q).0.valid ≡ true
      → IsGenuine q (verify_uncached validators q).0
  unfolding verify_uncached
  verify_uncached-IsGenuine q ok = verify_signed-IsGenuine q q.outside.signature refl ok
