-- ===== src/Trustlines/Verifier/Settles.antt =====
-- `verifyTrustlineSignature` with its exceptions: the block under `try`, which may throw, and the
-- `catch` block. The functions of Verifier.antt are what the two are together.
use stellar_payment_api.Base.{
  ◌+◌, ◌≡◌, refl, Bool, true, false, Option, none, some, if◌then◌else◌, ltb, str_eq, Bool-cases,
  inl, inr, arith,
}
use stellar_payment_api.OrderedMap
use stellar_payment_api.Trustlines.Operations.{Signature, Validators, verify_trustline_operation}
use stellar_payment_api.Trustlines.Verifier.{
  Verification, error_verification, invalid_signature, combine, Cached, Request, Cache, cache_key,
  store, verify_signed, verify_uncached, verify_afresh, verify_after_lookup,
  verify_trustline_signature,
}

-- The `catch` block: where the promise under `try` rejects, it gives the error as a result.
unfoldable pub caught : Cache × Option Verification → Cache × Option Verification
caught (m, none) = (m, some error_verification)
caught (m, some r) = (m, some r)

module _ (validators : Validators) where
  -- The steps after the look-up; `none` where `verifyTransactionSignature` throws.
  unfoldable pub try_signed : Request → Option Signature → Option (Verification × Bool)
  try_signed q none = none
  try_signed q (some g) =
      if g.valid
      then some (
        combine g
            (verify_trustline_operation validators q.expected_operation q.outside.transaction),
        true,
      )
      else some (invalid_signature g, false)

  unfoldable pub try_stored :
      Request → Cache → Option (Verification × Bool) → Cache × Option Verification
  try_stored q m none = (m, none)
  try_stored q m (some (r, stored)) = (if stored then store q r m else m, some r)

  unfoldable pub try_afresh : Request → Cache → Cache × Option Verification
  try_afresh q m = try_stored q m (try_signed q q.outside.signature)

  unfoldable pub try_after_lookup : Request → Option Cached → Cache → Cache × Option Verification
  try_after_lookup q none m = try_afresh q m
  try_after_lookup q (some e) m =
      if ltb q.started (e.timestamp + 300000)
      then (m, some e.result)
      else try_afresh q (OrderedMap.delete (cache_key q) m)

  -- The block under `try`; it throws for a hash that is missing or empty.
  unfoldable pub try_verification : Request → Cache → Cache × Option Verification
  try_verification q m =
      if str_eq q.tx_hash ""
      then (m, none)
      else if q.skip_cache
      then try_afresh q m
      else try_after_lookup q (OrderedMap.get (cache_key q) m) m

  -- How the promise of `verifyTrustlineSignature` settles: `none` where it rejects.
  unfoldable pub settle_verification : Request → Cache → Cache × Option Verification
  settle_verification q m = caught (try_verification q m)

  unfoldable pub given : Cache × Verification → Cache × Option Verification
  given (m, r) = (m, some r)

  afresh_settles :
      (q : Request) (m : Cache) → caught (try_afresh q m) ≡ given (verify_afresh validators q m)
  unfolding try_afresh try_stored try_signed caught given verify_afresh verify_uncached
      verify_signed
  afresh_settles q m = stored q.outside.signature
    where
      stored :
          (o : Option Signature)
          → caught (try_stored q m (try_signed q o))
            ≡ given (
                let (r, kept) = verify_signed validators q o in
                if kept then (store q r m, r) else (m, r))
      stored none = refl
      stored (some g) = ground (arith, Bool-cases g.valid)

  lookup_settles :
      (q : Request) (o : Option Cached) (m : Cache)
      → caught (try_after_lookup q o m) ≡ given (verify_after_lookup validators q o m)
  unfolding try_after_lookup verify_after_lookup caught given
  lookup_settles q none m = afresh_settles q m
  lookup_settles q (some e) m = elim (Bool-cases (ltb q.started (e.timestamp + 300000))) [
    | inl fresh ↦ ground (arith, fresh)
    | inr old ↦ ground (arith, old, afresh_settles q (OrderedMap.delete (cache_key q) m))
  ]

  -- The verification never rejects, and gives what the functions without exceptions say.
  pub settles :
      (q : Request) (m : Cache)
      → settle_verification q m ≡ given (verify_trustline_signature validators q m)
  unfolding settle_verification try_verification verify_trustline_signature caught given
  settles q m = elim (Bool-cases (str_eq q.tx_hash "")) [
    | inl empty ↦ ground (arith, empty)
    | inr there ↦ elim (Bool-cases q.skip_cache) [
      | inl skips ↦ ground (arith, there, skips, afresh_settles q m)
      | inr looks ↦
          ground (arith, there, looks, lookup_settles q (OrderedMap.get (cache_key q) m) m)
    ]
  ]
