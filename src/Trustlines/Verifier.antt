-- ===== src/Trustlines/Verifier.antt =====
-- `TrustlineSignatureVerifier`. What `verifyTransactionSignature` and Horizon answer, and the
-- validators of codes and accounts, are arguments. The texts of reasons are left out; a verification
-- is one step, with the times of its start and its end.
use stellar_payment_api.Base.{
  ℕ, suc, ◌+◌, String, Bool, true, false, not, ◌&&◌, Option, none, some, List, [], ◌∷◌,
  if◌then◌else◌, ltb, leb, str_eq, length,
}
use Prim.Native.String
use stellar_payment_api.OrderedMap
use stellar_payment_api.Trustlines.Operations.{
  Fault, OperationInfo, Outside, Signature, Validators, Verdict, passed, refused,
  verify_trustline_operation,
}
pub mod Genuine
pub mod History
pub mod Answers
pub mod Repeats
pub mod Settles

-- What a verification gives. `fault` says why the operation is refused, `info` what was found.
pub record Verification : Type 0 where
  pub valid : Bool
  pub trustline_specific : Bool
  pub is_multisig : Bool
  pub signature_count : ℕ
  pub threshold_met : Bool
  pub fault : Option Fault
  pub info : Option OperationInfo

-- The answer of the `catch` block.
abbrev pub error_verification : Verification
error_verification = record {
  valid = false;
  trustline_specific = true;
  is_multisig = false;
  signature_count = 0;
  threshold_met = false;
  fault = none;
  info = none;
}

unfoldable pub invalid_signature : Signature → Verification
invalid_signature g = record {
  valid = false;
  trustline_specific = false;
  is_multisig = g.is_multisig;
  signature_count = g.signature_count;
  threshold_met = g.threshold_met;
  fault = none;
  info = none;
}

unfoldable pub combine : Signature → Verdict → Verification
combine g (passed info) = record {
  valid = g.valid;
  trustline_specific = true;
  is_multisig = g.is_multisig;
  signature_count = g.signature_count;
  threshold_met = g.threshold_met;
  fault = none;
  info = some info;
}
combine g (refused f) = record {
  valid = false;
  trustline_specific = true;
  is_multisig = g.is_multisig;
  signature_count = g.signature_count;
  threshold_met = g.threshold_met;
  fault = some f;
  info = none;
}

pub record Cached : Type 0 where
  pub result : Verification
  pub timestamp : ℕ

pub record Request : Type 0 where
  pub started : ℕ
  pub ended : ℕ
  pub tx_hash : String
  pub expected_operation : String
  pub skip_cache : Bool
  pub outside : Outside

abbrev pub Cache : Type 0
Cache = List (String × Cached)

unfoldable pub cache_key : Request → String
cache_key q = String.◌++◌ q.tx_hash (String.◌++◌ ":" q.expected_operation)

unfoldable pub drop_expired : ℕ → Cache → Cache
drop_expired now [] = []
drop_expired now ((k, e) ∷ m) =
    let rest = drop_expired now m in if leb (e.timestamp + 300000) now then rest else (k, e) ∷ rest

-- `while (size >= 1000) delete the oldest`
unfoldable pub drop_oldest : Cache → Cache
drop_oldest [] = []
drop_oldest (e ∷ m) = let rest = drop_oldest m in if leb 1000 (suc (length m)) then rest else e ∷ m

-- `_pruneCache`
unfoldable pub prune_cache : ℕ → Cache → Cache
prune_cache now m = drop_oldest (drop_expired now m)

unfoldable pub store : Request → Verification → Cache → Cache
store q r m =
    if q.skip_cache
    then m
    else OrderedMap.set (cache_key q) (record { result = r; timestamp = q.ended })
        (prune_cache q.ended m)

module _ (validators : Validators) where
  -- The steps below the look-up of the cache: the result, and whether it is stored.
  unfoldable pub verify_signed : Request → Option Signature → Verification × Bool
  verify_signed q none = (error_verification, false)
  verify_signed q (some g) =
      if g.valid
      then (
        combine g
            (verify_trustline_operation validators q.expected_operation q.outside.transaction),
        true,
      )
      else (invalid_signature g, false)

  unfoldable pub verify_uncached : Request → Verification × Bool
  verify_uncached q = verify_signed q q.outside.signature

  unfoldable pub verify_afresh : Request → Cache → Cache × Verification
  verify_afresh q m =
      let (r, stored) = verify_uncached q in if stored then (store q r m, r) else (m, r)

  unfoldable pub verify_after_lookup : Request → Option Cached → Cache → Cache × Verification
  verify_after_lookup q none m = verify_afresh q m
  verify_after_lookup q (some e) m =
      if ltb q.started (e.timestamp + 300000)
      then (m, e.result)
      else verify_afresh q (OrderedMap.delete (cache_key q) m)

  -- `verifyTrustlineSignature`
  unfoldable pub verify_trustline_signature : Request → Cache → Cache × Verification
  verify_trustline_signature q m =
      if str_eq q.tx_hash ""
      then (m, error_verification)
      else if q.skip_cache
      then verify_afresh q m
      else verify_after_lookup q (OrderedMap.get (cache_key q) m) m

  unfoldable pub verify_all : List Request → Cache → Cache
  verify_all [] m = m
  verify_all (q ∷ qs) m = verify_all qs (verify_trustline_signature q m).0
