-- ===== src/Trustlines/Manager.antt =====
-- `TrustlineManager.verifyTrustlineTransaction`: a verification under the error recovery. An attempt
-- that ends before its timeout ends as the promise of `verifyTrustlineSignature` settles: with a
-- result, or with an error where it rejects; the error is an argument.
use stellar_payment_api.Base.{ℕ, String, Option, none, some, List, [], ◌∷◌}
use Prim.Native.String
use stellar_payment_api.Trustlines.Recovery
use stellar_payment_api.Trustlines.Recovery.{Recovery, End, succeeds, fails}
use stellar_payment_api.Trustlines.Verifier.{Verification, Request, Cache}
use stellar_payment_api.Trustlines.Verifier.Settles.{settle_verification}
use stellar_payment_api.Trustlines.Errors.{OperationError}
use stellar_payment_api.Trustlines.Operations.{Validators}
pub mod Outages

pub record Manager : Type 0 where
  pub recovery : Recovery Verification
  pub cache : Cache

-- A call of `verifyTrustlineTransaction` begins; the attempt of a running call ends.
pub data Event : Type 0 where
  verifies : (now : ℕ) (tx_hash : String) → Event
  verified : (now place : ℕ) → Request → (rejection : OperationError) → Event

-- MAX_RETRY_ATTEMPTS
abbrev pub max_retry_attempts : ℕ
max_retry_attempts = 3

unfoldable pub verify_trustline_transaction : ℕ → String → Manager → Manager
verify_trustline_transaction now tx_hash s = record s {
  recovery =
      Recovery.execute_with_recovery now (String.◌++◌ "verify trustline transaction " tx_hash)
        max_retry_attempts none s.recovery;
}

-- The end of an attempt, by how the promise settles.
unfoldable pub end_of : OperationError → Option Verification → End Verification
end_of rejection none = fails rejection
end_of rejection (some r) = succeeds r

module _ (validators : Validators) where
  unfoldable pub attempt_verified : ℕ → ℕ → Request → OperationError → Manager → Manager
  attempt_verified now place q rejection s =
      let (m, settled) = settle_verification validators q s.cache in
      record {
        recovery =
            Recovery.attempt_ended now (end_of rejection settled)
              (Recovery.extract place s.recovery.running) s.recovery;
        cache = m;
      }

  unfoldable pub step : Event → Manager → Manager
  step (verifies now tx_hash) s = verify_trustline_transaction now tx_hash s
  step (verified now place q rejection) s = attempt_verified now place q rejection s

  unfoldable pub run : List Event → Manager → Manager
  run [] s = s
  run (e ∷ es) s = run es (step e s)

unfoldable pub create : Manager
create = record { recovery = Recovery.start; cache = [] }
