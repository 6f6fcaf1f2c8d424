-- ===== src/Tests/Verifier.antt =====
-- Two verifications of one transaction, and a query.
use stellar_payment_api.Base.{
  ℕ, ◌+◌, ◌<◌, ◌≡◌, ◌⊎◌, refl, true, false, Option, none, some, List, [], ◌∷◌, Has,
}
use stellar_payment_api.Trustlines.Operations.{
  Signature, credit, change_trust, Transaction, Validators, first_trustline_operation,
  is_trustline_operation, operation_type, check_asset, check_operation, check_first,
  verify_trustline_operation,
}
use stellar_payment_api.Trustlines.Verifier.{
  Verification, combine, Request, cache_key, store, prune_cache, drop_expired, drop_oldest,
  verify_signed, verify_uncached, verify_afresh, verify_after_lookup, verify_trustline_signature,
  verify_all,
}
use stellar_payment_api.Trustlines.Verifier.Genuine.{IsGenuine}
use stellar_payment_api.Trustlines.Verifier.Answers.{valid_answer}
use stellar_payment_api.Trustlines.Errors.{null_error}
use stellar_payment_api.Trustlines.Manager.{Event, verifies, verified, run, create}
use stellar_payment_api.Trustlines.Manager.Outages.{IsQuiet, verifications-IsQuiet}
use stellar_payment_api.Trustlines.Queries.{Options, find_payments_by_asset}
use stellar_payment_api.Trustlines.Queries.Placeholders.{
  filters, MeansAll, find_payments_by_asset_lem,
}

abbrev lenient : Validators
lenient = record { is_valid_asset_code = λ c. true; is_valid_account_id = λ a. true }

abbrev signature : Signature
signature = record { valid = true; is_multisig = false; signature_count = 1; threshold_met = true }

abbrev transaction : Transaction
transaction = record {
  operations = change_trust (some (credit "USDC" "GISSUER")) "100" ∷ [];
  source = some "GSOURCE";
  source_account = none;
}

abbrev request : ℕ → Option Transaction → Request
request now tx = record {
  started = now;
  ended = now + 10;
  tx_hash = "ab12";
  expected_operation = "changeTrust";
  skip_cache = false;
  outside = record { signature = some signature; transaction = tx };
}

abbrev repeated : Verification
repeated =
    (verify_trustline_signature lenient (request 5000 none)
      (verify_all lenient (request 0 (some transaction) ∷ []) [])).1

repeated-valid : repeated.valid ≡ true
unfolding verify_all verify_trustline_signature verify_after_lookup verify_afresh verify_uncached
    verify_signed verify_trustline_operation first_trustline_operation is_trustline_operation
    check_first operation_type check_operation check_asset combine store prune_cache drop_expired
    drop_oldest cache_key
repeated-valid = refl

valid_answer_example :
    (q : Request) × Has q (request 5000 none ∷ request 0 (some transaction) ∷ [])
    × (cache_key q ≡ cache_key (request 5000 none))
    × ((q ≡ request 5000 none) ⊎ (5000 < q.ended + 300000))
    × IsGenuine lenient q repeated
valid_answer_example =
    valid_answer lenient (request 0 (some transaction) ∷ []) (request 5000 none) repeated-valid

abbrev events : List Event
events = verifies 0 "ab12" ∷ verified 10 0 (request 0 none) null_error ∷ []

verifications-IsQuiet_example : IsQuiet (run lenient events create).recovery
verifications-IsQuiet_example = verifications-IsQuiet lenient events

abbrev options : Options
options = record {
  status = some "confirmed";
  limit = 20;
  offset = 40;
  date_from = none;
  date_to = some "2026-01-01";
}

find_payments_by_asset_lem_example :
    MeansAll
      (find_payments_by_asset "m1" "USDC" (some "") options)
      (filters "m1" "USDC" (some "") options)
      20
      40
find_payments_by_asset_lem_example = find_payments_by_asset_lem "m1" "USDC" (some "") options
