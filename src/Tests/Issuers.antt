-- ===== src/Tests/Issuers.antt =====
-- Verifications of operations on assets, and calls that share one.
use stellar_payment_api.Base.{ℕ, ◌≤◌, ◌≡◌, refl, true, false, some, List, [], ◌∷◌}
use stellar_payment_api.OrderedMap
use stellar_payment_api.Trustlines.Operations.{native, credit, or_text}
use stellar_payment_api.AssetIssuers.Operations.{
  Operation, unrelated, payment, manage_sell_offer, Validators, Expectation, Found, passed,
  is_relevant, first_relevant, operation_type, differs, extract_asset, found_asset, found_offer,
  find_asset, is_native_trustline, check_found, check_first, check_operations,
  verify_asset_issuer_operation,
}
use stellar_payment_api.AssetIssuers.Operations.Expected.{Shows, Meets, passed_operation}
use stellar_payment_api.AssetIssuers.Flights.{
  Event, Verifier, step, verify_operation, look_up, join, start, replied, verifies, lands, gives,
  run, create,
}
use stellar_payment_api.AssetIssuers.Flights.Alone.{
  uses_cache, in_flight, is_pending, flight_alone, skip_breaks_sharing,
}

abbrev lenient : Validators
lenient = record { is_valid_asset_code = λ c. true; is_valid_public_key = λ k. true }

abbrev usdc_payment : Operation
usdc_payment = payment (some (credit "USDC" "GISSUER")) "25"

abbrev expectation : Expectation
expectation = record { operation = "payment"; asset_code = "USDC"; asset_issuer = "GISSUER" }

abbrev found : Found
found = record { asset_code = some "USDC"; asset_issuer = some "GISSUER"; amount = some "25" }

passed_operation_example :
    (first : Operation) × (first_relevant (unrelated ∷ usdc_payment ∷ []) ≡ some first)
    × Shows lenient first found
    × ("payment" ≡ operation_type first)
    × Meets "payment" (some "payment")
    × Meets "USDC" found.asset_code
    × Meets "GISSUER" found.asset_issuer
unfolding verify_asset_issuer_operation check_operations check_first first_relevant is_relevant
    operation_type differs find_asset found_asset extract_asset check_found is_native_trustline
passed_operation_example =
    passed_operation lenient expectation unrelated (usdc_payment ∷ []) "payment" found refl

-- An offer that buys the native asset passes for the code XLM with the issuer of what is sold.
offer_accepted :
    verify_asset_issuer_operation lenient
      (record { operation = "manageSellOffer"; asset_code = "XLM"; asset_issuer = "GISSUER" })
      (some (manage_sell_offer (some (credit "USDC" "GISSUER")) (some native) "25" ∷ []))
    ≡ passed "manageSellOffer"
        (record { asset_code = some "XLM"; asset_issuer = some "GISSUER"; amount = some "25" })
unfolding verify_asset_issuer_operation check_operations check_first first_relevant is_relevant
    operation_type differs find_asset found_offer extract_asset or_text check_found
    is_native_trustline
offer_accepted = refl

-- Two calls share a flight, which lands; a third call is answered from the cache, and a call with
-- another key starts its own.
abbrev calls : List (Event ℕ)
calls =
    verifies 0 "a" false
    ∷ verifies 1 "a" false
    ∷ lands 2 0 (gives 7 true)
    ∷ verifies 3 "a" false
    ∷ verifies 4 "b" false
    ∷ []

flight_alone_example :
    (in_flight "b" (run calls create).flights ≤ 1)
    × (in_flight "b" (run calls create).flights
        ≡ is_pending (OrderedMap.get "b" (run calls create).pending))
unfolding uses_cache
flight_alone_example = flight_alone calls "b" (refl, (refl, (refl, (refl, (refl, tt)))))

abbrev in_use : Verifier ℕ
in_use = run (verifies 0 "a" false ∷ []) create

skip_breaks_sharing_example :
    in_flight "a"
      (run
        (verifies 1 "a" true ∷ lands 2 0 (gives 7 true) ∷ verifies 2 "a" false ∷ [])
        in_use).flights
    ≡ 2
unfolding in_flight run step verify_operation look_up join start replied create
skip_breaks_sharing_example = skip_breaks_sharing in_use 1 2 "a" (gives 7 true) (tt, tt) refl
