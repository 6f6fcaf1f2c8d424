-- ===== src/Tests/Caches.antt =====
-- The verification cache of the transaction signer at concrete states.
use stellar_payment_api.Base.{
  ℕ, ◌≡◌, ◌≢◌, String, true, false, Option, none, some, List, [], ◌∷◌, eq_iff, arith,
}
use stellar_payment_api.SignerCache.{Memory, failing, found, Cache, get, set}
use stellar_payment_api.SignerCache.Capacity.{IsValid}
use stellar_payment_api.SignerCache.Tiers.{get-set_fresh}
use stellar_payment_api.SignerCache.Serves.{IsHarmless, served_while_fresh}
use stellar_payment_api.SignerCache.Runs.{
  Call, gets, sets, prunes, perform_all, perform_all-IsValid,
}

-- A full memory tier with the results 1 and 2.
abbrev full : Memory ℕ
full = record {
  max_entries = 2;
  valid_ttl_ms = 300;
  invalid_ttl_ms = 60;
  cache =
      ("aa", record { result = 1; inserted_at = 100; valid = true })
      ∷ ("bb", record { result = 2; inserted_at = 150; valid = false })
      ∷ [];
}

abbrev cache : Cache ℕ
cache = record { memory = full; redis_ttl_seconds = 300; hits = 4; misses = 1; fallbacks = 0 }

full-IsValid : IsValid full
full-IsValid = record { distinct = ground arith; bounded = omega arith }

served_while_fresh_example :
    (get 400 "cc" (some failing) (
      perform_all
        (gets 350 "aa" (some (found 9 true)) ∷ [])
        (set 200 "cc" 3 true (some true) cache).0)).1
    ≡ some 3
unfolding IsHarmless
served_while_fresh_example =
    served_while_fresh 200 400 "cc" 3 true (some true) (some failing)
      (gets 350 "aa" (some (found 9 true)) ∷ []) cache (ground arith) (omega arith)
      (omega arith, tt) (omega arith)

abbrev stored_aa : Cache ℕ
stored_aa = (set 100 "aa" 1 true none cache).0

served_aa : (get 200 "aa" none stored_aa).1 ≡ some 1
served_aa = get-set_fresh 100 200 "aa" 1 true none none cache (omega arith)

other_key : ◌≢◌ {A = String} "bb" "cc"
other_key = ground (arith, eq_iff "bb" "cc")

head_is_aa : ◌≢◌ {A = Option String} (some "aa") (some "bb")
head_is_aa = ground (arith, eq_iff "aa" "bb")

abbrev calls : List (Call ℕ)
calls = sets 200 "cc" 3 true none ∷ gets 210 "aa" (some (found 1 true)) ∷ prunes 900 ∷ []

perform_all-IsValid_example : IsValid (perform_all calls cache).memory
perform_all-IsValid_example = perform_all-IsValid calls cache full-IsValid
