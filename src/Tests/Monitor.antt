-- ===== src/Tests/Monitor.antt =====
-- The ledger monitor with concrete services.
use stellar_payment_api.Base.{
  ℕ, suc, ◌+◌, ◌-◌, ◌<◌, ◌≡◌, refl, true, false, none, some, List, [], ◌∷◌, ◌++◌, ltb,
  if◌then◌else◌, str_eq, ◌↔◌, arith, All,
}
use stellar_payment_api.Effects.{ok}
use stellar_payment_api.Poller.{
  Payment, Merchant, confirmed, confirmed_check, paid, checked, claimed, update_sent,
  cache_invalidated, signature_passed, sse, Outside, World,
}
use stellar_payment_api.Poller.Check.{check_payment, truthy}
use stellar_payment_api.Poller.Check.Trace.{Grounded}
use stellar_payment_api.Poller.Check.Settles.{check_payment-Grounded}
use stellar_payment_api.Poller.Check.Confirms.{
  Favours, check_payment_confirms, delivery_events, room_events,
}
use stellar_payment_api.Poller.Cycle.{Health, Tick, run, max_consecutive_failures}
use stellar_payment_api.Poller.Cycle.Failures.{IsValid, fresh, IsFailing, failing_run}
use stellar_payment_api.Poller.Configs.{row, ConfigCache}
use stellar_payment_api.Poller.Configs.Repeats.{Lookup}

abbrev acme : Merchant
acme = record {
  webhook_secret = "whsec";
  webhook_version = none;
  notification_email = some "";
  email = some "shop@example.com";
  webhook_custom_headers = none;
  subscribed = true;
}

-- A network where the payment is in the ledger and every service answers.
abbrev services : Outside
services = record {
  State = ℕ;
  Metadata = ℕ;
  Amount = ℕ;
  to_number = λ s. if str_eq s "10" then 10 else 0;
  minus = λ a b. a - b;
  less = ltb;
  floor = λ a. a;
  round_7 = λ a. a;
  tolerance = 0;
  minus_tolerance = 0;
  validate_payment_record = λ p. true;
  is_valid_transaction_hash = λ s. true;
  underpaid_metadata = λ m e r s. m;
  overpaid_metadata = λ m e r s. m;
  latency_seconds = λ t s. (ok 3, s);
  wait_for_slot = λ s. (ok tt, suc s);
  sleep = λ n s. (ok tt, s + n);
  find_matching_payment = λ p s. (ok (some "tx1"), s);
  find_any_recent_payment = λ p s. (ok none, s);
  verify_transaction_signature = λ t s. (ok true, s);
  other_payment_with_tx = λ t i s. (ok none, s);
  update_pending = λ c s. (ok (record { updated = true; error = none }), s);
  invalidate_payment_cache = λ i s. (ok tt, s);
  load_merchant = λ i s. (ok (some acme), s);
}

abbrev order : Payment ℕ
order = record {
  id = "p1";
  recipient = "GABC";
  asset = "XLM";
  asset_issuer = none;
  amount = "10";
  memo = none;
  memo_type = none;
  webhook_url = some "https://shop.example.com/hook";
  created_at = "2024-01-01";
  merchant_id = some "m1";
  metadata = 0;
}

abbrev quiet_world : World services
quiet_world = record { outside = 0; trace = [] }

check_payment-Grounded_example : Grounded (check_payment services order quiet_world).1.trace
check_payment-Grounded_example = check_payment-Grounded services order quiet_world tt

favours : Favours services order "tx1" (some acme)
favours = record {
  is_valid_record = refl;
  is_valid_hash = refl;
  slot = λ s. refl;
  found = λ s. refl;
  verified = λ s. refl;
  unclaimed = λ s. refl;
  latency = 3;
  timed = λ s. refl;
  updates = λ c s. refl;
  invalidates = λ s. refl;
  loads = λ s. refl;
}

check_payment_confirms_example :
    ((check_payment services order quiet_world).0 ≡ ok tt)
    × ((check_payment services order quiet_world).1.trace
        ≡ delivery_events services order "tx1" (some acme)
          ++ (room_events services (truthy (some "m1")) "p1" (paid "tx1")
              ++ sse "p1" (paid "tx1")
                ∷ checked confirmed_check
                ∷ cache_invalidated "p1"
                ∷ claimed "p1" "tx1" confirmed
                ∷ update_sent "p1" "tx1" confirmed
                ∷ signature_passed "tx1"
                ∷ []))
check_payment_confirms_example =
    check_payment_confirms services order "tx1" (some acme) favours quiet_world

abbrev failed_tick : Tick
failed_tick = record { now = 1000; fetched = false; later = 7000 }

abbrev good_tick : Tick
good_tick = record { now = 400000; fetched = true; later = 400100 }

-- A poller whose last two fetches have failed.
abbrev shaken : Health
shaken = record {
  running = false;
  consecutive_failures = 2;
  circuit_breaker_open_at = 0;
  backoff_index = 2;
}

shaken-IsValid : IsValid shaken
shaken-IsValid = record {
  idle = refl;
  counted = refl;
  bounded = omega arith;
  tripped = (λ p. omega arith, λ e. omega arith);
}

abbrev five_failures : List Tick
five_failures = failed_tick ∷ failed_tick ∷ failed_tick ∷ failed_tick ∷ failed_tick ∷ []

five-IsFailing : All IsFailing five_failures
five-IsFailing = ground arith

failing_run_example :
    ((run five_failures fresh).consecutive_failures ≡ 5)
    × ((0 < (run five_failures fresh).circuit_breaker_open_at) ↔ (5 ≡ max_consecutive_failures))
failing_run_example = failing_run five_failures (omega arith) five-IsFailing

abbrev three_orders : List (Payment ℕ)
three_orders = order ∷ record order { id = "p2"; asset = "USDC" } ∷ record order { id = "p3" } ∷ []

abbrev empty_configs : ConfigCache Merchant
empty_configs = record { max_entries = 100; ttl_ms = 60000; cache = [] }

abbrev between : List (Lookup Merchant)
between = record { now = 1500; id = "m2"; reply = row (some acme); cycle = [] } ∷ []
