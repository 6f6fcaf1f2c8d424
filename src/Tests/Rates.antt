-- ===== src/Tests/Rates.antt =====
-- The token bucket at concrete times.
use stellar_payment_api.Base.{ℕ, ◌-◌, ◌*◌, ◌+◌, ◌≤◌, ◌<◌, List, [], ◌∷◌, arith}
use stellar_payment_api.Poller.RateLimiter.{
  RateLimiter, create, refill, delay_ms, take_or_wait, ask, resume, resume_after, wait_for_slot,
}
use stellar_payment_api.Poller.RateLimiter.Rate.{
  IsBucket, IsPaced, IsLater, run_calls, paced_calls_bounded,
}

-- Three calls at a rate of two in a second: the first at once, the others after their delays.
abbrev two_a_second : List (ℕ × ℕ)
two_a_second = (0, 0) ∷ (0, 500) ∷ (600, 1000) ∷ []

two_a_second-IsPaced : IsPaced two_a_second (create 2 1 0)
unfolding create refill delay_ms take_or_wait ask resume resume_after wait_for_slot IsLater
two_a_second-IsPaced = (omega arith, tt, (omega arith, omega arith, (omega arith, omega arith, tt)))

abbrev drained : RateLimiter
drained = record {
  max_per_second = 5;
  burst = 5;
  tokens = 0;
  last_refill_at = 0;
  rate_limited_requests = 0;
}

drained-IsBucket : IsBucket drained
drained-IsBucket = record { rate = omega arith; capacity = omega arith; filled = omega arith }

drained_is_low : (refill 100 drained).tokens < 1000
unfolding refill
drained_is_low = omega arith

paced_calls_bounded_example :
    1000 * 3 ≤ 1000 + ((run_calls two_a_second (create 2 1 0)).last_refill_at - 0) * 2
paced_calls_bounded_example = paced_calls_bounded 2 1 0 two_a_second two_a_second-IsPaced
