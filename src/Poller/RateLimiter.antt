-- ===== src/Poller/RateLimiter.antt =====
-- The token bucket in front of Horizon, `createLedgerMonitorRateLimiter` of
-- backend/src/lib/horizon-poller.js. Tokens are counted in thousandths, so that what a millisecond
-- adds, `max_per_second` thousandths, is a whole number. Times are milliseconds.
use stellar_payment_api.Base.{
  ℕ, suc, ◌+◌, ◌-◌, ◌*◌, ◌/◌, min, max, Option, none, some, leb, if◌then◌else◌,
}
pub mod Rate
pub mod AtOnce

pub record RateLimiter : Type 0 where
  pub max_per_second : ℕ
  pub burst : ℕ
  pub tokens : ℕ
  pub last_refill_at : ℕ
  pub rate_limited_requests : ℕ

-- The burst is the rate where none is given; both are at least 1.
unfoldable pub create : (max_per_second burst now : ℕ) → RateLimiter
create m b now = record {
  max_per_second = max 1 m;
  burst = max 1 b;
  tokens = max 1 b * 1000;
  last_refill_at = now;
  rate_limited_requests = 0;
}

unfoldable pub refill : ℕ → RateLimiter → RateLimiter
refill now l = record l {
  tokens = min (l.burst * 1000) (l.tokens + (now - l.last_refill_at) * l.max_per_second);
  last_refill_at = now;
}

-- `Math.ceil(((1 - tokens) / safeMax) * 1000)`
unfoldable pub delay_ms : RateLimiter → ℕ
delay_ms l = (1000 - l.tokens + (l.max_per_second - 1)) / l.max_per_second

unfoldable pub take_or_wait : RateLimiter → RateLimiter × Option ℕ
take_or_wait r =
    if leb 1000 r.tokens
    then (record r { tokens = r.tokens - 1000 }, none)
    else (record r { rate_limited_requests = r.rate_limited_requests + 1 }, some (delay_ms r))

-- `waitForSlot` up to its end or its sleep: the delay, if the request must wait.
unfoldable pub ask : ℕ → RateLimiter → RateLimiter × Option ℕ
ask now l = take_or_wait (refill now l)

-- After the sleep.
unfoldable pub resume : ℕ → RateLimiter → RateLimiter
resume now l = let r = refill now l in record r { tokens = r.tokens - 1000 }

unfoldable pub resume_after : Option ℕ → ℕ → RateLimiter → RateLimiter
resume_after none woke l = l
resume_after (some delay) woke l = resume woke l

-- One call of `waitForSlot` with no other in between: it comes at `now`, and the timer of a sleep
-- fires at `woke`.
unfoldable pub wait_for_slot : (now woke : ℕ) → RateLimiter → RateLimiter
wait_for_slot now woke l = resume_after (ask now l).1 woke (ask now l).0

pub reset : ℕ → RateLimiter → RateLimiter
reset now l = record l { tokens = l.burst * 1000; last_refill_at = now; rate_limited_requests = 0 }
