-- ===== src/Poller/RateLimiter/Rate.antt =====
-- How many requests the token bucket lets through.
use stellar_payment_api.Base.{
  ℕ, ◌+◌, ◌-◌, ◌*◌, ◌/◌, ◌≤◌, ◌<◌, ◌≡◌, refl, sym, ap, ◌∙◌, max, true, false, Option, none, some,
  List, [], ◌∷◌, length, leb, Bool-cases, inl, inr, arith,
}
use native.Mathlib.Nat.{mod-add-div', mod-lt, mul-le-mul_right, add-mul}
use stellar_payment_api.Poller.RateLimiter.{
  RateLimiter, create, refill, delay_ms, ask, resume, resume_after, wait_for_slot, take_or_wait,
}

-- Rounding up.
le-ceil_mul : (n d : ℕ) → 0 < d → n ≤ (n + (d - 1)) / d * d
le-ceil_mul n d pos = omega (arith, mod-add-div' (n + (d - 1)) d, mod-lt (n + (d - 1)) pos)

pub record IsBucket (l : RateLimiter) : Type 0 where
  pub rate : 0 < l.max_per_second
  pub capacity : 1000 ≤ l.burst * 1000
  pub filled : l.tokens ≤ l.burst * 1000

-- The timer does not fire before the delay is over.
unfoldable pub IsLater : Option ℕ → ℕ → ℕ → Type 0
IsLater none now woke = Unit
IsLater (some delay) now woke = now + delay ≤ woke

resume_paid :
    (woke : ℕ) (r : RateLimiter)
    → IsBucket r
    → r.tokens < 1000
    → r.last_refill_at + delay_ms r ≤ woke
    → 1000 + (resume woke r).tokens ≤ r.tokens + (woke - r.last_refill_at) * r.max_per_second
unfolding resume refill
resume_paid woke r b lacks later =
    let waited : delay_ms r ≤ woke - r.last_refill_at = omega (arith, later) in
    let enough : 1000 - r.tokens ≤ delay_ms r * r.max_per_second =
      unfold delay_ms in le-ceil_mul (1000 - r.tokens) r.max_per_second b.rate in
    let full = b.capacity in
    omega (arith, lacks, enough, full, mul-le-mul_right r.max_per_second waited)

split_product : (a b c m : ℕ) → a ≤ b → b ≤ c → (b - a) * m + (c - b) * m ≡ (c - a) * m
split_product a b c m h k = sym (add-mul (b - a) (c - b) m) ∙ ap (λ x. x * m) (omega (arith, h, k))

leb-true : (a b : ℕ) → leb a b ≡ true → a ≤ b
leb-true a b e = ground arith

leb-false : (a b : ℕ) → leb a b ≡ false → b < a
leb-false a b e = ground arith

refill-IsBucket : (now : ℕ) (l : RateLimiter) → IsBucket l → IsBucket (refill now l)
unfolding refill
refill-IsBucket now l b = record { rate = b.rate; capacity = b.capacity; filled = omega arith }

-- The limiter when a request starts to wait.
unfoldable pub throttled : ℕ → RateLimiter → RateLimiter
throttled now l = record (refill now l) {
  rate_limited_requests = (refill now l).rate_limited_requests + 1;
}

ask_grants :
    (now : ℕ) (l : RateLimiter)
    → leb 1000 (refill now l).tokens ≡ true
    → ask now l ≡ (record (refill now l) { tokens = (refill now l).tokens - 1000 }, none)
unfolding ask take_or_wait
ask_grants now l has = rw has

pub ask_throttles :
    (now : ℕ) (l : RateLimiter)
    → leb 1000 (refill now l).tokens ≡ false
    → ask now l ≡ (throttled now l, some (delay_ms (refill now l)))
unfolding ask take_or_wait throttled
ask_throttles now l lacks = rw lacks

-- What the passing of time may add.
refill-le :
    (now : ℕ) (l : RateLimiter)
    → (refill now l).tokens ≤ l.tokens + (now - l.last_refill_at) * l.max_per_second
unfolding refill
refill-le now l = omega arith

granted_paid :
    (now : ℕ) (l : RateLimiter)
    → leb 1000 (refill now l).tokens ≡ true
    → 1000 + ((refill now l).tokens - 1000) ≤ l.tokens + (now - l.last_refill_at) * l.max_per_second
granted_paid now l has = omega (arith, leb-true 1000 (refill now l).tokens has, refill-le now l)

throttled_paid :
    (now woke : ℕ) (l : RateLimiter)
    → IsBucket l
    → l.last_refill_at ≤ now
    → leb 1000 (refill now l).tokens ≡ false
    → now + delay_ms (refill now l) ≤ woke
    → 1000 + (resume woke (throttled now l)).tokens
      ≤ l.tokens + (woke - l.last_refill_at) * l.max_per_second
unfolding throttled
throttled_paid now woke l b t lacks later =
    let r = throttled now l in
    let b' = refill-IsBucket now l b in
    let paid =
      resume_paid woke r (record { rate = b'.rate; capacity = b'.capacity; filled = b'.filled })
        (leb-false 1000 (refill now l).tokens lacks) (unfold refill delay_ms in later) in
    unfold refill in
    omega (
      arith,
      paid,
      refill-le now l,
      later,
      split_product l.last_refill_at now woke l.max_per_second t (omega (arith, later)),
    )

-- A call pays for itself: the token that it takes comes from the bucket or from the time passed.
record Paid (l r : RateLimiter) : Type 0 where
  paid : 1000 + r.tokens ≤ l.tokens + (r.last_refill_at - l.last_refill_at) * l.max_per_second
  advanced : l.last_refill_at ≤ r.last_refill_at
  same_rate : r.max_per_second ≡ l.max_per_second
  bucket : IsBucket r

pub throttled-IsBucket : (now : ℕ) (l : RateLimiter) → IsBucket l → IsBucket (throttled now l)
unfolding throttled
throttled-IsBucket now l b =
    let c = refill-IsBucket now l b in
    record { rate = c.rate; capacity = c.capacity; filled = c.filled }

resume-IsBucket : (woke : ℕ) (l : RateLimiter) → IsBucket l → IsBucket (resume woke l)
unfolding resume refill
resume-IsBucket woke l b = record { rate = b.rate; capacity = b.capacity; filled = omega arith }

wait_for_slot-Paid :
    (now woke : ℕ) (l : RateLimiter)
    → IsBucket l
    → l.last_refill_at ≤ now
    → IsLater (ask now l).1 now woke
    → Paid l (wait_for_slot now woke l)
unfolding wait_for_slot
wait_for_slot-Paid now woke l b t later = elim (Bool-cases (leb 1000 (refill now l).tokens)) [
  | inl has ↦ rw (ask_grants now l has) (
      unfold resume_after in
      record {
        paid = unfold refill in granted_paid now l has;
        advanced = unfold refill in t;
        same_rate = unfold refill in refl;
        bucket =
            unfold refill in record { rate = b.rate; capacity = b.capacity; filled = omega arith };
      })
  | inr lacks ↦
      let slept : now + delay_ms (refill now l) ≤ woke =
        unfold IsLater in (rw (ask_throttles now l lacks) at later) in
      rw (ask_throttles now l lacks) (
        unfold resume_after in
        record {
          paid = unfold resume refill in throttled_paid now woke l b t lacks slept;
          advanced = unfold resume refill in omega (arith, slept, t);
          same_rate = unfold resume refill throttled in refl;
          bucket = resume-IsBucket woke (throttled now l) (throttled-IsBucket now l b);
        })
]

-- Calls of `waitForSlot` one after the other.
pub run_calls : List (ℕ × ℕ) → RateLimiter → RateLimiter
run_calls [] l = l
run_calls ((now, woke) ∷ calls) l = run_calls calls (wait_for_slot now woke l)

-- Each call comes after the one before it is over, and no timer fires early.
abbrev pub IsPaced : List (ℕ × ℕ) → RateLimiter → Type 0
IsPaced [] l = Unit
IsPaced ((now, woke) ∷ calls) l =
    (l.last_refill_at ≤ now)
    × IsLater (ask now l).1 now woke
    × IsPaced calls (wait_for_slot now woke l)

run_calls_paid :
    (calls : List (ℕ × ℕ)) (l : RateLimiter)
    → IsBucket l
    → IsPaced calls l
    → (1000 * length calls + (run_calls calls l).tokens
        ≤ l.tokens + ((run_calls calls l).last_refill_at - l.last_refill_at) * l.max_per_second)
      × (l.last_refill_at ≤ (run_calls calls l).last_refill_at)
unfolding run_calls wait_for_slot resume_after
run_calls_paid [] l b p = (omega arith, omega arith)
run_calls_paid ((now, woke) ∷ calls) l b (t, later, p) =
    let one = wait_for_slot-Paid now woke l b t later in
    let r = wait_for_slot now woke l in
    let (rest, advanced) = run_calls_paid calls r one.bucket p in
    let rest' = rw one.same_rate at rest in
    (
      omega (
        arith,
        one.paid,
        rest',
        split_product l.last_refill_at r.last_refill_at (run_calls calls r).last_refill_at
            l.max_per_second one.advanced advanced,
      ),
      omega (arith, one.advanced, advanced),
    )

create-IsBucket : (m b now : ℕ) → IsBucket (create m b now)
unfolding create
create-IsBucket m b now = record {
  rate = omega arith;
  capacity = omega arith;
  filled = omega arith;
}

-- A new limiter lets through, of calls that come one after the other with timers that fire no
-- earlier than they are set to, no more than its burst and what its rate allows in the time that
-- the calls take.
pub paced_calls_bounded :
    (m b start : ℕ) (calls : List (ℕ × ℕ))
    → IsPaced calls (create m b start)
    → 1000 * length calls
      ≤ max 1 b * 1000 + ((run_calls calls (create m b start)).last_refill_at - start) * max 1 m
paced_calls_bounded m b start calls p =
    let (bound, _) = run_calls_paid calls (create m b start) (create-IsBucket m b start) p in
    unfold create in omega (arith, bound)
