-- ===== src/Poller/RateLimiter/AtOnce.antt =====
-- Requests that come while others wait.
use stellar_payment_api.Base.{
  ℕ, zero, suc, ◌+◌, ◌-◌, ◌*◌, ◌/◌, ◌<◌, ◌≡◌, refl, ap, ◌∙◌, false, Option, some, List, [], ◌∷◌,
  leb, arith,
}
use native.Mathlib.Nat.{zero-mul}
use stellar_payment_api.Poller.RateLimiter.{RateLimiter, refill, delay_ms, ask}
use stellar_payment_api.Poller.RateLimiter.Rate.{
  IsBucket, throttled, ask_throttles, throttled-IsBucket,
}

-- Requests that come at the same time, with what each is told.
pub ask_all : ℕ → ℕ → RateLimiter → RateLimiter × List (Option ℕ)
ask_all zero now l = (l, [])
ask_all (suc n) now l = let (r, delays) = ask_all n now (ask now l).0 in (r, (ask now l).1 ∷ delays)

pub repeated : ℕ → ℕ → List (Option ℕ)
repeated zero d = []
repeated (suc n) d = some d ∷ repeated n d

no_time : (t m : ℕ) → (t - t) * m ≡ 0
no_time t m = ap (λ x. x * m) (omega arith) ∙ zero-mul m

leb_of_lt : (a b : ℕ) → b < a → leb a b ≡ false
leb_of_lt a b lt = ground arith

tokens_at_once :
    (now : ℕ) (l : RateLimiter)
    → IsBucket l
    → (refill now (throttled now l)).tokens ≡ (refill now l).tokens
unfolding refill throttled
tokens_at_once now l b = omega (arith, no_time now l.max_per_second)

delay_at_once :
    (now : ℕ) (l : RateLimiter)
    → IsBucket l
    → delay_ms (refill now (throttled now l)) ≡ delay_ms (refill now l)
unfolding delay_ms
delay_at_once now l b =
    let m = l.max_per_second in
    unfold refill throttled in ap (λ t. (1000 - t + (m - 1)) / m) (tokens_at_once now l b)

-- Requests that come at the same time to a valid bucket with less than one token are all told the
-- same delay, however many they are.
ask_all_alike :
    (n now : ℕ) (l : RateLimiter)
    → IsBucket l
    → (refill now l).tokens < 1000
    → (ask_all n now l).1 ≡ repeated n (delay_ms (refill now l))
unfolding ask_all repeated
ask_all_alike zero now l b lacks = refl
ask_all_alike (suc n) now l b lacks =
    let less = leb_of_lt 1000 (refill now l).tokens lacks in
    let r = throttled now l in
    rw (ask_throttles now l less) (
      ap (λ ds. some (delay_ms (refill now l)) ∷ ds)
        (rw (← delay_at_once now l b)
          (ask_all_alike n now r (throttled-IsBucket now l b) (rw (tokens_at_once now l b) lacks))))
