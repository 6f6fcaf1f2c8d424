-- ===== src/Breaker/States.antt =====
-- The states of the breaker over any sequence of calls.
use stellar_payment_api.Base.{
  ℕ, zero, suc, ◌+◌, ◌≤◌, ◌<◌, true, false, none, List, [], ◌∷◌, ◌≡◌, ◌≢◌, ◌↔◌, refl, length, arith,
}
use stellar_payment_api.Breaker.{
  CircuitState, closed, open_state, half_open, Breaker, create, is_open_in, is_open,
  record_success_in, record_success, record_failure, reset,
}

-- What each state means for the counters.
abbrev pub Means : CircuitState → Breaker → Type 0
Means closed b =
    (b.failures < b.failure_threshold) × (b.opened_at ≡ none) × (b.half_open_successes ≡ 0)
Means open_state b = (b.opened_at ≢ none) × (b.half_open_successes ≡ 0)
Means half_open b = (b.opened_at ≢ none) × (b.half_open_successes < b.half_open_required)

abbrev pub IsValid : Breaker → Type 0
IsValid b = (0 < b.failure_threshold) × (0 < b.half_open_required) × Means b.state b

-- Any caller may ask or report, at any time.
pub data Step (b : Breaker) : Breaker → Type 0 where
  asks : (now : ℕ) → Step b (is_open now b).0
  reports_success : Step b (record_success b)
  reports_failure : (now : ℕ) → Step b (record_failure now b)
  resets : Step b (reset b)

pub data Reach (b : Breaker) : Breaker → Type 0 where
  here : Reach b b
  next : {c d : Breaker} → Reach b c → Step c d → Reach b d

is_open-IsValid :
    (st : CircuitState) (now : ℕ) (b : Breaker)
    → b.state ≡ st
    → IsValid b
    → IsValid (is_open_in st now b).0
unfolding is_open_in
is_open-IsValid closed now b e v = v
is_open-IsValid half_open now b e v = v
is_open-IsValid open_state now b e v = ground arith

record_success-IsValid :
    (st : CircuitState) (b : Breaker) → b.state ≡ st → IsValid b → IsValid (record_success_in st b)
unfolding record_success_in
record_success-IsValid closed b e v = ground arith
record_success-IsValid half_open b e v = ground arith
record_success-IsValid open_state b e v = ground arith

record_failure-IsValid : (now : ℕ) (b : Breaker) → IsValid b → IsValid (record_failure now b)
unfolding record_failure
record_failure-IsValid now b v = ground arith

Step-IsValid : {b c : Breaker} → Step b c → IsValid b → IsValid c
unfolding is_open record_success reset
Step-IsValid {b} (asks now) v = is_open-IsValid b.state now b refl v
Step-IsValid {b} reports_success v = record_success-IsValid b.state b refl v
Step-IsValid {b} (reports_failure now) v = record_failure-IsValid now b v
Step-IsValid {b} resets v = (v.0, v.1, (v.0, refl, refl))

Reach-IsValid_from : {b c : Breaker} → Reach b c → IsValid b → IsValid c
Reach-IsValid_from here v = v
Reach-IsValid_from (next r s) v = Step-IsValid s (Reach-IsValid_from r v)

-- Whatever is asked and reported, in any order, to a breaker with positive thresholds: while it is
-- closed it has fewer failures than the threshold and no opening time; while it is open or
-- half-open it has an opening time; and it has counted fewer successes than it needs while it is
-- half-open, and none otherwise.
Reach-Means : (f r h : ℕ) {b : Breaker} → 0 < f → 0 < h → Reach (create f r h) b → Means b.state b
unfolding create
Reach-Means f r h pf ph reach =
    let (_, _, means) = Reach-IsValid_from reach (pf, ph, (pf, refl, refl)) in means

pub fail_all : List ℕ → Breaker → Breaker
fail_all [] b = b
fail_all (now ∷ nows) b = fail_all nows (record_failure now b)

-- After `n` failures in a row.
record Failed (f n : ℕ) (b : Breaker) : Type 0 where
  threshold : b.failure_threshold ≡ f
  counted : b.failures ≡ n
  below : n < f → b.state ≡ closed
  above : f ≤ n → b.state ≡ open_state

record_failure-Failed :
    (f n now : ℕ) (b : Breaker) → Failed f n b → Failed f (suc n) (record_failure now b)
unfolding record_failure
record_failure-Failed f n now b h = ground arith

fail_all-Failed :
    (f n : ℕ) (nows : List ℕ) (b : Breaker)
    → Failed f n b
    → Failed f (n + length nows) (fail_all nows b)
unfolding fail_all
fail_all-Failed f n [] b h = ground arith
fail_all-Failed f n (now ∷ nows) b h = ground (
  arith,
  fail_all-Failed f (suc n) nows (record_failure now b) (record_failure-Failed f n now b h),
)

-- Failures without a success in between leave a new breaker, whose threshold is positive, open
-- exactly when they reach the threshold.
fail_all_trips_iff :
    (f r h : ℕ) (nows : List ℕ)
    → 0 < f
    → ((fail_all nows (create f r h)).state ≡ open_state) ↔ (f ≤ length nows)
unfolding create
fail_all_trips_iff f r h nows pos =
    let d = fail_all-Failed f 0 nows (create f r h) (record {
      threshold = refl;
      counted = refl;
      below = λ _. refl;
      above = λ le. absurd (omega arith);
    }) in
    ground arith

pub succeed_times : ℕ → Breaker → Breaker
succeed_times zero b = b
succeed_times (suc n) b = succeed_times n (record_success b)

stays_closed : (n : ℕ) (b : Breaker) → b.state ≡ closed → (succeed_times n b).state ≡ closed
unfolding succeed_times record_success record_success_in
stays_closed zero b e = e
stays_closed (suc n) b e = stays_closed n (record_success b) (ground arith)

closes_iff :
    (n : ℕ) (b : Breaker)
    → b.state ≡ half_open
    → b.half_open_successes < b.half_open_required
    → ((succeed_times n b).state ≡ closed) ↔ (b.half_open_required ≤ b.half_open_successes + n)
unfolding succeed_times record_success record_success_in
closes_iff zero b e h = ground arith
closes_iff (suc n) b e h =
    ground (arith, stays_closed n (record_success b), closes_iff n (record_success b))

-- After an open breaker has let a trial through, successes in a row leave it closed exactly when
-- they reach the number required, which is positive.
half_open_closes_iff :
    (n now : ℕ) (b : Breaker)
    → b.state ≡ open_state
    → (is_open now b).1 ≡ false
    → 0 < b.half_open_required
    → ((succeed_times n (is_open now b).0).state ≡ closed) ↔ (b.half_open_required ≤ n)
unfolding is_open is_open_in
half_open_closes_iff n now b e let_through pos = ground (arith, closes_iff n (is_open now b).0)

-- A failed trial opens the circuit again at once, whatever the count, and it then refuses calls
-- exactly until its time to reset, which is positive, is over.
half_open_failure :
    (now later : ℕ) (b : Breaker)
    → b.state ≡ half_open
    → 0 < b.reset_timeout_ms
    → ((record_failure now b).state ≡ open_state)
      × (((is_open later (record_failure now b)).1 ≡ true) ↔ (later < now + b.reset_timeout_ms))
unfolding record_failure is_open is_open_in
half_open_failure now later b e pos = ground arith
