-- ===== src/SessionHealth.antt =====
-- The rolling health window of the payment session validator, `SessionValidatorHealthMonitor` of
-- backend/src/lib/payment-session-validator.js. Times are in milliseconds since the epoch.
use stellar_payment_api.Base.{
  ℕ, zero, suc, ◌+◌, ◌-◌, ◌/◌, ◌%◌, max, Bool, true, false, ◌&&◌, Option, none, some, List, [], ◌∷◌,
  ◌++◌, if◌then◌else◌, ltb, leb, ◌==◌,
}
pub mod Worth
mod Slots
mod Window
pub mod Rolling

pub data Outcome : Type 0 where
  accepted rejected error : Outcome

-- A call of `record`.
pub record Evaluation : Type 0 where
  pub time : ℕ
  pub outcome : Outcome
  pub is_suspicious : Bool

pub record Counts : Type 0 where
  pub accepted_count : ℕ
  pub rejected_count : ℕ
  pub errors : ℕ
  pub suspicious : ℕ

-- No slot is the -1 of `reset`.
pub record Bucket : Type 0 where
  pub slot : Option ℕ
  pub counts : Counts

abbrev pub no_counts : Counts
no_counts = record { accepted_count = 0; rejected_count = 0; errors = 0; suspicious = 0 }

-- The bucket at each index below `bucket_count`.
pub record Monitor : Type 0 where
  pub bucket_ms : ℕ
  pub bucket_count : ℕ
  pub buckets : ℕ → Bucket
  pub last_evaluation_at : Option ℕ

unfoldable pub reset : Monitor → Monitor
reset m = record m {
  buckets = λ _. record { slot = none; counts = no_counts };
  last_evaluation_at = none;
}

-- `Math.max(1, Math.ceil(windowMs / bucketMs))`
unfoldable pub create : ℕ → ℕ → Monitor
create window_ms bucket_ms = reset (record {
  bucket_ms = bucket_ms;
  bucket_count = max 1 ((window_ms + (bucket_ms - 1)) / bucket_ms);
  buckets = λ _. record { slot = none; counts = no_counts };
  last_evaluation_at = none;
})

unfoldable pub add_outcome : Outcome → Counts → Counts
add_outcome accepted c = record c { accepted_count = c.accepted_count + 1 }
add_outcome rejected c = record c { rejected_count = c.rejected_count + 1 }
add_outcome error c = record c { errors = c.errors + 1 }

unfoldable pub add_suspicion : Bool → Counts → Counts
add_suspicion true c = record c { suspicious = c.suspicious + 1 }
add_suspicion false c = c

unfoldable pub is_slot : ℕ → Option ℕ → Bool
is_slot s none = false
is_slot s (some t) = t == s

-- `_bucketFor`: the bucket of a slot, emptied when it holds another one.
unfoldable pub bucket_for : ℕ → Bucket → Bucket
bucket_for s b = if is_slot s b.slot then b else record { slot = some s; counts = no_counts }

unfoldable pub count_in : Evaluation → Bucket → Bucket
count_in e b = record b { counts = add_suspicion e.is_suspicious (add_outcome e.outcome b.counts) }

unfoldable pub record_evaluation : Evaluation → Monitor → Monitor
record_evaluation e m =
    let s = e.time / m.bucket_ms in
    let i = s % m.bucket_count in
    record m {
      buckets = λ j. (if j == i then count_in e (bucket_for s (m.buckets j)) else m.buckets j);
      last_evaluation_at = some e.time;
    }

unfoldable pub record_all : List Evaluation → Monitor → Monitor
record_all [] m = m
record_all (e ∷ es) m = record_all es (record_evaluation e m)

-- Neither before `oldestSlot` nor after the current slot; with more buckets than slots so far, the
-- oldest slot is negative.
unfoldable pub in_window : ℕ → ℕ → Option ℕ → Bool
in_window n current none = false
in_window n current (some s) = ltb current (s + n) && leb s current

abbrev pub plus : Counts → Counts → Counts
plus c d = record {
  accepted_count = c.accepted_count + d.accepted_count;
  rejected_count = c.rejected_count + d.rejected_count;
  errors = c.errors + d.errors;
  suspicious = c.suspicious + d.suspicious;
}

-- The loop of `snapshot` over the first buckets.
unfoldable pub window_counts : ℕ → ℕ → ℕ → (ℕ → Bucket) → Counts
window_counts zero n current bs = no_counts
window_counts (suc i) n current bs =
    let rest = window_counts i n current bs in
    if in_window n current (bs i).slot then plus rest (bs i).counts else rest

pub data Status : Type 0 where
  healthy degraded unhealthy : Status

pub data Reason : Type 0 where
  error_ratio_exceeded rejection_ratio_exceeded suspicious_payload_spike : Reason

-- `F` are the numbers of JavaScript; `reaches part total t` is `part / total >= t`, with 0 for a
-- ratio whose total is 0.
pub record Thresholds (F : Type 0) : Type 0 where
  pub min_samples : ℕ
  pub error_ratio : F
  pub rejection_ratio : F
  pub suspicious_threshold : ℕ

-- The rounded ratios, the thresholds and the time of the last evaluation are left out.
pub record Report : Type 0 where
  pub status : Status
  pub reasons : List Reason
  pub total : ℕ
  pub counted : Counts

unfoldable pub degrade : Status → Status
degrade healthy = degraded
degrade s = s

abbrev pub escalate :
    Bool → (Status → Status) → Reason → Status × List Reason → Status × List Reason
escalate holds change why (s, whys) = if holds then (change s, whys ++ (why ∷ [])) else (s, whys)

module _ {F : Type 0} (reaches : ℕ → ℕ → F → Bool) where
  -- What `snapshot` makes of the counts.
  unfoldable pub report : Thresholds F → Counts → Report
  report t c =
      let total = c.accepted_count + c.rejected_count + c.errors in
      let sampled = leb t.min_samples total in
      let (s, whys) =
        escalate (leb t.suspicious_threshold c.suspicious) degrade suspicious_payload_spike (
          escalate (sampled && reaches c.rejected_count total t.rejection_ratio) degrade
            rejection_ratio_exceeded
            (escalate (sampled && reaches c.errors total t.error_ratio) (λ _. unhealthy)
              error_ratio_exceeded (healthy, []))) in
      record { status = s; reasons = whys; total = total; counted = c }

  unfoldable pub snapshot : Thresholds F → ℕ → Monitor → Report
  snapshot t now m =
      report t (window_counts m.bucket_count m.bucket_count (now / m.bucket_ms) m.buckets)
