-- ===== src/SessionHealth/Rolling.antt =====
-- A snapshot of the ring against the whole history of evaluations.
use stellar_payment_api.Base.{
  ℕ, zero, suc, ◌+◌, ◌/◌, ◌%◌, ◌≤◌, ◌<◌, Bool, true, false, ◌&&◌, some, List, [], ◌∷◌,
  if◌then◌else◌, ltb, ◌≡◌, refl, sym, ap, ◌∙◌, arith,
}
use stellar_payment_api.SessionHealth.{
  Evaluation, Counts, Bucket, Monitor, reset, create, record_evaluation, record_all, in_window,
  plus, window_counts, Thresholds, report, snapshot,
}
use stellar_payment_api.SessionHealth.Worth.{
  Kind, tally, tally-plus, tally-no_counts, logged, logged-suc, logged-zero, logged-all,
  acceptances, rejections, failures, suspicions,
}
use stellar_payment_api.SessionHealth.Slots.{div-le}
use stellar_payment_api.SessionHealth.Window.{share, HasWindow, put-HasWindow}

-- The clock does not run backwards.
abbrev pub Ordered : ℕ → List Evaluation → Type 0
Ordered last [] = Unit
Ordered last (e ∷ es) = (last ≤ e.time) × Ordered e.time es

-- The time of the last evaluation.
abbrev pub last_time : ℕ → List Evaluation → ℕ
last_time last [] = last
last_time last (e ∷ es) = last_time e.time es

-- The evaluations put on a list one by one.
reverse_onto : List Evaluation → List Evaluation → List Evaluation
reverse_onto [] log = log
reverse_onto (e ∷ es) log = reverse_onto es (e ∷ log)

logged-reverse_onto :
    (k : Kind) (bucket_ms : ℕ) (p : ℕ → Bool) (es log : List Evaluation)
    → logged k bucket_ms p (reverse_onto es log)
      ≡ logged k bucket_ms p es + logged k bucket_ms p log
unfolding reverse_onto logged
logged-reverse_onto k bucket_ms p [] log = omega arith
logged-reverse_onto k bucket_ms p (e ∷ es) log =
    ground (arith, logged-reverse_onto k bucket_ms p es (e ∷ log))

runs-HasWindow :
    (m : Monitor) (last : ℕ) (es log : List Evaluation)
    → 0 < m.bucket_ms
    → HasWindow m.bucket_ms m.bucket_count (last / m.bucket_ms) m.buckets log
    → Ordered last es
    → let r = record_all es m in
      (r.bucket_ms ≡ m.bucket_ms)
      × (r.bucket_count ≡ m.bucket_count)
      × HasWindow m.bucket_ms m.bucket_count
          (last_time last es / m.bucket_ms)
          r.buckets
          (reverse_onto es log)
unfolding record_all record_evaluation reverse_onto
runs-HasWindow m last [] log positive v ordered = (refl, refl, v)
runs-HasWindow m last (e ∷ es) log positive v (later, ordered) =
    runs-HasWindow (record_evaluation e m) e.time es (e ∷ log) positive
      (put-HasWindow m.bucket_ms m.bucket_count (last / m.bucket_ms) e m.buckets log v
        (div-le last e.time m.bucket_ms positive later))
      ordered

tally-if :
    (k : Kind) (b : Bool) (c d : Counts)
    → tally k (if b then plus c d else c) ≡ tally k c + (if b then tally k d else 0)
tally-if k true c d = tally-plus k c d
tally-if k false c d = omega arith

tally-window_counts :
    (k : Kind) (bucket_ms n top i current : ℕ) (bs : ℕ → Bucket) (es : List Evaluation)
    → HasWindow bucket_ms n top bs es
    → top ≤ current
    → tally k (window_counts i n current bs)
      ≡ logged k bucket_ms (λ s. in_window n current (some s) && ltb (s % n) i) es
unfolding window_counts share
tally-window_counts k bucket_ms n top zero current bs es v now =
    tally-no_counts k ∙ sym (logged-zero k bucket_ms n (λ s. in_window n current (some s)) es)
tally-window_counts k bucket_ms n top (suc i) current bs es v now = omega (
  arith,
  tally-if k (in_window n current (bs i).slot) (window_counts i n current bs) (bs i).counts,
  v.shares k i current now,
  tally-window_counts k bucket_ms n top i current bs es v now,
  logged-suc k bucket_ms n i (λ s. in_window n current (some s)) es,
)

-- The counts of all evaluations whose slot is one of the last `bucket_count`.
abbrev pub history_counts : Monitor → ℕ → List Evaluation → Counts
history_counts m now es =
    let count : Kind → ℕ =
      λ k. logged k m.bucket_ms (λ s. in_window m.bucket_count (now / m.bucket_ms) (some s)) es in
    record {
      accepted_count = count acceptances;
      rejected_count = count rejections;
      errors = count failures;
      suspicious = count suspicions;
    }

create-HasWindow :
    (window_ms bucket_ms : ℕ)
    → let m = create window_ms bucket_ms in
      HasWindow m.bucket_ms m.bucket_count (0 / m.bucket_ms) m.buckets []
      × (0 < m.bucket_count)
      × (m.bucket_ms ≡ bucket_ms)
unfolding create reset share in_window logged
create-HasWindow window_ms bucket_ms = (
  record {
    shares = λ k i current now. refl;
    placed = λ i s there. ground (arith, there);
    before = tt;
  },
  omega arith,
  refl,
)

Counts-ext : (c d : Counts) → ((k : Kind) → tally k c ≡ tally k d) → c ≡ d
unfolding tally
Counts-ext c d same =
    ground (arith, same acceptances, same rejections, same failures, same suspicions)

history_tally :
    (k : Kind) (m : Monitor) (now : ℕ) (es : List Evaluation)
    → tally k (history_counts m now es)
      ≡ logged k m.bucket_ms (λ s. in_window m.bucket_count (now / m.bucket_ms) (some s)) es
unfolding tally
history_tally acceptances m now es = refl
history_tally rejections m now es = refl
history_tally failures m now es = refl
history_tally suspicions m now es = refl

counts-history :
    (m : Monitor) (now : ℕ) (es : List Evaluation)
    → 0 < m.bucket_ms
    → 0 < m.bucket_count
    → HasWindow m.bucket_ms m.bucket_count (0 / m.bucket_ms) m.buckets []
    → Ordered 0 es
    → last_time 0 es ≤ now
    → window_counts m.bucket_count m.bucket_count (now / m.bucket_ms) (record_all es m).buckets
      ≡ history_counts m now es
unfolding logged
counts-history m now es positive some_bucket v ordered later =
    let (same_ms, same_count, w) = runs-HasWindow m 0 es [] positive v ordered in
    let b = m.bucket_ms in
    let n = m.bucket_count in
    let p : ℕ → Bool = λ s. in_window n (now / b) (some s) in
    Counts-ext (window_counts n n (now / b) (record_all es m).buckets) (history_counts m now es)
      (λ k. omega (
        arith,
        tally-window_counts k b n (last_time 0 es / b) n (now / b) (record_all es m).buckets
            (reverse_onto es []) w (div-le (last_time 0 es) now b positive later),
        logged-all k b n p (reverse_onto es []) some_bucket,
        logged-reverse_onto k b p es [],
        history_tally k m now es,
      ))

module _ {F : Type 0} (reaches : ℕ → ℕ → F → Bool) where
  -- A new monitor with buckets of positive length, whose clock does not run backwards: after any
  -- evaluations, a snapshot is the report on the exact counts of those evaluations whose slot is
  -- one of the last `bucket_count` slots, however many there have been before.
  pub snapshot_of_history :
      (t : Thresholds F) (window_ms bucket_ms now : ℕ) (es : List Evaluation)
      → 0 < bucket_ms
      → Ordered 0 es
      → last_time 0 es ≤ now
      → snapshot reaches t now (record_all es (create window_ms bucket_ms))
        ≡ report reaches t (history_counts (create window_ms bucket_ms) now es)
  unfolding snapshot
  snapshot_of_history t window_ms bucket_ms now es positive ordered later =
      let m = create window_ms bucket_ms in
      let (v, some_bucket, same) = create-HasWindow window_ms bucket_ms in
      let long : 0 < m.bucket_ms = omega (arith, positive, same) in
      let (same_ms, same_count, w) = runs-HasWindow m 0 es [] long v ordered in
      rw (same_ms, same_count)
        (ap (report reaches t) (counts-history m now es long some_bucket v ordered later))
