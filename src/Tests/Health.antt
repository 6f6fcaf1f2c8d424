-- ===== src/Tests/Health.antt =====
-- A health window of six buckets of five seconds.
use stellar_payment_api.Base.{ℕ, ◌*◌, ◌≡◌, refl, Bool, true, false, List, [], ◌∷◌, leb, arith}
use stellar_payment_api.SessionHealth.{
  Evaluation, accepted, rejected, error, Thresholds, Report, degraded, rejection_ratio_exceeded,
  create, reset, record_all, record_evaluation, snapshot, report, window_counts, in_window,
  bucket_for, is_slot, count_in, add_outcome, add_suspicion, degrade,
}
use stellar_payment_api.SessionHealth.Rolling.{history_counts, snapshot_of_history}

-- Ratios in percent.
abbrev reaches : ℕ → ℕ → ℕ → Bool
reaches part total t = leb (t * total) (part * 100)

abbrev thresholds : Thresholds ℕ
thresholds = record {
  min_samples = 1;
  error_ratio = 5;
  rejection_ratio = 50;
  suspicious_threshold = 10;
}

abbrev evaluations : List Evaluation
evaluations =
    record { time = 1000; outcome = accepted; is_suspicious = false }
    ∷ record { time = 12000; outcome = error; is_suspicious = false }
    ∷ record { time = 40000; outcome = rejected; is_suspicious = true }
    ∷ record { time = 40500; outcome = accepted; is_suspicious = false }
    ∷ []

-- The error is out of the window.
abbrev expected : Report
expected = record {
  status = degraded;
  reasons = rejection_ratio_exceeded ∷ [];
  total = 2;
  counted = record { accepted_count = 1; rejected_count = 1; errors = 0; suspicious = 1 };
}

degraded_snapshot :
    snapshot reaches thresholds 41000 (record_all evaluations (create 30000 5000)) ≡ expected
unfolding create reset record_all record_evaluation snapshot report window_counts in_window
    bucket_for is_slot count_in add_outcome add_suspicion degrade
degraded_snapshot = refl

snapshot_of_history_example :
    snapshot reaches thresholds 41000 (record_all evaluations (create 30000 5000))
    ≡ report reaches thresholds (history_counts (create 30000 5000) 41000 evaluations)
snapshot_of_history_example =
    snapshot_of_history reaches thresholds 30000 5000 41000 evaluations (omega arith)
      (omega arith, (omega arith, (omega arith, (omega arith, tt)))) (omega arith)
