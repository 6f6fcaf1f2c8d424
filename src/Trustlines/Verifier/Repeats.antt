-- ===== src/Trustlines/Verifier/Repeats.antt =====
-- How long a stored verification is repeated.
use stellar_payment_api.Base.{ℕ, ◌<◌}
use stellar_payment_api.OrderedMap
use stellar_payment_api.OrderedMap.{get-set}
use stellar_payment_api.Trustlines.Verifier.{Request}

-- The request ends while the entry is fresh, and starts then.
abbrev pub IsWithin : ℕ → Request → Type 0
IsWithin end q = (q.started < end) × (q.ended < end)
