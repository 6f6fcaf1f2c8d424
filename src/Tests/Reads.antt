-- ===== src/Tests/Reads.antt =====
-- A read that finds the database away twice.
use stellar_payment_api.Base.{
  ℕ, zero, suc, ◌-◌, ◌*◌, ◌≤◌, ◌≡◌, ◌⊎◌, refl, false, true, Option, none, some, List, [], ◌∷◌, leb,
  arith,
}
use stellar_payment_api.ReadRetry.{
  unusable, number, Resolved, Spec, Sources, clamp_int, resolve_backoff_options, Failure, Result,
  mark, mark_caught, mark_error, exhausted, Answer, answers, throws, Event, scheduled, recovered,
  Environment, carry, run_query, is_retryable, compute_backoff_delay, sleeping, after_attempt,
  retry_from, retry_with_backoff, unwrap, read_of, retry_supabase_read,
}
use stellar_payment_api.ReadRetry.Answers.{noted, is_transient, retry_supabase_read_lem}
use stellar_payment_api.ReadRetry.Times.{retries, slept_ms, sleeps_below_ceilings}

-- The payment processor, whose environment asks for 9 attempts.
abbrev spec : Spec
spec = record {
  defaults = record { max_attempts = 3; base_delay_ms = 50; max_delay_ms = 500 };
  max_attempts_ceiling = 5;
  max_delay_ceiling_ms = 3000;
}

abbrev sources : Sources
sources = record { attempts = number 9; base = unusable; maximum = unusable }

-- An error is its status.
abbrev status : ℕ → Failure ℕ
status n = record { value = n; is_object = true; retry_attempts = none }

abbrev result : Option (Failure ℕ) → Result ℕ ℕ
result o = record { data_of = 0; error = o }

abbrev ends : ℕ → Answer ℕ ℕ
ends zero = answers (result none)
ends (suc zero) = answers (result (some (status 503)))
ends (suc (suc zero)) = throws (status 500)
ends (suc (suc (suc n))) = answers (result (some (status 404)))

abbrev shaky : Environment ℕ ℕ
shaky = record { ends = ends; should_retry = λ e. leb 500 e.value; jittered = λ i ceiling. ceiling }

abbrev resolved : Resolved
resolved = resolve_backoff_options sources spec

abbrev events : List Event
events = scheduled 1 50 ∷ scheduled 2 100 ∷ recovered 3 ∷ []

shaky_answers : retry_supabase_read shaky resolved ≡ some (ends 3, events)
unfolding retry_supabase_read retry_with_backoff retry_from after_attempt run_query carry
    is_retryable compute_backoff_delay sleeping unwrap read_of resolve_backoff_options clamp_int
shaky_answers = refl

-- With one attempt, the transient error of the result has it noted.
one_attempt :
    retry_supabase_read shaky (record { max_attempts = 1; base_delay_ms = 50; max_delay_ms = 500 })
    ≡ some (
      answers (result (some (record { value = 503; is_object = true; retry_attempts = some 1 }))),
      exhausted 1 ∷ [],
    )
unfolding retry_supabase_read retry_with_backoff retry_from after_attempt run_query carry
    is_retryable mark_caught mark_error mark unwrap read_of
one_attempt = refl

allowed : 1 ≤ resolved.max_attempts
unfolding resolve_backoff_options clamp_int
allowed = omega arith

retry_supabase_read_lem_example :
    (n : ℕ) × (told : List Event) × (retry_supabase_read shaky resolved
      ≡ some (noted shaky n (ends n), told))
    × (1 ≤ n)
    × (n ≤ resolved.max_attempts)
    × ((is_transient shaky (ends n) ≡ false) ⊎ (n ≡ resolved.max_attempts))
    × ((i : ℕ) → 1 ≤ i → suc i ≤ n → is_transient shaky (ends i) ≡ true)
retry_supabase_read_lem_example = retry_supabase_read_lem shaky resolved allowed

sleeps_below_ceilings_example :
    (a : Answer ℕ ℕ) × (told : List Event) × (retry_supabase_read shaky resolved ≡ some (a, told))
    × (suc (retries told) ≤ 5)
    × (slept_ms told ≤ (5 - 1) * 3000)
sleeps_below_ceilings_example =
    sleeps_below_ceilings shaky sources spec (λ i c. omega arith) (omega arith) (omega arith)
      (omega arith)
