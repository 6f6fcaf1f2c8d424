-- ===== src/Trustlines/Errors.antt =====
-- `classifyError`, `enhanceError` and the classes of dead letters.
use stellar_payment_api.Base.{
  ℕ, String, Bool, true, false, ◌&&◌, ◌||◌, Option, none, some, ◌≡◌, ◌≢◌, if◌then◌else◌, ltb, leb,
  ◌==◌, arith,
}
use text.Mathlib.Text.{find?}

-- An error: its message in lower case, the numbers `error.status` and `error.response.status`, and
-- the flag of `withTimeout`.
pub record OperationError : Type 0 where
  pub message : String
  pub status : Option ℕ
  pub response_status : Option ℕ
  pub is_timeout : Bool

-- An error that is null.
abbrev pub null_error : OperationError
null_error = record { message = ""; status = none; response_status = none; is_timeout = false }

pub data ErrorType : Type 0 where
  timeout db_schema_conflict network rate_limit auth_error server_error asset_not_found : ErrorType
  insufficient_balance client_error unknown : ErrorType

pub data Priority : Type 0 where
  no_priority low medium high : Priority

pub record ErrorClass : Type 0 where
  pub type : ErrorType
  pub retryable : Bool
  pub priority : Priority

-- `message.includes(part)`
unfoldable pub includes : String → String → Bool
includes message part = elim (find? message part) [ none ↦ false | some _ ↦ true ]

-- `a || b` on numbers: 0 counts as missing.
unfoldable pub or_status : Option ℕ → Option ℕ → Option ℕ
or_status none other = other
or_status (some s) other = if s == 0 then other else some s

unfoldable pub is_status : ℕ → Option ℕ → Bool
is_status n none = false
is_status n (some s) = s == n

-- `typeof status === "number" && status >= low && status < high`
unfoldable pub is_between : ℕ → ℕ → Option ℕ → Bool
is_between from to none = false
is_between from to (some s) = leb from s && ltb s to

abbrev again : ErrorType → Priority → ErrorClass
again t p = record { type = t; retryable = true; priority = p }

abbrev never : ErrorType → ErrorClass
never t = record { type = t; retryable = false; priority = no_priority }

-- The last two classes: a client error, or an unknown one.
unfoldable pub classify_client_error : Option ℕ → ErrorClass
classify_client_error status =
    if is_between 400 500 status then never client_error else again unknown low

unfoldable pub classify_trustline_error : String → Option ℕ → ErrorClass
classify_trustline_error message status =
    if includes message "trustline" || includes message "asset"
    then if includes message "not found" || is_status 404 status
      then never asset_not_found
      else if includes message "insufficient" || includes message "balance"
      then never insufficient_balance
      else classify_client_error status
    else classify_client_error status

unfoldable pub is_network_error : String → Option ℕ → Bool
is_network_error message status =
    includes message "network"
    || includes message "timeout"
    || includes message "connection"
    || includes message "econnrefused"
    || is_status 502 status
    || is_status 503 status
    || is_status 504 status

unfoldable pub classify_error : OperationError → ErrorClass
classify_error e =
    let status = or_status e.status e.response_status in
    if e.is_timeout || includes e.message "timed out"
    then again timeout high
    else if includes e.message "index already exists"
        || includes e.message "relation already exists"
    then never db_schema_conflict
    else if is_network_error e.message status
    then again network high
    else if is_status 429 status || includes e.message "rate limit"
    then again rate_limit low
    else if is_status 401 status || is_status 403 status
    then never auth_error
    else if is_between 500 600 status
    then again server_error medium
    else classify_trustline_error e.message status

-- The error that the caller gets: a `status` of the error itself, or 500.
pub record EnhancedError : Type 0 where
  pub attempts : ℕ
  pub error_class : ErrorClass
  pub status : Option ℕ
  pub recoverable : Bool

unfoldable pub enhance_error : OperationError → ℕ → ErrorClass → EnhancedError
enhance_error e attempts c = record {
  attempts = attempts;
  error_class = c;
  status = or_status e.status (some 500);
  recoverable = c.retryable;
}

-- `_classifyErrorPriority`
unfoldable pub classify_error_priority : ErrorType → Priority
classify_error_priority auth_error = high
classify_error_priority db_schema_conflict = high
classify_error_priority insufficient_balance = high
classify_error_priority asset_not_found = medium
classify_error_priority client_error = medium
classify_error_priority t = low

-- `_isRetryableError`
unfoldable pub is_retryable_error : ErrorType → Bool
is_retryable_error auth_error = false
is_retryable_error client_error = false
is_retryable_error asset_not_found = false
is_retryable_error insufficient_balance = false
is_retryable_error db_schema_conflict = false
is_retryable_error t = true

-- `_getRecommendedAction`
unfoldable pub get_recommended_action : ErrorType → String
get_recommended_action auth_error = "Verify authentication credentials and permissions"
get_recommended_action asset_not_found = "Verify asset code and issuer address"
get_recommended_action insufficient_balance = "Check account balance and required reserves"
get_recommended_action network = "Retry operation - transient network issue"
get_recommended_action rate_limit = "Wait and retry with exponential backoff"
get_recommended_action timeout = "Operation may have succeeded - verify state before retry"
get_recommended_action db_schema_conflict = "Database migration required - contact administrator"
get_recommended_action t = "Review error details and context"

-- The class of an error agrees with what the dead letter queue says of its type.
pub classify_error-is_retryable_error :
    (e : OperationError) → (classify_error e).retryable ≡ is_retryable_error (classify_error e).type
unfolding classify_error classify_trustline_error classify_client_error is_retryable_error
classify_error-is_retryable_error e = ground arith

-- An error that is not retryable is never of the lowest priority.
pub unretryable_priority :
    (t : ErrorType) → is_retryable_error t ≡ false → classify_error_priority t ≢ low
unfolding is_retryable_error classify_error_priority
unretryable_priority t not_retryable = ground arith
