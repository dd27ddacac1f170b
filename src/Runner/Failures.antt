-- ===== src/Runner/Failures.antt =====
-- app/runtime/runner.py: the exceptions of a turn, which of them are transient, and how long to wait.
use open_managed_agents.Json.{int, null, Value}
use open_managed_agents.Result.{
  runtime_error, crash, lease_error, err, http, ok, Error, Result, ◌>>=◌,
}
use open_managed_agents.WorkQueue.Defs.{to_int}
use open_managed_agents.Prelude.{
  has_any_part, leb, ◌-◌, ◌||◌, ◌*◌, eqb, none, negsuc, ◌^◌, min, suc, [], Bool, pos, false, ◌∷◌,
  some, ℤ, ℕ, Option, String, List,
}
use open_managed_agents.Runtime.{Runtime}

-- `int(float(value))`: a TypeError or ValueError, an OverflowError (of an infinite or too large
-- number), or a number.
pub data Parsed : Type 0 where
  not_number : Parsed
  overflows : Parsed
  whole : ℤ → Parsed

-- What the program reads of an exception. Attributes that are missing are None.
pub record Failure : Type 0 where
  pub class_name : String
  pub message : String
  -- `isinstance(exc, (TimeoutError, ConnectionError))`
  pub is_connection : Bool
  pub status_code : Value
  pub status : Value
  -- `int(float(exc.retry_after))`, and the same of the response's header `retry-after`.
  pub retry_after : Parsed
  pub retry_header : Parsed

abbrev pub max_transient_retry_attempts : ℕ
max_transient_retry_attempts = 3

abbrev pub default_retry_after_seconds : ℕ
default_retry_after_seconds = 5

abbrev pub max_retry_after_seconds : ℕ
max_retry_after_seconds = 300

abbrev pub transient_markers : List String
transient_markers =
    "ratelimit" ∷ "rate_limit" ∷ "timeout" ∷ "connection" ∷ "temporar" ∷ "serviceunavailable"
    ∷ "internalserver" ∷ []

-- `status_code in {408, 409, 425, 429} or status_code >= 500`
abbrev pub is_transient_code : ℤ → Bool
is_transient_code (negsuc n) = false
is_transient_code (pos n) = eqb n 408 || eqb n 409 || eqb n 425 || eqb n 429 || leb 500 n

-- `_positive_int`, on what `int(float(value))` gives: its `except` clause does not catch an
-- OverflowError.
abbrev pub positive_int : Parsed → Result (Option ℕ)
positive_int not_number = ok none
positive_int overflows = err (crash "OverflowError")
positive_int (whole (pos (suc n))) = ok (some (suc n))
positive_int (whole z) = ok none

-- `2 ** max(attempt - 1, 0)`
abbrev pub doublings : ℤ → ℕ
doublings (pos n) = 2 ^ (n - 1)
doublings (negsuc n) = 1

abbrev pub header_or_backoff : ℤ → Option ℕ → ℕ
header_or_backoff attempt (some parsed) = min parsed max_retry_after_seconds
header_or_backoff attempt none =
    min (default_retry_after_seconds * doublings attempt) max_retry_after_seconds

-- The header is read only where the exception itself gives no wait.
abbrev pub direct_or_header : Failure → ℤ → Option ℕ → Result ℕ
direct_or_header exc attempt (some direct) = ok (min direct max_retry_after_seconds)
direct_or_header exc attempt none =
    positive_int exc.retry_header >>= λ parsed. ok (header_or_backoff attempt parsed)

-- `_retry_after_seconds`
unfoldable pub retry_after_seconds : Failure → ℤ → Result ℕ
retry_after_seconds exc attempt = positive_int exc.retry_after >>= direct_or_header exc attempt

abbrev pub plain_failure : String → String → Failure
plain_failure class_name message = record {
  class_name = class_name;
  message = message;
  is_connection = false;
  status_code = null;
  status = null;
  retry_after = not_number;
  retry_header = not_number;
}

module _ ⦃r : Runtime⦄ where
  -- The exception that a modelled call raises.
  abbrev pub failure_of : Error → Failure
  failure_of (http code detail) = record (plain_failure "HTTPException" detail) {
    status_code = int (pos code);
  }
  failure_of (lease_error message) = plain_failure "WorkLeaseError" message
  failure_of (crash class_name) = plain_failure class_name (r.message_of class_name)
  failure_of (runtime_error message) = plain_failure "RuntimeError" message

  -- `_status_code`
  unfoldable pub status_code_of : Failure → Option ℤ
  status_code_of exc = elim (to_int exc.status_code) [
    | ok code ↦ some code
    | err _ ↦ elim (to_int exc.status) [ ok code ↦ some code | err _ ↦ none ]
  ]

  -- `_is_transient_runtime_error`
  unfoldable pub is_transient : Failure → Bool
  is_transient exc =
      (elim (status_code_of exc) [ none ↦ false | some code ↦ is_transient_code code ])
      || exc.is_connection
      || has_any_part transient_markers (r.lower exc.class_name)
