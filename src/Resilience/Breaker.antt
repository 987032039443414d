-- ===== src/Resilience/Breaker.antt =====
-- app/core/resilience/circuit_breaker.py. Time is an argument, the reading of the monotonic clock;
-- each method that takes the lock is one function from the breaker to the breaker.
pub mod Transitions
pub mod Calls
pub mod Registry
use firecrawl_lb.Prelude.{
  ℕ, suc, ◌+◌, ltb, leb, Bool, true, false, Option, none, some, if◌then◌else◌,
}

pub data CircuitState : Type 0 where
  closed opened half_open : CircuitState

pub record CircuitBreaker : Type 0 where
  pub stored_state : CircuitState
  pub failure_count : ℕ
  pub success_count : ℕ
  pub last_failure_time : Option ℕ
  pub half_open_probe_in_flight : Bool
  pub failure_threshold : ℕ
  pub recovery_timeout_seconds : ℕ
  pub success_threshold : ℕ

abbrev pub new_breaker : ℕ → ℕ → ℕ → CircuitBreaker
new_breaker failure_threshold recovery_timeout_seconds success_threshold = record {
  stored_state = closed;
  failure_count = 0;
  success_count = 0;
  last_failure_time = none;
  half_open_probe_in_flight = false;
  failure_threshold = failure_threshold;
  recovery_timeout_seconds = recovery_timeout_seconds;
  success_threshold = success_threshold;
}

-- `now - last >= timeout`
abbrev pub timed_out : Option ℕ → ℕ → ℕ → Bool
timed_out none timeout now = false
timed_out (some last) timeout now = leb (last + timeout) now

abbrev observed : CircuitState → Bool → CircuitState
observed opened true = half_open
observed opened false = opened
observed closed out = closed
observed half_open out = half_open

-- The property `state`.
unfoldable pub state : CircuitBreaker → ℕ → CircuitState
state b now = observed b.stored_state (timed_out b.last_failure_time b.recovery_timeout_seconds now)

-- `CircuitBreakerOpenError`, or whether the call is the probe.
pub data Check : Type 0 where
  refused : Check
  admitted : Bool → Check

abbrev pub check_at : CircuitState → CircuitBreaker → Check × CircuitBreaker
check_at opened b = (refused, b)
check_at half_open b =
    if b.half_open_probe_in_flight
    then (refused, b)
    else (admitted true, record b { half_open_probe_in_flight = true })
check_at closed b = (admitted false, b)

unfoldable pub pre_call_check : CircuitBreaker → ℕ → Check × CircuitBreaker
unfolding state
pre_call_check b now = check_at (state b now) b

unfoldable pub release_half_open_probe : CircuitBreaker → CircuitBreaker
release_half_open_probe b = record b { half_open_probe_in_flight = false }

abbrev success_at : CircuitState → CircuitBreaker → CircuitBreaker
success_at half_open b =
    if leb b.success_threshold (suc b.success_count)
    then record b { stored_state = closed; failure_count = 0; success_count = 0 }
    else record b { success_count = suc b.success_count }
success_at closed b = if ltb 0 b.failure_count then record b { failure_count = 0 } else b
success_at opened b = b

unfoldable pub record_success : CircuitBreaker → ℕ → CircuitBreaker
unfolding state
record_success b now = success_at (state b now) b

-- An exception, by what `_is_server_error` asks of it.
pub data Failure : Type 0 where
  client_response : ℕ → Failure
  timeout : Failure
  with_status_code : ℕ → Failure
  other : Failure

unfoldable pub is_server_error : Failure → Bool
is_server_error (client_response status) = leb 500 status
is_server_error timeout = true
is_server_error (with_status_code status_code) = leb 500 status_code
is_server_error other = true

abbrev counted_failure : CircuitBreaker → ℕ → CircuitBreaker
counted_failure b now =
    let counted = record b {
      failure_count = suc b.failure_count;
      last_failure_time = some now;
      success_count = 0;
    } in
    if leb b.failure_threshold (suc b.failure_count)
    then record counted { stored_state = opened }
    else counted

unfoldable pub record_failure : CircuitBreaker → Failure → ℕ → CircuitBreaker
unfolding is_server_error
record_failure b exc now = if is_server_error exc then counted_failure b now else b
