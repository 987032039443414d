-- ===== src/DashboardAuth/Api/Totp.antt =====
-- app/modules/dashboard_auth/api.py: the handlers of one-time codes. `table` is the table of attempts;
-- `at` is the limiter's clock, in microseconds, and `now` the sessions' and the codes', in seconds.
use firecrawl_lb.Prelude.{ℕ, String, Bool, false, not, List, if◌then◌else◌}
use firecrawl_lb.RateLimiter.{
  RateLimitAttempt, DatabaseRateLimiter, Verdict, allowed, limited, check_and_increment,
  clear_for_key,
}
use firecrawl_lb.DashboardAuth.Settings.{DashboardSettings, is_some}
use firecrawl_lb.DashboardAuth.Sessions.{is_password_verified}
use firecrawl_lb.DashboardAuth.Results.{
  AuthError, Outcome, Done, ok, failed, TotpSetupStartResponse, password_session_required,
  totp_invalid_code, totp_invalid_setup, totp_already_configured, totp_not_configured,
}
use firecrawl_lb.DashboardAuth.Service.{
  require_active_password_session, require_totp_verified_session,
  start_totp_setup as service_start_totp_setup, confirm_totp_setup as service_confirm_totp_setup,
  verify_totp as service_verify_totp, disable_totp as service_disable_totp,
}
use firecrawl_lb.DashboardAuth.Access.{Request}
use firecrawl_lb.DashboardAuth.Api.{
  Answer, reply, bad_request, auth_error, rate_limited, raised, SessionReply, ApiLibrary,
  session_client_key, session_reply, ensure_password_management_enabled,
}

abbrev pub totp_rate_limiter : DatabaseRateLimiter
totp_rate_limiter = record { max_attempts = 8; window_seconds = 60; type_name = "totp" }

-- What the handlers answer to the service's errors.
abbrev pub totp_error : {A : Type 0} → AuthError → Answer A
totp_error password_session_required = auth_error "authentication_required"
totp_error totp_invalid_code = bad_request "invalid_totp_code"
totp_error totp_not_configured = bad_request "invalid_totp_code"
totp_error totp_invalid_setup = bad_request "invalid_totp_setup"
totp_error totp_already_configured = bad_request "invalid_totp_setup"
totp_error e = raised e

-- The settings and the attempts.
pub record TotpTables : Type 0 where
  pub row : DashboardSettings
  pub table : List RateLimitAttempt

-- A success deletes the rows of the key.
abbrev pub counted :
    {A : Type 0}
    → String
    → List RateLimitAttempt
    → Outcome A × DashboardSettings
    → Answer A × TotpTables
counted rate_key table (failed e, row) = (totp_error e, record { row = row; table = table })
counted rate_key table (ok a, row) =
    (reply a, record { row = row; table = clear_for_key totp_rate_limiter rate_key table })

abbrev pub if_allowed :
    {A : Type 0}
    → String
    → Verdict × List RateLimitAttempt
    → DashboardSettings
    → Outcome A × DashboardSettings
    → Answer A × TotpTables
if_allowed rate_key (limited retry_after, table) row rest =
    (rate_limited retry_after "totp_rate_limited", record { row = row; table = table })
if_allowed rate_key (allowed, table) row rest = counted rate_key table rest

abbrev pub if_session :
    {A : Type 0} {B : Type 0}
    → Outcome B
    → TotpTables
    → Answer A × TotpTables
    → Answer A × TotpTables
if_session (failed e) tables rest = (totp_error e, tables)
if_session (ok session) tables rest = rest

module _ (lib : ApiLibrary) where
  unfoldable pub has_active_password_session : Request → ℕ → DashboardSettings → Bool
  has_active_password_session request now row =
      if is_some row.password_hash
      then is_password_verified lib.auth.sealing request.session_cookie now
      else false

  abbrev pub start_answer : Outcome TotpSetupStartResponse → Answer TotpSetupStartResponse
  start_answer (ok started) = reply started
  start_answer (failed e) = totp_error e

  -- `secret` is drawn.
  unfoldable pub start_totp_setup :
      Request → String → ℕ → DashboardSettings → Answer TotpSetupStartResponse
  start_totp_setup request secret now row =
      if not (ensure_password_management_enabled lib request)
      then bad_request "password_management_disabled"
      else if not (has_active_password_session request now row)
      then auth_error "authentication_required"
      else start_answer (service_start_totp_setup lib.auth request.session_cookie secret now row)

  unfoldable pub confirm_totp_setup :
      Request → String → String → ℕ → ℕ → TotpTables → Answer Done × TotpTables
  confirm_totp_setup request secret code at now tables =
      let rate_key = session_client_key request "totp_setup_confirm" in
      if not (ensure_password_management_enabled lib request)
      then (bad_request "password_management_disabled", tables)
      else if not (has_active_password_session request now tables.row)
      then (auth_error "authentication_required", tables)
      else if_allowed rate_key (check_and_increment totp_rate_limiter rate_key at tables.table)
          tables.row
          (service_confirm_totp_setup lib.auth request.session_cookie secret code now now tables.row
            tables.row)

  abbrev pub verified_reply :
      Request → ℕ → Answer (String × ℕ) × TotpTables → Answer SessionReply × TotpTables
  verified_reply request now (reply (session_id, ttl), tables) =
      (reply (session_reply lib request session_id now tables.row), tables)
  verified_reply request now (bad_request code, tables) = (bad_request code, tables)
  verified_reply request now (auth_error code, tables) = (auth_error code, tables)
  verified_reply request now (Answer.conflict code, tables) = (Answer.conflict code, tables)
  verified_reply request now (Answer.validation_error code, tables) =
      (Answer.validation_error code, tables)
  verified_reply request now (rate_limited after code, tables) = (rate_limited after code, tables)
  verified_reply request now (raised e, tables) = (raised e, tables)

  unfoldable pub verify_totp :
      Request → String → ℕ → ℕ → TotpTables → Answer SessionReply × TotpTables
  verify_totp request code at now tables =
      let rate_key = session_client_key request "totp_verify" in
      if not (ensure_password_management_enabled lib request)
      then (bad_request "password_management_disabled", tables)
      else verified_reply request now (
          if_session
            (require_active_password_session lib.auth request.session_cookie now tables.row) tables
            (if_allowed rate_key (check_and_increment totp_rate_limiter rate_key at tables.table)
              tables.row
              (service_verify_totp lib.auth request.session_cookie code now now now tables.row
                tables.row)))

  unfoldable pub disable_totp : Request → String → ℕ → ℕ → TotpTables → Answer Done × TotpTables
  disable_totp request code at now tables =
      let rate_key = session_client_key request "totp_disable" in
      if not (ensure_password_management_enabled lib request)
      then (bad_request "password_management_disabled", tables)
      else if_session
          (require_totp_verified_session lib.auth request.session_cookie now now tables.row) tables
          (if_allowed rate_key (check_and_increment totp_rate_limiter rate_key at tables.table)
            tables.row
            (service_disable_totp lib.auth request.session_cookie code now now now tables.row
              tables.row))
