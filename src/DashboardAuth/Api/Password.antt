-- ===== src/DashboardAuth/Api/Password.antt =====
-- app/modules/dashboard_auth/api.py: the handlers of a configured password. `table` is the table of
-- login attempts; `at` is the limiter's clock, in microseconds, and `now` the sessions', in seconds.
use firecrawl_lb.Prelude.{
  ℕ, String, Bool, true, false, not, ◌&&◌, Option, none, some, List, if◌then◌else◌,
}
use firecrawl_lb.Prelude.Text.{strip}
use firecrawl_lb.RateLimiter.{
  RateLimitAttempt, DatabaseRateLimiter, Verdict, allowed, limited, check_and_increment,
  clear_for_key,
}
use firecrawl_lb.DashboardAuth.Settings.{DashboardSettings, is_none}
use firecrawl_lb.DashboardAuth.Sessions.{DashboardSessionState, get}
use firecrawl_lb.DashboardAuth.Results.{
  AuthError, Outcome, Done, ok, failed, password_not_configured, invalid_credentials,
}
use firecrawl_lb.DashboardAuth.Service.{
  verify_password, change_password as service_change_password,
  remove_password as service_remove_password,
}
use firecrawl_lb.DashboardAuth.Access.{Request}
use firecrawl_lb.DashboardAuth.Bootstrap.{ensure_auto_bootstrap_token, get_manual_bootstrap_token}
use firecrawl_lb.DashboardAuth.Api.{
  Answer, reply, bad_request, auth_error, validation_error, rate_limited, raised, SessionReply,
  ApiLibrary, is_disabled, validate_password_length, session_client_key, session_reply,
  create_dashboard_session, ensure_password_management_enabled,
}

abbrev pub password_rate_limiter : DatabaseRateLimiter
password_rate_limiter = record { max_attempts = 8; window_seconds = 60; type_name = "password" }

-- What `change_password` and `remove_password` answer to an error.
abbrev pub credentials_error : {A : Type 0} → AuthError → Answer A
credentials_error password_not_configured = bad_request "password_not_configured"
credentials_error invalid_credentials = auth_error "invalid_credentials"
credentials_error e = raised e

module _ (lib : ApiLibrary) where
  -- The rows of the key are deleted, but after a wrong password.
  abbrev pub login_verified :
      Request
      → String
      → ℕ
      → DashboardSettings
      → DashboardSettings
      → List RateLimitAttempt
      → Outcome Done
      → Answer SessionReply × List RateLimitAttempt
  login_verified request rate_key now cached row table (failed invalid_credentials) =
      (auth_error "invalid_credentials", table)
  login_verified request rate_key now cached row table (failed password_not_configured) =
      (bad_request "password_not_configured", clear_for_key password_rate_limiter rate_key table)
  login_verified request rate_key now cached row table (failed e) = (raised e, table)
  login_verified request rate_key now cached row table (ok d) = (
    reply (session_reply lib request (create_dashboard_session lib true false now cached) now row),
    clear_for_key password_rate_limiter rate_key table,
  )

  abbrev pub login_checked :
      Request
      → String
      → String
      → ℕ
      → DashboardSettings
      → DashboardSettings
      → Verdict × List RateLimitAttempt
      → Answer SessionReply × List RateLimitAttempt
  login_checked request rate_key password now cached row (limited retry_after, table) =
      (rate_limited retry_after "password_rate_limited", table)
  login_checked request rate_key password now cached row (allowed, table) =
      login_verified request rate_key now cached row table (verify_password lib.auth password row)

  unfoldable pub login_password :
      Request
      → String
      → ℕ
      → ℕ
      → DashboardSettings
      → DashboardSettings
      → List RateLimitAttempt
      → Answer SessionReply × List RateLimitAttempt
  login_password request password at now cached row table =
      let rate_key = session_client_key request "password_login" in
      if is_disabled lib.settings.dashboard_auth_mode
      then (bad_request "password_management_disabled", table)
      else if is_none cached.password_hash
      then (bad_request "password_not_configured", table)
      else login_checked request rate_key password now cached row
          (check_and_increment password_rate_limiter rate_key at table)

  -- `none` is a pass.
  abbrev pub managed_session : Bool → Option DashboardSessionState → Option (Answer Done)
  managed_session totp_required_on_login none = some (auth_error "authentication_required")
  managed_session totp_required_on_login (some state) =
      if not state.password_verified
      then some (auth_error "authentication_required")
      else if totp_required_on_login && not state.totp_verified
      then some (auth_error "totp_required")
      else none

  unfoldable pub validate_password_management_session :
      Request → ℕ → DashboardSettings → Option (Answer Done)
  validate_password_management_session request now cached =
      if not (ensure_password_management_enabled lib request)
      then some (bad_request "password_management_disabled")
      else managed_session cached.totp_required_on_login
          (get lib.auth.sealing request.session_cookie now)

  abbrev pub done_or_error : Outcome Done × DashboardSettings → Answer Done × DashboardSettings
  done_or_error (failed e, row) = (credentials_error e, row)
  done_or_error (ok d, row) = (reply d, row)

  abbrev pub change_checked :
      String → String → String → DashboardSettings → Option String → Answer Done × DashboardSettings
  change_checked current_password new_password salt row (some code) = (validation_error code, row)
  change_checked current_password new_password salt row none =
      done_or_error (service_change_password lib.auth current_password new_password salt row row)

  abbrev pub if_managed :
      Option (Answer Done)
      → DashboardSettings
      → Answer Done × DashboardSettings
      → Answer Done × DashboardSettings
  if_managed (some error) row rest = (error, row)
  if_managed none row rest = rest

  unfoldable pub change_password :
      Request
      → String
      → String
      → String
      → ℕ
      → DashboardSettings
      → DashboardSettings
      → Answer Done × DashboardSettings
  change_password request current_password payload_new_password salt now cached row =
      let new_password = strip payload_new_password in
      if_managed (validate_password_management_session request now cached) row (
        change_checked current_password new_password salt row
          (validate_password_length new_password))

  -- A new bootstrap token is drawn once the password is gone.
  abbrev pub removed : String → Outcome Done × DashboardSettings → Answer Done × DashboardSettings
  removed token (failed e, row) = (credentials_error e, row)
  removed token (ok d, row) = (
    reply d,
    (ensure_auto_bootstrap_token lib.bootstrap
        (get_manual_bootstrap_token lib.dashboard_bootstrap_token) token row row).1,
  )

  unfoldable pub remove_password :
      Request
      → String
      → String
      → ℕ
      → DashboardSettings
      → DashboardSettings
      → Answer Done × DashboardSettings
  remove_password request password token now cached row =
      if_managed (validate_password_management_session request now cached) row
        (removed token (service_remove_password lib.auth password row row))
