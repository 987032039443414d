-- ===== src/DashboardAuth/Api.antt =====
-- app/modules/dashboard_auth/api.py: the session that a response describes, the tests that the handlers
-- share, and the handlers of the session and of the first password. A request runs to its end before the
-- next one: `row` is the row of settings; `cached` is the row that the settings' cache holds. Texts of
-- messages and the attributes of the cookie are left out; a text in an answer is the error's code.
pub mod Password
pub mod Totp
pub mod Guesses
use firecrawl_lb.Prelude.{
  ℕ, suc, ◌+◌, ltb, String, Bool, true, false, not, ◌&&◌, ◌||◌, Option, none, some, List, [], ◌∷◌,
  length, if◌then◌else◌,
}
use Prim.Native.String.{◌++◌}
use firecrawl_lb.Prelude.Text.{codes, strip, is_empty}
use firecrawl_lb.DashboardAuth.Settings.{DashboardSettings, is_some, is_none}
use firecrawl_lb.DashboardAuth.Sessions.{
  DashboardSessionState, Sealing, create, get, password_flag, totp_flag, is_password_verified,
}
use firecrawl_lb.DashboardAuth.Results.{
  AuthError, Outcome, Done, AuthLibrary, DashboardAuthSessionResponse, ok, failed, done,
  password_already_configured,
}
use firecrawl_lb.DashboardAuth.Service.{get_session_state, setup_password as service_setup_password}
use firecrawl_lb.DashboardAuth.Access.{
  DashboardAuthMode, standard, trusted_header, disabled, DashboardRequestAuth, AuthSettings,
  Request, get_dashboard_request_auth, password_management_enabled, is_trusted_header,
}
use firecrawl_lb.DashboardAuth.Bootstrap.{
  BootstrapLibrary, BootstrapStatus, get_bootstrap_validation_status, has_active_bootstrap_token,
  get_manual_bootstrap_token,
}

-- A handler's answer, or the error that it raises; `raised` is one that no handler expects.
pub data Answer (A : Type 0) : Type 0 where
  reply : A → Answer A
  bad_request auth_error conflict validation_error : String → Answer A
  rate_limited : ℕ → String → Answer A
  raised : AuthError → Answer A

-- The response, and the session that the cookie is set to.
pub record SessionReply : Type 0 where
  pub response : DashboardAuthSessionResponse
  pub auth_mode : DashboardAuthMode
  pub password_management_enabled : Bool
  pub password_session_active : Bool
  pub bootstrap_required : Bool
  pub bootstrap_token_configured : Bool
  pub cookie : Option String

pub record ApiLibrary : Type 0 where
  pub auth : AuthLibrary
  pub bootstrap : BootstrapLibrary
  pub settings : AuthSettings
  pub dashboard_bootstrap_token : Option String

abbrev pub is_disabled : DashboardAuthMode → Bool
is_disabled disabled = true
is_disabled _ = false

abbrev pub is_standard : DashboardAuthMode → Bool
is_standard standard = true
is_standard _ = false

abbrev pub utf8_length : ℕ → ℕ
utf8_length c = if ltb c 128 then 1 else if ltb c 2048 then 2 else if ltb c 65536 then 3 else 4

abbrev pub utf8_bytes : List ℕ → ℕ
utf8_bytes [] = 0
utf8_bytes (c ∷ cs) = utf8_length c + utf8_bytes cs

-- The code of the `DashboardValidationError`, if the password is too short or too long.
unfoldable pub validate_password_length : String → Option String
validate_password_length password =
    if ltb (length (codes password)) 8
    then some "validation_error"
    else if ltb 72 (utf8_bytes (codes password))
    then some "password_too_long"
    else none

abbrev pub or_unknown : Option String → String
or_unknown none = "unknown"
or_unknown (some host) = host

abbrev pub session_client_key : Request → String → String
session_client_key request prefix = prefix ++ ":" ++ or_unknown request.client_host

abbrev pub or_cookie : Option String → Option String → Option String
or_cookie none cookie = cookie
or_cookie (some session_id) cookie = if is_empty session_id then cookie else some session_id

module _ (lib : ApiLibrary) where
  abbrev pub request_auth_of : Request → Option DashboardRequestAuth
  request_auth_of request = (get_dashboard_request_auth lib.settings request).0

  -- Without the request's own authentication.
  abbrev pub plain_reply : DashboardAuthSessionResponse → Bool → SessionReply
  plain_reply response fully_authorized =
      let mode = lib.settings.dashboard_auth_mode in
      let locked =
        is_trusted_header mode
        && (not response.password_required && not response.totp_required_on_login) in
      record {
        response = record response {
          authenticated = if locked then false else response.authenticated;
        };
        auth_mode = mode;
        password_management_enabled = password_management_enabled mode;
        password_session_active = fully_authorized;
        bootstrap_required = false;
        bootstrap_token_configured = false;
        cookie = none;
      }

  abbrev pub decorated :
      DashboardAuthSessionResponse → Bool → Bool → Bool → Option DashboardRequestAuth → SessionReply
  decorated response force_authenticated totp_pending fully_authorized none =
      plain_reply response fully_authorized
  decorated response force_authenticated totp_pending fully_authorized (some request_auth) =
      record {
        response = record response {
          authenticated = force_authenticated || response.authenticated;
          totp_required_on_login = totp_pending;
        };
        auth_mode = request_auth.mode;
        password_management_enabled = password_management_enabled request_auth.mode;
        password_session_active = fully_authorized;
        bootstrap_required = false;
        bootstrap_token_configured = false;
        cookie = none;
      }

  unfoldable pub decorate_session_response :
      DashboardAuthSessionResponse → Request → Bool → Option String → ℕ → SessionReply
  decorate_session_response response request force_authenticated password_session_id now =
      let state = get lib.auth.sealing (or_cookie password_session_id request.session_cookie) now in
      let has_pwd = password_flag state in
      let totp_pending = has_pwd && (response.totp_required_on_login && not (totp_flag state)) in
      decorated response force_authenticated totp_pending
        (has_pwd && (not totp_pending && response.password_required)) (request_auth_of request)

  -- The response of a handler that sets the cookie.
  abbrev pub session_reply : Request → String → ℕ → DashboardSettings → SessionReply
  session_reply request session_id now row =
      record (decorate_session_response (get_session_state lib.auth (some session_id) now row)
        request false (some session_id) now) { cookie = some session_id }

  -- `_ensure_password_management_enabled`, which raises or not.
  abbrev pub management_disabled : Option DashboardRequestAuth → Bool
  management_disabled none = false
  management_disabled (some request_auth) = not (password_management_enabled request_auth.mode)

  unfoldable pub ensure_password_management_enabled : Request → Bool
  ensure_password_management_enabled request = not (management_disabled (request_auth_of request))

  unfoldable pub create_dashboard_session : Bool → Bool → ℕ → DashboardSettings → String
  create_dashboard_session password_verified totp_verified now cached =
      create lib.auth.sealing password_verified totp_verified cached.dashboard_session_ttl_seconds
        now

  unfoldable pub get_dashboard_auth_session : Request → ℕ → DashboardSettings → SessionReply
  get_dashboard_auth_session request now row =
      let response = get_session_state lib.auth request.session_cookie now row in
      let decorated_reply = decorate_session_response response request true none now in
      if not (is_standard decorated_reply.auth_mode)
      then decorated_reply
      else if decorated_reply.response.password_required || request.is_local
      then decorated_reply
      else record decorated_reply {
        response = record (decorated_reply.response) { authenticated = false };
        bootstrap_required = true;
        bootstrap_token_configured =
            has_active_bootstrap_token (get_manual_bootstrap_token lib.dashboard_bootstrap_token)
              row;
      }

  abbrev pub opened :
      Request → ℕ → Outcome Done × DashboardSettings → Answer SessionReply × DashboardSettings
  opened request now (failed password_already_configured, row) =
      (conflict "password_already_configured", row)
  opened request now (failed e, row) = (raised e, row)
  opened request now (ok d, row) =
      (reply (session_reply request (create_dashboard_session true false now row) now row), row)

  abbrev pub set_up :
      Request
      → String
      → String
      → ℕ
      → DashboardSettings
      → Option String
      → Answer SessionReply × DashboardSettings
  set_up request password salt now row (some code) = (validation_error code, row)
  set_up request password salt now row none =
      opened request now (service_setup_password lib.auth password salt row)

  abbrev pub with_status :
      BootstrapStatus
      → Answer SessionReply × DashboardSettings
      → DashboardSettings
      → Answer SessionReply × DashboardSettings
  with_status BootstrapStatus.unavailable rest row = (auth_error "bootstrap_unavailable", row)
  with_status BootstrapStatus.password_already_configured rest row =
      (conflict "password_already_configured", row)
  with_status BootstrapStatus.invalid rest row = (auth_error "invalid_bootstrap_token", row)
  with_status BootstrapStatus.valid rest row = rest

  abbrev pub token_of : Option String → String
  token_of none = ""
  token_of (some bootstrap_token) = strip bootstrap_token

  -- The settings' cache is invalidated before the session is created, so the row is read again.
  unfoldable pub setup_password :
      Request
      → String
      → Option String
      → String
      → ℕ
      → DashboardSettings
      → Answer SessionReply × DashboardSettings
  setup_password request payload_password bootstrap_token salt now row =
      let mode = lib.settings.dashboard_auth_mode in
      let password = strip payload_password in
      let rest = set_up request password salt now row (validate_password_length password) in
      if is_disabled mode
      then (bad_request "password_management_disabled", row)
      else if is_trusted_header mode
          && (is_none (request_auth_of request) && is_none row.password_hash)
      then (auth_error "proxy_auth_required", row)
      else if is_none row.password_hash && (not (is_trusted_header mode) && not request.is_local)
      then with_status
          (get_bootstrap_validation_status lib.bootstrap (token_of bootstrap_token)
            (get_manual_bootstrap_token lib.dashboard_bootstrap_token) row)
          rest row
      else rest
