-- ===== src/DashboardAuth/Access/Agreement.antt =====
-- app/core/auth/dependencies.py and app/modules/dashboard_auth/service.py: the check of a request and
-- what the dashboard is told about its session.
use firecrawl_lb.Prelude.{
  ℕ, String, Bool, true, false, ◌&&◌, Option, none, some, ◌≡◌, arith, if◌then◌else◌,
}
use firecrawl_lb.Prelude.Text.{is_empty}
use firecrawl_lb.DashboardAuth.Settings.{DashboardSettings}
use firecrawl_lb.DashboardAuth.Sessions.{DashboardSessionState, get, password_flag, totp_flag}
use firecrawl_lb.DashboardAuth.Results.{AuthLibrary}
use firecrawl_lb.DashboardAuth.Service.{get_session_state}
use firecrawl_lb.DashboardAuth.Access.{
  AuthSettings, Request, standard, Access, admitted, checked_session, validate_dashboard_session,
  get_dashboard_request_auth,
}

abbrev pub is_admitted : Access → Bool
is_admitted admitted = true
is_admitted _ = false

checked-authenticated :
    (totp : Bool) (state : Option DashboardSessionState)
    → is_admitted (checked_session true totp state)
      ≡ (if totp then password_flag state && totp_flag state else password_flag state)
checked-authenticated totp none = ground arith
checked-authenticated totp (some state) = ground arith

-- In standard mode, once a password is set, a request is admitted exactly if the dashboard is told at
-- that instant, with that row of settings, that its session is authenticated.
pub validate-authenticated :
    (lib : AuthLibrary) (settings : AuthSettings) (request : Request) (now : ℕ)
    (row : DashboardSettings) (password_hash : String)
    → settings.dashboard_auth_mode ≡ standard
    → request.request_auth ≡ none
    → row.password_hash ≡ some password_hash
    → is_empty password_hash ≡ false
    → is_admitted (validate_dashboard_session lib.sealing settings request now row)
      ≡ (get_session_state lib request.session_cookie now row).authenticated
unfolding validate_dashboard_session get_dashboard_request_auth get_session_state
validate-authenticated lib settings request now row password_hash mode fresh has filled =
    rw (mode, fresh, has, filled)
      (checked-authenticated row.totp_required_on_login
        (get lib.sealing request.session_cookie now))
