-- ===== src/DashboardAuth/Access.antt =====
-- app/core/auth/dashboard_mode.py and app/core/auth/dependencies.py: who gets to the dashboard. The
-- configuration's networks of proxies are a test of addresses; a text that is no address is in none.
-- `headers` is Starlette's `Headers.get`, and `is_local` says what `is_local_request` does.
pub mod Agreement
use firecrawl_lb.Prelude.{
  ℕ, String, Bool, true, false, not, ◌&&◌, ◌||◌, Option, none, some, List, [], ◌∷◌, all, any, ltb,
  leb, ◌==◌, if◌then◌else◌,
}
use firecrawl_lb.Prelude.Text.{is_empty, strip, codes, lower, codes_eq}
use firecrawl_lb.DashboardAuth.Settings.{DashboardSettings}
use firecrawl_lb.DashboardAuth.Sessions.{DashboardSessionState, Sealing, get}

pub data DashboardAuthMode : Type 0 where
  standard trusted_header disabled : DashboardAuthMode

pub record DashboardRequestAuth : Type 0 where
  pub mode : DashboardAuthMode
  pub actor : Option String

pub record AuthSettings : Type 0 where
  pub dashboard_auth_mode : DashboardAuthMode
  pub dashboard_auth_proxy_header : String
  pub firewall_trust_proxy_headers : Bool
  pub is_trusted_proxy_source : String → Bool

-- What the checks read of a request; `request_auth` is the answer that its state keeps.
pub record Request : Type 0 where
  pub client_host : Option String
  pub headers : String → Option String
  pub session_cookie : Option String
  pub is_local : Bool
  pub request_auth : Option DashboardRequestAuth

-- `ValueError` in its three cases, or the header.
pub data ProxyHeader : Type 0 where
  missing malformed reserved : ProxyHeader
  named : String → ProxyHeader

abbrev pub is_token_code : ℕ → Bool
is_token_code c =
    (leb b'0' c && leb c b'9')
    || (leb b'A' c && leb c b'Z')
    || (leb b'a' c && leb c b'z')
    || any (λ d. c == d) (codes "!#$%&'*+.^_`|~-")

abbrev pub forbidden_proxy_auth_headers : List String
forbidden_proxy_auth_headers =
    "authorization" ∷ "connection" ∷ "content-length" ∷ "cookie" ∷ "forwarded" ∷ "host"
    ∷ "keep-alive" ∷ "proxy-authenticate" ∷ "proxy-authorization" ∷ "te" ∷ "trailer"
    ∷ "transfer-encoding" ∷ "upgrade" ∷ "x-forwarded-for" ∷ "x-forwarded-host" ∷ "x-forwarded-proto"
    ∷ []

unfoldable pub normalize_dashboard_auth_proxy_header : String → ProxyHeader
normalize_dashboard_auth_proxy_header value =
    let header = strip value in
    if is_empty header
    then missing
    else if not (all is_token_code (codes header))
    then malformed
    else if any (λ name. codes_eq (lower header) (codes name)) forbidden_proxy_auth_headers
    then reserved
    else named header

abbrev pub password_management_enabled : DashboardAuthMode → Bool
password_management_enabled disabled = false
password_management_enabled _ = true

abbrev pub auth_of_actor : Option String → Option DashboardRequestAuth
auth_of_actor none = none
auth_of_actor (some raw_actor) =
    let actor = strip raw_actor in
    if is_empty actor then none else some (record { mode = trusted_header; actor = some actor })

abbrev pub from_proxy : AuthSettings → Request → Option String → Option DashboardRequestAuth
from_proxy settings request none = none
from_proxy settings request (some client_host) =
    if is_empty client_host || not settings.firewall_trust_proxy_headers
    then none
    else if not (settings.is_trusted_proxy_source client_host)
    then none
    else auth_of_actor (request.headers settings.dashboard_auth_proxy_header)

unfoldable pub get_trusted_header_auth : AuthSettings → Request → Option DashboardRequestAuth
get_trusted_header_auth settings request = from_proxy settings request request.client_host

abbrev pub auth_of_mode : AuthSettings → Request → DashboardAuthMode → Option DashboardRequestAuth
auth_of_mode settings request standard = none
auth_of_mode settings request trusted_header = get_trusted_header_auth settings request
auth_of_mode settings request disabled = some (record { mode = disabled; actor = none })

abbrev pub cached_or :
    AuthSettings → Request → Option DashboardRequestAuth → Option DashboardRequestAuth
cached_or settings request (some cached) = some cached
cached_or settings request none = auth_of_mode settings request settings.dashboard_auth_mode

-- The answer, and the request with it in its state.
unfoldable pub get_dashboard_request_auth :
    AuthSettings → Request → Option DashboardRequestAuth × Request
get_dashboard_request_auth settings request =
    let auth = cached_or settings request request.request_auth in
    (auth, record request { request_auth = auth })

-- Nothing, or the `DashboardAuthError`.
pub data Access : Type 0 where
  admitted : Access
  authentication_required proxy_auth_required bootstrap_required totp_required : Access

-- `bool(settings.password_hash)`
abbrev pub has_password : Option String → Bool
has_password none = false
has_password (some password_hash) = not (is_empty password_hash)

abbrev pub is_trusted_header : DashboardAuthMode → Bool
is_trusted_header trusted_header = true
is_trusted_header _ = false

abbrev pub checked_session : Bool → Bool → Option DashboardSessionState → Access
checked_session password_required totp_required_on_login none = authentication_required
checked_session password_required totp_required_on_login (some state) =
    if password_required && not state.password_verified
    then authentication_required
    else if totp_required_on_login && not state.totp_verified
    then totp_required
    else admitted

abbrev pub without_request_auth :
    DashboardAuthMode → Bool → Option DashboardSessionState → DashboardSettings → Access
without_request_auth mode is_local state row =
    let password_required = has_password row.password_hash in
    let requires_auth = password_required || row.totp_required_on_login in
    if is_trusted_header mode && not requires_auth
    then proxy_auth_required
    else if not requires_auth
    then if not is_local then bootstrap_required else admitted
    else checked_session password_required row.totp_required_on_login state

abbrev pub unless_request_auth : Option DashboardRequestAuth → Access → Access
unless_request_auth (some auth) otherwise = admitted
unless_request_auth none otherwise = otherwise

-- `row` is the one that the settings' cache holds.
unfoldable pub validate_dashboard_session :
    Sealing → AuthSettings → Request → ℕ → DashboardSettings → Access
validate_dashboard_session sealing settings request now row =
    unless_request_auth (get_dashboard_request_auth settings request).0 (
      without_request_auth settings.dashboard_auth_mode request.is_local
        (get sealing request.session_cookie now) row)
