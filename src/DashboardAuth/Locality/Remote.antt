-- ===== src/DashboardAuth/Locality/Remote.antt =====
-- app/core/request_locality.py and app/core/auth/dependencies.py: remote clients without a session.
use firecrawl_lb.Prelude.{ℕ, String, Bool, false, ◌&&◌, Option, none, some, ◌≡◌, arith}
use firecrawl_lb.DashboardAuth.Settings.{DashboardSettings}
use firecrawl_lb.DashboardAuth.Sessions.{Sealing, get}
use firecrawl_lb.DashboardAuth.Access.{
  AuthSettings, Request, standard, validate_dashboard_session, get_dashboard_request_auth,
}
use firecrawl_lb.DashboardAuth.Access.Agreement.{is_admitted}
use firecrawl_lb.DashboardAuth.Locality.{
  LocalitySettings, HttpConnection, is_local_request, is_local_client, is_test_server_request,
  resolve_connection_client_ip,
}

-- A request to the dashboard over a connection.
abbrev pub request_of : LocalitySettings → HttpConnection → Option String → Request
request_of settings connection session_cookie = record {
  client_host = connection.client_host;
  headers = connection.headers;
  session_cookie = session_cookie;
  is_local = is_local_request settings connection;
  request_auth = none;
}

and_false : (a b : Bool) → b ≡ false → (a && b) ≡ false
and_false a b h = ground arith

module _ (settings : LocalitySettings) (ip : String) (far : settings.is_loopback ip ≡ false) where
  remote_client :
      (headers : String → Option String) → is_local_client settings headers (some ip) ≡ false
  remote_client headers = rw far (ground arith)

  pub is_local_request-remote :
      (connection : HttpConnection)
      → settings.is_trusted_proxy_source ip ≡ false
      → connection.client_host ≡ some ip
      → is_test_server_request connection.server_host ≡ false
      → is_local_request settings connection ≡ false
  unfolding is_local_request resolve_connection_client_ip
  is_local_request-remote connection untrusted host no_test =
      rw (host, no_test, untrusted) (ground (arith, remote_client connection.headers))

-- In standard mode, whatever its headers are and whatever the settings of the dashboard hold, a request
-- without a session cookie is refused, when its socket's address neither loops back nor belongs to a trusted
-- proxy, and the host of the server is not that of a test server.
pub remote-refused :
    (sealing : Sealing) (auth : AuthSettings) (settings : LocalitySettings)
    (connection : HttpConnection) (ip : String) (now : ℕ) (row : DashboardSettings)
    → auth.dashboard_auth_mode ≡ standard
    → settings.is_loopback ip ≡ false
    → settings.is_trusted_proxy_source ip ≡ false
    → connection.client_host ≡ some ip
    → is_test_server_request connection.server_host ≡ false
    → is_admitted
        (validate_dashboard_session sealing auth (request_of settings connection none) now row)
      ≡ false
unfolding validate_dashboard_session get_dashboard_request_auth get
remote-refused sealing auth settings connection ip now row mode far untrusted host no_test =
    rw (mode, is_local_request-remote settings ip far connection untrusted host no_test)
      (ground arith)
