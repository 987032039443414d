-- ===== src/Tests/DashboardAuth.antt =====
-- The dashboard's login, with a sealing in unary, codes that are always the same, and passwords that
-- are their own hashes.
use Prim.Native.String.{String}
use firecrawl_lb.Prelude.{◌≤◌, true, false, ◌≡◌, refl, none, some, List, [], ◌∷◌, arith}
use firecrawl_lb.Prelude.Int.{◌+ℤ◌, ◌-ℤ◌, ◌-ℤ◌, ltb_ℤ, pos}
use firecrawl_lb.Prelude.Text.{str_eq, lower, strip}
use firecrawl_lb.DashboardAuth.Settings.{
  try_advance_totp_last_verified_step, DashboardSettings, default_settings,
  store_bootstrap_token_if_absent,
}
use firecrawl_lb.DashboardAuth.Totp.{
  time_step, find_step, normalize_code, compact, normalize_secret, verify_totp_code, TotpLibrary,
}
use firecrawl_lb.DashboardAuth.Sessions.{create, get, get-create}
use firecrawl_lb.DashboardAuth.Results.{AuthLibrary}
use firecrawl_lb.DashboardAuth.Service.{
  verify_password, accept_code, require_active_password_session, verify_totp, get_session_state,
}
use firecrawl_lb.DashboardAuth.Service.Replay.{TotpRequest, accepted_of, verify_totp-bounded}
use firecrawl_lb.DashboardAuth.Service.Inheritance.{verify_totp-inherits, full_until}
use firecrawl_lb.DashboardAuth.Access.{AuthSettings, Request, standard, validate_dashboard_session}
use firecrawl_lb.DashboardAuth.Access.Agreement.{is_admitted, validate-authenticated}
use firecrawl_lb.DashboardAuth.Bootstrap.{BootstrapLibrary, ensure_auto_bootstrap_token}
use firecrawl_lb.DashboardAuth.Bootstrap.Writes.{Write, write_all}
use firecrawl_lb.DashboardAuth.Bootstrap.Tokens.{Opens, ensure_auto_bootstrap_token-Opens}
use firecrawl_lb.DashboardAuth.Locality.{LocalitySettings, HttpConnection}
use firecrawl_lb.DashboardAuth.Locality.Remote.{request_of, remote-refused}
use firecrawl_lb.DashboardAuth.Api.{ApiLibrary}
use firecrawl_lb.DashboardAuth.Api.Guesses.{guess_all, Guess, checked_in, login_password-bounded}
use firecrawl_lb.Tests.Sealing.{unary_sealing}

abbrev totp_library : TotpLibrary
totp_library = record {
  provisioning_uri = λ secret account issuer. "otpauth://totp";
  is_unicode_digit = λ c. false;
  is_base32 = λ secret. true;
  totp_at = λ secret at. "123456";
}

abbrev auth_library : AuthLibrary
auth_library = record {
  sealing = unary_sealing;
  totp = totp_library;
  checkpw = λ password hash. some (str_eq password hash);
  hashpw = λ password salt. some password;
  encrypt = λ s. s;
  decrypt = λ s. some s;
  qr_svg_data_uri = λ uri. uri;
}

abbrev row : DashboardSettings
row = record default_settings {
  password_hash = some "correct";
  totp_required_on_login = true;
  totp_secret_encrypted = some "ABCD";
}

get-create_example :
    get unary_sealing (some (create unary_sealing true false 3 2)) 5
    ≡ some (record { expires_at = pos 5; password_verified = true; totp_verified = false })
get-create_example = get-create unary_sealing true false 3 2 5

abbrev session : String
session = create unary_sealing true false 40 60

-- Two requests that read the same row bring the same code.
abbrev totp_request : TotpRequest
totp_request = record {
  session_id = some session;
  code = "123 456";
  now = 61;
  code_now = 61;
  issued_now = 62;
  seen = row;
}

abbrev two_requests : List TotpRequest
two_requests = totp_request ∷ totp_request ∷ []

verify_totp-bounded_example : accepted_of auth_library two_requests row ≤ 3
verify_totp-bounded_example =
    verify_totp-bounded auth_library 61 61 two_requests row (omega arith)
      ((omega arith, omega arith), ((omega arith, omega arith), tt))

-- The second of them is refused.
one_login : accepted_of auth_library two_requests row ≡ 1
unfolding accepted_of verify_totp require_active_password_session get create unary_sealing strip
    ltb_ℤ accept_code verify_totp_code normalize_secret compact normalize_code find_step
    try_advance_totp_last_verified_step time_step ◌+ℤ◌ ◌-ℤ◌
one_login = refl

verify_totp-inherits_example :
    get unary_sealing (some (create unary_sealing true true 38 62)) 100 ≡ full_until 100 100
unfolding get create unary_sealing strip ltb_ℤ verify_totp require_active_password_session
    accept_code verify_totp_code normalize_secret compact normalize_code find_step
    try_advance_totp_last_verified_step ◌-ℤ◌
verify_totp-inherits_example =
    verify_totp-inherits auth_library 62 (create unary_sealing true true 38 62) 38 (some session)
      "123456" 61 61 row row
      (record { expires_at = pos 100; password_verified = true; totp_verified = false }) 100 (refl)
      (refl)

abbrev settings : AuthSettings
settings = record {
  dashboard_auth_mode = standard;
  dashboard_auth_proxy_header = "x-user";
  firewall_trust_proxy_headers = true;
  is_trusted_proxy_source = λ ip. false;
}

abbrev request : Request
request = record {
  client_host = some "198.51.100.7";
  headers = λ name. none;
  session_cookie = some session;
  is_local = false;
  request_auth = none;
}

validate-authenticated_example :
    is_admitted (validate_dashboard_session unary_sealing settings request 61 row)
    ≡ (get_session_state auth_library request.session_cookie 61 row).authenticated
validate-authenticated_example =
    validate-authenticated auth_library settings request 61 row "correct" refl refl refl refl

abbrev bootstrap_library : BootstrapLibrary
bootstrap_library = record {
  hash_bootstrap_token = λ s. s;
  encrypt = λ s. s;
  decrypt = λ s. some s;
}

-- A first token, which a replica finds again when it starts.
abbrev first_token : List Write
first_token = Write.ensure none "first" default_settings ∷ []

ensure_auto_bootstrap_token-Opens_example :
    Opens bootstrap_library "first"
      (ensure_auto_bootstrap_token bootstrap_library none "second"
        (write_all bootstrap_library first_token default_settings)
        (write_all bootstrap_library first_token default_settings)).1
unfolding ensure_auto_bootstrap_token write_all store_bootstrap_token_if_absent
ensure_auto_bootstrap_token-Opens_example =
    ensure_auto_bootstrap_token-Opens bootstrap_library (λ s. refl) first_token none "second"
      "first" refl

abbrev locality : LocalitySettings
locality = record {
  firewall_trust_proxy_headers = true;
  is_valid_ip = λ ip. true;
  is_loopback = λ ip. str_eq ip "127.0.0.1";
  is_trusted_proxy_source = λ ip. str_eq ip "10.0.0.1";
}

-- A remote client that says it is local.
abbrev connection : HttpConnection
connection = record {
  server_host = some "10.0.0.2";
  client_host = some "198.51.100.7";
  headers = λ name. some "127.0.0.1";
}

remote-refused_example :
    is_admitted (
      validate_dashboard_session unary_sealing settings
        (request_of locality connection none)
        61
        default_settings)
    ≡ false
unfolding lower strip
remote-refused_example =
    remote-refused unary_sealing settings locality connection "198.51.100.7" 61 default_settings
      refl refl refl refl refl

abbrev api : ApiLibrary
api = record {
  auth = auth_library;
  bootstrap = bootstrap_library;
  settings = settings;
  dashboard_bootstrap_token = none;
}

abbrev wrong_guess : Guess
wrong_guess = record {
  delay = 1000000;
  request = request;
  password = "wrong";
  now = 61;
  cached = row;
}

abbrev two_guesses : List Guess
two_guesses = wrong_guess ∷ wrong_guess ∷ []

login_password-bounded_example :
    checked_in api row "password_login:198.51.100.7" 3000000 0 two_guesses [] ≤ 8
unfolding verify_password guess_all
login_password-bounded_example =
    login_password-bounded api row 0 two_guesses "password_login:198.51.100.7" 3000000
      (refl, (refl, tt)) (omega arith)
