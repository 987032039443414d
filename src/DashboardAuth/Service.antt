-- ===== src/DashboardAuth/Service.antt =====
-- app/modules/dashboard_auth/service.py: `DashboardAuthService`. A method reads the row of settings
-- (`seen`), and writes it later, so `row` is the row at the write; each reading of the clock is an
-- argument. bcrypt, Fernet and the drawing of salts and secrets are parameters. The audit's entries
-- are left out.
pub mod Replay
pub mod Inheritance
use firecrawl_lb.Prelude.{
  ℕ, String, Bool, true, false, not, ◌&&◌, Option, none, some, List, if◌then◌else◌,
}
use firecrawl_lb.Prelude.Int.{ℤ, pos, ◌-ℤ◌, at_least}
use firecrawl_lb.DashboardAuth.Settings.{
  DashboardSettings, is_some, is_none, set_totp_secret, set_password_hash, try_set_password_hash,
  clear_password_and_totp, try_advance_totp_last_verified_step,
}
use firecrawl_lb.DashboardAuth.Totp.{
  TotpLibrary, TotpVerificationResult, valid, invalid, value_error, type_error, verify_totp_code,
  build_otpauth_uri,
}
use firecrawl_lb.DashboardAuth.Sessions.{
  DashboardSessionState, Sealing, create, get, password_flag, totp_flag,
}
use firecrawl_lb.DashboardAuth.Results.{
  AuthError, Outcome, Done, on_ok, AuthLibrary, DashboardAuthSessionResponse,
  TotpSetupStartResponse, or_value_error, or_undecryptable, is_match, unless_updated,
  verified_session, session_for, matched_step, confirmed, inherited_ttl, ok, failed, done,
  totp_already_configured, totp_not_configured, totp_invalid_code, totp_invalid_setup,
  password_already_configured, password_not_configured, invalid_credentials,
  password_session_required, undecryptable,
}

module _ (lib : AuthLibrary) where
  abbrev pub check_password : String → String → Bool
  check_password password password_hash = is_match (lib.checkpw password password_hash)

  unfoldable pub get_session_state :
      Option String → ℕ → DashboardSettings → DashboardAuthSessionResponse
  get_session_state session_id now settings =
      let password_required = is_some settings.password_hash in
      let totp_required = password_required && settings.totp_required_on_login in
      let state = if password_required then get lib.sealing session_id now else none in
      let authenticated =
        if not password_required
        then true
        else if totp_required
        then password_flag state && totp_flag state
        else password_flag state in
      record {
        authenticated = authenticated;
        password_required = password_required;
        totp_required_on_login = totp_required && password_flag state;
        totp_configured = is_some settings.totp_secret_encrypted;
      }

  unfoldable pub setup_password :
      String → String → DashboardSettings → Outcome Done × DashboardSettings
  setup_password password salt row =
      on_ok (or_value_error (lib.hashpw password salt)) row
        (λ h. unless_updated password_already_configured (try_set_password_hash h row))

  abbrev pub checked_against : String → Option String → Outcome Done
  checked_against password none = failed password_not_configured
  checked_against password (some current) =
      if check_password password current then ok done else failed invalid_credentials

  unfoldable pub verify_password : String → DashboardSettings → Outcome Done
  verify_password password seen = checked_against password seen.password_hash

  unfoldable pub change_password :
      String
      → String
      → String
      → DashboardSettings
      → DashboardSettings
      → Outcome Done × DashboardSettings
  change_password current_password new_password salt seen row =
      on_ok (verify_password current_password seen) row (λ _.
        on_ok (or_value_error (lib.hashpw new_password salt)) row
          (λ h. (ok done, set_password_hash h row)))

  unfoldable pub remove_password :
      String → DashboardSettings → DashboardSettings → Outcome Done × DashboardSettings
  remove_password password seen row =
      on_ok (verify_password password seen) row (λ _. (ok done, clear_password_and_totp row))

  unfoldable pub require_active_password_session :
      Option String → ℕ → DashboardSettings → Outcome DashboardSessionState
  require_active_password_session session_id now settings =
      session_for settings.password_hash (get lib.sealing session_id now)

  abbrev pub totp_session :
      Outcome DashboardSessionState → Option DashboardSessionState → Outcome Done
  totp_session (failed e) session = failed e
  totp_session (ok active) session =
      if totp_flag session then ok done else failed password_session_required

  -- The session is opened twice, at two readings of the clock.
  unfoldable pub require_totp_verified_session :
      Option String → ℕ → ℕ → DashboardSettings → Outcome Done
  require_totp_verified_session session_id now later settings =
      totp_session (require_active_password_session session_id now settings)
        (get lib.sealing session_id later)

  abbrev pub decrypted : Option String → Outcome String
  decrypted none = failed totp_not_configured
  decrypted (some secret_encrypted) = or_undecryptable (lib.decrypt secret_encrypted)

  abbrev pub setup_of : String → Outcome String → Outcome TotpSetupStartResponse
  setup_of secret (failed e) = failed e
  setup_of secret (ok uri) =
      ok (record { secret = secret; otpauth_uri = uri; qr_svg_data_uri = lib.qr_svg_data_uri uri })

  -- `secret` is the one that `generate_totp_secret` draws.
  abbrev pub setup_unless_configured :
      Option String → String → Outcome DashboardSessionState → Outcome TotpSetupStartResponse
  setup_unless_configured configured secret (failed e) = failed e
  setup_unless_configured (some held) secret (ok session) = failed totp_already_configured
  setup_unless_configured none secret (ok session) =
      setup_of secret
        (or_value_error (build_otpauth_uri lib.totp secret "dashboard" "firecrawl-lb"))

  unfoldable pub start_totp_setup :
      Option String → String → ℕ → DashboardSettings → Outcome TotpSetupStartResponse
  start_totp_setup session_id secret now settings =
      setup_unless_configured settings.totp_secret_encrypted secret
        (require_active_password_session session_id now settings)

  abbrev pub confirm_unless_configured :
      Option String → String → String → ℕ → DashboardSettings → Outcome Done × DashboardSettings
  confirm_unless_configured (some held) secret code code_now row =
      (failed totp_already_configured, row)
  confirm_unless_configured none secret code code_now row =
      on_ok (confirmed (verify_totp_code lib.totp secret code 1 code_now none)) row
        (λ _. (ok done, set_totp_secret (some (lib.encrypt secret)) row))

  unfoldable pub confirm_totp_setup :
      Option String
      → String
      → String
      → ℕ
      → ℕ
      → DashboardSettings
      → DashboardSettings
      → Outcome Done × DashboardSettings
  confirm_totp_setup session_id secret code now code_now seen row =
      on_ok (require_active_password_session session_id now seen) row
        (λ _. confirm_unless_configured seen.totp_secret_encrypted secret code code_now row)

  -- The check of a code against the configured secret, and the guarded step.
  unfoldable pub accept_code :
      String → ℕ → DashboardSettings → DashboardSettings → Outcome Done × DashboardSettings
  accept_code code code_now seen row = on_ok (decrypted seen.totp_secret_encrypted) row (λ secret.
      on_ok
        (matched_step
          (verify_totp_code lib.totp secret code 1 code_now seen.totp_last_verified_step))
        row
        (λ step. unless_updated totp_invalid_code (try_advance_totp_last_verified_step step row)))

  abbrev pub issued :
      DashboardSessionState
      → ℕ
      → Outcome Done × DashboardSettings
      → Outcome (String × ℕ) × DashboardSettings
  issued state issued_now (failed e, row) = (failed e, row)
  issued state issued_now (ok u, row) =
      let ttl = inherited_ttl state issued_now in
      (ok (create lib.sealing true true ttl issued_now, ttl), row)

  unfoldable pub verify_totp :
      Option String
      → String
      → ℕ
      → ℕ
      → ℕ
      → DashboardSettings
      → DashboardSettings
      → Outcome (String × ℕ) × DashboardSettings
  verify_totp session_id code now code_now issued_now seen row =
      on_ok (require_active_password_session session_id now seen) row
        (λ state. issued state issued_now (accept_code code code_now seen row))

  abbrev pub disabled : Outcome Done × DashboardSettings → Outcome Done × DashboardSettings
  disabled (failed e, row) = (failed e, row)
  disabled (ok u, row) = (ok done, set_totp_secret none row)

  unfoldable pub disable_totp :
      Option String
      → String
      → ℕ
      → ℕ
      → ℕ
      → DashboardSettings
      → DashboardSettings
      → Outcome Done × DashboardSettings
  disable_totp session_id code now later code_now seen row =
      on_ok (require_totp_verified_session session_id now later seen) row
        (λ _. disabled (accept_code code code_now seen row))
