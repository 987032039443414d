-- ===== src/DashboardAuth/Results.antt =====
-- app/modules/dashboard_auth/service.py and schemas.py: what the methods of `DashboardAuthService` answer,
-- and how they turn the libraries' answers into errors.
use firecrawl_lb.Prelude.{ℕ, String, Bool, false, Option, none, some, if◌then◌else◌}
use firecrawl_lb.Prelude.Int.{ℤ, pos, ◌-ℤ◌, at_least}
use firecrawl_lb.DashboardAuth.Settings.{DashboardSettings}
use firecrawl_lb.DashboardAuth.Totp.{
  TotpLibrary, TotpVerificationResult, valid, invalid, value_error, type_error,
}
use firecrawl_lb.DashboardAuth.Sessions.{DashboardSessionState, Sealing}

-- The service's own errors, and those of the libraries that it lets through.
pub data AuthError : Type 0 where
  totp_already_configured totp_not_configured totp_invalid_code totp_invalid_setup : AuthError
  password_already_configured password_not_configured invalid_credentials : AuthError
  password_session_required : AuthError
  undecryptable uncaught_value_error uncaught_type_error : AuthError

pub data Outcome {ℓ} (A : Type ℓ) : Type ℓ where
  ok : A → Outcome A
  failed : AuthError → Outcome A

-- A method that returns nothing.
pub data Done : Type 0 where
  done : Done

-- The next step of a method that may write the row: an error leaves the method.
abbrev pub on_ok {ℓ κ} :
    {A : Type ℓ} {B : Type κ}
    → Outcome A
    → DashboardSettings
    → (A → Outcome B × DashboardSettings)
    → Outcome B × DashboardSettings
on_ok (ok a) row next = next a
on_ok (failed e) row next = (failed e, row)

pub record AuthLibrary : Type 0 where
  pub sealing : Sealing
  pub totp : TotpLibrary
  pub checkpw : String → String → Option Bool
  pub hashpw : String → String → Option String
  pub encrypt : String → String
  pub decrypt : String → Option String
  pub qr_svg_data_uri : String → String

pub record DashboardAuthSessionResponse : Type 0 where
  pub authenticated : Bool
  pub password_required : Bool
  pub totp_required_on_login : Bool
  pub totp_configured : Bool

pub record TotpSetupStartResponse : Type 0 where
  pub secret : String
  pub otpauth_uri : String
  pub qr_svg_data_uri : String

abbrev pub or_value_error : Option String → Outcome String
or_value_error none = failed uncaught_value_error
or_value_error (some s) = ok s

abbrev pub or_undecryptable : Option String → Outcome String
or_undecryptable none = failed undecryptable
or_undecryptable (some s) = ok s

abbrev pub is_match : Option Bool → Bool
is_match none = false
is_match (some b) = b

-- `PasswordAlreadyConfiguredError`, or TOTP's `TotpInvalidCodeError`, where the guarded update did not
-- find the row.
abbrev pub unless_updated : AuthError → Bool × DashboardSettings → Outcome Done × DashboardSettings
unless_updated e (updated, row) = (if updated then ok done else failed e, row)

abbrev pub verified_session : Option DashboardSessionState → Outcome DashboardSessionState
verified_session none = failed password_session_required
verified_session (some session) =
    if session.password_verified then ok session else failed password_session_required

abbrev pub session_for :
    Option String → Option DashboardSessionState → Outcome DashboardSessionState
session_for none session = failed password_session_required
session_for (some password_hash) session = verified_session session

-- What `disable_totp` and `verify_totp` make of the check of a code.
abbrev pub matched_step : TotpVerificationResult → Outcome ℤ
matched_step (valid step) = ok step
matched_step invalid = failed totp_invalid_code
matched_step value_error = failed uncaught_value_error
matched_step type_error = failed uncaught_type_error

-- What `confirm_totp_setup` makes of it.
abbrev pub confirmed : TotpVerificationResult → Outcome Done
confirmed (valid step) = ok done
confirmed invalid = failed totp_invalid_code
confirmed value_error = failed totp_invalid_setup
confirmed type_error = failed uncaught_type_error

-- `max(1, existing_state.expires_at - now)`
abbrev pub inherited_ttl : DashboardSessionState → ℕ → ℕ
inherited_ttl state now = at_least 1 (state.expires_at -ℤ pos now)
