-- ===== src/DashboardAuth/Settings.antt =====
-- app/modules/dashboard_auth/repository.py and app/modules/settings/repository.py: the one row of
-- dashboard settings. Each method commits, and is one function of the row; the columns that the login
-- does not read are left out. Encrypted values and hashes are texts.
use firecrawl_lb.Prelude.{ℕ, String, Bool, true, false, ◌&&◌, Option, none, some, if◌then◌else◌}
use firecrawl_lb.Prelude.Int.{ℤ, ltb_ℤ}

pub record DashboardSettings : Type 0 where
  pub dashboard_session_ttl_seconds : ℕ
  pub totp_required_on_login : Bool
  pub password_hash : Option String
  pub bootstrap_token_encrypted : Option String
  pub bootstrap_token_hash : Option String
  pub totp_secret_encrypted : Option String
  pub totp_last_verified_step : Option ℤ

-- The row that `get_or_create` adds.
abbrev pub default_settings : DashboardSettings
default_settings = record {
  dashboard_session_ttl_seconds = 43200;
  totp_required_on_login = false;
  password_hash = none;
  bootstrap_token_encrypted = none;
  bootstrap_token_hash = none;
  totp_secret_encrypted = none;
  totp_last_verified_step = none;
}

-- `is not None`
abbrev pub is_some {ℓ} : {A : Type ℓ} → Option A → Bool
is_some none = false
is_some (some a) = true

abbrev pub is_none {ℓ} : {A : Type ℓ} → Option A → Bool
is_none none = true
is_none (some a) = false

abbrev pub required_with : Option String → Bool → Bool
required_with none required = false
required_with (some secret) required = required

unfoldable pub set_totp_secret : Option String → DashboardSettings → DashboardSettings
set_totp_secret secret_encrypted row = record row {
  totp_secret_encrypted = secret_encrypted;
  totp_last_verified_step = none;
  totp_required_on_login = required_with secret_encrypted row.totp_required_on_login;
}

abbrev pub with_password : Option String → DashboardSettings → DashboardSettings
with_password password_hash row = record row {
  password_hash = password_hash;
  bootstrap_token_encrypted = none;
  bootstrap_token_hash = none;
}

unfoldable pub set_password_hash : String → DashboardSettings → DashboardSettings
set_password_hash password_hash row = with_password (some password_hash) row

-- The guarded update, and whether it found the row.
unfoldable pub try_set_password_hash : String → DashboardSettings → Bool × DashboardSettings
try_set_password_hash password_hash row =
    if is_none row.password_hash
    then (true, with_password (some password_hash) row)
    else (false, row)

unfoldable pub clear_password_and_totp : DashboardSettings → DashboardSettings
clear_password_and_totp row = record (with_password none row) {
  totp_required_on_login = false;
  totp_secret_encrypted = none;
  totp_last_verified_step = none;
}

unfoldable pub store_bootstrap_token_if_absent :
    String → String → DashboardSettings → Bool × DashboardSettings
store_bootstrap_token_if_absent token_encrypted token_hash row =
    if is_none row.password_hash && is_none row.bootstrap_token_hash
    then (
      true,
      record row {
        bootstrap_token_encrypted = some token_encrypted;
        bootstrap_token_hash = some token_hash;
      },
    )
    else (false, row)

unfoldable pub clear_bootstrap_token : DashboardSettings → Bool × DashboardSettings
clear_bootstrap_token row =
    if is_some row.bootstrap_token_hash
    then (true, record row { bootstrap_token_encrypted = none; bootstrap_token_hash = none })
    else (false, row)

-- `IS NULL OR … < step`
abbrev pub below_step : Option ℤ → ℤ → Bool
below_step none step = true
below_step (some last) step = ltb_ℤ last step

unfoldable pub try_advance_totp_last_verified_step :
    ℤ → DashboardSettings → Bool × DashboardSettings
try_advance_totp_last_verified_step step row =
    if below_step row.totp_last_verified_step step
    then (true, record row { totp_last_verified_step = some step })
    else (false, row)
