-- ===== src/DashboardAuth/Bootstrap.antt =====
-- app/core/bootstrap.py: the token by which a remote client sets the first password. `manual` is the
-- configured token. SHA-256 and Fernet are parameters, and the drawn token is an argument; the settings'
-- cache is not part of it. The row is read (`seen`) and written later.
pub mod Writes
pub mod Tokens
use firecrawl_lb.Prelude.{
  String, Bool, true, false, not, ◌&&◌, ◌||◌, Option, none, some, if◌then◌else◌,
}
use firecrawl_lb.Prelude.Text.{str_eq, strip, is_empty}
use firecrawl_lb.DashboardAuth.Settings.{
  DashboardSettings, is_some, is_none, store_bootstrap_token_if_absent, clear_bootstrap_token,
}

abbrev pub or_none : String → Option String
or_none s = if is_empty s then none else some s

abbrev pub stripped_or_none : Option String → Option String
stripped_or_none none = none
stripped_or_none (some token) = or_none (strip token)

-- `_get_manual_bootstrap_token`, from the configuration.
unfoldable pub get_manual_bootstrap_token : Option String → Option String
get_manual_bootstrap_token configured = stripped_or_none configured

abbrev pub shared_token : DashboardSettings → Bool
shared_token row = is_none row.password_hash && is_some row.bootstrap_token_hash

unfoldable pub has_active_bootstrap_token : Option String → DashboardSettings → Bool
has_active_bootstrap_token manual row = is_some manual || shared_token row

-- The four answers of `get_bootstrap_validation_status`.
pub data BootstrapStatus : Type 0 where
  valid invalid password_already_configured unavailable : BootstrapStatus

pub record BootstrapLibrary : Type 0 where
  pub hash_bootstrap_token : String → String
  pub encrypt : String → String
  pub decrypt : String → Option String

module _ (lib : BootstrapLibrary) where
  abbrev pub is_hash_of : String → Option String → Bool
  is_hash_of submitted_token none = false
  is_hash_of submitted_token (some bootstrap_token_hash) =
      str_eq (lib.hash_bootstrap_token submitted_token) bootstrap_token_hash

  unfoldable pub validate_bootstrap_token : String → Option String → DashboardSettings → Bool
  validate_bootstrap_token submitted_token (some manual) row = str_eq submitted_token manual
  validate_bootstrap_token submitted_token none row =
      if is_some row.password_hash || is_none row.bootstrap_token_hash
      then false
      else is_hash_of submitted_token row.bootstrap_token_hash

  abbrev pub shared_status : String → DashboardSettings → BootstrapStatus
  shared_status submitted_token row =
      if is_none row.bootstrap_token_hash
      then if is_some row.password_hash then password_already_configured else unavailable
      else if is_hash_of submitted_token row.bootstrap_token_hash
      then valid
      else if is_some row.password_hash
      then password_already_configured
      else invalid

  unfoldable pub get_bootstrap_validation_status :
      String → Option String → DashboardSettings → BootstrapStatus
  get_bootstrap_validation_status submitted_token (some manual) row =
      if str_eq submitted_token manual then valid else invalid
  get_bootstrap_validation_status submitted_token none row = shared_status submitted_token row

  -- `if stored: return token`
  abbrev pub stored_token : String → Bool × DashboardSettings → Option String × DashboardSettings
  stored_token token (stored, row) = (if stored then some token else none, row)

  -- A token that cannot be decrypted is left as it is.
  abbrev pub kept_token : Option String → Option String
  kept_token none = none
  kept_token (some encrypted) = lib.decrypt encrypted

  unfoldable pub ensure_auto_bootstrap_token :
      Option String
      → String
      → DashboardSettings
      → DashboardSettings
      → Option String × DashboardSettings
  ensure_auto_bootstrap_token manual token seen row =
      if is_some manual || is_some seen.password_hash
      then (none, if is_some seen.bootstrap_token_hash then (clear_bootstrap_token row).1 else row)
      else if is_some seen.bootstrap_token_hash
      then (kept_token seen.bootstrap_token_encrypted, row)
      else stored_token token
          (store_bootstrap_token_if_absent (lib.encrypt token) (lib.hash_bootstrap_token token) row)

unfoldable pub clear_auto_generated_token : DashboardSettings → DashboardSettings
clear_auto_generated_token row = (clear_bootstrap_token row).1
