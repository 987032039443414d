-- ===== src/DashboardAuth/Sessions.antt =====
-- app/modules/dashboard_auth/service.py: `DashboardSessionStore`. A session is a sealed text that the
-- client keeps. Fernet and `json` seal and open it, and are given by an interface; only `create` seals
-- JSON, and it seals an object. A time is `int(time())`.
use firecrawl_lb.Prelude.{
  ℕ, ◌+◌, ltb, String, Bool, true, false, ◌≡◌, Option, none, some, arith, if◌then◌else◌,
}
use firecrawl_lb.Prelude.Int.{ℤ, pos, ltb_ℤ}
use firecrawl_lb.Prelude.Text.{is_empty, strip}
use firecrawl_lb.Json.{Value, Fields, get as field_of}

pub record DashboardSessionState : Type 0 where
  pub expires_at : ℤ
  pub password_verified : Bool
  pub totp_verified : Bool

-- `isinstance(exp, int)`: a `bool` is an `int`.
abbrev pub as_int : Value → Option ℤ
as_int (Value.int i) = some i
as_int (Value.boolean true) = some (pos 1)
as_int (Value.boolean false) = some (pos 0)
as_int _ = none

abbrev pub as_bool : Value → Option Bool
as_bool (Value.boolean b) = some b
as_bool _ = none

abbrev pub state_of : Option ℤ → Option Bool → Option Bool → Option DashboardSessionState
state_of (some exp) (some pw) (some tv) =
    some (record { expires_at = exp; password_verified = pw; totp_verified = tv })
state_of _ _ _ = none

abbrev pub unless_expired : ℕ → Option DashboardSessionState → Option DashboardSessionState
unless_expired now none = none
unless_expired now (some state) = if ltb_ℤ state.expires_at (pos now) then none else some state

abbrev pub state_in : ℕ → Option Fields → Option DashboardSessionState
state_in now none = none
state_in now (some fields) = unless_expired now (
    state_of (as_int (field_of "exp" fields)) (as_bool (field_of "pw" fields))
      (as_bool (field_of "tv" fields)))

abbrev pub payload : ℕ → Bool → Bool → Fields
payload expires_at password_verified totp_verified =
    Fields.field "exp" (Value.int (pos expires_at)) (
      Fields.field "pw" (Value.boolean password_verified)
        (Fields.field "tv" (Value.boolean totp_verified) Fields.end))

-- What the store uses of `TokenEncryptor` and `json`: a session's payload comes back from its text,
-- and the text, which is base 64, is not empty and has no white space.
pub record Sealing : Type 0 where
  pub seal : Fields → String
  pub unseal : String → Option Fields
  pub unseal-seal :
      (expires_at : ℕ) (pw tv : Bool)
      → unseal (seal (payload expires_at pw tv)) ≡ some (payload expires_at pw tv)
  pub strip-seal :
      (expires_at : ℕ) (pw tv : Bool)
      → strip (seal (payload expires_at pw tv)) ≡ seal (payload expires_at pw tv)
  pub is_empty-seal :
      (expires_at : ℕ) (pw tv : Bool) → is_empty (seal (payload expires_at pw tv)) ≡ false

-- `state.password_verified`, and `False` where there is no session
abbrev pub password_flag : Option DashboardSessionState → Bool
password_flag none = false
password_flag (some state) = state.password_verified

abbrev pub totp_flag : Option DashboardSessionState → Bool
totp_flag none = false
totp_flag (some state) = state.totp_verified

module _ (sealing : Sealing) where
  unfoldable pub create : Bool → Bool → ℕ → ℕ → String
  create password_verified totp_verified ttl_seconds now =
      sealing.seal (payload (now + ttl_seconds) password_verified totp_verified)

  abbrev pub of_token : String → ℕ → Option DashboardSessionState
  of_token token now = if is_empty token then none else state_in now (sealing.unseal token)

  unfoldable pub get : Option String → ℕ → Option DashboardSessionState
  get none now = none
  get (some session_id) now = if is_empty session_id then none else of_token (strip session_id) now

  unfoldable pub is_password_verified : Option String → ℕ → Bool
  unfolding get
  is_password_verified session_id now = password_flag (get session_id now)

  unfoldable pub is_totp_verified : Option String → ℕ → Bool
  unfolding get
  is_totp_verified session_id now = totp_flag (get session_id now)

  -- A session that was created is read back with its flags up to its last second, and not after it.
  pub get-create :
      (pw tv : Bool) (ttl now later : ℕ)
      → get (some (create pw tv ttl now)) later ≡ (
          if ltb (now + ttl) later
          then none
          else some
              (record { expires_at = pos (now + ttl); password_verified = pw; totp_verified = tv }))
  unfolding get create ltb_ℤ
  get-create pw tv ttl now later =
      rw
        (
          sealing.strip-seal (now + ttl) pw tv,
          sealing.is_empty-seal (now + ttl) pw tv,
          sealing.unseal-seal (now + ttl) pw tv,
        )
        (ground arith)
