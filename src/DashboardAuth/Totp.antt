-- ===== src/DashboardAuth/Totp.antt =====
-- app/core/auth/totp.py: the check of a one-time code. `pyotp` gives the code of a secret at an
-- instant, base64 says what is base 32, and the digits beyond ASCII are those of Python's Unicode
-- tables: three functions. A secret is the list of its code points.
pub mod Window
use Prim.Native.Char.{Char, code}
use firecrawl_lb.Prelude.{
  ℕ, zero, suc, ◌+◌, ◌-◌, ◌*◌, ◌/◌, ◌==◌, ltb, leb, String, Bool, true, false, not, ◌&&◌, ◌||◌,
  Option, none, some, List, [], ◌∷◌, map, keep, all, if◌then◌else◌,
}
use firecrawl_lb.Prelude.Int.{ℤ, pos, negsuc, ◌+ℤ◌, ◌-ℤ◌, ltb_ℤ}
use firecrawl_lb.Prelude.Text.{codes, is_space, is_digit, str_eq, text_length}

abbrev pub totp_period_seconds : ℕ
totp_period_seconds = 30

abbrev pub totp_digits : ℕ
totp_digits = 6

-- `TotpVerificationResult`, the `ValueError` of a secret, and the `TypeError` of `compare_digest`.
pub data TotpVerificationResult : Type 0 where
  valid : ℤ → TotpVerificationResult
  invalid : TotpVerificationResult
  value_error : TotpVerificationResult
  type_error : TotpVerificationResult

abbrev pub upper_code : ℕ → ℕ
upper_code c = if leb 97 c && leb c 122 then c - 32 else c

-- `"".join(secret.split()).upper()`
unfoldable pub compact : String → List ℕ
unfolding is_space
compact secret = map upper_code (keep (λ c. not (is_space c)) (codes secret))

unfoldable pub time_step : ℕ → ℤ
time_step now_epoch = pos (now_epoch / totp_period_seconds)

-- `range(-window, window + 1)`
abbrev pub offsets_from : ℤ → ℕ → List ℤ
offsets_from offset zero = []
offsets_from offset (suc n) = offset ∷ offsets_from (offset +ℤ pos 1) n

abbrev pub offsets : ℕ → List ℤ
offsets window = offsets_from (pos 0 -ℤ pos window) (window + window + 1)

-- `last_verified_step is not None and step <= last_verified_step`
abbrev pub already_used : Option ℤ → ℤ → Bool
already_used none step = false
already_used (some last) step = not (ltb_ℤ last step)

-- `step * 30`
abbrev pub instant_of : ℤ → ℤ
instant_of (pos n) = pos (n * totp_period_seconds)
instant_of (negsuc n) = pos 0 -ℤ pos (suc n * totp_period_seconds)

abbrev pub is_ascii : String → Bool
is_ascii s = all (λ c. ltb c 128) (codes s)

module _ (is_unicode_digit : ℕ → Bool) where
  abbrev pub keep_digit : Char → String → String
  keep_digit c rest =
      if is_digit (code c) || is_unicode_digit (code c) then String.◌∷◌ c rest else rest

  unfoldable pub normalize_code : String → String
  unfolding is_digit
  normalize_code String.[] = String.[]
  normalize_code (String.◌∷◌ c s) = keep_digit c (normalize_code s)

module _ (is_base32 : List ℕ → Bool) where
  abbrev pub checked_secret : List ℕ → Option (List ℕ)
  checked_secret [] = none
  checked_secret (c ∷ cs) = if is_base32 (c ∷ cs) then some (c ∷ cs) else none

  -- `none` is the `ValueError`.
  unfoldable pub normalize_secret : String → Option (List ℕ)
  normalize_secret secret = checked_secret (compact secret)

module _ (totp_at : List ℕ → ℤ → String) where
  -- The loop over the steps of the window.
  unfoldable pub find_step : List ℕ → String → ℤ → Option ℤ → List ℤ → TotpVerificationResult
  find_step secret code current last_verified_step [] = invalid
  find_step secret code current last_verified_step (offset ∷ more) =
      let step = current +ℤ offset in
      let rest = find_step secret code current last_verified_step more in
      if already_used last_verified_step step
      then rest
      else if not (is_ascii code)
      then type_error
      else if str_eq (totp_at secret (instant_of step)) code
      then valid step
      else rest

  abbrev pub verify_normalized :
      Option (List ℕ) → String → ℕ → ℤ → Option ℤ → TotpVerificationResult
  verify_normalized none code window current last_verified_step = value_error
  verify_normalized (some secret) code window current last_verified_step =
      if text_length code == totp_digits
      then find_step secret code current last_verified_step (offsets window)
      else invalid

-- The library calls: of a check, and the address that a secret is enrolled by.
pub record TotpLibrary : Type 0 where
  pub provisioning_uri : List ℕ → String → String → String
  pub is_unicode_digit : ℕ → Bool
  pub is_base32 : List ℕ → Bool
  pub totp_at : List ℕ → ℤ → String

unfoldable pub verify_totp_code :
    TotpLibrary → String → String → ℕ → ℕ → Option ℤ → TotpVerificationResult
verify_totp_code lib secret code window now_epoch last_verified_step =
    verify_normalized lib.totp_at (normalize_secret lib.is_base32 secret)
      (normalize_code lib.is_unicode_digit code) window (time_step now_epoch) last_verified_step

abbrev pub uri_of : TotpLibrary → Option (List ℕ) → String → String → Option String
uri_of lib none account_name issuer = none
uri_of lib (some secret) account_name issuer =
    some (lib.provisioning_uri secret account_name issuer)

-- `none` is the `ValueError` of a secret.
unfoldable pub build_otpauth_uri : TotpLibrary → String → String → String → Option String
build_otpauth_uri lib secret account_name issuer =
    uri_of lib (normalize_secret lib.is_base32 secret) account_name issuer
