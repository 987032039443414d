-- ===== src/DashboardAuth/Totp/Window.antt =====
-- app/core/auth/totp.py: which steps a code is accepted for.
use firecrawl_lb.Prelude.{
  ℕ, ◌+◌, ◌/◌, ◌==◌, ◌≤◌, String, not, Option, none, some, List, [], ◌∷◌, arith, All, if_elim,
}
use firecrawl_lb.Prelude.Int.{ℤ, pos, pos_part, neg_part, ◌+ℤ◌, ◌-ℤ◌}
use firecrawl_lb.Prelude.Text.{str_eq, text_length}
use firecrawl_lb.DashboardAuth.Totp.{
  TotpLibrary, TotpVerificationResult, valid, invalid, value_error, type_error, already_used,
  is_ascii, totp_digits, offsets, instant_of, find_step, verify_normalized, normalize_secret,
  normalize_code, time_step, verify_totp_code,
}

-- The step is the instant's, or the one before or after it.
abbrev pub IsNear : ℕ → ℤ → Type 0
IsNear current step =
    (current + neg_part step ≤ pos_part step + 1) × (pos_part step ≤ current + 1 + neg_part step)

-- A property that every step of the window has, and with it every answer that is a step.
abbrev pub OfStep : (ℤ → Type 0) → TotpVerificationResult → Type 0
OfStep P (valid step) = P step
OfStep P invalid = Unit
OfStep P value_error = Unit
OfStep P type_error = Unit

find_step-OfStep :
    (P : ℤ → Type 0) (totp_at : List ℕ → ℤ → String) (secret : List ℕ) (code : String) (current : ℤ)
    (last : Option ℤ) (offs : List ℤ)
    → All (λ offset. P (current +ℤ offset)) offs
    → OfStep P (find_step totp_at secret code current last offs)
unfolding find_step
find_step-OfStep P totp_at secret code current last [] h = tt
find_step-OfStep P totp_at secret code current last (offset ∷ offs) (p, h) =
    let rest = find_step-OfStep P totp_at secret code current last offs h in
    let step = current +ℤ offset in
    if_elim (OfStep P) (already_used last step) rest (
      if_elim (OfStep P) (not (is_ascii code)) tt
        (if_elim (OfStep P) (str_eq (totp_at secret (instant_of step)) code) p rest))

window-IsNear : (c : ℕ) → All (λ offset. IsNear c (pos c +ℤ offset)) (offsets 1)
unfolding ◌+ℤ◌ ◌-ℤ◌
window-IsNear c = ground arith

normalized-IsNear :
    (totp_at : List ℕ → ℤ → String) (secret : Option (List ℕ)) (code : String) (c : ℕ)
    (last : Option ℤ)
    → OfStep (IsNear c) (verify_normalized totp_at secret code 1 (pos c) last)
normalized-IsNear totp_at none code c last = tt
normalized-IsNear totp_at (some secret) code c last =
    if_elim (OfStep (IsNear c)) (text_length code == totp_digits)
      (find_step-OfStep (IsNear c) totp_at secret code (pos c) last (offsets 1) (window-IsNear c))
      tt

-- A code is accepted for a step next to the instant's only.
pub verify_totp_code-IsNear :
    (lib : TotpLibrary) (secret code : String) (now : ℕ) (last : Option ℤ)
    → OfStep (IsNear (now / 30)) (verify_totp_code lib secret code 1 now last)
unfolding verify_totp_code time_step
verify_totp_code-IsNear lib secret code now last =
    normalized-IsNear lib.totp_at (normalize_secret lib.is_base32 secret)
      (normalize_code lib.is_unicode_digit code) (now / 30) last
