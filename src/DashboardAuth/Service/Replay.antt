-- ===== src/DashboardAuth/Service/Replay.antt =====
-- app/modules/dashboard_auth/service.py: `verify_totp` under replay, concurrent requests included.
use firecrawl_lb.Prelude.{
  ℕ, suc, ◌+◌, ◌-◌, ◌/◌, ◌≤◌, String, Bool, true, false, Option, none, some, List, [], ◌∷◌, ◌≡◌,
  refl, ◌⊎◌, inl, inr, arith, All, if_cases,
}
use firecrawl_lb.Prelude.Int.{ℤ, pos_part, neg_part, ltb_ℤ→lt}
use firecrawl_lb.DashboardAuth.Settings.{
  DashboardSettings, below_step, try_advance_totp_last_verified_step,
}
use firecrawl_lb.DashboardAuth.Totp.{
  TotpVerificationResult, valid, invalid, value_error, type_error, verify_totp_code,
}
use firecrawl_lb.DashboardAuth.Totp.Window.{IsNear, OfStep, verify_totp_code-IsNear}
use firecrawl_lb.DashboardAuth.Sessions.{DashboardSessionState}
use firecrawl_lb.DashboardAuth.Results.{
  Outcome, ok, failed, Done, on_ok, AuthLibrary, unless_updated, matched_step, totp_invalid_code,
}
use firecrawl_lb.DashboardAuth.Service.{
  accept_code, verify_totp, issued, decrypted, require_active_password_session,
}

abbrev pub is_ok {ℓ} : {A : Type ℓ} → Outcome A → Bool
is_ok (ok a) = true
is_ok (failed e) = false

-- A code that is refused leaves the row; one that is accepted raises the row's last step, to a step
-- that is next to the instant's.
pub data Accepts (code_now : ℕ) (row : DashboardSettings) : Bool → DashboardSettings → Type 0 where
  refused : Accepts code_now row false row
  accepted :
      (step : ℤ)
      → IsNear (code_now / 30) step
      → below_step row.totp_last_verified_step step ≡ true
      → Accepts code_now row true (record row { totp_last_verified_step = some step })

abbrev pub AcceptsOf {ℓ} :
    ℕ → DashboardSettings → {A : Type ℓ} → Outcome A × DashboardSettings → Type 0
AcceptsOf code_now row r = Accepts code_now row (is_ok r.0) r.1

advance-Accepts :
    (code_now : ℕ) (row : DashboardSettings) (step : ℤ)
    → IsNear (code_now / 30) step
    → AcceptsOf code_now row
        (unless_updated totp_invalid_code (try_advance_totp_last_verified_step step row))
unfolding try_advance_totp_last_verified_step
advance-Accepts code_now row step near =
    if_cases
      (λ (r : Bool × DashboardSettings).
        AcceptsOf code_now row (unless_updated totp_invalid_code r))
      (below_step row.totp_last_verified_step step) (accepted step near) (λ _. refused)

matched-Accepts :
    (code_now : ℕ) (row : DashboardSettings) (result : TotpVerificationResult)
    → OfStep (IsNear (code_now / 30)) result
    → AcceptsOf code_now row (
        on_ok
          (matched_step result)
          row
          (λ step. unless_updated totp_invalid_code (try_advance_totp_last_verified_step step row)))
matched-Accepts code_now row (valid step) near = advance-Accepts code_now row step near
matched-Accepts code_now row invalid near = refused
matched-Accepts code_now row value_error near = refused
matched-Accepts code_now row type_error near = refused

module _ (lib : AuthLibrary) where
  secret-Accepts :
      (code : String) (code_now : ℕ) (seen row : DashboardSettings) (secret : Outcome String)
      → AcceptsOf code_now row (
          on_ok secret row (λ s.
            on_ok
              (matched_step
                (verify_totp_code lib.totp s code 1 code_now seen.totp_last_verified_step))
              row
              (λ step.
                unless_updated totp_invalid_code (try_advance_totp_last_verified_step step row))))
  secret-Accepts code code_now seen row (failed e) = refused
  secret-Accepts code code_now seen row (ok s) =
      matched-Accepts code_now row _
        (verify_totp_code-IsNear lib.totp s code code_now seen.totp_last_verified_step)

  pub accept_code-Accepts :
      (code : String) (code_now : ℕ) (seen row : DashboardSettings)
      → AcceptsOf code_now row (accept_code lib code code_now seen row)
  unfolding accept_code
  accept_code-Accepts code code_now seen row =
      secret-Accepts code code_now seen row (decrypted lib seen.totp_secret_encrypted)

  issued-Accepts :
      (state : DashboardSessionState) (code_now issued_now : ℕ) (row : DashboardSettings)
      (r : Outcome Done × DashboardSettings)
      → AcceptsOf code_now row r
      → AcceptsOf code_now row (issued lib state issued_now r)
  issued-Accepts state code_now issued_now row (ok u, row') h = h
  issued-Accepts state code_now issued_now row (failed e, row') h = h

  session-Accepts :
      (code : String) (code_now issued_now : ℕ) (seen row : DashboardSettings)
      (session : Outcome DashboardSessionState)
      → AcceptsOf code_now row (
          on_ok session row
            (λ state. issued lib state issued_now (accept_code lib code code_now seen row)))
  session-Accepts code code_now issued_now seen row (failed e) = refused
  session-Accepts code code_now issued_now seen row (ok state) =
      issued-Accepts state code_now issued_now row (accept_code lib code code_now seen row)
        (accept_code-Accepts code code_now seen row)

-- A request for a login by a one-time code, with the row that it read.
pub record TotpRequest : Type 0 where
  pub session_id : Option String
  pub code : String
  pub now : ℕ
  pub code_now : ℕ
  pub issued_now : ℕ
  pub seen : DashboardSettings

abbrev pub verify_request :
    AuthLibrary → TotpRequest → DashboardSettings → Outcome (String × ℕ) × DashboardSettings
verify_request lib r row =
    verify_totp lib r.session_id r.code r.now r.code_now r.issued_now r.seen row

abbrev pub plus_accepted : Bool → ℕ → ℕ
plus_accepted true n = suc n
plus_accepted false n = n

-- The number of requests that are accepted, in the order of their writes.
unfoldable pub accepted_of : AuthLibrary → List TotpRequest → DashboardSettings → ℕ
accepted_of lib [] row = 0
accepted_of lib (r ∷ requests) row =
    let answer = verify_request lib r row in
    plus_accepted (is_ok answer.0) (accepted_of lib requests answer.1)

-- How many acceptances are left for instants up to `until`, after a last step, and from no step on.
abbrev pub Room : ℕ → ℕ → Option ℤ → ℕ → Type 0
Room from until none n = n + from / 30 ≤ until / 30 + 3
Room from until (some last) n =
    (n + from / 30 ≤ until / 30 + 3) × (n + pos_part last ≤ until / 30 + 1 + neg_part last)

-- The instants that the codes of the requests are checked at.
abbrev pub Between : ℕ → ℕ → TotpRequest → Type 0
Between from until r = (from ≤ r.code_now) × (r.code_now ≤ until)

div_mono : (a b : ℕ) → a ≤ b → a / 30 ≤ b / 30
div_mono a b h = omega arith

Room-accepted :
    (from until now : ℕ) (last : Option ℤ) (step : ℤ) (n : ℕ)
    → (from ≤ now) × (now ≤ until)
    → IsNear (now / 30) step
    → below_step last step ≡ true
    → ((n ≡ 0) ⊎ Room from until (some step) n)
    → (suc n ≡ 0) ⊎ Room from until last (suc n)
Room-accepted from until now none step n (lo, hi) (near, below) h room =
    inr (ground (arith, div_mono from now lo, div_mono now until hi))
Room-accepted from until now (some last) step n (lo, hi) (near, below) h room =
    inr (ground (arith, div_mono now until hi, ltb_ℤ→lt last step h))

Room-step :
    (from until : ℕ) (r : TotpRequest) (row row' : DashboardSettings) (b : Bool) (n : ℕ)
    → Between from until r
    → Accepts r.code_now row b row'
    → ((n ≡ 0) ⊎ Room from until row'.totp_last_verified_step n)
    → (plus_accepted b n ≡ 0) ⊎ Room from until row.totp_last_verified_step (plus_accepted b n)
Room-step from until r row row' false n between refused room = room
Room-step from until r row row' true n between (accepted step near below) room =
    Room-accepted from until r.code_now row.totp_last_verified_step step n between near below room

requests-Room :
    (lib : AuthLibrary) (from until : ℕ) (requests : List TotpRequest) (row : DashboardSettings)
    → All (Between from until) requests
    → (accepted_of lib requests row ≡ 0)
      ⊎ Room from until row.totp_last_verified_step (accepted_of lib requests row)
unfolding accepted_of verify_totp
requests-Room lib from until [] row h = inl refl
requests-Room lib from until (r ∷ requests) row (between, h) =
    let row' = (verify_request lib r row).1 in
    Room-step from until r row row' (is_ok (verify_request lib r row).0)
      (accepted_of lib requests row') between
      (session-Accepts lib r.code r.code_now r.issued_now r.seen row
        (require_active_password_session lib r.session_id r.now r.seen))
      (requests-Room lib from until requests row' h)

Room-bounded :
    (from until : ℕ) (last : Option ℤ) (n : ℕ)
    → from ≤ until
    → (n ≡ 0) ⊎ Room from until last n
    → n ≤ until / 30 - from / 30 + 3
Room-bounded from until last n h (inl e) = omega arith
Room-bounded from until none n h (inr room) = omega (arith, div_mono from until h)
Room-bounded from until (some step) n h (inr (room, below)) = omega (arith, div_mono from until h)

-- Of the requests whose codes are checked between two instants, whatever codes they bring, whatever
-- rows they read before and in whatever order they write, at most one is accepted for each step from the one
-- before the first instant's to the one after the last instant's.
pub verify_totp-bounded :
    (lib : AuthLibrary) (from until : ℕ) (requests : List TotpRequest) (row : DashboardSettings)
    → from ≤ until
    → All (Between from until) requests
    → accepted_of lib requests row ≤ until / 30 - from / 30 + 3
verify_totp-bounded lib from until requests row h between =
    Room-bounded from until row.totp_last_verified_step (accepted_of lib requests row) h
      (requests-Room lib from until requests row between)
