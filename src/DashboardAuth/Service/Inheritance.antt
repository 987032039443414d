-- ===== src/DashboardAuth/Service/Inheritance.antt =====
-- app/modules/dashboard_auth/service.py: how long the session lives that `verify_totp` issues.
use firecrawl_lb.Prelude.{
  ℕ, ◌+◌, ltb, max, String, true, Option, none, some, ◌≡◌, subst, arith, if◌then◌else◌, if_cases,
}
use firecrawl_lb.Prelude.Int.{ℤ, pos, negsuc, ◌-ℤ◌}
use firecrawl_lb.DashboardAuth.Settings.{DashboardSettings}
use firecrawl_lb.DashboardAuth.Sessions.{DashboardSessionState, create, get, get-create}
use firecrawl_lb.DashboardAuth.Results.{
  Outcome, ok, failed, Done, on_ok, AuthLibrary, session_for, inherited_ttl,
}
use firecrawl_lb.DashboardAuth.Service.{
  verify_totp, accept_code, issued, require_active_password_session,
}

-- `expires_at`, or a second from now where that is later.
abbrev pub inherited_expiry : ℤ → ℕ → ℕ
inherited_expiry (pos n) now = max n (now + 1)
inherited_expiry (negsuc n) now = now + 1

abbrev pub full_session : ℕ → DashboardSessionState
full_session expires_at = record {
  expires_at = pos expires_at;
  password_verified = true;
  totp_verified = true;
}

abbrev pub full_until : ℕ → ℕ → Option DashboardSessionState
full_until expiry later = if ltb expiry later then none else some (full_session expiry)

inherited_ttl-expiry :
    (state : DashboardSessionState) (now : ℕ)
    → now + inherited_ttl state now ≡ inherited_expiry state.expires_at now
unfolding ◌-ℤ◌
inherited_ttl-expiry state now = ground arith

module _ (lib : AuthLibrary) (issued_now : ℕ) (token : String) (ttl : ℕ) where
  abbrev pub Lives : DashboardSessionState → Type 0
  Lives state =
      (later : ℕ)
      → get lib.sealing (some token) later
        ≡ full_until (inherited_expiry state.expires_at issued_now) later

  created-Lives :
      (state : DashboardSessionState)
      → create lib.sealing true true (inherited_ttl state issued_now) issued_now ≡ token
      → Lives state
  created-Lives state e later =
      subst
        (λ (t : String).
          get lib.sealing (some t) later
          ≡ full_until (inherited_expiry state.expires_at issued_now) later)
        e
        (subst
          (λ (n : ℕ).
            get lib.sealing
              (some (create lib.sealing true true (inherited_ttl state issued_now) issued_now))
              later
            ≡ full_until n later)
          (inherited_ttl-expiry state issued_now)
          (get-create lib.sealing true true (inherited_ttl state issued_now) issued_now later))

  issued-Lives :
      (state : DashboardSessionState) (r : Outcome Done × DashboardSettings)
      → (issued lib state issued_now r).0 ≡ ok (token, ttl)
      → Lives state
  issued-Lives state (ok u, row) h later = created-Lives state (cc) later
  issued-Lives state (failed e, row) h later = absurd (cc)

  session-Lives :
      (state : DashboardSessionState) (hash : Option String) (row : DashboardSettings)
      (next : DashboardSessionState → Outcome Done × DashboardSettings)
      → (on_ok (session_for hash (some state)) row (λ s. issued lib s issued_now (next s))).0
        ≡ ok (token, ttl)
      → Lives state
  session-Lives state none row next = λ h. absurd (cc)
  session-Lives state (some hash) row next =
      if_cases
        (λ (o : Outcome DashboardSessionState).
          (on_ok o row (λ s. issued lib s issued_now (next s))).0 ≡ ok (token, ttl) → Lives state)
        state.password_verified (λ _ h. issued-Lives state (next state) h) (λ _ h. absurd (cc))

  -- The session that a one-time code opens lives as long as the password's session that it was opened
  -- from, or one second where that has run out by then, whatever the configured time to live is.
  pub verify_totp-inherits :
      (session_id : Option String) (code : String) (now code_now : ℕ) (seen row : DashboardSettings)
      (state : DashboardSessionState) (later : ℕ)
      → get lib.sealing session_id now ≡ some state
      → (verify_totp lib session_id code now code_now issued_now seen row).0 ≡ ok (token, ttl)
      → get lib.sealing (some token) later
        ≡ full_until (inherited_expiry state.expires_at issued_now) later
  unfolding verify_totp require_active_password_session
  verify_totp-inherits session_id code now code_now seen row state later e h =
      session-Lives state seen.password_hash row (λ s. accept_code lib code code_now seen row)
        (subst
          (λ (o : Option DashboardSessionState).
            (on_ok (session_for seen.password_hash o) row
              (λ s. issued lib s issued_now (accept_code lib code code_now seen row))).0
            ≡ ok (token, ttl))
          e h)
        later
