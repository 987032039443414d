-- ===== src/DashboardAuth/Bootstrap/Writes.antt =====
-- app/core/bootstrap.py and app/modules/dashboard_auth/repository.py: what the writes to the row keep of
-- the stored token.
use firecrawl_lb.Prelude.{
  String, Bool, true, false, ◌&&◌, ◌||◌, Option, none, some, List, [], ◌∷◌, ◌≡◌, refl, sym, subst,
  if_cases, if_elim,
}
use firecrawl_lb.Prelude.Int.{ℤ}
use firecrawl_lb.DashboardAuth.Settings.{
  DashboardSettings, is_some, is_none, set_totp_secret, set_password_hash, try_set_password_hash,
  clear_password_and_totp, store_bootstrap_token_if_absent, clear_bootstrap_token,
  try_advance_totp_last_verified_step, below_step,
}
use firecrawl_lb.DashboardAuth.Bootstrap.{
  BootstrapLibrary, ensure_auto_bootstrap_token, clear_auto_generated_token,
}

-- The writes of the repository to the row, those of `ensure_auto_bootstrap_token` with rows that were
-- read before included.
pub data Write : Type 0 where
  totp_secret : Option String → Write
  password password_if_absent : String → Write
  clear_password clear_token : Write
  advance : ℤ → Write
  ensure : Option String → String → DashboardSettings → Write

pub no_hash : (o : Option String) → is_none o ≡ true → o ≡ none
no_hash none h = refl
no_hash (some a) h = absurd (cc)

pub both : (a b : Bool) → (a && b) ≡ true → a ≡ true
both true b h = refl
both false b h = h

module _ (lib : BootstrapLibrary) where
  abbrev pub write : Write → DashboardSettings → DashboardSettings
  write (totp_secret secret) row = set_totp_secret secret row
  write (password h) row = set_password_hash h row
  write (password_if_absent h) row = (try_set_password_hash h row).1
  write clear_password row = clear_password_and_totp row
  write clear_token row = clear_auto_generated_token row
  write (advance step) row = (try_advance_totp_last_verified_step step row).1
  write (ensure manual token seen) row = (ensure_auto_bootstrap_token lib manual token seen row).1

  unfoldable pub write_all : List Write → DashboardSettings → DashboardSettings
  write_all [] row = row
  write_all (w ∷ ws) row = write_all ws (write w row)

  -- A stored token is one, encrypted and hashed, and stands only where there is no password.
  pub data Holds : Option String → Option String → Option String → Type 0 where
    no_token : (password_hash : Option String) → Holds password_hash none none
    token : (t : String) → Holds none (some (lib.encrypt t)) (some (lib.hash_bootstrap_token t))

  abbrev pub IsConsistent : DashboardSettings → Type 0
  IsConsistent row = Holds row.password_hash row.bootstrap_token_encrypted row.bootstrap_token_hash

  cleared-IsConsistent :
      (row : DashboardSettings) → IsConsistent row → IsConsistent (clear_bootstrap_token row).1
  unfolding clear_bootstrap_token
  cleared-IsConsistent row h =
      if_elim (λ (r : Bool × DashboardSettings). IsConsistent r.1)
        (is_some row.bootstrap_token_hash) (no_token row.password_hash) h

  stored-IsConsistent :
      (t : String) (row : DashboardSettings)
      → IsConsistent row
      → IsConsistent
          (store_bootstrap_token_if_absent (lib.encrypt t) (lib.hash_bootstrap_token t) row).1
  unfolding store_bootstrap_token_if_absent
  stored-IsConsistent t row h =
      if_cases (λ (r : Bool × DashboardSettings). IsConsistent r.1)
        (is_none row.password_hash && is_none row.bootstrap_token_hash)
        (λ e.
          subst
            (λ (p : Option String).
              Holds p (some (lib.encrypt t)) (some (lib.hash_bootstrap_token t)))
            (sym (
              no_hash row.password_hash
                (both (is_none row.password_hash) (is_none row.bootstrap_token_hash) e)))
            (token t))
        (λ _. h)

  write-IsConsistent :
      (w : Write) (row : DashboardSettings) → IsConsistent row → IsConsistent (write w row)
  unfolding set_totp_secret set_password_hash try_set_password_hash clear_password_and_totp
      clear_auto_generated_token try_advance_totp_last_verified_step ensure_auto_bootstrap_token
  write-IsConsistent (totp_secret secret) row h = h
  write-IsConsistent (password p) row h = no_token (some p)
  write-IsConsistent (password_if_absent p) row h =
      if_elim (λ (r : Bool × DashboardSettings). IsConsistent r.1) (is_none row.password_hash)
        (no_token (some p)) h
  write-IsConsistent clear_password row h = no_token none
  write-IsConsistent clear_token row h = cleared-IsConsistent row h
  write-IsConsistent (advance step) row h =
      if_elim (λ (r : Bool × DashboardSettings). IsConsistent r.1)
        (below_step row.totp_last_verified_step step) h h
  write-IsConsistent (ensure manual t seen) row h =
      if_elim (λ (r : Option String × DashboardSettings). IsConsistent r.1)
        (is_some manual || is_some seen.password_hash)
        (if_elim IsConsistent (is_some seen.bootstrap_token_hash) (cleared-IsConsistent row h) h)
        (if_elim (λ (r : Option String × DashboardSettings). IsConsistent r.1)
          (is_some seen.bootstrap_token_hash) h (stored-IsConsistent t row h))

  pub write_all-IsConsistent :
      (ws : List Write) (row : DashboardSettings)
      → IsConsistent row
      → IsConsistent (write_all ws row)
  unfolding write_all
  write_all-IsConsistent [] row h = h
  write_all-IsConsistent (w ∷ ws) row h =
      write_all-IsConsistent ws (write w row) (write-IsConsistent w row h)
