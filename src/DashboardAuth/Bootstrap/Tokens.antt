-- ===== src/DashboardAuth/Bootstrap/Tokens.antt =====
-- app/core/bootstrap.py and app/modules/dashboard_auth/repository.py: the token is good until a password
-- is set, and no longer.
use firecrawl_lb.Prelude.{
  String, Bool, true, false, ◌&&◌, ◌||◌, Option, none, some, List, ◌≡◌, sym, ◌∙◌, subst, arith,
  if◌then◌else◌, if_cases,
}
use firecrawl_lb.Prelude.Text.{eq_iff}
use firecrawl_lb.DashboardAuth.Settings.{
  DashboardSettings, is_some, is_none, store_bootstrap_token_if_absent, default_settings,
}
use firecrawl_lb.DashboardAuth.Bootstrap.{
  BootstrapLibrary, BootstrapStatus, valid, invalid, unavailable, password_already_configured,
  validate_bootstrap_token, get_bootstrap_validation_status, ensure_auto_bootstrap_token,
  stored_token, kept_token, is_hash_of,
}
use firecrawl_lb.DashboardAuth.Bootstrap.Writes.{
  Write, write_all, Holds, no_token, token, no_hash, both, write_all-IsConsistent,
}

some_same : {x y : String} → some x ≡ some y → x ≡ y
some_same h = cc

module _ (lib : BootstrapLibrary) where
  -- Both checks of a submitted token.
  abbrev pub is_valid : BootstrapStatus → Bool
  is_valid valid = true
  is_valid _ = false

  abbrev pub Opens : String → DashboardSettings → Type 0
  Opens t row =
      (validate_bootstrap_token lib t none row ≡ true)
      × (get_bootstrap_validation_status lib t none row ≡ valid)

  abbrev OpensFor : String → Option String → Option String → Type 0
  OpensFor t password_hash token_hash =
      ((if is_some password_hash || is_none token_hash then false else is_hash_of lib t token_hash)
        ≡ true)
      × ((if is_none token_hash
            then if is_some password_hash then password_already_configured else unavailable
            else if is_hash_of lib t token_hash
            then valid
            else if is_some password_hash
            then password_already_configured
            else invalid)
          ≡ valid)

  opens : (t : String) → OpensFor t none (some (lib.hash_bootstrap_token t))
  opens t = ground (arith, eq_iff (lib.hash_bootstrap_token t) (lib.hash_bootstrap_token t))

  module _ (decrypt-encrypt : (t : String) → lib.decrypt (lib.encrypt t) ≡ some t) where
    held_opens :
        (password_hash encrypted token_hash : Option String) (t : String)
        → Holds lib password_hash encrypted token_hash
        → kept_token lib encrypted ≡ some t
        → OpensFor t password_hash token_hash
    held_opens password_hash none none t (no_token p) h = absurd (cc)
    held_opens password_hash none (some k) t holds h = elim holds [ ]
    held_opens none (some e) none t holds h = elim holds [ ]
    held_opens (some _) (some e) token_hash t holds h = elim holds [ ]
    held_opens none (some e) (some k) t (token held) h =
        subst (λ (u : String). OpensFor u none (some (lib.hash_bootstrap_token held)))
          (some_same (sym (decrypt-encrypt held) ∙ h)) (opens held)

    OpensFor-Opens :
        (t : String) (row : DashboardSettings)
        → OpensFor t row.password_hash row.bootstrap_token_hash
        → Opens t row
    unfolding validate_bootstrap_token get_bootstrap_validation_status
    OpensFor-Opens t row h = h

    new_token-Opens :
        (drawn t : String) (row : DashboardSettings)
        → (stored_token lib drawn (
            store_bootstrap_token_if_absent
              (lib.encrypt drawn)
              (lib.hash_bootstrap_token drawn)
              row)).0
          ≡ some t
        → Opens t
            (stored_token lib drawn (
              store_bootstrap_token_if_absent
                (lib.encrypt drawn)
                (lib.hash_bootstrap_token drawn)
                row)).1
    unfolding store_bootstrap_token_if_absent validate_bootstrap_token
        get_bootstrap_validation_status
    new_token-Opens drawn t row =
        if_cases
          (λ (r : Bool × DashboardSettings).
            (stored_token lib drawn r).0 ≡ some t → Opens t (stored_token lib drawn r).1)
          (is_none row.password_hash && is_none row.bootstrap_token_hash)
          (λ e h.
            subst
              (λ (u : String). OpensFor u row.password_hash (some (lib.hash_bootstrap_token drawn)))
              (some_same h)
              (subst
                (λ (p : Option String). OpensFor drawn p (some (lib.hash_bootstrap_token drawn)))
                (sym (
                  no_hash row.password_hash
                    (both (is_none row.password_hash) (is_none row.bootstrap_token_hash) e)))
                (opens drawn)))
          (λ _ h. absurd (cc))

    -- Whatever was written to the row before, in whatever order and after whatever stale reads: a token
    -- that `ensure_auto_bootstrap_token` hands out, from a row that it reads and writes without an
    -- interruption, is accepted by both checks of a submitted token afterwards, when no token is
    -- configured.
    pub ensure_auto_bootstrap_token-Opens :
        (ws : List Write) (manual : Option String) (drawn t : String)
        → (ensure_auto_bootstrap_token lib manual drawn
            (write_all lib ws default_settings)
            (write_all lib ws default_settings)).0
          ≡ some t
        → Opens t
            (ensure_auto_bootstrap_token lib manual drawn
              (write_all lib ws default_settings)
              (write_all lib ws default_settings)).1
    unfolding ensure_auto_bootstrap_token
    ensure_auto_bootstrap_token-Opens ws manual drawn t =
        let row = write_all lib ws default_settings in
        let held = write_all-IsConsistent lib ws default_settings (no_token none) in
        if_cases (λ (r : Option String × DashboardSettings). r.0 ≡ some t → Opens t r.1)
          (is_some manual || is_some row.password_hash) (λ _ h. absurd (cc))
          (λ _.
            if_cases (λ (r : Option String × DashboardSettings). r.0 ≡ some t → Opens t r.1)
              (is_some row.bootstrap_token_hash)
              (λ _ h. OpensFor-Opens t row (
                held_opens row.password_hash row.bootstrap_token_encrypted row.bootstrap_token_hash
                  t held h))
              (λ _ h. new_token-Opens drawn t row h))
