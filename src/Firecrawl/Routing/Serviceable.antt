-- ===== src/Firecrawl/Routing/Serviceable.antt =====
-- app/modules/firecrawl/routing.py: what the account that serves a request is like, in the terms of
-- its own fields.
use firecrawl_lb.Prelude.{
  ℕ, ◌≤◌, String, ◌≡◌, true, false, Option, none, some, List, arith, find-holds,
}
use firecrawl_lb.Prelude.Int.{ℤ, pos, ◌+ℤ◌, ◌≤ℤ◌, ltb_ℤ, ltb_ℤ→le}
use firecrawl_lb.Json.{Fields}
use firecrawl_lb.Firecrawl.Models.{Account, Credential, SelectedAccount, is_active, usable}
use firecrawl_lb.Firecrawl.Routing.Scores.{Floats}
use firecrawl_lb.Firecrawl.Routing.Team.{TeamUsage, rpm_of, no_usage, total_usage, in_team}
use firecrawl_lb.Firecrawl.Routing.Admission.{select_account_sound}
use firecrawl_lb.Firecrawl.Routing.{
  rejection_reason, active_credential, rpm_limit, concurrency_limit, cooling, select_account,
  selected,
}

-- An account that can take a request of the estimated price now, and the key to use. The limits
-- bind the account by itself and its whole team, whose usage is `team`.
pub record IsServiceable (endpoint : String) (estimated : ℤ) (team : TeamUsage) (now : ℕ)
    (a : Account) (c : Credential) : Type 0 where
  pub is_up : is_active a.status ≡ true
  pub has_cooled : (until : ℕ) → a.cooldown_until ≡ some until → until ≤ now
  pub can_pay : estimated ≤ℤ a.remaining_credits
  pub key_is_usable : usable c.status ≡ true
  pub below_rpm : ltb_ℤ (rpm_of endpoint a.rpm_used) (pos (rpm_limit a endpoint)) ≡ true
  pub below_concurrency : ltb_ℤ (a.inflight +ℤ a.queue_active_jobs) (concurrency_limit a) ≡ true
  pub team_below_rpm :
      ltb_ℤ (rpm_of endpoint team.rpm_used_by_endpoint) (pos (rpm_limit a endpoint)) ≡ true
  pub team_below_concurrency :
      ltb_ℤ (team.inflight +ℤ team.active_jobs) (concurrency_limit a) ≡ true

active_credential-usable :
    (owned : List Credential) (c : Credential)
    → active_credential owned ≡ some c
    → usable c.status ≡ true
unfolding active_credential
active_credential-usable owned c h = find-holds (λ (k : Credential). usable k.status) owned c h

cooled :
    (cooldown : Option ℕ) (now until : ℕ)
    → cooling cooldown now ≡ false
    → cooldown ≡ some until
    → until ≤ now
cooled none now until h e = cc
cooled (some u) now until h e = ground arith

passes-IsServiceable :
    (a : Account) (c : Credential) (endpoint : String) (estimated : ℤ) (team : TeamUsage) (now : ℕ)
    → active_credential a.credentials ≡ some c
    → rejection_reason a (some c) endpoint estimated team now ≡ none
    → IsServiceable endpoint estimated team now a c
unfolding rejection_reason
passes-IsServiceable a c endpoint estimated team now owns h = record {
  is_up = ground arith;
  has_cooled = λ until e. cooled a.cooldown_until now until (ground arith) e;
  can_pay = ltb_ℤ→le a.remaining_credits estimated (ground arith);
  key_is_usable = active_credential-usable a.credentials c owns;
  below_rpm = ground arith;
  below_concurrency = ground arith;
  team_below_rpm = ground arith;
  team_below_concurrency = ground arith;
}

-- Whatever the pool, the account that serves a request is active, its cooldown is over, it has the
-- credits of the estimate, its key is usable, and it and its team are below the limits of its plan.
pub select_account-IsServiceable :
    (fl : Floats) (accounts : List Account) (endpoint : String) (payload : Fields) (now : ℕ)
    (p : SelectedAccount)
    → select_account fl accounts endpoint payload now ≡ selected p
    → IsServiceable endpoint p.estimated_credits
        (total_usage no_usage (in_team p.account.team_label accounts))
        now
        p.account
        p.credential
select_account-IsServiceable fl accounts endpoint payload now p h =
    let (i, priced, ok) = select_account_sound fl accounts endpoint payload now h in
    passes-IsServiceable p.account p.credential endpoint p.estimated_credits _ now ok.owns ok.passes
