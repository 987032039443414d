-- ===== src/Firecrawl/Models.antt =====
-- app/modules/firecrawl/models.py: accounts and credentials as routing sees them. An instant is a
-- number of microseconds; whether a datetime carries a time zone is not modelled.
use firecrawl_lb.Prelude.{ℕ, String, Option, List, Bool, true, false}
use firecrawl_lb.Prelude.Int.{ℤ}
use firecrawl_lb.Prelude.Dict.{Dict}

pub data AccountStatus : Type 0 where
  active rate_limited credit_exhausted paused invalid : AccountStatus

abbrev pub is_active : AccountStatus → Bool
is_active active = true
is_active _ = false

pub data CredentialStatus : Type 0 where
  active paused invalid : CredentialStatus

abbrev pub usable : CredentialStatus → Bool
usable CredentialStatus.active = true
usable _ = false

pub record Credential : Type 0 where
  pub id : String
  pub api_key : String
  pub status : CredentialStatus
  pub name : Option String
  pub last_error_at : Option ℕ
  pub last_error_message : Option String

pub record Account : Type 0 where
  pub id : String
  pub team_label : String
  pub plan_type : String
  pub remaining_credits : ℤ
  pub plan_credits : ℤ
  pub status : AccountStatus
  pub credentials : List Credential
  pub cooldown_until : Option ℕ
  pub inflight : ℤ
  pub rpm_used : Dict ℤ
  pub queue_active_jobs : ℤ
  pub queue_max_concurrency : Option ℤ
  pub recent_error_count : ℤ

pub record SelectedAccount : Type 0 where
  pub account : Account
  pub credential : Credential
  pub estimated_credits : ℤ
