-- ===== src/Firecrawl/Records.antt =====
-- app/db/models.py: the Firecrawl tables, and the tables together as one database. Timestamps that
-- the database sets by itself (`created_at`, `updated_at`, `requested_at`) are left out, and a
-- status column holds one of the values that the program writes to it.
use firecrawl_lb.Prelude.{ℕ, String, Option, List, if◌then◌else◌, [], ◌∷◌, Bool, find}
use firecrawl_lb.Prelude.Int.{ℤ}
use firecrawl_lb.Prelude.Text.{str_eq}
use firecrawl_lb.Firecrawl.Models.{AccountStatus, CredentialStatus}

pub record AccountRecord : Type 0 where
  pub id : String
  pub team_label : String
  pub plan_type : String
  pub status : AccountStatus
  pub monthly_budget_credits : Option ℤ
  pub remaining_credits_live : Option ℤ
  pub plan_credits_live : Option ℤ
  pub rpm_limit : Option ℤ
  pub billing_period_start : Option ℕ
  pub billing_period_end : Option ℕ
  pub queue_active_jobs : Option ℤ
  pub queue_waiting_jobs : Option ℤ
  pub queue_max_concurrency : Option ℤ
  pub cooldown_until : Option ℕ
  pub last_usage_refresh_at : Option ℕ
  pub last_queue_refresh_at : Option ℕ
  pub last_refresh_error_at : Option ℕ
  pub last_refresh_error_message : Option String

pub record CredentialRecord : Type 0 where
  pub id : String
  pub account_id : String
  pub name : Option String
  pub api_key_encrypted : String
  pub status : CredentialStatus
  pub last_error_at : Option ℕ
  pub last_error_message : Option String

pub record JobRecord : Type 0 where
  pub id : ℕ
  pub account_id : Option String
  pub credential_id : Option String
  pub endpoint : String
  pub upstream_job_id : Option String
  pub status : String
  pub estimated_credits_reserved : Option ℤ
  pub credits_used_final : Option ℤ
  pub completed_at : Option ℕ
  pub last_polled_at : Option ℕ

pub record RequestLogRecord : Type 0 where
  pub account_id : Option String
  pub credential_id : Option String
  pub endpoint : String
  pub upstream_job_id : Option String
  pub status : String
  pub upstream_status_code : ℕ
  pub estimated_credits_pre : ℤ
  pub credits_used_final : ℤ
  pub latency_ms : ℕ
  pub error_code : Option String
  pub error_message : Option String

-- `next_job` is the next value of the jobs' autoincrement key.
pub record Db : Type 0 where
  pub accounts : List AccountRecord
  pub credentials : List CredentialRecord
  pub jobs : List JobRecord
  pub logs : List RequestLogRecord
  pub next_job : ℕ

-- The change of a loaded object, by primary key, as the session writes it back.
module _ {A : Type 0} where
  unfoldable pub change : (A → Bool) → (A → A) → List A → List A
  change is_it f [] = []
  change is_it f (x ∷ xs) = if is_it x then f x ∷ xs else x ∷ change is_it f xs

abbrev pub account_is : String → AccountRecord → Bool
account_is key a = str_eq a.id key

abbrev pub credential_is : String → CredentialRecord → Bool
credential_is key c = str_eq c.id key

-- `session.get(FirecrawlAccountRecord, key)`
abbrev pub get_account : String → Db → Option AccountRecord
get_account key db = find (account_is key) db.accounts

abbrev pub get_credential : String → Db → Option CredentialRecord
get_credential key db = find (credential_is key) db.credentials

abbrev pub change_account : String → (AccountRecord → AccountRecord) → Db → Db
change_account key f db = record db { accounts = change (account_is key) f db.accounts }

abbrev pub change_credential : String → (CredentialRecord → CredentialRecord) → Db → Db
change_credential key f db = record db { credentials = change (credential_is key) f db.credentials }
