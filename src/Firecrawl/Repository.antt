-- ===== src/Firecrawl/Repository.antt =====
-- app/modules/firecrawl/repository.py: the queries and the updates of the Firecrawl tables. A method
-- that changes loaded objects returns the database as the session leaves it. What the encryptor
-- cannot decrypt raises: `none`.
pub mod Accounts
use firecrawl_lb.Prelude.{
  ℕ, ◌==◌, suc, String, Bool, true, false, ◌&&◌, Option, none, some, List, [], ◌∷◌, ◌++◌, map,
  if◌then◌else◌, keep,
}
use firecrawl_lb.Prelude.Int.{ℤ, pos, ◌-ℤ◌, at_least, is_zero_ℤ}
use firecrawl_lb.Prelude.Text.{str_eq, str_lt}
use firecrawl_lb.Firecrawl.Models.{
  Account, Credential, AccountStatus, active, rate_limited, credit_exhausted, CredentialStatus,
}
use firecrawl_lb.Firecrawl.Records.{
  AccountRecord, CredentialRecord, JobRecord, RequestLogRecord, Db, change, get_account,
  get_credential, change_account, change_credential,
}

-- `ORDER BY id`
abbrev pub insert_by_id : AccountRecord → List AccountRecord → List AccountRecord
insert_by_id a [] = a ∷ []
insert_by_id a (b ∷ bs) = if str_lt b.id a.id then b ∷ insert_by_id a bs else a ∷ b ∷ bs

unfoldable pub order_by_id : List AccountRecord → List AccountRecord
order_by_id [] = []
order_by_id (a ∷ accounts) = insert_by_id a (order_by_id accounts)

-- `value or default`
abbrev pub or_int : Option ℤ → ℤ → ℤ
or_int none default = default
or_int (some i) default = if is_zero_ℤ i then default else i

abbrev pub owned_by : String → List CredentialRecord → List CredentialRecord
owned_by account_id credentials = keep (λ c. str_eq c.account_id account_id) credentials

abbrev pub both : {A : Type 0} → Option A → Option (List A) → Option (List A)
both (some a) (some rest) = some (a ∷ rest)
both _ _ = none

abbrev pub keyed : CredentialRecord → Option String → Option Credential
keyed c none = none
keyed c (some api_key) = some (record {
  id = c.id;
  api_key = api_key;
  status = c.status;
  name = c.name;
  last_error_at = c.last_error_at;
  last_error_message = c.last_error_message;
})

abbrev pub domain_account : AccountRecord → List Credential → Account
domain_account r credentials = record {
  id = r.id;
  team_label = r.team_label;
  plan_type = r.plan_type;
  remaining_credits = or_int r.remaining_credits_live (pos 0);
  plan_credits = or_int r.plan_credits_live (or_int r.monthly_budget_credits (pos 1));
  status = r.status;
  credentials = credentials;
  cooldown_until = r.cooldown_until;
  inflight = pos 0;
  rpm_used = [];
  queue_active_jobs = or_int r.queue_active_jobs (pos 0);
  queue_max_concurrency = r.queue_max_concurrency;
  recent_error_count = pos 0;
}

abbrev pub with_credentials : AccountRecord → Option (List Credential) → Option Account
with_credentials r none = none
with_credentials r (some credentials) = some (domain_account r credentials)

module _ (decrypt : String → Option String) where
  unfoldable pub to_domain_credentials : List CredentialRecord → Option (List Credential)
  to_domain_credentials [] = some []
  to_domain_credentials (c ∷ cs) =
      both (keyed c (decrypt c.api_key_encrypted)) (to_domain_credentials cs)

  unfoldable pub to_domain_account : List CredentialRecord → AccountRecord → Option Account
  unfolding to_domain_credentials
  to_domain_account credentials r =
      with_credentials r (to_domain_credentials (owned_by r.id credentials))

  unfoldable pub to_domain_accounts :
      List CredentialRecord → List AccountRecord → Option (List Account)
  unfolding to_domain_account
  to_domain_accounts credentials [] = some []
  to_domain_accounts credentials (r ∷ rs) =
      both (to_domain_account credentials r) (to_domain_accounts credentials rs)

  unfoldable pub list_accounts : Db → Option (List Account)
  unfolding to_domain_accounts order_by_id
  list_accounts db = to_domain_accounts db.credentials (order_by_id db.accounts)

abbrev pub matches : String → String → JobRecord → Bool
matches endpoint upstream_job_id job =
    str_eq job.endpoint endpoint
    && (elim job.upstream_job_id [ none ↦ false | some i ↦ str_eq i upstream_job_id ])

-- `scalars().unique().one_or_none()`, which raises when there are several.
pub data Found (A : Type 0) : Type 0 where
  missing several : Found A
  one : A → Found A

abbrev pub one_or_none : {A : Type 0} → List A → Found A
one_or_none [] = missing
one_or_none (a ∷ []) = one a
one_or_none (a ∷ b ∷ rest) = several

unfoldable pub get_job_record : String → String → Db → Found JobRecord
get_job_record endpoint upstream_job_id db =
    one_or_none (keep (matches endpoint upstream_job_id) db.jobs)

-- The job is written with the next key.
unfoldable pub add_job_record : (ℕ → JobRecord) → Db → Db
add_job_record job db = record db {
  jobs = db.jobs ++ job db.next_job ∷ [];
  next_job = suc db.next_job;
}

unfoldable pub record_request : RequestLogRecord → Db → Db
record_request log db = record db { logs = db.logs ++ log ∷ [] }

abbrev pub is_rate_limited : AccountStatus → Bool
is_rate_limited rate_limited = true
is_rate_limited _ = false

-- `max(0, remaining - used)`, unless the remaining credits are unknown.
abbrev pub spend : Option ℤ → ℤ → Option ℤ
spend none credits_used = none
spend (some remaining) credits_used = some (pos (at_least 0 (remaining -ℤ credits_used)))

unfoldable pub charge : ℤ → AccountRecord → AccountRecord
charge credits_used account =
    let paid = record account {
      remaining_credits_live = spend account.remaining_credits_live credits_used;
    } in
    if is_rate_limited account.status
    then record paid { status = active; cooldown_until = none }
    else paid

unfoldable pub apply_success : String → ℤ → Db → Db
unfolding charge
apply_success account_id credits_used db = change_account account_id (charge credits_used) db

abbrev pub job_is : JobRecord → JobRecord → Bool
job_is job other = other.id == job.id

abbrev pub change_job : JobRecord → (JobRecord → JobRecord) → Db → Db
change_job job f db = record db { jobs = change (job_is job) f db.jobs }

abbrev pub mark_settled : String → ℕ → JobRecord → JobRecord
mark_settled status completed_at job = record job {
  status = status;
  completed_at = some completed_at;
  last_polled_at = some completed_at;
}

abbrev pub pay_for_job : Option String → ℤ → Db → Db
pay_for_job none credits_used db = db
pay_for_job (some account_id) credits_used db = apply_success account_id credits_used db

abbrev pub pay_once : Option ℤ → Option String → JobRecord → ℤ → Db → Db
pay_once (some final) account_id job credits_used db = db
pay_once none account_id job credits_used db =
    pay_for_job account_id credits_used
      (change_job job (λ j. record j { credits_used_final = some credits_used }) db)

unfoldable pub settle_job_once : JobRecord → String → ℤ → ℕ → Db → Db
settle_job_once job status credits_used completed_at db =
    pay_once job.credits_used_final job.account_id job credits_used
      (change_job job (mark_settled status completed_at) db)

unfoldable pub mark_credential_invalid : String → Option String → ℕ → Db → Db
mark_credential_invalid credential_id message at db =
    change_credential credential_id
      (λ c. record c {
        status = CredentialStatus.invalid;
        last_error_at = some at;
        last_error_message = message;
      })
      db

unfoldable pub mark_account_credit_exhausted : String → Db → Db
mark_account_credit_exhausted account_id db =
    change_account account_id (λ a. record a { status = credit_exhausted }) db

unfoldable pub mark_account_rate_limited : String → ℕ → Db → Db
mark_account_rate_limited account_id cooldown_until db =
    change_account account_id
      (λ a. record a { status = rate_limited; cooldown_until = some cooldown_until }) db

-- `if new is not None: field = new`
abbrev pub replace_if_given : {A : Type 0} → Option A → Option A → Option A
replace_if_given none old = old
replace_if_given (some new) old = some new

-- What a refresh of one account learnt.
pub record RefreshReport : Type 0 where
  pub remaining_credits : Option ℤ
  pub plan_credits : Option ℤ
  pub billing_period_start : Option ℕ
  pub billing_period_end : Option ℕ
  pub queue_active_jobs : Option ℤ
  pub queue_max_concurrency : Option ℤ

unfoldable pub update_account_refresh_success : RefreshReport → ℕ → AccountRecord → AccountRecord
update_account_refresh_success r refreshed_at account = record account {
  remaining_credits_live = replace_if_given r.remaining_credits account.remaining_credits_live;
  plan_credits_live = replace_if_given r.plan_credits account.plan_credits_live;
  billing_period_start = replace_if_given r.billing_period_start account.billing_period_start;
  billing_period_end = replace_if_given r.billing_period_end account.billing_period_end;
  queue_active_jobs = replace_if_given r.queue_active_jobs account.queue_active_jobs;
  queue_max_concurrency = replace_if_given r.queue_max_concurrency account.queue_max_concurrency;
  last_usage_refresh_at = some refreshed_at;
  last_queue_refresh_at = some refreshed_at;
  last_refresh_error_at = none;
  last_refresh_error_message = none;
}

unfoldable pub mark_account_refresh_error : String → ℕ → AccountRecord → AccountRecord
mark_account_refresh_error message at account = record account {
  last_refresh_error_at = some at;
  last_refresh_error_message = some message;
}
