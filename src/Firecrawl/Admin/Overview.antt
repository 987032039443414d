-- ===== src/Firecrawl/Admin/Overview.antt =====
-- app/modules/firecrawl/admin_service.py, repository.py and schemas.py: the jobs, the logs and the overview.
use firecrawl_lb.Prelude.{
  ℕ, zero, suc, String, Bool, true, false, ◌&&◌, Option, none, some, List, [], ◌∷◌, keep, count,
  all, length, if◌then◌else◌,
}
use firecrawl_lb.Prelude.Int.{ℤ, pos, ◌+ℤ◌}
use firecrawl_lb.Prelude.Text.{str_eq, one_of}
use firecrawl_lb.Firecrawl.Models.{AccountStatus}
use firecrawl_lb.Firecrawl.Records.{AccountRecord, JobRecord, RequestLogRecord, Db}
use firecrawl_lb.Firecrawl.Repository.{or_int}
use firecrawl_lb.Firecrawl.Admin.{AdminAnswer, ok, validation_error}
use mathlib.Core.List.{reverse}

module _ {A : Type 0} where
  abbrev pub take : ℕ → List A → List A
  take n [] = []
  take zero (x ∷ xs) = []
  take (suc n) (x ∷ xs) = x ∷ take n xs

  abbrev pub drop : ℕ → List A → List A
  drop n [] = []
  drop zero (x ∷ xs) = x ∷ xs
  drop (suc n) (x ∷ xs) = drop n xs

  -- `LIMIT … OFFSET …`, the newest first
  abbrev pub page : (A → Bool) → ℕ → ℕ → List A → List A
  page test limit offset rows = take limit (drop offset (keep test (reverse rows)))

-- No filter, or an equation.
abbrev pub equals : Option String → String → Bool
equals none s = true
equals (some wanted) s = str_eq s wanted

unfoldable pub list_job_records : Option String → Option String → ℕ → ℕ → Db → List JobRecord
list_job_records endpoint status limit offset db =
    page (λ job. equals endpoint job.endpoint && equals status job.status) limit offset db.jobs

unfoldable pub list_request_logs :
    Option String → Option String → ℕ → ℕ → Db → List RequestLogRecord
list_request_logs endpoint status limit offset db =
    page (λ log. equals endpoint log.endpoint && equals status log.status) limit offset db.logs

-- The pattern of `FirecrawlRequestLogResponse.endpoint`.
abbrev pub is_log_endpoint : String → Bool
is_log_endpoint endpoint = one_of endpoint ("scrape" ∷ "map" ∷ "search" ∷ [])

abbrev pub is_job_endpoint : String → Bool
is_job_endpoint endpoint = one_of endpoint ("crawl" ∷ "batch_scrape" ∷ [])

-- The responses have the fields of the rows; what their validation refuses raises.
abbrev pub validated : {A : Type 0} → (A → Bool) → List A → AdminAnswer (List A)
validated test rows = if all test rows then ok rows else validation_error

unfoldable pub list_jobs : Option String → Option String → ℕ → ℕ → Db → AdminAnswer (List JobRecord)
list_jobs endpoint status limit offset db =
    validated (λ job. is_job_endpoint job.endpoint)
      (list_job_records endpoint status limit offset db)

unfoldable pub list_logs :
    Option String → Option String → ℕ → ℕ → Db → AdminAnswer (List RequestLogRecord)
list_logs endpoint status limit offset db =
    validated (λ log. is_log_endpoint log.endpoint)
      (list_request_logs endpoint status limit offset db)

pub record Overview : Type 0 where
  pub total_accounts : ℕ
  pub active_accounts : ℕ
  pub total_remaining_credits : ℤ
  pub total_budget_credits : ℤ
  pub rate_limited : ℕ
  pub credit_exhausted : ℕ
  pub paused : ℕ
  pub active_jobs : ℕ
  pub requests_total : ℕ
  pub requests_success : ℕ
  pub requests_error : ℕ
  pub scrape : ℕ
  pub map_requests : ℕ
  pub search : ℕ
  pub crawl : ℕ
  pub batch_scrape : ℕ

abbrev pub same_status : AccountStatus → AccountStatus → Bool
same_status AccountStatus.active AccountStatus.active = true
same_status AccountStatus.rate_limited AccountStatus.rate_limited = true
same_status AccountStatus.credit_exhausted AccountStatus.credit_exhausted = true
same_status AccountStatus.paused AccountStatus.paused = true
same_status AccountStatus.invalid AccountStatus.invalid = true
same_status _ _ = false

abbrev pub with_account_status : AccountStatus → List AccountRecord → ℕ
with_account_status status accounts = count (λ a. same_status a.status status) accounts

-- `sum(value(account) for account in accounts)`
abbrev pub total : (AccountRecord → ℤ) → List AccountRecord → ℤ
total value [] = pos 0
total value (a ∷ accounts) = value a +ℤ total value accounts

abbrev pub budget_of : AccountRecord → ℤ
budget_of a = or_int a.monthly_budget_credits (or_int a.plan_credits_live (pos 0))

abbrev pub logs_with : String → List RequestLogRecord → ℕ
logs_with status logs = count (λ log. str_eq log.status status) logs

abbrev pub logs_at : String → List RequestLogRecord → ℕ
logs_at endpoint logs = count (λ log. str_eq log.endpoint endpoint) logs

abbrev pub jobs_at : String → List JobRecord → ℕ
jobs_at endpoint jobs = count (λ job. str_eq job.endpoint endpoint) jobs

unfoldable pub get_overview : Db → Overview
get_overview db =
    let jobs = list_job_records none none 10000 0 db in
    let logs = list_request_logs none none 10000 0 db in
    record {
      total_accounts = length db.accounts;
      active_accounts = with_account_status AccountStatus.active db.accounts;
      total_remaining_credits = total (λ a. or_int a.remaining_credits_live (pos 0)) db.accounts;
      total_budget_credits = total budget_of db.accounts;
      rate_limited = with_account_status AccountStatus.rate_limited db.accounts;
      credit_exhausted = with_account_status AccountStatus.credit_exhausted db.accounts;
      paused = with_account_status AccountStatus.paused db.accounts;
      active_jobs = count (λ job. str_eq job.status "submitted") jobs;
      requests_total = length logs;
      requests_success = logs_with "success" logs;
      requests_error = logs_with "error" logs;
      scrape = logs_at "scrape" logs;
      map_requests = logs_at "map" logs;
      search = logs_at "search" logs;
      crawl = jobs_at "crawl" jobs;
      batch_scrape = jobs_at "batch_scrape" jobs;
    }
