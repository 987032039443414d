-- ===== src/Tests/Admin.antt =====
-- The administration and the refresh, on the database of the fixtures.
use firecrawl_lb.Firecrawl.Routing.Team.{build_team_usage}
use firecrawl_lb.Firecrawl.Usage.{estimate_credits}
use firecrawl_lb.Firecrawl.Routing.{
  concurrency_limit, rpm_limit, active_credential, rejection_reason, file_account, select_account,
}
use firecrawl_lb.Firecrawl.Repository.{list_accounts, order_by_id}
use firecrawl_lb.Prelude.{◌≡◌, refl, none, some, List, [], ◌∷◌, inl, arith}
use firecrawl_lb.Prelude.Int.{◌+ℤ◌, ltb_ℤ, pos}
use firecrawl_lb.Json.{Fields, Value}
use firecrawl_lb.Firecrawl.Models.{active}
use firecrawl_lb.Firecrawl.Records.{change, get_account}
use firecrawl_lb.Firecrawl.Client.{Requester}
use firecrawl_lb.Firecrawl.Service.{
  apply_status, record_outcome, upstream_job_id, select_from, submit_job,
}
use firecrawl_lb.Firecrawl.Service.Cooldown.{proxies}
use firecrawl_lb.Firecrawl.Refresh.{
  refresh_each, RefreshLibrary, no_date, settled, fetch_report, refresh_account, refresh_once,
}
use firecrawl_lb.Firecrawl.Refresh.Pass.{refresh_once-alone}
use firecrawl_lb.Firecrawl.Refresh.Failure.{refresh_once-raises}
use firecrawl_lb.Firecrawl.Admin.{AccountCreateRequest, validation_error}
use firecrawl_lb.Firecrawl.Admin.Overview.{list_logs}
use firecrawl_lb.Firecrawl.Admin.Logs.{submit_job-logs_raise}
use firecrawl_lb.Firecrawl.Admin.Keys.{IsKeyed}
use firecrawl_lb.Firecrawl.Admin.Runs.{
  Operation, creates_account, refreshes, serves, empty_db, operate_all, operate_all-IsKeyed,
}
use firecrawl_lb.Tests.Fixtures.{
  toy_floats, scrape, stored, database, plain, answer, always, clock, charged_seven,
}

abbrev library : RefreshLibrary
library = record {
  decrypt = plain;
  parse_datetime = λ s. no_date;
  transport_error = λ request. "Bearer fc-1 refused";
}

-- An upstream that knows the credits.
abbrev figures : Requester
figures = always (answer 200 (Fields.field "remaining" (Value.int (pos 55)) Fields.end))

refresh_once-alone_example :
    get_account "a1" (record (database active) {
      accounts = settled library 9 (fetch_report library figures "fc-1") (stored active 90) ∷ [];
    })
    ≡ some (settled library 9 (fetch_report library figures "fc-1") (stored active 90))
unfolding refresh_once refresh_each order_by_id refresh_account fetch_report change
refresh_once-alone_example =
    refresh_once-alone library figures 9 "a1" (database active) _
      (settled library 9 (fetch_report library figures "fc-1")) (omega arith) refl refl

-- An encryptor with another key.
abbrev blind : RefreshLibrary
blind = record library { decrypt = λ key. none }

refresh_once-raises_example : refresh_once blind figures 9 (database active) ≡ none
unfolding refresh_account
refresh_once-raises_example =
    refresh_once-raises blind figures 9 (stored active 90) (database active) (inl refl) refl

submit_job-logs_raise_example :
    list_logs none none 50 0
      (submit_job toy_floats plain "crawl" "/v2/crawl" scrape []
        (always (answer 200 charged_seven))
        clock
        (database active)).1
    ≡ validation_error
unfolding submit_job select_from list_accounts select_account estimate_credits file_account
    rejection_reason ltb_ℤ active_credential rpm_limit ◌+ℤ◌ concurrency_limit build_team_usage
    upstream_job_id record_outcome apply_status
submit_job-logs_raise_example =
    submit_job-logs_raise toy_floats plain "crawl" "/v2/crawl" scrape []
      (always (answer 200 charged_seven)) clock (database active) (answer 200 charged_seven) 49 refl
      refl

abbrev new_account : AccountCreateRequest
new_account = record {
  id = "a1";
  team_label = "team";
  plan_type = "standard";
  monthly_budget_credits = none;
  remaining_credits_live = some (pos 90);
  plan_credits_live = none;
  rpm_limit = none;
  max_concurrency = none;
}

-- The second creation is a conflict.
abbrev a_run : List Operation
a_run =
    creates_account new_account
    ∷ creates_account new_account
    ∷ refreshes figures 9
    ∷ serves (proxies "scrape" scrape [] (always (answer 200 charged_seven)) clock)
    ∷ []

operate_all-IsKeyed_example :
    IsKeyed (operate_all toy_floats (λ s. s) library a_run empty_db).accounts
operate_all-IsKeyed_example = operate_all-IsKeyed toy_floats (λ s. s) library a_run
