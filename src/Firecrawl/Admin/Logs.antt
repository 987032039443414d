-- ===== src/Firecrawl/Admin/Logs.antt =====
-- app/modules/firecrawl/service.py, admin_service.py and schemas.py: the logs of submitted jobs and the page that
-- lists the logs.
use firecrawl_lb.Prelude.{ℕ, suc, String, false, Option, none, List, [], ◌∷◌, ◌++◌, ◌≡◌, arith}
use firecrawl_lb.Prelude.Dict.{Dict}
use firecrawl_lb.Json.{Fields}
use firecrawl_lb.Firecrawl.Records.{RequestLogRecord, Db}
use firecrawl_lb.Firecrawl.Client.{UpstreamResponse, UpstreamRequest, Requester}
use firecrawl_lb.Firecrawl.Routing.{Selection}
use firecrawl_lb.Firecrawl.Routing.Scores.{Floats}
use firecrawl_lb.Firecrawl.Models.{SelectedAccount}
use firecrawl_lb.Firecrawl.Service.{Clock, Outcome, answered, submit_job, choice, post}
use firecrawl_lb.Firecrawl.Service.Audit.{Audited, submit_job-Audited}
use firecrawl_lb.Firecrawl.Admin.{validation_error}
use firecrawl_lb.Firecrawl.Admin.Overview.{list_logs, list_request_logs, is_log_endpoint}
use mathlib.Core.List.{reverse-append}

-- A last log that the response refuses makes every page that starts with it raise.
pub refused_log :
    (logs : List RequestLogRecord) (log : RequestLogRecord) (limit : ℕ) (db : Db)
    → db.logs ≡ logs ++ log ∷ []
    → is_log_endpoint log.endpoint ≡ false
    → list_logs none none (suc limit) 0 db ≡ validation_error
unfolding list_logs list_request_logs
refused_log logs log limit db e refused =
    rw (e, reverse-append logs (log ∷ [])) (ground (arith, refused))

-- An answered submission of a job: the log that it appends names the job's endpoint.
logged_job :
    (request : SelectedAccount → UpstreamRequest) (client : Requester) (choice : Selection)
    (endpoint : String) (payload : Fields) (clock : Clock) (before : Db) (r : UpstreamResponse)
    (after : Outcome × Db) (limit : ℕ)
    → is_log_endpoint endpoint ≡ false
    → Audited request client choice endpoint payload clock before after
    → after.0 ≡ answered r
    → list_logs none none (suc limit) 0 after.1 ≡ validation_error
logged_job request client choice endpoint payload clock before r (answered r', after) limit job
      (s, credits, chosen, sent, priced_at, logs) h =
    refused_log before.logs _ limit after logs job
logged_job request client choice endpoint payload clock before r (Outcome.no_account e m, after)
      limit job a h =
    absurd (cc)
logged_job request client choice endpoint payload clock before r (Outcome.not_found, after) limit
      job a h =
    absurd (cc)
logged_job request client choice endpoint payload clock before r (Outcome.raised, after) limit job a
      h =
    absurd (cc)

-- Once a job of an endpoint that is no request's, so a crawl or a batch scrape, has been answered by the
-- upstream, the page of the newest logs raises a validation error, whatever its length.
pub submit_job-logs_raise :
    (fl : Floats) (decrypt : String → Option String) (endpoint path : String) (payload : Fields)
    (params : Dict String) (client : Requester) (clock : Clock) (db : Db) (r : UpstreamResponse)
    (limit : ℕ)
    → is_log_endpoint endpoint ≡ false
    → (submit_job fl decrypt endpoint path payload params client clock db).0 ≡ answered r
    → list_logs none none
        (suc limit)
        0
        (submit_job fl decrypt endpoint path payload params client clock db).1
      ≡ validation_error
submit_job-logs_raise fl decrypt endpoint path payload params client clock db r limit job =
    logged_job (post path payload params) client (choice fl decrypt endpoint payload clock db)
      endpoint payload clock db r
      (submit_job fl decrypt endpoint path payload params client clock db) limit job
      (submit_job-Audited fl decrypt endpoint payload params client clock db path)
