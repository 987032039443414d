-- ===== src/Firecrawl/Admin/Jobs.antt =====
-- app/modules/firecrawl/service.py: operations of jobs and the ids of the accounts.
use firecrawl_lb.Prelude.{ℕ, String, ◌&&◌, Option, none, some, if_elim}
use firecrawl_lb.Prelude.Int.{ℤ}
use firecrawl_lb.Prelude.Text.{str_eq}
use firecrawl_lb.Firecrawl.Records.{CredentialRecord, JobRecord, Db}
use firecrawl_lb.Firecrawl.Repository.{
  Found, missing, several, one, charge, apply_success, settle_job_once, pay_once, pay_for_job,
  change_job, mark_settled,
}
use firecrawl_lb.Firecrawl.Client.{Requester, UpstreamResponse}
use firecrawl_lb.Firecrawl.Service.{
  run_job, send_job_request, with_key, job_answered, after_job_response, polled, cancelled,
  is_terminal_job_status, job_status, credits_used, job_credential, settle_if, poll_update,
  is_success,
}
use firecrawl_lb.Firecrawl.Service.Cooldown.{charge-id}
use firecrawl_lb.Firecrawl.Admin.Keys.{IsKeyed, change-IsKeyed}

paid-IsKeyed :
    (account_id : Option String) (credits : ℤ) (db : Db)
    → IsKeyed db.accounts
    → IsKeyed (pay_for_job account_id credits db).accounts
unfolding apply_success
paid-IsKeyed none credits db h = h
paid-IsKeyed (some id) credits db h =
    change-IsKeyed id (charge credits) db.accounts (charge-id credits) h

pay_once-IsKeyed :
    (final : Option ℤ) (account_id : Option String) (job : JobRecord) (credits : ℤ) (db : Db)
    → IsKeyed db.accounts
    → IsKeyed (pay_once final account_id job credits db).accounts
pay_once-IsKeyed (some f) account_id job credits db h = h
pay_once-IsKeyed none account_id job credits db h =
    paid-IsKeyed account_id credits
      (change_job job (λ j. record j { credits_used_final = some credits }) db) h

settle-IsKeyed :
    (status : Option String) (credits : Option ℤ) (job : JobRecord) (now : ℕ) (db : Db)
    → IsKeyed db.accounts
    → IsKeyed (settle_if status credits job now db).accounts
unfolding settle_job_once
settle-IsKeyed none credits job now db h = h
settle-IsKeyed (some s) none job now db h = h
settle-IsKeyed (some s) (some c) job now db h =
    if_elim (λ (d : Db). IsKeyed d.accounts) (is_terminal_job_status s)
      (pay_once-IsKeyed job.credits_used_final job.account_id job c
        (change_job job (mark_settled s now) db) h)
      h

response-IsKeyed :
    (method : String) (job : JobRecord) (response : UpstreamResponse) (now : ℕ) (db : Db)
    → IsKeyed db.accounts
    → IsKeyed (after_job_response method job response now db).accounts
unfolding after_job_response polled cancelled
response-IsKeyed method job response now db h =
    let P = λ (d : Db). IsKeyed d.accounts in
    if_elim P (str_eq method "GET" && is_success response.status)
      (settle-IsKeyed (job_status response.json_body) (credits_used response.json_body)
        (poll_update (job_status response.json_body) now job) now
        (change_job job (poll_update (job_status response.json_body) now) db) h)
      (if_elim P (str_eq method "DELETE" && is_success response.status) h h)

answered-IsKeyed :
    (method : String) (job : JobRecord) (now : ℕ) (db : Db) (r : Option UpstreamResponse)
    → IsKeyed db.accounts
    → IsKeyed (job_answered method job now db r).1.accounts
answered-IsKeyed method job now db none h = h
answered-IsKeyed method job now db (some r) h = response-IsKeyed method job r now db h

key-IsKeyed :
    (method path : String) (client : Requester) (job : JobRecord) (now : ℕ) (db : Db)
    (key : Option String)
    → IsKeyed db.accounts
    → IsKeyed (with_key method path client job now db key).1.accounts
key-IsKeyed method path client job now db none h = h
key-IsKeyed method path client job now db (some k) h = answered-IsKeyed method job now db _ h

module _ (decrypt : String → Option String) where
  sent-IsKeyed :
      (method path : String) (client : Requester) (job : JobRecord) (now : ℕ) (db : Db)
      (c : Option CredentialRecord)
      → IsKeyed db.accounts
      → IsKeyed (send_job_request decrypt method path client job now db c).1.accounts
  sent-IsKeyed method path client job now db none h = h
  sent-IsKeyed method path client job now db (some c) h =
      key-IsKeyed method path client job now db (decrypt c.api_key_encrypted) h

  pub run-IsKeyed :
      (method path : String) (client : Requester) (now : ℕ) (db : Db) (found : Found JobRecord)
      → IsKeyed db.accounts
      → IsKeyed (run_job decrypt method path client now db found).1.accounts
  run-IsKeyed method path client now db missing h = h
  run-IsKeyed method path client now db several h = h
  run-IsKeyed method path client now db (one job) h =
      sent-IsKeyed method path client job now db (job_credential job db) h
