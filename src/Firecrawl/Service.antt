-- ===== src/Firecrawl/Service.antt =====
-- app/modules/firecrawl/service.py: the proxied requests, the submitted jobs and their later polls.
-- Time is an argument; an exception leaves the database as it was, since nothing was committed.
mod Body
unfoldable pub use Body.{
  request_status, credits_used, job_status, upstream_job_id, error_message, is_terminal_job_status,
  cooldown_until, cooldown_seconds, is_success,
}
pub mod Agreement
pub mod Outcomes
pub mod Audit
pub mod Solvency
pub mod Listing
pub mod Cooldown
pub mod Overflow
pub mod Polls
pub mod Payments
pub mod Tracking
pub mod Settled
pub mod Settlement
use Body.{first_truthy}
use Prim.Native.String.{◌++◌ as str_append}
use firecrawl_lb.Prelude.{
  ℕ, ◌==◌, leb, String, Bool, true, false, ◌&&◌, Option, none, some, List, [], ◌∷◌, if◌then◌else◌,
}
use firecrawl_lb.Prelude.Int.{ℤ}
use firecrawl_lb.Prelude.Dict.{Dict}
use firecrawl_lb.Prelude.Text.{str_eq, is_empty}
use firecrawl_lb.Json.{Fields}
use firecrawl_lb.Firecrawl.Models.{Account, SelectedAccount}
use firecrawl_lb.Firecrawl.Records.{
  CredentialRecord, JobRecord, RequestLogRecord, Db, get_credential,
}
use firecrawl_lb.Firecrawl.Usage.{estimate_credits}
use firecrawl_lb.Firecrawl.Routing.{
  Reason, Selection, selected, unavailable, bad_request, select_account,
}
use firecrawl_lb.Firecrawl.Routing.Scores.{Floats}
use firecrawl_lb.Firecrawl.Client.{UpstreamResponse, UpstreamRequest, Requester}
use firecrawl_lb.Firecrawl.Repository.{
  Found, missing, several, one, list_accounts, get_job_record, add_job_record, record_request,
  apply_success, settle_job_once, mark_credential_invalid, mark_account_credit_exhausted,
  mark_account_rate_limited, change_job,
}

pub data Outcome : Type 0 where
  answered : UpstreamResponse → Outcome
  no_account : String → Dict Reason → Outcome
  not_found : Outcome
  raised : Outcome

-- The clock readings of one request: at the selection, and after the response.
pub record Clock : Type 0 where
  pub selection_time : ℕ
  pub latency_ms : ℕ
  pub now : ℕ

abbrev error_code : ℕ → String → Option String
error_code status label = if leb 400 status then some label else none

abbrev pub request_log : SelectedAccount → String → UpstreamResponse → ℤ → ℕ → RequestLogRecord
request_log s endpoint response credits latency_ms = record {
  account_id = some s.account.id;
  credential_id = some s.credential.id;
  endpoint = endpoint;
  upstream_job_id = upstream_job_id response.json_body;
  status = request_status response.status;
  upstream_status_code = response.status;
  estimated_credits_pre = s.estimated_credits;
  credits_used_final = credits;
  latency_ms = latency_ms;
  error_code = error_code response.status (request_status response.status);
  error_message = error_message response.json_body response.text_body;
}

abbrev pub cool_down : String → Db → Option ℕ → Option Db
cool_down account_id db none = none
cool_down account_id db (some until) = some (mark_account_rate_limited account_id until db)

-- The part of `_record_outcome` after the log: what the status does to the account. `none` is an
-- overflow of the cooldown's date.
unfoldable pub apply_status : SelectedAccount → UpstreamResponse → ℤ → ℕ → Bool → Db → Option Db
apply_status s response credits now settle_success db =
    if is_success response.status && settle_success
    then some (apply_success s.account.id credits db)
    else if response.status == 401
    then some (
        mark_credential_invalid s.credential.id
          (error_message response.json_body response.text_body) now db)
    else if response.status == 402
    then some (mark_account_credit_exhausted s.account.id db)
    else if response.status == 429
    then cool_down s.account.id db (cooldown_until response.headers now)
    else some db

unfoldable pub record_outcome :
    SelectedAccount → String → UpstreamResponse → ℤ → Clock → Bool → Db → Option Db
record_outcome s endpoint response credits clock settle_success db =
    apply_status s response credits clock.now settle_success
      (record_request (request_log s endpoint response credits clock.latency_ms) db)

-- A raised exception keeps the old database.
abbrev pub commit : UpstreamResponse → Db → Option Db → Outcome × Db
commit response before none = (raised, before)
commit response before (some after) = (answered response, after)

abbrev job_record : SelectedAccount → String → String → ℕ → JobRecord
job_record s endpoint upstream_id key = record {
  id = key;
  account_id = some s.account.id;
  credential_id = some s.credential.id;
  endpoint = endpoint;
  upstream_job_id = some upstream_id;
  status = "submitted";
  estimated_credits_reserved = some s.estimated_credits;
  credits_used_final = none;
  completed_at = none;
  last_polled_at = none;
}

abbrev pub add_submitted :
    SelectedAccount → String → UpstreamResponse → Option String → Option Db → Option Db
add_submitted s endpoint response (some upstream_id) (some db) = some (
    if is_success response.status
    then add_job_record (job_record s endpoint upstream_id) db
    else db)
add_submitted s endpoint response _ db = db

-- An estimate that raises ends the request.
abbrev pub priced : Db → Option ℤ → (ℤ → Outcome × Db) → Outcome × Db
priced db none f = (raised, db)
priced db (some credits) f = f credits

-- What follows the response to a proxied request, and to a submitted job.
abbrev pub proxied :
    SelectedAccount → String → Fields → Clock → Db → Option UpstreamResponse → Outcome × Db
proxied s endpoint payload clock db none = (raised, db)
proxied s endpoint payload clock db (some response) =
    priced db (estimate_credits endpoint payload response.json_body)
      λ credits. commit response db (record_outcome s endpoint response credits clock true db)

abbrev pub submitted :
    SelectedAccount → String → Fields → Clock → Db → Option UpstreamResponse → Outcome × Db
submitted s endpoint payload clock db none = (raised, db)
submitted s endpoint payload clock db (some response) =
    priced db (estimate_credits endpoint payload response.json_body) λ credits. commit response db (
      add_submitted s endpoint response (upstream_job_id response.json_body)
        (record_outcome s endpoint response credits clock false db))

abbrev pub post : String → Fields → Dict String → SelectedAccount → UpstreamRequest
post path payload params s = record {
  method = "POST";
  path = path;
  api_key = s.credential.api_key;
  json = some payload;
  params = params;
}

-- `f"/v2/{endpoint}"`
abbrev pub v2_path : String → String
v2_path endpoint = str_append "/v2/" endpoint

abbrev pub job_text : Option String → String → String
job_text found old = elim found [ none ↦ old | some s ↦ if is_empty s then old else s ]

-- `credential = job.credential`
abbrev pub job_credential : JobRecord → Db → Option CredentialRecord
job_credential job db = elim job.credential_id [ none ↦ none | some key ↦ get_credential key db ]

abbrev pub settle_if : Option String → Option ℤ → JobRecord → ℕ → Db → Db
settle_if (some status) (some credits) job now db =
    if is_terminal_job_status status then settle_job_once job status credits now db else db
settle_if _ _ job now db = db

abbrev pub poll_update : Option String → ℕ → JobRecord → JobRecord
poll_update status now job = record job {
  status = job_text status job.status;
  last_polled_at = some now;
}

abbrev pub cancel_update : Option String → ℕ → JobRecord → JobRecord
cancel_update status now job = record job {
  status = job_text status "cancelled";
  completed_at = some now;
}

-- The effect of a successful GET, and of a successful DELETE, on the job.
unfoldable pub polled : JobRecord → Option Fields → ℕ → Db → Db
polled job body now db =
    let update = poll_update (job_status body) now in
    settle_if (job_status body) (credits_used body) (update job) now (change_job job update db)

unfoldable pub cancelled : JobRecord → Option Fields → ℕ → Db → Db
cancelled job body now db = change_job job (cancel_update (job_status body) now) db

unfoldable pub after_job_response : String → JobRecord → UpstreamResponse → ℕ → Db → Db
unfolding polled cancelled
after_job_response method job response now db =
    if str_eq method "GET" && is_success response.status
    then polled job response.json_body now db
    else if str_eq method "DELETE" && is_success response.status
    then cancelled job response.json_body now db
    else db

unfoldable pub select_from : Floats → String → Fields → ℕ → Option (List Account) → Selection
select_from fl endpoint payload now none = bad_request
select_from fl endpoint payload now (some accounts) =
    select_account fl accounts endpoint payload now

unfoldable pub run_selected : Db → Selection → (SelectedAccount → Outcome × Db) → Outcome × Db
run_selected db (selected s) f = f s
run_selected db (unavailable endpoint rejections) f = (no_account endpoint rejections, db)
run_selected db bad_request f = (raised, db)

module _ (fl : Floats) (decrypt : String → Option String) where
  -- The account for a request, from the accounts in the database.
  abbrev pub choice : String → Fields → Clock → Db → Selection
  choice endpoint payload clock db =
      select_from fl endpoint payload clock.selection_time (list_accounts decrypt db)

  pub proxy : String → Fields → Dict String → Requester → Clock → Db → Outcome × Db
  unfolding run_selected
  proxy endpoint payload params client clock db =
      run_selected db (choice endpoint payload clock db)
        λ s. proxied s endpoint payload clock db (client (post (v2_path endpoint) payload params s))

  unfoldable pub submit_job :
      String → String → Fields → Dict String → Requester → Clock → Db → Outcome × Db
  unfolding run_selected
  submit_job endpoint path payload params client clock db =
      run_selected db (choice endpoint payload clock db)
        λ s. submitted s endpoint payload clock db (client (post path payload params s))

abbrev pub job_request : String → String → String → UpstreamRequest
job_request method path api_key = record {
  method = method;
  path = path;
  api_key = api_key;
  json = none;
  params = [];
}

abbrev pub job_answered : String → JobRecord → ℕ → Db → Option UpstreamResponse → Outcome × Db
job_answered method job now db none = (raised, db)
job_answered method job now db (some response) =
    (answered response, after_job_response method job response now db)

abbrev pub with_key :
    String → String → Requester → JobRecord → ℕ → Db → Option String → Outcome × Db
with_key method path client job now db none = (raised, db)
with_key method path client job now db (some api_key) =
    job_answered method job now db (client (job_request method path api_key))

module _ (decrypt : String → Option String) where
  abbrev pub send_job_request :
      String → String → Requester → JobRecord → ℕ → Db → Option CredentialRecord → Outcome × Db
  send_job_request method path client job now db none = (not_found, db)
  send_job_request method path client job now db (some credential) =
      with_key method path client job now db (decrypt credential.api_key_encrypted)

  abbrev pub run_job : String → String → Requester → ℕ → Db → Found JobRecord → Outcome × Db
  run_job method path client now db missing = (not_found, db)
  run_job method path client now db several = (raised, db)
  run_job method path client now db (one job) =
      send_job_request method path client job now db (job_credential job db)

  unfoldable pub proxy_job_operation :
      String → String → String → String → Requester → ℕ → Db → Outcome × Db
  proxy_job_operation endpoint upstream_path upstream_job_id method client now db =
      run_job method upstream_path client now db (get_job_record endpoint upstream_job_id db)
