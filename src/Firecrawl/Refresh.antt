-- ===== src/Firecrawl/Refresh.antt =====
-- app/modules/firecrawl/refresh.py: one pass over the accounts that asks the upstream for credits and
-- queues. `datetime.fromisoformat` and the change to UTC are a function. An exception of the transport has
-- a text, its message or the name of its class. The task that repeats the pass is left out.
pub mod Pass
pub mod Failure
use Prim.Native.String.{◌++◌ as str_append}
use firecrawl_lb.Prelude.{
  ℕ, ltb, leb, String, Bool, true, false, not, ◌&&◌, ◌||◌, Option, none, some, List, [], ◌∷◌, find,
  if◌then◌else◌,
}
use firecrawl_lb.Prelude.Int.{ℤ}
use firecrawl_lb.Prelude.Text.{replace, take_chars}
use firecrawl_lb.Json.{Value, Fields, get as field_of}
use firecrawl_lb.Firecrawl.Models.{usable}
use firecrawl_lb.Firecrawl.Records.{AccountRecord, CredentialRecord, Db, change_account}
use firecrawl_lb.Firecrawl.Client.{UpstreamResponse, UpstreamRequest, Requester}
use firecrawl_lb.Firecrawl.Repository.{
  RefreshReport, update_account_refresh_success, mark_account_refresh_error, order_by_id, owned_by,
}

-- A value, or the text of an exception.
pub data Attempt (A : Type 0) : Type 0 where
  got : A → Attempt A
  error : String → Attempt A

-- What `_parse_datetime` does with a text: `None`, an instant, or the `OverflowError` of `astimezone`.
pub data ParsedDate : Type 0 where
  no_date overflow : ParsedDate
  date : ℕ → ParsedDate

pub record RefreshLibrary : Type 0 where
  pub decrypt : String → Option String
  pub parse_datetime : String → ParsedDate
  pub transport_error : UpstreamRequest → String

pub record CreditUsage : Type 0 where
  pub remaining_credits : Option ℤ
  pub plan_credits : Option ℤ
  pub billing_period_start : Option ℕ
  pub billing_period_end : Option ℕ

pub record QueueStatus : Type 0 where
  pub active_jobs : Option ℤ
  pub max_concurrency : Option ℤ

abbrev pub body_or_error : String → Option Fields → Attempt Fields
body_or_error label none = error label
body_or_error label (some body) = got body

unfoldable pub require_success_json : UpstreamResponse → String → Attempt Fields
require_success_json response label =
    if ltb response.status 200 || leb 300 response.status
    then error label
    else body_or_error label response.json_body

abbrev pub data_or : Fields → Value → Fields
data_or payload (Value.obj fields) = fields
data_or payload _ = payload

unfoldable pub nested_data : Fields → Fields
nested_data payload = data_or payload (field_of "data" payload)

-- The value of one key; `none` goes on to the next.
abbrev pub int_at : Value → Option ℤ
int_at (Value.int i) = some i
int_at (Value.real i true) = some i
int_at _ = none

abbrev pub or_next : {A : Type 0} → Option A → Option A → Option A
or_next none next = next
or_next (some a) next = some a

unfoldable pub int_from_keys : Fields → List String → Option ℤ
int_from_keys payload [] = none
int_from_keys payload (key ∷ keys) =
    or_next (int_at (field_of key payload)) (int_from_keys payload keys)

abbrev pub text_at : Value → Option String
text_at (Value.str s) = some s
text_at _ = none

-- The first key with a text decides.
abbrev pub first_text : Fields → List String → Option String
first_text payload [] = none
first_text payload (key ∷ keys) = or_next (text_at (field_of key payload)) (first_text payload keys)

abbrev pub instant_of : ParsedDate → Attempt (Option ℕ)
instant_of no_date = got none
instant_of (date at) = got (some at)
instant_of overflow = error "date value out of range"

unfoldable pub safe_error_message : String → String
safe_error_message message =
    take_chars 500 (replace "fc-" "[redacted]-" (replace "Bearer " "" message))

module _ (lib : RefreshLibrary) where
  abbrev pub parsed_text : Option String → Attempt (Option ℕ)
  parsed_text none = got none
  parsed_text (some value) = instant_of (lib.parse_datetime value)

  unfoldable pub datetime_from_keys : Fields → List String → Attempt (Option ℕ)
  datetime_from_keys payload keys = parsed_text (first_text payload keys)

  abbrev pub usage_with : Fields → Attempt (Option ℕ) → Attempt (Option ℕ) → Attempt CreditUsage
  usage_with fields (error message) end = error message
  usage_with fields (got start) (error message) = error message
  usage_with fields (got start) (got end) = got (record {
    remaining_credits =
        int_from_keys fields ("remaining" ∷ "remainingCredits" ∷ "remaining_credits" ∷ []);
    plan_credits =
        int_from_keys fields ("plan" ∷ "planCredits" ∷ "plan_credits" ∷ "totalCredits" ∷ []);
    billing_period_start = start;
    billing_period_end = end;
  })

  unfoldable pub parse_credit_usage : Fields → Attempt CreditUsage
  parse_credit_usage payload =
      let fields = nested_data payload in
      usage_with fields
        (datetime_from_keys fields
          ("billingPeriodStart" ∷ "billing_period_start" ∷ "periodStart" ∷ []))
        (datetime_from_keys fields ("billingPeriodEnd" ∷ "billing_period_end" ∷ "periodEnd" ∷ []))

  unfoldable pub parse_queue_status : Fields → QueueStatus
  parse_queue_status payload =
      let fields = nested_data payload in
      record {
        active_jobs =
            int_from_keys fields ("active" ∷ "activeJobs" ∷ "active_jobs" ∷ "queueActiveJobs" ∷ []);
        max_concurrency =
            int_from_keys fields ("maxConcurrency" ∷ "max_concurrency" ∷ "concurrency" ∷ []);
      }

  abbrev pub report_of : Attempt CreditUsage → Attempt Fields → Attempt RefreshReport
  report_of (error message) queue = error message
  report_of (got usage) (error message) = error message
  report_of (got usage) (got body) =
      let queue = parse_queue_status body in
      got (record {
        remaining_credits = usage.remaining_credits;
        plan_credits = usage.plan_credits;
        billing_period_start = usage.billing_period_start;
        billing_period_end = usage.billing_period_end;
        queue_active_jobs = queue.active_jobs;
        queue_max_concurrency = queue.max_concurrency;
      })

  abbrev pub usage_of : Attempt Fields → Attempt CreditUsage
  usage_of (error message) = error message
  usage_of (got body) = parse_credit_usage body

  abbrev pub response_or_error :
      UpstreamRequest → Option UpstreamResponse → Attempt UpstreamResponse
  response_or_error request none = error (lib.transport_error request)
  response_or_error request (some response) = got response

  -- Both responses are there before either is read.
  abbrev pub read_both : Attempt UpstreamResponse → Attempt UpstreamResponse → Attempt RefreshReport
  read_both (error message) queue_response = error message
  read_both (got usage_response) (error message) = error message
  read_both (got usage_response) (got queue_response) =
      report_of (usage_of (require_success_json usage_response "credit usage refresh failed"))
        (require_success_json queue_response "queue status refresh failed")

  abbrev pub get_request : String → String → UpstreamRequest
  get_request path api_key = record {
    method = "GET";
    path = path;
    api_key = api_key;
    json = none;
    params = [];
  }

  abbrev pub ask : Requester → String → String → Attempt UpstreamResponse
  ask client path api_key =
      response_or_error (get_request path api_key) (client (get_request path api_key))

  -- The `try` of one account.
  unfoldable pub fetch_report : Requester → String → Attempt RefreshReport
  fetch_report client api_key =
      read_both (ask client "/v2/team/credit-usage" api_key)
        (ask client "/v2/team/queue-status" api_key)

  abbrev pub settled : ℕ → Attempt RefreshReport → AccountRecord → AccountRecord
  settled now (got report) account = update_account_refresh_success report now account
  settled now (error message) account =
      mark_account_refresh_error (safe_error_message message) now account

  -- The change of one account. The decryption stands outside of the `try`: `none` ends the pass.
  abbrev pub with_key : Requester → ℕ → Option String → Option (AccountRecord → AccountRecord)
  with_key client now none = none
  with_key client now (some api_key) = some (settled now (fetch_report client api_key))

  abbrev pub with_credential :
      Requester → ℕ → Option CredentialRecord → Option (AccountRecord → AccountRecord)
  with_credential client now none = some (λ account. account)
  with_credential client now (some credential) =
      with_key client now (lib.decrypt credential.api_key_encrypted)

  unfoldable pub refresh_account :
      Requester → ℕ → List CredentialRecord → String → Option (AccountRecord → AccountRecord)
  refresh_account client now credentials account_id =
      with_credential client now (find (λ c. usable c.status) (owned_by account_id credentials))

  -- The rest of the pass after one account.
  abbrev pub go_on :
      String → Option (AccountRecord → AccountRecord) → (Db → Option Db) → Db → Option Db
  go_on id none rest db = none
  go_on id (some f) rest db = rest (change_account id f db)

  unfoldable pub refresh_each : Requester → ℕ → List AccountRecord → Db → Option Db
  refresh_each client now [] db = some db
  refresh_each client now (account ∷ accounts) db =
      let rest = refresh_each client now accounts in
      go_on account.id (refresh_account client now db.credentials account.id) rest db

  -- `none` is an exception: nothing is committed.
  unfoldable pub refresh_once : Requester → ℕ → Db → Option Db
  refresh_once client now db = refresh_each client now (order_by_id db.accounts) db
