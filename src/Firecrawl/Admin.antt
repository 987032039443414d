-- ===== src/Firecrawl/Admin.antt =====
-- app/modules/firecrawl/admin_service.py, and the queries of repository.py and the schemas of schemas.py that
-- it answers with. A payload has passed its schema; `unset` is a field that it does not have. Rows come newest
-- first in the order that they were written in.
pub mod Overview
pub mod Keys
pub mod Jobs
pub mod Runs
pub mod Logs
use firecrawl_lb.Prelude.{
  ℕ, zero, suc, ◌+◌, String, Bool, true, false, not, ◌&&◌, ◌||◌, Option, none, some, List, [], ◌∷◌,
  ◌++◌, map, keep, count, any, length, if◌then◌else◌,
}
use firecrawl_lb.Prelude.Int.{ℤ, pos, ◌+ℤ◌, is_zero_ℤ}
use firecrawl_lb.Prelude.Text.{str_eq, one_of}
use firecrawl_lb.Firecrawl.Models.{AccountStatus, CredentialStatus}
use firecrawl_lb.Firecrawl.Records.{
  AccountRecord, CredentialRecord, JobRecord, RequestLogRecord, Db, get_account, get_credential,
  change_account, change_credential,
}
use firecrawl_lb.Firecrawl.Repository.{order_by_id, owned_by, or_int}
use mathlib.Core.List.{reverse}

-- The errors of the service, an `IntegrityError` that it lets through, and the `ValidationError` of a
-- response.
pub data AdminAnswer (A : Type 0) : Type 0 where
  ok : A → AdminAnswer A
  account_not_found credential_not_found account_conflict credential_conflict : AdminAnswer A
  integrity_error validation_error : AdminAnswer A

pub record CredentialResponse : Type 0 where
  pub id : String
  pub name : Option String
  pub status : CredentialStatus

pub record AccountResponse : Type 0 where
  pub id : String
  pub team_label : String
  pub plan_type : String
  pub status : AccountStatus
  pub monthly_budget_credits : Option ℤ
  pub remaining_credits_live : Option ℤ
  pub plan_credits_live : Option ℤ
  pub rpm_limit : Option ℤ
  pub max_concurrency : Option ℤ
  pub cooldown_until : Option ℕ
  pub credentials : List CredentialResponse

pub record AccountCreateRequest : Type 0 where
  pub id : String
  pub team_label : String
  pub plan_type : String
  pub monthly_budget_credits : Option ℤ
  pub remaining_credits_live : Option ℤ
  pub plan_credits_live : Option ℤ
  pub rpm_limit : Option ℤ
  pub max_concurrency : Option ℤ

pub data Update (A : Type 0) : Type 0 where
  unset : Update A
  set_null : Update A
  set_to : A → Update A

pub record AccountUpdateRequest : Type 0 where
  pub status : Update AccountStatus
  pub monthly_budget_credits : Update ℤ
  pub remaining_credits_live : Update ℤ
  pub plan_credits_live : Update ℤ
  pub rpm_limit : Update ℤ
  pub max_concurrency : Update ℤ
  pub cooldown_until : Update ℕ

pub record CredentialCreateRequest : Type 0 where
  pub id : String
  pub name : Option String
  pub api_key : String
  pub status : CredentialStatus

abbrev pub credential_response : CredentialRecord → CredentialResponse
credential_response c = record { id = c.id; name = c.name; status = c.status }

-- A new account has not loaded its credentials.
unfoldable pub account_response : List CredentialRecord → AccountRecord → AccountResponse
account_response credentials a = record {
  id = a.id;
  team_label = a.team_label;
  plan_type = a.plan_type;
  status = a.status;
  monthly_budget_credits = a.monthly_budget_credits;
  remaining_credits_live = a.remaining_credits_live;
  plan_credits_live = a.plan_credits_live;
  rpm_limit = a.rpm_limit;
  max_concurrency = a.queue_max_concurrency;
  cooldown_until = a.cooldown_until;
  credentials = map credential_response credentials;
}

abbrev pub loaded_response : Db → AccountRecord → AccountResponse
loaded_response db a = account_response (owned_by a.id db.credentials) a

unfoldable pub list_accounts : Db → List AccountResponse
list_accounts db = map (loaded_response db) (order_by_id db.accounts)

abbrev pub found_account : Db → Option AccountRecord → AdminAnswer AccountResponse
found_account db none = account_not_found
found_account db (some a) = ok (loaded_response db a)

unfoldable pub get_account_response : String → Db → AdminAnswer AccountResponse
get_account_response account_id db = found_account db (get_account account_id db)

abbrev pub new_account : AccountCreateRequest → AccountRecord
new_account payload = record {
  id = payload.id;
  team_label = payload.team_label;
  plan_type = payload.plan_type;
  status = AccountStatus.active;
  monthly_budget_credits = payload.monthly_budget_credits;
  remaining_credits_live = payload.remaining_credits_live;
  plan_credits_live = payload.plan_credits_live;
  rpm_limit = payload.rpm_limit;
  billing_period_start = none;
  billing_period_end = none;
  queue_active_jobs = none;
  queue_waiting_jobs = none;
  queue_max_concurrency = payload.max_concurrency;
  cooldown_until = none;
  last_usage_refresh_at = none;
  last_queue_refresh_at = none;
  last_refresh_error_at = none;
  last_refresh_error_message = none;
}

-- The unique columns of the table: the commit raises for a team label that is there.
abbrev pub has_label : String → AccountRecord → Bool
has_label team_label a = str_eq a.team_label team_label

abbrev pub created :
    AccountCreateRequest → Db → Option AccountRecord → AdminAnswer AccountResponse × Db
created payload db (some existing) = (account_conflict, db)
created payload db none =
    if any (has_label payload.team_label) db.accounts then (account_conflict, db) else (
      ok (account_response [] (new_account payload)),
      record db { accounts = db.accounts ++ new_account payload ∷ [] },
    )

unfoldable pub create_account : AccountCreateRequest → Db → AdminAnswer AccountResponse × Db
create_account payload db = created payload db (get_account payload.id db)

-- `setattr`, for a column that may be null
abbrev pub updated : {A : Type 0} → Update A → Option A → Option A
updated unset old = old
updated set_null old = none
updated (set_to new) old = some new

abbrev pub updated_status : Update AccountStatus → AccountStatus → AccountStatus
updated_status (set_to new) old = new
updated_status _ old = old

unfoldable pub apply_updates : AccountUpdateRequest → AccountRecord → AccountRecord
apply_updates payload a = record a {
  status = updated_status payload.status a.status;
  monthly_budget_credits = updated payload.monthly_budget_credits a.monthly_budget_credits;
  remaining_credits_live = updated payload.remaining_credits_live a.remaining_credits_live;
  plan_credits_live = updated payload.plan_credits_live a.plan_credits_live;
  rpm_limit = updated payload.rpm_limit a.rpm_limit;
  queue_max_concurrency = updated payload.max_concurrency a.queue_max_concurrency;
  cooldown_until = updated payload.cooldown_until a.cooldown_until;
}

-- The status column may not be null.
abbrev pub update_with :
    Update AccountStatus
    → AccountUpdateRequest
    → AccountRecord
    → Db
    → AdminAnswer AccountResponse × Db
update_with set_null payload a db = (integrity_error, db)
update_with _ payload a db = (
  ok (loaded_response db (apply_updates payload a)),
  change_account a.id (apply_updates payload) db,
)

abbrev pub update_found :
    AccountUpdateRequest → Db → Option AccountRecord → AdminAnswer AccountResponse × Db
update_found payload db none = (account_not_found, db)
update_found payload db (some a) = update_with payload.status payload a db

unfoldable pub update_account :
    String → AccountUpdateRequest → Db → AdminAnswer AccountResponse × Db
update_account account_id payload db = update_found payload db (get_account account_id db)

abbrev pub new_credential : String → String → CredentialCreateRequest → CredentialRecord
new_credential account_id api_key_encrypted payload = record {
  id = payload.id;
  account_id = account_id;
  name = payload.name;
  api_key_encrypted = api_key_encrypted;
  status = payload.status;
  last_error_at = none;
  last_error_message = none;
}

module _ (encrypt : String → String) where
  abbrev pub credential_created :
      String
      → CredentialCreateRequest
      → Db
      → Option AccountRecord
      → Option CredentialRecord
      → AdminAnswer CredentialResponse × Db
  credential_created account_id payload db none existing = (account_not_found, db)
  credential_created account_id payload db (some a) (some existing) = (credential_conflict, db)
  credential_created account_id payload db (some a) none =
      let credential = new_credential account_id (encrypt payload.api_key) payload in
      (
        ok (credential_response credential),
        record db { credentials = db.credentials ++ credential ∷ [] },
      )

  unfoldable pub create_credential :
      String → CredentialCreateRequest → Db → AdminAnswer CredentialResponse × Db
  create_credential account_id payload db =
      credential_created account_id payload db (get_account account_id db)
        (get_credential payload.id db)

abbrev pub with_status : CredentialStatus → CredentialRecord → CredentialRecord
with_status status c = record c { status = status }

abbrev pub credential_updated :
    String
    → CredentialStatus
    → Db
    → Option AccountRecord
    → Option CredentialRecord
    → AdminAnswer CredentialResponse × Db
credential_updated account_id status db none c = (account_not_found, db)
credential_updated account_id status db (some a) none = (credential_not_found, db)
credential_updated account_id status db (some a) (some c) =
    if not (str_eq c.account_id account_id) then (credential_not_found, db) else (
      ok (credential_response (with_status status c)),
      change_credential c.id (with_status status) db,
    )

unfoldable pub update_credential :
    String → String → CredentialStatus → Db → AdminAnswer CredentialResponse × Db
update_credential account_id credential_id status db =
    credential_updated account_id status db (get_account account_id db)
      (get_credential credential_id db)
