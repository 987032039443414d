-- ===== src/Firecrawl/Admin/Runs.antt =====
-- app/modules/firecrawl: everything that writes to the account table, one after the other.
use firecrawl_lb.Prelude.{
  ℕ, String, not, Option, none, some, List, [], ◌∷◌, ◌≡◌, refl, sym, subst, if_elim,
}
use firecrawl_lb.Prelude.Text.{str_eq}
use firecrawl_lb.Firecrawl.Models.{CredentialStatus}
use firecrawl_lb.Firecrawl.Records.{
  AccountRecord, CredentialRecord, Db, get_account, get_credential, change_account,
}
use firecrawl_lb.Firecrawl.Repository.{get_job_record, order_by_id}
use firecrawl_lb.Firecrawl.Routing.Scores.{Floats}
use firecrawl_lb.Firecrawl.Client.{Requester}
use firecrawl_lb.Firecrawl.Service.{proxy_job_operation}
use firecrawl_lb.Firecrawl.Service.Outcomes.{proxy-keeps, submit_job-keeps}
use firecrawl_lb.Firecrawl.Service.Cooldown.{ClientRequest, proxies, submits, serve}
use firecrawl_lb.Firecrawl.Refresh.{
  RefreshLibrary, refresh_account, go_on, refresh_each, refresh_once,
}
use firecrawl_lb.Firecrawl.Refresh.Pass.{Keeps, refresh_account-Keeps}
use firecrawl_lb.Firecrawl.Admin.{
  AdminAnswer, AccountCreateRequest, AccountUpdateRequest, CredentialCreateRequest,
  CredentialResponse, create_account, update_account, create_credential, credential_created,
  update_credential, credential_updated,
}
use firecrawl_lb.Firecrawl.Admin.Jobs.{run-IsKeyed}
use firecrawl_lb.Firecrawl.Admin.Keys.{
  IsKeyed, IsKeyed-Kept, change-IsKeyed, created-IsKeyed, update_found-IsKeyed,
}

-- The accounts after a pass that may raise.
abbrev pub Passed : Option Db → Type 0
Passed none = Unit
Passed (some db) = IsKeyed db.accounts

abbrev pub or_unchanged : Db → Option Db → Db
or_unchanged db none = db
or_unchanged db (some after) = after

Passed-IsKeyed :
    (db : Db) (after : Option Db)
    → IsKeyed db.accounts
    → Passed after
    → IsKeyed (or_unchanged db after).accounts
Passed-IsKeyed db none h p = h
Passed-IsKeyed db (some after) h p = p

module _ (lib : RefreshLibrary) (client : Requester) (now : ℕ) where
  go_on-Passed :
      (id : String) (o : Option (AccountRecord → AccountRecord)) (rest : Db → Option Db) (db : Db)
      → Keeps o
      → ((later : Db) → IsKeyed later.accounts → Passed (rest later))
      → IsKeyed db.accounts
      → Passed (go_on lib id o rest db)
  go_on-Passed id none rest db keeps next h = tt
  go_on-Passed id (some f) rest db keeps next h =
      next (change_account id f db) (change-IsKeyed id f db.accounts keeps h)

  each-Passed :
      (accounts : List AccountRecord) (db : Db)
      → IsKeyed db.accounts
      → Passed (refresh_each lib client now accounts db)
  unfolding refresh_each
  each-Passed [] db h = h
  each-Passed (a ∷ accounts) db h =
      go_on-Passed a.id (refresh_account lib client now db.credentials a.id)
        (refresh_each lib client now accounts) db
        (refresh_account-Keeps lib client now db.credentials a.id) (each-Passed accounts) h

-- Everything that writes to the tables: the administrators, the clients, and a pass of the refresh.
pub data Operation : Type 0 where
  creates_account : AccountCreateRequest → Operation
  updates_account : String → AccountUpdateRequest → Operation
  creates_credential : String → CredentialCreateRequest → Operation
  updates_credential : String → String → CredentialStatus → Operation
  serves : ClientRequest → Operation
  operates_job : String → String → String → String → Requester → ℕ → Operation
  refreshes : Requester → ℕ → Operation

abbrev pub empty_db : Db
empty_db = record { accounts = []; credentials = []; jobs = []; logs = []; next_job = 1 }

module _ (fl : Floats) (encrypt : String → String) (lib : RefreshLibrary) where
  abbrev pub operate : Operation → Db → Db
  operate (creates_account payload) db = (create_account payload db).1
  operate (updates_account id payload) db = (update_account id payload db).1
  operate (creates_credential id payload) db = (create_credential encrypt id payload db).1
  operate (updates_credential id credential status) db =
      (update_credential id credential status db).1
  operate (serves request) db = serve fl lib.decrypt request db
  operate (operates_job endpoint path id method client now) db =
      (proxy_job_operation lib.decrypt endpoint path id method client now db).1
  operate (refreshes client now) db = or_unchanged db (refresh_once lib client now db)

  unfoldable pub operate_all : List Operation → Db → Db
  operate_all [] db = db
  operate_all (o ∷ os) db = operate_all os (operate o db)

  credential_created-accounts :
      (id : String) (payload : CredentialCreateRequest) (db : Db) (a : Option AccountRecord)
      (c : Option CredentialRecord)
      → (credential_created encrypt id payload db a c).1.accounts ≡ db.accounts
  credential_created-accounts id payload db none c = refl
  credential_created-accounts id payload db (some a) (some c) = refl
  credential_created-accounts id payload db (some a) none = refl

  credential_updated-accounts :
      (id : String) (status : CredentialStatus) (db : Db) (a : Option AccountRecord)
      (c : Option CredentialRecord)
      → (credential_updated id status db a c).1.accounts ≡ db.accounts
  credential_updated-accounts id status db none c = refl
  credential_updated-accounts id status db (some a) none = refl
  credential_updated-accounts id status db (some a) (some c) =
      if_elim (λ (r : AdminAnswer CredentialResponse × Db). r.1.accounts ≡ db.accounts)
        (not (str_eq c.account_id id)) refl refl

  serve-IsKeyed :
      (r : ClientRequest) (db : Db)
      → IsKeyed db.accounts
      → IsKeyed (serve fl lib.decrypt r db).accounts
  serve-IsKeyed (proxies endpoint payload params client clock) db =
      proxy-keeps IsKeyed fl lib.decrypt endpoint payload params client clock db
        (λ s e. IsKeyed-Kept s.account.id)
  serve-IsKeyed (submits endpoint path payload params client clock) db =
      submit_job-keeps IsKeyed fl lib.decrypt endpoint payload params client clock db
        (λ s e. IsKeyed-Kept s.account.id) path

  operate-IsKeyed :
      (o : Operation) (db : Db) → IsKeyed db.accounts → IsKeyed (operate o db).accounts
  unfolding create_account update_account create_credential update_credential proxy_job_operation
      refresh_once
  operate-IsKeyed (creates_account payload) db h = created-IsKeyed payload db _ refl h
  operate-IsKeyed (updates_account id payload) db h = update_found-IsKeyed payload db _ h
  operate-IsKeyed (creates_credential id payload) db h =
      subst IsKeyed
        (sym (
          credential_created-accounts id payload db (get_account id db)
            (get_credential payload.id db)))
        h
  operate-IsKeyed (updates_credential id credential status) db h =
      subst IsKeyed
        (sym (
          credential_updated-accounts id status db (get_account id db)
            (get_credential credential db)))
        h
  operate-IsKeyed (serves request) db h = serve-IsKeyed request db h
  operate-IsKeyed (operates_job endpoint path id method client now) db h =
      run-IsKeyed lib.decrypt method path client now db (get_job_record endpoint id db) h
  operate-IsKeyed (refreshes client now) db h =
      Passed-IsKeyed db _ h (each-Passed lib client now (order_by_id db.accounts) db h)

  all-IsKeyed :
      (operations : List Operation) (db : Db)
      → IsKeyed db.accounts
      → IsKeyed (operate_all operations db).accounts
  unfolding operate_all
  all-IsKeyed [] db h = h
  all-IsKeyed (o ∷ os) db h = all-IsKeyed os (operate o db) (operate-IsKeyed o db h)

  -- From an empty database on, the accounts have distinct ids, whatever the administrators create and change, the
  -- clients request and poll, and the refresh learns, in whatever order.
  pub operate_all-IsKeyed :
      (operations : List Operation) → IsKeyed (operate_all operations empty_db).accounts
  operate_all-IsKeyed operations = all-IsKeyed operations empty_db tt
