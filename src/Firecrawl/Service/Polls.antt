-- ===== src/Firecrawl/Service/Polls.antt =====
-- app/modules/firecrawl/service.py: `proxy_job_operation` in its two parts, up to the request to the
-- upstream and after it, and requests for one job that overlap there.
use firecrawl_lb.Prelude.{ℕ, zero, suc, String, ◌≡◌, refl, Option, none, some, List, [], ◌∷◌}
use firecrawl_lb.Firecrawl.Records.{JobRecord, CredentialRecord, Db}
use firecrawl_lb.Firecrawl.Client.{Requester}
use firecrawl_lb.Firecrawl.Repository.{Found, missing, several, one, get_job_record}
use firecrawl_lb.Firecrawl.Service.{
  proxy_job_operation, send_job_request, with_key, run_job, job_request, job_answered,
  job_credential,
}

-- A request that waits for the upstream, with the job as it was read.
pub record Waiting : Type 0 where
  pub method : String
  pub path : String
  pub api_key : String
  pub job : JobRecord

-- The database, and the requests for the job that wait, the last first.
pub record Polling : Type 0 where
  pub db : Db
  pub waiting : List Waiting

-- A request arrives, or the upstream answers the waiting request at a place of the list.
pub data Event : Type 0 where
  loads : String → String → Event
  answers : ℕ → Requester → ℕ → Event

abbrev pub behind : Waiting → Option (Waiting × List Waiting) → Option (Waiting × List Waiting)
behind w none = none
behind w (some (found, others)) = some (found, w ∷ others)

abbrev pub pick : ℕ → List Waiting → Option (Waiting × List Waiting)
pick n [] = none
pick zero (w ∷ ws) = some (w, ws)
pick (suc n) (w ∷ ws) = behind w (pick n ws)

-- What follows the request to the upstream.
abbrev pub finish : Requester → ℕ → Waiting → Db → Db
finish client now w db =
    (job_answered w.method w.job now db (client (job_request w.method w.path w.api_key))).1

abbrev pub finished : Requester → ℕ → Option (Waiting × List Waiting) → Polling → Polling
finished client now none s = s
finished client now (some (w, others)) s = record {
  db = finish client now w s.db;
  waiting = others;
}

abbrev pub joined : Option Waiting → Polling → Polling
joined none s = s
joined (some w) s = record s { waiting = w ∷ s.waiting }

abbrev pub with_loaded_key : String → String → JobRecord → Option String → Option Waiting
with_loaded_key method path job none = none
with_loaded_key method path job (some api_key) =
    some (record { method = method; path = path; api_key = api_key; job = job })

module _ (decrypt : String → Option String) where
  abbrev pub with_credential :
      String → String → JobRecord → Option CredentialRecord → Option Waiting
  with_credential method path job none = none
  with_credential method path job (some credential) =
      with_loaded_key method path job (decrypt credential.api_key_encrypted)

  abbrev pub with_job : String → String → Db → Found JobRecord → Option Waiting
  with_job method path db missing = none
  with_job method path db several = none
  with_job method path db (one job) = with_credential method path job (job_credential job db)

  module _ (endpoint upstream_id : String) where
    abbrev pub step : Event → Polling → Polling
    step (loads method path) s =
        joined (with_job method path s.db (get_job_record endpoint upstream_id s.db)) s
    step (answers n client now) s = finished client now (pick n s.waiting) s

    unfoldable pub run_events : List Event → Polling → Polling
    run_events [] s = s
    run_events (e ∷ es) s = run_events es (step e s)

    -- A request that no other one overlaps.
    pub run_events-alone :
        (method path : String) (client : Requester) (now : ℕ) (db : Db)
        → (run_events
            (loads method path ∷ answers 0 client now ∷ [])
            (record { db = db; waiting = [] })).db
          ≡ (proxy_job_operation decrypt endpoint path upstream_id method client now db).1
    unfolding run_events proxy_job_operation
    run_events-alone method path client now db = found (get_job_record endpoint upstream_id db)
      where
        keyed :
            (job : JobRecord) (key : Option String)
            → (step (answers 0 client now) (
                joined (with_loaded_key method path job key) (record { db = db; waiting = [] }))).db
              ≡ (with_key method path client job now db key).1
        keyed job none = refl
        keyed job (some api_key) = refl

        credited :
            (job : JobRecord) (credential : Option CredentialRecord)
            → (step (answers 0 client now) (
                joined
                  (with_credential method path job credential)
                  (record { db = db; waiting = [] }))).db
              ≡ (send_job_request decrypt method path client job now db credential).1
        credited job none = refl
        credited job (some credential) = keyed job (decrypt credential.api_key_encrypted)

        found :
            (r : Found JobRecord)
            → (step
                (answers 0 client now)
                (joined (with_job method path db r) (record { db = db; waiting = [] }))).db
              ≡ (run_job decrypt method path client now db r).1
        found missing = refl
        found several = refl
        found (one job) = credited job (job_credential job db)
