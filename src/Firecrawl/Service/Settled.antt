-- ===== src/Firecrawl/Service/Settled.antt =====
-- app/modules/firecrawl/service.py: a job that has its final charge, and the requests for it that have read
-- it since.
use firecrawl_lb.Prelude.{
  ℕ, zero, suc, String, ◌≡◌, refl, sym, ◌∙◌, Option, none, some, List, [], ◌∷◌, subst, All,
}
use firecrawl_lb.Prelude.Int.{ℤ}
use firecrawl_lb.Firecrawl.Records.{AccountRecord, JobRecord, CredentialRecord, Db}
use firecrawl_lb.Firecrawl.Client.{UpstreamResponse, Requester}
use firecrawl_lb.Firecrawl.Repository.{Found, get_job_record}
use firecrawl_lb.Firecrawl.Service.{job_request, job_answered, job_credential}
use firecrawl_lb.Firecrawl.Service.Polls.{
  Waiting, Polling, Event, loads, answers, behind, pick, finish, finished, joined, with_loaded_key,
  with_credential, with_job, step, run_events,
}
use firecrawl_lb.Firecrawl.Service.Tracking.{Tracks, Stays, response-Stays}

-- The request read the job with the key `id` when its final charge was `c`.
abbrev pub Settled : ℤ → ℕ → Waiting → Type 0
Settled c id w = (w.job.id ≡ id) × (w.job.credits_used_final ≡ some c)

abbrev Held : (Waiting → Type 0) → Option Waiting → Type 0
Held P none = Unit {0}
Held P (some w) = P w

abbrev Picked : (Waiting → Type 0) → Option (Waiting × List Waiting) → Type 0
Picked P none = Unit {0}
Picked P (some (w, others)) = P w × All P others

behind-Picked :
    (P : Waiting → Type 0) (w : Waiting) (o : Option (Waiting × List Waiting))
    → P w
    → Picked P o
    → Picked P (behind w o)
behind-Picked P w none p h = tt
behind-Picked P w (some (found, others)) p h = (h.0, (p, h.1))

pick-Picked : (P : Waiting → Type 0) (n : ℕ) (ws : List Waiting) → All P ws → Picked P (pick n ws)
pick-Picked P n [] h = tt
pick-Picked P zero (w ∷ ws) h = h
pick-Picked P (suc n) (w ∷ ws) h = behind-Picked P w (pick n ws) h.0 (pick-Picked P n ws h.1)

-- A job that has its final charge, and requests that have read it since.
module _ (endpoint upstream_id : String) (c : ℤ) (id : ℕ) where
  pub record Inv (accounts : List AccountRecord) (s : Polling) : Type 0 where
    pub job : JobRecord
    pub tracks : Tracks endpoint upstream_id s.db job
    pub same : job.id ≡ id
    pub final : job.credits_used_final ≡ some c
    pub unchanged : s.db.accounts ≡ accounts
    pub read_late : All (Settled c id) s.waiting

  answered-Stays :
      (method : String) (job seen : JobRecord) (now : ℕ) (db : Db)
      (response : Option UpstreamResponse)
      → Tracks endpoint upstream_id db job
      → job.credits_used_final ≡ some c
      → seen.id ≡ job.id
      → seen.credits_used_final ≡ some c
      → Stays endpoint upstream_id c job.id db (job_answered method seen now db response).1
  answered-Stays method job seen now db none t final same settled = (job, t, refl, final, refl)
  answered-Stays method job seen now db (some response) t final same settled =
      response-Stays endpoint upstream_id c db job seen t final same settled method response now

  finish-Inv :
      (client : Requester) (now : ℕ) (accounts : List AccountRecord) (db : Db) (w : Waiting)
      (others : List Waiting) (job : JobRecord)
      → Tracks endpoint upstream_id db job
      → job.id ≡ id
      → job.credits_used_final ≡ some c
      → db.accounts ≡ accounts
      → Settled c id w
      → All (Settled c id) others
      → Inv accounts (record { db = finish client now w db; waiting = others })
  finish-Inv client now accounts db w others job t same final unchanged read late =
      let (after, t', same', final', kept) =
        answered-Stays w.method job w.job now db (client (job_request w.method w.path w.api_key)) t
          final (read.0 ∙ sym same) read.1 in
      record {
        job = after;
        tracks = t';
        same = same' ∙ same;
        final = final';
        unchanged = kept ∙ unchanged;
        read_late = late;
      }

  finished-Inv :
      (client : Requester) (now : ℕ) (accounts : List AccountRecord) (s : Polling)
      (o : Option (Waiting × List Waiting))
      → Picked (Settled c id) o
      → Inv accounts s
      → Inv accounts (finished client now o s)
  finished-Inv client now accounts s none p v = v
  finished-Inv client now accounts s (some (w, others)) p v =
      finish-Inv client now accounts s.db w others v.job v.tracks v.same v.final v.unchanged p.0 p.1

  joined-Inv :
      (accounts : List AccountRecord) (s : Polling) (o : Option Waiting)
      → Held (Settled c id) o
      → Inv accounts s
      → Inv accounts (joined o s)
  joined-Inv accounts s none p v = v
  joined-Inv accounts s (some w) p v = record {
    job = v.job;
    tracks = v.tracks;
    same = v.same;
    final = v.final;
    unchanged = v.unchanged;
    read_late = (p, v.read_late);
  }

module _ (decrypt : String → Option String) (endpoint upstream_id : String) (c : ℤ) (id : ℕ) where
  key-Held :
      (method path : String) (job : JobRecord) (key : Option String)
      → job.id ≡ id
      → job.credits_used_final ≡ some c
      → Held (Settled c id) (with_loaded_key method path job key)
  key-Held method path job none same final = tt
  key-Held method path job (some api_key) same final = (same, final)

  credential-Held :
      (method path : String) (job : JobRecord) (credential : Option CredentialRecord)
      → job.id ≡ id
      → job.credits_used_final ≡ some c
      → Held (Settled c id) (with_credential decrypt method path job credential)
  credential-Held method path job none same final = tt
  credential-Held method path job (some credential) same final =
      key-Held method path job (decrypt credential.api_key_encrypted) same final

  step-Inv :
      (accounts : List AccountRecord) (e : Event) (s : Polling)
      → Inv endpoint upstream_id c id accounts s
      → Inv endpoint upstream_id c id accounts (step decrypt endpoint upstream_id e s)
  step-Inv accounts (loads method path) s v =
      joined-Inv endpoint upstream_id c id accounts s
        (with_job decrypt method path s.db (get_job_record endpoint upstream_id s.db))
        (subst (λ (r : Found JobRecord). Held (Settled c id) (with_job decrypt method path s.db r))
          (sym v.tracks.found)
          (credential-Held method path v.job (job_credential v.job s.db) v.same v.final))
        v
  step-Inv accounts (answers n client now) s v =
      finished-Inv endpoint upstream_id c id client now accounts s (pick n s.waiting)
        (pick-Picked (Settled c id) n s.waiting v.read_late) v

  pub run_events-Inv :
      (accounts : List AccountRecord) (es : List Event) (s : Polling)
      → Inv endpoint upstream_id c id accounts s
      → Inv endpoint upstream_id c id accounts (run_events decrypt endpoint upstream_id es s)
  unfolding run_events
  run_events-Inv accounts [] s v = v
  run_events-Inv accounts (e ∷ es) s v =
      run_events-Inv accounts es (step decrypt endpoint upstream_id e s) (step-Inv accounts e s v)
