-- ===== src/Firecrawl/Service/Settlement.antt =====
-- app/modules/firecrawl/service.py: a job is charged once by requests that read it after its
-- settlement, and once more by each that read it before.
use firecrawl_lb.Prelude.{
  ℕ, String, Bool, true, ◌≡◌, refl, ap, sym, ◌∙◌, Option, none, some, List, [], ◌∷◌, subst,
  if◌then◌else◌,
}
use firecrawl_lb.Prelude.Int.{ℤ}
use firecrawl_lb.Firecrawl.Records.{AccountRecord, JobRecord, Db, change, account_is}
use firecrawl_lb.Firecrawl.Client.{UpstreamResponse, Requester}
use firecrawl_lb.Firecrawl.Repository.{
  mark_settled, get_job_record, change_job, settle_job_once, charge, apply_success,
}
use firecrawl_lb.Firecrawl.Service.Body.{
  credits_used, job_status, is_terminal_job_status, is_success,
}
use firecrawl_lb.Firecrawl.Service.{
  job_request, job_answered, after_job_response, polled, poll_update, settle_if,
}
use firecrawl_lb.Firecrawl.Service.Polls.{Waiting, Event, answers, finish, run_events}
use firecrawl_lb.Firecrawl.Service.Payments.{Charges, change-Charges}
use firecrawl_lb.Firecrawl.Service.Tracking.{Tracks, change_job-Tracks, change_seen}
use firecrawl_lb.Firecrawl.Service.Settled.{run_events-Inv}

-- What a request that reads the job before its settlement does when it is answered.
module _ (key : String) (c : ℤ) where
  settle_job_once-accounts :
      (seen : JobRecord) (status : String) (now : ℕ) (db : Db)
      → seen.credits_used_final ≡ none
      → seen.account_id ≡ some key
      → (settle_job_once seen status c now db).accounts
        ≡ change (account_is key) (charge c) db.accounts
  unfolding settle_job_once apply_success
  settle_job_once-accounts seen status now db unsettled owned = rw (unsettled, owned) refl

  -- The answer to a GET is a success with a terminal status and the figure `c`.
  pub record Final (client : Requester) (w : Waiting) : Type 0 where
    pub response : UpstreamResponse
    pub status : String
    pub is_get : w.method ≡ "GET"
    pub unsettled : w.job.credits_used_final ≡ none
    pub owned : w.job.account_id ≡ some key
    pub answered : client (job_request w.method w.path w.api_key) ≡ some response
    pub success : is_success response.status ≡ true
    pub has_status : job_status response.json_body ≡ some status
    pub terminal : is_terminal_job_status status ≡ true
    pub has_credits : credits_used response.json_body ≡ some c

  finish-settled :
      (client : Requester) (now : ℕ) (w : Waiting) (db : Db) (f : Final client w)
      → finish client now w db
        ≡ settle_job_once
            (poll_update (some f.status) now w.job)
            f.status
            c
            now
            (change_job w.job (poll_update (some f.status) now) db)
  unfolding after_job_response polled
  finish-settled client now w db f =
      let body = f.response.json_body in
      let seen = poll_update (some f.status) now w.job in
      let d = change_job w.job (poll_update (some f.status) now) db in
      ap (λ (r : Option UpstreamResponse). (job_answered w.method w.job now db r).1) f.answered
      ∙ (ap (λ (m : String). after_job_response m w.job f.response now db) f.is_get
          ∙ (ap (λ (b : Bool). if b then polled w.job body now db else db) f.success
              ∙ (ap
                    (λ (o : Option String).
                      settle_if o (credits_used body) (poll_update o now w.job) now
                        (change_job w.job (poll_update o now) db))
                    f.has_status
                  ∙ (ap (λ (k : Option ℤ). settle_if (some f.status) k seen now d) f.has_credits
                      ∙ ap (λ (b : Bool). if b then settle_job_once seen f.status c now d else d)
                          f.terminal))))

  finish-accounts :
      (client : Requester) (now : ℕ) (w : Waiting) (db : Db)
      → Final client w
      → (finish client now w db).accounts ≡ change (account_is key) (charge c) db.accounts
  finish-accounts client now w db f =
      ap (λ (d : Db). d.accounts) (finish-settled client now w db f)
      ∙ settle_job_once-accounts (poll_update (some f.status) now w.job) f.status now
          (change_job w.job (poll_update (some f.status) now) db) f.unsettled f.owned

  finish-Charges :
      (client : Requester) (now : ℕ) (w : Waiting) (db : Db)
      → Final client w
      → Charges key c db.accounts (finish client now w db).accounts
  finish-Charges client now w db f =
      subst (Charges key c db.accounts) (sym (finish-accounts client now w db f))
        (change-Charges key c db.accounts)

  module _ (endpoint upstream_id : String) where
    settle_job_once-Inv :
        (db : Db) (job seen : JobRecord) (status : String) (now : ℕ)
        → Tracks endpoint upstream_id db job
        → seen.id ≡ job.id
        → seen.credits_used_final ≡ none
        → seen.account_id ≡ some key
        → (after : JobRecord) × Tracks endpoint upstream_id
            (settle_job_once seen status c now db)
            after
          × (after.id ≡ job.id)
          × (after.credits_used_final ≡ some c)
    unfolding settle_job_once apply_success get_job_record
    settle_job_once-Inv db job seen status now t same unsettled owned =
        let f = mark_settled status now in
        let g = λ (j : JobRecord). record j { credits_used_final = some c } in
        let tracked =
          change_job-Tracks endpoint upstream_id (change_job job f db) (f job) g
            (change_job-Tracks endpoint upstream_id db job f t refl refl) refl refl in
        rw (unsettled, owned, same)
          (g (f job), record { found = tracked.found; keyed = tracked.keyed }, refl, refl)

    finish-Tracks :
        (client : Requester) (now : ℕ) (w : Waiting) (db : Db) (job : JobRecord)
        → Final client w
        → Tracks endpoint upstream_id db job
        → w.job.id ≡ job.id
        → (after : JobRecord) × Tracks endpoint upstream_id (finish client now w db) after
          × (after.id ≡ job.id)
          × (after.credits_used_final ≡ some c)
    finish-Tracks client now w db job f t same =
        let g = poll_update (some f.status) now in
        rw (finish-settled client now w db f, change_seen w.job job g db same)
          (settle_job_once-Inv (change_job job g db) (g job) (g w.job) f.status now
            (change_job-Tracks endpoint upstream_id db job g t refl refl) same f.unsettled f.owned)

module _ (decrypt : String → Option String) (endpoint upstream_id key : String) (c : ℤ) where
  -- A GET for a job has read the job without a final charge and with its account, and the upstream
  -- answers it with success, a terminal status and a figure, when the job is still the only one with its
  -- endpoint, upstream id and key and no other request for it waits. Then the account, if it is stored, pays
  -- that figure: its credits, if they are known, are less by it, as far as there are as many, and it serves
  -- again if it was limited. Nothing else changes in the accounts, and no later requests for the job,
  -- however they overlap and whatever the upstream answers, change any account again.
  pub charged_once :
      (db : Db) (job : JobRecord) (w : Waiting) (client : Requester) (now : ℕ) (later : List Event)
      → Tracks endpoint upstream_id db job
      → w.job.id ≡ job.id
      → Final key c client w
      → Charges key c db.accounts
          (run_events decrypt endpoint upstream_id
            (answers 0 client now ∷ later)
            (record { db = db; waiting = w ∷ [] })).db.accounts
  unfolding run_events
  charged_once db job w client now later t same f =
      let (after, t', same', final) =
        finish-Tracks key c endpoint upstream_id client now w db job f t same in
      let v =
        run_events-Inv decrypt endpoint upstream_id c job.id (finish client now w db).accounts later
          (record { db = finish client now w db; waiting = [] })
          (record {
            job = after;
            tracks = t';
            same = same';
            final = final;
            unchanged = refl;
            read_late = tt;
          }) in
      subst (Charges key c db.accounts) (sym v.unchanged) (finish-Charges key c client now w db f)

  -- Two GETs have read a job before either was answered, without a final charge and with its account. When
  -- the upstream answers both with success, a terminal status and a figure, the account pays both figures.
  pub charged_twice :
      (d : ℤ) (db : Db) (w v : Waiting) (client other : Requester) (now moment : ℕ)
      → Final key c client w
      → Final key d other v
      → (accounts : List AccountRecord) × Charges key c db.accounts accounts
        × Charges key d accounts
            (run_events decrypt endpoint upstream_id
              (answers 0 client now ∷ answers 0 other moment ∷ [])
              (record { db = db; waiting = w ∷ v ∷ [] })).db.accounts
  unfolding run_events
  charged_twice d db w v client other now moment f g = (
    (finish client now w db).accounts,
    finish-Charges key c client now w db f,
    finish-Charges key d other moment v (finish client now w db) g,
  )
