-- ===== src/Firecrawl/Service/Tracking.antt =====
-- app/modules/firecrawl/service.py and repository.py: a job through later polls, once it has its final
-- charge.
use firecrawl_lb.Prelude.{
  ℕ, String, Bool, true, ◌≡◌, refl, ap, sym, ◌∙◌, Option, none, some, List, [], ◌∷◌, arith,
  Bool-cases, inl, inr, find, find-holds, subst, ◌==◌, ◌&&◌, keep, if_elim,
}
use firecrawl_lb.Prelude.Int.{ℤ}
use firecrawl_lb.Prelude.Text.{str_eq}
use firecrawl_lb.Json.{Fields}
use firecrawl_lb.Firecrawl.Records.{JobRecord, Db, change}
use firecrawl_lb.Firecrawl.Client.{UpstreamResponse}
use firecrawl_lb.Firecrawl.Repository.{
  mark_settled, one, one_or_none, matches, job_is, get_job_record, change_job, settle_job_once,
}
use firecrawl_lb.Firecrawl.Service.Body.{
  credits_used, job_status, is_terminal_job_status, is_success,
}
use firecrawl_lb.Firecrawl.Service.{
  after_job_response, polled, cancelled, poll_update, cancel_update, settle_if,
}

-- The job is the one that a poll loads, by endpoint and upstream id, and the one at its key.
pub record Tracks (endpoint upstream_id : String) (db : Db) (job : JobRecord) : Type 0 where
  pub found : get_job_record endpoint upstream_id db ≡ one job
  pub keyed : find (job_is job) db.jobs ≡ some job

one_or_none-one : {A : Type 0} (xs : List A) {x : A} → one_or_none xs ≡ one x → xs ≡ x ∷ []
one_or_none-one [] h = cc
one_or_none-one (a ∷ []) h = cc
one_or_none-one (a ∷ b ∷ rest) h = cc

keep-holds : {A : Type 0} (p : A → Bool) (xs ys : List A) (x : A) → keep p xs ≡ x ∷ ys → p x ≡ true
keep-holds p [] ys x h = cc
keep-holds p (y ∷ xs) ys x h = ground (arith, keep-holds p xs ys x)

module _ {A : Type 0} (is_it m : A → Bool) (f : A → A) (x : A) where
  keep-change :
      (xs : List A)
      → find is_it xs ≡ some x
      → m x ≡ true
      → m (f x) ≡ true
      → keep m xs ≡ x ∷ []
      → keep m (change is_it f xs) ≡ f x ∷ []
  unfolding change
  keep-change [] found mx mf h = cc
  keep-change (y ∷ ys) found mx mf h = elim (Bool-cases (is_it y)) [
    | inl e ↦ rw e (ground arith)
    | inr e ↦ rw e (ground (arith, keep-change ys, find-holds is_it ys x))
  ]

  find-change :
      (xs : List A)
      → find is_it xs ≡ some x
      → is_it (f x) ≡ true
      → find is_it (change is_it f xs) ≡ some (f x)
  unfolding change
  find-change [] found h = cc
  find-change (y ∷ ys) found h = ground (arith, find-change ys)

-- A change of the tracked job that keeps its keys is tracked.
pub change_job-Tracks :
    (endpoint upstream_id : String) (db : Db) (job : JobRecord) (f : JobRecord → JobRecord)
    → Tracks endpoint upstream_id db job
    → (f job).id ≡ job.id
    → matches endpoint upstream_id (f job) ≡ matches endpoint upstream_id job
    → Tracks endpoint upstream_id (change_job job f db) (f job)
unfolding get_job_record
change_job-Tracks endpoint upstream_id db job f t same_id same_match =
    let m = matches endpoint upstream_id in
    let only = one_or_none-one (keep m db.jobs) t.found in
    let mx = keep-holds m db.jobs [] job only in
    record {
      found =
          ap one_or_none
            (keep-change (job_is job) m f job db.jobs t.keyed mx (same_match ∙ mx) only);
      keyed =
          subst (λ (i : ℕ). find (λ o. o.id == i) (change (job_is job) f db.jobs) ≡ some (f job))
            (sym same_id)
            (find-change (job_is job) m f job db.jobs t.keyed (ground (arith, same_id)));
    }

-- The database still tracks the job with the key `id`, its final charge is `c`, and no account has changed.
abbrev pub Stays : String → String → ℤ → ℕ → Db → Db → Type 0
Stays endpoint upstream_id c id before after =
    (job : JobRecord) × Tracks endpoint upstream_id after job
    × (job.id ≡ id)
    × (job.credits_used_final ≡ some c)
    × (after.accounts ≡ before.accounts)

-- The changes of a job that was read earlier are made to the row with its key.
pub change_seen :
    (seen job : JobRecord) (f : JobRecord → JobRecord) (db : Db)
    → seen.id ≡ job.id
    → change_job seen f db ≡ change_job job f db
change_seen seen job f db same =
    ap (λ (i : ℕ). record db { jobs = change (λ (o : JobRecord). o.id == i) f db.jobs }) same

module _ (endpoint upstream_id : String) (c : ℤ) (db : Db) (job seen : JobRecord)
    (t : Tracks endpoint upstream_id db job) (final : job.credits_used_final ≡ some c)
    (same : seen.id ≡ job.id) where
  -- A change that keeps the keys and the final charge.
  change-Stays :
      (f : JobRecord → JobRecord)
      → (f job).id ≡ job.id
      → matches endpoint upstream_id (f job) ≡ matches endpoint upstream_id job
      → (f job).credits_used_final ≡ job.credits_used_final
      → Stays endpoint upstream_id c job.id db (change_job seen f db)
  change-Stays f same_id same_match same_final =
      subst (Stays endpoint upstream_id c job.id db) (sym (change_seen seen job f db same)) (
        f job,
        change_job-Tracks endpoint upstream_id db job f t same_id same_match,
        same_id,
        same_final ∙ final,
        refl,
      )

  unchanged : Stays endpoint upstream_id c job.id db db
  unchanged = (job, t, refl, final, refl)

  settle-Stays :
      (status : String) (credits : ℤ) (now : ℕ)
      → seen.credits_used_final ≡ some c
      → Stays endpoint upstream_id c job.id db (settle_job_once seen status credits now db)
  unfolding settle_job_once
  settle-Stays status credits now settled =
      rw settled (change-Stays (mark_settled status now) refl refl refl)

  settle_if-Stays :
      (status : Option String) (credits : Option ℤ) (now : ℕ)
      → seen.credits_used_final ≡ some c
      → Stays endpoint upstream_id c job.id db (settle_if status credits seen now db)
  settle_if-Stays none credits now settled = unchanged
  settle_if-Stays (some status) none now settled = unchanged
  settle_if-Stays (some status) (some credits) now settled =
      if_elim (Stays endpoint upstream_id c job.id db) (is_terminal_job_status status)
        (settle-Stays status credits now settled) unchanged

module _ (endpoint upstream_id : String) (c : ℤ) (db : Db) (job seen : JobRecord)
    (t : Tracks endpoint upstream_id db job) (final : job.credits_used_final ≡ some c)
    (same : seen.id ≡ job.id) (settled : seen.credits_used_final ≡ some c) where
  polled-Stays :
      (body : Option Fields) (now : ℕ)
      → Stays endpoint upstream_id c job.id db (polled seen body now db)
  unfolding polled
  polled-Stays body now =
      let f = poll_update (job_status body) now in
      subst
        (λ (d : Db).
          Stays endpoint upstream_id c job.id db
            (settle_if (job_status body) (credits_used body) (f seen) now d))
        (sym (change_seen seen job f db same))
        (settle_if-Stays endpoint upstream_id c (change_job job f db) (f job) (f seen)
          (change_job-Tracks endpoint upstream_id db job f t refl refl) final same (job_status body)
          (credits_used body) now settled)

  cancelled-Stays :
      (body : Option Fields) (now : ℕ)
      → Stays endpoint upstream_id c job.id db (cancelled seen body now db)
  unfolding cancelled
  cancelled-Stays body now =
      change-Stays endpoint upstream_id c db job seen t final same
        (cancel_update (job_status body) now) refl refl refl

  pub response-Stays :
      (method : String) (response : UpstreamResponse) (now : ℕ)
      → Stays endpoint upstream_id c job.id db (after_job_response method seen response now db)
  unfolding after_job_response
  response-Stays method response now =
      if_elim (Stays endpoint upstream_id c job.id db)
        (str_eq method "GET" && is_success response.status) (polled-Stays response.json_body now)
        (if_elim (Stays endpoint upstream_id c job.id db)
          (str_eq method "DELETE" && is_success response.status)
          (cancelled-Stays response.json_body now)
          (unchanged endpoint upstream_id c db job seen t final same))
