-- ===== src/Firecrawl/Service/Outcomes.antt =====
-- app/modules/firecrawl/service.py: what a proxied request or a submitted job leaves behind.
use firecrawl_lb.Prelude.{
  ℕ, String, Bool, true, false, ◌≡◌, refl, Option, none, some, List, [], ◌∷◌, ◌++◌, if_elim, ◌==◌,
  ◌&&◌,
}
use firecrawl_lb.Prelude.Int.{ℤ}
use firecrawl_lb.Prelude.Dict.{Dict}
use firecrawl_lb.Json.{Fields}
use firecrawl_lb.Firecrawl.Models.{SelectedAccount, rate_limited, credit_exhausted}
use firecrawl_lb.Firecrawl.Usage.{estimate_credits}
use firecrawl_lb.Firecrawl.Records.{AccountRecord, Db, change, account_is}
use firecrawl_lb.Firecrawl.Routing.{Selection, selected, unavailable, bad_request}
use firecrawl_lb.Firecrawl.Routing.Scores.{Floats}
use firecrawl_lb.Firecrawl.Client.{UpstreamResponse, Requester}
use firecrawl_lb.Firecrawl.Repository.{
  charge, apply_success, mark_credential_invalid, mark_account_credit_exhausted,
  mark_account_rate_limited, record_request, add_job_record,
}
use firecrawl_lb.Firecrawl.Service.Body.{cooldown_until, is_success, upstream_job_id}
use firecrawl_lb.Firecrawl.Service.{
  priced, Outcome, Clock, apply_status, record_outcome, commit, proxied, submitted, add_submitted,
  cool_down, proxy, submit_job, run_selected, choice, post, v2_path, request_log,
}

-- A property of the account table that each update of the account `id` keeps.
pub record Kept (Q : List AccountRecord → Type 0) (id : String) : Type 0 where
  pub charged : (c : ℤ) (xs : List AccountRecord) → Q xs → Q (change (account_is id) (charge c) xs)
  pub exhausted :
      (xs : List AccountRecord)
      → Q xs
      → Q (change (account_is id) (λ a. record a { status = credit_exhausted }) xs)
  pub limited :
      (until : ℕ) (xs : List AccountRecord)
      → Q xs
      → Q (
          change
            (account_is id)
            (λ a. record a { status = rate_limited; cooldown_until = some until })
            xs)

-- It holds after the request if the request succeeds at all.
abbrev Later : (List AccountRecord → Type 0) → Option Db → Type 0
Later Q none = Unit {0}
Later Q (some db) = Q db.accounts

module _ (Q : List AccountRecord → Type 0) where
  cool_down-Later :
      (id : String) (db : Db) (until : Option ℕ)
      → Kept Q id
      → Q db.accounts
      → Later Q (cool_down id db until)
  unfolding mark_account_rate_limited
  cool_down-Later id db none kept h = tt
  cool_down-Later id db (some until) kept h = kept.limited until db.accounts h

  apply_status-Later :
      (s : SelectedAccount) (response : UpstreamResponse) (credits : ℤ) (now : ℕ) (settle : Bool)
      (db : Db)
      → Kept Q s.account.id
      → Q db.accounts
      → Later Q (apply_status s response credits now settle db)
  unfolding apply_status apply_success mark_credential_invalid mark_account_credit_exhausted
  apply_status-Later s response credits now settle db kept h =
      if_elim (Later Q) (is_success response.status && settle) (kept.charged credits db.accounts h)
        (if_elim (Later Q) (response.status == 401) h (
          if_elim (Later Q) (response.status == 402) (kept.exhausted db.accounts h) (
            if_elim (Later Q) (response.status == 429)
              (cool_down-Later s.account.id db (cooldown_until response.headers now) kept h) h)))

  commit-Later :
      (response : UpstreamResponse) (db : Db) (after : Option Db)
      → Q db.accounts
      → Later Q after
      → Q (commit response db after).1.accounts
  commit-Later response db none h k = h
  commit-Later response db (some after) h k = k

  record_outcome-Later :
      (s : SelectedAccount) (endpoint : String) (response : UpstreamResponse) (credits : ℤ)
      (clock : Clock) (settle : Bool) (db : Db)
      → Kept Q s.account.id
      → Q db.accounts
      → Later Q (record_outcome s endpoint response credits clock settle db)
  unfolding record_outcome record_request
  record_outcome-Later s endpoint response credits clock settle db kept h =
      apply_status-Later s response credits clock.now settle
        (record db {
          logs = db.logs ++ request_log s endpoint response credits clock.latency_ms ∷ [];
        })
        kept h

  add_submitted-Later :
      (s : SelectedAccount) (endpoint : String) (response : UpstreamResponse) (id : Option String)
      (after : Option Db)
      → Later Q after
      → Later Q (add_submitted s endpoint response id after)
  unfolding add_job_record
  add_submitted-Later s endpoint response none after h = h
  add_submitted-Later s endpoint response (some id) none h = h
  add_submitted-Later s endpoint response (some id) (some db) h =
      if_elim (λ (d : Db). Q d.accounts) (is_success response.status) h h

  priced-Later :
      (response : UpstreamResponse) (db : Db) (o : Option ℤ) (finish : ℤ → Option Db)
      → Q db.accounts
      → ((credits : ℤ) → Later Q (finish credits))
      → Q (priced db o (λ credits. commit response db (finish credits))).1.accounts
  priced-Later response db none finish h k = h
  priced-Later response db (some credits) finish h k =
      commit-Later response db (finish credits) h (k credits)

  pub proxied-keeps :
      (s : SelectedAccount) (endpoint : String) (payload : Fields) (clock : Clock) (db : Db)
      (response : Option UpstreamResponse)
      → Kept Q s.account.id
      → Q db.accounts
      → Q (proxied s endpoint payload clock db response).1.accounts
  proxied-keeps s endpoint payload clock db none kept h = h
  proxied-keeps s endpoint payload clock db (some response) kept h =
      priced-Later response db (estimate_credits endpoint payload response.json_body)
        (λ credits. record_outcome s endpoint response credits clock true db) h
        (λ credits. record_outcome-Later s endpoint response credits clock true db kept h)

  pub submitted-keeps :
      (s : SelectedAccount) (endpoint : String) (payload : Fields) (clock : Clock) (db : Db)
      (response : Option UpstreamResponse)
      → Kept Q s.account.id
      → Q db.accounts
      → Q (submitted s endpoint payload clock db response).1.accounts
  submitted-keeps s endpoint payload clock db none kept h = h
  submitted-keeps s endpoint payload clock db (some response) kept h =
      priced-Later response db (estimate_credits endpoint payload response.json_body)
        (λ credits.
          add_submitted s endpoint response (upstream_job_id response.json_body)
            (record_outcome s endpoint response credits clock false db))
        h
        (λ credits.
          add_submitted-Later s endpoint response (upstream_job_id response.json_body) _
            (record_outcome-Later s endpoint response credits clock false db kept h))

  run_selected-keeps :
      (db : Db) (choice : Selection) (f : SelectedAccount → Outcome × Db)
      → Q db.accounts
      → ((s : SelectedAccount) → choice ≡ selected s → Q (f s).1.accounts)
      → Q (run_selected db choice f).1.accounts
  unfolding run_selected
  run_selected-keeps db (selected s) f h k = k s refl
  run_selected-keeps db (unavailable endpoint rejections) f h k = h
  run_selected-keeps db bad_request f h k = h

  module _ (fl : Floats) (decrypt : String → Option String) (endpoint : String) (payload : Fields)
      (params : Dict String) (client : Requester) (clock : Clock) (db : Db)
      (kept : (s : SelectedAccount)
        → choice fl decrypt endpoint payload clock db ≡ selected s
        → Kept Q s.account.id) where
    pub proxy-keeps :
        Q db.accounts → Q (proxy fl decrypt endpoint payload params client clock db).1.accounts
    unfolding proxy
    proxy-keeps h =
        run_selected-keeps db (choice fl decrypt endpoint payload clock db)
          (λ s.
            proxied s endpoint payload clock db (client (post (v2_path endpoint) payload params s)))
          h
          (λ s e.
            proxied-keeps s endpoint payload clock db
              (client (post (v2_path endpoint) payload params s)) (kept s e) h)

    pub submit_job-keeps :
        (path : String)
        → Q db.accounts
        → Q (submit_job fl decrypt endpoint path payload params client clock db).1.accounts
    unfolding submit_job
    submit_job-keeps path h =
        run_selected-keeps db (choice fl decrypt endpoint payload clock db)
          (λ s. submitted s endpoint payload clock db (client (post path payload params s))) h
          (λ s e.
            submitted-keeps s endpoint payload clock db (client (post path payload params s))
              (kept s e) h)
