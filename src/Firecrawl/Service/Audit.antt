-- ===== src/Firecrawl/Service/Audit.antt =====
-- app/modules/firecrawl/service.py: every answered request is logged once, and every other leaves the
-- database as it was.
use firecrawl_lb.Prelude.{
  ℕ, String, Bool, true, false, ◌≡◌, refl, Option, none, some, List, [], ◌∷◌, ◌++◌, if_elim, ◌==◌,
  ◌&&◌,
}
use firecrawl_lb.Prelude.Int.{ℤ}
use firecrawl_lb.Prelude.Dict.{Dict}
use firecrawl_lb.Json.{Fields}
use firecrawl_lb.Firecrawl.Models.{SelectedAccount}
use firecrawl_lb.Firecrawl.Usage.{estimate_credits}
use firecrawl_lb.Firecrawl.Records.{RequestLogRecord, Db}
use firecrawl_lb.Firecrawl.Routing.{Selection, selected, unavailable, bad_request}
use firecrawl_lb.Firecrawl.Routing.Scores.{Floats}
use firecrawl_lb.Firecrawl.Client.{UpstreamResponse, UpstreamRequest, Requester}
use firecrawl_lb.Firecrawl.Repository.{
  apply_success, mark_credential_invalid, mark_account_credit_exhausted, mark_account_rate_limited,
  record_request, add_job_record,
}
use firecrawl_lb.Firecrawl.Service.Body.{cooldown_until, is_success, upstream_job_id}
use firecrawl_lb.Firecrawl.Service.{
  priced, Outcome, answered, raised, no_account, not_found, Clock, apply_status, record_outcome,
  commit, proxied, submitted, add_submitted, cool_down, proxy, submit_job, run_selected, choice,
  post, v2_path, request_log,
}

abbrev Logged : List RequestLogRecord → Option Db → Type 0
Logged logs none = Unit {0}
Logged logs (some db) = db.logs ≡ logs

cool_down-Logged :
    (id : String) (db : Db) (until : Option ℕ) → Logged db.logs (cool_down id db until)
unfolding mark_account_rate_limited
cool_down-Logged id db none = tt
cool_down-Logged id db (some until) = refl

apply_status-Logged :
    (s : SelectedAccount) (response : UpstreamResponse) (credits : ℤ) (now : ℕ) (settle : Bool)
    (db : Db)
    → Logged db.logs (apply_status s response credits now settle db)
unfolding apply_status apply_success mark_credential_invalid mark_account_credit_exhausted
apply_status-Logged s response credits now settle db =
    let P = Logged db.logs in
    if_elim P (is_success response.status && settle) refl (
      if_elim P (response.status == 401) refl (
        if_elim P (response.status == 402) refl (
          if_elim P (response.status == 429)
            (cool_down-Logged s.account.id db (cooldown_until response.headers now)) refl)))

record_outcome-Logged :
    (s : SelectedAccount) (endpoint : String) (response : UpstreamResponse) (credits : ℤ)
    (clock : Clock) (settle : Bool) (db : Db)
    → Logged
        (db.logs ++ request_log s endpoint response credits clock.latency_ms ∷ [])
        (record_outcome s endpoint response credits clock settle db)
unfolding record_outcome record_request
record_outcome-Logged s endpoint response credits clock settle db =
    apply_status-Logged s response credits clock.now settle (record db {
      logs = db.logs ++ request_log s endpoint response credits clock.latency_ms ∷ [];
    })

add_submitted-Logged :
    (logs : List RequestLogRecord) (s : SelectedAccount) (endpoint : String)
    (response : UpstreamResponse) (id : Option String) (after : Option Db)
    → Logged logs after
    → Logged logs (add_submitted s endpoint response id after)
unfolding add_job_record
add_submitted-Logged logs s endpoint response none after h = h
add_submitted-Logged logs s endpoint response (some id) none h = h
add_submitted-Logged logs s endpoint response (some id) (some db) h =
    if_elim (λ (d : Db). d.logs ≡ logs) (is_success response.status) h h

-- What an outcome says of the database: an answer was given by the upstream to the selected account
-- and is logged, with the figure of its own estimate; anything else has changed nothing.
abbrev pub Audited :
    (SelectedAccount → UpstreamRequest)
    → Requester
    → Selection
    → String
    → Fields
    → Clock
    → Db
    → Outcome × Db
    → Type 0
Audited request client choice endpoint payload clock before (answered r, after) =
    (s : SelectedAccount) × (credits : ℤ) × (choice ≡ selected s)
    × (client (request s) ≡ some r)
    × (estimate_credits endpoint payload r.json_body ≡ some credits)
    × (after.logs ≡ before.logs ++ request_log s endpoint r credits clock.latency_ms ∷ [])
Audited request client choice endpoint payload clock before (no_account e rejections, after) =
    after ≡ before
Audited request client choice endpoint payload clock before (not_found, after) = after ≡ before
Audited request client choice endpoint payload clock before (raised, after) = after ≡ before

module _ (request : SelectedAccount → UpstreamRequest) (client : Requester) (endpoint : String)
    (payload : Fields) (clock : Clock) (db : Db) where
  abbrev IsAudited : Selection → Outcome × Db → Type 0
  IsAudited choice = Audited request client choice endpoint payload clock db

  commit-Audited :
      (s : SelectedAccount) (r : UpstreamResponse) (credits : ℤ) (after : Option Db)
      → client (request s) ≡ some r
      → estimate_credits endpoint payload r.json_body ≡ some credits
      → Logged (db.logs ++ request_log s endpoint r credits clock.latency_ms ∷ []) after
      → IsAudited (selected s) (commit r db after)
  commit-Audited s r credits none sent priced_at h = refl
  commit-Audited s r credits (some after) sent priced_at h = (s, credits, refl, sent, priced_at, h)

  priced-Audited :
      (s : SelectedAccount) (r : UpstreamResponse) (finish : ℤ → Option Db)
      → client (request s) ≡ some r
      → ((credits : ℤ)
          → Logged
              (db.logs ++ request_log s endpoint r credits clock.latency_ms ∷ [])
              (finish credits))
      → IsAudited (selected s) (
          priced db
            (estimate_credits endpoint payload r.json_body)
            (λ credits. commit r db (finish credits)))
  priced-Audited s r finish sent h = go (estimate_credits endpoint payload r.json_body) refl
    where
      go :
          (o : Option ℤ)
          → estimate_credits endpoint payload r.json_body ≡ o
          → IsAudited (selected s) (priced db o (λ credits. commit r db (finish credits)))
      go none e = refl
      go (some credits) e = commit-Audited s r credits (finish credits) sent e (h credits)

  proxied-Audited :
      (s : SelectedAccount) (o : Option UpstreamResponse)
      → client (request s) ≡ o
      → IsAudited (selected s) (proxied s endpoint payload clock db o)
  proxied-Audited s none sent = refl
  proxied-Audited s (some r) sent =
      priced-Audited s r (λ credits. record_outcome s endpoint r credits clock true db) sent
        (λ credits. record_outcome-Logged s endpoint r credits clock true db)

  submitted-Audited :
      (s : SelectedAccount) (o : Option UpstreamResponse)
      → client (request s) ≡ o
      → IsAudited (selected s) (submitted s endpoint payload clock db o)
  submitted-Audited s none sent = refl
  submitted-Audited s (some r) sent =
      priced-Audited s r
        (λ credits.
          add_submitted s endpoint r (upstream_job_id r.json_body)
            (record_outcome s endpoint r credits clock false db))
        sent
        (λ credits.
          add_submitted-Logged _ s endpoint r (upstream_job_id r.json_body) _
            (record_outcome-Logged s endpoint r credits clock false db))

  run_selected-Audited :
      (choice : Selection) (f : SelectedAccount → Outcome × Db)
      → ((s : SelectedAccount) → IsAudited (selected s) (f s))
      → IsAudited choice (run_selected db choice f)
  unfolding run_selected
  run_selected-Audited (selected s) f h = h s
  run_selected-Audited (unavailable e rejections) f h = refl
  run_selected-Audited bad_request f h = refl

module _ (fl : Floats) (decrypt : String → Option String) (endpoint : String) (payload : Fields)
    (params : Dict String) (client : Requester) (clock : Clock) (db : Db) where
  -- A proxied request either answers, with the response of the upstream to the account that the
  -- router chose, and appends exactly one log of it, or it leaves the whole database as it was.
  pub proxy-Audited :
      Audited
        (post (v2_path endpoint) payload params)
        client
        (choice fl decrypt endpoint payload clock db)
        endpoint
        payload
        clock
        db
        (proxy fl decrypt endpoint payload params client clock db)
  unfolding proxy
  proxy-Audited =
      let request = post (v2_path endpoint) payload params in
      run_selected-Audited request client endpoint payload clock db
        (choice fl decrypt endpoint payload clock db)
        (λ s. proxied s endpoint payload clock db (client (request s)))
        (λ s. proxied-Audited request client endpoint payload clock db s (client (request s)) refl)

  -- A submitted job either answers, with the response of the upstream to the account that the router
  -- chose, and appends exactly one log of it, or it leaves the whole database as it was.
  pub submit_job-Audited :
      (path : String)
      → Audited
          (post path payload params)
          client
          (choice fl decrypt endpoint payload clock db)
          endpoint
          payload
          clock
          db
          (submit_job fl decrypt endpoint path payload params client clock db)
  unfolding submit_job
  submit_job-Audited path =
      let request = post path payload params in
      run_selected-Audited request client endpoint payload clock db
        (choice fl decrypt endpoint payload clock db)
        (λ s. submitted s endpoint payload clock db (client (request s)))
        (λ s.
          submitted-Audited request client endpoint payload clock db s (client (request s)) refl)
