-- ===== src/Tests/Service.antt =====
-- The service at a database of one account, one credential and one job.
use firecrawl_lb.Prelude.{List, ◌≡◌, refl, none, some, [], ◌∷◌, In, inl, arith}
use firecrawl_lb.Prelude.Int.{pos, ltb_ℤ, ◌+ℤ◌}
use firecrawl_lb.Prelude.Text.{int_of_str, lower}
use firecrawl_lb.Firecrawl.Models.{SelectedAccount, active, rate_limited}
use firecrawl_lb.Firecrawl.Records.{AccountRecord}
use firecrawl_lb.Firecrawl.Client.{UpstreamResponse, Requester}
use firecrawl_lb.Firecrawl.Repository.{domain_account, list_accounts, get_job_record}
use firecrawl_lb.Firecrawl.Routing.{
  selected, select_account, file_account, rejection_reason, active_credential, rpm_limit,
  concurrency_limit, max_candidate,
}
use firecrawl_lb.Firecrawl.Routing.Team.{build_team_usage}
use firecrawl_lb.Firecrawl.Usage.{response_credits_used, estimate_credits}
use firecrawl_lb.Firecrawl.Service.{
  proxy, submit_job, credits_used, choice, raised, post, v2_path, Clock, select_from,
  cooldown_seconds, job_status, is_terminal_job_status,
}
use firecrawl_lb.Firecrawl.Service.Agreement.{credits_used-response_credits_used}
use firecrawl_lb.Firecrawl.Service.Audit.{Audited, proxy-Audited, submit_job-Audited}
use firecrawl_lb.Firecrawl.Service.Solvency.{AllSolvent, requests_keep_solvent}
use firecrawl_lb.Firecrawl.Service.Cooldown.{proxies, serve_all, serve_all-inactive}
use firecrawl_lb.Firecrawl.Service.Overflow.{proxy_overflow}
use firecrawl_lb.Firecrawl.Service.Tracking.{Tracks}
use firecrawl_lb.Firecrawl.Service.Settlement.{Final, charged_once, charged_twice}
use firecrawl_lb.Firecrawl.Service.Polls.{Waiting, Event, loads, answers, run_events}
use firecrawl_lb.Firecrawl.Service.Payments.{Charges}
use firecrawl_lb.Tests.Fixtures.{
  toy_floats, key_one, scrape, stored, crawl_job, database, plain, answer, always, clock,
  charged_seven,
}

credits_used-response_credits_used_example :
    credits_used (some charged_seven) ≡ response_credits_used (some charged_seven)
credits_used-response_credits_used_example =
    credits_used-response_credits_used charged_seven (λ b e. cc)

proxy-Audited_example :
    Audited
      (post (v2_path "scrape") scrape [])
      (always (answer 200 charged_seven))
      (choice toy_floats plain "scrape" scrape clock (database active))
      "scrape"
      scrape
      clock
      (database active)
      (proxy toy_floats plain "scrape" scrape []
        (always (answer 200 charged_seven))
        clock
        (database active))
proxy-Audited_example =
    proxy-Audited toy_floats plain "scrape" scrape [] (always (answer 200 charged_seven)) clock
      (database active)

submit_job-Audited_example :
    Audited
      (post "/v2/crawl" scrape [])
      (always (answer 200 charged_seven))
      (choice toy_floats plain "crawl" scrape clock (database active))
      "crawl"
      scrape
      clock
      (database active)
      (submit_job toy_floats plain "crawl" "/v2/crawl" scrape []
        (always (answer 200 charged_seven))
        clock
        (database active))
submit_job-Audited_example =
    submit_job-Audited toy_floats plain "crawl" scrape [] (always (answer 200 charged_seven)) clock
      (database active) "/v2/crawl"

requests_keep_solvent_example :
    AllSolvent
      (proxy toy_floats plain "scrape" scrape []
        (always (answer 200 charged_seven))
        clock
        (database active)).1.accounts
    × AllSolvent
        (submit_job toy_floats plain "scrape" "/v2/crawl" scrape []
          (always (answer 200 charged_seven))
          clock
          (database active)).1.accounts
requests_keep_solvent_example =
    requests_keep_solvent toy_floats plain "scrape" "/v2/crawl" scrape []
      (always (answer 200 charged_seven)) clock (database active) (tt, tt)

-- A year later.
abbrev much_later : Clock
much_later = record { selection_time = 31536000000000; latency_ms = 1; now = 31536000000001 }

serve_all-inactive_example :
    In
      (stored rate_limited 90)
      (serve_all toy_floats plain
        (proxies "scrape" scrape [] (always (answer 200 charged_seven)) much_later ∷ [])
        (database rate_limited)).accounts
serve_all-inactive_example =
    serve_all-inactive toy_floats plain (stored rate_limited 90)
      (proxies "scrape" scrape [] (always (answer 200 charged_seven)) much_later ∷ [])
      (database rate_limited) refl (λ h. h, tt) (inl refl)

abbrev endless_pause : UpstreamResponse
endless_pause = record {
  status = 429;
  headers = ("retry-after", "999999999999") ∷ [];
  json_body = none;
  text_body = none;
}

abbrev only_choice : SelectedAccount
only_choice = record {
  account = domain_account (stored active 90) (key_one ∷ []);
  credential = key_one;
  estimated_credits = pos 1;
}

only_choice-selected :
    choice toy_floats plain "scrape" scrape clock (database active) ≡ selected only_choice
unfolding select_from list_accounts select_account estimate_credits file_account rejection_reason
    ltb_ℤ active_credential rpm_limit ◌+ℤ◌ concurrency_limit build_team_usage max_candidate
only_choice-selected = refl

proxy_overflow_example :
    proxy toy_floats plain "scrape" scrape [] (always endless_pause) clock (database active)
    ≡ (raised, database active)
unfolding cooldown_seconds int_of_str
proxy_overflow_example =
    proxy_overflow toy_floats plain "scrape" scrape [] (always endless_pause) clock
      (database active) only_choice endless_pause only_choice-selected refl refl (omega arith)

crawl_job-Tracks : Tracks "crawl" "job-1" (database active) crawl_job
unfolding get_job_record
crawl_job-Tracks = record { found = refl; keyed = refl }

abbrev first_poll : Waiting
first_poll = record { method = "GET"; path = "/v2/crawl/job-1"; api_key = "fc-1"; job = crawl_job }

abbrev charged_answer : Requester
charged_answer = always (answer 200 charged_seven)

first_poll-Final : Final "a1" (pos 7) charged_answer first_poll
unfolding job_status is_terminal_job_status lower credits_used
first_poll-Final = record {
  response = answer 200 charged_seven;
  status = "completed";
  is_get = refl;
  unsettled = refl;
  owned = refl;
  answered = refl;
  success = refl;
  has_status = refl;
  terminal = refl;
  has_credits = refl;
}

-- Two more requests come, and are answered in the other order.
abbrev overlapping : List Event
overlapping =
    loads "GET" "/v2/crawl/job-1"
    ∷ loads "GET" "/v2/crawl/job-1"
    ∷ answers 1 charged_answer 9
    ∷ answers 0 charged_answer 12
    ∷ []

charged_once_example :
    Charges "a1"
      (pos 7)
      (stored active 90 ∷ [])
      (run_events plain "crawl" "job-1"
        (answers 0 charged_answer 5 ∷ overlapping)
        (record { db = database active; waiting = first_poll ∷ [] })).db.accounts
charged_once_example =
    charged_once plain "crawl" "job-1" "a1" (pos 7) (database active) crawl_job first_poll
      charged_answer 5 overlapping crawl_job-Tracks refl first_poll-Final

charged_twice_example :
    (accounts : List AccountRecord) × Charges "a1" (pos 7) (stored active 90 ∷ []) accounts
    × Charges "a1"
        (pos 7)
        accounts
        (run_events plain "crawl" "job-1"
          (answers 0 charged_answer 5 ∷ answers 0 charged_answer 9 ∷ [])
          (record { db = database active; waiting = first_poll ∷ first_poll ∷ [] })).db.accounts
charged_twice_example =
    charged_twice plain "crawl" "job-1" "a1" (pos 7) (pos 7) (database active) first_poll first_poll
      charged_answer charged_answer 5 9 first_poll-Final first_poll-Final
