-- ===== src/Firecrawl/Service/Overflow.antt =====
-- app/modules/firecrawl/service.py, `_cooldown_until`: a `Retry-After` beyond the calendar.
use firecrawl_lb.Prelude.{
  ℕ, ◌+◌, ◌*◌, ◌<◌, String, Bool, true, ◌≡◌, refl, ap, ◌∙◌, Option, none, some, arith,
}
use firecrawl_lb.Prelude.Int.{ℤ}
use firecrawl_lb.Prelude.Dict.{Dict}
use firecrawl_lb.Json.{Fields}
use firecrawl_lb.Firecrawl.Models.{SelectedAccount}
use firecrawl_lb.Firecrawl.Usage.{estimate_credits}
use firecrawl_lb.Firecrawl.Records.{Db}
use firecrawl_lb.Firecrawl.Routing.{Selection, selected}
use firecrawl_lb.Firecrawl.Routing.Scores.{Floats}
use firecrawl_lb.Firecrawl.Client.{UpstreamResponse, Requester}
use firecrawl_lb.Firecrawl.Service.Body.{cooldown_until, cooldown_seconds, later, max_instant}
use firecrawl_lb.Firecrawl.Service.{
  priced, raised, Clock, apply_status, record_outcome, commit, proxied, proxy, run_selected, choice,
  post, v2_path,
}

apply_status-overflow :
    (s : SelectedAccount) (response : UpstreamResponse) (credits : ℤ) (now : ℕ) (settle : Bool)
    (db : Db)
    → response.status ≡ 429
    → cooldown_until response.headers now ≡ none
    → apply_status s response credits now settle db ≡ none
unfolding apply_status
apply_status-overflow s response credits now settle db limited over = ground arith

priced-raised :
    (response : UpstreamResponse) (db : Db) (o : Option ℤ) (finish : ℤ → Option Db)
    → ((credits : ℤ) → finish credits ≡ none)
    → priced db o (λ credits. commit response db (finish credits)) ≡ (raised, db)
priced-raised response db none finish h = refl
priced-raised response db (some credits) finish h = ap (commit response db) (h credits)

module _ (fl : Floats) (decrypt : String → Option String) where
  -- When the upstream answers the chosen account with a 429 and a pause that ends after the year
  -- 9999, the proxied request raises: the client loses the answer and the database stays as it was,
  -- with no log and the account as it stands.
  pub proxy_overflow :
      (endpoint : String) (payload : Fields) (params : Dict String) (client : Requester)
      (clock : Clock) (db : Db) (s : SelectedAccount) (response : UpstreamResponse)
      → choice fl decrypt endpoint payload clock db ≡ selected s
      → client (post (v2_path endpoint) payload params s) ≡ some response
      → response.status ≡ 429
      → max_instant < clock.now + cooldown_seconds response.headers * 1000000
      → proxy fl decrypt endpoint payload params client clock db ≡ (raised, db)
  unfolding proxy run_selected record_outcome cooldown_until later
  proxy_overflow endpoint payload params client clock db s response chosen answers limited over =
      let f = λ (p : SelectedAccount).
        proxied p endpoint payload clock db (client (post (v2_path endpoint) payload params p)) in
      ap (λ (c : Selection). run_selected db c f) chosen
      ∙ (ap (λ (o : Option UpstreamResponse). proxied s endpoint payload clock db o) answers
          ∙ priced-raised response db (estimate_credits endpoint payload response.json_body)
              (λ credits. record_outcome s endpoint response credits clock true db)
              (λ credits.
                apply_status-overflow s response credits clock.now true _ limited (ground arith)))
