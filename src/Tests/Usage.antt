-- ===== src/Tests/Usage.antt =====
-- The credit estimates at concrete requests.
use firecrawl_lb.Prelude.{◌≡◌, refl, String}
use firecrawl_lb.Json.{Fields, nil, cons, end, field, str, arr}
use firecrawl_lb.Firecrawl.Usage.{estimate_scrape_credits}

abbrev costly : Fields
costly =
    field "formats" (arr (cons (str "json") (cons (str "screenshot") nil)))
      (field "actions" (arr (cons (str "click") nil)) end)

costly-price : estimate_scrape_credits costly ≡ 4
unfolding estimate_scrape_credits
costly-price = refl

abbrev crawl : String
crawl = "crawl"

abbrev bad_limit : Fields
bad_limit = field "limit" (str "many") end
