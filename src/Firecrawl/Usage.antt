-- ===== src/Firecrawl/Usage.antt =====
-- app/modules/firecrawl/usage.py: what a request is expected to cost, and what it did cost.
-- A `ValueError` of `int` is `none`. The quotient `limit / 10`, a float in the source, is exact
-- here, as it is there below 2 ^ 53.
pub mod Bounds
use firecrawl_lb.Prelude.{
  ℕ, ◌+◌, ◌*◌, ◌/◌, max, String, Bool, true, false, ◌||◌, Option, none, some, List, [], ◌∷◌, count,
  if◌then◌else◌,
}
use firecrawl_lb.Prelude.Int.{ℤ, pos, at_least}
use firecrawl_lb.Prelude.Text.{str_eq, one_of, int_of_str}
use firecrawl_lb.Json.{
  Value, null, boolean, int, real, str, arr, obj, Items, nil, cons, Fields, get, len, truthy,
}

abbrev pub expensive_scrape_formats : List String
expensive_scrape_formats =
    "json" ∷ "summary" ∷ "screenshot" ∷ "audio" ∷ "video" ∷ "question" ∷ "highlights" ∷ []

abbrev pub plain_int : Value → Option ℤ
plain_int (int i) = some i
plain_int _ = none

unfoldable pub nested_credits_used : Value → Option ℤ
nested_credits_used (obj data_fields) = plain_int (get "creditsUsed" data_fields)
nested_credits_used _ = none

abbrev pub or_else : Option ℤ → Option ℤ → Option ℤ
or_else (some i) other = some i
or_else none other = other

unfoldable pub response_credits_used : Option Fields → Option ℤ
unfolding nested_credits_used
response_credits_used none = none
response_credits_used (some response_json) =
    or_else (plain_int (get "creditsUsed" response_json))
      (nested_credits_used (get "data" response_json))

int_value : Value → ℤ → Option ℤ
int_value (int i) default = some i
int_value (str s) default = int_of_str s
int_value _ default = some default

-- A set of texts is a list without repetition.
abbrev add_format : String → List String → List String
add_format s set = if one_of s set then set else s ∷ set

abbrev add_typed : Value → List String → List String
add_typed (str s) set = add_format s set
add_typed _ set = set

add_item : Value → List String → List String
add_item (str s) set = add_format s set
add_item (obj item) set = add_typed (get "type" item) set
add_item _ set = set

unfoldable pub normalized_items : Items → List String → List String
unfolding add_item
normalized_items nil set = set
normalized_items (cons v vs) set = normalized_items vs (add_item v set)

abbrev or_markdown : List String → List String
or_markdown [] = "markdown" ∷ []
or_markdown (s ∷ set) = s ∷ set

normalized_scrape_formats : Value → List String
unfolding normalized_items
normalized_scrape_formats (arr items) = or_markdown (normalized_items items [])
normalized_scrape_formats _ = "markdown" ∷ []

-- `len(formats & _EXPENSIVE_SCRAPE_FORMATS)`
expensive_count : List String → ℕ
expensive_count formats = count (λ e. one_of e formats) expensive_scrape_formats

abbrev one_if : Bool → ℕ
one_if true = 1
one_if false = 0

unfoldable pub estimate_scrape_credits : Fields → ℕ
unfolding normalized_scrape_formats expensive_count
estimate_scrape_credits payload =
    1
    + expensive_count (normalized_scrape_formats (get "formats" payload))
    + one_if (truthy (get "onlyCleanContent" payload))
    + one_if (truthy (get "actions" payload))

estimate_search_scrape_reservation : ℕ → Fields → ℕ
estimate_search_scrape_reservation limit scrape_options =
    limit * estimate_scrape_credits scrape_options

source_count : Value → ℕ
source_count (arr sources) = max 1 (len sources)
source_count _ = 1

scrape_reservation : ℕ → Value → ℕ
unfolding estimate_search_scrape_reservation
scrape_reservation limit (obj scrape_options) =
    estimate_search_scrape_reservation limit scrape_options
scrape_reservation limit _ = 0

-- The price of a search whose limit is already at least 1.
search_credits : ℕ → Fields → ℕ
unfolding source_count scrape_reservation
search_credits limit payload =
    2 * ((limit + 9) / 10) * source_count (get "sources" payload)
    + scrape_reservation limit (get "scrapeOptions" payload)

abbrev map_limit : Option ℤ → (ℕ → ℕ) → Option ℤ
map_limit none f = none
map_limit (some limit) f = some (pos (f (at_least 1 limit)))

estimate_search_credits : Fields → Option ℤ
unfolding int_value search_credits
estimate_search_credits payload =
    map_limit (int_value (get "limit" payload) (pos 10)) (λ limit. search_credits limit payload)

url_count : Value → ℕ
url_count (arr urls) = len urls
url_count _ = 0

-- The estimate from the request alone.
unfoldable pub request_estimate : String → Fields → Option ℤ
unfolding estimate_scrape_credits estimate_search_credits int_value url_count
request_estimate endpoint payload =
    if str_eq endpoint "scrape"
    then some (pos (estimate_scrape_credits payload))
    else if str_eq endpoint "map"
    then some (pos 1)
    else if str_eq endpoint "search"
    then estimate_search_credits payload
    else if str_eq endpoint "crawl"
    then map_limit (int_value (get "limit" payload) (pos 1)) (λ limit. limit)
    else if str_eq endpoint "batch_scrape"
    then some (pos (max 1 (url_count (get "urls" payload))))
    else some (pos 1)

unfoldable pub estimate_credits : String → Fields → Option Fields → Option ℤ
unfolding request_estimate response_credits_used
estimate_credits endpoint payload response_json = elim (response_credits_used response_json) [
  | some credits ↦ some credits
  | none ↦ request_estimate endpoint payload
]
