-- ===== src/Firecrawl/Usage/Bounds.antt =====
-- app/modules/firecrawl/usage.py: bounds on estimates, and when the upstream's figure is taken.
use firecrawl_lb.Prelude.{
  ℕ, ◌≤◌, max, String, ◌≡◌, refl, ◌⊎◌, inl, inr, Option, none, some, arith, count-le-length,
}
use firecrawl_lb.Prelude.Int.{ℤ, pos, negsuc, ◌≤ℤ◌}
use firecrawl_lb.Prelude.Text.{one_of, eq_iff, int_of_str}
use firecrawl_lb.Json.{Fields, Value, null, boolean, int, real, str, arr, obj, get}
use firecrawl_lb.Firecrawl.Usage.{
  expensive_scrape_formats, estimate_scrape_credits, normalized_scrape_formats, map_limit,
  source_count, estimate_credits, request_estimate, response_credits_used, search_credits,
  int_value,
}

-- The price of a scrape lies between 1 and 10, whatever the client puts in its payload.
pub estimate_scrape_credits_bounds :
    (payload : Fields)
    → (1 ≤ estimate_scrape_credits payload) × (estimate_scrape_credits payload ≤ 10)
unfolding estimate_scrape_credits
estimate_scrape_credits_bounds payload = ground (
  arith,
  count-le-length (λ e. one_of e (normalized_scrape_formats (get "formats" payload)))
      expensive_scrape_formats,
)

sources_at_least_one : (v : Value) → 1 ≤ source_count v
unfolding source_count
sources_at_least_one (arr sources) = omega arith
sources_at_least_one _ = omega arith

search_credits_pos : (limit : ℕ) (payload : Fields) → 1 ≤ limit → 1 ≤ search_credits limit payload
unfolding search_credits
search_credits_pos limit payload h = grind (arith, sources_at_least_one (get "sources" payload))

map_limit_pos :
    (limit : Option ℤ) (f : ℕ → ℕ) (z : ℤ)
    → ((n : ℕ) → 1 ≤ n → 1 ≤ f n)
    → map_limit limit f ≡ some z
    → pos 1 ≤ℤ z
map_limit_pos none f z h e = cc
map_limit_pos (some (pos n)) f z h e = ground (arith, h (max 1 n))
map_limit_pos (some (negsuc n)) f z h e = ground (arith, h 1)

-- Every estimate made from a request that does not raise is at least one credit.
pub request_estimate_pos :
    (endpoint : String) (payload : Fields) {z : ℤ}
    → request_estimate endpoint payload ≡ some z
    → pos 1 ≤ℤ z
unfolding request_estimate
request_estimate_pos endpoint payload {z} e = ground (
  arith,
  estimate_scrape_credits_bounds payload,
  map_limit_pos (int_value (get "limit" payload) (pos 10))
      (λ (limit : ℕ). search_credits limit payload) z
      (λ (n : ℕ) (h : 1 ≤ n). search_credits_pos n payload h),
  map_limit_pos (int_value (get "limit" payload) (pos 1)) (λ (limit : ℕ). limit) z
      (λ (n : ℕ) (h : 1 ≤ n). h),
)

int_value_fails :
    (v : Value) (default : ℤ)
    → int_value v default ≡ none
    → (s : String) × (v ≡ str s) × (int_of_str s ≡ none)
unfolding int_value
int_value_fails (str s) default e = (s, refl, e)
int_value_fails (int i) default e = cc
int_value_fails null default e = cc
int_value_fails (boolean b) default e = cc
int_value_fails (real i whole) default e = cc
int_value_fails (arr items) default e = cc
int_value_fails (obj fields) default e = cc

map_limit_fails : (limit : Option ℤ) (f : ℕ → ℕ) → map_limit limit f ≡ none → limit ≡ none
map_limit_fails none f e = refl
map_limit_fails (some z) f e = cc

-- The two endpoints that read a limit.
raised_by :
    (endpoint : String) (payload : Fields)
    → request_estimate endpoint payload ≡ none
    → ((endpoint ≡ "search") × (int_value (get "limit" payload) (pos 10) ≡ none))
      ⊎ ((endpoint ≡ "crawl") × (int_value (get "limit" payload) (pos 1) ≡ none))
unfolding request_estimate
raised_by endpoint payload e = ground (
  arith,
  eq_iff endpoint "search",
  eq_iff endpoint "crawl",
  map_limit_fails (int_value (get "limit" payload) (pos 10))
      (λ (limit : ℕ). search_credits limit payload),
  map_limit_fails (int_value (get "limit" payload) (pos 1)) (λ (limit : ℕ). limit),
)

-- An estimate raises only when the upstream has reported no figure and the request is a search or a
-- crawl whose `limit` is a text that is no integer.
pub estimate_credits_raises :
    (endpoint : String) (payload : Fields) (response : Option Fields)
    → estimate_credits endpoint payload response ≡ none
    → (response_credits_used response ≡ none)
      × ((endpoint ≡ "search") ⊎ (endpoint ≡ "crawl"))
      × ((s : String) × (get "limit" payload ≡ str s) × (int_of_str s ≡ none))
unfolding estimate_credits
estimate_credits_raises endpoint payload response e =
    elim (raised_by endpoint payload (ground arith)) [
      | inl (p, q) ↦ (ground arith, inl p, int_value_fails (get "limit" payload) (pos 10) q)
      | inr (p, q) ↦ (ground arith, inr p, int_value_fails (get "limit" payload) (pos 1) q)
    ]
