-- ===== src/Firecrawl/Service/Agreement.antt =====
-- app/modules/firecrawl/service.py and usage.py: the two readings of `creditsUsed`, and the two
-- estimates of one request.
use firecrawl_lb.Prelude.{String, Bool, ◌≡◌, ◌≢◌, refl, Option, none, some, arith}
use firecrawl_lb.Prelude.Int.{ℤ}
use firecrawl_lb.Json.{Value, null, boolean, int, real, str, arr, obj, Fields, get}
use firecrawl_lb.Firecrawl.Usage.{
  estimate_credits, response_credits_used, nested_credits_used, plain_int, or_else,
}
use firecrawl_lb.Firecrawl.Service.Body.{credits_used, credits_at, nested_credits, int_not_bool}

int_not_bool-plain_int : (v : Value) → int_not_bool v ≡ plain_int v
unfolding int_not_bool
int_not_bool-plain_int (int i) = refl
int_not_bool-plain_int _ = refl

nested-nested : (v : Value) → nested_credits v ≡ nested_credits_used v
unfolding nested_credits nested_credits_used
nested-nested (obj fields) = int_not_bool-plain_int (get "creditsUsed" fields)
nested-nested _ = refl

credits_at-or_else :
    (v nested : Value)
    → ((b : Bool) → v ≢ boolean b)
    → credits_at v nested ≡ or_else (plain_int v) (nested_credits_used nested)
unfolding credits_at
credits_at-or_else (boolean b) nested h = absurd (h b refl)
credits_at-or_else (int i) nested h = refl
credits_at-or_else null nested h = nested-nested nested
credits_at-or_else (real i whole) nested h = nested-nested nested
credits_at-or_else (str s) nested h = nested-nested nested
credits_at-or_else (arr items) nested h = nested-nested nested
credits_at-or_else (obj fields) nested h = nested-nested nested

-- The settlement of jobs and the accounting of requests read the same figure from a body, unless its
-- top-level `creditsUsed` is a boolean.
pub credits_used-response_credits_used :
    (body : Fields)
    → ((b : Bool) → get "creditsUsed" body ≢ boolean b)
    → credits_used (some body) ≡ response_credits_used (some body)
unfolding credits_used response_credits_used
credits_used-response_credits_used body h =
    credits_at-or_else (get "creditsUsed" body) (get "data" body) h

-- Once a request has been priced, the accounting of its response cannot raise: what the upstream has
-- charged is always recorded.
pub estimate_credits-total :
    (endpoint : String) (payload : Fields) (response : Option Fields) {estimated : ℤ}
    → estimate_credits endpoint payload none ≡ some estimated
    → estimate_credits endpoint payload response ≢ none
unfolding estimate_credits
estimate_credits-total endpoint payload response h = ground arith
