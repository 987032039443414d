-- ===== src/Firecrawl/Service/Body.antt =====
-- app/modules/firecrawl/service.py: what is read from the upstream's status, headers and body.
use firecrawl_lb.Prelude.{
  ℕ, ◌+◌, ◌*◌, ◌==◌, ltb, leb, String, Bool, true, false, ◌&&◌, Option, none, some, List, [], ◌∷◌,
  if◌then◌else◌, any,
}
use firecrawl_lb.Prelude.Int.{ℤ, at_least}
use firecrawl_lb.Prelude.Text.{codes, lower, is_empty, int_of_str}
use firecrawl_lb.Prelude.Dict.{Dict, lookup}
use firecrawl_lb.Json.{Value, boolean, int, str, obj, Fields, get, str_of}

-- `200 <= status < 300`
abbrev pub is_success : ℕ → Bool
is_success status = leb 200 status && ltb status 300

unfoldable pub request_status : ℕ → String
request_status upstream_status =
    if is_success upstream_status
    then "success"
    else if upstream_status == 401
    then "credential_invalid"
    else if upstream_status == 402
    then "credit_exhausted"
    else if upstream_status == 429
    then "rate_limited"
    else "error"

-- `first or second`, for two optional texts
abbrev pub first_truthy : Option String → Option String → Option String
first_truthy none second = second
first_truthy (some first) second = if is_empty first then second else some first

abbrev micros_per_second : ℕ
micros_per_second = 1000000

-- The last instant of the year 9999, in microseconds of the epoch: `datetime.max`.
abbrev pub max_instant : ℕ
max_instant = 253402300799999999

abbrev pub default_cooldown_seconds : ℕ
default_cooldown_seconds = 60

-- `now + timedelta(seconds=seconds)`; `none` is the `OverflowError`.
unfoldable pub later : ℕ → ℕ → Option ℕ
later now seconds =
    let until = now + seconds * micros_per_second in
    if leb until max_instant then some until else none

abbrev retry_seconds : Option ℤ → ℕ
retry_seconds none = default_cooldown_seconds
retry_seconds (some seconds) = at_least 0 seconds

abbrev header_seconds : Option String → ℕ
header_seconds none = default_cooldown_seconds
header_seconds (some raw_retry_after) = retry_seconds (int_of_str raw_retry_after)

unfoldable pub cooldown_seconds : Dict String → ℕ
cooldown_seconds headers =
    header_seconds (first_truthy (lookup "retry-after" headers) (lookup "Retry-After" headers))

unfoldable pub cooldown_until : Dict String → ℕ → Option ℕ
cooldown_until headers now = later now (cooldown_seconds headers)

error_text : Value → Option String
error_text (str message) = some message
error_text (obj nested_error) = str_of (get "message" nested_error)
error_text _ = none

unfoldable pub error_message : Option Fields → Option String → Option String
unfolding error_text
error_message none text_body = text_body
error_message (some json_body) text_body = error_text (get "error" json_body)

abbrev or_text : Option String → Option String → Option String
or_text (some s) other = some s
or_text none other = other

abbrev nested_text : String → Value → Option String
nested_text key (obj fields) = str_of (get key fields)
nested_text key _ = none

unfoldable pub upstream_job_id : Option Fields → Option String
upstream_job_id none = none
upstream_job_id (some json_body) =
    or_text (str_of (get "id" json_body))
      (or_text (str_of (get "jobId" json_body)) (nested_text "id" (get "data" json_body)))

unfoldable pub job_status : Option Fields → Option String
job_status none = none
job_status (some json_body) =
    or_text (str_of (get "status" json_body)) (nested_text "status" (get "data" json_body))

unfoldable pub int_not_bool : Value → Option ℤ
int_not_bool (int i) = some i
int_not_bool _ = none

unfoldable pub nested_credits : Value → Option ℤ
unfolding int_not_bool
nested_credits (obj fields) = int_not_bool (get "creditsUsed" fields)
nested_credits _ = none

-- A boolean at the top ends the search; any other value that is no integer does not.
unfoldable pub credits_at : Value → Value → Option ℤ
unfolding nested_credits
credits_at (boolean b) nested = none
credits_at (int i) nested = some i
credits_at _ nested = nested_credits nested

unfoldable pub credits_used : Option Fields → Option ℤ
unfolding credits_at
credits_used none = none
credits_used (some json_body) = credits_at (get "creditsUsed" json_body) (get "data" json_body)

abbrev pub same_codes : List ℕ → List ℕ → Bool
same_codes [] [] = true
same_codes (x ∷ xs) (y ∷ ys) = x == y && same_codes xs ys
same_codes _ _ = false

abbrev terminal_job_statuses : List String
terminal_job_statuses =
    "completed" ∷ "complete" ∷ "finished" ∷ "failed" ∷ "cancelled" ∷ "canceled" ∷ []

unfoldable pub is_terminal_job_status : String → Bool
is_terminal_job_status status = any (λ t. same_codes (lower status) (codes t)) terminal_job_statuses
