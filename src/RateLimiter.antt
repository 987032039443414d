-- ===== src/RateLimiter.antt =====
-- app/core/rate_limiter/db_rate_limiter.py. The table is the list of attempts; an instant is a number
-- of microseconds. On both databases the count and the insert are one atomic step (an advisory lock,
-- or one statement), so each method is one function of the table. `now` is read once per call.
pub mod Limit
pub mod RetryAfter
use firecrawl_lb.Prelude.{
  ℕ, ◌+◌, ◌-◌, ◌*◌, ◌/◌, ltb, leb, ◌==◌, max, not, String, Bool, true, false, ◌&&◌, ◌||◌, Option,
  none, some, List, [], ◌∷◌, ◌++◌, count, keep, if◌then◌else◌,
}
use firecrawl_lb.Prelude.Text.{str_eq}

pub record RateLimitAttempt : Type 0 where
  pub key : String
  pub type_name : String
  pub attempted_at : ℕ

pub record DatabaseRateLimiter : Type 0 where
  pub max_attempts : ℕ
  pub window_seconds : ℕ
  pub type_name : String

-- `__init__`; `none` is a `ValueError`.
unfoldable pub new_limiter : ℕ → ℕ → String → Option DatabaseRateLimiter
new_limiter max_attempts window_seconds type_name =
    if max_attempts == 0
    then none
    else if window_seconds == 0
    then none
    else some (record {
      max_attempts = max_attempts;
      window_seconds = window_seconds;
      type_name = type_name;
    })

abbrev pub micros : ℕ → ℕ
micros seconds = seconds * 1000000

-- The row belongs to the key and to this limiter.
abbrev pub owns : DatabaseRateLimiter → String → RateLimitAttempt → Bool
owns l key a = str_eq a.key key && str_eq a.type_name l.type_name

-- `attempted_at >= now - window`, as a sum
abbrev pub recent : DatabaseRateLimiter → ℕ → RateLimitAttempt → Bool
recent l now a = leb now (a.attempted_at + micros l.window_seconds)

abbrev pub in_window : DatabaseRateLimiter → String → ℕ → RateLimitAttempt → Bool
in_window l key now a = owns l key a && recent l now a

-- `SELECT count(*) … WHERE …`
abbrev pub attempts_in : DatabaseRateLimiter → String → ℕ → List RateLimitAttempt → ℕ
attempts_in l key now table = count (in_window l key now) table

abbrev earlier : ℕ → Option ℕ → Option ℕ
earlier at none = some at
earlier at (some other) = if ltb other at then some other else some at

-- `SELECT attempted_at … ORDER BY attempted_at ASC LIMIT 1`
unfoldable pub oldest : (RateLimitAttempt → Bool) → List RateLimitAttempt → Option ℕ
oldest test [] = none
oldest test (a ∷ table) =
    let rest = oldest test table in if test a then earlier a.attempted_at rest else rest

-- `max(1, int((oldest + window - now).total_seconds()))`; a difference below zero is cut to 1 as well.
unfoldable pub retry_after : DatabaseRateLimiter → Option ℕ → ℕ → ℕ
retry_after l none now = l.window_seconds
retry_after l (some oldest_attempt) now =
    max 1 ((oldest_attempt + micros l.window_seconds - now) / 1000000)

-- `DashboardRateLimitError` with its `retry_after`, or nothing.
pub data Verdict : Type 0 where
  allowed : Verdict
  limited : ℕ → Verdict

abbrev pub refusal : DatabaseRateLimiter → String → ℕ → List RateLimitAttempt → Verdict
refusal l key now table = limited (retry_after l (oldest (in_window l key now) table) now)

unfoldable pub check : DatabaseRateLimiter → String → ℕ → List RateLimitAttempt → Verdict
check l key now table =
    if leb l.max_attempts (attempts_in l key now table) then refusal l key now table else allowed

abbrev pub attempt : DatabaseRateLimiter → String → ℕ → RateLimitAttempt
attempt l key now = record { key = key; type_name = l.type_name; attempted_at = now }

-- The insert is guarded by the count.
unfoldable pub check_and_increment :
    DatabaseRateLimiter → String → ℕ → List RateLimitAttempt → Verdict × List RateLimitAttempt
check_and_increment l key now table =
    if ltb (attempts_in l key now table) l.max_attempts
    then (allowed, table ++ attempt l key now ∷ [])
    else (refusal l key now table, table)

-- The attempt is recorded, and then counted.
unfoldable pub record_failure :
    DatabaseRateLimiter → String → ℕ → List RateLimitAttempt → Verdict × List RateLimitAttempt
record_failure l key now table =
    let table' = table ++ attempt l key now ∷ [] in
    if ltb l.max_attempts (attempts_in l key now table')
    then (refusal l key now table', table')
    else (allowed, table')

unfoldable pub clear_for_key :
    DatabaseRateLimiter → String → List RateLimitAttempt → List RateLimitAttempt
clear_for_key l key table = keep (λ a. not (owns l key a)) table

-- The attempt is counted first, and recorded in any case.
unfoldable pub check_and_record :
    DatabaseRateLimiter → String → ℕ → List RateLimitAttempt → Verdict × List RateLimitAttempt
check_and_record l key now table =
    let table' = table ++ attempt l key now ∷ [] in
    if leb l.max_attempts (attempts_in l key now table)
    then (refusal l key now table, table')
    else (allowed, table')

-- `attempted_at < now - age` is deleted.
unfoldable pub cleanup : ℕ → ℕ → List RateLimitAttempt → List RateLimitAttempt
cleanup older_than_seconds now table =
    keep (λ a. not (ltb (a.attempted_at + micros older_than_seconds) now)) table
