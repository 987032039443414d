-- ===== src/Tests/RateLimiter.antt =====
-- The rate limiter at a limit of two attempts a minute.
use firecrawl_lb.Prelude.{ℕ, ◌+◌, ◌≤◌, ◌≡◌, refl, String, List, [], ◌∷◌, arith}
use firecrawl_lb.RateLimiter.{
  DatabaseRateLimiter, RateLimitAttempt, allowed, check, check_and_increment, attempts_in, micros,
  retry_after, oldest,
}
use firecrawl_lb.RateLimiter.Limit.{check_all, check_and_increment-bounded}
use firecrawl_lb.RateLimiter.RetryAfter.{refused-admitted}

abbrev two_a_minute : DatabaseRateLimiter
two_a_minute = record { max_attempts = 2; window_seconds = 60; type_name = "login" }

abbrev four_logins : List (ℕ × String)
four_logins = (0, "ip") ∷ (1000000, "ip") ∷ (1000000, "ip") ∷ (60000000, "ip") ∷ []

check_and_increment-bounded_example :
    attempts_in two_a_minute "ip" 62000000 (check_all two_a_minute 0 four_logins []).1 ≤ 2
unfolding check_all
check_and_increment-bounded_example =
    check_and_increment-bounded two_a_minute 0 four_logins "ip" 62000000 (omega arith)

abbrev login_at : ℕ → RateLimitAttempt
login_at t = record { key = "ip"; type_name = "login"; attempted_at = t }

abbrev full_table : List RateLimitAttempt
full_table = login_at 0 ∷ login_at 1000000 ∷ []

refused-admitted_example :
    check two_a_minute "ip"
      (2500000 + micros 58)
      (check_and_increment two_a_minute "ip" 2500000 full_table).1
    ≡ allowed
unfolding check_and_increment oldest retry_after
refused-admitted_example =
    refused-admitted two_a_minute "ip" 2500000 57 full_table (omega arith) (omega arith) refl
