-- ===== src/Resilience/RetryBudget.antt =====
-- app/core/resilience/retry_budget.py. Times are readings of the monotonic clock, in its unit;
-- `timestamp < now - window` is written as a sum, since the difference may be negative.
pub mod Window
use firecrawl_lb.Prelude.{
  ℕ, suc, ◌+◌, ◌-◌, ltb, leb, not, Bool, true, false, List, [], ◌∷◌, ◌++◌, length, count,
  if◌then◌else◌,
}

pub record RetryBudget : Type 0 where
  pub max_retries : ℕ
  pub window_seconds : ℕ
  pub retry_timestamps : List ℕ

abbrev pub new_budget : ℕ → ℕ → RetryBudget
new_budget max_retries window_seconds = record {
  max_retries = max_retries;
  window_seconds = window_seconds;
  retry_timestamps = [];
}

-- `timestamp < cutoff`
abbrev pub too_old : ℕ → ℕ → ℕ → Bool
too_old window now timestamp = ltb (timestamp + window) now

-- The `while` loop that drops from the left.
unfoldable pub drop_old : ℕ → ℕ → List ℕ → List ℕ
drop_old window now [] = []
drop_old window now (t ∷ ts) =
    let rest = drop_old window now ts in if too_old window now t then rest else t ∷ ts

unfoldable pub try_acquire : RetryBudget → ℕ → Bool × RetryBudget
unfolding drop_old
try_acquire b now =
    let kept = drop_old b.window_seconds now b.retry_timestamps in
    if leb b.max_retries (length kept)
    then (false, record b { retry_timestamps = kept })
    else (true, record b { retry_timestamps = kept ++ now ∷ [] })

-- `max(0, max_retries - recent)` is the subtraction of natural numbers.
unfoldable pub remaining : RetryBudget → ℕ → ℕ
remaining b now =
    b.max_retries - count (λ t. not (too_old b.window_seconds now t)) b.retry_timestamps
