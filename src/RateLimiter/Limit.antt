-- ===== src/RateLimiter/Limit.antt =====
-- app/core/rate_limiter/db_rate_limiter.py: how many attempts a key gets in a window.
use firecrawl_lb.Prelude.{
  ℕ, suc, ◌+◌, ◌≤◌, ◌<◌, ltb, String, true, false, ◌≡◌, subst, List, [], ◌∷◌, ◌++◌, arith,
  count-append, if_cases, ltb→lt, Bool-cases, inl, inr,
}
use firecrawl_lb.Prelude.Text.{str_eq, eq_iff}
use firecrawl_lb.RateLimiter.{
  RateLimitAttempt, DatabaseRateLimiter, in_window, attempts_in, Verdict, check_and_increment,
  attempt,
}

attempt-in :
    (l : DatabaseRateLimiter) (key : String) (now : ℕ)
    → in_window l key now (attempt l key now) ≡ true
attempt-in l key now = ground (arith, eq_iff key key, eq_iff l.type_name l.type_name)

attempts-append :
    (l : DatabaseRateLimiter) (key : String) (now : ℕ) (table : List RateLimitAttempt)
    → attempts_in l key now (table ++ attempt l key now ∷ []) ≡ suc (attempts_in l key now table)
attempts-append l key now table =
    let e = count-append (in_window l key now) table (attempt l key now ∷ []) in
    let h = attempt-in l key now in ground arith

-- At a later instant no more of the rows are in the window.
pub attempts-later :
    (l : DatabaseRateLimiter) (key : String) (now later : ℕ) (table : List RateLimitAttempt)
    → now ≤ later
    → attempts_in l key later table ≤ attempts_in l key now table
attempts-later l key now later [] h = omega arith
attempts-later l key now later (a ∷ table) h =
    ground (arith, attempts-later l key now later table h)

-- A new row counts for its own key only.
attempts-append_other :
    (l : DatabaseRateLimiter) (key other : String) (now later : ℕ) (table : List RateLimitAttempt)
    → str_eq key other ≡ false
    → attempts_in l other later (table ++ attempt l key now ∷ []) ≡ attempts_in l other later table
attempts-append_other l key other now later table h =
    let e = count-append (in_window l other later) table (attempt l key now ∷ []) in ground arith

-- Every key has at most the limit in each window that ends at `now` or later.
unfoldable pub Within : DatabaseRateLimiter → ℕ → List RateLimitAttempt → Type 0
Within l now table =
    (key : String) (later : ℕ) → now ≤ later → attempts_in l key later table ≤ l.max_attempts

pub inserted-Within :
    (l : DatabaseRateLimiter) (key : String) (now : ℕ) (table : List RateLimitAttempt)
    → attempts_in l key now table < l.max_attempts
    → Within l now table
    → Within l now (table ++ attempt l key now ∷ [])
unfolding Within
inserted-Within l key now table room w other later h = elim (Bool-cases (str_eq key other)) [
  | inl e ↦
      subst
        (λ (k : String). attempts_in l k later (table ++ attempt l key now ∷ []) ≤ l.max_attempts)
        ((eq_iff key other).0 e)
        (omega (
          arith,
          attempts-later l key now later (table ++ attempt l key now ∷ []) h,
          attempts-append l key now table,
        ))
  | inr e ↦ omega (arith, attempts-append_other l key other now later table e, w other later h)
]

check_and_increment-Within :
    (l : DatabaseRateLimiter) (key : String) (now : ℕ) (table : List RateLimitAttempt)
    → Within l now table
    → Within l now (check_and_increment l key now table).1
unfolding check_and_increment
check_and_increment-Within l key now table w =
    if_cases (λ (r : Verdict × List RateLimitAttempt). Within l now r.1)
      (ltb (attempts_in l key now table) l.max_attempts)
      (λ e.
        inserted-Within l key now table (ltb→lt (attempts_in l key now table) l.max_attempts e) w)
      (λ _. w)

-- Requests one after the other: each names its key and the time since the one before it.
unfoldable pub check_all :
    DatabaseRateLimiter → ℕ → List (ℕ × String) → List RateLimitAttempt → ℕ × List RateLimitAttempt
check_all l now [] table = (now, table)
check_all l now ((delay, key) ∷ requests) table =
    check_all l (now + delay) requests (check_and_increment l key (now + delay) table).1

check_all-Within :
    (l : DatabaseRateLimiter) (now : ℕ) (requests : List (ℕ × String))
    (table : List RateLimitAttempt)
    → Within l now table
    → Within l (check_all l now requests table).0 (check_all l now requests table).1
unfolding check_all Within
check_all-Within l now [] table w = w
check_all-Within l now ((delay, key) ∷ requests) table w =
    check_all-Within l (now + delay) requests _
      (check_and_increment-Within l key (now + delay) table (λ k later h. w k later (omega arith)))

-- Whatever keys are checked, in whatever order and at whatever times from an empty table on, every
-- key has at most `max_attempts` rows in each window that ends at the last check or later.
pub check_and_increment-bounded :
    (l : DatabaseRateLimiter) (now : ℕ) (requests : List (ℕ × String)) (key : String) (later : ℕ)
    → (check_all l now requests []).0 ≤ later
    → attempts_in l key later (check_all l now requests []).1 ≤ l.max_attempts
unfolding Within
check_and_increment-bounded l now requests key later =
    check_all-Within l now requests [] (λ k t h. omega arith) key later
