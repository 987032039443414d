-- ===== src/RateLimiter/RetryAfter.antt =====
-- app/core/rate_limiter/db_rate_limiter.py: the retry_after of a refusal.
use firecrawl_lb.Prelude.{
  ℕ, suc, ◌+◌, ◌≤◌, ◌<◌, ltb, leb, not, String, Bool, true, false, ◌≡◌, refl, subst, List, [], In,
  Option-cases, ◌∷◌, arith, count, if_cases, Bool-cases, inl, inr, none, some, ◌≢◌,
}
use firecrawl_lb.RateLimiter.Limit.{attempts-later}
use firecrawl_lb.RateLimiter.{
  RateLimitAttempt, DatabaseRateLimiter, in_window, attempts_in, micros, Verdict, allowed, limited,
  check, check_and_increment, clear_for_key, cleanup, retry_after, oldest, refusal,
}

-- The row whose instant is the oldest one.
abbrev Row : (RateLimitAttempt → Bool) → List RateLimitAttempt → ℕ → Type 0
Row test table o = (a : RateLimitAttempt) × In a table × (test a ≡ true) × (a.attempted_at ≡ o)

oldest-Row :
    (test : RateLimitAttempt → Bool) (table : List RateLimitAttempt) (o : ℕ)
    → oldest test table ≡ some o
    → Row test table o
unfolding oldest
oldest-Row test [] o h = ground arith
oldest-Row test (a ∷ table) o h = elim (Bool-cases (test a)) [
  | inl e ↦ elim (Option-cases (oldest test table)) [
    | inl n ↦ (a, inl refl, e, ground arith)
    | inr (o', s) ↦ elim (Bool-cases (ltb o' a.attempted_at)) [
      | inl k ↦ later_row (oldest-Row test table o (ground arith))
      | inr k ↦ (a, inl refl, e, ground arith)
    ]
  ]
  | inr e ↦ later_row (oldest-Row test table o (ground arith))
]
  where
    later_row : Row test table o → Row test (a ∷ table) o
    later_row (b, i, t, e) = (b, inr i, t, e)

-- There is one, if a row passes the test.
oldest-some :
    (test : RateLimitAttempt → Bool) (table : List RateLimitAttempt)
    → 1 ≤ count test table
    → oldest test table ≢ none
unfolding oldest
oldest-some test [] h = omega arith
oldest-some test (a ∷ table) h = elim (Bool-cases (test a)) [
  | inl e ↦ elim (Option-cases (oldest test table)) [
    | inl n ↦ ground arith
    | inr (o, s) ↦ elim (Bool-cases (ltb o a.attempted_at)) [
      | inl k ↦ ground arith
      | inr k ↦ ground arith
    ]
  ]
  | inr e ↦ ground (arith, oldest-some test table)
]

-- A row that has left the window by the later instant makes the count smaller.
attempts-fewer :
    (l : DatabaseRateLimiter) (key : String) (now later : ℕ) (a : RateLimitAttempt)
    (table : List RateLimitAttempt)
    → now ≤ later
    → In a table
    → in_window l key now a ≡ true
    → in_window l key later a ≡ false
    → attempts_in l key later table < attempts_in l key now table
attempts-fewer l key now later a [] h i p q = absurd i
attempts-fewer l key now later a (b ∷ table) h (inl e) p q =
    let p' = subst (λ (x : RateLimitAttempt). in_window l key now x ≡ true) e p in
    let q' = subst (λ (x : RateLimitAttempt). in_window l key later x ≡ false) e q in
    let k = attempts-later l key now later table h in grind arith
attempts-fewer l key now later a (b ∷ table) h (inr i) p q =
    ground (arith, attempts-fewer l key now later a table h i p q)

-- The wait that the refusal names, and one second more, is past the end of the row's window.
retry_after-past :
    (l : DatabaseRateLimiter) (o now : ℕ)
    → o + micros l.window_seconds < now + micros (suc (retry_after l (some o) now))
unfolding retry_after
retry_after-past l o now = omega arith

-- The wait is between one second and the whole window.
retry_after-bounds :
    (l : DatabaseRateLimiter) (o now : ℕ)
    → o ≤ now
    → 1 ≤ l.window_seconds
    → (1 ≤ retry_after l (some o) now) × (retry_after l (some o) now ≤ l.window_seconds)
unfolding retry_after
retry_after-bounds l o now h w = (omega arith, omega arith)

gone-in_window :
    (l : DatabaseRateLimiter) (key : String) (later : ℕ) (a : RateLimitAttempt)
    → a.attempted_at + micros l.window_seconds < later
    → in_window l key later a ≡ false
gone-in_window l key later a h = ground arith

check-allowed :
    (l : DatabaseRateLimiter) (key : String) (now : ℕ) (table : List RateLimitAttempt)
    → attempts_in l key now table < l.max_attempts
    → check l key now table ≡ allowed
unfolding check
check-allowed l key now table h =
    if_cases (λ v. v ≡ allowed) (leb l.max_attempts (attempts_in l key now table))
      (λ e. ground arith) (λ _. refl)

-- Who is refused at the limit is admitted after the wait, when nothing is added in between.
wait-admitted :
    (l : DatabaseRateLimiter) (key : String) (now o : ℕ) (table : List RateLimitAttempt)
    → attempts_in l key now table ≡ l.max_attempts
    → oldest (in_window l key now) table ≡ some o
    → check l key (now + micros (suc (retry_after l (some o) now))) table ≡ allowed
wait-admitted l key now o table full s =
    let (a, i, t, e) = oldest-Row (in_window l key now) table o s in
    let later = now + micros (suc (retry_after l (some o) now)) in
    let past = retry_after-past l o now in
    let gone = gone-in_window l key later a (omega arith) in
    let fewer = attempts-fewer l key now later a table (omega arith) i t gone in
    check-allowed l key later table (omega arith)

wait-refusal :
    (l : DatabaseRateLimiter) (key : String) (now r : ℕ) (table : List RateLimitAttempt)
    → 1 ≤ l.max_attempts
    → attempts_in l key now table ≡ l.max_attempts
    → refusal l key now table ≡ limited r
    → check l key (now + micros (suc r)) table ≡ allowed
wait-refusal l key now r table m full e = elim (Option-cases (oldest (in_window l key now) table)) [
  | inl n ↦ absurd (oldest-some (in_window l key now) table (omega arith) n)
  | inr (o, s) ↦
      let same : retry_after l (some o) now ≡ r = ground arith in
      subst (λ (x : ℕ). check l key (now + micros (suc x)) table ≡ allowed) same
        (wait-admitted l key now o table full s)
]

-- Who `check_and_increment` refuses with a `retry_after` of r seconds passes `check` r + 1 seconds
-- later, when no row is added in between; the key is within its limit at the refusal, and the limit is
-- at least 1.
pub refused-admitted :
    (l : DatabaseRateLimiter) (key : String) (now r : ℕ) (table : List RateLimitAttempt)
    → 1 ≤ l.max_attempts
    → attempts_in l key now table ≤ l.max_attempts
    → (check_and_increment l key now table).0 ≡ limited r
    → check l key (now + micros (suc r)) (check_and_increment l key now table).1 ≡ allowed
unfolding check_and_increment
refused-admitted l key now r table m within =
    if_cases
      (λ (v : Verdict × List RateLimitAttempt).
        v.0 ≡ limited r → check l key (now + micros (suc r)) v.1 ≡ allowed)
      (ltb (attempts_in l key now table) l.max_attempts) (λ _ e. ground arith)
      (λ full e. wait-refusal l key now r table m (ground arith) e)

cleared-empty :
    (l : DatabaseRateLimiter) (key : String) (now : ℕ) (table : List RateLimitAttempt)
    → attempts_in l key now (clear_for_key l key table) ≡ 0
unfolding clear_for_key
cleared-empty l key now [] = refl
cleared-empty l key now (a ∷ table) = ground (arith, cleared-empty l key now table)

-- A key whose rows the limiter has deleted passes the check, when the limit is at least 1.
pub cleared-admitted :
    (l : DatabaseRateLimiter) (key : String) (now : ℕ) (table : List RateLimitAttempt)
    → 1 ≤ l.max_attempts
    → check l key now (clear_for_key l key table) ≡ allowed
cleared-admitted l key now table h =
    check-allowed l key now (clear_for_key l key table)
      (omega (arith, cleared-empty l key now table))

-- The rows that the cleanup of a whole window deletes count for no later check.
cleanup-unseen :
    (l : DatabaseRateLimiter) (key : String) (age now : ℕ) (table : List RateLimitAttempt)
    → l.window_seconds ≤ age
    → attempts_in l key now (cleanup age now table) ≡ attempts_in l key now table
unfolding cleanup
cleanup-unseen l key age now [] h = refl
cleanup-unseen l key age now (a ∷ table) h =
    let rest = cleanup-unseen l key age now table h in
    if_cases
      (λ (t : List RateLimitAttempt). attempts_in l key now t ≡ attempts_in l key now (a ∷ table))
      (not (ltb (a.attempted_at + micros age) now)) (λ e. ground arith) (λ e. ground arith)
