-- ===== src/DashboardAuth/Api/Guesses.antt =====
-- app/modules/dashboard_auth/api.py: how many passwords a client may try.
use firecrawl_lb.Prelude.{
  ℕ, suc, ◌+◌, ◌≤◌, ltb, String, Bool, true, false, ◌&&◌, List, [], ◌∷◌, ◌++◌, ◌≡◌, refl, subst,
  sym, arith, if◌then◌else◌, if_cases, if_elim, count-append, All, ltb→lt,
}
use firecrawl_lb.Prelude.Text.{str_eq}
use firecrawl_lb.RateLimiter.{
  RateLimitAttempt, Verdict, attempts_in, in_window, attempt, check_and_increment,
}
use firecrawl_lb.RateLimiter.Limit.{Within, inserted-Within}
use firecrawl_lb.DashboardAuth.Settings.{DashboardSettings, is_none}
use firecrawl_lb.DashboardAuth.Results.{Outcome, Done, failed, invalid_credentials}
use firecrawl_lb.DashboardAuth.Service.{verify_password}
use firecrawl_lb.DashboardAuth.Access.{Request}
use firecrawl_lb.DashboardAuth.Api.{
  Answer, auth_error, SessionReply, ApiLibrary, is_disabled, session_client_key,
}
use firecrawl_lb.DashboardAuth.Api.Password.{
  password_rate_limiter, login_password, login_checked, login_verified,
}

-- A login, and the microseconds since the one before it.
pub record Guess : Type 0 where
  pub delay : ℕ
  pub request : Request
  pub password : String
  pub now : ℕ
  pub cached : DashboardSettings

abbrev pub key_of : Guess → String
key_of g = session_client_key g.request "password_login"

-- The answer to a password that was checked and is wrong.
abbrev pub is_wrong : {A : Type 0} → Answer A → Bool
is_wrong (auth_error code) = str_eq code "invalid_credentials"
is_wrong _ = false

-- The table is left as it is, or the password is checked and the attempt is added.
pub data Guessed (key : String) (at : ℕ) (table : List RateLimitAttempt)
    : Bool → List RateLimitAttempt → Type 0 where
  unchecked : Guessed key at table false table
  checked :
      ltb (attempts_in password_rate_limiter key at table) 8 ≡ true
      → Guessed key at table true (table ++ attempt password_rate_limiter key at ∷ [])

module _ (lib : ApiLibrary) (row : DashboardSettings) where
  abbrev pub guess : Guess → ℕ → List RateLimitAttempt → Answer SessionReply × List RateLimitAttempt
  guess g at table = login_password lib g.request g.password at g.now g.cached row table

  abbrev pub GuessedOf :
      String → ℕ → List RateLimitAttempt → Answer SessionReply × List RateLimitAttempt → Type 0
  GuessedOf key at table r = Guessed key at table (is_wrong r.0) r.1

  abbrev pub IsWrong : Guess → Type 0
  IsWrong g = verify_password lib.auth g.password row ≡ failed invalid_credentials

  checked-Guessed :
      (g : Guess) (at : ℕ) (table : List RateLimitAttempt)
      → IsWrong g
      → GuessedOf (key_of g) at table (
          login_checked lib g.request
            (key_of g)
            g.password
            g.now
            g.cached
            row
            (check_and_increment password_rate_limiter (key_of g) at table))
  unfolding check_and_increment
  checked-Guessed g at table wrong =
      if_cases
        (λ (r : Verdict × List RateLimitAttempt).
          GuessedOf (key_of g) at table
            (login_checked lib g.request (key_of g) g.password g.now g.cached row r))
        (ltb (attempts_in password_rate_limiter (key_of g) at table) 8)
        (λ e.
          subst
            (λ (o : Outcome Done). GuessedOf (key_of g) at table (
              login_verified lib g.request (key_of g) g.now g.cached row
                (table ++ attempt password_rate_limiter (key_of g) at ∷ []) o))
            (sym wrong) (checked e))
        (λ _. unchecked)

  guess-Guessed :
      (g : Guess) (at : ℕ) (table : List RateLimitAttempt)
      → IsWrong g
      → GuessedOf (key_of g) at table (guess g at table)
  unfolding login_password
  guess-Guessed g at table wrong =
      if_elim (GuessedOf (key_of g) at table) (is_disabled lib.settings.dashboard_auth_mode)
        unchecked
        (if_elim (GuessedOf (key_of g) at table) (is_none g.cached.password_hash) unchecked
          (checked-Guessed g at table wrong))

  -- The passwords of a key that were checked in the window that ends at `later`.
  unfoldable pub checked_in : String → ℕ → ℕ → List Guess → List RateLimitAttempt → ℕ
  checked_in key later at [] table = 0
  checked_in key later at (g ∷ guesses) table =
      let r = guess g (at + g.delay) table in
      let rest = checked_in key later (at + g.delay) guesses r.1 in
      if is_wrong r.0
        && in_window password_rate_limiter key later
            (attempt password_rate_limiter (key_of g) (at + g.delay))
      then suc rest
      else rest

  -- The instant and the table after the last login.
  unfoldable pub guess_all : ℕ → List Guess → List RateLimitAttempt → ℕ × List RateLimitAttempt
  guess_all at [] table = (at, table)
  guess_all at (g ∷ guesses) table =
      guess_all (at + g.delay) guesses (guess g (at + g.delay) table).1

  Guessed-Within :
      (key : String) (at : ℕ) (table after : List RateLimitAttempt) (wrong : Bool)
      → Guessed key at table wrong after
      → Within password_rate_limiter at table
      → Within password_rate_limiter at after
  Guessed-Within key at table after wrong unchecked w = w
  Guessed-Within key at table after wrong (checked room) w =
      inserted-Within password_rate_limiter key at table
        (ltb→lt (attempts_in password_rate_limiter key at table) 8 room) w

  guess_all-Within :
      (at : ℕ) (guesses : List Guess) (table : List RateLimitAttempt)
      → All IsWrong guesses
      → Within password_rate_limiter at table
      → Within password_rate_limiter (guess_all at guesses table).0 (guess_all at guesses table).1
  unfolding guess_all Within
  guess_all-Within at [] table h w = w
  guess_all-Within at (g ∷ guesses) table (wrong, h) w =
      let t = at + g.delay in
      guess_all-Within t guesses (guess g t table).1 h (
        Guessed-Within (key_of g) t table (guess g t table).1 (is_wrong (guess g t table).0)
          (guess-Guessed g t table wrong) (λ k later le. w k later (omega arith)))

  -- What a login adds to the rows of a window.
  Guessed-count :
      (key owner : String) (later at : ℕ) (table after : List RateLimitAttempt) (wrong : Bool)
      (n : ℕ)
      → Guessed owner at table wrong after
      → attempts_in password_rate_limiter key later after + n
        ≡ attempts_in password_rate_limiter key later table
          + (if wrong
                && in_window password_rate_limiter key later
                    (attempt password_rate_limiter owner at)
              then suc n
              else n)
  Guessed-count key owner later at table after wrong n unchecked = refl
  Guessed-count key owner later at table after wrong n (checked room) =
      let e =
        count-append (in_window password_rate_limiter key later) table
          (attempt password_rate_limiter owner at ∷ []) in
      ground arith

  checked-attempts :
      (key : String) (later at : ℕ) (guesses : List Guess) (table : List RateLimitAttempt)
      → All IsWrong guesses
      → attempts_in password_rate_limiter key later (guess_all at guesses table).1
        ≡ attempts_in password_rate_limiter key later table + checked_in key later at guesses table
  unfolding guess_all checked_in
  checked-attempts key later at [] table h = omega arith
  checked-attempts key later at (g ∷ guesses) table (wrong, h) =
      let t = at + g.delay in
      let after = (guess g t table).1 in
      let ih = checked-attempts key later t guesses after h in
      let step =
        Guessed-count key (key_of g) later t table after (is_wrong (guess g t table).0)
          (checked_in key later t guesses after) (guess-Guessed g t table wrong) in
      omega arith

  -- While no password is right, whatever clients log in, with whatever passwords, in whatever order and at
  -- whatever times from an empty table on, at most 8 passwords of each client are checked in each
  -- minute that ends at the last login or later.
  pub login_password-bounded :
      (at : ℕ) (guesses : List Guess) (key : String) (later : ℕ)
      → All IsWrong guesses
      → (guess_all at guesses []).0 ≤ later
      → checked_in key later at guesses [] ≤ 8
  unfolding Within
  login_password-bounded at guesses key later h le =
      let count = checked-attempts key later at guesses [] h in
      let within = guess_all-Within at guesses [] h (λ k t ge. omega arith) key later le in
      omega arith
