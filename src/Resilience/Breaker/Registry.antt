-- ===== src/Resilience/Breaker/Registry.antt =====
-- app/core/resilience/circuit_breaker.py: the process-wide breaker and the breakers of the accounts.
use firecrawl_lb.Prelude.{
  ℕ, String, Bool, true, false, ◌≡◌, refl, sym, subst, ◌≢◌, Option, none, some, [], ◌∷◌, arith,
  if◌then◌else◌, all,
}
use firecrawl_lb.Prelude.Text.{str_eq, eq_iff}
use firecrawl_lb.Prelude.Dict.{Dict, lookup, insert, lookup-insert}
use firecrawl_lb.Resilience.Breaker.{
  CircuitState, closed, opened, half_open, CircuitBreaker, new_breaker, state, pre_call_check,
  refused, check_at,
}

pub record BreakerSettings : Type 0 where
  pub circuit_breaker_enabled : Bool
  pub circuit_breaker_failure_threshold : ℕ
  pub circuit_breaker_recovery_timeout_seconds : ℕ

abbrev default_success_threshold : ℕ
default_success_threshold = 2

abbrev configured : BreakerSettings → CircuitBreaker
configured settings =
    new_breaker settings.circuit_breaker_failure_threshold
      settings.circuit_breaker_recovery_timeout_seconds default_success_threshold

abbrev or_new : Option CircuitBreaker → CircuitBreaker → CircuitBreaker
or_new none fresh = fresh
or_new (some b) fresh = b

-- The global is created on first use and handed out while breakers are enabled.
pub get_circuit_breaker :
    Option BreakerSettings → Option CircuitBreaker → Option CircuitBreaker × Option CircuitBreaker
get_circuit_breaker none current = (current, current)
get_circuit_breaker (some settings) current =
    if settings.circuit_breaker_enabled
    then (some (or_new current (configured settings)), some (or_new current (configured settings)))
    else (none, current)

abbrev kept_or_added :
    String
    → Option CircuitBreaker
    → CircuitBreaker
    → Dict CircuitBreaker
    → Option CircuitBreaker × Dict CircuitBreaker
kept_or_added account_id (some b) fresh breakers = (some b, breakers)
kept_or_added account_id none fresh breakers = (some fresh, insert account_id fresh breakers)

-- The breaker of the account, and the registry afterwards.
pub get_circuit_breaker_for_account :
    String → BreakerSettings → Dict CircuitBreaker → Option CircuitBreaker × Dict CircuitBreaker
get_circuit_breaker_for_account account_id settings breakers =
    if settings.circuit_breaker_enabled
    then kept_or_added account_id (lookup account_id breakers) (configured settings) breakers
    else (none, breakers)

abbrev is_opened : CircuitState → Bool
is_opened opened = true
is_opened _ = false

unfoldable pub are_all_account_circuit_breakers_open : Dict CircuitBreaker → ℕ → Bool
are_all_account_circuit_breakers_open [] now = false
are_all_account_circuit_breakers_open (entry ∷ breakers) now =
    all (λ e. is_opened (state e.1 now)) (entry ∷ breakers)

for_account-kept :
    (account_id : String) (found : Option CircuitBreaker) (fresh : CircuitBreaker)
    (breakers : Dict CircuitBreaker)
    → lookup account_id breakers ≡ found
    → lookup account_id (kept_or_added account_id found fresh breakers).1
      ≡ (kept_or_added account_id found fresh breakers).0
for_account-kept account_id (some b) fresh breakers h = h
for_account-kept account_id none fresh breakers h =
    ground (arith, lookup-insert account_id account_id fresh breakers, eq_iff account_id account_id)

for_account-other :
    (account_id other : String) (found : Option CircuitBreaker) (fresh : CircuitBreaker)
    (breakers : Dict CircuitBreaker)
    → str_eq account_id other ≡ false
    → lookup other (kept_or_added account_id found fresh breakers).1 ≡ lookup other breakers
for_account-other account_id other (some b) fresh breakers ne = refl
for_account-other account_id other none fresh breakers ne =
    ground (arith, lookup-insert account_id other fresh breakers)

-- With breakers enabled, the breaker that an account is given is the one that the registry holds for
-- it from then on, and the breakers of other accounts stay.
pub get_circuit_breaker_for_account-stable :
    (account_id other : String) (settings : BreakerSettings) (breakers : Dict CircuitBreaker)
    → settings.circuit_breaker_enabled ≡ true
    → (lookup account_id (get_circuit_breaker_for_account account_id settings breakers).1
        ≡ (get_circuit_breaker_for_account account_id settings breakers).0)
      × (str_eq account_id other ≡ false
          → lookup other (get_circuit_breaker_for_account account_id settings breakers).1
            ≡ lookup other breakers)
unfolding get_circuit_breaker_for_account
get_circuit_breaker_for_account-stable account_id other settings breakers enabled =
    let found = lookup account_id breakers in
    let fresh = configured settings in
    let kept = for_account-kept account_id found fresh breakers refl in
    let others = for_account-other account_id other found fresh breakers in
    subst
      (λ (on : Bool).
        (lookup account_id
            (if on then kept_or_added account_id found fresh breakers else (none, breakers)).1
          ≡ (if on then kept_or_added account_id found fresh breakers else (none, breakers)).0)
        × (str_eq account_id other ≡ false
            → lookup other
                (if on then kept_or_added account_id found fresh breakers else (none, breakers)).1
              ≡ lookup other breakers))
      (sym enabled) (kept, others)

refused_when_open :
    (b : CircuitBreaker) (now : ℕ)
    → is_opened (state b now) ≡ true
    → pre_call_check b now ≡ (refused, b)
unfolding pre_call_check
refused_when_open b now h = at (state b now) h
  where
    at : (s : CircuitState) → is_opened s ≡ true → check_at s b ≡ (refused, b)
    at opened e = refl
    at closed e = cc
    at half_open e = cc

opened_in :
    (breakers : Dict CircuitBreaker) (now : ℕ) (account_id : String) (b : CircuitBreaker)
    → all (λ e. is_opened (state e.1 now)) breakers ≡ true
    → lookup account_id breakers ≡ some b
    → is_opened (state b now) ≡ true
opened_in [] now account_id b h found = cc
opened_in ((k, c) ∷ breakers) now account_id b h found =
    ground (arith, opened_in breakers now account_id b)

-- When the process reports that all accounts' breakers are open, there is one, and each of them
-- refuses its next call.
pub all_open-refused :
    (breakers : Dict CircuitBreaker) (now : ℕ) (account_id : String) (b : CircuitBreaker)
    → are_all_account_circuit_breakers_open breakers now ≡ true
    → (breakers ≢ []) × (lookup account_id breakers ≡ some b → pre_call_check b now ≡ (refused, b))
unfolding are_all_account_circuit_breakers_open
all_open-refused [] now account_id b h = cc
all_open-refused (entry ∷ breakers) now account_id b h = (
  λ e. cc,
  λ found. refused_when_open b now (opened_in (entry ∷ breakers) now account_id b h found),
)
