-- ===== src/Firecrawl/Routing.antt =====
-- app/modules/firecrawl/routing.py: which account serves a request. The scores are floats: their
-- operations are the record `Floats`, whose laws hold of IEEE doubles, NaN included.
pub mod Team
pub mod Scores
pub mod Choice
pub mod Candidates
pub mod Admission
pub mod Refusal
pub mod Serviceable
use Team.{TeamUsage, build_team_usage, usage_of, rpm_of}
use Scores.{Floats}
use firecrawl_lb.Prelude.{
  ℕ, ◌+◌, max, ltb, String, Bool, true, false, not, ◌≡◌, Option, none, some, List, [], ◌∷◌, ◌++◌,
  if◌then◌else◌, find,
}
use firecrawl_lb.Prelude.Int.{ℤ, pos, ltb_ℤ, ◌+ℤ◌, at_least}
use firecrawl_lb.Prelude.Text.{str_eq, str_lt}
use firecrawl_lb.Prelude.Dict.{Dict, lookup, insert}
use firecrawl_lb.Json.{Fields}
use firecrawl_lb.Firecrawl.Models.{
  Account, Credential, SelectedAccount, AccountStatus, is_active, usable,
}
use firecrawl_lb.Firecrawl.Usage.{estimate_credits}

abbrev endpoint_rpm_by_plan : Dict (Dict ℕ)
endpoint_rpm_by_plan =
    ("free", ("scrape", 10) ∷ ("map", 10) ∷ ("crawl", 1) ∷ ("search", 5) ∷ ("batch_scrape", 1) ∷ [])
    ∷ (
      "hobby",
      ("scrape", 100) ∷ ("map", 100) ∷ ("crawl", 15) ∷ ("search", 50) ∷ ("batch_scrape", 15) ∷ [],
    )
    ∷ (
      "standard",
      ("scrape", 500) ∷ ("map", 500) ∷ ("crawl", 50) ∷ ("search", 250) ∷ ("batch_scrape", 50) ∷ [],
    )
    ∷ (
      "growth",
      ("scrape", 5000)
          ∷ ("map", 5000)
          ∷ ("crawl", 250)
          ∷ ("search", 2500)
          ∷ ("batch_scrape", 250)
          ∷ [],
    )
    ∷ []

abbrev concurrency_by_plan : Dict ℕ
concurrency_by_plan = ("free", 2) ∷ ("hobby", 5) ∷ ("standard", 50) ∷ ("growth", 100) ∷ []

abbrev default_rpm_limit : ℕ
default_rpm_limit = 10

abbrev default_concurrency_limit : ℕ
default_concurrency_limit = 2

abbrev or_default {ℓ} : {A : Type ℓ} → Option A → A → A
or_default none d = d
or_default (some a) d = a

unfoldable pub endpoint_limit : Option (Dict ℕ) → String → ℕ
endpoint_limit none endpoint = default_rpm_limit
endpoint_limit (some plan_limits) endpoint =
    or_default (lookup endpoint plan_limits) default_rpm_limit

unfoldable pub rpm_limit : Account → String → ℕ
unfolding endpoint_limit
rpm_limit account endpoint = endpoint_limit (lookup account.plan_type endpoint_rpm_by_plan) endpoint

unfoldable pub concurrency_limit : Account → ℤ
concurrency_limit account =
    or_default account.queue_max_concurrency
      (pos (or_default (lookup account.plan_type concurrency_by_plan) default_concurrency_limit))

-- The text after `account_id: ` in a rejection.
pub data Reason : Type 0 where
  status : AccountStatus → Reason
  cooldown credits credentials account_rpm account_concurrency team_rpm team_concurrency : Reason

abbrev pub cooling : Option ℕ → ℕ → Bool
cooling none now = false
cooling (some until) now = ltb now until

abbrev pub absent {ℓ} : {A : Type ℓ} → Option A → Bool
absent none = true
absent (some a) = false

unfoldable pub active_credential : List Credential → Option Credential
active_credential owned = find (λ c. usable c.status) owned

-- `a >= b`
abbrev pub geb_ℤ : ℤ → ℤ → Bool
geb_ℤ a b = not (ltb_ℤ a b)

unfoldable pub rejection_reason :
    Account → Option Credential → String → ℤ → TeamUsage → ℕ → Option Reason
rejection_reason account credential endpoint estimated_credits team_usage now =
    if not (is_active account.status)
    then some (status account.status)
    else if cooling account.cooldown_until now
    then some cooldown
    else if ltb_ℤ account.remaining_credits estimated_credits
    then some credits
    else if absent credential
    then some credentials
    else if geb_ℤ (rpm_of endpoint account.rpm_used) (pos (rpm_limit account endpoint))
    then some account_rpm
    else if geb_ℤ (account.inflight +ℤ account.queue_active_jobs) (concurrency_limit account)
    then some account_concurrency
    else if geb_ℤ (rpm_of endpoint team_usage.rpm_used_by_endpoint)
        (pos (rpm_limit account endpoint))
    then some team_rpm
    else if geb_ℤ (team_usage.inflight +ℤ team_usage.active_jobs) (concurrency_limit account)
    then some team_concurrency
    else none

-- The outcome of `select_account`: an account, `NoFirecrawlAccountAvailable`, or the `ValueError` of
-- the estimate.
pub data Selection : Type 0 where
  selected : SelectedAccount → Selection
  unavailable : String → Dict Reason → Selection
  bad_request : Selection

module _ (fl : Floats) where
  open fl use {F, of_int, add, sub, mul, div, literal, lt, eq}

  unfoldable pub score_account : Account → String → TeamUsage → F
  score_account account endpoint team_usage =
      let budget_ratio =
        div (of_int account.remaining_credits) (of_int (pos (at_least 1 account.plan_credits))) in
      let rpm_ratio = sub (literal 100) (
        div (of_int (rpm_of endpoint team_usage.rpm_used_by_endpoint))
          (of_int (pos (max 1 (rpm_limit account endpoint))))) in
      let concurrency_ratio = sub (literal 100) (
        div (of_int (team_usage.inflight +ℤ team_usage.active_jobs))
          (of_int (pos (at_least 1 (concurrency_limit account))))) in
      let health_ratio =
        div (literal 100) (of_int (pos (1 + at_least 0 account.recent_error_count))) in
      add
        (add (add (mul budget_ratio (literal 45)) (mul rpm_ratio (literal 25)))
          (mul concurrency_ratio (literal 20)))
        (mul health_ratio (literal 10))

  pub record Candidate : Type 0 where
    pub score : F
    pub account : Account
    pub credential : Credential

  -- `max` over `(score, id)`: a later candidate replaces the best so far if it is greater.
  unfoldable pub greater : Candidate → Candidate → Bool
  greater c best =
      if eq c.score best.score then str_lt best.account.id c.account.id else lt best.score c.score

  unfoldable pub max_candidate : Candidate → List Candidate → Candidate
  max_candidate best [] = best
  max_candidate best (c ∷ cs) = max_candidate (if greater c best then c else best) cs

  -- The two collections that the loop fills.
  pub record Sorted : Type 0 where
    pub candidates : List Candidate
    pub rejections : Dict Reason

  -- One round of the loop: `continue` after a rejection. The third clause is the `assert`, which
  -- cannot fail: without a credential there is a reason.
  unfoldable pub file_account :
      String → TeamUsage → Account → Option Credential → Option Reason → Sorted → Sorted
  file_account endpoint team account credential (some reason) s = record s {
    rejections = insert account.id reason s.rejections;
  }
  file_account endpoint team account none none s = s
  file_account endpoint team account (some credential) none s = record s {
    candidates =
        s.candidates
        ++ record {
          score = score_account account endpoint team;
          account = account;
          credential = credential;
        }
          ∷ [];
  }

  unfoldable pub sort_accounts : String → ℤ → Dict TeamUsage → ℕ → Sorted → List Account → Sorted
  sort_accounts endpoint estimated usage now s [] = s
  sort_accounts endpoint estimated usage now s (account ∷ accounts) =
      let credential = active_credential account.credentials in
      let team = usage_of account.team_label usage in
      sort_accounts endpoint estimated usage now
        (file_account endpoint team account credential
          (rejection_reason account credential endpoint estimated team now) s)
        accounts

  unfoldable pub choose : String → ℤ → Sorted → List Candidate → Selection
  choose endpoint estimated s [] = unavailable endpoint s.rejections
  choose endpoint estimated s (c ∷ cs) =
      let best = max_candidate c cs in
      selected (record {
        account = best.account;
        credential = best.credential;
        estimated_credits = estimated;
      })

  abbrev nothing_sorted : Sorted
  nothing_sorted = record { candidates = []; rejections = [] }

  unfoldable pub select_with : Option ℤ → List Account → String → ℕ → Selection
  unfolding choose sort_accounts
  select_with none accounts endpoint now = bad_request
  select_with (some estimated) accounts endpoint now =
      let s =
        sort_accounts endpoint estimated (build_team_usage accounts) now nothing_sorted accounts in
      choose endpoint estimated s s.candidates

  unfoldable pub select_account : List Account → String → Fields → ℕ → Selection
  unfolding select_with
  select_account accounts endpoint payload now =
      select_with (estimate_credits endpoint payload none) accounts endpoint now
