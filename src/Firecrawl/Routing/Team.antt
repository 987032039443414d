-- ===== src/Firecrawl/Routing/Team.antt =====
-- app/modules/firecrawl/routing.py, `_TeamUsage` and `_build_team_usage`: what the accounts of one
-- team use together.
use firecrawl_lb.Prelude.{
  String, ◌≡◌, refl, Option, none, some, List, [], ◌∷◌, ◌++◌, arith, keep, ◌∙◌, ap, sym, map,
  if◌then◌else◌, Bool, true, false,
}
use firecrawl_lb.Prelude.Int.{ℤ, pos, ◌+ℤ◌}
use firecrawl_lb.Prelude.Text.{str_eq, eq_iff}
use firecrawl_lb.Prelude.Dict.{Dict, lookup, insert, lookup-insert}
use firecrawl_lb.Firecrawl.Models.{Account}

pub record TeamUsage : Type 0 where
  pub rpm_used_by_endpoint : Dict ℤ
  pub inflight : ℤ
  pub active_jobs : ℤ

abbrev pub no_usage : TeamUsage
no_usage = record { rpm_used_by_endpoint = []; inflight = pos 0; active_jobs = pos 0 }

abbrev used_or_zero : Option ℤ → ℤ
used_or_zero none = pos 0
used_or_zero (some used) = used

-- `d.get(endpoint, 0)`
abbrev pub rpm_of : String → Dict ℤ → ℤ
rpm_of endpoint rpm_used = used_or_zero (lookup endpoint rpm_used)

unfoldable pub add_rpm : Dict ℤ → Dict ℤ → Dict ℤ
add_rpm total [] = total
add_rpm total ((endpoint, used) ∷ rest) =
    add_rpm (insert endpoint (rpm_of endpoint total +ℤ used) total) rest

-- The body of the loop, on the record that `setdefault` hands out.
unfoldable pub add_account : TeamUsage → Account → TeamUsage
unfolding add_rpm
add_account team_usage account = record {
  rpm_used_by_endpoint = add_rpm team_usage.rpm_used_by_endpoint account.rpm_used;
  inflight = team_usage.inflight +ℤ account.inflight;
  active_jobs = team_usage.active_jobs +ℤ account.queue_active_jobs;
}

abbrev usage_or_none : Option TeamUsage → TeamUsage
usage_or_none none = no_usage
usage_or_none (some team_usage) = team_usage

abbrev pub usage_of : String → Dict TeamUsage → TeamUsage
usage_of label usage = usage_or_none (lookup label usage)

unfoldable pub build_from : Dict TeamUsage → List Account → Dict TeamUsage
build_from usage [] = usage
build_from usage (account ∷ accounts) =
    build_from
      (insert account.team_label (add_account (usage_of account.team_label usage) account) usage)
      accounts

unfoldable pub build_team_usage : List Account → Dict TeamUsage
unfolding build_from add_account
build_team_usage accounts = build_from [] accounts

-- What the accounts of a list use together.
unfoldable pub total_usage : TeamUsage → List Account → TeamUsage
total_usage start [] = start
total_usage start (account ∷ accounts) = total_usage (add_account start account) accounts

abbrev pub in_team : String → List Account → List Account
in_team label accounts = keep (λ a. str_eq a.team_label label) accounts

build_from-total :
    (label : String) (usage : Dict TeamUsage) (accounts : List Account)
    → usage_of label (build_from usage accounts)
      ≡ total_usage (usage_of label usage) (in_team label accounts)
unfolding build_from total_usage
build_from-total label usage [] = refl
build_from-total label usage (a ∷ accounts) =
    build_from-total label (insert a.team_label (add_account (usage_of a.team_label usage) a) usage)
      accounts
    ∙ step
  where
    step :
        total_usage
          (usage_of label (insert a.team_label (add_account (usage_of a.team_label usage) a) usage))
          (in_team label accounts)
        ≡ total_usage (usage_of label usage) (in_team label (a ∷ accounts))
    step = ground (
      arith,
      lookup-insert a.team_label label (add_account (usage_of a.team_label usage) a) usage,
      eq_iff a.team_label label,
    )

pub build_team_usage-total :
    (label : String) (accounts : List Account)
    → usage_of label (build_team_usage accounts) ≡ total_usage no_usage (in_team label accounts)
unfolding build_team_usage
build_team_usage-total label accounts = build_from-total label [] accounts

-- A sum from the left.
abbrev pub sum_from : ℤ → List ℤ → ℤ
sum_from start [] = start
sum_from start (n ∷ ns) = sum_from (start +ℤ n) ns

-- The values that stand under a key.
abbrev pub values_at : String → Dict ℤ → List ℤ
values_at endpoint [] = []
values_at endpoint ((key, n) ∷ rest) =
    let others = values_at endpoint rest in if str_eq key endpoint then n ∷ others else others

-- What the accounts used of an endpoint, one figure after the other.
abbrev pub used_at : String → List Account → List ℤ
used_at endpoint [] = []
used_at endpoint (a ∷ accounts) = values_at endpoint a.rpm_used ++ used_at endpoint accounts

sum_from-append : (n : ℤ) (xs ys : List ℤ) → sum_from n (xs ++ ys) ≡ sum_from (sum_from n xs) ys
sum_from-append n [] ys = refl
sum_from-append n (x ∷ xs) ys = sum_from-append (n +ℤ x) xs ys

used_if :
    (b : Bool) (n : ℤ) (o : Option ℤ)
    → used_or_zero (if b then some n else o) ≡ (if b then n else used_or_zero o)
used_if true n o = refl
used_if false n o = refl

rpm_of-insert :
    (endpoint key : String) (n : ℤ) (d : Dict ℤ)
    → rpm_of endpoint (insert key n d) ≡ (if str_eq key endpoint then n else rpm_of endpoint d)
rpm_of-insert endpoint key n d =
    ap used_or_zero (lookup-insert key endpoint n d)
    ∙ used_if (str_eq key endpoint) n (lookup endpoint d)

add_rpm-sum :
    (endpoint : String) (total entries : Dict ℤ)
    → rpm_of endpoint (add_rpm total entries)
      ≡ sum_from (rpm_of endpoint total) (values_at endpoint entries)
unfolding add_rpm
add_rpm-sum endpoint total [] = refl
add_rpm-sum endpoint total ((key, n) ∷ rest) =
    add_rpm-sum endpoint (insert key (rpm_of key total +ℤ n) total) rest
    ∙ ground (arith, rpm_of-insert endpoint key (rpm_of key total +ℤ n) total, eq_iff key endpoint)

total_usage-rpm :
    (endpoint : String) (start : TeamUsage) (accounts : List Account)
    → rpm_of endpoint (total_usage start accounts).rpm_used_by_endpoint
      ≡ sum_from (rpm_of endpoint start.rpm_used_by_endpoint) (used_at endpoint accounts)
unfolding total_usage add_account
total_usage-rpm endpoint start [] = refl
total_usage-rpm endpoint start (a ∷ accounts) =
    total_usage-rpm endpoint (add_account start a) accounts
    ∙ (ap (λ (n : ℤ). sum_from n (used_at endpoint accounts))
          (add_rpm-sum endpoint start.rpm_used_by_endpoint a.rpm_used)
        ∙ sym (
            sum_from-append (rpm_of endpoint start.rpm_used_by_endpoint)
              (values_at endpoint a.rpm_used) (used_at endpoint accounts)))

total_usage-inflight :
    (start : TeamUsage) (accounts : List Account)
    → (total_usage start accounts).inflight
      ≡ sum_from start.inflight (map (λ a. a.inflight) accounts)
unfolding total_usage add_account
total_usage-inflight start [] = refl
total_usage-inflight start (a ∷ accounts) = total_usage-inflight (add_account start a) accounts

total_usage-jobs :
    (start : TeamUsage) (accounts : List Account)
    → (total_usage start accounts).active_jobs
      ≡ sum_from start.active_jobs (map (λ a. a.queue_active_jobs) accounts)
unfolding total_usage add_account
total_usage-jobs start [] = refl
total_usage-jobs start (a ∷ accounts) = total_usage-jobs (add_account start a) accounts

-- The entry of a team has the sum of the requests in flight, the sum of the active jobs and, for each
-- endpoint, the sum of the requests of the last minute of the accounts that carry its label, and of no others.
pub build_team_usage-sums :
    (label : String) (accounts : List Account)
    → ((usage_of label (build_team_usage accounts)).inflight
        ≡ sum_from (pos 0) (map (λ a. a.inflight) (in_team label accounts)))
      × ((usage_of label (build_team_usage accounts)).active_jobs
          ≡ sum_from (pos 0) (map (λ a. a.queue_active_jobs) (in_team label accounts)))
      × ((endpoint : String)
          → rpm_of endpoint (usage_of label (build_team_usage accounts)).rpm_used_by_endpoint
            ≡ sum_from (pos 0) (used_at endpoint (in_team label accounts)))
build_team_usage-sums label accounts = rw (build_team_usage-total label accounts) (
  total_usage-inflight no_usage (in_team label accounts),
  total_usage-jobs no_usage (in_team label accounts),
  λ endpoint. total_usage-rpm endpoint no_usage (in_team label accounts),
)
