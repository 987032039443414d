-- ===== src/Tests/Routing.antt =====
-- The router at two accounts.
use firecrawl_lb.Prelude.{String, map, ◌≡◌, refl, false, none, some, List, [], ◌∷◌, In, inl}
use firecrawl_lb.Prelude.Int.{ℤ, pos, ltb_ℤ, ◌+ℤ◌}
use firecrawl_lb.Firecrawl.Models.{Account, SelectedAccount}
use firecrawl_lb.Firecrawl.Usage.{estimate_credits}
use firecrawl_lb.Firecrawl.Routing.{
  select_account, selected, unavailable, rejection_reason, Reason, file_account, active_credential,
  rpm_limit, concurrency_limit, max_candidate, greater, score_account,
}
use firecrawl_lb.Firecrawl.Routing.Team.{
  build_team_usage, usage_of, total_usage, no_usage, in_team, rpm_of, sum_from, used_at,
  build_team_usage-sums,
}
use firecrawl_lb.Firecrawl.Routing.Admission.{
  Admissible, select_account_sound, select_account-greatest,
}
use firecrawl_lb.Firecrawl.Routing.Refusal.{select_account_complete}
use firecrawl_lb.Firecrawl.Routing.Serviceable.{IsServiceable, select_account-IsServiceable}
use firecrawl_lb.Tests.Fixtures.{toy_floats, key_one, rich, other_rich, poor, scrape}

abbrev pool : List Account
pool = other_rich ∷ rich ∷ poor ∷ []

abbrev winner : SelectedAccount
winner = record { account = rich; credential = key_one; estimated_credits = pos 1 }

winner-selected : select_account toy_floats pool "scrape" scrape 0 ≡ selected winner
unfolding select_account estimate_credits file_account rejection_reason ltb_ℤ active_credential
    rpm_limit ◌+ℤ◌ concurrency_limit build_team_usage max_candidate greater score_account
winner-selected = refl

build_team_usage-sums_example :
    ((usage_of "team" (build_team_usage pool)).inflight
      ≡ sum_from (pos 0) (map (λ a. a.inflight) (in_team "team" pool)))
    × ((usage_of "team" (build_team_usage pool)).active_jobs
        ≡ sum_from (pos 0) (map (λ a. a.queue_active_jobs) (in_team "team" pool)))
    × ((endpoint : String)
        → rpm_of endpoint (usage_of "team" (build_team_usage pool)).rpm_used_by_endpoint
          ≡ sum_from (pos 0) (used_at endpoint (in_team "team" pool)))
build_team_usage-sums_example = build_team_usage-sums "team" pool

other_rich-Admissible : Admissible pool "scrape" (pos 1) 0 other_rich key_one
unfolding select_account estimate_credits file_account rejection_reason ltb_ℤ active_credential
    rpm_limit ◌+ℤ◌ concurrency_limit build_team_usage max_candidate greater score_account
    total_usage
other_rich-Admissible = record { owns = refl; passes = refl }

select_account_sound_example :
    In rich pool
    × (estimate_credits "scrape" scrape none ≡ some (pos 1))
    × Admissible pool "scrape" (pos 1) 0 rich key_one
select_account_sound_example =
    select_account_sound toy_floats pool "scrape" scrape 0 {p = winner} winner-selected

select_account-greatest_example :
    greater toy_floats
      (record {
        score =
            score_account toy_floats other_rich "scrape" (usage_of "team" (build_team_usage pool));
        account = other_rich;
        credential = key_one;
      })
      (record {
        score = score_account toy_floats rich "scrape" (usage_of "team" (build_team_usage pool));
        account = rich;
        credential = key_one;
      })
    ≡ false
select_account-greatest_example =
    select_account-greatest toy_floats pool "scrape" scrape 0 winner other_rich key_one
      winner-selected (inl refl) other_rich-Admissible

no_account :
    select_account toy_floats (poor ∷ []) "scrape" scrape 0
    ≡ unavailable "scrape" (("a3", Reason.credits) ∷ [])
unfolding select_account estimate_credits file_account rejection_reason ltb_ℤ active_credential
    rpm_limit ◌+ℤ◌ concurrency_limit build_team_usage max_candidate greater score_account
no_account = refl

select_account_complete_example :
    (estimated : ℤ) × (estimate_credits "scrape" scrape none ≡ some estimated)
    × ((r : Reason) × (rejection_reason poor
            (active_credential poor.credentials)
            "scrape"
            estimated
            (total_usage no_usage (in_team "team" (poor ∷ [])))
            0
          ≡ some r))
select_account_complete_example =
    select_account_complete toy_floats (poor ∷ []) "scrape" scrape 0 poor no_account (inl refl)

select_account-IsServiceable_example :
    IsServiceable "scrape" (pos 1) (total_usage no_usage (in_team "team" pool)) 0 rich key_one
select_account-IsServiceable_example =
    select_account-IsServiceable toy_floats pool "scrape" scrape 0 winner winner-selected
