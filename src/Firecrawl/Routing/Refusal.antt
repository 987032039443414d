-- ===== src/Firecrawl/Routing/Refusal.antt =====
-- app/modules/firecrawl/routing.py: what `select_account` promises of the accounts when it returns none.
use firecrawl_lb.Prelude.{ℕ, String, ◌≡◌, ◌≢◌, refl, Option, none, some, List, [], arith, In}
use firecrawl_lb.Prelude.Int.{ℤ}
use firecrawl_lb.Prelude.Dict.{Dict}
use firecrawl_lb.Json.{Fields}
use firecrawl_lb.Firecrawl.Models.{Account, Credential}
use firecrawl_lb.Firecrawl.Usage.{estimate_credits}
use firecrawl_lb.Firecrawl.Routing.Scores.{Floats}
use firecrawl_lb.Firecrawl.Routing.Team.{
  TeamUsage, usage_of, build_team_usage, build_team_usage-total, no_usage, total_usage, in_team,
}
use firecrawl_lb.Firecrawl.Routing.Candidates.{candidates_of, sort-candidates, candidates_complete}
use firecrawl_lb.Firecrawl.Routing.{
  Reason, rejection_reason, active_credential, choose, select_with, select_account, unavailable,
}

module _ (fl : Floats) (accounts : List Account) (endpoint : String) (payload : Fields)
    (now : ℕ) where
  abbrev pool : Dict TeamUsage
  pool = build_team_usage accounts

  unavailable_from :
      (credits : Option ℤ) {e : String} {rejections : Dict Reason}
      → select_with fl credits accounts endpoint now ≡ unavailable e rejections
      → (estimated : ℤ) × (credits ≡ some estimated)
        × (candidates_of fl endpoint estimated pool now accounts ≡ [])
  unfolding select_with choose
  unavailable_from none h = cc
  unavailable_from (some estimated) h = (
    estimated,
    refl,
    ground (
      arith,
      sort-candidates fl endpoint estimated pool now (record { candidates = []; rejections = [] })
          accounts,
    ),
  )

  no_credential_rejected :
      (a : Account) (estimated : ℤ) (team : TeamUsage)
      → rejection_reason a none endpoint estimated team now ≢ none
  unfolding rejection_reason
  no_credential_rejected a estimated team h = ground arith

  refused_with :
      (estimated : ℤ) (a : Account)
      → In a accounts
      → candidates_of fl endpoint estimated pool now accounts ≡ []
      → (r : Reason) × (rejection_reason a
            (active_credential a.credentials)
            endpoint
            estimated
            (usage_of a.team_label pool)
            now
          ≡ some r)
  refused_with estimated a i e = go (active_credential a.credentials) refl _ refl
    where
      go :
          (credential : Option Credential)
          → active_credential a.credentials ≡ credential
          → (o : Option Reason)
          → rejection_reason a
              (active_credential a.credentials)
              endpoint
              estimated
              (usage_of a.team_label pool)
              now
            ≡ o
          → (r : Reason) × (rejection_reason a
                (active_credential a.credentials)
                endpoint
                estimated
                (usage_of a.team_label pool)
                now
              ≡ some r)
      go credential owns (some r) passes = (r, passes)
      go none owns none passes =
          absurd
            (no_credential_rejected a estimated (usage_of a.team_label pool) (rw owns at passes))
      go (some c) owns none passes =
          absurd (
            rw e at (candidates_complete fl endpoint estimated pool now accounts a c i owns passes))

  -- When the router finds no account, the estimate did not raise and every account of the pool is
  -- refused for a reason.
  pub select_account_complete :
      {e : String} {rejections : Dict Reason} (a : Account)
      → select_account fl accounts endpoint payload now ≡ unavailable e rejections
      → In a accounts
      → (estimated : ℤ) × (estimate_credits endpoint payload none ≡ some estimated)
        × ((r : Reason) × (rejection_reason a
                (active_credential a.credentials)
                endpoint
                estimated
                (total_usage no_usage (in_team a.team_label accounts))
                now
              ≡ some r))
  unfolding select_account
  select_account_complete a h i =
      let (estimated, priced, e) = unavailable_from (estimate_credits endpoint payload none) h in
      let (r, refused) = refused_with estimated a i e in
      (estimated, priced, (r, rw (build_team_usage-total a.team_label accounts) at refused))
