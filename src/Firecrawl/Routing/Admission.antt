-- ===== src/Firecrawl/Routing/Admission.antt =====
-- app/modules/firecrawl/routing.py: what `select_account` promises of the account that it returns.
use firecrawl_lb.Prelude.{
  ℕ, String, ◌≡◌, refl, sym, ap, subst, ◌∙◌, false, Option, none, some, List, [], ◌∷◌, arith, In,
}
use firecrawl_lb.Prelude.Int.{ℤ}
use firecrawl_lb.Prelude.Dict.{Dict}
use firecrawl_lb.Json.{Fields}
use firecrawl_lb.Firecrawl.Models.{Account, Credential, SelectedAccount}
use firecrawl_lb.Firecrawl.Usage.{estimate_credits}
use firecrawl_lb.Firecrawl.Routing.Scores.{Floats}
use firecrawl_lb.Firecrawl.Routing.Team.{
  TeamUsage, usage_of, build_team_usage, build_team_usage-total, no_usage, total_usage, in_team,
}
use firecrawl_lb.Firecrawl.Routing.Choice.{max_candidate-greatest, max_candidate-In}
use firecrawl_lb.Firecrawl.Routing.Candidates.{
  candidates_of, sort-candidates, candidates_sound, candidates_complete,
}
use firecrawl_lb.Firecrawl.Routing.{
  Reason, rejection_reason, active_credential, score_account, Candidate, greater, Sorted,
  sort_accounts, choose, select_with, select_account, max_candidate, selected,
}

-- The account passes every test of the router, with its team's usage summed over the whole pool.
pub record Admissible (accounts : List Account) (endpoint : String) (estimated : ℤ) (now : ℕ)
    (a : Account) (c : Credential) : Type 0 where
  pub owns : active_credential a.credentials ≡ some c
  pub passes :
      rejection_reason a
        (some c)
        endpoint
        estimated
        (total_usage no_usage (in_team a.team_label accounts))
        now
      ≡ none

module _ (fl : Floats) (accounts : List Account) (endpoint : String) (payload : Fields)
    (now : ℕ) where
  abbrev pool : Dict TeamUsage
  pool = build_team_usage accounts

  choose-selected :
      (estimated : ℤ) (s : Sorted fl) (cs : List (Candidate fl)) {p : SelectedAccount}
      → choose fl endpoint estimated s cs ≡ selected p
      → (c : Candidate fl) × (ds : List (Candidate fl)) × (cs ≡ c ∷ ds)
        × (p ≡ record {
          account = (max_candidate fl c ds).account;
          credential = (max_candidate fl c ds).credential;
          estimated_credits = estimated;
        })
  unfolding choose
  choose-selected estimated s [] h = cc
  choose-selected estimated s (c ∷ cs) h = (c, cs, refl, ground arith)

  to_total :
      (estimated : ℤ) (a : Account) (credential : Option Credential) {r : Option Reason}
      → rejection_reason a credential endpoint estimated (usage_of a.team_label pool) now ≡ r
      → rejection_reason a credential endpoint estimated
          (total_usage no_usage (in_team a.team_label accounts))
          now
        ≡ r
  to_total estimated a credential h = rw (build_team_usage-total a.team_label accounts) at h

  of_total :
      (estimated : ℤ) (a : Account) (credential : Option Credential) {r : Option Reason}
      → rejection_reason a credential endpoint estimated
          (total_usage no_usage (in_team a.team_label accounts))
          now
        ≡ r
      → rejection_reason a credential endpoint estimated (usage_of a.team_label pool) now ≡ r
  of_total estimated a credential h = rw (build_team_usage-total a.team_label accounts) h

  abbrev cand : Account → Credential → Candidate fl
  cand a c = record {
    score = score_account fl a endpoint (usage_of a.team_label pool);
    account = a;
    credential = c;
  }

  abbrev winner : ℤ → Candidate fl → List (Candidate fl) → SelectedAccount
  winner estimated c ds = record {
    account = (max_candidate fl c ds).account;
    credential = (max_candidate fl c ds).credential;
    estimated_credits = estimated;
  }

  sorted : ℤ → Sorted fl
  sorted estimated =
      sort_accounts fl endpoint estimated pool now (record { candidates = []; rejections = [] })
        accounts

  sorted-candidates :
      (estimated : ℤ)
      → (sorted estimated).candidates ≡ candidates_of fl endpoint estimated pool now accounts
  unfolding sorted
  sorted-candidates estimated = sort-candidates fl endpoint estimated pool now _ accounts

  -- What a selection comes from: an estimate, and the greatest of the admissible candidates.
  selection_from :
      (credits : Option ℤ) {p : SelectedAccount}
      → select_with fl credits accounts endpoint now ≡ selected p
      → (estimated : ℤ) × (c : Candidate fl) × (ds : List (Candidate fl)) × (credits
          ≡ some estimated)
        × (candidates_of fl endpoint estimated pool now accounts ≡ c ∷ ds)
        × (p ≡ winner estimated c ds)
  unfolding select_with sorted
  selection_from none h = cc
  selection_from (some estimated) {p} h =
      let (c, ds, e, q) =
        choose-selected estimated (sorted estimated) (sorted estimated).candidates h in
      (estimated, c, ds, refl, sym (sorted-candidates estimated) ∙ e, q)

  abbrev Chosen : SelectedAccount → Type 0
  Chosen p =
      In p.account accounts
      × (estimate_credits endpoint payload none ≡ some p.estimated_credits)
      × Admissible accounts endpoint p.estimated_credits now p.account p.credential

  winner-Chosen :
      (estimated : ℤ) (c : Candidate fl) (ds : List (Candidate fl))
      → estimate_credits endpoint payload none ≡ some estimated
      → candidates_of fl endpoint estimated pool now accounts ≡ c ∷ ds
      → Chosen (winner estimated c ds)
  winner-Chosen estimated c ds priced e =
      let best = max_candidate fl c ds in
      let (i, owns, passes, scored) =
        candidates_sound fl endpoint estimated pool now accounts best
          (rw e (max_candidate-In fl c ds)) in
      (
        i,
        priced,
        record {
          owns = owns;
          passes = to_total estimated best.account (some best.credential) (rw owns at passes);
        },
      )

  -- The account that serves a request is one of the pool, it and its credential pass every test of
  -- the router (status, cooldown, credits, requests per minute and concurrency, its own and its
  -- team's), and the credits reserved are the estimate of the request.
  pub select_account_sound :
      {p : SelectedAccount}
      → select_account fl accounts endpoint payload now ≡ selected p
      → Chosen p
  unfolding select_account
  select_account_sound h =
      let (estimated, c, ds, priced, e, q) =
        selection_from (estimate_credits endpoint payload none) h in
      rw q (winner-Chosen estimated c ds priced e)

  winner-greatest :
      (estimated : ℤ) (c : Candidate fl) (ds : List (Candidate fl)) (a : Account) (k : Credential)
      → candidates_of fl endpoint estimated pool now accounts ≡ c ∷ ds
      → In a accounts
      → Admissible accounts endpoint estimated now a k
      → greater fl (cand a k) (max_candidate fl c ds) ≡ false
  winner-greatest estimated c ds a k e i ok = max_candidate-greatest fl c ds (cand a k) (
      rw e at (
        candidates_complete fl endpoint estimated pool now accounts a k i ok.owns
          (rw ok.owns (of_total estimated a (some k) ok.passes))))

  winner-scored :
      (estimated : ℤ) (c : Candidate fl) (ds : List (Candidate fl))
      → candidates_of fl endpoint estimated pool now accounts ≡ c ∷ ds
      → max_candidate fl c ds
        ≡ cand (max_candidate fl c ds).account (max_candidate fl c ds).credential
  winner-scored estimated c ds e =
      let best = max_candidate fl c ds in
      let (i, owns, passes, scored) =
        candidates_sound fl endpoint estimated pool now accounts best
          (rw e (max_candidate-In fl c ds)) in
      λ j. record { score = scored j; account = best.account; credential = best.credential }

  winner-beaten :
      (estimated : ℤ) (c : Candidate fl) (ds : List (Candidate fl)) (a : Account) (k : Credential)
      → candidates_of fl endpoint estimated pool now accounts ≡ c ∷ ds
      → In a accounts
      → Admissible accounts endpoint estimated now a k
      → greater fl
          (cand a k)
          (cand (winner estimated c ds).account (winner estimated c ds).credential)
        ≡ false
  winner-beaten estimated c ds a k e i ok =
      ap (greater fl (cand a k)) (sym (winner-scored estimated c ds e))
      ∙ winner-greatest estimated c ds a k e i ok

  -- No account that would be admitted too has a greater score, or the same score and a greater id,
  -- than the selected one.
  pub select_account-greatest :
      (p : SelectedAccount) (a : Account) (k : Credential)
      → select_account fl accounts endpoint payload now ≡ selected p
      → In a accounts
      → Admissible accounts endpoint p.estimated_credits now a k
      → greater fl (cand a k) (cand p.account p.credential) ≡ false
  unfolding select_account
  select_account-greatest p a k h =
      let (estimated, c, ds, priced, e, q) =
        selection_from (estimate_credits endpoint payload none) h in
      subst
        (λ (s : SelectedAccount).
          In a accounts
          → Admissible accounts endpoint s.estimated_credits now a k
          → greater fl (cand a k) (cand s.account s.credential) ≡ false)
        (sym q) (winner-beaten estimated c ds a k e)
