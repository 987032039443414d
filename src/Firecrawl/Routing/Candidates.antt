-- ===== src/Firecrawl/Routing/Candidates.antt =====
-- app/modules/firecrawl/routing.py: the candidates that the loop of `select_account` collects are
-- the accounts with a credential and without a reason to refuse them, in order.
use firecrawl_lb.Prelude.{
  ℕ, String, ◌≡◌, refl, sym, ap, ◌∙◌, ◌⊎◌, inl, inr, Option, none, some, List, [], ◌∷◌, ◌++◌, arith,
  In, In-append_left,
}
use firecrawl_lb.Prelude.Int.{ℤ}
use firecrawl_lb.Prelude.Dict.{Dict}
use firecrawl_lb.Firecrawl.Models.{Account, Credential}
use firecrawl_lb.Firecrawl.Routing.Scores.{Floats}
use firecrawl_lb.Firecrawl.Routing.Team.{TeamUsage, usage_of}
use firecrawl_lb.Firecrawl.Routing.{
  Reason, rejection_reason, active_credential, score_account, Candidate, Sorted, file_account,
  sort_accounts,
}
use mathlib.Core.List.{append_assoc, append-nil}

module _ (fl : Floats) (endpoint : String) (estimated : ℤ) (usage : Dict TeamUsage) (now : ℕ) where
  abbrev pub team_of : Account → TeamUsage
  team_of a = usage_of a.team_label usage

  abbrev pub reason_of : Account → Option Reason
  reason_of a =
      rejection_reason a (active_credential a.credentials) endpoint estimated (team_of a) now

  abbrev pub as_candidate : Account → Option Credential → Option Reason → List (Candidate fl)
  as_candidate a credential (some reason) = []
  as_candidate a none none = []
  as_candidate a (some c) none =
      record { score = score_account fl a endpoint (team_of a); account = a; credential = c } ∷ []

  abbrev pub candidates_of : List Account → List (Candidate fl)
  candidates_of [] = []
  candidates_of (a ∷ accounts) =
      as_candidate a (active_credential a.credentials) (reason_of a) ++ candidates_of accounts

  file-candidates :
      (a : Account) (credential : Option Credential) (reason : Option Reason) (s : Sorted fl)
      → (file_account fl endpoint (team_of a) a credential reason s).candidates
        ≡ s.candidates ++ as_candidate a credential reason
  unfolding file_account
  file-candidates a credential (some reason) s = sym (append-nil s.candidates)
  file-candidates a none none s = sym (append-nil s.candidates)
  file-candidates a (some c) none s = refl

  pub sort-candidates :
      (s : Sorted fl) (accounts : List Account)
      → (sort_accounts fl endpoint estimated usage now s accounts).candidates
        ≡ s.candidates ++ candidates_of accounts
  unfolding sort_accounts
  sort-candidates s [] = sym (append-nil s.candidates)
  sort-candidates s (a ∷ accounts) =
      sort-candidates
        (file_account fl endpoint (team_of a) a (active_credential a.credentials) (reason_of a) s)
        accounts
      ∙ rw (file-candidates a (active_credential a.credentials) (reason_of a) s)
          (append_assoc s.candidates _ _)

  as_candidate_sound :
      (a : Account) (credential : Option Credential) (reason : Option Reason) (c : Candidate fl)
      (rest : List (Candidate fl))
      → In c (as_candidate a credential reason ++ rest)
      → ((c.account ≡ a)
          × (credential ≡ some c.credential)
          × (reason ≡ none)
          × (c.score ≡ score_account fl a endpoint (team_of a)))
        ⊎ In c rest
  as_candidate_sound a credential (some reason) c rest h = inr h
  as_candidate_sound a none none c rest h = inr h
  as_candidate_sound a (some k) none c rest (inl e) = inl (
    ap (λ (x : Candidate fl). x.account) e,
    ap (λ (x : Candidate fl). some x.credential) (sym e),
    refl,
    ap (λ (x : Candidate fl). x.score) e,
  )
  as_candidate_sound a (some k) none c rest (inr h) = inr h

  pub candidates_sound :
      (accounts : List Account) (c : Candidate fl)
      → In c (candidates_of accounts)
      → In c.account accounts
        × (active_credential c.account.credentials ≡ some c.credential)
        × (reason_of c.account ≡ none)
        × (c.score ≡ score_account fl c.account endpoint (team_of c.account))
  candidates_sound [] c h = absurd h
  candidates_sound (a ∷ accounts) c h =
      elim (as_candidate_sound a (active_credential a.credentials) (reason_of a) c
        (candidates_of accounts) h) [
          | inl (e, owns, passes, scored) ↦ (inl e, rw e owns, rw e passes, rw e scored)
          | inr h' ↦
              let (i, owns, passes, scored) = candidates_sound accounts c h' in
              (inr i, owns, passes, scored)
        ]

  as_candidate_complete :
      (a : Account) (credential : Option Credential) (reason : Option Reason) (c : Credential)
      → credential ≡ some c
      → reason ≡ none
      → In
          (record { score = score_account fl a endpoint (team_of a); account = a; credential = c })
          (as_candidate a credential reason)
  as_candidate_complete a credential (some r) c owns passes = cc
  as_candidate_complete a none none c owns passes = cc
  as_candidate_complete a (some k) none c owns passes = inl (ground arith)

  In-later :
      (a : Account) (accounts : List Account) (credential : Option Credential)
      (reason : Option Reason) (c : Candidate fl)
      → In c (candidates_of accounts)
      → In c (as_candidate a credential reason ++ candidates_of accounts)
  In-later a accounts credential (some r) c h = h
  In-later a accounts none none c h = h
  In-later a accounts (some k) none c h = inr h

  pub candidates_complete :
      (accounts : List Account) (a : Account) (c : Credential)
      → In a accounts
      → active_credential a.credentials ≡ some c
      → reason_of a ≡ none
      → In
          (record { score = score_account fl a endpoint (team_of a); account = a; credential = c })
          (candidates_of accounts)
  candidates_complete [] a c h owns passes = absurd h
  candidates_complete (b ∷ accounts) a c (inl e) owns passes = rw e (
      In-append_left _ (as_candidate b (active_credential b.credentials) (reason_of b))
        (candidates_of accounts)
        (as_candidate_complete b (active_credential b.credentials) (reason_of b) c (rw (← e) owns)
          (rw (← e) passes)))
  candidates_complete (b ∷ accounts) a c (inr h) owns passes =
      In-later b accounts (active_credential b.credentials) (reason_of b) _
        (candidates_complete accounts a c h owns passes)
