-- ===== src/Firecrawl/Service/Solvency.antt =====
-- app/modules/firecrawl/service.py: no account goes into debt.
use firecrawl_lb.Prelude.{
  String, Bool, true, false, ◌≡◌, Option, none, some, List, [], ◌∷◌, All, if_elim, if◌then◌else◌,
}
use firecrawl_lb.Prelude.Int.{ℤ, pos, negsuc}
use firecrawl_lb.Prelude.Dict.{Dict}
use firecrawl_lb.Json.{Fields}
use firecrawl_lb.Firecrawl.Models.{SelectedAccount}
use firecrawl_lb.Firecrawl.Records.{AccountRecord, Db, change, account_is}
use firecrawl_lb.Firecrawl.Routing.{selected}
use firecrawl_lb.Firecrawl.Routing.Scores.{Floats}
use firecrawl_lb.Firecrawl.Client.{Requester}
use firecrawl_lb.Firecrawl.Repository.{charge, spend, is_rate_limited}
use firecrawl_lb.Firecrawl.Service.{Clock, proxy, submit_job, choice}
use firecrawl_lb.Firecrawl.Service.Outcomes.{Kept, proxy-keeps, submit_job-keeps}

All-change :
    {A : Type 0} (P : A → Type 0) (is_it : A → Bool) (f : A → A) (xs : List A)
    → ((x : A) → P x → P (f x))
    → All P xs
    → All P (change is_it f xs)
unfolding change
All-change P is_it f [] keeps h = tt
All-change P is_it f (x ∷ xs) keeps h =
    elim (is_it x) as (λ b. All P (if b then f x ∷ xs else x ∷ change is_it f xs)) [
      | true ↦ (keeps x h.0, h.1)
      | false ↦ (h.0, All-change P is_it f xs keeps h.1)
    ]

abbrev pub IsSolvent : Option ℤ → Type 0
IsSolvent none = Unit {0}
IsSolvent (some (pos n)) = Unit {0}
IsSolvent (some (negsuc n)) = ⊥

charge-IsSolvent :
    (c : ℤ) (a : AccountRecord)
    → IsSolvent a.remaining_credits_live
    → IsSolvent (charge c a).remaining_credits_live
unfolding charge
charge-IsSolvent c a h =
    if_elim (λ (r : AccountRecord). IsSolvent r.remaining_credits_live) (is_rate_limited a.status)
      (spent a.remaining_credits_live) (spent a.remaining_credits_live)
  where
    spent : (o : Option ℤ) → IsSolvent (spend o c)
    spent none = tt
    spent (some r) = tt

abbrev pub AllSolvent : List AccountRecord → Type 0
AllSolvent = All (λ a. IsSolvent a.remaining_credits_live)

AllSolvent-Kept : (id : String) → Kept AllSolvent id
AllSolvent-Kept id =
    let P = λ (a : AccountRecord). IsSolvent a.remaining_credits_live in
    record {
      charged = λ c xs. All-change P (account_is id) (charge c) xs (charge-IsSolvent c);
      exhausted = λ xs. All-change P (account_is id) _ xs (λ a s. s);
      limited = λ until xs. All-change P (account_is id) _ xs (λ a s. s);
    }

module _ (fl : Floats) (decrypt : String → Option String) where
  -- When no account is in debt, none is after a proxied request or a submitted job, however the
  -- upstream answers and whatever it claims to have charged.
  pub requests_keep_solvent :
      (endpoint path : String) (payload : Fields) (params : Dict String) (client : Requester)
      (clock : Clock) (db : Db)
      → AllSolvent db.accounts
      → AllSolvent (proxy fl decrypt endpoint payload params client clock db).1.accounts
        × AllSolvent (submit_job fl decrypt endpoint path payload params client clock db).1.accounts
  requests_keep_solvent endpoint path payload params client clock db h =
      let kept =
        λ (s : SelectedAccount) (e : choice fl decrypt endpoint payload clock db ≡ selected s).
          AllSolvent-Kept s.account.id in
      (
        proxy-keeps AllSolvent fl decrypt endpoint payload params client clock db kept h,
        submit_job-keeps AllSolvent fl decrypt endpoint payload params client clock db kept path h,
      )
