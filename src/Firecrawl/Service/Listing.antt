-- ===== src/Firecrawl/Service/Listing.antt =====
-- app/modules/firecrawl/repository.py and routing.py: a selected account comes from an active record.
use firecrawl_lb.Prelude.{
  ℕ, String, Bool, true, false, ◌≡◌, refl, ap, sym, ◌∙◌, subst, Option, none, some, List, [], ◌∷◌,
  inl, inr, arith, In, if◌then◌else◌,
}
use firecrawl_lb.Prelude.Int.{ℤ}
use firecrawl_lb.Prelude.Text.{str_lt}
use firecrawl_lb.Json.{Fields}
use firecrawl_lb.Firecrawl.Models.{Account, Credential, SelectedAccount, is_active}
use firecrawl_lb.Firecrawl.Records.{AccountRecord, CredentialRecord, Db}
use firecrawl_lb.Firecrawl.Routing.{selected, rejection_reason}
use firecrawl_lb.Firecrawl.Routing.Team.{TeamUsage}
use firecrawl_lb.Firecrawl.Routing.Admission.{select_account_sound}
use firecrawl_lb.Firecrawl.Routing.Scores.{Floats}
use firecrawl_lb.Firecrawl.Repository.{
  list_accounts, to_domain_accounts, to_domain_account, order_by_id, insert_by_id, both,
  with_credentials,
}
use firecrawl_lb.Firecrawl.Service.{select_from}

-- Only an active account passes the router, whatever the time and its cooldown.
pub passes-active :
    (a : Account) (c : Option Credential) (endpoint : String) (estimated : ℤ) (team : TeamUsage)
    (now : ℕ)
    → rejection_reason a c endpoint estimated team now ≡ none
    → is_active a.status ≡ true
unfolding rejection_reason
passes-active a c endpoint estimated team now h = ground arith

-- `a` is the account of the record `r`.
abbrev IsOf : AccountRecord → Account → Type 0
IsOf r a = (a.id ≡ r.id) × (a.status ≡ r.status)

insert_at :
    (a r b : AccountRecord) (bs : List AccountRecord) (t : Bool)
    → (In a (insert_by_id r bs) → In a (r ∷ bs))
    → In a (if t then b ∷ insert_by_id r bs else r ∷ b ∷ bs)
    → In a (r ∷ b ∷ bs)
insert_at a r b bs true ih (inl e) = inr (inl e)
insert_at a r b bs true ih (inr k) = elim (ih k) [ inl e ↦ inl e | inr q ↦ inr (inr q) ]
insert_at a r b bs false ih k = k

insert-In :
    (a r : AccountRecord) (rs : List AccountRecord) → In a (insert_by_id r rs) → In a (r ∷ rs)
insert-In a r [] h = h
insert-In a r (b ∷ bs) h = insert_at a r b bs (str_lt b.id r.id) (insert-In a r bs) h

order-In : (a : AccountRecord) (rs : List AccountRecord) → In a (order_by_id rs) → In a rs
unfolding order_by_id
order-In a [] h = h
order-In a (r ∷ rs) h = elim (insert-In a r (order_by_id rs) h) [
  | inl e ↦ inl e
  | inr k ↦ inr (order-In a rs k)
]

both-some :
    {A : Type 0} (o : Option A) (os : Option (List A)) {xs : List A}
    → both o os ≡ some xs
    → (x : A) × (ys : List A) × (o ≡ some x) × (os ≡ some ys) × (xs ≡ x ∷ ys)
both-some (some x) (some ys) h = (x, ys, refl, refl, ground arith)
both-some none os h = cc
both-some (some x) none h = cc

with_credentials-IsOf :
    (r : AccountRecord) (o : Option (List Credential)) (a : Account)
    → with_credentials r o ≡ some a
    → IsOf r a
with_credentials-IsOf r none a h = cc
with_credentials-IsOf r (some cs) a h = (ground arith, ground arith)

module _ (decrypt : String → Option String) where
  domain-IsOf :
      (credentials : List CredentialRecord) (r : AccountRecord) (a : Account)
      → to_domain_account decrypt credentials r ≡ some a
      → IsOf r a
  unfolding to_domain_account
  domain-IsOf credentials r a h = with_credentials-IsOf r _ a h

  accounts_from :
      (credentials : List CredentialRecord) (rs : List AccountRecord) (accounts : List Account)
      (a : Account)
      → to_domain_accounts decrypt credentials rs ≡ some accounts
      → In a accounts
      → (r : AccountRecord) × In r rs × IsOf r a
  unfolding to_domain_accounts
  accounts_from credentials [] accounts a e h =
      absurd
        (subst (λ (o : Option (List Account)). elim o [ none ↦ ⊥ | some xs ↦ In a xs ]) (sym e) h)
  accounts_from credentials (r ∷ rs) accounts a e h =
      let (x, ys, ex, eys, exs) = both-some _ (to_domain_accounts decrypt credentials rs) e in
      elim (subst (In a) exs h) [
        | inl q ↦ (r, inl refl, rw q (domain-IsOf credentials r x ex))
        | inr k ↦ let (r', i, o) = accounts_from credentials rs ys a eys k in (r', inr i, o)
      ]

  module _ (fl : Floats) where
    pub selected_record :
        (endpoint : String) (payload : Fields) (now : ℕ) (db : Db) (o : Option (List Account))
        (p : SelectedAccount)
        → list_accounts decrypt db ≡ o
        → select_from fl endpoint payload now o ≡ selected p
        → (r : AccountRecord) × In r db.accounts
          × (r.id ≡ p.account.id)
          × (is_active r.status ≡ true)
    unfolding select_from list_accounts
    selected_record endpoint payload now db none p listed h = cc
    selected_record endpoint payload now db (some accounts) p listed h =
        let (i, priced, ok) = select_account_sound fl accounts endpoint payload now h in
        let (r, k, o) =
          accounts_from db.credentials (order_by_id db.accounts) accounts p.account listed i in
        (
          r,
          order-In r db.accounts k,
          sym o.0,
          ap is_active (sym o.1)
              ∙ passes-active p.account (some p.credential) endpoint p.estimated_credits _ now
                  ok.passes,
        )
