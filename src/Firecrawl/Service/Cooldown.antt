-- ===== src/Firecrawl/Service/Cooldown.antt =====
-- app/modules/firecrawl/service.py, repository.py, routing.py: how an account enters and leaves the
-- state `rate_limited`.
use firecrawl_lb.Prelude.{
  String, false, ◌≡◌, refl, ap, sym, ◌∙◌, subst, Option, List, [], ◌∷◌, inl, inr, arith, Bool-cases,
  if_elim, In,
}
use firecrawl_lb.Prelude.Int.{ℤ}
use firecrawl_lb.Prelude.Text.{eq_iff}
use firecrawl_lb.Prelude.Dict.{Dict}
use firecrawl_lb.Json.{Fields}
use firecrawl_lb.Firecrawl.Models.{SelectedAccount, is_active}
use firecrawl_lb.Firecrawl.Records.{AccountRecord, Db, change, account_is}
use firecrawl_lb.Firecrawl.Routing.{selected}
use firecrawl_lb.Firecrawl.Routing.Scores.{Floats}
use firecrawl_lb.Firecrawl.Client.{Requester}
use firecrawl_lb.Firecrawl.Repository.{charge}
use firecrawl_lb.Firecrawl.Service.Outcomes.{Kept, proxy-keeps, submit_job-keeps}
use firecrawl_lb.Firecrawl.Service.{Clock, proxy, submit_job, choice}
use firecrawl_lb.Firecrawl.Service.Listing.{selected_record}

abbrev pub ids : List AccountRecord → List String
ids [] = []
ids (r ∷ rs) = r.id ∷ ids rs

-- No two items are the same: a primary key.
abbrev pub IsDistinct : List String → Type 0
IsDistinct [] = Unit {0}
IsDistinct (x ∷ xs) = (¬ In x xs) × IsDistinct xs

id-In : (a : AccountRecord) (rs : List AccountRecord) → In a rs → In a.id (ids rs)
id-In a [] h = h
id-In a (r ∷ rs) (inl e) = inl (ap (λ (x : AccountRecord). x.id) e)
id-In a (r ∷ rs) (inr h) = inr (id-In a rs h)

same_record :
    (a b : AccountRecord) (rs : List AccountRecord)
    → IsDistinct (ids rs)
    → In a rs
    → In b rs
    → a.id ≡ b.id
    → a ≡ b
same_record a b [] d h k e = absurd h
same_record a b (r ∷ rs) d (inl p) (inl q) e = p ∙ sym q
same_record a b (r ∷ rs) d (inl p) (inr k) e = absurd (
    d.0 (
      subst (λ (i : String). In i (ids rs)) (sym e ∙ ap (λ (x : AccountRecord). x.id) p)
        (id-In b rs k)))
same_record a b (r ∷ rs) d (inr h) (inl q) e = absurd (
    d.0 (
      subst (λ (i : String). In i (ids rs)) (e ∙ ap (λ (x : AccountRecord). x.id) q)
        (id-In a rs h)))
same_record a b (r ∷ rs) d (inr h) (inr k) e = same_record a b rs d.1 h k e

pub ids-change :
    (key : String) (f : AccountRecord → AccountRecord) (rs : List AccountRecord)
    → ((r : AccountRecord) → (f r).id ≡ r.id)
    → ids (change (account_is key) f rs) ≡ ids rs
unfolding change
ids-change key f [] keeps = refl
ids-change key f (r ∷ rs) keeps =
    if_elim (λ (xs : List AccountRecord). ids xs ≡ r.id ∷ ids rs) (account_is key r)
      (ap (λ (i : String). i ∷ ids rs) (keeps r))
      (ap (λ (l : List String). r.id ∷ l) (ids-change key f rs keeps))

pub charge-id : (c : ℤ) (r : AccountRecord) → (charge c r).id ≡ r.id
unfolding charge
charge-id c r = ground arith

In-change :
    (a : AccountRecord) (key : String) (f : AccountRecord → AccountRecord) (rs : List AccountRecord)
    → account_is key a ≡ false
    → In a rs
    → In a (change (account_is key) f rs)
unfolding change
In-change a key f [] ne h = h
In-change a key f (r ∷ rs) ne (inl e) = elim (Bool-cases (account_is key r)) [
  | inl t ↦ absurd (cc (ap (account_is key) e))
  | inr t ↦ rw t (inl e)
]
In-change a key f (r ∷ rs) ne (inr h) =
    if_elim (In a) (account_is key r) (inr h) (inr (In-change a key f rs ne h))

-- The record `a` stands in a table with distinct keys.
abbrev Stands : AccountRecord → List AccountRecord → Type 0
Stands a rs = In a rs × IsDistinct (ids rs)

Stands-change :
    (a : AccountRecord) (key : String) (f : AccountRecord → AccountRecord) (rs : List AccountRecord)
    → account_is key a ≡ false
    → ((r : AccountRecord) → (f r).id ≡ r.id)
    → Stands a rs
    → Stands a (change (account_is key) f rs)
Stands-change a key f rs ne keeps s =
    (In-change a key f rs ne s.0, subst IsDistinct (sym (ids-change key f rs keeps)) s.1)

Stands-Kept : (a : AccountRecord) (key : String) → account_is key a ≡ false → Kept (Stands a) key
Stands-Kept a key ne = record {
  charged = λ c xs. Stands-change a key (charge c) xs ne (charge-id c);
  exhausted = λ xs. Stands-change a key _ xs ne (λ r. refl);
  limited = λ until xs. Stands-change a key _ xs ne (λ r. refl);
}

-- A request of a client: a proxied one, or a job at a path of its own.
pub data ClientRequest : Type 0 where
  proxies : String → Fields → Dict String → Requester → Clock → ClientRequest
  submits : String → String → Fields → Dict String → Requester → Clock → ClientRequest

module _ (fl : Floats) (decrypt : String → Option String) where
  abbrev pub serve : ClientRequest → Db → Db
  serve (proxies endpoint payload params client clock) db =
      (proxy fl decrypt endpoint payload params client clock db).1
  serve (submits endpoint path payload params client clock) db =
      (submit_job fl decrypt endpoint path payload params client clock db).1

  pub serve_all : List ClientRequest → Db → Db
  serve_all [] db = db
  serve_all (r ∷ rs) db = serve_all rs (serve r db)

  unselected :
      (a : AccountRecord) (endpoint : String) (payload : Fields) (clock : Clock) (db : Db)
      (p : SelectedAccount)
      → Stands a db.accounts
      → is_active a.status ≡ false
      → choice fl decrypt endpoint payload clock db ≡ selected p
      → account_is p.account.id a ≡ false
  unselected a endpoint payload clock db p s idle h =
      let (r, i, id, up) =
        selected_record decrypt fl endpoint payload clock.selection_time db _ p refl h in
      elim (Bool-cases (account_is p.account.id a)) [
        | inl t ↦ absurd (
            cc (
              ap (λ (x : AccountRecord). is_active x.status)
                  (same_record a r db.accounts s.1 s.0 i ((eq_iff a.id p.account.id).0 t ∙ sym id)),
              up,
              idle,
            ))
        | inr f ↦ f
      ]

  serve-Stands :
      (a : AccountRecord) (r : ClientRequest) (db : Db)
      → is_active a.status ≡ false
      → Stands a db.accounts
      → Stands a (serve r db).accounts
  serve-Stands a (proxies endpoint payload params client clock) db idle s =
      proxy-keeps (Stands a) fl decrypt endpoint payload params client clock db
        (λ p e. Stands-Kept a p.account.id (unselected a endpoint payload clock db p s idle e)) s
  serve-Stands a (submits endpoint path payload params client clock) db idle s =
      submit_job-keeps (Stands a) fl decrypt endpoint payload params client clock db
        (λ p e. Stands-Kept a p.account.id (unselected a endpoint payload clock db p s idle e)) path
        s

  -- When the accounts have distinct ids, one that is not active, be it rate limited with a cooldown
  -- that is long over, is left exactly as it is by any proxied requests and submitted jobs that run one
  -- after another, at any times: none of them makes it active again. A poll that settles a job of the
  -- account does.
  pub serve_all-inactive :
      (a : AccountRecord) (requests : List ClientRequest) (db : Db)
      → is_active a.status ≡ false
      → IsDistinct (ids db.accounts)
      → In a db.accounts
      → In a (serve_all requests db).accounts
  unfolding serve_all
  serve_all-inactive a [] db idle d i = i
  serve_all-inactive a (r ∷ rs) db idle d i =
      let s = serve-Stands a r db idle (i, d) in serve_all-inactive a rs (serve r db) idle s.1 s.0
