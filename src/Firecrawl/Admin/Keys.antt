-- ===== src/Firecrawl/Admin/Keys.antt =====
-- app/modules/firecrawl: the ids of the accounts stay distinct, whatever the administrators, the clients and the
-- refresh do.
use firecrawl_lb.Prelude.{
  String, Option, none, some, List, [], ◌∷◌, ◌++◌, ◌≡◌, refl, sym, ap, subst, arith, inl, inr, ◌⊎◌,
  In, find, if_elim, any,
}
use firecrawl_lb.Prelude.Text.{eq_iff}
use firecrawl_lb.Firecrawl.Models.{AccountStatus}
use firecrawl_lb.Firecrawl.Records.{AccountRecord, Db, change, account_is, get_account}
use firecrawl_lb.Firecrawl.Repository.{charge}
use firecrawl_lb.Firecrawl.Service.Outcomes.{Kept}
use firecrawl_lb.Firecrawl.Service.Cooldown.{ids, IsDistinct, ids-change, charge-id}
use firecrawl_lb.Firecrawl.Admin.{
  AdminAnswer, AccountCreateRequest, AccountUpdateRequest, AccountResponse, Update, unset, set_null,
  set_to, created, new_account, has_label, update_found, update_with, apply_updates,
}

abbrev pub IsKeyed : List AccountRecord → Type 0
IsKeyed rs = IsDistinct (ids rs)

pub change-IsKeyed :
    (key : String) (f : AccountRecord → AccountRecord) (rs : List AccountRecord)
    → ((r : AccountRecord) → (f r).id ≡ r.id)
    → IsKeyed rs
    → IsKeyed (change (account_is key) f rs)
change-IsKeyed key f rs keeps h = subst IsDistinct (sym (ids-change key f rs keeps)) h

pub IsKeyed-Kept : (key : String) → Kept IsKeyed key
IsKeyed-Kept key = record {
  charged = λ c xs. change-IsKeyed key (charge c) xs (charge-id c);
  exhausted = λ xs. change-IsKeyed key _ xs (λ r. refl);
  limited = λ until xs. change-IsKeyed key _ xs (λ r. refl);
}

In-append_one : (x y : String) (xs : List String) → In x (xs ++ y ∷ []) → (x ≡ y) ⊎ In x xs
In-append_one x y [] (inl e) = inl e
In-append_one x y [] (inr h) = absurd h
In-append_one x y (z ∷ xs) (inl e) = inr (inl e)
In-append_one x y (z ∷ xs) (inr h) = elim (In-append_one x y xs h) [
  | inl e ↦ inl e
  | inr k ↦ inr (inr k)
]

IsDistinct-append :
    (y : String) (xs : List String) → ¬ In y xs → IsDistinct xs → IsDistinct (xs ++ y ∷ [])
IsDistinct-append y [] new d = (λ h. h, tt)
IsDistinct-append y (x ∷ xs) new (fresh, d) = (
  λ h. elim (In-append_one x y xs h) [ inl e ↦ new (inl (sym e)) | inr k ↦ fresh k ],
  IsDistinct-append y xs (λ h. new (inr h)) d,
)

ids-append :
    (rs : List AccountRecord) (r : AccountRecord) → ids (rs ++ r ∷ []) ≡ ids rs ++ r.id ∷ []
ids-append [] r = refl
ids-append (s ∷ rs) r = ap (λ (l : List String). s.id ∷ l) (ids-append rs r)

missing-In :
    (key : String) (rs : List AccountRecord) → find (account_is key) rs ≡ none → ¬ In key (ids rs)
missing-In key [] h i = i
missing-In key (r ∷ rs) h (inl e) = ground (arith, eq_iff r.id key)
missing-In key (r ∷ rs) h (inr i) = missing-In key rs (ground (arith)) i

pub created-IsKeyed :
    (payload : AccountCreateRequest) (db : Db) (o : Option AccountRecord)
    → get_account payload.id db ≡ o
    → IsKeyed db.accounts
    → IsKeyed (created payload db o).1.accounts
created-IsKeyed payload db (some a) e h = h
created-IsKeyed payload db none e h =
    if_elim (λ (r : AdminAnswer AccountResponse × Db). IsKeyed r.1.accounts)
      (any (has_label payload.team_label) db.accounts) h
      (subst IsDistinct (sym (ids-append db.accounts (new_account payload)))
        (IsDistinct-append payload.id (ids db.accounts) (missing-In payload.id db.accounts e) h))

update_with-IsKeyed :
    (status : Update AccountStatus) (payload : AccountUpdateRequest) (a : AccountRecord) (db : Db)
    → IsKeyed db.accounts
    → IsKeyed (update_with status payload a db).1.accounts
unfolding apply_updates
update_with-IsKeyed set_null payload a db h = h
update_with-IsKeyed unset payload a db h =
    change-IsKeyed a.id (apply_updates payload) db.accounts (λ r. refl) h
update_with-IsKeyed (set_to s) payload a db h =
    change-IsKeyed a.id (apply_updates payload) db.accounts (λ r. refl) h

pub update_found-IsKeyed :
    (payload : AccountUpdateRequest) (db : Db) (o : Option AccountRecord)
    → IsKeyed db.accounts
    → IsKeyed (update_found payload db o).1.accounts
update_found-IsKeyed payload db none h = h
update_found-IsKeyed payload db (some a) h = update_with-IsKeyed payload.status payload a db h
