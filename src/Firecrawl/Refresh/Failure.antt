-- ===== src/Firecrawl/Refresh/Failure.antt =====
-- app/modules/firecrawl/refresh.py: a pass that one account ends.
use firecrawl_lb.Prelude.{
  ℕ, String, Option, none, some, List, [], ◌∷◌, ◌≡◌, refl, sym, ap, ◌∙◌, inl, inr, if_elim, In,
}
use firecrawl_lb.Prelude.Text.{str_lt}
use firecrawl_lb.Firecrawl.Records.{AccountRecord, CredentialRecord, Db, change_account}
use firecrawl_lb.Firecrawl.Client.{Requester}
use firecrawl_lb.Firecrawl.Repository.{order_by_id, insert_by_id}
use firecrawl_lb.Firecrawl.Refresh.{
  RefreshLibrary, refresh_account, go_on, refresh_each, refresh_once,
}

module _ (lib : RefreshLibrary) (client : Requester) (now : ℕ) where
  each-stops :
      (a : AccountRecord) (accounts : List AccountRecord) (db : Db)
      → In a accounts
      → ((credentials : List CredentialRecord)
          → credentials ≡ db.credentials
          → refresh_account lib client now credentials a.id ≡ none)
      → refresh_each lib client now accounts db ≡ none
  unfolding refresh_each
  each-stops a [] db i h = absurd i
  each-stops a (b ∷ accounts) db (inl e) h =
      rw (ap (λ (x : AccountRecord). x.id) (sym e)) (rw (h db.credentials refl) refl)
  each-stops a (b ∷ accounts) db (inr i) h =
      stopped b.id (refresh_account lib client now db.credentials b.id)
        (λ later same. each-stops a accounts later i (λ credentials e. h credentials (e ∙ same)))
    where
      stopped :
          (id : String) (o : Option (AccountRecord → AccountRecord))
          → ((later : Db)
              → later.credentials ≡ db.credentials
              → refresh_each lib client now accounts later ≡ none)
          → go_on lib id o (refresh_each lib client now accounts) db ≡ none
      stopped id none k = refl
      stopped id (some f) k = k (change_account id f db) refl

  moved :
      (a b c : AccountRecord) (accounts rest : List AccountRecord)
      → In a (b ∷ c ∷ accounts)
      → (In a (b ∷ accounts) → In a rest)
      → In a (c ∷ rest)
  moved a b c accounts rest (inl e) h = inr (h (inl e))
  moved a b c accounts rest (inr (inl e)) h = inl e
  moved a b c accounts rest (inr (inr k)) h = inr (h (inr k))

  In-insert :
      (a b : AccountRecord) (accounts : List AccountRecord)
      → In a (b ∷ accounts)
      → In a (insert_by_id b accounts)
  In-insert a b [] i = i
  In-insert a b (c ∷ accounts) i =
      if_elim (In a) (str_lt c.id b.id)
        (moved a b c accounts (insert_by_id b accounts) i (In-insert a b accounts)) i

  In-order :
      (a : AccountRecord) (accounts : List AccountRecord)
      → In a accounts
      → In a (order_by_id accounts)
  unfolding order_by_id
  In-order a [] i = i
  In-order a (b ∷ accounts) (inl e) = In-insert a b (order_by_id accounts) (inl e)
  In-order a (b ∷ accounts) (inr i) =
      In-insert a b (order_by_id accounts) (inr (In-order a accounts i))

  -- One account whose active credential cannot be decrypted ends the pass with an exception, before anything is
  -- committed: no account is refreshed at all.
  pub refresh_once-raises :
      (a : AccountRecord) (db : Db)
      → In a db.accounts
      → refresh_account lib client now db.credentials a.id ≡ none
      → refresh_once lib client now db ≡ none
  unfolding refresh_once
  refresh_once-raises a db i h =
      each-stops a (order_by_id db.accounts) db (In-order a db.accounts i) (λ credentials e.
        ap (λ (cs : List CredentialRecord). refresh_account lib client now cs a.id) e ∙ h)
