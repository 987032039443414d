-- ===== src/Firecrawl/Refresh/Pass.antt =====
-- app/modules/firecrawl/refresh.py: what a pass does to each account, and when it fails.
use firecrawl_lb.Prelude.{
  ℕ, suc, ◌≤◌, String, Bool, Option, none, some, List, [], ◌∷◌, ◌≡◌, refl, sym, ap, ◌∙◌, arith, ◌⊎◌,
  inl, inr, count, find, if◌then◌else◌, Bool-cases,
}
use firecrawl_lb.Prelude.Text.{str_eq, eq_iff}
use firecrawl_lb.Firecrawl.Records.{
  AccountRecord, CredentialRecord, Db, change_account, account_is, get_account,
}
use firecrawl_lb.Firecrawl.Client.{Requester}
use firecrawl_lb.Firecrawl.Repository.{
  order_by_id, insert_by_id, update_account_refresh_success, mark_account_refresh_error,
}
use firecrawl_lb.Firecrawl.Repository.Accounts.{mapped, get-change}
use firecrawl_lb.Firecrawl.Refresh.{
  RefreshLibrary, RefreshReport, Attempt, got, error, settled, with_key, with_credential,
  refresh_account, go_on, refresh_each, refresh_once,
}

some_same : {f g : AccountRecord → AccountRecord} → some f ≡ some g → f ≡ g
some_same h = cc

zero_or_one : (n : ℕ) → n ≤ 1 → (n ≡ 0) ⊎ (n ≡ 1)
zero_or_one n h = ground arith

abbrev pub Keeps : Option (AccountRecord → AccountRecord) → Type 0
Keeps none = Unit
Keeps (some f) = (a : AccountRecord) → (f a).id ≡ a.id

count-insert :
    (p : AccountRecord → Bool) (a : AccountRecord) (rs : List AccountRecord)
    → count p (insert_by_id a rs) ≡ count p (a ∷ rs)
count-insert p a [] = refl
count-insert p a (b ∷ bs) = ground (arith, count-insert p a bs)

pub count-order :
    (p : AccountRecord → Bool) (rs : List AccountRecord) → count p (order_by_id rs) ≡ count p rs
unfolding order_by_id
count-order p [] = refl
count-order p (a ∷ rs) = count-insert p a (order_by_id rs) ∙ ground (arith, count-order p rs)

find-count :
    (p : AccountRecord → Bool) (rs : List AccountRecord) → count p rs ≡ 0 → find p rs ≡ none
find-count p [] h = refl
find-count p (a ∷ rs) h = ground (arith, find-count p rs)

module _ (lib : RefreshLibrary) (client : Requester) (now : ℕ) where
  settled-Keeps : (r : Attempt RefreshReport) (a : AccountRecord) → (settled lib now r a).id ≡ a.id
  unfolding update_account_refresh_success mark_account_refresh_error
  settled-Keeps (got report) a = refl
  settled-Keeps (error message) a = refl

  credential-Keeps : (c : Option CredentialRecord) → Keeps (with_credential lib client now c)
  credential-Keeps none = λ a. refl
  credential-Keeps (some c) = key-Keeps (lib.decrypt c.api_key_encrypted)
    where
      key-Keeps : (key : Option String) → Keeps (with_key lib client now key)
      key-Keeps none = tt
      key-Keeps (some k) = λ a. settled-Keeps _ a

  pub refresh_account-Keeps :
      (credentials : List CredentialRecord) (id : String)
      → Keeps (refresh_account lib client now credentials id)
  unfolding refresh_account
  refresh_account-Keeps credentials id = credential-Keeps _

  -- The change of the account `key` in a pass.
  abbrev pub Alone :
      String
      → Option (AccountRecord → AccountRecord)
      → ℕ
      → Option AccountRecord
      → Option Db
      → Type 0
  Alone key f n before none = Unit
  Alone key none n before (some after) = Unit
  Alone key (some f) n before (some after) =
      ((n ≡ 0) → get_account key after ≡ before)
      × ((n ≡ 1) → get_account key after ≡ mapped f before)

  same_change :
      (f g : AccountRecord → AccountRecord) (before : Option AccountRecord)
      → some g ≡ some f
      → mapped f before ≡ mapped g before
  same_change f g before e =
      ap (λ (h : AccountRecord → AccountRecord). mapped h before) (sym (some_same e))

  step-Alone :
      (id key : String) (n m : ℕ) (f : AccountRecord → AccountRecord)
      (g : Option (AccountRecord → AccountRecord)) (before mid : Option AccountRecord)
      (after : Option Db)
      → (id ≡ key → g ≡ some f)
      → mid ≡ (if str_eq id key then mapped f before else before)
      → m ≡ (if str_eq id key then suc n else n)
      → Alone key g n mid after
      → Alone key g m before after
  step-Alone id key n m f g before mid none same h k alone = tt
  step-Alone id key n m f none before mid (some after) same h k alone = tt
  step-Alone id key n m f (some g) before mid (some after) same h k (zero_case, one_case) =
      elim (Bool-cases (str_eq id key)) [
        | inl e ↦ (
          λ z. absurd (ground (arith)),
          λ o.
              zero_case (ground arith)
              ∙ (h ∙ ap (λ (b : Bool). if b then mapped f before else before) e)
              ∙ same_change f g before (same ((eq_iff id key).0 e)),
        )
        | inr e ↦ (
          λ z.
              zero_case (ground arith)
              ∙ (h ∙ ap (λ (b : Bool). if b then mapped f before else before) e),
          λ o.
              one_case (ground arith)
              ∙ ap (mapped g) (h ∙ ap (λ (b : Bool). if b then mapped f before else before) e),
        )
      ]

  -- The claim for the accounts that are still to come.
  abbrev pub EachAlone : String → List AccountRecord → Db → Type 0
  EachAlone key accounts db =
      Alone key (refresh_account lib client now db.credentials key)
        (count (account_is key) accounts) (get_account key db)
        (refresh_each lib client now accounts db)

  gone_on-Alone :
      (key id : String) (accounts : List AccountRecord) (db : Db)
      (o : Option (AccountRecord → AccountRecord))
      → refresh_account lib client now db.credentials id ≡ o
      → Keeps o
      → ((later : Db) → EachAlone key accounts later)
      → Alone key
          (refresh_account lib client now db.credentials key)
          (if str_eq id key
            then suc (count (account_is key) accounts)
            else count (account_is key) accounts)
          (get_account key db)
          (go_on lib id o (refresh_each lib client now accounts) db)
  gone_on-Alone key id accounts db none e keeps ih = tt
  gone_on-Alone key id accounts db (some f) e keeps ih =
      step-Alone id key (count (account_is key) accounts)
        (if str_eq id key
          then suc (count (account_is key) accounts)
          else count (account_is key) accounts)
        f (refresh_account lib client now db.credentials key) (get_account key db)
        (get_account key (change_account id f db))
        (refresh_each lib client now accounts (change_account id f db))
        (λ i. ap (refresh_account lib client now db.credentials) (sym i) ∙ e)
        (get-change id key f db.accounts keeps) refl (ih (change_account id f db))

  unchanged-Alone :
      (key : String) (db : Db) (g : Option (AccountRecord → AccountRecord))
      → Alone key g 0 (get_account key db) (some db)
  unchanged-Alone key db none = tt
  unchanged-Alone key db (some g) = (λ _. refl, λ h. absurd (ground arith))

  each-Alone : (key : String) (accounts : List AccountRecord) (db : Db) → EachAlone key accounts db
  unfolding refresh_each
  each-Alone key [] db = unchanged-Alone key db (refresh_account lib client now db.credentials key)
  each-Alone key (a ∷ accounts) db =
      gone_on-Alone key a.id accounts db (refresh_account lib client now db.credentials a.id) refl
        (refresh_account-Keeps db.credentials a.id) (each-Alone key accounts)

  refreshed-Alone :
      (key : String) (f : AccountRecord → AccountRecord) (n : ℕ) (before : Option AccountRecord)
      (after : Db) (o : Option Db) (g : Option (AccountRecord → AccountRecord))
      → Alone key g n before o
      → o ≡ some after
      → g ≡ some f
      → n ≤ 1
      → ((n ≡ 0) → before ≡ none)
      → get_account key after ≡ mapped f before
  refreshed-Alone key f n before after none g alone h e le missing = absurd (cc)
  refreshed-Alone key f n before after (some db) none alone h e le missing = absurd (cc)
  refreshed-Alone key f n before after (some db) (some g) (zero_case, one_case) h e le missing =
      elim (zero_or_one n le) [
        | inl z ↦ cc (zero_case z, missing z, h)
        | inr o ↦ cc (one_case o, h, same_change f g before e)
      ]

  -- A pass that ends leaves every account as a refresh of that account alone would: with the figures of
  -- its own two responses, or with the error of its own, or as it was where it has no active credential. What
  -- the upstream answers for other accounts makes no difference. The id is the account's only.
  pub refresh_once-alone :
      (key : String) (db after : Db) (f : AccountRecord → AccountRecord)
      → count (account_is key) db.accounts ≤ 1
      → refresh_once lib client now db ≡ some after
      → refresh_account lib client now db.credentials key ≡ some f
      → get_account key after ≡ mapped f (get_account key db)
  unfolding refresh_once
  refresh_once-alone key db after f le h e =
      refreshed-Alone key f (count (account_is key) (order_by_id db.accounts)) (get_account key db)
        after (refresh_once lib client now db) (refresh_account lib client now db.credentials key)
        (each-Alone key (order_by_id db.accounts) db) h e
        (omega (arith, count-order (account_is key) db.accounts))
        (λ z.
          find-count (account_is key) db.accounts
            (sym (count-order (account_is key) db.accounts) ∙ z))
