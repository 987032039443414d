-- ===== src/Firecrawl/Repository/Accounts.antt =====
-- app/modules/firecrawl/repository.py: what an update does to one account, and to the others.
use firecrawl_lb.Prelude.{
  String, ◌≡◌, Option, none, some, List, [], ◌∷◌, arith, if◌then◌else◌, find,
}
use firecrawl_lb.Prelude.Text.{str_eq, eq_iff}
use firecrawl_lb.Firecrawl.Records.{AccountRecord, change, account_is}

abbrev pub mapped : (AccountRecord → AccountRecord) → Option AccountRecord → Option AccountRecord
mapped f none = none
mapped f (some a) = some (f a)

-- An update that keeps the key is read back at the key, and nowhere else.
pub get-change :
    (key other : String) (f : AccountRecord → AccountRecord) (accounts : List AccountRecord)
    → ((a : AccountRecord) → (f a).id ≡ a.id)
    → find (account_is other) (change (account_is key) f accounts) ≡ (
        if str_eq key other
        then mapped f (find (account_is other) accounts)
        else find (account_is other) accounts)
unfolding change
get-change key other f [] keeps = ground arith
get-change key other f (a ∷ accounts) keeps = ground (
  arith,
  keeps a,
  eq_iff key other,
  eq_iff a.id key,
  eq_iff a.id other,
  eq_iff (f a).id other,
  get-change key other f accounts keeps,
)
