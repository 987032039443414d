-- ===== src/CacheInvalidation.antt =====
-- app/core/cache/invalidation.py: how one process learns that another has changed what is cached. The
-- table is a map from namespaces to versions, and a callback is a value of any type; what it does when
-- it is run, and how long the loop waits between two polls, is not modelled.
pub mod Notice
use firecrawl_lb.Prelude.{
  ℕ, suc, ltb, ◌==◌, String, Bool, true, false, not, ◌&&◌, Option, none, some, List, [], ◌∷◌, ◌++◌,
  if◌then◌else◌,
}
use firecrawl_lb.Prelude.Dict.{Dict, lookup, insert}

abbrev pub next_version : Option ℕ → ℕ
next_version none = 1
next_version (some version) = suc version

-- The upsert of `bump`.
unfoldable pub bump : String → Dict ℕ → Dict ℕ
bump namespace table = insert namespace (next_version (lookup namespace table)) table

-- The two tests of the poll: another version than the known one, or a new row after the first poll.
abbrev pub notices : Option ℕ → Bool → ℕ → Bool
notices none poll_initialized version = poll_initialized && ltb 0 version
notices (some prev) poll_initialized version = not (version == prev)

module _ {C : Type 0} where
  abbrev pub or_no_callbacks : Option (List C) → List C
  or_no_callbacks none = []
  or_no_callbacks (some callbacks) = callbacks

  -- `d.get(namespace, [])`
  abbrev pub callbacks_of : String → Dict (List C) → List C
  callbacks_of namespace callbacks = or_no_callbacks (lookup namespace callbacks)

  -- The loop over the rows: the callbacks that it runs, in order, and the known versions.
  unfoldable pub poll_rows : Bool → Dict (List C) → Dict ℕ → Dict ℕ → List C × Dict ℕ
  poll_rows poll_initialized callbacks [] known = ([], known)
  poll_rows poll_initialized callbacks ((namespace, version) ∷ rows) known =
      let run =
        if notices (lookup namespace known) poll_initialized version
        then callbacks_of namespace callbacks
        else [] in
      let rest = poll_rows poll_initialized callbacks rows (insert namespace version known) in
      (run ++ rest.0, rest.1)

pub record CacheInvalidationPoller (C : Type 0) : Type 0 where
  pub known_versions : Dict ℕ
  pub callbacks : Dict (List C)
  pub poll_initialized : Bool

module _ {C : Type 0} where
  unfoldable pub on_invalidation :
      String → C → CacheInvalidationPoller C → CacheInvalidationPoller C
  on_invalidation namespace callback p = record p {
    callbacks = insert namespace (callbacks_of namespace p.callbacks ++ callback ∷ []) p.callbacks;
  }

  -- `none` for the rows is an error of the database, which ends the poll.
  unfoldable pub poll_once :
      Option (Dict ℕ) → CacheInvalidationPoller C → List C × CacheInvalidationPoller C
  poll_once none p = ([], p)
  poll_once (some rows) p =
      let polled = poll_rows p.poll_initialized p.callbacks rows p.known_versions in
      (polled.0, record p { known_versions = polled.1; poll_initialized = true })
