-- ===== src/Firewall.antt =====
-- app/modules/firewall/service.py and repository.py, app/core/middleware/firewall_cache.py and
-- api_firewall.py: who may call the proxied API. The parser of addresses, `ipaddress`, is a function
-- from texts to their normal forms; the allowlist is a list of them. Times are readings of the
-- monotonic clock.
pub mod Coherence
pub mod Allowlist
pub mod ClientIp
use firecrawl_lb.Prelude.{
  ℕ, suc, ◌+◌, ◌==◌, leb, String, Bool, true, false, ◌||◌, not, Option, none, some, List, [], ◌∷◌,
  ◌++◌, keep, if◌then◌else◌,
}
use firecrawl_lb.Prelude.Text.{str_eq, one_of, is_empty, strip, starts_with}
use firecrawl_lb.Prelude.Dict.{Dict, lookup, insert}

-- FirewallRepository
abbrev pub exists : String → List String → Bool
exists ip_address allowlist = one_of ip_address allowlist

unfoldable pub add : String → List String → List String
add ip_address allowlist = allowlist ++ ip_address ∷ []

unfoldable pub delete : String → List String → Bool × List String
delete ip_address allowlist =
    if exists ip_address allowlist
    then (true, keep (λ i. not (str_eq i ip_address)) allowlist)
    else (false, allowlist)

-- FirewallValidationError, FirewallIpAlreadyExistsError, or the entry.
pub data Added : Type 0 where
  invalid_ip ip_exists : Added
  added : String → Added

abbrev pub add_normalized : Option String → List String → Added × List String
add_normalized none allowlist = (invalid_ip, allowlist)
add_normalized (some normalized) allowlist =
    if exists normalized allowlist
    then (ip_exists, allowlist)
    else (added normalized, add normalized allowlist)

pub data Removed : Type 0 where
  invalid_ip : Removed
  removed : Bool → Removed

abbrev pub remove_normalized : Option String → List String → Removed × List String
remove_normalized none allowlist = (Removed.invalid_ip, allowlist)
remove_normalized (some normalized) allowlist =
    (removed (delete normalized allowlist).0, (delete normalized allowlist).1)

abbrev pub is_listed : Option String → List String → Bool
is_listed none allowlist = false
is_listed (some normalized) allowlist = one_of normalized allowlist

module _ (parse : String → Option String) where
  -- An empty text and a text that `ipaddress` refuses are a FirewallValidationError: `none`.
  unfoldable pub normalize_ip_address : String → Option String
  normalize_ip_address value = let raw = strip value in if is_empty raw then none else parse raw

  unfoldable pub add_ip : String → List String → Added × List String
  add_ip ip_address allowlist = add_normalized (normalize_ip_address ip_address) allowlist

  unfoldable pub remove_ip : String → List String → Removed × List String
  remove_ip ip_address allowlist = remove_normalized (normalize_ip_address ip_address) allowlist

  unfoldable pub is_ip_allowed : Option String → List String → Bool
  is_ip_allowed ip_address [] = true
  is_ip_allowed none (entry ∷ allowlist) = false
  is_ip_allowed (some ip_address) (entry ∷ allowlist) =
      is_listed (normalize_ip_address ip_address) (entry ∷ allowlist)

pub record CachedFirewallDecision : Type 0 where
  pub allowed : Bool
  pub expires_at : ℕ

pub record FirewallIpCache : Type 0 where
  pub ttl_seconds : ℕ
  pub cache : Dict CachedFirewallDecision
  pub version : ℕ

-- `none` is the `ValueError`.
unfoldable pub new_cache : ℕ → Option FirewallIpCache
new_cache ttl_seconds =
    if ttl_seconds == 0
    then none
    else some (record { ttl_seconds = ttl_seconds; cache = []; version = 0 })

abbrev pub live : Option CachedFirewallDecision → ℕ → Option Bool
live none now = none
live (some entry) now = if leb entry.expires_at now then none else some entry.allowed

unfoldable pub is_allowed : String → ℕ → FirewallIpCache → Option Bool
is_allowed ip now c = live (lookup ip c.cache) now

-- Only the middleware calls `set`, with a version.
unfoldable pub set : String → Bool → ℕ → ℕ → FirewallIpCache → FirewallIpCache
set ip allowed if_version now c =
    if if_version == c.version
    then record c {
      cache = insert ip (record { allowed = allowed; expires_at = now + c.ttl_seconds }) c.cache;
    }
    else c

unfoldable pub invalidate_all : FirewallIpCache → FirewallIpCache
invalidate_all c = record c { cache = []; version = suc c.version }

abbrev pub is_protected_api_path : String → Bool
is_protected_api_path path = str_eq path "/v2" || starts_with path "/v2/"
