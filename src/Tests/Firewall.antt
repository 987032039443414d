-- ===== src/Tests/Firewall.antt =====
-- The firewall and the leader election at small inputs.
use firecrawl_lb.Prelude.{◌≡◌, refl, String, true, false, Option, none, some, [], ◌∷◌, inl, arith}
use firecrawl_lb.Prelude.Text.{strip, starts_with, split_commas}
use firecrawl_lb.Prelude.Dict.{Dict}
use firecrawl_lb.Firewall.ClientIp.{
  resolve_connection_client_ip, resolve_client_ip_from_xff_chain, walk, HasSource,
  resolved-HasSource,
}
use firecrawl_lb.Firewall.{
  normalize_ip_address, FirewallIpCache, is_ip_allowed, is_allowed, add_ip, remove_ip, set,
}
use firecrawl_lb.Firewall.Allowlist.{add_ip-allowed, remove_ip-revoked, allows_all}
use firecrawl_lb.Firewall.Coherence.{
  System, Reach, here, next, miss, read, store, missed, decided, fresh_system, cache_coherent,
}
use firecrawl_lb.LeaderElection.{ElectionSettings, lease, try_acquire, renew, upsert}
use firecrawl_lb.LeaderElection.Lease.{attempt_all, attempt_all-held, two_leaders, replica}

-- Every text is an address in its normal form.
abbrev as_it_is : String → Option String
as_it_is ip = some ip

add_ip-allowed_example :
    is_ip_allowed as_it_is (some "10.0.0.1") (add_ip as_it_is "10.0.0.1" ("10.0.0.2" ∷ [])).1 ≡ true
unfolding normalize_ip_address strip
add_ip-allowed_example = add_ip-allowed as_it_is "10.0.0.1" "10.0.0.1" ("10.0.0.2" ∷ []) refl

remove_ip-revoked_example :
    is_ip_allowed as_it_is (some "10.0.0.2") (remove_ip as_it_is "10.0.0.2" ("10.0.0.2" ∷ [])).1
    ≡ allows_all (remove_ip as_it_is "10.0.0.2" ("10.0.0.2" ∷ [])).1
unfolding normalize_ip_address strip
remove_ip-revoked_example = remove_ip-revoked as_it_is "10.0.0.2" "10.0.0.2" ("10.0.0.2" ∷ []) refl

abbrev small_cache : FirewallIpCache
small_cache = record { ttl_seconds = 30; cache = []; version = 0 }

-- A request has read the allowlist and stored its decision.
abbrev stored : System
stored = record {
  allowlist = "10.0.0.1" ∷ [];
  cache = record small_cache {
    cache = ("10.0.0.1", record { allowed = true; expires_at = 35 }) ∷ [];
  };
  pending = 0;
  readers = decided "10.0.0.1" 0 true ∷ missed "10.0.0.1" 0 ∷ [];
}

stored-reached : Reach as_it_is (fresh_system as_it_is ("10.0.0.1" ∷ []) small_cache) stored
unfolding is_ip_allowed set normalize_ip_address strip
stored-reached =
    next (next (next here (miss "10.0.0.1")) (read "10.0.0.1" 0 (inl refl)))
      (store "10.0.0.1" 0 5 true (inl refl))

cache_coherent_example : true ≡ is_ip_allowed as_it_is (some "10.0.0.1") ("10.0.0.1" ∷ [])
unfolding is_allowed
cache_coherent_example =
    cache_coherent as_it_is ("10.0.0.1" ∷ []) small_cache stored "10.0.0.1" 20 true stored-reached
      refl refl

abbrev shared : ElectionSettings
shared = record { shared = true; ttl_seconds = 1 }

attempt_all-held_example :
    attempt_all shared (("b", false, 1000) ∷ ("c", false, 2000) ∷ []) (some (lease "a" 0 1))
    ≡ (false, some (lease "a" 0 1))
attempt_all-held_example =
    attempt_all-held shared (("b", false, 1000) ∷ ("c", false, 2000) ∷ []) (lease "a" 0 1) refl
      ((refl, omega arith), ((refl, omega arith), tt))

two_leaders_example :
    ((try_acquire shared false 2000000
        (replica "b")
        (try_acquire shared false 0 (replica "a") none).2).0
      ≡ true)
    × (renew shared false 2500000
          (try_acquire shared false 0 (replica "a") none).1
          (try_acquire shared false 2000000
            (replica "b")
            (try_acquire shared false 0 (replica "a") none).2).2
        ≡ (true, some (lease "b" 2000000 1)))
unfolding try_acquire upsert
two_leaders_example =
    two_leaders shared (replica "a") (replica "b") none 0 2000000 2500000 refl refl refl
      (omega arith)

abbrev forwarded : Dict String
forwarded = ("x-forwarded-for", "6.6.6.6, 1.2.3.4, 10.0.0.7") ∷ []

-- The client wrote 6.6.6.6 itself.
taken :
    resolve_connection_client_ip
      (λ ip. true)
      (λ ip. starts_with ip "10.")
      forwarded
      (some "10.0.0.1")
      true
    ≡ some "1.2.3.4"
unfolding resolve_connection_client_ip resolve_client_ip_from_xff_chain walk split_commas strip
taken = refl

resolved-HasSource_example :
    HasSource (λ ip. true) (λ ip. starts_with ip "10.") forwarded "10.0.0.1" true "1.2.3.4"
resolved-HasSource_example =
    resolved-HasSource (λ ip. true) (λ ip. starts_with ip "10.") forwarded "10.0.0.1" true "1.2.3.4"
      taken
