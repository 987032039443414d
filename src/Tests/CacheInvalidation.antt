-- ===== src/Tests/CacheInvalidation.antt =====
-- The poller with one callback, before and after a bump.
use firecrawl_lb.Prelude.{ℕ, refl, false, some, [], ◌∷◌, In, inl}
use firecrawl_lb.CacheInvalidation.{CacheInvalidationPoller, poll_once}
use firecrawl_lb.CacheInvalidation.Notice.{bump_all, bump-noticed}

-- A poller that has not polled yet; its callback is number 7.
abbrev watching : CacheInvalidationPoller ℕ
watching = record {
  known_versions = [];
  callbacks = ("firewall", 7 ∷ []) ∷ [];
  poll_initialized = false;
}

bump-noticed_example :
    In 7
      (poll_once
        (some (bump_all ("firewall" ∷ []) (("api_key", 3) ∷ [])))
        (poll_once (some (("api_key", 3) ∷ [])) watching).1).0
bump-noticed_example =
    bump-noticed watching (("api_key", 3) ∷ []) ("firewall" ∷ []) "firewall" 7 (refl, tt)
      (λ n h. refl) (inl refl) (inl refl)
