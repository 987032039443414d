-- ===== src/Firewall/Coherence.antt =====
-- app/core/middleware/api_firewall.py, firewall_cache.py and app/modules/firewall/api.py: the cache
-- never outlives a change of the allowlist.
use firecrawl_lb.Prelude.{
  ℕ, suc, ◌-◌, ◌≤◌, ◌<◌, ◌==◌, ◌≡◌, refl, ap, sym, ◌∙◌, subst, String, Bool, true, false, Option,
  none, some, List, [], ◌∷◌, arith, In, inl, inr, Bool-cases, if_elim, if_cases, if◌then◌else◌,
}
use firecrawl_lb.Prelude.Text.{str_eq, eq_iff}
use firecrawl_lb.Prelude.Dict.{Dict, lookup, insert, lookup-insert}
use firecrawl_lb.Firewall.{
  CachedFirewallDecision, FirewallIpCache, is_ip_allowed, is_allowed, set, invalidate_all, live,
}

-- A request that missed the cache and has read its version; then it has read the allowlist too.
pub data Reader : Type 0 where
  missed : String → ℕ → Reader
  decided : String → ℕ → Bool → Reader

-- `pending` counts the changes that are committed and have not yet invalidated this process's cache,
-- by the API's handler or by the poller.
pub record System : Type 0 where
  pub allowlist : List String
  pub cache : FirewallIpCache
  pub pending : ℕ
  pub readers : List Reader

module _ (parse : String → Option String) where
  pub data Step (s : System) : System → Type 0 where
    miss : (ip : String) → Step s (record s { readers = missed ip s.cache.version ∷ s.readers })
    read :
        (ip : String) (version : ℕ)
        → In (missed ip version) s.readers
        → Step s (record s {
          readers = decided ip version (is_ip_allowed parse (some ip) s.allowlist) ∷ s.readers;
        })
    store :
        (ip : String) (version now : ℕ) (allowed : Bool)
        → In (decided ip version allowed) s.readers
        → Step s (record s { cache = set ip allowed version now s.cache })
    changes :
        (allowlist : List String)
        → Step s (record s { allowlist = allowlist; pending = suc s.pending })
    invalidates :
        0 < s.pending
        → Step s (record s { cache = invalidate_all s.cache; pending = s.pending - 1 })

  pub data Reach (start : System) : System → Type 0 where
    here : Reach start start
    next : {s t : System} → Reach start s → Step s t → Reach start t

  -- Every cached decision is the allowlist's.
  abbrev IsFresh : List String → Dict CachedFirewallDecision → Type 0
  IsFresh allowlist cache =
      (ip : String) (entry : CachedFirewallDecision)
      → lookup ip cache ≡ some entry
      → entry.allowed ≡ is_ip_allowed parse (some ip) allowlist

  -- A decision read under the cache's version is the allowlist's.
  abbrev AreCurrent : List String → ℕ → List Reader → Type 0
  AreCurrent allowlist version readers =
      (ip : String) (allowed : Bool)
      → In (decided ip version allowed) readers
      → allowed ≡ is_ip_allowed parse (some ip) allowlist

  version_of : Reader → ℕ
  version_of (missed ip version) = version
  version_of (decided ip version allowed) = version

  record Inv (s : System) : Type 0 where
    none_ahead : (r : Reader) → In r s.readers → version_of r ≤ s.cache.version
    fresh : s.pending ≡ 0 → IsFresh s.allowlist s.cache.cache
    current : s.pending ≡ 0 → AreCurrent s.allowlist s.cache.version s.readers

  picked_new :
      (new : CachedFirewallDecision) (old : Option CachedFirewallDecision)
      (entry : CachedFirewallDecision) (b : Bool)
      → b ≡ true
      → (if b then some new else old) ≡ some entry
      → new.allowed ≡ entry.allowed
  picked_new new old entry true t found = ground arith
  picked_new new old entry false t found = cc

  picked_other :
      (new : CachedFirewallDecision) (old : Option CachedFirewallDecision)
      (entry : CachedFirewallDecision) (b : Bool)
      → b ≡ false
      → (if b then some new else old) ≡ some entry
      → old ≡ some entry
  picked_other new old entry true t found = cc
  picked_other new old entry false t found = found

  insert-IsFresh :
      (allowlist : List String) (cache : Dict CachedFirewallDecision) (ip : String)
      (new : CachedFirewallDecision)
      → IsFresh allowlist cache
      → new.allowed ≡ is_ip_allowed parse (some ip) allowlist
      → IsFresh allowlist (insert ip new cache)
  insert-IsFresh allowlist cache ip new f e other entry found =
      let found' = sym (lookup-insert ip other new cache) ∙ found in
      elim (Bool-cases (str_eq ip other)) [
        | inl t ↦
            subst (λ (i : String). entry.allowed ≡ is_ip_allowed parse (some i) allowlist)
              ((eq_iff ip other).0 t)
              (sym (picked_new new (lookup other cache) entry (str_eq ip other) t found') ∙ e)
        | inr t ↦
            f other entry (picked_other new (lookup other cache) entry (str_eq ip other) t found')
      ]

  set-IsFresh :
      (allowlist : List String) (c : FirewallIpCache) (readers : List Reader) (ip : String)
      (allowed : Bool) (version now : ℕ)
      → IsFresh allowlist c.cache
      → AreCurrent allowlist c.version readers
      → In (decided ip version allowed) readers
      → IsFresh allowlist (set ip allowed version now c).cache
  unfolding set
  set-IsFresh allowlist c readers ip allowed version now f current i =
      if_cases (λ (x : FirewallIpCache). IsFresh allowlist x.cache) (version == c.version)
        (λ e. insert-IsFresh allowlist c.cache ip _ f (
          current ip allowed
            (subst (λ (n : ℕ). In (decided ip n allowed) readers) (ground arith) i)))
        (λ _. f)

  set-version :
      (c : FirewallIpCache) (ip : String) (allowed : Bool) (version now : ℕ)
      → (set ip allowed version now c).version ≡ c.version
  unfolding set
  set-version c ip allowed version now =
      if_elim (λ (x : FirewallIpCache). x.version ≡ c.version) (version == c.version) refl refl

  ahead-cons :
      (r : Reader) (readers : List Reader) (version : ℕ)
      → version_of r ≤ version
      → ((o : Reader) → In o readers → version_of o ≤ version)
      → (o : Reader) → In o (r ∷ readers)
      → version_of o ≤ version
  ahead-cons r readers version h k o (inl e) =
      subst (λ (x : Reader). version_of x ≤ version) (sym e) h
  ahead-cons r readers version h k o (inr i) = k o i

  decided_same :
      (ip other : String) (v w : ℕ) (a b : Bool)
      → decided other v a ≡ decided ip w b
      → (ip ≡ other) × (a ≡ b)
  decided_same ip other v w a b e = (cc, cc)

  read_same :
      (allowlist : List String) (ip other : String) (v w : ℕ) (allowed : Bool)
      → decided other v allowed ≡ decided ip w (is_ip_allowed parse (some ip) allowlist)
      → allowed ≡ is_ip_allowed parse (some other) allowlist
  read_same allowlist ip other v w allowed e =
      let (i, a) = decided_same ip other v w allowed _ e in
      a ∙ ap (λ (x : String). is_ip_allowed parse (some x) allowlist) i

  Step-Inv : {s t : System} → Step s t → Inv s → Inv t
  unfolding version_of invalidate_all
  Step-Inv {s} (miss ip) v = record {
    none_ahead =
        ahead-cons (missed ip s.cache.version) s.readers s.cache.version (omega arith) v.none_ahead;
    fresh = v.fresh;
    current =
        λ quiet other allowed i. elim i [ inl e ↦ cc | inr k ↦ v.current quiet other allowed k ];
  }
  Step-Inv {s} (read ip version i) v = record {
    none_ahead =
        ahead-cons _ s.readers s.cache.version (v.none_ahead (missed ip version) i) v.none_ahead;
    fresh = v.fresh;
    current = λ quiet other allowed k. elim k [
      | inl e ↦ read_same s.allowlist ip other s.cache.version version allowed e
      | inr j ↦ v.current quiet other allowed j
    ];
  }
  Step-Inv {s} (store ip version now allowed i) v =
      let same = set-version s.cache ip allowed version now in
      record {
        none_ahead = λ r k. omega (arith, v.none_ahead r k, same);
        fresh = λ quiet.
            set-IsFresh s.allowlist s.cache s.readers ip allowed version now (v.fresh quiet)
              (v.current quiet) i;
        current = λ quiet.
            subst (λ (n : ℕ). AreCurrent s.allowlist n s.readers) (sym same) (v.current quiet);
      }
  Step-Inv {s} (changes allowlist) v = record {
    none_ahead = v.none_ahead;
    fresh = λ quiet. absurd (omega arith);
    current = λ quiet. absurd (omega arith);
  }
  Step-Inv {s} (invalidates h) v = record {
    none_ahead = λ r k. omega (arith, v.none_ahead r k);
    fresh = λ quiet ip entry found. cc;
    current = λ quiet ip allowed i. absurd (omega (arith, v.none_ahead _ i));
  }

  Reach-Inv : {s t : System} → Inv s → Reach s t → Inv t
  Reach-Inv v here = v
  Reach-Inv v (next r st) = Step-Inv st (Reach-Inv v r)

  abbrev pub fresh_system : List String → FirewallIpCache → System
  fresh_system allowlist c = record {
    allowlist = allowlist;
    cache = record c { cache = [] };
    pending = 0;
    readers = [];
  }

  live-allowed :
      (o : Option CachedFirewallDecision) (now : ℕ) (b : Bool)
      → live o now ≡ some b
      → (entry : CachedFirewallDecision) × (o ≡ some entry) × (entry.allowed ≡ b)
  live-allowed none now b h = cc
  live-allowed (some entry) now b h = (entry, refl, ground arith)

  -- From an empty cache, whatever requests, stores, changes of the allowlist and invalidations follow
  -- in whatever order: once no committed change is waiting for its invalidation, a decision that the
  -- cache gives is the one that the allowlist gives now, even if its request read the allowlist
  -- before a change.
  pub cache_coherent :
      (allowlist : List String) (c : FirewallIpCache) (t : System) (ip : String) (now : ℕ)
      (b : Bool)
      → Reach (fresh_system allowlist c) t
      → t.pending ≡ 0
      → is_allowed ip now t.cache ≡ some b
      → b ≡ is_ip_allowed parse (some ip) t.allowlist
  unfolding is_allowed
  cache_coherent allowlist c t ip now b r quiet given =
      let start : Inv (fresh_system allowlist c) = record {
        none_ahead = λ x i. absurd i;
        fresh = λ q i entry found. cc;
        current = λ q i allowed k. absurd k;
      } in
      let (entry, found, same) = live-allowed (lookup ip t.cache.cache) now b given in
      sym same ∙ (Reach-Inv start r).fresh quiet ip entry found
