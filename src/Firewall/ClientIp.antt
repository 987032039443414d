-- ===== src/Firewall/ClientIp.antt =====
-- app/core/middleware/api_firewall.py: the address of the client behind proxies. Whether a text is an
-- address, and whether it lies in a trusted network, are functions of the text, by `ipaddress`; a text
-- that is no address lies in none.
use firecrawl_lb.Prelude.{
  ◌≡◌, refl, ap, sym, subst, String, Bool, true, false, not, ◌&&◌, Option, none, some, List, [],
  ◌∷◌, ◌++◌, arith, map, any, All, if◌then◌else◌, if_cases, ◌⊎◌, inl, inr,
}
use firecrawl_lb.Prelude.Text.{is_empty, strip, split_commas}
use firecrawl_lb.Prelude.Dict.{Dict, lookup}
use mathlib.Core.List.{reverse}

some_same : {x y : String} → some x ≡ some y → x ≡ y
some_same h = cc

module _ (is_valid_ip is_trusted_proxy_source : String → Bool) where
  -- The loop over the chain from its end: `proxy` is the current one, and the list has the hops before
  -- it, the nearest first. A trusted proxy hands over to the hop before it.
  unfoldable pub walk : String → List String → String
  walk proxy [] = proxy
  walk proxy (previous_hop ∷ hops) =
      let resolved = walk previous_hop hops in
      if is_trusted_proxy_source proxy then resolved else proxy

  unfoldable pub resolve_client_ip_from_xff_chain : String → String → Option String
  resolve_client_ip_from_xff_chain socket_ip forwarded_for =
      let hops = map strip (split_commas forwarded_for) in
      if any (λ entry. not (is_valid_ip entry)) hops
      then none
      else some (walk socket_ip (reverse hops))

  abbrev pub or_socket : Option String → String → String
  or_socket none socket_ip = socket_ip
  or_socket (some resolved) socket_ip = resolved

  abbrev pub from_header : Option String → String → String
  from_header none socket_ip = socket_ip
  from_header (some forwarded_for) socket_ip =
      if is_empty forwarded_for
      then socket_ip
      else or_socket (resolve_client_ip_from_xff_chain socket_ip forwarded_for) socket_ip

  unfoldable pub resolve_connection_client_ip : Dict String → Option String → Bool → Option String
  resolve_connection_client_ip headers none trust_proxy_headers = none
  resolve_connection_client_ip headers (some socket_ip) trust_proxy_headers =
      if trust_proxy_headers && (not (is_empty socket_ip) && is_trusted_proxy_source socket_ip)
      then some (from_header (lookup "x-forwarded-for" headers) socket_ip)
      else some socket_ip

  -- The address stands in the chain from the socket on, behind trusted proxies only, and it is no
  -- trusted proxy itself, or the first of all.
  pub record IsVouched (chain : List String) (ip : String) : Type 0 where
    pub proxies : List String
    pub beyond : List String
    pub in_chain : chain ≡ proxies ++ ip ∷ beyond
    pub are_trusted : All (λ p. is_trusted_proxy_source p ≡ true) proxies
    pub is_end : (is_trusted_proxy_source ip ≡ false) ⊎ (beyond ≡ [])

  walk-IsVouched :
      (proxy : String) (hops : List String) → IsVouched (proxy ∷ hops) (walk proxy hops)
  unfolding walk
  walk-IsVouched proxy [] = record {
    proxies = [];
    beyond = [];
    in_chain = refl;
    are_trusted = tt;
    is_end = inr refl;
  }
  walk-IsVouched proxy (previous_hop ∷ hops) =
      let v = walk-IsVouched previous_hop hops in
      if_cases (IsVouched (proxy ∷ previous_hop ∷ hops)) (is_trusted_proxy_source proxy)
        (λ trusted. record {
          proxies = proxy ∷ v.proxies;
          beyond = v.beyond;
          in_chain = ap (λ (l : List String). proxy ∷ l) v.in_chain;
          are_trusted = (trusted, v.are_trusted);
          is_end = v.is_end;
        })
        (λ untrusted. record {
          proxies = [];
          beyond = previous_hop ∷ hops;
          in_chain = refl;
          are_trusted = tt;
          is_end = inl untrusted;
        })

  abbrev pub hops_of : String → List String
  hops_of forwarded_for = reverse (map strip (split_commas forwarded_for))

  -- Where an address comes from: the socket, or the header of a trusted connection.
  pub HasSource : Dict String → String → Bool → String → Type 0
  HasSource headers socket_ip trust_proxy_headers ip =
      (ip ≡ socket_ip)
      ⊎ ((trust_proxy_headers ≡ true)
          × ((forwarded_for : String) × (lookup "x-forwarded-for" headers ≡ some forwarded_for)
              × IsVouched (socket_ip ∷ hops_of forwarded_for) ip))

  chain-IsVouched :
      (socket_ip forwarded_for : String) (o : Option String)
      → resolve_client_ip_from_xff_chain socket_ip forwarded_for ≡ o
      → (or_socket o socket_ip ≡ socket_ip)
        ⊎ IsVouched (socket_ip ∷ hops_of forwarded_for) (or_socket o socket_ip)
  unfolding resolve_client_ip_from_xff_chain
  chain-IsVouched socket_ip forwarded_for none = λ e. inl refl
  chain-IsVouched socket_ip forwarded_for (some ip) =
      if_cases
        (λ (r : Option String).
          r ≡ some ip → (ip ≡ socket_ip) ⊎ IsVouched (socket_ip ∷ hops_of forwarded_for) ip)
        (any (λ entry. not (is_valid_ip entry)) (map strip (split_commas forwarded_for)))
        (λ _ h. cc)
        (λ _ h. inr (
          subst (IsVouched (socket_ip ∷ hops_of forwarded_for)) (some_same h)
            (walk-IsVouched socket_ip (hops_of forwarded_for))))

  header-HasSource :
      (headers : Dict String) (socket_ip : String) (header : Option String)
      → lookup "x-forwarded-for" headers ≡ header
      → HasSource headers socket_ip true (from_header header socket_ip)
  unfolding HasSource
  header-HasSource headers socket_ip none e = inl refl
  header-HasSource headers socket_ip (some forwarded_for) e =
      if_cases (HasSource headers socket_ip true) (is_empty forwarded_for) (λ _. inl refl)
        (λ _. elim (chain-IsVouched socket_ip forwarded_for _ refl) [
          | inl same ↦ inl same
          | inr v ↦ inr (refl, (forwarded_for, e, v))
        ])

  -- The client's address is the socket's, or, when headers are trusted, one of the chain of the
  -- forwarding header with the socket at its end: behind trusted proxies only, and itself no trusted
  -- proxy or the first of the chain. So what a client writes in front of the entry that the trusted
  -- proxies added for it is not taken.
  pub resolved-HasSource :
      (headers : Dict String) (socket_ip : String) (trust_proxy_headers : Bool) (ip : String)
      → resolve_connection_client_ip headers (some socket_ip) trust_proxy_headers ≡ some ip
      → HasSource headers socket_ip trust_proxy_headers ip
  unfolding resolve_connection_client_ip HasSource
  resolved-HasSource headers socket_ip false ip = λ h. inl (ground arith)
  resolved-HasSource headers socket_ip true ip =
      if_cases (λ (r : Option String). r ≡ some ip → HasSource headers socket_ip true ip)
        (not (is_empty socket_ip) && is_trusted_proxy_source socket_ip)
        (λ _ h.
          subst (HasSource headers socket_ip true) (some_same h)
            (header-HasSource headers socket_ip _ refl))
        (λ _ h. inl (sym (some_same h)))
