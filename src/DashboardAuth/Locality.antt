-- ===== src/DashboardAuth/Locality.antt =====
-- app/core/request_locality.py: whether a request comes from the machine itself. `ipaddress` says which
-- texts are addresses, which of them loop back and which lie in a trusted network: three functions.
-- `headers` is Starlette's `Headers.get`.
pub mod Remote
use firecrawl_lb.Prelude.{
  ℕ, zero, suc, ◌+◌, ◌==◌, String, Bool, true, false, not, ◌&&◌, ◌||◌, Option, none, some, List, [],
  ◌∷◌, ◌++◌, map, any, count, find, if◌then◌else◌,
}
use firecrawl_lb.Prelude.Text.{
  is_empty, strip, codes, lower, codes_eq, codes_start_with, split_on, split_commas, drop_chars,
  drop_last, ends_with, starts_with,
}
use firecrawl_lb.Firewall.ClientIp.{walk}
use mathlib.Core.List.{reverse}
use Prim.Native.Char.{Char, code}

pub record LocalitySettings : Type 0 where
  pub firewall_trust_proxy_headers : Bool
  pub is_valid_ip : String → Bool
  pub is_loopback : String → Bool
  pub is_trusted_proxy_source : String → Bool

-- `scope["server"]` where it is a tuple with a text, the socket's address, and the headers.
pub record HttpConnection : Type 0 where
  pub server_host : Option String
  pub client_host : Option String
  pub headers : String → Option String

abbrev pub lower_in : String → List String → Bool
lower_in s names = any (λ name. codes_eq (lower s) (codes name)) names

unfoldable pub is_local_host : Option String → Bool
is_local_host none = false
is_local_host (some host) =
    lower_in (strip host) ("" ∷ "localhost" ∷ "127.0.0.1" ∷ "::1" ∷ "[::1]" ∷ [])

-- `if header:`
abbrev pub filled : Option String → Option String
filled none = none
filled (some s) = if is_empty s then none else some s

abbrev pub is_filled : Option String → Bool
is_filled none = false
is_filled (some s) = not (is_empty s)

-- The `ValueError` of a chain with an entry that is no address, or an address.
pub data Resolved : Type 0 where
  invalid_chain : Resolved
  address : String → Resolved

-- `s.strip('"')`
abbrev pub strip_quotes_left : String → String
strip_quotes_left String.[] = String.[]
strip_quotes_left (String.◌∷◌ c s) =
    let rest = strip_quotes_left s in if code c == 34 then rest else String.◌∷◌ c s

abbrev pub cons_unquoted : Char → String → String
cons_unquoted c s = if code c == 34 && is_empty s then String.[] else String.◌∷◌ c s

abbrev pub strip_quotes_right : String → String
strip_quotes_right String.[] = String.[]
strip_quotes_right (String.◌∷◌ c s) = cons_unquoted c (strip_quotes_right s)

abbrev pub unbracketed : String → String
unbracketed s = if starts_with s "[" && ends_with b']' s then drop_last (drop_chars 1 s) else s

abbrev pub parts_of : String → List String
parts_of segment = map strip (split_on b';' segment)

abbrev pub all_parts : List String → List String
all_parts [] = []
all_parts (segment ∷ segments) = parts_of segment ++ all_parts segments

-- The text up to the first `c`, that one included; all of it where there is none.
abbrev pub through : ℕ → String → String
through last String.[] = String.[]
through last (String.◌∷◌ c s) =
    let rest = through last s in String.◌∷◌ c (if code c == last then String.[] else rest)

abbrev pub before : ℕ → String → String
before last String.[] = String.[]
before last (String.◌∷◌ c s) =
    let rest = before last s in if code c == last then String.[] else String.◌∷◌ c rest

unfoldable pub parse_host_header_hostname : Option String → Option String
parse_host_header_hostname none = none
parse_host_header_hostname (some host_header) =
    let value = strip host_header in
    if is_empty value
    then none
    else if starts_with value "["
    then some (through b']' value)
    else if count (λ c. c == b':') (codes value) == 1
    then some (strip (before b':' value))
    else some value

unfoldable pub has_forwarded_client_ip_hint : (String → Option String) → Bool
has_forwarded_client_ip_hint headers =
    any (λ header. is_filled (headers header))
      ("x-forwarded-for" ∷ "forwarded" ∷ "x-real-ip" ∷ "true-client-ip" ∷ "cf-connecting-ip" ∷ [])

abbrev pub is_test_server_request : Option String → Bool
is_test_server_request none = false
is_test_server_request (some host) = lower_in (strip host) ("testserver" ∷ "testclient" ∷ [])

module _ (settings : LocalitySettings) where
  abbrev pub if_valid : String → Option String
  if_valid candidate = if settings.is_valid_ip candidate then some candidate else none

  unfoldable pub resolve_client_ip_from_xff_chain : String → String → Resolved
  resolve_client_ip_from_xff_chain socket_ip forwarded_for =
      let hops = map strip (split_commas forwarded_for) in
      if any (λ entry. not (settings.is_valid_ip entry)) hops
      then invalid_chain
      else address
          (walk settings.is_valid_ip settings.is_trusted_proxy_source socket_ip (reverse hops))

  abbrev pub is_for : String → Bool
  is_for item = codes_start_with (lower item) (codes "for=")

  abbrev pub forwarded_candidate : Option String → Option String
  forwarded_candidate none = none
  forwarded_candidate (some item) =
      let candidate =
        unbracketed (strip_quotes_right (strip_quotes_left (strip (drop_chars 4 item)))) in
      if starts_with candidate "_" then none else if_valid candidate

  -- The first part that starts with `for=` decides.
  unfoldable pub resolve_forwarded_header_ip : String → Option String
  resolve_forwarded_header_ip forwarded =
      forwarded_candidate (find is_for (all_parts (split_commas forwarded)))

  abbrev pub from_forwarded : Option String → Option String
  from_forwarded none = none
  from_forwarded (some forwarded) = resolve_forwarded_header_ip forwarded

  -- The headers with one address, the first that is there, and then `Forwarded`.
  abbrev pub from_single : List String → (String → Option String) → Option String
  from_single [] headers = from_forwarded (filled (headers "forwarded"))
  from_single (name ∷ names) headers =
      let rest = from_single names headers in
      elim (filled (headers name)) [ none ↦ rest | some ip ↦ if_valid (strip ip) ]

  abbrev pub or_single : Resolved → Option String → Option String
  or_single invalid_chain single = none
  or_single (address ip) single = some ip

  abbrev pub from_chain : Option String → String → Option String → Option String
  from_chain none socket_ip single = single
  from_chain (some forwarded_for) socket_ip single =
      or_single (resolve_client_ip_from_xff_chain socket_ip forwarded_for) single

  unfoldable pub resolve_connection_client_ip :
      (String → Option String) → Option String → Option String
  resolve_connection_client_ip headers none = none
  resolve_connection_client_ip headers (some socket_ip) =
      if settings.firewall_trust_proxy_headers
        && (not (is_empty socket_ip) && settings.is_trusted_proxy_source socket_ip)
      then from_chain (filled (headers "x-forwarded-for")) socket_ip
          (from_single ("x-real-ip" ∷ "true-client-ip" ∷ "cf-connecting-ip" ∷ []) headers)
      else some socket_ip

  -- The test of a resolved address, with the name in the `Host` header.
  abbrev pub is_local_client : (String → Option String) → Option String → Bool
  is_local_client headers none = false
  is_local_client headers (some client_host) =
      let host_is_local = is_local_host (parse_host_header_hostname (headers "host")) in
      let hinted = has_forwarded_client_ip_hint headers in
      if is_empty client_host
      then false
      else if not (settings.is_valid_ip client_host)
      then false
      else if not (settings.is_loopback client_host)
      then false
      else if settings.firewall_trust_proxy_headers
      then host_is_local && hinted
      else host_is_local && not hinted

  unfoldable pub is_local_request : HttpConnection → Bool
  is_local_request request =
      is_test_server_request request.server_host
      || is_local_client request.headers
          (resolve_connection_client_ip request.headers request.client_host)
