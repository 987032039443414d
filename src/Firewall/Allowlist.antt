-- ===== src/Firewall/Allowlist.antt =====
-- app/modules/firewall/service.py: what adding and removing an address does to its access.
use firecrawl_lb.Prelude.{
  ◌≡◌, refl, ap, sym, ◌∙◌, subst, String, Bool, true, false, not, ◌||◌, Option, some, List, [], ◌∷◌,
  ◌++◌, arith, keep, if_cases,
}
use firecrawl_lb.Prelude.Text.{str_eq, eq_iff, one_of}
use firecrawl_lb.Firewall.{
  normalize_ip_address, add_ip, remove_ip, is_ip_allowed, is_listed, add_normalized,
  remove_normalized, exists, add, delete, Added,
}

abbrev pub allows_all : List String → Bool
allows_all [] = true
allows_all (entry ∷ allowlist) = false

one_of-append : (ip : String) (xs : List String) → one_of ip (xs ++ ip ∷ []) ≡ true
one_of-append ip [] = ground (arith, eq_iff ip ip)
one_of-append ip (x ∷ xs) = ground (arith, one_of-append ip xs)

one_of-keep :
    (ip : String) (xs : List String) → one_of ip (keep (λ i. not (str_eq i ip)) xs) ≡ false
one_of-keep ip [] = refl
one_of-keep ip (x ∷ xs) = ground (arith, one_of-keep ip xs, eq_iff x ip, eq_iff ip x)

one_of-delete : (ip : String) (xs : List String) → one_of ip (delete ip xs).1 ≡ false
unfolding delete
one_of-delete ip xs =
    if_cases (λ (r : Bool × List String). one_of ip r.1 ≡ false) (exists ip xs)
      (λ _. one_of-keep ip xs) (λ e. e)

one_of-added : (ip : String) (xs : List String) → one_of ip (add_normalized (some ip) xs).1 ≡ true
unfolding add
one_of-added ip xs =
    if_cases (λ (r : Added × List String). one_of ip r.1 ≡ true) (exists ip xs) (λ e. e)
      (λ _. one_of-append ip xs)

or_true : (a b : Bool) → b ≡ true → (a || b) ≡ true
or_true true b h = refl
or_true false b h = h

or_false : (a b : Bool) → b ≡ false → (a || b) ≡ a
or_false true b h = refl
or_false false b h = h

module _ (parse : String → Option String) (ip normalized : String) where
  listed-allowed :
      (allowlist : List String)
      → normalize_ip_address parse ip ≡ some normalized
      → is_ip_allowed parse (some ip) allowlist
        ≡ (allows_all allowlist || one_of normalized allowlist)
  unfolding is_ip_allowed
  listed-allowed [] valid = refl
  listed-allowed (entry ∷ allowlist) valid =
      ap (λ (o : Option String). is_listed o (entry ∷ allowlist)) valid

  -- After a valid address has been added, or has been found there, it has access.
  pub add_ip-allowed :
      (allowlist : List String)
      → normalize_ip_address parse ip ≡ some normalized
      → is_ip_allowed parse (some ip) (add_ip parse ip allowlist).1 ≡ true
  unfolding add_ip
  add_ip-allowed allowlist valid =
      let after = (add_normalized (some normalized) allowlist).1 in
      ap (λ (o : Option String). is_ip_allowed parse (some ip) (add_normalized o allowlist).1) valid
      ∙ listed-allowed after valid
      ∙ or_true (allows_all after) _ (one_of-added normalized allowlist)

  -- After a valid address has been removed, it has access exactly if the allowlist is empty: the
  -- removal of the last address opens the API to every address.
  pub remove_ip-revoked :
      (allowlist : List String)
      → normalize_ip_address parse ip ≡ some normalized
      → is_ip_allowed parse (some ip) (remove_ip parse ip allowlist).1
        ≡ allows_all (remove_ip parse ip allowlist).1
  unfolding remove_ip
  remove_ip-revoked allowlist valid =
      subst
        (λ (o : Option String).
          is_ip_allowed parse (some ip) (remove_normalized o allowlist).1
          ≡ allows_all (remove_normalized o allowlist).1)
        (sym valid)
        (listed-allowed (delete normalized allowlist).1 valid
          ∙ or_false (allows_all (delete normalized allowlist).1) _
              (one_of-delete normalized allowlist))
