-- ===== src/Release/RoundTrip.antt =====
-- scripts/release_versions.py: a version and its spelling on PyPI.
use firecrawl_lb.Prelude.{
  ◌==◌, true, Option, none, some, [], ◌∷◌, ◌++◌, ◌≡◌, ◌≢◌, refl, sym, ap, ◌∙◌, arith, if_cases,
}
use firecrawl_lb.Prelude.Text.{is_digit, codes}
use firecrawl_lb.Release.{
  Text, Channel, stable, alpha, beta, rc, ReleaseVersion, base_of, is_serial, value, strip_prefix,
  serial_after, first_of, tagged, channel_by, release_prefix, pypi_letter, pypi_version, prerelease,
  release_with, parse_version, canonical_with, canonical_of, canonical_release_version,
}
use firecrawl_lb.Release.Decimal.{decimal-value}
use firecrawl_lb.Release.Base.{
  Stops, IsNumber, Based, no_base, based_on, dotted, base_of-Based, base_of-append,
}

abbrev pub Prefixed : Text → Text → Option Text → Type 0
Prefixed prefix cs none = Unit
Prefixed prefix cs (some s) = cs ≡ prefix ++ s

strip-Prefixed : (prefix cs : Text) → Prefixed prefix cs (strip_prefix prefix cs)
strip-Prefixed [] cs = refl
strip-Prefixed (p ∷ ps) [] = tt
strip-Prefixed (p ∷ ps) (c ∷ cs) =
    if_cases (Prefixed (p ∷ ps) (c ∷ cs)) (p == c)
      (λ e. longer (strip_prefix ps cs) (ground arith) (strip-Prefixed ps cs)) (λ _. tt)
  where
    longer : (o : Option Text) → c ≡ p → Prefixed ps cs o → Prefixed (p ∷ ps) (c ∷ cs) o
    longer none e h = tt
    longer (some s) e h = cc (e, h)

-- A channel that was read, with its serial.
abbrev pub Channelled : (Channel → Text) → Text → Option (Channel × Text) → Type 0
Channelled prefix cs none = Unit
Channelled prefix cs (some (channel, s)) =
    (cs ≡ prefix channel ++ s) × (is_serial s ≡ true) × (channel ≢ stable)

tagged-Channelled :
    (prefix : Channel → Text) (cs : Text) (channel : Channel) (o : Option Text)
    → channel ≢ stable
    → Prefixed (prefix channel) cs o
    → Channelled prefix cs (tagged channel (serial_after o))
tagged-Channelled prefix cs channel none ne h = tt
tagged-Channelled prefix cs channel (some s) ne h =
    if_cases (λ (o : Option Text). Channelled prefix cs (tagged channel o)) (is_serial s)
      (λ e. (h, e, ne)) (λ _. tt)

first-Channelled :
    (prefix : Channel → Text) (cs : Text) (a b : Option (Channel × Text))
    → Channelled prefix cs a
    → Channelled prefix cs b
    → Channelled prefix cs (first_of a b)
first-Channelled prefix cs none b h k = k
first-Channelled prefix cs (some p) b h k = h

channel_by-Channelled :
    (prefix : Channel → Text) (cs : Text) → Channelled prefix cs (channel_by prefix cs)
channel_by-Channelled prefix cs =
    first-Channelled prefix cs (tagged alpha (serial_after (strip_prefix (prefix alpha) cs))) _
      (tagged-Channelled prefix cs alpha (strip_prefix (prefix alpha) cs) (cc)
        (strip-Prefixed (prefix alpha) cs))
      (first-Channelled prefix cs (tagged beta (serial_after (strip_prefix (prefix beta) cs))) _
        (tagged-Channelled prefix cs beta (strip_prefix (prefix beta) cs) (cc)
          (strip-Prefixed (prefix beta) cs))
        (tagged-Channelled prefix cs rc (strip_prefix (prefix rc) cs) (cc)
          (strip-Prefixed (prefix rc) cs)))

-- The letters of PyPI are told apart.
pypi_channel :
    (channel : Channel) (s : Text)
    → is_serial s ≡ true
    → channel ≢ stable
    → channel_by pypi_letter (pypi_letter channel ++ s) ≡ some (channel, s)
pypi_channel stable s h ne = absurd (ne refl)
pypi_channel alpha s h ne = rw h refl
pypi_channel beta s h ne = rw h refl
pypi_channel rc s h ne = rw h refl

pypi-Stops : (channel : Channel) (s : Text) → channel ≢ stable → Stops (pypi_letter channel ++ s)
unfolding is_digit
pypi-Stops stable s ne = absurd (ne refl)
pypi-Stops alpha s ne = refl
pypi-Stops beta s ne = refl
pypi-Stops rc s ne = refl

pypi_of :
    (version base : Text) (channel : Channel) (s : Text)
    → is_serial s ≡ true
    → channel ≢ stable
    → pypi_version
        (record { version = version; base = base; channel = channel; serial = some (value 0 s) })
      ≡ base ++ (pypi_letter channel ++ s)
unfolding pypi_version
pypi_of version base stable s h ne = absurd (ne refl)
pypi_of version base alpha s h ne = ap (λ (l : Text). base ++ (codes "a" ++ l)) (decimal-value s h)
pypi_of version base beta s h ne = ap (λ (l : Text). base ++ (codes "b" ++ l)) (decimal-value s h)
pypi_of version base rc s h ne = ap (λ (l : Text). base ++ (codes "rc" ++ l)) (decimal-value s h)

canonical_back :
    (version base : Text) (channel : Channel) (s : Text)
    → base_of (base ++ (pypi_letter channel ++ s)) ≡ some (base, pypi_letter channel ++ s)
    → is_serial s ≡ true
    → channel ≢ stable
    → canonical_release_version (base ++ (pypi_letter channel ++ s))
      ≡ base ++ (release_prefix channel ++ s)
unfolding canonical_release_version
canonical_back version base channel s e h ne =
    ap (canonical_of (base ++ (pypi_letter channel ++ s))) e
    ∙ ap (canonical_with (base ++ (pypi_letter channel ++ s)) base) (pypi_channel channel s h ne)

same_release : {r q : ReleaseVersion} → some r ≡ some q → r ≡ q
same_release h = cc

-- The spelling on PyPI of the parsed release is brought back.
abbrev pub Spelled : Text → Option ReleaseVersion → Type 0
Spelled version none = Unit
Spelled version (some r) = canonical_release_version (pypi_version r) ≡ version

prerelease-Spelled :
    (version major minor patch rest : Text) (o : Option (Channel × Text))
    → IsNumber major
    → IsNumber minor
    → IsNumber patch
    → version ≡ dotted major minor patch ++ rest
    → Channelled release_prefix rest o
    → Spelled version (prerelease version (dotted major minor patch) o)
prerelease-Spelled version major minor patch rest none m n p e h = tt
prerelease-Spelled version major minor patch rest (some (channel, s)) m n p e (parts, serial, ne) =
    let base_text = dotted major minor patch in
    ap canonical_release_version (pypi_of version base_text channel s serial ne)
    ∙ canonical_back version base_text channel s
        (base_of-append major minor patch (pypi_letter channel ++ s) m n p
          (pypi-Stops channel s ne))
        serial ne
    ∙ ap (λ (l : Text). base_text ++ l) (sym parts)
    ∙ sym e

release-Spelled :
    (version : Text) (o : Option (Text × Text))
    → base_of version ≡ o
    → Based version o
    → Spelled version (release_with version o)
unfolding canonical_release_version pypi_version
release-Spelled version none e no_base = tt
release-Spelled version (some _) e (based_on major minor patch [] m n p stops parts) =
    ap (canonical_of version) e
release-Spelled version (some _) e (based_on major minor patch (c ∷ rest) m n p stops parts) =
    prerelease-Spelled version major minor patch (c ∷ rest) (channel_by release_prefix (c ∷ rest)) m
      n p parts (channel_by-Channelled release_prefix (c ∷ rest))

spelled :
    (version : Text) (o : Option ReleaseVersion) (r : ReleaseVersion)
    → Spelled version o
    → o ≡ some r
    → canonical_release_version (pypi_version r) ≡ version
spelled version none r h e = absurd (cc)
spelled version (some q) r h e =
    ap (λ (x : ReleaseVersion). canonical_release_version (pypi_version x)) (same_release (sym e))
    ∙ h

-- Every release version that is parsed comes back from its spelling on PyPI, serial and channel included.
pub canonical_release_version-pypi_version :
    (version : Text) (r : ReleaseVersion)
    → parse_version version ≡ some r
    → canonical_release_version (pypi_version r) ≡ version
unfolding parse_version
canonical_release_version-pypi_version version r h =
    spelled version (parse_version version) r
      (release-Spelled version (base_of version) refl (base_of-Based version)) h
