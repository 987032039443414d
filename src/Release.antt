-- ===== src/Release.antt =====
-- scripts/release_versions.py: release versions, their tags and their spelling on PyPI. A text is the list of its
-- code points, and a digit is an ASCII digit. What git prints is an argument.
pub mod Decimal
pub mod Base
pub mod RoundTrip
pub mod Next
use firecrawl_lb.Prelude.{
  ℕ, zero, suc, ◌+◌, ◌-◌, ◌*◌, ◌/◌, ◌%◌, ◌==◌, ltb, leb, String, Bool, true, false, not, ◌&&◌, ◌||◌,
  Option, none, some, List, [], ◌∷◌, ◌++◌, all, keep, if◌then◌else◌,
}
use firecrawl_lb.Prelude.Text.{codes, codes_eq, is_digit, str_eq, strip_codes}

abbrev pub Text : Type 0
Text = List ℕ

pub data Channel : Type 0 where
  stable alpha beta rc : Channel

pub record ReleaseVersion : Type 0 where
  pub version : Text
  pub base : Text
  pub channel : Channel
  pub serial : Option ℕ

unfoldable pub is_prerelease : ReleaseVersion → Bool
is_prerelease r = elim r.channel [ stable ↦ false | _ ↦ true ]

unfoldable pub tag : ReleaseVersion → Text
tag r = b'v' ∷ r.version

-- The digits of a positive number in front of `out`, one for each unit of fuel.
unfoldable pub digits_onto : ℕ → ℕ → Text → Text
digits_onto zero n out = out
digits_onto (suc fuel) n out =
    let rest = digits_onto fuel (n / 10) ((b'0' + n % 10) ∷ out) in if n == 0 then out else rest

-- `str(n)`: a number has no more digits than its value, so `n` is enough fuel.
unfoldable pub decimal : ℕ → Text
decimal n = if n == 0 then b'0' ∷ [] else digits_onto n n []

-- `f"{serial}"`
abbrev pub serial_text : Option ℕ → Text
serial_text none = codes "None"
serial_text (some n) = decimal n

abbrev pub pypi_letter : Channel → Text
pypi_letter stable = []
pypi_letter alpha = codes "a"
pypi_letter beta = codes "b"
pypi_letter rc = codes "rc"

unfoldable pub pypi_version : ReleaseVersion → Text
pypi_version r = elim r.channel [
  | stable ↦ r.version
  | _ ↦ r.base ++ (pypi_letter r.channel ++ serial_text r.serial)
]

-- `\d+` at the head of a text, and the rest
abbrev pub with_digit : ℕ → Text × Text → Text × Text
with_digit c (ds, rest) = (c ∷ ds, rest)

unfoldable pub span_digits : Text → Text × Text
span_digits [] = ([], [])
span_digits (c ∷ cs) =
    let longer = with_digit c (span_digits cs) in if is_digit c then longer else ([], c ∷ cs)

abbrev pub or_no_number : Text × Text → Option (Text × Text)
or_no_number ([], rest) = none
or_no_number (d ∷ ds, rest) = some (d ∷ ds, rest)

abbrev pub number : Text → Option (Text × Text)
number cs = or_no_number (span_digits cs)

abbrev pub after_dot : Text → Option Text
after_dot [] = none
after_dot (c ∷ cs) = if c == b'.' then some cs else none

abbrev pub with_patch : Text → Text → Option (Text × Text) → Option (Text × Text)
with_patch major minor none = none
with_patch major minor (some (patch, rest)) =
    some (major ++ (b'.' ∷ (minor ++ (b'.' ∷ patch))), rest)

abbrev pub with_second_dot : Text → Text → Option Text → Option (Text × Text)
with_second_dot major minor none = none
with_second_dot major minor (some rest) = with_patch major minor (number rest)

abbrev pub with_minor : Text → Option (Text × Text) → Option (Text × Text)
with_minor major none = none
with_minor major (some (minor, rest)) = with_second_dot major minor (after_dot rest)

abbrev pub with_first_dot : Text → Option Text → Option (Text × Text)
with_first_dot major none = none
with_first_dot major (some rest) = with_minor major (number rest)

abbrev pub with_major : Option (Text × Text) → Option (Text × Text)
with_major none = none
with_major (some (major, rest)) = with_first_dot major (after_dot rest)

-- `\d+\.\d+\.\d+` at the head of a text, and the rest
unfoldable pub base_of : Text → Option (Text × Text)
base_of cs = with_major (number cs)

-- `[1-9]\d*`
abbrev pub is_serial : Text → Bool
is_serial [] = false
is_serial (c ∷ cs) = leb b'1' c && leb c b'9' && all is_digit cs

-- `int(s)` for digits
abbrev pub value : ℕ → Text → ℕ
value n [] = n
value n (c ∷ cs) = value (n * 10 + (c - b'0')) cs

abbrev pub strip_prefix : Text → Text → Option Text
strip_prefix [] cs = some cs
strip_prefix (p ∷ ps) [] = none
strip_prefix (p ∷ ps) (c ∷ cs) = let rest = strip_prefix ps cs in if p == c then rest else none

abbrev pub serial_after : Option Text → Option Text
serial_after none = none
serial_after (some s) = if is_serial s then some s else none

abbrev pub first_of : {A : Type 0} → Option A → Option A → Option A
first_of none other = other
first_of (some a) other = some a

abbrev pub tagged : Channel → Option Text → Option (Channel × Text)
tagged channel none = none
tagged channel (some s) = some (channel, s)

-- A channel behind its name, and the digits of its serial: the three alternatives in turn.
abbrev pub channel_by : (Channel → Text) → Text → Option (Channel × Text)
channel_by prefix rest = first_of (tagged alpha (serial_after (strip_prefix (prefix alpha) rest))) (
    first_of (tagged beta (serial_after (strip_prefix (prefix beta) rest)))
      (tagged rc (serial_after (strip_prefix (prefix rc) rest))))

abbrev pub release_prefix : Channel → Text
release_prefix stable = []
release_prefix alpha = codes "-alpha."
release_prefix beta = codes "-beta."
release_prefix rc = codes "-rc."

abbrev pub prerelease : Text → Text → Option (Channel × Text) → Option ReleaseVersion
prerelease version base none = none
prerelease version base (some (channel, serial)) =
    some
      (record { version = version; base = base; channel = channel; serial = some (value 0 serial) })

abbrev pub release_with : Text → Option (Text × Text) → Option ReleaseVersion
release_with version none = none
release_with version (some (base, [])) =
    some (record { version = version; base = base; channel = stable; serial = none })
release_with version (some (base, c ∷ rest)) =
    prerelease version base (channel_by release_prefix (c ∷ rest))

-- `none` is the `ValueError`.
unfoldable pub parse_version : Text → Option ReleaseVersion
parse_version version = release_with version (base_of version)

-- The pattern of a tag is `v` and the pattern of a version.
unfoldable pub parse_tag : Text → Option ReleaseVersion
parse_tag [] = none
parse_tag (c ∷ version) = if c == b'v' then parse_version version else none

abbrev pub canonical_with : Text → Text → Option (Channel × Text) → Text
canonical_with value base none = value
canonical_with value base (some (channel, serial)) = base ++ (release_prefix channel ++ serial)

abbrev pub canonical_of : Text → Option (Text × Text) → Text
canonical_of value none = value
canonical_of value (some (base, rest)) = canonical_with value base (channel_by pypi_letter rest)

unfoldable pub canonical_release_version : Text → Text
canonical_release_version value = canonical_of value (base_of value)

unfoldable pub canonical_release_version_for_file : String → Text → Text
canonical_release_version_for_file name value =
    if str_eq name "uv.lock" then canonical_release_version value else value

-- The files with another version, for the versions of the files by their names.
unfoldable pub mismatches : Text → List (String × Text) → List (String × Text)
mismatches expected_version versions =
    let expected = canonical_release_version expected_version in
    keep
      (λ file. not (
        codes_eq (canonical_release_version_for_file file.0 file.1)
          (canonical_release_version_for_file file.0 expected)))
      versions

-- Of the parsed tags, a beta of the base whose serial is greater than the latest one's.
abbrev pub is_beta_of : Text → ReleaseVersion → Bool
is_beta_of base r = elim r.channel [ beta ↦ codes_eq r.base base | _ ↦ false ]

abbrev pub later_of : Option ℕ → ℕ → ℕ
later_of none latest = latest
later_of (some serial) latest = if ltb latest serial then serial else latest

abbrev pub step_tag : Text → Option ReleaseVersion → ℕ → ℕ
step_tag base none latest = latest
step_tag base (some r) latest = if is_beta_of base r then later_of r.serial latest else latest

-- The serial of the latest beta tag, 0 where there is none: serials start at 1.
unfoldable pub latest_beta : Text → List Text → ℕ → ℕ
latest_beta base [] latest = latest
latest_beta base (tag_name ∷ tags) latest =
    latest_beta base tags (step_tag base (parse_tag (strip_codes tag_name)) latest)

-- `next_beta_number`, for the tags that git lists; `none` is the `ValueError` of the base.
abbrev pub number_if_valid : Option ReleaseVersion → ℕ → Option ℕ
number_if_valid none next = none
number_if_valid (some r) next = some next

unfoldable pub next_beta_number : Text → List Text → Option ℕ
next_beta_number base_version tags =
    number_if_valid (parse_version base_version) (suc (latest_beta base_version tags 0))
