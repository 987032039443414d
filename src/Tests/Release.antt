-- ===== src/Tests/Release.antt =====
-- Versions and tags at concrete texts.
use firecrawl_lb.Prelude.{◌<◌, ◌≡◌, refl, some, List, [], ◌∷◌, inl, inr}
use firecrawl_lb.Prelude.Text.{strip_codes, drop_spaces, is_space, is_digit, codes}
use firecrawl_lb.Release.{
  latest_beta, parse_tag, parse_version, base_of, span_digits, digits_onto, decimal, Text,
  ReleaseVersion, beta, pypi_version, canonical_release_version, next_beta_number,
}
use firecrawl_lb.Release.RoundTrip.{canonical_release_version-pypi_version}
use firecrawl_lb.Release.Next.{next_beta_number-greatest}

abbrev beta_twelve : ReleaseVersion
beta_twelve = record {
  version = codes "1.20.3-beta.12";
  base = codes "1.20.3";
  channel = beta;
  serial = some 12;
}

canonical_release_version-pypi_version_example :
    canonical_release_version (pypi_version beta_twelve) ≡ codes "1.20.3-beta.12"
unfolding parse_version base_of span_digits is_digit
canonical_release_version-pypi_version_example =
    canonical_release_version-pypi_version (codes "1.20.3-beta.12") beta_twelve refl

pypi_spelling : pypi_version beta_twelve ≡ codes "1.20.3b12"
unfolding pypi_version decimal digits_onto
pypi_spelling = refl

abbrev tags : List Text
tags = codes "v1.20.3-beta.2" ∷ codes "v1.20.3-beta.12" ∷ codes "v1.20.3-beta.x" ∷ []

next_beta_number-greatest_example : 12 < 13
unfolding next_beta_number parse_tag parse_version base_of span_digits is_digit latest_beta
    strip_codes drop_spaces is_space
next_beta_number-greatest_example =
    next_beta_number-greatest (codes "1.20.3") tags 13 (codes "v1.20.3-beta.12") beta_twelve 12 refl
      (inr (inl refl)) refl refl refl
