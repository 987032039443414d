-- ===== src/Release/Next.antt =====
-- scripts/release_versions.py: the number of the next beta, and versions and tags.
use firecrawl_lb.Prelude.{
  ℕ, suc, ◌≤◌, ◌<◌, true, Option, none, some, List, [], ◌∷◌, ◌≡◌, sym, ap, ◌∙◌, arith, inl, inr, In,
  if_elim,
}
use firecrawl_lb.Prelude.Text.{strip_codes}
use firecrawl_lb.Release.{
  Text, ReleaseVersion, parse_tag, parse_version, is_beta_of, later_of, step_tag, latest_beta,
  number_if_valid, next_beta_number,
}

later-le : (serial : Option ℕ) (latest : ℕ) → latest ≤ later_of serial latest
later-le none latest = omega arith
later-le (some n) latest = ground arith

step-le : (base : Text) (o : Option ReleaseVersion) (latest : ℕ) → latest ≤ step_tag base o latest
step-le base none latest = omega arith
step-le base (some r) latest =
    if_elim (λ (n : ℕ). latest ≤ n) (is_beta_of base r) (later-le r.serial latest) (omega arith)

latest-le : (base : Text) (tags : List Text) (latest : ℕ) → latest ≤ latest_beta base tags latest
unfolding latest_beta
latest-le base [] latest = omega arith
latest-le base (t ∷ tags) latest =
    let step = step-le base (parse_tag (strip_codes t)) latest in
    let rest = latest-le base tags (step_tag base (parse_tag (strip_codes t)) latest) in omega arith

step-reaches :
    (base : Text) (o : Option ReleaseVersion) (r : ReleaseVersion) (n latest : ℕ)
    → o ≡ some r
    → is_beta_of base r ≡ true
    → r.serial ≡ some n
    → n ≤ step_tag base o latest
step-reaches base o r n latest e b s = rw (e, b, s) (ground arith)

latest-reaches :
    (base : Text) (tags : List Text) (t : Text) (r : ReleaseVersion) (n latest : ℕ)
    → In t tags
    → parse_tag (strip_codes t) ≡ some r
    → is_beta_of base r ≡ true
    → r.serial ≡ some n
    → n ≤ latest_beta base tags latest
unfolding latest_beta
latest-reaches base [] t r n latest i e b s = absurd i
latest-reaches base (u ∷ tags) t r n latest (inl same) e b s =
    let step =
      step-reaches base (parse_tag (strip_codes u)) r n latest
        (ap (λ (x : Text). parse_tag (strip_codes x)) (sym same) ∙ e) b s in
    let rest = latest-le base tags (step_tag base (parse_tag (strip_codes u)) latest) in omega arith
latest-reaches base (u ∷ tags) t r n latest (inr i) e b s =
    latest-reaches base tags t r n (step_tag base (parse_tag (strip_codes u)) latest) i e b s

number_valid : (o : Option ReleaseVersion) (next k : ℕ) → number_if_valid o next ≡ some k → next ≡ k
number_valid none next k h = absurd (cc)
number_valid (some r) next k h = ground arith

-- The number of the next beta is greater than that of every beta tag of the base that git lists, whatever other
-- tags it lists and in whatever order.
pub next_beta_number-greatest :
    (base : Text) (tags : List Text) (k : ℕ) (t : Text) (r : ReleaseVersion) (n : ℕ)
    → next_beta_number base tags ≡ some k
    → In t tags
    → parse_tag (strip_codes t) ≡ some r
    → is_beta_of base r ≡ true
    → r.serial ≡ some n
    → n < k
unfolding next_beta_number
next_beta_number-greatest base tags k t r n h i e b s =
    let reach = latest-reaches base tags t r n 0 i e b s in
    let same = number_valid (parse_version base) (suc (latest_beta base tags 0)) k h in omega arith
