-- ===== src/CacheInvalidation/Notice.antt =====
-- app/core/cache/invalidation.py: a bump between two polls is noticed by the second one.
use firecrawl_lb.Prelude.{
  ℕ, ◌≤◌, ◌<◌, ◌≡◌, refl, ap, sym, ◌∙◌, subst, String, Bool, true, false, Option, none, some, List,
  [], ◌∷◌, ◌++◌, arith, In, In-append_left, inl, inr, Bool-cases, if_cases, if◌then◌else◌,
}
use firecrawl_lb.Prelude.Text.{str_eq, eq_iff}
use firecrawl_lb.Prelude.Dict.{Dict, lookup, insert, lookup-insert}
use firecrawl_lb.CacheInvalidation.{
  bump, next_version, notices, callbacks_of, poll_rows, poll_once, CacheInvalidationPoller,
}

-- A primary key: no namespace has two rows.
abbrev pub IsKeyed : Dict ℕ → Type 0
IsKeyed [] = Unit {0}
IsKeyed ((namespace, version) ∷ rows) = (lookup namespace rows ≡ none) × IsKeyed rows

insert-IsKeyed :
    (namespace : String) (version : ℕ) (rows : Dict ℕ)
    → IsKeyed rows
    → IsKeyed (insert namespace version rows)
insert-IsKeyed namespace version [] h = (refl, tt)
insert-IsKeyed namespace version ((n, v) ∷ rows) h =
    if_cases IsKeyed (str_eq n namespace) (λ e. h)
      (λ e. (
        ground (
          arith,
          lookup-insert namespace n version rows,
          eq_iff namespace n,
          eq_iff n namespace,
          h.0,
        ),
        insert-IsKeyed namespace version rows h.1,
      ))

In-append_right : {A : Type 0} (x : A) (xs ys : List A) → In x ys → In x (xs ++ ys)
In-append_right x [] ys i = i
In-append_right x (y ∷ xs) ys i = inr (In-append_right x xs ys i)

abbrev or_known : Option ℕ → Option ℕ → Option ℕ
or_known none known = known
or_known (some version) known = some version

known-step :
    (b : Bool) (row known : Option ℕ) (v : ℕ)
    → (b ≡ true → row ≡ none)
    → or_known row (if b then some v else known) ≡ or_known (if b then some v else row) known
known-step true row known v h = ap (λ (r : Option ℕ). or_known r (some v)) (h refl)
known-step false row known v h = refl

run_noticed :
    {A : Type 0} (b : Bool) (x : A) (xs : List A) → b ≡ true → In x xs → In x (if b then xs else [])
run_noticed true x xs h i = i
run_noticed false x xs h i = cc

if_true :
    (b : Bool) (v version : ℕ) (o : Option ℕ)
    → b ≡ true
    → (if b then some v else o) ≡ some version
    → v ≡ version
if_true true v version o h e = ground arith
if_true false v version o h e = cc

if_false : {A : Type 0} (b : Bool) (x y : A) → b ≡ false → (if b then x else y) ≡ y
if_false true x y h = cc
if_false false x y h = refl

module _ {C : Type 0} (first : Bool) (callbacks : Dict (List C)) where
  -- After the loop the version of each row is known.
  poll_rows-known :
      (namespace : String) (rows known : Dict ℕ)
      → IsKeyed rows
      → lookup namespace (poll_rows first callbacks rows known).1
        ≡ or_known (lookup namespace rows) (lookup namespace known)
  unfolding poll_rows
  poll_rows-known namespace [] known h = refl
  poll_rows-known namespace ((n, v) ∷ rows) known h =
      let rest = poll_rows-known namespace rows (insert n v known) h.1 in
      let put = lookup-insert n namespace v known in
      rest
      ∙ ap (or_known (lookup namespace rows)) put
      ∙ known-step (str_eq n namespace) (lookup namespace rows) (lookup namespace known) v
          (λ e. subst (λ (k : String). lookup k rows ≡ none) ((eq_iff n namespace).0 e) h.0)

  -- The loop runs the callbacks of a row that it notices.
  poll_rows-runs :
      (namespace : String) (version : ℕ) (rows known : Dict ℕ) (callback : C)
      → IsKeyed rows
      → lookup namespace rows ≡ some version
      → notices (lookup namespace known) first version ≡ true
      → In callback (callbacks_of namespace callbacks)
      → In callback (poll_rows first callbacks rows known).0
  unfolding poll_rows
  poll_rows-runs namespace version [] known callback h found noticed i = cc
  poll_rows-runs namespace version ((n, v) ∷ rows) known callback h found noticed i =
      elim (Bool-cases (str_eq n namespace)) [
        | inl e ↦ In-append_left callback _ _ (
            run_noticed _ callback (callbacks_of n callbacks)
              (subst (λ (k : String). notices (lookup k known) first v ≡ true)
                (sym ((eq_iff n namespace).0 e))
                (subst (λ (w : ℕ). notices (lookup namespace known) first w ≡ true)
                  (sym (if_true (str_eq n namespace) v version (lookup namespace rows) e found))
                  noticed))
              (subst (λ (k : String). In callback (callbacks_of k callbacks))
                (sym ((eq_iff n namespace).0 e)) i))
        | inr e ↦ In-append_right callback _ _ (
            poll_rows-runs namespace version rows (insert n v known) callback h.1
              (sym (if_false (str_eq n namespace) (some v) (lookup namespace rows) e) ∙ found)
              (ap (λ (o : Option ℕ). notices o first version)
                  (lookup-insert n namespace v known
                    ∙ if_false (str_eq n namespace) (some v) (lookup namespace known) e)
                ∙ noticed)
              i)
      ]

-- The version of a row, or 0.
abbrev version_or_zero : Option ℕ → ℕ
version_or_zero none = 0
version_or_zero (some version) = version

pub bump_all : List String → Dict ℕ → Dict ℕ
bump_all [] rows = rows
bump_all (namespace ∷ namespaces) rows = bump_all namespaces (bump namespace rows)

bump_all-IsKeyed :
    (namespaces : List String) (rows : Dict ℕ) → IsKeyed rows → IsKeyed (bump_all namespaces rows)
unfolding bump_all bump
bump_all-IsKeyed [] rows h = h
bump_all-IsKeyed (n ∷ ns) rows h = bump_all-IsKeyed ns (bump n rows) (insert-IsKeyed n _ rows h)

bump-grows :
    (n namespace : String) (rows : Dict ℕ)
    → version_or_zero (lookup namespace rows) ≤ version_or_zero (lookup namespace (bump n rows))
unfolding bump
bump-grows n namespace rows =
    ground
      (arith, lookup-insert n namespace (next_version (lookup n rows)) rows, eq_iff n namespace)

bump_all-grows :
    (namespaces : List String) (namespace : String) (rows : Dict ℕ)
    → version_or_zero (lookup namespace rows)
      ≤ version_or_zero (lookup namespace (bump_all namespaces rows))
unfolding bump_all
bump_all-grows [] namespace rows = omega arith
bump_all-grows (n ∷ ns) namespace rows =
    omega (arith, bump-grows n namespace rows, bump_all-grows ns namespace (bump n rows))

bump-above :
    (namespace : String) (rows : Dict ℕ)
    → version_or_zero (lookup namespace rows)
      < version_or_zero (lookup namespace (bump namespace rows))
unfolding bump
bump-above namespace rows = ground (
  arith,
  lookup-insert namespace namespace (next_version (lookup namespace rows)) rows,
  eq_iff namespace namespace,
)

bump_all-above :
    (namespaces : List String) (namespace : String) (rows : Dict ℕ)
    → In namespace namespaces
    → version_or_zero (lookup namespace rows)
      < version_or_zero (lookup namespace (bump_all namespaces rows))
unfolding bump_all
bump_all-above [] namespace rows i = absurd i
bump_all-above (n ∷ ns) namespace rows (inl e) =
    subst
      (λ (k : String).
        version_or_zero (lookup namespace rows)
        < version_or_zero (lookup namespace (bump_all ns (bump k rows))))
      e
      (omega (arith, bump-above namespace rows, bump_all-grows ns namespace (bump namespace rows)))
bump_all-above (n ∷ ns) namespace rows (inr i) =
    omega (arith, bump-grows n namespace rows, bump_all-above ns namespace (bump n rows) i)

-- A version above the known one is noticed after the first poll.
above-noticed :
    (known old new : Option ℕ)
    → (old ≡ none → known ≡ none)
    → version_or_zero old < version_or_zero new
    → (w : ℕ) × (new ≡ some w) × (notices (or_known old known) true w ≡ true)
above-noticed known old none h k = absurd (omega arith)
above-noticed known none (some w) h k =
    (w, refl, subst (λ (o : Option ℕ). notices o true w ≡ true) (sym (h refl)) (ground arith))
above-noticed known (some v) (some w) h k = (w, refl, ground arith)

-- Once a poller has polled the table, every namespace that is bumped before the next poll, be it new
-- or not and among whatever other bumps, has its callbacks run by that poll. The table has one row for
-- each namespace, and the poller knows no namespace that the table lacks.
pub bump-noticed :
    {C : Type 0} (p : CacheInvalidationPoller C) (rows : Dict ℕ) (namespaces : List String)
    (namespace : String) (callback : C)
    → IsKeyed rows
    → ((n : String) → lookup n rows ≡ none → lookup n p.known_versions ≡ none)
    → In namespace namespaces
    → In callback (callbacks_of namespace p.callbacks)
    → In callback (poll_once (some (bump_all namespaces rows)) (poll_once (some rows) p).1).0
unfolding poll_once
bump-noticed p rows namespaces namespace callback keyed only bumped registered =
    let known =
      poll_rows-known p.poll_initialized p.callbacks namespace rows p.known_versions keyed in
    let (w, found, noticed) =
      above-noticed (lookup namespace p.known_versions) (lookup namespace rows)
        (lookup namespace (bump_all namespaces rows)) (only namespace)
        (bump_all-above namespaces namespace rows bumped) in
    poll_rows-runs true p.callbacks namespace w (bump_all namespaces rows) _ callback
      (bump_all-IsKeyed namespaces rows keyed) found
      (ap (λ (o : Option ℕ). notices o true w) known ∙ noticed) registered
