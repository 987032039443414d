-- ===== src/Prelude/Dict.antt =====
-- Python's `dict` with text keys, as an association list in insertion order.
use Prim.Native.String.{String}
use mathlib.Core.Path.{◌≡◌, refl}
use mathlib.Core.List.{List, [], ◌∷◌}
use mathlib.Core.Option.{Option, none, some}
use native.Mathlib.Omega.{arith}
use text.Mathlib.Text.{◌==◌ as str_eq}
use text.Mathlib.TextEquality.{eq_iff}
use firecrawl_lb.Prelude.Tests.{if◌then◌else◌}

abbrev pub Dict {ℓ} : Type ℓ → Type ℓ
Dict V = List (String × V)

module _ {ℓ} {V : Type ℓ} where
  -- `d.get(key)`
  abbrev pub lookup : String → Dict V → Option V
  lookup key [] = none
  lookup key ((first, held) ∷ rest) = if str_eq first key then some held else lookup key rest

  -- `d[key] = value`
  abbrev pub insert : String → V → Dict V → Dict V
  insert key value [] = (key, value) ∷ []
  insert key value ((first, held) ∷ rest) =
      let others = insert key value rest in
      if str_eq first key then (first, value) ∷ rest else (first, held) ∷ others

  -- A lookup after an insert.
  pub lookup-insert :
      (key other : String) (value : V) (d : Dict V)
      → lookup other (insert key value d)
        ≡ (if str_eq key other then some value else lookup other d)
  lookup-insert key other value [] = refl
  lookup-insert key other value ((first, held) ∷ rest) = ground (
    arith,
    lookup-insert key other value rest,
    eq_iff first other,
    eq_iff first key,
    eq_iff key other,
  )
