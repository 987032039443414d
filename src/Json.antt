-- ===== src/Json.antt =====
-- JSON values as Python holds them once a body is parsed, and the tests the proxy makes of them.
use firecrawl_lb.Prelude.{
  ℕ, zero, suc, String, Bool, true, false, not, ◌&&◌, Option, none, some, if◌then◌else◌,
}
use firecrawl_lb.Prelude.Int.{ℤ, is_zero_ℤ}
use firecrawl_lb.Prelude.Text.{str_eq, is_empty}

-- `real i whole` is a float with integer part `i`; `whole` is `is_integer()`.
mutual
  pub data Value : Type 0 where
    null : Value
    int : ℤ → Value
    real : ℤ → Bool → Value
    boolean : Bool → Value
    obj : Fields → Value
    arr : Items → Value
    str : String → Value

  pub data Fields : Type 0 where
    end : Fields
    field : (key : String) (value : Value) (others : Fields) → Fields

  pub data Items : Type 0 where
    nil : Items
    cons : (item : Value) (items : Items) → Items

-- `d.get(k)`: `None` for a missing key and for a null.
abbrev pub get : String → Fields → Value
get k end = null
get k (field j v fs) = if str_eq j k then v else get k fs

abbrev pub len : Items → ℕ
len nil = zero
len (cons v vs) = suc (len vs)

-- `bool(v)`
abbrev pub truthy : Value → Bool
truthy null = false
truthy (boolean b) = b
truthy (int i) = not (is_zero_ℤ i)
truthy (real i whole) = not (is_zero_ℤ i && whole)
truthy (str s) = not (is_empty s)
truthy (arr nil) = false
truthy (arr (cons v vs)) = true
truthy (obj end) = false
truthy (obj (field k v fs)) = true

-- The text of a value that is one.
abbrev pub str_of : Value → Option String
str_of (str s) = some s
str_of _ = none
