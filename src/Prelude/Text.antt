-- ===== src/Prelude/Text.antt =====
-- What the program uses of Python's `str`: equality, order, `strip`, `lower`, `split`, `int`.
-- A text is the native `String`; where the program walks it, it is the list of its code points.
use Prim.Native.Char.{Char, code}
use Prim.Native.String.{String, ◌++◌ as str_append}
use Prim.Native.Nat.{ℕ, zero, suc, ◌+◌, ◌-◌, ◌*◌}
use mathlib.Core.Path.{◌≡◌, refl}
use mathlib.Core.Bool.{Bool, true, false, not, ◌&&◌, ◌||◌}
use mathlib.Core.List.{List, [], ◌∷◌, map, reverse}
use mathlib.Core.Option.{Option, none, some}
use native.Mathlib.Omega.{arith}
use firecrawl_lb.Prelude.Tests.{ltb, leb, ◌==◌, if◌then◌else◌}
use firecrawl_lb.Prelude.Int.{ℤ, pos, negsuc}
pub use text.Mathlib.Text.{◌==◌ as str_eq, starts_with}
pub use text.Mathlib.TextEquality.{eq_iff}

abbrev pub codes : String → List ℕ
codes String.[] = []
codes (String.◌∷◌ c s) = code c ∷ codes s

-- `not s`, for a text
abbrev pub is_empty : String → Bool
is_empty String.[] = true
is_empty (String.◌∷◌ c s) = false

abbrev pub one_of : String → List String → Bool
one_of s [] = false
one_of s (t ∷ ts) = str_eq s t || one_of s ts

-- `a < b` on texts: by code points, a prefix first.
abbrev pub codes_lt : List ℕ → List ℕ → Bool
codes_lt xs [] = false
codes_lt [] (y ∷ ys) = true
codes_lt (x ∷ xs) (y ∷ ys) = let rest = codes_lt xs ys in ltb x y || (x == y && rest)

abbrev pub str_lt : String → String → Bool
str_lt s t = codes_lt (codes s) (codes t)

pub codes_lt_irrefl : (xs : List ℕ) → codes_lt xs xs ≡ false
codes_lt_irrefl [] = refl
codes_lt_irrefl (x ∷ xs) = ground (arith, codes_lt_irrefl xs)

pub codes_lt_trans :
    (xs ys zs : List ℕ) → codes_lt xs ys ≡ true → codes_lt ys zs ≡ true → codes_lt xs zs ≡ true
codes_lt_trans xs [] zs h k = ground arith
codes_lt_trans [] (y ∷ ys) [] h k = ground arith
codes_lt_trans [] (y ∷ ys) (z ∷ zs) h k = refl
codes_lt_trans (x ∷ xs) (y ∷ ys) [] h k = ground arith
codes_lt_trans (x ∷ xs) (y ∷ ys) (z ∷ zs) h k = ground (arith, codes_lt_trans xs ys zs)

-- ASCII white space, as `str.strip` and `int` drop it.
unfoldable pub is_space : ℕ → Bool
is_space c = c == 32 || (leb 9 c && leb c 13) || (leb 28 c && leb c 31)

unfoldable pub drop_spaces : List ℕ → List ℕ
drop_spaces [] = []
drop_spaces (c ∷ cs) = let rest = drop_spaces cs in if is_space c then rest else c ∷ cs

unfoldable pub strip_codes : List ℕ → List ℕ
unfolding is_space drop_spaces
strip_codes cs = reverse (drop_spaces (reverse (drop_spaces cs)))

unfoldable pub strip_left : String → String
unfolding is_space
strip_left String.[] = String.[]
strip_left (String.◌∷◌ c s) =
    let rest = strip_left s in if is_space (code c) then rest else String.◌∷◌ c s

abbrev pub cons_stripped : Char → String → String
cons_stripped c s = if is_space (code c) && is_empty s then String.[] else String.◌∷◌ c s

unfoldable pub strip_right : String → String
unfolding is_space
strip_right String.[] = String.[]
strip_right (String.◌∷◌ c s) = cons_stripped c (strip_right s)

-- `s.strip()`
unfoldable pub strip : String → String
unfolding strip_left strip_right
strip s = strip_right (strip_left s)

abbrev pub cons_head : Char → List String → List String
cons_head c [] = String.◌∷◌ c String.[] ∷ []
cons_head c (part ∷ parts) = String.◌∷◌ c part ∷ parts

-- `s.split(",")`
unfoldable pub split_commas : String → List String
split_commas String.[] = String.[] ∷ []
split_commas (String.◌∷◌ c s) =
    let parts = split_commas s in if code c == 44 then String.[] ∷ parts else cons_head c parts

-- `s.split(separator)`, for a separator of one character
unfoldable pub split_on : ℕ → String → List String
split_on separator String.[] = String.[] ∷ []
split_on separator (String.◌∷◌ c s) =
    let parts = split_on separator s in
    if code c == separator then String.[] ∷ parts else cons_head c parts

unfoldable pub is_digit : ℕ → Bool
is_digit c = leb 48 c && leb c 57

-- The digits after the first: an underscore stands between two digits. `after` says that the
-- character before was an underscore.
pub digits_from : ℕ → Bool → List ℕ → Option ℕ
unfolding is_digit
digits_from acc after [] = if after then none else some acc
digits_from acc after (c ∷ cs) = elim (is_digit c) [
  | true ↦ digits_from (acc * 10 + (c - 48)) false cs
  | false ↦ elim (c == 95 && not after) [ true ↦ digits_from acc true cs | false ↦ none ]
]

pub unsigned : List ℕ → Option ℕ
unfolding is_digit digits_from
unsigned [] = none
unsigned (c ∷ cs) = if is_digit c then digits_from (c - 48) false cs else none

abbrev negated : ℕ → ℤ
negated zero = pos 0
negated (suc n) = negsuc n

abbrev as_int : Bool → Option ℕ → Option ℤ
as_int negative none = none
as_int true (some n) = some (negated n)
as_int false (some n) = some (pos n)

pub signed : List ℕ → Option ℤ
unfolding unsigned
signed [] = none
signed (c ∷ cs) =
    if c == b'-'
    then as_int true (unsigned cs)
    else if c == b'+'
    then as_int false (unsigned cs)
    else as_int false (unsigned (c ∷ cs))

-- `int(s)`; `none` is the `ValueError`.
unfoldable pub int_of_str : String → Option ℤ
unfolding strip_codes signed
int_of_str s = signed (strip_codes (codes s))

lower_code : ℕ → ℕ
lower_code c = if leb 65 c && leb c 90 then c + 32 else c

-- `s.lower()`, as code points; ASCII letters only.
unfoldable pub lower : String → List ℕ
unfolding lower_code
lower s = map lower_code (codes s)

-- `a == b`, for texts given by their code points.
abbrev pub codes_eq : List ℕ → List ℕ → Bool
codes_eq [] [] = true
codes_eq [] (y ∷ ys) = false
codes_eq (x ∷ xs) [] = false
codes_eq (x ∷ xs) (y ∷ ys) = let rest = codes_eq xs ys in x == y && rest

-- `s[n:]`
abbrev pub drop_chars : ℕ → String → String
drop_chars n String.[] = String.[]
drop_chars zero (String.◌∷◌ c s) = String.◌∷◌ c s
drop_chars (suc n) (String.◌∷◌ c s) = drop_chars n s

-- `s[:-1]`
abbrev pub drop_last : String → String
drop_last String.[] = String.[]
drop_last (String.◌∷◌ c String.[]) = String.[]
drop_last (String.◌∷◌ c (String.◌∷◌ d s)) = String.◌∷◌ c (drop_last (String.◌∷◌ d s))

-- `s.endswith(c)`, for one character
abbrev pub ends_with : ℕ → String → Bool
ends_with last String.[] = false
ends_with last (String.◌∷◌ c String.[]) = code c == last
ends_with last (String.◌∷◌ c (String.◌∷◌ d s)) = ends_with last (String.◌∷◌ d s)

abbrev pub codes_start_with : List ℕ → List ℕ → Bool
codes_start_with xs [] = true
codes_start_with [] (y ∷ ys) = false
codes_start_with (x ∷ xs) (y ∷ ys) = let rest = codes_start_with xs ys in x == y && rest

-- `s[:n]`
abbrev pub take_chars : ℕ → String → String
take_chars n String.[] = String.[]
take_chars zero (String.◌∷◌ c s) = String.[]
take_chars (suc n) (String.◌∷◌ c s) = String.◌∷◌ c (take_chars n s)

-- `len(s)`
abbrev pub text_length : String → ℕ
text_length String.[] = 0
text_length (String.◌∷◌ c s) = suc (text_length s)

-- The rest of `s.replace(old, new)`, where the next `skip` characters belong to a replaced text.
abbrev pub replace_from : String → String → ℕ → String → String
replace_from old new skip String.[] = String.[]
replace_from old new (suc skip) (String.◌∷◌ c s) = replace_from old new skip s
replace_from old new zero (String.◌∷◌ c s) =
    let replaced = str_append new (replace_from old new (text_length old - 1) s) in
    let kept = String.◌∷◌ c (replace_from old new zero s) in
    if starts_with (String.◌∷◌ c s) old then replaced else kept

-- `s.replace(old, new)`, for an `old` that is not empty
unfoldable pub replace : String → String → String → String
replace old new s = replace_from old new 0 s
