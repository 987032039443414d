-- ===== src/Release/Base.antt =====
-- scripts/release_versions.py: the three numbers at the head of a version.
use firecrawl_lb.Prelude.{
  ℕ, true, false, Option, none, some, [], ◌∷◌, ◌++◌, ◌≡◌, refl, sym, ap, ◌∙◌, arith, all, if_cases,
}
use firecrawl_lb.Prelude.Text.{is_digit}
use firecrawl_lb.Release.{
  Text, span_digits, with_digit, or_no_number, number, after_dot, with_patch, with_second_dot,
  with_minor, with_first_dot, with_major, base_of,
}
use mathlib.Core.List.{append_assoc}

-- The text does not start with a digit.
abbrev pub Stops : Text → Type 0
Stops [] = Unit
Stops (c ∷ cs) = is_digit c ≡ false

dot_stops : is_digit b'.' ≡ false
unfolding is_digit
dot_stops = refl

-- Digits, one or more.
abbrev pub IsNumber : Text → Type 0
IsNumber [] = ⊥
IsNumber (c ∷ cs) = all is_digit (c ∷ cs) ≡ true

first_digit : (d : ℕ) (ds : Text) → all is_digit (d ∷ ds) ≡ true → is_digit d ≡ true
first_digit d ds h = ground arith

other_digits : (d : ℕ) (ds : Text) → all is_digit (d ∷ ds) ≡ true → all is_digit ds ≡ true
other_digits d ds h = ground arith

span-append :
    (ds rest : Text) → all is_digit ds ≡ true → Stops rest → span_digits (ds ++ rest) ≡ (ds, rest)
unfolding span_digits
span-append [] [] h stop = refl
span-append [] (c ∷ rest) h stop = rw stop refl
span-append (d ∷ ds) rest h stop =
    rw (first_digit d ds h) (ap (with_digit d) (span-append ds rest (other_digits d ds h) stop))

number-append : (ds rest : Text) → IsNumber ds → Stops rest → number (ds ++ rest) ≡ some (ds, rest)
number-append [] rest h stop = absurd h
number-append (d ∷ ds) rest h stop = ap or_no_number (span-append (d ∷ ds) rest h stop)

-- What `number` reads: digits in front of a text that does not go on with one.
abbrev pub Numbered : Text → Option (Text × Text) → Type 0
Numbered cs none = Unit
Numbered cs (some (ds, rest)) = IsNumber ds × Stops rest × (cs ≡ ds ++ rest)

abbrev pub Spanned : Text → Text × Text → Type 0
Spanned cs (ds, rest) = (all is_digit ds ≡ true) × Stops rest × (cs ≡ ds ++ rest)

longer-Spanned :
    (c : ℕ) (cs : Text) (r : Text × Text)
    → is_digit c ≡ true
    → Spanned cs r
    → Spanned (c ∷ cs) (with_digit c r)
longer-Spanned c cs (ds, rest) e (digits, stops, parts) =
    (ground arith, stops, ap (λ (l : Text). c ∷ l) parts)

span-Spanned : (cs : Text) → Spanned cs (span_digits cs)
unfolding span_digits
span-Spanned [] = (refl, tt, refl)
span-Spanned (c ∷ cs) =
    if_cases (Spanned (c ∷ cs)) (is_digit c)
      (λ e. longer-Spanned c cs (span_digits cs) e (span-Spanned cs)) (λ e. (refl, e, refl))

some_number-Numbered : (cs : Text) (r : Text × Text) → Spanned cs r → Numbered cs (or_no_number r)
some_number-Numbered cs ([], rest) h = tt
some_number-Numbered cs (d ∷ ds, rest) h = h

number-Numbered : (cs : Text) → Numbered cs (number cs)
number-Numbered cs = some_number-Numbered cs (span_digits cs) (span-Spanned cs)

abbrev pub dotted : Text → Text → Text → Text
dotted major minor patch = major ++ (b'.' ∷ (minor ++ (b'.' ∷ patch)))

-- Three numbers with dots between them, and what follows.
pub data Based (cs : Text) : Option (Text × Text) → Type 0 where
  no_base : Based cs none
  based_on :
      (major minor patch rest : Text)
      → IsNumber major
      → IsNumber minor
      → IsNumber patch
      → Stops rest
      → cs ≡ dotted major minor patch ++ rest
      → Based cs (some (dotted major minor patch, rest))

dotted-append :
    (major minor patch rest : Text)
    → dotted major minor patch ++ rest ≡ major ++ (b'.' ∷ (minor ++ (b'.' ∷ (patch ++ rest))))
dotted-append major minor patch rest =
    append_assoc major (b'.' ∷ (minor ++ (b'.' ∷ patch))) rest
    ∙ ap (λ (l : Text). major ++ (b'.' ∷ l)) (append_assoc minor (b'.' ∷ patch) rest)

dot_head : (cs rest : Text) → after_dot cs ≡ some rest → cs ≡ b'.' ∷ rest
dot_head [] rest h = absurd (cc)
dot_head (c ∷ cs) rest h = ground arith

patch-Based :
    (cs major minor rest : Text) (o : Option (Text × Text))
    → IsNumber major
    → IsNumber minor
    → cs ≡ major ++ (b'.' ∷ (minor ++ (b'.' ∷ rest)))
    → Numbered rest o
    → Based cs (with_patch major minor o)
patch-Based cs major minor rest none m n e h = no_base
patch-Based cs major minor rest (some (patch, more)) m n e (p, stops, parts) =
    based_on major minor patch more m n p stops (
      e
      ∙ ap (λ (l : Text). major ++ (b'.' ∷ (minor ++ (b'.' ∷ l)))) parts
      ∙ sym (dotted-append major minor patch more))

second-Based :
    (cs major minor rest : Text) (o : Option Text)
    → after_dot rest ≡ o
    → IsNumber major
    → IsNumber minor
    → cs ≡ major ++ (b'.' ∷ (minor ++ rest))
    → Based cs (with_second_dot major minor o)
second-Based cs major minor rest none d m n e = no_base
second-Based cs major minor rest (some more) d m n e =
    patch-Based cs major minor more (number more) m n
      (e ∙ ap (λ (l : Text). major ++ (b'.' ∷ (minor ++ l))) (dot_head rest more d))
      (number-Numbered more)

minor-Based :
    (cs major rest : Text) (o : Option (Text × Text))
    → IsNumber major
    → cs ≡ major ++ (b'.' ∷ rest)
    → Numbered rest o
    → Based cs (with_minor major o)
minor-Based cs major rest none m e h = no_base
minor-Based cs major rest (some (minor, more)) m e (n, stops, parts) =
    second-Based cs major minor more (after_dot more) refl m n
      (e ∙ ap (λ (l : Text). major ++ (b'.' ∷ l)) parts)

first-Based :
    (cs major rest : Text) (o : Option Text)
    → after_dot rest ≡ o
    → IsNumber major
    → cs ≡ major ++ rest
    → Based cs (with_first_dot major o)
first-Based cs major rest none d m e = no_base
first-Based cs major rest (some more) d m e =
    minor-Based cs major more (number more) m
      (e ∙ ap (λ (l : Text). major ++ l) (dot_head rest more d)) (number-Numbered more)

major-Based : (cs : Text) (o : Option (Text × Text)) → Numbered cs o → Based cs (with_major o)
major-Based cs none h = no_base
major-Based cs (some (major, rest)) (m, stops, parts) =
    first-Based cs major rest (after_dot rest) refl m parts

pub base_of-Based : (cs : Text) → Based cs (base_of cs)
unfolding base_of
base_of-Based cs = major-Based cs (number cs) (number-Numbered cs)

-- The same base is read in front of any text that does not go on with a digit.
pub base_of-append :
    (major minor patch rest : Text)
    → IsNumber major
    → IsNumber minor
    → IsNumber patch
    → Stops rest
    → base_of (dotted major minor patch ++ rest) ≡ some (dotted major minor patch, rest)
unfolding base_of
base_of-append major minor patch rest m n p stops =
    ap (λ (l : Text). with_major (number l)) (dotted-append major minor patch rest)
    ∙ ap with_major (number-append major (b'.' ∷ (minor ++ (b'.' ∷ (patch ++ rest)))) m dot_stops)
    ∙ ap (with_minor major) (number-append minor (b'.' ∷ (patch ++ rest)) n dot_stops)
    ∙ ap (with_patch major minor) (number-append patch rest p stops)
