-- ===== src/Tests/Sealing.antt =====
-- A sealing of sessions that can be computed: two flags and the expiry, in unary.
use Prim.Native.Char.{Char, code}
use Prim.Native.String.{String}
use firecrawl_lb.Prelude.{ℕ, zero, suc, Bool, true, false, ◌≡◌, refl, ap, Option, none, some, ◌==◌}
use firecrawl_lb.Prelude.Int.{pos_part}
use firecrawl_lb.Prelude.Text.{strip, strip_left, strip_right, is_space, cons_stripped}
use firecrawl_lb.Json.{Value, Fields, get as field_of}
use firecrawl_lb.DashboardAuth.Sessions.{Sealing, payload}

abbrev pub digit : Char
digit = "1"

abbrev pub flag : Bool → Char
flag true = "t"
flag false = "f"

abbrev pub ones : ℕ → String
ones zero = String.[]
ones (suc n) = String.◌∷◌ digit (ones n)

abbrev pub is_true : Value → Bool
is_true (Value.boolean b) = b
is_true _ = false

abbrev pub number : Value → ℕ
number (Value.int i) = pos_part i
number _ = 0

abbrev pub seal_unary : Fields → String
seal_unary fields =
    String.◌∷◌ (flag (is_true (field_of "pw" fields)))
      (String.◌∷◌ (flag (is_true (field_of "tv" fields))) (ones (number (field_of "exp" fields))))

abbrev pub text_length : String → ℕ
text_length String.[] = zero
text_length (String.◌∷◌ c s) = suc (text_length s)

abbrev pub is_t : Char → Bool
is_t c = code c == b't'

abbrev pub unseal_unary : String → Option Fields
unseal_unary String.[] = none
unseal_unary (String.◌∷◌ c String.[]) = none
unseal_unary (String.◌∷◌ c (String.◌∷◌ d s)) = some (payload (text_length s) (is_t c) (is_t d))

text_length-ones : (n : ℕ) → text_length (ones n) ≡ n
text_length-ones zero = refl
text_length-ones (suc n) = ap (λ k. suc k) (text_length-ones n)

is_t-flag : (b : Bool) → is_t (flag b) ≡ b
is_t-flag true = refl
is_t-flag false = refl

pub unseal-seal_unary :
    (exp : ℕ) (pw tv : Bool)
    → unseal_unary (seal_unary (payload exp pw tv)) ≡ some (payload exp pw tv)
unseal-seal_unary exp pw tv = rw (text_length-ones exp, is_t-flag pw, is_t-flag tv) refl

strip_right-ones : (n : ℕ) → strip_right (ones n) ≡ ones n
unfolding strip_right is_space
strip_right-ones zero = refl
strip_right-ones (suc n) = ap (cons_stripped digit) (strip_right-ones n)

pub strip-flags :
    (pw tv : Bool) (n : ℕ)
    → strip (String.◌∷◌ (flag pw) (String.◌∷◌ (flag tv) (ones n)))
      ≡ String.◌∷◌ (flag pw) (String.◌∷◌ (flag tv) (ones n))
unfolding strip strip_left strip_right is_space
strip-flags true true n = ap (λ s. String.◌∷◌ "t" (String.◌∷◌ "t" s)) (strip_right-ones n)
strip-flags true false n = ap (λ s. String.◌∷◌ "t" (String.◌∷◌ "f" s)) (strip_right-ones n)
strip-flags false true n = ap (λ s. String.◌∷◌ "f" (String.◌∷◌ "t" s)) (strip_right-ones n)
strip-flags false false n = ap (λ s. String.◌∷◌ "f" (String.◌∷◌ "f" s)) (strip_right-ones n)

unfoldable pub unary_sealing : Sealing
unary_sealing = record {
  seal = seal_unary;
  unseal = unseal_unary;
  unseal-seal = unseal-seal_unary;
  strip-seal = λ exp pw tv. strip-flags pw tv exp;
  is_empty-seal = λ exp pw tv. refl;
}
