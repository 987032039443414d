-- ===== src/Release/Decimal.antt =====
-- scripts/release_versions.py: printing the number that digits spell.
use firecrawl_lb.Prelude.{
  ℕ, zero, suc, ◌+◌, ◌-◌, ◌*◌, ◌/◌, ◌%◌, ◌≤◌, ◌<◌, true, [], ◌∷◌, ◌++◌, ◌≡◌, refl, ap, ◌∙◌, arith,
  all,
}
use firecrawl_lb.Prelude.Text.{is_digit}
use firecrawl_lb.Release.{Text, digits_onto, decimal, value, is_serial}

-- The number that digits spell, the last one first.
abbrev pub value_back : Text → ℕ
value_back [] = 0
value_back (c ∷ cs) = value_back cs * 10 + (c - b'0')

-- The digits of such a list in front of `out`.
abbrev pub turned : Text → Text → Text
turned [] out = out
turned (c ∷ cs) out = turned cs (c ∷ out)

-- Digits whose first one, at the end of the list, is not 0.
abbrev pub Leading : Text → Type 0
Leading [] = Unit
Leading (c ∷ cs) = (0 < value_back (c ∷ cs)) × (b'0' ≤ c) × (c ≤ b'9') × Leading cs

last_digit :
    (n c : ℕ)
    → b'0' ≤ c
    → c ≤ b'9'
    → ((n * 10 + (c - b'0')) / 10 ≡ n) × (b'0' + (n * 10 + (c - b'0')) % 10 ≡ c)
last_digit n c lo hi = (omega arith, omega arith)

onto_step :
    (fuel n : ℕ) (out : Text)
    → 0 < n
    → digits_onto (suc fuel) n out ≡ digits_onto fuel (n / 10) ((b'0' + n % 10) ∷ out)
unfolding digits_onto
onto_step fuel n out h = ground arith

onto_zero : (fuel : ℕ) (out : Text) → digits_onto fuel 0 out ≡ out
unfolding digits_onto
onto_zero zero out = refl
onto_zero (suc fuel) out = refl

digits_onto-value :
    (fuel : ℕ) (cs out : Text)
    → Leading cs
    → value_back cs ≤ fuel
    → digits_onto fuel (value_back cs) out ≡ turned cs out
digits_onto-value fuel [] out h enough = onto_zero fuel out
digits_onto-value zero (c ∷ cs) out (pos_value, lo, hi, h) enough = absurd (omega arith)
digits_onto-value (suc fuel) (c ∷ cs) out (pos_value, lo, hi, h) enough =
    let (tenth, unit) = last_digit (value_back cs) c lo hi in
    onto_step fuel (value_back (c ∷ cs)) out pos_value
    ∙ (ap (λ (d : ℕ). digits_onto fuel (value_back (c ∷ cs) / 10) (d ∷ out)) unit
        ∙ (ap (λ (m : ℕ). digits_onto fuel m (c ∷ out)) tenth
            ∙ digits_onto-value fuel cs (c ∷ out) h (omega arith)))

-- Reading digits from the front builds the list from the back.
abbrev pub pushed : Text → Text → Text
pushed [] acc = acc
pushed (c ∷ cs) acc = pushed cs (c ∷ acc)

value-pushed : (cs acc : Text) → value (value_back acc) cs ≡ value_back (pushed cs acc)
value-pushed [] acc = refl
value-pushed (c ∷ cs) acc = value-pushed cs (c ∷ acc)

turned-pushed : (cs acc out : Text) → turned (pushed cs acc) out ≡ turned acc (cs ++ out)
turned-pushed [] acc out = refl
turned-pushed (c ∷ cs) acc out = turned-pushed cs (c ∷ acc) out

digit_range : (c : ℕ) → is_digit c ≡ true → (b'0' ≤ c) × (c ≤ b'9')
unfolding is_digit
digit_range c h = ground arith

Leading-pushed :
    (cs acc : Text)
    → all is_digit cs ≡ true
    → 0 < value_back acc
    → Leading acc
    → Leading (pushed cs acc)
Leading-pushed [] acc h positive lead = lead
Leading-pushed (c ∷ cs) acc h positive lead =
    let (lo, hi) = digit_range c (ground arith) in
    Leading-pushed cs (c ∷ acc) (ground arith) (omega arith) (omega arith, lo, hi, lead)

serial_parts :
    (c : ℕ) (cs : Text)
    → is_serial (c ∷ cs) ≡ true
    → (b'1' ≤ c) × (c ≤ b'9') × (all is_digit cs ≡ true)
serial_parts c cs h = ground arith

value-pos : (cs : Text) (n : ℕ) → 0 < n → 0 < value n cs
value-pos [] n h = h
value-pos (c ∷ cs) n h = value-pos cs (n * 10 + (c - b'0')) (omega arith)

nonzero : (n : ℕ) → 0 < n → decimal n ≡ digits_onto n n []
unfolding decimal
nonzero n h = ground arith

append_nil : (cs : Text) → cs ++ [] ≡ cs
append_nil [] = refl
append_nil (c ∷ cs) = ap (λ (l : Text). c ∷ l) (append_nil cs)

-- A serial is printed as it was spelled.
pub decimal-value : (cs : Text) → is_serial cs ≡ true → decimal (value 0 cs) ≡ cs
unfolding decimal
decimal-value [] h = absurd (cc)
decimal-value (c ∷ cs) h =
    let (lo, hi, digits) = serial_parts c cs h in
    let n = value_back (pushed cs (c ∷ [])) in
    let lead = Leading-pushed cs (c ∷ []) digits (omega arith) (omega arith, omega arith, hi, tt) in
    let e = value-pushed cs (c ∷ []) in
    let positive = value-pos cs (0 * 10 + (c - b'0')) (omega arith) in
    nonzero (value (0 * 10 + (c - b'0')) cs) positive
    ∙ (ap (λ (m : ℕ). digits_onto m m []) e
        ∙ (digits_onto-value n (pushed cs (c ∷ [])) [] lead (omega arith)
            ∙ (turned-pushed cs (c ∷ []) [] ∙ ap (λ (l : Text). c ∷ l) (append_nil cs))))
