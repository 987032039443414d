-- ===== src/Firecrawl/Service/Payments.antt =====
-- app/modules/firecrawl/repository.py, `apply_success`: what a payment takes from an account.
use firecrawl_lb.Prelude.{
  String, Bool, true, false, ◌≡◌, ◌≢◌, refl, Option, none, some, List, [], ◌∷◌, arith, if_cases,
}
use firecrawl_lb.Prelude.Int.{ℤ, pos, ◌+ℤ◌, ◌-ℤ◌, ◌≤ℤ◌, at_least}
use firecrawl_lb.Prelude.Text.{eq_iff}
use firecrawl_lb.Firecrawl.Models.{AccountStatus, active, rate_limited}
use firecrawl_lb.Firecrawl.Records.{AccountRecord, change, account_is}
use firecrawl_lb.Firecrawl.Repository.{charge, spend, is_rate_limited}

-- The credits `after` are those `before` less `c`, as far as there were as many, and none otherwise.
abbrev pub Less : ℤ → Option ℤ → Option ℤ → Type 0
Less c none after = after ≡ none
Less c (some before) none = ⊥
Less c (some before) (some after) =
    (c ≤ℤ before → after +ℤ c ≡ before) × (before ≤ℤ c → after ≡ pos 0)

-- One account pays `c`: its credits are less, a limited one serves again, and nothing else changes.
pub record Pays (c : ℤ) (a b : AccountRecord) : Type 0 where
  pub less : Less c a.remaining_credits_live b.remaining_credits_live
  pub resumed : a.status ≡ rate_limited → (b.status ≡ active) × (b.cooldown_until ≡ none)
  pub kept : a.status ≢ rate_limited → (b.status ≡ a.status) × (b.cooldown_until ≡ a.cooldown_until)
  pub others : b ≡ record a {
    status = b.status;
    cooldown_until = b.cooldown_until;
    remaining_credits_live = b.remaining_credits_live;
  }

-- The account with the key pays `c`, and no other one changes.
pub data Charges (key : String) (c : ℤ) : List AccountRecord → List AccountRecord → Type 0 where
  nobody : Charges key c [] []
  charges :
      {a b : AccountRecord} (rest : List AccountRecord)
      → a.id ≡ key
      → Pays c a b
      → Charges key c (a ∷ rest) (b ∷ rest)
  passes :
      {a : AccountRecord} {xs ys : List AccountRecord}
      → a.id ≢ key
      → Charges key c xs ys
      → Charges key c (a ∷ xs) (a ∷ ys)

spend_enough : (c before : ℤ) → c ≤ℤ before → pos (at_least 0 (before -ℤ c)) +ℤ c ≡ before
unfolding ◌+ℤ◌ ◌-ℤ◌
spend_enough c before h = ground arith

spend_short : (c before : ℤ) → before ≤ℤ c → pos (at_least 0 (before -ℤ c)) ≡ pos 0
unfolding ◌-ℤ◌
spend_short c before h = ground arith

spend-Less : (c : ℤ) (remaining : Option ℤ) → Less c remaining (spend remaining c)
spend-Less c none = refl
spend-Less c (some before) = (spend_enough c before, spend_short c before)

limited_of : (s : AccountStatus) → is_rate_limited s ≡ true → s ≡ rate_limited
limited_of s h = ground arith

charge-Pays : (c : ℤ) (a : AccountRecord) → Pays c a (charge c a)
unfolding charge
charge-Pays c a = by_status (is_rate_limited a.status) refl
  where
    by_status : (b : Bool) → is_rate_limited a.status ≡ b → Pays c a (charge c a)
    by_status true e = rw e (record {
      less = spend-Less c a.remaining_credits_live;
      resumed = λ h. (refl, refl);
      kept = λ h. absurd (h (limited_of a.status e));
      others = refl;
    })
    by_status false e = rw e (record {
      less = spend-Less c a.remaining_credits_live;
      resumed = λ h. absurd (cc);
      kept = λ h. (refl, refl);
      others = refl;
    })

pub change-Charges :
    (key : String) (c : ℤ) (accounts : List AccountRecord)
    → Charges key c accounts (change (account_is key) (charge c) accounts)
unfolding change
change-Charges key c [] = nobody
change-Charges key c (a ∷ accounts) =
    if_cases (Charges key c (a ∷ accounts)) (account_is key a)
      (λ e. charges accounts ((eq_iff a.id key).0 e) (charge-Pays c a))
      (λ e. passes (λ h. absurd (cc (e, (eq_iff a.id key).1 h))) (change-Charges key c accounts))
