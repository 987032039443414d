-- ===== src/Firecrawl/Routing/Scores.antt =====
-- Python's floats as routing uses them: the operations, and the laws of the two tests.
use firecrawl_lb.Prelude.{ℕ, Bool, true, false, ◌≡◌}
use firecrawl_lb.Prelude.Int.{ℤ}

-- `literal n` is n / 100.
pub record Floats : Type 1 where
  pub F : Type 0
  pub of_int : ℤ → F
  pub literal : ℕ → F
  pub add : F → F → F
  pub sub : F → F → F
  pub mul : F → F → F
  pub div : F → F → F
  pub lt : F → F → Bool
  pub eq : F → F → Bool
  pub lt_irrefl : (a : F) → lt a a ≡ false
  pub lt_trans : (a b c : F) → lt a b ≡ true → lt b c ≡ true → lt a c ≡ true
  pub eq_sym : (a b : F) → eq a b ≡ true → eq b a ≡ true
  pub eq_trans : (a b c : F) → eq a b ≡ true → eq b c ≡ true → eq a c ≡ true
  pub lt_eq : (a b c : F) → lt a b ≡ true → eq b c ≡ true → lt a c ≡ true
  pub eq_lt : (a b c : F) → eq a b ≡ true → lt b c ≡ true → lt a c ≡ true
