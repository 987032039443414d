-- ===== src/Firecrawl/Routing/Choice.antt =====
-- app/modules/firecrawl/routing.py: `max` over the candidates returns one that none beats.
use firecrawl_lb.Prelude.{
  ◌≡◌, refl, Bool, true, false, inl, inr, List, [], ◌∷◌, arith, In, if◌then◌else◌,
}
use firecrawl_lb.Prelude.Text.{codes, codes_lt_irrefl, codes_lt_trans}
use firecrawl_lb.Firecrawl.Routing.Scores.{Floats}
use firecrawl_lb.Firecrawl.Routing.{Candidate, greater, max_candidate}

module _ (fl : Floats) where
  greater_irrefl : (c : Candidate fl) → greater fl c c ≡ false
  unfolding greater
  greater_irrefl c = ground (arith, fl.lt_irrefl c.score, codes_lt_irrefl (codes c.account.id))

  greater_trans :
      (a b c : Candidate fl) → greater fl a b ≡ true → greater fl b c ≡ true → greater fl a c ≡ true
  unfolding greater
  greater_trans a b c h k = ground (
    arith,
    codes_lt_trans (codes c.account.id) (codes b.account.id) (codes a.account.id),
    fl.eq_trans a.score b.score c.score,
    fl.eq_sym a.score b.score,
    fl.eq_sym a.score c.score,
    fl.eq_sym b.score c.score,
    fl.eq_trans b.score a.score c.score,
    fl.eq_trans a.score c.score b.score,
    fl.lt_trans c.score b.score a.score,
    fl.lt_eq c.score b.score a.score,
    fl.eq_lt c.score b.score a.score,
    fl.lt_eq c.score a.score b.score,
    fl.lt_eq c.score a.score c.score,
    fl.lt_eq b.score a.score c.score,
    fl.lt_eq b.score a.score b.score,
    fl.lt_irrefl c.score,
    fl.lt_irrefl b.score,
  )

  max_keeps :
      (x best : Candidate fl) (cs : List (Candidate fl))
      → greater fl x best ≡ false
      → greater fl x (max_candidate fl best cs) ≡ false
  unfolding max_candidate
  max_keeps x best [] h = h
  max_keeps x best (c ∷ cs) h =
      max_keeps x (if greater fl c best then c else best) cs
        (ground (arith, greater_trans x c best))

  -- No candidate beats the one that `max` returns.
  pub max_candidate-greatest :
      (best : Candidate fl) (cs : List (Candidate fl)) (c : Candidate fl)
      → In c (best ∷ cs)
      → greater fl c (max_candidate fl best cs) ≡ false
  unfolding max_candidate
  max_candidate-greatest best cs c (inl e) = rw e (max_keeps best best cs (greater_irrefl best))
  max_candidate-greatest best [] c (inr h) = absurd h
  max_candidate-greatest best (d ∷ ds) c (inr (inl e)) =
      rw e
        (max_keeps d (if greater fl d best then d else best) ds (ground (arith, greater_irrefl d)))
  max_candidate-greatest best (d ∷ ds) c (inr (inr h)) =
      max_candidate-greatest (if greater fl d best then d else best) ds c (inr h)

  In-either :
      (b : Bool) (m c best : Candidate fl) (cs : List (Candidate fl))
      → In m ((if b then c else best) ∷ cs)
      → In m (best ∷ c ∷ cs)
  In-either true m c best cs h = inr h
  In-either false m c best cs (inl e) = inl e
  In-either false m c best cs (inr h) = inr (inr h)

  -- The one that `max` returns is a candidate.
  pub max_candidate-In :
      (best : Candidate fl) (cs : List (Candidate fl)) → In (max_candidate fl best cs) (best ∷ cs)
  unfolding max_candidate
  max_candidate-In best [] = inl refl
  max_candidate-In best (c ∷ cs) =
      In-either (greater fl c best) _ c best cs
        (max_candidate-In (if greater fl c best then c else best) cs)
