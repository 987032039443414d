-- ===== src/Resilience/RetryBudget/Window.antt =====
-- app/core/resilience/retry_budget.py: never more retries in a window than the budget.
use firecrawl_lb.Prelude.{
  ℕ, suc, ◌-◌, ◌≤◌, ltb, leb, not, Bool, true, false, ◌≡◌, refl, sym, ◌∙◌, subst, List, [], ◌∷◌,
  ◌++◌, arith, length, count, length-append, count-append, count-le-length,
}
use firecrawl_lb.Resilience.RetryBudget.{
  RetryBudget, new_budget, drop_old, too_old, try_acquire, remaining,
}

-- Granted retries in time order, none after `now`.
abbrev pub Ordered : ℕ → List ℕ → Type 0
Ordered lo [] = Unit {0}
Ordered lo (t ∷ ts) = (lo ≤ t) × Ordered t ts

abbrev in_window : ℕ → ℕ → ℕ → Bool
in_window window now t = not (too_old window now t)

all_recent :
    (window now lo : ℕ) (ts : List ℕ)
    → Ordered lo ts
    → too_old window now lo ≡ false
    → count (in_window window now) ts ≡ length ts
all_recent window now lo [] h k = refl
all_recent window now lo (t ∷ ts) h k = ground (arith, all_recent window now t ts)

-- In a list in order, dropping from the left drops all that is old.
drop_old-count :
    (window now lo : ℕ) (ts : List ℕ)
    → Ordered lo ts
    → (length (drop_old window now ts) ≡ count (in_window window now) ts)
      × (count (in_window window now) (drop_old window now ts) ≡ count (in_window window now) ts)
unfolding drop_old
drop_old-count window now lo [] h = (refl, refl)
drop_old-count window now lo (t ∷ ts) h =
    let (a, b) = drop_old-count window now t ts h.1 in
    ground (arith, all_recent window now t ts h.1)

-- `try_acquire` grants exactly when `remaining` is positive, and a grant takes one from it.
try_acquire-remaining :
    (b : RetryBudget) (now lo : ℕ)
    → Ordered lo b.retry_timestamps
    → ((try_acquire b now).0 ≡ ltb 0 (remaining b now))
      × (remaining (try_acquire b now).1 now ≡ remaining b now - 1)
unfolding try_acquire remaining
try_acquire-remaining b now lo h =
    let (a, k) = drop_old-count b.window_seconds now lo b.retry_timestamps h in
    ground (
      arith,
      count-append (in_window b.window_seconds now)
          (drop_old b.window_seconds now b.retry_timestamps) (now ∷ []),
    )

-- What is dropped at one time is old at every later one.
drop_old-later :
    (window t now : ℕ) (ts : List ℕ)
    → t ≤ now
    → count (in_window window now) (drop_old window t ts) ≡ count (in_window window now) ts
unfolding drop_old
drop_old-later window t now [] h = refl
drop_old-later window t now (x ∷ ts) h = ground (arith, drop_old-later window t now ts h)

length-drop_old : (window now : ℕ) (ts : List ℕ) → length (drop_old window now ts) ≤ length ts
unfolding drop_old
length-drop_old window now [] = omega arith
length-drop_old window now (t ∷ ts) = ground (arith, length-drop_old window now ts)

abbrev granted : Bool → ℕ → List ℕ → List ℕ
granted true now history = history ++ now ∷ []
granted false now history = history

-- The budget after a sequence of attempts, and the history of all that it has granted.
pub attempt_all : RetryBudget → List ℕ → List ℕ → RetryBudget × List ℕ
attempt_all b history [] = (b, history)
attempt_all b history (now ∷ times) =
    let (ok, b') = try_acquire b now in attempt_all b' (granted ok now history) times

-- At every instant from `lo` on, the deque knows of the history what is in the window.
record Remembers (max window lo : ℕ) (b : RetryBudget) (history : List ℕ) : Type 0 where
  same_max : b.max_retries ≡ max
  same_window : b.window_seconds ≡ window
  bounded : length b.retry_timestamps ≤ max
  remembered :
      (now : ℕ)
      → lo ≤ now
      → count (in_window window now) history ≡ count (in_window window now) b.retry_timestamps

abbrev attempted : Bool → RetryBudget → List ℕ → ℕ → Bool × RetryBudget
attempted true b kept now = (false, record b { retry_timestamps = kept })
attempted false b kept now = (true, record b { retry_timestamps = kept ++ now ∷ [] })

attempted-Remembers :
    (max window lo now : ℕ) (b : RetryBudget) (history : List ℕ) (full : Bool) (kept : List ℕ)
    → lo ≤ now
    → Remembers max window lo b history
    → length kept ≤ max
    → (full ≡ false → suc (length kept) ≤ max)
    → ((later : ℕ)
        → now ≤ later
        → count (in_window window later) kept ≡ count (in_window window later) b.retry_timestamps)
    → Remembers max window now
        (attempted full b kept now).1
        (granted (attempted full b kept now).0 now history)
attempted-Remembers max window lo now b history true kept le r fits room same = record {
  same_max = r.same_max;
  same_window = r.same_window;
  bounded = fits;
  remembered = λ later h. r.remembered later (omega arith) ∙ sym (same later h);
}
attempted-Remembers max window lo now b history false kept le r fits room same = record {
  same_max = r.same_max;
  same_window = r.same_window;
  bounded = omega (arith, length-append kept (now ∷ []), room refl);
  remembered = λ later h. omega (
    arith,
    count-append (in_window window later) history (now ∷ []),
    count-append (in_window window later) kept (now ∷ []),
    r.remembered later (omega arith),
    same later h,
  );
}

try_acquire-attempted :
    (b : RetryBudget) (now : ℕ)
    → try_acquire b now
      ≡ attempted
          (leb b.max_retries (length (drop_old b.window_seconds now b.retry_timestamps)))
          b
          (drop_old b.window_seconds now b.retry_timestamps)
          now
unfolding try_acquire
try_acquire-attempted b now = ground arith

try_acquire-Remembers :
    (max window lo now : ℕ) (b : RetryBudget) (history : List ℕ)
    → lo ≤ now
    → Remembers max window lo b history
    → Remembers max window now (try_acquire b now).1 (granted (try_acquire b now).0 now history)
try_acquire-Remembers max window lo now b history le r =
    let kept = drop_old b.window_seconds now b.retry_timestamps in
    subst (λ (x : Bool × RetryBudget). Remembers max window now x.1 (granted x.0 now history))
      (sym (try_acquire-attempted b now))
      (attempted-Remembers max window lo now b history _ kept le r
        (omega (arith, length-drop_old b.window_seconds now b.retry_timestamps, r.bounded))
        (λ e. ground (arith, r.same_max))
        (λ later h.
          subst
            (λ (w : ℕ).
              count (in_window w later) kept ≡ count (in_window w later) b.retry_timestamps)
            r.same_window (drop_old-later b.window_seconds now later b.retry_timestamps h)))

unfoldable pub last : ℕ → List ℕ → ℕ
last lo [] = lo
last lo (t ∷ ts) = last t ts

attempt_all-Remembers :
    (max window lo : ℕ) (b : RetryBudget) (history times : List ℕ)
    → Ordered lo times
    → Remembers max window lo b history
    → Remembers max window
        (last lo times)
        (attempt_all b history times).0
        (attempt_all b history times).1
unfolding attempt_all last
attempt_all-Remembers max window lo b history [] h r = r
attempt_all-Remembers max window lo b history (now ∷ times) h r =
    attempt_all-Remembers max window now (try_acquire b now).1
      (granted (try_acquire b now).0 now history) times h.1
      (try_acquire-Remembers max window lo now b history h.0 r)

-- Of all the retries that a fresh budget has granted to attempts in time order, at most `max` lie in
-- the window that ends at the last attempt or at any later instant.
pub attempt_all-bounded :
    (max window : ℕ) (times : List ℕ) (now : ℕ)
    → Ordered 0 times
    → last 0 times ≤ now
    → count (λ t. not (too_old window now t)) (attempt_all (new_budget max window) [] times).1 ≤ max
attempt_all-bounded max window times now ordered late =
    let r = attempt_all-Remembers max window 0 (new_budget max window) [] times ordered (record {
      same_max = refl;
      same_window = refl;
      bounded = omega arith;
      remembered = λ n h. refl;
    }) in
    omega (
      arith,
      r.remembered now late,
      r.bounded,
      count-le-length (in_window window now)
          (attempt_all (new_budget max window) [] times).0.retry_timestamps,
    )
