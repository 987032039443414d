-- ===== src/Resilience/Breaker/Calls.antt =====
-- app/core/resilience/circuit_breaker.py, `call`: calls that overlap, as interleavings of the steps
-- between two waits.
use firecrawl_lb.Prelude.{
  ℕ, ◌+◌, ◌≤◌, ◌≡◌, ap, sym, ◌∙◌, Bool, true, false, List, [], ◌∷◌, ◌++◌, arith, count,
  count-append, if◌then◌else◌,
}
use firecrawl_lb.Resilience.Breaker.{
  CircuitBreaker, state, pre_call_check, admitted, record_success, record_failure, Failure,
  release_half_open_probe,
}

-- A call that awaits its coroutine, or that has recorded the result and is about to run `finally`.
pub data Call : Type 0 where
  awaiting finishing : Bool → Call

abbrev pub is_probe : Call → Bool
is_probe (awaiting probe) = probe
is_probe (finishing probe) = probe

pub record System : Type 0 where
  pub breaker : CircuitBreaker
  pub calls : List Call

abbrev released : Bool → CircuitBreaker → CircuitBreaker
released true b = release_half_open_probe b
released false b = b

-- A refused call changes nothing. A cancelled one records nothing, and runs `finally` all the same.
pub data Step (s : System) : System → Type 0 where
  start :
      (now : ℕ) (probe : Bool) (b : CircuitBreaker)
      → pre_call_check s.breaker now ≡ (admitted probe, b)
      → Step s (record { breaker = b; calls = awaiting probe ∷ s.calls })
  succeed :
      (now : ℕ) (probe : Bool) (before after : List Call)
      → s.calls ≡ before ++ awaiting probe ∷ after
      → Step s (record {
        breaker = record_success s.breaker now;
        calls = before ++ finishing probe ∷ after;
      })
  fail :
      (now : ℕ) (exc : Failure) (probe : Bool) (before after : List Call)
      → s.calls ≡ before ++ awaiting probe ∷ after
      → Step s (record {
        breaker = record_failure s.breaker exc now;
        calls = before ++ finishing probe ∷ after;
      })
  cancel :
      (probe : Bool) (before after : List Call)
      → s.calls ≡ before ++ awaiting probe ∷ after
      → Step s (record { breaker = s.breaker; calls = before ++ finishing probe ∷ after })
  finish :
      (probe : Bool) (before after : List Call)
      → s.calls ≡ before ++ finishing probe ∷ after
      → Step s (record { breaker = released probe s.breaker; calls = before ++ after })

pub data Reach (start : System) : System → Type 0 where
  here : Reach start start
  next : {s t : System} → Reach start s → Step s t → Reach start t

abbrev one_if : Bool → ℕ
one_if true = 1
one_if false = 0

-- The flag says whether a probe is under way.
abbrev Inv : System → Type 0
Inv s = count is_probe s.calls ≡ one_if s.breaker.half_open_probe_in_flight

flag-success :
    (b : CircuitBreaker) (now : ℕ)
    → (record_success b now).half_open_probe_in_flight ≡ b.half_open_probe_in_flight
unfolding record_success state
flag-success b now = ground arith

flag-failure :
    (b : CircuitBreaker) (exc : Failure) (now : ℕ)
    → (record_failure b exc now).half_open_probe_in_flight ≡ b.half_open_probe_in_flight
unfolding record_failure
flag-failure b exc now = ground arith

start-Inv :
    (b b' : CircuitBreaker) (now : ℕ) (probe : Bool) (n : ℕ)
    → pre_call_check b now ≡ (admitted probe, b')
    → n ≡ one_if b.half_open_probe_in_flight
    → one_if probe + n ≡ one_if b'.half_open_probe_in_flight
unfolding pre_call_check state
start-Inv b b' now probe n e h = ground arith

count-cons :
    (c : Call) (cs : List Call) → count is_probe (c ∷ cs) ≡ one_if (is_probe c) + count is_probe cs
count-cons c cs = ground arith

count-middle :
    (c : Call) (before after : List Call)
    → count is_probe (before ++ c ∷ after)
      ≡ count is_probe before + one_if (is_probe c) + count is_probe after
count-middle c before after =
    omega (arith, count-append is_probe before (c ∷ after), count-cons c after)

-- A call that goes from one phase to the next stays a probe, or none.
same_count :
    (cs : List Call) (probe : Bool) (before after : List Call)
    → cs ≡ before ++ awaiting probe ∷ after
    → count is_probe (before ++ finishing probe ∷ after) ≡ count is_probe cs
same_count cs probe before after e =
    count-middle (finishing probe) before after
    ∙ sym (count-middle (awaiting probe) before after)
    ∙ ap (count is_probe) (sym e)

released-flag :
    (probe : Bool) (b : CircuitBreaker) (n : ℕ)
    → n + one_if probe ≡ one_if b.half_open_probe_in_flight
    → n ≡ one_if (released probe b).half_open_probe_in_flight
unfolding release_half_open_probe
released-flag probe b n h = ground arith

Step-Inv : {s t : System} → Step s t → Inv s → Inv t
Step-Inv {s} (start now probe b e) h =
    count-cons (awaiting probe) s.calls
    ∙ start-Inv s.breaker b now probe (count is_probe s.calls) e h
Step-Inv {s} (succeed now probe before after e) h =
    same_count s.calls probe before after e ∙ h ∙ ap one_if (sym (flag-success s.breaker now))
Step-Inv {s} (fail now exc probe before after e) h =
    same_count s.calls probe before after e ∙ h ∙ ap one_if (sym (flag-failure s.breaker exc now))
Step-Inv {s} (cancel probe before after e) h = same_count s.calls probe before after e ∙ h
Step-Inv {s} (finish probe before after e) h =
    released-flag probe s.breaker (count is_probe (before ++ after)) (
      omega (
        arith,
        count-append is_probe before after,
        count-middle (finishing probe) before after,
        ap (count is_probe) e,
        h,
      ))

one_if-le : (b : Bool) → one_if b ≤ 1
one_if-le true = omega arith
one_if-le false = omega arith

Reach-Inv : {s t : System} → Inv s → Reach s t → Inv t
Reach-Inv h here = h
Reach-Inv h (next r st) = Step-Inv st (Reach-Inv h r)

-- From a breaker with no call and no probe, however calls overlap, succeed, fail and are cancelled,
-- at most one probe is under way, and the flag is set exactly while there is one.
pub one_probe :
    (b : CircuitBreaker) (t : System)
    → b.half_open_probe_in_flight ≡ false
    → Reach (record { breaker = b; calls = [] }) t
    → (count is_probe t.calls ≤ 1)
      × (count is_probe t.calls ≡ (if t.breaker.half_open_probe_in_flight then 1 else 0))
one_probe b t quiet r =
    let inv = Reach-Inv (ap one_if (sym quiet)) r in
    (omega (arith, inv, one_if-le t.breaker.half_open_probe_in_flight), ground arith)
