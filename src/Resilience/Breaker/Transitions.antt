-- ===== src/Resilience/Breaker/Transitions.antt =====
-- app/core/resilience/circuit_breaker.py: when the breaker opens, and when it closes again.
use firecrawl_lb.Prelude.{
  ℕ, suc, ◌+◌, ◌≤◌, ◌<◌, ◌≡◌, ap, sym, subst, true, some, List, [], ◌∷◌, arith, All, length,
}
use firecrawl_lb.Resilience.Breaker.{
  closed, opened, CircuitBreaker, state, record_success, record_failure, Failure, is_server_error,
}

-- One failure after another, at their times.
pub fail_all : CircuitBreaker → List (Failure × ℕ) → CircuitBreaker
fail_all b [] = b
fail_all b ((exc, now) ∷ failures) = fail_all (record_failure b exc now) failures

record_failure-counts :
    (b : CircuitBreaker) (exc : Failure) (now : ℕ)
    → is_server_error exc ≡ true
    → ((record_failure b exc now).failure_count ≡ suc b.failure_count)
      × ((record_failure b exc now).failure_threshold ≡ b.failure_threshold)
      × (b.failure_threshold ≤ suc b.failure_count
          → (record_failure b exc now).stored_state ≡ opened)
unfolding record_failure
record_failure-counts b exc now h = rw h (ground arith, ground arith, λ k. ground arith)

-- At least one server error, and enough of them to bring the count of failures to the threshold, with
-- no success between them, leave the breaker open, however many follow.
pub fail_all-opened :
    (b : CircuitBreaker) (failures : List (Failure × ℕ))
    → All (λ f. is_server_error f.0 ≡ true) failures
    → 0 < length failures
    → b.failure_threshold ≤ b.failure_count + length failures
    → (fail_all b failures).stored_state ≡ opened
unfolding fail_all
fail_all-opened b [] h k enough = absurd (omega arith)
fail_all-opened b ((exc, now) ∷ []) h k enough =
    (record_failure-counts b exc now h.0).2 (omega arith)
fail_all-opened b ((exc, now) ∷ f ∷ fs) h k enough =
    let (counted, same, opens) = record_failure-counts b exc now h.0 in
    fail_all-opened (record_failure b exc now) (f ∷ fs) h.1 (omega arith) (omega arith)

pub succeed_all : CircuitBreaker → List ℕ → CircuitBreaker
succeed_all b [] = b
succeed_all b (now ∷ times) = succeed_all (record_success b now) times

record_success-counts :
    (b : CircuitBreaker) (last now : ℕ)
    → b.stored_state ≡ opened
    → b.last_failure_time ≡ some last
    → last + b.recovery_timeout_seconds ≤ now
    → suc b.success_count < b.success_threshold
    → record_success b now ≡ record b { success_count = suc b.success_count }
unfolding record_success state
record_success-counts b last now is_open failed late below = ground arith

record_success-closes :
    (b : CircuitBreaker) (last now : ℕ)
    → b.stored_state ≡ opened
    → b.last_failure_time ≡ some last
    → last + b.recovery_timeout_seconds ≤ now
    → b.success_threshold ≤ suc b.success_count
    → record_success b now
      ≡ record b { stored_state = closed; failure_count = 0; success_count = 0 }
unfolding record_success state
record_success-closes b last now is_open failed late enough = ground arith

-- Successes that all come after the recovery timeout of an open breaker's last failure, as many as it
-- still misses, close it and clear its counts.
pub succeed_all-closed :
    (b : CircuitBreaker) (last : ℕ) (times : List ℕ)
    → b.stored_state ≡ opened
    → b.last_failure_time ≡ some last
    → All (λ now. last + b.recovery_timeout_seconds ≤ now) times
    → b.success_count < b.success_threshold
    → b.success_count + length times ≡ b.success_threshold
    → ((succeed_all b times).stored_state ≡ closed)
      × ((succeed_all b times).failure_count ≡ 0)
      × ((succeed_all b times).success_count ≡ 0)
unfolding succeed_all
succeed_all-closed b last [] is_open failed late below enough = absurd (omega arith)
succeed_all-closed b last (now ∷ []) is_open failed late below enough =
    let e = record_success-closes b last now is_open failed late.0 (omega arith) in
    (
      ap (λ (x : CircuitBreaker). x.stored_state) e,
      ap (λ (x : CircuitBreaker). x.failure_count) e,
      ap (λ (x : CircuitBreaker). x.success_count) e,
    )
succeed_all-closed b last (now ∷ t ∷ times) is_open failed late below enough =
    subst
      (λ (x : CircuitBreaker).
        ((succeed_all x (t ∷ times)).stored_state ≡ closed)
        × ((succeed_all x (t ∷ times)).failure_count ≡ 0)
        × ((succeed_all x (t ∷ times)).success_count ≡ 0))
      (sym (record_success-counts b last now is_open failed late.0 (omega arith)))
      (succeed_all-closed (record b { success_count = suc b.success_count }) last (t ∷ times)
        is_open failed late.1 (omega arith) (omega arith))
