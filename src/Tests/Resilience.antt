-- ===== src/Tests/Resilience.antt =====
-- The resilience layers at small configurations.
use firecrawl_lb.Prelude.{◌≤◌, ◌≡◌, refl, true, false, not, some, [], ◌∷◌, arith, count}
use firecrawl_lb.Prelude.Dict.{Dict}
use firecrawl_lb.Resilience.Breaker.{CircuitBreaker, new_breaker, opened, pre_call_check, state}
use firecrawl_lb.Resilience.Breaker.Calls.{System, here, next, start, is_probe, awaiting, one_probe}
use firecrawl_lb.Resilience.Breaker.Registry.{BreakerSettings}
use firecrawl_lb.Resilience.RetryBudget.{new_budget, too_old}
use firecrawl_lb.Resilience.RetryBudget.Window.{attempt_all, attempt_all-bounded, last}
use firecrawl_lb.Resilience.Overload.{Scope, Rejection, http}
use firecrawl_lb.Resilience.Bulkhead.{bulkhead_arrive, new_bulkhead, rejected, lane_of}
use firecrawl_lb.Resilience.Bulkhead.Permits as Permits
use firecrawl_lb.Resilience.Bulkhead.Permits.{holding, limit_of, quiet, lanes_bounded, Traffic}
use firecrawl_lb.Resilience.InFlight.{reset, arrive, increment_in_flight}
use firecrawl_lb.Resilience.InFlight.Drain as Drain
use firecrawl_lb.Resilience.InFlight.Drain.{Server, count_exact}

abbrev two_failures : CircuitBreaker
two_failures = new_breaker 2 30 2

abbrev open_breaker : CircuitBreaker
open_breaker = record two_failures {
  stored_state = opened;
  failure_count = 2;
  last_failure_time = some 2;
}

abbrev probing : System
probing = record {
  breaker = record open_breaker { half_open_probe_in_flight = true };
  calls = awaiting true ∷ [];
}

one_probe_example : (count is_probe probing.calls ≤ 1) × (count is_probe probing.calls ≡ 1)
unfolding pre_call_check state
one_probe_example =
    one_probe open_breaker probing refl
      (next here (start 40 true (record open_breaker { half_open_probe_in_flight = true }) refl))

abbrev enabled : BreakerSettings
enabled = record {
  circuit_breaker_enabled = true;
  circuit_breaker_failure_threshold = 2;
  circuit_breaker_recovery_timeout_seconds = 30;
}

abbrev one_open : Dict CircuitBreaker
one_open = ("a1", open_breaker) ∷ []

attempt_all-bounded_example :
    count (λ t. not (too_old 10 12 t)) (attempt_all (new_budget 2 10) [] (1 ∷ 2 ∷ 3 ∷ 12 ∷ [])).1
    ≤ 2
unfolding last
attempt_all-bounded_example =
    attempt_all-bounded 2 10 (1 ∷ 2 ∷ 3 ∷ 12 ∷ []) 12
      (omega arith, (omega arith, (omega arith, (omega arith, tt)))) (omega arith)

abbrev map_call : Scope
map_call = record { scope_type = http; path = "/v2/map" }

abbrev one_inside : Traffic
one_inside = record {
  bulkhead = record { proxy_http = some 0; dashboard = some 1; background = some 1 };
  proxy_http = 1;
  dashboard = 0;
}

lanes_bounded_example :
    (one_inside.proxy_http ≤ 1)
    × (one_inside.dashboard ≤ 1)
    × ((scope : Scope) (r : Rejection)
        → (bulkhead_arrive false scope one_inside.bulkhead).0 ≡ rejected r
        → holding (lane_of scope) one_inside ≡ limit_of (lane_of scope) 1 1)
unfolding bulkhead_arrive new_bulkhead
lanes_bounded_example =
    lanes_bounded 1 1 1 one_inside
      (Permits.Reach.next Permits.Reach.here (Permits.Step.arrive false map_call))

count_exact_example : (arrive map_call reset).1.in_flight ≡ 1
unfolding arrive reset increment_in_flight
count_exact_example =
    count_exact {s = record { shutdown = (arrive map_call reset).1; running = 1 }}
      (Drain.Reach.next Drain.Reach.here (Drain.Step.arrives map_call))
