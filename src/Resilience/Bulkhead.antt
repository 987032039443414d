-- ===== src/Resilience/Bulkhead.antt =====
-- app/core/resilience/bulkhead.py and backpressure.py. A semaphore is the number of its free permits;
-- the test `locked()` and the `acquire()` after it run without a wait between them, so one arrival is
-- one step. What `is_memory_warning` logs is not modelled.
pub mod Permits
use firecrawl_lb.Prelude.{
  ℕ, suc, ◌-◌, ◌==◌, ltb, String, Bool, true, false, ◌&&◌, not, Option, none, some, if◌then◌else◌,
}
use firecrawl_lb.Resilience.Overload.{
  ScopeType, http, websocket, lifespan, Scope, is_proxy_path, is_health_path, Rejection,
  payload_for, local_overload_error, local_unavailable_error, local_overload_retry_after_seconds,
}

pub data Lane : Type 0 where
  proxy_http dashboard : Lane

pub record BulkheadSemaphore : Type 0 where
  pub proxy_http : Option ℕ
  pub dashboard : Option ℕ
  pub background : Option ℕ

-- `Semaphore(limit) if limit > 0 else None`
abbrev pub semaphore : ℕ → Option ℕ
semaphore limit = if ltb 0 limit then some limit else none

abbrev or_limit : Option ℕ → ℕ → ℕ
or_limit none default = default
or_limit (some limit) default = limit

unfoldable pub new_bulkhead : Option ℕ → ℕ → ℕ → Option ℕ → BulkheadSemaphore
new_bulkhead proxy_limit dashboard_limit background_limit proxy_http_limit = record {
  proxy_http = semaphore (or_limit proxy_http_limit (or_limit proxy_limit 200));
  dashboard = semaphore dashboard_limit;
  background = semaphore background_limit;
}

abbrev pub is_http : ScopeType → Bool
is_http http = true
is_http _ = false

abbrev pub lane_of : Scope → Lane
lane_of scope =
    if is_http scope.scope_type && is_proxy_path scope.path then Lane.proxy_http else Lane.dashboard

abbrev pub permits : Lane → BulkheadSemaphore → Option ℕ
permits Lane.proxy_http b = b.proxy_http
permits Lane.dashboard b = b.dashboard

abbrev pub with_permits : Lane → ℕ → BulkheadSemaphore → BulkheadSemaphore
with_permits Lane.proxy_http n b = record b { proxy_http = some n }
with_permits Lane.dashboard n b = record b { dashboard = some n }

-- The request goes on with no permit, goes on with one of a lane, or is refused.
pub data Verdict : Type 0 where
  passed : Verdict
  entered : Lane → Verdict
  rejected : Rejection → Verdict

abbrev lane_message : Lane → String
lane_message Lane.proxy_http = "firecrawl-lb is temporarily overloaded in the proxy_http lane"
lane_message Lane.dashboard = "firecrawl-lb is temporarily overloaded in the dashboard lane"

abbrev memory_message : String
memory_message = "firecrawl-lb is temporarily unavailable due to local memory pressure"

abbrev overloaded : Scope → String → Rejection
overloaded scope message = record {
  scope_type = scope.scope_type;
  status_code = 429;
  payload = payload_for scope.path (local_overload_error message) message;
  retry_after = local_overload_retry_after_seconds;
}

abbrev unavailable : Scope → String → Rejection
unavailable scope message = record {
  scope_type = scope.scope_type;
  status_code = 503;
  payload = payload_for scope.path (local_unavailable_error message) message;
  retry_after = local_overload_retry_after_seconds;
}

abbrev pub enter : Scope → Lane → Option ℕ → BulkheadSemaphore → Verdict × BulkheadSemaphore
enter scope lane none b = (passed, b)
enter scope lane (some free) b =
    if free == 0
    then (rejected (overloaded scope (lane_message lane)), b)
    else (entered lane, with_permits lane (free - 1) b)

abbrev pub is_lifespan : ScopeType → Bool
is_lifespan lifespan = true
is_lifespan _ = false

-- `BulkheadMiddleware.__call__` up to the call of the application.
unfoldable pub bulkhead_arrive : Bool → Scope → BulkheadSemaphore → Verdict × BulkheadSemaphore
bulkhead_arrive memory_pressure scope b =
    if is_lifespan scope.scope_type
    then (passed, b)
    else if is_health_path scope.path
    then (passed, b)
    else if memory_pressure
    then (rejected (unavailable scope memory_message), b)
    else enter scope (lane_of scope) (permits (lane_of scope) b) b

abbrev pub released : Lane → Option ℕ → BulkheadSemaphore → BulkheadSemaphore
released lane none b = b
released lane (some free) b = with_permits lane (suc free) b

-- `finally: sem.release()`
unfoldable pub bulkhead_leave : Lane → BulkheadSemaphore → BulkheadSemaphore
bulkhead_leave lane b = released lane (permits lane b) b

-- `BackpressureMiddleware`: one semaphore for all. The verdict is `none` for a request that goes on
-- without a permit, `some true` for one that holds one, and `some false` for a refused one.
abbrev backpressure_message : String
backpressure_message = "firecrawl-lb is temporarily overloaded by local backpressure"

pub data BackpressureVerdict : Type 0 where
  passed entered : BackpressureVerdict
  rejected : Rejection → BackpressureVerdict

unfoldable pub backpressure_arrive : Scope → ℕ → BackpressureVerdict × ℕ
backpressure_arrive scope free =
    if is_lifespan scope.scope_type
    then (BackpressureVerdict.passed, free)
    else if is_health_path scope.path
    then (BackpressureVerdict.passed, free)
    else if free == 0
    then (BackpressureVerdict.rejected (overloaded scope backpressure_message), free)
    else (BackpressureVerdict.entered, free - 1)

unfoldable pub backpressure_leave : ℕ → ℕ
backpressure_leave free = suc free
