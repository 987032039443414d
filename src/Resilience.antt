-- ===== src/Resilience.antt =====
-- Local overload protection: app/core/resilience, app/core/middleware/inflight.py and
-- app/core/shutdown.py.
pub mod Breaker
pub mod RetryBudget
pub mod Overload
pub mod Bulkhead
pub mod InFlight
