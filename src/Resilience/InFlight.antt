-- ===== src/Resilience/InFlight.antt =====
-- app/core/middleware/inflight.py and app/core/shutdown.py: the count of running HTTP requests, and
-- the refusal of new ones while the server drains. The module's globals are a record.
pub mod Drain
use firecrawl_lb.Prelude.{
  ℕ, suc, ◌+◌, ◌-◌, ltb, ◌==◌, String, Bool, true, false, ◌&&◌, not, List, [], ◌∷◌, if◌then◌else◌,
}
use firecrawl_lb.Prelude.Text.{one_of}
use firecrawl_lb.Resilience.Overload.{ScopeType, http, Scope}

pub record ShutdownState : Type 0 where
  pub draining : Bool
  pub in_flight : ℕ

unfoldable pub reset : ShutdownState
reset = record { draining = false; in_flight = 0 }

unfoldable pub set_draining : Bool → ShutdownState → ShutdownState
set_draining val s = record s { draining = val }

unfoldable pub increment_in_flight : ShutdownState → ShutdownState
increment_in_flight s = record s { in_flight = suc s.in_flight }

-- `max(0, n - 1)` is the subtraction of natural numbers.
unfoldable pub decrement_in_flight : ShutdownState → ShutdownState
decrement_in_flight s = record s { in_flight = s.in_flight - 1 }

abbrev drain_allowed_http_paths : List String
drain_allowed_http_paths =
    "/health/live" ∷ "/internal/drain/start" ∷ "/internal/drain/stop" ∷ "/internal/drain/status"
    ∷ "/internal/bridge/responses" ∷ []

abbrev in_flight_excluded_http_paths : List String
in_flight_excluded_http_paths =
    "/health/live" ∷ "/health/ready" ∷ "/health/startup" ∷ "/internal/drain/start"
    ∷ "/internal/drain/stop" ∷ "/internal/drain/status" ∷ []

abbrev pub allowed_in_drain : String → Bool
allowed_in_drain path = one_of path drain_allowed_http_paths

abbrev pub excluded : String → Bool
excluded path = one_of path in_flight_excluded_http_paths

abbrev pub is_http : ScopeType → Bool
is_http http = true
is_http _ = false

-- The request goes on uncounted, goes on counted, or gets the 503 of a draining server.
pub data Arrival : Type 0 where
  uncounted counted draining_503 : Arrival

-- `InFlightMiddleware.__call__` up to the call of the application.
unfoldable pub arrive : Scope → ShutdownState → Arrival × ShutdownState
unfolding increment_in_flight
arrive scope s =
    if not (is_http scope.scope_type)
    then (uncounted, s)
    else if s.draining && not (allowed_in_drain scope.path)
    then (draining_503, s)
    else if excluded scope.path
    then (uncounted, s)
    else (counted, increment_in_flight s)

-- One look of `wait_for_in_flight_drain` at the state: the clock and the count.
pub record Look : Type 0 where
  pub now : ℕ
  pub in_flight : ℕ

-- The loop over the looks that it takes. When they run out the task has been cancelled, and the count
-- is that of the last look.
unfoldable pub wait_for_in_flight_drain : ℕ → Look → List Look → Bool
wait_for_in_flight_drain deadline look [] = look.in_flight == 0
wait_for_in_flight_drain deadline look (next ∷ looks) =
    let waited = wait_for_in_flight_drain deadline next looks in
    if ltb 0 look.in_flight && ltb look.now deadline then waited else look.in_flight == 0
