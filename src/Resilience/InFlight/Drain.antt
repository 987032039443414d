-- ===== src/Resilience/InFlight/Drain.antt =====
-- app/core/middleware/inflight.py and app/core/shutdown.py: the count is exact, and a draining server
-- runs empty.
use firecrawl_lb.Prelude.{
  ℕ, ◌+◌, ◌-◌, ◌<◌, ◌≡◌, refl, ◌==◌, Bool, true, false, ◌&&◌, not, List, [], ◌∷◌, arith, if_elim,
  any,
}
use firecrawl_lb.Resilience.Overload.{Scope}
use firecrawl_lb.Resilience.InFlight.{
  ShutdownState, reset, set_draining, decrement_in_flight, Arrival, counted, uncounted,
  draining_503, arrive, allowed_in_drain, excluded, is_http, Look, wait_for_in_flight_drain,
}

-- The globals, and the number of counted requests that are running.
pub record Server : Type 0 where
  pub shutdown : ShutdownState
  pub running : ℕ

abbrev counts : Arrival → ℕ
counts counted = 1
counts uncounted = 0
counts draining_503 = 0

-- Requests arrive and end, and the drain is switched on and off, in any order.
pub data Step (s : Server) : Server → Type 0 where
  arrives :
      (scope : Scope)
      → Step s (record {
        shutdown = (arrive scope s.shutdown).1;
        running = counts (arrive scope s.shutdown).0 + s.running;
      })
  ends :
      0 < s.running
      → Step s (record { shutdown = decrement_in_flight s.shutdown; running = s.running - 1 })
  drains : (val : Bool) → Step s (record s { shutdown = set_draining val s.shutdown })

pub data Reach (start : Server) : Server → Type 0 where
  here : Reach start start
  next : {s t : Server} → Reach start s → Step s t → Reach start t

arrive-counts :
    (scope : Scope) (s : ShutdownState)
    → (arrive scope s).1.in_flight ≡ counts (arrive scope s).0 + s.in_flight
unfolding arrive
arrive-counts scope s =
    let P = λ (x : Arrival × ShutdownState). x.1.in_flight ≡ counts x.0 + s.in_flight in
    if_elim P (not (is_http scope.scope_type)) (omega arith) (
      if_elim P (s.draining && not (allowed_in_drain scope.path)) (omega arith)
        (if_elim P (excluded scope.path) (omega arith) (omega arith)))

Step-exact :
    {s t : Server} → Step s t → s.shutdown.in_flight ≡ s.running → t.shutdown.in_flight ≡ t.running
unfolding decrement_in_flight set_draining
Step-exact {s} (arrives scope) h = omega (arith, arrive-counts scope s.shutdown)
Step-exact (ends some_running) h = omega arith
Step-exact (drains val) h = h

-- From a fresh state, until the state is reset at the end of the shutdown, the count is always the number
-- of counted requests that run: the clamp at zero never hides one.
pub count_exact :
    {s : Server}
    → Reach (record { shutdown = reset; running = 0 }) s
    → s.shutdown.in_flight ≡ s.running
unfolding reset
count_exact here = refl
count_exact (next r st) = Step-exact st (count_exact r)

-- While the server drains, an HTTP request outside the paths that a drain allows is refused and
-- leaves the count alone.
pub draining_refuses :
    (scope : Scope) (s : ShutdownState)
    → s.draining ≡ true
    → is_http scope.scope_type ≡ true
    → allowed_in_drain scope.path ≡ false
    → arrive scope s ≡ (draining_503, s)
unfolding arrive
draining_refuses scope s on over_http outside = rw (over_http, on, outside)

-- The wait reports success only when its last look at the count showed zero: it saw the server empty.
pub wait_for_in_flight_drain-empty :
    (deadline : ℕ) (look : Look) (looks : List Look)
    → wait_for_in_flight_drain deadline look looks ≡ true
    → any (λ l. l.in_flight == 0) (look ∷ looks) ≡ true
unfolding wait_for_in_flight_drain
wait_for_in_flight_drain-empty deadline look [] h = ground arith
wait_for_in_flight_drain-empty deadline look (l ∷ looks) h =
    ground (arith, wait_for_in_flight_drain-empty deadline l looks)
