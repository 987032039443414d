-- ===== src/Resilience/Bulkhead/Permits.antt =====
-- app/core/resilience/bulkhead.py, backpressure.py: no lane ever serves more requests than its limit.
use firecrawl_lb.Prelude.{
  ℕ, suc, ◌+◌, ◌-◌, ◌≤◌, ◌<◌, ◌≡◌, refl, sym, subst, if_elim, Bool-cases, ◌==◌, Bool, true, false,
  if_cases, Option, none, some, arith, inl, inr,
}
use firecrawl_lb.Resilience.Overload.{Scope, Rejection, is_health_path}
use firecrawl_lb.Resilience.Bulkhead.{
  enter, released, is_lifespan, Lane, BulkheadSemaphore, semaphore, new_bulkhead, lane_of, permits,
  Verdict, entered, passed, rejected, bulkhead_arrive, bulkhead_leave, BackpressureVerdict,
  backpressure_arrive,
}

-- The semaphores, and how many requests hold a permit of each lane.
pub record Traffic : Type 0 where
  pub bulkhead : BulkheadSemaphore
  pub proxy_http : ℕ
  pub dashboard : ℕ

abbrev pub holding : Lane → Traffic → ℕ
holding Lane.proxy_http t = t.proxy_http
holding Lane.dashboard t = t.dashboard

abbrev joined : Verdict → Traffic → BulkheadSemaphore → Traffic
joined (entered Lane.proxy_http) t b = record {
  bulkhead = b;
  proxy_http = suc t.proxy_http;
  dashboard = t.dashboard;
}
joined (entered Lane.dashboard) t b = record {
  bulkhead = b;
  proxy_http = t.proxy_http;
  dashboard = suc t.dashboard;
}
joined passed t b = record t { bulkhead = b }
joined (rejected r) t b = record t { bulkhead = b }

abbrev left : Lane → Traffic → Traffic
left Lane.proxy_http t = record {
  bulkhead = bulkhead_leave Lane.proxy_http t.bulkhead;
  proxy_http = t.proxy_http - 1;
  dashboard = t.dashboard;
}
left Lane.dashboard t = record {
  bulkhead = bulkhead_leave Lane.dashboard t.bulkhead;
  proxy_http = t.proxy_http;
  dashboard = t.dashboard - 1;
}

-- Requests arrive, under memory pressure or not, and those that hold a permit leave, in any order.
pub data Step (t : Traffic) : Traffic → Type 0 where
  arrive :
      (memory_pressure : Bool) (scope : Scope)
      → Step t (
          joined
            (bulkhead_arrive memory_pressure scope t.bulkhead).0
            t
            (bulkhead_arrive memory_pressure scope t.bulkhead).1)
  leave : (lane : Lane) → 0 < holding lane t → Step t (left lane t)

pub data Reach (start : Traffic) : Traffic → Type 0 where
  here : Reach start start
  next : {s t : Traffic} → Reach start s → Step s t → Reach start t

-- Free permits and held ones make up the limit; a lane without a semaphore lends none.
abbrev Balanced : ℕ → Option ℕ → ℕ → Type 0
Balanced limit none held = (limit ≡ 0) × (held ≡ 0)
Balanced limit (some free) held = free + held ≡ limit

record Inv (proxy_limit dashboard_limit : ℕ) (t : Traffic) : Type 0 where
  proxied : Balanced proxy_limit t.bulkhead.proxy_http t.proxy_http
  dashboards : Balanced dashboard_limit t.bulkhead.dashboard t.dashboard

module _ (p d : ℕ) (s : Traffic) (v : Inv p d s) where
  abbrev After : Verdict × BulkheadSemaphore → Type 0
  After x = Inv p d (joined x.0 s x.1)

  enter-Inv :
      (scope : Scope) (lane : Lane) (o : Option ℕ)
      → permits lane s.bulkhead ≡ o
      → After (enter scope lane o s.bulkhead)
  enter-Inv scope lane none e = record { proxied = v.proxied; dashboards = v.dashboards }
  enter-Inv scope Lane.proxy_http (some free) e =
      let balance = subst (λ (x : Option ℕ). Balanced p x s.proxy_http) e v.proxied in
      elim (Bool-cases (free == 0)) [
        | inl t ↦ rw t (record { proxied = v.proxied; dashboards = v.dashboards })
        | inr t ↦ rw t (record { proxied = ground arith; dashboards = v.dashboards })
      ]
  enter-Inv scope Lane.dashboard (some free) e =
      let balance = subst (λ (x : Option ℕ). Balanced d x s.dashboard) e v.dashboards in
      elim (Bool-cases (free == 0)) [
        | inl t ↦ rw t (record { proxied = v.proxied; dashboards = v.dashboards })
        | inr t ↦ rw t (record { proxied = v.proxied; dashboards = ground arith })
      ]

  same-Inv : Inv p d (record s { bulkhead = s.bulkhead })
  same-Inv = record { proxied = v.proxied; dashboards = v.dashboards }

  arrive-Inv :
      (memory_pressure : Bool) (scope : Scope)
      → After (bulkhead_arrive memory_pressure scope s.bulkhead)
  unfolding bulkhead_arrive
  arrive-Inv memory_pressure scope = if_elim After (is_lifespan scope.scope_type) same-Inv (
      if_elim After (is_health_path scope.path) same-Inv (
        if_elim After memory_pressure same-Inv
          (enter-Inv scope (lane_of scope) (permits (lane_of scope) s.bulkhead) refl)))

  release_balance :
      (limit held : ℕ) (o : Option ℕ)
      → 0 < held
      → Balanced limit o held
      → (free : ℕ) × (o ≡ some free) × (suc free + (held - 1) ≡ limit)
  release_balance limit held none h k = absurd (omega arith)
  release_balance limit held (some free) h k = (free, refl, omega arith)

  leave-Inv : (lane : Lane) → 0 < holding lane s → Inv p d (left lane s)
  unfolding bulkhead_leave
  leave-Inv Lane.proxy_http h =
      let (free, e, balance) = release_balance p s.proxy_http s.bulkhead.proxy_http h v.proxied in
      subst
        (λ (o : Option ℕ). Inv p d (record {
          bulkhead = released Lane.proxy_http o s.bulkhead;
          proxy_http = s.proxy_http - 1;
          dashboard = s.dashboard;
        }))
        (sym e) (record { proxied = balance; dashboards = v.dashboards })
  leave-Inv Lane.dashboard h =
      let (free, e, balance) = release_balance d s.dashboard s.bulkhead.dashboard h v.dashboards in
      subst
        (λ (o : Option ℕ). Inv p d (record {
          bulkhead = released Lane.dashboard o s.bulkhead;
          proxy_http = s.proxy_http;
          dashboard = s.dashboard - 1;
        }))
        (sym e) (record { proxied = v.proxied; dashboards = balance })

Step-Inv : {s t : Traffic} (p d : ℕ) → Step s t → Inv p d s → Inv p d t
Step-Inv {s} p d (arrive memory_pressure scope) v = arrive-Inv p d s v memory_pressure scope
Step-Inv {s} p d (leave lane h) v = leave-Inv p d s v lane h

Reach-Inv : {s t : Traffic} (p d : ℕ) → Inv p d s → Reach s t → Inv p d t
Reach-Inv p d v here = v
Reach-Inv p d v (next r st) = Step-Inv p d st (Reach-Inv p d v r)

abbrev pub quiet : ℕ → ℕ → ℕ → Traffic
quiet p d background = record {
  bulkhead = new_bulkhead none d background (some p);
  proxy_http = 0;
  dashboard = 0;
}

semaphore-Balanced : (limit : ℕ) → Balanced limit (semaphore limit) 0
semaphore-Balanced limit = ground arith

balanced-le : (limit held : ℕ) (o : Option ℕ) → Balanced limit o held → held ≤ limit
balanced-le limit held none h = omega arith
balanced-le limit held (some free) h = omega arith

full_when_none_free : (limit held : ℕ) → Balanced limit (some 0) held → held ≡ limit
full_when_none_free limit held h = omega arith

abbrev pub limit_of : Lane → ℕ → ℕ → ℕ
limit_of Lane.proxy_http p d = p
limit_of Lane.dashboard p d = d

lane-Balanced :
    (p d : ℕ) (t : Traffic) (lane : Lane)
    → Inv p d t
    → Balanced (limit_of lane p d) (permits lane t.bulkhead) (holding lane t)
lane-Balanced p d t Lane.proxy_http v = v.proxied
lane-Balanced p d t Lane.dashboard v = v.dashboards

enter_refused :
    (limit held : ℕ) (scope : Scope) (lane : Lane) (o : Option ℕ) (b : BulkheadSemaphore)
    (r : Rejection)
    → Balanced limit o held
    → (enter scope lane o b).0 ≡ rejected r
    → held ≡ limit
enter_refused limit held scope lane none b r h e = absurd (cc)
enter_refused limit held scope lane (some free) b r h e =
    if_cases (λ (x : Verdict × BulkheadSemaphore). x.0 ≡ rejected r → held ≡ limit) (free == 0)
      (λ none_free _. ground arith) (λ _ admitted. absurd (cc)) e

arrive_refused :
    (p d : ℕ) (t : Traffic) (scope : Scope) {r : Rejection}
    → Inv p d t
    → (bulkhead_arrive false scope t.bulkhead).0 ≡ rejected r
    → holding (lane_of scope) t ≡ limit_of (lane_of scope) p d
unfolding bulkhead_arrive
arrive_refused p d t scope {r} v =
    let Refused = λ (x : Verdict × BulkheadSemaphore).
      x.0 ≡ rejected r → holding (lane_of scope) t ≡ limit_of (lane_of scope) p d in
    if_elim Refused (is_lifespan scope.scope_type) (λ e. absurd (cc))
      (if_elim Refused (is_health_path scope.path) (λ e. absurd (cc))
        (enter_refused (limit_of (lane_of scope) p d) (holding (lane_of scope) t) scope
          (lane_of scope) (permits (lane_of scope) t.bulkhead) t.bulkhead r
          (lane-Balanced p d t (lane_of scope) v)))

-- However requests arrive and leave, the requests that hold a permit of a lane are no more than its
-- limit, and a request that is refused without memory pressure finds its lane with as many holders as
-- the limit: no permit is lost. A limit of 0 means no limit, and its requests hold no permit.
pub lanes_bounded :
    (p d background : ℕ) (t : Traffic)
    → Reach (quiet p d background) t
    → (t.proxy_http ≤ p)
      × (t.dashboard ≤ d)
      × ((scope : Scope) (r : Rejection)
          → (bulkhead_arrive false scope t.bulkhead).0 ≡ rejected r
          → holding (lane_of scope) t ≡ limit_of (lane_of scope) p d)
unfolding new_bulkhead
lanes_bounded p d background t r =
    let v =
      Reach-Inv p d (record { proxied = semaphore-Balanced p; dashboards = semaphore-Balanced d })
        r in
    (
      balanced-le p t.proxy_http t.bulkhead.proxy_http v.proxied,
      balanced-le d t.dashboard t.bulkhead.dashboard v.dashboards,
      λ scope refusal e. arrive_refused p d t scope v e,
    )

-- Health checks pass whatever the memory and whatever the load, in both layers, and take no permit.
pub health_passes :
    (memory_pressure : Bool) (scope : Scope) (b : BulkheadSemaphore) (free : ℕ)
    → is_health_path scope.path ≡ true
    → (bulkhead_arrive memory_pressure scope b ≡ (passed, b))
      × (backpressure_arrive scope free ≡ (BackpressureVerdict.passed, free))
unfolding bulkhead_arrive backpressure_arrive
health_passes memory_pressure scope b free h = (
  rw h (
      if_elim (λ (x : Verdict × BulkheadSemaphore). x ≡ (passed, b)) (is_lifespan scope.scope_type)
        refl refl),
  rw h (
      if_elim (λ (x : BackpressureVerdict × ℕ). x ≡ (BackpressureVerdict.passed, free))
        (is_lifespan scope.scope_type) refl refl),
)
