-- ===== src/LeaderElection/Lease.antt =====
-- app/core/scheduling/leader_election.py: who holds the lease.
use firecrawl_lb.Prelude.{
  ℕ, ◌+◌, ◌*◌, ◌≤◌, ◌<◌, ◌≡◌, refl, ap, sym, subst, String, Bool, true, false, Option, none, some,
  List, [], ◌∷◌, arith, All, ◌||◌, ◌∙◌, if_elim,
}
use firecrawl_lb.Prelude.Text.{str_eq, eq_iff}
use firecrawl_lb.LeaderElection.{
  SchedulerLeader, LeaderElection, ElectionSettings, lease, upsert, try_acquire, renew, extend,
  become, acquired,
}

-- An attempt of a replica: its id, whether the database fails, and the time.
abbrev pub Attempt : Type 0
Attempt = String × Bool × ℕ

abbrev pub replica : String → LeaderElection
replica leader_id = record { leader_id = leader_id; is_leader = false }

abbrev tally : Bool → Bool × Option SchedulerLeader → Bool × Option SchedulerLeader
tally won (any_won, row) = (won || any_won, row)

-- The row after attempts one after the other, and whether any of them won.
pub attempt_all :
    ElectionSettings → List Attempt → Option SchedulerLeader → Bool × Option SchedulerLeader
attempt_all settings [] row = (false, row)
attempt_all settings ((id, fails, now) ∷ attempts) row =
    let tried = try_acquire settings fails now (replica id) row in
    tally tried.0 (attempt_all settings attempts tried.2)

upsert-held :
    (id : String) (now ttl : ℕ) (row : SchedulerLeader)
    → str_eq row.leader_id id ≡ false
    → now ≤ row.expires_at
    → upsert id now ttl (some row) ≡ row
unfolding upsert
upsert-held id now ttl row other held = ground arith

acquired-held :
    (id : String) (row after : SchedulerLeader)
    → after ≡ row
    → str_eq row.leader_id id ≡ false
    → acquired (replica id) after ≡ (false, replica id, some row)
acquired-held id row after same other =
    ap (acquired (replica id)) same ∙ ap (λ (x : Bool). (x, become (replica id) x, some row)) other

held_row :
    (settings : ElectionSettings) (id : String) (fails : Bool) (now : ℕ) (row : SchedulerLeader)
    → settings.shared ≡ true
    → str_eq row.leader_id id ≡ false
    → now ≤ row.expires_at
    → try_acquire settings fails now (replica id) (some row) ≡ (false, replica id, some row)
unfolding try_acquire
held_row settings id fails now row on other held = rw on (
    if_elim (λ r. r ≡ (false, replica id, some row)) fails refl
      (acquired-held id row _ (upsert-held id now settings.ttl_seconds row other held) other))

-- While a lease has not run out, no attempt of another replica wins or changes the row, however many
-- there are.
pub attempt_all-held :
    (settings : ElectionSettings) (attempts : List Attempt) (row : SchedulerLeader)
    → settings.shared ≡ true
    → All (λ a. (str_eq row.leader_id a.0 ≡ false) × (a.2 ≤ row.expires_at)) attempts
    → attempt_all settings attempts (some row) ≡ (false, some row)
unfolding attempt_all
attempt_all-held settings [] row on h = refl
attempt_all-held settings ((id, fails, now) ∷ attempts) row on h =
    subst
      (λ (r : Bool × LeaderElection × Option SchedulerLeader).
        tally r.0 (attempt_all settings attempts r.2) ≡ (false, some row))
      (sym (held_row settings id fails now row on h.0.0 h.0.1))
      (ap (tally false) (attempt_all-held settings attempts row on h.1))

try_acquire-acquired :
    (settings : ElectionSettings) (now : ℕ) (e : LeaderElection) (row : Option SchedulerLeader)
    → settings.shared ≡ true
    → try_acquire settings false now e row
      ≡ acquired e (upsert e.leader_id now settings.ttl_seconds row)
unfolding try_acquire
try_acquire-acquired settings now e row on = rw on refl

upsert-won :
    (id : String) (now ttl : ℕ) (row : Option SchedulerLeader)
    → str_eq (upsert id now ttl row).leader_id id ≡ true
    → upsert id now ttl row ≡ lease id now ttl
unfolding upsert
upsert-won id now ttl none h = refl
upsert-won id now ttl (some row) h = ground arith

upsert-expired :
    (id other : String) (t u ttl : ℕ)
    → t + ttl * 1000000 < u
    → upsert id u ttl (some (lease other t ttl)) ≡ lease id u ttl
unfolding upsert
upsert-expired id other t u ttl late = ground arith

extend-lost :
    (id other : String) (now u ttl : ℕ)
    → str_eq id other ≡ false
    → extend id now ttl (some (lease other u ttl)) ≡ some (lease other u ttl)
unfolding extend
extend-lost id other now u ttl ne = ground (arith, eq_iff id other, eq_iff other id)

abbrev Tried : Type 0
Tried = Bool × LeaderElection × Option SchedulerLeader

won-acquired :
    (settings : ElectionSettings) (e : LeaderElection) (row : Option SchedulerLeader) (now : ℕ)
    → settings.shared ≡ true
    → (try_acquire settings false now e row).0 ≡ true
    → try_acquire settings false now e row ≡ acquired e (lease e.leader_id now settings.ttl_seconds)
won-acquired settings e row now on won =
    let tried = try_acquire-acquired settings now e row on in
    tried
    ∙ ap (acquired e) (
        upsert-won e.leader_id now settings.ttl_seconds row
          (sym (ap (λ (x : Tried). x.0) tried) ∙ won))

renew-lost :
    (settings : ElectionSettings) (e : LeaderElection) (other : String) (now u : ℕ)
    → settings.shared ≡ true
    → e.is_leader ≡ true
    → str_eq e.leader_id other ≡ false
    → renew settings false now e (some (lease other u settings.ttl_seconds))
      ≡ (true, some (lease other u settings.ttl_seconds))
unfolding renew
renew-lost settings e other now u on leads ne =
    rw (leads, on)
      (ap (λ (r : Option SchedulerLeader). (true, r))
        (extend-lost e.leader_id other now u settings.ttl_seconds ne))

-- A replica acquires the lease, which runs out before another one acquires it; then the first one
-- renews. The second one leads, and the renewal answers true though the row is the second one's.
pub two_leaders :
    (settings : ElectionSettings) (a b : LeaderElection) (row : Option SchedulerLeader) (t u v : ℕ)
    → settings.shared ≡ true
    → str_eq a.leader_id b.leader_id ≡ false
    → (try_acquire settings false t a row).0 ≡ true
    → t + settings.ttl_seconds * 1000000 < u
    → ((try_acquire settings false u b (try_acquire settings false t a row).2).0 ≡ true)
      × (renew settings false v
            (try_acquire settings false t a row).1
            (try_acquire settings false u b (try_acquire settings false t a row).2).2
          ≡ (true, some (lease b.leader_id u settings.ttl_seconds)))
two_leaders settings a b row t u v on ne won late =
    let ttl = settings.ttl_seconds in
    let first = won-acquired settings a row t on won in
    let second =
      ap (λ (x : Tried). try_acquire settings false u b x.2) first
      ∙ try_acquire-acquired settings u b (some (lease a.leader_id t ttl)) on
      ∙ ap (acquired b) (upsert-expired b.leader_id a.leader_id t u ttl late) in
    (
      ap (λ (x : Tried). x.0) second ∙ (eq_iff b.leader_id b.leader_id).1 refl,
      ap (λ (x : Tried). renew settings false v (try_acquire settings false t a row).1 x.2) second
          ∙ renew-lost settings (try_acquire settings false t a row).1 b.leader_id v u on
              (ap (λ (x : Tried). x.1.is_leader) first ∙ (eq_iff a.leader_id a.leader_id).1 refl)
              (ap (λ (x : Tried). str_eq x.1.leader_id b.leader_id) first ∙ ne),
    )
