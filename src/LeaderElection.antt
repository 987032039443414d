-- ===== src/LeaderElection.antt =====
-- app/core/scheduling/leader_election.py: one lease row that the replicas share. The upsert, and the
-- update, are one atomic step of the database each; an instant is a number of microseconds. A
-- database error is an argument, since any statement may raise.
pub mod Lease
use firecrawl_lb.Prelude.{
  ℕ, ◌+◌, ◌*◌, ltb, String, Bool, true, false, ◌||◌, Option, none, some, if◌then◌else◌,
}
use firecrawl_lb.Prelude.Text.{str_eq}

-- The row with id 1.
pub record SchedulerLeader : Type 0 where
  pub leader_id : String
  pub acquired_at : ℕ
  pub expires_at : ℕ

pub record LeaderElection : Type 0 where
  pub leader_id : String
  pub is_leader : Bool

-- `shared` says that election is enabled and that the database is not SQLite.
pub record ElectionSettings : Type 0 where
  pub shared : Bool
  pub ttl_seconds : ℕ

abbrev pub lease : String → ℕ → ℕ → SchedulerLeader
lease leader_id now ttl_seconds = record {
  leader_id = leader_id;
  acquired_at = now;
  expires_at = now + ttl_seconds * 1000000;
}

-- `INSERT … ON CONFLICT (id) DO UPDATE … WHERE …`
unfoldable pub upsert : String → ℕ → ℕ → Option SchedulerLeader → SchedulerLeader
upsert leader_id now ttl_seconds none = lease leader_id now ttl_seconds
upsert leader_id now ttl_seconds (some row) =
    if ltb row.expires_at now || str_eq row.leader_id leader_id
    then lease leader_id now ttl_seconds
    else row

abbrev pub become : LeaderElection → Bool → LeaderElection
become e is_leader = record e { is_leader = is_leader }

-- What follows the statement: the row is read again.
abbrev pub acquired :
    LeaderElection → SchedulerLeader → Bool × LeaderElection × Option SchedulerLeader
acquired e after =
    (str_eq after.leader_id e.leader_id, become e (str_eq after.leader_id e.leader_id), some after)

-- The answer, the replica and the row afterwards.
unfoldable pub try_acquire :
    ElectionSettings
    → Bool
    → ℕ
    → LeaderElection
    → Option SchedulerLeader
    → Bool × LeaderElection × Option SchedulerLeader
try_acquire settings fails now e row =
    if settings.shared
    then (if fails
        then (false, become e false, row)
        else acquired e (upsert e.leader_id now settings.ttl_seconds row))
    else (true, become e true, row)

-- `UPDATE … WHERE id = 1 AND leader_id = :leader_id`
unfoldable pub extend : String → ℕ → ℕ → Option SchedulerLeader → Option SchedulerLeader
extend leader_id now ttl_seconds none = none
extend leader_id now ttl_seconds (some row) =
    if str_eq row.leader_id leader_id
    then some (record row { expires_at = now + ttl_seconds * 1000000 })
    else some row

-- The number of updated rows is not looked at.
unfoldable pub renew :
    ElectionSettings
    → Bool
    → ℕ
    → LeaderElection
    → Option SchedulerLeader
    → Bool × Option SchedulerLeader
renew settings fails now e row =
    if e.is_leader
    then (if settings.shared
        then (if fails
            then (false, row)
            else (true, extend e.leader_id now settings.ttl_seconds row))
        else (true, row))
    else (false, row)
