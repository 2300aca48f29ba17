-- ===== src/Client/ServerPool.antt =====
-- client/src/server_pool.rs: the servers with their health and their connections, and the choice of a
-- server for a connection. A `SocketAddr` is a number that stands for it. The map of servers is a
-- table in the order of its iteration, which stays as it is once all servers are inserted.
pub mod Selection
pub mod RoundRobin
pub mod Health
pub mod Accounting
mod Tests
use npt.Prelude.{
  ℕ, zero, suc, ◌+◌, ◌%◌, ◌^◌, List, [], ◌∷◌, Option, none, some, map, length, get_elem?, filter,
  Bool, true, false, not, ◌&&◌, leb, ltb, ◌==◌, if◌then◌else◌,
}
use npt.Prelude.Words.{add32, add64, sub32}
use npt.Prelude.Table.{Table, lookup, modify, insert}
use npt.Shared.Config.{
  Strategy, round_robin, random, least_connections, hash_based, LoadBalancerConfig,
}

pub record ServerInfo : Type 0 where
  pub address : ℕ
  pub is_healthy : Bool
  pub last_health_check : ℕ
  pub consecutive_failures : ℕ
  pub consecutive_successes : ℕ
  pub active_connections : ℕ
  pub total_connections : ℕ
  pub last_used : ℕ

-- `ServerInfo::new` at the time `now`
unfoldable pub new_server : ℕ → ℕ → ServerInfo
new_server now address = record {
  address = address;
  is_healthy = true;
  last_health_check = now;
  consecutive_failures = 0;
  consecutive_successes = 0;
  active_connections = 0;
  total_connections = 0;
  last_used = 0;
}

-- `increment_connections` at the time `now`, in milliseconds since the epoch
unfoldable pub increment_connections : ℕ → ServerInfo → ServerInfo
increment_connections now s = record s {
  active_connections = add32 s.active_connections 1;
  total_connections = add64 s.total_connections 1;
  last_used = now % 2 ^ 64;
}

unfoldable pub decrement_connections : ServerInfo → ServerInfo
decrement_connections s = record s { active_connections = sub32 s.active_connections 1 }

pub record ServerPool : Type 0 where
  pub servers : Table ServerInfo
  pub config : LoadBalancerConfig
  pub round_robin_index : ℕ

-- The loop of `ServerPool::new` over the addresses. Each comes with the place where the map puts a
-- new key.
abbrev pub insert_all : ℕ → List (ℕ × ℕ) → Table ServerInfo → Table ServerInfo
insert_all now [] m = m
insert_all now ((address, place) ∷ rest) m =
    insert_all now rest (insert place address (new_server now address) m)

-- `ServerPool::new`, and whether it starts the health checker.
unfoldable pub new : ℕ → List (ℕ × ℕ) → LoadBalancerConfig → ServerPool × Bool
new now addresses config =
    let servers = insert_all now addresses [] in
    (
      record { servers = servers; config = config; round_robin_index = 0 },
      config.health_check.enabled && ltb 1 (length servers),
    )

-- What the random generators give when one is asked: `gen_range(0..n)` for each `n`, and the value of
-- a new UUID.
pub record Chance : Type 0 where
  pub gen_range : ℕ → ℕ
  pub new_uuid : ℕ

abbrev pub values : Table ServerInfo → List ServerInfo
values [] = []
values ((_, s) ∷ m) = s ∷ values m

-- `servers.get(index).map(|s| s.address)`
abbrev pub address_of : Option ServerInfo → Option ℕ
address_of none = none
address_of (some s) = some s.address

-- `iter().min_by_key(..)`: the first of those with the least number of connections.
abbrev pub least : ServerInfo → List ServerInfo → ServerInfo
least best [] = best
least best (s ∷ rest) =
    least (if ltb s.active_connections best.active_connections then s else best) rest

abbrev pub least_connections_select : List ServerInfo → Option ℕ
least_connections_select [] = none
least_connections_select (s ∷ rest) = some (least s rest).address

-- The `match` of `get_server`, on servers of which there is at least one.
unfoldable pub select : Strategy → Chance → List ServerInfo → ServerPool → Option ℕ × ServerPool
select round_robin chance healthy p = (
  address_of (get_elem? healthy (p.round_robin_index % length healthy)),
  record p { round_robin_index = add64 p.round_robin_index 1 },
)
select random chance healthy p =
    (address_of (get_elem? healthy (chance.gen_range (length healthy))), p)
select least_connections chance healthy p = (least_connections_select healthy, p)
select hash_based chance healthy p =
    (address_of (get_elem? healthy (chance.new_uuid % length healthy)), p)

abbrev pub healthy_servers : ServerPool → List ServerInfo
healthy_servers p = filter (λ s. s.is_healthy) (values p.servers)

unfoldable pub get_server : Chance → ServerPool → Option ℕ × ServerPool
get_server chance p =
    if length (healthy_servers p) == 0
    then (none, p)
    else select p.config.strategy chance (healthy_servers p) p

unfoldable pub mark_connection_start : ℕ → ℕ → ServerPool → ServerPool
unfolding increment_connections
mark_connection_start now address p = record p {
  servers = modify address (increment_connections now) p.servers;
}

unfoldable pub mark_connection_end : ℕ → ServerPool → ServerPool
unfolding decrement_connections
mark_connection_end address p = record p {
  servers = modify address decrement_connections p.servers;
}

-- What `mark_connection_failed` does to the server, at the configured threshold.
unfoldable pub failed : ℕ → ServerInfo → ServerInfo
failed failure_threshold s =
    let s' = record s {
      consecutive_failures = add32 s.consecutive_failures 1;
      consecutive_successes = 0;
    } in
    if leb failure_threshold s'.consecutive_failures then record s' { is_healthy = false } else s'

unfoldable pub mark_connection_failed : ℕ → ServerPool → ServerPool
mark_connection_failed address p = record p {
  servers = modify address (failed p.config.health_check.failure_threshold) p.servers;
}

unfoldable pub succeeded : ℕ → ServerInfo → ServerInfo
succeeded recovery_threshold s =
    let s' = record s {
      consecutive_successes = add32 s.consecutive_successes 1;
      consecutive_failures = 0;
    } in
    if not s'.is_healthy && leb recovery_threshold s'.consecutive_successes
    then record s' { is_healthy = true }
    else s'

unfoldable pub mark_connection_success : ℕ → ServerPool → ServerPool
mark_connection_success address p = record p {
  servers = modify address (succeeded p.config.health_check.recovery_threshold) p.servers;
}

-- One health check of a server, made at the time `now`: the answer of `check_server_health` is
-- `reached`. The branch of a failure tests `is_healthy` first.
unfoldable pub checked : ℕ → ℕ → ℕ → Bool → ServerInfo → ServerInfo
unfolding succeeded
checked failure_threshold recovery_threshold now true s =
    succeeded recovery_threshold (record s { last_health_check = now })
checked failure_threshold recovery_threshold now false s =
    let s' = record s {
      last_health_check = now;
      consecutive_failures = add32 s.consecutive_failures 1;
      consecutive_successes = 0;
    } in
    if s'.is_healthy && leb failure_threshold s'.consecutive_failures
    then record s' { is_healthy = false }
    else s'

-- One result of the task that `start_health_checker` spawns for a server.
unfoldable pub health_check : ℕ → ℕ → Bool → ServerPool → ServerPool
health_check now address reached p =
    let h = p.config.health_check in
    record p {
      servers =
          modify address (checked h.failure_threshold h.recovery_threshold now reached) p.servers;
    }
