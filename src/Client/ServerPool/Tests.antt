-- ===== src/Client/ServerPool/Tests.antt =====
-- client/src/server_pool.rs on pools of one to three servers.
use npt.Prelude.{
  ◌↔◌, ℕ, ◌+◌, ◌%◌, ◌^◌, ◌≤◌, ◌≡◌, refl, List, [], ◌∷◌, ◌++◌, none, some, take, drop, At, true,
  false, ◌⊎◌, arith,
}
use npt.Prelude.Table.{lookup}
use npt.Shared.Config.{
  Strategy, round_robin, random, least_connections, hash_based, default_load_balancer,
}
use npt.Client.ServerPool.{
  ServerInfo, ServerPool, new_server, new, Chance, values, healthy_servers, get_server, select,
}
use npt.Client.ServerPool.Selection.{get_server-is_healthy, get_server-least}
use npt.Client.ServerPool.RoundRobin.{draws, addresses, draws_in_turn}
use npt.Client.ServerPool.Health.{
  connected, refused, probed, is_failure, report, report_all, IsCounted, new_server-IsCounted,
  report_flips,
}
use npt.Client.ServerPool.Accounting.{
  PoolEvent, started, ended, was_refused, was_reached, on_pool_all, on_server_all, map_some,
  starts_at, ends_at, lookup-on_pool_all, active_connections-on_pool_all,
}

abbrev first_choice : Chance
first_choice = record { gen_range = λ n. 0; new_uuid = 7 }

abbrev server : ℕ → ℕ → ServerInfo
server address active = record {
  address = address;
  is_healthy = true;
  last_health_check = 0;
  consecutive_failures = 0;
  consecutive_successes = 0;
  active_connections = active;
  total_connections = 0;
  last_used = 0;
}

abbrev pool : Strategy → ServerPool
pool strategy = record {
  servers = (1, server 1 5) ∷ (2, server 2 0) ∷ (3, server 3 9) ∷ [];
  config = record default_load_balancer { strategy = strategy };
  round_robin_index = 1;
}

-- The checker runs for two servers, and not for one.
new_checker :
    ((new 0 ((8, 0) ∷ []) default_load_balancer).1 ≡ false)
    × ((new 0 ((8, 0) ∷ (9, 0) ∷ []) default_load_balancer).1 ≡ true)
unfolding new new_server
new_checker = (refl, refl)

chosen_by_hash : (get_server first_choice (pool hash_based)).0 ≡ some 2
unfolding get_server select
chosen_by_hash = refl

get_server-is_healthy_example :
    ((healthy_servers (pool random) ≡ [])
      × (get_server first_choice (pool random) ≡ (none, pool random)))
    ⊎ ((s : ServerInfo) × At s (values (pool random).servers)
        × (s.is_healthy ≡ true)
        × ((get_server first_choice (pool random)).0 ≡ some s.address))
get_server-is_healthy_example = get_server-is_healthy first_choice (pool random) (λ n h. h)

get_server-least_example :
    (s : ServerInfo) × ((get_server first_choice (pool least_connections)).0 ≡ some s.address)
    × At s (healthy_servers (pool least_connections))
    × (s.active_connections ≤ 5)
get_server-least_example =
    get_server-least first_choice (pool least_connections) (server 1 5) refl (0, refl) refl

draws_in_turn_example :
    draws 3 first_choice (pool round_robin)
    ≡ addresses
        (drop 1 (healthy_servers (pool round_robin)) ++ take 1 (healthy_servers (pool round_robin)))
draws_in_turn_example =
    draws_in_turn first_choice (pool round_robin) refl (omega arith) (omega arith)

new_server-IsCounted_example :
    IsCounted 3 2
      (report_all 3 2 (refused ∷ probed 5 false ∷ refused ∷ connected ∷ []) (new_server 0 1))
new_server-IsCounted_example =
    new_server-IsCounted 3 2 (omega arith) (omega arith) 0 1
      (refused ∷ probed 5 false ∷ refused ∷ connected ∷ [])

abbrev failing : ServerInfo
failing = record (server 1 0) { consecutive_failures = 2 }

failing-IsCounted : IsCounted 3 2 failing
failing-IsCounted = ground arith

report_flips_example :
    (((failing.is_healthy ≡ true) × ((report 3 2 refused failing).is_healthy ≡ false)) ↔ (
      (failing.is_healthy ≡ true)
      × (is_failure refused ≡ true)
      × (failing.consecutive_failures + 1 ≡ 3)))
    × (((failing.is_healthy ≡ false) × ((report 3 2 refused failing).is_healthy ≡ true)) ↔ (
        (failing.is_healthy ≡ false)
        × (is_failure refused ≡ false)
        × (failing.consecutive_successes + 1 ≡ 2)))
report_flips_example =
    report_flips 3 2 (omega arith) (omega arith) refused failing failing-IsCounted (omega arith)
      (omega arith)

abbrev events : List PoolEvent
events = started 1 2 ∷ was_reached 2 ∷ started 2 1 ∷ was_refused 3 ∷ started 3 2 ∷ ended 2 ∷ []

lookup-on_pool_all_example :
    lookup 2 (on_pool_all events (pool random)).servers
    ≡ map_some (on_server_all (pool random).config.health_check 2 events) (some (server 2 0))
lookup-on_pool_all_example = lookup-on_pool_all events (pool random) 2

active_connections-on_pool_all_example :
    (s' : ServerInfo) × (lookup 2 (on_pool_all events (pool random)).servers ≡ some s')
    × ((s'.active_connections + ends_at 2 events) % 2 ^ 32 ≡ starts_at 2 events % 2 ^ 32)
active_connections-on_pool_all_example =
    active_connections-on_pool_all events (pool random) 2 (server 2 0) refl refl
