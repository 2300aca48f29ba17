-- ===== src/Client/Failover/Tests.antt =====
-- client/src/tcp_client.rs, `connect_with_failover`, on pools of one and of no healthy server.
use npt.Prelude.{ℕ, ◌≡◌, refl, [], ◌∷◌, ◌==◌}
use npt.Prelude.Result.{ok, err}
use npt.Shared.Config.{default_load_balancer}
use npt.Client.ServerPool.{
  ServerPool, new_server, new, healthy_servers, get_server, select, mark_connection_failed,
  mark_connection_success, mark_connection_start, failed,
}
use npt.Client.Failover.{Attempt, all_attempts_failed, max_retries, connect_with_failover}
use npt.Client.Failover.Trace.{Outcome, slept_after, connect_with_failover-Outcome}

-- Only the address 2 answers.
abbrev env : ℕ → Attempt
env i = record {
  chance = record { gen_range = λ n. 0; new_uuid = 0 };
  reaches = λ a. a == 2;
  now = i;
}

abbrev single : ServerPool
single = (new 0 ((1, 0) ∷ []) default_load_balancer).0

abbrev both : ServerPool
both = (new 0 ((2, 0) ∷ (1, 0) ∷ []) default_load_balancer).0

-- A pool of one server that does not answer: after one call, the server is out.
single_lost :
    let (r, q, slept) = connect_with_failover env single in
    (r ≡ err all_attempts_failed) × (healthy_servers q ≡ []) × (slept ≡ 300)
unfolding new new_server connect_with_failover get_server select mark_connection_failed
    mark_connection_success mark_connection_start failed
single_lost = (refl, refl, refl)

both_reached : let (r, q, slept) = connect_with_failover env both in (r ≡ ok 2) × (slept ≡ 100)
unfolding new new_server connect_with_failover get_server select mark_connection_failed
    mark_connection_success mark_connection_start failed
both_reached = (refl, refl)

connect_with_failover-Outcome_example :
    let (r, q, slept) = connect_with_failover env both in
    Outcome env 0 r max_retries slept_after both q slept
connect_with_failover-Outcome_example = connect_with_failover-Outcome env both
