-- ===== src/Shared/Metrics/Tests.antt =====
-- shared/src/metrics.rs on two connections, with whole numbers in place of the floats.
use npt.Prelude.{ℕ, ◌+◌, ◌*◌, ◌≤◌, ◌≡◌, refl, List, [], ◌∷◌, none, some, length, arith}
use npt.Prelude.Float.{whole_numbers}
use npt.Prelude.Table.{sum_values}
use npt.Shared.Protocol.{tcp, udp, network_timeout}
use npt.Shared.Metrics.{
  MetricsCollector, ErrorSample, new, start_connection, end_connection, get_active_connections,
}
use npt.Shared.Metrics.Sampling.{sample_errors, get_latest_errors}
use npt.Shared.Metrics.Connections.{sent, failed, failed_with, Op, start, note, finish, run}
use npt.Shared.Metrics.Activity.{note_all, active_lifecycle}
use npt.Shared.Metrics.Errors.{errors_logged}
use npt.Shared.Metrics.Throughput.{Tick, ticks, samples_rate}

abbrev two_connections : List Op
two_connections =
    start 1 0 7 tcp
    ∷ start 2 1 8 udp
    ∷ note 8 (failed_with 3 network_timeout [] none)
    ∷ note 9 (failed_with 4 network_timeout [] none)
    ∷ note 7 (sent 100)
    ∷ finish 5 8
    ∷ []

errors_logged_example :
    let m = run two_connections (new ℕ 0) in
    (length m.error_details ≡ sum_values (λ c. length c.error_details) m.connections)
    × (s : ErrorSample) × (get_latest_errors (sample_errors 6 m) ≡ some s)
    × (length s.error_details ≡ length m.error_details)
unfolding new start_connection
errors_logged_example =
    errors_logged ℕ 0 6 two_connections (refl, (refl, (tt, (tt, (tt, (tt, tt))))))

abbrev one_open : MetricsCollector ℕ
one_open = start_connection 1 0 7 tcp (new ℕ 0)

active_lifecycle_example :
    let during = note_all 8 (sent 10 ∷ failed ∷ []) (start_connection 2 0 8 tcp one_open) in
    (get_active_connections tcp during ≡ get_active_connections tcp one_open + 1)
    × (get_active_connections tcp (end_connection 9 8 during) ≡ get_active_connections tcp one_open)
unfolding new start_connection
active_lifecycle_example = active_lifecycle tcp tcp 2 9 0 8 (sent 10 ∷ failed ∷ []) one_open refl

abbrev three_ticks : List Tick
three_ticks =
    record { before = two_connections; now = 200000000; timestamp = 1 }
    ∷ record { before = []; now = 250000000; timestamp = 1 }
    ∷ record { before = note 7 (sent 5) ∷ []; now = 1000000000; timestamp = 1 }
    ∷ []

samples_rate_example :
    length (ticks whole_numbers three_ticks (new ℕ 0)).throughput_history * 100000000 + 0
    ≤ 1000000000
samples_rate_example =
    samples_rate whole_numbers 0 1000000000 three_ticks (omega arith)
      (omega arith, (omega arith, (omega arith, tt)))
