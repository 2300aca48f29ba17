-- ===== src/Shared/Metrics.antt =====
-- shared/src/metrics.rs: the collector of metrics. Its parts are shared behind locks that each
-- operation takes for itself, so an operation is a function on the state. Times are in nanoseconds,
-- and `F` stands for `f64`. Each operation that reads the clock takes the time as its argument `now`.
pub mod Sampling
pub mod Connections
pub mod Activity
pub mod Users
pub mod Errors
pub mod Throughput
mod Tests
use npt.Prelude.{
  ℕ, zero, suc, ◌+◌, ◌-◌, List, [], ◌∷◌, ◌++◌, Option, none, some, length, count, filter, Bool,
  true, false, ◌&&◌, not, ltb, leb, ◌==◌, is_none, if◌then◌else◌, map,
}
use npt.Prelude.Words.{add32, add64}
use npt.Prelude.Sums.{sum64, sum_by}
use npt.Prelude.Float.{Float64, sum_floats}
use npt.Prelude.Table.{Table, has_key, modify, insert}
use npt.Shared.Protocol.{
  ConnectionType, tcp, udp, quic, UserActivity, web_browsing, file_download, file_upload,
  quic_web_browsing, ErrorType, ErrorDetail,
}

pub record ConnectionMetrics : Type 0 where
  pub id : ℕ
  pub connection_type : ConnectionType
  pub start_time : ℕ
  pub end_time : Option ℕ
  pub bytes_sent : ℕ
  pub bytes_received : ℕ
  pub packets_sent : ℕ
  pub packets_received : ℕ
  pub errors : ℕ
  pub latencies : List ℕ
  pub user_activity : Option UserActivity
  pub error_details : List ErrorDetail

pub record ThroughputSample : Type 0 where
  pub timestamp : ℕ
  pub tcp_upload_bps : ℕ
  pub tcp_download_bps : ℕ
  pub udp_upload_bps : ℕ
  pub udp_download_bps : ℕ
  pub quic_upload_bps : ℕ
  pub quic_download_bps : ℕ

pub record LatencySample (F : Type 0) : Type 0 where
  pub timestamp : ℕ
  pub tcp_latency_ms : F
  pub udp_latency_ms : F

pub record ErrorSample : Type 0 where
  pub timestamp : ℕ
  pub tcp_errors : ℕ
  pub udp_errors : ℕ
  pub quic_errors : ℕ
  pub error_details : List ErrorDetail

pub record MetricsCollector (F : Type 0) : Type 0 where
  pub connections : Table ConnectionMetrics
  pub throughput_history : List ThroughputSample
  pub latency_history : List (LatencySample F)
  pub error_history : List ErrorSample
  pub error_details : List ErrorDetail
  pub start_time : Option ℕ
  pub last_sample_time : ℕ
  pub last_tcp_bytes_sent : ℕ
  pub last_tcp_bytes_received : ℕ
  pub last_udp_bytes_sent : ℕ
  pub last_udp_bytes_received : ℕ
  pub last_quic_bytes_sent : ℕ
  pub last_quic_bytes_received : ℕ
  pub active_users : ℕ
  pub total_users : ℕ

unfoldable pub new : (F : Type 0) → ℕ → MetricsCollector F
new F now = record {
  connections = [];
  throughput_history = [];
  latency_history = [];
  error_history = [];
  error_details = [];
  start_time = some now;
  last_sample_time = now;
  last_tcp_bytes_sent = 0;
  last_tcp_bytes_received = 0;
  last_udp_bytes_sent = 0;
  last_udp_bytes_received = 0;
  last_quic_bytes_sent = 0;
  last_quic_bytes_received = 0;
  active_users = 0;
  total_users = 0;
}

abbrev pub fresh_connection : ℕ → ℕ → ConnectionType → Option UserActivity → ConnectionMetrics
fresh_connection now id connection_type activity = record {
  id = id;
  connection_type = connection_type;
  start_time = now;
  end_time = none;
  bytes_sent = 0;
  bytes_received = 0;
  packets_sent = 0;
  packets_received = 0;
  errors = 0;
  latencies = [];
  user_activity = activity;
  error_details = [];
}

abbrev pub values : Table ConnectionMetrics → List ConnectionMetrics
values [] = []
values ((_, c) ∷ m) = c ∷ values m

-- `matches!(m.connection_type, ..)`
abbrev pub same_type : ConnectionType → ConnectionType → Bool
same_type tcp tcp = true
same_type udp udp = true
same_type quic quic = true
same_type _ _ = false

abbrev pub is_tcp : ConnectionMetrics → Bool
is_tcp c = same_type tcp c.connection_type

abbrev pub is_udp : ConnectionMetrics → Bool
is_udp c = same_type udp c.connection_type

abbrev pub is_quic : ConnectionMetrics → Bool
is_quic c = same_type quic c.connection_type

module _ {F : Type 0} where
  -- `start_connection`; `place` is where the map puts a new key.
  unfoldable pub start_connection :
      (now place id : ℕ) → ConnectionType → MetricsCollector F → MetricsCollector F
  start_connection now place id connection_type m = record m {
    connections = insert place id (fresh_connection now id connection_type none) m.connections;
  }

  unfoldable pub start_connection_with_activity :
      (now place id : ℕ) → ConnectionType → UserActivity → MetricsCollector F → MetricsCollector F
  start_connection_with_activity now place id connection_type activity m = record m {
    connections =
        insert place id (fresh_connection now id connection_type (some activity)) m.connections;
  }

  unfoldable pub end_connection : (now id : ℕ) → MetricsCollector F → MetricsCollector F
  end_connection now id m = record m {
    connections = modify id (λ c. record c { end_time = some now }) m.connections;
  }

  unfoldable pub record_bytes_sent : (id bytes : ℕ) → MetricsCollector F → MetricsCollector F
  record_bytes_sent id bytes m = record m {
    connections = modify id (λ c. record c { bytes_sent = add64 c.bytes_sent bytes }) m.connections;
  }

  unfoldable pub record_bytes_received : (id bytes : ℕ) → MetricsCollector F → MetricsCollector F
  record_bytes_received id bytes m = record m {
    connections =
        modify id (λ c. record c { bytes_received = add64 c.bytes_received bytes }) m.connections;
  }

  unfoldable pub record_packet_sent : ℕ → MetricsCollector F → MetricsCollector F
  record_packet_sent id m = record m {
    connections = modify id (λ c. record c { packets_sent = add64 c.packets_sent 1 }) m.connections;
  }

  unfoldable pub record_packet_received : ℕ → MetricsCollector F → MetricsCollector F
  record_packet_received id m = record m {
    connections =
        modify id (λ c. record c { packets_received = add64 c.packets_received 1 }) m.connections;
  }

  unfoldable pub record_error : ℕ → MetricsCollector F → MetricsCollector F
  record_error id m = record m {
    connections = modify id (λ c. record c { errors = add64 c.errors 1 }) m.connections;
  }

  unfoldable pub record_latency : (id latency : ℕ) → MetricsCollector F → MetricsCollector F
  record_latency id latency m = record m {
    connections =
        modify id (λ c. record c { latencies = c.latencies ++ latency ∷ [] }) m.connections;
  }

  unfoldable pub set_total_users : ℕ → MetricsCollector F → MetricsCollector F
  set_total_users n m = record m { total_users = n }

  unfoldable pub increment_active_users : MetricsCollector F → MetricsCollector F
  increment_active_users m = record m { active_users = add32 m.active_users 1 }

  unfoldable pub decrement_active_users : MetricsCollector F → MetricsCollector F
  decrement_active_users m =
      if ltb 0 m.active_users then record m { active_users = m.active_users - 1 } else m

  -- `ErrorDetail::new` at the time `now`, kept with the connection and in the list of all of them.
  unfoldable pub record_error_with_detail :
      (now id : ℕ) → ErrorType → List ℕ → Option (List ℕ) → MetricsCollector F → MetricsCollector F
  record_error_with_detail now id error_type message context m =
      let detail : ErrorDetail = record {
        error_type = error_type;
        message = message;
        timestamp = now;
        connection_id = id;
        context = context;
      } in
      if has_key id m.connections
      then record m {
        connections =
            modify id
              (λ c. record c {
                errors = add64 c.errors 1;
                error_details = c.error_details ++ detail ∷ [];
              })
              m.connections;
        error_details = m.error_details ++ detail ∷ [];
      }
      else m

  -- `get_active_tcp_connections` and the two beside it
  unfoldable pub get_active_connections : ConnectionType → MetricsCollector F → ℕ
  get_active_connections k m =
      count (λ c. same_type k c.connection_type && is_none c.end_time) (values m.connections)
