-- ===== src/Shared/Config.antt =====
-- shared/src/config.rs: how the client spreads its connections over the servers, and how its users
-- behave. Durations are in milliseconds; an address is a number.
use npt.Prelude.{ℕ, List, [], ◌∷◌, Option, none, some, Bool, true, false}
use npt.Prelude.Float.{Float32}
use npt.Prelude.Text.{codes}

-- `LoadBalanceStrategy`
pub data Strategy : Type 0 where
  round_robin random least_connections hash_based : Strategy

pub record HealthCheckConfig : Type 0 where
  pub enabled : Bool
  pub timeout : ℕ
  pub interval : ℕ
  pub failure_threshold : ℕ
  pub recovery_threshold : ℕ

pub record ConnectionPoolConfig : Type 0 where
  pub max_connections_per_server : ℕ
  pub connection_timeout : ℕ
  pub retry_attempts : ℕ
  pub retry_backoff_base : ℕ

pub record LoadBalancerConfig : Type 0 where
  pub strategy : Strategy
  pub health_check : HealthCheckConfig
  pub connection_pool : ConnectionPoolConfig

abbrev pub default_health_check : HealthCheckConfig
default_health_check = record {
  enabled = true;
  timeout = 5000;
  interval = 300000;
  failure_threshold = 3;
  recovery_threshold = 2;
}

abbrev pub default_connection_pool : ConnectionPoolConfig
default_connection_pool = record {
  max_connections_per_server = 1000;
  connection_timeout = 10000;
  retry_attempts = 3;
  retry_backoff_base = 100;
}

abbrev pub default_load_balancer : LoadBalancerConfig
default_load_balancer = record {
  strategy = round_robin;
  health_check = default_health_check;
  connection_pool = default_connection_pool;
}

pub record ActivityWeights (F : Type 0) : Type 0 where
  pub web_browsing : F
  pub file_download : F
  pub file_upload : F
  pub quic_browsing : F

pub record TcpSettings : Type 0 where
  pub handshake_size_range : ℕ × ℕ
  pub initial_response_size_range : ℕ × ℕ
  pub request_size_range : ℕ × ℕ
  pub response_size_range : ℕ × ℕ
  pub max_requests_per_connection : ℕ
  pub keep_alive_timeout : ℕ

pub record UdpSettings : Type 0 where
  pub packet_size_range : ℕ × ℕ
  pub packets_per_second_range : ℕ × ℕ
  pub session_duration_range : ℕ × ℕ
  pub fragmentation_threshold : ℕ

pub record UserBehaviorConfig (F : Type 0) : Type 0 where
  pub think_time_range : ℕ × ℕ
  pub connection_interval_range : ℕ × ℕ
  pub activity_weights : ActivityWeights F
  pub tcp_settings : TcpSettings
  pub udp_settings : UdpSettings

pub data OutputFormat : Type 0 where
  json csv html : OutputFormat

pub record ReportingConfig : Type 0 where
  pub output_format : OutputFormat
  pub output_path : List ℕ
  pub include_raw_data : Bool
  pub metrics_interval : ℕ

pub record TestConfig (F : Type 0) : Type 0 where
  pub duration : ℕ
  pub concurrent_users : ℕ
  pub server_addresses : List ℕ
  pub load_balancer : LoadBalancerConfig
  pub client_bind_address : Option ℕ
  pub user_behavior : UserBehaviorConfig F
  pub reporting : ReportingConfig

abbrev pub default_tcp_settings : TcpSettings
default_tcp_settings = record {
  handshake_size_range = (400, 2000);
  initial_response_size_range = (2000, 4000);
  request_size_range = (1024, 32768);
  response_size_range = (4096, 5242880);
  max_requests_per_connection = 20;
  keep_alive_timeout = 30000;
}

abbrev pub default_udp_settings : UdpSettings
default_udp_settings = record {
  packet_size_range = (64, 1280);
  packets_per_second_range = (10, 100);
  session_duration_range = (10000, 300000);
  fragmentation_threshold = 1280;
}

abbrev pub default_reporting : ReportingConfig
default_reporting = record {
  output_format = json;
  output_path = codes "./test_report";
  include_raw_data = false;
  metrics_interval = 1000;
}

module _ (fl : Float32) where
  abbrev pub default_user_behavior : UserBehaviorConfig fl.F
  default_user_behavior = record {
    think_time_range = (100, 10000);
    connection_interval_range = (50, 2000);
    activity_weights = record {
      web_browsing = fl.literal 95 2;
      file_download = fl.literal 0 3;
      file_upload = fl.literal 0 3;
      quic_browsing = fl.literal 5 2;
    };
    tcp_settings = default_tcp_settings;
    udp_settings = default_udp_settings;
  }

  -- `Default for TestConfig`, with the address that the text "127.0.0.1:8080" is parsed to.
  abbrev pub default_test_config : (local_address : ℕ) → TestConfig fl.F
  default_test_config local_address = record {
    duration = 300000;
    concurrent_users = 100;
    server_addresses = local_address ∷ [];
    load_balancer = default_load_balancer;
    client_bind_address = none;
    user_behavior = default_user_behavior;
    reporting = default_reporting;
  }

abbrev first_of : List ℕ → Option ℕ
first_of [] = none
first_of (address ∷ _) = some address

module _ {F : Type 0} where
  abbrev pub with_single_server : ℕ → TestConfig F → TestConfig F
  with_single_server address cfg = record cfg { server_addresses = address ∷ [] }

  abbrev pub with_servers : List ℕ → TestConfig F → TestConfig F
  with_servers addresses cfg = record cfg { server_addresses = addresses }

  abbrev pub primary_server : TestConfig F → Option ℕ
  primary_server cfg = first_of cfg.server_addresses
