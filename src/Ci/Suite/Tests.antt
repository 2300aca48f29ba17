-- ===== src/Ci/Suite/Tests.antt =====
-- ci/src/main.rs: a run over three ports, of which the panel knows two.
use npt.Prelude.{ℕ, ◌+◌, refl, [], ◌∷◌, none, some, true, false, ◌==◌, if◌then◌else◌}
use npt.Prelude.Result.{ok, err}
use npt.Prelude.Float.{whole_numbers}
use npt.Prelude.Text.{codes}
use npt.Ci.Client.Summary.{PortMetrics}
use npt.Ci.Config.{default_test, default_archive, both, CiConfig}
use npt.Ci.Detect.{default_params}
use npt.Ci.Panel.{PortInfo}
use npt.Ci.Suite.{PortWorld, SuiteWorld, RunOverrides, configured, run_suite}
use npt.Ci.Suite.Exit.{Tells, run_suite-Tells}

abbrev metrics : PortMetrics ℕ
metrics = record {
  protocol = codes "tcp";
  endpoint = codes "10.0.0.1:80";
  duration_secs = 120;
  connections_attempted = 32;
  connected = 32;
  connect_failed = 0;
  midstream_disconnects = 0;
  flows_no_return = 0;
  stalls = [];
  bytes_sent = 100;
  bytes_recv = 100;
  avg_down_kbps = 5;
  avg_up_kbps = 5;
  udp_sent = 0;
  udp_recv = 0;
  rtt = record { samples = 1; p50_ms = 1; p95_ms = 1; p99_ms = 1; max_ms = 1 };
  throughput_series = [];
  errors = [];
}

abbrev port : ℕ → PortInfo
port id = record {
  id = id;
  display_name = codes "web";
  ip_addr = codes "10.0.0.1";
  extra_inbound_address = none;
  port_v4 = 80;
  is_suspended = id == 2;
  enable_udp = some true;
  inbound_proxy_enabled = none;
  inbound_proxy_protocol = none;
  target_address_list = [];
}

abbrev port_world : ℕ → PortWorld ℕ
port_world i = record {
  get_port = if i == 2 then err (codes "not found") else ok (port (i + 1));
  lookup_host = λ text. some 7;
  port_servers = ok [];
  run_flows = λ proto endpoint test stall_secs. metrics;
  archive = λ proto. record {
    create_dir_all = true;
    get_text = λ path. ok [];
    debug_collectors = λ id. ok [];
    debug_export = λ id ids. ok [];
  };
}

abbrev config : CiConfig ℕ
config = record {
  panel_url = codes "http://panel";
  api_key = [];
  port_ids = 1 ∷ 2 ∷ [];
  test = record default_test { protocol = both };
  detect = default_params whole_numbers;
  archive = default_archive;
}

abbrev world : SuiteWorld ℕ
world = record {
  config = some config;
  parse_id = λ s. none;
  new_panel = λ url key. true;
  started = codes "today";
  run_dir = codes "./runs/run-1";
  ports = port_world;
  is_alphanumeric = λ c. false;
}

abbrev overrides : RunOverrides
overrides = record {
  panel_url = none;
  api_key = none;
  ports = none;
  duration = some 10;
  connections = none;
}

run_suite-Tells_example :
    Tells whole_numbers world (configured world overrides) (run_suite whole_numbers world overrides)
run_suite-Tells_example = run_suite-Tells whole_numbers world overrides refl
