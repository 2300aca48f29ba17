-- ===== src/Ci/Config.antt =====
-- ci/src/config.rs: the configuration of a run, with its defaults. Reading the file is serde's and toml's.
use npt.Prelude.{ℕ, ◌*◌, List, [], Option, none, some, Bool, true, length, ◌==◌, if◌then◌else◌}
use npt.Prelude.Text.{codes}
use npt.Ci.Detect.{DetectParams}

pub data Proto : Type 0 where
  tcp udp both : Proto

pub record TestParams : Type 0 where
  pub protocol : Proto
  pub connections_per_port : ℕ
  pub duration_secs : ℕ
  pub payload_bytes : ℕ
  pub connect_timeout_secs : ℕ
  pub ramp_ms : ℕ
  pub send_rate_bps : ℕ
  pub udp_interval_ms : ℕ

abbrev pub default_test : TestParams
default_test = record {
  protocol = tcp;
  connections_per_port = 32;
  duration_secs = 120;
  payload_bytes = 16 * 1024;
  connect_timeout_secs = 10;
  ramp_ms = 2000;
  send_rate_bps = 0;
  udp_interval_ms = 20;
}

pub record ArchiveParams : Type 0 where
  pub out_dir : List ℕ
  pub collect_logs : Bool
  pub debug_collector_ids : List (List ℕ)

abbrev pub default_archive : ArchiveParams
default_archive = record { out_dir = codes "./runs"; collect_logs = true; debug_collector_ids = [] }

pub record CiConfig (F : Type 0) : Type 0 where
  pub panel_url : List ℕ
  pub api_key : List ℕ
  pub port_ids : List ℕ
  pub test : TestParams
  pub detect : DetectParams F
  pub archive : ArchiveParams

-- `CiConfig::load` on what reading and parsing the file give: `none` is any of its errors.
unfoldable pub load : {F : Type 0} → Option (CiConfig F) → Option (CiConfig F)
load none = none
load (some cfg) = if length cfg.port_ids == 0 then none else some cfg
