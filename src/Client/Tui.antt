-- ===== src/Client/Tui.antt =====
-- client/src/tui.rs: the state behind the client's panel, and what it shows of the log. Drawing it is left out.
-- Times are in nanoseconds.
pub mod Histories
pub mod Logs
mod Tests
use npt.Prelude.{
  ℕ, ◌+◌, ◌-◌, List, [], ◌∷◌, ◌++◌, Option, none, some, length, take, drop, map, replicate, min,
  Bool, true, false, ◌&&◌, ◌||◌, not, ltb, is_some, is_none, if◌then◌else◌,
}
use npt.Prelude.Float.{Float64}
use npt.Prelude.Words.{add64}
use npt.Shared.Protocol.{tcp, udp, quic}
use npt.Shared.LogBuffer.{LogBuffer, LogEntry, get_entries, len}
use npt.Shared.Metrics.{
  MetricsCollector, ThroughputSample, LatencySample, ErrorSample, get_active_connections,
}
use npt.Shared.Metrics.Sampling.{get_latest_throughput, get_latest_latency, get_latest_errors}

-- An entry of the history of the throughput, in megabytes
pub record ThroughputPoint (F : Type 0) : Type 0 where
  pub elapsed : F
  pub tcp_upload : F
  pub tcp_download : F
  pub udp : F
  pub quic_upload : F
  pub quic_download : F

pub record CachedChartData (F : Type 0) : Type 0 where
  pub tcp_upload_data : List (F × F)
  pub tcp_download_data : List (F × F)
  pub udp_data : List (F × F)
  pub quic_upload_data : List (F × F)
  pub quic_download_data : List (F × F)
  pub latency_data : List (F × F)
  pub error_data : List (F × F)
  pub connection_data : List ℕ
  pub last_update : ℕ

-- The panel; the metrics and the log that it shares with the program are arguments of its operations.
pub record ClientTui (F : Type 0) : Type 0 where
  pub should_quit : Bool
  pub show_logs : Bool
  pub log_scroll : ℕ
  pub throughput_history : List (ThroughputPoint F)
  pub latency_history : List (F × F)
  pub error_history : List (F × F)
  pub start_time : ℕ
  pub cached_datasets : Option (CachedChartData F)
  pub last_metrics_update : ℕ

unfoldable pub new : (F : Type 0) (now : ℕ) → ClientTui F
new F now = record {
  should_quit = false;
  show_logs = false;
  log_scroll = 0;
  throughput_history = [];
  latency_history = [];
  error_history = [];
  start_time = now;
  cached_datasets = none;
  last_metrics_update = now;
}

-- The keys: `q` and Esc, `l` and `L`, the arrows, and all others
pub data Key : Type 0 where
  quit logs up down other : Key

abbrev pub pushed {ℓ} : {A : Type ℓ} → Option A → List A → List A
pushed none history = history
pushed (some a) history = history ++ a ∷ []

abbrev pub max_history_size : ℕ
max_history_size = 120

abbrev pub trimmed {ℓ} : {A : Type ℓ} → List A → List A
trimmed history = if ltb max_history_size (length history) then drop 1 history else history

abbrev pub at_most {ℓ} : {A : Type ℓ} → List A → Bool
at_most history = not (ltb max_history_size (length history))

-- `start_index` of `render_logs`
abbrev pub start_index : (total_logs log_scroll : ℕ) → ℕ
start_index total_logs log_scroll =
    if ltb 8 total_logs then total_logs - 8 - min log_scroll (total_logs - 8) else 0

module _ {F : Type 0} where
  -- What a key does, with the log as it is
  unfoldable pub on_key : Key → LogBuffer → ClientTui F → ClientTui F
  unfolding len
  on_key quit log t = record t { should_quit = true }
  on_key logs log t = record t { show_logs = not t.show_logs; log_scroll = 0 }
  on_key up log t =
      if t.show_logs && ltb 0 t.log_scroll then record t { log_scroll = t.log_scroll - 1 } else t
  on_key down log t =
      if t.show_logs && ltb t.log_scroll (len log - 10)
      then record t { log_scroll = t.log_scroll + 1 }
      else t
  on_key other log t = t

  -- One point more in each history, and one at most less
  abbrev pub extended :
      Option (ThroughputPoint F) → (latency errors : Option (F × F)) → ClientTui F → ClientTui F
  extended throughput latency errors t = record t {
    throughput_history = trimmed (pushed throughput t.throughput_history);
    latency_history = trimmed (pushed latency t.latency_history);
    error_history = trimmed (pushed errors t.error_history);
  }

  -- The entries that `render_logs` shows
  unfoldable pub displayed_logs : LogBuffer → ClientTui F → List LogEntry
  unfolding get_entries
  displayed_logs log t =
      take 8 (drop (start_index (length (get_entries log)) t.log_scroll) (get_entries log))

module _ (fl : Float64) where
  open fl use {F}

  abbrev pub in_megabytes : ℕ → F
  in_megabytes bps = fl.div (fl.of_ℕ bps) (fl.literal 10000000 1)

  abbrev pub throughput_point : (elapsed : F) → ThroughputSample → ThroughputPoint F
  throughput_point elapsed s = record {
    elapsed = elapsed;
    tcp_upload = in_megabytes s.tcp_upload_bps;
    tcp_download = in_megabytes s.tcp_download_bps;
    udp = in_megabytes (add64 s.udp_upload_bps s.udp_download_bps);
    quic_upload = in_megabytes s.quic_upload_bps;
    quic_download = in_megabytes s.quic_download_bps;
  }

  abbrev pub latency_point : (elapsed : F) → LatencySample F → F × F
  latency_point elapsed s = (elapsed, s.tcp_latency_ms)

  abbrev pub error_point : (elapsed : F) → ErrorSample → F × F
  error_point elapsed s = (elapsed, fl.of_ℕ (add64 (add64 s.tcp_errors s.udp_errors) s.quic_errors))

  abbrev pub map_option : {A B : Type 0} → (A → B) → Option A → Option B
  map_option f none = none
  map_option f (some a) = some (f a)

  -- The chart data on the histories
  abbrev pub datasets : (now : ℕ) → MetricsCollector F → ClientTui F → CachedChartData F
  datasets now m t =
      let h = t.throughput_history in
      record {
        tcp_upload_data = map (λ p. (p.elapsed, p.tcp_upload)) h;
        tcp_download_data = map (λ p. (p.elapsed, p.tcp_download)) h;
        udp_data = map (λ p. (p.elapsed, p.udp)) h;
        quic_upload_data = map (λ p. (p.elapsed, p.quic_upload)) h;
        quic_download_data = map (λ p. (p.elapsed, p.quic_download)) h;
        latency_data = t.latency_history;
        error_data = t.error_history;
        connection_data = replicate (length h) (
            get_active_connections tcp m
            + get_active_connections udp m
            + get_active_connections quic m);
        last_update = now;
      }

  -- Two seconds
  abbrev pub is_stale : (now : ℕ) → Option (CachedChartData F) → Bool
  is_stale now none = true
  is_stale now (some cache) = ltb 2000000000 (now - cache.last_update)

  abbrev pub get_or_update_cached_datasets :
      (now : ℕ) → MetricsCollector F → ClientTui F → ClientTui F
  get_or_update_cached_datasets now m t =
      if is_stale now t.cached_datasets
      then record t { cached_datasets = some (datasets now m t) }
      else t

  -- The points that an update takes from the metrics
  abbrev pub latest_throughput : (elapsed : F) → MetricsCollector F → Option (ThroughputPoint F)
  latest_throughput elapsed m = map_option (throughput_point elapsed) (get_latest_throughput m)

  abbrev pub latest_latency : (elapsed : F) → MetricsCollector F → Option (F × F)
  latest_latency elapsed m = map_option (latency_point elapsed) (get_latest_latency m)

  abbrev pub latest_errors : (elapsed : F) → MetricsCollector F → Option (F × F)
  latest_errors elapsed m = map_option (error_point elapsed) (get_latest_errors m)

  abbrev pub with_points :
      (now : ℕ)
      → MetricsCollector F
      → Option (ThroughputPoint F)
      → Option (F × F)
      → Option (F × F)
      → ClientTui F
      → ClientTui F
  with_points now m throughput latency errors t =
      let long = pushed throughput t.throughput_history in
      let long_latency = pushed latency t.latency_history in
      let long_errors = pushed errors t.error_history in
      let data_changed =
        is_some throughput
        || is_some latency
        || is_some errors
        || not (at_most long && at_most long_latency && at_most long_errors) in
      if data_changed
      then get_or_update_cached_datasets now m (record (extended throughput latency errors t) {
        cached_datasets = none;
        last_metrics_update = now;
      })
      else extended throughput latency errors t

  -- `update_metrics`; where a history of the metrics is locked, it waits for it.
  unfoldable pub update_metrics : (now : ℕ) → MetricsCollector F → ClientTui F → ClientTui F
  unfolding get_latest_throughput get_latest_latency get_latest_errors get_active_connections
  update_metrics now m t =
      let elapsed = fl.as_secs (now - t.start_time) in
      with_points now m (latest_throughput elapsed m) (latest_latency elapsed m)
        (latest_errors elapsed m) t

  -- What happens in the loop of `run`
  pub data TuiStep : Type 0 where
    pressed : Key → LogBuffer → TuiStep
    refreshed : (now : ℕ) → MetricsCollector F → TuiStep

  abbrev pub tui_step : TuiStep → ClientTui F → ClientTui F
  tui_step (pressed key log) t = on_key key log t
  tui_step (refreshed now m) t = update_metrics now m t

  -- The loop of `run`, which `should_quit` ends
  unfoldable pub run : List TuiStep → ClientTui F → ClientTui F
  unfolding on_key update_metrics
  run [] t = t
  run (s ∷ steps) t = elim t.should_quit [ true ↦ t | false ↦ run steps (tui_step s t) ]
