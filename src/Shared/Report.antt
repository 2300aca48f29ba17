-- ===== src/Shared/Report.antt =====
-- shared/src/report.rs: what a report says of the connections and the samples of a run. Times are in
-- nanoseconds. `none` is a panic: of the sort on a value that is not a number, or of an index.
pub mod Extremes
pub mod Latency
pub mod Performance
pub mod Recent
pub mod Bands
pub mod Ranks
pub mod Kinds
pub mod Generated
mod Tests
use npt.Prelude.{
  ℕ, ◌-◌, ◌/◌, ◌%◌, ◌^◌, List, Option, none, some, length, count, map, Bool, true, false, ◌&&◌,
  ◌==◌, is_some, if◌then◌else◌,
}
use npt.Prelude.Sums.{sum64, sum_by}
use npt.Prelude.Float.{Float64}
use npt.Shared.Metrics.{
  ConnectionMetrics, ThroughputSample, LatencySample, ErrorSample, is_tcp, is_udp,
}
use npt.Shared.Report.Extremes.{largest, smallest, unwrap_or, filter_map, duration}
use npt.Shared.Report.Latency.{LatencyBand, latency_band_stats}
use npt.Shared.Report.Performance.{PerformanceMetrics, calculate_performance}
use npt.Shared.Report.Recent.{ErrorStats, calculate_error_stats}

pub record TestSummary : Type 0 where
  pub test_duration : ℕ
  pub start_time : ℕ
  pub end_time : ℕ
  pub total_connections : ℕ
  pub successful_connections : ℕ
  pub failed_connections : ℕ
  pub total_bytes_sent : ℕ
  pub total_bytes_received : ℕ
  pub total_packets_sent : ℕ
  pub total_packets_received : ℕ

pub record ConnectionStats : Type 0 where
  pub tcp_connections : ℕ
  pub udp_connections : ℕ
  pub avg_connection_duration : ℕ
  pub max_connection_duration : ℕ
  pub min_connection_duration : ℕ

pub record ThroughputBand : Type 0 where
  pub avg_bps : ℕ
  pub peak_bps : ℕ
  pub min_bps : ℕ
  pub total_bytes : ℕ

pub record ThroughputStats : Type 0 where
  pub tcp_upload : ThroughputBand
  pub tcp_download : ThroughputBand
  pub udp_upload : ThroughputBand
  pub udp_download : ThroughputBand

pub record LatencyStats (F : Type 0) : Type 0 where
  pub tcp : LatencyBand F
  pub udp : LatencyBand F

pub record RawData (F : Type 0) : Type 0 where
  pub connections : List ConnectionMetrics
  pub throughput_samples : List ThroughputSample
  pub latency_samples : List (LatencySample F)
  pub error_samples : List ErrorSample

pub record TestReport (F : Type 0) : Type 0 where
  pub summary : TestSummary
  pub performance : PerformanceMetrics F
  pub connections : ConnectionStats
  pub throughput : ThroughputStats
  pub latency : LatencyStats F
  pub errors : ErrorStats F
  pub raw_data : Option (RawData F)

abbrev pub is_successful : ConnectionMetrics → Bool
is_successful c = is_some c.end_time && (c.errors == 0)

-- `calculate_summary`; `now` and `later` are the clock, which is read where there is no time to take.
unfoldable pub calculate_summary : (now later : ℕ) → List ConnectionMetrics → TestSummary
calculate_summary now later connections =
    let successful = count is_successful connections in
    let start = unwrap_or now (smallest (map (λ c. c.start_time) connections)) in
    let end = unwrap_or later (largest (filter_map (λ c. c.end_time) connections)) in
    record {
      test_duration = end - start;
      start_time = start;
      end_time = end;
      total_connections = length connections;
      successful_connections = successful;
      failed_connections = length connections - successful;
      total_bytes_sent = sum64 (λ c. c.bytes_sent) connections;
      total_bytes_received = sum64 (λ c. c.bytes_received) connections;
      total_packets_sent = sum64 (λ c. c.packets_sent) connections;
      total_packets_received = sum64 (λ c. c.packets_received) connections;
    }

unfoldable pub calculate_connection_stats : List ConnectionMetrics → ConnectionStats
calculate_connection_stats connections =
    let ds = filter_map duration connections in
    record {
      tcp_connections = count is_tcp connections;
      udp_connections = count is_udp connections;
      avg_connection_duration =
          if length ds == 0 then 0 else (sum_by (λ d. d) ds % 2 ^ 128) / length ds % 2 ^ 64;
      max_connection_duration = unwrap_or 0 (largest ds);
      min_connection_duration = unwrap_or 0 (smallest ds);
    }

unfoldable pub throughput_band_stats : List ℕ → ThroughputBand
throughput_band_stats values =
    if length values == 0
    then record { avg_bps = 0; peak_bps = 0; min_bps = 0; total_bytes = 0 }
    else record {
      avg_bps = sum64 (λ v. v) values / length values;
      peak_bps = unwrap_or 0 (largest values);
      min_bps = unwrap_or 0 (smallest values);
      total_bytes = sum64 (λ v. v) values;
    }

unfoldable pub calculate_throughput_stats : List ThroughputSample → ThroughputStats
calculate_throughput_stats samples = record {
  tcp_upload = throughput_band_stats (map (λ s. s.tcp_upload_bps) samples);
  tcp_download = throughput_band_stats (map (λ s. s.tcp_download_bps) samples);
  udp_upload = throughput_band_stats (map (λ s. s.udp_upload_bps) samples);
  udp_download = throughput_band_stats (map (λ s. s.udp_download_bps) samples);
}

module _ (fl : Float64) where
  abbrev pub both_bands :
      Option (LatencyBand fl.F) → Option (LatencyBand fl.F) → Option (LatencyStats fl.F)
  both_bands (some tcp) (some udp) = some (record { tcp = tcp; udp = udp })
  both_bands _ _ = none

  unfoldable pub calculate_latency_stats : List (LatencySample fl.F) → Option (LatencyStats fl.F)
  calculate_latency_stats samples =
      both_bands (latency_band_stats fl (map (λ s. s.tcp_latency_ms) samples))
        (latency_band_stats fl (map (λ s. s.udp_latency_ms) samples))

  -- The parts of a report that can panic, put together with the others.
  abbrev pub assembled :
      TestSummary
      → ConnectionStats
      → ThroughputStats
      → ErrorStats fl.F
      → Option (RawData fl.F)
      → Option (PerformanceMetrics fl.F)
      → Option (LatencyStats fl.F)
      → Option (TestReport fl.F)
  assembled summary connections throughput errors raw_data (some performance) (some latency) =
      some (record {
        summary = summary;
        performance = performance;
        connections = connections;
        throughput = throughput;
        latency = latency;
        errors = errors;
        raw_data = raw_data;
      })
  assembled summary connections throughput errors raw_data _ _ = none

  abbrev pub kept_data :
      (include_raw_data : Bool)
      → List ConnectionMetrics
      → List ThroughputSample
      → List (LatencySample fl.F)
      → List ErrorSample
      → Option (RawData fl.F)
  kept_data false connections throughput latency errors = none
  kept_data true connections throughput latency errors = some (record {
    connections = connections;
    throughput_samples = throughput;
    latency_samples = latency;
    error_samples = errors;
  })

  -- `TestReport::generate`; `now` and `later` are the clock, `place` the order of the map of kinds.
  unfoldable pub generate :
      (now later : ℕ) (place : ℕ → ℕ)
      → List ConnectionMetrics
      → List ThroughputSample
      → List (LatencySample fl.F)
      → List ErrorSample
      → (include_raw_data : Bool) → Option (TestReport fl.F)
  generate now later place connections throughput latency errors include_raw_data =
      assembled (calculate_summary now later connections) (calculate_connection_stats connections)
        (calculate_throughput_stats throughput) (calculate_error_stats fl place connections)
        (kept_data include_raw_data connections throughput latency errors)
        (calculate_performance fl connections throughput) (calculate_latency_stats latency)
