-- ===== src/Shared/Report/Performance.antt =====
-- shared/src/report.rs, `calculate_performance`. A signed number of seconds is an integer.
use npt.Prelude.{
  ℕ, zero, suc, ◌+◌, ◌-◌, ◌/◌, List, [], ◌∷◌, ◌++◌, Option, none, some, length, map, leb, ◌==◌,
  if◌then◌else◌,
}
use npt.Prelude.Words.{add64}
use npt.Prelude.Sums.{sum64}
use npt.Prelude.Float.{Float64, sum_floats}
use npt.Shared.Metrics.{ConnectionMetrics, ThroughputSample}
use npt.Shared.Report.Extremes.{filter_map, map_end, unwrap_or}
use npt.Shared.Report.Latency.{percentile, sorted_floats}

pub record PerformanceMetrics (F : Type 0) : Type 0 where
  pub avg_throughput_mbps : F
  pub peak_throughput_mbps : F
  pub avg_latency_ms : F
  pub p50_latency_ms : F
  pub p95_latency_ms : F
  pub p99_latency_ms : F
  pub error_rate : F
  pub connections_per_second : F

-- `i64`; `negsuc n` is -(n + 1).
pub data ℤ : Type 0 where
  pos : ℕ → ℤ
  negsuc : ℕ → ℤ

abbrev neg : ℕ → ℤ
neg zero = pos 0
neg (suc n) = negsuc n

abbrev max_ℤ : ℤ → ℤ → ℤ
max_ℤ (pos a) (pos b) = if leb a b then pos b else pos a
max_ℤ (pos a) (negsuc b) = pos a
max_ℤ (negsuc a) (pos b) = pos b
max_ℤ (negsuc a) (negsuc b) = if leb a b then negsuc a else negsuc b

abbrev largest_ℤ : List ℤ → Option ℤ
largest_ℤ [] = none
largest_ℤ (x ∷ xs) = elim (largest_ℤ xs) [ none ↦ some x | some y ↦ some (max_ℤ x y) ]

-- `(end - start).num_seconds()` of two times in nanoseconds, which rounds towards zero
abbrev num_seconds : (end start : ℕ) → ℤ
num_seconds end start =
    if leb start end then pos ((end - start) / 1000000000) else neg ((start - end) / 1000000000)

-- `c.latencies.iter().map(|d| d.as_millis() as f64)` of all connections
abbrev pub all_latencies : (fl : Float64) → List ConnectionMetrics → List fl.F
all_latencies fl [] = []
all_latencies fl (c ∷ cs) = map (λ d. fl.of_ℕ (d / 1000000)) c.latencies ++ all_latencies fl cs

-- An integer `as f64`
abbrev of_ℤ : (fl : Float64) → ℤ → fl.F
of_ℤ fl (pos n) = fl.of_ℕ n
of_ℤ fl (negsuc n) = fl.sub (fl.of_ℕ 0) (fl.of_ℕ (n + 1))

-- The mean of a list, and 0 of none.
abbrev pub mean : (fl : Float64) → List fl.F → fl.F
mean fl xs =
    if length xs == 0
    then fl.of_ℕ 0
    else fl.div (sum_floats fl (fl.of_ℕ 0) xs) (fl.of_ℕ (length xs))

-- `error_rate`, also of `calculate_error_stats`: the errors for each connection
abbrev pub errors_each : (fl : Float64) → List ConnectionMetrics → fl.F
errors_each fl cs =
    if length cs == 0
    then fl.of_ℕ 0
    else fl.div (fl.of_ℕ (sum64 (λ c. c.errors) cs)) (fl.of_ℕ (length cs))

module _ (fl : Float64) where
  -- The longest connection in seconds, or 1 if none has ended.
  abbrev total_duration : List ConnectionMetrics → fl.F
  total_duration connections = of_ℤ fl (
      unwrap_or (pos 1) (
        largest_ℤ
          (filter_map (λ c. map_end (λ e. num_seconds e c.start_time) c.end_time) connections)))

  abbrev sample_mbps : ThroughputSample → fl.F
  sample_mbps s =
      let bps =
        add64 (add64 (add64 s.tcp_upload_bps s.tcp_download_bps) s.udp_upload_bps)
          s.udp_download_bps in
      fl.div (fl.mul (fl.of_ℕ bps) (fl.of_ℕ 8)) (fl.of_ℕ 1000000)

  -- `fold(0.0, f64::max)`
  abbrev peak : fl.F → List fl.F → fl.F
  peak acc [] = acc
  peak acc (x ∷ xs) = peak (fl.max acc x) xs

  abbrev connections_each_second : (count : ℕ) → fl.F → fl.F
  connections_each_second count seconds =
      if fl.lt (fl.of_ℕ 0) seconds then fl.div (fl.of_ℕ count) seconds else fl.of_ℕ 0

  abbrev with_percentiles :
      List ConnectionMetrics
      → List ThroughputSample
      → Option fl.F
      → Option fl.F
      → Option fl.F
      → Option (PerformanceMetrics fl.F)
  with_percentiles connections samples (some p50) (some p95) (some p99) =
      let bytes = sum64 (λ c. add64 c.bytes_sent c.bytes_received) connections in
      let seconds = total_duration connections in
      some (record {
        avg_throughput_mbps =
            fl.div (fl.mul (fl.of_ℕ bytes) (fl.of_ℕ 8)) (fl.mul seconds (fl.of_ℕ 1000000));
        peak_throughput_mbps = peak (fl.of_ℕ 0) (map sample_mbps samples);
        avg_latency_ms = mean fl (all_latencies fl connections);
        p50_latency_ms = p50;
        p95_latency_ms = p95;
        p99_latency_ms = p99;
        error_rate = errors_each fl connections;
        connections_per_second = connections_each_second (length connections) seconds;
      })
  with_percentiles connections samples _ _ _ = none

  abbrev on_sorted :
      List ConnectionMetrics
      → List ThroughputSample
      → Option (List fl.F)
      → Option (PerformanceMetrics fl.F)
  on_sorted connections samples none = none
  on_sorted connections samples (some sorted_latencies) =
      with_percentiles connections samples (percentile fl sorted_latencies (fl.of_ℕ 50))
        (percentile fl sorted_latencies (fl.of_ℕ 95)) (percentile fl sorted_latencies (fl.of_ℕ 99))

  unfoldable pub calculate_performance :
      List ConnectionMetrics → List ThroughputSample → Option (PerformanceMetrics fl.F)
  unfolding percentile
  calculate_performance connections throughput_samples =
      on_sorted connections throughput_samples (sorted_floats fl (all_latencies fl connections))
