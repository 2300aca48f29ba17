-- ===== src/Shared/Metrics/Sampling.antt =====
-- shared/src/metrics.rs: the samples that the collector takes of its connections.
use npt.Prelude.{
  ℕ, ◌-◌, ◌/◌, List, [], ◌∷◌, ◌++◌, Option, none, some, length, filter, Bool, leb, ◌==◌,
  if◌then◌else◌,
}
use npt.Prelude.Sums.{sum64, sum_by}
use npt.Prelude.Float.{Float64, sum_floats}
use npt.Shared.Protocol.{ErrorDetail}
use npt.Shared.Metrics.{
  ConnectionMetrics, ThroughputSample, LatencySample, ErrorSample, MetricsCollector, values, is_tcp,
  is_udp, is_quic,
}

-- The bytes of the connections of one kind: the sums of the loop that starts `sample_throughput`.
abbrev pub sent_by : (ConnectionMetrics → Bool) → List ConnectionMetrics → ℕ
sent_by p cs = sum64 (λ c. c.bytes_sent) (filter p cs)

abbrev pub received_by : (ConnectionMetrics → Bool) → List ConnectionMetrics → ℕ
received_by p cs = sum64 (λ c. c.bytes_received) (filter p cs)

-- 0.1 seconds. `as_secs_f64` of fewer nanoseconds is below the `f64` that 0.1 reads as, and of so
-- many it is that `f64`, since both are the quotient of 100000000 and 1e9 rounded to the nearest.
abbrev pub sampling_gap : ℕ
sampling_gap = 100000000

abbrev pub last {ℓ} : {A : Type ℓ} → List A → Option A
last [] = none
last (x ∷ []) = some x
last (x ∷ y ∷ l) = last (y ∷ l)

module _ (fl : Float64) where
  open fl use {F}

  -- `(delta as f64 / elapsed) as u64` for `delta = now.saturating_sub(last)`
  abbrev pub per_second : (total before elapsed : ℕ) → ℕ
  per_second total before elapsed =
      fl.to_u64 (fl.div (fl.of_ℕ (total - before)) (fl.as_secs elapsed))

  -- `sample_throughput` at the instant `now`; `duration_since` gives 0 for an instant before.
  unfoldable pub sample_throughput : (now timestamp : ℕ) → MetricsCollector F → MetricsCollector F
  sample_throughput now timestamp m =
      let cs = values m.connections in
      let tcp_upload = sent_by is_tcp cs in
      let tcp_download = received_by is_tcp cs in
      let udp_upload = sent_by is_udp cs in
      let udp_download = received_by is_udp cs in
      let quic_upload = sent_by is_quic cs in
      let quic_download = received_by is_quic cs in
      let elapsed = now - m.last_sample_time in
      if leb sampling_gap elapsed
      then record m {
        throughput_history =
            m.throughput_history
            ++ (record {
              timestamp = timestamp;
              tcp_upload_bps = per_second tcp_upload m.last_tcp_bytes_sent elapsed;
              tcp_download_bps = per_second tcp_download m.last_tcp_bytes_received elapsed;
              udp_upload_bps = per_second udp_upload m.last_udp_bytes_sent elapsed;
              udp_download_bps = per_second udp_download m.last_udp_bytes_received elapsed;
              quic_upload_bps = per_second quic_upload m.last_quic_bytes_sent elapsed;
              quic_download_bps = per_second quic_download m.last_quic_bytes_received elapsed;
            })
              ∷ [];
        last_tcp_bytes_sent = tcp_upload;
        last_tcp_bytes_received = tcp_download;
        last_udp_bytes_sent = udp_upload;
        last_udp_bytes_received = udp_download;
        last_quic_bytes_sent = quic_upload;
        last_quic_bytes_received = quic_download;
        last_sample_time = now;
      }
      else m

  -- The mean latency of a connection in milliseconds, if it has any.
  abbrev pub mean_latency : ConnectionMetrics → List F
  mean_latency c =
      if length c.latencies == 0
      then []
      else fl.div (fl.of_ℕ (sum_by (λ l. l) c.latencies / 1000000)) (fl.of_ℕ (length c.latencies))
        ∷ []

  abbrev pub mean_latencies : List ConnectionMetrics → List F
  mean_latencies [] = []
  mean_latencies (c ∷ cs) = mean_latency c ++ mean_latencies cs

  -- `0.0` if there is none, and else the mean.
  abbrev pub mean_or_zero : List F → F
  mean_or_zero xs =
      if length xs == 0
      then fl.of_ℕ 0
      else fl.div (sum_floats fl (fl.of_ℕ 0) xs) (fl.of_ℕ (length xs))

  -- `sample_latency`; the latencies over QUIC are collected and not used.
  unfoldable pub sample_latency : ℕ → MetricsCollector F → MetricsCollector F
  sample_latency timestamp m =
      let cs = values m.connections in
      record m {
        latency_history =
            m.latency_history
            ++ (record {
              timestamp = timestamp;
              tcp_latency_ms = mean_or_zero (mean_latencies (filter is_tcp cs));
              udp_latency_ms = mean_or_zero (mean_latencies (filter is_udp cs));
            })
              ∷ [];
      }

abbrev pub all_details : List ConnectionMetrics → List ErrorDetail
all_details [] = []
all_details (c ∷ cs) = c.error_details ++ all_details cs

module _ {F : Type 0} where
  unfoldable pub sample_errors : ℕ → MetricsCollector F → MetricsCollector F
  sample_errors timestamp m =
      let cs = values m.connections in
      record m {
        error_history =
            m.error_history
            ++ (record {
              timestamp = timestamp;
              tcp_errors = sum64 (λ c. c.errors) (filter is_tcp cs);
              udp_errors = sum64 (λ c. c.errors) (filter is_udp cs);
              quic_errors = sum64 (λ c. c.errors) (filter is_quic cs);
              error_details = all_details cs;
            })
              ∷ [];
      }

  unfoldable pub get_latest_throughput : MetricsCollector F → Option ThroughputSample
  get_latest_throughput m = last m.throughput_history

  unfoldable pub get_latest_latency : MetricsCollector F → Option (LatencySample F)
  get_latest_latency m = last m.latency_history

  unfoldable pub get_latest_errors : MetricsCollector F → Option ErrorSample
  get_latest_errors m = last m.error_history
