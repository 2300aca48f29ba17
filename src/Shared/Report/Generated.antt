-- ===== src/Shared/Report/Generated.antt =====
-- shared/src/report.rs, `TestReport::generate`: what a report says.
use npt.Prelude.{
  ℕ, ◌+◌, ◌%◌, ◌^◌, ◌≤◌, ◌<◌, ◌≡◌, refl, ap, sym, subst, ◌∙◌, List, [], ◌++◌, some, length, drop,
  take-append-drop, length-take, count, count-le, map, filter, Bool, false, min, arith,
}
use npt.Prelude.Sums.{sum_by, sum64-mod}
use npt.Prelude.Float.{Float64}
use npt.Shared.Protocol.{ErrorDetail, ErrorType}
use npt.Shared.Metrics.{
  ConnectionMetrics, ThroughputSample, LatencySample, ErrorSample, is_tcp, is_udp, is_quic,
}
use npt.Shared.Report.{
  TestReport, TestSummary, ThroughputStats, generate, kept_data, calculate_connection_stats,
  calculate_summary, calculate_throughput_stats, is_successful,
}
use npt.Shared.Report.Latency.{any_nan}
use npt.Shared.Report.Performance.{all_latencies}
use npt.Shared.Report.Recent.{ErrorStats, calculate_error_stats, all_details, newest_first}
use npt.Shared.Report.Bands.{IsBand, throughput_band_stats-IsBand}
use npt.Shared.Report.Ranks.{
  RanksInRange, calculate_latency_stats_total, calculate_performance_total,
}
use npt.Shared.Report.Kinds.{
  entry, is_kind, entry-count_types, NewestFirst, newest_first-NewestFirst, count-newest_first,
  length-newest_first, errors_of, errors-by_type,
}

-- The connections are counted once each, as successful or failed.
pub record IsSummary (cs : List ConnectionMetrics) (s : TestSummary) : Type 0 where
  pub all : s.total_connections ≡ length cs
  pub good : s.successful_connections ≡ count is_successful cs
  pub split : s.successful_connections + s.failed_connections ≡ s.total_connections

-- The bands of TCP and UDP bound the samples that they were made of.
pub record AreBands (samples : List ThroughputSample) (t : ThroughputStats) : Type 0 where
  pub tcp_up : IsBand (map (λ s. s.tcp_upload_bps) samples) t.tcp_upload
  pub tcp_down : IsBand (map (λ s. s.tcp_download_bps) samples) t.tcp_download
  pub udp_up : IsBand (map (λ s. s.udp_upload_bps) samples) t.udp_upload
  pub udp_down : IsBand (map (λ s. s.udp_download_bps) samples) t.udp_download

-- The errors of the connections: the total has those over QUIC, which no other number has; each kind has
-- the number of its details; and the most recent ones are the first ten of all details in an order from
-- the newest to the oldest.
pub record AreErrors {F : Type 0} (cs : List ConnectionMetrics) (e : ErrorStats F) : Type 0 where
  pub total : e.total_errors ≡ (e.tcp_errors + e.udp_errors + errors_of is_quic cs) % 2 ^ 64
  pub details : e.error_details ≡ all_details cs
  pub kinds : (kind : ErrorType) → entry kind e.error_types ≡ count (is_kind kind) (all_details cs)
  pub older : List ErrorDetail
  pub as_often :
      (p : ErrorDetail → Bool) → count p (e.most_recent_errors ++ older) ≡ count p (all_details cs)
  pub newest : NewestFirst (e.most_recent_errors ++ older)
  pub ten : length e.most_recent_errors ≡ min 10 (length (all_details cs))

calculate_summary-IsSummary :
    (now later : ℕ) (cs : List ConnectionMetrics) → IsSummary cs (calculate_summary now later cs)
unfolding calculate_summary
calculate_summary-IsSummary now later cs = record {
  all = refl;
  good = refl;
  split = omega (arith, count-le is_successful cs);
}

-- The throughput of a run, in each direction, does not wrap round.
abbrev pub InBounds : List ThroughputSample → Type 0
InBounds samples =
    (sum_by (λ v. v) (map (λ s. s.tcp_upload_bps) samples) < 2 ^ 64)
    × (sum_by (λ v. v) (map (λ s. s.tcp_download_bps) samples) < 2 ^ 64)
    × (sum_by (λ v. v) (map (λ s. s.udp_upload_bps) samples) < 2 ^ 64)
    × (sum_by (λ v. v) (map (λ s. s.udp_download_bps) samples) < 2 ^ 64)

calculate_throughput_stats-AreBands :
    (samples : List ThroughputSample)
    → InBounds samples
    → AreBands samples (calculate_throughput_stats samples)
unfolding calculate_throughput_stats
calculate_throughput_stats-AreBands samples h = record {
  tcp_up = throughput_band_stats-IsBand _ h.0;
  tcp_down = throughput_band_stats-IsBand _ h.1;
  udp_up = throughput_band_stats-IsBand _ h.2;
  udp_down = throughput_band_stats-IsBand _ h.3;
}

calculate_error_stats-AreErrors :
    (fl : Float64) (place : ℕ → ℕ) (cs : List ConnectionMetrics)
    → length (all_details cs) < 2 ^ 64
    → AreErrors cs (calculate_error_stats fl place cs)
unfolding calculate_error_stats
calculate_error_stats-AreErrors fl place cs h =
    let sorted = newest_first (all_details cs) in
    let parts = take-append-drop 10 sorted in
    record {
      total = omega (
        arith,
        sum64-mod (λ (c : ConnectionMetrics). c.errors) cs,
        sum64-mod (λ (c : ConnectionMetrics). c.errors) (filter is_tcp cs),
        sum64-mod (λ (c : ConnectionMetrics). c.errors) (filter is_udp cs),
        errors-by_type cs,
      );
      details = refl;
      kinds = λ kind. entry-count_types place kind (all_details cs) [] (omega arith) ∙ omega arith;
      older = drop 10 sorted;
      as_often = λ p. ap (λ l. count p l) parts ∙ count-newest_first p (all_details cs);
      newest = subst NewestFirst (sym parts) (newest_first-NewestFirst (all_details cs));
      ten = length-take 10 sorted ∙ ap (λ n. min 10 n) (length-newest_first (all_details cs));
    }

-- A report is always made, without a panic, and says this of the run. The connections are counted
-- once each, as successful or failed. Every throughput sample of TCP and UDP lies between its band's least
-- and peak, and the average too. The total of the errors is that of TCP, UDP and QUIC together, modulo 2^64,
-- although only TCP and UDP are listed; the details are those of the connections in their order; each kind
-- of error has the number of its details; and the most recent errors are the first ten of the details
-- ordered from the newest to the oldest. The conditions: no latency sample is not a number, there are
-- at most 2^53 latencies and samples and fewer than 2^64 details, the sums of the throughput samples are below
-- 2^64, and ranks of percentages are in range.
pub generate-IsReport :
    (fl : Float64) (now later : ℕ) (place : ℕ → ℕ) (cs : List ConnectionMetrics)
    (throughput : List ThroughputSample) (latency : List (LatencySample fl.F))
    (errors : List ErrorSample) (raw : Bool)
    → RanksInRange fl
    → any_nan fl (map (λ s. s.tcp_latency_ms) latency) ≡ false
    → any_nan fl (map (λ s. s.udp_latency_ms) latency) ≡ false
    → length latency ≤ 2 ^ 53
    → length (all_latencies fl cs) ≤ 2 ^ 53
    → InBounds throughput
    → length (all_details cs) < 2 ^ 64
    → (r : TestReport fl.F) × (generate fl now later place cs throughput latency errors raw
        ≡ some r)
      × IsSummary cs r.summary
      × AreBands throughput r.throughput
      × AreErrors cs r.errors
unfolding generate
generate-IsReport fl now later place cs throughput latency errors raw law tcp udp few fewer bounds
      fine =
    let (p, ep) = calculate_performance_total fl law cs throughput fewer in
    let (l, el) = calculate_latency_stats_total fl law latency tcp udp few in
    (
      record {
        summary = calculate_summary now later cs;
        performance = p;
        connections = calculate_connection_stats cs;
        throughput = calculate_throughput_stats throughput;
        latency = l;
        errors = calculate_error_stats fl place cs;
        raw_data = kept_data fl raw cs throughput latency errors;
      },
      rw (ep, el) refl,
      calculate_summary-IsSummary now later cs,
      calculate_throughput_stats-AreBands throughput bounds,
      calculate_error_stats-AreErrors fl place cs fine,
    )
