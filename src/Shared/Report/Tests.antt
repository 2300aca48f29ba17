-- ===== src/Shared/Report/Tests.antt =====
-- shared/src/report.rs: the report of a TCP and a QUIC connection.
use npt.Prelude.{
  ℕ, zero, suc, ◌-◌, ◌/◌, ◌*◌, ◌≤◌, ◌≡◌, refl, List, [], ◌∷◌, none, some, false, arith,
}
use npt.Prelude.Float.{whole_numbers}
use npt.Shared.Protocol.{tcp, quic, io_error, other, ErrorDetail}
use npt.Shared.Metrics.{ConnectionMetrics, fresh_connection, ThroughputSample, LatencySample}
use npt.Shared.Report.{TestReport, generate}
use npt.Shared.Report.Ranks.{RanksInRange}
use npt.Shared.Report.Generated.{IsSummary, AreBands, AreErrors, generate-IsReport}

abbrev detail : ℕ → ErrorDetail
detail timestamp = record {
  error_type = io_error;
  message = [];
  timestamp = timestamp;
  connection_id = 1;
  context = none;
}

abbrev connections : List ConnectionMetrics
connections =
    record (fresh_connection 0 1 tcp none) { end_time = some 9; latencies = 3000000 ∷ 1000000 ∷ [] }
    ∷ record (fresh_connection 2 2 quic none) {
      errors = 2;
      error_details = detail 4 ∷ record (detail 7) { error_type = other } ∷ [];
    }
    ∷ []

abbrev sample : ThroughputSample
sample = record {
  timestamp = 1;
  tcp_upload_bps = 10;
  tcp_download_bps = 20;
  udp_upload_bps = 0;
  udp_download_bps = 0;
  quic_upload_bps = 5;
  quic_download_bps = 5;
}

abbrev latency_sample : LatencySample ℕ
latency_sample = record { timestamp = 1; tcp_latency_ms = 2; udp_latency_ms = 0 }

-- Of whole numbers the rank is that of the least value, or of the greatest for 100 percent.
rank-le : (q n : ℕ) → q ≤ 100 → q / 100 * (suc n - 1) ≤ n
rank-le q n h = scaled (q / 100) (suc n - 1) (omega arith) (omega arith)
  where
    scaled : (d m : ℕ) → d ≤ 1 → m ≤ n → d * m ≤ n
    scaled zero m h k = omega arith
    scaled (suc zero) m h k = omega arith
    scaled (suc (suc d)) m h k = absurd (omega arith)

whole_ranks : RanksInRange whole_numbers
whole_ranks = record {
  number = λ n. refl;
  floor_in = λ q n h k. rank-le q n h;
  ceil_in = λ q n h k. rank-le q n h;
}

generate-IsReport_example :
    (r : TestReport ℕ) × (generate whole_numbers 1 2
        (λ k. 0)
        connections
        (sample ∷ [])
        (latency_sample ∷ [])
        []
        false
      ≡ some r)
    × IsSummary connections r.summary
    × AreBands (sample ∷ []) r.throughput
    × AreErrors connections r.errors
generate-IsReport_example =
    generate-IsReport whole_numbers 1 2 (λ k. 0) connections (sample ∷ []) (latency_sample ∷ []) []
      false whole_ranks refl refl (omega arith) (omega arith)
      (omega arith, omega arith, omega arith, omega arith) (omega arith)
