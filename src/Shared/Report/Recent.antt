-- ===== src/Shared/Report/Recent.antt =====
-- shared/src/report.rs, `calculate_error_stats`: the errors by kind, and the most recent ones.
use npt.Prelude.{ℕ, List, [], ◌∷◌, ◌++◌, take, filter, ltb, if◌then◌else◌}
use npt.Prelude.Words.{add64}
use npt.Prelude.Sums.{sum64}
use npt.Prelude.Float.{Float64}
use npt.Prelude.Table.{Table, lookup, insert}
use npt.Prelude.Text.{codes}
use npt.Shared.Protocol.{
  ErrorType, connection_failed, network_timeout, serialization_error, message_too_large,
  unexpected_disconnection, protocol_error, io_error, other, ErrorDetail,
}
use npt.Shared.Metrics.{ConnectionMetrics, is_tcp, is_udp}
use npt.Shared.Report.Extremes.{unwrap_or}
use npt.Shared.Report.Performance.{errors_each}

pub record ErrorStats (F : Type 0) : Type 0 where
  pub total_errors : ℕ
  pub tcp_errors : ℕ
  pub udp_errors : ℕ
  pub error_rate : F
  pub error_distribution : List (List ℕ × ℕ)
  pub error_types : Table ℕ
  pub error_details : List ErrorDetail
  pub most_recent_errors : List ErrorDetail

-- A number for the name `format!("{:?}", error_type)`, which is the key of the map.
abbrev pub type_name : ErrorType → ℕ
type_name connection_failed = 0
type_name network_timeout = 1
type_name serialization_error = 2
type_name message_too_large = 3
type_name unexpected_disconnection = 4
type_name protocol_error = 5
type_name io_error = 6
type_name other = 7

-- `*error_types.entry(name).or_insert(0) += 1`; a new name goes to the place `place name` of the map.
abbrev pub count_type : (place : ℕ → ℕ) → ErrorDetail → Table ℕ → Table ℕ
count_type place d types =
    let name = type_name d.error_type in
    insert (place name) name (add64 (unwrap_or 0 (lookup name types)) 1) types

abbrev pub count_types : (place : ℕ → ℕ) → List ErrorDetail → Table ℕ → Table ℕ
count_types place [] types = types
count_types place (d ∷ ds) types = count_types place ds (count_type place d types)

abbrev pub all_details : List ConnectionMetrics → List ErrorDetail
all_details [] = []
all_details (c ∷ cs) = c.error_details ++ all_details cs

abbrev pub insert_newest : ErrorDetail → List ErrorDetail → List ErrorDetail
insert_newest e [] = e ∷ []
insert_newest e (d ∷ ds) =
    let rest = insert_newest e ds in if ltb e.timestamp d.timestamp then d ∷ rest else e ∷ d ∷ ds

-- `sort_by(|a, b| b.timestamp.cmp(&a.timestamp))`, which is stable
abbrev pub newest_first : List ErrorDetail → List ErrorDetail
newest_first [] = []
newest_first (e ∷ es) = insert_newest e (newest_first es)

unfoldable pub calculate_error_stats :
    (fl : Float64) (place : ℕ → ℕ) → List ConnectionMetrics → ErrorStats fl.F
calculate_error_stats fl place connections =
    let tcp_errors = sum64 (λ c. c.errors) (filter is_tcp connections) in
    let udp_errors = sum64 (λ c. c.errors) (filter is_udp connections) in
    let details = all_details connections in
    record {
      total_errors = sum64 (λ c. c.errors) connections;
      tcp_errors = tcp_errors;
      udp_errors = udp_errors;
      error_rate = errors_each fl connections;
      error_distribution = (codes "tcp_errors", tcp_errors) ∷ (codes "udp_errors", udp_errors) ∷ [];
      error_types = count_types place details [];
      error_details = details;
      most_recent_errors = take 10 (newest_first details);
    }
