-- ===== src/Shared/Metrics/Connections.antt =====
-- shared/src/metrics.rs: sequences of the operations on connections, and what each does to the map.
use npt.Prelude.{ℕ, ◌+◌, ◌≡◌, refl, List, [], ◌∷◌, Option, Bool, false, count, if◌then◌else◌, ap}
use npt.Prelude.Table.{Table, has_key, sum_values}
use npt.Shared.Protocol.{ConnectionType, UserActivity, ErrorType}
use npt.Shared.Metrics.{
  ConnectionMetrics, MetricsCollector, values, start_connection, start_connection_with_activity,
  end_connection, record_bytes_sent, record_bytes_received, record_packet_sent,
  record_packet_received, record_error, record_error_with_detail, record_latency,
}

-- What is recorded of a connection between its start and its end.
pub data Event : Type 0 where
  sent : ℕ → Event
  received : ℕ → Event
  packet_sent packet_received failed : Event
  failed_with : (now : ℕ) → ErrorType → List ℕ → Option (List ℕ) → Event
  took : ℕ → Event

pub data Op : Type 0 where
  start : (now place id : ℕ) → ConnectionType → Op
  start_with : (now place id : ℕ) → ConnectionType → UserActivity → Op
  note : ℕ → Event → Op
  finish : (now id : ℕ) → Op

module _ {F : Type 0} where
  abbrev pub note_event : ℕ → Event → MetricsCollector F → MetricsCollector F
  note_event id (sent n) m = record_bytes_sent id n m
  note_event id (received n) m = record_bytes_received id n m
  note_event id packet_sent m = record_packet_sent id m
  note_event id packet_received m = record_packet_received id m
  note_event id failed m = record_error id m
  note_event id (failed_with now t message context) m =
      record_error_with_detail now id t message context m
  note_event id (took n) m = record_latency id n m

  abbrev pub apply : Op → MetricsCollector F → MetricsCollector F
  apply (start now place id t) m = start_connection now place id t m
  apply (start_with now place id t a) m = start_connection_with_activity now place id t a m
  apply (note id e) m = note_event id e m
  apply (finish now id) m = end_connection now id m

  abbrev pub run : List Op → MetricsCollector F → MetricsCollector F
  run [] m = m
  run (o ∷ os) m = run os (apply o m)

  -- A connection is started with an identifier that is not in the map: the program draws a new UUID.
  abbrev pub IsFresh : Op → MetricsCollector F → Type 0
  IsFresh (start now place id t) m = has_key id m.connections ≡ false
  IsFresh (start_with now place id t a) m = has_key id m.connections ≡ false
  IsFresh (note id e) m = Unit {0}
  IsFresh (finish now id) m = Unit {0}

  abbrev pub AllFresh : List Op → MetricsCollector F → Type 0
  AllFresh [] m = Unit {0}
  AllFresh (o ∷ os) m = IsFresh o m × AllFresh os (apply o m)

-- A count over the connections is a sum over the map.
pub count-values :
    (p : ConnectionMetrics → Bool) (m : Table ConnectionMetrics)
    → count p (values m) ≡ sum_values (λ c. if p c then 1 else 0) m
count-values p [] = refl
count-values p ((k, c) ∷ m) = ap (λ t. (if p c then 1 else 0) + t) (count-values p m)
