-- ===== src/Shared/Metrics/Activity.antt =====
-- shared/src/metrics.rs: the counts of the active connections.
use npt.Prelude.{
  ℕ, ◌+◌, ◌≡◌, refl, ap₂, ◌∙◌, List, [], ◌∷◌, Option, none, some, Bool, true, false, ◌&&◌, is_none,
  arith, Bool-cases, inl, inr, if◌then◌else◌,
}
use npt.Prelude.Table.{
  Table, has_key, lookup, modify, insert, sum_values, sum_values-modify, sum_values-modify_same,
  sum_values-insert, lookup-insert_self, lookup-modify_self,
}
use npt.Shared.Protocol.{ConnectionType, UserActivity}
use npt.Shared.Metrics.{
  ConnectionMetrics, MetricsCollector, fresh_connection, same_type, start_connection,
  start_connection_with_activity, end_connection, record_bytes_sent, record_bytes_received,
  record_packet_sent, record_packet_received, record_error, record_error_with_detail,
  record_latency, get_active_connections,
}
use npt.Shared.Metrics.Connections.{
  Event, sent, received, packet_sent, packet_received, failed, failed_with, took, note_event,
  count-values,
}

-- A connection counts for a type if it is of the type and has not ended.
abbrev pub counts : ConnectionType → ConnectionMetrics → ℕ
counts k c = if same_type k c.connection_type && is_none c.end_time then 1 else 0

-- The connection is in the map, of the type, and has not ended.
abbrev pub IsOpen : ℕ → ConnectionType → Table ConnectionMetrics → Type 0
IsOpen id t m =
    (c : ConnectionMetrics) × (lookup id m ≡ some c) × (c.connection_type ≡ t) × (c.end_time ≡ none)

abbrev Keeps : (k t : ConnectionType) (id : ℕ) (m m' : Table ConnectionMetrics) → Type 0
Keeps k t id m m' = IsOpen id t m' × (sum_values (counts k) m' ≡ sum_values (counts k) m)

-- A change of a connection that leaves its type and its end alone.
modify-Keeps :
    (k t : ConnectionType) (id : ℕ) (f : ConnectionMetrics → ConnectionMetrics)
    (m : Table ConnectionMetrics)
    → ((c : ConnectionMetrics) → (f c).connection_type ≡ c.connection_type)
    → ((c : ConnectionMetrics) → (f c).end_time ≡ c.end_time)
    → IsOpen id t m
    → Keeps k t id m (modify id f m)
modify-Keeps k t id f m same_kind same_end (c, e, a, b) = (
  (f c, lookup-modify_self id f m e, same_kind c ∙ a, same_end c ∙ b),
  sum_values-modify_same (counts k) id f m
      (λ c. ap₂ (λ u e. if same_type k u && is_none e then 1 else 0) (same_kind c) (same_end c)),
)

open_test : (b : Bool) → ◌≡◌ {A = ℕ} (if b && true then 1 else 0) (if b then 1 else 0)
open_test true = refl
open_test false = refl

ended_test : (b : Bool) → ◌≡◌ {A = ℕ} (if b && false then 1 else 0) 0
ended_test true = refl
ended_test false = refl

pub counts_open :
    (k : ConnectionType) {t : ConnectionType} (c : ConnectionMetrics)
    → c.connection_type ≡ t
    → c.end_time ≡ none
    → counts k c ≡ (if same_type k t then 1 else 0)
counts_open k {t} c a b =
    ap₂ (λ u e. if same_type k u && is_none e then 1 else 0) a b ∙ open_test (same_type k t)

pub counts_ended :
    (k : ConnectionType) (later : ℕ) (c : ConnectionMetrics)
    → counts k (record c { end_time = some later }) ≡ 0
counts_ended k later c = ended_test (same_type k c.connection_type)

module _ {F : Type 0} where
  pub get_active-sum :
      (k : ConnectionType) (m : MetricsCollector F)
      → get_active_connections k m ≡ sum_values (counts k) m.connections
  unfolding get_active_connections
  get_active-sum k m =
      count-values (λ c. same_type k c.connection_type && is_none c.end_time) m.connections

  abbrev pub note_all : ℕ → List Event → MetricsCollector F → MetricsCollector F
  note_all id [] m = m
  note_all id (e ∷ es) m = note_all id es (note_event id e m)

  -- What is recorded of a connection leaves it open, and all counts as they are.
  note-Keeps :
      (id : ℕ) (e : Event) (k t : ConnectionType) (m : MetricsCollector F)
      → IsOpen id t m.connections
      → Keeps k t id m.connections (note_event id e m).connections
  unfolding record_bytes_sent record_bytes_received record_packet_sent record_packet_received
      record_error record_error_with_detail record_latency
  note-Keeps id (sent n) k t m o = modify-Keeps k t id _ m.connections (λ c. refl) (λ c. refl) o
  note-Keeps id (received n) k t m o = modify-Keeps k t id _ m.connections (λ c. refl) (λ c. refl) o
  note-Keeps id packet_sent k t m o = modify-Keeps k t id _ m.connections (λ c. refl) (λ c. refl) o
  note-Keeps id packet_received k t m o =
      modify-Keeps k t id _ m.connections (λ c. refl) (λ c. refl) o
  note-Keeps id failed k t m o = modify-Keeps k t id _ m.connections (λ c. refl) (λ c. refl) o
  note-Keeps id (failed_with now u message context) k t m o =
      elim (Bool-cases (has_key id m.connections)) [
        | inl present ↦ rw present (modify-Keeps k t id _ m.connections (λ c. refl) (λ c. refl) o)
        | inr absent ↦ rw absent (o, refl)
      ]
  note-Keeps id (took n) k t m o = modify-Keeps k t id _ m.connections (λ c. refl) (λ c. refl) o

  pub note_all-Keeps :
      (id : ℕ) (es : List Event) (k t : ConnectionType) (m : MetricsCollector F)
      → IsOpen id t m.connections
      → Keeps k t id m.connections (note_all id es m).connections
  note_all-Keeps id [] k t m o = (o, refl)
  note_all-Keeps id (e ∷ es) k t m o =
      let (o', same) = note-Keeps id e k t m o in
      let (o'', same') = note_all-Keeps id es k t (note_event id e m) o' in (o'', same' ∙ same)

  -- The counts while a connection is open that was inserted under a new identifier, and behind its end.
  opened-Counts :
      (k t : ConnectionType) (now later place id : ℕ) (activity : Option UserActivity)
      (es : List Event) (m : MetricsCollector F)
      → has_key id m.connections ≡ false
      → let during = note_all id es (record m {
        connections = insert place id (fresh_connection now id t activity) m.connections;
      }) in
        (get_active_connections k during
          ≡ get_active_connections k m + (if same_type k t then 1 else 0))
        × (get_active_connections k (end_connection later id during) ≡ get_active_connections k m)
  unfolding end_connection
  opened-Counts k t now later place id activity es m h =
      let new_one : ConnectionMetrics = fresh_connection now id t activity in
      let started : MetricsCollector F = record m {
        connections = insert place id new_one m.connections;
      } in
      let during : MetricsCollector F = note_all id es started in
      let ((c, e, a, b), same) =
        note_all-Keeps id es k t started
          (new_one, lookup-insert_self place id new_one m.connections h, refl, refl) in
      let more = sum_values-insert (counts k) place id new_one m.connections h in
      let less =
        sum_values-modify (counts k) id (λ c. record c { end_time = some later }) during.connections
          e in
      (
        omega (
          arith,
          get_active-sum k during,
          get_active-sum k m,
          same,
          more,
          counts_open k new_one refl refl,
        ),
        omega (
          arith,
          get_active-sum k (end_connection later id during),
          get_active-sum k m,
          same,
          more,
          less,
          counts_open k new_one refl refl,
          counts_open k c a b,
          counts_ended k later c,
        ),
      )

  -- A connection that is started with a new identifier adds one to the count of its own type and nothing
  -- to the others, whatever is then recorded of it; and once it is ended, every count is as it was
  -- before it started.
  pub active_lifecycle :
      (k t : ConnectionType) (now later place id : ℕ) (es : List Event) (m : MetricsCollector F)
      → has_key id m.connections ≡ false
      → let during = note_all id es (start_connection now place id t m) in
        (get_active_connections k during
          ≡ get_active_connections k m + (if same_type k t then 1 else 0))
        × (get_active_connections k (end_connection later id during) ≡ get_active_connections k m)
  unfolding start_connection
  active_lifecycle k t now later place id es m h = opened-Counts k t now later place id none es m h

  pub active_lifecycle_with :
      (k t : ConnectionType) (now later place id : ℕ) (activity : UserActivity) (es : List Event)
      (m : MetricsCollector F)
      → has_key id m.connections ≡ false
      → get_active_connections k (
          end_connection later id
            (note_all id es (start_connection_with_activity now place id t activity m)))
        ≡ get_active_connections k m
  unfolding start_connection_with_activity
  active_lifecycle_with k t now later place id activity es m h =
      (opened-Counts k t now later place id (some activity) es m h).1

  -- As long as it is not ended, it counts for its type.
  pub active_started_with :
      (k t : ConnectionType) (now place id : ℕ) (activity : UserActivity) (es : List Event)
      (m : MetricsCollector F)
      → has_key id m.connections ≡ false
      → get_active_connections k
          (note_all id es (start_connection_with_activity now place id t activity m))
        ≡ get_active_connections k m + (if same_type k t then 1 else 0)
  unfolding start_connection_with_activity
  active_started_with k t now place id activity es m h =
      (opened-Counts k t now now place id (some activity) es m h).0
