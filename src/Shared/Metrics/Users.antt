-- ===== src/Shared/Metrics/Users.antt =====
-- shared/src/metrics.rs: the count of the active users, which no connection touches.
use npt.Prelude.{
  ℕ, ◌+◌, ◌<◌, ◌^◌, ◌≡◌, refl, ◌∙◌, List, [], ◌∷◌, lt→ltb, arith, Bool-cases, inl, inr,
}
use npt.Prelude.Table.{has_key}
use npt.Shared.Protocol.{ConnectionType, UserActivity}
use npt.Shared.Metrics.{
  MetricsCollector, start_connection_with_activity, end_connection, record_bytes_sent,
  record_bytes_received, record_packet_sent, record_packet_received, record_error,
  record_error_with_detail, record_latency, increment_active_users, decrement_active_users,
}
use npt.Shared.Metrics.Connections.{
  Event, sent, received, packet_sent, packet_received, failed, failed_with, took, note_event,
}
use npt.Shared.Metrics.Activity.{note_all}

module _ {F : Type 0} where
  note_event-active_users :
      (id : ℕ) (e : Event) (m : MetricsCollector F)
      → (note_event id e m).active_users ≡ m.active_users
  unfolding record_bytes_sent record_bytes_received record_packet_sent record_packet_received
      record_error record_error_with_detail record_latency
  note_event-active_users id (sent n) m = refl
  note_event-active_users id (received n) m = refl
  note_event-active_users id packet_sent m = refl
  note_event-active_users id packet_received m = refl
  note_event-active_users id failed m = refl
  note_event-active_users id (failed_with now t message context) m =
      elim (Bool-cases (has_key id m.connections)) [ inl e ↦ rw e refl | inr e ↦ rw e refl ]
  note_event-active_users id (took n) m = refl

  pub note_all-active_users :
      (id : ℕ) (es : List Event) (m : MetricsCollector F)
      → (note_all id es m).active_users ≡ m.active_users
  note_all-active_users id [] m = refl
  note_all-active_users id (e ∷ es) m =
      note_all-active_users id es (note_event id e m) ∙ note_event-active_users id e m

  pub start_connection-active_users :
      (now place id : ℕ) (t : ConnectionType) (activity : UserActivity) (m : MetricsCollector F)
      → (start_connection_with_activity now place id t activity m).active_users ≡ m.active_users
  unfolding start_connection_with_activity
  start_connection-active_users now place id t activity m = refl

  pub end_connection-active_users :
      (now id : ℕ) (m : MetricsCollector F)
      → (end_connection now id m).active_users ≡ m.active_users
  unfolding end_connection
  end_connection-active_users now id m = refl

  -- A whole connection
  pub connection-active_users :
      (start end place id : ℕ) (t : ConnectionType) (activity : UserActivity) (es : List Event)
      (m : MetricsCollector F)
      → (end_connection end id (
          note_all id es (start_connection_with_activity start place id t activity m))).active_users
        ≡ m.active_users
  connection-active_users start end place id t activity es m =
      end_connection-active_users end id _
      ∙ note_all-active_users id es _
      ∙ start_connection-active_users start place id t activity m

  -- A user that is counted in and out, whatever lies between, if that keeps the count.
  pub users_in_and_out :
      (m m' : MetricsCollector F)
      → m.active_users + 1 < 2 ^ 32
      → m'.active_users ≡ (increment_active_users m).active_users
      → (decrement_active_users m').active_users ≡ m.active_users
  unfolding increment_active_users decrement_active_users
  users_in_and_out m m' h e =
      rw (lt→ltb 0 m'.active_users (omega (arith, e, h))) (omega (arith, e, h))
