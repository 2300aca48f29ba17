-- ===== src/Server/QuicServer/Ownership.antt =====
-- server/src/quic_server.rs: the QUIC connections that the metrics count as active, after any steps.
use npt.Prelude.{
  ℕ, ◌+◌, ◌≡◌, ◌≢◌, refl, ap, sym, ◌∙◌, List, [], ◌∷◌, none, some, Option-cases, length, false,
  ◌==◌, ==→eq, ==_refl, zero, suc, arith, Bool-cases, inl, inr, if◌then◌else◌,
}
use npt.Prelude.Table.{
  Table, lookup, has_key, modify, insert, insert_at, remove, lookup-insert, lookup-absent,
  lookup-modify, sum_values-modify,
}
use npt.Shared.Protocol.{quic}
use npt.Shared.Metrics.{
  ConnectionMetrics, MetricsCollector, fresh_connection, start_connection, end_connection,
  get_active_connections, record_bytes_sent, record_bytes_received, record_packet_sent,
  record_packet_received, record_latency, record_error, record_error_with_detail,
}
use npt.Shared.Metrics.Connections.{
  Event, sent, received, packet_sent, packet_received, failed, failed_with, took, note_event,
}
use npt.Shared.Metrics.Activity.{
  IsOpen, counts, counts_open, counts_ended, get_active-sum, note_all, active_lifecycle,
  note_all-Keeps,
}
use npt.Server.QuicServer.{
  QuicSession, QuicState, new_session, open_session, requested, responded, note_request,
  note_response, close_session, remove_all,
}
use npt.Server.QuicServer.Sessions.{
  Own, Own-kept, Own-others, Own-NoSession, Own-insert_at, Own-modify, Own-replace, Own-remove,
}

IsOpen-insert :
    (place id j : ℕ) (c : ConnectionMetrics) (m : Table ConnectionMetrics)
    → has_key id m ≡ false
    → IsOpen j quic m
    → IsOpen j quic (insert place id c m)
IsOpen-insert place id j c m h (d, found, a, b) = elim (Bool-cases (id == j)) [
  | inl e ↦
      let same : id ≡ j = ==→eq id j e in
      let gone : none ≡ some d = sym (lookup-absent id m h) ∙ ap (λ i. lookup i m) same ∙ found in
      cc gone
  | inr e ↦
      (d, lookup-insert place id j c m ∙ ap (λ x. if x then some c else lookup j m) e ∙ found, a, b)
]

IsOpen-new :
    (place id : ℕ) (c : ConnectionMetrics) (m : Table ConnectionMetrics)
    → c.connection_type ≡ quic
    → c.end_time ≡ none
    → IsOpen id quic (insert place id c m)
IsOpen-new place id c m a b = (
  c,
  lookup-insert place id id c m ∙ ap (λ x. if x then some c else lookup id m) (==_refl id),
  a,
  b,
)

IsOpen-modify :
    (id j : ℕ) (f : ConnectionMetrics → ConnectionMetrics) (m : Table ConnectionMetrics)
    → ((c : ConnectionMetrics) → (f c).connection_type ≡ c.connection_type)
    → ((c : ConnectionMetrics) → (f c).end_time ≡ c.end_time)
    → IsOpen j quic m
    → IsOpen j quic (modify id f m)
IsOpen-modify id j f m k l (c, found, a, b) = elim (Bool-cases (id == j)) [
  | inl e ↦ (f c, lookup-modify id j f m ∙ rw (e, found) refl, k c ∙ a, l c ∙ b)
  | inr e ↦ (c, lookup-modify id j f m ∙ rw (e, found) refl, a, b)
]

IsOpen-modify_other :
    (id j : ℕ) (f : ConnectionMetrics → ConnectionMetrics) (m : Table ConnectionMetrics)
    → j ≢ id
    → IsOpen j quic m
    → IsOpen j quic (modify id f m)
IsOpen-modify_other id j f m d (c, found, a, b) = elim (Bool-cases (id == j)) [
  | inl e ↦ absurd (d (sym (==→eq id j e)))
  | inr e ↦ (c, lookup-modify id j f m ∙ rw (e, found) refl, a, b)
]

length-modify :
    (k : ℕ) (f : QuicSession → QuicSession) (m : Table QuicSession)
    → length (modify k f m) ≡ length m
length-modify k f [] = refl
length-modify k f ((j, v) ∷ m) = ground (arith, length-modify k f m)

length-insert_at :
    (place k : ℕ) (v : QuicSession) (m : Table QuicSession)
    → length (insert_at place (k, v) m) ≡ suc (length m)
length-insert_at zero k v m = refl
length-insert_at (suc place) k v [] = refl
length-insert_at (suc place) k v (x ∷ m) = ap suc (length-insert_at place k v m)

-- The steps of the server's tasks. A clean-up removes what it collected before, in one step.
pub data QuicEvent : Type 0 where
  opened : (start now place_session place id remote_addr : ℕ) → QuicEvent
  request : (now remote_addr n : ℕ) → QuicEvent
  response : (remote_addr n latency : ℕ) → QuicEvent
  closed : (now remote_addr : ℕ) → QuicEvent
  cleaned : (now : ℕ) → (to_remove : List ℕ) → QuicEvent

module _ {F : Type 0} where
  abbrev pub happen : QuicEvent → QuicState F → QuicState F
  happen (opened start now place_session place id addr) st =
      open_session start now place_session place id addr st
  happen (request now addr n) st = note_request now addr n st
  happen (response addr n latency) st = note_response addr n latency st
  happen (closed now addr) st = close_session now addr st
  happen (cleaned now to_remove) st = remove_all now to_remove st

  abbrev pub happen_all : List QuicEvent → QuicState F → QuicState F
  happen_all [] st = st
  happen_all (e ∷ es) st = happen_all es (happen e st)

  -- Each connection gets an identifier that is new to the collector.
  abbrev IsNew : QuicEvent → QuicState F → Type 0
  IsNew (opened start now place_session place id addr) st =
      has_key id st.metrics.connections ≡ false
  IsNew (request now addr n) st = Unit {0}
  IsNew (response addr n latency) st = Unit {0}
  IsNew (closed now addr) st = Unit {0}
  IsNew (cleaned now to_remove) st = Unit {0}

  abbrev pub AllNew : List QuicEvent → QuicState F → Type 0
  AllNew [] st = Unit {0}
  AllNew (e ∷ es) st = IsNew e st × AllNew es (happen e st)

  -- How often a connection came from an address that had a session.
  abbrev again : QuicEvent → QuicState F → ℕ
  again (opened start now place_session place id addr) st =
      if has_key addr st.sessions then 1 else 0
  again (request now addr n) st = 0
  again (response addr n latency) st = 0
  again (closed now addr) st = 0
  again (cleaned now to_remove) st = 0

  abbrev pub replaced : List QuicEvent → QuicState F → ℕ
  replaced [] st = 0
  replaced (e ∷ es) st = again e st + replaced es (happen e st)

  -- The sessions own their connections, and `n` more of the active QUIC connections have no session.
  record Accounts (n : ℕ) (st : QuicState F) : Type 0 where
    own : Own st.sessions st.metrics.connections
    counted : get_active_connections quic st.metrics ≡ n + length st.sessions

  open_session-Accounts :
      (n start now place_session place id addr : ℕ) (st : QuicState F)
      → has_key id st.metrics.connections ≡ false
      → Accounts n st
      → Accounts
          ((if has_key addr st.sessions then 1 else 0) + n)
          (open_session start now place_session place id addr st)
  unfolding open_session start_connection
  open_session-Accounts n start now place_session place id addr st h a =
      let c = fresh_connection now id quic none in
      let m = st.metrics.connections in
      let m' = insert place id c m in
      let own' = Own-kept st.sessions m m' (λ j o. IsOpen-insert place id j c m h o) a.own in
      let free = Own-NoSession id st.sessions m h a.own in
      let mine = IsOpen-new place id c m refl refl in
      let one = (active_lifecycle quic quic now now place id [] st.metrics h).0 in
      elim (Bool-cases (has_key addr st.sessions)) [
        | inl e ↦ rw e (record {
          own = Own-replace addr (new_session id start) st.sessions m' mine free own';
          counted =
              omega
                (arith, one, a.counted, length-modify addr (λ _. new_session id start) st.sessions);
        })
        | inr e ↦ rw e (record {
          own =
              Own-insert_at place_session addr (new_session id start) st.sessions m' mine free own';
          counted = omega (
            arith,
            one,
            a.counted,
            length-insert_at place_session addr (new_session id start) st.sessions,
          );
        })
      ]

  -- What is recorded of one connection leaves every open connection open.
  note_event-IsOpen :
      (id j : ℕ) (e : Event) (m : MetricsCollector F)
      → IsOpen j quic m.connections
      → IsOpen j quic (note_event id e m).connections
  unfolding record_bytes_sent record_bytes_received record_packet_sent record_packet_received
      record_error record_error_with_detail record_latency
  note_event-IsOpen id j (sent n) m o = IsOpen-modify id j _ m.connections (λ c. refl) (λ c. refl) o
  note_event-IsOpen id j (received n) m o =
      IsOpen-modify id j _ m.connections (λ c. refl) (λ c. refl) o
  note_event-IsOpen id j packet_sent m o =
      IsOpen-modify id j _ m.connections (λ c. refl) (λ c. refl) o
  note_event-IsOpen id j packet_received m o =
      IsOpen-modify id j _ m.connections (λ c. refl) (λ c. refl) o
  note_event-IsOpen id j failed m o = IsOpen-modify id j _ m.connections (λ c. refl) (λ c. refl) o
  note_event-IsOpen id j (failed_with now u message context) m o =
      elim (Bool-cases (has_key id m.connections)) [
        | inl present ↦ rw present (IsOpen-modify id j _ m.connections (λ c. refl) (λ c. refl) o)
        | inr absent ↦ rw absent o
      ]
  note_event-IsOpen id j (took n) m o = IsOpen-modify id j _ m.connections (λ c. refl) (λ c. refl) o

  note_all-IsOpen :
      (id j : ℕ) (es : List Event) (m : MetricsCollector F)
      → IsOpen j quic m.connections
      → IsOpen j quic (note_all id es m).connections
  note_all-IsOpen id j [] m o = o
  note_all-IsOpen id j (e ∷ es) m o =
      note_all-IsOpen id j es (note_event id e m) (note_event-IsOpen id j e m o)

  -- A session's counters change and events of its connection are recorded.
  noted-Accounts :
      (n addr : ℕ) (f : QuicSession → QuicSession) (es : List Event) (st : QuicState F)
      {s : QuicSession}
      → lookup addr st.sessions ≡ some s
      → ((t : QuicSession) → (f t).id ≡ t.id)
      → Accounts n st
      → Accounts n
          (record { sessions = modify addr f st.sessions; metrics = note_all s.id es st.metrics })
  noted-Accounts n addr f es st {s} h k a =
      let mine = (Own-remove addr st.sessions st.metrics.connections h a.own).0 in
      let m' = note_all s.id es st.metrics in
      let same = (note_all-Keeps s.id es quic quic st.metrics mine).1 in
      record {
        own = Own-modify addr f st.sessions m'.connections k (
            Own-kept st.sessions st.metrics.connections m'.connections
              (λ j o. note_all-IsOpen s.id j es st.metrics o) a.own);
        counted = omega (
          arith,
          a.counted,
          same,
          get_active-sum quic m',
          get_active-sum quic st.metrics,
          length-modify addr f st.sessions,
        );
      }

  note_request-Accounts :
      (n now addr size : ℕ) (st : QuicState F)
      → Accounts n st
      → Accounts n (note_request now addr size st)
  unfolding note_request
  note_request-Accounts n now addr size st a = elim (Option-cases (lookup addr st.sessions)) [
    | inl e ↦ rw e a
    | inr (s, e) ↦ rw e (
        noted-Accounts n addr (requested now size) (packet_received ∷ received size ∷ []) st e
          (λ t. refl) a)
  ]

  note_response-Accounts :
      (n addr size latency : ℕ) (st : QuicState F)
      → Accounts n st
      → Accounts n (note_response addr size latency st)
  unfolding note_response
  note_response-Accounts n addr size latency st a = elim (Option-cases (lookup addr st.sessions)) [
    | inl e ↦ rw e a
    | inr (s, e) ↦ rw e (
        noted-Accounts n addr (responded size) (packet_sent ∷ sent size ∷ took latency ∷ []) st e
          (λ t. refl) a)
  ]

  -- A session that ends takes its own connection off the count.
  close_session-Accounts :
      (n now addr : ℕ) (st : QuicState F) → Accounts n st → Accounts n (close_session now addr st)
  unfolding close_session end_connection
  close_session-Accounts n now addr st a = elim (Option-cases (lookup addr st.sessions)) [
    | inl e ↦ rw e a
    | inr (s, e) ↦
        let m = st.metrics.connections in
        let finish = λ (c : ConnectionMetrics). record c { end_time = some now } in
        let ((c, found, u, v), free, rest, less) = Own-remove addr st.sessions m e a.own in
        let fewer = sum_values-modify (counts quic) s.id finish m found in
        rw e (record {
          own =
              Own-others s.id (remove addr st.sessions) m (modify s.id finish m)
                (λ j d o. IsOpen-modify_other s.id j finish m d o) free rest;
          counted = omega (
            arith,
            a.counted,
            less,
            fewer,
            counts_open quic c u v,
            counts_ended quic now c,
            get_active-sum quic st.metrics,
            get_active-sum quic (end_connection now s.id st.metrics),
          );
        })
  ]

  remove_all-Accounts :
      (n now : ℕ) (addrs : List ℕ) (st : QuicState F)
      → Accounts n st
      → Accounts n (remove_all now addrs st)
  unfolding remove_all
  remove_all-Accounts n now [] st a = a
  remove_all-Accounts n now (addr ∷ addrs) st a =
      remove_all-Accounts n now addrs (close_session now addr st)
        (close_session-Accounts n now addr st a)

  Accounts-as_before : (n : ℕ) (st : QuicState F) → Accounts n st → Accounts (0 + n) st
  Accounts-as_before n st a = record { own = a.own; counted = omega (arith, a.counted) }

  happen-Accounts :
      (n : ℕ) (e : QuicEvent) (st : QuicState F)
      → IsNew e st
      → Accounts n st
      → Accounts (again e st + n) (happen e st)
  happen-Accounts n (opened start now place_session place id addr) st h a =
      open_session-Accounts n start now place_session place id addr st h a
  happen-Accounts n (request now addr size) st h a =
      Accounts-as_before n _ (note_request-Accounts n now addr size st a)
  happen-Accounts n (response addr size latency) st h a =
      Accounts-as_before n _ (note_response-Accounts n addr size latency st a)
  happen-Accounts n (closed now addr) st h a =
      Accounts-as_before n _ (close_session-Accounts n now addr st a)
  happen-Accounts n (cleaned now addrs) st h a =
      Accounts-as_before n _ (remove_all-Accounts n now addrs st a)

  happen_all-counted :
      (n : ℕ) (es : List QuicEvent) (st : QuicState F)
      → AllNew es st
      → Accounts n st
      → get_active_connections quic (happen_all es st).metrics
        ≡ n + replaced es st + length (happen_all es st).sessions
  happen_all-counted n [] st h a = omega (arith, a.counted)
  happen_all-counted n (e ∷ es) st h a = omega (
    arith,
    happen_all-counted (again e st + n) es (happen e st) h.1 (happen-Accounts n e st h.0 a),
  )

  -- After any steps of a QUIC server that starts with no session, in any order, the metrics count
  -- the active QUIC connections that there were before, those of the sessions, one each, and one more for
  -- each connection that came from an address that had a session: the session of that address is replaced,
  -- and nothing ever ends its connection. The identifiers of new connections are new to
  -- the collector.
  pub active_quic-happen_all :
      (es : List QuicEvent) (m : MetricsCollector F)
      → AllNew es (record { sessions = []; metrics = m })
      → let start : QuicState F = record { sessions = []; metrics = m } in
        get_active_connections quic (happen_all es start).metrics
        ≡ get_active_connections quic m + replaced es start + length (happen_all es start).sessions
  active_quic-happen_all es m h =
      happen_all-counted (get_active_connections quic m) es (record { sessions = []; metrics = m })
        h (record { own = tt; counted = omega arith })
