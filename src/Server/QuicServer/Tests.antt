-- ===== src/Server/QuicServer/Tests.antt =====
-- server/src/quic_server.rs: two connections from one address, and one of them closes.
use npt.Prelude.{ℕ, ◌+◌, ◌≡◌, refl, List, [], ◌∷◌, length}
use npt.Shared.Protocol.{quic}
use npt.Shared.Metrics.{
  new, get_active_connections, start_connection, end_connection, record_packet_received,
  record_bytes_received,
}
use npt.Server.QuicServer.{QuicState, open_session, note_request, close_session}
use npt.Server.QuicServer.Ownership.{
  QuicEvent, opened, request, closed, happen_all, replaced, active_quic-happen_all,
}

abbrev events : List QuicEvent
events = opened 1 1 0 0 40 7 ∷ request 2 7 50 ∷ opened 3 3 0 0 41 7 ∷ closed 4 7 ∷ []

abbrev started : QuicState ℕ
started = record { sessions = []; metrics = new ℕ 0 }

active_quic-happen_all_example :
    get_active_connections quic (happen_all events started).metrics
    ≡ get_active_connections quic (new ℕ 0)
      + replaced events started
      + length (happen_all events started).sessions
unfolding new open_session start_connection note_request record_packet_received
    record_bytes_received
active_quic-happen_all_example =
    active_quic-happen_all events (new ℕ 0) (refl, (tt, (refl, (tt, tt))))

-- One connection of the two stays active for good.
one_left : get_active_connections quic (happen_all events started).metrics ≡ 1
unfolding new open_session start_connection note_request record_packet_received
    record_bytes_received close_session end_connection get_active_connections
one_left = refl
