-- ===== src/Client/TcpClient/Chunks.antt =====
-- client/src/tcp_client.rs and server/src/tcp_server.rs: one chunk of a file, sent and received.
use npt.Prelude.{
  ℕ, suc, ◌+◌, ◌-◌, ◌≤◌, ◌<◌, ◌≡◌, refl, ◌∙◌, List, ◌++◌, length, length-replicate, replicate, Bool,
  true, false, ◌||◌, ltb, leb, ◌==◌, arith, if◌then◌else◌,
}
use npt.Prelude.Result.{ok}
use npt.Prelude.Words.{add64}
use npt.Shared.Protocol.{Message, file_download_chunk, new_message, with_sequence}
use npt.Shared.Metrics.{record_bytes_received, record_packet_received}
use npt.Shared.Metrics.Connections.{took}
use npt.Wire.{Codec, framed}
use npt.Wire.Session.{Session, World, Program, go_on, return, tell, send, receive, make}
use npt.Wire.RoundTrip.{Carries, send_message-Carries, receive_message-Carries}
use npt.Server.TcpServer.{send_chunk_streaming}
use npt.Client.TcpClient.{chunks_loop}

-- The chunk that the server makes at its question `i`.
abbrev pub chunk_of : World → (session_id i sequence n : ℕ) → Message
chunk_of w session_id i sequence n =
    with_sequence sequence
      (new_message (w.new_uuid i) (w.now i) file_download_chunk (replicate n 0) session_id)

pub payload-chunk_of :
    (w : World) (session_id i sequence n : ℕ)
    → length ((chunk_of w session_id i sequence n).payload) ≡ n
unfolding new_message with_sequence
payload-chunk_of w session_id i sequence n = length-replicate n 0

module _ {F : Type 0} (c : Codec) (w : World) where
  -- A chunk that is sent puts its bytes on the connection.
  pub send_chunk-writes :
      (size session_id sequence id : ℕ) (bytes : List ℕ) (s : Session F)
      → Carries c (chunk_of w session_id s.asked sequence size) bytes
      → 1 ≤ s.link.room
      → (s' : Session F) × (send_chunk_streaming c w size session_id sequence id s ≡ (ok tt, s'))
        × (s'.link.written ≡ s.link.written ++ framed bytes)
        × (s'.link.room ≡ s.link.room - 1)
  unfolding send_chunk_streaming send make
  send_chunk-writes size session_id sequence id bytes s k h =
      rw (send_message-Carries c (chunk_of w session_id s.asked sequence size) bytes s.link k h)
        (_, refl, refl, refl)

module _ {G : Type 0} where
  -- The latency is noted at most; either way the loop goes on on the same connection.
  after_latency :
      {B : Type 0} (id elapsed : ℕ) (b : Bool) (s : Session G) (next : Program G B)
      → (s' : Session G) × (go_on ((if b then tell id (took elapsed) else return tt) s) (λ _. next)
          ≡ next s')
        × (s'.link.incoming ≡ s.link.incoming)
  after_latency id elapsed true s next = (_, refl, refl)
  after_latency id elapsed false s next = (_, refl, refl)

  abbrev pub stops_or : (done : Bool) → Program G (Unit {0}) → Program G (Unit {0})
  stops_or done following = elim done [ true ↦ return tt | false ↦ following ]

  unless_stopped :
      (done stopped : Bool) (following : Program G (Unit {0})) (s : Session G)
      → stopped ≡ false
      → stops_or (done || stopped) following s ≡ stops_or done following s
  unless_stopped true stopped following s e = refl
  unless_stopped false stopped following s e = rw e refl

module _ {G : Type 0} (c : Codec) (w : World) where
  -- The bytes of a chunk are received, and the loop goes on behind it if more of the file is missing.
  pub chunk_received :
      (fuel file_size id bytes_received chunk_count : ℕ) (m : Message) (bytes rest : List ℕ)
      (s : Session G)
      → ((i : ℕ) → w.stopped i ≡ false)
      → Carries c m bytes
      → s.link.incoming ≡ framed bytes ++ rest
      → bytes_received < file_size
      → let total = add64 bytes_received (length m.payload) in
        (s' : Session G) × (chunks_loop c w (suc fuel) file_size id bytes_received chunk_count s
          ≡ stops_or
              (leb file_size total)
              (chunks_loop c w fuel file_size id total (chunk_count + 1))
              s')
        × (s'.link.incoming ≡ rest)
  unfolding chunks_loop receive
  chunk_received fuel file_size id bytes_received chunk_count m bytes rest s going k e h =
      let more : ltb bytes_received file_size ≡ true = ground arith in
      rw (more, chunks_loop)
        (rw (receive_message-Carries c m bytes rest s.link k e, chunks_loop)
          (let total = add64 bytes_received (length m.payload) in
            let following = chunks_loop c w fuel file_size id total (chunk_count + 1) in
            let (s', same, left) =
              after_latency id (w.elapsed s.asked) (chunk_count == 0)
                (record {
                  link = record s.link { incoming = rest };
                  metrics =
                      record_bytes_received id (length bytes) (record_packet_received id s.metrics);
                  asked = s.asked + 1;
                })
                (stops_or (leb file_size total || w.stopped s.asked) following) in
            (
              s',
              same
                  ∙ unless_stopped (leb file_size total) (w.stopped s.asked) following s'
                      (going s.asked),
              left,
            )))

  -- With the whole file received, the loop ends and leaves the connection alone.
  pub whole_received :
      (fuel file_size id chunk_count : ℕ) (s : Session G)
      → chunks_loop c w (suc fuel) file_size id file_size chunk_count s ≡ (ok tt, s)
  unfolding chunks_loop
  whole_received fuel file_size id chunk_count s =
      let no_more : ltb file_size file_size ≡ false = ground arith in rw (no_more, chunks_loop) refl
