-- ===== src/Server/TcpServer.antt =====
-- server/src/tcp_server.rs: the handlers of the messages of a connection, and the loop that serves it.
pub mod Lifecycle
mod Tests
use npt.Prelude.{
  ℕ, zero, suc, ◌+◌, ◌-◌, List, [], length, take, replicate, min, Bool, true, false, ltb, leb,
  if◌then◌else◌,
}
use npt.Prelude.Result.{Result, ok, err}
use npt.Prelude.Bytes.{from_le_bytes}
use npt.Prelude.Text.{codes, contains, to_lowercase}
use npt.Prelude.Words.{add64}
use npt.Shared.Protocol.{
  Message, MessageType, tls_handshake, http_request, http_response, file_download_request,
  file_download_chunk, file_upload_request, file_upload_chunk, game_packet, connection_close,
  http_get_request, http_get_response, resource_request, resource_response, with_sequence, tcp,
}
use npt.Shared.Metrics.{start_connection, end_connection}
use npt.Shared.Metrics.Connections.{
  sent, received, packet_sent, packet_received, failed, took, note_event,
}
use npt.Wire.{Codec, WireError, out_of_fuel, Texts, text_of}
use npt.Wire.Session.{
  Session, World, Program, go_on, ◌>>=◌, ◌>>◌, return, fail, ask, tell, local_addr, send, receive,
  make,
}

abbrev pub is_upload_chunk : MessageType → Bool
is_upload_chunk file_upload_chunk = true
is_upload_chunk _ = false

-- The size that a request names in its first eight bytes, or 1 MiB.
abbrev pub requested_size : List ℕ → ℕ
requested_size payload = if leb 8 (length payload) then from_le_bytes (take 8 payload) else 1048576

-- `e.to_string().to_lowercase().contains("eof")`
abbrev pub tells_eof : Texts → WireError → Bool
tells_eof t e = contains (codes "eof") (to_lowercase (text_of t e))

module _ {F : Type 0} (c : Codec) (w : World) where
  -- A message is sent, and noted with its packet and `n` bytes.
  abbrev pub send_noted : (id n : ℕ) → Message → Program F (Unit {0})
  send_noted id n m = do _ ← send c m; tell id packet_sent; tell id (sent n)

  unfoldable pub send_large_response_streaming :
      (response_size session_id sequence id : ℕ) → Program F (Unit {0})
  send_large_response_streaming response_size session_id sequence id = do
    m ← make w http_response (replicate response_size 0) session_id
    send_noted id response_size (with_sequence sequence m)

  unfoldable pub send_chunk_streaming :
      (total_size session_id sequence id : ℕ) → Program F (Unit {0})
  send_chunk_streaming total_size session_id sequence id = do
    m ← make w file_download_chunk (replicate total_size 0) session_id
    send_noted id total_size (with_sequence sequence m)

  -- The loop of `handle_file_download`.
  unfoldable pub download_loop :
      (fuel file_size session_id id bytes_sent sequence : ℕ) → Program F (Unit {0})
  download_loop zero file_size session_id id bytes_sent sequence = fail out_of_fuel
  download_loop (suc fuel) file_size session_id id bytes_sent sequence =
      elim (ltb bytes_sent file_size) [
        | true ↦ do
          i ← ask
          let size = min (w.gen_range i 4096 65536) (file_size - bytes_sent)
          send_chunk_streaming size session_id sequence id
          download_loop fuel file_size session_id id (bytes_sent + size) (sequence + 1)
        | false ↦ return tt
      ]

  -- `handle_file_download`; a turn of the loop sends a byte at least.
  unfoldable pub handle_file_download : Message → (file_size id : ℕ) → Program F (Unit {0})
  unfolding download_loop
  handle_file_download message file_size id =
      download_loop (suc file_size) file_size message.session_id id 0 0

  -- An acknowledgement is sent, and noted.
  abbrev pub acknowledge : (text : List ℕ) (session_id sequence id : ℕ) → Program F (Unit {0})
  acknowledge text session_id sequence id = do
    m ← make w http_response text session_id
    send_noted id (length text) (with_sequence sequence m)

  -- The loop of `handle_file_upload`, each turn of which receives a message.
  pub upload_loop : (fuel expected_size id bytes_received : ℕ) → Program F (Unit {0})
  upload_loop zero expected_size id bytes_received = fail out_of_fuel
  upload_loop (suc fuel) expected_size id bytes_received = elim (ltb bytes_received expected_size) [
    | false ↦ return tt
    | true ↦ do
      (chunk, _) ← receive c
      elim (is_upload_chunk chunk.message_type) [
        | false ↦ return tt
        | true ↦ do
          tell id packet_received
          tell id (received (length chunk.payload))
          acknowledge (codes "CHUNK_ACK") chunk.session_id chunk.sequence id
          upload_loop fuel expected_size id (add64 bytes_received (length chunk.payload))
      ]
  ]

  unfoldable pub handle_file_upload : (fuel expected_size id : ℕ) → Program F (Unit {0})
  unfolding upload_loop
  handle_file_upload fuel expected_size id = upload_loop fuel expected_size id 0

  abbrev pub handle : MessageType → (fuel : ℕ) → Message → (id : ℕ) → Program F Bool
  handle tls_handshake fuel message id = do
    i ← ask
    let size = w.gen_range i 2000 4000
    m ← make w http_response (replicate size 0) message.session_id
    send_noted id size m
    return true
  handle http_request fuel message id = do
    i ← ask
    send_large_response_streaming (w.gen_range i 4096 32768) message.session_id message.sequence id
    return true
  handle file_download_request fuel message id = do
    handle_file_download message (requested_size message.payload) id
    return true
  handle file_upload_request fuel message id = do
    acknowledge (codes "ACK") message.session_id 0 id
    handle_file_upload fuel (requested_size message.payload) id
    return true
  handle file_upload_chunk fuel message id = do
    acknowledge (codes "CHUNK_ACK") message.session_id message.sequence id
    return true
  handle connection_close fuel message id = return false
  handle _ fuel message id = return true

  -- `handle_message`; the fuel is for the messages of an upload.
  unfoldable pub handle_message : (fuel : ℕ) → Message → (id : ℕ) → Program F Bool
  unfolding handle_file_download handle_file_upload send_large_response_streaming
  handle_message fuel message id = handle message.message_type fuel message id

  -- What the loop of `handle_connection` does when receiving or handling a message has failed.
  abbrev pub after_receive_error : Texts → (id : ℕ) → WireError → Program F (Unit {0})
  after_receive_error t id out_of_fuel = fail out_of_fuel
  after_receive_error t id e = if tells_eof t e then return tt else tell id failed

  abbrev pub after_handle_error : (id : ℕ) → WireError → Program F (Unit {0})
  after_handle_error id out_of_fuel = fail out_of_fuel
  after_handle_error id e = tell id failed

  -- What it does behind a message that is handled: it goes on, or ends on a close.
  abbrev pub after_handled :
      (id : ℕ)
      → Program F (Unit {0})
      → Result WireError Bool × Session F
      → Result WireError (Unit {0}) × Session F
  after_handled id next (err e, s) = after_handle_error id e s
  after_handled id next (ok continues, s) =
      go_on (go_on (ask s) (λ i. tell id (took (w.elapsed i))))
        (λ _. if continues then next else return tt)

  abbrev pub after_received :
      Texts
      → (id : ℕ) → (Message → Program F (Unit {0}))
      → Result WireError (Message × ℕ) × Session F
      → Result WireError (Unit {0}) × Session F
  after_received t id next (err e, s) = after_receive_error t id e s
  after_received t id next (ok (message, _), s) =
      (do tell id packet_received; tell id (received (length message.payload)); next message) s

  -- The loop of `handle_connection`.
  pub serve_loop : Texts → (fuel id : ℕ) → Program F (Unit {0})
  serve_loop t zero id s = (err out_of_fuel, s)
  serve_loop t (suc fuel) id s =
      after_received t id
        (λ message s'. after_handled id (serve_loop t fuel id) (handle_message fuel message id s'))
        (receive c s)

  -- `handle_connection` once it has its local address.
  abbrev pub serve_connection : Texts → (now place id later : ℕ) → Unit {0} → Program F (Unit {0})
  serve_connection t now place id later _ s =
      let (r, s') =
        serve_loop t (suc (length s.link.incoming)) id
          (record s { metrics = start_connection now place id tcp s.metrics }) in
      (r, record s' { metrics = end_connection later id s'.metrics })

  -- `handle_connection` at the time `now`, with the new UUID `id`; `place` is where the map of the metrics
  -- puts it, and `later` is the time at the end.
  unfoldable pub handle_connection : Texts → (now place id later : ℕ) → Program F (Unit {0})
  unfolding serve_loop
  handle_connection t now place id later s =
      go_on (local_addr s) (serve_connection t now place id later)
