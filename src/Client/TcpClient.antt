-- ===== src/Client/TcpClient.antt =====
-- client/src/tcp_client.rs: the scripted sessions of a user over TCP. Each connects with failover, talks to
-- the server on the connection, and tells the pool at its end; what goes wrong is recorded in the
-- metrics. Sleeps between requests change nothing and are left out.
pub mod Programs
pub mod Accounting
pub mod Chunks
pub mod Download
mod Tests
use npt.Prelude.{
  ℕ, zero, suc, ◌+◌, ◌-◌, List, [], ◌∷◌, ◌++◌, Option, none, some, length, replicate, min, Bool,
  true, false, ◌||◌, ltb, leb, ◌==◌, take, if◌then◌else◌,
}
use npt.Prelude.Result.{Result, ok, err}
use npt.Prelude.Bytes.{le_bytes}
use npt.Prelude.Text.{codes, contains, decimal, to_lowercase}
use npt.Prelude.Words.{add64}
use npt.Shared.Protocol.{
  Message, MessageType, tls_handshake, http_request, file_download_request, file_upload_request,
  file_upload_chunk, connection_close, with_sequence, ErrorType, connection_failed, network_timeout,
  message_too_large, unexpected_disconnection, other, UserActivity, web_browsing, file_download,
  file_upload, quic_web_browsing, tcp,
}
use npt.Shared.Metrics.{
  MetricsCollector, start_connection_with_activity, record_error_with_detail, end_connection,
}
use npt.Shared.Metrics.Connections.{sent, received, packet_sent, packet_received, took}
use npt.Client.ServerPool.{ServerPool, mark_connection_end}
use npt.Client.Failover.{
  Attempt, ConnectError, no_healthy_servers, all_attempts_failed, connect_with_failover,
}
use npt.Wire.{Codec, Link, WireError, out_of_fuel, Texts, text_of}
use npt.Wire.Session.{
  Session, World, Program, ◌>>=◌, ◌>>◌, return, fail, ask, tell, draw, local_addr, send, receive,
  make,
}

module _ {F : Type 0} (c : Codec) (w : World) where
  -- A message is sent, and noted with the bytes that it takes.
  abbrev pub send_counted : (id : ℕ) → Message → Program F (Unit {0})
  send_counted id m = do n ← send c m; tell id packet_sent; tell id (sent n)

  -- A response is received, and noted with its latency and its bytes.
  abbrev pub receive_counted : (id : ℕ) → Program F (Unit {0})
  receive_counted id = do
    (_, n) ← receive c
    i ← ask
    tell id (took (w.elapsed i))
    tell id packet_received
    tell id (received n)

  abbrev pub say_goodbye : (session_id : ℕ) → Program F (Unit {0})
  say_goodbye session_id = do m ← make w connection_close [] session_id; _ ← send c m; return tt

  -- The requests of a page, from the number `sequence` on, with `left` still to make.
  pub requests_loop : (left id session_id sequence : ℕ) → Program F (Unit {0})
  requests_loop zero id session_id sequence = return tt
  requests_loop (suc left) id session_id sequence = do
    i ← ask
    m ← make w http_request (replicate (w.gen_range i 1024 4096) 0) session_id
    send_counted id (with_sequence sequence m)
    receive_counted id
    j ← ask
    elim (w.stopped j) [
      | true ↦ return tt
      | false ↦ requests_loop left id session_id (sequence + 1)
    ]

  -- `simulate_single_page` on its connection
  unfoldable pub single_page :
      (id session_id : ℕ) (requests_per_page : ℕ × ℕ) → Program F (Unit {0})
  unfolding requests_loop
  single_page id session_id (low, high) = do
    local_addr
    i ← ask
    m ← make w tls_handshake (replicate (w.gen_range i 400 2000) 0) session_id
    send_counted id m
    receive_counted id
    num_requests ← draw w low high
    requests_loop num_requests id session_id 0
    say_goodbye session_id

  -- The loop of `perform_file_download`, which receives a chunk in each turn.
  pub chunks_loop : (fuel file_size id bytes_received chunk_count : ℕ) → Program F (Unit {0})
  chunks_loop zero file_size id bytes_received chunk_count = fail out_of_fuel
  chunks_loop (suc fuel) file_size id bytes_received chunk_count =
      elim (ltb bytes_received file_size) [
        | false ↦ return tt
        | true ↦ do
          (chunk, n) ← receive c
          let total = add64 bytes_received (length chunk.payload)
          tell id packet_received
          tell id (received n)
          i ← ask
          (if chunk_count == 0 then tell id (took (w.elapsed i)) else return tt)
          elim (leb file_size total || w.stopped i) [
            | true ↦ return tt
            | false ↦ chunks_loop fuel file_size id total (chunk_count + 1)
          ]
      ]

  -- `perform_file_download` on its connection
  unfoldable pub download_on : (fuel id session_id file_size : ℕ) → Program F (Unit {0})
  unfolding chunks_loop
  download_on fuel id session_id file_size = do
    local_addr
    m ← make w file_download_request (le_bytes 8 file_size) session_id
    send_counted id m
    chunks_loop fuel file_size id 0 0
    say_goodbye session_id

  unfoldable pub send_chunk : (total_size session_id sequence id : ℕ) → Program F (Unit {0})
  send_chunk total_size session_id sequence id = do
    m ← make w file_upload_chunk (replicate total_size 0) session_id
    send_counted id (with_sequence sequence m)

  -- The loop of `perform_file_upload`, which waits for an acknowledgement in each turn.
  pub upload_chunks :
      (fuel file_size : ℕ) (chunk_size : ℕ × ℕ) (session_id id bytes_sent sequence : ℕ)
      → Program F (Unit {0})
  upload_chunks zero file_size chunk_size session_id id bytes_sent sequence = fail out_of_fuel
  upload_chunks (suc fuel) file_size chunk_size session_id id bytes_sent sequence =
      elim (ltb bytes_sent file_size) [
        | false ↦ return tt
        | true ↦ do
          drawn ← draw w chunk_size.0 chunk_size.1
          let size = min drawn (file_size - bytes_sent)
          send_chunk size session_id sequence id
          receive_counted id
          j ← ask
          elim (w.stopped j) [
            | true ↦ return tt
            | false ↦
                upload_chunks fuel file_size chunk_size session_id id (bytes_sent + size)
                  (sequence + 1)
          ]
      ]

  -- `perform_file_upload` on its connection; the request is noted with the eight bytes of its payload.
  unfoldable pub upload_on :
      (fuel id session_id file_size : ℕ) (chunk_size : ℕ × ℕ) → Program F (Unit {0})
  unfolding upload_chunks send_chunk
  upload_on fuel id session_id file_size chunk_size = do
    local_addr
    m ← make w file_upload_request (le_bytes 8 file_size) session_id
    _ ← send c m
    tell id packet_sent
    tell id (sent (length m.payload))
    receive_counted id
    upload_chunks fuel file_size chunk_size session_id id 0 0
    say_goodbye session_id

-- What a client's task shares with the others, the pool and the metrics; and of the task itself, how often
-- it has asked the world, and whether it has panicked.
pub record ClientState (F : Type 0) : Type 0 where
  pub pool : ServerPool
  pub metrics : MetricsCollector F
  pub asked : ℕ
  pub panicked : Bool

pub data ClientError : Type 0 where
  connecting : ConnectError → ClientError
  on_wire : WireError → ClientError

-- The texts of the errors; `last_error` is the system's text of the last refusal.
abbrev pub client_text : Texts → (last_error : List ℕ) → ClientError → List ℕ
client_text t last_error (connecting no_healthy_servers) = codes "No healthy servers available"
client_text t last_error (connecting all_attempts_failed) =
    codes "All connection attempts failed: " ++ last_error
client_text t last_error (on_wire e) = text_of t e

-- The kind of an error by its text, for a page and for a file.
unfoldable pub page_error_type : List ℕ → ErrorType
page_error_type text =
    let s = to_lowercase text in
    if contains (codes "connection refused") s
    then connection_failed
    else if contains (codes "timeout") s
    then network_timeout
    else if contains (codes "broken pipe") s || contains (codes "reset") s
    then unexpected_disconnection
    else other

unfoldable pub file_error_type : List ℕ → ErrorType
file_error_type text =
    let s = to_lowercase text in
    if contains (codes "connection refused") s
    then connection_failed
    else if contains (codes "timeout") s
    then network_timeout
    else if contains (codes "broken pipe") s || contains (codes "reset") s
    then unexpected_disconnection
    else if contains (codes "too large") s
    then message_too_large
    else ErrorType.io_error

-- The kind of a failure of a page and of a file, and the contexts that are recorded with them.
abbrev pub page_kind : Texts → (last_error : List ℕ) → ClientError → ErrorType
unfolding page_error_type
page_kind texts last_error e = page_error_type (client_text texts last_error e)

abbrev pub file_kind : Texts → (last_error : List ℕ) → ClientError → ErrorType
unfolding file_error_type
file_kind texts last_error e = file_error_type (client_text texts last_error e)

abbrev pub page_context : (page : ℕ) → List ℕ
page_context page = codes "Web browsing - page " ++ decimal (page + 1)

abbrev pub download_context : (file_size : ℕ) → List ℕ
download_context file_size = codes "File download - size: " ++ (decimal file_size ++ codes " bytes")

abbrev pub upload_context : (file_size : ℕ) → List ℕ
upload_context file_size = codes "File upload - size: " ++ (decimal file_size ++ codes " bytes")

-- What the network does with one session: the attempts to connect, and the stream to each address.
pub record Network : Type 0 where
  pub attempts : ℕ → Attempt
  pub dial : ℕ → Link

-- The times and identifiers of one session: the new UUIDs of the connection and the session, the place
-- where the map of the metrics puts the connection, and the time at its start, at an error and its end.
pub record Ticket : Type 0 where
  pub id : ℕ
  pub session_id : ℕ
  pub place : ℕ
  pub start : ℕ
  pub failed_at : ℕ
  pub end : ℕ

module _ {F : Type 0} where
  abbrev pub session_over : ServerPool → Session F → ClientState F
  session_over p s = record { pool = p; metrics = s.metrics; asked = s.asked; panicked = false }

  -- The end of a session on the connection to the server `address`: only one that succeeds is told.
  abbrev pub after_session :
      (address : ℕ)
      → ServerPool
      → Result WireError (Unit {0}) × Session F
      → Result ClientError (Unit {0}) × ClientState F
  after_session address p (err e, s) = (err (on_wire e), session_over p s)
  after_session address p (ok _, s) = (ok tt, session_over (mark_connection_end address p) s)

  abbrev pub once_connected :
      (ℕ → Link)
      → Program F (Unit {0})
      → ClientState F
      → Result ConnectError ℕ × ServerPool × ℕ
      → Result ClientError (Unit {0}) × ClientState F
  once_connected dial body st (err e, p, _) = (err (connecting e), record st { pool = p })
  once_connected dial body st (ok address, p, _) =
      after_session address p
        (body (record { link = dial address; metrics = st.metrics; asked = st.asked }))

  -- `simulate_single_page`, `perform_file_download` and `perform_file_upload` around their bodies.
  unfoldable pub perform :
      Network → Program F (Unit {0}) → ClientState F → Result ClientError (Unit {0}) × ClientState F
  perform n body st = once_connected n.dial body st (connect_with_failover n.attempts st.pool)

  abbrev pub on_metrics : (MetricsCollector F → MetricsCollector F) → ClientState F → ClientState F
  on_metrics f st = record st { metrics = f st.metrics }

  -- An error is recorded with its kind and its context.
  abbrev pub record_failure :
      Ticket
      → (kind : ClientError → ErrorType) → (text : ClientError → List ℕ) → (context : List ℕ)
      → Result ClientError (Unit {0}) × ClientState F
      → ClientState F
  record_failure t kind text context (ok _, st) = st
  record_failure t kind text context (err e, st) =
      on_metrics (record_error_with_detail t.failed_at t.id (kind e) (text e) (some context)) st

  -- The end of a session in the metrics. A panic in it leaves out both the failure and the end.
  abbrev pub conclude :
      Ticket
      → (kind : ClientError → ErrorType) → (text : ClientError → List ℕ) → (context : List ℕ)
      → Result ClientError (Unit {0}) × ClientState F
      → ClientState F
  conclude t kind text context (err (on_wire WireError.panicked), st) = record st {
    panicked = true;
  }
  conclude t kind text context r =
      on_metrics (end_connection t.end t.id) (record_failure t kind text context r)

  -- A session in the metrics, from its start to its end.
  unfoldable pub simulate :
      Network
      → Ticket
      → UserActivity
      → (kind : ClientError → ErrorType) → (text : ClientError → List ℕ) → (context : List ℕ)
      → Program F (Unit {0})
      → ClientState F
      → ClientState F
  unfolding perform
  simulate n t activity kind text context body st = conclude t kind text context (
      perform n body
        (on_metrics (start_connection_with_activity t.start t.place t.id tcp activity) st))

module _ {F : Type 0} (c : Codec) (w : World) (texts : Texts) (last_error : List ℕ) where
  -- One turn of `simulate_web_browsing`, for the page with the number `page`.
  unfoldable pub browse_page :
      Network
      → Ticket
      → (pages_to_visit page : ℕ) (requests_per_page : ℕ × ℕ) → ClientState F
      → ClientState F
  unfolding simulate single_page page_error_type
  browse_page n t pages_to_visit page requests_per_page =
      simulate n t (web_browsing pages_to_visit requests_per_page) (page_kind texts last_error)
        (client_text texts last_error) (page_context page)
        (single_page c w t.id t.session_id requests_per_page)

  -- `simulate_web_browsing`, with what the network does and the identifiers of each page.
  unfoldable pub browse_pages :
      List (Network × Ticket)
      → (pages_to_visit page : ℕ) (requests_per_page : ℕ × ℕ) → ClientState F
      → ClientState F
  browse_pages [] pages_to_visit page requests_per_page st = st
  browse_pages ((n, t) ∷ rest) pages_to_visit page requests_per_page st =
      let st' = browse_page n t pages_to_visit page requests_per_page st in
      let on = browse_pages rest pages_to_visit (page + 1) requests_per_page st' in
      if st'.panicked then st' else on

  -- `simulate_file_download`; the fuel is for the chunks.
  unfoldable pub simulate_file_download :
      (fuel : ℕ)
      → Network
      → Ticket
      → (file_size : ℕ) (chunk_size : ℕ × ℕ) → ClientState F
      → ClientState F
  unfolding simulate download_on file_error_type
  simulate_file_download fuel n t file_size chunk_size =
      simulate n t (file_download file_size chunk_size) (file_kind texts last_error)
        (client_text texts last_error) (download_context file_size)
        (download_on c w fuel t.id t.session_id file_size)

  unfoldable pub simulate_file_upload :
      (fuel : ℕ)
      → Network
      → Ticket
      → (file_size : ℕ) (chunk_size : ℕ × ℕ) → ClientState F
      → ClientState F
  unfolding simulate upload_on file_error_type
  simulate_file_upload fuel n t file_size chunk_size =
      simulate n t (file_upload file_size chunk_size) (file_kind texts last_error)
        (client_text texts last_error) (upload_context file_size)
        (upload_on c w fuel t.id t.session_id file_size chunk_size)

  -- `simulate_user_activity`: `none` is the error for an activity over QUIC.
  unfoldable pub simulate_user_activity :
      (fuel : ℕ)
      → List (Network × Ticket)
      → Network
      → Ticket
      → UserActivity
      → ClientState F
      → Option (ClientState F)
  unfolding browse_pages simulate_file_download simulate_file_upload
  simulate_user_activity fuel pages n t (web_browsing pages_to_visit requests_per_page) st =
      some (browse_pages (take pages_to_visit pages) pages_to_visit 0 requests_per_page st)
  simulate_user_activity fuel pages n t (file_download file_size chunk_size) st =
      some (simulate_file_download fuel n t file_size chunk_size st)
  simulate_user_activity fuel pages n t (file_upload file_size chunk_size) st =
      some (simulate_file_upload fuel n t file_size chunk_size st)
  simulate_user_activity fuel pages n t (quic_web_browsing _ _ _) st = none
