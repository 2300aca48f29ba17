-- ===== src/Server/QuicServer.antt =====
-- server/src/quic_server.rs: the sessions of the QUIC server, one for each remote address, and the
-- answers to requests. The connections and streams themselves are the QUIC library's. A text is its
-- bytes in UTF-8.
pub mod Sessions
pub mod Ownership
mod Tests
use npt.Prelude.{
  ℕ, zero, suc, ◌+◌, ◌-◌, List, [], ◌∷◌, ◌++◌, Option, none, some, length, take, drop, replicate,
  min, Bool, true, false, ◌&&◌, ◌||◌, ltb, leb, ◌==◌, if◌then◌else◌,
}
use npt.Prelude.Result.{Result, ok, err}
use npt.Prelude.Text.{codes, contains, starts_with}
use npt.Prelude.Words.{add64}
use npt.Prelude.Table.{Table, lookup, modify, insert, remove}
use npt.Shared.Protocol.{quic}
use npt.Shared.Metrics.{MetricsCollector, start_connection, end_connection}
use npt.Shared.Metrics.Connections.{sent, received, packet_sent, packet_received, took, note_event}

pub record QuicSession : Type 0 where
  pub id : ℕ
  pub start_time : ℕ
  pub last_activity : ℕ
  pub requests_handled : ℕ
  pub bytes_sent : ℕ
  pub bytes_received : ℕ

-- The map of sessions by remote address, and the metrics.
pub record QuicState (F : Type 0) : Type 0 where
  pub sessions : Table QuicSession
  pub metrics : MetricsCollector F

abbrev pub crlf_twice : List ℕ
crlf_twice = 13 ∷ 10 ∷ 13 ∷ 10 ∷ []

-- `data.ends_with(word)`
abbrev pub ends_with : List ℕ → List ℕ → Bool
ends_with word bytes =
    leb (length word) (length bytes) && starts_with word (drop (length bytes - length word) bytes)

-- The loop of `handle_stream` that reads the request; the list has what the reads give one after the
-- other, until one says that the stream has ended, fails, or takes more than ten seconds.
abbrev pub read_request : (request_data : List ℕ) → List (List ℕ) → List ℕ
read_request request_data [] = request_data
read_request request_data (buffer ∷ buffers) =
    let more = request_data ++ buffer in
    let rest = read_request more buffers in
    if length buffer == 0 then request_data else if ends_with crlf_twice more then more else rest

-- What stands before the first line feed, if there is one.
abbrev pub before_feed : List ℕ → Option (List ℕ)
before_feed [] = none
before_feed (c ∷ cs) =
    let rest : Option (List ℕ) = elim (before_feed cs) [ none ↦ none | some l ↦ some (c ∷ l) ] in
    if c == 10 then some [] else rest

abbrev pub without_return : List ℕ → List ℕ
without_return [] = []
without_return (c ∷ cs) =
    let rest = c ∷ without_return cs in if (c == 13) && (length cs == 0) then [] else rest

abbrev pub first_of_lines : Option (List ℕ) → List ℕ → Option (List ℕ)
first_of_lines (some line) text = some (without_return line)
first_of_lines none [] = none
first_of_lines none (c ∷ cs) = some (c ∷ cs)

-- `text.lines().next()`
abbrev pub first_line : List ℕ → Option (List ℕ)
first_line text = first_of_lines (before_feed text) text

abbrev pub path_of : Option (List ℕ) → List ℕ
path_of none = codes "/default"
path_of (some line) = line

abbrev pub response_size : (path : List ℕ) → ℕ
response_size path =
    if contains (codes ".html") path
    then 1024
    else if contains (codes ".css") path
    then 512
    else if contains (codes ".js") path
    then 512
    else if contains (codes ".png") path || contains (codes ".jpg") path
    then 2048
    else if contains (codes ".json") path
    then 256
    else 512

-- The bytes `rand(i)` for the indices from `i` on
abbrev pub random_bytes : (rand : ℕ → ℕ) → ℕ → (count : ℕ) → List ℕ
random_bytes rand i zero = []
random_bytes rand i (suc count) = rand i ∷ random_bytes rand (i + 1) count

-- The header over the zeros, as much of it as fits.
abbrev pub with_header : (header : List ℕ) → ℕ → List ℕ
with_header header size =
    take (min (length header) size) header ++ replicate (size - min (length header) size) 0

unfoldable pub generate_response : (rand : ℕ → ℕ) → (request : List ℕ) → List ℕ
generate_response rand request =
    let path = path_of (first_line request) in
    let size = response_size path in
    let response = with_header (codes "RESP:" ++ (path ++ 10 ∷ [])) size in
    if ltb 16 (length response)
    then take (length response - 16) response ++ random_bytes rand (length response - 16) 16
    else response

pub data StreamError : Type 0 where
  empty_request write_failed : StreamError

-- The session of a connection that has just come
abbrev pub new_session : (id start : ℕ) → QuicSession
new_session id start = record {
  id = id;
  start_time = start;
  last_activity = start;
  requests_handled = 0;
  bytes_sent = 0;
  bytes_received = 0;
}

abbrev pub requested : (now n : ℕ) → QuicSession → QuicSession
requested now n s = record s {
  last_activity = now;
  requests_handled = add64 s.requests_handled 1;
  bytes_received = add64 s.bytes_received n;
}

abbrev pub responded : (n : ℕ) → QuicSession → QuicSession
responded n s = record s { bytes_sent = add64 s.bytes_sent n }

-- The sessions that `cleanup_inactive_sessions` collects under the lock for reading; 120 seconds
abbrev pub inactive : (now : ℕ) → Table QuicSession → List ℕ
inactive now [] = []
inactive now ((addr, s) ∷ sessions) =
    let rest = inactive now sessions in
    if ltb 120000000000 (now - s.last_activity) then addr ∷ rest else rest

module _ {F : Type 0} where
  -- The start of `handle_connection` with a remote address; the two maps put new keys at these places.
  unfoldable pub open_session :
      (start now place_session place id remote_addr : ℕ) → QuicState F → QuicState F
  open_session start now place_session place id remote_addr st = record {
    sessions = insert place_session remote_addr (new_session id start) st.sessions;
    metrics = start_connection now place id quic st.metrics;
  }

  abbrev pub request_noted :
      (now remote_addr n : ℕ) → Option QuicSession → QuicState F → QuicState F
  request_noted now remote_addr n none st = st
  request_noted now remote_addr n (some s) st = record {
    sessions = modify remote_addr (requested now n) st.sessions;
    metrics = note_event s.id (received n) (note_event s.id packet_received st.metrics);
  }

  -- `handle_stream` behind a request of `n` bytes, under the lock of the sessions
  unfoldable pub note_request : (now remote_addr n : ℕ) → QuicState F → QuicState F
  note_request now remote_addr n st =
      request_noted now remote_addr n (lookup remote_addr st.sessions) st

  abbrev pub response_noted :
      (remote_addr n latency : ℕ) → Option QuicSession → QuicState F → QuicState F
  response_noted remote_addr n latency none st = st
  response_noted remote_addr n latency (some s) st = record {
    sessions = modify remote_addr (responded n) st.sessions;
    metrics =
        note_event s.id (took latency)
          (note_event s.id (sent n) (note_event s.id packet_sent st.metrics));
  }

  -- `handle_stream` behind a response of `n` bytes, with the latency drawn at random
  unfoldable pub note_response : (remote_addr n latency : ℕ) → QuicState F → QuicState F
  note_response remote_addr n latency st =
      response_noted remote_addr n latency (lookup remote_addr st.sessions) st

  abbrev pub answered :
      (writes : Bool) (remote_addr latency : ℕ)
      → (response : List ℕ) → QuicState F
      → Result StreamError (List ℕ) × QuicState F
  answered false remote_addr latency response st = (err write_failed, st)
  answered true remote_addr latency response st =
      (ok response, note_response remote_addr (length response) latency st)

  -- `handle_stream` on the reads of its stream: the response that it sends, if it does. `lossy` is
  -- `String::from_utf8_lossy`.
  unfoldable pub handle_stream :
      (lossy : List ℕ → List ℕ) (rand : ℕ → ℕ) (now latency remote_addr : ℕ)
      → (reads : List (List ℕ)) (writes : Bool) → QuicState F
      → Result StreamError (List ℕ) × QuicState F
  unfolding generate_response note_request note_response
  handle_stream lossy rand now latency remote_addr reads writes st =
      let request_data = read_request [] reads in
      let noted = note_request now remote_addr (length request_data) st in
      if length request_data == 0
      then (err empty_request, st)
      else answered writes remote_addr latency (generate_response rand (lossy request_data)) noted

  abbrev pub ended : (now remote_addr : ℕ) → Option QuicSession → QuicState F → QuicState F
  ended now remote_addr none st = st
  ended now remote_addr (some s) st = record {
    sessions = remove remote_addr st.sessions;
    metrics = end_connection now s.id st.metrics;
  }

  -- The end of `handle_connection`, and of one session that is cleaned up
  unfoldable pub close_session : (now remote_addr : ℕ) → QuicState F → QuicState F
  close_session now remote_addr st = ended now remote_addr (lookup remote_addr st.sessions) st

  -- What it removes then, under the lock for writing; other steps may lie between.
  unfoldable pub remove_all : (now : ℕ) → List ℕ → QuicState F → QuicState F
  unfolding close_session
  remove_all now [] st = st
  remove_all now (addr ∷ to_remove) st = remove_all now to_remove (close_session now addr st)
