-- ===== src/Client/QuicClient.antt =====
-- client/src/quic_client.rs: a user's session over QUIC. The endpoint, the connection and its streams are
-- the QUIC library's: what they do is an argument. A text is its bytes in UTF-8.
pub mod Leaks
pub mod Exchange
mod Tests
use npt.Prelude.{
  ℕ, zero, suc, ◌+◌, ◌%◌, List, [], ◌∷◌, ◌++◌, Option, none, some, length, take, Bool, true, false,
  ltb, ◌==◌, if◌then◌else◌,
}
use npt.Prelude.Result.{Result, ok, err}
use npt.Prelude.Text.{codes, contains, decimal}
use npt.Prelude.Words.{add32}
use npt.Shared.Protocol.{
  UserActivity, quic_web_browsing, web_browsing, file_download, file_upload, quic, ErrorType,
}
use npt.Shared.Metrics.{
  MetricsCollector, start_connection_with_activity, record_error_with_detail, end_connection,
}
use npt.Shared.Metrics.Connections.{
  sent, received, packet_sent, packet_received, took, failed_with, note_event,
}
use npt.Client.ServerPool.{
  ServerPool, Chance, get_server, mark_connection_start, mark_connection_end,
}

-- What a request meets on its stream: it cannot be opened, or written to, with the library's text; the
-- 30 seconds pass before the request is written, or behind it, while the response is read; or the
-- reads give these buffers one after the other, until one says that the stream has ended or fails.
pub data Reply : Type 0 where
  refused : List ℕ → Reply
  stuck_sending stuck_reading : Reply
  read_all : (elapsed : ℕ) → List (List ℕ) → Reply

pub data QuicError : Type 0 where
  no_healthy_servers connection_timed_out request_timed_out empty_response not_quic : QuicError
  setup_failed connect_failed stream_failed : List ℕ → QuicError
  too_small : (expected got : ℕ) → QuicError
  page_timed_out : QuicError

-- The loop that reads the response.
abbrev pub read_response : (response_data : List ℕ) → List (List ℕ) → List ℕ
read_response response_data [] = response_data
read_response response_data (buffer ∷ buffers) =
    let rest = read_response (response_data ++ buffer) buffers in
    if length buffer == 0 then response_data else rest

abbrev pub expected_min_size : (path : List ℕ) → ℕ
expected_min_size path =
    if contains (codes ".html") path
    then 1024
    else if contains (codes ".css") path
    then 512
    else if contains (codes ".js") path
    then 512
    else if contains (codes ".png") path
    then 2048
    else 256

-- `format!("{}\n{}", path, session_id)`, with the text of the UUID
abbrev pub request_data : (path session_id : List ℕ) → List ℕ
request_data path session_id = path ++ 10 ∷ session_id

module _ {F : Type 0} where
  abbrev pub checked_response :
      (id elapsed : ℕ) (path response : List ℕ)
      → MetricsCollector F
      → Result QuicError (Unit {0}) × MetricsCollector F
  checked_response id elapsed path response m =
      let got = length response in
      let expected = expected_min_size path in
      let noted =
        note_event id (took elapsed)
          (note_event id (received got) (note_event id packet_received m)) in
      if got == 0
      then (err empty_response, m)
      else if ltb got expected
      then (err (too_small expected got), m)
      else (ok tt, noted)

  abbrev request_noted :
      (id : ℕ) (path session_id : List ℕ) → MetricsCollector F → MetricsCollector F
  request_noted id path session_id m =
      note_event id (sent (length (request_data path session_id))) (note_event id packet_sent m)

  -- `request_resource` under its timeout
  unfoldable pub request_resource :
      (id : ℕ) (session_id path : List ℕ)
      → Reply
      → MetricsCollector F
      → Result QuicError (Unit {0}) × MetricsCollector F
  request_resource id session_id path (refused text) m = (err (stream_failed text), m)
  request_resource id session_id path stuck_sending m = (err request_timed_out, m)
  request_resource id session_id path stuck_reading m =
      (err request_timed_out, request_noted id path session_id m)
  request_resource id session_id path (read_all elapsed buffers) m =
      checked_response id elapsed path (read_response [] buffers)
        (request_noted id path session_id m)

-- What a page meets: the reply to its main request, the random numbers and replies of its resources, in
-- the order in which these complete, and whether all of them do within 30 seconds.
pub record PageReplies : Type 0 where
  pub main : Reply
  pub resources : List (ℕ × Reply)
  pub in_time : Bool

abbrev pub resource_path : (resource_num : ℕ) → List ℕ
resource_path n =
    if n % 4 == 0
    then codes "/css/style_" ++ (decimal n ++ codes ".css")
    else if n % 4 == 1
    then codes "/js/script_" ++ (decimal n ++ codes ".js")
    else if n % 4 == 2
    then codes "/images/image_" ++ (decimal n ++ codes ".png")
    else codes "/data/data_" ++ (decimal n ++ codes ".json")

abbrev pub page_path : (page_num : ℕ) → List ℕ
page_path n = codes "/page_" ++ (decimal n ++ codes ".html")

abbrev and_ok : Result QuicError (Unit {0}) → Bool → Bool
and_ok (ok _) rest = rest
and_ok (err _) rest = false

module _ {F : Type 0} where
  -- The requests of the resources: whether all succeed
  abbrev pub request_all :
      (id : ℕ) (session_id : List ℕ)
      → List (ℕ × Reply)
      → MetricsCollector F
      → Bool × MetricsCollector F
  request_all id session_id [] m = (true, m)
  request_all id session_id ((n, reply) ∷ replies) m =
      let (r, m') = request_resource id session_id (resource_path n) reply m in
      let (rest, m'') = request_all id session_id replies m' in (and_ok r rest, m'')

  abbrev pub page_result :
      (num_resources : ℕ) (in_time : Bool)
      → Bool × MetricsCollector F
      → Result QuicError ℕ × MetricsCollector F
  page_result num_resources false (_, m) = (err page_timed_out, m)
  page_result num_resources true (true, m) = (ok (add32 1 num_resources), m)
  page_result num_resources true (false, m) = (ok 1, m)

  abbrev pub after_main :
      (id : ℕ) (session_id : List ℕ) (num_resources : ℕ)
      → PageReplies
      → Result QuicError (Unit {0}) × MetricsCollector F
      → Result QuicError ℕ × MetricsCollector F
  after_main id session_id num_resources page (err e, m) = (err e, m)
  after_main id session_id num_resources page (ok _, m) =
      page_result num_resources page.in_time
        (request_all id session_id (take num_resources page.resources) m)

  -- `browse_page`: the number of requests that it counts as made
  unfoldable pub browse_quic_page :
      (id : ℕ) (session_id : List ℕ) (page_num num_resources : ℕ)
      → PageReplies
      → MetricsCollector F
      → Result QuicError ℕ × MetricsCollector F
  unfolding request_resource
  browse_quic_page id session_id page_num num_resources page m =
      after_main id session_id num_resources page
        (request_resource id session_id (page_path page_num) page.main m)

-- The texts of the errors
abbrev pub quic_text : QuicError → List ℕ
quic_text no_healthy_servers = codes "No healthy servers available for QUIC connection"
quic_text connection_timed_out = codes "Connection timed out"
quic_text request_timed_out = codes "Request timed out"
quic_text empty_response = codes "Empty response received"
quic_text not_quic = codes "QUIC client can only handle QuicWebBrowsing activities"
quic_text (setup_failed text) = text
quic_text (connect_failed text) = codes "Failed to connect to quic server: " ++ text
quic_text (stream_failed text) = text
quic_text (too_small expected got) =
    codes "Response too small: expected at least "
    ++ (decimal expected ++ (codes " bytes, got " ++ decimal got))
quic_text page_timed_out = codes "deadline has elapsed"

-- How connecting ends: before there is an attempt, with the attempt failed or out of time, or connected.
pub data Connecting : Type 0 where
  no_endpoint not_connected : List ℕ → Connecting
  out_of_time connected : Connecting

-- What a session meets: what chooses its server, connecting, and the pages, each with the number of its
-- resources and the time at which an error is recorded.
pub record QuicWorld : Type 0 where
  pub chance : Chance
  pub started_at : ℕ
  pub connecting : Connecting
  pub failed_at : ℕ
  pub address_text : ℕ → List ℕ
  pub num_resources : ℕ → ℕ
  pub page_replies : ℕ → PageReplies
  pub page_failed_at : ℕ → ℕ

-- The new UUIDs of the connection and the session, the place of the connection in the map of the metrics,
-- and the times of its start and end.
pub record QuicTicket : Type 0 where
  pub id : ℕ
  pub session_id : List ℕ
  pub place : ℕ
  pub start : ℕ
  pub end : ℕ

pub record QuicClient (F : Type 0) : Type 0 where
  pub server_pool : ServerPool
  pub metrics : MetricsCollector F

module _ {F : Type 0} where
  abbrev pub page_noted :
      QuicWorld → (id page_num : ℕ) → Result QuicError ℕ × MetricsCollector F → MetricsCollector F
  page_noted w id page_num (ok _, m) = m
  page_noted w id page_num (err e, m) =
      record_error_with_detail (w.page_failed_at page_num) id ErrorType.io_error (quic_text e)
        (some (codes "QuicWebBrowsing - page: " ++ decimal page_num)) m

  -- The loop over the pages, from `page_num` on with `left` to go; an error on a page does not end it.
  pub browse_quic_pages :
      QuicWorld → QuicTicket → (left page_num : ℕ) → MetricsCollector F → MetricsCollector F
  browse_quic_pages w t zero page_num m = m
  browse_quic_pages w t (suc left) page_num m = browse_quic_pages w t left (page_num + 1) (
      page_noted w t.id page_num (
        browse_quic_page t.id t.session_id page_num (w.num_resources page_num)
          (w.page_replies page_num) m))

  -- The session on what connecting gave; `?` and `return` leave it as it stands.
  abbrev pub on_connecting :
      QuicWorld
      → QuicTicket
      → (pages_to_visit server_addr : ℕ) → Connecting
      → QuicClient F
      → Result QuicError (Unit {0}) × QuicClient F
  on_connecting w t pages server_addr (no_endpoint text) st = (err (setup_failed text), st)
  on_connecting w t pages server_addr (not_connected text) st = (
    err (connect_failed text),
    record st {
      metrics =
          record_error_with_detail w.failed_at t.id ErrorType.io_error text
            (some
              (codes "QuicWebBrowsing - QUIC connect to server: " ++ w.address_text server_addr))
            st.metrics;
    },
  )
  on_connecting w t pages server_addr out_of_time st = (
    err connection_timed_out,
    record st {
      metrics =
          record_error_with_detail w.failed_at t.id ErrorType.io_error
            (codes "QUIC Connection timed out")
            (some (
              codes "QuicWebBrowsing - connect to server: "
              ++ (w.address_text server_addr ++ codes " timeout")))
            st.metrics;
    },
  )
  on_connecting w t pages server_addr connected st = (
    ok tt,
    record {
      server_pool = mark_connection_end server_addr st.server_pool;
      metrics = end_connection t.end t.id (browse_quic_pages w t pages 0 st.metrics);
    },
  )

  abbrev pub on_server :
      QuicWorld
      → QuicTicket
      → (pages_to_visit : ℕ) → MetricsCollector F
      → Option ℕ × ServerPool
      → Result QuicError (Unit {0}) × QuicClient F
  on_server w t pages m (none, p) =
      (err no_healthy_servers, record { server_pool = p; metrics = m })
  on_server w t pages m (some server_addr, p) =
      on_connecting w t pages server_addr w.connecting
        (record { server_pool = mark_connection_start w.started_at server_addr p; metrics = m })

  -- `simulate_web_browsing_session`
  unfoldable pub simulate_web_browsing_session :
      QuicWorld
      → QuicTicket
      → (pages_to_visit : ℕ) (resources_per_page : ℕ × ℕ) (concurrent_requests : ℕ) → QuicClient F
      → Result QuicError (Unit {0}) × QuicClient F
  unfolding browse_quic_pages browse_quic_page
  simulate_web_browsing_session w t pages_to_visit resources_per_page concurrent_requests st =
      on_server w t pages_to_visit
        (start_connection_with_activity t.start t.place t.id quic
          (quic_web_browsing pages_to_visit resources_per_page concurrent_requests) st.metrics)
        (get_server w.chance st.server_pool)

  -- `simulate_user_activity`
  unfoldable pub simulate_quic_activity :
      QuicWorld
      → QuicTicket
      → UserActivity
      → QuicClient F
      → Result QuicError (Unit {0}) × QuicClient F
  unfolding simulate_web_browsing_session
  simulate_quic_activity w t (quic_web_browsing pages resources concurrent) st =
      simulate_web_browsing_session w t pages resources concurrent st
  simulate_quic_activity w t (web_browsing _ _) st = (err not_quic, st)
  simulate_quic_activity w t (file_download _ _) st = (err not_quic, st)
  simulate_quic_activity w t (file_upload _ _) st = (err not_quic, st)
