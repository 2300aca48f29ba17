-- ===== src/Client/QuicClient/Tests.antt =====
-- client/src/quic_client.rs: a resource that a server answers, and a session that is not connected.
use npt.Prelude.{ℕ, ◌≡◌, refl, List, [], ◌∷◌, ◌++◌, arith, length, take, drop, true}
use npt.Prelude.Result.{ok}
use npt.Prelude.Text.{codes}
use npt.Shared.Protocol.{quic}
use npt.Shared.Config.{default_load_balancer}
use npt.Shared.Metrics.{new}
use npt.Shared.Metrics.Connections.{sent, received, packet_sent, packet_received, took}
use npt.Shared.Metrics.Activity.{note_all}
use npt.Server.QuicServer.{QuicState, response_size, generate_response, handle_stream}
use npt.Client.ServerPool.{get_server}
use npt.Client.QuicClient.{
  read_all, request_data, request_resource, QuicWorld, QuicTicket, QuicClient, out_of_time,
  simulate_web_browsing_session,
}
use npt.Client.QuicClient.Exchange.{quic_resource_delivered}
use npt.Client.QuicClient.Leaks.{LeavesOpen, quic_session-LeavesOpen}

abbrev path : List ℕ
path = codes "/data/data_3.json"

abbrev session_id : List ℕ
session_id = codes "67e5"

abbrev request : List ℕ
request = request_data path session_id

abbrev no_sessions : QuicState ℕ
no_sessions = record { sessions = []; metrics = new ℕ 0 }

-- The request comes in two reads, the response in two.
abbrev response : List ℕ
response = generate_response (λ i. i) request

quic_resource_delivered_example :
    let answer =
      (handle_stream
        (λ s. s)
        (λ i. i)
        1
        2
        7
        (take 3 request ∷ drop 3 request ∷ [])
        true
        no_sessions).0 in
    let buffers = take 300 response ∷ drop 300 response ∷ [] in
    (answer ≡ ok (take 300 response ++ (drop 300 response ++ [])))
    × (length (take 300 response ++ (drop 300 response ++ [])) ≡ response_size path)
    × (request_resource 42 session_id path (read_all 5 buffers) (new ℕ 0) ≡ (
      ok tt,
      note_all 42
          (packet_sent
            ∷ sent (length request)
            ∷ packet_received
            ∷ received (response_size path)
            ∷ took 5
            ∷ [])
          (new ℕ 0),
    ))
unfolding generate_response handle_stream
quic_resource_delivered_example =
    quic_resource_delivered (λ s. s) (λ i. i) 1 2 7 path session_id
      (take 3 request ∷ drop 3 request ∷ []) no_sessions (λ text h. refl) (omega arith)
      (omega arith) (omega arith) refl 42 5 (take 300 response ∷ drop 300 response ∷ []) (new ℕ 0)
      (omega arith) refl

abbrev unreachable : QuicWorld
unreachable = record {
  chance = record { gen_range = λ n. 0; new_uuid = 0 };
  started_at = 1;
  connecting = out_of_time;
  failed_at = 30;
  address_text = λ a. codes "127.0.0.1";
  num_resources = λ page. 2;
  page_replies = λ page. record { main = read_all 1 []; resources = []; in_time = true };
  page_failed_at = λ page. 40;
}

abbrev ticket : QuicTicket
ticket = record { id = 42; session_id = session_id; place = 0; start = 1; end = 50 }

abbrev client : QuicClient ℕ
client = record {
  server_pool = (npt.Client.ServerPool.new 0 ((2, 0) ∷ (1, 0) ∷ []) default_load_balancer).0;
  metrics = new ℕ 0;
}

quic_session-LeavesOpen_example :
    LeavesOpen quic 1 out_of_time
      (get_server unreachable.chance client.server_pool)
      client.metrics
      (simulate_web_browsing_session unreachable ticket 3 (2, 5) 4 client)
unfolding new
quic_session-LeavesOpen_example =
    quic_session-LeavesOpen quic unreachable ticket 3 (2, 5) 4 client refl
