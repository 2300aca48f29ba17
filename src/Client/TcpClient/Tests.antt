-- ===== src/Client/TcpClient/Tests.antt =====
-- client/src/tcp_client.rs: sessions with a server that answers, and with one that does not.
use npt.Prelude.{
  ℕ, ◌+◌, ◌≡◌, refl, List, [], ◌∷◌, ◌++◌, replicate, length-replicate, arith, true, false, ◌==◌,
}
use npt.Prelude.Result.{ok}
use npt.Shared.Protocol.{tcp, new_message, with_sequence}
use npt.Shared.Config.{default_load_balancer}
use npt.Shared.Metrics.{new, get_active_connections}
use npt.Wire.Session.{Session}
use npt.Wire.Tests.{plain_codec, plain_world, plain_world-InRange, plain_texts, plain_link}
use npt.Server.TcpServer.{handle_message}
use npt.Client.ServerPool.{ServerPool}
use npt.Client.TcpClient.{
  ClientState, Network, Ticket, perform, download_on, upload_on, chunks_loop,
  simulate_file_download, simulate_file_upload,
}
use npt.Client.TcpClient.Accounting.{LeavesPool, Sound, perform-LeavesPool, file_sessions_end}
use npt.Client.TcpClient.Download.{CarriesChunks, request_of, download_delivers}

-- The network: only the address 2 answers, and closes at once.
abbrev network : Network
network = record {
  attempts = λ i. record {
    chance = record { gen_range = λ n. 0; new_uuid = 0 };
    reaches = λ a. a == 2;
    now = i;
  };
  dial = λ a. plain_link [];
}

abbrev started : ClientState ℕ
started = record {
  pool = (npt.Client.ServerPool.new 0 ((2, 0) ∷ (1, 0) ∷ []) default_load_balancer).0;
  metrics = new ℕ 0;
  asked = 0;
  panicked = false;
}

abbrev ticket : Ticket
ticket = record { id = 42; session_id = 5; place = 0; start = 1; failed_at = 2; end = 3 }

perform-LeavesPool_example :
    let (r, st') = perform network (download_on plain_codec plain_world 1 42 5 6) started in
    LeavesPool r started.pool st'.pool
perform-LeavesPool_example =
    perform-LeavesPool network (download_on plain_codec plain_world 1 42 5 6) started

file_sessions_end_example :
    let download = perform network (download_on plain_codec plain_world 1 42 5 6) started in
    let upload = perform network (upload_on plain_codec plain_world 1 42 5 6 (1, 2)) started in
    Sound download.0
    × Sound upload.0
    × (get_active_connections tcp
          (simulate_file_download plain_codec plain_world plain_texts [] 1 network ticket 6
            (1, 2)
            started).metrics
        ≡ get_active_connections tcp started.metrics)
    × (get_active_connections tcp
          (simulate_file_upload plain_codec plain_world plain_texts [] 1 network ticket 6
            (1, 2)
            started).metrics
        ≡ get_active_connections tcp started.metrics)
unfolding new
file_sessions_end_example =
    file_sessions_end plain_codec plain_world plain_texts [] tcp 1 network ticket 6 (1, 2) started
      (λ a. omega arith) (omega arith) refl

-- A download of six bytes, with one byte more behind it.
abbrev server_side : Session ℕ
server_side = record { link = plain_link []; metrics = new ℕ 0; asked = 0 }

abbrev client_side : Session ℕ
client_side = record {
  link = plain_link (
      (handle_message plain_codec plain_world 0 (request_of plain_world 5 8 6) 42
        server_side).1.link.written
      ++ 3 ∷ []);
  metrics = new ℕ 0;
  asked = 0;
}

abbrev chunk_bytes : ℕ → ℕ → ℕ → List ℕ
chunk_bytes i sequence n = 4 ∷ (100 + i) ∷ 5 ∷ i ∷ sequence ∷ replicate n 0

chunks-Carries : CarriesChunks plain_codec plain_world 5 chunk_bytes
unfolding new_message with_sequence
chunks-Carries i sequence n h = record {
  writes = refl;
  reads = refl;
  fits = omega (arith, length-replicate {A = ℕ} n 0);
}

download_delivers_example :
    let (r, t') = chunks_loop plain_codec plain_world 7 6 42 0 0 client_side in
    ((handle_message plain_codec plain_world 0 (request_of plain_world 5 8 6) 42 server_side).0
      ≡ ok true)
    × (r ≡ ok tt)
    × (t'.link.incoming ≡ 3 ∷ [])
download_delivers_example =
    download_delivers plain_codec plain_world plain_world 0 7 6 5 42 42 8 0 chunk_bytes server_side
      client_side (3 ∷ []) plain_world-InRange (λ i. refl) chunks-Carries (omega arith)
      (omega arith) (omega arith) refl
