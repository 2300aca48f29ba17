-- ===== src/Server/TcpServer/Tests.antt =====
-- server/src/tcp_server.rs: a connection that sends one message.
use npt.Prelude.{ℕ, ◌≡◌, ◌≢◌, refl}
use npt.Prelude.Result.{err}
use npt.Shared.Protocol.{tcp}
use npt.Shared.Metrics.{new, get_active_connections}
use npt.Wire.{framed, out_of_fuel}
use npt.Wire.Session.{Session}
use npt.Wire.Tests.{
  plain_codec, plain_world, plain_world-InRange, plain_texts, plain_link, goodbye_bytes,
}
use npt.Server.TcpServer.{handle_connection}
use npt.Server.TcpServer.Lifecycle.{handle_connection-ends}

abbrev one_message : Session ℕ
one_message = record { link = plain_link (framed goodbye_bytes); metrics = new ℕ 0; asked = 0 }

handle_connection-ends_example :
    let (r, s') = handle_connection plain_codec plain_world plain_texts 1 0 42 2 one_message in
    (r ≢ err out_of_fuel)
    × (get_active_connections tcp s'.metrics ≡ get_active_connections tcp (new ℕ 0))
unfolding new
handle_connection-ends_example =
    handle_connection-ends plain_codec plain_world plain_texts tcp 1 0 42 2 one_message
      plain_world-InRange refl
