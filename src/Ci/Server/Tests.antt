-- ===== src/Ci/Server/Tests.antt =====
-- ci/src/server.rs on concrete streams, datagrams and events.
use npt.Prelude.{◌-◌, ◌≡◌, refl, List, [], ◌∷◌, none, some, true, arith}
use npt.Ci.Protocol.{broken, Stream, encode, encode_udp, decode_udp}
use npt.Ci.Server.{no_stats, ServeEvent, accepted, accept_failed, ended, Sink, tcp_echo, udp_echo}
use npt.Ci.Server.Echo.{IsEcho, tcp_echo-IsEcho, serve_all, tcp_active-serve_all}

-- The peer takes ten bytes.
abbrev full_sink : Sink
full_sink = record { written = []; room = 10; flushes = 5 }

abbrev probe : Stream
probe = record {
  bytes = encode (record { seq = 1; send_ts_micros = 10; payload = 5 ∷ [] });
  ending = broken;
}

tcp_echo-IsEcho_example :
    IsEcho probe.bytes full_sink no_stats (tcp_echo 26 probe full_sink no_stats)
unfolding encode
tcp_echo-IsEcho_example = tcp_echo-IsEcho 26 probe full_sink no_stats (omega arith) (omega arith)

abbrev events : List ServeEvent
events = accepted ∷ accept_failed ∷ accepted ∷ ended ∷ accepted ∷ []

tcp_active-serve_all_example : (serve_all events no_stats).tcp_active ≡ 3 - 1
tcp_active-serve_all_example = tcp_active-serve_all events (omega arith) (omega arith)

-- A stray datagram is dropped.
udp_echo_stray : udp_echo (1 ∷ 2 ∷ []) true no_stats ≡ (none, no_stats)
unfolding udp_echo decode_udp
udp_echo_stray = refl

udp_echo_probe : (udp_echo (encode_udp 1 2 []) true no_stats).0 ≡ some (encode_udp 1 2 [])
unfolding udp_echo decode_udp encode_udp
udp_echo_probe = refl
