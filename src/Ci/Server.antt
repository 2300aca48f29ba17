-- ===== src/Ci/Server.antt =====
-- ci/src/server.rs: the echo endpoint, and its counters.
pub mod Echo
mod Tests
use npt.Prelude.{
  ℕ, zero, suc, ◌+◌, ◌-◌, List, [], ◌∷◌, ◌++◌, Option, none, some, length, take, ltb, Bool, true,
  false, is_some, if◌then◌else◌,
}
use npt.Prelude.Result.{Result, ok, err}
use npt.Prelude.Words.{add64, sub64}
use npt.Ci.Protocol.{header_len, Frame, encode, Stream, IoError, connection_error, read, decode_udp}

pub record ServeStats : Type 0 where
  pub tcp_conns : ℕ
  pub tcp_active : ℕ
  pub udp_datagrams : ℕ
  pub bytes_echoed : ℕ

abbrev pub no_stats : ServeStats
no_stats = record { tcp_conns = 0; tcp_active = 0; udp_datagrams = 0; bytes_echoed = 0 }

-- How `tcp_echo` returns; `out_of_fuel` is of the model alone.
pub data EchoEnd : Type 0 where
  finished : EchoEnd
  failed : IoError → EchoEnd
  out_of_fuel : EchoEnd

-- The writing half of a connection: the bytes that were written, how many more the peer takes before
-- `write_all` fails, and how many times more `flush` succeeds.
pub record Sink : Type 0 where
  pub written : List ℕ
  pub room : ℕ
  pub flushes : ℕ

-- `frame.write(&mut w)` and `w.flush()`: whether both succeed. `write_all` may fail with a part written.
abbrev pub write_frame : Frame → Sink → Bool × Sink
write_frame f w =
    let bytes = encode f in
    let all : Sink = record {
      written = w.written ++ bytes;
      room = w.room - length bytes;
      flushes = w.flushes - 1;
    } in
    let part : Sink = record w { written = w.written ++ take w.room bytes; room = 0 } in
    if ltb w.room (length bytes) then (false, part) else (ltb 0 w.flushes, all)

abbrev pub frame_bytes : Frame → ℕ
frame_bytes f = header_len + length f.payload

-- `tcp_echo`: one round for each frame that `Frame::read` gives.
pub tcp_echo : ℕ → Stream → Sink → ServeStats → EchoEnd × Sink × ServeStats
tcp_echo zero r w stats = (out_of_fuel, w, stats)
tcp_echo (suc fuel) r w stats = elim (read r) [
  | err e ↦ (failed e, w, stats)
  | ok (none, r') ↦ (finished, w, stats)
  | ok (some f, r') ↦
      let (sent, w') = write_frame f w in
      let go_on =
        tcp_echo fuel r' w'
          (record stats { bytes_echoed = add64 stats.bytes_echoed (frame_bytes f) }) in
      if sent then go_on else (failed connection_error, w', stats)
]

-- One datagram that `udp_echo` receives: what it sends back, if anything, and the counters.
-- `sent` says whether `send_to` succeeds.
unfoldable pub udp_echo : List ℕ → Bool → ServeStats → Option (List ℕ) × ServeStats
udp_echo buf sent stats =
    if is_some (decode_udp buf)
    then if sent
      then (
        some buf,
        record stats {
          udp_datagrams = add64 stats.udp_datagrams 1;
          bytes_echoed = add64 stats.bytes_echoed (length buf);
        },
      )
      else (none, stats)
    else (none, stats)

-- What happens to the accepting loop of `run`: a connection is accepted, an accept fails, or the
-- task of an accepted connection ends.
pub data ServeEvent : Type 0 where
  accepted accept_failed ended : ServeEvent

unfoldable pub serve : ServeEvent → ServeStats → ServeStats
serve accepted s = record s { tcp_conns = add64 s.tcp_conns 1; tcp_active = add64 s.tcp_active 1 }
serve accept_failed s = s
serve ended s = record s { tcp_active = sub64 s.tcp_active 1 }
