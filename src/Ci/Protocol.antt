-- ===== src/Ci/Protocol.antt =====
-- ci/src/protocol.rs: the frames of the TCP probe and the datagrams of the UDP probe.
-- A stream that is read is the bytes that its peer still sends and the way in which it then ends.
pub mod RoundTrip
mod Tests
use npt.Prelude.{
  ℕ, ◌+◌, ◌%◌, ◌^◌, List, [], ◌++◌, Option, none, some, length, take, drop, ltb, ◌==◌, not,
  if◌then◌else◌,
}
use npt.Prelude.Result.{Result, ok, err, ◌>>=◌}
use npt.Prelude.Bytes.{le_bytes, from_le_bytes, split_exact}

-- "NPT1"
abbrev pub magic : ℕ
magic = 0x3154504E

abbrev pub header_len : ℕ
header_len = 24

-- 8 * 1024 * 1024
abbrev pub max_payload : ℕ
max_payload = 8388608

abbrev pub udp_header_len : ℕ
udp_header_len = 20

pub record Frame : Type 0 where
  pub seq : ℕ
  pub send_ts_micros : ℕ
  pub payload : List ℕ

-- `Frame::encode`; the length is cast `as u32`.
unfoldable pub encode : Frame → List ℕ
encode f =
    le_bytes 4 magic
    ++ (le_bytes 4 (length f.payload % 2 ^ 32)
        ++ (le_bytes 8 f.seq ++ (le_bytes 8 f.send_ts_micros ++ f.payload)))

-- How a stream ends behind its last byte: the peer closes it, or an operation on it fails.
pub data Ending : Type 0 where
  closed broken : Ending

pub record Stream : Type 0 where
  pub bytes : List ℕ
  pub ending : Ending

-- The kinds of `std::io::Error` that reading a frame meets, with what the message tells.
pub data IoError : Type 0 where
  unexpected_eof : IoError
  connection_error : IoError
  bad_magic : ℕ → IoError
  payload_too_large : ℕ → IoError

abbrev pub ending_error : Ending → IoError
ending_error closed = unexpected_eof
ending_error broken = connection_error

-- `r.read_exact(&mut buf)` for a buffer of `n` bytes.
abbrev pub taken : Stream → Option (List ℕ × List ℕ) → Result IoError (List ℕ × Stream)
taken r none = err (ending_error r.ending)
taken r (some (bytes, rest)) = ok (bytes, record r { bytes = rest })

abbrev pub read_exact : ℕ → Stream → Result IoError (List ℕ × Stream)
read_exact n r = taken r (split_exact n r.bytes)

pub record Header : Type 0 where
  pub len : ℕ
  pub seq : ℕ
  pub send_ts_micros : ℕ

-- `u32::from_le_bytes(header[at..at + width])` and the same of `u64`
abbrev pub field : ℕ → ℕ → List ℕ → ℕ
field at width header = from_le_bytes (take width (drop at header))

-- The checks of `Frame::read` on the header that it has read.
unfoldable pub parse_header : List ℕ → Result IoError Header
parse_header header =
    let len = field 4 4 header in
    if not (field 0 4 header == magic)
    then err (bad_magic (field 0 4 header))
    else if ltb max_payload len
    then err (payload_too_large len)
    else ok (record { len = len; seq = field 8 8 header; send_ts_micros = field 16 8 header })

-- What follows a header that is in order.
abbrev pub read_payload : Header → Stream → Result IoError (Option Frame × Stream)
read_payload h r = do
  (payload, r') ← read_exact h.len r
  ok (some (record { seq = h.seq; send_ts_micros = h.send_ts_micros; payload = payload }), r')

-- The first `match` of `Frame::read`: an end of file while the header is read gives `Ok(None)`.
abbrev pub after_header :
    Stream → Result IoError (List ℕ × Stream) → Result IoError (Option Frame × Stream)
after_header r (err unexpected_eof) = ok (none, record r { bytes = [] })
after_header r (err e) = err e
after_header r (ok (header, r')) = do h ← parse_header header; read_payload h r'

-- `Frame::read`
unfoldable pub read : Stream → Result IoError (Option Frame × Stream)
read r = after_header r (read_exact header_len r)

unfoldable pub encode_udp : ℕ → ℕ → List ℕ → List ℕ
encode_udp seq send_ts_micros payload =
    le_bytes 4 magic ++ (le_bytes 8 seq ++ (le_bytes 8 send_ts_micros ++ payload))

unfoldable pub decode_udp : List ℕ → Option (ℕ × ℕ)
decode_udp buf =
    if ltb (length buf) udp_header_len
    then none
    else if not (field 0 4 buf == magic)
    then none
    else some (field 4 8 buf, field 12 8 buf)
