-- ===== src/Wire.antt =====
-- The messages between client and server on a TCP connection, as client/src/tcp_client.rs and
-- server/src/tcp_server.rs send and receive them with the same code: four bytes with the length of the
-- message, and its serialized form. The serializer is the crate `rmp_serde`, a parameter here.
pub mod Session
pub mod RoundTrip
pub mod Progress
pub mod Tests
use npt.Prelude.{
  ℕ, ◌+◌, ◌-◌, ◌%◌, ◌^◌, ◌≤◌, ◌≡◌, List, [], ◌∷◌, ◌++◌, Option, none, some, length, take, Bool,
  true, false, ltb, ◌==◌, if◌then◌else◌,
}
use npt.Prelude.Result.{Result, ok, err}
use npt.Prelude.Bytes.{le_bytes, from_le_bytes, split_exact}
use npt.Prelude.Text.{codes, decimal}
use npt.Shared.Protocol.{Message}

-- `rmp_serde::to_vec` and `rmp_serde::from_slice`
pub record Codec : Type 0 where
  pub to_vec : Message → Option (List ℕ)
  pub from_slice : List ℕ → Option Message

-- 10 * 1024 * 1024
abbrev pub max_message : ℕ
max_message = 10485760

-- How the bytes of the peer end: it closes the connection, the connection fails with a text, or
-- nothing more comes within the 30 seconds that a read waits.
pub data Ending : Type 0 where
  closed silent : Ending
  broken : List ℕ → Ending

-- One side of a connection: the bytes that it will still receive, the bytes that it has written, and
-- how many messages more it can write before writing fails with a text, which it may do behind some
-- bytes of the next message.
pub record Link : Type 0 where
  -- `local_addr` succeeds, or the level of the log does not ask for it
  pub has_local_addr : Bool
  pub incoming : List ℕ
  pub ending : Ending
  pub written : List ℕ
  pub room : ℕ
  pub part : ℕ
  pub write_text : List ℕ

-- The errors of a connection. `out_of_fuel` is of the model alone, and `panicked` stands for a panic, which
-- ends the whole task.
pub data WireError : Type 0 where
  early_eof timed_out encode_failed decode_failed no_local_addr out_of_fuel panicked : WireError
  io_error : List ℕ → WireError
  too_large : ℕ → WireError

abbrev pub ending_error : Ending → WireError
ending_error closed = early_eof
ending_error silent = timed_out
ending_error (broken text) = io_error text

-- `timeout(30 s, stream.read_exact(&mut buf))` for a buffer of `n` bytes
abbrev pub taken : Link → Option (List ℕ × List ℕ) → Result WireError (List ℕ) × Link
taken l none = (err (ending_error l.ending), record l { incoming = [] })
taken l (some (bytes, rest)) = (ok bytes, record l { incoming = rest })

abbrev pub read_exact : ℕ → Link → Result WireError (List ℕ) × Link
read_exact n l = taken l (split_exact n l.incoming)

-- The bytes of a message on the connection.
abbrev pub framed : List ℕ → List ℕ
framed bytes = le_bytes 4 (length bytes % 2 ^ 32) ++ bytes

module _ (c : Codec) where
  abbrev send_bytes : Link → Option (List ℕ) → Result WireError ℕ × Link
  send_bytes l none = (err encode_failed, l)
  send_bytes l (some bytes) =
      let cut : Link = record l { written = l.written ++ take l.part (framed bytes); part = 0 } in
      if l.room == 0 then (err (io_error l.write_text), cut) else (
        ok (length bytes % 2 ^ 32),
        record l { written = l.written ++ framed bytes; room = l.room - 1 },
      )

  -- `send_message`, with the length that the client's gives back
  unfoldable pub send_message : Message → Link → Result WireError ℕ × Link
  send_message m l = send_bytes l (c.to_vec m)

  abbrev decoded : ℕ → Option Message → Link → Result WireError (Message × ℕ) × Link
  decoded len none l = (err decode_failed, l)
  decoded len (some m) l = (ok (m, len), l)

  abbrev decode_body : ℕ → Result WireError (List ℕ) × Link → Result WireError (Message × ℕ) × Link
  decode_body len (err e, l) = (err e, l)
  decode_body len (ok bytes, l) = decoded len (c.from_slice bytes) l

  abbrev read_body : ℕ → Link → Result WireError (Message × ℕ) × Link
  read_body len l =
      if ltb max_message len then (err (too_large len), l) else decode_body len (read_exact len l)

  abbrev after_length : Result WireError (List ℕ) × Link → Result WireError (Message × ℕ) × Link
  after_length (err e, l) = (err e, l)
  after_length (ok bytes, l) = read_body (from_le_bytes bytes) l

  -- `receive_message` of the server and `receive_response` of the client
  unfoldable pub receive_message : Link → Result WireError (Message × ℕ) × Link
  receive_message l = after_length (read_exact 4 l)

-- The texts of the errors. Those that other crates and the system give are not known here.
pub record Texts : Type 0 where
  pub encode_text : List ℕ
  pub decode_text : List ℕ
  pub local_addr_text : List ℕ

abbrev pub text_of : Texts → WireError → List ℕ
text_of t early_eof = codes "early eof"
text_of t timed_out = codes "deadline has elapsed"
text_of t encode_failed = t.encode_text
text_of t decode_failed = t.decode_text
text_of t no_local_addr = t.local_addr_text
text_of t out_of_fuel = []
text_of t panicked = []
text_of t (io_error text) = text
text_of t (too_large n) = codes "Message too large: " ++ (decimal n ++ codes " bytes")
