-- ===== src/Wire/Tests.antt =====
-- A serializer, a world and connections to run the programs of client/src/tcp_client.rs and
-- server/src/tcp_server.rs on.
use npt.Prelude.{
  ℕ, ◌+◌, ◌≡◌, refl, List, [], ◌∷◌, ◌++◌, Option, none, some, false, true, ◌==◌, arith,
  if◌then◌else◌,
}
use npt.Prelude.Result.{ok}
use npt.Prelude.Text.{codes}
use npt.Shared.Protocol.{
  Message, MessageType, tls_handshake, http_request, http_response, file_download_request,
  file_download_chunk, file_upload_request, file_upload_chunk, game_packet, connection_close,
  http_get_request, http_get_response, resource_request, resource_response,
}
use npt.Wire.{Codec, Link, closed, framed, Texts, send_message, receive_message}
use npt.Wire.Session.{World, InRange}
use npt.Wire.RoundTrip.{Carries, receive-send}

abbrev tag : MessageType → ℕ
tag tls_handshake = 0
tag http_request = 1
tag http_response = 2
tag file_download_request = 3
tag file_download_chunk = 4
tag file_upload_request = 5
tag file_upload_chunk = 6
tag game_packet = 7
tag connection_close = 8
tag http_get_request = 9
tag http_get_response = 10
tag resource_request = 11
tag resource_response = 12

abbrev tagged : ℕ → MessageType
tagged n =
    if n == 3
    then file_download_request
    else if n == 4
    then file_download_chunk
    else if n == 6
    then file_upload_chunk
    else connection_close

abbrev parsed : List ℕ → Option Message
parsed (t ∷ id ∷ session_id ∷ timestamp ∷ sequence ∷ payload) = some (record {
  id = id;
  session_id = session_id;
  message_type = tagged t;
  payload = payload;
  timestamp = timestamp;
  sequence = sequence;
})
parsed _ = none

-- The fields of a message one after the other; a number stands for a byte, whatever its size.
abbrev pub plain_codec : Codec
plain_codec = record {
  to_vec =
      λ m. some (tag m.message_type ∷ m.id ∷ m.session_id ∷ m.timestamp ∷ m.sequence ∷ m.payload);
  from_slice = parsed;
}

-- Each question is answered by its number, and every range by its lower end.
abbrev pub plain_world : World
plain_world = record {
  new_uuid = λ i. 100 + i;
  now = λ i. i;
  elapsed = λ i. i;
  gen_range = λ i lo hi. lo;
  stopped = λ i. false;
}

pub plain_world-InRange : InRange plain_world
plain_world-InRange = record { lower = λ i lo hi h. omega arith; upper = λ i lo hi h. h }

abbrev pub plain_texts : Texts
plain_texts = record {
  encode_text = codes "encode";
  decode_text = codes "decode";
  local_addr_text = codes "address";
}

-- A connection with these bytes on it, which the peer then closes.
abbrev pub plain_link : List ℕ → Link
plain_link incoming = record {
  has_local_addr = true;
  incoming = incoming;
  ending = closed;
  written = [];
  room = 1000;
  part = 0;
  write_text = codes "broken pipe";
}

abbrev pub goodbye : Message
goodbye = record {
  id = 7;
  session_id = 5;
  message_type = connection_close;
  payload = 1 ∷ 2 ∷ [];
  timestamp = 9;
  sequence = 0;
}

abbrev pub goodbye_bytes : List ℕ
goodbye_bytes = 8 ∷ 7 ∷ 5 ∷ 9 ∷ 0 ∷ 1 ∷ 2 ∷ []

pub goodbye-Carries : Carries plain_codec goodbye goodbye_bytes
goodbye-Carries = record { writes = refl; reads = refl; fits = omega arith }

abbrev both_ways : Link
both_ways = plain_link (framed goodbye_bytes ++ 3 ∷ [])

receive-send_example :
    ((send_message plain_codec goodbye both_ways).1.written ≡ framed goodbye_bytes)
    × (receive_message plain_codec both_ways ≡ (ok (goodbye, 7), plain_link (3 ∷ [])))
receive-send_example =
    receive-send plain_codec goodbye goodbye_bytes (3 ∷ []) both_ways both_ways goodbye-Carries
      (omega arith) refl
