-- ===== src/Shared/Protocol.antt =====
-- shared/src/protocol.rs: the messages of the test traffic, the activities of a user and the errors of
-- a connection. A `Uuid` and a point in time are numbers; a text is the list of its characters' codes.
use npt.Prelude.{ℕ, List, Option}

pub data MessageType : Type 0 where
  tls_handshake http_request http_response file_download_request file_download_chunk : MessageType
  file_upload_request file_upload_chunk game_packet connection_close : MessageType
  http_get_request http_get_response resource_request resource_response : MessageType

pub record Message : Type 0 where
  pub id : ℕ
  pub session_id : ℕ
  pub message_type : MessageType
  pub payload : List ℕ
  pub timestamp : ℕ
  pub sequence : ℕ

-- `Message::new` with the new UUID `id`, at the time `now`
unfoldable pub new_message : (id now : ℕ) → MessageType → List ℕ → ℕ → Message
new_message id now message_type payload session_id = record {
  id = id;
  session_id = session_id;
  message_type = message_type;
  payload = payload;
  timestamp = now;
  sequence = 0;
}

unfoldable pub with_sequence : ℕ → Message → Message
with_sequence sequence m = record m { sequence = sequence }

pub data ConnectionType : Type 0 where
  tcp udp quic : ConnectionType

pub data UserActivity : Type 0 where
  web_browsing : (pages_to_visit : ℕ) (requests_per_page : ℕ × ℕ) → UserActivity
  file_download : (file_size : ℕ) (chunk_size : ℕ × ℕ) → UserActivity
  file_upload : (file_size : ℕ) (chunk_size : ℕ × ℕ) → UserActivity
  quic_web_browsing :
      (pages_to_visit : ℕ) (resources_per_page : ℕ × ℕ) (concurrent_requests : ℕ) → UserActivity

pub data ErrorType : Type 0 where
  connection_failed network_timeout serialization_error message_too_large : ErrorType
  unexpected_disconnection protocol_error io_error other : ErrorType

pub record ErrorDetail : Type 0 where
  pub error_type : ErrorType
  pub message : List ℕ
  pub timestamp : ℕ
  pub connection_id : ℕ
  pub context : Option (List ℕ)
