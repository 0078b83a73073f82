-- ===== src/Protocol/Error.antt =====
-- crates/ladoflow-protocol/src/error.rs, and the message identifiers of frame.rs that it names.
use lado_flow.Base.{ℕ, List, String}

-- `MessageType`, in the order of its identifiers 1 to 9.
pub data MessageType : Type 0 where
  hello capabilities display_config video_frame input telemetry ping pong error : MessageType

-- The message text of `Display` is presentation and is left out.
pub data ProtocolError : Type 0 where
  invalid_magic : List ℕ → ProtocolError
  invalid_header_length : ℕ → ProtocolError
  unsupported_version : ℕ → ℕ → ProtocolError
  unknown_message_type : ℕ → ProtocolError
  unknown_frame_flags : ℕ → ProtocolError
  payload_too_large : MessageType → ℕ → ℕ → ProtocolError
  payload_length_mismatch : ℕ → ℕ → ProtocolError
  buffer_limit_exceeded : ℕ → ℕ → ProtocolError
  unexpected_message_type : MessageType → MessageType → ProtocolError
  invalid_payload : String → ProtocolError
  invalid_utf8 : ProtocolError
