-- ===== src/Protocol/Control.antt =====
-- crates/ladoflow-protocol/src/control.rs: liveness and error payloads. A diagnostic is its UTF-8
-- bytes.
pub mod Liveness
pub mod Diagnostic
mod Examples
use lado_flow.Base.{
  ℕ, ◌+◌, ◌==◌, Bool, true, false, not, List, [], ◌∷◌, ◌++◌, ltb, if◌then◌else◌, length, drop,
  Result, ok, err, ◌>>=◌, ◌>>◌, guard,
}
use lado_flow.Base.Time.{u16_max}
use lado_flow.Base.Bytes.{be16, be64, read_u8, read_u16, read_u64}
use lado_flow.Base.Utf8.{is_utf8}
use lado_flow.Protocol.Error.{ProtocolError, invalid_payload, invalid_utf8, MessageType}
use lado_flow.Protocol.Message.{contains_null}
use lado_flow.Protocol.Message.Payload.{WirePayload}

abbrev pub ping_len : ℕ
ping_len = 16

abbrev pub pong_len : ℕ
pong_len = 32

abbrev pub error_prefix_len : ℕ
error_prefix_len = 5

abbrev pub max_error_diagnostic_bytes : ℕ
max_error_diagnostic_bytes = 1_024

pub record Ping : Type 0 where
  pub token : ℕ
  pub client_send_timestamp_micros : ℕ

unfoldable pub encode_ping : Ping → Result ProtocolError (List ℕ)
encode_ping p = ok (be64 p.token ++ be64 p.client_send_timestamp_micros)

unfoldable pub decode_ping : List ℕ → Result ProtocolError Ping
decode_ping payload = do
  guard (length payload == ping_len) (invalid_payload "ping payload must be exactly 16 bytes")
  ok (record { token = read_u64 payload 0; client_send_timestamp_micros = read_u64 payload 8 })

pub record Pong : Type 0 where
  pub token : ℕ
  pub client_send_timestamp_micros : ℕ
  pub server_receive_timestamp_micros : ℕ
  pub server_send_timestamp_micros : ℕ

-- The check of `Pong::new`, whose value is its argument.
unfoldable pub new_pong : Pong → Result ProtocolError Pong
new_pong p =
    if ltb p.server_send_timestamp_micros p.server_receive_timestamp_micros
    then err (invalid_payload "pong server send timestamp precedes receive timestamp")
    else ok p

unfoldable pub encode_pong : Pong → Result ProtocolError (List ℕ)
unfolding new_pong
encode_pong p = do
  new_pong p >>= λ _. ok tt
  ok (
      be64 p.token
      ++ (be64 p.client_send_timestamp_micros
          ++ (be64 p.server_receive_timestamp_micros ++ be64 p.server_send_timestamp_micros)))

unfoldable pub decode_pong : List ℕ → Result ProtocolError Pong
unfolding new_pong
decode_pong payload = do
  guard (length payload == pong_len) (invalid_payload "pong payload must be exactly 32 bytes")
  new_pong (record {
    token = read_u64 payload 0;
    client_send_timestamp_micros = read_u64 payload 8;
    server_receive_timestamp_micros = read_u64 payload 16;
    server_send_timestamp_micros = read_u64 payload 24;
  })

pub data ErrorCode : Type 0 where
  protocol_violation unsupported configuration_rejected unauthorized busy encoder_failure
        decoder_failure input_rejected resource_exhausted internal :
      ErrorCode

-- `code as u16`.
abbrev pub code_id : ErrorCode → ℕ
code_id protocol_violation = 1
code_id unsupported = 2
code_id configuration_rejected = 3
code_id unauthorized = 4
code_id busy = 5
code_id encoder_failure = 6
code_id decoder_failure = 7
code_id input_rejected = 8
code_id resource_exhausted = 9
code_id internal = 10

unfoldable pub code_of_id : ℕ → Result ProtocolError ErrorCode
code_of_id value =
    if value == 1
    then ok protocol_violation
    else if value == 2
    then ok unsupported
    else if value == 3
    then ok configuration_rejected
    else if value == 4
    then ok unauthorized
    else if value == 5
    then ok busy
    else if value == 6
    then ok encoder_failure
    else if value == 7
    then ok decoder_failure
    else if value == 8
    then ok input_rejected
    else if value == 9
    then ok resource_exhausted
    else if value == 10
    then ok internal
    else err (invalid_payload "unknown error code")

pub record ErrorMessage : Type 0 where
  pub code : ErrorCode
  pub retryable : Bool
  pub diagnostic : List ℕ

unfoldable pub validate_diagnostic : List ℕ → Result ProtocolError (Unit {0})
validate_diagnostic diagnostic =
    if ltb max_error_diagnostic_bytes (length diagnostic)
    then err (invalid_payload "error diagnostic is too long")
    else if contains_null diagnostic
    then err (invalid_payload "error diagnostic contains a null byte")
    else ok tt

unfoldable pub new_error_message : ErrorCode → Bool → List ℕ → Result ProtocolError ErrorMessage
unfolding validate_diagnostic
new_error_message code retryable diagnostic = do
  validate_diagnostic diagnostic
  ok (record { code = code; retryable = retryable; diagnostic = diagnostic })

unfoldable pub decode_bool : ℕ → Result ProtocolError Bool
decode_bool value =
    if value == 0
    then ok false
    else if value == 1
    then ok true
    else err (invalid_payload "boolean error field must be zero or one")

-- `u8::from(self.retryable)`.
abbrev pub bool_byte : Bool → ℕ
bool_byte false = 0
bool_byte true = 1

unfoldable pub encode_error_message : ErrorMessage → Result ProtocolError (List ℕ)
unfolding validate_diagnostic
encode_error_message m = do
  validate_diagnostic m.diagnostic
  guard (not (ltb u16_max (length m.diagnostic))) (invalid_payload "error diagnostic is too long")
  ok (
      be16 (code_id m.code)
      ++ (bool_byte m.retryable ∷ (be16 (length m.diagnostic) ++ m.diagnostic)))

unfoldable pub decode_error_message : List ℕ → Result ProtocolError ErrorMessage
unfolding new_error_message code_of_id decode_bool
decode_error_message payload = do
  guard (not (ltb (length payload) error_prefix_len)) (invalid_payload "error payload is truncated")
  guard (not (ltb (error_prefix_len + max_error_diagnostic_bytes) (length payload)))
      (invalid_payload "error diagnostic is too long")
  code ← code_of_id (read_u16 payload 0)
  retryable ← decode_bool (read_u8 payload 2)
  let expected_len = error_prefix_len + read_u16 payload 3
  guard (length payload == expected_len)
      (invalid_payload "error diagnostic length does not match payload")
  let diagnostic = drop error_prefix_len payload
  guard (is_utf8 diagnostic) invalid_utf8
  new_error_message code retryable diagnostic

instance abbrev pub ping_payload : WirePayload Ping
ping_payload = record { kind = MessageType.ping; encode = encode_ping; decode = decode_ping }

instance abbrev pub pong_payload : WirePayload Pong
pong_payload = record { kind = MessageType.pong; encode = encode_pong; decode = decode_pong }

instance abbrev pub error_payload : WirePayload ErrorMessage
error_payload = record {
  kind = MessageType.error;
  encode = encode_error_message;
  decode = decode_error_message;
}
