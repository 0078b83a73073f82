-- ===== src/Protocol/Control/Examples.antt =====
-- Control payloads at concrete values, and the theorems at such values.
use lado_flow.Base.{ℕ, ◌≡◌, refl, arith, true, List, [], ◌∷◌, ok, err}
use lado_flow.Base.Utf8.{is_utf8}
use lado_flow.Protocol.Error.{invalid_payload}
use lado_flow.Protocol.Message.{contains_null}
use lado_flow.Protocol.Control.{
  Ping, Pong, ErrorMessage, busy, encode_ping, decode_ping, decode_pong, decode_error_message,
  code_of_id, decode_bool,
}
use lado_flow.Protocol.Control.Liveness.{IsPong}
use lado_flow.Protocol.Control.Diagnostic.{IsErrorMessage}

abbrev sample_pong : Pong
sample_pong = record {
  token = 258;
  client_send_timestamp_micros = 7;
  server_receive_timestamp_micros = 10;
  server_send_timestamp_micros = 4_294_967_297;
}

abbrev pong_wire : List ℕ
pong_wire =
    0 ∷ 0 ∷ 0 ∷ 0 ∷ 0 ∷ 0 ∷ 1 ∷ 2 ∷ 0 ∷ 0 ∷ 0 ∷ 0 ∷ 0 ∷ 0 ∷ 0 ∷ 7 ∷ 0 ∷ 0 ∷ 0 ∷ 0 ∷ 0 ∷ 0 ∷ 0 ∷ 10
    ∷ 0 ∷ 0 ∷ 0 ∷ 1 ∷ 0 ∷ 0 ∷ 0 ∷ 1 ∷ []

pong_read : decode_pong pong_wire ≡ ok sample_pong
unfolding decode_pong
pong_read = refl

sample-IsPong : IsPong sample_pong
sample-IsPong = record {
  token = omega arith;
  client_send = omega arith;
  server_send = omega arith;
  in_order = omega arith;
}

abbrev sample_ping : Ping
sample_ping = record { token = 258; client_send_timestamp_micros = 7 }

ping_wire :
    encode_ping sample_ping
    ≡ ok (0 ∷ 0 ∷ 0 ∷ 0 ∷ 0 ∷ 0 ∷ 1 ∷ 2 ∷ 0 ∷ 0 ∷ 0 ∷ 0 ∷ 0 ∷ 0 ∷ 0 ∷ 7 ∷ [])
unfolding encode_ping
ping_wire = refl

ping_short :
    decode_ping (1 ∷ 2 ∷ []) ≡ err (invalid_payload "ping payload must be exactly 16 bytes")
unfolding decode_ping
ping_short = refl

-- "a€" as a diagnostic.
abbrev sample_error : ErrorMessage
sample_error = record { code = busy; retryable = true; diagnostic = 0x61 ∷ 0xe2 ∷ 0x82 ∷ 0xac ∷ [] }

abbrev error_wire : List ℕ
error_wire = 0 ∷ 5 ∷ 1 ∷ 0 ∷ 4 ∷ 0x61 ∷ 0xe2 ∷ 0x82 ∷ 0xac ∷ []

error_read : decode_error_message error_wire ≡ ok sample_error
unfolding decode_error_message is_utf8 contains_null code_of_id decode_bool
error_read = refl

sample-IsErrorMessage : IsErrorMessage sample_error
unfolding is_utf8 contains_null
sample-IsErrorMessage = record { short = omega arith; text = refl; no_null = refl }
