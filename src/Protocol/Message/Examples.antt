-- ===== src/Protocol/Message/Examples.antt =====
-- Handshake payloads at concrete values, and the theorems at such values.
use lado_flow.Base.{ℕ, ◌≡◌, refl, arith, List, [], ◌∷◌, ◌++◌, ok, err, ◌≢◌}
use lado_flow.Base.Utf8.{is_utf8}
use lado_flow.Protocol.Error.{MessageType, invalid_payload, unexpected_message_type}
use lado_flow.Protocol.Frame.{Frame, encode_frame}
use mathlib.Core.List.{flatten}
use lado_flow.Protocol.Frame.{encode_header, new_frame}
use lado_flow.Protocol.Decoder.{new_decoder}
use lado_flow.Protocol.Decoder.Parses.{encode_all}
use lado_flow.Protocol.Decoder.Chunks.{push_all}
use lado_flow.Protocol.Message.Exchange.{push_all-from_payload}
use lado_flow.Base.{take, drop}
use lado_flow.Protocol.Message.{
  Hello, Capabilities, host, role_of_id, contains_null, encode_hello, decode_hello,
  encode_capabilities, decode_capabilities, codecs_from_bits, input_from_bits, features_from_bits,
}
use lado_flow.Protocol.Message.Handshake.{IsHello}
use lado_flow.Protocol.Message.Offer.{IsOffer}
use lado_flow.Protocol.Message.Payload.{
  hello_payload, capabilities_payload, from_payload, decode_payload, decode_payload_other,
}

abbrev sample_nonce : List ℕ
sample_nonce = 1 ∷ 2 ∷ 3 ∷ 4 ∷ 5 ∷ 6 ∷ 7 ∷ 8 ∷ 9 ∷ 10 ∷ 11 ∷ 12 ∷ 13 ∷ 14 ∷ 15 ∷ 16 ∷ []

abbrev sample_hello : Hello
sample_hello = record {
  min_protocol = 1;
  max_protocol = 258;
  role = host;
  nonce = sample_nonce;
  implementation_name = b'L' ∷ b'F' ∷ [];
}

abbrev hello_wire : List ℕ
hello_wire = 0 ∷ 1 ∷ 1 ∷ 2 ∷ 1 ∷ 2 ∷ (sample_nonce ++ (b'L' ∷ b'F' ∷ []))

abbrev sample_offer : Capabilities
sample_offer = record {
  max_width = 1920;
  max_height = 1080;
  max_refresh_millihz = 60_000;
  max_bitrate_kbps = 20_000;
  codecs = 1;
  input = 3;
  features = 4;
}

abbrev offer_wire : List ℕ
offer_wire =
    7 ∷ 128 ∷ 4 ∷ 56 ∷ 0 ∷ 0 ∷ 234 ∷ 96 ∷ 0 ∷ 0 ∷ 78 ∷ 32 ∷ 0 ∷ 1 ∷ 0 ∷ 3 ∷ 0 ∷ 0 ∷ 0 ∷ 4 ∷ []

hello_encoded : encode_hello sample_hello ≡ ok hello_wire
unfolding encode_hello contains_null
hello_encoded = refl

hello_decoded : decode_hello hello_wire ≡ ok sample_hello
unfolding decode_hello role_of_id is_utf8 contains_null
hello_decoded = refl

hello_truncated : decode_hello (0 ∷ 1 ∷ []) ≡ err (invalid_payload "hello payload is truncated")
unfolding decode_hello
hello_truncated = refl

offer_encoded : encode_capabilities sample_offer ≡ ok offer_wire
unfolding encode_capabilities
offer_encoded = refl

offer_decoded : decode_capabilities offer_wire ≡ ok sample_offer
unfolding decode_capabilities codecs_from_bits input_from_bits features_from_bits
offer_decoded = refl

sample-IsHello : IsHello sample_hello
unfolding is_utf8 contains_null
sample-IsHello = record {
  range = (omega arith, omega arith, omega arith);
  nonce = refl;
  name_length = (omega arith, omega arith);
  name_text = refl;
  name_null = refl;
}

sample-IsOffer : IsOffer sample_offer
sample-IsOffer = record {
  width = (omega arith, omega arith);
  height = (omega arith, omega arith);
  refresh = (omega arith, omega arith);
  bitrate = (omega arith, omega arith);
  codec = (omega arith, omega arith);
  inputs = omega arith;
  feature = omega arith;
}

abbrev hello_frame : Frame
hello_frame = record {
  header = record {
    version = 1;
    kind = MessageType.hello;
    flags = 0;
    sequence = 5;
    payload_len = 24;
  };
  payload = hello_wire;
}

hello_is_no_offer : MessageType.hello ≢ MessageType.capabilities
hello_is_no_offer e = ground arith

decode_payload_other_example :
    decode_payload {A = Capabilities} hello_frame
    ≡ err (unexpected_message_type MessageType.capabilities MessageType.hello)
decode_payload_other_example = decode_payload_other {A = Capabilities} hello_frame hello_is_no_offer

abbrev offer_frame : Frame
offer_frame = record {
  header = record {
    version = 1;
    kind = MessageType.capabilities;
    flags = 0;
    sequence = 6;
    payload_len = 20;
  };
  payload = offer_wire;
}

hello_framed : from_payload 0 5 sample_hello ≡ ok hello_frame
unfolding from_payload encode_hello contains_null new_frame
hello_framed = refl

offer_framed : from_payload 0 6 sample_offer ≡ ok offer_frame
unfolding from_payload encode_capabilities new_frame
offer_framed = refl

-- The two frames, cut inside the first header.
abbrev handshake_chunks : List (List ℕ)
handshake_chunks =
    take 10 (encode_all (hello_frame ∷ offer_frame ∷ []))
    ∷ drop 10 (encode_all (hello_frame ∷ offer_frame ∷ []))
    ∷ []

handshake_whole : flatten handshake_chunks ≡ encode_all (hello_frame ∷ offer_frame ∷ [])
unfolding flatten encode_frame encode_header
handshake_whole = refl

push_all-from_payload_example :
    (push_all new_decoder handshake_chunks ≡ (new_decoder, ok (hello_frame ∷ offer_frame ∷ [])))
    × (decode_payload hello_frame ≡ ok sample_hello)
    × (decode_payload offer_frame ≡ ok sample_offer)
push_all-from_payload_example =
    push_all-from_payload sample_hello sample_offer 5 6 hello_frame offer_frame handshake_chunks
      sample-IsHello sample-IsOffer (omega arith) (omega arith) hello_framed offer_framed
      handshake_whole
