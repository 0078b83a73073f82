-- ===== src/Desktop/Handshake/Examples.antt =====
-- The handshake of a host with a tablet, and the theorems at it.
use lado_flow.Base.{ℕ, ◌≡◌, refl, arith, inr, List, [], ◌∷◌, ok, err, none, some}
use lado_flow.Base.Utf8.{is_utf8}
use lado_flow.Protocol.Error.{MessageType}
use lado_flow.Protocol.Frame.{
  new_frame, encode_frame, encode_header, decode_prefix, decode_header, flags_from_bits, kind_of_id,
}
use lado_flow.Protocol.Message.{
  Role, Hello, Capabilities, new_hello, new_capabilities, encode_hello, decode_hello, role_of_id,
  encode_capabilities, contains_null, same_role,
}
use lado_flow.Protocol.Message.Payload.{
  hello_payload, capabilities_payload, from_payload, decode_payload,
}
use lado_flow.Protocol.Message.Handshake.{IsHello}
use lado_flow.Protocol.Message.Offer.{IsOffer}
use lado_flow.Protocol.Display.{DisplayConfig, h264, h264_main, new_display_config}
use lado_flow.Core.Negotiation.{NegotiatedSession, negotiate}
use lado_flow.Transport.Packet.{Packet, control_packet, media_packet}
use lado_flow.Desktop.Modes.{
  HostProtocolConfig, select_bounded_display_dimensions, target_h264_bitrate, select_refresh,
  select_display_config, compare_mode_fit,
}
use lado_flow.Desktop.Handshake.{
  HostHandshake, host_name, host_offer, with_nonce, payload_packet, read_control, is_control,
  accept_read, accept_frame, whole_frame, take_payload, settle, accept, media_before_negotiation,
}
use lado_flow.Desktop.Handshake.Accept.{Progress, Answers, accept-Progress}
use lado_flow.Desktop.Handshake.Exchange.{accept_both, established, accept_both-established}

abbrev pub nonce : List ℕ
nonce = 1 ∷ 2 ∷ 3 ∷ 4 ∷ 5 ∷ 6 ∷ 7 ∷ 8 ∷ 9 ∷ 10 ∷ 11 ∷ 12 ∷ 13 ∷ 14 ∷ 15 ∷ 16 ∷ []

abbrev pub request : HostProtocolConfig
request = record { width = 2560; height = 1600; refresh_hz = 60 }

abbrev pub hello_of : Role → List ℕ → Hello
hello_of role name = record {
  min_protocol = 1;
  max_protocol = 1;
  role = role;
  nonce = nonce;
  implementation_name = name;
}

abbrev pub host : HostHandshake
host = record {
  config = request;
  host_hello = hello_of Role.host host_name;
  host_capabilities = host_offer request;
  display_hello = none;
  display_capabilities = none;
  highest_display_sequence = none;
}

pub host_made : with_nonce request nonce ≡ ok host
unfolding with_nonce new_hello new_capabilities contains_null is_utf8
host_made = refl

-- A tablet that decodes less than the host asks for.
abbrev pub tablet_hello : Hello
tablet_hello = hello_of Role.display (b'L' ∷ b'F' ∷ [])

abbrev pub tablet_offer : Capabilities
tablet_offer = record {
  max_width = 2000;
  max_height = 1300;
  max_refresh_millihz = 30000;
  max_bitrate_kbps = 20000;
  codecs = 1;
  input = 7;
  features = 2;
}

pub tablet-IsHello : IsHello tablet_hello
unfolding is_utf8 contains_null
tablet-IsHello = record {
  range = (omega arith, omega arith, omega arith);
  nonce = refl;
  name_length = (omega arith, omega arith);
  name_text = refl;
  name_null = refl;
}

pub tablet-IsOffer : IsOffer tablet_offer
tablet-IsOffer = record {
  width = (omega arith, omega arith);
  height = (omega arith, omega arith);
  refresh = (omega arith, omega arith);
  bitrate = (omega arith, omega arith);
  codec = (omega arith, omega arith);
  inputs = omega arith;
  feature = omega arith;
}

abbrev pub agreement : NegotiatedSession
agreement = record {
  protocol_version = 1;
  capabilities = record {
    max_width = 2000;
    max_height = 1300;
    max_refresh_millihz = 30000;
    max_bitrate_kbps = 20000;
    codec_bits = 1;
    input_bits = 7;
    feature_bits = 2;
  };
}

abbrev pub plan : DisplayConfig
plan = record {
  width = 1920;
  height = 1200;
  refresh_millihz = 30000;
  bitrate_kbps = 8294;
  codec = h264;
  profile = h264_main;
}

pub agreed :
    negotiate host.host_hello host.host_capabilities tablet_hello tablet_offer ≡ ok agreement
unfolding negotiate same_role
agreed = refl

pub planned : select_display_config request agreement ≡ ok plan
unfolding select_display_config select_bounded_display_dimensions compare_mode_fit
    target_h264_bitrate select_refresh new_display_config
planned = refl

abbrev pub framed : MessageType → ℕ → ℕ → List ℕ → Packet
framed kind sequence size bytes = control_packet (
    encode_frame (record {
      header = record {
        version = 1;
        kind = kind;
        flags = 0;
        sequence = sequence;
        payload_len = size;
      };
      payload = bytes;
    }))

abbrev pub hello_packet : ℕ → Packet
hello_packet n = framed MessageType.hello n 24 (
    0 ∷ 1 ∷ 0 ∷ 1 ∷ 2 ∷ 2 ∷ 1 ∷ 2 ∷ 3 ∷ 4 ∷ 5 ∷ 6 ∷ 7 ∷ 8 ∷ 9 ∷ 10 ∷ 11 ∷ 12 ∷ 13 ∷ 14 ∷ 15 ∷ 16
    ∷ b'L' ∷ b'F' ∷ [])

abbrev pub offer_packet : ℕ → Packet
offer_packet n =
    framed MessageType.capabilities n 20
      (7 ∷ 208 ∷ 5 ∷ 20 ∷ 0 ∷ 0 ∷ 117 ∷ 48 ∷ 0 ∷ 0 ∷ 78 ∷ 32 ∷ 0 ∷ 1 ∷ 0 ∷ 7 ∷ 0 ∷ 0 ∷ 0 ∷ 2 ∷ [])

pub hello_sent : (n : ℕ) → payload_packet n tablet_hello ≡ ok (hello_packet n)
unfolding payload_packet from_payload encode_hello contains_null new_frame
hello_sent n = refl

pub offer_sent : (n : ℕ) → payload_packet n tablet_offer ≡ ok (offer_packet n)
unfolding payload_packet from_payload encode_capabilities new_frame
offer_sent n = refl

media_is_refused : accept host (media_packet (1 ∷ [])) ≡ (err media_before_negotiation, host)
unfolding accept accept_read read_control is_control
media_is_refused = refl

accept_both-established_example :
    accept_both host (offer_packet 4) (hello_packet 9)
    ≡ (ok none, ok (some (established tablet_hello agreement plan 9)))
accept_both-established_example =
    accept_both-established request nonce host tablet_hello tablet_offer agreement plan 4 9
      (offer_packet 4) (hello_packet 9) host_made tablet-IsHello tablet-IsOffer (omega arith)
      (omega arith) agreed planned (inr (offer_sent 4, hello_sent 9))

-- The first of the two packets alone.
abbrev heard : HostHandshake
heard = record host { display_hello = some tablet_hello; highest_display_sequence = some 4 }

hello_accepted : accept host (hello_packet 4) ≡ (ok none, heard)
unfolding accept accept_read accept_frame read_control is_control whole_frame take_payload settle
    encode_frame encode_header decode_prefix decode_header flags_from_bits kind_of_id decode_payload
    decode_hello role_of_id is_utf8 contains_null
hello_accepted = refl

accept-Progress_example : Progress host (hello_packet 4) heard × Answers heard none
accept-Progress_example = accept-Progress host heard (hello_packet 4) none hello_accepted
