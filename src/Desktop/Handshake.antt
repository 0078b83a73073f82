-- ===== src/Desktop/Handshake.antt =====
-- apps/desktop/src-tauri/src/host_protocol.rs, first part: the exchange of Hello, Capabilities and
-- DisplayConfig on the host. An error text of the source is a constructor here.
pub mod Accept
pub mod Exchange
pub mod Waiting
mod Examples
use lado_flow.Base.{
  ℕ, zero, suc, ◌+◌, ◌*◌, ◌==◌, ◌&&◌, not, Bool, true, false, is_some, Option, none, some, List, [],
  ◌∷◌, ltb, leb, if◌then◌else◌, Result, ok, err, ◌>>=◌, ◌>>◌, guard,
}
use lado_flow.Protocol.Error.{ProtocolError, MessageType}
use lado_flow.Protocol.Frame.{
  Frame, encode_frame, DecodeOutcome, complete, need_more_data, decode_prefix, protocol_version,
}
use lado_flow.Protocol.Message.{Role, Hello, new_hello, Capabilities, new_capabilities}
use lado_flow.Protocol.Message.Payload.{
  WirePayload, hello_payload, capabilities_payload, from_payload, decode_payload,
}
use lado_flow.Protocol.Display.{DisplayConfig, display_config_payload}
use lado_flow.Core.Negotiation.{NegotiatedSession, NegotiationError, negotiate}
use lado_flow.Core.Session
use lado_flow.Core.Session.{
  Session, SessionError, new_session, start, establish, observe_sequence, restart,
}
use lado_flow.Transport.Packet.{
  Channel, control, media, Packet, control_packet, packet_len, SendError, SendReport, ReceiveError,
  PacketTransport,
}
use lado_flow.Desktop.Modes.{ModeError, HostProtocolConfig, select_display_config}

abbrev pub first_active_sequence : ℕ
first_active_sequence = 3

pub data HandshakeError : Type 0 where
  media_before_negotiation partial_frame trailing_bytes : HandshakeError
  protocol : (reason : ProtocolError) → HandshakeError
  not_newer : (sequence : ℕ) → HandshakeError
  hello_twice capabilities_twice : HandshakeError
  too_early : (kind : MessageType) → HandshakeError
  hello_missing capabilities_missing : HandshakeError
  negotiation : (reason : NegotiationError) → HandshakeError
  mode : (reason : ModeError) → HandshakeError
  session_refused : (reason : SessionError) → HandshakeError
  no_randomness zero_timeout cancelled timed_out link_lost send_refused : HandshakeError

pub record EstablishedHostSession : Type 0 where
  pub session : Session
  pub display_config : DisplayConfig
  pub peer_name : List ℕ
  pub next_sequence : ℕ

pub record HostHandshake : Type 0 where
  pub config : HostProtocolConfig
  pub host_hello : Hello
  pub host_capabilities : Capabilities
  pub display_hello : Option Hello
  pub display_capabilities : Option Capabilities
  pub highest_display_sequence : Option ℕ

-- `map_err` of the errors that are only formatted.
abbrev pub protocol_result : {A : Type 0} → Result ProtocolError A → Result HandshakeError A
protocol_result (ok a) = ok a
protocol_result (err e) = err (protocol e)

abbrev pub mode_result : {A : Type 0} → Result ModeError A → Result HandshakeError A
mode_result (ok a) = ok a
mode_result (err e) = err (mode e)

abbrev pub negotiation_result : {A : Type 0} → Result NegotiationError A → Result HandshakeError A
negotiation_result (ok a) = ok a
negotiation_result (err e) = err (negotiation e)

abbrev pub session_result : {A : Type 0} → Result SessionError A → Result HandshakeError A
session_result (ok a) = ok a
session_result (err e) = err (session_refused e)

-- "LadoFlow desktop".
abbrev pub host_name : List ℕ
host_name =
    b'L' ∷ b'a' ∷ b'd' ∷ b'o' ∷ b'F' ∷ b'l' ∷ b'o' ∷ b'w' ∷ b' ' ∷ b'd' ∷ b'e' ∷ b's' ∷ b'k' ∷ b't'
    ∷ b'o' ∷ b'p' ∷ []

-- H.264, pointer with touch and keyboard, and the remote cursor.
abbrev pub host_offer : HostProtocolConfig → Capabilities
host_offer config = record {
  max_width = config.width;
  max_height = config.height;
  max_refresh_millihz = config.refresh_hz * 1000;
  max_bitrate_kbps = 40000;
  codecs = 1;
  input = 1 + 2 + 4;
  features = 2;
}

unfoldable pub with_nonce : HostProtocolConfig → List ℕ → Result HandshakeError HostHandshake
with_nonce config nonce = do
  hello ← protocol_result (new_hello protocol_version protocol_version Role.host nonce host_name)
  capabilities ← protocol_result (new_capabilities (host_offer config))
  ok (record {
    config = config;
    host_hello = hello;
    host_capabilities = capabilities;
    display_hello = none;
    display_capabilities = none;
    highest_display_sequence = none;
  })

-- `control_packet` of the source, for any payload family.
module _ {A : Type 0} ⦃w : WirePayload A⦄ where
  unfoldable pub payload_packet : ℕ → A → Result HandshakeError Packet
  payload_packet sequence payload = do
    frame ← protocol_result (from_payload 0 sequence payload)
    ok (control_packet (encode_frame frame))

unfoldable pub initial_packets : HostHandshake → Result HandshakeError (Packet × Packet)
unfolding payload_packet
initial_packets h = do
  hello ← payload_packet 0 h.host_hello
  capabilities ← payload_packet 1 h.host_capabilities
  ok (hello, capabilities)

-- The decoding of a packet in `accept`.
pub is_control : Channel → Bool
is_control Channel.control = true
is_control Channel.media = false

pub whole_frame : Packet → DecodeOutcome → Result HandshakeError Frame
whole_frame p (need_more_data minimum) = err partial_frame
whole_frame p (complete frame consumed) = do
  guard (consumed == packet_len p) trailing_bytes
  ok frame

unfoldable pub read_control : Packet → Result HandshakeError Frame
unfolding is_control whole_frame
read_control p = do
  guard (is_control p.channel) media_before_negotiation
  outcome ← protocol_result (decode_prefix p.payload)
  whole_frame p outcome

-- `is_some_and(|highest| sequence <= highest)`.
abbrev pub is_stale : Option ℕ → ℕ → Bool
is_stale none sequence = false
is_stale (some highest) sequence = leb sequence highest

-- The `match` on the kind of the frame: a payload is kept once.
abbrev take_hello : HostHandshake → Frame → Result HandshakeError HostHandshake
take_hello h f = if is_some h.display_hello then err hello_twice else do
  hello ← protocol_result (decode_payload {A = Hello} f)
  ok (record h { display_hello = some hello })

abbrev take_capabilities : HostHandshake → Frame → Result HandshakeError HostHandshake
take_capabilities h f = if is_some h.display_capabilities then err capabilities_twice else do
  offer ← protocol_result (decode_payload {A = Capabilities} f)
  ok (record h { display_capabilities = some offer })

unfoldable pub take_payload :
    MessageType → HostHandshake → Frame → Result HandshakeError HostHandshake
take_payload MessageType.hello h f = take_hello h f
take_payload MessageType.capabilities h f = take_capabilities h f
take_payload kind h f = err (too_early kind)

-- `ok_or_else`.
abbrev need : {A : Type 0} → Option A → HandshakeError → Result HandshakeError A
need none e = err e
need (some a) e = ok a

-- The calls of the new session.
observe_highest : Session → Option ℕ → Result HandshakeError Session
observe_highest s none = ok s
observe_highest s (some sequence) =
    let (s', r) = observe_sequence s sequence in session_result r >>= λ _. ok s'

pub open_session : NegotiatedSession → Option ℕ → Result HandshakeError Session
unfolding observe_highest
open_session agreement highest =
    let (s1, r1) = start new_session in
    session_result r1 >>= λ _.
    let (s2, r2) = establish s1 agreement restart in
    session_result r2 >>= λ _. observe_highest s2 highest

-- `HostHandshake::establish`.
unfoldable pub establish_host : HostHandshake → Result HandshakeError EstablishedHostSession
unfolding open_session
establish_host h = do
  display_hello ← need h.display_hello hello_missing
  display_capabilities ← need h.display_capabilities capabilities_missing
  agreement ←
      negotiation_result
        (negotiate h.host_hello h.host_capabilities display_hello display_capabilities)
  display_config ← mode_result (select_display_config h.config agreement)
  session ← open_session agreement h.highest_display_sequence
  ok (record {
    session = session;
    display_config = display_config;
    peer_name = display_hello.implementation_name;
    next_sequence = first_active_sequence;
  })

abbrev pub finished :
    Result HandshakeError EstablishedHostSession
    → Result HandshakeError (Option EstablishedHostSession)
finished (ok e) = ok (some e)
finished (err e) = err e

-- The end of `accept`, once the payload is taken or refused.
pub settle :
    HostHandshake
    → Result HandshakeError HostHandshake
    → Result HandshakeError (Option EstablishedHostSession) × HostHandshake
unfolding establish_host
settle h (err e) = (err e, h)
settle h (ok h') =
    if is_some h'.display_hello && is_some h'.display_capabilities
    then (finished (establish_host h'), h')
    else (ok none, h')

-- `accept` of a frame.
pub accept_frame :
    HostHandshake → Frame → Result HandshakeError (Option EstablishedHostSession) × HostHandshake
unfolding take_payload settle
accept_frame h f =
    let noted = record h { highest_display_sequence = some f.header.sequence } in
    if is_stale h.highest_display_sequence f.header.sequence
    then (err (not_newer f.header.sequence), h)
    else settle noted (take_payload f.header.kind noted f)

pub accept_read :
    HostHandshake
    → Result HandshakeError Frame
    → Result HandshakeError (Option EstablishedHostSession) × HostHandshake
unfolding accept_frame
accept_read h (err e) = (err e, h)
accept_read h (ok f) = accept_frame h f

unfoldable pub accept :
    HostHandshake → Packet → Result HandshakeError (Option EstablishedHostSession) × HostHandshake
unfolding read_control accept_read
accept h p = accept_read h (read_control p)
