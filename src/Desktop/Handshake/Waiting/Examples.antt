-- ===== src/Desktop/Handshake/Waiting/Examples.antt =====
-- The whole exchange over a loopback link, and the theorems at it.
use lado_flow.Base.{
  ℕ, ◌≡◌, ◌+◌, ◌*◌, ◌==◌, ◌<◌, refl, arith, inr, ◌∷◌, false, Bool, Option, none, some, [], Result,
  ok, err, if◌then◌else◌,
}
use lado_flow.Protocol.Frame.{
  new_frame, encode_frame, encode_header, decode_prefix, decode_header, flags_from_bits, kind_of_id,
}
use lado_flow.Base.Utf8.{is_utf8}
use lado_flow.Transport.Packet.{Channel, Packet, control_packet, SendReport, no_depth}
use lado_flow.Transport.Queue.{try_push, pop}
use lado_flow.Transport.Loopback.{
  Link, Side, try_send, try_receive, push_channel, pop_channel, outgoing, set_outgoing,
  loopback_pair, default_config, endpoint,
}
use lado_flow.Protocol.Message.{
  new_hello, new_capabilities, contains_null, same_role, role_of_id, encode_hello, decode_hello,
  encode_capabilities, decode_capabilities, codecs_from_bits, input_from_bits, features_from_bits,
}
use lado_flow.Protocol.Message.Payload.{
  hello_payload, capabilities_payload, from_payload, decode_payload,
}
use lado_flow.Protocol.Display.{display_config_payload, new_display_config, encode_display_config}
use lado_flow.Core.Negotiation.{negotiate}
use lado_flow.Core.Session.{start, establish, observe_sequence, new_session}
use lado_flow.Desktop.Modes.{
  select_display_config, select_bounded_display_dimensions, compare_mode_fit, target_h264_bitrate,
  select_refresh,
}
use lado_flow.Desktop.Handshake.{
  with_nonce, initial_packets, payload_packet, accept, accept_read, accept_frame, read_control,
  is_control, whole_frame, take_payload, settle, establish_host, open_session, observe_highest,
  HandshakeError, timed_out, HostHandshake, EstablishedHostSession,
}
use lado_flow.Desktop.Handshake.Exchange.{established}
use lado_flow.Desktop.Handshake.Examples.{
  request, nonce, host, host_made, tablet_hello, tablet_offer, tablet-IsHello, tablet-IsOffer,
  agreement, agreed, plan, planned, hello_packet, offer_packet, hello_sent, offer_sent,
}
use lado_flow.Desktop.Handshake.Waiting.{
  Waiting, new_handshake, wait_result, check_wait, send_reliable_control, negotiate_loop, confirm,
  negotiate_host_transport,
}
use lado_flow.Desktop.Handshake.Waiting.Ends.{negotiate_host_transport-terminates}
use lado_flow.Desktop.Handshake.Waiting.Steps.{Sends, taken, Hears, silence, heard, final}
use lado_flow.Desktop.Handshake.Waiting.Establishes.{negotiate_host_transport-established}
use lado_flow.Desktop.Handshake.Waiting.Outcome.{
  Concludes, AllPassed, negotiate_host_transport-Concludes,
}

-- The display sends its two packets before the third check.
abbrev display_sends : ℕ → Link → Link
display_sends n l =
    if n == 2
    then (try_send Side.second (try_send Side.second l (hello_packet 4)).1 (offer_packet 9)).1
    else l

abbrev not_cancelled : ℕ → Bool
not_cancelled n = false

-- A check each millisecond.
abbrev clock : ℕ → ℕ
clock n = n * 1000

abbrev fresh_link : Waiting Link
fresh_link = record { checks = 0; link = loopback_pair default_config }

sixth_check_refuses :
    wait_result (endpoint Side.first) display_sends not_cancelled clock (0 + 5000) 5 ≡ err timed_out
unfolding wait_result
sixth_check_refuses = refl

negotiate_host_transport-terminates_example :
    (r : Result HandshakeError EstablishedHostSession) × (w : Waiting Link)
    × (negotiate_host_transport
          (endpoint Side.first)
          display_sends
          not_cancelled
          clock
          6
          0
          request
          (some nonce)
          5000
          fresh_link
        ≡ some (r, w))
negotiate_host_transport-terminates_example =
    negotiate_host_transport-terminates (endpoint Side.first) display_sends not_cancelled clock
      request (some nonce) 0 5000 (loopback_pair default_config) 5 timed_out 6 sixth_check_refuses
      (omega arith)

abbrev state_after :
    Option (Result HandshakeError EstablishedHostSession × Waiting Link) → Waiting Link
state_after none = fresh_link
state_after (some (r, w)) = w

abbrev exchange : Option (Result HandshakeError EstablishedHostSession × Waiting Link)
exchange =
    negotiate_host_transport (endpoint Side.first) display_sends not_cancelled clock 6 0 request
      (some nonce) 5000 fresh_link

exchange_establishes :
    exchange ≡ some (ok (established tablet_hello agreement plan 9), state_after exchange)
unfolding negotiate_host_transport new_handshake send_reliable_control check_wait wait_result
    negotiate_loop confirm with_nonce initial_packets payload_packet accept accept_read accept_frame
    read_control is_control whole_frame take_payload settle establish_host open_session
    observe_highest start establish observe_sequence new_session negotiate same_role
    select_display_config select_bounded_display_dimensions compare_mode_fit target_h264_bitrate
    select_refresh new_display_config new_hello new_capabilities contains_null is_utf8 role_of_id
    encode_hello decode_hello encode_capabilities decode_capabilities codecs_from_bits
    input_from_bits features_from_bits encode_display_config from_payload decode_payload new_frame
    encode_frame encode_header decode_prefix decode_header flags_from_bits kind_of_id try_send
    try_receive push_channel pop_channel outgoing set_outgoing try_push pop
exchange_establishes = refl

negotiate_host_transport-Concludes_example :
    (0 < 5000)
    × (h : HostHandshake) × (new_handshake request (some nonce) ≡ ok h)
    × Concludes
        (endpoint Side.first)
        display_sends
        request
        h
        (loopback_pair default_config)
        (established tablet_hello agreement plan 9)
        (state_after exchange)
    × AllPassed
        (endpoint Side.first)
        display_sends
        not_cancelled
        clock
        (0 + 5000)
        (state_after exchange).checks
negotiate_host_transport-Concludes_example =
    negotiate_host_transport-Concludes (endpoint Side.first) display_sends not_cancelled clock
      request (some nonce) 0 5000 6 (loopback_pair default_config)
      (established tablet_hello agreement plan 9) (state_after exchange) exchange_establishes

-- A display that sends its offer before its hello, before the fourth check.
abbrev display_offers : ℕ → Link → Link
display_offers n l =
    if n == 3
    then (try_send Side.second (try_send Side.second l (offer_packet 4)).1 (hello_packet 9)).1
    else l

abbrev after_send : ℕ → Packet → Link → Link
after_send n p l = (try_send Side.first (display_offers n l) p).1

abbrev after_receive : ℕ → Link → Link
after_receive n l = (try_receive Side.first (display_offers n l) Channel.control).1

abbrev packet_of : Result HandshakeError Packet → Packet
packet_of (ok p) = p
packet_of (err e) = control_packet []

abbrev host_hello_packet : Packet
host_hello_packet = packet_of (payload_packet 0 host.host_hello)

abbrev host_offer_packet : Packet
host_offer_packet = packet_of (payload_packet 1 host.host_capabilities)

abbrev plan_packet : Packet
plan_packet = packet_of (payload_packet 2 plan)

abbrev opened_link : Link
opened_link =
    after_send 1 host_offer_packet (after_send 0 host_hello_packet (loopback_pair default_config))

abbrev heard_link : Link
heard_link = after_receive 4 (after_receive 3 (after_receive 2 opened_link))

abbrev no_report : SendReport
no_report = record { superseded = no_depth }

host_packets : initial_packets host ≡ ok (host_hello_packet, host_offer_packet)
unfolding initial_packets payload_packet from_payload encode_hello encode_capabilities contains_null
    new_frame
host_packets = refl

plan_packet_made : payload_packet 2 plan ≡ ok plan_packet
unfolding payload_packet from_payload encode_display_config new_frame
plan_packet_made = refl

sends_hello :
    Sends
      (endpoint Side.first)
      display_offers
      0
      (loopback_pair default_config)
      host_hello_packet
      1
      (after_send 0 host_hello_packet (loopback_pair default_config))
unfolding payload_packet from_payload encode_hello contains_null new_frame encode_frame
    encode_header try_send push_channel outgoing set_outgoing try_push
sends_hello = taken {report = no_report} refl

sends_offer :
    Sends
      (endpoint Side.first)
      display_offers
      1
      (after_send 0 host_hello_packet (loopback_pair default_config))
      host_offer_packet
      2
      opened_link
unfolding payload_packet from_payload encode_hello encode_capabilities contains_null new_frame
    encode_frame encode_header try_send push_channel outgoing set_outgoing try_push
sends_offer = taken {report = no_report} refl

hears_both :
    Hears
      (endpoint Side.first)
      display_offers
      2
      opened_link
      (offer_packet 4 ∷ hello_packet 9 ∷ [])
      5
      heard_link
unfolding payload_packet from_payload encode_hello encode_capabilities contains_null new_frame
    encode_frame encode_header try_send try_receive push_channel pop_channel outgoing set_outgoing
    try_push pop
hears_both = silence refl (heard refl (final refl))

sends_plan :
    Sends
      (endpoint Side.first)
      display_offers
      5
      heard_link
      plan_packet
      6
      (after_send 5 plan_packet heard_link)
unfolding payload_packet from_payload encode_hello encode_capabilities encode_display_config
    contains_null new_frame encode_frame encode_header try_send try_receive push_channel pop_channel
    outgoing set_outgoing try_push pop
sends_plan = taken {report = no_report} refl

no_refusal :
    (i : ℕ)
    → i < 6
    → wait_result (endpoint Side.first) display_offers not_cancelled clock (0 + 6000) i ≡ ok tt
unfolding wait_result
no_refusal i less = ground arith

negotiate_host_transport-established_example :
    negotiate_host_transport
      (endpoint Side.first)
      display_offers
      not_cancelled
      clock
      6
      0
      request
      (some nonce)
      6000
      fresh_link
    ≡ some (
      ok (established tablet_hello agreement plan 9),
      record { checks = 6; link = after_send 5 plan_packet heard_link },
    )
negotiate_host_transport-established_example =
    negotiate_host_transport-established (endpoint Side.first) display_offers not_cancelled clock
      request nonce host tablet_hello tablet_offer agreement plan 4 9 host_hello_packet
      host_offer_packet (offer_packet 4) (hello_packet 9) plan_packet 0 6000 6 1 2 5 6
      (loopback_pair default_config) (after_send 0 host_hello_packet (loopback_pair default_config))
      opened_link heard_link (after_send 5 plan_packet heard_link) host_made host_packets
      tablet-IsHello tablet-IsOffer (omega arith) (omega arith) agreed planned
      (inr (offer_sent 4, hello_sent 9)) plan_packet_made sends_hello sends_offer hears_both
      sends_plan (omega arith) no_refusal (omega arith)
