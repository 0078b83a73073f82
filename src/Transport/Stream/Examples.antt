-- ===== src/Transport/Stream/Examples.antt =====
-- The stream types at concrete frames, and the theorems at such frames.
use lado_flow.Base.{ℕ, ◌≡◌, refl, arith, List, [], ◌∷◌, ◌++◌, All, map, ok, err}
use mathlib.Core.List.{flatten}
use lado_flow.Base.Bytes.{IsByte}
use lado_flow.Protocol.Error.{MessageType}
use lado_flow.Protocol.Frame.{
  Frame, encode_frame, encode_header, decode_prefix, decode_header, flags_from_bits, kind_of_id,
}
use lado_flow.Transport.Packet.{Packet, control, media, control_packet, replaceable_media}
use lado_flow.Transport.Queue.{try_push}
use lado_flow.Transport.Loopback.{
  Side, Link, loopback_pair, default_config, send, perform, endpoint,
}
use lado_flow.Transport.Loopback.Accounts.{after}
use lado_flow.Transport.Stream.{
  channel_for_message, ldfl_packet_sequence, receive_all, new_packet_decoder, new_mux, drain,
  wrong_channel,
}
use lado_flow.Transport.Stream.Wire.{Carries, sequence_of_Carries, unkeyed, receive_all_sent}
use lado_flow.Transport.Stream.Items.{Item, Merged}
use lado_flow.Transport.Stream.Delivery.{drain-endpoint}

abbrev frame_of : MessageType → ℕ → Frame
frame_of kind sequence = record {
  header = record { version = 1; kind = kind; flags = 0; sequence = sequence; payload_len = 2 };
  payload = 10 ∷ 20 ∷ [];
}

-- A ping that was sent before a video frame, and a pong behind it.
abbrev ping : Packet
ping = control_packet (encode_frame (frame_of MessageType.ping 3))

abbrev video : Packet
video = replaceable_media 9 (encode_frame (frame_of MessageType.video_frame 4))

abbrev pong : Packet
pong = control_packet (encode_frame (frame_of MessageType.pong 5))

ping-Carries : Carries ping (frame_of MessageType.ping 3)
unfolding channel_for_message
ping-Carries = record {
  frame = record {
    header = record {
      version = refl;
      flags = omega arith;
      sequence = omega arith;
      bounded = omega arith;
    };
    declared = refl;
  };
  payload = refl;
  channel = refl;
}

sequence_of_ping : ldfl_packet_sequence ping ≡ ok 3
sequence_of_ping = sequence_of_Carries ping (frame_of MessageType.ping 3) ping-Carries

sequence_of_video : ldfl_packet_sequence video ≡ ok 4
unfolding ldfl_packet_sequence encode_frame encode_header decode_prefix decode_header
    flags_from_bits kind_of_id channel_for_message
sequence_of_video = refl

sequence_of_pong : ldfl_packet_sequence pong ≡ ok 5
unfolding ldfl_packet_sequence encode_frame encode_header decode_prefix decode_header
    flags_from_bits kind_of_id channel_for_message
sequence_of_pong = refl

video_on_control :
    ldfl_packet_sequence (record video { channel = control })
    ≡ err (wrong_channel MessageType.video_frame control media)
unfolding ldfl_packet_sequence encode_frame encode_header decode_prefix decode_header
    flags_from_bits kind_of_id channel_for_message
video_on_control = refl

ping_bytes : All IsByte ping.payload
unfolding encode_frame encode_header
ping_bytes = omega arith

pong_bytes : All IsByte pong.payload
unfolding encode_frame encode_header
pong_bytes = omega arith

abbrev chunks : List (List ℕ)
chunks = (ping.payload ++ pong.payload) ∷ []

receive_all_sent_example :
    receive_all new_packet_decoder chunks
    ≡ (new_packet_decoder, ok (map unkeyed (ping ∷ pong ∷ [])))
unfolding flatten encode_frame encode_header
receive_all_sent_example =
    receive_all_sent (ping ∷ pong ∷ []) chunks
      (
        record { bytes = ping_bytes; sequence = 3; numbered = sequence_of_ping },
        (record { bytes = pong_bytes; sequence = 5; numbered = sequence_of_pong }, tt),
      )
      refl (omega arith)

abbrev controls : List Item
controls =
    record { number = 3; packet = ping; numbered = sequence_of_ping }
    ∷ record { number = 5; packet = pong; numbered = sequence_of_pong }
    ∷ []

abbrev videos : List Item
videos = record { number = 4; packet = video; numbered = sequence_of_video } ∷ []

-- The link when the first side has sent all three.
abbrev loaded : Link
loaded =
    after (send Side.first ping ∷ send Side.first pong ∷ send Side.first video ∷ [])
      (loopback_pair default_config)

drain-endpoint_example : Merged controls videos (drain (endpoint Side.second) 4 new_mux loaded)
unfolding after perform try_push encode_frame encode_header
drain-endpoint_example =
    drain-endpoint Side.second loaded controls videos 4 refl refl refl (omega arith) (omega arith)
      (omega arith) (omega arith)
