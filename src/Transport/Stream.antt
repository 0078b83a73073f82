-- ===== src/Transport/Stream.antt =====
-- crates/ladoflow-transport/src/ldfl_stream.rs: packets from a byte stream, and two lanes merged into
-- the order of their sequence numbers. An error keeps the protocol error whose text the source
-- formats.
pub mod Wire
pub mod Items
pub mod Merge
pub mod Delivery
mod Examples
use lado_flow.Base.{
  ◌==◌, not, ltb, if◌then◌else◌, Bool, true, false, Option, none, some, List, [], ◌∷◌, ◌++◌, map,
  Result, ok, err, ◌>>=◌, ◌>>◌, guard, ℕ, zero, suc,
}
use lado_flow.Protocol.Error.{ProtocolError, MessageType}
use lado_flow.Protocol.Frame.{
  Frame, DecodeOutcome, complete, need_more_data, decode_prefix, encode_frame,
}
use lado_flow.Protocol.Decoder.{FrameDecoder, new_decoder}
use lado_flow.Protocol.Decoder
use lado_flow.Transport.Packet.{
  Channel, control, media, Packet, control_packet, media_packet, packet_len, ReceiveError,
  PacketTransport,
}

pub data LdflStreamError : Type 0 where
  decode : (reason : ProtocolError) → LdflStreamError
  partial_packet trailing_bytes : LdflStreamError
  wrong_channel : (kind : MessageType) (actual expected : Channel) → LdflStreamError
  duplicate_sequence : (sequence : ℕ) → LdflStreamError
  queue_disconnected : (channel : Channel) → LdflStreamError

unfoldable pub channel_for_message : MessageType → Channel
channel_for_message MessageType.video_frame = Channel.media
channel_for_message kind = Channel.control

-- `==` on channels.
abbrev pub same_channel : Channel → Channel → Bool
same_channel Channel.control Channel.control = true
same_channel Channel.media Channel.media = true
same_channel a b = false

unfoldable pub packet_from_frame : Frame → Packet
packet_from_frame f =
    if same_channel (channel_for_message f.header.kind) Channel.media
    then media_packet (encode_frame f)
    else control_packet (encode_frame f)

-- `map_err` of an error that only the stream type wraps.
abbrev wrap : {A : Type 0} → Result ProtocolError A → Result LdflStreamError A
wrap (ok a) = ok a
wrap (err e) = err (decode e)

-- What follows the decoding of the packet.
check_outcome : Packet → DecodeOutcome → Result LdflStreamError ℕ
check_outcome p (need_more_data minimum) = err partial_packet
check_outcome p (complete frame consumed) = do
  guard (consumed == packet_len p) trailing_bytes
  let expected = channel_for_message frame.header.kind
  guard (same_channel p.channel expected) (wrong_channel frame.header.kind p.channel expected)
  ok frame.header.sequence

unfoldable pub ldfl_packet_sequence : Packet → Result LdflStreamError ℕ
unfolding check_outcome
ldfl_packet_sequence p = do outcome ← wrap (decode_prefix p.payload); check_outcome p outcome

-- `LdflPacketDecoder::new` and `push`.
abbrev pub new_packet_decoder : FrameDecoder
new_packet_decoder = new_decoder

abbrev to_packets : Result ProtocolError (List Frame) → Result LdflStreamError (List Packet)
to_packets (ok frames) = ok (map packet_from_frame frames)
to_packets (err e) = err (decode e)

unfoldable pub push_packets :
    FrameDecoder → List ℕ → FrameDecoder × Result LdflStreamError (List Packet)
push_packets d bytes = let (d', frames) = Decoder.push d bytes in (d', to_packets frames)

-- The calls of `push` for a list of chunks, up to the first error.
abbrev behind :
    List Packet
    → FrameDecoder × Result LdflStreamError (List Packet)
    → FrameDecoder × Result LdflStreamError (List Packet)
behind ps (d, ok qs) = (d, ok (ps ++ qs))
behind ps (d, err e) = (d, err e)

abbrev continue_with :
    (FrameDecoder → FrameDecoder × Result LdflStreamError (List Packet))
    → FrameDecoder × Result LdflStreamError (List Packet)
    → FrameDecoder × Result LdflStreamError (List Packet)
continue_with more (d, ok ps) = behind ps (more d)
continue_with more (d, err e) = (d, err e)

unfoldable pub receive_all :
    FrameDecoder → List (List ℕ) → FrameDecoder × Result LdflStreamError (List Packet)
receive_all d [] = (d, ok [])
receive_all d (c ∷ cs) = continue_with (λ d'. receive_all d' cs) (push_packets d c)

pub record LdflPacketMux : Type 0 where
  pub control : Option Packet
  pub media : Option Packet

abbrev pub new_mux : LdflPacketMux
new_mux = record { control = none; media = none }

-- The choice between two filled slots by sequence number; an error leaves both filled.
pick_earlier : Packet → Packet → Result LdflStreamError (Option Packet) × LdflPacketMux
unfolding ldfl_packet_sequence
pick_earlier c d =
    let both : LdflPacketMux = record { control = some c; media = some d } in
    elim (ldfl_packet_sequence c) [
      | err e ↦ (err e, both)
      | ok control_sequence ↦ elim (ldfl_packet_sequence d) [
        | err e ↦ (err e, both)
        | ok media_sequence ↦
            if control_sequence == media_sequence
            then (err (duplicate_sequence control_sequence), both)
            else if ltb control_sequence media_sequence
            then (ok (some c), record both { control = none })
            else (ok (some d), record both { media = none })
      ]
    ]

-- One filled slot: its packet, where it is valid.
pick_lone :
    Packet → LdflPacketMux → LdflPacketMux → Result LdflStreamError (Option Packet) × LdflPacketMux
pick_lone p kept emptied = elim (ldfl_packet_sequence p) [
  | err e ↦ (err e, kept)
  | ok sequence ↦ (ok (some p), emptied)
]

-- The `match` on the two slots.
unfoldable pub pick :
    Option Packet → Option Packet → Result LdflStreamError (Option Packet) × LdflPacketMux
unfolding pick_earlier pick_lone
pick (some c) (some d) = pick_earlier c d
pick (some c) none = pick_lone c (record { control = some c; media = none }) new_mux
pick none (some d) = pick_lone d (record { control = none; media = some d }) new_mux
pick none none = (ok none, new_mux)

-- `try_receive` with its error mapped.
abbrev receive_error :
    Channel → Result ReceiveError (Option Packet) → Result LdflStreamError (Option Packet)
receive_error channel (ok slot) = ok slot
receive_error channel (err e) = err (queue_disconnected channel)

-- One packet in front of what the further calls return.
abbrev after_next :
    Result LdflStreamError (Option Packet)
    → Result LdflStreamError (List Packet)
    → Result LdflStreamError (List Packet)
after_next (err e) rest = err e
after_next (ok none) rest = ok []
after_next (ok (some p)) (ok ps) = ok (p ∷ ps)
after_next (ok (some p)) (err e) = err e

module _ {S : Type 0} (t : PacketTransport S) where
  -- A slot that holds a packet keeps it; an empty one asks the transport.
  fill_slot : Channel → Option Packet → S → Result LdflStreamError (Option Packet) × S
  fill_slot channel (some p) s = (ok (some p), s)
  fill_slot channel none s = let (r, s') = t.try_receive s channel in (receive_error channel r, s')

  unfoldable pub next :
      LdflPacketMux → S → Result LdflStreamError (Option Packet) × LdflPacketMux × S
  unfolding fill_slot pick
  next m s =
      let (filled, s1) = fill_slot Channel.control m.control s in
      elim filled [
        | err e ↦ (err e, m, s1)
        | ok first ↦
            let (filled', s2) = fill_slot Channel.media m.media s1 in
            elim filled' [
              | err e ↦ (err e, record m { control = first }, s2)
              | ok second ↦ let (r, m') = pick first second in (r, m', s2)
            ]
      ]

  -- The calls of `next` until it has no packet, at most as many as the fuel.
  unfoldable pub drain : ℕ → LdflPacketMux → S → Result LdflStreamError (List Packet)
  unfolding next
  drain zero m s = ok []
  drain (suc fuel) m s = let (r, m', s') = next m s in after_next r (drain fuel m' s')
