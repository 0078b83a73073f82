-- ===== src/Transport/Stream/Wire.antt =====
-- Packets against the frames that they carry, and packets cut out of a byte stream.
use lado_flow.Base.{
  ℕ, ◌≤◌, ◌≡◌, ◌↔◌, refl, sym, ap, ◌∙◌, arith, true, inl, inr, none, List, [], ◌∷◌, ◌++◌, map, All,
  length, Result, ok, err, Result-cases, drop, drop-length, append_both,
}
use mathlib.Core.List.{append-nil, flatten, map-append}
use lado_flow.Base.Bytes.{IsByte}
use lado_flow.Protocol.Error.{ProtocolError}
use lado_flow.Protocol.Frame.{
  Frame, complete, need_more_data, decode_prefix, encode_frame, encoded_len, max_buffered_bytes,
}
use lado_flow.Protocol.Frame.Prefix.{IsFrame, decode_prefix-encode_frame, length-encode_frame}
use lado_flow.Protocol.Frame.Stream.{decode_prefix-canonical}
use lado_flow.Protocol.Decoder.{FrameDecoder, new_decoder, push}
use lado_flow.Protocol.Decoder.Parses.{encode_all}
use lado_flow.Protocol.Decoder.Chunks.{push_all, push_all-encode_all, prepend, after_push}
use lado_flow.Transport.Packet.{Channel, Packet}
use lado_flow.Transport.Stream.{
  LdflStreamError, channel_for_message, packet_from_frame, ldfl_packet_sequence, check_outcome,
  push_packets, same_channel, to_packets, receive_all, new_packet_decoder, continue_with, behind,
}

abbrev payload_of : Packet → List ℕ
payload_of p = p.payload

-- A packet that carries one frame, in the lane of the frame's kind.
pub record Carries (p : Packet) (f : Frame) : Type 0 where
  pub frame : IsFrame f
  pub payload : p.payload ≡ encode_frame f
  pub channel : p.channel ≡ channel_for_message f.header.kind

decoded : (f : Frame) → IsFrame f → decode_prefix (encode_frame f) ≡ ok (complete f (encoded_len f))
decoded f v =
    ap decode_prefix (sym (append-nil (encode_frame f))) ∙ decode_prefix-encode_frame f [] v

same_channel_refl : (c : Channel) → same_channel c c ≡ true
same_channel_refl Channel.control = refl
same_channel_refl Channel.media = refl

same_channel-eq : (a b : Channel) → same_channel a b ≡ true → a ≡ b
same_channel-eq Channel.control Channel.control h = refl
same_channel-eq Channel.media Channel.media h = refl
same_channel-eq Channel.control Channel.media h = cc
same_channel-eq Channel.media Channel.control h = cc

pub sequence_of_Carries :
    (p : Packet) (f : Frame) → Carries p f → ldfl_packet_sequence p ≡ ok f.header.sequence
unfolding ldfl_packet_sequence check_outcome
sequence_of_Carries p f c =
    rw (c.payload, decoded f c.frame)
      (ground
        (arith, length-encode_frame f, same_channel_refl p.channel, c.channel, ap length c.payload))

ldfl_packet_sequence-Carries :
    (p : Packet) (n : ℕ)
    → All IsByte p.payload
    → ldfl_packet_sequence p ≡ ok n
    → (f : Frame) × Carries p f × (n ≡ f.header.sequence)
unfolding ldfl_packet_sequence check_outcome
ldfl_packet_sequence-Carries p n w e = elim (Result-cases (decode_prefix p.payload)) [
  | inr (x, g) ↦ absurd (ground arith)
  | inl (need_more_data m, g) ↦ absurd (ground arith)
  | inl (complete f k, g) ↦
      let canon = decode_prefix-canonical p.payload f k w g in
      let whole : drop k p.payload ≡ [] = drop-length k p.payload (ground arith) in
      (
        f,
        record {
          frame = canon.0;
          payload = sym canon.2 ∙ ap (◌++◌ (encode_frame f)) whole ∙ append-nil (encode_frame f);
          channel = same_channel-eq p.channel (channel_for_message f.header.kind) (ground arith);
        },
        ground arith,
      )
]

-- A packet of bytes has sequence number n exactly when its payload is the encoding of one frame
-- that meets IsFrame, on the channel of the frame's kind, and n is that frame's number.
pub ldfl_packet_sequence_iff :
    (p : Packet) (n : ℕ)
    → All IsByte p.payload
    → (ldfl_packet_sequence p ≡ ok n) ↔ ((f : Frame) × Carries p f × (n ≡ f.header.sequence))
ldfl_packet_sequence_iff p n w =
    (ldfl_packet_sequence-Carries p n w, λ c. sequence_of_Carries p c.0 c.1 ∙ ap ok (sym c.2))

-- The answer of the frame decoder, as the packet decoder gives it.
abbrev as_packets :
    FrameDecoder × Result ProtocolError (List Frame)
    → FrameDecoder × Result LdflStreamError (List Packet)
as_packets r = (r.0, to_packets r.1)

as_packets-prepend :
    (fs : List Frame) (r : FrameDecoder × Result ProtocolError (List Frame))
    → behind (map packet_from_frame fs) (as_packets r) ≡ as_packets (prepend fs r)
as_packets-prepend fs (d, ok gs) = ap (λ ps. (d, ok ps)) (sym (map-append packet_from_frame fs gs))
as_packets-prepend fs (d, err e) = refl

continue_with-after_push :
    (cs : List (List ℕ)) (r : FrameDecoder × Result ProtocolError (List Frame))
    → ((d : FrameDecoder) → receive_all d cs ≡ as_packets (push_all d cs))
    → continue_with (λ d. receive_all d cs) (as_packets r)
      ≡ as_packets (after_push (λ d. push_all d cs) r)
continue_with-after_push cs (d, ok fs) h =
    ap (behind (map packet_from_frame fs)) (h d) ∙ as_packets-prepend fs (push_all d cs)
continue_with-after_push cs (d, err e) h = refl

receive_all-push_all :
    (d : FrameDecoder) (cs : List (List ℕ)) → receive_all d cs ≡ as_packets (push_all d cs)
unfolding receive_all push_packets push_all
receive_all-push_all d [] = refl
receive_all-push_all d (c ∷ cs) =
    continue_with-after_push cs (push d c) (λ d'. receive_all-push_all d' cs)

-- A packet as it is rebuilt from its frame, with no key.
abbrev pub unkeyed : Packet → Packet
unkeyed p = record p { supersession_key = none }

packet_of_Carries : (p : Packet) (f : Frame) → Carries p f → packet_from_frame f ≡ unkeyed p
unfolding packet_from_frame
packet_of_Carries p f c = ground (arith, c.payload, c.channel, same_channel_refl p.channel)

-- A packet that the mux lets through.
pub record IsSendable (p : Packet) : Type 0 where
  pub bytes : All IsByte p.payload
  pub sequence : ℕ
  pub numbered : ldfl_packet_sequence p ≡ ok sequence

frames_of :
    (ps : List Packet)
    → All IsSendable ps
    → (fs : List Frame) × All IsFrame fs
      × (encode_all fs ≡ flatten (map payload_of ps))
      × (map packet_from_frame fs ≡ map unkeyed ps)
unfolding flatten
frames_of [] a = ([], tt, refl, refl)
frames_of (p ∷ ps) a =
    let (f, c, n) = ldfl_packet_sequence-Carries p a.0.sequence a.0.bytes a.0.numbered in
    let (fs, v, e, m) = frames_of ps a.1 in
    (f ∷ fs, (c.frame, v), append_both (sym c.payload) e, cc (packet_of_Carries p f c, m))

fresh_push_all :
    (fs : List Frame) (cs : List (List ℕ))
    → All IsFrame fs
    → flatten cs ≡ encode_all fs
    → length (encode_all fs) ≤ max_buffered_bytes
    → push_all new_packet_decoder cs ≡ (new_packet_decoder, ok fs)
unfolding new_decoder
fresh_push_all fs cs v e room = push_all-encode_all max_buffered_bytes fs cs v e room (omega arith)

-- Packets of bytes that have a stream sequence number, written one behind the other and cut in any
-- chunks of at most the buffer limit in all, come out of a new packet decoder in order, on their
-- channels, without supersession keys.
pub receive_all_sent :
    (ps : List Packet) (cs : List (List ℕ))
    → All IsSendable ps
    → flatten cs ≡ flatten (map payload_of ps)
    → length (flatten cs) ≤ max_buffered_bytes
    → receive_all new_packet_decoder cs ≡ (new_packet_decoder, ok (map unkeyed ps))
receive_all_sent ps cs a e room =
    let (fs, v, f, m) = frames_of ps a in
    receive_all-push_all new_packet_decoder cs
    ∙ ap as_packets (fresh_push_all fs cs v (e ∙ sym f) (omega (arith, ap length e, ap length f)))
    ∙ ap (λ qs. (new_packet_decoder, ok qs)) m
