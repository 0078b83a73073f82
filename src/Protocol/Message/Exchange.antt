-- ===== src/Protocol/Message/Exchange.antt =====
-- A hello and an offer through the whole protocol: encoded, framed, delivered in chunks and decoded.
use lado_flow.Base.{
  ℕ, ◌^◌, ◌≤◌, ◌<◌, ◌≡◌, ap, arith, List, [], ◌∷◌, ◌++◌, length, length-append, ok,
}
use mathlib.Core.List.{flatten}
use lado_flow.Protocol.Frame.{Frame, encode_frame, encoded_len}
use lado_flow.Protocol.Frame.Prefix.{IsFrame, length-encode_frame}
use lado_flow.Protocol.Decoder.{new_decoder}
use lado_flow.Protocol.Decoder.Parses.{encode_all}
use lado_flow.Protocol.Decoder.Chunks.{push_all, push_all-encode_all}
use lado_flow.Protocol.Message.{Hello, Capabilities}
use lado_flow.Protocol.Message.Handshake.{IsHello, decode_hello-encode_hello, length-encode_hello}
use lado_flow.Protocol.Message.Offer.{
  IsOffer, decode_capabilities-encode_capabilities, length-encode_capabilities,
}
use lado_flow.Protocol.Message.Payload.{
  hello_payload, capabilities_payload, from_payload, decode_payload, from_payload-IsFrame,
}

-- A frame that is small enough for the buffer.
pub record Sent (f : Frame) : Type 0 where
  pub frame : IsFrame f
  small : length (encode_frame f) ≤ 110

pub hello-Sent :
    (h : Hello) (n : ℕ) (f : Frame)
    → IsHello h
    → n < 2 ^ 64
    → from_payload 0 n h ≡ ok f
    → Sent f × (decode_payload f ≡ ok h)
unfolding encoded_len
hello-Sent h n f v hn made =
    let (p, e, d) = decode_hello-encode_hello h v in
    let size = length-encode_hello h p v e in
    let (frame, content, back) =
      from_payload-IsFrame h p 0 n f e d (omega (arith, size)) (omega arith) hn made in
    (
      record {
        frame = frame;
        small = omega (arith, length-encode_frame f, ap length content, size);
      },
      back,
    )

pub offer-Sent :
    (c : Capabilities) (n : ℕ) (f : Frame)
    → IsOffer c
    → n < 2 ^ 64
    → from_payload 0 n c ≡ ok f
    → Sent f × (decode_payload f ≡ ok c)
unfolding encoded_len
offer-Sent c n f v hn made =
    let (p, e, d) = decode_capabilities-encode_capabilities c v in
    let size = length-encode_capabilities c p v e in
    let (frame, content, back) =
      from_payload-IsFrame c p 0 n f e d (omega (arith, size)) (omega arith) hn made in
    (
      record {
        frame = frame;
        small = omega (arith, length-encode_frame f, ap length content, size);
      },
      back,
    )

-- A hello and an offer that meet IsHello and IsOffer, each framed with no flags and a u64 sequence
-- number, one frame encoded behind the other, come out of a new decoder as those two frames, in
-- whatever chunks they are pushed, and the frames decode to the hello and the offer.
pub push_all-from_payload :
    (h : Hello) (c : Capabilities) (n m : ℕ) (f g : Frame) (cs : List (List ℕ))
    → IsHello h
    → IsOffer c
    → n < 2 ^ 64
    → m < 2 ^ 64
    → from_payload 0 n h ≡ ok f
    → from_payload 0 m c ≡ ok g
    → flatten cs ≡ encode_all (f ∷ g ∷ [])
    → (push_all new_decoder cs ≡ (new_decoder, ok (f ∷ g ∷ [])))
      × (decode_payload f ≡ ok h)
      × (decode_payload g ≡ ok c)
unfolding new_decoder
push_all-from_payload h c n m f g cs vh vc hn hm ef eg e =
    let (first, hello) = hello-Sent h n f vh hn ef in
    let (second, offer) = offer-Sent c m g vc hm eg in
    (
      push_all-encode_all 33_554_480 (f ∷ g ∷ []) cs (first.frame, (second.frame, tt)) e
          (omega (
            arith,
            length-append (encode_frame f) (encode_frame g ++ []),
            length-append (encode_frame g) [],
            first.small,
            second.small,
          ))
          (omega arith),
      hello,
      offer,
    )
