-- ===== src/Protocol/Message/Payload.antt =====
-- The `WirePayload` trait, and the typed payloads of a frame: `Frame::from_payload` and
-- `Frame::decode_payload` of crates/ladoflow-protocol/src/frame.rs.
use mathlib.Core.Path.{subst}
use lado_flow.Base.{
  ℕ, ◌^◌, ◌≤◌, ◌<◌, ◌≡◌, ◌≢◌, ap, ◌∙◌, arith, ◌==◌, List, ◌++◌, length, Result, ok, err, ◌>>=◌,
  ◌>>◌, guard, sym,
}
use lado_flow.Protocol.Error.{MessageType, ProtocolError, unexpected_message_type}
use lado_flow.Protocol.Frame.{
  Frame, kind_id, payload_limit, new_frame, encode_frame, encoded_len, decode_prefix, complete,
}
use lado_flow.Protocol.Frame.Prefix.{new_frame_within, decode_prefix-encode_frame, IsFrame}
use lado_flow.Protocol.Message.{
  Hello, Capabilities, encode_hello, decode_hello, encode_capabilities, decode_capabilities,
}

pub record WirePayload (A : Type 0) : Type 0 where
  pub kind : MessageType
  pub encode : A → Result ProtocolError (List ℕ)
  pub decode : List ℕ → Result ProtocolError A

instance abbrev pub hello_payload : WirePayload Hello
hello_payload = record { kind = MessageType.hello; encode = encode_hello; decode = decode_hello }

instance abbrev pub capabilities_payload : WirePayload Capabilities
capabilities_payload = record {
  kind = MessageType.capabilities;
  encode = encode_capabilities;
  decode = decode_capabilities;
}

pub kind_id_injective : (k l : MessageType) → kind_id k ≡ kind_id l → k ≡ l
kind_id_injective k l e = ground arith

module _ {A : Type 0} ⦃w : WirePayload A⦄ where
  unfoldable pub from_payload : ℕ → ℕ → A → Result ProtocolError Frame
  from_payload flags sequence payload = do
    bytes ← w.encode payload
    new_frame w.kind flags sequence bytes

  -- `self.header.kind != P::KIND`; the identifiers tell the kinds apart.
  unfoldable pub decode_payload : Frame → Result ProtocolError A
  decode_payload f = do
    guard (kind_id f.header.kind == kind_id w.kind) (unexpected_message_type w.kind f.header.kind)
    w.decode f.payload

  -- For any payload family: a payload whose encoding decodes to it and fits its kind's limit, with
  -- known flags and a u64 sequence number, makes a frame, which is read from the front of any
  -- stream that begins with its encoding and decodes to the payload.
  pub decode_payload-from_payload :
      (a : A) (bytes rest : List ℕ) (flags sequence : ℕ)
      → w.encode a ≡ ok bytes
      → w.decode bytes ≡ ok a
      → length bytes ≤ payload_limit w.kind
      → flags < 8
      → sequence < 2 ^ 64
      → (f : Frame) × (from_payload flags sequence a ≡ ok f)
        × (decode_prefix (encode_frame f ++ rest) ≡ ok (complete f (encoded_len f)))
        × (decode_payload f ≡ ok a)
  unfolding from_payload decode_payload
  decode_payload-from_payload a bytes rest flags sequence e d fits hf hs =
      let (f, made, v, kind, content) = new_frame_within w.kind flags sequence bytes hf hs fits in
      (
        f,
        ap (λ r. r >>= new_frame w.kind flags sequence) e ∙ made,
        decode_prefix-encode_frame f rest v,
        ground (arith, ap kind_id kind, ap w.decode content, d),
      )

  -- The frame of a payload, and what it holds.
  pub from_payload-IsFrame :
      (a : A) (bytes : List ℕ) (flags sequence : ℕ) (f : Frame)
      → w.encode a ≡ ok bytes
      → w.decode bytes ≡ ok a
      → length bytes ≤ payload_limit w.kind
      → flags < 8
      → sequence < 2 ^ 64
      → from_payload flags sequence a ≡ ok f
      → IsFrame f × (f.payload ≡ bytes) × (decode_payload f ≡ ok a)
  unfolding from_payload decode_payload
  from_payload-IsFrame a bytes flags sequence f e d fits hf hs made =
      let (g, built, v, kind, content) = new_frame_within w.kind flags sequence bytes hf hs fits in
      let same : g ≡ f = cc (built, e, made) in
      (
        subst IsFrame same v,
        ap (λ t. t.payload) (sym same) ∙ content,
        ground (arith, same, ap kind_id kind, ap w.decode content, d),
      )

  -- A frame of another family is refused, whatever its bytes.
  pub decode_payload_other :
      (f : Frame)
      → f.header.kind ≢ w.kind
      → decode_payload f ≡ err (unexpected_message_type w.kind f.header.kind)
  unfolding decode_payload
  decode_payload_other f h = ground (arith, kind_id_injective f.header.kind w.kind)
