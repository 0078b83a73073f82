-- ===== src/Protocol/Payloads.antt =====
-- The nine payload families of crates/ladoflow-protocol/src, by the kind of their frames.
mod Examples
use mathlib.Core.Path.{subst}
use lado_flow.Base.{
  ℕ, ◌+◌, ◌^◌, ◌≤◌, ◌<◌, ◌≡◌, ◌↔◌, refl, sym, ap, ◌∙◌, arith, List, length, All, Result, ok, err,
  Result-cases, inl, inr, ==_refl,
}
use lado_flow.Base.Bytes.{IsByte}
use lado_flow.Protocol.Error.{ProtocolError, MessageType}
use lado_flow.Protocol.Frame.{Frame, kind_id, payload_limit, new_frame}
use lado_flow.Protocol.Frame.Prefix.{IsFrame}
use lado_flow.Protocol.Message.{Hello, Capabilities}
use lado_flow.Protocol.Message.Payload.{
  WirePayload, hello_payload, capabilities_payload, from_payload, decode_payload, kind_id_injective,
}
use lado_flow.Protocol.Message.Handshake.{IsHello, decode_hello_iff}
use lado_flow.Protocol.Message.Offer.{IsOffer, decode_capabilities_iff}
use lado_flow.Protocol.Control.{Ping, Pong, ErrorMessage, ping_payload, pong_payload, error_payload}
use lado_flow.Protocol.Control.Liveness.{IsPing, IsPong, decode_ping_iff, decode_pong_iff}
use lado_flow.Protocol.Control.Diagnostic.{IsErrorMessage, decode_error_message_iff}
use lado_flow.Protocol.Display.{
  DisplayConfig, VideoFrame, display_config_payload, video_frame_payload,
}
use lado_flow.Protocol.Display.Config.{IsDisplayConfig, decode_display_config_iff}
use lado_flow.Protocol.Display.Video.{IsVideoFrame, decode_video_frame_iff}
use lado_flow.Protocol.Input.{InputEvent, input_payload}
use lado_flow.Protocol.Input.Canonical.{IsInputEvent, decode_input_iff}
use lado_flow.Protocol.Telemetry.{Telemetry, telemetry_payload}
use lado_flow.Protocol.Telemetry.Wire.{IsTelemetry, decode_telemetry_iff}

-- What a frame of a kind carries.
abbrev pub Payload : MessageType → Type 0
Payload MessageType.hello = Hello
Payload MessageType.capabilities = Capabilities
Payload MessageType.display_config = DisplayConfig
Payload MessageType.video_frame = VideoFrame
Payload MessageType.input = InputEvent
Payload MessageType.telemetry = Telemetry
Payload MessageType.ping = Ping
Payload MessageType.pong = Pong
Payload MessageType.error = ErrorMessage

abbrev pub family : (k : MessageType) → WirePayload (Payload k)
family MessageType.hello = hello_payload
family MessageType.capabilities = capabilities_payload
family MessageType.display_config = display_config_payload
family MessageType.video_frame = video_frame_payload
family MessageType.input = input_payload
family MessageType.telemetry = telemetry_payload
family MessageType.ping = ping_payload
family MessageType.pong = pong_payload
family MessageType.error = error_payload

-- The well-formed payloads of a kind.
abbrev pub IsPayload : (k : MessageType) → Payload k → Type 0
IsPayload MessageType.hello a = IsHello a
IsPayload MessageType.capabilities a = IsOffer a
IsPayload MessageType.display_config a = IsDisplayConfig a
IsPayload MessageType.video_frame a = IsVideoFrame a
IsPayload MessageType.input a = IsInputEvent a
IsPayload MessageType.telemetry a = IsTelemetry a
IsPayload MessageType.ping a = IsPing a
IsPayload MessageType.pong a = IsPong a
IsPayload MessageType.error a = IsErrorMessage a

family_kind : (k : MessageType) → (family k).kind ≡ k
family_kind MessageType.hello = refl
family_kind _ = refl

-- Bytes decode to a payload exactly when it is well-formed and they are its encoding.
decode_iff :
    (k : MessageType) (a : Payload k) (p : List ℕ)
    → All IsByte p
    → ((family k).decode p ≡ ok a) ↔ (IsPayload k a × ((family k).encode a ≡ ok p))
decode_iff MessageType.hello a p w = decode_hello_iff p a w
decode_iff MessageType.capabilities a p w = decode_capabilities_iff p a w
decode_iff MessageType.display_config a p w = decode_display_config_iff p a w
decode_iff MessageType.video_frame a p w = decode_video_frame_iff p a w
decode_iff MessageType.input a p w = decode_input_iff p a w
decode_iff MessageType.telemetry a p w = decode_telemetry_iff p a w
decode_iff MessageType.ping a p w = decode_ping_iff p a w
decode_iff MessageType.pong a p w = decode_pong_iff p a w
decode_iff MessageType.error a p w = decode_error_message_iff p a w

new_frame_within_eq :
    (kind : MessageType) (flags sequence : ℕ) (payload : List ℕ)
    → length payload ≤ payload_limit kind
    → new_frame kind flags sequence payload
      ≡ ok (record {
        header = record {
          version = 1;
          kind = kind;
          flags = flags;
          sequence = sequence;
          payload_len = length payload;
        };
        payload = payload;
      })
unfolding new_frame
new_frame_within_eq kind flags sequence payload fits = ground arith

-- The frame that a well-formed frame's parts make.
new_frame_again :
    (f : Frame)
    → IsFrame f
    → new_frame f.header.kind f.header.flags f.header.sequence f.payload ≡ ok f
unfolding new_frame
new_frame_again f v =
    new_frame_within_eq f.header.kind f.header.flags f.header.sequence f.payload
      (omega (arith, v.declared, v.header.bounded))
    ∙ cc (v.header.version, v.declared)

new_frame_parts :
    (k : MessageType) (flags sequence : ℕ) (bytes : List ℕ) (f : Frame)
    → new_frame k flags sequence bytes ≡ ok f
    → (f.header.kind ≡ k) × (f.payload ≡ bytes)
unfolding new_frame
new_frame_parts k flags sequence bytes f e = ground arith

module _ {A : Type 0} (w : WirePayload A) where
  decode_payload_parts :
      (f : Frame) (a : A)
      → decode_payload ⦃w = w⦄ f ≡ ok a
      → (f.header.kind ≡ w.kind) × (w.decode f.payload ≡ ok a)
  unfolding decode_payload
  decode_payload_parts f a e =
      let (same, read) : (kind_id f.header.kind ≡ kind_id w.kind) × (w.decode f.payload ≡ ok a) =
        ground arith in
      (kind_id_injective f.header.kind w.kind same, read)

  decode_payload_of :
      (f : Frame) (a : A)
      → f.header.kind ≡ w.kind
      → w.decode f.payload ≡ ok a
      → decode_payload ⦃w = w⦄ f ≡ ok a
  unfolding decode_payload
  decode_payload_of f a k e = ground (arith, ap kind_id k)

  from_payload_parts :
      (flags sequence : ℕ) (a : A) (f : Frame)
      → from_payload ⦃w = w⦄ flags sequence a ≡ ok f
      → (w.encode a ≡ ok f.payload) × (f.header.kind ≡ w.kind)
  unfolding from_payload
  from_payload_parts flags sequence a f e = elim (Result-cases (w.encode a)) [
    | inr (x, p) ↦ absurd (ground arith)
    | inl (bytes, p) ↦
        let made : new_frame w.kind flags sequence bytes ≡ ok f = ground arith in
        let parts = new_frame_parts w.kind flags sequence bytes f made in
        (p ∙ ap ok (sym parts.1), parts.0)
  ]

  from_payload_of :
      (a : A) (f : Frame)
      → IsFrame f
      → f.header.kind ≡ w.kind
      → w.encode a ≡ ok f.payload
      → from_payload ⦃w = w⦄ f.header.flags f.header.sequence a ≡ ok f
  unfolding from_payload
  from_payload_of a f v k e = rw e (
      ap (λ x. new_frame x f.header.flags f.header.sequence f.payload) (sym k)
      ∙ new_frame_again f v)

-- For each of the nine payload families, a frame of bytes that meets IsFrame decodes to a payload
-- exactly when the payload is well-formed and framing it, with the frame's flags and sequence
-- number, gives that very frame.
pub decode_payload-family_iff :
    (k : MessageType) (f : Frame) (a : Payload k)
    → IsFrame f
    → All IsByte f.payload
    → (decode_payload ⦃w = family k⦄ f ≡ ok a)
      ↔ (IsPayload k a × (from_payload ⦃w = family k⦄ f.header.flags f.header.sequence a ≡ ok f))
decode_payload-family_iff k f a v w = (
  λ e.
      let (kind, read) = decode_payload_parts (family k) f a e in
      let (valid, written) = (decode_iff k a f.payload w).0 read in
      (valid, from_payload_of (family k) a f v kind written),
  λ (valid, made).
      let (written, kind) =
        from_payload_parts (family k) f.header.flags f.header.sequence a f made in
      decode_payload_of (family k) f a kind ((decode_iff k a f.payload w).1 (valid, written)),
)
