-- ===== src/Protocol/Payloads/Examples.antt =====
-- An input event in a concrete frame, and the theorem at it.
use lado_flow.Base.{◌≡◌, ◌↔◌, refl, arith, [], ◌∷◌, ok}
use lado_flow.Protocol.Error.{MessageType}
use lado_flow.Protocol.Frame.{Frame}
use lado_flow.Protocol.Frame.Prefix.{IsFrame}
use lado_flow.Protocol.Message.Payload.{from_payload, decode_payload}
use lado_flow.Protocol.Input.{InputEvent, secondary, pressed, pointer_button}
use lado_flow.Protocol.Payloads.{family, IsPayload, decode_payload-family_iff}

-- The second button goes down.
abbrev click : InputEvent
click = record { timestamp_micros = 258; kind = pointer_button secondary pressed }

abbrev click_frame : Frame
click_frame = record {
  header = record {
    version = 1;
    kind = MessageType.input;
    flags = 0;
    sequence = 7;
    payload_len = 11;
  };
  payload = 0 ∷ 0 ∷ 0 ∷ 0 ∷ 0 ∷ 0 ∷ 1 ∷ 2 ∷ 2 ∷ 2 ∷ 1 ∷ [];
}

click-IsFrame : IsFrame click_frame
click-IsFrame = record {
  header = record {
    version = refl;
    flags = omega arith;
    sequence = omega arith;
    bounded = omega arith;
  };
  declared = refl;
}

decode_payload-family_iff_example :
    (decode_payload ⦃w = family MessageType.input⦄ click_frame ≡ ok click) ↔ (
      IsPayload MessageType.input click
      × (from_payload ⦃w = family MessageType.input⦄ 0 7 click ≡ ok click_frame))
decode_payload-family_iff_example =
    decode_payload-family_iff MessageType.input click_frame click click-IsFrame (omega arith)
