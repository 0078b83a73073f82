-- ===== src/Protocol/Input/Examples.antt =====
-- Input events at concrete values, and the theorems at such values.
use lado_flow.Base.{ℕ, ◌≡◌, refl, arith, List, [], ◌∷◌, ok, err}
use lado_flow.Protocol.Error.{invalid_payload}
use lado_flow.Protocol.Input.{
  InputEvent, key, touch, pressed, move, state_of_id, modifiers_from_bits, decode_input,
  new_input_event,
}
use lado_flow.Protocol.Input.Wire.{IsKind}

abbrev shift_a : InputEvent
shift_a = record { timestamp_micros = 258; kind = key 4 pressed 1 }

abbrev key_wire : List ℕ
key_wire = 0 ∷ 0 ∷ 0 ∷ 0 ∷ 0 ∷ 0 ∷ 1 ∷ 2 ∷ 4 ∷ 0 ∷ 4 ∷ 1 ∷ 0 ∷ 1 ∷ []

key_read : decode_input key_wire ≡ ok shift_a
unfolding decode_input state_of_id modifiers_from_bits
key_read = refl

far_contact :
    new_input_event 5 (touch 16 move 1 2 3)
    ≡ err (invalid_payload "touch contact identifier is out of range")
unfolding new_input_event
far_contact = refl

shift-IsKind : IsKind shift_a.kind
unfolding modifiers_from_bits
shift-IsKind = (omega arith, omega arith, omega arith, refl)
