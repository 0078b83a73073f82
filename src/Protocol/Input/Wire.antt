-- ===== src/Protocol/Input/Wire.antt =====
-- Input events on the wire.
use lado_flow.Base.{
  ℕ, ◌^◌, ◌≤◌, ◌<◌, ◌≡◌, refl, ap, ◌∙◌, arith, Bool, true, false, List, ◌∷◌, ◌++◌, length, ok,
}
use lado_flow.Base.Bytes.{be64, read_u64, word16-be, word64-be}
use lado_flow.Protocol.Input.{
  InputEvent, InputEventKind, ButtonState, PointerButton, TouchPhase, released, primary, begin,
  pointer_move, pointer_button, wheel, key, touch, focus, state_id, button_id, phase_id, focus_byte,
  state_of_id, button_of_id, phase_of_id, modifiers_from_bits, decode_focus, validate_kind,
  new_input_event, wire_kind, kind_bytes, encode_input, decode_kind, decode_move, decode_button,
  decode_wheel, decode_key, decode_touch, decode_focus_event, decode_input, kind_encoded_len,
}

-- A kind that `validate` accepts, with fields of their machine types and known modifiers.
abbrev pub IsKind : InputEventKind → Type 0
IsKind (pointer_move x y) = (x < 2 ^ 16) × (y < 2 ^ 16)
IsKind (pointer_button button state) = Unit {0}
IsKind (wheel delta_x delta_y) = (delta_x < 2 ^ 16) × (delta_y < 2 ^ 16)
IsKind (key usage state modifiers) =
    (0 < usage)
    × (usage < 2 ^ 16)
    × (modifiers < 2 ^ 16)
    × (modifiers_from_bits modifiers ≡ ok modifiers)
IsKind (touch contact_id phase x y pressure) =
    (contact_id < 16) × (x < 2 ^ 16) × (y < 2 ^ 16) × (pressure < 2 ^ 16)
IsKind (focus focused) = Unit {0}

state_of_id-state_id : (s : ButtonState) → state_of_id (state_id s) ≡ ok s
unfolding state_of_id
state_of_id-state_id released = refl
state_of_id-state_id _ = refl

button_of_id-button_id : (b : PointerButton) → button_of_id (button_id b) ≡ ok b
unfolding button_of_id
button_of_id-button_id primary = refl
button_of_id-button_id _ = refl

phase_of_id-phase_id : (p : TouchPhase) → phase_of_id (phase_id p) ≡ ok p
unfolding phase_of_id
phase_of_id-phase_id begin = refl
phase_of_id-phase_id _ = refl

decode_focus-focus_byte : (b : Bool) → decode_focus (focus_byte b) ≡ ok b
unfolding decode_focus
decode_focus-focus_byte false = refl
decode_focus-focus_byte true = refl

abbrev input_bytes : ℕ → InputEventKind → List ℕ
input_bytes t k = be64 t ++ (wire_kind k ∷ kind_bytes k)

kind_read_back : (t : ℕ) (k : InputEventKind) → IsKind k → decode_kind (input_bytes t k) ≡ ok k
unfolding decode_kind decode_move decode_button decode_wheel decode_key decode_touch
    decode_focus_event
kind_read_back t (pointer_move x y) v = cc (word16-be x v.0, word16-be y v.1)
kind_read_back t (pointer_button button state) v =
    rw (button_of_id-button_id button, state_of_id-state_id state) refl
kind_read_back t (wheel x y) v = cc (word16-be x v.0, word16-be y v.1)
kind_read_back t (key usage state modifiers) v =
    rw (word16-be usage v.1, word16-be modifiers v.2, state_of_id-state_id state, v.3) refl
kind_read_back t (touch contact_id phase x y pressure) v =
    rw (word16-be x v.1, word16-be y v.2, word16-be pressure v.3, phase_of_id-phase_id phase) refl
kind_read_back t (focus focused) v = rw (decode_focus-focus_byte focused) refl

validate_kind_accepted : (k : InputEventKind) → IsKind k → validate_kind k ≡ ok tt
unfolding validate_kind
validate_kind_accepted (pointer_move x y) v = refl
validate_kind_accepted (pointer_button button state) v = refl
validate_kind_accepted (wheel x y) v = refl
validate_kind_accepted (key usage state modifiers) v = ground arith
validate_kind_accepted (touch contact_id phase x y pressure) v = ground arith
validate_kind_accepted (focus focused) v = refl

pub encode_input_valid :
    (e : InputEvent) → IsKind e.kind → encode_input e ≡ ok (input_bytes e.timestamp_micros e.kind)
unfolding encode_input
encode_input_valid e v = rw (validate_kind_accepted e.kind v) refl

decode_input_lem :
    (b : List ℕ) (k : InputEventKind)
    → 9 ≤ length b
    → decode_kind b ≡ ok k
    → decode_input b ≡ new_input_event (read_u64 b 0) k
unfolding decode_input
decode_input_lem b k long e = ground (arith, e)

new_input_event_valid :
    (t : ℕ) (k : InputEventKind)
    → IsKind k
    → new_input_event t k ≡ ok (record { timestamp_micros = t; kind = k })
unfolding new_input_event
new_input_event_valid t k v = rw (validate_kind_accepted k v) refl

length-input_bytes : (t : ℕ) (k : InputEventKind) → length (input_bytes t k) ≡ kind_encoded_len k
unfolding kind_encoded_len
length-input_bytes t (pointer_move x y) = refl
length-input_bytes t _ = refl

-- An input event with a u64 timestamp whose kind meets IsKind has an encoding, of the length that
-- its kind declares, and it decodes to that event.
pub decode_input-encode_input :
    (e : InputEvent)
    → e.timestamp_micros < 2 ^ 64
    → IsKind e.kind
    → (b : List ℕ) × (encode_input e ≡ ok b)
      × (length b ≡ kind_encoded_len e.kind)
      × (decode_input b ≡ ok e)
decode_input-encode_input e fits v = (
  input_bytes e.timestamp_micros e.kind,
  encode_input_valid e v,
  length-input_bytes e.timestamp_micros e.kind,
  decode_input_lem (input_bytes e.timestamp_micros e.kind) e.kind (omega arith)
        (kind_read_back e.timestamp_micros e.kind v)
      ∙ ap (λ t. new_input_event t e.kind) (word64-be e.timestamp_micros fits)
      ∙ new_input_event_valid e.timestamp_micros e.kind v,
)
