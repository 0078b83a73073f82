-- ===== src/Protocol/Input.antt =====
-- crates/ladoflow-protocol/src/input.rs: the input payload. An i16 is its two's-complement word,
-- which is what `to_be_bytes` and `from_be_bytes` move.
pub mod Wire
pub mod Canonical
mod Examples
use lado_flow.Base.{
  ℕ, ◌+◌, ◌==◌, Bool, true, false, not, List, [], ◌∷◌, ◌++◌, bit_and, bit_xor, ltb, leb,
  if◌then◌else◌, length, Result, ok, err, ◌>>=◌, ◌>>◌, guard,
}
use lado_flow.Base.Time.{u16_max}
use lado_flow.Base.Bytes.{be16, be64, read_u8, read_u16, read_u64}
use lado_flow.Protocol.Error.{ProtocolError, invalid_payload, MessageType}
use lado_flow.Protocol.Message.Payload.{WirePayload}

abbrev pub input_header_len : ℕ
input_header_len = 9

abbrev pub max_touch_contacts : ℕ
max_touch_contacts = 16

pub data ButtonState : Type 0 where
  released pressed : ButtonState

pub data PointerButton : Type 0 where
  primary secondary middle back forward : PointerButton

pub data TouchPhase : Type 0 where
  begin move end cancel : TouchPhase

-- The `repr(u8)` values.
abbrev pub state_id : ButtonState → ℕ
state_id released = 0
state_id pressed = 1

abbrev pub button_id : PointerButton → ℕ
button_id primary = 1
button_id secondary = 2
button_id middle = 3
button_id back = 4
button_id forward = 5

abbrev pub phase_id : TouchPhase → ℕ
phase_id begin = 1
phase_id move = 2
phase_id end = 3
phase_id cancel = 4

unfoldable pub state_of_id : ℕ → Result ProtocolError ButtonState
state_of_id value =
    if value == 0
    then ok released
    else if value == 1
    then ok pressed
    else err (invalid_payload "unknown button state")

unfoldable pub button_of_id : ℕ → Result ProtocolError PointerButton
button_of_id value =
    if value == 1
    then ok primary
    else if value == 2
    then ok secondary
    else if value == 3
    then ok middle
    else if value == 4
    then ok back
    else if value == 5
    then ok forward
    else err (invalid_payload "unknown pointer button")

unfoldable pub phase_of_id : ℕ → Result ProtocolError TouchPhase
phase_of_id value =
    if value == 1
    then ok begin
    else if value == 2
    then ok move
    else if value == 3
    then ok end
    else if value == 4
    then ok cancel
    else err (invalid_payload "unknown touch phase")

abbrev pub known_modifiers : ℕ
known_modifiers = 1 + 2 + 4 + 8 + 16 + 32

unfoldable pub modifiers_from_bits : ℕ → Result ProtocolError ℕ
modifiers_from_bits bits =
    if bit_and bits (bit_xor u16_max known_modifiers) == 0
    then ok bits
    else err (invalid_payload "unknown keyboard modifier")

pub data InputEventKind : Type 0 where
  pointer_move : (x y : ℕ) → InputEventKind
  pointer_button : PointerButton → ButtonState → InputEventKind
  wheel : (delta_x delta_y : ℕ) → InputEventKind
  key : (usage : ℕ) → ButtonState → (modifiers : ℕ) → InputEventKind
  touch : (contact_id : ℕ) → TouchPhase → (x y pressure : ℕ) → InputEventKind
  focus : (focused : Bool) → InputEventKind

abbrev pub wire_kind : InputEventKind → ℕ
wire_kind (pointer_move x y) = 1
wire_kind (pointer_button button state) = 2
wire_kind (wheel delta_x delta_y) = 3
wire_kind (key usage state modifiers) = 4
wire_kind (touch contact_id phase x y pressure) = 5
wire_kind (focus focused) = 6

unfoldable pub kind_encoded_len : InputEventKind → ℕ
kind_encoded_len (pointer_move x y) = input_header_len + 4
kind_encoded_len (pointer_button button state) = input_header_len + 2
kind_encoded_len (wheel delta_x delta_y) = input_header_len + 4
kind_encoded_len (key usage state modifiers) = input_header_len + 5
kind_encoded_len (touch contact_id phase x y pressure) = input_header_len + 8
kind_encoded_len (focus focused) = input_header_len + 1

unfoldable pub validate_kind : InputEventKind → Result ProtocolError (Unit {0})
validate_kind (key usage state modifiers) =
    if usage == 0 then err (invalid_payload "keyboard usage must be non-zero") else ok tt
validate_kind (touch contact_id phase x y pressure) =
    if leb max_touch_contacts contact_id
    then err (invalid_payload "touch contact identifier is out of range")
    else ok tt
validate_kind _ = ok tt

pub record InputEvent : Type 0 where
  pub timestamp_micros : ℕ
  pub kind : InputEventKind

unfoldable pub new_input_event : ℕ → InputEventKind → Result ProtocolError InputEvent
unfolding validate_kind
new_input_event timestamp_micros kind = do
  validate_kind kind
  ok (record { timestamp_micros = timestamp_micros; kind = kind })

-- `u8::from(focused)`.
abbrev pub focus_byte : Bool → ℕ
focus_byte false = 0
focus_byte true = 1

-- What follows the timestamp and the kind.
abbrev pub kind_bytes : InputEventKind → List ℕ
kind_bytes (pointer_move x y) = be16 x ++ be16 y
kind_bytes (pointer_button button state) = button_id button ∷ state_id state ∷ []
kind_bytes (wheel delta_x delta_y) = be16 delta_x ++ be16 delta_y
kind_bytes (key usage state modifiers) = be16 usage ++ (state_id state ∷ be16 modifiers)
kind_bytes (touch contact_id phase x y pressure) =
    contact_id ∷ phase_id phase ∷ (be16 x ++ (be16 y ++ be16 pressure))
kind_bytes (focus focused) = focus_byte focused ∷ []

unfoldable pub encode_input : InputEvent → Result ProtocolError (List ℕ)
unfolding validate_kind
encode_input e = do
  validate_kind e.kind
  ok (be64 e.timestamp_micros ++ (wire_kind e.kind ∷ kind_bytes e.kind))

-- `require_len(payload, INPUT_HEADER_LEN + extra)`.
abbrev pub require_len : List ℕ → ℕ → Result ProtocolError (Unit {0})
require_len payload extra =
    guard (length payload == input_header_len + extra)
      (invalid_payload "input event length does not match its kind")

unfoldable pub decode_focus : ℕ → Result ProtocolError Bool
decode_focus value =
    if value == 0
    then ok false
    else if value == 1
    then ok true
    else err (invalid_payload "boolean input field must be zero or one")

pub decode_move : List ℕ → Result ProtocolError InputEventKind
decode_move payload = do
  require_len payload 4
  ok (pointer_move (read_u16 payload 9) (read_u16 payload 11))

pub decode_button : List ℕ → Result ProtocolError InputEventKind
unfolding button_of_id state_of_id
decode_button payload = do
  require_len payload 2
  button ← button_of_id (read_u8 payload 9)
  state ← state_of_id (read_u8 payload 10)
  ok (pointer_button button state)

pub decode_wheel : List ℕ → Result ProtocolError InputEventKind
decode_wheel payload = do
  require_len payload 4
  ok (wheel (read_u16 payload 9) (read_u16 payload 11))

pub decode_key : List ℕ → Result ProtocolError InputEventKind
unfolding state_of_id modifiers_from_bits
decode_key payload = do
  require_len payload 5
  state ← state_of_id (read_u8 payload 11)
  modifiers ← modifiers_from_bits (read_u16 payload 12)
  ok (key (read_u16 payload 9) state modifiers)

pub decode_touch : List ℕ → Result ProtocolError InputEventKind
unfolding phase_of_id
decode_touch payload = do
  require_len payload 8
  phase ← phase_of_id (read_u8 payload 10)
  ok (
      touch (read_u8 payload 9) phase (read_u16 payload 11) (read_u16 payload 13)
        (read_u16 payload 15))

pub decode_focus_event : List ℕ → Result ProtocolError InputEventKind
unfolding decode_focus
decode_focus_event payload = do
  require_len payload 1
  focused ← decode_focus (read_u8 payload 9)
  ok (focus focused)

-- The `match` on the kind byte.
pub decode_kind : List ℕ → Result ProtocolError InputEventKind
unfolding decode_move decode_button decode_wheel decode_key decode_touch decode_focus_event
decode_kind payload =
    if read_u8 payload 8 == 1
    then decode_move payload
    else if read_u8 payload 8 == 2
    then decode_button payload
    else if read_u8 payload 8 == 3
    then decode_wheel payload
    else if read_u8 payload 8 == 4
    then decode_key payload
    else if read_u8 payload 8 == 5
    then decode_touch payload
    else if read_u8 payload 8 == 6
    then decode_focus_event payload
    else err (invalid_payload "unknown input event kind")

unfoldable pub decode_input : List ℕ → Result ProtocolError InputEvent
unfolding decode_kind new_input_event
decode_input payload = do
  guard (not (ltb (length payload) input_header_len)) (invalid_payload "input payload is truncated")
  kind ← decode_kind payload
  new_input_event (read_u64 payload 0) kind

instance abbrev pub input_payload : WirePayload InputEvent
input_payload = record { kind = MessageType.input; encode = encode_input; decode = decode_input }
