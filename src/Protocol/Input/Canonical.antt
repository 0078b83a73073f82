-- ===== src/Protocol/Input/Canonical.antt =====
-- Bytes that decode to an input event are its encoding.
use mathlib.Core.Path.{subst}
use lado_flow.Base.{
  ℕ, ◌^◌, ◌<◌, ◌≡◌, ◌↔◌, sym, ap, ◌∙◌, arith, inl, inr, ◌==◌, Bool-cases, Bool, List, ◌∷◌, ◌++◌,
  All, length, listing_lem, ok, Result-cases, read_back,
}
use lado_flow.Base.Bytes.{
  IsByte, be64, read_u8, read_u16, read_u64, read_u16-lt, read_u64-lt, be16-read_u16, be64-read_u64,
}
use lado_flow.Protocol.Input.{
  InputEvent, InputEventKind, ButtonState, PointerButton, TouchPhase, pointer_move, pointer_button,
  wheel, key, touch, focus, state_id, button_id, phase_id, focus_byte, state_of_id, button_of_id,
  phase_of_id, modifiers_from_bits, decode_focus, validate_kind, new_input_event, wire_kind,
  kind_bytes, encode_input, decode_kind, decode_move, decode_button, decode_wheel, decode_key,
  decode_touch, decode_focus_event, decode_input,
}
use lado_flow.Protocol.Input.Wire.{IsKind, encode_input_valid, decode_input-encode_input}

state_id-state_of_id : (v : ℕ) (s : ButtonState) → state_of_id v ≡ ok s → state_id s ≡ v
unfolding state_of_id
state_id-state_of_id v s e = ground arith

button_id-button_of_id : (v : ℕ) (b : PointerButton) → button_of_id v ≡ ok b → button_id b ≡ v
unfolding button_of_id
button_id-button_of_id v b e = ground arith

phase_id-phase_of_id : (v : ℕ) (p : TouchPhase) → phase_of_id v ≡ ok p → phase_id p ≡ v
unfolding phase_of_id
phase_id-phase_of_id v p e = ground arith

focus_byte-decode_focus : (v : ℕ) (f : Bool) → decode_focus v ≡ ok f → focus_byte f ≡ v
unfolding decode_focus
focus_byte-decode_focus v f e = ground arith

modifiers_kept : (v m : ℕ) → modifiers_from_bits v ≡ ok m → v ≡ m
unfolding modifiers_from_bits
modifiers_kept v m e = ground arith

-- What the kind byte selects.
data Selected (b : List ℕ) (k : InputEventKind) : Type 0 where
  as_move : read_u8 b 8 ≡ 1 → decode_move b ≡ ok k → Selected b k
  as_button : read_u8 b 8 ≡ 2 → decode_button b ≡ ok k → Selected b k
  as_wheel : read_u8 b 8 ≡ 3 → decode_wheel b ≡ ok k → Selected b k
  as_key : read_u8 b 8 ≡ 4 → decode_key b ≡ ok k → Selected b k
  as_touch : read_u8 b 8 ≡ 5 → decode_touch b ≡ ok k → Selected b k
  as_focus : read_u8 b 8 ≡ 6 → decode_focus_event b ≡ ok k → Selected b k

decode_kind-Selected : (b : List ℕ) (k : InputEventKind) → decode_kind b ≡ ok k → Selected b k
unfolding decode_kind
decode_kind-Selected b k e = elim (Bool-cases (read_u8 b 8 == 1)) [
  | inl y ↦ as_move (ground arith) (ground arith)
  | inr n1 ↦ elim (Bool-cases (read_u8 b 8 == 2)) [
    | inl y ↦ as_button (ground arith) (ground arith)
    | inr n2 ↦ elim (Bool-cases (read_u8 b 8 == 3)) [
      | inl y ↦ as_wheel (ground arith) (ground arith)
      | inr n3 ↦ elim (Bool-cases (read_u8 b 8 == 4)) [
        | inl y ↦ as_key (ground arith) (ground arith)
        | inr n4 ↦ elim (Bool-cases (read_u8 b 8 == 5)) [
          | inl y ↦ as_touch (ground arith) (ground arith)
          | inr n5 ↦ elim (Bool-cases (read_u8 b 8 == 6)) [
            | inl y ↦ as_focus (ground arith) (ground arith)
            | inr n6 ↦ absurd (ground arith)
          ]
        ]
      ]
    ]
  ]
]

-- The kind is valid, and the bytes are those of the event.
record Encoded (b : List ℕ) (k : InputEventKind) : Type 0 where
  valid : IsKind k
  bytes : be64 (read_u64 b 0) ++ (wire_kind k ∷ kind_bytes k) ≡ b

module _ (b : List ℕ) (w : All IsByte b) where
  move-Encoded : (k : InputEventKind) → read_u8 b 8 ≡ 1 → decode_move b ≡ ok k → Encoded b k
  unfolding decode_move
  move-Encoded k c e =
      let (size, made) : (length b ≡ 13) × (pointer_move (read_u16 b 9) (read_u16 b 11) ≡ k) =
        ground arith in
      subst (Encoded b) made (record {
        valid = (read_u16-lt b w 9, read_u16-lt b w 11);
        bytes = cc (
          listing_lem 13 b 0 size,
          be64-read_u64 b w 0,
          c,
          be16-read_u16 b w 9,
          be16-read_u16 b w 11,
        );
      })

  wheel-Encoded : (k : InputEventKind) → read_u8 b 8 ≡ 3 → decode_wheel b ≡ ok k → Encoded b k
  unfolding decode_wheel
  wheel-Encoded k c e =
      let (size, made) : (length b ≡ 13) × (wheel (read_u16 b 9) (read_u16 b 11) ≡ k) =
        ground arith in
      subst (Encoded b) made (record {
        valid = (read_u16-lt b w 9, read_u16-lt b w 11);
        bytes = cc (
          listing_lem 13 b 0 size,
          be64-read_u64 b w 0,
          c,
          be16-read_u16 b w 9,
          be16-read_u16 b w 11,
        );
      })

  button-Encoded : (k : InputEventKind) → read_u8 b 8 ≡ 2 → decode_button b ≡ ok k → Encoded b k
  unfolding decode_button
  button-Encoded k c e = elim (Result-cases (button_of_id (read_u8 b 9))) [
    | inr (x, p) ↦ absurd (ground arith)
    | inl (u, p) ↦ elim (Result-cases (state_of_id (read_u8 b 10))) [
      | inr (x, q) ↦ absurd (ground arith)
      | inl (s, q) ↦
          let (size, made) : (length b ≡ 11) × (pointer_button u s ≡ k) = ground arith in
          subst (Encoded b) made (record {
            valid = tt;
            bytes = cc (
              listing_lem 11 b 0 size,
              be64-read_u64 b w 0,
              c,
              button_id-button_of_id (read_u8 b 9) u p,
              state_id-state_of_id (read_u8 b 10) s q,
            );
          })
    ]
  ]

  focus-Encoded : (k : InputEventKind) → read_u8 b 8 ≡ 6 → decode_focus_event b ≡ ok k → Encoded b k
  unfolding decode_focus_event
  focus-Encoded k c e = elim (Result-cases (decode_focus (read_u8 b 9))) [
    | inr (x, p) ↦ absurd (ground arith)
    | inl (f, p) ↦
        let (size, made) : (length b ≡ 10) × (focus f ≡ k) = ground arith in
        subst (Encoded b) made (record {
          valid = tt;
          bytes = cc (
            listing_lem 10 b 0 size,
            be64-read_u64 b w 0,
            c,
            focus_byte-decode_focus (read_u8 b 9) f p,
          );
        })
  ]

  key-Encoded :
      (k : InputEventKind)
      → read_u8 b 8 ≡ 4
      → decode_key b ≡ ok k
      → validate_kind k ≡ ok tt
      → Encoded b k
  unfolding decode_key validate_kind
  key-Encoded k c e v = elim (Result-cases (state_of_id (read_u8 b 11))) [
    | inr (x, p) ↦ absurd (ground arith)
    | inl (s, p) ↦ elim (Result-cases (modifiers_from_bits (read_u16 b 12))) [
      | inr (x, q) ↦ absurd (ground arith)
      | inl (m, q) ↦
          let same = modifiers_kept (read_u16 b 12) m q in
          let (size, made) : (length b ≡ 14) × (key (read_u16 b 9) s m ≡ k) = ground arith in
          let valid : validate_kind (key (read_u16 b 9) s m) ≡ ok tt = ap validate_kind made ∙ v in
          subst (Encoded b) made (record {
            valid = (
              ground (arith, valid),
              read_u16-lt b w 9,
              omega (arith, same, read_u16-lt b w 12),
              ap modifiers_from_bits (sym same) ∙ q,
            );
            bytes = cc (
              listing_lem 14 b 0 size,
              be64-read_u64 b w 0,
              c,
              be16-read_u16 b w 9,
              state_id-state_of_id (read_u8 b 11) s p,
              same,
              be16-read_u16 b w 12,
            );
          })
    ]
  ]

  touch-Encoded :
      (k : InputEventKind)
      → read_u8 b 8 ≡ 5
      → decode_touch b ≡ ok k
      → validate_kind k ≡ ok tt
      → Encoded b k
  unfolding decode_touch validate_kind
  touch-Encoded k c e v = elim (Result-cases (phase_of_id (read_u8 b 10))) [
    | inr (x, p) ↦ absurd (ground arith)
    | inl (s, p) ↦
        let (size, made) : (length b ≡ 17)
            × (touch (read_u8 b 9) s (read_u16 b 11) (read_u16 b 13) (read_u16 b 15) ≡ k) =
          ground arith in
        let valid : validate_kind
              (touch (read_u8 b 9) s (read_u16 b 11) (read_u16 b 13) (read_u16 b 15))
            ≡ ok tt =
          ap validate_kind made ∙ v in
        subst (Encoded b) made (record {
          valid =
              (ground (arith, valid), read_u16-lt b w 11, read_u16-lt b w 13, read_u16-lt b w 15);
          bytes = cc (
            listing_lem 17 b 0 size,
            be64-read_u64 b w 0,
            c,
            phase_id-phase_of_id (read_u8 b 10) s p,
            be16-read_u16 b w 11,
            be16-read_u16 b w 13,
            be16-read_u16 b w 15,
          );
        })
  ]

  decode_kind-Encoded :
      (k : InputEventKind) → decode_kind b ≡ ok k → validate_kind k ≡ ok tt → Encoded b k
  decode_kind-Encoded k e v = elim (decode_kind-Selected b k e) [
    | as_move c d ↦ move-Encoded k c d
    | as_button c d ↦ button-Encoded k c d
    | as_wheel c d ↦ wheel-Encoded k c d
    | as_key c d ↦ key-Encoded k c d v
    | as_touch c d ↦ touch-Encoded k c d v
    | as_focus c d ↦ focus-Encoded k c d
  ]

new_input_event_ok :
    (t : ℕ) (k : InputEventKind) (e : InputEvent)
    → new_input_event t k ≡ ok e
    → (validate_kind k ≡ ok tt) × (record { timestamp_micros = t; kind = k } ≡ e)
unfolding new_input_event
new_input_event_ok t k e h = elim (Result-cases (validate_kind k)) [
  | inl (u, p) ↦ (p, ground arith)
  | inr (x, p) ↦ absurd (ground arith)
]

decode_input_ok :
    (b : List ℕ) (e : InputEvent)
    → decode_input b ≡ ok e
    → (k : InputEventKind) × (decode_kind b ≡ ok k) × (new_input_event (read_u64 b 0) k ≡ ok e)
unfolding decode_input
decode_input_ok b e h = elim (Result-cases (decode_kind b)) [
  | inl (k, p) ↦ (k, p, ground arith)
  | inr (x, p) ↦ absurd (ground arith)
]

-- An input event that the constructor builds from a u64 and a kind of machine integers.
pub record IsInputEvent (e : InputEvent) : Type 0 where
  pub timestamp : e.timestamp_micros < 2 ^ 64
  pub valid : IsKind e.kind

pub decode_input_canonical :
    (b : List ℕ) (e : InputEvent)
    → All IsByte b
    → decode_input b ≡ ok e
    → IsInputEvent e × (encode_input e ≡ ok b)
decode_input_canonical b e w h =
    let (k, p, q) = decode_input_ok b e h in
    let (v, made) = new_input_event_ok (read_u64 b 0) k e q in
    let f = decode_kind-Encoded b w k p v in
    subst (λ x. IsInputEvent x × (encode_input x ≡ ok b)) made
      (
        record { timestamp = read_u64-lt b w 0; valid = f.valid },
        encode_input_valid (record { timestamp_micros = read_u64 b 0; kind = k }) f.valid
            ∙ ap ok f.bytes,
      )

-- Bytes decode to an input event exactly when it meets IsInputEvent and they are its encoding.
pub decode_input_iff :
    (b : List ℕ) (e : InputEvent)
    → All IsByte b
    → (decode_input b ≡ ok e) ↔ (IsInputEvent e × (encode_input e ≡ ok b))
decode_input_iff b e w = (
  decode_input_canonical b e w,
  λ (v, h).
      let (b', made, size, back) = decode_input-encode_input e v.timestamp v.valid in
      read_back encode_input decode_input e b h (b', made, back),
)
