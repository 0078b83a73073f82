-- ===== src/Protocol/Control/Diagnostic.antt =====
-- Error messages on the wire.
use lado_flow.Base.{
  ℕ, ◌+◌, ◌^◌, ◌≤◌, ◌<◌, ◌≡◌, refl, sym, ap, ◌∙◌, arith, Bool, true, false, List, ◌∷◌, ◌++◌, All,
  length, take, drop, length-drop, take-append-drop, take-listing, listing, All-get_or,
  Result-cases, inl, inr, ok, err, ◌↔◌, read_back,
}
use lado_flow.Base.Bytes.{IsByte, be16, read_u8, read_u16, word16-be, be16-word16}
use lado_flow.Base.Utf8.{is_utf8}
use lado_flow.Protocol.Error.{ProtocolError}
use lado_flow.Protocol.Message.{contains_null}
use lado_flow.Protocol.Control.{
  ErrorMessage, ErrorCode, protocol_violation, code_id, code_of_id, bool_byte, decode_bool,
  encode_error_message, decode_error_message, new_error_message,
}

-- An error message that the constructor builds from a string.
pub record IsErrorMessage (m : ErrorMessage) : Type 0 where
  pub short : length m.diagnostic ≤ 1_024
  pub text : is_utf8 m.diagnostic ≡ true
  pub no_null : contains_null m.diagnostic ≡ false

abbrev error_bytes : ErrorMessage → List ℕ
error_bytes m =
    be16 (code_id m.code) ++ (bool_byte m.retryable ∷ (be16 (length m.diagnostic) ++ m.diagnostic))

code_of_id-code_id : (c : ErrorCode) → code_of_id (code_id c) ≡ ok c
unfolding code_of_id
code_of_id-code_id protocol_violation = refl
code_of_id-code_id _ = refl

code_id-code_of_id : (v : ℕ) (c : ErrorCode) → code_of_id v ≡ ok c → code_id c ≡ v
unfolding code_of_id
code_id-code_of_id v c e = ground arith

code_id-lt : (c : ErrorCode) → code_id c < 2 ^ 16
code_id-lt c = ground arith

decode_bool-bool_byte : (b : Bool) → decode_bool (bool_byte b) ≡ ok b
unfolding decode_bool
decode_bool-bool_byte false = refl
decode_bool-bool_byte true = refl

bool_byte-decode_bool : (v : ℕ) (b : Bool) → decode_bool v ≡ ok b → bool_byte b ≡ v
unfolding decode_bool
bool_byte-decode_bool v b e = ground arith

encode_error_valid :
    (m : ErrorMessage) → IsErrorMessage m → encode_error_message m ≡ ok (error_bytes m)
unfolding encode_error_message
encode_error_valid m v = ground arith

decode_error_lem :
    (p : List ℕ) (m : ErrorMessage)
    → length p ≡ 5 + read_u16 p 3
    → code_of_id (read_u16 p 0) ≡ ok m.code
    → decode_bool (read_u8 p 2) ≡ ok m.retryable
    → drop 5 p ≡ m.diagnostic
    → read_u16 p 3 ≡ length m.diagnostic
    → IsErrorMessage m
    → decode_error_message p ≡ ok m
unfolding decode_error_message
decode_error_lem p m n c r d l v = ground (arith, ap is_utf8 d, ap contains_null d, ap length d)

pub decode_error_message-encode_error_message :
    (m : ErrorMessage)
    → IsErrorMessage m
    → (p : List ℕ) × (encode_error_message m ≡ ok p) × (decode_error_message p ≡ ok m)
decode_error_message-encode_error_message m v =
    let size = word16-be (length m.diagnostic) (omega (arith, v.short)) in
    (
      error_bytes m,
      encode_error_valid m v,
      decode_error_lem (error_bytes m) m (omega (arith, size))
          (ap code_of_id (word16-be (code_id m.code) (code_id-lt m.code))
            ∙ code_of_id-code_id m.code)
          (decode_bool-bool_byte m.retryable) refl size v,
    )

record Decoded (p : List ℕ) (m : ErrorMessage) : Type 0 where
  size : length p ≡ 5 + read_u16 p 3
  code : code_of_id (read_u16 p 0) ≡ ok m.code
  retryable : decode_bool (read_u8 p 2) ≡ ok m.retryable
  diagnostic : m.diagnostic ≡ drop 5 p
  valid : IsErrorMessage m

new_error_message-IsErrorMessage :
    (c : ErrorCode) (r : Bool) (d : List ℕ) (m : ErrorMessage)
    → is_utf8 d ≡ true
    → new_error_message c r d ≡ ok m
    → (m.code ≡ c) × (m.retryable ≡ r) × (m.diagnostic ≡ d) × IsErrorMessage m
unfolding new_error_message
new_error_message-IsErrorMessage c r d m u e = ground arith

-- The checks that a decoded payload has passed.
decode_error_checks :
    (p : List ℕ) (m : ErrorMessage) (c : ErrorCode) (r : Bool)
    → code_of_id (read_u16 p 0) ≡ ok c
    → decode_bool (read_u8 p 2) ≡ ok r
    → decode_error_message p ≡ ok m
    → (length p ≡ 5 + read_u16 p 3)
      × (is_utf8 (drop 5 p) ≡ true)
      × (new_error_message c r (drop 5 p) ≡ ok m)
unfolding decode_error_message
decode_error_checks p m c r ec er e = ground (arith, ec, er)

decode_error_code :
    (p : List ℕ) (m : ErrorMessage) (x : ProtocolError)
    → code_of_id (read_u16 p 0) ≡ err x
    → ¬ (decode_error_message p ≡ ok m)
unfolding decode_error_message
decode_error_code p m x ec e = ground (arith, ec)

decode_error_retryable :
    (p : List ℕ) (m : ErrorMessage) (c : ErrorCode) (x : ProtocolError)
    → code_of_id (read_u16 p 0) ≡ ok c
    → decode_bool (read_u8 p 2) ≡ err x
    → ¬ (decode_error_message p ≡ ok m)
unfolding decode_error_message
decode_error_retryable p m c x ec er e = ground (arith, ec, er)

decode_error-Decoded : (p : List ℕ) (m : ErrorMessage) → decode_error_message p ≡ ok m → Decoded p m
decode_error-Decoded p m e = elim (Result-cases (code_of_id (read_u16 p 0))) [
  | inr (x, ec) ↦ absurd (decode_error_code p m x ec e)
  | inl (c, ec) ↦ elim (Result-cases (decode_bool (read_u8 p 2))) [
    | inr (x, er) ↦ absurd (decode_error_retryable p m c x ec er e)
    | inl (r, er) ↦
        let checks = decode_error_checks p m c r ec er e in
        let built = new_error_message-IsErrorMessage c r (drop 5 p) m checks.1 checks.2 in
        record {
          size = checks.0;
          code = ec ∙ ap ok (sym built.0);
          retryable = er ∙ ap ok (sym built.1);
          diagnostic = built.2;
          valid = built.3;
        }
  ]
]

-- What decodes is the encoding of what it decodes to.
pub decode_error_message_canonical :
    (p : List ℕ) (m : ErrorMessage)
    → All IsByte p
    → decode_error_message p ≡ ok m
    → IsErrorMessage m × (encode_error_message m ≡ ok p)
decode_error_message_canonical p m w e =
    let d = decode_error-Decoded p m e in
    let small : (i : ℕ) → read_u8 p i < 256 = λ i. All-get_or IsByte p i 0 w (omega arith) in
    let head : take 5 p ≡ listing 0 5 p 0 = take-listing 0 5 p 0 (omega (arith, d.size)) in
    let last : length m.diagnostic ≡ read_u16 p 3 =
      omega (arith, ap length d.diagnostic, length-drop 5 p, d.size) in
    (
      d.valid,
      encode_error_valid m d.valid
          ∙ ap ok (
              cc (
                ap be16 (code_id-code_of_id (read_u16 p 0) m.code d.code),
                be16-word16 (read_u8 p 0) (read_u8 p 1) (small 0) (small 1),
                bool_byte-decode_bool (read_u8 p 2) m.retryable d.retryable,
                last,
                be16-word16 (read_u8 p 3) (read_u8 p 4) (small 3) (small 4),
              )
              ∙ ap (◌++◌ (listing 0 5 p 0)) d.diagnostic
              ∙ ap (λ t. t ++ drop 5 p) (sym head)
              ∙ take-append-drop 5 p),
    )

-- Bytes decode to an error message exactly when it meets IsErrorMessage and they are its encoding.
pub decode_error_message_iff :
    (p : List ℕ) (m : ErrorMessage)
    → All IsByte p
    → (decode_error_message p ≡ ok m) ↔ (IsErrorMessage m × (encode_error_message m ≡ ok p))
decode_error_message_iff p m w = (
  decode_error_message_canonical p m w,
  λ (v, e).
      read_back encode_error_message decode_error_message m p e
        (decode_error_message-encode_error_message m v),
)
