-- ===== src/Protocol/Message/Handshake.antt =====
-- The hello payload and its wire form.
use lado_flow.Base.{
  ℕ, ◌+◌, ◌^◌, ◌≤◌, ◌<◌, ◌≡◌, refl, sym, ap, ◌∙◌, arith, true, false, List, ◌∷◌, ◌++◌, All, length,
  take, drop, length-append, length-take, length-drop, take-append, drop-append, take-append-drop,
  drop-drop_add, take-listing, listing, ok, ◌↔◌, read_back,
}
use lado_flow.Base.Bytes.{IsByte, be16, read_u8, read_u16, word16-be, be16-word16, read_u8-lt}
use lado_flow.Base.Utf8.{is_utf8}
use lado_flow.Protocol.Message.{
  Hello, Role, host, display, role_id, role_of_id, new_hello, encode_hello, decode_hello,
  contains_null,
}

-- A hello that the constructor builds from two u16s, a 16-byte nonce and a string.
pub record IsHello (h : Hello) : Type 0 where
  pub range : (0 < h.min_protocol) × (h.min_protocol ≤ h.max_protocol) × (h.max_protocol < 2 ^ 16)
  pub nonce : length h.nonce ≡ 16
  pub name_length : (0 < length h.implementation_name) × (length h.implementation_name ≤ 64)
  pub name_text : is_utf8 h.implementation_name ≡ true
  pub name_null : contains_null h.implementation_name ≡ false

role_of_id-role_id : (r : Role) → role_of_id (role_id r) ≡ ok r
unfolding role_of_id
role_of_id-role_id host = refl
role_of_id-role_id display = refl

role_id-role_of_id : (v : ℕ) (r : Role) → role_of_id v ≡ ok r → role_id r ≡ v
unfolding role_of_id
role_id-role_of_id v r e = ground arith

new_hello_valid :
    (h : Hello)
    → IsHello h
    → new_hello h.min_protocol h.max_protocol h.role h.nonce h.implementation_name ≡ ok h
unfolding new_hello
new_hello_valid h v = ground arith

-- The wire form.
abbrev hello_bytes : Hello → List ℕ
hello_bytes h =
    be16 h.min_protocol
    ++ (be16 h.max_protocol
        ++ (role_id h.role ∷ length h.implementation_name ∷ (h.nonce ++ h.implementation_name)))

encode_hello_valid : (h : Hello) → IsHello h → encode_hello h ≡ ok (hello_bytes h)
unfolding encode_hello
encode_hello_valid h v = ground arith

-- What decoding checks and reads.
decode_hello_lem :
    (p : List ℕ) (r : Role)
    → length p ≡ 22 + read_u8 p 5
    → role_of_id (read_u8 p 4) ≡ ok r
    → is_utf8 (drop 22 p) ≡ true
    → decode_hello p ≡ new_hello (read_u16 p 0) (read_u16 p 2) r (take 16 (drop 6 p)) (drop 22 p)
unfolding decode_hello
decode_hello_lem p r n e u = ground arith

length-hello_bytes :
    (h : Hello) → IsHello h → length (hello_bytes h) ≡ 22 + length h.implementation_name
length-hello_bytes h v = omega (arith, v.nonce, length-append h.nonce h.implementation_name)

decode_hello_bytes : (h : Hello) → IsHello h → decode_hello (hello_bytes h) ≡ ok h
decode_hello_bytes h v =
    let nonce : take 16 (h.nonce ++ h.implementation_name) ≡ h.nonce =
      take-append 16 h.nonce h.implementation_name v.nonce in
    let name : drop 16 (h.nonce ++ h.implementation_name) ≡ h.implementation_name =
      drop-append 16 h.nonce h.implementation_name v.nonce in
    let low = word16-be h.min_protocol (omega (arith, v.range)) in
    let high = word16-be h.max_protocol v.range.2 in
    decode_hello_lem (hello_bytes h) h.role (length-hello_bytes h v) (role_of_id-role_id h.role)
      (ap is_utf8 name ∙ v.name_text)
    ∙ cc (low, high, nonce, name)
    ∙ new_hello_valid h v

-- A hello that meets IsHello has an encoding, and it decodes to that hello.
pub decode_hello-encode_hello :
    (h : Hello) → IsHello h → (p : List ℕ) × (encode_hello h ≡ ok p) × (decode_hello p ≡ ok h)
decode_hello-encode_hello h v = (hello_bytes h, encode_hello_valid h v, decode_hello_bytes h v)

-- What a decoded hello says of its payload.
record Decoded (p : List ℕ) (h : Hello) : Type 0 where
  size : length p ≡ 22 + read_u8 p 5
  role : role_of_id (read_u8 p 4) ≡ ok h.role
  text : is_utf8 (drop 22 p) ≡ true
  range : (0 < read_u16 p 0) × (read_u16 p 0 ≤ read_u16 p 2)
  name : (0 < length (drop 22 p)) × (length (drop 22 p) ≤ 64) × (contains_null (drop 22 p) ≡ false)
  fields :
      (h.min_protocol ≡ read_u16 p 0)
      × (h.max_protocol ≡ read_u16 p 2)
      × (h.nonce ≡ take 16 (drop 6 p))
      × (h.implementation_name ≡ drop 22 p)

decode_hello-Decoded : (p : List ℕ) (h : Hello) → decode_hello p ≡ ok h → Decoded p h
unfolding decode_hello new_hello
decode_hello-Decoded p h e = ground arith

-- Bytes that decode to a hello are its encoding, and the hello meets IsHello.
pub decode_hello_canonical :
    (p : List ℕ) (h : Hello)
    → All IsByte p
    → decode_hello p ≡ ok h
    → IsHello h × (encode_hello h ≡ ok p)
decode_hello_canonical p h w e =
    let d = decode_hello-Decoded p h e in
    let (min_eq, max_eq, nonce_eq, name_eq) = d.fields in
    let nonce_length : length h.nonce ≡ 16 =
      ap length nonce_eq ∙ length-take 16 (drop 6 p) ∙ omega (arith, d.size, length-drop 6 p) in
    let name_length = ap length name_eq in
    let v : IsHello h = record {
      range = (
        omega (arith, min_eq, d.range.0),
        omega (arith, min_eq, max_eq, d.range.1),
        omega (arith, max_eq, read_u8-lt p w 2, read_u8-lt p w 3),
      );
      nonce = nonce_length;
      name_length = (omega (arith, name_length, d.name.0), omega (arith, name_length, d.name.1));
      name_text = ap is_utf8 name_eq ∙ d.text;
      name_null = ap contains_null name_eq ∙ d.name.2;
    } in
    let tail : h.nonce ++ h.implementation_name ≡ drop 6 p =
      ap (λ t. t ++ h.implementation_name) nonce_eq
      ∙ ap (λ t. take 16 (drop 6 p) ++ t) (name_eq ∙ sym (drop-drop_add 6 16 22 p (omega arith)))
      ∙ take-append-drop 16 (drop 6 p) in
    let head : take 6 p ≡ listing 0 6 p 0 = take-listing 0 6 p 0 (omega (arith, d.size)) in
    let last : length h.implementation_name ≡ read_u8 p 5 =
      omega (arith, name_length, length-drop 22 p, d.size) in
    (
      v,
      encode_hello_valid h v
          ∙ ap ok (
              cc (
                be16-word16 (read_u8 p 0) (read_u8 p 1) (read_u8-lt p w 0) (read_u8-lt p w 1),
                be16-word16 (read_u8 p 2) (read_u8 p 3) (read_u8-lt p w 2) (read_u8-lt p w 3),
                role_id-role_of_id (read_u8 p 4) h.role d.role,
                last,
              )
              ∙ ap (◌++◌ (listing 0 6 p 0)) tail
              ∙ ap (λ t. t ++ drop 6 p) (sym head)
              ∙ take-append-drop 6 p),
    )

-- Bytes decode to a hello exactly when the hello meets IsHello and they are its encoding.
pub decode_hello_iff :
    (p : List ℕ) (h : Hello)
    → All IsByte p
    → (decode_hello p ≡ ok h) ↔ (IsHello h × (encode_hello h ≡ ok p))
decode_hello_iff p h w = (
  decode_hello_canonical p h w,
  λ (v, e). read_back encode_hello decode_hello h p e (decode_hello-encode_hello h v),
)

-- The encoding is small.
pub length-encode_hello :
    (h : Hello) (p : List ℕ) → IsHello h → encode_hello h ≡ ok p → length p ≤ 86
length-encode_hello h p v e =
    let same : hello_bytes h ≡ p = cc (encode_hello_valid h v, e) in
    omega (arith, ap length same, length-hello_bytes h v, v.name_length)
