-- ===== src/Transport/Pairing/Records.antt =====
-- The fixed-size record and its bytes.
use lado_flow.Base.{
  ℕ, ◌≡◌, ◌↔◌, refl, sym, ap, ◌∙◌, arith, true, List, [], ◌∷◌, ◌++◌, take, drop, length, ok,
  listing, All, take-append, take-append-drop, drop-append, append_both, length-append,
  take-listing, length-take, length-drop, drop-drop_add, All-get_or,
}
use lado_flow.Base.Bytes.{IsByte, read_u8, read_u16}
use lado_flow.Transport.Pairing.{
  PairingRecord, pairing_magic, same_bytes, encode_record, decode_record,
}

pub same_bytes-eq : (xs ys : List ℕ) → same_bytes xs ys ≡ true → xs ≡ ys
unfolding same_bytes
same_bytes-eq [] [] h = refl
same_bytes-eq [] (y ∷ ys) h = cc
same_bytes-eq (x ∷ xs) [] h = cc
same_bytes-eq (x ∷ xs) (y ∷ ys) h = ground (arith, same_bytes-eq xs ys)

pub same_bytes_refl : (xs : List ℕ) → same_bytes xs xs ≡ true
unfolding same_bytes
same_bytes_refl [] = refl
same_bytes_refl (x ∷ xs) = ground (arith, same_bytes_refl xs)

-- A record of the fixed layout.
pub record IsRecord (r : PairingRecord) : Type 0 where
  pub nonce : length r.nonce ≡ 16
  pub tag : length r.tag ≡ 32

pub decode_record-encode_record :
    (r : PairingRecord) → IsRecord r → decode_record (encode_record r) ≡ ok r
unfolding decode_record encode_record
decode_record-encode_record r v = ground (
  arith,
  take-append 16 r.nonce r.tag v.nonce,
  drop-append 16 r.nonce r.tag v.nonce,
  same_bytes_refl pairing_magic,
)

pub length-encode_record : (r : PairingRecord) → IsRecord r → length (encode_record r) ≡ 56
unfolding encode_record
length-encode_record r v = omega (arith, length-append r.nonce r.tag)

record Header (bytes : List ℕ) (r : PairingRecord) : Type 0 where
  magic : take 4 bytes ≡ pairing_magic
  version : read_u16 bytes 4 ≡ 1
  reserved : read_u8 bytes 7 ≡ 0
  kind : r.kind ≡ read_u8 bytes 6
  nonce : r.nonce ≡ take 16 (drop 8 bytes)
  tag : r.tag ≡ drop 24 bytes

decode_record-Header :
    (bytes : List ℕ) (r : PairingRecord) → decode_record bytes ≡ ok r → Header bytes r
unfolding decode_record
decode_record-Header bytes r e = ground (arith, same_bytes-eq (take 4 bytes) pairing_magic)

front_of_Header :
    (bytes : List ℕ) (r : PairingRecord)
    → length bytes ≡ 56
    → All IsByte bytes
    → Header bytes r
    → take 8 bytes ≡ pairing_magic ++ (0 ∷ 1 ∷ r.kind ∷ 0 ∷ [])
front_of_Header bytes r n w h =
    let four : listing 0 4 bytes 0 ≡ pairing_magic =
      sym (take-listing 0 4 bytes 0 (omega arith)) ∙ h.magic in
    let high = All-get_or IsByte bytes 4 0 w (omega arith) in
    let low = All-get_or IsByte bytes 5 0 w (omega arith) in
    take-listing 0 8 bytes 0 (omega arith)
    ∙ append_both four (ground (arith, h.version, h.reserved, h.kind))

pub decode_record-canonical :
    (bytes : List ℕ) (r : PairingRecord)
    → length bytes ≡ 56
    → All IsByte bytes
    → decode_record bytes ≡ ok r
    → IsRecord r × (encode_record r ≡ bytes)
unfolding encode_record
decode_record-canonical bytes r n w e =
    let h = decode_record-Header bytes r e in
    let body : r.nonce ++ r.tag ≡ drop 8 bytes =
      append_both h.nonce (h.tag ∙ sym (drop-drop_add 8 16 24 bytes refl))
      ∙ take-append-drop 16 (drop 8 bytes) in
    (
      record {
        nonce =
            ap length h.nonce ∙ omega (arith, length-take 16 (drop 8 bytes), length-drop 8 bytes);
        tag = ap length h.tag ∙ omega (arith, length-drop 24 bytes);
      },
      ap (◌++◌ (pairing_magic ++ (0 ∷ 1 ∷ r.kind ∷ 0 ∷ []))) body
          ∙ ap (λ t. t ++ drop 8 bytes) (sym (front_of_Header bytes r n w h))
          ∙ take-append-drop 8 bytes,
    )

-- A pairing record of 56 bytes decodes to r exactly when r meets IsRecord and the bytes are the
-- encoding of r.
pub decode_record_iff :
    (bytes : List ℕ) (r : PairingRecord)
    → length bytes ≡ 56
    → All IsByte bytes
    → (decode_record bytes ≡ ok r) ↔ (IsRecord r × (encode_record r ≡ bytes))
decode_record_iff bytes r n w = (
  decode_record-canonical bytes r n w,
  λ p. ap decode_record (sym p.1) ∙ decode_record-encode_record r p.0,
)
