-- ===== src/Protocol/Frame/Header.antt =====
-- The fixed header on the wire.
use lado_flow.Base.{
  ℕ, ◌/◌, ◌%◌, ◌^◌, listing_lem, sym, ◌≤◌, ◌<◌, ◌≡◌, ◌↔◌, refl, ap, ◌∙◌, arith, List, All, length,
  ok, true,
}
use lado_flow.Base.Bits.{bit_and_unknown}
use lado_flow.Base.Bytes.{
  IsByte, read_u16, read_u32, read_u64, word16, be16, be32, read_u8, word16-be, word32-be,
  word64-be, be64-word64, read_u16-lt, read_u32-lt, be16-read_u16, be32-read_u32,
}
use lado_flow.Protocol.Error.{MessageType}
use lado_flow.Protocol.Frame.{
  FrameHeader, kind_id, kind_of_id, flags_from_bits, payload_limit, encode_header, decode_header,
  is_magic,
}

-- A header that the constructors build.
pub record IsHeader (h : FrameHeader) : Type 0 where
  pub version : h.version ≡ 1
  pub flags : h.flags < 8
  pub sequence : h.sequence < 2 ^ 64
  pub bounded : h.payload_len ≤ payload_limit h.kind

-- Exactly the three defined bits are accepted.
pub flags_from_bits_iff : (bits : ℕ) → bits < 2 ^ 16 → (flags_from_bits bits ≡ ok bits) ↔ (bits < 8)
unfolding flags_from_bits
flags_from_bits_iff bits h =
    let exact = bit_and_unknown 13 bits 65528 h (omega arith) in
    (λ e. ground (arith, exact), λ small. ground (arith, exact))

flags_from_bits_eq : (bits flags : ℕ) → flags_from_bits bits ≡ ok flags → flags ≡ bits
unfolding flags_from_bits
flags_from_bits_eq bits flags e = ground arith

kind_of_id-kind_id : (k : MessageType) → kind_of_id (kind_id k) ≡ ok k
unfolding kind_of_id
kind_of_id-kind_id MessageType.hello = refl
kind_of_id-kind_id _ = refl

kind_id-kind_of_id : (v : ℕ) (k : MessageType) → kind_of_id v ≡ ok k → kind_id k ≡ v
unfolding kind_of_id
kind_id-kind_of_id v k e = ground arith

kind_id-lt : (k : MessageType) → kind_id k < 2 ^ 16
kind_id-lt k = ground arith

pub payload_limit-lt : (k : MessageType) → payload_limit k < 2 ^ 32
payload_limit-lt k = ground arith

pub length-encode_header : (h : FrameHeader) → length (encode_header h) ≡ 24
unfolding encode_header
length-encode_header h = refl

pub encode_header-IsByte : (h : FrameHeader) → All IsByte (encode_header h)
unfolding encode_header
encode_header-IsByte h = omega arith

-- The header that a row of fields stands for, when each field passes its check.
decode_header_lem :
    (bytes : List ℕ) (k : MessageType) (flags : ℕ)
    → is_magic bytes ≡ true
    → read_u16 bytes 4 ≡ 1
    → read_u16 bytes 6 ≡ 24
    → kind_of_id (read_u16 bytes 8) ≡ ok k
    → flags_from_bits (read_u16 bytes 10) ≡ ok flags
    → read_u32 bytes 20 ≤ payload_limit k
    → decode_header bytes
      ≡ ok (record {
        version = 1;
        kind = k;
        flags = flags;
        sequence = read_u64 bytes 12;
        payload_len = read_u32 bytes 20;
      })
unfolding decode_header
decode_header_lem bytes k flags m v l ek ef b = ground (arith, payload_limit-lt k)

-- Each check passed when a header was decoded.
record Decoded (bytes : List ℕ) (h : FrameHeader) : Type 0 where
  magic : is_magic bytes ≡ true
  version : read_u16 bytes 4 ≡ 1
  header_len : read_u16 bytes 6 ≡ 24
  kind : kind_of_id (read_u16 bytes 8) ≡ ok h.kind
  flags : flags_from_bits (read_u16 bytes 10) ≡ ok h.flags
  bounded : read_u32 bytes 20 ≤ payload_limit h.kind
  fields : (h.version ≡ 1) × (h.sequence ≡ read_u64 bytes 12) × (h.payload_len ≡ read_u32 bytes 20)

decode_header-Decoded :
    (bytes : List ℕ) (h : FrameHeader) → decode_header bytes ≡ ok h → Decoded bytes h
unfolding decode_header
decode_header-Decoded bytes h e = ground arith

-- Decoding reads back every header that was built and encoded.
pub decode_header-encode_header :
    (h : FrameHeader) → IsHeader h → decode_header (encode_header h) ≡ ok h
unfolding encode_header
decode_header-encode_header h v =
    let kind : word16 (kind_id h.kind / 256 % 256) (kind_id h.kind % 256) ≡ kind_id h.kind =
      word16-be (kind_id h.kind) (kind_id-lt h.kind) in
    let flags : word16 (h.flags / 256 % 256) (h.flags % 256) ≡ h.flags = omega (arith, v.flags) in
    let len = word32-be h.payload_len (omega (arith, v.bounded, payload_limit-lt h.kind)) in
    decode_header_lem (encode_header h) h.kind h.flags refl (omega (arith, v.version)) refl
      (ap kind_of_id kind ∙ kind_of_id-kind_id h.kind)
      (ap flags_from_bits flags ∙ (flags_from_bits_iff h.flags (omega (arith, v.flags))).1 v.flags)
      (omega (arith, len, v.bounded))
    ∙ ap ok (cc (v.version, word64-be h.sequence v.sequence, len))

is_magic_lem :
    (bytes : List ℕ)
    → is_magic bytes ≡ true
    → (read_u8 bytes 0 ≡ b'L')
      × (read_u8 bytes 1 ≡ b'D')
      × (read_u8 bytes 2 ≡ b'F')
      × (read_u8 bytes 3 ≡ b'L')
is_magic_lem bytes m = ground arith

-- The wire form is canonical: 24 bytes that decode to a header are its encoding, and the header is
-- one that the constructors build.
pub decode_header-canonical :
    (bytes : List ℕ) (h : FrameHeader)
    → length bytes ≡ 24
    → All IsByte bytes
    → decode_header bytes ≡ ok h
    → IsHeader h × (encode_header h ≡ bytes)
unfolding encode_header
decode_header-canonical bytes h n w e =
    let d = decode_header-Decoded bytes h e in
    let magic = is_magic_lem bytes d.magic in
    let flags : h.flags ≡ read_u16 bytes 10 = flags_from_bits_eq _ h.flags d.flags in
    let kind : kind_id h.kind ≡ read_u16 bytes 8 = kind_id-kind_of_id _ h.kind d.kind in
    (
      record {
        version = d.fields.0;
        flags = omega (
          arith,
          flags,
          (flags_from_bits_iff (read_u16 bytes 10) (read_u16-lt bytes w 10)).0
              (d.flags ∙ ap ok flags),
        );
        sequence = omega (arith, d.fields.1, read_u32-lt bytes w 12, read_u32-lt bytes w 16);
        bounded = omega (arith, d.bounded, d.fields.2);
      },
      cc (
        listing_lem 24 bytes 0 n,
        magic.0,
        magic.1,
        magic.2,
        magic.3,
        ap be16 (d.fields.0 ∙ sym d.version),
        be16-read_u16 bytes w 4,
        ap be16 (sym d.header_len),
        be16-read_u16 bytes w 6,
        ap be16 kind,
        be16-read_u16 bytes w 8,
        ap be16 flags,
        be16-read_u16 bytes w 10,
        be64-word64 h.sequence (read_u32 bytes 12) (read_u32 bytes 16) (read_u32-lt bytes w 12)
            (read_u32-lt bytes w 16) d.fields.1,
        be32-read_u32 bytes w 12,
        be32-read_u32 bytes w 16,
        ap be32 d.fields.2,
        be32-read_u32 bytes w 20,
      ),
    )

pub decode_header_bounded :
    (bytes : List ℕ) (h : FrameHeader) → decode_header bytes ≡ ok h → h.payload_len < 2 ^ 32
decode_header_bounded bytes h e =
    let d = decode_header-Decoded bytes h e in
    omega (arith, d.bounded, d.fields.2, payload_limit-lt h.kind)
