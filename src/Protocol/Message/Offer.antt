-- ===== src/Protocol/Message/Offer.antt =====
-- The capabilities payload and its wire form.
use lado_flow.Base.{
  ℕ, ◌^◌, ◌<◌, ◌≡◌, ◌↔◌, refl, sym, ap, ◌∙◌, arith, List, ◌++◌, All, length, listing_lem, ok,
  read_back,
}
use lado_flow.Base.Bits.{bit_and_unknown}
use lado_flow.Base.Bytes.{
  IsByte, be16, be32, read_u16, read_u32, word16-be, word32-be, read_u16-lt, read_u32-lt,
  be16-read_u16, be32-read_u32,
}
use lado_flow.Protocol.Message.{
  Capabilities, codecs_from_bits, input_from_bits, features_from_bits, encode_capabilities,
  decode_capabilities,
}

-- Capabilities that the constructor builds from machine words and known bits.
pub record IsOffer (c : Capabilities) : Type 0 where
  pub width : (0 < c.max_width) × (c.max_width < 2 ^ 16)
  pub height : (0 < c.max_height) × (c.max_height < 2 ^ 16)
  pub refresh : (0 < c.max_refresh_millihz) × (c.max_refresh_millihz < 2 ^ 32)
  pub bitrate : (0 < c.max_bitrate_kbps) × (c.max_bitrate_kbps < 2 ^ 32)
  pub codec : (0 < c.codecs) × (c.codecs < 8)
  pub inputs : c.input < 8
  pub feature : c.features < 8

codecs_lem : (bits : ℕ) → bits < 2 ^ 16 → (codecs_from_bits bits ≡ ok bits) ↔ (bits < 8)
unfolding codecs_from_bits
codecs_lem bits h =
    let exact = bit_and_unknown 13 bits 65528 h (omega arith) in
    (λ e. ground (arith, exact), λ small. ground (arith, exact))

input_lem : (bits : ℕ) → bits < 2 ^ 16 → (input_from_bits bits ≡ ok bits) ↔ (bits < 8)
unfolding input_from_bits
input_lem bits h =
    let exact = bit_and_unknown 13 bits 65528 h (omega arith) in
    (λ e. ground (arith, exact), λ small. ground (arith, exact))

features_lem : (bits : ℕ) → bits < 2 ^ 32 → (features_from_bits bits ≡ ok bits) ↔ (bits < 8)
unfolding features_from_bits
features_lem bits h =
    let exact = bit_and_unknown 29 bits 4294967288 h (omega arith) in
    (λ e. ground (arith, exact), λ small. ground (arith, exact))

abbrev offer_bytes : Capabilities → List ℕ
offer_bytes c =
    be16 c.max_width
    ++ (be16 c.max_height
        ++ (be32 c.max_refresh_millihz
            ++ (be32 c.max_bitrate_kbps ++ (be16 c.codecs ++ (be16 c.input ++ be32 c.features)))))

encode_capabilities_valid :
    (c : Capabilities) → IsOffer c → encode_capabilities c ≡ ok (offer_bytes c)
unfolding encode_capabilities
encode_capabilities_valid c v = ground arith

decode_capabilities_lem :
    (p : List ℕ) (c : Capabilities)
    → length p ≡ 20
    → IsOffer c
    → read_u16 p 0 ≡ c.max_width
    → read_u16 p 2 ≡ c.max_height
    → read_u32 p 4 ≡ c.max_refresh_millihz
    → read_u32 p 8 ≡ c.max_bitrate_kbps
    → read_u16 p 12 ≡ c.codecs
    → read_u16 p 14 ≡ c.input
    → read_u32 p 16 ≡ c.features
    → decode_capabilities p ≡ ok c
unfolding decode_capabilities
decode_capabilities_lem p c n v a b d e f g h =
    let codecs =
      ap codecs_from_bits f ∙ (codecs_lem c.codecs (omega (arith, v.codec))).1 v.codec.1 in
    let input = ap input_from_bits g ∙ (input_lem c.input (omega (arith, v.inputs))).1 v.inputs in
    let features =
      ap features_from_bits h ∙ (features_lem c.features (omega (arith, v.feature))).1 v.feature in
    ground (arith, codecs, input, features)

decode_offer_bytes : (c : Capabilities) → IsOffer c → decode_capabilities (offer_bytes c) ≡ ok c
decode_offer_bytes c v =
    decode_capabilities_lem (offer_bytes c) c refl v (word16-be c.max_width v.width.1)
      (word16-be c.max_height v.height.1) (word32-be c.max_refresh_millihz v.refresh.1)
      (word32-be c.max_bitrate_kbps v.bitrate.1) (word16-be c.codecs (omega (arith, v.codec)))
      (word16-be c.input (omega (arith, v.inputs)))
      (word32-be c.features (omega (arith, v.feature)))

-- Capabilities that meet IsOffer have an encoding, and it decodes to them.
pub decode_capabilities-encode_capabilities :
    (c : Capabilities)
    → IsOffer c
    → (p : List ℕ) × (encode_capabilities c ≡ ok p) × (decode_capabilities p ≡ ok c)
decode_capabilities-encode_capabilities c v =
    (offer_bytes c, encode_capabilities_valid c v, decode_offer_bytes c v)

-- What decoded capabilities say of their payload.
record Decoded (p : List ℕ) (c : Capabilities) : Type 0 where
  size : length p ≡ 20
  codecs : codecs_from_bits (read_u16 p 12) ≡ ok (read_u16 p 12)
  input : input_from_bits (read_u16 p 14) ≡ ok (read_u16 p 14)
  features : features_from_bits (read_u32 p 16) ≡ ok (read_u32 p 16)
  positive :
      (0 < c.max_width)
      × (0 < c.max_height)
      × (0 < c.max_refresh_millihz)
      × (0 < c.max_bitrate_kbps)
      × (0 < c.codecs)
  dimensions : (c.max_width ≡ read_u16 p 0) × (c.max_height ≡ read_u16 p 2)
  rates : (c.max_refresh_millihz ≡ read_u32 p 4) × (c.max_bitrate_kbps ≡ read_u32 p 8)
  sets : (c.codecs ≡ read_u16 p 12) × (c.input ≡ read_u16 p 14) × (c.features ≡ read_u32 p 16)

decode_capabilities-Decoded :
    (p : List ℕ) (c : Capabilities) → decode_capabilities p ≡ ok c → Decoded p c
unfolding decode_capabilities codecs_from_bits input_from_bits features_from_bits
decode_capabilities-Decoded p c e = ground arith

-- Bytes that decode to capabilities are their encoding, and the capabilities meet IsOffer.
pub decode_capabilities_canonical :
    (p : List ℕ) (c : Capabilities)
    → All IsByte p
    → decode_capabilities p ≡ ok c
    → IsOffer c × (encode_capabilities c ≡ ok p)
decode_capabilities_canonical p c w e =
    let d = decode_capabilities-Decoded p c e in
    let v : IsOffer c = record {
      width = (d.positive.0, omega (arith, d.dimensions, read_u16-lt p w 0));
      height = (d.positive.1, omega (arith, d.dimensions, read_u16-lt p w 2));
      refresh = (d.positive.2, omega (arith, d.rates, read_u32-lt p w 4));
      bitrate = (d.positive.3, omega (arith, d.rates, read_u32-lt p w 8));
      codec = (d.positive.4, omega (arith, d.sets, (codecs_lem _ (read_u16-lt p w 12)).0 d.codecs));
      inputs = omega (arith, d.sets, (input_lem _ (read_u16-lt p w 14)).0 d.input);
      feature = omega (arith, d.sets, (features_lem _ (read_u32-lt p w 16)).0 d.features);
    } in
    (
      v,
      encode_capabilities_valid c v
          ∙ ap ok (
              cc (
                listing_lem 20 p 0 d.size,
                ap be16 d.dimensions.0,
                be16-read_u16 p w 0,
                ap be16 d.dimensions.1,
                be16-read_u16 p w 2,
                ap be32 d.rates.0,
                be32-read_u32 p w 4,
                ap be32 d.rates.1,
                be32-read_u32 p w 8,
                ap be16 d.sets.0,
                be16-read_u16 p w 12,
                ap be16 d.sets.1,
                be16-read_u16 p w 14,
                ap be32 d.sets.2,
                be32-read_u32 p w 16,
              )),
    )

-- Bytes decode to capabilities exactly when these meet IsOffer and the bytes are their encoding.
pub decode_capabilities_iff :
    (p : List ℕ) (c : Capabilities)
    → All IsByte p
    → (decode_capabilities p ≡ ok c) ↔ (IsOffer c × (encode_capabilities c ≡ ok p))
decode_capabilities_iff p c w = (
  decode_capabilities_canonical p c w,
  λ (v, e).
      read_back encode_capabilities decode_capabilities c p e
        (decode_capabilities-encode_capabilities c v),
)

pub length-encode_capabilities :
    (c : Capabilities) (p : List ℕ) → IsOffer c → encode_capabilities c ≡ ok p → length p ≡ 20
length-encode_capabilities c p v e =
    let same : offer_bytes c ≡ p = cc (encode_capabilities_valid c v, e) in sym (ap length same)
