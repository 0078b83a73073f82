-- ===== src/Protocol/Display/Config.antt =====
-- The display configuration on the wire.
use lado_flow.Base.{
  ℕ, ◌^◌, ◌<◌, ◌≡◌, refl, sym, ap, ◌∙◌, arith, List, [], ◌∷◌, ◌++◌, All, length, listing_lem,
  Result-cases, inl, inr, ok, err, ◌↔◌, read_back,
}
use lado_flow.Base.Bytes.{
  IsByte, be16, be32, read_u8, read_u16, read_u32, word16-be, word32-be, read_u16-lt, read_u32-lt,
  be16-read_u16, be32-read_u32,
}
use lado_flow.Protocol.Error.{ProtocolError}
use lado_flow.Protocol.Display.{
  DisplayConfig, VideoCodec, CodecProfile, h264, h264_main, codec_id, codec_of_id, profile_id,
  profile_of_id, profile_codec, new_display_config, encode_display_config, decode_display_config,
}

-- A configuration that the constructor builds from machine words.
pub record IsDisplayConfig (c : DisplayConfig) : Type 0 where
  pub width : (0 < c.width) × (c.width < 2 ^ 16)
  pub height : (0 < c.height) × (c.height < 2 ^ 16)
  pub refresh : (0 < c.refresh_millihz) × (c.refresh_millihz < 2 ^ 32)
  pub bitrate : (0 < c.bitrate_kbps) × (c.bitrate_kbps < 2 ^ 32)
  pub profile : profile_codec c.profile ≡ c.codec

codec_of_id-codec_id : (c : VideoCodec) → codec_of_id (codec_id c) ≡ ok c
unfolding codec_of_id
codec_of_id-codec_id h264 = refl
codec_of_id-codec_id _ = refl

codec_id-codec_of_id : (v : ℕ) (c : VideoCodec) → codec_of_id v ≡ ok c → codec_id c ≡ v
unfolding codec_of_id
codec_id-codec_of_id v c e = ground arith

profile_of_id-profile_id : (p : CodecProfile) → profile_of_id (profile_id p) ≡ ok p
unfolding profile_of_id
profile_of_id-profile_id h264_main = refl
profile_of_id-profile_id _ = refl

profile_id-profile_of_id : (v : ℕ) (p : CodecProfile) → profile_of_id v ≡ ok p → profile_id p ≡ v
unfolding profile_of_id
profile_id-profile_of_id v p e = ground arith

codec_id_injective : (c d : VideoCodec) → codec_id c ≡ codec_id d → c ≡ d
codec_id_injective c d e = ground arith

abbrev config_bytes : DisplayConfig → List ℕ
config_bytes c =
    be16 c.width
    ++ (be16 c.height
        ++ (be32 c.refresh_millihz
            ++ (be32 c.bitrate_kbps ++ (codec_id c.codec ∷ profile_id c.profile ∷ []))))

new_display_config_valid : (c : DisplayConfig) → IsDisplayConfig c → new_display_config c ≡ ok c
unfolding new_display_config
new_display_config_valid c v = ground (arith, ap codec_id v.profile)

encode_config_valid :
    (c : DisplayConfig) → IsDisplayConfig c → encode_display_config c ≡ ok (config_bytes c)
unfolding encode_display_config
encode_config_valid c v = rw (new_display_config_valid c v) refl

-- The fields that a payload holds.
abbrev config_at : List ℕ → VideoCodec → CodecProfile → DisplayConfig
config_at b codec profile = record {
  width = read_u16 b 0;
  height = read_u16 b 2;
  refresh_millihz = read_u32 b 4;
  bitrate_kbps = read_u32 b 8;
  codec = codec;
  profile = profile;
}

decode_config_lem :
    (b : List ℕ) (codec : VideoCodec) (profile : CodecProfile)
    → length b ≡ 14
    → codec_of_id (read_u8 b 12) ≡ ok codec
    → profile_of_id (read_u8 b 13) ≡ ok profile
    → decode_display_config b ≡ new_display_config (config_at b codec profile)
unfolding decode_display_config
decode_config_lem b codec profile n c p = ground (arith, c, p)

pub decode_display_config-encode_display_config :
    (c : DisplayConfig)
    → IsDisplayConfig c
    → (b : List ℕ) × (encode_display_config c ≡ ok b) × (decode_display_config b ≡ ok c)
decode_display_config-encode_display_config c v = (
  config_bytes c,
  encode_config_valid c v,
  decode_config_lem (config_bytes c) c.codec c.profile refl (codec_of_id-codec_id c.codec)
        (profile_of_id-profile_id c.profile)
      ∙ ap new_display_config (
          cc (
            word16-be c.width v.width.1,
            word16-be c.height v.height.1,
            word32-be c.refresh_millihz v.refresh.1,
            word32-be c.bitrate_kbps v.bitrate.1,
          ))
      ∙ new_display_config_valid c v,
)

new_display_config-lem :
    (a c : DisplayConfig)
    → new_display_config a ≡ ok c
    → (c ≡ a)
      × (0 < c.width)
      × (0 < c.height)
      × (0 < c.refresh_millihz)
      × (0 < c.bitrate_kbps)
      × (codec_id (profile_codec c.profile) ≡ codec_id c.codec)
unfolding new_display_config
new_display_config-lem a c e = ground arith

-- What was read before the constructor was called.
record Decoded (b : List ℕ) (c : DisplayConfig) : Type 0 where
  codec : VideoCodec
  profile : CodecProfile
  size : length b ≡ 14
  codec_byte : codec_id codec ≡ read_u8 b 12
  profile_byte : profile_id profile ≡ read_u8 b 13
  built : new_display_config (config_at b codec profile) ≡ ok c

decode_config_size :
    (b : List ℕ) (c : DisplayConfig) → decode_display_config b ≡ ok c → length b ≡ 14
unfolding decode_display_config
decode_config_size b c e = ground arith

decode_config_codec :
    (b : List ℕ) (c : DisplayConfig) (x : ProtocolError)
    → codec_of_id (read_u8 b 12) ≡ err x
    → ¬ (decode_display_config b ≡ ok c)
unfolding decode_display_config
decode_config_codec b c x p e = ground (arith, p)

decode_config_profile :
    (b : List ℕ) (c : DisplayConfig) (codec : VideoCodec) (x : ProtocolError)
    → codec_of_id (read_u8 b 12) ≡ ok codec
    → profile_of_id (read_u8 b 13) ≡ err x
    → ¬ (decode_display_config b ≡ ok c)
unfolding decode_display_config
decode_config_profile b c codec x p q e = ground (arith, p, q)

decode_config-Decoded :
    (b : List ℕ) (c : DisplayConfig) → decode_display_config b ≡ ok c → Decoded b c
decode_config-Decoded b c e = elim (Result-cases (codec_of_id (read_u8 b 12))) [
  | inr (x, p) ↦ absurd (decode_config_codec b c x p e)
  | inl (codec, p) ↦ elim (Result-cases (profile_of_id (read_u8 b 13))) [
    | inr (x, q) ↦ absurd (decode_config_profile b c codec x p q e)
    | inl (profile, q) ↦ record {
      codec = codec;
      profile = profile;
      size = decode_config_size b c e;
      codec_byte = codec_id-codec_of_id (read_u8 b 12) codec p;
      profile_byte = profile_id-profile_of_id (read_u8 b 13) profile q;
      built = sym (decode_config_lem b codec profile (decode_config_size b c e) p q) ∙ e;
    }
  ]
]

-- What decodes is the encoding of what it decodes to.
pub decode_display_config_canonical :
    (b : List ℕ) (c : DisplayConfig)
    → All IsByte b
    → decode_display_config b ≡ ok c
    → IsDisplayConfig c × (encode_display_config c ≡ ok b)
decode_display_config_canonical b c w e =
    let d = decode_config-Decoded b c e in
    let (same, width, height, refresh, bitrate, matched) =
      new_display_config-lem (config_at b d.codec d.profile) c d.built in
    let v : IsDisplayConfig c = record {
      width = (width, omega (arith, ap (λ t. t.width) same, read_u16-lt b w 0));
      height = (height, omega (arith, ap (λ t. t.height) same, read_u16-lt b w 2));
      refresh = (refresh, omega (arith, ap (λ t. t.refresh_millihz) same, read_u32-lt b w 4));
      bitrate = (bitrate, omega (arith, ap (λ t. t.bitrate_kbps) same, read_u32-lt b w 8));
      profile = codec_id_injective (profile_codec c.profile) c.codec matched;
    } in
    (
      v,
      encode_config_valid c v
          ∙ ap ok (
              ap config_bytes same
              ∙ cc (
                listing_lem 14 b 0 d.size,
                be16-read_u16 b w 0,
                be16-read_u16 b w 2,
                be32-read_u32 b w 4,
                be32-read_u32 b w 8,
                d.codec_byte,
                d.profile_byte,
              )),
    )

-- Bytes decode to a display configuration exactly when it meets IsDisplayConfig, a profile of its
-- codec included, and they are its encoding.
pub decode_display_config_iff :
    (b : List ℕ) (c : DisplayConfig)
    → All IsByte b
    → (decode_display_config b ≡ ok c) ↔ (IsDisplayConfig c × (encode_display_config c ≡ ok b))
decode_display_config_iff b c w = (
  decode_display_config_canonical b c w,
  λ (v, e).
      read_back encode_display_config decode_display_config c b e
        (decode_display_config-encode_display_config c v),
)
