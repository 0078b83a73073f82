-- ===== src/Protocol/Display.antt =====
-- crates/ladoflow-protocol/src/display.rs: the display configuration and the video frame payload.
pub mod Config
pub mod Video
mod Examples
use lado_flow.Base.{
  ℕ, ◌+◌, ◌-◌, ◌==◌, ◌||◌, Bool, true, false, not, List, [], ◌∷◌, ◌++◌, min, ltb, leb,
  if◌then◌else◌, length, take, drop, Result, ok, err, ◌>>=◌, ◌>>◌, guard,
}
use lado_flow.Base.Time.{u64_max}
use lado_flow.Base.Bytes.{be16, be32, be64, read_u8, read_u16, read_u32, read_u64}
use lado_flow.Protocol.Error.{ProtocolError, invalid_payload, payload_too_large, MessageType}
use lado_flow.Protocol.Frame.{max_media_payload, usize_max}
use lado_flow.Protocol.Message.Payload.{WirePayload}

abbrev pub display_config_len : ℕ
display_config_len = 14

abbrev pub video_frame_metadata_len : ℕ
video_frame_metadata_len = 28

abbrev pub max_encoded_video_bytes : ℕ
max_encoded_video_bytes = max_media_payload - video_frame_metadata_len

pub data VideoCodec : Type 0 where
  h264 hevc av1 : VideoCodec

-- `codec as u8`.
abbrev pub codec_id : VideoCodec → ℕ
codec_id h264 = 1
codec_id hevc = 2
codec_id av1 = 3

-- The `CodecSet` bit.
unfoldable pub capability : VideoCodec → ℕ
capability h264 = 1
capability hevc = 2
capability av1 = 4

unfoldable pub codec_of_id : ℕ → Result ProtocolError VideoCodec
codec_of_id value =
    if value == 1
    then ok h264
    else if value == 2
    then ok hevc
    else if value == 3
    then ok av1
    else err (invalid_payload "unknown video codec")

pub data CodecProfile : Type 0 where
  h264_baseline h264_main h264_high hevc_main hevc_main10 av1_main : CodecProfile

-- `profile as u8`.
abbrev pub profile_id : CodecProfile → ℕ
profile_id h264_baseline = 1
profile_id h264_main = 2
profile_id h264_high = 3
profile_id hevc_main = 16
profile_id hevc_main10 = 17
profile_id av1_main = 32

abbrev pub profile_codec : CodecProfile → VideoCodec
profile_codec h264_baseline = h264
profile_codec h264_main = h264
profile_codec h264_high = h264
profile_codec hevc_main = hevc
profile_codec hevc_main10 = hevc
profile_codec av1_main = av1

unfoldable pub profile_of_id : ℕ → Result ProtocolError CodecProfile
profile_of_id value =
    if value == 1
    then ok h264_baseline
    else if value == 2
    then ok h264_main
    else if value == 3
    then ok h264_high
    else if value == 16
    then ok hevc_main
    else if value == 17
    then ok hevc_main10
    else if value == 32
    then ok av1_main
    else err (invalid_payload "unknown codec profile")

pub record DisplayConfig : Type 0 where
  pub width : ℕ
  pub height : ℕ
  pub refresh_millihz : ℕ
  pub bitrate_kbps : ℕ
  pub codec : VideoCodec
  pub profile : CodecProfile

-- The checks of `DisplayConfig::new`, whose value is its argument; the identifiers tell the codecs
-- apart.
unfoldable pub new_display_config : DisplayConfig → Result ProtocolError DisplayConfig
new_display_config c =
    if c.width == 0 || c.height == 0
    then err (invalid_payload "display dimensions must be non-zero")
    else if c.refresh_millihz == 0
    then err (invalid_payload "display refresh rate must be non-zero")
    else if c.bitrate_kbps == 0
    then err (invalid_payload "display bitrate must be non-zero")
    else if not (codec_id (profile_codec c.profile) == codec_id c.codec)
    then err (invalid_payload "codec profile does not belong to selected codec")
    else ok c

unfoldable pub encode_display_config : DisplayConfig → Result ProtocolError (List ℕ)
unfolding new_display_config
encode_display_config c = do
  new_display_config c >>= λ _. ok tt
  ok (
      be16 c.width
      ++ (be16 c.height
          ++ (be32 c.refresh_millihz
              ++ (be32 c.bitrate_kbps ++ (codec_id c.codec ∷ profile_id c.profile ∷ [])))))

unfoldable pub decode_display_config : List ℕ → Result ProtocolError DisplayConfig
unfolding new_display_config codec_of_id profile_of_id
decode_display_config payload = do
  guard (length payload == display_config_len)
      (invalid_payload "display-config payload must be exactly 14 bytes")
  codec ← codec_of_id (read_u8 payload 12)
  profile ← profile_of_id (read_u8 payload 13)
  new_display_config (record {
    width = read_u16 payload 0;
    height = read_u16 payload 2;
    refresh_millihz = read_u32 payload 4;
    bitrate_kbps = read_u32 payload 8;
    codec = codec;
    profile = profile;
  })

pub record VideoFrameMetadata : Type 0 where
  pub frame_id : ℕ
  pub capture_timestamp_micros : ℕ
  pub presentation_timestamp_micros : ℕ
  pub duration_micros : ℕ

unfoldable pub new_video_metadata : VideoFrameMetadata → Result ProtocolError VideoFrameMetadata
new_video_metadata m =
    if m.duration_micros == 0
    then err (invalid_payload "video frame duration must be non-zero")
    else ok m

-- `VideoFrameMetadata::encode_into`.
abbrev pub metadata_bytes : VideoFrameMetadata → List ℕ
metadata_bytes m =
    be64 m.frame_id
    ++ (be64 m.capture_timestamp_micros
        ++ (be64 m.presentation_timestamp_micros ++ be32 m.duration_micros))

unfoldable pub decode_video_metadata : List ℕ → Result ProtocolError VideoFrameMetadata
unfolding new_video_metadata
decode_video_metadata payload = new_video_metadata (record {
  frame_id = read_u64 payload 0;
  capture_timestamp_micros = read_u64 payload 8;
  presentation_timestamp_micros = read_u64 payload 16;
  duration_micros = read_u32 payload 24;
})

pub record VideoFrame : Type 0 where
  pub metadata : VideoFrameMetadata
  pub encoded_bytes : List ℕ

unfoldable pub validate_encoded_bytes : List ℕ → Result ProtocolError (Unit {0})
validate_encoded_bytes encoded_bytes =
    if length encoded_bytes == 0
    then err (invalid_payload "encoded video access unit must not be empty")
    else if ltb max_encoded_video_bytes (length encoded_bytes)
    then err (
        payload_too_large MessageType.video_frame
          (min (video_frame_metadata_len + length encoded_bytes) usize_max) max_media_payload)
    else ok tt

unfoldable pub new_video_frame : VideoFrameMetadata → List ℕ → Result ProtocolError VideoFrame
unfolding validate_encoded_bytes
new_video_frame metadata encoded_bytes = do
  validate_encoded_bytes encoded_bytes
  ok (record { metadata = metadata; encoded_bytes = encoded_bytes })

unfoldable pub encode_video_frame : VideoFrame → Result ProtocolError (List ℕ)
unfolding validate_encoded_bytes
encode_video_frame f = do
  validate_encoded_bytes f.encoded_bytes
  ok (metadata_bytes f.metadata ++ f.encoded_bytes)

unfoldable pub decode_video_frame : List ℕ → Result ProtocolError VideoFrame
unfolding decode_video_metadata new_video_frame
decode_video_frame payload = do
  guard (not (ltb max_media_payload (length payload)))
      (payload_too_large MessageType.video_frame (length payload) max_media_payload)
  guard (not (leb (length payload) video_frame_metadata_len))
      (invalid_payload "video-frame payload is missing metadata or encoded bytes")
  metadata ← decode_video_metadata (take video_frame_metadata_len payload)
  new_video_frame metadata (drop video_frame_metadata_len payload)

instance abbrev pub display_config_payload : WirePayload DisplayConfig
display_config_payload = record {
  kind = MessageType.display_config;
  encode = encode_display_config;
  decode = decode_display_config;
}

instance abbrev pub video_frame_payload : WirePayload VideoFrame
video_frame_payload = record {
  kind = MessageType.video_frame;
  encode = encode_video_frame;
  decode = decode_video_frame;
}
