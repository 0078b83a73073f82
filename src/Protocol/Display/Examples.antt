-- ===== src/Protocol/Display/Examples.antt =====
-- Display payloads at concrete values, and the theorems at such values.
use lado_flow.Base.{ℕ, ◌≡◌, refl, arith, List, [], ◌∷◌, ok, err}
use lado_flow.Protocol.Error.{invalid_payload}
use lado_flow.Protocol.Display.{
  DisplayConfig, hevc, hevc_main, h264, VideoFrame, decode_display_config, new_display_config,
  codec_of_id, profile_of_id, decode_video_frame, decode_video_metadata,
}
use lado_flow.Protocol.Display.Config.{IsDisplayConfig}
use lado_flow.Protocol.Display.Video.{IsVideoFrame}

abbrev sample_config : DisplayConfig
sample_config = record {
  width = 1920;
  height = 1080;
  refresh_millihz = 60_000;
  bitrate_kbps = 20_000;
  codec = hevc;
  profile = hevc_main;
}

abbrev config_wire : List ℕ
config_wire = 7 ∷ 128 ∷ 4 ∷ 56 ∷ 0 ∷ 0 ∷ 234 ∷ 96 ∷ 0 ∷ 0 ∷ 78 ∷ 32 ∷ 2 ∷ 16 ∷ []

config_read : decode_display_config config_wire ≡ ok sample_config
unfolding decode_display_config codec_of_id profile_of_id
config_read = refl

mixed_profile :
    new_display_config (record sample_config { codec = h264 })
    ≡ err (invalid_payload "codec profile does not belong to selected codec")
unfolding new_display_config
mixed_profile = refl

sample-IsDisplayConfig : IsDisplayConfig sample_config
sample-IsDisplayConfig = record {
  width = (omega arith, omega arith);
  height = (omega arith, omega arith);
  refresh = (omega arith, omega arith);
  bitrate = (omega arith, omega arith);
  profile = refl;
}

abbrev sample_video : VideoFrame
sample_video = record {
  metadata = record {
    frame_id = 9;
    capture_timestamp_micros = 256;
    presentation_timestamp_micros = 512;
    duration_micros = 16_666;
  };
  encoded_bytes = 1 ∷ 2 ∷ 3 ∷ [];
}

abbrev video_wire : List ℕ
video_wire =
    0 ∷ 0 ∷ 0 ∷ 0 ∷ 0 ∷ 0 ∷ 0 ∷ 9 ∷ 0 ∷ 0 ∷ 0 ∷ 0 ∷ 0 ∷ 0 ∷ 1 ∷ 0 ∷ 0 ∷ 0 ∷ 0 ∷ 0 ∷ 0 ∷ 0 ∷ 2 ∷ 0
    ∷ 0 ∷ 0 ∷ 65 ∷ 26 ∷ 1 ∷ 2 ∷ 3 ∷ []

video_read : decode_video_frame video_wire ≡ ok sample_video
unfolding decode_video_frame decode_video_metadata
video_read = refl

sample-IsVideoFrame : IsVideoFrame sample_video
sample-IsVideoFrame = record {
  metadata = record {
    frame_id = omega arith;
    capture = omega arith;
    presentation = omega arith;
    duration = (omega arith, omega arith);
  };
  size = (omega arith, omega arith);
}
