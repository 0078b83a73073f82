-- ===== src/Media/Synthetic/Examples.antt =====
-- A small stream, and the theorem at it.
use lado_flow.Base.{ℕ, ◌≡◌, ◌≤◌, ◌<◌, refl, List, [], ◌∷◌, ok, map}
use lado_flow.Media.FrameRate.{VideoFormat, MediaFrame}
use lado_flow.Media.Synthetic.{
  SyntheticConfig, new_synthetic, with_seed, max_synthetic_payload_bytes, new_producer, mix64,
  block_bytes, frame_of, Call, pull, skip_to, frames,
}
use lado_flow.Media.Synthetic.Frames.{InOrder, frames-new_synthetic}

abbrev format : VideoFormat
format = record {
  dimensions = record { width = 2; height = 2 };
  frame_rate = record { numerator = 60; denominator = 1 };
}

abbrev config : SyntheticConfig
config = record { format = format; payload_bytes = 12; keyframe_interval = 3; seed = 0 }

config_made : new_synthetic format 12 3 ≡ ok config
unfolding new_synthetic
config_made = refl

mixed : mix64 0 ≡ 16294208416658607535
unfolding mix64
mixed = refl

first_block : block_bytes 0 0 0 ≡ 175 ∷ 205 ∷ 29 ∷ 123 ∷ 57 ∷ 168 ∷ 32 ∷ 226 ∷ []
unfolding block_bytes
first_block = refl

abbrev calls : List Call
calls = pull ∷ skip_to 7 ∷ pull ∷ skip_to 2 ∷ pull ∷ []

abbrev sequence_of : MediaFrame → ℕ
sequence_of f = f.metadata.sequence

numbered : map sequence_of (frames calls (new_producer config)) ≡ 0 ∷ 7 ∷ 8 ∷ []
unfolding frames frame_of
numbered = refl

frames-new_synthetic_example :
    InOrder format 12 3 0 (frames calls (new_producer (with_seed config 5)))
    × (0 < 12)
    × (12 ≤ max_synthetic_payload_bytes)
frames-new_synthetic_example = frames-new_synthetic format 12 3 5 config calls config_made
