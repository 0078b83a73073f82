-- ===== src/Media/Synthetic.antt =====
-- crates/ladoflow-media/src/synthetic.rs: the deterministic source of frames.
pub mod Frames
mod Examples
use lado_flow.Base.{
  ℕ, zero, suc, ◌+◌, ◌-◌, ◌*◌, ◌/◌, ◌%◌, ◌^◌, ◌==◌, bit_xor, Option, none, some, List, [], ◌∷◌,
  ◌++◌, true, false, take, leb, ltb, if◌then◌else◌, Result, ok, err,
}
use lado_flow.Base.Time.{u64_max}
use lado_flow.Media.FrameRate.{
  VideoFormat, FrameKind, key, delta, FrameMetadata, MediaFrame, timestamp, frame_duration,
}

abbrev pub max_synthetic_payload_bytes : ℕ
max_synthetic_payload_bytes = 16 * 1024 * 1024

pub record SyntheticConfig : Type 0 where
  pub format : VideoFormat
  pub payload_bytes : ℕ
  pub keyframe_interval : ℕ
  pub seed : ℕ

pub data SyntheticConfigError : Type 0 where
  empty_payload : SyntheticConfigError
  payload_too_large : (requested limit : ℕ) → SyntheticConfigError
  zero_keyframe_interval : SyntheticConfigError

-- `SyntheticConfig::new`.
unfoldable pub new_synthetic : VideoFormat → ℕ → ℕ → Result SyntheticConfigError SyntheticConfig
new_synthetic format payload_bytes keyframe_interval =
    if payload_bytes == 0
    then err empty_payload
    else if ltb max_synthetic_payload_bytes payload_bytes
    then err (payload_too_large payload_bytes max_synthetic_payload_bytes)
    else if keyframe_interval == 0
    then err zero_keyframe_interval
    else ok (record {
      format = format;
      payload_bytes = payload_bytes;
      keyframe_interval = keyframe_interval;
      seed = 0;
    })

abbrev pub with_seed : SyntheticConfig → ℕ → SyntheticConfig
with_seed config seed = record config { seed = seed }

pub record SyntheticFrameProducer : Type 0 where
  pub config : SyntheticConfig
  pub next_sequence : Option ℕ

-- `SyntheticFrameProducer::new`.
abbrev pub new_producer : SyntheticConfig → SyntheticFrameProducer
new_producer config = record { config = config; next_sequence = some 0 }

-- `wrapping_add` and `wrapping_mul` of u64s, and `rotate_left`.
abbrev pub wrapping_add : ℕ → ℕ → ℕ
wrapping_add a b = (a + b) % 2 ^ 64

abbrev pub wrapping_mul : ℕ → ℕ → ℕ
wrapping_mul a b = a * b % 2 ^ 64

abbrev pub rotate_left : ℕ → ℕ → ℕ
rotate_left x n = x * 2 ^ n % 2 ^ 64 + x / 2 ^ (64 - n)

unfoldable pub mix64 : ℕ → ℕ
mix64 value =
    let a = wrapping_add value 11400714819323198485 in
    let b = wrapping_mul (bit_xor a (a / 2 ^ 30)) 13787848793156543929 in
    let c = wrapping_mul (bit_xor b (b / 2 ^ 27)) 10723151780598845931 in bit_xor c (c / 2 ^ 31)

-- `u64::to_le_bytes`.
abbrev pub to_le_bytes : ℕ → List ℕ
to_le_bytes x =
    x % 256
    ∷ x / 2 ^ 8 % 256
    ∷ x / 2 ^ 16 % 256
    ∷ x / 2 ^ 24 % 256
    ∷ x / 2 ^ 32 % 256
    ∷ x / 2 ^ 40 % 256
    ∷ x / 2 ^ 48 % 256
    ∷ x / 2 ^ 56 % 256
    ∷ []

-- The bytes of one block.
unfoldable pub block_bytes : ℕ → ℕ → ℕ → List ℕ
unfolding mix64
block_bytes sequence seed block_index = to_le_bytes (
    mix64 (
      bit_xor (bit_xor seed (rotate_left sequence 17))
        (wrapping_mul block_index 15485907386658061715)))

-- The loop over the chunks of eight bytes, with the bytes that are still to fill.
unfoldable pub fill_blocks : ℕ → ℕ → ℕ → ℕ → ℕ → List ℕ
fill_blocks zero sequence seed block_index remaining = []
fill_blocks (suc fuel) sequence seed block_index remaining = elim (remaining == 0) [
  | true ↦ []
  | false ↦
      take remaining (block_bytes sequence seed block_index)
      ++ fill_blocks fuel sequence seed (block_index + 1) (remaining - 8)
]

unfoldable pub make_payload : ℕ → ℕ → ℕ → List ℕ
unfolding fill_blocks
make_payload sequence seed payload_bytes = fill_blocks payload_bytes sequence seed 0 payload_bytes

-- The frame of a sequence number.
unfoldable pub frame_of : SyntheticConfig → ℕ → MediaFrame
unfolding make_payload
frame_of config sequence =
    let rate = config.format.frame_rate in
    record {
      metadata = record {
        sequence = sequence;
        capture_time = timestamp rate sequence;
        presentation_time = timestamp rate sequence;
        duration = frame_duration rate sequence;
        kind = if sequence % config.keyframe_interval == 0 then key else delta;
        format = config.format;
      };
      payload = make_payload sequence config.seed config.payload_bytes;
    }

-- `Iterator::next`, by cases on the sequence number.
next_from : SyntheticFrameProducer → Option ℕ → Option MediaFrame × SyntheticFrameProducer
next_from p none = (none, p)
next_from p (some sequence) = (
  some (frame_of p.config sequence),
  record p { next_sequence = if sequence == u64_max then none else some (sequence + 1) },
)

unfoldable pub next : SyntheticFrameProducer → Option MediaFrame × SyntheticFrameProducer
unfolding next_from
next p = next_from p p.next_sequence

advance_from : SyntheticFrameProducer → Option ℕ → ℕ → ℕ × SyntheticFrameProducer
advance_from p none sequence = (0, p)
advance_from p (some current) sequence =
    if leb sequence current
    then (0, p)
    else (sequence - current, record p { next_sequence = some sequence })

unfoldable pub advance_to_sequence : SyntheticFrameProducer → ℕ → ℕ × SyntheticFrameProducer
unfolding advance_from
advance_to_sequence p sequence = advance_from p p.next_sequence sequence

-- The calls of a producer, and the frames that they yield.
pub data Call : Type 0 where
  pull : Call
  skip_to : (sequence : ℕ) → Call

abbrev yielded : Option MediaFrame → List MediaFrame → List MediaFrame
yielded none fs = fs
yielded (some f) fs = f ∷ fs

unfoldable pub frames : List Call → SyntheticFrameProducer → List MediaFrame
unfolding next advance_to_sequence
frames [] p = []
frames (pull ∷ cs) p = let (f, p') = next p in yielded f (frames cs p')
frames (skip_to sequence ∷ cs) p = frames cs (advance_to_sequence p sequence).1
