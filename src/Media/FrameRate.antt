-- ===== src/Media/FrameRate.antt =====
-- crates/ladoflow-media/src/metadata.rs: rational frame rates and the metadata of a frame. The u128
-- products are written without a wrap.
pub mod Timeline
mod Examples
use lado_flow.Base.{
  ℕ, ◌+◌, ◌-◌, ◌*◌, ◌/◌, ◌%◌, ◌==◌, List, ltb, if◌then◌else◌, length, Result, ok, err,
}
use lado_flow.Base.Time.{
  Duration, add_u64, sub_duration, u32_max, u64_max, nanos_per_second, duration_max,
}

-- Both components are not zero (`NonZeroU32`).
pub record FrameRate : Type 0 where
  pub numerator : ℕ
  pub denominator : ℕ

pub data FrameRateError : Type 0 where
  zero_numerator zero_denominator : FrameRateError

unfoldable pub new_rate : ℕ → ℕ → Result FrameRateError FrameRate
new_rate numerator denominator =
    if numerator == 0
    then err zero_numerator
    else if denominator == 0
    then err zero_denominator
    else ok (record { numerator = numerator; denominator = denominator })

unfoldable pub from_hz : ℕ → Result FrameRateError FrameRate
unfolding new_rate
from_hz frames_per_second = new_rate frames_per_second 1

unfoldable pub timestamp : FrameRate → ℕ → Duration
timestamp rate frame_index =
    let scaled_seconds = frame_index * rate.denominator in
    let whole_seconds = scaled_seconds / rate.numerator in
    let fractional_units = scaled_seconds % rate.numerator in
    let nanos = fractional_units * nanos_per_second / rate.numerator in
    if ltb u64_max whole_seconds
    then duration_max
    else if ltb u32_max nanos
    then duration_max
    else whole_seconds * nanos_per_second + nanos

unfoldable pub frame_duration : FrameRate → ℕ → Duration
frame_duration rate frame_index =
    let next_index = add_u64 frame_index 1 in
    sub_duration (timestamp rate next_index) (timestamp rate frame_index)

unfoldable pub frame_at_or_before : FrameRate → Duration → ℕ
frame_at_or_before rate elapsed =
    let exclusive_nanos = elapsed + 1 in
    let scaled = exclusive_nanos * rate.numerator - 1 in
    let divisor = rate.denominator * nanos_per_second in
    if ltb u64_max (scaled / divisor) then u64_max else scaled / divisor

pub record FrameDimensions : Type 0 where
  pub width : ℕ
  pub height : ℕ

pub data FrameDimensionsError : Type 0 where
  zero_width zero_height : FrameDimensionsError

unfoldable pub new_dimensions : ℕ → ℕ → Result FrameDimensionsError FrameDimensions
new_dimensions width height =
    if width == 0
    then err zero_width
    else if height == 0
    then err zero_height
    else ok (record { width = width; height = height })

unfoldable pub pixel_count : FrameDimensions → ℕ
pixel_count d = d.width * d.height

pub record VideoFormat : Type 0 where
  pub dimensions : FrameDimensions
  pub frame_rate : FrameRate

pub data FrameKind : Type 0 where
  key delta : FrameKind

pub record FrameMetadata : Type 0 where
  pub sequence : ℕ
  pub capture_time : Duration
  pub presentation_time : Duration
  pub duration : Duration
  pub kind : FrameKind
  pub format : VideoFormat

pub record MediaFrame : Type 0 where
  pub metadata : FrameMetadata
  pub payload : List ℕ

unfoldable pub payload_len : MediaFrame → ℕ
payload_len f = length f.payload
