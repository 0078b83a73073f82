-- ===== src/Media/FrameRate/Examples.antt =====
-- Frame rates at concrete values, and the theorems at such values.
use lado_flow.Base.{◌≡◌, ◌+◌, ◌*◌, ◌%◌, ◌^◌, ◌<◌, refl, arith}
use lado_flow.Base.Time.{nanos_per_second}
use lado_flow.Media.FrameRate.{FrameRate, timestamp, frame_duration, frame_at_or_before}
use lado_flow.Media.FrameRate.Timeline.{IsRate, scaled_fits}

-- 59.94 frames a second.
abbrev ntsc : FrameRate
ntsc = record { numerator = 60_000; denominator = 1_001 }

ntsc-IsRate : IsRate ntsc
ntsc-IsRate = record {
  numerator = (omega arith, omega arith);
  denominator = (omega arith, omega arith);
}

second_frame : timestamp ntsc 1 ≡ 16_683_333
unfolding timestamp
second_frame = refl

second_duration : frame_duration ntsc 1 ≡ 16_683_333
unfolding frame_duration timestamp
second_duration = refl

frame_of_a_second : frame_at_or_before ntsc 1_000_000_000 ≡ 59
unfolding frame_at_or_before
frame_of_a_second = refl

scaled_fits_example :
    (7 * 1_001 < 2 ^ 128)
    × (7 * 1_001 % 60_000 * nanos_per_second < 2 ^ 128)
    × ((500 + 1) * 60_000 < 2 ^ 128)
    × (1_001 * nanos_per_second < 2 ^ 128)
scaled_fits_example = scaled_fits ntsc 7 500 ntsc-IsRate (omega arith) (omega arith)
