-- ===== src/Media/Pacer/Examples.antt =====
-- The pacer at concrete times, and the theorems at such times.
use lado_flow.Base.{◌≡◌, refl, arith, some}
use lado_flow.Media.FrameRate.{FrameRate, timestamp, frame_at_or_before}
use lado_flow.Media.FrameRate.Timeline.{IsRate}
use lado_flow.Media.Pacer.{FramePacer, PacingTick, due, wait_until, deadline, next_index, poll}
use lado_flow.Media.Pacer.Slots.{IsNewest, poll-IsNewest}

abbrev sixty : FrameRate
sixty = record { numerator = 60; denominator = 1 }

sixty-IsRate : IsRate sixty
sixty-IsRate = record {
  numerator = (omega arith, omega arith);
  denominator = (omega arith, omega arith);
}

-- Slot 1 is next; its deadline is 16_666_666 after the origin.
abbrev waiting : FramePacer
waiting = record { frame_rate = sixty; origin = 1_000_000; next_tick = some 1 }

abbrev late_tick : PacingTick
late_tick = record { index = 3; deadline = 51_000_000; skipped = 2 }

late_poll : poll waiting 60_000_000 ≡ (record waiting { next_tick = some 4 }, due late_tick)
unfolding poll deadline timestamp frame_at_or_before
late_poll = refl

early_poll : poll waiting 2_000_000 ≡ (waiting, wait_until 17_666_666)
unfolding poll deadline timestamp frame_at_or_before
early_poll = refl

poll-IsNewest_example :
    IsNewest waiting 60_000_000 1 late_tick
    × (record waiting { next_tick = some 4 } ≡ record waiting { next_tick = next_index 3 })
poll-IsNewest_example =
    poll-IsNewest waiting (record waiting { next_tick = some 4 }) 60_000_000 1 late_tick
      sixty-IsRate (omega arith) refl (omega arith) late_poll
