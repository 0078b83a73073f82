-- ===== src/Media/Pacer.antt =====
-- crates/ladoflow-media/src/scheduler.rs, first part: the absolute-deadline pacer.
pub mod Slots
mod Examples
use lado_flow.Base.{ℕ, ◌+◌, ◌-◌, max, Option, none, some, ltb, if◌then◌else◌}
use lado_flow.Base.Time.{Duration, add_duration, sub_duration, u64_max}
use lado_flow.Media.FrameRate.{FrameRate, timestamp, frame_at_or_before}

pub record PacingTick : Type 0 where
  pub index : ℕ
  pub deadline : Duration
  pub skipped : ℕ

pub data PaceDecision : Type 0 where
  due : PacingTick → PaceDecision
  wait_until : Duration → PaceDecision
  exhausted : PaceDecision

pub record FramePacer : Type 0 where
  pub frame_rate : FrameRate
  pub origin : Duration
  pub next_tick : Option ℕ

unfoldable pub new_pacer : FrameRate → Duration → FramePacer
new_pacer frame_rate origin = record {
  frame_rate = frame_rate;
  origin = origin;
  next_tick = some 0;
}

unfoldable pub deadline : FramePacer → ℕ → Duration
deadline p tick = add_duration p.origin (timestamp p.frame_rate tick)

unfoldable pub next_deadline : FramePacer → Option Duration
next_deadline p = elim p.next_tick [ none ↦ none | some tick ↦ some (deadline p tick) ]

-- `u64::checked_add(1)`.
abbrev pub next_index : ℕ → Option ℕ
next_index tick = if ltb tick u64_max then some (tick + 1) else none

poll_tick : FramePacer → Duration → Option ℕ → FramePacer × PaceDecision
poll_tick p now none = (p, exhausted)
poll_tick p now (some next_tick) =
    let next_deadline = deadline p next_tick in
    let elapsed = sub_duration now p.origin in
    let due_tick = max (frame_at_or_before p.frame_rate elapsed) next_tick in
    let tick : PacingTick = record {
      index = due_tick;
      deadline = deadline p due_tick;
      skipped = due_tick - next_tick;
    } in
    if ltb now next_deadline
    then (p, wait_until next_deadline)
    else (record p { next_tick = next_index due_tick }, due tick)

unfoldable pub poll : FramePacer → Duration → FramePacer × PaceDecision
unfolding poll_tick
poll p now = poll_tick p now p.next_tick
