-- ===== src/Media/Scheduler.antt =====
-- crates/ladoflow-media/src/scheduler.rs, second part: the one-frame queue behind the pacer.
pub mod Queue
pub mod Dispatch
pub mod Accounts
mod Examples
use lado_flow.Base.{
  ℕ, ◌+◌, ◌*◌, ◌/◌, ◌%◌, ◌==◌, ◌&&◌, ◌||◌, Bool, max, Option, none, some, ltb, leb, if◌then◌else◌,
  Result, ok, err, is_some,
}
use lado_flow.Base.Time.{
  Duration, add_duration, sub_duration, add_u64, u64_max, nanos_per_second, duration_max,
}
use lado_flow.Media.FrameRate.{FrameRate, FrameMetadata, MediaFrame, payload_len}
use lado_flow.Media.Pacer.{
  PacingTick, PaceDecision, due, wait_until, exhausted, FramePacer, new_pacer,
}
use lado_flow.Media.Pacer
use lado_flow.Media.Metrics.{
  SchedulerMetrics, no_metrics, record_pacing_tick, record_idle_tick, record_presented, count_stale,
  count_superseded, count_oversized, count_submitted,
}

pub record SchedulerConfig : Type 0 where
  pub frame_rate : FrameRate
  pub max_frame_age : Duration
  pub max_frame_bytes : ℕ

pub data SchedulerConfigError : Type 0 where
  zero_frame_byte_limit : SchedulerConfigError

unfoldable pub new_config : FrameRate → Duration → ℕ → Result SchedulerConfigError SchedulerConfig
new_config frame_rate max_frame_age max_frame_bytes =
    if max_frame_bytes == 0
    then err zero_frame_byte_limit
    else ok (record {
      frame_rate = frame_rate;
      max_frame_age = max_frame_age;
      max_frame_bytes = max_frame_bytes;
    })

pub data SubmitOutcome : Type 0 where
  queued : SubmitOutcome
  replaced : (dropped_sequence : ℕ) → SubmitOutcome
  dropped_stale : (sequence : ℕ) → SubmitOutcome
  dropped_superseded : (sequence kept_sequence : ℕ) → SubmitOutcome
  dropped_oversized : (sequence payload_bytes limit : ℕ) → SubmitOutcome

pub data IdleReason : Type 0 where
  queue_empty frame_not_due : IdleReason

pub record ScheduledFrame : Type 0 where
  pub frame : MediaFrame
  pub pacing_tick : PacingTick
  pub queue_time : Duration
  pub pacing_lateness : Duration
  pub frame_latency : Duration

pub data PollOutcome : Type 0 where
  ready : ScheduledFrame → PollOutcome
  waiting_until : Duration → PollOutcome
  idle : PacingTick → IdleReason → PollOutcome
  stale : (sequence : ℕ) → PacingTick → PollOutcome
  exhausted_slots : PollOutcome

pub record PendingFrame : Type 0 where
  pub frame : MediaFrame
  pub enqueued_at : Duration

pub record LatestFrameScheduler : Type 0 where
  pub config : SchedulerConfig
  pub stream_origin : Duration
  pub pacer : FramePacer
  pub pending : Option PendingFrame
  pub metrics : SchedulerMetrics

unfoldable pub new_scheduler : SchedulerConfig → Duration → LatestFrameScheduler
unfolding new_pacer
new_scheduler config stream_origin = record {
  config = config;
  stream_origin = stream_origin;
  pacer = new_pacer config.frame_rate stream_origin;
  pending = none;
  metrics = no_metrics;
}

unfoldable pub has_pending_frame : LatestFrameScheduler → Bool
has_pending_frame s = is_some s.pending

unfoldable pub pending_sequence : LatestFrameScheduler → Option ℕ
pending_sequence s = elim s.pending [
  | none ↦ none
  | some pending ↦ some pending.frame.metadata.sequence
]

unfoldable pub take_metrics : LatestFrameScheduler → LatestFrameScheduler × SchedulerMetrics
take_metrics s = (record s { metrics = no_metrics }, s.metrics)

abbrev pub absolute_time : LatestFrameScheduler → Duration → Duration
absolute_time s stream_time = add_duration s.stream_origin stream_time

abbrev pub is_stale : LatestFrameScheduler → FrameMetadata → Duration → Bool
is_stale s metadata now =
    ltb (add_duration (absolute_time s metadata.presentation_time) s.config.max_frame_age) now

-- `frame_order(a) <= frame_order(b)`: tuples compare by their first component, then the second.
abbrev pub order_le : FrameMetadata → FrameMetadata → Bool
order_le a b =
    ltb a.presentation_time b.presentation_time
    || (a.presentation_time == b.presentation_time && leb a.sequence b.sequence)

-- The last part of `submit`, behind the two checks of the frame itself.
enqueue :
    LatestFrameScheduler
    → MediaFrame
    → Duration
    → Option PendingFrame
    → LatestFrameScheduler × SubmitOutcome
unfolding count_superseded
enqueue s frame now none =
    (record s { pending = some (record { frame = frame; enqueued_at = now }) }, queued)
enqueue s frame now (some pending) =
    let kept = pending.frame.metadata in
    if order_le frame.metadata kept
    then (
      record s { metrics = count_superseded s.metrics },
      dropped_superseded frame.metadata.sequence kept.sequence,
    )
    else (
      record s {
        pending = some (record { frame = frame; enqueued_at = now });
        metrics = count_superseded s.metrics;
      },
      replaced kept.sequence,
    )

unfoldable pub submit :
    LatestFrameScheduler → MediaFrame → Duration → LatestFrameScheduler × SubmitOutcome
unfolding count_submitted count_oversized count_stale enqueue payload_len
submit s frame now =
    let counted = record s { metrics = count_submitted s.metrics } in
    let sequence = frame.metadata.sequence in
    let payload_bytes = payload_len frame in
    if ltb s.config.max_frame_bytes payload_bytes
    then (
      record counted { metrics = count_oversized counted.metrics },
      dropped_oversized sequence payload_bytes s.config.max_frame_bytes,
    )
    else if is_stale s frame.metadata now
    then (record counted { metrics = count_stale counted.metrics }, dropped_stale sequence)
    else enqueue counted frame now s.pending

-- `poll` with a due slot and a frame taken from the queue; `s.pending` is already empty.
dispatch :
    LatestFrameScheduler → Duration → PacingTick → PendingFrame → LatestFrameScheduler × PollOutcome
unfolding count_stale record_idle_tick record_presented
dispatch s now tick pending =
    let metadata = pending.frame.metadata in
    let presentation_target = absolute_time s metadata.presentation_time in
    let queue_time = sub_duration now pending.enqueued_at in
    let pacing_lateness = sub_duration now tick.deadline in
    let frame_latency = sub_duration now (absolute_time s metadata.capture_time) in
    if is_stale s metadata now
    then (
      record s { metrics = record_idle_tick (count_stale s.metrics) },
      stale metadata.sequence tick,
    )
    else if ltb now presentation_target
    then (
      record s { pending = some pending; metrics = record_idle_tick s.metrics },
      idle tick frame_not_due,
    )
    else (
      record s { metrics = record_presented s.metrics queue_time pacing_lateness frame_latency },
      ready (record {
        frame = pending.frame;
        pacing_tick = tick;
        queue_time = queue_time;
        pacing_lateness = pacing_lateness;
        frame_latency = frame_latency;
      }),
    )

-- `self.pending.take()`.
take_pending :
    LatestFrameScheduler
    → Duration
    → PacingTick
    → Option PendingFrame
    → LatestFrameScheduler × PollOutcome
unfolding dispatch record_idle_tick
take_pending s now tick none =
    (record s { metrics = record_idle_tick s.metrics }, idle tick queue_empty)
take_pending s now tick (some pending) = dispatch (record s { pending = none }) now tick pending

-- The `match` on the pacer's decision.
paced : LatestFrameScheduler → Duration → PaceDecision → LatestFrameScheduler × PollOutcome
unfolding take_pending record_pacing_tick
paced s now (due tick) =
    take_pending (record s { metrics = record_pacing_tick s.metrics tick }) now tick s.pending
paced s now (wait_until deadline) = (s, waiting_until deadline)
paced s now exhausted = (s, exhausted_slots)

unfoldable pub poll : LatestFrameScheduler → Duration → LatestFrameScheduler × PollOutcome
unfolding paced
poll s now =
    let (pacer, decision) = Pacer.poll s.pacer now in
    paced (record s { pacer = pacer }) now decision
