-- ===== src/Media/Metrics.antt =====
-- crates/ladoflow-media/src/scheduler.rs: the counters of the scheduler.
use lado_flow.Base.{ℕ, ◌+◌, ◌*◌, ◌/◌, ◌%◌, ◌==◌, max, Option, none, some, ltb, if◌then◌else◌}
use lado_flow.Base.Time.{Duration, add_duration, add_u64, u64_max, nanos_per_second, duration_max}
use lado_flow.Media.Pacer.{PacingTick}

pub record SchedulerMetrics : Type 0 where
  pub submitted_frames : ℕ
  pub presented_frames : ℕ
  pub dropped_stale_frames : ℕ
  pub dropped_superseded_frames : ℕ
  pub dropped_oversized_frames : ℕ
  pub pacing_ticks : ℕ
  pub skipped_pacing_ticks : ℕ
  pub idle_pacing_ticks : ℕ
  pub total_queue_time : Duration
  pub max_queue_time : Duration
  pub total_pacing_lateness : Duration
  pub max_pacing_lateness : Duration
  pub total_frame_latency : Duration
  pub max_frame_latency : Duration

abbrev pub no_metrics : SchedulerMetrics
no_metrics = record {
  submitted_frames = 0;
  presented_frames = 0;
  dropped_stale_frames = 0;
  dropped_superseded_frames = 0;
  dropped_oversized_frames = 0;
  pacing_ticks = 0;
  skipped_pacing_ticks = 0;
  idle_pacing_ticks = 0;
  total_queue_time = 0;
  max_queue_time = 0;
  total_pacing_lateness = 0;
  max_pacing_lateness = 0;
  total_frame_latency = 0;
  max_frame_latency = 0;
}

unfoldable pub dropped_frames : SchedulerMetrics → ℕ
dropped_frames m =
    add_u64 (add_u64 m.dropped_stale_frames m.dropped_superseded_frames) m.dropped_oversized_frames

unfoldable pub record_pacing_tick : SchedulerMetrics → PacingTick → SchedulerMetrics
record_pacing_tick m tick = record m {
  pacing_ticks = add_u64 m.pacing_ticks 1;
  skipped_pacing_ticks = add_u64 m.skipped_pacing_ticks tick.skipped;
}

unfoldable pub record_idle_tick : SchedulerMetrics → SchedulerMetrics
record_idle_tick m = record m { idle_pacing_ticks = add_u64 m.idle_pacing_ticks 1 }

unfoldable pub record_presented :
    SchedulerMetrics → Duration → Duration → Duration → SchedulerMetrics
record_presented m queue_time pacing_lateness frame_latency = record m {
  presented_frames = add_u64 m.presented_frames 1;
  total_queue_time = add_duration m.total_queue_time queue_time;
  max_queue_time = max m.max_queue_time queue_time;
  total_pacing_lateness = add_duration m.total_pacing_lateness pacing_lateness;
  max_pacing_lateness = max m.max_pacing_lateness pacing_lateness;
  total_frame_latency = add_duration m.total_frame_latency frame_latency;
  max_frame_latency = max m.max_frame_latency frame_latency;
}

-- `metrics.dropped_stale_frames.saturating_add(1)` and its siblings.
unfoldable pub count_stale : SchedulerMetrics → SchedulerMetrics
count_stale m = record m { dropped_stale_frames = add_u64 m.dropped_stale_frames 1 }

unfoldable pub count_superseded : SchedulerMetrics → SchedulerMetrics
count_superseded m = record m { dropped_superseded_frames = add_u64 m.dropped_superseded_frames 1 }

unfoldable pub count_oversized : SchedulerMetrics → SchedulerMetrics
count_oversized m = record m { dropped_oversized_frames = add_u64 m.dropped_oversized_frames 1 }

unfoldable pub count_submitted : SchedulerMetrics → SchedulerMetrics
count_submitted m = record m { submitted_frames = add_u64 m.submitted_frames 1 }

-- `duration_average`: the mean of the samples, rounded down, if there are any.
duration_from_nanos : ℕ → Duration
duration_from_nanos nanos =
    let seconds = nanos / nanos_per_second in
    if ltb u64_max seconds
    then duration_max
    else seconds * nanos_per_second + nanos % nanos_per_second

unfoldable pub duration_average : Duration → ℕ → Option Duration
unfolding duration_from_nanos
duration_average total samples =
    if samples == 0 then none else some (duration_from_nanos (total / samples))
