-- ===== src/Media/Scheduler/Examples.antt =====
-- The scheduler at concrete frames, and the theorems at such frames.
use lado_flow.Base.{ℕ, ◌≡◌, ◌≤◌, refl, arith, List, [], ◌∷◌, some, none}
use lado_flow.Base.Time.{Duration}
use lado_flow.Media.FrameRate.{
  FrameRate, MediaFrame, key, timestamp, frame_at_or_before, payload_len,
}
use lado_flow.Media.Pacer.{PacingTick, due, deadline}
use lado_flow.Media.Pacer
use lado_flow.Media.Metrics.{duration_average, record_pacing_tick, record_presented}
use lado_flow.Media.Scheduler.{
  SchedulerConfig, LatestFrameScheduler, PendingFrame, ScheduledFrame, ready, replaced,
  dropped_superseded, new_scheduler, submit, poll,
}
use lado_flow.Media.Scheduler.Queue.{
  IsEligible, IsNewestOf, submit-IsNewestOf, SupersedesAll, submit_all, submit_all-SupersedesAll,
}
use lado_flow.Media.Scheduler.Dispatch.{IsTimely, poll-ready}
use lado_flow.Media.Scheduler.Accounts.{
  Event, submits, polls, run, IsBalanced, IsAveraged, run-new_scheduler, duration_average-le,
}

abbrev sixty : FrameRate
sixty = record { numerator = 60; denominator = 1 }

abbrev config : SchedulerConfig
config = record { frame_rate = sixty; max_frame_age = 30_000_000; max_frame_bytes = 1024 }

abbrev picture : ℕ → Duration → MediaFrame
picture sequence time = record {
  metadata = record {
    sequence = sequence;
    capture_time = time;
    presentation_time = time;
    duration = 16_666_666;
    kind = key;
    format = record { dimensions = record { width = 64; height = 32 }; frame_rate = sixty };
  };
  payload = 1 ∷ 2 ∷ 3 ∷ [];
}

abbrev fresh : LatestFrameScheduler
fresh = new_scheduler config 1_000_000

abbrev first : MediaFrame
first = picture 0 0

abbrev second : MediaFrame
second = picture 1 16_666_666

abbrev loaded : LatestFrameScheduler
loaded = (submit fresh first 1_500_000).0

second_replaces : (submit loaded second 2_000_000).1 ≡ replaced 0
unfolding submit new_scheduler payload_len
second_replaces = refl

first_is_superseded :
    (submit (submit fresh second 1_500_000).0 first 2_000_000).1 ≡ dropped_superseded 0 1
unfolding submit new_scheduler payload_len
first_is_superseded = refl

abbrev shown : ScheduledFrame
shown = record {
  frame = first;
  pacing_tick = record { index = 0; deadline = 1_000_000; skipped = 0 };
  queue_time = 1_500_000;
  pacing_lateness = 2_000_000;
  frame_latency = 2_000_000;
}

poll-loaded : poll loaded 3_000_000 ≡ ((poll loaded 3_000_000).0, ready shown)
unfolding poll submit new_scheduler payload_len Pacer.poll deadline timestamp frame_at_or_before
    record_pacing_tick record_presented
poll-loaded = refl

second-IsEligible : IsEligible loaded second 2_000_000
unfolding submit new_scheduler payload_len
second-IsEligible = (omega arith, refl)

abbrev events : List Event
events =
    submits first 1_500_000
    ∷ submits second 2_000_000
    ∷ polls 3_000_000
    ∷ polls 18_000_000
    ∷ submits first 90_000_000
    ∷ polls 95_000_000
    ∷ []

submit-IsNewestOf_example :
    (p : PendingFrame) × ((submit loaded second 2_000_000).0.pending ≡ some p)
    × IsNewestOf loaded.pending second 2_000_000 p
submit-IsNewestOf_example = submit-IsNewestOf loaded second 2_000_000 second-IsEligible

submit_all-SupersedesAll_example :
    SupersedesAll fresh
      ((second, 1_500_000) ∷ (first, 2_000_000) ∷ [])
      (submit_all fresh ((second, 1_500_000) ∷ (first, 2_000_000) ∷ []))
submit_all-SupersedesAll_example =
    submit_all-SupersedesAll fresh ((second, 1_500_000) ∷ (first, 2_000_000) ∷ [])

poll-ready_example :
    (p : PendingFrame) × (loaded.pending ≡ some p)
    × IsTimely loaded 3_000_000 p shown
    × ((poll loaded 3_000_000).0.pending ≡ none)
    × ((Pacer.poll loaded.pacer 3_000_000).1 ≡ due shown.pacing_tick)
poll-ready_example = poll-ready loaded (poll loaded 3_000_000).0 3_000_000 shown poll-loaded

run-new_scheduler_example : IsBalanced (run fresh events) × IsAveraged (run fresh events).metrics
run-new_scheduler_example = run-new_scheduler config 1_000_000 events (omega arith)

duration_average-le_example : 33 ≤ 40
unfolding duration_average
duration_average-le_example = duration_average-le 100 3 40 33 (omega arith) refl
