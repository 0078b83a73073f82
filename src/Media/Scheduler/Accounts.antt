-- ===== src/Media/Scheduler/Accounts.antt =====
-- The accounts of frames, pacing slots and durations.
use lado_flow.Base.{
  ℕ, ◌+◌, ◌-◌, ◌*◌, ◌/◌, ◌≤◌, ◌<◌, ◌≡◌, refl, ap, arith, min, max, List, [], ◌∷◌, Option, none,
  some, length,
}
use native.Mathlib.Nat.{mul-le-mul_left, div-le_of_le-mul, div-add-mod}
use lado_flow.Base.Time.{Duration, u64_max, nanos_per_second, duration_max, add_u64}
use lado_flow.Media.FrameRate.{MediaFrame}
use lado_flow.Media.Pacer.{PaceDecision, due, wait_until, exhausted, PacingTick, FramePacer}
use lado_flow.Media.Pacer
use lado_flow.Media.Metrics.{
  SchedulerMetrics, record_pacing_tick, record_presented, duration_average,
}
use lado_flow.Media.Scheduler.{
  LatestFrameScheduler, SchedulerConfig, PendingFrame, new_scheduler, submit, poll, paced, dispatch,
  take_pending, absolute_time,
}

abbrev pub held : Option PendingFrame → ℕ
held none = 0
held (some p) = 1

pub record IsBalanced (s : LatestFrameScheduler) : Type 0 where
  -- A submitted frame was presented, was dropped for one reason, or is in the queue.
  pub frames :
      s.metrics.submitted_frames
      ≡ s.metrics.presented_frames
        + s.metrics.dropped_stale_frames
        + s.metrics.dropped_superseded_frames
        + s.metrics.dropped_oversized_frames
        + held s.pending
  -- A slot presented a frame or was idle.
  pub slots : s.metrics.pacing_ticks ≡ s.metrics.presented_frames + s.metrics.idle_pacing_ticks

-- A total is at most the number of samples times the largest of them.
pub record IsAveraged (m : SchedulerMetrics) : Type 0 where
  pub queue_time : m.total_queue_time ≤ m.presented_frames * m.max_queue_time
  pub pacing_lateness : m.total_pacing_lateness ≤ m.presented_frames * m.max_pacing_lateness
  pub frame_latency : m.total_frame_latency ≤ m.presented_frames * m.max_frame_latency

-- What one call does to the accounts, while no counter is full.
record Step (s t : LatestFrameScheduler) : Type 0 where
  balanced : IsBalanced t
  averaged : IsAveraged t.metrics
  submitted : t.metrics.submitted_frames ≤ s.metrics.submitted_frames + 1
  ticks : t.metrics.pacing_ticks ≤ s.metrics.pacing_ticks + 1

total_step : (t n m q : ℕ) → t ≤ n * m → min (t + q) duration_max ≤ (n + 1) * max m q
total_step t n m q h = omega (arith, mul-le-mul_left n (max-le_left m q))
  where
    max-le_left : (a b : ℕ) → a ≤ max a b
    max-le_left a b = omega arith

submit-Step :
    (s : LatestFrameScheduler) (f : MediaFrame) (now : Duration)
    → s.metrics.submitted_frames < u64_max
    → IsBalanced s
    → IsAveraged s.metrics
    → Step s (submit s f now).0
unfolding submit
submit-Step s f now room b a = ground arith

record_presented-IsAveraged :
    (m : SchedulerMetrics) (q l f : Duration)
    → m.presented_frames < u64_max
    → IsAveraged m
    → IsAveraged (record_presented m q l f)
unfolding record_presented
record_presented-IsAveraged m q l f room a =
    let n : ℕ = m.presented_frames in
    let one : add_u64 n 1 ≡ n + 1 = omega arith in
    record {
      queue_time = rw one (total_step m.total_queue_time n m.max_queue_time q a.queue_time);
      pacing_lateness =
          rw one (total_step m.total_pacing_lateness n m.max_pacing_lateness l a.pacing_lateness);
      frame_latency =
          rw one (total_step m.total_frame_latency n m.max_frame_latency f a.frame_latency);
    }

dispatch-Step :
    (s u : LatestFrameScheduler) (now : Duration) (t : PacingTick) (p : PendingFrame)
    → s.metrics.submitted_frames ≤ u64_max
    → s.metrics.pacing_ticks < u64_max
    → IsBalanced s
    → IsAveraged s.metrics
    → s.pending ≡ some p
    → u ≡ record s { pending = none; metrics = record_pacing_tick s.metrics t }
    → Step s (dispatch u now t p).0
unfolding dispatch record_pacing_tick
dispatch-Step s u now t p full room b a e g = ground (
  arith,
  g,
  record_presented-IsAveraged u.metrics (now - p.enqueued_at) (now - t.deadline)
      (now - absolute_time u p.frame.metadata.capture_time),
)

take_pending-Step :
    (s u : LatestFrameScheduler) (now : Duration) (t : PacingTick) (o : Option PendingFrame)
    → s.metrics.submitted_frames ≤ u64_max
    → s.metrics.pacing_ticks < u64_max
    → IsBalanced s
    → IsAveraged s.metrics
    → s.pending ≡ o
    → u ≡ record s { metrics = record_pacing_tick s.metrics t }
    → Step s (take_pending u now t o).0
unfolding take_pending record_pacing_tick
take_pending-Step s u now t none full room b a e g = ground (arith, g)
take_pending-Step s u now t (some p) full room b a e g =
    dispatch-Step s (record u { pending = none }) now t p full room b a e
      (ap {A = LatestFrameScheduler} (λ x. record x { pending = none }) g)

-- The pacer takes no part in the accounts.
other_pacer :
    (s : LatestFrameScheduler) (q : FramePacer) → IsBalanced s → IsBalanced (record s { pacer = q })
other_pacer s q b = record { frames = b.frames; slots = b.slots }

paced-Step :
    (s : LatestFrameScheduler) (now : Duration) (d : PaceDecision)
    → s.metrics.submitted_frames ≤ u64_max
    → s.metrics.pacing_ticks < u64_max
    → IsBalanced s
    → IsAveraged s.metrics
    → Step s (paced s now d).0
unfolding paced
paced-Step s now (due t) full room b a =
    take_pending-Step s _ now t s.pending full room b a refl refl
paced-Step s now (wait_until d) full room b a = ground arith
paced-Step s now exhausted full room b a = ground arith

poll-Step :
    (s : LatestFrameScheduler) (now : Duration)
    → s.metrics.submitted_frames ≤ u64_max
    → s.metrics.pacing_ticks < u64_max
    → IsBalanced s
    → IsAveraged s.metrics
    → Step s (poll s now).0
unfolding poll
poll-Step s now full room b a =
    let q = Pacer.poll s.pacer now in
    let r = paced-Step (record s { pacer = q.0 }) now q.1 full room (other_pacer s q.0 b) a in
    record {
      balanced = r.balanced;
      averaged = r.averaged;
      submitted = r.submitted;
      ticks = r.ticks;
    }

pub data Event : Type 0 where
  submits : MediaFrame → Duration → Event
  polls : Duration → Event

unfoldable pub run : LatestFrameScheduler → List Event → LatestFrameScheduler
run s [] = s
run s (submits f now ∷ es) = run (submit s f now).0 es
run s (polls now ∷ es) = run (poll s now).0 es

run-IsBalanced :
    (s : LatestFrameScheduler) (es : List Event)
    → IsBalanced s
    → IsAveraged s.metrics
    → s.metrics.submitted_frames + length es ≤ u64_max
    → s.metrics.pacing_ticks + length es ≤ u64_max
    → IsBalanced (run s es) × IsAveraged (run s es).metrics
unfolding run
run-IsBalanced s [] b a p q = (b, a)
run-IsBalanced s (submits f now ∷ es) b a p q =
    let r = submit-Step s f now (omega arith) b a in
    run-IsBalanced (submit s f now).0 es r.balanced r.averaged (omega (arith, r.submitted))
      (omega (arith, r.ticks))
run-IsBalanced s (polls now ∷ es) b a p q =
    let r = poll-Step s now (omega arith) (omega arith) b a in
    run-IsBalanced (poll s now).0 es r.balanced r.averaged (omega (arith, r.submitted))
      (omega (arith, r.ticks))

-- After any submissions and polls of a new scheduler, at most u64::MAX of them, each submitted
-- frame was presented, dropped for one counted reason or is in the queue, each selected slot
-- presented a frame or was idle, and each total of durations is at most the presented frames times
-- the largest one.
pub run-new_scheduler :
    (c : SchedulerConfig) (origin : Duration) (es : List Event)
    → length es ≤ u64_max
    → IsBalanced (run (new_scheduler c origin) es)
      × IsAveraged (run (new_scheduler c origin) es).metrics
unfolding new_scheduler
run-new_scheduler c origin es h =
    run-IsBalanced (new_scheduler c origin) es (omega arith) (omega arith) (omega arith)
      (omega arith)

-- A mean is rounded down from its total, so it is no more than the largest sample.
pub duration_average-le :
    (total samples largest a : ℕ)
    → total ≤ samples * largest
    → duration_average total samples ≡ some a
    → a ≤ largest
unfolding duration_average
duration_average-le total samples largest a h e =
    ground (arith, div-le_of_le-mul samples h, div-add-mod (total / samples) nanos_per_second)
