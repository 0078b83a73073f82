-- ===== src/Media/Scheduler/Dispatch.antt =====
-- What `poll` hands out, and the byte cap of the queue.
use lado_flow.Base.{ℕ, ◌+◌, ◌≤◌, ◌≡◌, refl, arith, max, Option, none, some, List, [], ◌∷◌}
use lado_flow.Base.Time.{Duration, add_duration}
use lado_flow.Media.FrameRate.{MediaFrame, payload_len}
use lado_flow.Media.Pacer.{PaceDecision, due, wait_until, exhausted, PacingTick, FramePacer}
use lado_flow.Media.Pacer
use lado_flow.Media.Scheduler.{
  LatestFrameScheduler, SchedulerConfig, PendingFrame, ScheduledFrame, ready, new_scheduler, submit,
  poll, paced, take_pending, dispatch, absolute_time,
}
use lado_flow.Media.Scheduler.Accounts.{Event, submits, polls, run}

-- A frame that is handed out at `now` with the slot `t`.
pub record IsTimely (s : LatestFrameScheduler) (now : Duration) (p : PendingFrame)
    (r : ScheduledFrame) : Type 0 where
  pub frame : r.frame ≡ p.frame
  -- Its presentation time has come, and its age is within the limit.
  pub not_early : absolute_time s p.frame.metadata.presentation_time ≤ now
  pub not_late :
      now ≤ add_duration (absolute_time s p.frame.metadata.presentation_time) s.config.max_frame_age
  pub waited : r.queue_time + p.enqueued_at ≡ max now p.enqueued_at

dispatch-ready :
    (s u : LatestFrameScheduler) (now : Duration) (t : PacingTick) (p : PendingFrame)
    (r : ScheduledFrame)
    → s.pending ≡ none
    → dispatch s now t p ≡ (u, ready r)
    → IsTimely s now p r × (u.pending ≡ none) × (r.pacing_tick ≡ t)
unfolding dispatch
dispatch-ready s u now t p r e h = ground arith

take_pending-ready :
    (s u : LatestFrameScheduler) (now : Duration) (t : PacingTick) (o : Option PendingFrame)
    (r : ScheduledFrame)
    → take_pending s now t o ≡ (u, ready r)
    → (p : PendingFrame) × (o ≡ some p)
      × IsTimely s now p r
      × (u.pending ≡ none)
      × (r.pacing_tick ≡ t)
unfolding take_pending
take_pending-ready s u now t none r h = absurd (ground arith)
take_pending-ready s u now t (some p) r h =
    let d = dispatch-ready (record s { pending = none }) u now t p r refl h in
    (
      p,
      refl,
      record {
        frame = d.0.frame;
        not_early = d.0.not_early;
        not_late = d.0.not_late;
        waited = d.0.waited;
      },
      d.1,
      d.2,
    )

paced-ready :
    (s u : LatestFrameScheduler) (now : Duration) (d : PaceDecision) (r : ScheduledFrame)
    → paced s now d ≡ (u, ready r)
    → (p : PendingFrame) × (s.pending ≡ some p)
      × IsTimely s now p r
      × (u.pending ≡ none)
      × (d ≡ due r.pacing_tick)
unfolding paced
paced-ready s u now (due t) r h =
    let (p, e, v, gone, tick) = take_pending-ready _ u now t s.pending r h in
    (
      p,
      e,
      record { frame = v.frame; not_early = v.not_early; not_late = v.not_late; waited = v.waited },
      gone,
      ground (arith, tick),
    )
paced-ready s u now (wait_until d) r h = absurd (ground arith)
paced-ready s u now exhausted r h = absurd (ground arith)

-- A frame that a poll hands out is the one in the queue, its presentation time has come, its age is
-- within the limit, its slot is the one that the pacer selects at that time, and the queue is left
-- empty.
pub poll-ready :
    (s u : LatestFrameScheduler) (now : Duration) (r : ScheduledFrame)
    → poll s now ≡ (u, ready r)
    → (p : PendingFrame) × (s.pending ≡ some p)
      × IsTimely s now p r
      × (u.pending ≡ none)
      × ((Pacer.poll s.pacer now).1 ≡ due r.pacing_tick)
unfolding poll
poll-ready s u now r h =
    let q = Pacer.poll s.pacer now in
    let (p, e, v, gone, tick) = paced-ready (record s { pacer = q.0 }) u now q.1 r h in
    (
      p,
      e,
      record { frame = v.frame; not_early = v.not_early; not_late = v.not_late; waited = v.waited },
      gone,
      tick,
    )

abbrev pub FitsQueue : ℕ → Option PendingFrame → Type 0
FitsQueue limit none = Unit {0}
FitsQueue limit (some p) = payload_len p.frame ≤ limit

-- The queue holds no frame above the byte limit, and the limit stays.
abbrev pub IsCapped : ℕ → LatestFrameScheduler → Type 0
IsCapped limit s = (s.config.max_frame_bytes ≡ limit) × FitsQueue limit s.pending

submit-IsCapped :
    (limit : ℕ) (s : LatestFrameScheduler) (f : MediaFrame) (now : Duration)
    → IsCapped limit s
    → IsCapped limit (submit s f now).0
unfolding submit payload_len
submit-IsCapped limit s f now v = ground arith

paced-IsCapped :
    (limit : ℕ) (s : LatestFrameScheduler) (now : Duration) (d : PaceDecision)
    → IsCapped limit s
    → IsCapped limit (paced s now d).0
unfolding paced payload_len
paced-IsCapped limit s now (due t) v = ground arith
paced-IsCapped limit s now (wait_until d) v = v
paced-IsCapped limit s now exhausted v = v

run-IsCapped_from :
    (limit : ℕ) (s : LatestFrameScheduler) (es : List Event)
    → IsCapped limit s
    → IsCapped limit (run s es)
unfolding run poll
run-IsCapped_from limit s [] v = v
run-IsCapped_from limit s (submits f now ∷ es) v =
    run-IsCapped_from limit (submit s f now).0 es (submit-IsCapped limit s f now v)
run-IsCapped_from limit s (polls now ∷ es) v = run-IsCapped_from limit (poll s now).0 es (
    paced-IsCapped limit (record s { pacer = (Pacer.poll s.pacer now).0 }) now
      (Pacer.poll s.pacer now).1 v)

-- After any submissions and polls of a new scheduler its queue holds no frame above the configured
-- byte limit, and that limit stays.
pub run-IsCapped :
    (c : SchedulerConfig) (origin : Duration) (es : List Event)
    → IsCapped c.max_frame_bytes (run (new_scheduler c origin) es)
unfolding new_scheduler
run-IsCapped c origin es =
    run-IsCapped_from c.max_frame_bytes (new_scheduler c origin) es (refl, tt)
