-- ===== src/Media/Pacer/Slots.antt =====
-- The slots that polls select and skip.
use lado_flow.Base.{
  ℕ, ◌+◌, ◌-◌, ◌≤◌, ◌<◌, ◌≡◌, ◌↔◌, refl, arith, max, List, [], ◌∷◌, Option, none, some,
}
use lado_flow.Base.Time.{Duration, u64_max, duration_max}
use lado_flow.Media.FrameRate.{FrameRate, frame_at_or_before}
use lado_flow.Media.FrameRate.Timeline.{IsRate, timestamp-le_iff}
use lado_flow.Media.Pacer.{
  FramePacer, PacingTick, PaceDecision, due, wait_until, exhausted, deadline, next_index, poll,
}

-- Before the longest duration a slot has come exactly when the search at the elapsed time is at it
-- or behind it.
deadline-le_iff :
    (p : FramePacer) (i : ℕ) (now : Duration)
    → IsRate p.frame_rate
    → i ≤ u64_max
    → now < duration_max
    → (deadline p i ≤ now)
      ↔ ((p.origin ≤ now) × (i ≤ frame_at_or_before p.frame_rate (now - p.origin)))
unfolding deadline
deadline-le_iff p i now v hi hn =
    let search = timestamp-le_iff p.frame_rate i (now - p.origin) v hi (omega arith) in
    (λ h. (omega arith, search.0 (omega arith)), λ h. omega (arith, h.0, search.1 h.1))

frame_at_or_before-le : (r : FrameRate) (t : Duration) → frame_at_or_before r t ≤ u64_max
unfolding frame_at_or_before
frame_at_or_before-le r t = ground arith

-- A slot that a poll selects is not before the next one, its deadline has come, and it is the
-- newest such: the deadline of the slot behind it is still to come.
pub record IsNewest (p : FramePacer) (now : Duration) (next : ℕ) (t : PacingTick) : Type 0 where
  pub forward : next ≤ t.index
  pub counted : t.index ≡ next + t.skipped
  pub reached : (t.deadline ≡ deadline p t.index) × (t.deadline ≤ now)
  pub newest : t.index < u64_max → now < deadline p (t.index + 1)

poll_due :
    (p q : FramePacer) (now : Duration) (next : ℕ) (t : PacingTick)
    → p.next_tick ≡ some next
    → poll p now ≡ (q, due t)
    → (deadline p next ≤ now)
      × (t.index ≡ max (frame_at_or_before p.frame_rate (now - p.origin)) next)
      × (t.deadline ≡ deadline p t.index)
      × (t.skipped ≡ t.index - next)
      × (q ≡ record p { next_tick = next_index t.index })
unfolding poll
poll_due p q now next t e h = ground arith

-- For an accepted rate, a u64 slot next and a time below the longest duration, a slot that a poll
-- selects is not before the next one, counts the slots between as skipped, has a deadline that has
-- come, and is the newest such; the slot behind it is next.
pub poll-IsNewest :
    (p q : FramePacer) (now : Duration) (next : ℕ) (t : PacingTick)
    → IsRate p.frame_rate
    → now < duration_max
    → p.next_tick ≡ some next
    → next ≤ u64_max
    → poll p now ≡ (q, due t)
    → IsNewest p now next t × (q ≡ record p { next_tick = next_index t.index })
poll-IsNewest p q now next t v hn e hx h =
    let (came, index, at, skipped, after) = poll_due p q now next t e h in
    let reach = (deadline-le_iff p next now v hx hn).0 came in
    let found : t.index ≡ frame_at_or_before p.frame_rate (now - p.origin) =
      omega (arith, reach, index) in
    let top : t.index ≤ u64_max =
      omega (arith, found, frame_at_or_before-le p.frame_rate (now - p.origin)) in
    let arrived : deadline p t.index ≤ now =
      (deadline-le_iff p t.index now v top hn).1 (reach.0, omega (arith, found)) in
    (
      record {
        forward = omega (arith, index);
        counted = omega (arith, index, skipped);
        reached = (at, omega (arith, at, arrived));
        newest = λ more. not_le→lt (λ late.
            omega (arith, found, (deadline-le_iff p (t.index + 1) now v (omega arith) hn).0 late));
      },
      after,
    )
  where
    not_le→lt : {a b : ℕ} → ¬ (a ≤ b) → b < a
    not_le→lt k = omega arith

-- The first slot that no poll has dealt with: behind the last u64 there is none left.
abbrev pub position : Option ℕ → ℕ
position (some n) = n
position none = u64_max + 1

-- The slots that one decision deals with.
abbrev pub covered : PaceDecision → ℕ
covered (due t) = 1 + t.skipped
covered (wait_until d) = 0
covered exhausted = 0

abbrev pub InRange : Option ℕ → Type 0
InRange (some n) = n ≤ u64_max
InRange none = Unit {0}

poll-position_by :
    (p : FramePacer) (now : Duration) (o : Option ℕ)
    → p.next_tick ≡ o
    → InRange o
    → (position (poll p now).0.next_tick ≡ position o + covered (poll p now).1)
      × InRange (poll p now).0.next_tick
unfolding poll
poll-position_by p now none e h = rw (e, poll) (omega arith)
poll-position_by p now (some next) e h =
    let top = frame_at_or_before-le p.frame_rate (now - p.origin) in ground (arith, top)

poll-position :
    (p : FramePacer) (now : Duration)
    → InRange p.next_tick
    → (position (poll p now).0.next_tick ≡ position p.next_tick + covered (poll p now).1)
      × InRange (poll p now).0.next_tick
poll-position p now h = poll-position_by p now p.next_tick refl h

unfoldable pub polls : FramePacer → List Duration → FramePacer
polls p [] = p
polls p (now ∷ rest) = polls (poll p now).0 rest

abbrev pub covered_all : FramePacer → List Duration → ℕ
covered_all p [] = 0
covered_all p (now ∷ rest) = covered (poll p now).1 + covered_all (poll p now).0 rest

-- For any times of polls, the slots that they select and count as skipped are together as many as
-- the pacer moves forward.
pub polls-position :
    (p : FramePacer) (times : List Duration)
    → InRange p.next_tick
    → position (polls p times).next_tick ≡ position p.next_tick + covered_all p times
unfolding polls
polls-position p [] h = omega arith
polls-position p (now ∷ rest) h =
    let step = poll-position p now h in
    omega (arith, step.0, polls-position (poll p now).0 rest step.1)
