-- ===== src/Media/Scheduler/Queue.antt =====
-- The one-frame queue under submissions.
use lado_flow.Base.{
  ◌≤◌, ◌<◌, ◌≡◌, ◌⊎◌, inl, inr, refl, arith, Option, none, some, true, false, Bool-cases, List, [],
  ◌∷◌, ltb, ltb→lt, ◌∙◌,
}
use lado_flow.Base.Time.{Duration}
use lado_flow.Media.FrameRate.{FrameMetadata, MediaFrame, payload_len}
use lado_flow.Media.Scheduler.{LatestFrameScheduler, PendingFrame, submit, is_stale, order_le}

order_le_refl : (a : FrameMetadata) → order_le a a ≡ true
order_le_refl a = ground arith

order_le_trans :
    (a b c : FrameMetadata) → order_le a b ≡ true → order_le b c ≡ true → order_le a c ≡ true
order_le_trans a b c p q = ground arith

-- `submit` looks no further at a frame that is too large or too late.
abbrev pub IsEligible : LatestFrameScheduler → MediaFrame → Duration → Type 0
IsEligible s f now =
    (payload_len f ≤ s.config.max_frame_bytes) × (is_stale s f.metadata now ≡ false)

-- The queue after an eligible frame: the newer of it and of what the queue held.
pub record IsNewestOf (old : Option PendingFrame) (f : MediaFrame) (now : Duration)
    (p : PendingFrame) : Type 0 where
  pub above : order_le f.metadata p.frame.metadata ≡ true
  pub above_old :
      (o : PendingFrame) → old ≡ some o → order_le o.frame.metadata p.frame.metadata ≡ true
  pub origin : (p ≡ record { frame = f; enqueued_at = now }) ⊎ (old ≡ some p)

submit_into :
    (s : LatestFrameScheduler) (f : MediaFrame) (now : Duration) (o : Option PendingFrame)
    → s.pending ≡ o
    → IsEligible s f now
    → (p : PendingFrame) × ((submit s f now).0.pending ≡ some p) × IsNewestOf o f now p
unfolding submit payload_len
submit_into s f now none e v =
    let p : PendingFrame = record { frame = f; enqueued_at = now } in
    (
      p,
      ground arith,
      record { above = order_le_refl f.metadata; above_old = λ o q. cc; origin = inl refl },
    )
submit_into s f now (some old) e v = elim (Bool-cases (order_le f.metadata old.frame.metadata)) [
  | inl older ↦ (
    old,
    ground arith,
    record {
      above = older;
      above_old = λ o q. ground (arith, order_le_refl old.frame.metadata);
      origin = inr refl;
    },
  )
  | inr newer ↦
      let p : PendingFrame = record { frame = f; enqueued_at = now } in
      (
        p,
        ground arith,
        record {
          above = order_le_refl f.metadata;
          above_old = λ o q. ground arith;
          origin = inl refl;
        },
      )
]

-- An eligible frame that is submitted leaves the newer of the two in the queue.
pub submit-IsNewestOf :
    (s : LatestFrameScheduler) (f : MediaFrame) (now : Duration)
    → IsEligible s f now
    → (p : PendingFrame) × ((submit s f now).0.pending ≡ some p) × IsNewestOf s.pending f now p
submit-IsNewestOf s f now v = submit_into s f now s.pending refl v

-- A frame that is not eligible leaves the queue as it was.
submit_ineligible :
    (s : LatestFrameScheduler) (f : MediaFrame) (now : Duration)
    → (s.config.max_frame_bytes < payload_len f) ⊎ (is_stale s f.metadata now ≡ true)
    → (submit s f now).0.pending ≡ s.pending
unfolding submit payload_len
submit_ineligible s f now h = ground arith

-- A frame in the queue is displaced by a newer one only.
keeps_above :
    (s : LatestFrameScheduler) (p : PendingFrame) (f : MediaFrame) (now : Duration)
    → s.pending ≡ some p
    → (q : PendingFrame) × ((submit s f now).0.pending ≡ some q)
      × (order_le p.frame.metadata q.frame.metadata ≡ true)
keeps_above s p f now e = elim (Bool-cases (ltb s.config.max_frame_bytes (payload_len f))) [
  | inl large ↦
      (p, submit_ineligible s f now (inl (ltb→lt _ _ large)) ∙ e, order_le_refl p.frame.metadata)
  | inr small ↦ elim (Bool-cases (is_stale s f.metadata now)) [
    | inl late ↦ (p, submit_ineligible s f now (inr late) ∙ e, order_le_refl p.frame.metadata)
    | inr timely ↦
        let (q, held, newest) = submit-IsNewestOf s f now (ground arith, timely) in
        (q, held, newest.above_old p e)
  ]
]

abbrev pub Submission : Type 0
Submission = MediaFrame × Duration

unfoldable pub submit_all : LatestFrameScheduler → List Submission → LatestFrameScheduler
submit_all s [] = s
submit_all s ((f, now) ∷ rest) = submit_all (submit s f now).0 rest

-- The queue's frame is at least as new as the given one.
abbrev pub Supersedes : LatestFrameScheduler → FrameMetadata → Type 0
Supersedes t m = (p : PendingFrame) × (t.pending ≡ some p) × (order_le m p.frame.metadata ≡ true)

submit_all_keeps :
    (s : LatestFrameScheduler) (m : FrameMetadata) (frames : List Submission)
    → Supersedes s m
    → Supersedes (submit_all s frames) m
unfolding submit_all
submit_all_keeps s m [] above = above
submit_all_keeps s m ((f, now) ∷ rest) (p, e, above) =
    let (q, held, more) = keeps_above s p f now e in
    submit_all_keeps (submit s f now).0 m rest
      (q, held, order_le_trans m p.frame.metadata q.frame.metadata above more)

-- `t` supersedes every frame of the run that was eligible when it was submitted.
abbrev pub SupersedesAll : LatestFrameScheduler → List Submission → LatestFrameScheduler → Type 0
SupersedesAll s [] t = Unit {0}
SupersedesAll s ((f, now) ∷ rest) t =
    (IsEligible s f now → Supersedes t f.metadata) × SupersedesAll (submit s f now).0 rest t

-- After any submissions the queue holds a frame at least as new, by presentation time and then
-- sequence, as each one that fitted the byte limit and was not stale when it was submitted.
pub submit_all-SupersedesAll :
    (s : LatestFrameScheduler) (frames : List Submission)
    → SupersedesAll s frames (submit_all s frames)
unfolding submit_all
submit_all-SupersedesAll s [] = tt
submit_all-SupersedesAll s ((f, now) ∷ rest) = (
  λ v.
      let (p, held, newest) = submit-IsNewestOf s f now v in
      submit_all_keeps (submit s f now).0 f.metadata rest (p, held, newest.above),
  submit_all-SupersedesAll (submit s f now).0 rest,
)
