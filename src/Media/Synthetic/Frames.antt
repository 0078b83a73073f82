-- ===== src/Media/Synthetic/Frames.antt =====
-- The frames that a producer yields, over any calls.
use mathlib.Core.Path.{subst}
use lado_flow.Base.{
  ℕ, zero, suc, ◌+◌, ◌-◌, ◌%◌, ◌≤◌, ◌<◌, ◌≡◌, ◌↔◌, refl, sym, ap, ◌∙◌, arith, inl, inr, true, false,
  Bool-cases, ◌==◌, leb, Option, none, some, List, [], ◌∷◌, ◌++◌, length, length-append,
  length-take, take, ok, if◌then◌else◌,
}
use lado_flow.Base.Time.{u64_max}
use lado_flow.Media.FrameRate.{VideoFormat, key, MediaFrame, timestamp}
use lado_flow.Media.Synthetic.{
  SyntheticConfig, new_synthetic, with_seed, max_synthetic_payload_bytes, new_producer, block_bytes,
  fill_blocks, make_payload, frame_of, next, next_from, advance_from, advance_to_sequence, Call,
  pull, skip_to, frames,
}

length-block_bytes : (sequence seed i : ℕ) → length (block_bytes sequence seed i) ≡ 8
unfolding block_bytes
length-block_bytes sequence seed i = refl

fill_more :
    (fuel sequence seed i n : ℕ)
    → (n == 0) ≡ false
    → fill_blocks (suc fuel) sequence seed i n
      ≡ take n (block_bytes sequence seed i) ++ fill_blocks fuel sequence seed (i + 1) (n - 8)
unfolding fill_blocks
fill_more fuel sequence seed i n e = rw (e, fill_blocks) refl

fill_done :
    (fuel sequence seed i n : ℕ) → (n == 0) ≡ true → fill_blocks (suc fuel) sequence seed i n ≡ []
unfolding fill_blocks
fill_done fuel sequence seed i n e = rw (e, fill_blocks) refl

length-fill_blocks :
    (fuel sequence seed i n : ℕ) → n ≤ fuel → length (fill_blocks fuel sequence seed i n) ≡ n
unfolding fill_blocks
length-fill_blocks zero sequence seed i n le = omega arith
length-fill_blocks (suc fuel) sequence seed i n le = elim (Bool-cases (n == 0)) [
  | inl e ↦
      let none_left : n ≡ 0 = ground arith in
      ap length (fill_done fuel sequence seed i n e) ∙ sym none_left
  | inr e ↦
      let some_left : 0 < n = ground arith in
      ap length (fill_more fuel sequence seed i n e)
      ∙ length-append (take n (block_bytes sequence seed i))
          (fill_blocks fuel sequence seed (i + 1) (n - 8))
      ∙ omega (
        arith,
        length-take n (block_bytes sequence seed i),
        length-block_bytes sequence seed i,
        length-fill_blocks fuel sequence seed (i + 1) (n - 8) (omega arith),
      )
]

-- A frame that a stream of the format makes, not before a sequence number.
pub record IsMade (format : VideoFormat) (bytes interval from : ℕ) (f : MediaFrame) : Type 0 where
  pub later : from ≤ f.metadata.sequence
  pub size : length f.payload ≡ bytes
  pub keys : (f.metadata.kind ≡ key) ↔ (f.metadata.sequence % interval ≡ 0)
  pub time : f.metadata.presentation_time ≡ timestamp format.frame_rate f.metadata.sequence
  pub shape : f.metadata.format ≡ format

-- Frames of ascending sequence numbers.
abbrev pub InOrder : VideoFormat → ℕ → ℕ → ℕ → List MediaFrame → Type 0
InOrder format bytes interval from [] = Unit {0}
InOrder format bytes interval from (f ∷ fs) =
    IsMade format bytes interval from f × InOrder format bytes interval (f.metadata.sequence + 1) fs

frame_of-IsMade :
    (c : SyntheticConfig) (from sequence : ℕ)
    → from ≤ sequence
    → IsMade c.format c.payload_bytes c.keyframe_interval from (frame_of c sequence)
unfolding frame_of make_payload
frame_of-IsMade c from sequence le = record {
  later = le;
  size = length-fill_blocks c.payload_bytes sequence c.seed 0 c.payload_bytes (omega arith);
  keys = (λ e. ground arith, λ e. ground arith);
  time = refl;
  shape = refl;
}

-- The next sequence number of a producer, if it has one, is not before a number.
abbrev Reaches : ℕ → Option ℕ → Type 0
Reaches from none = Unit {0}
Reaches from (some n) = from ≤ n

next-Reaches : (n : ℕ) → Reaches (n + 1) (if n == u64_max then none else some (n + 1))
next-Reaches n = elim (Bool-cases (n == u64_max)) [ inl e ↦ rw e tt | inr e ↦ rw e (omega arith) ]

frames-InOrder :
    (cs : List Call) (c : SyntheticConfig) (o : Option ℕ) (from : ℕ)
    → Reaches from o
    → InOrder c.format c.payload_bytes c.keyframe_interval from
        (frames cs (record { config = c; next_sequence = o }))
unfolding frames next next_from advance_to_sequence advance_from frame_of
frames-InOrder [] c o from r = tt
frames-InOrder (pull ∷ cs) c none from r = frames-InOrder cs c none from tt
frames-InOrder (pull ∷ cs) c (some n) from r = (
  frame_of-IsMade c from n r,
  frames-InOrder cs c (if n == u64_max then none else some (n + 1)) (n + 1) (next-Reaches n),
)
frames-InOrder (skip_to m ∷ cs) c none from r = frames-InOrder cs c none from tt
frames-InOrder (skip_to m ∷ cs) c (some n) from r = elim (Bool-cases (leb m n)) [
  | inl e ↦ rw e (frames-InOrder cs c (some n) from r)
  | inr e ↦ rw e (frames-InOrder cs c (some m) from (ground arith))
]

new_synthetic_ok :
    (format : VideoFormat) (bytes interval : ℕ) (config : SyntheticConfig)
    → new_synthetic format bytes interval ≡ ok config
    → (record { format = format; payload_bytes = bytes; keyframe_interval = interval; seed = 0 }
        ≡ config)
      × (0 < bytes)
      × (bytes ≤ max_synthetic_payload_bytes)
unfolding new_synthetic
new_synthetic_ok format bytes interval config made = ground arith

-- For an accepted configuration and any seed, the frames that a new producer yields over any calls
-- of next and advance_to_sequence have ascending sequence numbers, the configured number of bytes,
-- which is positive and at most the limit, the format, the timestamp of their number, and are key
-- frames exactly at the multiples of the interval.
pub frames-new_synthetic :
    (format : VideoFormat) (bytes interval seed : ℕ) (config : SyntheticConfig) (cs : List Call)
    → new_synthetic format bytes interval ≡ ok config
    → InOrder format bytes interval 0 (frames cs (new_producer (with_seed config seed)))
      × (0 < bytes)
      × (bytes ≤ max_synthetic_payload_bytes)
frames-new_synthetic format bytes interval seed config cs made =
    let (is, low, high) = new_synthetic_ok format bytes interval config made in
    (
      subst (λ c. InOrder format bytes interval 0 (frames cs (new_producer (with_seed c seed)))) is
          (frames-InOrder cs
            (record {
              format = format;
              payload_bytes = bytes;
              keyframe_interval = interval;
              seed = seed;
            })
            (some 0) 0 (omega arith)),
      low,
      high,
    )
