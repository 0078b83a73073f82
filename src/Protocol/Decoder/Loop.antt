-- ===== src/Protocol/Decoder/Loop.antt =====
-- The `while let` loop of `push` and its fuel.
use lado_flow.Base.{
  ℕ, zero, suc, ◌+◌, ◌≤◌, ◌≡◌, refl, sym, ap, ◌∙◌, arith, List, [], ◌∷◌, length, drop, length-drop,
  drop-drop_add, Result, ok, err,
}
use mathlib.Core.Path.{subst}
use lado_flow.Protocol.Error.{ProtocolError}
use lado_flow.Protocol.Frame.{Frame, DecodeOutcome, complete, need_more_data, decode_prefix}
use lado_flow.Protocol.Frame.Stream.{consumed_bounds}
use lado_flow.Protocol.Decoder.{Drained, after_frame, drain_loop}
use lado_flow.Protocol.Decoder.Parses.{FailsAfter, Parses, decode_prefix-nil}

drain_loop_complete :
    (fuel : ℕ) (buffer : List ℕ) (c : ℕ) (f : Frame) (k : ℕ)
    → decode_prefix (drop c buffer) ≡ ok (complete f k)
    → drain_loop (suc fuel) buffer c ≡ after_frame f (drain_loop fuel buffer (c + k))
unfolding drain_loop
drain_loop_complete fuel buffer c f k e = rw (e, drain_loop)

drain_loop_stop :
    (fuel : ℕ) (buffer : List ℕ) (c m : ℕ)
    → decode_prefix (drop c buffer) ≡ ok (need_more_data m)
    → drain_loop (suc fuel) buffer c ≡ ok (record { frames = []; consumed = c })
unfolding drain_loop
drain_loop_stop fuel buffer c m e = rw (e, drain_loop)

drain_loop_failed :
    (fuel : ℕ) (buffer : List ℕ) (c : ℕ) (x : ProtocolError)
    → decode_prefix (drop c buffer) ≡ err x
    → drain_loop (suc fuel) buffer c ≡ err x
unfolding drain_loop
drain_loop_failed fuel buffer c x e = rw (e, drain_loop)

-- A list with no element left is empty.
length-zero : (xs : List ℕ) → length xs ≤ 0 → xs ≡ []
length-zero [] h = refl
length-zero (x ∷ xs) h = absurd (omega arith)

next_fuel :
    (fuel : ℕ) (buffer : List ℕ) (c : ℕ) (f : Frame) (k : ℕ)
    → length (drop c buffer) ≤ suc fuel
    → decode_prefix (drop c buffer) ≡ ok (complete f k)
    → (length (drop (c + k) buffer) ≤ fuel) × (drop k (drop c buffer) ≡ drop (c + k) buffer)
next_fuel fuel buffer c f k h e =
    let bound = consumed_bounds (drop c buffer) f k e in
    (
      omega (arith, bound, length-drop c buffer, length-drop (c + k) buffer),
      drop-drop_add c k (c + k) buffer refl,
    )

-- With as much fuel as bytes the loop finds every frame of a stream that can be read.
pub drain_loop_reads :
    (fuel : ℕ) (buffer : List ℕ) (c : ℕ) (fs : List Frame) (r : List ℕ)
    → length (drop c buffer) ≤ fuel
    → Parses (drop c buffer) fs r
    → (n : ℕ) × (drain_loop fuel buffer c ≡ ok (record { frames = fs; consumed = n }))
      × (drop n buffer ≡ r)
unfolding drain_loop
drain_loop_reads zero buffer c [] r h p = (c, refl, sym p.0)
drain_loop_reads (suc fuel) buffer c [] r h p =
    (c, drain_loop_stop fuel buffer c p.1.0 p.1.1, sym p.0)
drain_loop_reads zero buffer c (f ∷ fs) r h p =
    absurd (omega (arith, consumed_bounds (drop c buffer) f p.0 p.1))
drain_loop_reads (suc fuel) buffer c (f ∷ fs) r h p =
    let next = next_fuel fuel buffer c f p.0 h p.1 in
    let (n, e, d) =
      drain_loop_reads fuel buffer (c + p.0) fs r next.0 (subst (λ b. Parses b fs r) next.1 p.2) in
    (n, drain_loop_complete fuel buffer c f p.0 p.1 ∙ ap (after_frame f) e, d)

-- What the answers of the loop say.
abbrev pub Reads : List ℕ → ℕ → Result ProtocolError Drained → Type 0
Reads buffer c (ok d) = Parses (drop c buffer) d.frames (drop d.consumed buffer)
Reads buffer c (err x) = (fs : List Frame) × FailsAfter (drop c buffer) fs x

Reads-after_frame :
    (buffer : List ℕ) (c : ℕ) (f : Frame) (k : ℕ) (r : Result ProtocolError Drained)
    → decode_prefix (drop c buffer) ≡ ok (complete f k)
    → drop k (drop c buffer) ≡ drop (c + k) buffer
    → Reads buffer (c + k) r
    → Reads buffer c (after_frame f r)
Reads-after_frame buffer c f k (ok d) e cut p =
    (k, e, subst (λ b. Parses b d.frames (drop d.consumed buffer)) (sym cut) p)
Reads-after_frame buffer c f k (err x) e cut (fs, p) =
    (f ∷ fs, (k, e, subst (λ b. FailsAfter b fs x) (sym cut) p))

drain_loop-Reads_by :
    (fuel : ℕ) (buffer : List ℕ) (c : ℕ) (r : Result ProtocolError DecodeOutcome)
    → decode_prefix (drop c buffer) ≡ r
    → length (drop c buffer) ≤ fuel
    → Reads buffer c (drain_loop fuel buffer c)
drain_loop-Reads_by zero buffer c r e h =
    unfold drain_loop in
    (refl, (24, ap decode_prefix (length-zero (drop c buffer) h) ∙ decode_prefix-nil))
drain_loop-Reads_by (suc fuel) buffer c (ok (complete f k)) e h =
    let next = next_fuel fuel buffer c f k h e in
    subst (Reads buffer c) (sym (drain_loop_complete fuel buffer c f k e)) (
      Reads-after_frame buffer c f k (drain_loop fuel buffer (c + k)) e next.1
        (drain_loop-Reads_by fuel buffer (c + k) (decode_prefix (drop (c + k) buffer)) refl next.0))
drain_loop-Reads_by (suc fuel) buffer c (ok (need_more_data m)) e h =
    subst (Reads buffer c) (sym (drain_loop_stop fuel buffer c m e)) (refl, (m, e))
drain_loop-Reads_by (suc fuel) buffer c (err x) e h =
    subst (Reads buffer c) (sym (drain_loop_failed fuel buffer c x e)) ([], e)

-- With as much fuel as bytes the loop returns the stream's frames and stops where more bytes are
-- needed, or it returns the error of a header that is refused behind some complete frames.
pub drain_loop-Reads :
    (fuel : ℕ) (buffer : List ℕ) (c : ℕ)
    → length (drop c buffer) ≤ fuel
    → Reads buffer c (drain_loop fuel buffer c)
drain_loop-Reads fuel buffer c h =
    drain_loop-Reads_by fuel buffer c (decode_prefix (drop c buffer)) refl h
