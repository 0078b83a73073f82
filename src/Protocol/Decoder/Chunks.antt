-- ===== src/Protocol/Decoder/Chunks.antt =====
-- The decoder fed chunk by chunk.
use lado_flow.Base.{
  ℕ, ◌+◌, ◌≤◌, ◌≡◌, refl, sym, ap, ◌∙◌, arith, List, [], ◌∷◌, ◌++◌, All, length, length-append,
  Result, ok, err,
}
use mathlib.Core.Path.{subst}
use mathlib.Core.List.{append_assoc, append-nil, flatten}
use lado_flow.Protocol.Error.{ProtocolError}
use lado_flow.Protocol.Frame.{Frame, usize_max}
use lado_flow.Protocol.Frame.Prefix.{IsFrame}
use lado_flow.Protocol.Decoder.{FrameDecoder, with_buffer_limit, push}
use lado_flow.Protocol.Decoder.Parses.{
  Parses, Parses-unique, Parses-append, Parses-Split, encode_all, encode_all-Parses, Parses-rest,
  Parses-length, decode_prefix-nil,
}
use lado_flow.Protocol.Decoder.Push.{IsWaiting, push-Parses, push_reads}

abbrev pub prepend :
    List Frame
    → FrameDecoder × Result ProtocolError (List Frame)
    → FrameDecoder × Result ProtocolError (List Frame)
prepend fs (d, ok gs) = (d, ok (fs ++ gs))
prepend fs (d, err x) = (d, err x)

abbrev pub after_push :
    (FrameDecoder → FrameDecoder × Result ProtocolError (List Frame))
    → FrameDecoder × Result ProtocolError (List Frame)
    → FrameDecoder × Result ProtocolError (List Frame)
after_push more (d, ok fs) = prepend fs (more d)
after_push more (d, err x) = (d, err x)

-- The calls for a list of chunks, up to the first error.
unfoldable pub push_all :
    FrameDecoder → List (List ℕ) → FrameDecoder × Result ProtocolError (List Frame)
push_all d [] = (d, ok [])
push_all d (c ∷ cs) = after_push (λ d'. push_all d' cs) (push d c)

push_all_step :
    (d d' : FrameDecoder) (c : List ℕ) (cs : List (List ℕ)) (fs : List Frame)
    → push d c ≡ (d', ok fs)
    → push_all d (c ∷ cs) ≡ prepend fs (push_all d' cs)
unfolding push_all
push_all_step d d' c cs fs e = ap (after_push (λ t. push_all t cs)) e

module _ (limit : ℕ) (wide : limit ≤ usize_max) where
  -- However a readable stream is cut into chunks, the decoder returns its frames and keeps its rest.
  pub push_all_reads :
      (buffer : List ℕ) (cs : List (List ℕ)) (fs : List Frame) (r : List ℕ)
      → IsWaiting (record { buffer = buffer; buffer_limit = limit })
      → length (buffer ++ flatten cs) ≤ limit
      → Parses (buffer ++ flatten cs) fs r
      → push_all (record { buffer = buffer; buffer_limit = limit }) cs
        ≡ (record { buffer = r; buffer_limit = limit }, ok fs)
  unfolding push_all flatten
  push_all_reads buffer [] fs r w room p =
      let one =
        Parses-unique buffer fs [] r buffer (subst (λ b. Parses b fs r) (append-nil buffer) p)
          (refl, w) in
      cc (one.0, one.1)
  push_all_reads buffer (c ∷ cs) fs r w room p =
      let joined : buffer ++ (c ++ flatten cs) ≡ (buffer ++ c) ++ flatten cs =
        sym (append_assoc buffer c (flatten cs)) in
      let s = Parses-Split (buffer ++ c) (flatten cs) fs r (subst (λ b. Parses b fs r) joined p) in
      let start : FrameDecoder = record { buffer = buffer; buffer_limit = limit } in
      let total : length (buffer ++ (c ++ flatten cs))
          ≡ length (buffer ++ c) + length (flatten cs) =
        ap length joined ∙ length-append (buffer ++ c) (flatten cs) in
      let step = push_reads start c s.early s.rest (omega (arith, total)) wide s.read in
      push_all_step start (record { buffer = s.rest; buffer_limit = limit }) c cs s.early step
      ∙ ap (prepend s.early) (
          push_all_reads s.rest cs s.late r (Parses-rest (buffer ++ c) s.early s.rest s.read)
            (omega (
              arith,
              total,
              length-append s.rest (flatten cs),
              Parses-length (buffer ++ c) s.early s.rest s.read,
            ))
            s.more)
      ∙ cc (s.all)

-- Frames that meet IsFrame, encoded one behind the other, come out of a new decoder whole and in
-- order, and leave nothing in its buffer, in whatever chunks they are pushed, if their bytes fit
-- the buffer limit and the limit fits a usize.
pub push_all-encode_all :
    (limit : ℕ) (fs : List Frame) (cs : List (List ℕ))
    → All IsFrame fs
    → flatten cs ≡ encode_all fs
    → length (encode_all fs) ≤ limit
    → limit ≤ usize_max
    → push_all (with_buffer_limit limit) cs ≡ (with_buffer_limit limit, ok fs)
unfolding with_buffer_limit
push_all-encode_all limit fs cs v e room wide =
    push_all_reads limit wide [] cs fs [] (24, decode_prefix-nil) (omega (arith, ap length e))
      (subst (λ b. Parses b fs []) (sym e) (encode_all-Parses fs v))

-- The first call of a run that succeeds, and the run of the others.
record FirstPush (d d' : FrameDecoder) (c : List ℕ) (cs : List (List ℕ)) (fs : List Frame)
    : Type 0 where
  next : FrameDecoder
  early : List Frame
  late : List Frame
  pushed : push d c ≡ (next, ok early)
  run : push_all next cs ≡ (d', ok late)
  all : fs ≡ early ++ late

prepend-eq_ok :
    (early fs : List Frame) (d' : FrameDecoder)
    (x : FrameDecoder × Result ProtocolError (List Frame))
    → prepend early x ≡ (d', ok fs)
    → (late : List Frame) × (x ≡ (d', ok late)) × (fs ≡ early ++ late)
prepend-eq_ok early fs d' (d, ok gs) e = (gs, ground arith, ground arith)
prepend-eq_ok early fs d' (d, err x) e = absurd (ground arith)

push_all_first :
    (d d' : FrameDecoder) (c : List ℕ) (cs : List (List ℕ)) (fs : List Frame)
    (x : FrameDecoder × Result ProtocolError (List Frame))
    → push d c ≡ x
    → after_push (λ t. push_all t cs) x ≡ (d', ok fs)
    → FirstPush d d' c cs fs
push_all_first d d' c cs fs (next, ok early) p e =
    let (late, run, all) = prepend-eq_ok early fs d' (push_all next cs) e in
    record { next = next; early = early; late = late; pushed = p; run = run; all = all }
push_all_first d d' c cs fs (next, err y) p e = absurd (ground arith)

-- A run of pushes that succeeds has read the stream that its chunks make.
pub push_all-Parses :
    (d d' : FrameDecoder) (cs : List (List ℕ)) (fs : List Frame)
    → IsWaiting d
    → push_all d cs ≡ (d', ok fs)
    → Parses (d.buffer ++ flatten cs) fs d'.buffer
unfolding push_all flatten
push_all-Parses d d' [] fs w e =
    let idle : [] ≡ fs = ground arith in
    let same : d.buffer ≡ d'.buffer = ground arith in
    subst (λ b. Parses b fs d'.buffer) (sym (append-nil d.buffer))
      (subst (λ gs. Parses d.buffer gs d'.buffer) idle (sym same, w))
push_all-Parses d d' (c ∷ cs) fs w e =
    let f = push_all_first d d' c cs fs (push d c) refl e in
    let one = push-Parses d f.next c f.early f.pushed in
    let rest =
      push_all-Parses f.next d' cs f.late (Parses-rest (d.buffer ++ c) f.early f.next.buffer one)
        f.run in
    subst (λ b. Parses b fs d'.buffer) (append_assoc d.buffer c (flatten cs))
      (subst (λ gs. Parses ((d.buffer ++ c) ++ flatten cs) gs d'.buffer) (sym f.all)
        (Parses-append (d.buffer ++ c) (flatten cs) f.early f.late f.next.buffer d'.buffer one
          rest))

-- From a decoder that waits for bytes, two ways to cut one stream into chunks, whose pushes
-- succeed, return the same frames and keep the same bytes.
pub push_all_agree :
    (d a b : FrameDecoder) (cs ds : List (List ℕ)) (fs gs : List Frame)
    → IsWaiting d
    → flatten cs ≡ flatten ds
    → push_all d cs ≡ (a, ok fs)
    → push_all d ds ≡ (b, ok gs)
    → (fs ≡ gs) × (a.buffer ≡ b.buffer)
push_all_agree d a b cs ds fs gs w e p q =
    Parses-unique (d.buffer ++ flatten ds) fs gs a.buffer b.buffer
      (subst (λ t. Parses (d.buffer ++ t) fs a.buffer) e (push_all-Parses d a cs fs w p))
      (push_all-Parses d b ds gs w q)
