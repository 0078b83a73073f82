-- ===== src/Protocol/Decoder/Push.antt =====
-- One call of `push`.
use lado_flow.Base.{
  ℕ, ◌+◌, ◌≤◌, ◌<◌, ◌≡◌, refl, sym, arith, List, ◌++◌, length, drop, length-append, length-drop,
  Result, ok, err,
}
use mathlib.Core.Path.{subst}
use lado_flow.Protocol.Error.{ProtocolError}
use lado_flow.Protocol.Frame.{Frame, need_more_data, decode_prefix, usize_max}
use lado_flow.Protocol.Decoder.{FrameDecoder, Drained, drain_loop, push}
use lado_flow.Protocol.Decoder.Parses.{FailsAfter, Parses}
use lado_flow.Protocol.Decoder.Loop.{Reads, drain_loop_reads, drain_loop-Reads}

-- No complete frame is in the buffer.
abbrev pub IsWaiting : FrameDecoder → Type 0
IsWaiting d = (m : ℕ) × (decode_prefix d.buffer ≡ ok (need_more_data m))

push_values :
    (d d' : FrameDecoder) (chunk : List ℕ) (fs : List Frame) (t : Drained)
    → drain_loop (length (d.buffer ++ chunk)) (d.buffer ++ chunk) 0 ≡ ok t
    → push d chunk ≡ (d', ok fs)
    → (t.frames ≡ fs)
      × (drop t.consumed (d.buffer ++ chunk) ≡ d'.buffer)
      × (d'.buffer_limit ≡ d.buffer_limit)
unfolding push
push_values d d' chunk fs t e h = ground (arith, e, h)

push_read_by :
    (d d' : FrameDecoder) (chunk : List ℕ) (fs : List Frame) (r : Result ProtocolError Drained)
    → drain_loop (length (d.buffer ++ chunk)) (d.buffer ++ chunk) 0 ≡ r
    → Reads (d.buffer ++ chunk) 0 r
    → push d chunk ≡ (d', ok fs)
    → Parses (d.buffer ++ chunk) fs d'.buffer
push_read_by d d' chunk fs (ok t) e p h =
    let v = push_values d d' chunk fs t e h in
    subst (λ gs. Parses (d.buffer ++ chunk) gs d'.buffer) v.0
      (subst (Parses (d.buffer ++ chunk) t.frames) v.1 p)
push_read_by d d' chunk fs (err x) e p h = absurd (unfold push in ground (arith, e, h))

-- A push that succeeds returns what the old buffer and the chunk say together, and keeps the rest.
pub push-Parses :
    (d d' : FrameDecoder) (chunk : List ℕ) (fs : List Frame)
    → push d chunk ≡ (d', ok fs)
    → Parses (d.buffer ++ chunk) fs d'.buffer
push-Parses d d' chunk fs h =
    push_read_by d d' chunk fs (drain_loop (length (d.buffer ++ chunk)) (d.buffer ++ chunk) 0) refl
      (drain_loop-Reads (length (d.buffer ++ chunk)) (d.buffer ++ chunk) 0 (omega arith)) h

push_error :
    (d d' : FrameDecoder) (chunk : List ℕ) (x y : ProtocolError)
    → length (d.buffer ++ chunk) ≤ d.buffer_limit
    → d.buffer_limit ≤ usize_max
    → drain_loop (length (d.buffer ++ chunk)) (d.buffer ++ chunk) 0 ≡ err y
    → push d chunk ≡ (d', err x)
    → (x ≡ y) × (d' ≡ record d { buffer = d.buffer ++ chunk })
unfolding push
push_error d d' chunk x y room wide e h = ground (arith, e, h, length-append d.buffer chunk)

push_failed_by :
    (d d' : FrameDecoder) (chunk : List ℕ) (x : ProtocolError) (r : Result ProtocolError Drained)
    → length (d.buffer ++ chunk) ≤ d.buffer_limit
    → d.buffer_limit ≤ usize_max
    → drain_loop (length (d.buffer ++ chunk)) (d.buffer ++ chunk) 0 ≡ r
    → Reads (d.buffer ++ chunk) 0 r
    → push d chunk ≡ (d', err x)
    → ((fs : List Frame) × FailsAfter (d.buffer ++ chunk) fs x)
      × (d' ≡ record d { buffer = d.buffer ++ chunk })
push_failed_by d d' chunk x (ok t) room wide e p h =
    absurd (unfold push in ground (arith, e, h, length-append d.buffer chunk))
push_failed_by d d' chunk x (err y) room wide e p h =
    let v = push_error d d' chunk x y room wide e h in
    ((p.0, subst (FailsAfter (d.buffer ++ chunk) p.0) (sym v.0) p.1), v.1)

-- Within the buffer limit, and a limit within a usize, a push that returns an error has met a
-- header that is refused behind some complete frames, returns that header's error, and keeps the
-- chunk in its buffer.
pub push_failed :
    (d d' : FrameDecoder) (chunk : List ℕ) (x : ProtocolError)
    → length (d.buffer ++ chunk) ≤ d.buffer_limit
    → d.buffer_limit ≤ usize_max
    → push d chunk ≡ (d', err x)
    → ((fs : List Frame) × FailsAfter (d.buffer ++ chunk) fs x)
      × (d' ≡ record d { buffer = d.buffer ++ chunk })
push_failed d d' chunk x room wide h =
    push_failed_by d d' chunk x (drain_loop (length (d.buffer ++ chunk)) (d.buffer ++ chunk) 0) room
      wide refl (drain_loop-Reads (length (d.buffer ++ chunk)) (d.buffer ++ chunk) 0 (omega arith))
      h

-- Within the limit a push reads every stream that can be read.
pub push_reads :
    (d : FrameDecoder) (chunk : List ℕ) (fs : List Frame) (r : List ℕ)
    → length (d.buffer ++ chunk) ≤ d.buffer_limit
    → d.buffer_limit ≤ usize_max
    → Parses (d.buffer ++ chunk) fs r
    → push d chunk ≡ (record d { buffer = r }, ok fs)
unfolding push
push_reads d chunk fs r room wide p =
    let (n, e, left) =
      drain_loop_reads (length (d.buffer ++ chunk)) (d.buffer ++ chunk) 0 fs r (omega arith) p in
    ground (arith, e, left, length-append d.buffer chunk)

-- A buffer within its limit stays within it after any push, and a chunk that would pass the limit
-- changes nothing.
pub push_bounded :
    (d : FrameDecoder) (chunk : List ℕ)
    → length d.buffer ≤ d.buffer_limit
    → (length (push d chunk).0.buffer ≤ d.buffer_limit)
      × (d.buffer_limit < length d.buffer + length chunk → (push d chunk).0 ≡ d)
unfolding push
push_bounded d chunk h =
    by_loop (drain_loop (length (d.buffer ++ chunk)) (d.buffer ++ chunk) 0) refl
  where
    by_loop :
        (r : Result ProtocolError Drained)
        → drain_loop (length (d.buffer ++ chunk)) (d.buffer ++ chunk) 0 ≡ r
        → (length (push d chunk).0.buffer ≤ d.buffer_limit)
          × (d.buffer_limit < length d.buffer + length chunk → (push d chunk).0 ≡ d)
    by_loop (ok t) e = (
      ground (arith, e, length-append d.buffer chunk, length-drop t.consumed (d.buffer ++ chunk)),
      λ over. ground arith,
    )
    by_loop (err x) e = (ground (arith, e, length-append d.buffer chunk), λ over. ground arith)
