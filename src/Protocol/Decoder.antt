-- ===== src/Protocol/Decoder.antt =====
-- crates/ladoflow-protocol/src/frame.rs, second part: the incremental decoder.
pub mod Parses
pub mod Loop
pub mod Push
pub mod Chunks
mod Examples
use lado_flow.Base.{
  ℕ, zero, suc, ◌+◌, ◌==◌, List, [], ◌∷◌, ◌++◌, ltb, if◌then◌else◌, length, drop, Result, ok, err,
}
use lado_flow.Protocol.Error.{ProtocolError, buffer_limit_exceeded}
use lado_flow.Protocol.Frame.{
  Frame, DecodeOutcome, complete, need_more_data, decode_prefix, max_buffered_bytes, usize_max,
}

pub record FrameDecoder : Type 0 where
  pub buffer : List ℕ
  pub buffer_limit : ℕ

unfoldable pub with_buffer_limit : ℕ → FrameDecoder
with_buffer_limit buffer_limit = record { buffer = []; buffer_limit = buffer_limit }

unfoldable pub new_decoder : FrameDecoder
unfolding with_buffer_limit
new_decoder = with_buffer_limit max_buffered_bytes

-- The frames in order, and `consumed_total`.
pub record Drained : Type 0 where
  pub frames : List Frame
  pub consumed : ℕ

-- One frame in front of those that the rest of the loop finds.
abbrev pub after_frame : Frame → Result ProtocolError Drained → Result ProtocolError Drained
after_frame frame (ok d) = ok (record d { frames = frame ∷ d.frames })
after_frame frame (err e) = err e

-- The `while let` loop. The fuel bounds its rounds, and `push` gives the length of the buffer:
-- each round consumes a header at least.
pub drain_loop : ℕ → List ℕ → ℕ → Result ProtocolError Drained
drain_loop zero buffer consumed_total = ok (record { frames = []; consumed = consumed_total })
drain_loop (suc fuel) buffer consumed_total = elim (decode_prefix (drop consumed_total buffer)) [
  | ok (complete frame consumed) ↦
      after_frame frame (drain_loop fuel buffer (consumed_total + consumed))
  | ok (need_more_data minimum) ↦ ok (record { frames = []; consumed = consumed_total })
  | err e ↦ err e
]

-- `self.buffer.drain(..consumed_total)`. An error leaves the extended buffer behind.
settle :
    FrameDecoder → Result ProtocolError Drained → FrameDecoder × Result ProtocolError (List Frame)
settle d (ok r) = (record d { buffer = drop r.consumed d.buffer }, ok r.frames)
settle d (err e) = (d, err e)

unfoldable pub push : FrameDecoder → List ℕ → FrameDecoder × Result ProtocolError (List Frame)
unfolding settle
push d chunk =
    let attempted = length d.buffer + length chunk in
    let extended = record d { buffer = d.buffer ++ chunk } in
    if ltb usize_max attempted
    then (d, err (buffer_limit_exceeded usize_max d.buffer_limit))
    else if ltb d.buffer_limit attempted
    then (d, err (buffer_limit_exceeded attempted d.buffer_limit))
    else settle extended (drain_loop (length (d.buffer ++ chunk)) (d.buffer ++ chunk) 0)

unfoldable pub clear : FrameDecoder → FrameDecoder
clear d = record d { buffer = [] }
