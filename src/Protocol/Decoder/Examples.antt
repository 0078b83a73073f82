-- ===== src/Protocol/Decoder/Examples.antt =====
-- The decoder at concrete chunks, and the theorems at such inputs.
use lado_flow.Base.{ℕ, ◌≡◌, ◌+◌, ◌≤◌, ◌<◌, refl, arith, List, [], ◌∷◌, ◌++◌, length, drop, ok, err}
use mathlib.Core.List.{flatten}
use lado_flow.Protocol.Error.{MessageType, buffer_limit_exceeded, invalid_magic}
use lado_flow.Protocol.Frame.{
  Frame, encode_frame, encode_header, decode_header, decode_prefix, flags_from_bits, kind_of_id,
}
use lado_flow.Protocol.Frame.Prefix.{IsFrame}
use lado_flow.Protocol.Decoder.{FrameDecoder, with_buffer_limit, drain_loop, push}
use lado_flow.Protocol.Decoder.Parses.{Parses, FailsAfter, encode_all, encode_all-Parses}
use lado_flow.Protocol.Decoder.Loop.{Reads, drain_loop-Reads, drain_loop_reads}
use lado_flow.Protocol.Decoder.Push.{IsWaiting, push-Parses, push_failed, push_reads, push_bounded}
use lado_flow.Protocol.Decoder.Chunks.{
  push_all, push_all_reads, push_all-encode_all, push_all-Parses, push_all_agree,
}

abbrev pong : Frame
pong = record {
  header = record {
    version = 1;
    kind = MessageType.pong;
    flags = 0;
    sequence = 7;
    payload_len = 2;
  };
  payload = 10 ∷ 20 ∷ [];
}

pong-IsFrame : IsFrame pong
pong-IsFrame = record {
  header = record {
    version = refl;
    flags = omega arith;
    sequence = omega arith;
    bounded = omega arith;
  };
  declared = refl;
}

abbrev pong_front : List ℕ
pong_front = 76 ∷ 68 ∷ 70 ∷ 76 ∷ 0 ∷ 1 ∷ 0 ∷ 24 ∷ 0 ∷ 8 ∷ []

abbrev pong_back : List ℕ
pong_back = 0 ∷ 0 ∷ 0 ∷ 0 ∷ 0 ∷ 0 ∷ 0 ∷ 0 ∷ 0 ∷ 7 ∷ 0 ∷ 0 ∷ 0 ∷ 2 ∷ 10 ∷ 20 ∷ []

abbrev pong_bytes : List ℕ
pong_bytes = pong_front ++ pong_back

-- Two frames, the first of which is cut.
abbrev chunks : List (List ℕ)
chunks = pong_front ∷ (pong_back ++ pong_bytes) ∷ []

abbrev small : FrameDecoder
small = with_buffer_limit 100

abbrev half : FrameDecoder
half = record { buffer = pong_front; buffer_limit = 100 }

two_pushes : push_all small chunks ≡ (small, ok (pong ∷ pong ∷ []))
unfolding push_all push with_buffer_limit drain_loop decode_prefix decode_header flags_from_bits
    kind_of_id
two_pushes = refl

abbrev one_chunk : List (List ℕ)
one_chunk = (pong_bytes ++ pong_bytes) ∷ []

one_push : push_all small one_chunk ≡ (small, ok (pong ∷ pong ∷ []))
unfolding push_all push with_buffer_limit drain_loop decode_prefix decode_header flags_from_bits
    kind_of_id
one_push = refl

first_push : push small pong_front ≡ (half, ok [])
unfolding push with_buffer_limit drain_loop decode_prefix
first_push = refl

over_limit :
    push half (pong_bytes ++ pong_bytes ++ pong_bytes ++ pong_bytes)
    ≡ (half, err (buffer_limit_exceeded 114 100))
unfolding push
over_limit = refl

chunks_whole : pong_front ++ ((pong_back ++ pong_bytes) ++ []) ≡ encode_all (pong ∷ pong ∷ [])
unfolding encode_frame encode_header
chunks_whole = refl

small-IsWaiting : IsWaiting small
unfolding with_buffer_limit decode_prefix
small-IsWaiting = (24, refl)

pong_reads : Parses pong_bytes (pong ∷ []) []
unfolding encode_frame encode_header
pong_reads = encode_all-Parses (pong ∷ []) (pong-IsFrame, tt)

drain_loop-Reads_example : Reads pong_front 0 (drain_loop 10 pong_front 0)
drain_loop-Reads_example = drain_loop-Reads 10 pong_front 0 (omega arith)

drain_loop_reads_example :
    (n : ℕ) × (drain_loop 26 pong_bytes 0 ≡ ok (record { frames = pong ∷ []; consumed = n }))
    × (drop n pong_bytes ≡ [])
drain_loop_reads_example = drain_loop_reads 26 pong_bytes 0 (pong ∷ []) [] (omega arith) pong_reads

push-Parses_example : Parses ([] ++ pong_front) [] pong_front
unfolding with_buffer_limit
push-Parses_example = push-Parses small half pong_front [] first_push

-- A whole frame, and then bytes that begin no frame.
bad_push : push half (pong_back ++ (88 ∷ pong_bytes)) ≡ (
  record half { buffer = pong_front ++ (pong_back ++ (88 ∷ pong_bytes)) },
  err (invalid_magic (88 ∷ 76 ∷ 68 ∷ 70 ∷ [])),
)
unfolding push drain_loop decode_prefix decode_header flags_from_bits kind_of_id
bad_push = refl

push_failed_example :
    ((fs : List Frame) × FailsAfter
        (pong_front ++ (pong_back ++ (88 ∷ pong_bytes)))
        fs
        (invalid_magic (88 ∷ 76 ∷ 68 ∷ 70 ∷ [])))
    × (record half { buffer = pong_front ++ (pong_back ++ (88 ∷ pong_bytes)) }
        ≡ record half { buffer = pong_front ++ (pong_back ++ (88 ∷ pong_bytes)) })
push_failed_example =
    push_failed half _ (pong_back ++ (88 ∷ pong_bytes)) _ (omega arith) (omega arith) bad_push

push_reads_example : push half pong_back ≡ (record half { buffer = [] }, ok (pong ∷ []))
push_reads_example = push_reads half pong_back (pong ∷ []) [] (omega arith) (omega arith) pong_reads

push_bounded_example :
    (length (push half pong_back).0.buffer ≤ 100)
    × (100 < length pong_front + length pong_back → (push half pong_back).0 ≡ half)
push_bounded_example = push_bounded half pong_back (omega arith)

push_all_reads_example :
    push_all half (pong_back ∷ []) ≡ (record { buffer = []; buffer_limit = 100 }, ok (pong ∷ []))
unfolding flatten
push_all_reads_example =
    push_all_reads 100 (omega arith) pong_front (pong_back ∷ []) (pong ∷ []) []
      (24, unfold decode_prefix in refl) (omega arith) pong_reads

push_all-encode_all_example : push_all small chunks ≡ (small, ok (pong ∷ pong ∷ []))
unfolding flatten
push_all-encode_all_example =
    push_all-encode_all 100 (pong ∷ pong ∷ []) chunks (pong-IsFrame, (pong-IsFrame, tt))
      chunks_whole (unfold encode_frame encode_header in omega arith) (omega arith)

push_all-Parses_example :
    Parses ([] ++ (pong_front ++ ((pong_back ++ pong_bytes) ++ []))) (pong ∷ pong ∷ []) []
unfolding with_buffer_limit flatten
push_all-Parses_example =
    push_all-Parses small small chunks (pong ∷ pong ∷ []) small-IsWaiting two_pushes

push_all_agree_example : (pong ∷ pong ∷ [] ≡ pong ∷ pong ∷ []) × (small.buffer ≡ small.buffer)
unfolding flatten
push_all_agree_example =
    push_all_agree small small small chunks one_chunk (pong ∷ pong ∷ []) (pong ∷ pong ∷ [])
      small-IsWaiting refl two_pushes one_push
