-- ===== src/Protocol/Frame/Examples.antt =====
-- Frames on the wire at concrete inputs, and the theorems at such inputs.
use lado_flow.Base.{
  ℕ, ◌≡◌, ◌+◌, ◌≤◌, ◌<◌, ◌^◌, ◌↔◌, refl, arith, List, [], ◌∷◌, ◌++◌, length, ok, err, All,
}
use lado_flow.Base.Bytes.{IsByte}
use lado_flow.Protocol.Error.{MessageType, invalid_magic}
use lado_flow.Protocol.Frame.{
  FrameHeader, Frame, complete, need_more_data, encode_frame, encoded_len, encode_header,
  decode_header, decode_prefix, flags_from_bits, kind_of_id,
}
use lado_flow.Protocol.Frame.Header.{
  IsHeader, flags_from_bits_iff, decode_header-encode_header, decode_header-canonical,
  encode_header-IsByte,
}
use lado_flow.Protocol.Frame.Prefix.{IsFrame, decode_prefix-encode_frame}
use lado_flow.Protocol.Frame.Stream.{
  consumed_bounds, decode_prefix-append_complete, decode_prefix-append_err, decode_prefix-canonical,
  decode_prefix_truncated,
}

abbrev ping_header : FrameHeader
ping_header = record {
  version = 1;
  kind = MessageType.ping;
  flags = 4;
  sequence = 2 ^ 40 + 7;
  payload_len = 3;
}

abbrev ping_frame : Frame
ping_frame = record { header = ping_header; payload = 10 ∷ 20 ∷ 30 ∷ [] }

abbrev ping_bytes : List ℕ
ping_bytes =
    76 ∷ 68 ∷ 70 ∷ 76 ∷ 0 ∷ 1 ∷ 0 ∷ 24 ∷ 0 ∷ 7 ∷ 0 ∷ 4 ∷ 0 ∷ 0 ∷ 1 ∷ 0 ∷ 0 ∷ 0 ∷ 0 ∷ 7 ∷ 0 ∷ 0 ∷ 0
    ∷ 3 ∷ 10 ∷ 20 ∷ 30 ∷ []

ping_wire : encode_frame ping_frame ≡ ping_bytes
unfolding encode_frame encode_header
ping_wire = refl

ping_read : decode_prefix ping_bytes ≡ ok (complete ping_frame 27)
unfolding decode_prefix decode_header flags_from_bits kind_of_id
ping_read = refl

bad_magic : decode_prefix (88 ∷ ping_bytes) ≡ err (invalid_magic (88 ∷ 76 ∷ 68 ∷ 70 ∷ []))
unfolding decode_prefix decode_header
bad_magic = refl

ping-IsHeader : IsHeader ping_header
ping-IsHeader = record {
  version = refl;
  flags = omega arith;
  sequence = omega arith;
  bounded = omega arith;
}

ping-IsFrame : IsFrame ping_frame
ping-IsFrame = record { header = ping-IsHeader; declared = refl }

ping-IsByte : All IsByte ping_bytes
ping-IsByte = omega arith

flags_from_bits_iff_example : (flags_from_bits 9 ≡ ok 9) ↔ (9 < 8)
flags_from_bits_iff_example = flags_from_bits_iff 9 (omega arith)

decode_header-encode_header_example : decode_header (encode_header ping_header) ≡ ok ping_header
decode_header-encode_header_example = decode_header-encode_header ping_header ping-IsHeader

decode_header-canonical_example :
    IsHeader ping_header × (encode_header ping_header ≡ encode_header ping_header)
decode_header-canonical_example =
    decode_header-canonical (encode_header ping_header) ping_header (unfold encode_header in refl)
      (encode_header-IsByte ping_header) (decode_header-encode_header ping_header ping-IsHeader)

decode_prefix-encode_frame_example :
    decode_prefix (encode_frame ping_frame ++ (76 ∷ []))
    ≡ ok (complete ping_frame (encoded_len ping_frame))
decode_prefix-encode_frame_example = decode_prefix-encode_frame ping_frame (76 ∷ []) ping-IsFrame

consumed_bounds_example : (24 ≤ 27) × (27 ≤ length ping_bytes)
consumed_bounds_example = consumed_bounds ping_bytes ping_frame 27 ping_read

decode_prefix-append_complete_example :
    decode_prefix (ping_bytes ++ (1 ∷ [])) ≡ ok (complete ping_frame 27)
decode_prefix-append_complete_example =
    decode_prefix-append_complete ping_bytes (1 ∷ []) ping_frame 27 ping_read

decode_prefix-append_err_example :
    decode_prefix ((88 ∷ ping_bytes) ++ (1 ∷ [])) ≡ err (invalid_magic (88 ∷ 76 ∷ 68 ∷ 70 ∷ []))
decode_prefix-append_err_example = decode_prefix-append_err (88 ∷ ping_bytes) (1 ∷ []) _ bad_magic

decode_prefix-canonical_example :
    IsFrame ping_frame
    × (27 ≡ encoded_len ping_frame)
    × (encode_frame ping_frame ++ [] ≡ ping_bytes)
decode_prefix-canonical_example =
    decode_prefix-canonical ping_bytes ping_frame 27 ping-IsByte ping_read

decode_prefix_truncated_example :
    (m : ℕ) × (decode_prefix (76 ∷ 68 ∷ []) ≡ ok (need_more_data m))
    × (length {A = ℕ} (76 ∷ 68 ∷ []) < m)
    × (m ≤ encoded_len ping_frame)
decode_prefix_truncated_example =
    decode_prefix_truncated ping_frame (76 ∷ 68 ∷ []) _ 70 ping-IsFrame ping_wire
