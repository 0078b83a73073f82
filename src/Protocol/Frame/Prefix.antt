-- ===== src/Protocol/Frame/Prefix.antt =====
-- Whole frames at the front of a byte stream.
use lado_flow.Base.{
  ℕ, ◌+◌, ◌^◌, ◌≤◌, ◌<◌, ◌≡◌, refl, ap, ◌∙◌, arith, List, ◌++◌, length, take, drop, length-append,
  take-append, drop-append, IsOk, ◌↔◌, ok, err,
}
use mathlib.Core.List.{append_assoc}
use native.Mathlib.Decide.{dec_lt}
use lado_flow.Protocol.Error.{MessageType, ProtocolError}
use lado_flow.Protocol.Frame.{
  FrameHeader, Frame, complete, payload_limit, new_frame, encoded_len, encode_frame, encode_header,
  decode_header, take_frame, decode_prefix,
}
use lado_flow.Protocol.Frame.Header.{
  IsHeader, length-encode_header, decode_header-encode_header, payload_limit-lt,
}

pub record IsFrame (f : Frame) : Type 0 where
  pub header : IsHeader f.header
  pub declared : f.header.payload_len ≡ length f.payload

pub new_frame_within :
    (kind : MessageType) (flags sequence : ℕ) (payload : List ℕ)
    → flags < 8
    → sequence < 2 ^ 64
    → length payload ≤ payload_limit kind
    → (f : Frame) × (new_frame kind flags sequence payload ≡ ok f)
      × IsFrame f
      × (f.header.kind ≡ kind)
      × (f.payload ≡ payload)
unfolding new_frame
new_frame_within kind flags sequence payload hf hs within = (
  record {
    header = record {
      version = 1;
      kind = kind;
      flags = flags;
      sequence = sequence;
      payload_len = length payload;
    };
    payload = payload;
  },
  ground (arith, payload_limit-lt kind),
  record {
    header = record { version = refl; flags = hf; sequence = hs; bounded = within };
    declared = refl;
  },
  refl,
  refl,
)

new_frame_over :
    (kind : MessageType) (flags sequence : ℕ) (payload : List ℕ)
    → payload_limit kind < length payload
    → new_frame kind flags sequence payload
      ≡ err (ProtocolError.payload_too_large kind (length payload) (payload_limit kind))
unfolding new_frame
new_frame_over kind flags sequence payload over = ground arith

-- With known flags and a u64 sequence number a frame is made exactly when its payload is within its
-- kind's limit.
pub new_frame_iff :
    (kind : MessageType) (flags sequence : ℕ) (payload : List ℕ)
    → flags < 8
    → sequence < 2 ^ 64
    → IsOk (new_frame kind flags sequence payload) ↔ (length payload ≤ payload_limit kind)
new_frame_iff kind flags sequence payload hf hs = (
  λ made. elim (dec_lt (payload_limit kind) (length payload)) [
    | yes over ↦ absurd (ground (arith, made.1, new_frame_over kind flags sequence payload over))
    | no within ↦ omega arith
  ],
  λ within.
      let (f, made, _, _, _) = new_frame_within kind flags sequence payload hf hs within in
      (f, made),
)

take_frame_whole :
    (h : FrameHeader) (front payload rest : List ℕ)
    → length front ≡ 24
    → take_frame (front ++ (payload ++ rest)) h (length payload)
      ≡ complete (record { header = h; payload = payload }) (24 + length payload)
unfolding take_frame
take_frame_whole h front payload rest n = ground (
  arith,
  length-append front (payload ++ rest),
  length-append payload rest,
  drop-append 24 front (payload ++ rest) n,
  take-append (length payload) payload rest refl,
)

pub decode_prefix_header :
    (bytes : List ℕ) (h : FrameHeader)
    → 24 ≤ length bytes
    → decode_header (take 24 bytes) ≡ ok h
    → h.payload_len < 2 ^ 32
    → decode_prefix bytes ≡ ok (take_frame bytes h h.payload_len)
unfolding decode_prefix
decode_prefix_header bytes h long e fits = ground arith

-- A frame is read back from the front of any stream that begins with its encoding.
pub decode_prefix-encode_frame :
    (f : Frame) (rest : List ℕ)
    → IsFrame f
    → decode_prefix (encode_frame f ++ rest) ≡ ok (complete f (encoded_len f))
unfolding encode_frame encoded_len
decode_prefix-encode_frame f rest v =
    let front = length-encode_header f.header in
    ap decode_prefix (append_assoc (encode_header f.header) f.payload rest)
    ∙ decode_prefix_header (encode_header f.header ++ (f.payload ++ rest)) f.header
        (omega (arith, length-append (encode_header f.header) (f.payload ++ rest), front))
        (ap decode_header (take-append 24 (encode_header f.header) (f.payload ++ rest) front)
          ∙ decode_header-encode_header f.header v.header)
        (omega (arith, v.header.bounded, payload_limit-lt f.header.kind))
    ∙ ap (λ n. ok (take_frame (encode_header f.header ++ (f.payload ++ rest)) f.header n))
        v.declared
    ∙ ap ok (take_frame_whole f.header (encode_header f.header) f.payload rest front)

-- What a complete answer says of the bytes it was read from.
pub record IsRead (bytes : List ℕ) (f : Frame) (consumed : ℕ) : Type 0 where
  pub long : 24 ≤ length bytes
  pub header : decode_header (take 24 bytes) ≡ ok f.header
  pub total : consumed ≡ 24 + f.header.payload_len
  pub enough : consumed ≤ length bytes
  pub payload : f.payload ≡ take f.header.payload_len (drop 24 bytes)

pub decode_prefix-IsRead :
    (bytes : List ℕ) (f : Frame) (consumed : ℕ)
    → decode_prefix bytes ≡ ok (complete f consumed)
    → IsRead bytes f consumed
unfolding decode_prefix
decode_prefix-IsRead bytes f consumed e = ground arith

pub length-encode_frame : (f : Frame) → length (encode_frame f) ≡ encoded_len f
unfolding encode_frame encoded_len
length-encode_frame f = omega (arith, length-append _ f.payload, length-encode_header f.header)
