-- ===== src/Protocol/Frame/Stream.antt =====
-- `decode_prefix` on a stream that grows, and on one that ends inside a frame.
use lado_flow.Base.{
  ℕ, ◌+◌, ◌≤◌, ◌<◌, ◌≡◌, ◌⊎◌, inl, inr, refl, sym, ap, ◌∙◌, arith, List, [], ◌∷◌, ◌++◌, All, length,
  take, drop, length-append, length-take, length-drop, take-append-drop, drop-drop_add, All-take,
  take-append_le, drop-append_le, Result, Result-cases, ok, err,
}
use mathlib.Core.List.{append_assoc, append-nil}
use native.Mathlib.Decide.{dec_lt}
use lado_flow.Base.Bytes.{IsByte}
use lado_flow.Protocol.Error.{ProtocolError}
use lado_flow.Protocol.Frame.{
  FrameHeader, Frame, DecodeOutcome, complete, need_more_data, encoded_len, encode_frame,
  encode_header, decode_header, take_frame, decode_prefix,
}
use lado_flow.Protocol.Frame.Header.{
  decode_header-canonical, decode_header_bounded, length-encode_header,
}
use lado_flow.Protocol.Frame.Prefix.{
  IsFrame, IsRead, decode_prefix-IsRead, decode_prefix_header, decode_prefix-encode_frame,
}

-- A frame that is complete takes at least its header, and no more than there is.
pub consumed_bounds :
    (bytes : List ℕ) (f : Frame) (k : ℕ)
    → decode_prefix bytes ≡ ok (complete f k)
    → (24 ≤ k) × (k ≤ length bytes)
consumed_bounds bytes f k e =
    let r = decode_prefix-IsRead bytes f k e in omega (arith, r.total, r.enough)

take_frame-append :
    (bytes more : List ℕ) (f : Frame) (k : ℕ)
    → IsRead bytes f k
    → take_frame (bytes ++ more) f.header f.header.payload_len ≡ complete f k
unfolding take_frame
take_frame-append bytes more f k r = ground (
  arith,
  r.total,
  r.enough,
  r.payload,
  length-append bytes more,
  drop-append_le 24 bytes more r.long,
  length-drop 24 bytes,
  take-append_le f.header.payload_len (drop 24 bytes) more,
)

-- More bytes change no frame that was complete.
pub decode_prefix-append_complete :
    (bytes more : List ℕ) (f : Frame) (k : ℕ)
    → decode_prefix bytes ≡ ok (complete f k)
    → decode_prefix (bytes ++ more) ≡ ok (complete f k)
decode_prefix-append_complete bytes more f k e =
    let r = decode_prefix-IsRead bytes f k e in
    decode_prefix_header (bytes ++ more) f.header (omega (arith, r.long, length-append bytes more))
      (ap decode_header (take-append_le 24 bytes more r.long) ∙ r.header)
      (decode_header_bounded (take 24 bytes) f.header r.header)
    ∙ ap ok (take_frame-append bytes more f k r)

decode_prefix_err :
    (bytes : List ℕ) (x : ProtocolError)
    → decode_prefix bytes ≡ err x
    → (24 ≤ length bytes) × (decode_header (take 24 bytes) ≡ err x)
unfolding decode_prefix
decode_prefix_err bytes x e = elim (Result-cases (decode_header (take 24 bytes))) [
  | inl (h, p) ↦ ground (arith, decode_header_bounded (take 24 bytes) h p)
  | inr (y, p) ↦ ground arith
]

-- More bytes do not mend a bad header.
pub decode_prefix-append_err :
    (bytes more : List ℕ) (x : ProtocolError)
    → decode_prefix bytes ≡ err x
    → decode_prefix (bytes ++ more) ≡ err x
unfolding decode_prefix
decode_prefix-append_err bytes more x e =
    let p = decode_prefix_err bytes x e in
    ground (arith, p.0, p.1, length-append bytes more, take-append_le 24 bytes more p.0)

pub decode_prefix_more :
    (bytes : List ℕ) (m : ℕ)
    → decode_prefix bytes ≡ ok (need_more_data m)
    → (length bytes < m)
      × ((m ≡ 24)
          ⊎ ((24 ≤ length bytes)
              × ((h : FrameHeader) × (decode_header (take 24 bytes) ≡ ok h)
                  × (m ≡ 24 + h.payload_len))))
unfolding decode_prefix
decode_prefix_more bytes m e = elim (Result-cases (decode_header (take 24 bytes))) [
  | inl (h, p) ↦ elim (dec_lt (length bytes) 24) [
    | yes short ↦ ground arith
    | no long ↦ (
      ground (arith, decode_header_bounded (take 24 bytes) h p),
      inr (omega arith, (h, p, ground (arith, decode_header_bounded (take 24 bytes) h p))),
    )
  ]
  | inr (y, p) ↦ ground arith
]

-- Bytes that decode to a complete frame begin with the encoding of that frame, which meets IsFrame
-- and has the consumed length; the rest follows it.
pub decode_prefix-canonical :
    (bytes : List ℕ) (f : Frame) (k : ℕ)
    → All IsByte bytes
    → decode_prefix bytes ≡ ok (complete f k)
    → IsFrame f × (k ≡ encoded_len f) × (encode_frame f ++ drop k bytes ≡ bytes)
unfolding encode_frame encoded_len
decode_prefix-canonical bytes f k w e =
    let r = decode_prefix-IsRead bytes f k e in
    let n = f.header.payload_len in
    let head =
      decode_header-canonical (take 24 bytes) f.header (omega (arith, r.long, length-take 24 bytes))
        (All-take IsByte 24 bytes w) r.header in
    let size : length f.payload ≡ n =
      ap length r.payload
      ∙ length-take n (drop 24 bytes)
      ∙ omega (arith, length-drop 24 bytes, r.total, r.enough) in
    (
      record { header = head.0; declared = sym size },
      omega (arith, r.total, size),
      append_assoc (encode_header f.header) f.payload (drop k bytes)
          ∙ ap (λ t. t ++ (f.payload ++ drop k bytes)) head.1
          ∙ ap (λ t. take 24 bytes ++ (t ++ drop k bytes)) r.payload
          ∙ ap (λ t. take 24 bytes ++ (take n (drop 24 bytes) ++ t))
              (sym (drop-drop_add 24 n k bytes r.total))
          ∙ ap (λ t. take 24 bytes ++ t) (take-append-drop n (drop 24 bytes))
          ∙ take-append-drop 24 bytes,
    )

-- A proper front of the encoding of a frame that meets IsFrame asks for more bytes than it has, and
-- for no more than the frame.
pub decode_prefix_truncated :
    (f : Frame) (front back : List ℕ) (x : ℕ)
    → IsFrame f
    → encode_frame f ≡ front ++ (x ∷ back)
    → (m : ℕ) × (decode_prefix front ≡ ok (need_more_data m))
      × (length front < m)
      × (m ≤ encoded_len f)
decode_prefix_truncated f front back x v e = by_answer (decode_prefix front) refl
  where
    whole : decode_prefix (front ++ (x ∷ back)) ≡ ok (complete f (encoded_len f))
    whole =
        ap decode_prefix (sym (append-nil (front ++ (x ∷ back))) ∙ ap (λ t. t ++ []) (sym e))
        ∙ decode_prefix-encode_frame f [] v

    full : length front < encoded_len f
    full =
        unfold encode_frame encoded_len in
        omega (
          arith,
          ap length e,
          length-append front (x ∷ back),
          length-append (encode_header f.header) f.payload,
          length-encode_header f.header,
        )

    most : (m : ℕ) → decode_prefix front ≡ ok (need_more_data m) → m ≤ encoded_len f
    most m p = elim (decode_prefix_more front m p).1 [
      | inl e ↦ unfold encoded_len in omega arith
      | inr (long, (h, d, e)) ↦
          let r = decode_prefix-IsRead (front ++ (x ∷ back)) f (encoded_len f) whole in
          let same = ap decode_header (take-append_le 24 front (x ∷ back) long) in
          unfold encoded_len in ground (arith, r.header, same, d, e, v.declared)
    ]

    by_answer :
        (r : Result ProtocolError DecodeOutcome)
        → decode_prefix front ≡ r
        → (m : ℕ) × (decode_prefix front ≡ ok (need_more_data m))
          × (length front < m)
          × (m ≤ encoded_len f)
    by_answer (ok (need_more_data m)) p = (m, p, (decode_prefix_more front m p).0, most m p)
    by_answer (ok (complete g k)) p =
        let again = decode_prefix-append_complete front (x ∷ back) g k p in
        absurd (ground (arith, whole, again, full, consumed_bounds front g k p))
    by_answer (err y) p =
        absurd (ground (arith, whole, decode_prefix-append_err front (x ∷ back) y p))
