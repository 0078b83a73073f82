-- ===== src/Protocol/Display/Video.antt =====
-- Video frame payloads on the wire.
use lado_flow.Base.{
  ℕ, ◌+◌, ◌*◌, ◌^◌, ◌≤◌, ◌<◌, ◌≡◌, refl, sym, ap, ◌∙◌, arith, List, ◌++◌, All, length, take, drop,
  listing_lem, append_both, length-take, length-drop, length-append, take-append, drop-append,
  take-append-drop, All-take, Result-cases, inl, inr, ok, err, ◌↔◌, read_back,
}
use lado_flow.Base.Bytes.{
  IsByte, be32, be64, read_u32, read_u64, word32-be, word64-be, read_u32-lt, read_u64-lt,
  be32-read_u32, be64-read_u64,
}
use lado_flow.Protocol.Error.{ProtocolError}
use lado_flow.Protocol.Display.{
  VideoFrame, VideoFrameMetadata, metadata_bytes, decode_video_metadata, new_video_frame,
  encode_video_frame, decode_video_frame,
}

-- Metadata that the constructor builds from machine words.
pub record IsVideoMetadata (m : VideoFrameMetadata) : Type 0 where
  pub frame_id : m.frame_id < 2 ^ 64
  pub capture : m.capture_timestamp_micros < 2 ^ 64
  pub presentation : m.presentation_timestamp_micros < 2 ^ 64
  pub duration : (0 < m.duration_micros) × (m.duration_micros < 2 ^ 32)

-- A video frame with some bytes that fit a frame of the protocol beside the metadata.
pub record IsVideoFrame (f : VideoFrame) : Type 0 where
  pub metadata : IsVideoMetadata f.metadata
  pub size : (0 < length f.encoded_bytes) × (length f.encoded_bytes + 28 ≤ 16 * 1024 * 1024)

decode_video_metadata_lem :
    (b : List ℕ) (m : VideoFrameMetadata)
    → IsVideoMetadata m
    → read_u64 b 0 ≡ m.frame_id
    → read_u64 b 8 ≡ m.capture_timestamp_micros
    → read_u64 b 16 ≡ m.presentation_timestamp_micros
    → read_u32 b 24 ≡ m.duration_micros
    → decode_video_metadata b ≡ ok m
unfolding decode_video_metadata
decode_video_metadata_lem b m v x y z d = ground arith

metadata_read_back :
    (m : VideoFrameMetadata) → IsVideoMetadata m → decode_video_metadata (metadata_bytes m) ≡ ok m
metadata_read_back m v =
    decode_video_metadata_lem (metadata_bytes m) m v (word64-be m.frame_id v.frame_id)
      (word64-be m.capture_timestamp_micros v.capture)
      (word64-be m.presentation_timestamp_micros v.presentation)
      (word32-be m.duration_micros v.duration.1)

metadata_fields :
    (b : List ℕ) (m : VideoFrameMetadata)
    → decode_video_metadata b ≡ ok m
    → (0 < m.duration_micros)
      × (m.frame_id ≡ read_u64 b 0)
      × (m.capture_timestamp_micros ≡ read_u64 b 8)
      × (m.presentation_timestamp_micros ≡ read_u64 b 16)
      × (m.duration_micros ≡ read_u32 b 24)
unfolding decode_video_metadata
metadata_fields b m e = ground arith

metadata_canonical :
    (b : List ℕ) (m : VideoFrameMetadata)
    → length b ≡ 28
    → All IsByte b
    → decode_video_metadata b ≡ ok m
    → IsVideoMetadata m × (metadata_bytes m ≡ b)
metadata_canonical b m n w e =
    let (positive, frame_id, capture, presentation, duration) = metadata_fields b m e in
    (
      record {
        frame_id = omega (arith, frame_id, read_u64-lt b w 0);
        capture = omega (arith, capture, read_u64-lt b w 8);
        presentation = omega (arith, presentation, read_u64-lt b w 16);
        duration = (positive, omega (arith, duration, read_u32-lt b w 24));
      },
      append_both (ap be64 frame_id ∙ be64-read_u64 b w 0) (
            append_both (ap be64 capture ∙ be64-read_u64 b w 8) (
              append_both (ap be64 presentation ∙ be64-read_u64 b w 16)
                (ap be32 duration ∙ be32-read_u32 b w 24)))
          ∙ sym (listing_lem 28 b 0 n),
    )

encode_video_valid :
    (f : VideoFrame)
    → IsVideoFrame f
    → encode_video_frame f ≡ ok (metadata_bytes f.metadata ++ f.encoded_bytes)
unfolding encode_video_frame
encode_video_valid f v = ground (arith, v.size)

new_video_valid :
    (f : VideoFrame) → IsVideoFrame f → new_video_frame f.metadata f.encoded_bytes ≡ ok f
unfolding new_video_frame
new_video_valid f v = ground (arith, v.size)

decode_video_lem :
    (p : List ℕ) (m : VideoFrameMetadata)
    → 28 < length p
    → length p ≤ 16 * 1024 * 1024
    → decode_video_metadata (take 28 p) ≡ ok m
    → decode_video_frame p ≡ new_video_frame m (drop 28 p)
unfolding decode_video_frame
decode_video_lem p m long fits e = ground (arith, e)

length-metadata_bytes : (m : VideoFrameMetadata) → length (metadata_bytes m) ≡ 28
length-metadata_bytes m = refl

pub decode_video_frame-encode_video_frame :
    (f : VideoFrame)
    → IsVideoFrame f
    → (p : List ℕ) × (encode_video_frame f ≡ ok p) × (decode_video_frame p ≡ ok f)
decode_video_frame-encode_video_frame f v =
    let front = metadata_bytes f.metadata in
    let size = length-append front f.encoded_bytes in
    (
      front ++ f.encoded_bytes,
      encode_video_valid f v,
      decode_video_lem (front ++ f.encoded_bytes) f.metadata
            (omega (arith, size, v.size, length-metadata_bytes f.metadata))
            (omega (arith, size, v.size, length-metadata_bytes f.metadata))
            (ap decode_video_metadata (take-append 28 front f.encoded_bytes refl)
              ∙ metadata_read_back f.metadata v.metadata)
          ∙ ap (new_video_frame f.metadata) (drop-append 28 front f.encoded_bytes refl)
          ∙ new_video_valid f v,
    )

-- What was read before the constructor was called.
record Decoded (p : List ℕ) (f : VideoFrame) : Type 0 where
  size : (28 < length p) × (length p ≤ 16 * 1024 * 1024)
  metadata : decode_video_metadata (take 28 p) ≡ ok f.metadata
  encoded_bytes : f.encoded_bytes ≡ drop 28 p

decode_video_size :
    (p : List ℕ) (f : VideoFrame)
    → decode_video_frame p ≡ ok f
    → (28 < length p) × (length p ≤ 16 * 1024 * 1024)
unfolding decode_video_frame
decode_video_size p f e = ground arith

decode_video_refused :
    (p : List ℕ) (f : VideoFrame) (x : ProtocolError)
    → decode_video_metadata (take 28 p) ≡ err x
    → ¬ (decode_video_frame p ≡ ok f)
unfolding decode_video_frame
decode_video_refused p f x q e = ground (arith, q)

new_video_frame-eq :
    (m : VideoFrameMetadata) (b : List ℕ) (f : VideoFrame)
    → new_video_frame m b ≡ ok f
    → (f.metadata ≡ m) × (f.encoded_bytes ≡ b)
unfolding new_video_frame
new_video_frame-eq m b f e = ground arith

decode_video-Decoded : (p : List ℕ) (f : VideoFrame) → decode_video_frame p ≡ ok f → Decoded p f
decode_video-Decoded p f e = elim (Result-cases (decode_video_metadata (take 28 p))) [
  | inr (x, q) ↦ absurd (decode_video_refused p f x q e)
  | inl (m, q) ↦
      let size = decode_video_size p f e in
      let built =
        new_video_frame-eq m (drop 28 p) f (sym (decode_video_lem p m size.0 size.1 q) ∙ e) in
      record { size = size; metadata = q ∙ ap ok (sym built.0); encoded_bytes = built.1 }
]

-- What decodes is the encoding of what it decodes to.
pub decode_video_frame_canonical :
    (p : List ℕ) (f : VideoFrame)
    → All IsByte p
    → decode_video_frame p ≡ ok f
    → IsVideoFrame f × (encode_video_frame f ≡ ok p)
decode_video_frame_canonical p f w e =
    let d = decode_video-Decoded p f e in
    let front =
      metadata_canonical (take 28 p) f.metadata (omega (arith, length-take 28 p, d.size))
        (All-take IsByte 28 p w) d.metadata in
    let size = ap length d.encoded_bytes ∙ length-drop 28 p in
    let v : IsVideoFrame f = record {
      metadata = front.0;
      size = (omega (arith, size, d.size), omega (arith, size, d.size));
    } in
    (
      v,
      encode_video_valid f v
          ∙ ap ok (
              ap (λ t. t ++ f.encoded_bytes) front.1
              ∙ ap (◌++◌ (take 28 p)) d.encoded_bytes
              ∙ take-append-drop 28 p),
    )

-- Bytes decode to a video frame exactly when it meets IsVideoFrame and they are its encoding.
pub decode_video_frame_iff :
    (p : List ℕ) (f : VideoFrame)
    → All IsByte p
    → (decode_video_frame p ≡ ok f) ↔ (IsVideoFrame f × (encode_video_frame f ≡ ok p))
decode_video_frame_iff p f w = (
  decode_video_frame_canonical p f w,
  λ (v, e).
      read_back encode_video_frame decode_video_frame f p e
        (decode_video_frame-encode_video_frame f v),
)
