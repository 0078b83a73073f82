-- ===== src/Protocol/Telemetry/Wire.antt =====
-- Telemetry on the wire.
use lado_flow.Base.{
  ℕ, ◌^◌, ◌≤◌, ◌<◌, ◌≡◌, ◌↔◌, refl, sym, ap, ◌∙◌, arith, List, [], ◌∷◌, All, length, listing_lem,
  append_both, Result-cases, inl, inr, ok, err, read_back,
}
use lado_flow.Base.Bytes.{
  IsByte, read_u8, word16-be, word32-be, word64-be, read_u32-lt, read_u64-lt, be16-read_u16,
  be32-read_u32, be64-read_u64,
}
use mathlib.Core.Path.{subst}
use lado_flow.Protocol.Error.{ProtocolError}
use lado_flow.Protocol.Telemetry.{
  Telemetry, StageTimings, ThermalState, unknown, thermal_id, thermal_of_id, new_timings,
  new_telemetry, telemetry_bytes, timings_at, telemetry_at, encode_telemetry, decode_telemetry,
}

-- Timings and telemetry that the constructors build from machine words.
pub record IsTimings (t : StageTimings) : Type 0 where
  pub capture : t.capture ≤ 60_000_000
  pub encode : t.encode ≤ 60_000_000
  pub transport : t.transport ≤ 60_000_000
  pub decode : t.decode ≤ 60_000_000
  pub presentation : t.presentation ≤ 60_000_000

pub record IsTelemetry (t : Telemetry) : Type 0 where
  pub sample_timestamp : t.sample_timestamp_micros < 2 ^ 64
  pub frame_id : t.frame_id < 2 ^ 64
  pub timings : IsTimings t.timings
  pub queue_depth : t.queue_depth ≤ 4_096
  pub loss : t.loss_parts_per_million ≤ 1_000_000
  pub dropped_frames : t.dropped_frames < 2 ^ 32
  pub late_frames : t.late_frames < 2 ^ 32

thermal_of_id-thermal_id : (s : ThermalState) → thermal_of_id (thermal_id s) ≡ ok s
unfolding thermal_of_id
thermal_of_id-thermal_id unknown = refl
thermal_of_id-thermal_id _ = refl

thermal_id-thermal_of_id : (v : ℕ) (s : ThermalState) → thermal_of_id v ≡ ok s → thermal_id s ≡ v
unfolding thermal_of_id
thermal_id-thermal_of_id v s e = ground arith

new_timings_valid : (t : StageTimings) → IsTimings t → new_timings t ≡ ok t
unfolding new_timings
new_timings_valid t v = ground (arith, v.capture, v.encode, v.transport, v.decode, v.presentation)

new_telemetry_valid : (t : Telemetry) → IsTelemetry t → new_telemetry t ≡ ok t
unfolding new_telemetry
new_telemetry_valid t v =
    let s = v.timings in
    ground
      (arith, s.capture, s.encode, s.transport, s.decode, s.presentation, v.queue_depth, v.loss)

encode_telemetry_valid :
    (t : Telemetry) → IsTelemetry t → encode_telemetry t ≡ ok (telemetry_bytes t)
unfolding encode_telemetry
encode_telemetry_valid t v = rw (new_telemetry_valid t v) refl

decode_telemetry_lem :
    (b : List ℕ) (t : StageTimings) (s : ThermalState)
    → length b ≡ 51
    → new_timings (timings_at b) ≡ ok t
    → thermal_of_id (read_u8 b 50) ≡ ok s
    → decode_telemetry b ≡ new_telemetry (telemetry_at b t s)
unfolding decode_telemetry
decode_telemetry_lem b t s n p q = ground (arith, n, p, q)

timings_read_back : (t : Telemetry) → IsTelemetry t → timings_at (telemetry_bytes t) ≡ t.timings
timings_read_back t v =
    let s = v.timings in
    cc (
      word32-be t.timings.capture (omega (arith, s.capture)),
      word32-be t.timings.encode (omega (arith, s.encode)),
      word32-be t.timings.transport (omega (arith, s.transport)),
      word32-be t.timings.decode (omega (arith, s.decode)),
      word32-be t.timings.presentation (omega (arith, s.presentation)),
    )

telemetry_read_back :
    (t : Telemetry) → IsTelemetry t → telemetry_at (telemetry_bytes t) t.timings t.thermal_state ≡ t
telemetry_read_back t v = cc (
  word64-be t.sample_timestamp_micros v.sample_timestamp,
  word64-be t.frame_id v.frame_id,
  word16-be t.queue_depth (omega (arith, v.queue_depth)),
  word32-be t.loss_parts_per_million (omega (arith, v.loss)),
  word32-be t.dropped_frames v.dropped_frames,
  word32-be t.late_frames v.late_frames,
)

decode_telemetry-encode_telemetry :
    (t : Telemetry)
    → IsTelemetry t
    → (b : List ℕ) × (encode_telemetry t ≡ ok b) × (decode_telemetry b ≡ ok t)
decode_telemetry-encode_telemetry t v = (
  telemetry_bytes t,
  encode_telemetry_valid t v,
  decode_telemetry_lem (telemetry_bytes t) t.timings t.thermal_state refl
        (ap new_timings (timings_read_back t v) ∙ new_timings_valid t.timings v.timings)
        (thermal_of_id-thermal_id t.thermal_state)
      ∙ ap new_telemetry (telemetry_read_back t v)
      ∙ new_telemetry_valid t v,
)

new_timings-eq : (s t : StageTimings) → new_timings s ≡ ok t → (t ≡ s) × IsTimings t
unfolding new_timings
new_timings-eq s t e = ground arith

new_telemetry-eq :
    (s t : Telemetry)
    → new_telemetry s ≡ ok t
    → (t ≡ s) × (t.queue_depth ≤ 4_096) × (t.loss_parts_per_million ≤ 1_000_000)
unfolding new_telemetry
new_telemetry-eq s t e = ground arith

-- What was read before the constructor was called.
record Decoded (b : List ℕ) (t : Telemetry) : Type 0 where
  size : length b ≡ 51
  timings : IsTimings (timings_at b)
  thermal : thermal_id t.thermal_state ≡ read_u8 b 50
  fields : t ≡ telemetry_at b (timings_at b) t.thermal_state
  queue_depth : t.queue_depth ≤ 4_096
  loss : t.loss_parts_per_million ≤ 1_000_000

decode_telemetry_size : (b : List ℕ) (t : Telemetry) → decode_telemetry b ≡ ok t → length b ≡ 51
unfolding decode_telemetry
decode_telemetry_size b t e = ground arith

decode_telemetry_timings :
    (b : List ℕ) (t : Telemetry) (x : ProtocolError)
    → new_timings (timings_at b) ≡ err x
    → ¬ (decode_telemetry b ≡ ok t)
unfolding decode_telemetry
decode_telemetry_timings b t x p e = ground (arith, p)

decode_telemetry_thermal :
    (b : List ℕ) (t : Telemetry) (s : StageTimings) (x : ProtocolError)
    → new_timings (timings_at b) ≡ ok s
    → thermal_of_id (read_u8 b 50) ≡ err x
    → ¬ (decode_telemetry b ≡ ok t)
unfolding decode_telemetry
decode_telemetry_thermal b t s x p q e = ground (arith, p, q)

Decoded-fields :
    (b : List ℕ) (t : Telemetry) (s : StageTimings) (h : ThermalState)
    → length b ≡ 51
    → new_timings (timings_at b) ≡ ok s
    → thermal_of_id (read_u8 b 50) ≡ ok h
    → decode_telemetry b ≡ ok t
    → Decoded b t
Decoded-fields b t s h n p q e =
    let built = new_timings-eq (timings_at b) s p in
    let made =
      new_telemetry-eq (telemetry_at b s h) t (sym (decode_telemetry_lem b s h n p q) ∙ e) in
    let state : t.thermal_state ≡ h = ap (λ x. x.thermal_state) made.0 in
    record {
      size = n;
      timings = subst IsTimings built.0 built.1;
      thermal = ap thermal_id state ∙ thermal_id-thermal_of_id (read_u8 b 50) h q;
      fields =
          made.0
          ∙ ap (λ x. telemetry_at b x h) built.0
          ∙ ap (telemetry_at b (timings_at b)) (sym state);
      queue_depth = made.1;
      loss = made.2;
    }

decode_telemetry-Decoded : (b : List ℕ) (t : Telemetry) → decode_telemetry b ≡ ok t → Decoded b t
decode_telemetry-Decoded b t e = elim (Result-cases (new_timings (timings_at b))) [
  | inr (x, p) ↦ absurd (decode_telemetry_timings b t x p e)
  | inl (s, p) ↦ elim (Result-cases (thermal_of_id (read_u8 b 50))) [
    | inr (x, q) ↦ absurd (decode_telemetry_thermal b t s x p q e)
    | inl (h, q) ↦ Decoded-fields b t s h (decode_telemetry_size b t e) p q e
  ]
]

Decoded-IsTelemetry : (b : List ℕ) (t : Telemetry) → All IsByte b → Decoded b t → IsTelemetry t
Decoded-IsTelemetry b t w d = record {
  sample_timestamp = omega (arith, ap (λ x. x.sample_timestamp_micros) d.fields, read_u64-lt b w 0);
  frame_id = omega (arith, ap (λ x. x.frame_id) d.fields, read_u64-lt b w 8);
  timings = subst IsTimings (sym (ap (λ x. x.timings) d.fields)) d.timings;
  queue_depth = d.queue_depth;
  loss = d.loss;
  dropped_frames = omega (arith, ap (λ x. x.dropped_frames) d.fields, read_u32-lt b w 42);
  late_frames = omega (arith, ap (λ x. x.late_frames) d.fields, read_u32-lt b w 46);
}

Decoded-bytes : (b : List ℕ) (t : Telemetry) → All IsByte b → Decoded b t → telemetry_bytes t ≡ b
Decoded-bytes b t w d =
    ap telemetry_bytes d.fields
    ∙ append_both (be64-read_u64 b w 0) (
        append_both (be64-read_u64 b w 8) (
          append_both
            (append_both (be32-read_u32 b w 16) (
              append_both (be32-read_u32 b w 20) (
                append_both (be32-read_u32 b w 24)
                  (append_both (be32-read_u32 b w 28) (be32-read_u32 b w 32)))))
            (append_both (be16-read_u16 b w 36) (
              append_both (be32-read_u32 b w 38) (
                append_both (be32-read_u32 b w 42)
                  (append_both (be32-read_u32 b w 46) (ap (λ x. x ∷ []) d.thermal)))))))
    ∙ sym (listing_lem 51 b 0 d.size)

-- Bytes decode to telemetry exactly when it meets IsTelemetry and they are its encoding.
pub decode_telemetry_iff :
    (b : List ℕ) (t : Telemetry)
    → All IsByte b
    → (decode_telemetry b ≡ ok t) ↔ (IsTelemetry t × (encode_telemetry t ≡ ok b))
decode_telemetry_iff b t w = (
  λ e.
      let d = decode_telemetry-Decoded b t e in
      let v = Decoded-IsTelemetry b t w d in
      (v, encode_telemetry_valid t v ∙ ap ok (Decoded-bytes b t w d)),
  λ (v, e).
      read_back encode_telemetry decode_telemetry t b e (decode_telemetry-encode_telemetry t v),
)
