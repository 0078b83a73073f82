-- ===== src/Protocol/Telemetry.antt =====
-- crates/ladoflow-protocol/src/telemetry.rs: the telemetry payload.
pub mod Wire
mod Examples
use lado_flow.Base.{
  ℕ, ◌==◌, ◌||◌, not, List, [], ◌∷◌, ◌++◌, ltb, if◌then◌else◌, length, Result, ok, err, ◌>>=◌, ◌>>◌,
  guard,
}
use lado_flow.Base.Bytes.{be16, be32, be64, read_u8, read_u16, read_u32, read_u64}
use lado_flow.Protocol.Error.{ProtocolError, invalid_payload, MessageType}
use lado_flow.Protocol.Message.Payload.{WirePayload}

abbrev pub telemetry_len : ℕ
telemetry_len = 51

abbrev pub max_stage_duration_micros : ℕ
max_stage_duration_micros = 60_000_000

abbrev pub max_telemetry_queue_depth : ℕ
max_telemetry_queue_depth = 4_096

abbrev pub max_loss_parts_per_million : ℕ
max_loss_parts_per_million = 1_000_000

pub data ThermalState : Type 0 where
  unknown nominal fair serious critical : ThermalState

-- `state as u8`.
abbrev pub thermal_id : ThermalState → ℕ
thermal_id unknown = 0
thermal_id nominal = 1
thermal_id fair = 2
thermal_id serious = 3
thermal_id critical = 4

unfoldable pub thermal_of_id : ℕ → Result ProtocolError ThermalState
thermal_of_id value =
    if value == 0
    then ok unknown
    else if value == 1
    then ok nominal
    else if value == 2
    then ok fair
    else if value == 3
    then ok serious
    else if value == 4
    then ok critical
    else err (invalid_payload "unknown thermal state")

pub record StageTimings : Type 0 where
  pub capture : ℕ
  pub encode : ℕ
  pub transport : ℕ
  pub decode : ℕ
  pub presentation : ℕ

unfoldable pub validate_timings : StageTimings → Result ProtocolError (Unit {0})
validate_timings t =
    if ltb max_stage_duration_micros t.capture
      || ltb max_stage_duration_micros t.encode
      || ltb max_stage_duration_micros t.transport
      || ltb max_stage_duration_micros t.decode
      || ltb max_stage_duration_micros t.presentation
    then err (invalid_payload "telemetry stage duration exceeds version-one limit")
    else ok tt

-- The checks of `StageTimings::new`, whose value is its argument.
unfoldable pub new_timings : StageTimings → Result ProtocolError StageTimings
unfolding validate_timings
new_timings t = do validate_timings t; ok t

-- `StageTimings::encode_into`.
abbrev pub timings_bytes : StageTimings → List ℕ
timings_bytes t =
    be32 t.capture
    ++ (be32 t.encode ++ (be32 t.transport ++ (be32 t.decode ++ be32 t.presentation)))

pub record Telemetry : Type 0 where
  pub sample_timestamp_micros : ℕ
  pub frame_id : ℕ
  pub timings : StageTimings
  pub queue_depth : ℕ
  pub loss_parts_per_million : ℕ
  pub dropped_frames : ℕ
  pub late_frames : ℕ
  pub thermal_state : ThermalState

-- The checks of `Telemetry::new`, whose value is its argument.
unfoldable pub new_telemetry : Telemetry → Result ProtocolError Telemetry
unfolding validate_timings
new_telemetry t = do
  validate_timings t.timings
  guard (not (ltb max_telemetry_queue_depth t.queue_depth))
      (invalid_payload "telemetry queue depth exceeds version-one limit")
  guard (not (ltb max_loss_parts_per_million t.loss_parts_per_million))
      (invalid_payload "telemetry loss ratio exceeds one million parts per million")
  ok t

abbrev pub telemetry_bytes : Telemetry → List ℕ
telemetry_bytes t =
    be64 t.sample_timestamp_micros
    ++ (be64 t.frame_id
        ++ (timings_bytes t.timings
            ++ (be16 t.queue_depth
                ++ (be32 t.loss_parts_per_million
                    ++ (be32 t.dropped_frames
                        ++ (be32 t.late_frames ++ (thermal_id t.thermal_state ∷ [])))))))

unfoldable pub encode_telemetry : Telemetry → Result ProtocolError (List ℕ)
unfolding new_telemetry
encode_telemetry t = do new_telemetry t >>= λ _. ok tt; ok (telemetry_bytes t)

abbrev pub timings_at : List ℕ → StageTimings
timings_at payload = record {
  capture = read_u32 payload 16;
  encode = read_u32 payload 20;
  transport = read_u32 payload 24;
  decode = read_u32 payload 28;
  presentation = read_u32 payload 32;
}

abbrev pub telemetry_at : List ℕ → StageTimings → ThermalState → Telemetry
telemetry_at payload timings thermal_state = record {
  sample_timestamp_micros = read_u64 payload 0;
  frame_id = read_u64 payload 8;
  timings = timings;
  queue_depth = read_u16 payload 36;
  loss_parts_per_million = read_u32 payload 38;
  dropped_frames = read_u32 payload 42;
  late_frames = read_u32 payload 46;
  thermal_state = thermal_state;
}

unfoldable pub decode_telemetry : List ℕ → Result ProtocolError Telemetry
unfolding new_telemetry new_timings thermal_of_id
decode_telemetry payload = do
  guard (length payload == telemetry_len)
      (invalid_payload "telemetry payload must be exactly 51 bytes")
  timings ← new_timings (timings_at payload)
  thermal_state ← thermal_of_id (read_u8 payload 50)
  new_telemetry (telemetry_at payload timings thermal_state)

instance abbrev pub telemetry_payload : WirePayload Telemetry
telemetry_payload = record {
  kind = MessageType.telemetry;
  encode = encode_telemetry;
  decode = decode_telemetry;
}
