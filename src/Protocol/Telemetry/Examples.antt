-- ===== src/Protocol/Telemetry/Examples.antt =====
-- Telemetry at concrete values, and the theorems at such values.
use lado_flow.Base.{ℕ, ◌≡◌, refl, List, [], ◌∷◌, ok, err}
use lado_flow.Protocol.Error.{invalid_payload}
use lado_flow.Protocol.Telemetry.{
  Telemetry, StageTimings, fair, new_timings, thermal_of_id, decode_telemetry,
}

abbrev timings : StageTimings
timings = record { capture = 1; encode = 2; transport = 256; decode = 4; presentation = 5 }

abbrev report : Telemetry
report = record {
  sample_timestamp_micros = 300;
  frame_id = 7;
  timings = timings;
  queue_depth = 258;
  loss_parts_per_million = 65_536;
  dropped_frames = 1;
  late_frames = 2;
  thermal_state = fair;
}

abbrev report_wire : List ℕ
report_wire =
    0 ∷ 0 ∷ 0 ∷ 0 ∷ 0 ∷ 0 ∷ 1 ∷ 44 ∷ 0 ∷ 0 ∷ 0 ∷ 0 ∷ 0 ∷ 0 ∷ 0 ∷ 7 ∷ 0 ∷ 0 ∷ 0 ∷ 1 ∷ 0 ∷ 0 ∷ 0 ∷ 2
    ∷ 0 ∷ 0 ∷ 1 ∷ 0 ∷ 0 ∷ 0 ∷ 0 ∷ 4 ∷ 0 ∷ 0 ∷ 0 ∷ 5 ∷ 1 ∷ 2 ∷ 0 ∷ 1 ∷ 0 ∷ 0 ∷ 0 ∷ 0 ∷ 0 ∷ 1 ∷ 0 ∷ 0
    ∷ 0 ∷ 2 ∷ 2 ∷ []

report_read : decode_telemetry report_wire ≡ ok report
unfolding decode_telemetry thermal_of_id
report_read = refl

slow_stage :
    new_timings (record timings { decode = 60_000_001 })
    ≡ err (invalid_payload "telemetry stage duration exceeds version-one limit")
unfolding new_timings
slow_stage = refl
