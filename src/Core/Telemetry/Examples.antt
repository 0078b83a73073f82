-- ===== src/Core/Telemetry/Examples.antt =====
-- Windows at concrete samples, and the theorems at such inputs.
use lado_flow.Base.{◌≡◌, refl, arith, [], ◌∷◌, some}
use lado_flow.Core.Telemetry.{
  LatencyAggregator, LatencySnapshot, snapshot, sort, sum, nearest_rank, mean_adjacent_difference,
}
use lado_flow.Core.Telemetry.Window.{IsValid}
use lado_flow.Core.Telemetry.Order.{IsSummary, snapshot_lem}

abbrev window : LatencyAggregator
window = record {
  samples_micros = 30_000 ∷ 35_000 ∷ 40_000 ∷ 95_000 ∷ [];
  capacity = 4;
  total_sample_count = 4;
}

snapshot-window :
    snapshot window
    ≡ some (record {
      sample_count = 4;
      total_sample_count = 4;
      min = 30_000_000;
      mean = 50_000_000;
      p50 = 35_000_000;
      p95 = 95_000_000;
      max = 95_000_000;
      jitter = 21_666_000;
    })
unfolding snapshot sort sum nearest_rank mean_adjacent_difference
snapshot-window = refl

window-IsValid : IsValid window
window-IsValid = record { bounded = omega arith; representable = omega arith }

snapshot_lem_example :
    (v : LatencySnapshot) × (snapshot window ≡ some v) × IsSummary window.samples_micros v
snapshot_lem_example = snapshot_lem window window-IsValid (λ e. cc)
