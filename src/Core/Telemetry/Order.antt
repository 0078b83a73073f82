-- ===== src/Core/Telemetry/Order.antt =====
-- The summary of a window: its order statistics, mean and jitter.
use lado_flow.Base.{
  ℕ, zero, suc, ◌+◌, ◌-◌, ◌*◌, ◌/◌, ◌≤◌, ◌<◌, ◌≡◌, ◌≢◌, refl, arith, List, [], ◌∷◌, All, length,
  get_or, some,
}
use lado_flow.Core.Telemetry.Window.{IsValid}
use lado_flow.Base.Time.{u64_max}
use lado_flow.Core.Telemetry.{
  LatencyAggregator, LatencySnapshot, sort, sum, nearest_rank, difference_sum,
  mean_adjacent_difference, summarize, snapshot, snapshot_of, from_micros,
}
use lado_flow.Core.Telemetry.Sorting.{
  Within, IsSorted, sort-IsSorted, sort-Within, length-sort, get_or_mono, sum-Within, div_bounds,
  sorted_Within, sort-Within_inv,
}

-- The nearest rank is an index of the list, and a larger percentile has a larger one.
rank_order :
    (xs : List ℕ)
    → 0 < length xs
    → IsSorted 0 xs
    → (get_or xs 0 0 ≤ nearest_rank xs 50)
      × (nearest_rank xs 50 ≤ nearest_rank xs 95)
      × (nearest_rank xs 95 ≤ get_or xs (length xs - 1) 0)
unfolding nearest_rank
rank_order xs pos s = (
  get_or_mono 0 _ _ xs s (omega arith) (omega arith),
  get_or_mono 0 _ _ xs s (omega arith) (omega arith),
  get_or_mono 0 _ _ xs s (omega arith) (omega arith),
)

difference_sum-le :
    (lo hi acc previous : ℕ) (xs : List ℕ)
    → lo ≤ previous
    → previous ≤ hi
    → Within lo hi xs
    → difference_sum acc previous xs ≤ acc + (hi - lo) * length xs
unfolding difference_sum
difference_sum-le lo hi acc previous [] p q w = omega arith
difference_sum-le lo hi acc previous (x ∷ xs) p q w =
    let ih = difference_sum-le lo hi (acc + (x - previous + (previous - x))) x xs w.0.0 w.0.1 w.1 in
    grind (arith, ih)

mean_adjacent_difference-le :
    (lo hi : ℕ) (xs : List ℕ) → Within lo hi xs → mean_adjacent_difference xs ≤ hi - lo
unfolding mean_adjacent_difference
mean_adjacent_difference-le lo hi [] w = omega arith
mean_adjacent_difference-le lo hi (x ∷ []) w = omega arith
mean_adjacent_difference-le lo hi (x ∷ y ∷ rest) w =
    let total = difference_sum-le lo hi 0 x (y ∷ rest) w.0.0 w.0.1 w.1 in
    ground (
      arith,
      div_bounds 0 (hi - lo) (difference_sum 0 x (y ∷ rest)) (suc (length rest)) (omega arith)
          (omega arith) (omega (arith, total)),
    )

-- What a summary says of the samples it was made from, in microsecond precision.
pub record IsSummary (samples : List ℕ) (v : LatencySnapshot) : Type 0 where
  pub counted : v.sample_count ≡ length samples
  pub extremes : All (λ m. (v.min ≤ from_micros m) × (from_micros m ≤ v.max)) samples
  pub median : (v.min ≤ v.p50) × (v.p50 ≤ v.p95)
  pub tail : v.p95 ≤ v.max
  pub average : (v.min ≤ v.mean) × (v.mean ≤ v.max)
  pub variation : v.min + v.jitter ≤ v.max

module _ (a : LatencyAggregator) (xs : List ℕ) (pos : 0 < length xs)
    (e : a.samples_micros ≡ xs) where
  abbrev lo : ℕ
  lo = get_or (sort xs) 0 0

  abbrev hi : ℕ
  hi = get_or (sort xs) (length (sort xs) - 1) 0

  bounds : Within lo hi (sort xs)
  bounds = sorted_Within (sort xs) (omega (arith, length-sort xs)) (sort-IsSorted xs)

  mean_bounds : (lo ≤ sum (sort xs) / length (sort xs)) × (sum (sort xs) / length (sort xs) ≤ hi)
  mean_bounds =
      let total = sum-Within lo hi (sort xs) bounds in
      div_bounds lo hi (sum (sort xs)) (length (sort xs)) (omega (arith, length-sort xs)) total.0
        total.1

  snapshot_values : LatencySnapshot
  snapshot_values = record {
    sample_count = length (sort xs);
    total_sample_count = a.total_sample_count;
    min = from_micros lo;
    mean = from_micros (sum (sort xs) / length (sort xs));
    p50 = from_micros (nearest_rank (sort xs) 50);
    p95 = from_micros (nearest_rank (sort xs) 95);
    max = from_micros hi;
    jitter = from_micros (mean_adjacent_difference a.samples_micros);
  }

  extremes_of :
      (ys : List ℕ)
      → Within lo hi ys
      → All (λ m. (from_micros lo ≤ from_micros m) × (from_micros m ≤ from_micros hi)) ys
  extremes_of [] w = tt
  extremes_of (y ∷ ys) w = ((omega arith, omega arith), extremes_of ys w.1)

  snapshot_values-IsSummary : IsSummary xs snapshot_values
  unfolding snapshot_values
  snapshot_values-IsSummary =
      let ranks = rank_order (sort xs) (omega (arith, length-sort xs)) (sort-IsSorted xs) in
      let inside = sort-Within_inv lo hi xs bounds in
      let spread = mean_adjacent_difference-le lo hi xs inside in
      record {
        counted = length-sort xs;
        extremes = extremes_of xs inside;
        median = (omega (arith, ranks.0), omega (arith, ranks.1));
        tail = omega (arith, ranks.2);
        average = (omega (arith, mean_bounds.0), omega (arith, mean_bounds.1));
        variation = rw e (omega (arith, spread, mean_bounds.0, mean_bounds.1));
      }

Within-get_or : (hi j : ℕ) (ys : List ℕ) → Within 0 hi ys → get_or ys j 0 ≤ hi
Within-get_or hi j [] w = omega arith
Within-get_or hi zero (y ∷ ys) w = w.0.1
Within-get_or hi (suc j) (y ∷ ys) w = Within-get_or hi j ys w.1

snapshot_of_cons :
    (a : LatencyAggregator) (x : ℕ) (xs : List ℕ) (e : a.samples_micros ≡ x ∷ xs)
    → Within 0 u64_max (x ∷ xs)
    → snapshot_of a (x ∷ xs) ≡ some (snapshot_values a (x ∷ xs) (omega arith) e)
unfolding snapshot_of summarize snapshot_values
snapshot_of_cons a x xs e w = ground (
  arith,
  mean_bounds a (x ∷ xs) (omega arith) e,
  Within-get_or u64_max (length (sort (x ∷ xs)) - 1) (sort (x ∷ xs))
      (sort-Within 0 u64_max (x ∷ xs) w),
)

snapshot_of_lem :
    (a : LatencyAggregator) (ys : List ℕ)
    → a.samples_micros ≡ ys
    → Within 0 u64_max ys
    → ys ≢ []
    → (v : LatencySnapshot) × (snapshot_of a ys ≡ some v) × IsSummary ys v
snapshot_of_lem a [] e w h = absurd (h refl)
snapshot_of_lem a (x ∷ xs) e w h = (
  snapshot_values a (x ∷ xs) (omega arith) e,
  snapshot_of_cons a x xs e w,
  snapshot_values-IsSummary a (x ∷ xs) (omega arith) e,
)

-- A window that meets IsValid and is not empty has a summary, which meets IsSummary: each sample
-- lies between the least and the greatest, the percentiles are ordered between them, the mean lies
-- between them, and the jitter is at most their distance.
pub snapshot_lem :
    (a : LatencyAggregator)
    → IsValid a
    → a.samples_micros ≢ []
    → (v : LatencySnapshot) × (snapshot a ≡ some v) × IsSummary a.samples_micros v
unfolding snapshot
snapshot_lem a v h =
    snapshot_of_lem a a.samples_micros refl (All_bounded a.samples_micros v.representable) h
  where
    All_bounded : (ys : List ℕ) → All (λ y. y ≤ u64_max) ys → Within 0 u64_max ys
    All_bounded [] w = tt
    All_bounded (y ∷ ys) w = ((omega arith, w.0), All_bounded ys w.1)
