-- ===== src/Core/Telemetry.antt =====
-- crates/ladoflow-core/src/telemetry.rs: a bounded window of latency samples, oldest first, and its
-- summary. The u128 sums are written without a wrap: a window has fewer than 2 ^ 64 samples below
-- 2 ^ 64.
pub mod Window
pub mod Sorting
pub mod Order
mod Examples
use lado_flow.Base.{
  ℕ, suc, ◌+◌, ◌-◌, ◌*◌, ◌/◌, ◌%◌, ◌==◌, max, List, [], ◌∷◌, ◌++◌, Option, none, some, ltb, leb,
  if◌then◌else◌, length, drop, get_or, Result, ok, err,
}
use lado_flow.Base.Time.{Duration, u64_max, add_u64}

pub data TelemetryError : Type 0 where
  sample_too_large : TelemetryError

pub record LatencySnapshot : Type 0 where
  pub sample_count : ℕ
  pub total_sample_count : ℕ
  pub min : Duration
  pub mean : Duration
  pub p50 : Duration
  pub p95 : Duration
  pub max : Duration
  pub jitter : Duration

-- The capacity is not zero in the source (`NonZeroUsize`).
pub record LatencyAggregator : Type 0 where
  pub samples_micros : List ℕ
  pub capacity : ℕ
  pub total_sample_count : ℕ

unfoldable pub new_aggregator : ℕ → LatencyAggregator
new_aggregator capacity = record {
  samples_micros = [];
  capacity = capacity;
  total_sample_count = 0;
}

-- `Duration::as_micros` and `Duration::from_micros`.
abbrev pub as_micros : Duration → ℕ
as_micros d = d / 1000

abbrev pub from_micros : ℕ → Duration
from_micros m = m * 1000

unfoldable pub record_latency :
    LatencyAggregator → Duration → LatencyAggregator × Result TelemetryError (Unit {0})
record_latency a latency =
    let micros = as_micros latency in
    let kept =
      if length a.samples_micros == a.capacity then drop 1 a.samples_micros else a.samples_micros in
    if ltb u64_max micros then (a, err sample_too_large) else (
      record a {
        samples_micros = kept ++ (micros ∷ []);
        total_sample_count = add_u64 a.total_sample_count 1;
      },
      ok tt,
    )

-- The standard library's sort.
insert_sorted : ℕ → List ℕ → List ℕ
insert_sorted x [] = x ∷ []
insert_sorted x (y ∷ ys) = if leb x y then x ∷ y ∷ ys else y ∷ insert_sorted x ys

pub sort : List ℕ → List ℕ
unfolding insert_sorted
sort [] = []
sort (x ∷ xs) = insert_sorted x (sort xs)

pub sum : List ℕ → ℕ
sum [] = 0
sum (x ∷ xs) = x + sum xs

-- `sorted.get(rank.max(1) - 1).copied().unwrap_or_default()`.
pub nearest_rank : List ℕ → ℕ → ℕ
nearest_rank sorted percentile =
    let quotient = length sorted / 100 in
    let remainder = length sorted % 100 in
    let rank = quotient * percentile + (remainder * percentile + 99) / 100 in
    get_or sorted (max rank 1 - 1) 0

-- `u64::abs_diff`.
abbrev abs_diff : ℕ → ℕ → ℕ
abs_diff a b = a - b + (b - a)

-- The loop of `mean_adjacent_difference`.
difference_sum : ℕ → ℕ → List ℕ → ℕ
difference_sum acc previous [] = acc
difference_sum acc previous (current ∷ rest) =
    difference_sum (acc + abs_diff current previous) current rest

pub mean_adjacent_difference : List ℕ → ℕ
unfolding difference_sum
mean_adjacent_difference [] = 0
mean_adjacent_difference (x ∷ []) = 0
mean_adjacent_difference (x ∷ y ∷ rest) =
    let mean = difference_sum 0 x (y ∷ rest) / (suc (length rest)) in
    if ltb u64_max mean then u64_max else mean

-- `u64::try_from(mean).ok()?`, and the summary.
summarize : LatencyAggregator → List ℕ → ℕ → Option LatencySnapshot
summarize a sorted mean =
    if ltb u64_max mean
    then none
    else some (record {
      sample_count = length sorted;
      total_sample_count = a.total_sample_count;
      min = from_micros (get_or sorted 0 0);
      mean = from_micros mean;
      p50 = from_micros (nearest_rank sorted 50);
      p95 = from_micros (nearest_rank sorted 95);
      max = from_micros (get_or sorted (length sorted - 1) 0);
      jitter = from_micros (mean_adjacent_difference a.samples_micros);
    })

snapshot_of : LatencyAggregator → List ℕ → Option LatencySnapshot
unfolding summarize
snapshot_of a [] = none
snapshot_of a (x ∷ xs) =
    let sorted = sort (x ∷ xs) in summarize a sorted (sum sorted / length sorted)

unfoldable pub snapshot : LatencyAggregator → Option LatencySnapshot
unfolding snapshot_of
snapshot a = snapshot_of a a.samples_micros
