-- ===== src/Media/FrameRate/Timeline.antt =====
-- The timeline of a frame rate: timestamps and the search for the frame at a time.
use lado_flow.Base.{ℕ, ◌+◌, ◌-◌, ◌*◌, ◌/◌, ◌%◌, ◌^◌, ◌≤◌, ◌<◌, ◌≡◌, ◌↔◌, ap, ◌∙◌, arith, min, ok}
use native.Mathlib.Nat.{
  div-add-mod, mod-lt, mul-add-div, div-lt_iff_lt-mul, le-div_iff_mul-le, mul-le-mul,
}
use lado_flow.Base.Time.{Duration, u32_max, u64_max, nanos_per_second, duration_max}
use lado_flow.Media.FrameRate.{FrameRate, new_rate, timestamp, frame_at_or_before}

-- The rates that the constructor accepts from two u32s.
pub record IsRate (r : FrameRate) : Type 0 where
  pub numerator : (0 < r.numerator) × (r.numerator ≤ u32_max)
  pub denominator : (0 < r.denominator) × (r.denominator ≤ u32_max)

pub new_rate-IsRate :
    (n d : ℕ) (r : FrameRate) → n ≤ u32_max → d ≤ u32_max → new_rate n d ≡ ok r → IsRate r
unfolding new_rate
new_rate-IsRate n d r hn hd e = ground arith

-- The quotient of a multiple, by the quotient and the remainder.
scaled_div : (a n b : ℕ) → 0 < n → a * b / n ≡ a / n * b + a % n * b / n
scaled_div a n b pos =
    let split : a * b ≡ n * (a / n * b) + a % n * b =
      omega (arith, ap (λ (t : ℕ). t * b) (div-add-mod a n)) in
    ap (λ t. t / n) split ∙ mul-add-div pos (a / n * b) (a % n * b)

-- The nanoseconds of a part of a second are less than a second.
nanos_bound : (a n : ℕ) → 0 < n → a % n * nanos_per_second / n < nanos_per_second
nanos_bound a n pos = (div-lt_iff_lt-mul pos).1 (omega (arith, mod-lt a pos))

-- For an accepted rate a timestamp is the index times the denominator over the numerator in
-- seconds, rounded down to a nanosecond, or the longest duration where that is less.
pub timestamp-eq :
    (r : FrameRate) (i : ℕ)
    → IsRate r
    → timestamp r i ≡ min (i * r.denominator * nanos_per_second / r.numerator) duration_max
unfolding timestamp
timestamp-eq r i v = ground (
  arith,
  scaled_div (i * r.denominator) r.numerator nanos_per_second v.numerator.0,
  nanos_bound (i * r.denominator) r.numerator v.numerator.0,
)

-- The products of the u128 arithmetic, for a u64 index and a duration, are below 2 ^ 128.
pub scaled_fits :
    (r : FrameRate) (i : ℕ) (elapsed : Duration)
    → IsRate r
    → i ≤ u64_max
    → elapsed ≤ duration_max
    → (i * r.denominator < 2 ^ 128)
      × (i * r.denominator % r.numerator * nanos_per_second < 2 ^ 128)
      × ((elapsed + 1) * r.numerator < 2 ^ 128)
      × (r.denominator * nanos_per_second < 2 ^ 128)
scaled_fits r i elapsed v hi he = (
  omega (arith, mul-le-mul hi v.denominator.1),
  omega (arith, mod-lt (i * r.denominator) v.numerator.0, v.numerator.1),
  omega (arith, mul-le-mul {n₁ = elapsed + 1} {n₂ = duration_max + 1} (omega arith) v.numerator.1),
  omega (arith, v.denominator.1),
)

-- `floor (x / n) ≤ e` in multiples, and `i ≤ floor (y / m)`.
le_of_floor : (x n e : ℕ) → 0 < n → (x / n ≤ e) ↔ (x < (e + 1) * n)
le_of_floor x n e pos = (
  λ h. (div-lt_iff_lt-mul pos).0 (omega arith),
  λ h. let k : x / n < e + 1 = (div-lt_iff_lt-mul pos).1 h in omega arith,
)

-- For an accepted rate, a u64 index and a time below the longest duration, a frame's timestamp is
-- at or before the time exactly when its index is at or before the frame that the search finds.
pub timestamp-le_iff :
    (r : FrameRate) (i : ℕ) (elapsed : Duration)
    → IsRate r
    → i ≤ u64_max
    → elapsed < duration_max
    → (timestamp r i ≤ elapsed) ↔ (i ≤ frame_at_or_before r elapsed)
unfolding frame_at_or_before
timestamp-le_iff r i elapsed v hi he =
    let exact = timestamp-eq r i v in
    let floor =
      le_of_floor (i * r.denominator * nanos_per_second) r.numerator elapsed v.numerator.0 in
    let room : 0 < (elapsed + 1) * r.numerator = grind (arith, v.numerator.0) in
    let search =
      le-div_iff_mul-le {k = r.denominator * nanos_per_second} {x = i}
        {y = (elapsed + 1) * r.numerator - 1} (omega (arith, v.denominator.0)) in
    (
      λ h. ground (arith, search.1 (omega (arith, floor.0 (omega (arith, exact)), room))),
      λ h. omega (arith, exact, floor.1 (omega (arith, room, search.0 (ground arith)))),
    )
