-- ===== src/Base/Time.antt =====
-- `std::time::Duration` as its number of nanoseconds, and the saturating operations on it and on
-- the unsigned integers. A duration holds a u64 of seconds and less than a second of nanoseconds.
use Prim.Native.Nat.{ℕ, ◌+◌, ◌-◌, ◌*◌, ◌^◌, ◌≤◌, min}

abbrev pub Duration : Type 0
Duration = ℕ

abbrev pub u16_max : ℕ
u16_max = 2 ^ 16 - 1

abbrev pub u32_max : ℕ
u32_max = 2 ^ 32 - 1

abbrev pub u64_max : ℕ
u64_max = 2 ^ 64 - 1

abbrev pub nanos_per_second : ℕ
nanos_per_second = 1_000_000_000

-- `Duration::MAX`: all seconds of a u64, and 999,999,999 nanoseconds.
abbrev pub duration_max : Duration
duration_max = u64_max * nanos_per_second + 999_999_999

abbrev pub IsDuration : Duration → Type 0
IsDuration d = d ≤ duration_max

-- `Duration::saturating_add`, `saturating_mul` and `saturating_sub`.
abbrev pub add_duration : Duration → Duration → Duration
add_duration a b = min (a + b) duration_max

abbrev pub mul_duration : Duration → ℕ → Duration
mul_duration a k = min (a * k) duration_max

abbrev pub sub_duration : Duration → Duration → Duration
sub_duration a b = a - b

-- `u64::saturating_add`.
abbrev pub add_u64 : ℕ → ℕ → ℕ
add_u64 a b = min (a + b) u64_max
