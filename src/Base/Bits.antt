-- ===== src/Base/Bits.antt =====
-- Laws of `&` and `|` at variables, from the digit recursion that the native operations stand for.
use Prim.Native.Nat.{
  ℕ, zero, suc, ◌+◌, ◌-◌, ◌*◌, ◌/◌, ◌%◌, ◌^◌, ◌≤◌, ◌<◌, min, bit_and, digits, bit_and-bitwise,
}
use mathlib.Core.Path.{◌≡◌, refl, sym, ap, ◌∙◌}
use mathlib.Core.Logic.{◌↔◌, ◌≢◌}
use native.Mathlib.Decide.{ℕ_discrete}
use native.Mathlib.Nat.{pow-suc}
use native.Mathlib.Omega.{arith}

pow_pos : (k : ℕ) → 0 < 2 ^ k
pow_pos zero = omega arith
pow_pos (suc k) = omega (arith, pow-suc 2 k, pow_pos k)

pub pow_mono : (a b : ℕ) → a ≤ b → 2 ^ a ≤ 2 ^ b
pow_mono zero b h = omega (arith, pow_pos b)
pow_mono (suc a) zero h = absurd (omega arith)
pow_mono (suc a) (suc b) h = omega (arith, pow-suc 2 a, pow-suc 2 b, pow_mono a b)

-- `&` with a bound on the number of digits.
abbrev meet : ℕ → ℕ → ℕ → ℕ
meet bound x y = digits (λ (rest : ℕ). 0) min bound x y

meet_none : (bound y : ℕ) → meet bound 0 y ≡ 0
meet_none zero y = refl
meet_none (suc bound) y = refl

-- A bound that is large enough may grow.
meet_more : (more bound x y : ℕ) → x ≤ bound → meet (bound + more) x y ≡ meet bound x y
meet_more more bound zero y small = meet_none (bound + more) y ∙ sym (meet_none bound y)
meet_more more zero (suc x) y small = absurd (omega arith)
meet_more more (suc bound) (suc x) y small =
    let counted : suc bound + more ≡ suc (bound + more) = omega arith in
    let next = meet_more more bound (suc x / 2) (y / 2) (omega arith) in
    ap (λ k. meet k (suc x) y) counted ∙ omega (arith, next)

bit_and_none : (y : ℕ) → bit_and 0 y ≡ 0
bit_and_none y = bit_and-bitwise 0 y

meet_half : (x y : ℕ) → meet x (suc x / 2) (y / 2) ≡ bit_and (suc x / 2) (y / 2)
meet_half x y =
    let size : suc x / 2 + (x - suc x / 2) ≡ x = omega arith in
    ap (λ k. meet k (suc x / 2) (y / 2)) (sym size)
    ∙ meet_more (x - suc x / 2) (suc x / 2) (suc x / 2) (y / 2) (omega arith)
    ∙ sym (bit_and-bitwise (suc x / 2) (y / 2))

-- The lowest digit, and the others.
pub bit_and_step : (x y : ℕ) → bit_and x y ≡ min (x % 2) (y % 2) + 2 * bit_and (x / 2) (y / 2)
bit_and_step zero y = omega (arith, bit_and_none y, bit_and_none (y / 2))
bit_and_step (suc x) y = omega (arith, bit_and-bitwise (suc x) y, meet_half x y)

-- The bit of weight 2 ^ i.
abbrev pub bit : ℕ → ℕ → ℕ
bit zero a = a % 2
bit (suc i) a = bit i (a / 2)

bit-le_one : (i a : ℕ) → bit i a ≤ 1
bit-le_one zero a = omega arith
bit-le_one (suc i) a = bit-le_one i (a / 2)

-- `&` takes the meet of each bit.
pub bit-bit_and : (i a b : ℕ) → bit i (bit_and a b) ≡ min (bit i a) (bit i b)
bit-bit_and zero a b = omega (arith, bit_and_step a b)
bit-bit_and (suc i) a b =
    let half : bit_and a b / 2 ≡ bit_and (a / 2) (b / 2) = omega (arith, bit_and_step a b) in
    ap (bit i) half ∙ bit-bit_and i (a / 2) (b / 2)

bit_and_comm_fuel : (n a b : ℕ) → a ≤ n → b ≤ n → bit_and a b ≡ bit_and b a
bit_and_comm_fuel n zero zero p q = refl
bit_and_comm_fuel zero (suc a) b p q = absurd (omega arith)
bit_and_comm_fuel zero zero (suc b) p q = absurd (omega arith)
bit_and_comm_fuel (suc n) a b p q = omega (
  arith,
  bit_and_step a b,
  bit_and_step b a,
  bit_and_comm_fuel n (a / 2) (b / 2) (omega arith) (omega arith),
)

pub bit_and_comm : (a b : ℕ) → bit_and a b ≡ bit_and b a
bit_and_comm a b = bit_and_comm_fuel (a + b) a b (omega arith) (omega arith)

bit_and-le_fuel : (n a b : ℕ) → a ≤ n → bit_and a b ≤ a
bit_and-le_fuel n zero b h = omega (arith, bit_and_none b)
bit_and-le_fuel zero (suc a) b h = absurd (omega arith)
bit_and-le_fuel (suc n) (suc a) b h =
    omega (arith, bit_and_step (suc a) b, bit_and-le_fuel n (suc a / 2) (b / 2) (omega arith))

pub bit_and-le : (a b : ℕ) → bit_and a b ≤ a
bit_and-le a b = bit_and-le_fuel a a b (omega arith)

-- A mask of `k` ones keeps a number of `k` bits.
pub bit_and_ones : (k a : ℕ) → a < 2 ^ k → bit_and a (2 ^ k - 1) ≡ a
bit_and_ones zero a h = let e : a ≡ 0 = omega arith in rw e (bit_and_none (2 ^ zero - 1))
bit_and_ones (suc k) a h =
    let half : (2 ^ suc k - 1) / 2 ≡ 2 ^ k - 1 = omega (arith, pow-suc 2 k, pow_pos k) in
    omega (
      arith,
      pow-suc 2 k,
      pow_pos k,
      bit_and_step a (2 ^ suc k - 1),
      ap (bit_and (a / 2)) half,
      bit_and_ones k (a / 2) (omega (arith, pow-suc 2 k)),
    )

-- The complement of the mask `7`, in a word of `k + 3` bits, finds nothing just below 8.
pub bit_and_unknown :
    (k a m : ℕ) → a < 8 * 2 ^ k → m ≡ 8 * (2 ^ k - 1) → (bit_and a m ≡ 0) ↔ (a < 8)
bit_and_unknown k a m h e =
    let high : bit_and a m ≡ bit_and (a / 2 / 2 / 2) (m / 2 / 2 / 2) * 8 = omega (
      arith,
      bit_and_step a m,
      bit_and_step (a / 2) (m / 2),
      bit_and_step (a / 2 / 2) (m / 2 / 2),
    ) in
    let ones : bit_and (a / 2 / 2 / 2) (m / 2 / 2 / 2) ≡ a / 2 / 2 / 2 =
      ap (bit_and (a / 2 / 2 / 2)) (omega arith) ∙ bit_and_ones k (a / 2 / 2 / 2) (omega arith) in
    (λ z. omega arith, λ small. omega arith)

bit-zero : (i : ℕ) → bit i 0 ≡ 0
bit-zero zero = refl
bit-zero (suc i) = bit-zero i

some_bit_fuel : (n a : ℕ) → a ≤ n → 0 < a → (i : ℕ) × (bit i a ≡ 1)
some_bit_fuel zero a h pos = absurd (omega arith)
some_bit_fuel (suc n) a h pos = elim (ℕ_discrete (a % 2) 1) [
  | yes odd ↦ (0, odd)
  | no even ↦ let (i, e) = some_bit_fuel n (a / 2) (omega arith) (omega arith) in (suc i, e)
]

-- A number is positive when it has a bit, and two numbers share one when `&` is positive.
pub common_bit : (a b : ℕ) → 0 < bit_and a b → (i : ℕ) × (bit i a ≡ 1) × (bit i b ≡ 1)
common_bit a b h =
    let (i, e) = some_bit_fuel (bit_and a b) (bit_and a b) (omega arith) h in
    (
      i,
      omega (arith, bit-bit_and i a b, bit-le_one i a),
      omega (arith, bit-bit_and i a b, bit-le_one i b),
    )

pub bit_and_pos : (i a b : ℕ) → bit i a ≡ 1 → bit i b ≡ 1 → bit_and a b ≢ 0
bit_and_pos i a b p q z = omega (arith, bit-bit_and i a b, ap (bit i) z, bit-zero i)
