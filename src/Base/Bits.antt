-- ===== src/Base/Bits.antt =====
-- Bit operations of `u64` values at variables: the lowest digit of `&` and `|`, the test of one
-- bit, the number of bits that are set, and the number of leading zeros.
use Prim.Native.Nat.{
  ℕ, zero, suc, ◌+◌, ◌-◌, ◌*◌, ◌/◌, ◌%◌, ◌^◌, ◌≤◌, ◌<◌, min, max, bit_and, bit_or, digits,
  bit_and-bitwise, bit_or-bitwise,
}
use Prim.Native.Nat.add
use mathlib.Core.Path.{◌≡◌, refl, sym, ap, ◌∙◌}
use mathlib.Core.Bool.{Bool, true, ◌&&◌}
use native.Mathlib.Nat.{
  two-pow-succ, one-le-pow, zero-add, add-zero, mul-le-mul_left, pow-le-pow_right, lt_of_lt_of_le,
}
use native.Mathlib.Decide.{dec_lt}
use native.Mathlib.Omega.{arith}
use epic.Base.Tests.{◌==◌, ==_iff, if◌then◌else◌}

abbrev pub u64_mod : ℕ
u64_mod = 2 ^ 64

-- A `u64` result, wrapped.
abbrev pub u64 : ℕ → ℕ
u64 n = n % u64_mod

-- More fuel than the first number changes nothing in the recursion on digits.
module _ (z : ℕ → ℕ) (f : ℕ → ℕ → ℕ) where
  no_digits : (n y : ℕ) → digits z f n 0 y ≡ z y
  no_digits zero y = refl
  no_digits (suc n) y = refl

  spare_fuel : (k d x y : ℕ) → x ≤ k → digits z f (k + d) x y ≡ digits z f k x y
  spare_fuel k d zero y le = no_digits (k + d) y ∙ sym (no_digits k y)
  spare_fuel zero d (suc x) y le = absurd (omega arith)
  spare_fuel (suc k) d (suc x) y le =
      let next : suc k + d ≡ suc (k + d) = omega arith in
      rw (next, spare_fuel k d (suc x / 2) (y / 2) (omega arith)) refl

  half_fuel :
      (x y : ℕ) → digits z f x (suc x / 2) (y / 2) ≡ digits z f (suc x / 2) (suc x / 2) (y / 2)
  half_fuel x y =
      let spare : suc x / 2 + (x - suc x / 2) ≡ x = omega arith in
      ap (λ (n : ℕ). digits z f n (suc x / 2) (y / 2)) (sym spare)
      ∙ spare_fuel (suc x / 2) (x - suc x / 2) (suc x / 2) (y / 2) (omega arith)

pub bit_and_step : (x y : ℕ) → bit_and x y ≡ min (x % 2) (y % 2) + 2 * bit_and (x / 2) (y / 2)
bit_and_step zero y = omega (arith, bit_and-bitwise 0 (y / 2), bit_and-bitwise 0 y)
bit_and_step (suc x) y = omega (
  arith,
  half_fuel (λ _. zero) min x y,
  bit_and-bitwise (suc x / 2) (y / 2),
  bit_and-bitwise (suc x) y,
)

pub bit_or_step : (x y : ℕ) → bit_or x y ≡ max (x % 2) (y % 2) + 2 * bit_or (x / 2) (y / 2)
bit_or_step zero y = omega (arith, bit_or-bitwise 0 (y / 2), bit_or-bitwise 0 y)
bit_or_step (suc x) y = omega (
  arith,
  half_fuel (λ n. n) max x y,
  bit_or-bitwise (suc x / 2) (y / 2),
  bit_or-bitwise (suc x) y,
)

-- No digit is set in 0.
with_zero : (n x : ℕ) → x ≤ n → (bit_and x 0 ≡ 0) × (bit_or x 0 ≡ x)
with_zero n zero le = (refl, refl)
with_zero zero (suc x) le = absurd (omega arith)
with_zero (suc n) (suc x) le =
    let halves = with_zero n (suc x / 2) (omega arith) in
    (
      omega (arith, halves.0, bit_and_step (suc x) 0),
      omega (arith, halves.1, bit_or_step (suc x) 0),
    )

-- Setting the low bit of an even number.
pub bit_or-double_one : (b : ℕ) → bit_or (b * 2) 1 ≡ b * 2 + 1
bit_or-double_one b = omega (
  arith,
  bit_or_step (b * 2) 1,
  ap (λ (t : ℕ). bit_or t 0) halves,
  (with_zero b b (omega arith)).1,
)
  where
    halves : b * 2 / 2 ≡ b
    halves = omega arith

pub two_pow_suc : (k : ℕ) → 2 ^ suc k ≡ 2 * 2 ^ k
two_pow_suc k = omega (arith, two-pow-succ k)

pub mul-two_pow_suc : (q k : ℕ) → q * 2 ^ suc k ≡ 2 * (q * 2 ^ k)
mul-two_pow_suc q k = omega (arith, ap (λ (t : ℕ). q * t) (two_pow_suc k))

pub two_pow_add : (j k : ℕ) → 2 ^ (j + k) ≡ 2 ^ j * 2 ^ k
two_pow_add zero k = ground (arith, zero-add k)
two_pow_add (suc j) k =
    rw (add.suc, two_pow_suc (j + k), two_pow_suc j, two_pow_add j k) (omega arith)

pub two_pow_pos : (k : ℕ) → 0 < 2 ^ k
two_pow_pos k = one-le-pow k 2 (omega arith)

pub half_ones : (k : ℕ) → ((2 ^ suc k - 1) / 2 ≡ 2 ^ k - 1) × (0 < 2 ^ suc k - 1)
half_ones k = omega (arith, two_pow_suc k, two_pow_pos k)

pub two_pow_le : (j k : ℕ) → j ≤ k → 2 ^ j ≤ 2 ^ k
two_pow_le j k le = pow-le-pow_right (omega arith) le

pub le_of_two_pow_le : (j k : ℕ) → 2 ^ j ≤ 2 ^ k → j ≤ k
le_of_two_pow_le j k le = elim (dec_lt k j) [
  | yes lt ↦ absurd (omega (arith, two_pow_suc k, two_pow_le (suc k) j lt, two_pow_pos k))
  | no ge ↦ omega arith
]

pub le-mul_two_pow : (n k : ℕ) → n ≤ n * 2 ^ k
le-mul_two_pow n k = omega (arith, mul-le-mul_left n (two_pow_pos k))

-- `m & (1 << h)` keeps the bit `h` of `m`, which is the lowest bit of `q` here.
pub bit_and-two_pow : (h q r : ℕ) → r < 2 ^ h → bit_and (q * 2 ^ h + r) (2 ^ h) ≡ q % 2 * 2 ^ h
bit_and-two_pow zero q r small =
    ground (arith, bit_and_step q 1, (with_zero (q / 2) (q / 2) (omega arith)).0)
bit_and-two_pow (suc h) q r small = ground (
  arith,
  bit_and_step (q * 2 ^ suc h + r) (2 ^ suc h),
  mul-two_pow_suc q h,
  mul-two_pow_suc (q % 2) h,
  two_pow_suc h,
  bit_and-two_pow h q (r / 2),
)

-- Over a small range, every value is checked by evaluation.
passes : (ℕ → Bool) → ℕ → Bool
passes test zero = true
passes test (suc n) = passes test n && test n

passes_each : (test : ℕ → Bool) (n : ℕ) → passes test n ≡ true → (k : ℕ) → k < n → test k ≡ true
unfolding passes
passes_each test zero all k inside = absurd (omega arith)
passes_each test (suc n) all k inside = ground (arith, passes_each test n (ground arith) k)

-- `n.count_ones()` of a number with at most `k` bits.
pub ones_below : ℕ → ℕ → ℕ
ones_below zero n = 0
ones_below (suc k) n = n % 2 + ones_below k (n / 2)

unfoldable pub count_ones : ℕ → ℕ
unfolding ones_below
count_ones n = ones_below 64 n

-- The number of binary digits, below the bound `k`.
unfoldable pub bits_below : ℕ → ℕ → ℕ
bits_below zero n = 0
bits_below (suc k) n = if n == 0 then 0 else suc (bits_below k (n / 2))

-- `n.leading_zeros()` of a `u64`.
unfoldable pub leading_zeros : ℕ → ℕ
unfolding bits_below
leading_zeros n = 64 - bits_below 64 n

ones_below-zero : (k : ℕ) → ones_below k 0 ≡ 0
unfolding ones_below
ones_below-zero zero = refl
ones_below-zero (suc k) = omega (arith, ones_below-zero k)

-- More digits than the number has add nothing.
pub ones_below_enough : (j k n : ℕ) → n < 2 ^ j → n < 2 ^ k → ones_below j n ≡ ones_below k n
unfolding ones_below
ones_below_enough zero k zero p q = sym (ones_below-zero k)
ones_below_enough zero k (suc n) p q = absurd (omega arith)
ones_below_enough (suc j) zero zero p q = ones_below-zero (suc j)
ones_below_enough (suc j) zero (suc n) p q = absurd (omega arith)
ones_below_enough (suc j) (suc k) n p q = omega (
  arith,
  ones_below_enough j k (n / 2) (omega (arith, two_pow_suc j)) (omega (arith, two_pow_suc k)),
)

-- A new top bit counts one.
pub ones_below-top : (k n : ℕ) → n < 2 ^ k → ones_below (suc k) (2 ^ k + n) ≡ 1 + ones_below k n
unfolding ones_below
ones_below-top zero n h = ground arith
ones_below-top (suc k) n h = ground (arith, two_pow_suc k, ones_below-top k (n / 2))

pub ones_below-le : (k n : ℕ) → ones_below k n ≤ n
unfolding ones_below
ones_below-le zero n = omega arith
ones_below-le (suc k) n = omega (arith, ones_below-le k (n / 2))

pub count_ones-lt : (n k : ℕ) → k ≤ 64 → n < 2 ^ k → count_ones n ≡ ones_below k n
unfolding count_ones
count_ones-lt n k fits small =
    ones_below_enough 64 k n (lt_of_lt_of_le small (pow-le-pow_right (omega arith) fits)) small

pub count_ones-top : (k n : ℕ) → k < 64 → n < 2 ^ k → count_ones (2 ^ k + n) ≡ 1 + count_ones n
count_ones-top k n fits small = omega (
  arith,
  count_ones-lt n k (omega arith) small,
  count_ones-lt (2 ^ k + n) (suc k) fits (omega (arith, two_pow_suc k)),
  ones_below-top k n small,
)

pub count_ones-le : (n : ℕ) → count_ones n ≤ n
unfolding count_ones
count_ones-le n = ones_below-le 64 n

-- One more low digit.
ones_below-double : (k n d : ℕ) → d < 2 → ones_below (suc k) (2 * n + d) ≡ d + ones_below k n
unfolding ones_below
ones_below-double k n d digit = rw (halves.0, halves.1) refl
  where
    halves : ((2 * n + d) / 2 ≡ n) × ((2 * n + d) % 2 ≡ d)
    halves = omega arith

pub count_ones-double :
    (k n d : ℕ) → k < 64 → n < 2 ^ k → d < 2 → count_ones (2 * n + d) ≡ d + count_ones n
count_ones-double k n d fits small digit = omega (
  arith,
  count_ones-lt (2 * n + d) (suc k) fits (omega (arith, two_pow_suc k)),
  count_ones-lt n k (omega arith) small,
  ones_below-double k n d digit,
)

-- Low zeros count nothing.
pub count_ones-shift :
    (h n : ℕ) → h ≤ 63 → n * 2 ^ h < 2 ^ 63 → count_ones (n * 2 ^ h) ≡ count_ones n
count_ones-shift zero n le small = ap count_ones (omega arith)
count_ones-shift (suc h) n le small =
    let shifted : n * 2 ^ suc h ≡ 2 * (n * 2 ^ h) + 0 = omega (arith, mul-two_pow_suc n h) in
    let double = count_ones-double 63 (n * 2 ^ h) 0 (omega arith) (omega arith) (omega arith) in
    rw shifted (omega (arith, double, count_ones-shift h n (omega arith) (omega arith)))

-- Low ones count each.
pub count_ones-low :
    (h n : ℕ)
    → h ≤ 63
    → (n + 1) * 2 ^ h ≤ 2 ^ 63
    → count_ones ((n + 1) * 2 ^ h - 1) ≡ count_ones n + h
count_ones-low zero n le small =
    let whole : (n + 1) * 2 ^ 0 - 1 ≡ n = omega arith in rw whole (omega arith)
count_ones-low (suc h) n le small =
    let shifted : (n + 1) * 2 ^ suc h - 1 ≡ 2 * ((n + 1) * 2 ^ h - 1) + 1 =
      omega (arith, mul-two_pow_suc (n + 1) h, le-mul_two_pow (n + 1) h) in
    let room : (n + 1) * 2 ^ h ≤ 2 ^ 62 = omega (arith, mul-two_pow_suc (n + 1) h) in
    let double =
      count_ones-double 63 ((n + 1) * 2 ^ h - 1) 1 (omega arith) (omega arith) (omega arith) in
    rw shifted (omega (arith, double, count_ones-low h n (omega arith) (omega arith)))

ones_below-suc : (k n : ℕ) → ones_below k (n + 1) ≤ ones_below k n + 1
unfolding ones_below
ones_below-suc zero n = omega arith
ones_below-suc (suc k) n = elim (dec_lt (n % 2) 1) [
  | yes even ↦ let half : (n + 1) / 2 ≡ n / 2 = omega arith in rw half (omega arith)
  | no odd ↦
      let half : (n + 1) / 2 ≡ n / 2 + 1 = omega arith in
      rw half (omega (arith, ones_below-suc k (n / 2)))
]

-- Adding one sets at most one more bit.
pub count_ones-suc : (n : ℕ) → count_ones (n + 1) ≤ count_ones n + 1
unfolding count_ones
count_ones-suc n = ones_below-suc 64 n

pub count_ones-add : (d n : ℕ) → count_ones (n + d) ≤ count_ones n + d
count_ones-add zero n = omega (arith, ap count_ones (add-zero n))
count_ones-add (suc d) n =
    let next : n + suc d ≡ n + d + 1 = omega arith in
    omega (arith, ap count_ones next, count_ones-suc (n + d), count_ones-add d n)

-- The power of two in a number is that of its odd part.
pub odd_part : (h g j b : ℕ) → (2 * j + 0 + 1) * 2 ^ h ≡ b * 2 ^ g → g ≤ h
odd_part h zero j b e = omega arith
odd_part zero (suc g) j b e = absurd (omega (arith, mul-two_pow_suc b g))
odd_part (suc h) (suc g) j b e =
    let lower =
      odd_part h g j b (omega (arith, mul-two_pow_suc (2 * j + 0 + 1) h, mul-two_pow_suc b g)) in
    omega (arith, lower)

bits_below-zero : (k : ℕ) → bits_below k 0 ≡ 0
unfolding bits_below
bits_below-zero zero = refl
bits_below-zero (suc k) = refl

-- The digits found bound the number from both sides.
pub bits_below_bounds :
    (k n : ℕ)
    → 0 < n
    → n < 2 ^ k
    → (n < 2 ^ bits_below k n) × (2 ^ bits_below k n ≤ 2 * n) × (bits_below k n ≤ k)
unfolding bits_below
bits_below_bounds k zero p q = absurd (omega arith)
bits_below_bounds zero (suc n) p q = absurd (omega arith)
bits_below_bounds (suc k) (suc zero) p q = rw bits_below-zero (omega arith)
bits_below_bounds (suc k) (suc (suc n)) p q =
    let half = bits_below_bounds k (suc (suc n) / 2) (omega arith) (omega (arith, two_pow_suc k)) in
    ground (arith, half, two_pow_suc (bits_below k (suc (suc n) / 2)))

-- `u64::MAX >> n.leading_zeros()` is the number of all ones that has the digits of `n`.
shifted_ones_table : passes (λ k. (2 ^ 64 - 1) / 2 ^ (64 - k) == 2 ^ k - 1) 65 ≡ true
unfolding passes
shifted_ones_table = refl

pub shifted_ones : (k : ℕ) → k ≤ 64 → (2 ^ 64 - 1) / 2 ^ (64 - k) ≡ 2 ^ k - 1
shifted_ones k h = (==_iff _ _).0 (passes_each _ 65 shifted_ones_table k (omega arith))
