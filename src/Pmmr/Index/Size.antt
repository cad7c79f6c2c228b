-- ===== src/Pmmr/Index/Size.antt =====
-- The size of a mountain range against the positions of its nodes.
use epic.Base.{ℕ, ◌+◌, ◌-◌, ◌*◌, ◌^◌, ◌≤◌, ◌<◌, ◌≡◌, ap, arith}
use epic.Base.Bits.{
  mul-two_pow_suc, le-mul_two_pow, le_of_two_pow_le, count_ones, count_ones-double, count_ones-le,
  count_ones-low, count_ones-suc, count_ones-add, count_ones-shift,
}
use epic.Pmmr.Index.Place.{node_pos}
use epic.Pmmr.Index.Peaks.{mmr_size}

height-le : (h i : ℕ) → (i + 1) * 2 ^ h ≤ 2 ^ 61 → h ≤ 61
height-le h i fits = le_of_two_pow_le h 61 (omega (arith, fits))

-- The nodes that end at the leaf `m` follow the range with `m` leaves, by height.
pub node_pos-mmr_size :
    (h i m : ℕ) → (i + 1) * 2 ^ h ≡ m + 1 → m < 2 ^ 61 → node_pos h i ≡ mmr_size m + h + 1
unfolding node_pos mmr_size
node_pos-mmr_size h i m e small = omega (
  arith,
  ap count_ones last,
  count_ones-low h i (omega (arith, height-le h i (omega arith))) (omega arith),
  mul-two_pow_suc (i + 1) h,
  count_ones-le m,
)
  where
    last : m ≡ (i + 1) * 2 ^ h - 1
    last = omega arith

-- A left child at the end of the range is its last node.
pub mmr_size-node_pos :
    (h j m : ℕ)
    → (2 * j + 0 + 1) * 2 ^ h ≡ m + 1
    → m < 2 ^ 61
    → mmr_size (m + 1) ≡ node_pos h (2 * j + 0)
unfolding node_pos mmr_size
mmr_size-node_pos h j m e small = omega (
  arith,
  ap count_ones e,
  count_ones-shift h (2 * j + 0 + 1) (omega (arith, height-le h (2 * j + 0) (omega arith)))
      (omega arith),
  ap count_ones odd,
  count_ones-double 62 j 1 (omega arith) (omega (arith, le-mul_two_pow (2 * j + 0 + 1) h))
      (omega arith),
  count_ones-double 62 j 0 (omega arith) (omega (arith, le-mul_two_pow (2 * j + 0 + 1) h))
      (omega arith),
  mul-two_pow_suc (2 * j + 0 + 1) h,
)
  where
    odd : 2 * j + 0 + 1 ≡ 2 * j + 1
    odd = omega arith

mmr_size-le : (n m : ℕ) → n ≤ m → mmr_size n ≤ mmr_size m
unfolding mmr_size
mmr_size-le n m le =
    let rest : m ≡ n + (m - n) = omega arith in
    omega (arith, ap count_ones rest, count_ones-add (m - n) n, count_ones-le n)

-- Every node over leaves of the range lies within its size.
pub node_pos-le-mmr_size :
    (h i m : ℕ) → (i + 1) * 2 ^ h ≤ m → m < 2 ^ 61 → node_pos h i ≤ mmr_size m
node_pos-le-mmr_size h i m le small = omega (arith, own, mmr_size-le ((i + 1) * 2 ^ h) m le)
  where
    own : node_pos h i ≤ mmr_size ((i + 1) * 2 ^ h)
    own =
        unfold node_pos mmr_size in
        omega (
          arith,
          count_ones-shift h (i + 1) (omega (arith, height-le h i (omega arith))) (omega arith),
          count_ones-suc i,
          mul-two_pow_suc (i + 1) h,
        )
