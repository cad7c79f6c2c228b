-- ===== src/Pmmr/Index/Place.antt =====
-- Nodes of the infinite mountain by coordinates: the node `i` of the level `h` stands over the
-- leaves `i * 2 ^ h` to `(i + 1) * 2 ^ h - 1`. Here its position in postorder is found, and that
-- the loop of `peak_map_height` reads the coordinates back from it.
use native.Mathlib.Nat.{mul-le-mul_right, le_of_mul-le-mul_right, pow-le-pow_right}
use epic.Base.{
  ℕ, zero, suc, ◌+◌, ◌-◌, ◌*◌, ◌/◌, ◌^◌, ◌≤◌, ◌<◌, ◌≡◌, refl, ap, ◌∙◌, inl, inr, Bool-cases, ◌==◌,
  arith, dec_lt, ◌==◌,
}
use epic.Base.Bits.{
  leading_zeros, bits_below, bits_below_bounds, shifted_ones, bit_or-double_one, two_pow_suc,
  mul-two_pow_suc, two_pow_add, two_pow_pos, le_of_two_pow_le, le-mul_two_pow, count_ones,
  count_ones-top, count_ones-le,
}
use epic.Pmmr.Index.{u64_mod, u64, map_loop, top_peak_size, peak_map_height}

-- The nodes before it: those over the leaves before it, and those under it.
unfoldable pub node_pos : ℕ → ℕ → ℕ
node_pos h i = (i + 1) * 2 ^ suc h - 1 - count_ones i

pub map_loop-take :
    (f s b p : ℕ)
    → 0 < s
    → s ≤ p
    → b * 2 + 1 < u64_mod
    → map_loop (suc f) s b p ≡ map_loop f (s / 2) (b * 2 + 1) (p - s)
unfolding map_loop
map_loop-take f s b p pos le fits =
    let e : u64 (b * 2) ≡ b * 2 = omega arith in ground (arith, e, bit_or-double_one b)

pub map_loop-skip :
    (f s b p : ℕ)
    → 0 < s
    → p < s
    → b * 2 < u64_mod
    → map_loop (suc f) s b p ≡ map_loop f (s / 2) (b * 2) p
unfolding map_loop
map_loop-skip f s b p pos lt fits = let e : u64 (b * 2) ≡ b * 2 = omega arith in ground (arith, e)

pub map_loop-end : (f b p : ℕ) → map_loop f 0 b p ≡ (b, p)
unfolding map_loop
map_loop-end zero b p = refl
map_loop-end (suc f) b p = refl

-- The root of a full tree, and what lies beyond it.
pub map_loop-full :
    (f k b c : ℕ)
    → k ≤ f
    → (b + 1) * 2 ^ k ≤ u64_mod
    → map_loop f (2 ^ k - 1) b (2 * (2 ^ k - 1) + c) ≡ ((b + 1) * 2 ^ k - 1, c + k)
map_loop-full f zero b c h fits = rw map_loop-end (ground arith)
map_loop-full zero (suc k) b c h fits = absurd (omega arith)
map_loop-full (suc f) (suc k) b c h fits =
    rw
      (
        map_loop-take f (2 ^ suc k - 1) b (2 * (2 ^ suc k - 1) + c)
            (omega (arith, double, some_leaf)) (omega (arith, double, some_leaf))
            (omega (arith, product)),
        half,
        rest,
        map_loop-full f k (b * 2 + 1) (c + 1) (omega arith) (omega (arith, product)),
      )
      (ground (arith, product, some_leaf))
  where
    double : 2 ^ suc k ≡ 2 * 2 ^ k
    double = two_pow_suc k

    some_leaf : 0 < 2 ^ k
    some_leaf = two_pow_pos k

    product : ((b + 1) * 2 ^ suc k ≡ 2 * ((b + 1) * 2 ^ k)) × (b + 1 ≤ (b + 1) * 2 ^ k)
    product = (mul-two_pow_suc (b + 1) k, le-mul_two_pow (b + 1) k)

    half : (2 ^ suc k - 1) / 2 ≡ 2 ^ k - 1
    half = omega (arith, double, some_leaf)

    rest : 2 * (2 ^ suc k - 1) + c - (2 ^ suc k - 1) ≡ 2 * (2 ^ k - 1) + (c + 1)
    rest = omega (arith, double, some_leaf)

-- The position of a node of a full tree, by the same division that the loop makes.
module _ (h : ℕ) where
  node_pos-zero : node_pos h 0 - 1 ≡ 2 * (2 ^ h - 1) + 0
  unfolding node_pos
  node_pos-zero = omega (arith, two_pow_suc h, count_ones-le 0)

  -- In the right half: past the left half and its root.
  node_pos-right :
      (d i : ℕ)
      → d < 64
      → i < 2 ^ d
      → node_pos h (2 ^ d + i) ≡ 2 * (2 ^ d * 2 ^ h) - 1 + node_pos h i
  unfolding node_pos
  node_pos-right d i fits small = omega (
    arith,
    count_ones-top d i fits small,
    count_ones-le i,
    mul-two_pow_suc (2 ^ d + i + 1) h,
    mul-two_pow_suc (i + 1) h,
    le-mul_two_pow (i + 1) h,
    le-mul_two_pow (2 ^ d) h,
    two_pow_pos d,
  )

  node_pos-le : (d i : ℕ) → i < 2 ^ d → node_pos h i ≤ 2 * (2 ^ d * 2 ^ h) - 1
  unfolding node_pos
  node_pos-le d i small = omega (arith, mul-two_pow_suc (i + 1) h, mul-le-mul_right (2 ^ h) small)

  pub node_pos-pos : (i : ℕ) → 0 < node_pos h i
  unfolding node_pos
  node_pos-pos i =
      omega (arith, mul-two_pow_suc (i + 1) h, le-mul_two_pow (i + 1) h, count_ones-le i)

  pub map_loop-node :
      (f k d i b : ℕ)
      → k ≡ d + h
      → k ≤ f
      → d ≤ 64
      → i < 2 ^ d
      → (b + 1) * 2 ^ k ≤ u64_mod
      → map_loop f (2 ^ k - 1) b (node_pos h i - 1) ≡ (b * 2 ^ k + (i + 1) * 2 ^ h - 1, h)
  map_loop-node f k zero i b e le top small fits =
      let k_eq : k ≡ h = omega arith in
      let i_eq : i ≡ 0 = omega arith in
      rw (i_eq, node_pos-zero, ← k_eq, map_loop-full f k b 0 le fits)
        (ground (arith, two_pow_pos k))
  map_loop-node f zero (suc d) i b e le top small fits = absurd (omega arith)
  map_loop-node zero (suc k) (suc d) i b e le top small fits = absurd (omega arith)
  map_loop-node (suc f) (suc k) (suc d) i b e le top small fits = elim (dec_lt i (2 ^ d)) [
    | yes left ↦
        rw
          (
            map_loop-skip f (2 ^ suc k - 1) b (node_pos h i - 1) (omega (arith, facts))
                (omega (arith, facts, node_pos-le d i left, node_pos-pos i)) (omega (arith, facts)),
            half,
            map_loop-node f k d i (b * 2) (omega arith) (omega arith) (omega arith) left
                (omega (arith, facts)),
          )
          (ground (arith, facts))
    | no right ↦
        let i' = i - 2 ^ d in
        let small' : i' < 2 ^ d = omega (arith, two_pow_suc d) in
        let i_eq : i ≡ 2 ^ d + i' = omega arith in
        let place = node_pos-right d i' (omega arith) small' in
        let pos_eq : node_pos h i - 1 - (2 ^ suc k - 1) ≡ node_pos h i' - 1 =
          omega (arith, facts, i_eq, place, ap (node_pos h) i_eq, node_pos-pos i') in
        rw
          (
            map_loop-take f (2 ^ suc k - 1) b (node_pos h i - 1) (omega (arith, facts))
                (omega (arith, facts, place, ap (node_pos h) i_eq, node_pos-pos i'))
                (omega (arith, facts)),
            half,
            pos_eq,
            map_loop-node f k d i' (b * 2 + 1) (omega arith) (omega arith) (omega arith) small'
                (omega (arith, facts)),
          )
          (ground (arith, facts, ap (λ (t : ℕ). (t + 1) * 2 ^ h) i_eq))
  ]
    where
      k_eq : k ≡ d + h
      k_eq = omega arith

      facts :
          (2 ^ suc k ≡ 2 * 2 ^ k)
          × (0 < 2 ^ k)
          × ((b + 1) * 2 ^ suc k ≡ 2 * ((b + 1) * 2 ^ k))
          × (b ≤ b * 2 ^ k)
          × (2 ^ k ≡ 2 ^ d * 2 ^ h)
      facts = (
        two_pow_suc k,
        two_pow_pos k,
        mul-two_pow_suc (b + 1) k,
        le-mul_two_pow b k,
        ap (λ (t : ℕ). 2 ^ t) k_eq ∙ two_pow_add d h,
      )

      half : (2 ^ suc k - 1) / 2 ≡ 2 ^ k - 1
      half = omega (arith, two_pow_suc k, two_pow_pos k)

-- A tree that fits in `2 ^ k` leaves has its coordinates below it.
coordinates_fit : (h i k : ℕ) → (i + 1) * 2 ^ h ≤ 2 ^ k → (d : ℕ) × (k ≡ d + h) × (i < 2 ^ d)
coordinates_fit h i k le =
    let small = le_of_mul-le-mul_right {k = 2 ^ h} below (two_pow_pos h) in
    (k - h, k_eq, omega (arith, small))
  where
    one_tree : 2 ^ h ≤ 2 ^ k
    one_tree = omega (arith, le)

    high : h ≤ k
    high = le_of_two_pow_le h k one_tree

    k_eq : k ≡ k - h + h
    k_eq = omega (arith, high)

    below : (i + 1) * 2 ^ h ≤ 2 ^ (k - h) * 2 ^ h
    below = rw (← two_pow_add (k - h) h, ← k_eq) le

pub top_peak_size_lem :
    (n : ℕ)
    → 0 < n
    → n < u64_mod
    → (k : ℕ) × (k ≤ 64) × (n < 2 ^ k) × (2 ^ k ≤ 2 * n) × (top_peak_size n ≡ 2 ^ k - 1)
unfolding top_peak_size leading_zeros
top_peak_size_lem n pos fits =
    let bounds = bits_below_bounds 64 n pos fits in
    (bits_below 64 n, bounds.2, bounds.0, bounds.1, shifted_ones (bits_below 64 n) bounds.2)

pub node_pos_bounds :
    (h i : ℕ) → ((i + 1) * 2 ^ h ≤ node_pos h i) × (node_pos h i < 2 * ((i + 1) * 2 ^ h))
unfolding node_pos
node_pos_bounds h i =
    omega (arith, mul-two_pow_suc (i + 1) h, le-mul_two_pow (i + 1) h, count_ones-le i)

-- The node over one leaf is the leaf 0.
leaf_zero : (h i : ℕ) → (i + 1) * 2 ^ h ≤ 1 → ((i + 1) * 2 ^ h ≡ 1) × (h ≡ 0)
leaf_zero zero i le = omega (arith, le-mul_two_pow (i + 1) 0)
leaf_zero (suc h) i le = absurd (omega (arith, mul-two_pow_suc (i + 1) h, le-mul_two_pow (i + 1) h))

-- For a node whose leaves are among the first 2 ^ 63, `peak_map_height` of the 0-based position
-- gives back its coordinates: the height, and as the map of peaks the number of the last leaf
-- under the node.
pub peak_map_height-node :
    (h i : ℕ)
    → (i + 1) * 2 ^ h ≤ 2 ^ 63
    → peak_map_height (node_pos h i - 1) ≡ ((i + 1) * 2 ^ h - 1, h)
unfolding peak_map_height
peak_map_height-node h i fits = elim (Bool-cases (node_pos h i - 1 == 0)) [
  | inl first ↦ rw first (ground (arith, leaf_zero h i, node_pos_bounds h i))
  | inr later ↦
      let (k, top, above, below, size) =
        top_peak_size_lem (node_pos h i - 1) (ground arith) (omega (arith, node_pos_bounds h i)) in
      let (d, k_eq, small) = coordinates_fit h i k (omega (arith, node_pos_bounds h i, above)) in
      rw
        (
          later,
          size,
          map_loop-node h 64 k d i 0 k_eq top (omega arith) small
              (omega (arith, pow-le-pow_right {n = 2} (omega arith) {i = k} {j = 64} top)),
        )
        (ground arith)
]
