-- ===== src/Pmmr/Index/Family.antt =====
-- `family`, `is_left_sibling` and `bintree_postorder_height` by the coordinates of a node: the
-- children of the node `j` of a level are the nodes `2 * j` and `2 * j + 1` of the level below.
use native.Mathlib.Nat.{mul-le-mul_right}
use epic.Base.{ℕ, zero, suc, ◌+◌, ◌-◌, ◌*◌, ◌%◌, ◌^◌, ◌≤◌, ◌<◌, ◌≡◌, ap, ◌∙◌, arith, ◌==◌, bit_and}
use epic.Base.Bits.{
  two_pow_suc, mul-two_pow_suc, two_pow_pos, le-mul_two_pow, bit_and-two_pow, count_ones,
  count_ones-double, count_ones-le,
}
use epic.Pmmr.Index.{peak_map_height, bintree_postorder_height, family, is_left_sibling}
use epic.Pmmr.Index.Place.{node_pos, peak_map_height-node, node_pos-pos}

module _ (h j d : ℕ) (digit : d < 2) (fits : (j + 1) * 2 ^ suc h ≤ 2 ^ 62) where
  pub child_facts :
      (2 * ((j + 1) * 2 ^ h) ≡ (j + 1) * 2 ^ suc h)
      × ((2 * j + d + 1) * 2 ^ h ≡ 2 * (j * 2 ^ h) + (d + 1) * 2 ^ h)
      × (j + 1 ≤ (j + 1) * 2 ^ h)
      × ((j + 1) * 2 ^ suc h ≡ j * 2 ^ suc h + 2 ^ suc h)
      × (2 ^ suc h ≡ 2 * 2 ^ h)
      × (0 < 2 ^ h)
  child_facts =
      omega
        (arith, mul-two_pow_suc (j + 1) h, le-mul_two_pow (j + 1) h, two_pow_suc h, two_pow_pos h)

  pub node_pos-child :
      node_pos h (2 * j + d) ≡ 2 * (j * 2 ^ suc h) + (d + 1) * 2 ^ suc h - 1 - d - count_ones j
  unfolding node_pos
  node_pos-child =
      omega (arith, count_ones-double 62 j d (omega arith) (omega (arith, child_facts)) digit)

  pub node_pos-parent : node_pos (suc h) j ≡ 2 * ((j + 1) * 2 ^ suc h) - 1 - count_ones j
  unfolding node_pos
  node_pos-parent = omega (arith, mul-two_pow_suc (j + 1) (suc h))

  -- The map of peaks at a node has the bit of its height exactly if the node is a right child.
  pub peak_bit : bit_and ((2 * j + d + 1) * 2 ^ h - 1) (2 ^ h) ≡ d * 2 ^ h
  peak_bit =
      ap (λ (t : ℕ). bit_and t (2 ^ h)) low_ones
      ∙ bit_and-two_pow h (2 * j + d) (2 ^ h - 1) (omega (arith, two_pow_pos h))
      ∙ ap (λ (t : ℕ). t * 2 ^ h) digit_left
    where
      low_ones : (2 * j + d + 1) * 2 ^ h - 1 ≡ (2 * j + d) * 2 ^ h + (2 ^ h - 1)
      low_ones = omega (arith, two_pow_pos h)

      digit_left : (2 * j + d) % 2 ≡ d
      digit_left = omega arith

  pub map_at_child : peak_map_height (node_pos h (2 * j + d) - 1) ≡ ((2 * j + d + 1) * 2 ^ h - 1, h)
  map_at_child =
      peak_map_height-node h (2 * j + d)
        (omega (arith, child_facts, mul-le-mul_right (2 ^ h) below))
    where
      below : 2 * j + d + 1 ≤ 2 * (j + 1)
      below = omega arith

pub family-right :
    (h j : ℕ)
    → (j + 1) * 2 ^ suc h ≤ 2 ^ 62
    → family (node_pos h (2 * j + 1)) ≡ (node_pos (suc h) j, node_pos h (2 * j + 0))
unfolding family
family-right h j fits = rw (map_at_child h j 1 (omega arith) fits) (
    ground (
      arith,
      peak_bit h j 1,
      child_facts h j 1,
      node_pos-child h j 0,
      node_pos-child h j 1,
      node_pos-parent h j 1,
      count_ones-le j,
    ))

pub family-left :
    (h j : ℕ)
    → (j + 1) * 2 ^ suc h ≤ 2 ^ 62
    → family (node_pos h (2 * j + 0)) ≡ (node_pos (suc h) j, node_pos h (2 * j + 1))
unfolding family
family-left h j fits = rw (map_at_child h j 0 (omega arith) fits) (
    ground (
      arith,
      peak_bit h j 0,
      child_facts h j 0,
      node_pos-child h j 0,
      node_pos-child h j 1,
      node_pos-parent h j 0,
      count_ones-le j,
    ))

-- The other child of the same parent.
abbrev pub other : ℕ → ℕ
other d = 1 - d

-- Of the two children of the node `j` of the level above, with its leaves among the first 2 ^ 62,
-- `family` gives the positions of the parent and of the other child, and `is_left_sibling` tells
-- the first from the second.
pub family-node_pos :
    (h j d : ℕ)
    → d < 2
    → (j + 1) * 2 ^ suc h ≤ 2 ^ 62
    → (family (node_pos h (2 * j + d)) ≡ (node_pos (suc h) j, node_pos h (2 * j + other d)))
      × (is_left_sibling (node_pos h (2 * j + d)) ≡ (d == 0))
unfolding is_left_sibling
family-node_pos h j zero digit fits =
    (family-left h j fits, rw (map_at_child h j 0 digit fits) (ground (arith, peak_bit h j 0)))
family-node_pos h j (suc zero) digit fits = (
  family-right h j fits,
  rw (map_at_child h j 1 digit fits) (ground (arith, peak_bit h j 1, two_pow_pos h)),
)
family-node_pos h j (suc (suc d)) digit fits = absurd (omega arith)

pub height-node_pos :
    (h i : ℕ) → (i + 1) * 2 ^ h ≤ 2 ^ 63 → bintree_postorder_height (node_pos h i) ≡ h
unfolding bintree_postorder_height
height-node_pos h i fits =
    ground (arith, node_pos-pos h i, ap (λ (t : ℕ × ℕ). t.1) (peak_map_height-node h i fits))
