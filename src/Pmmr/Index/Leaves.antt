-- ===== src/Pmmr/Index/Leaves.antt =====
-- `n_leaves`: the loops of `peak_sizes_height` and `peaks` make the same subtractions as that of
-- `peak_map_height`, and the map of peaks is the number of leaves.
use native.Mathlib.Nat.{mul-le-mul_right}
use epic.Base.{
  ℕ, zero, suc, ◌+◌, ◌-◌, ◌*◌, ◌/◌, ◌%◌, ◌^◌, ◌≤◌, ◌<◌, ◌≡◌, refl, ap, ◌∙◌, subst, arith, List, [],
  ◌∷◌, ◌++◌, dec_lt, ◌==◌, if◌then◌else◌, false,
}
use epic.Base.Bits.{
  two_pow_suc, mul-two_pow_suc, half_ones, two_pow_pos, le-mul_two_pow, two_pow_le,
  le_of_two_pow_le, count_ones, count_ones-shift, count_ones-double, count_ones-le,
}
use epic.Pmmr.Index.{
  u64_mod, map_loop, sizes_loop, sum_leaves, peak_map_height, peak_sizes_height, n_leaves, is_leaf,
  bintree_postorder_height,
}
use epic.Pmmr.Index.Place.{
  node_pos, node_pos_bounds, map_loop-take, map_loop-skip, map_loop-end, peak_map_height-node,
  top_peak_size_lem,
}
use epic.Pmmr.Index.Family.{child_facts, node_pos-child, node_pos-parent, height-node_pos}
use epic.Pmmr.Index.Heights.{coordinates}

sum_leaves-append : (xs : List ℕ) (n : ℕ) → sum_leaves (xs ++ n ∷ []) ≡ sum_leaves xs + (n + 1) / 2
unfolding sum_leaves
sum_leaves-append [] n = omega arith
sum_leaves-append (x ∷ xs) n = omega (arith, sum_leaves-append xs n)

sizes_loop-take :
    (f s p : ℕ) (sizes : List ℕ)
    → 0 < s
    → s ≤ p
    → sizes_loop (suc f) s p sizes ≡ sizes_loop f (s / 2) (p - s) (sizes ++ s ∷ [])
unfolding sizes_loop
sizes_loop-take f s p sizes pos le = ground arith

sizes_loop-skip :
    (f s p : ℕ) (sizes : List ℕ)
    → 0 < s
    → p < s
    → sizes_loop (suc f) s p sizes ≡ sizes_loop f (s / 2) p sizes
unfolding sizes_loop
sizes_loop-skip f s p sizes pos lt = ground arith

sizes_loop-end : (f p : ℕ) (sizes : List ℕ) → sizes_loop f 0 p sizes ≡ (sizes, p)
unfolding sizes_loop
sizes_loop-end zero p sizes = refl
sizes_loop-end (suc f) p sizes = refl

abbrev Agree : List ℕ × ℕ → ℕ × ℕ → ℕ → ℕ → Type 0
Agree (found, left) (bitmap, left') before above =
    (left ≡ left') × (sum_leaves found + above ≡ bitmap + before)

-- The loop of `peak_sizes_height` leaves what that of `peak_map_height` leaves, and the leaves
-- under the peaks that it finds are those that the map adds.
sizes_loop-map_loop :
    (f k b p : ℕ) (sizes : List ℕ)
    → k ≤ f
    → (b + 1) * 2 ^ k ≤ u64_mod
    → Agree
        (sizes_loop f (2 ^ k - 1) p sizes)
        (map_loop f (2 ^ k - 1) b p)
        (sum_leaves sizes)
        (b * 2 ^ k)
sizes_loop-map_loop f zero b p sizes le fits = rw (sizes_loop-end, map_loop-end) (refl, omega arith)
sizes_loop-map_loop zero (suc k) b p sizes le fits = absurd (omega arith)
sizes_loop-map_loop (suc f) (suc k) b p sizes le fits = elim (dec_lt p (2 ^ suc k - 1)) [
  | yes small ↦
      rw
        (
          sizes_loop-skip f (2 ^ suc k - 1) p sizes (half_ones k).1 small,
          map_loop-skip f (2 ^ suc k - 1) b p (half_ones k).1 small (omega (arith, facts)),
          (half_ones k).0,
          mul-two_pow_suc b k,
        )
        (omega
          (arith, sizes_loop-map_loop f k (b * 2) p sizes (omega arith) (omega (arith, facts))))
  | no large ↦
      rw
        (
          sizes_loop-take f (2 ^ suc k - 1) p sizes (half_ones k).1 (omega arith),
          map_loop-take f (2 ^ suc k - 1) b p (half_ones k).1 (omega arith) (omega (arith, facts)),
          (half_ones k).0,
          mul-two_pow_suc b k,
        )
        (omega (
          arith,
          sizes_loop-map_loop f k (b * 2 + 1) (p - (2 ^ suc k - 1)) (sizes ++ (2 ^ suc k - 1) ∷ [])
              (omega arith) (omega (arith, facts)),
          sum_leaves-append sizes (2 ^ suc k - 1),
          two_pow_suc k,
          two_pow_pos k,
        ))
]
  where
    facts : ((b + 1) * 2 ^ suc k ≡ 2 * ((b + 1) * 2 ^ k)) × (b + 1 ≤ (b + 1) * 2 ^ k) × (0 < 2 ^ k)
    facts = (mul-two_pow_suc (b + 1) k, le-mul_two_pow (b + 1) k, two_pow_pos k)

-- Both functions agree: the same height, and the map counts the leaves under the sizes.
sizes-Agree : (s : ℕ) → s < u64_mod → Agree (peak_sizes_height s) (peak_map_height s) 0 0
unfolding peak_sizes_height peak_map_height
sizes-Agree zero fits = unfold sum_leaves in (refl, refl)
sizes-Agree (suc s) fits =
    let (k, room, above, below, size) = top_peak_size_lem (suc s) (omega arith) fits in
    let later : (suc s == 0) ≡ false = ground arith in
    let steps = sizes_loop-map_loop 64 k 0 (suc s) [] room (omega (arith, two_pow_le k 64 room)) in
    rw (later, size) (unfold sum_leaves in omega (arith, steps))

-- The leaves before a position, by the coordinates of its node.
leaves_before :
    (h i : ℕ)
    → (i + 1) * 2 ^ h ≤ 2 ^ 63
    → n_leaves (node_pos h i - 1) ≡ (if h == 0 then i else (i + 1) * 2 ^ h)
unfolding n_leaves
leaves_before zero i fits = ground (
  arith,
  sizes-Agree (node_pos 0 i - 1) (omega (arith, node_pos_bounds 0 i)),
  peak_map_height-node 0 i fits,
)
leaves_before (suc h) i fits = ground (
  arith,
  sizes-Agree (node_pos (suc h) i - 1) (omega (arith, node_pos_bounds (suc h) i)),
  peak_map_height-node (suc h) i fits,
  le-mul_two_pow (i + 1) (suc h),
)

-- After a right child comes its parent.
after_right :
    (h j : ℕ)
    → (j + 1) * 2 ^ suc h ≤ 2 ^ 62
    → n_leaves (node_pos h (2 * j + 1)) ≡ (2 * j + 1 + 1) * 2 ^ h
after_right h j fits =
    ap n_leaves place ∙ leaves_before (suc h) j (omega arith) ∙ ground (arith, facts)
  where
    facts :
        (2 * ((j + 1) * 2 ^ h) ≡ (j + 1) * 2 ^ suc h)
        × ((2 * j + 1 + 1) * 2 ^ h ≡ 2 * (j * 2 ^ h) + (1 + 1) * 2 ^ h)
        × (j + 1 ≤ (j + 1) * 2 ^ h)
    facts = let f = child_facts h j 1 (omega arith) fits in (f.0, f.1, f.2)

    place : node_pos h (2 * j + 1) ≡ node_pos (suc h) j - 1
    place = omega (
      arith,
      node_pos-child h j 1 (omega arith) fits,
      node_pos-parent h j 1 (omega arith) fits,
      child_facts h j 1 (omega arith) fits,
      count_ones-le j,
    )

-- After a left child comes the next leaf.
after_left :
    (h j : ℕ)
    → (j + 1) * 2 ^ suc h ≤ 2 ^ 62
    → h ≤ 62
    → n_leaves (node_pos h (2 * j + 0)) ≡ (2 * j + 0 + 1) * 2 ^ h
after_left h j fits low =
    ap n_leaves place ∙ leaves_before 0 m (omega (arith, facts)) ∙ omega (arith, facts)
  where
    m : ℕ
    m = (2 * j + 1) * 2 ^ h

    facts :
        (2 * ((j + 1) * 2 ^ h) ≡ (j + 1) * 2 ^ suc h)
        × ((2 * j + 0 + 1) * 2 ^ h ≡ m)
        × (m + 2 ^ h ≡ (j + 1) * 2 ^ suc h)
        × (0 < 2 ^ h)
    facts = omega (arith, mul-two_pow_suc (j + 1) h, two_pow_pos h)

    ones : count_ones m ≡ 1 + count_ones j
    ones =
        count_ones-shift h (2 * j + 1) (omega arith) (omega (arith, facts))
        ∙ count_ones-double 62 j 1 (omega arith)
            (omega (arith, facts, le-mul_two_pow (j + 1) (suc h))) (omega arith)

    place : node_pos h (2 * j + 0) ≡ node_pos 0 m - 1
    place =
        unfold node_pos in
        omega (
          arith,
          node_pos-child h j 0 (omega arith) fits,
          facts,
          ones,
          child_facts h j 0 (omega arith) fits,
          count_ones-le j,
          le-mul_two_pow (j + 1) h,
        )

-- So with a node the leaves under it are done.
after_node : (h i : ℕ) → (i + 1) * 2 ^ h ≤ 2 ^ 61 → n_leaves (node_pos h i) ≡ (i + 1) * 2 ^ h
after_node h i fits = elim (dec_lt (i % 2) 1) [
  | yes even ↦ subst Done (left_child even) (after_left h (i / 2) room low)
  | no odd ↦ subst Done (right_child odd) (after_right h (i / 2) room)
]
  where
    Done : ℕ → Type 0
    Done t = n_leaves (node_pos h t) ≡ (t + 1) * 2 ^ h

    left_child : i % 2 < 1 → 2 * (i / 2) + 0 ≡ i
    left_child even = omega arith

    right_child : ¬ (i % 2 < 1) → 2 * (i / 2) + 1 ≡ i
    right_child odd = omega arith

    room : (i / 2 + 1) * 2 ^ suc h ≤ 2 ^ 62
    room = omega (
      arith,
      fits,
      mul-two_pow_suc (i / 2 + 1) h,
      mul-le-mul_right {m = i / 2 + 1} {n = i + 1} (2 ^ h) (omega arith),
    )

    low : h ≤ 62
    low = le_of_two_pow_le h 62 (omega (arith, fits))

-- The number of leaves among the first positions.
abbrev pub leaf_count : ℕ → ℕ
leaf_count zero = 0
leaf_count (suc n) = leaf_count n + (if is_leaf (suc n) then 1 else 0)

-- A position adds a leaf exactly if it is one.
leaves_step :
    (n : ℕ) → suc n < 2 ^ 61 → n_leaves (suc n) ≡ n_leaves n + (if is_leaf (suc n) then 1 else 0)
unfolding is_leaf
leaves_step n fits =
    let (h, i, room, e) = coordinates (suc n) (omega arith) (omega arith) in
    let small : (i + 1) * 2 ^ h ≤ 2 ^ 61 = omega (arith, node_pos_bounds h i, e) in
    let place : n ≡ node_pos h i - 1 = omega (arith, e) in
    ground (
      arith,
      ap n_leaves e,
      ap n_leaves place,
      ap bintree_postorder_height e,
      height-node_pos h i (omega arith),
      after_node h i small,
      leaves_before h i (omega arith),
      ap (λ (t : ℕ). (i + 1) * 2 ^ t) {x = h} {y = 0},
    )

-- For a size below 2 ^ 61, a range's or not, `n_leaves` is the number of positions from 1 to the
-- size that `is_leaf` accepts.
pub n_leaves-leaf_count : (n : ℕ) → n < 2 ^ 61 → n_leaves n ≡ leaf_count n
n_leaves-leaf_count zero fits = unfold n_leaves peak_sizes_height in refl
n_leaves-leaf_count (suc n) fits =
    leaves_step n fits
    ∙ ap (λ (t : ℕ). t + (if is_leaf (suc n) then 1 else 0)) (n_leaves-leaf_count n (omega arith))
