-- ===== src/Pmmr/Index.antt =====
-- core/src/core/pmmr/pmmr.rs, the free functions: positions in a Merkle mountain range. Positions
-- are 1-based, in postorder. A `while peak_size != 0` loop has fuel 64, since a `u64` is 0 after 64
-- halvings.
pub mod Place
pub mod Family
pub mod Heights
pub mod Leaves
pub mod Peaks
pub mod Size
use epic.Base.{
  ℕ, zero, suc, ◌+◌, ◌-◌, ◌*◌, ◌/◌, ◌%◌, ◌^◌, Bool, true, false, not, List, [], ◌∷◌, ◌++◌, ◌==◌,
  ltb, leb, if◌then◌else◌, bit_and, bit_or,
}
pub use epic.Base.Bits.{u64_mod, u64}
use epic.Base.Bits.{leading_zeros, count_ones}

-- `ALL_ONES`
abbrev pub all_ones : ℕ
all_ones = u64_mod - 1

-- `ALL_ONES >> num.leading_zeros()`
unfoldable pub top_peak_size : ℕ → ℕ
top_peak_size num = all_ones / 2 ^ leading_zeros num

-- The loop of `peaks`: fuel, `peak_size`, `num_left`, `sum_prev_peaks` and `peaks`.
unfoldable pub peaks_loop : ℕ → ℕ → ℕ → ℕ → List ℕ → List ℕ × ℕ
peaks_loop zero peak_size num_left sum_prev_peaks found = (found, num_left)
peaks_loop (suc fuel) peak_size num_left sum_prev_peaks found = elim (peak_size == 0) [
  | true ↦ (found, num_left)
  | false ↦ elim (leb peak_size num_left) [
    | true ↦
        peaks_loop fuel (peak_size / 2) (num_left - peak_size) (sum_prev_peaks + peak_size)
          (found ++ (sum_prev_peaks + peak_size) ∷ [])
    | false ↦ peaks_loop fuel (peak_size / 2) num_left sum_prev_peaks found
  ]
]

finish_peaks : List ℕ × ℕ → List ℕ
finish_peaks (found, num_left) = if ltb 0 num_left then [] else found

unfoldable pub peaks : ℕ → List ℕ
unfolding finish_peaks
peaks num = if num == 0 then [] else finish_peaks (peaks_loop 64 (top_peak_size num) num 0 [])

-- The loop of `peak_sizes_height`: fuel, `peak_size`, `size_left` and `sizes`.
unfoldable pub sizes_loop : ℕ → ℕ → ℕ → List ℕ → List ℕ × ℕ
sizes_loop zero peak_size size_left sizes = (sizes, size_left)
sizes_loop (suc fuel) peak_size size_left sizes = elim (peak_size == 0) [
  | true ↦ (sizes, size_left)
  | false ↦ elim (leb peak_size size_left) [
    | true ↦ sizes_loop fuel (peak_size / 2) (size_left - peak_size) (sizes ++ peak_size ∷ [])
    | false ↦ sizes_loop fuel (peak_size / 2) size_left sizes
  ]
]

unfoldable pub peak_sizes_height : ℕ → List ℕ × ℕ
peak_sizes_height size = if size == 0 then ([], 0) else sizes_loop 64 (top_peak_size size) size []

sum_leaves : List ℕ → ℕ
sum_leaves [] = 0
sum_leaves (n ∷ sizes) = (n + 1) / 2 + sum_leaves sizes

count_leaves : List ℕ × ℕ → ℕ
unfolding sum_leaves
count_leaves (sizes, height) = if height == 0 then sum_leaves sizes else sum_leaves sizes + 1

unfoldable pub n_leaves : ℕ → ℕ
unfolding count_leaves
n_leaves size = count_leaves (peak_sizes_height size)

-- Nothing overflows for an `sz` up to 2 ^ 63.
unfoldable pub insertion_to_pmmr_index : ℕ → ℕ
insertion_to_pmmr_index sz =
    if sz == 0 then 0 else (let sz' = sz - 1 in 2 * sz' - count_ones sz' + 1)

-- The loop of `peak_map_height`: fuel, `peak_size`, `bitmap` and `pos`.
unfoldable pub map_loop : ℕ → ℕ → ℕ → ℕ → ℕ × ℕ
map_loop zero peak_size bitmap pos = (bitmap, pos)
map_loop (suc fuel) peak_size bitmap pos = elim (peak_size == 0) [
  | true ↦ (bitmap, pos)
  | false ↦ elim (leb peak_size pos) [
    | true ↦ map_loop fuel (peak_size / 2) (bit_or (u64 (bitmap * 2)) 1) (pos - peak_size)
    | false ↦ map_loop fuel (peak_size / 2) (u64 (bitmap * 2)) pos
  ]
]

unfoldable pub peak_map_height : ℕ → ℕ × ℕ
peak_map_height pos = if pos == 0 then (0, 0) else map_loop 64 (top_peak_size pos) 0 pos

unfoldable pub bintree_postorder_height : ℕ → ℕ
bintree_postorder_height num = if num == 0 then 0 else (peak_map_height (num - 1)).1

unfoldable pub is_leaf : ℕ → Bool
is_leaf pos = bintree_postorder_height pos == 0

-- `(peak_map & peak) != 0`
abbrev pub has_peak : ℕ → ℕ → Bool
has_peak peak_map peak = not (bit_and peak_map peak == 0)

-- The functions below read `peak_map_height(pos - 1)` for a position of a node, so `pos` is not 0.
unfoldable pub family : ℕ → ℕ × ℕ
family pos =
    let (peak_map, height) = peak_map_height (pos - 1) in
    let peak = 2 ^ height in
    if has_peak peak_map peak
    then (u64 (pos + 1), u64 (pos + 1) - u64 (2 * peak))
    else (u64 (pos + u64 (2 * peak)), u64 (pos + u64 (2 * peak)) - 1)

unfoldable pub is_left_sibling : ℕ → Bool
is_left_sibling pos =
    let (peak_map, height) = peak_map_height (pos - 1) in bit_and peak_map (2 ^ height) == 0

-- The loop of `path`: each round climbs to the parent, so `last_pos + 1` rounds are enough.
unfoldable pub path_loop : ℕ → ℕ → ℕ → ℕ → ℕ → List ℕ
path_loop zero peak_map peak current last_pos = []
path_loop (suc fuel) peak_map peak current last_pos = elim (leb current last_pos) [
  | true ↦
      current
      ∷ path_loop fuel peak_map (u64 (peak * 2))
          (u64 (current + (if has_peak peak_map peak then 1 else u64 (2 * peak)))) last_pos
  | false ↦ []
]

unfoldable pub path : ℕ → ℕ → List ℕ
path pos last_pos =
    let (peak_map, height) = peak_map_height (pos - 1) in
    path_loop (suc last_pos) peak_map (2 ^ height) pos last_pos

-- The loop of `family_branch`.
unfoldable pub branch_loop : ℕ → ℕ → ℕ → ℕ → ℕ → List (ℕ × ℕ)
branch_loop zero peak_map peak current last_pos = []
branch_loop (suc fuel) peak_map peak current last_pos = elim (ltb current last_pos) [
  | true ↦
      let up = has_peak peak_map peak in
      let parent = u64 (current + (if up then 1 else u64 (2 * peak))) in
      let sibling = parent - (if up then u64 (2 * peak) else 1) in
      elim (ltb last_pos parent) [
        | true ↦ []
        | false ↦ (parent, sibling) ∷ branch_loop fuel peak_map (u64 (peak * 2)) parent last_pos
      ]
  | false ↦ []
]

unfoldable pub family_branch : ℕ → ℕ → List (ℕ × ℕ)
family_branch pos last_pos =
    let (peak_map, height) = peak_map_height (pos - 1) in
    branch_loop (suc last_pos) peak_map (2 ^ height) pos last_pos

unfoldable pub bintree_rightmost : ℕ → ℕ
bintree_rightmost num = num - bintree_postorder_height num

unfoldable pub bintree_leftmost : ℕ → ℕ
bintree_leftmost num = num + 2 - u64 (2 * 2 ^ bintree_postorder_height num)
