-- ===== src/Pmmr/Tests.antt =====
-- Runs of the position arithmetic on the sizes that the comments of pmmr.rs show, a backend that
-- keeps its hashes in a list, and the theorems at concrete ranges.
use epic.Base.{
  ℕ, zero, suc, ◌+◌, ◌-◌, ◌*◌, ◌^◌, ◌≤◌, ◌<◌, ◌≡◌, ◌↔◌, refl, subst, arith, true, List, [], ◌∷◌,
  ◌++◌, Option, some, none, length, get_elem?, length-append, get_elem?-append_left,
  get_elem?-append_right, ◌==◌,
}
use epic.Base.Bits.{count_ones, leading_zeros, le-mul_two_pow, mul-two_pow_suc}
use epic.Pmmr.Index.{
  peaks, peak_sizes_height, peak_map_height, n_leaves, insertion_to_pmmr_index, family,
  family_branch, path, peaks_loop, sizes_loop, map_loop, branch_loop, path_loop, top_peak_size,
  is_leaf, is_left_sibling, bintree_postorder_height,
}
use epic.Pmmr.Index.Place.{node_pos, peak_map_height-node}
use epic.Pmmr.Index.Family.{other, family-node_pos}
use epic.Pmmr.Index.Heights.{height-postorder_heights, is_leaf-insertion_to_pmmr_index}
use epic.Pmmr.Index.Leaves.{leaf_count, n_leaves-leaf_count}
use epic.Pmmr.Index.Peaks.{mmr_size, peak_nodes, peaks-mmr_size}
use epic.Pmmr.Backend.{ok, Hashing, Backend, Appends}
use epic.Pmmr.Range.{Pmmr, push, root, bag}
use epic.Pmmr.Range.Root.{peak_hashes, root_lem}
use epic.Pmmr.Range.Push.{IsRange, node_hash, push-IsRange}

peaks_of_eleven : peaks 11 ≡ 7 ∷ 10 ∷ 11 ∷ []
unfolding peaks peaks_loop top_peak_size leading_zeros
peaks_of_eleven = refl

no_peaks_of_two : peaks 2 ≡ []
unfolding peaks peaks_loop top_peak_size leading_zeros
no_peaks_of_two = refl

sizes_of_five : peak_sizes_height 5 ≡ (3 ∷ 1 ∷ [], 1)
unfolding peak_sizes_height sizes_loop top_peak_size leading_zeros
sizes_of_five = refl

map_of_four : peak_map_height 4 ≡ (3, 0)
unfolding peak_map_height map_loop top_peak_size leading_zeros
map_of_four = refl

branch_of_one : family_branch 1 7 ≡ (3, 2) ∷ (7, 6) ∷ []
unfolding family_branch branch_loop peak_map_height map_loop top_peak_size leading_zeros
branch_of_one = refl

path_of_one : path 1 7 ≡ 1 ∷ 3 ∷ 7 ∷ []
unfolding path path_loop peak_map_height map_loop top_peak_size leading_zeros
path_of_one = refl

peak_map_height-node_example : peak_map_height (node_pos 1 1 - 1) ≡ (3, 1)
peak_map_height-node_example = peak_map_height-node 1 1 (omega arith)

family-node_pos_example :
    (family (node_pos 1 (2 * 0 + 1)) ≡ (node_pos 2 0, node_pos 1 (2 * 0 + other 1)))
    × (is_left_sibling (node_pos 1 (2 * 0 + 1)) ≡ (1 == 0))
family-node_pos_example = family-node_pos 1 0 1 (omega arith) (omega arith)

height-postorder_heights_example : some 1 ≡ some (bintree_postorder_height (5 + 1))
height-postorder_heights_example = height-postorder_heights 2 5 (omega arith) (omega arith)

n_leaves-leaf_count_example : n_leaves 11 ≡ leaf_count 11
n_leaves-leaf_count_example = n_leaves-leaf_count 11 (omega arith)

is_leaf-insertion_to_pmmr_index_example :
    (is_leaf 8 ≡ true) ↔ ((n : ℕ) × (n < 2 ^ 62) × (8 ≡ insertion_to_pmmr_index (n + 1)))
is_leaf-insertion_to_pmmr_index_example =
    is_leaf-insertion_to_pmmr_index 8 (omega arith) (omega arith)

peaks-mmr_size_example : peaks (mmr_size 7) ≡ peak_nodes 3 0 7
peaks-mmr_size_example = peaks-mmr_size 7 3 (omega arith) (omega arith)

abbrev pub toy_hashing : Hashing
toy_hashing = record {
  Element = ℕ;
  Hash = ℕ;
  zero_hash = 0;
  hash_element = λ x i. 5 * x + i;
  hash_pair = λ l r i. l + 3 * r + 7 * i;
  same = ◌==◌;
}

-- Positions count from 1.
abbrev pub list_get : List ℕ → ℕ → Option ℕ
list_get hs zero = none
list_get hs (suc p) = get_elem? hs p

abbrev pub list_backend : Backend toy_hashing
list_backend = record {
  Store = List ℕ;
  append = λ s x hs. ok (s ++ hs);
  rewind = λ s p bitmap. ok s;
  remove = λ s p. ok s;
  get_hash = list_get;
  get_data = λ s p. none;
  get_from_file = list_get;
}

list_get-old : (s hs : List ℕ) (p : ℕ) → p ≤ length s → list_get (s ++ hs) p ≡ list_get s p
list_get-old s hs zero le = refl
list_get-old s hs (suc p) le = get_elem?-append_left s hs p le

list_get-new : (s hs : List ℕ) (p : ℕ) → list_get (s ++ hs) (length s + p + 1) ≡ get_elem? hs p
list_get-new s hs p =
    let next : length s + p + 1 ≡ suc (length s + p) = omega arith in
    rw next (get_elem?-append_right s hs (length s + p) p refl)

list_backend-Appends : Appends list_backend
list_backend-Appends = record {
  stored = length;
  appended = λ s x hs. s ++ hs;
  append_ok = λ s x hs. refl;
  stored_append = λ s x hs. length-append s hs;
  append_old = λ s x hs p le. list_get-old s hs p le;
  append_new = λ s x hs p. list_get-new s hs p;
}

abbrev leaf_values : ℕ → ℕ
leaf_values n = n + 10

abbrev one_leaf : Pmmr list_backend
one_leaf = record { last_pos = 1; backend = 50 ∷ [] }

first_node : list_get (50 ∷ []) (node_pos 0 0) ≡ some (node_hash toy_hashing leaf_values 0 0)
unfolding node_pos count_ones node_hash
first_node = refl

one_leaf_nodes :
    (h i : ℕ)
    → (i + 1) * 2 ^ h ≤ 1
    → list_get (50 ∷ []) (node_pos h i) ≡ some (node_hash toy_hashing leaf_values h i)
one_leaf_nodes zero i le =
    let first : 0 ≡ i = omega arith in
    subst
      (λ (t : ℕ). list_get (50 ∷ []) (node_pos 0 t) ≡ some (node_hash toy_hashing leaf_values 0 t))
      first first_node
one_leaf_nodes (suc h) i le =
    absurd (omega (arith, mul-two_pow_suc (i + 1) h, le-mul_two_pow (i + 1) h))

one_leaf-IsRange : IsRange list_backend-Appends leaf_values 1 one_leaf
unfolding mmr_size count_ones list_backend-Appends
one_leaf-IsRange = record { sized = refl; stored = refl; nodes = one_leaf_nodes }

push-IsRange_example :
    (r' : Pmmr list_backend) × (push one_leaf 11 ≡ ok (node_pos 0 1, r'))
    × IsRange list_backend-Appends leaf_values 2 r'
push-IsRange_example =
    push-IsRange list_backend-Appends leaf_values 1 (omega arith) one_leaf one_leaf-IsRange

abbrev two_leaves :
    (r' : Pmmr list_backend) × (push one_leaf 11 ≡ ok (node_pos 0 1, r'))
    × IsRange list_backend-Appends leaf_values 2 r'
two_leaves = push-IsRange list_backend-Appends leaf_values 1 (omega arith) one_leaf one_leaf-IsRange

root_lem_example :
    (h : ℕ) × (root two_leaves.0 ≡ some h)
    × (bag toy_hashing (mmr_size 2) (peak_hashes toy_hashing leaf_values 60 0 2) ≡ some h)
root_lem_example =
    root_lem list_backend-Appends leaf_values 2 two_leaves.0 two_leaves.2 (omega arith)
      (omega arith)
