-- ===== src/Store/Roots.antt =====
-- The shifts that a pruned root of store/src/prune_list.rs makes, against the walk of its tree.
use epic.Base.{
  ℕ, zero, suc, ◌+◌, ◌-◌, ◌%◌, ◌^◌, ◌≤◌, ◌<◌, ◌≡◌, refl, arith, List, [], ◌∷◌, ◌++◌, length, ◌==◌,
  if◌then◌else◌,
}
use epic.Base.Bits.{u64, two_pow_suc, two_pow_le, two_pow_pos}
use epic.Base.Predicates.{All, All-append, All-map, All-get_elem?}
use epic.Pmmr.Index.{bintree_postorder_height}
use epic.Pmmr.Index.Heights.{postorder_heights, length-postorder_heights, height-postorder_heights}
use epic.Store.PruneList.{root_shift, root_leaf_shift}
use epic.Store.Shifts.{Ascending, shift_to}

unfoldable pub count_zeros : List ℕ → ℕ
count_zeros [] = 0
count_zeros (x ∷ xs) = if x == 0 then suc (count_zeros xs) else count_zeros xs

-- The nodes under a root of a height: those of its full tree, but the root.
unfoldable pub nodes_under : ℕ → ℕ
nodes_under height = length (postorder_heights height) - 1

-- The leaves under a root of a height: those of its full tree, and none under a leaf.
unfoldable pub leaves_under : ℕ → ℕ
leaves_under height = if height == 0 then 0 else count_zeros (postorder_heights height)

count_zeros-append : (xs ys : List ℕ) → count_zeros (xs ++ ys) ≡ count_zeros xs + count_zeros ys
unfolding count_zeros
count_zeros-append [] ys = omega arith
count_zeros-append (x ∷ xs) ys = ground (arith, count_zeros-append xs ys)

count_zeros_root : (h : ℕ) → count_zeros (suc h ∷ []) ≡ 0
unfolding count_zeros
count_zeros_root h = ground arith

count_zeros-postorder_heights : (h : ℕ) → count_zeros (postorder_heights h) ≡ 2 ^ h
unfolding count_zeros
count_zeros-postorder_heights zero = refl
count_zeros-postorder_heights (suc h) = omega (
  arith,
  count_zeros-append (postorder_heights h) (postorder_heights h ++ suc h ∷ []),
  count_zeros-append (postorder_heights h) (suc h ∷ []),
  count_zeros_root h,
  count_zeros-postorder_heights h,
  two_pow_suc h,
)

postorder_heights_le : (h : ℕ) → All (λ x. x ≤ h) (postorder_heights h)
postorder_heights_le zero = (omega arith, tt)
postorder_heights_le (suc h) =
    let half : All (λ x. x ≤ suc h) (postorder_heights h) =
      All-map (λ x le. omega (arith, le)) (postorder_heights h) (postorder_heights_le h) in
    All-append (λ x. x ≤ suc h) _ _ half (All-append (λ x. x ≤ suc h) _ _ half (omega arith, tt))

height_le : (n pos : ℕ) → n ≤ 62 → 0 < pos → pos < 2 ^ suc n → bintree_postorder_height pos ≤ n
height_le n pos small above below =
    let inside : pos - 1 < length (postorder_heights n) =
      omega (arith, length-postorder_heights n) in
    let same : pos - 1 + 1 ≡ pos = omega arith in
    let found = height-postorder_heights n (pos - 1) small inside in
    let le : bintree_postorder_height (pos - 1 + 1) ≤ n =
      All-get_elem? (λ x. x ≤ n) (postorder_heights n) (pos - 1) (postorder_heights_le n) found in
    rw same at le

root_shift-nodes_under :
    (pos : ℕ) → 0 < pos → pos < 2 ^ 32 → root_shift pos ≡ nodes_under (bintree_postorder_height pos)
unfolding root_shift nodes_under
root_shift-nodes_under pos above below =
    let h = bintree_postorder_height pos in
    let le : h ≤ 32 = height_le 32 pos (omega arith) above (omega arith) in
    let inside : h % 64 ≡ h = omega arith in
    rw inside
      (omega (arith, two_pow_le h 32 le, two_pow_pos h, two_pow_suc h, length-postorder_heights h))

root_leaf_shift-leaves_under :
    (pos : ℕ)
    → 0 < pos
    → pos < 2 ^ 32
    → root_leaf_shift pos ≡ leaves_under (bintree_postorder_height pos)
unfolding root_leaf_shift leaves_under
root_leaf_shift-leaves_under pos above below =
    let h = bintree_postorder_height pos in
    let le : h ≤ 32 = height_le 32 pos (omega arith) above (omega arith) in
    let inside : h % 64 ≡ h = omega arith in
    let word : u64 (2 ^ h) ≡ 2 ^ h = omega (arith, two_pow_le h 32 le) in
    let count = count_zeros-postorder_heights h in rw (inside, word, count) refl

-- The sums of two shifts that agree on the positions of a bitmap are the same.
pub shift_to_cong :
    (f g : ℕ → ℕ)
    → ((pos : ℕ) → 0 < pos → pos < 2 ^ 32 → f pos ≡ g pos)
    → (n low : ℕ) (xs : List ℕ) → Ascending low xs
    → shift_to f n xs ≡ shift_to g n xs
unfolding shift_to
shift_to_cong f g agree n low [] a = refl
shift_to_cong f g agree n low (x ∷ xs) a =
    let above = a.0 in
    let same = agree x (omega arith) (a.1) in
    let rest = shift_to_cong f g agree n x xs (a.2) in rw (same, rest) refl

pub shift_to-nodes_under :
    (n : ℕ) (xs : List ℕ)
    → Ascending 0 xs
    → shift_to root_shift n xs ≡ shift_to (λ root. nodes_under (bintree_postorder_height root)) n xs
shift_to-nodes_under n xs a = shift_to_cong root_shift _ root_shift-nodes_under n 0 xs a

pub shift_to-leaves_under :
    (n : ℕ) (xs : List ℕ)
    → Ascending 0 xs
    → shift_to root_leaf_shift n xs
      ≡ shift_to (λ root. leaves_under (bintree_postorder_height root)) n xs
shift_to-leaves_under n xs a = shift_to_cong root_leaf_shift _ root_leaf_shift-leaves_under n 0 xs a
