-- ===== src/Pmmr/Index/Heights.antt =====
-- `bintree_postorder_height` against the list of heights that a postorder walk of a full tree
-- writes, and `is_leaf` against the positions where the leaves go.
use epic.Base.{
  ℕ, zero, suc, ◌+◌, ◌-◌, ◌*◌, ◌^◌, ◌≤◌, ◌<◌, ◌≡◌, refl, sym, ap, ◌∙◌, arith, List, [], ◌∷◌, ◌++◌,
  Option, some, ◌↔◌, true, ◌==◌, ==_iff, length, get_elem?, length-append, dec_lt,
  get_elem?-append_left, get_elem?-append_right,
}
use epic.Base.Bits.{
  two_pow_suc, mul-two_pow_suc, le-mul_two_pow, count_ones, count_ones-le, count_ones-double,
  two_pow_le,
}
use epic.Pmmr.Index.{bintree_postorder_height, is_leaf, insertion_to_pmmr_index}
use epic.Pmmr.Index.Place.{node_pos}
use epic.Pmmr.Index.Family.{child_facts, node_pos-parent, height-node_pos}

-- The heights of the nodes of a full tree, in postorder: the left half, the right half, the root.
abbrev pub postorder_heights : ℕ → List ℕ
postorder_heights zero = 0 ∷ []
postorder_heights (suc h) = postorder_heights h ++ (postorder_heights h ++ suc h ∷ [])

pub length-postorder_heights : (h : ℕ) → length (postorder_heights h) + 1 ≡ 2 ^ suc h
length-postorder_heights zero = refl
length-postorder_heights (suc h) = omega (
  arith,
  length-append (postorder_heights h) (postorder_heights h ++ suc h ∷ []),
  length-append (postorder_heights h) (suc h ∷ []),
  length-postorder_heights h,
  two_pow_suc (suc h),
)

-- What the tree over the node `i` of the level `h` has before it.
before : ℕ → ℕ → ℕ
before h i = i * 2 ^ suc h - count_ones i

before_facts :
    (h j : ℕ)
    → (j + 1) * 2 ^ suc h ≤ 2 ^ 62
    → (before h (2 * j + 0) ≡ before (suc h) j)
      × (before h (2 * j + 1) ≡ before (suc h) j + (2 ^ suc h - 1))
      × (node_pos (suc h) j ≡ before (suc h) j + (2 ^ suc (suc h) - 1))
unfolding before
before_facts h j fits = omega (
  arith,
  child_facts h j 0 (omega arith) fits,
  count_ones-double 62 j 0 (omega arith) small (omega arith),
  count_ones-double 62 j 1 (omega arith) small (omega arith),
  node_pos-parent h j 0 (omega arith) fits,
  mul-two_pow_suc j (suc h),
  mul-two_pow_suc (j + 1) (suc h),
  two_pow_suc (suc h),
  count_ones-le j,
  le-mul_two_pow j (suc h),
)
  where
    small : j < 2 ^ 62
    small = omega (arith, child_facts h j 0 (omega arith) fits)

-- The heights of the positions of a tree, in order, are those of the walk.
tree_heights :
    (h i p : ℕ)
    → (i + 1) * 2 ^ h ≤ 2 ^ 62
    → p < length (postorder_heights h)
    → get_elem? (postorder_heights h) p ≡ some (bintree_postorder_height (before h i + p + 1))
tree_heights zero i zero fits inside =
    ap some (sym (ap bintree_postorder_height leaf ∙ height-node_pos 0 i (omega arith)))
  where
    leaf : before 0 i + 0 + 1 ≡ node_pos 0 i
    leaf = unfold before node_pos in omega (arith, count_ones-le i)
tree_heights zero i (suc p) fits inside = absurd (omega arith)
tree_heights (suc h) i p fits inside = elim (dec_lt p n) [
  | yes left ↦
      get_elem?-append_left _ _ p left
      ∙ tree_heights h (2 * i + 0) p left_fits left
      ∙ ap height_at (ap (λ (t : ℕ). t + p + 1) starts.0)
  | no past ↦ elim (dec_lt (p - n) n) [
    | yes right ↦
        get_elem?-append_right (postorder_heights h) (postorder_heights h ++ suc h ∷ []) p (p - n)
          (omega arith)
        ∙ get_elem?-append_left (postorder_heights h) (suc h ∷ []) (p - n) right
        ∙ tree_heights h (2 * i + 1) (p - n) right_fits right
        ∙ ap height_at (omega (arith, starts, walk))
    | no root ↦
        get_elem?-append_right (postorder_heights h) (postorder_heights h ++ suc h ∷ []) p n
          (omega (arith, walk, whole, inside))
        ∙ get_elem?-append_right (postorder_heights h) (suc h ∷ []) n 0 (omega arith)
        ∙ ap some (sym (height-node_pos (suc h) i (omega (arith, fits))))
        ∙ ap height_at (omega (arith, starts, walk, whole, inside, two_pow_suc (suc h)))
  ]
]
  where
    n : ℕ
    n = length (postorder_heights h)

    height_at : ℕ → Option ℕ
    height_at q = some (bintree_postorder_height q)

    left_fits : (2 * i + 0 + 1) * 2 ^ h ≤ 2 ^ 62
    left_fits = omega (arith, child_facts h i 0 (omega arith) fits)

    right_fits : (2 * i + 1 + 1) * 2 ^ h ≤ 2 ^ 62
    right_fits = omega (arith, child_facts h i 1 (omega arith) fits)

    starts :
        (before h (2 * i + 0) ≡ before (suc h) i)
        × (before h (2 * i + 1) ≡ before (suc h) i + (2 ^ suc h - 1))
        × (node_pos (suc h) i ≡ before (suc h) i + (2 ^ suc (suc h) - 1))
    starts = before_facts h i fits

    walk : n + 1 ≡ 2 ^ suc h
    walk = length-postorder_heights h

    whole : length (postorder_heights (suc h)) + 1 ≡ 2 ^ suc (suc h)
    whole = length-postorder_heights (suc h)

-- At each position of a full tree with up to 2 ^ 62 leaves, `bintree_postorder_height` is the height
-- that a postorder walk of the tree writes there.
pub height-postorder_heights :
    (h p : ℕ)
    → h ≤ 62
    → p < length (postorder_heights h)
    → get_elem? (postorder_heights h) p ≡ some (bintree_postorder_height (p + 1))
height-postorder_heights h p fits inside =
    tree_heights h 0 p (omega (arith, two_pow_le h 62 fits)) inside
    ∙ ap (λ (q : ℕ). some (bintree_postorder_height q)) start
  where
    start : before h 0 + p + 1 ≡ p + 1
    start = unfold before in omega (arith, count_ones-le 0)

-- Every position of a tree is that of a node.
tree_nodes :
    (h i p : ℕ)
    → (i + 1) * 2 ^ h ≤ 2 ^ 62
    → p < length (postorder_heights h)
    → (h' : ℕ) × (i' : ℕ) × ((i' + 1) * 2 ^ h' ≤ 2 ^ 62) × (before h i + p + 1 ≡ node_pos h' i')
tree_nodes zero i zero fits inside =
    (0, i, fits, unfold before node_pos in omega (arith, count_ones-le i))
tree_nodes zero i (suc p) fits inside = absurd (omega arith)
tree_nodes (suc h) i p fits inside = elim (dec_lt p n) [
  | yes left ↦
      let (h', i', fits', e) = tree_nodes h (2 * i + 0) p left_fits left in
      (h', i', fits', omega (arith, e, starts))
  | no past ↦ elim (dec_lt (p - n) n) [
    | yes right ↦
        let (h', i', fits', e) = tree_nodes h (2 * i + 1) (p - n) right_fits right in
        (h', i', fits', omega (arith, e, starts, walk))
    | no root ↦ (suc h, i, fits, omega (arith, starts, walk, whole, inside, two_pow_suc (suc h)))
  ]
]
  where
    n : ℕ
    n = length (postorder_heights h)

    left_fits : (2 * i + 0 + 1) * 2 ^ h ≤ 2 ^ 62
    left_fits = omega (arith, child_facts h i 0 (omega arith) fits)

    right_fits : (2 * i + 1 + 1) * 2 ^ h ≤ 2 ^ 62
    right_fits = omega (arith, child_facts h i 1 (omega arith) fits)

    starts :
        (before h (2 * i + 0) ≡ before (suc h) i)
        × (before h (2 * i + 1) ≡ before (suc h) i + (2 ^ suc h - 1))
        × (node_pos (suc h) i ≡ before (suc h) i + (2 ^ suc (suc h) - 1))
    starts = before_facts h i fits

    walk : n + 1 ≡ 2 ^ suc h
    walk = length-postorder_heights h

    whole : length (postorder_heights (suc h)) + 1 ≡ 2 ^ suc (suc h)
    whole = length-postorder_heights (suc h)

coordinates_below :
    (k p : ℕ)
    → k ≤ 62
    → 0 < p
    → p < 2 ^ suc k
    → (h : ℕ) × (i : ℕ) × ((i + 1) * 2 ^ h ≤ 2 ^ 62) × (p ≡ node_pos h i)
coordinates_below k p room pos fits =
    let (h, i, below, e) =
      tree_nodes k 0 (p - 1) (omega (arith, two_pow_le k 62 room))
        (omega (arith, length-postorder_heights k)) in
    (h, i, below, omega (arith, from_start, e))
  where
    from_start : before k 0 + (p - 1) + 1 ≡ p
    from_start = unfold before in omega (arith, count_ones-le 0)

pub coordinates :
    (p : ℕ)
    → 0 < p
    → p < 2 ^ 63
    → (h : ℕ) × (i : ℕ) × ((i + 1) * 2 ^ h ≤ 2 ^ 62) × (p ≡ node_pos h i)
coordinates p pos fits = coordinates_below 62 p (omega arith) pos fits

pub insertion_index : (n : ℕ) → insertion_to_pmmr_index (n + 1) ≡ node_pos 0 n
unfolding insertion_to_pmmr_index node_pos
insertion_index n = ground (arith, count_ones-le n)

-- For a position from 1 on and below 2 ^ 63, `is_leaf` is true exactly when
-- `insertion_to_pmmr_index` gives the position for one of the first 2 ^ 62 insertions.
pub is_leaf-insertion_to_pmmr_index :
    (p : ℕ)
    → 0 < p
    → p < 2 ^ 63
    → (is_leaf p ≡ true) ↔ ((n : ℕ) × (n < 2 ^ 62) × (p ≡ insertion_to_pmmr_index (n + 1)))
unfolding is_leaf
is_leaf-insertion_to_pmmr_index p pos fits = (there, back)
  where
    there :
        (bintree_postorder_height p == 0) ≡ true
        → (n : ℕ) × (n < 2 ^ 62) × (p ≡ insertion_to_pmmr_index (n + 1))
    there leaf =
        let (h, i, room, e) = coordinates p pos fits in
        let height : bintree_postorder_height p ≡ h =
          ap bintree_postorder_height e ∙ height-node_pos h i (omega (arith, room)) in
        let ground_level : h ≡ 0 = omega (arith, height, (==_iff _ 0).0 leaf) in
        let place : p ≡ node_pos 0 i = e ∙ ap (λ (t : ℕ). node_pos t i) ground_level in
        (i, omega (arith, room, le-mul_two_pow (i + 1) h), place ∙ sym (insertion_index i))

    back :
        (n : ℕ) × (n < 2 ^ 62) × (p ≡ insertion_to_pmmr_index (n + 1))
        → (bintree_postorder_height p == 0) ≡ true
    back (n, small, e) =
        (==_iff _ 0).1
          (ap bintree_postorder_height (e ∙ insertion_index n) ∙ height-node_pos 0 n (omega arith))
