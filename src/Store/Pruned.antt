-- ===== src/Store/Pruned.antt =====
-- What the caches of store/src/prune_list.rs tell once they are built.
use epic.Base.{
  ℕ, zero, suc, ◌+◌, ◌<◌, ◌^◌, ◌≡◌, refl, sym, ap, ◌∙◌, arith, dec_lt, inl, inr, Bool-cases, Bool,
  true, false, ◌&&◌, ◌||◌, List, [], ◌∷◌, length, some, ltb, leb, ◌==◌, if◌then◌else◌,
}
use epic.Base.Bits.{u64}
use epic.Pmmr.Index.{path, bintree_postorder_height}
use epic.Store.PruneList.{
  Bitmaps, u32, any, root_shift, root_leaf_shift, PruneList, cached_shift, get_shift,
  get_leaf_shift, push_shifts, build_shift_cache, build_leaf_shift_cache, prune_from,
  build_pruned_cache, init_caches, is_pruned,
}
use epic.Store.Roots.{nodes_under, leaves_under, shift_to-nodes_under, shift_to-leaves_under}
use epic.Store.Shifts.{IsBitmap, shift_to, sums, cached_shift-at, push_shifts-sums}

shift_to_nil :
    (shift : ℕ → ℕ) (n : ℕ) (xs : List ℕ) → (length xs == 0) ≡ true → shift_to shift n xs ≡ 0
unfolding shift_to
shift_to_nil shift n [] e = refl
shift_to_nil shift n (x ∷ xs) e = absurd (ground arith)

-- One position more.
join_true :
    (pos m n : ℕ) (c k : Bool)
    → (pos ≡ m → c ≡ true)
    → (leb (suc pos) m && (ltb m (suc pos + n) && c)) || ((pos == m) || k)
      ≡ (leb pos m && (ltb m (pos + suc n) && c)) || k
join_true pos m n c k h = elim (dec_lt pos m) [
  | yes lt ↦ ground arith
  | no ge ↦ elim (dec_lt m pos) [
    | yes lt ↦ ground arith
    | no le ↦ let same : c ≡ true = h (omega arith) in rw same (ground arith)
  ]
]

join_false :
    (pos m n : ℕ) (c k : Bool)
    → (pos ≡ m → c ≡ false)
    → (leb (suc pos) m && (ltb m (suc pos + n) && c)) || k
      ≡ (leb pos m && (ltb m (pos + suc n) && c)) || k
join_false pos m n c k h = elim (dec_lt pos m) [
  | yes lt ↦ ground arith
  | no ge ↦ elim (dec_lt m pos) [
    | yes lt ↦ ground arith
    | no le ↦ let same : c ≡ false = h (omega arith) in rw same (ground arith)
  ]
]

within :
    (pos top : ℕ) (c : Bool)
    → (leb 1 pos && (ltb pos (1 + top) && c)) || false ≡ leb 1 pos && (leb pos top && c)
within pos top c = ground arith

module _ (bitmaps : Bitmaps) where
  -- What the documentation of croaring says of the values of a bitmap.
  pub record AreValues : Type 0 where
    pub contains-create : (n : ℕ) → bitmaps.contains bitmaps.create n ≡ false
    pub contains-add :
        (b : bitmaps.Bitmap) (n m : ℕ)
        → bitmaps.contains (bitmaps.add b n) m ≡ (n == m) || bitmaps.contains b m

  -- A bitmap whose cache is built, if it needs one.
  built-shift :
      (b : bitmaps.Bitmap) (shift : ℕ → ℕ) (cache : List ℕ) (pos : ℕ)
      → IsBitmap bitmaps b
      → (bitmaps.is_empty b ≡ false → cache ≡ sums shift 0 (bitmaps.to_vec b))
      → cached_shift bitmaps b cache pos ≡ some (u64 (shift_to shift (u32 pos) (bitmaps.to_vec b)))
  unfolding cached_shift
  built-shift b shift cache pos law built = elim (Bool-cases (bitmaps.is_empty b)) [
    | inl e ↦
        let gone = shift_to_nil shift (u32 pos) (bitmaps.to_vec b) (sym law.is_empty_lem ∙ e) in
        rw (cached_shift, e, gone) refl
    | inr e ↦ rw (built e) (
        cached_shift-at bitmaps b shift pos (bitmaps.to_vec b) law.positive e
          (law.rank_lem (u32 pos)))
  ]

  -- The list with its caches built.
  unfoldable with_caches : PruneList bitmaps → PruneList bitmaps
  with_caches l = if bitmaps.is_empty l.bitmap then l else record l {
    shift_cache = sums root_shift 0 (bitmaps.to_vec l.bitmap);
    leaf_shift_cache = sums root_leaf_shift 0 (bitmaps.to_vec l.bitmap);
    pruned_cache = prune_from bitmaps l.bitmap (bitmaps.maximum l.bitmap) 1 bitmaps.create;
  }

  push_all :
      (b : bitmaps.Bitmap) (shift : ℕ → ℕ)
      → IsBitmap bitmaps b
      → push_shifts bitmaps shift b (bitmaps.to_vec b) [] ≡ some (sums shift 0 (bitmaps.to_vec b))
  unfolding sums
  push_all b shift law = push_shifts-sums bitmaps b shift [] (bitmaps.to_vec b) law refl

  init_caches-with_caches :
      (l : PruneList bitmaps)
      → IsBitmap bitmaps l.bitmap
      → init_caches bitmaps l ≡ some (with_caches l)
  unfolding init_caches build_shift_cache build_leaf_shift_cache build_pruned_cache with_caches
  init_caches-with_caches l law = elim (Bool-cases (bitmaps.is_empty l.bitmap)) [
    | inl e ↦
        rw (init_caches, build_shift_cache, e, build_leaf_shift_cache, e, build_pruned_cache, e)
          refl
    | inr e ↦
        let one = push_all l.bitmap root_shift law in
        let two = push_all l.bitmap root_leaf_shift law in
        rw
          (
            init_caches, build_shift_cache, e, one, build_leaf_shift_cache, e, two,
            build_pruned_cache, e,
          )
          refl
  ]

  built-shift_cong :
      (b : bitmaps.Bitmap) (shift told : ℕ → ℕ) (cache : List ℕ) (pos : ℕ)
      → IsBitmap bitmaps b
      → shift_to shift (u32 pos) (bitmaps.to_vec b) ≡ shift_to told (u32 pos) (bitmaps.to_vec b)
      → (bitmaps.is_empty b ≡ false → cache ≡ sums shift 0 (bitmaps.to_vec b))
      → cached_shift bitmaps b cache pos ≡ some (u64 (shift_to told (u32 pos) (bitmaps.to_vec b)))
  built-shift_cong b shift told cache pos law same built =
      built-shift b shift cache pos law built ∙ ap (λ (n : ℕ). some (u64 n)) same

  -- Once the caches are built, which never panics, a position is shifted by the sum, over the pruned
  -- roots up to it, of the nodes that the root's full tree has but the root, and a leaf by the sum of the
  -- leaves that these trees have, where a root that is a leaf itself counts for none. The bitmap is of
  -- positions from 1 on, and the sums are those of words of 64 bits.
  pub init_caches-shifts :
      (l : PruneList bitmaps)
      → IsBitmap bitmaps l.bitmap
      → (built : PruneList bitmaps) × (init_caches bitmaps l ≡ some built)
        × ((pos : ℕ)
            → get_shift bitmaps built pos
              ≡ some (
                  u64 (
                    shift_to
                      (λ root. nodes_under (bintree_postorder_height root))
                      (u32 pos)
                      (bitmaps.to_vec l.bitmap))))
        × ((pos : ℕ)
            → get_leaf_shift bitmaps built pos
              ≡ some (
                  u64 (
                    shift_to
                      (λ root. leaves_under (bintree_postorder_height root))
                      (u32 pos)
                      (bitmaps.to_vec l.bitmap))))
  unfolding with_caches get_shift get_leaf_shift
  init_caches-shifts l law = (
    with_caches l,
    init_caches-with_caches l law,
    λ pos.
        (let same = shift_to-nodes_under (u32 pos) (bitmaps.to_vec l.bitmap) law.positive in
          elim (Bool-cases (bitmaps.is_empty l.bitmap)) [
            | inl e ↦
                rw (with_caches, e)
                  (built-shift_cong l.bitmap root_shift _ l.shift_cache pos law same
                    (λ f. cc (e, f)))
            | inr e ↦
                rw (with_caches, e)
                  (built-shift_cong l.bitmap root_shift _
                    (sums root_shift 0 (bitmaps.to_vec l.bitmap)) pos law same (λ f. refl))
          ]),
    λ pos.
        (let same = shift_to-leaves_under (u32 pos) (bitmaps.to_vec l.bitmap) law.positive in
          elim (Bool-cases (bitmaps.is_empty l.bitmap)) [
            | inl e ↦
                rw (with_caches, e)
                  (built-shift_cong l.bitmap root_leaf_shift _ l.leaf_shift_cache pos law same
                    (λ f. cc (e, f)))
            | inr e ↦
                rw (with_caches, e)
                  (built-shift_cong l.bitmap root_leaf_shift _
                    (sums root_leaf_shift 0 (bitmaps.to_vec l.bitmap)) pos law same (λ f. refl))
          ]),
  )

  -- What the loop over the positions decides.
  abbrev pub covered : bitmaps.Bitmap → ℕ → Bool
  covered b m = any (λ x. bitmaps.contains b (u32 x)) (path m (bitmaps.maximum b))

  prune_from-contains :
      AreValues
      → (b : bitmaps.Bitmap) (n pos m : ℕ) (cache : bitmaps.Bitmap)
      → bitmaps.contains (prune_from bitmaps b n pos cache) m
        ≡ (leb pos m && (ltb m (pos + n) && covered b m)) || bitmaps.contains cache m
  unfolding prune_from
  prune_from-contains law b zero pos m cache = ground arith
  prune_from-contains law b (suc n) pos m cache = elim (Bool-cases (covered b pos)) [
    | inl e ↦
        let rest = prune_from-contains law b n (suc pos) m (bitmaps.add cache pos) in
        let added = law.contains-add cache pos m in
        rw e (
          rest
          ∙ ap (λ z. (leb (suc pos) m && (ltb m (suc pos + n) && covered b m)) || z) added
          ∙ join_true pos m n (covered b m) (bitmaps.contains cache m) (λ same. rw (← same) e))
    | inr e ↦
        let rest = prune_from-contains law b n (suc pos) m cache in
        rw e (
          rest
          ∙ join_false pos m n (covered b m) (bitmaps.contains cache m) (λ same. rw (← same) e))
  ]

  -- Once the caches are built, for a bitmap that is not empty, a position is pruned if and only if it
  -- is from 1 to the greatest root, and a root stands on its path to the top.
  pub init_caches-is_pruned :
      (l : PruneList bitmaps) (pos : ℕ)
      → AreValues
      → IsBitmap bitmaps l.bitmap
      → bitmaps.is_empty l.bitmap ≡ false
      → pos < 2 ^ 32
      → (built : PruneList bitmaps) × (init_caches bitmaps l ≡ some built)
        × (is_pruned bitmaps built pos
            ≡ leb 1 pos
              && (leb pos (bitmaps.maximum l.bitmap)
                  && any
                      (λ x. bitmaps.contains l.bitmap (u32 x))
                      (path pos (bitmaps.maximum l.bitmap))))
  unfolding with_caches is_pruned
  init_caches-is_pruned l pos values law e word =
      let here : u32 pos ≡ pos = omega arith in
      let told =
        prune_from-contains values l.bitmap (bitmaps.maximum l.bitmap) 1 pos bitmaps.create in
      let empty = values.contains-create pos in
      (
        with_caches l,
        init_caches-with_caches l law,
        rw (with_caches, e, is_pruned, here, told, empty)
            (within pos (bitmaps.maximum l.bitmap) (covered l.bitmap pos)),
      )
