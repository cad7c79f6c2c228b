-- ===== src/Store/PruneList.antt =====
-- store/src/prune_list.rs: the roots of pruned subtrees, and how far they shift what follows.
use epic.Base.{
  ℕ, zero, suc, ◌+◌, ◌-◌, ◌*◌, ◌%◌, ◌^◌, Bool, false, ◌||◌, List, [], ◌∷◌, ◌++◌, length, Option,
  none, some, get_elem?, ltb, ◌==◌, if◌then◌else◌,
}
use epic.Base.Bits.{u64}
use epic.Pmmr.Index.{path, bintree_postorder_height}

-- The bitmaps of the package croaring.
pub record Bitmaps : Type 1 where
  pub Bitmap : Type 0
  pub create : Bitmap
  pub add : Bitmap → ℕ → Bitmap
  pub remove : Bitmap → ℕ → Bitmap
  pub contains : Bitmap → ℕ → Bool
  pub rank : Bitmap → ℕ → ℕ
  pub maximum : Bitmap → ℕ
  pub cardinality : Bitmap → ℕ
  pub is_empty : Bitmap → Bool
  pub to_vec : Bitmap → List ℕ

-- `as u32`
abbrev pub u32 : ℕ → ℕ
u32 n = n % 2 ^ 32

unfoldable pub any : (ℕ → Bool) → List ℕ → Bool
any f [] = false
any f (x ∷ xs) = f x || any f xs

-- `2 * ((1 << height) - 1)`, the nodes under a root.
unfoldable pub root_shift : ℕ → ℕ
root_shift pos = u64 (2 * (u64 (2 ^ (bintree_postorder_height pos % 64)) - 1))

unfoldable pub root_leaf_shift : ℕ → ℕ
root_leaf_shift pos =
    let height = bintree_postorder_height pos in if height == 0 then 0 else u64 (2 ^ (height % 64))

module _ (bitmaps : Bitmaps) where
  pub record PruneList : Type 0 where
    pub bitmap : bitmaps.Bitmap
    pub pruned_cache : bitmaps.Bitmap
    pub shift_cache : List ℕ
    pub leaf_shift_cache : List ℕ

  unfoldable pub new : PruneList
  new = record {
    bitmap = bitmaps.create;
    pruned_cache = bitmaps.create;
    shift_cache = [];
    leaf_shift_cache = [];
  }

  unfoldable pub is_pruned_root : bitmaps.Bitmap → ℕ → Bool
  is_pruned_root bitmap pos = bitmaps.contains bitmap (u32 pos)

  -- What `get_shift` and `get_leaf_shift` read in their caches. An index out of range panics, and is
  -- `none`.
  unfoldable pub cached_shift : bitmaps.Bitmap → List ℕ → ℕ → Option ℕ
  cached_shift bitmap cache pos =
      if bitmaps.is_empty bitmap
      then some 0
      else (let idx = bitmaps.rank bitmap (u32 pos) in
          if idx == 0
          then some 0
          else if ltb (length cache) idx
          then get_elem? cache (length cache - 1)
          else get_elem? cache (idx - 1))

  unfoldable pub get_shift : PruneList → ℕ → Option ℕ
  get_shift l pos = cached_shift l.bitmap l.shift_cache pos

  unfoldable pub get_leaf_shift : PruneList → ℕ → Option ℕ
  get_leaf_shift l pos = cached_shift l.bitmap l.leaf_shift_cache pos

  unfoldable pub get_total_shift : PruneList → Option ℕ
  get_total_shift l = get_shift l (bitmaps.maximum l.bitmap)

  unfoldable pub get_total_leaf_shift : PruneList → Option ℕ
  get_total_leaf_shift l = get_leaf_shift l (bitmaps.maximum l.bitmap)

  -- The loops that push to a cache, with the shift of a root.
  unfoldable pub push_shifts : (ℕ → ℕ) → bitmaps.Bitmap → List ℕ → List ℕ → Option (List ℕ)
  push_shifts shift bitmap [] cache = some cache
  push_shifts shift bitmap (pos ∷ rest) cache =
      let curr_shift = if is_pruned_root bitmap pos then shift pos else 0 in
      elim (cached_shift bitmap cache (u64 (pos + 2 ^ 64 - 1))) [
        | none ↦ none
        | some prev_shift ↦
            push_shifts shift bitmap rest (cache ++ u64 (prev_shift + curr_shift) ∷ [])
      ]

  unfoldable pub build_shift_cache : PruneList → Option PruneList
  build_shift_cache l =
      if bitmaps.is_empty l.bitmap
      then some l
      else elim (push_shifts root_shift l.bitmap (bitmaps.to_vec l.bitmap) []) [
        | none ↦ none
        | some cache ↦ some (record l { shift_cache = cache })
      ]

  unfoldable pub build_leaf_shift_cache : PruneList → Option PruneList
  build_leaf_shift_cache l =
      if bitmaps.is_empty l.bitmap
      then some l
      else elim (push_shifts root_leaf_shift l.bitmap (bitmaps.to_vec l.bitmap) []) [
        | none ↦ none
        | some cache ↦ some (record l { leaf_shift_cache = cache })
      ]

  -- The loop over the positions from one on, so many of them.
  unfoldable pub prune_from : bitmaps.Bitmap → ℕ → ℕ → bitmaps.Bitmap → bitmaps.Bitmap
  prune_from bitmap zero pos cache = cache
  prune_from bitmap (suc n) pos cache =
      let pruned = any (λ x. bitmaps.contains bitmap (u32 x)) (path pos (bitmaps.maximum bitmap)) in
      prune_from bitmap n (suc pos) (if pruned then bitmaps.add cache pos else cache)

  unfoldable pub build_pruned_cache : PruneList → PruneList
  build_pruned_cache l = if bitmaps.is_empty l.bitmap then l else record l {
    pruned_cache = prune_from l.bitmap (bitmaps.maximum l.bitmap) 1 bitmaps.create;
  }

  unfoldable pub init_caches : PruneList → Option PruneList
  init_caches l = elim (build_shift_cache l) [
    | none ↦ none
    | some shifted ↦ elim (build_leaf_shift_cache shifted) [
      | none ↦ none
      | some built ↦ some (build_pruned_cache built)
    ]
  ]

  -- A list opened on the bitmap of a file.
  unfoldable pub open_list : bitmaps.Bitmap → Option PruneList
  open_list bitmap = init_caches (record new { bitmap = bitmap })

  unfoldable pub is_pruned : PruneList → ℕ → Bool
  is_pruned l pos = bitmaps.contains l.pruned_cache (u32 pos)
