-- ===== src/Store/Tests.antt =====
-- Small files and bitmaps, and the theorems at them.
use epic.Base.{ℕ, ◌≡◌, refl, arith, List, [], ◌∷◌, length}
use epic.Base.{◌&&◌, ◌||◌, some, ltb, leb, ◌==◌, if◌then◌else◌}
use epic.Base.Bits.{u64, leading_zeros}
use epic.Pmmr.Index.{path, bintree_postorder_height, peak_map_height, map_loop, top_peak_size}
use epic.Store.PruneList.{
  Bitmaps, u32, any, root_shift, PruneList, get_shift, get_leaf_shift, init_caches, is_pruned,
}
use epic.Store.Shifts.{is_in, count_to, shift_to, IsBitmap}
use epic.Store.Roots.{nodes_under, leaves_under}
use epic.Store.Pruned.{AreValues, init_caches-shifts, init_caches-is_pruned}
use epic.Store.File.{open_file, read, size_in_elmts, size_unsync_in_elmts}
use epic.Store.Log.{
  Command, appending, rewinding, flushing, discarding, view, saved_log, step, steps, runs,
  IsAllowed, AreAllowed,
}
use epic.Store.Concat.{concat}
use epic.Store.Reading.{bytes_at, runs-view}

abbrev elements : List (List ℕ)
elements = (1 ∷ 2 ∷ []) ∷ (3 ∷ 4 ∷ []) ∷ (5 ∷ 6 ∷ []) ∷ []

abbrev commands : List Command
commands =
    appending (7 ∷ 8 ∷ [])
    ∷ discarding
    ∷ rewinding 2
    ∷ rewinding 1
    ∷ appending (9 ∷ 9 ∷ [])
    ∷ flushing
    ∷ appending (0 ∷ 1 ∷ [])
    ∷ []

commands-AreAllowed : AreAllowed 2 commands (saved_log elements)
unfolding AreAllowed IsAllowed step saved_log view
commands-AreAllowed = (
  (refl, omega arith),
  (
    tt,
    (
      (omega arith, refl),
      ((omega arith, refl), ((refl, omega arith), (tt, ((refl, omega arith), tt)))),
    ),
  ),
)

runs-view_example :
    ((runs 2 commands (open_file 2 (concat elements))).content
      ≡ concat (steps commands (saved_log elements)).saved)
    × (size_in_elmts 2 (runs 2 commands (open_file 2 (concat elements)))
        ≡ length (steps commands (saved_log elements)).saved)
    × (size_unsync_in_elmts 2 (runs 2 commands (open_file 2 (concat elements)))
        ≡ length (view (steps commands (saved_log elements))))
    × ((i : ℕ)
        → read 2 (runs 2 commands (open_file 2 (concat elements))) i
          ≡ bytes_at (view (steps commands (saved_log elements))) i)
runs-view_example =
    runs-view 2 elements commands (omega arith) (refl, (refl, (refl, tt))) (omega arith)
      commands-AreAllowed

-- Bitmaps as ascending lists.
unfoldable put_in : ℕ → List ℕ → List ℕ
put_in n [] = n ∷ []
put_in n (x ∷ xs) = if ltb n x then n ∷ x ∷ xs else if n == x then x ∷ xs else x ∷ put_in n xs

unfoldable delete : ℕ → List ℕ → List ℕ
delete n [] = []
delete n (x ∷ xs) = if n == x then xs else x ∷ delete n xs

unfoldable greatest : List ℕ → ℕ
greatest [] = 0
greatest (x ∷ []) = x
greatest (x ∷ y ∷ xs) = greatest (y ∷ xs)

abbrev list_bitmaps : Bitmaps
list_bitmaps = record {
  Bitmap = List ℕ;
  create = [];
  add = λ b n. put_in n b;
  remove = λ b n. delete n b;
  contains = λ b n. is_in n b;
  rank = λ b n. count_to n b;
  maximum = greatest;
  cardinality = λ b. length b;
  is_empty = λ b. length b == 0;
  to_vec = λ b. b;
}

is_in-put_in : (xs : List ℕ) (n m : ℕ) → is_in m (put_in n xs) ≡ (n == m) || is_in m xs
unfolding is_in put_in
is_in-put_in [] n m = ground arith
is_in-put_in (x ∷ xs) n m = ground (arith, is_in-put_in xs n m)

list_bitmaps-AreValues : AreValues list_bitmaps
unfolding is_in
list_bitmaps-AreValues = record {
  contains-create = λ n. refl;
  contains-add = λ b n m. is_in-put_in b n m;
}

-- Two pruned subtrees of four leaves and a pruned leaf.
abbrev pruned_list : PruneList list_bitmaps
pruned_list = record {
  bitmap = 7 ∷ 14 ∷ 16 ∷ [];
  pruned_cache = [];
  shift_cache = [];
  leaf_shift_cache = [];
}

pruned_list-IsBitmap : IsBitmap list_bitmaps (7 ∷ 14 ∷ 16 ∷ [])
pruned_list-IsBitmap = record {
  positive = (omega arith, omega arith, (omega arith, omega arith, (omega arith, omega arith, tt)));
  contains_lem = λ n. refl;
  rank_lem = λ n. refl;
  is_empty_lem = refl;
}

init_caches-shifts_example :
    (built : PruneList list_bitmaps) × (init_caches list_bitmaps pruned_list ≡ some built)
    × ((pos : ℕ)
        → get_shift list_bitmaps built pos
          ≡ some (
              u64 (
                shift_to
                  (λ root. nodes_under (bintree_postorder_height root))
                  (u32 pos)
                  (7 ∷ 14 ∷ 16 ∷ []))))
    × ((pos : ℕ)
        → get_leaf_shift list_bitmaps built pos
          ≡ some (
              u64 (
                shift_to
                  (λ root. leaves_under (bintree_postorder_height root))
                  (u32 pos)
                  (7 ∷ 14 ∷ 16 ∷ []))))
init_caches-shifts_example = init_caches-shifts list_bitmaps pruned_list pruned_list-IsBitmap

init_caches-is_pruned_example :
    (built : PruneList list_bitmaps) × (init_caches list_bitmaps pruned_list ≡ some built)
    × (is_pruned list_bitmaps built 10
        ≡ leb 1 10
          && (leb 10 (greatest (7 ∷ 14 ∷ 16 ∷ []))
              && any
                  (λ x. is_in (u32 x) (7 ∷ 14 ∷ 16 ∷ []))
                  (path 10 (greatest (7 ∷ 14 ∷ 16 ∷ [])))))
init_caches-is_pruned_example =
    init_caches-is_pruned list_bitmaps pruned_list 10 list_bitmaps-AreValues pruned_list-IsBitmap
      refl (omega arith)

shift_test : shift_to root_shift 15 (7 ∷ 14 ∷ 16 ∷ []) ≡ 12
unfolding shift_to root_shift bintree_postorder_height peak_map_height map_loop top_peak_size
    leading_zeros
shift_test = refl
