-- ===== src/Pmmr/Range.antt =====
-- core/src/core/pmmr/pmmr.rs, `PMMR`: a mountain range over a backend. A method returns the new
-- range, and the backend is the range's own.
use mathlib.Core.List.{filter_map}
use epic.Base.{
  ℕ, zero, suc, ◌+◌, ◌-◌, ◌*◌, ◌^◌, Bool, true, false, not, ◌&&◌, List, [], ◌∷◌, ◌++◌, reverse,
  Option, none, some, ◌==◌, ltb, if◌then◌else◌,
}
use epic.Pmmr.Index
use epic.Pmmr.Index.{u64, has_peak, peak_map_height, bintree_postorder_height, is_leaf}
pub mod Push
pub mod Root
use epic.Pmmr.Backend.{
  Error, bad_mmr_size, missing_left_sibling, not_a_leaf, no_element, invalid_parent, Result, ok,
  err, ◌>>=◌, ok_or, Hashing, Backend,
}

-- `MerkleProof` of core/src/core/merkle_proof.rs.
pub record MerkleProof (H : Hashing) : Type 0 where
  pub mmr_size : ℕ
  pub path : List H.Hash

pub record Pmmr {H : Hashing} (B : Backend H) : Type 0 where
  pub last_pos : ℕ
  pub backend : B.Store

-- The positions that pass a test, in order.
unfoldable pub keep : (ℕ → Bool) → List ℕ → List ℕ
keep p [] = []
keep p (x ∷ xs) = if p x then x ∷ keep p xs else keep p xs

unfoldable pub last_parent : ℕ → List (ℕ × ℕ) → ℕ
last_parent pos [] = pos
last_parent pos ((parent, _) ∷ branch) = last_parent parent branch

unfoldable pub siblings : List (ℕ × ℕ) → List ℕ
siblings [] = []
siblings ((_, sibling) ∷ branch) = sibling ∷ siblings branch

-- `while bintree_postorder_height(pos + 1) > 0`: a position is under fewer than 64 others.
unfoldable pub include_parents : ℕ → ℕ → ℕ
include_parents zero pos = pos
include_parents (suc fuel) pos = elim (ltb 0 (bintree_postorder_height (u64 (pos + 1)))) [
  | true ↦ include_parents fuel (u64 (pos + 1))
  | false ↦ pos
]

module _ (H : Hashing) where
  -- `for peak in peaks.iter().rev()`: the last peak, hashed under the others from right to left.
  unfoldable pub bag : ℕ → List H.Hash → Option H.Hash
  bag size [] = none
  bag size (peak ∷ rest) = elim (bag size rest) [
    | none ↦ some peak
    | some rhash ↦ some (H.hash_pair peak rhash size)
  ]

module _ {H : Hashing} (B : Backend H) where
  -- The loop of `push`: fuel, the map of peaks, `peak`, `pos`, `current_hash` and `hashes`.
  unfoldable pub push_loop :
      ℕ → B.Store → ℕ → ℕ → ℕ → H.Hash → List H.Hash → Result (ℕ × List H.Hash)
  push_loop zero store peak_map peak pos current_hash hashes = ok (pos, hashes)
  push_loop (suc fuel) store peak_map peak pos current_hash hashes = elim (has_peak peak_map peak) [
    | true ↦ do
      left_hash ←
          ok_or (B.get_from_file store (u64 (pos + 1) - u64 (2 * peak))) missing_left_sibling
      let hash = H.hash_pair left_hash current_hash pos
      push_loop fuel store peak_map (u64 (peak * 2)) (u64 (pos + 1)) hash (hashes ++ hash ∷ [])
    | false ↦ ok (pos, hashes)
  ]

module _ {H : Hashing} {B : Backend H} where
  unfoldable pub is_empty : Pmmr B → Bool
  is_empty r = r.last_pos == 0

  unfoldable pub unpruned_size : Pmmr B → ℕ
  unpruned_size r = r.last_pos

  unfoldable pub get_hash : Pmmr B → ℕ → Option H.Hash
  get_hash r pos =
      if ltb r.last_pos pos
      then none
      else if is_leaf pos
      then B.get_hash r.backend pos
      else B.get_from_file r.backend pos

  unfoldable pub get_data : Pmmr B → ℕ → Option H.Element
  get_data r pos =
      if ltb r.last_pos pos then none else if is_leaf pos then B.get_data r.backend pos else none

  unfoldable pub get_from_file : Pmmr B → ℕ → Option H.Hash
  get_from_file r pos = if ltb r.last_pos pos then none else B.get_from_file r.backend pos

  -- The hashes in the backend's file at a list of positions.
  unfoldable pub hashes_at : Pmmr B → List ℕ → List H.Hash
  hashes_at r ps = filter_map (B.get_from_file r.backend) ps

  unfoldable pub peaks : Pmmr B → List H.Hash
  unfolding hashes_at
  peaks r = hashes_at r (Index.peaks r.last_pos)

  unfoldable pub bag_the_rhs : Pmmr B → ℕ → Option H.Hash
  unfolding keep hashes_at bag
  bag_the_rhs r peak_pos =
      bag H (unpruned_size r) (hashes_at r (keep (λ x. ltb peak_pos x) (Index.peaks r.last_pos)))

  unfoldable pub peak_path : Pmmr B → ℕ → List H.Hash
  unfolding keep hashes_at
  peak_path r peak_pos =
      let res = reverse (hashes_at r (keep (λ x. ltb x peak_pos) (Index.peaks r.last_pos))) in
      elim (bag_the_rhs r peak_pos) [ none ↦ res | some rhs ↦ rhs ∷ res ]

  -- `none` is the panic of `expect("no root, invalid tree")`.
  unfoldable pub root : Pmmr B → Option H.Hash
  unfolding is_empty bag
  root r = if is_empty r then some H.zero_hash else bag H (unpruned_size r) (peaks r)

  unfoldable pub merkle_proof : Pmmr B → ℕ → Result (MerkleProof H)
  unfolding last_parent siblings
  merkle_proof r pos = if not (is_leaf pos) then err not_a_leaf else do
    _ ← ok_or (get_hash r pos) no_element
    let branch = Index.family_branch pos r.last_pos
    ok (record {
      mmr_size = unpruned_size r;
      path = filter_map (get_from_file r) (siblings branch) ++ peak_path r (last_parent pos branch);
    })

  unfoldable pub finish_push : Pmmr B → H.Element → ℕ → ℕ × List H.Hash → Result (ℕ × Pmmr B)
  finish_push r elmt elmt_pos (pos, hashes) = do
    store ← B.append r.backend elmt hashes
    ok (elmt_pos, record { last_pos = pos; backend = store })

  -- The position of the new leaf, and the range with it.
  unfoldable pub push : Pmmr B → H.Element → Result (ℕ × Pmmr B)
  unfolding finish_push
  push r elmt =
      let elmt_pos = u64 (r.last_pos + 1) in
      let current_hash = H.hash_element elmt (elmt_pos - 1) in
      let (peak_map, height) = peak_map_height (elmt_pos - 1) in
      if not (height == 0) then err bad_mmr_size else do
        built ← push_loop B 65 r.backend peak_map 1 elmt_pos current_hash (current_hash ∷ [])
        finish_push r elmt elmt_pos built

  unfoldable pub truncate : Pmmr B → Result (Pmmr B)
  truncate r = do store ← B.rewind r.backend 0 []; ok (record { last_pos = 0; backend = store })

  unfoldable pub rewind : Pmmr B → ℕ → List ℕ → Result (Pmmr B)
  unfolding include_parents
  rewind r position rewind_rm_pos = do
    let pos = include_parents 64 position
    store ← B.rewind r.backend pos rewind_rm_pos
    ok (record { last_pos = pos; backend = store })

  unfoldable pub prune : Pmmr B → ℕ → Result (Bool × Pmmr B)
  prune r position =
      if not (is_leaf position) then err not_a_leaf else elim (B.get_hash r.backend position) [
        | none ↦ ok (false, r)
        | some _ ↦ do store ← B.remove r.backend position; ok (true, record r { backend = store })
      ]

  -- One round of `validate`: the check of the node at `n`.
  unfoldable pub valid_node : Pmmr B → ℕ → Bool
  valid_node r n =
      let height = bintree_postorder_height n in
      if height == 0 then true else elim (get_hash r n) [
        | none ↦ true
        | some hash ↦ elim (get_from_file r (n - 2 ^ height)) [
          | none ↦ true
          | some left ↦ elim (get_from_file r (n - 1)) [
            | none ↦ true
            | some right ↦ H.same (H.hash_pair left right (n - 1)) hash
          ]
        ]
      ]

  -- The rounds left, and the node of the first of them.
  unfoldable pub validate_from : Pmmr B → ℕ → ℕ → Result (Unit {0})
  validate_from r zero n = ok tt
  validate_from r (suc left) n =
      let rest = validate_from r left (n + 1) in if valid_node r n then rest else err invalid_parent

  unfoldable pub validate : Pmmr B → Result (Unit {0})
  unfolding validate_from valid_node
  validate r = validate_from r r.last_pos 1
