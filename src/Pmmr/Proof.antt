-- ===== src/Pmmr/Proof.antt =====
-- core/src/core/merkle_proof.rs: the verification of a Merkle proof.
use epic.Base.{
  ℕ, suc, ◌-◌, Bool, true, List, [], ◌∷◌, Option, some, none, ltb, ◌==◌, if◌then◌else◌, length,
}
use epic.Pmmr.Index
use epic.Pmmr.Index.{family, is_left_sibling}
use epic.Pmmr.Backend.{Hashing}
use epic.Pmmr.Range.{MerkleProof}

-- `binary_search` in a list in order, with no position twice.
unfoldable pub position_of : ℕ → List ℕ → Option ℕ
position_of pos [] = none
position_of pos (x ∷ xs) =
    if x == pos then some 0 else elim (position_of pos xs) [ none ↦ none | some i ↦ some (suc i) ]

-- Whether the sibling is hashed before the node: where the peaks, the parent and the sibling lie.
unfoldable pub sibling_first : ℕ → List ℕ → ℕ → Bool
sibling_first mmr_size peaks_pos node_pos =
    let (parent_pos, sibling_pos) = family node_pos in
    elim (position_of node_pos peaks_pos) [
      | some x ↦ x == length peaks_pos - 1
      | none ↦ if ltb mmr_size parent_pos then true else is_left_sibling sibling_pos
    ]

module _ (H : Hashing) (mmr_size : ℕ) (peaks_pos : List ℕ) (root : H.Hash) where
  -- The rounds of `verify_consume`, by the path. An element or a pair of hashes is given as its hash
  -- by index; `false` is `RootMismatch`.
  unfoldable pub verify_consume : List H.Hash → (ℕ → H.Hash) → ℕ → Bool
  verify_consume [] element node_pos =
      H.same root (if ltb mmr_size node_pos then element mmr_size else element (node_pos - 1))
  verify_consume (sibling ∷ path) element node_pos =
      let node_hash = if ltb mmr_size node_pos then element mmr_size else element (node_pos - 1) in
      let parent =
        if sibling_first mmr_size peaks_pos node_pos
        then H.hash_pair sibling node_hash
        else H.hash_pair node_hash sibling in
      verify_consume path parent (family node_pos).0

unfoldable pub verify : (H : Hashing) → MerkleProof H → H.Hash → H.Element → ℕ → Bool
verify H proof root element node_pos =
    verify_consume H proof.mmr_size (Index.peaks proof.mmr_size) root proof.path
      (λ i. H.hash_element element i) node_pos
