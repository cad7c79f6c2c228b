-- ===== src/Pmmr/RangeTests.antt =====
-- Runs of the methods of `PMMR` on the range over four leaves.
use mathlib.Core.List.{filter_map}
use epic.Base.{true, false, ◌≡◌, refl, [], ◌∷◌, some, none}
use epic.Base.Bits.{leading_zeros}
use epic.Pmmr.Index
use epic.Pmmr.Index.{
  family, is_left_sibling, peaks_loop, top_peak_size, map_loop, peak_map_height,
  bintree_postorder_height, is_leaf, family_branch, branch_loop, bintree_rightmost,
  bintree_leftmost,
}
use epic.Pmmr.Backend.{ok, err, not_a_leaf, bad_mmr_size}
use epic.Pmmr.Range
use epic.Pmmr.Range.{
  Pmmr, MerkleProof, keep, last_parent, siblings, include_parents, bag, push_loop, is_empty,
  unpruned_size, get_hash, get_data, get_from_file, hashes_at, bag_the_rhs, peak_path, root,
  merkle_proof, finish_push, push, truncate, rewind, prune, valid_node, validate_from, validate,
}
use epic.Pmmr.Proof.{verify, verify_consume, sibling_first, position_of}
use epic.Pmmr.Tests.{toy_hashing, list_backend}

abbrev four_leaves : Pmmr list_backend
four_leaves = record { last_pos = 7; backend = 50 ∷ 56 ∷ 232 ∷ 63 ∷ 69 ∷ 305 ∷ 1189 ∷ [] }

abbrev three_leaves : Pmmr list_backend
three_leaves = record { last_pos = 4; backend = 50 ∷ 56 ∷ 232 ∷ 63 ∷ [] }

abbrev two_nodes : Pmmr list_backend
two_nodes = record { last_pos = 2; backend = 50 ∷ 56 ∷ [] }

push_test : push three_leaves 13 ≡ ok (5, four_leaves)
unfolding push finish_push push_loop peak_map_height map_loop top_peak_size leading_zeros
push_test = refl

no_push_test : push two_nodes 12 ≡ err bad_mmr_size
unfolding push peak_map_height map_loop top_peak_size leading_zeros
no_push_test = refl

root_test : root three_leaves ≡ some 449
unfolding root is_empty unpruned_size Range.peaks hashes_at filter_map bag Index.peaks peaks_loop
    top_peak_size leading_zeros
root_test = refl

merkle_proof_test : merkle_proof three_leaves 1 ≡ ok (record { mmr_size = 4; path = 56 ∷ 63 ∷ [] })
unfolding merkle_proof is_leaf get_hash get_from_file unpruned_size siblings last_parent peak_path
    bag_the_rhs keep hashes_at filter_map bag Index.peaks peaks_loop family_branch branch_loop
    bintree_postorder_height peak_map_height map_loop top_peak_size leading_zeros
merkle_proof_test = refl

not_a_leaf_test : merkle_proof three_leaves 3 ≡ err not_a_leaf
unfolding merkle_proof is_leaf bintree_postorder_height peak_map_height map_loop top_peak_size
    leading_zeros
not_a_leaf_test = refl

get_data_test : get_data three_leaves 5 ≡ none
unfolding get_data
get_data_test = refl

validate_test : validate four_leaves ≡ ok tt
unfolding validate validate_from valid_node get_hash get_from_file is_leaf bintree_postorder_height
    peak_map_height map_loop top_peak_size leading_zeros
validate_test = refl

rewind_test : rewind four_leaves 2 [] ≡ ok (record { last_pos = 3; backend = four_leaves.backend })
unfolding rewind include_parents bintree_postorder_height peak_map_height map_loop top_peak_size
    leading_zeros
rewind_test = refl

truncate_test : truncate four_leaves ≡ ok (record { last_pos = 0; backend = four_leaves.backend })
unfolding truncate
truncate_test = refl

prune_test : prune four_leaves 7 ≡ err not_a_leaf
unfolding prune is_leaf bintree_postorder_height peak_map_height map_loop top_peak_size
    leading_zeros
prune_test = refl

bintree_test : (bintree_rightmost 7 ≡ 5) × (bintree_leftmost 7 ≡ 1)
unfolding bintree_rightmost bintree_leftmost bintree_postorder_height peak_map_height map_loop
    top_peak_size leading_zeros
bintree_test = (refl, refl)

-- The proofs of the leaves of the range over three leaves, against its root.
verify_left_test : verify toy_hashing (record { mmr_size = 4; path = 56 ∷ 63 ∷ [] }) 449 10 1 ≡ true
unfolding verify verify_consume sibling_first position_of family is_left_sibling Index.peaks
    peaks_loop peak_map_height map_loop top_peak_size leading_zeros
verify_left_test = refl

verify_last_test : verify toy_hashing (record { mmr_size = 4; path = 232 ∷ [] }) 449 12 4 ≡ true
unfolding verify verify_consume sibling_first position_of family is_left_sibling Index.peaks
    peaks_loop peak_map_height map_loop top_peak_size leading_zeros
verify_last_test = refl

verify_wrong_test : verify toy_hashing (record { mmr_size = 4; path = 232 ∷ [] }) 449 13 4 ≡ false
unfolding verify verify_consume sibling_first position_of family is_left_sibling Index.peaks
    peaks_loop peak_map_height map_loop top_peak_size leading_zeros
verify_wrong_test = refl
