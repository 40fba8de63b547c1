-- ===== src/Merkle/Runs.antt =====
-- Merkle roots and partial trees at concrete inputs.
use mvclight.Base.{◌≤◌, ◌≡◌, refl, true, [], ◌∷◌, ◌++◌, some, arith}
use mvclight.Uint256.{null}
use mvclight.Runs.{null-IsUint256}
use mvclight.Merkle.{
  PartialMerkleTree, deserialize, serialize, tree_width, height_loop, traverse, take_hash, get_bit,
  used_up, may_traverse, is_empty, conclude, extract_matches,
}
use mvclight.Merkle.Wired.{IsTree, deserialize-serialize_tree}
use mvclight.Merkle.Matches.{final, extract_matches_few_nodes}

-- One transaction, which matches.
abbrev single : PartialMerkleTree
single = record { n_transactions = 1; v_bits = 1 ∷ []; v_hash = null ∷ [] }

single-IsTree : IsTree single
single-IsTree = record {
  count_fits = omega arith;
  hashes_are = (null-IsUint256, tt);
  hashes_fit = omega arith;
  bits_fit = omega arith;
}

deserialize-serialize_tree_example :
    deserialize (serialize single ++ (9 ∷ [])) ≡ some (single, 9 ∷ [])
deserialize-serialize_tree_example = deserialize-serialize_tree single single-IsTree (9 ∷ [])

single_accepted : (extract_matches single null).0 ≡ true
unfolding extract_matches conclude may_traverse is_empty traverse take_hash used_up height_loop
    tree_width get_bit
single_accepted = refl

single_bits : (final single).n_bits_used ≡ 1
unfolding final traverse take_hash height_loop tree_width get_bit
single_bits = refl

extract_matches_few_nodes_example : (final single).n_bits_used ≤ 8
extract_matches_few_nodes_example =
    extract_matches_few_nodes single null single_accepted (omega (arith, single_bits))
