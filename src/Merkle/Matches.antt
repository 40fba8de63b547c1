-- ===== src/Merkle/Matches.antt =====
-- What a partial tree that `ExtractMatches` accepts is like.
use mvclight.Base.{
  ℕ, zero, suc, ◌+◌, ◌/◌, ◌≤◌, ◌≡◌, refl, Bool, true, false, arith, ltb, length, ap, ◌∙◌,
  Bool-cases, inl, inr,
}
use mvclight.Uint256.{Uint256}
use mvclight.Merkle.{
  PartialMerkleTree, Traversal, tree_width, height_loop, tree_height, traverse, used_up, start,
  conclude, may_traverse, extract_matches,
}

width_at_31 : (n : ℕ) → ltb 1 (tree_width n 31) ≡ false
unfolding tree_width
width_at_31 n = ground arith

height_loop-width :
    (k n height : ℕ) → k + height ≡ 31 → ltb 1 (tree_width n (height_loop k n height)) ≡ false
unfolding height_loop
height_loop-width zero n height e = ap (λ (t : ℕ). ltb 1 (tree_width n t)) at_31 ∙ width_at_31 n
  where
    at_31 : height ≡ 31
    at_31 = omega arith
height_loop-width (suc k) n height e = elim (Bool-cases (ltb 1 (tree_width n height))) [
  | inl h ↦ rw h (height_loop-width k n (suc height) (omega arith))
  | inr h ↦ rw h h
]

-- The height that `ExtractMatches` starts from has at most one node, for every transaction count: its
-- search for the root of the tree ends.
pub tree_height-width : (n : ℕ) → ltb 1 (tree_width n (tree_height n)) ≡ false
tree_height-width n = height_loop-width 31 n 0 refl

-- The state after the traversal from the root.
unfoldable pub final : PartialMerkleTree → Traversal
final t = (traverse t (tree_height t.n_transactions) 0 start).0

used_up-bits :
    (t : PartialMerkleTree) (s : Traversal)
    → used_up t s ≡ true
    → ((s.n_bits_used + 7) / 8 ≡ (length t.v_bits + 7) / 8)
      × (s.n_hash_used ≡ length t.v_hash)
      × (s.f_bad ≡ false)
unfolding used_up
used_up-bits t s h = ground arith

conclude-used_up :
    (t : PartialMerkleTree) (root : Uint256) (b : Bool)
    → (conclude t root b).0 ≡ true
    → used_up t (final t) ≡ true
unfolding conclude final
conclude-used_up t root false h = ground arith
conclude-used_up t root true h = h

accepted :
    (t : PartialMerkleTree) (root : Uint256)
    → (extract_matches t root).0 ≡ true
    → used_up t (final t) ≡ true
unfolding extract_matches
accepted t root h = conclude-used_up t root (may_traverse t) h

-- A partial tree that `ExtractMatches` accepts uses all its hashes and meets no error on the way.
pub extract_matches_used :
    (t : PartialMerkleTree) (root : Uint256)
    → (extract_matches t root).0 ≡ true
    → ((final t).n_hash_used ≡ length t.v_hash) × ((final t).f_bad ≡ false)
extract_matches_used t root h = (u.1, u.2)
  where
    u :
        (((final t).n_bits_used + 7) / 8 ≡ (length t.v_bits + 7) / 8)
        × ((final t).n_hash_used ≡ length t.v_hash)
        × ((final t).f_bad ≡ false)
    u = used_up-bits t (final t) (accepted t root h)

-- A partial tree that has as many bytes of bits as its nodes need and that `ExtractMatches` accepts
-- has at most eight nodes: such trees with more are all refused.
pub extract_matches_few_nodes :
    (t : PartialMerkleTree) (root : Uint256)
    → (extract_matches t root).0 ≡ true
    → length t.v_bits ≡ ((final t).n_bits_used + 7) / 8
    → (final t).n_bits_used ≤ 8
extract_matches_few_nodes t root h e =
    omega (arith, (used_up-bits t (final t) (accepted t root h)).0)
