-- ===== src/Merkle/Root.antt =====
-- Merkle roots of whole blocks.
use mvclight.Base.{
  ℕ, zero, suc, ◌+◌, ◌*◌, ◌%◌, ◌≤◌, ◌<◌, ◌≡◌, refl, List, [], ◌∷◌, ◌++◌, arith, length, ap, ◌∙◌,
  sym,
}
use mvclight.Uint256.{Uint256}
use mvclight.Merkle.{hash_pair, next_level, root_loop, compute_merkle_root}

length-next_level : (level : List Uint256) → length (next_level level) * 2 ≤ length level + 1
unfolding next_level
length-next_level [] = omega arith
length-next_level (a ∷ []) = omega arith
length-next_level (a ∷ b ∷ level) = omega (arith, length-next_level level)

-- Any fuel from the number of hashes on gives the same root.
root_loop-fuel :
    (n m : ℕ) (level : List Uint256)
    → length level ≤ n + 1
    → length level ≤ m + 1
    → root_loop n level ≡ root_loop m level
unfolding root_loop
root_loop-fuel n m [] hn hm = refl
root_loop-fuel n m (a ∷ []) hn hm = refl
root_loop-fuel zero m (a ∷ b ∷ level) hn hm = absurd (omega arith)
root_loop-fuel (suc n) zero (a ∷ b ∷ level) hn hm = absurd (omega arith)
root_loop-fuel (suc n) (suc m) (a ∷ b ∷ level) hn hm =
    root_loop-fuel n m (next_level (a ∷ b ∷ level))
      (omega (arith, length-next_level (a ∷ b ∷ level)))
      (omega (arith, length-next_level (a ∷ b ∷ level)))

next_level-double :
    (level : List Uint256) (z : Uint256)
    → length level % 2 ≡ 0
    → next_level (level ++ z ∷ z ∷ []) ≡ next_level (level ++ z ∷ [])
unfolding next_level
next_level-double [] z h = refl
next_level-double (a ∷ []) z h = absurd (omega arith)
next_level-double (a ∷ b ∷ level) z h =
    ap (λ (t : List Uint256). hash_pair a b ∷ t) (next_level-double level z (omega arith))

-- With two hashes or more, `ComputeMerkleRoot` is the root of the next level, which is half as long:
-- the number of hashes is enough turns of its loop.
pub compute_merkle_root-next_level :
    (a b : Uint256) (level : List Uint256)
    → (compute_merkle_root (a ∷ b ∷ level) ≡ compute_merkle_root (next_level (a ∷ b ∷ level)))
      × (length (next_level (a ∷ b ∷ level)) < length (a ∷ b ∷ level))
unfolding compute_merkle_root root_loop
compute_merkle_root-next_level a b level = (
  root_loop-fuel (suc (length level)) (length (next_level (a ∷ b ∷ level)))
      (next_level (a ∷ b ∷ level)) (omega (arith, length-next_level (a ∷ b ∷ level))) (omega arith),
  omega (arith, length-next_level (a ∷ b ∷ level)),
)

-- A block with an odd number of transactions, three or more, has the root of the block that repeats
-- its last transaction.
pub compute_merkle_root_repeated :
    (a b : Uint256) (level : List Uint256) (z : Uint256)
    → length level % 2 ≡ 0
    → compute_merkle_root (a ∷ b ∷ level ++ z ∷ z ∷ [])
      ≡ compute_merkle_root (a ∷ b ∷ level ++ z ∷ [])
compute_merkle_root_repeated a b level z h =
    (compute_merkle_root-next_level a b (level ++ z ∷ z ∷ [])).0
    ∙ ap compute_merkle_root (next_level-double (a ∷ b ∷ level) z (omega arith))
    ∙ sym (compute_merkle_root-next_level a b (level ++ z ∷ [])).0
