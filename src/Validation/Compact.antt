-- ===== src/Validation/Compact.antt =====
-- `TargetFromBits` and `HashLeTarget`: which compact forms have a target, and what the comparison
-- of a hash with it decides.
use mvclight.Base.{
  ℕ, ◌/◌, ◌%◌, ◌^◌, ◌≤◌, ◌≡◌, ◌↔◌, refl, ap, sym, ◌∙◌, [], ◌∷◌, length, All, arith, leb,
}
use mvclight.Base.Bits.{and_low23}
use mvclight.Wire.{Bytes, IsByte, read_le}
use mvclight.Wire.BigEndian.{
  read_be, read_be-reverse, read_be-lt, reverse-IsByte, length-reverse, leb_step,
}
use mvclight.Uint256.{Uint256, IsUint256}
use mvclight.Validation.{fault, target_from_bits, le_loop, hash_le_target, ge_loop, chain_work_ge}
use mathlib.Core.List.{reverse}
use mathlib.Core.Path.{ap₂}
use mathlib.Core.Logic.{◌≢◌}

-- `TargetFromBits` writes before the array exactly for the exponents 33 and 34 with a mantissa that
-- is not zero.
pub target_from_bits-fault_iff :
    (n_bits : ℕ)
    → (target_from_bits n_bits ≡ fault)
      ↔ ((n_bits % 2 ^ 23 ≢ 0) × (33 ≤ n_bits / 2 ^ 24) × (n_bits / 2 ^ 24 ≤ 34))
unfolding target_from_bits
target_from_bits-fault_iff n_bits = ground (arith, and_low23 n_bits)

le_loop-read_be :
    (xs ys : Bytes)
    → length xs ≡ length ys
    → All IsByte xs
    → All IsByte ys
    → le_loop xs ys ≡ leb (read_be xs) (read_be ys)
unfolding le_loop read_be
le_loop-read_be [] [] h hx hy = refl
le_loop-read_be [] (y ∷ ys) h hx hy = absurd (omega arith)
le_loop-read_be (x ∷ xs) [] h hx hy = absurd (omega arith)
le_loop-read_be (x ∷ xs) (y ∷ ys) h hx hy =
    rw (shorter, le_loop-read_be xs ys shorter hx.1 hy.1)
      (sym (
        leb_step x y (read_be xs) (read_be ys) (256 ^ length ys)
          (rw shorter at (read_be-lt xs hx.1)) (read_be-lt ys hy.1)))
  where
    shorter : length xs ≡ length ys
    shorter = omega arith

-- `HashLeTarget` compares the hash, read as a little-endian number, with the target, read as a
-- big-endian one.
pub hash_le_target_lem :
    (hash : Uint256) (t : Bytes)
    → IsUint256 hash
    → length t ≡ 32
    → All IsByte t
    → hash_le_target hash t ≡ leb (read_le hash) (read_be t)
unfolding hash_le_target
hash_le_target_lem hash t hh ht hb =
    le_loop-read_be (reverse hash) t (length-reverse hash ∙ hh.0 ∙ sym ht)
      (reverse-IsByte hash hh.1) hb
    ∙ ap (λ (n : ℕ). leb n (read_be t)) (read_be-reverse hash hh.1)

ge_loop-read_be :
    (xs ys : Bytes)
    → length xs ≡ length ys
    → All IsByte xs
    → All IsByte ys
    → ge_loop xs ys ≡ leb (read_be ys) (read_be xs)
unfolding ge_loop read_be
ge_loop-read_be [] [] h hx hy = refl
ge_loop-read_be [] (y ∷ ys) h hx hy = absurd (omega arith)
ge_loop-read_be (x ∷ xs) [] h hx hy = absurd (omega arith)
ge_loop-read_be (x ∷ xs) (y ∷ ys) h hx hy =
    rw
      (
        shorter,
        ge_loop-read_be xs ys shorter hx.1 hy.1,
        leb_step y x (read_be ys) (read_be xs) (256 ^ length ys) (read_be-lt ys hy.1)
            (rw shorter at (read_be-lt xs hx.1)),
      )
      (ground arith)
  where
    shorter : length xs ≡ length ys
    shorter = omega arith

-- `ChainWorkGe` is the order of the two amounts of work as numbers.
pub chain_work_ge_lem :
    (a b : Uint256) → IsUint256 a → IsUint256 b → chain_work_ge a b ≡ leb (read_le b) (read_le a)
unfolding chain_work_ge
chain_work_ge_lem a b ha hb =
    ge_loop-read_be (reverse a) (reverse b)
      (length-reverse a ∙ ha.0 ∙ sym hb.0 ∙ sym (length-reverse b)) (reverse-IsByte a ha.1)
      (reverse-IsByte b hb.1)
    ∙ ap₂ leb (read_be-reverse b hb.1) (read_be-reverse a ha.1)
