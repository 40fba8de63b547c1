-- ===== src/Chain/Work.antt =====
-- The work of a block is 2 ^ 256 divided by the target plus one.
use mvclight.Base.{ℕ, ◌+◌, ◌-◌, ◌/◌, ◌%◌, ◌^◌, ◌<◌, ◌≡◌, refl, suc, ap, sym, ◌∙◌, arith}
use mvclight.Arith256.{Words, IsArith256, from_u64, set_compact, add, div, complement}
use mvclight.Arith256.Value.{value, value-add, add-IsArith256, value-complement, modulus}
use mvclight.Arith256.Division.{value-div, div-IsArith256}
use mvclight.Arith256.Closed.{complement-IsArith256, set_compact-IsArith256}
use mvclight.Chain.{block_work}
use mathlib.Core.Path.{ap₂}
use native.Mathlib.Nat.{add-div_right, mod-eq_of_lt, div-mul-le_self, mul-le-mul_left}

one : Words
one = from_u64 1

one-IsArith256 : IsArith256 one
unfolding one from_u64
one-IsArith256 = omega arith

value-one : value one ≡ 1
unfolding one from_u64 value
value-one = refl

-- The identity behind the formula: 2^256 - 1 - t is 2^256 - (t + 1).
floor_identity : (t : ℕ) → suc t < 2 ^ 256 → (2 ^ 256 - 1 - t) / suc t + 1 ≡ 2 ^ 256 / suc t
floor_identity t h =
    sym (add-div_right (2 ^ 256 - 1 - t) (omega arith)) ∙ ap (λ (x : ℕ). x / suc t) (omega arith)

-- `AddWork` counts 2^256 / (target + 1), rounded down, for a compact form of 32 bits whose target is
-- not zero and has a successor of 256 bits.
pub block_work_lem :
    (n_bits : ℕ)
    → n_bits < 2 ^ 32
    → 0 < value (set_compact n_bits)
    → suc (value (set_compact n_bits)) < 2 ^ 256
    → value (block_work n_bits) ≡ 2 ^ 256 / suc (value (set_compact n_bits))
unfolding block_work one
block_work_lem n_bits hb lo hi =
    value-add quotient one hq one-IsArith256
    ∙ ap (λ (x : ℕ). (value quotient + x) % 2 ^ 256) value-one
    ∙ ap (λ (x : ℕ). (x + 1) % 2 ^ 256) divided
    ∙ ap (λ (x : ℕ). x % 2 ^ 256) (floor_identity t hi)
    ∙ mod-eq_of_lt small
  where
    x : ℕ
    x = 2 ^ 256 / suc (value (set_compact n_bits))

    small : x < 2 ^ 256
    small = omega (
      arith,
      div-mul-le_self (2 ^ 256) (suc (value (set_compact n_bits))),
      mul-le-mul_left {m = 2} {n = suc (value (set_compact n_bits))} x (omega arith),
    )

    target : Words
    target = set_compact n_bits

    t : ℕ
    t = value target

    ht : IsArith256 target
    ht = set_compact-IsArith256 n_bits hb

    successor : Words
    successor = add target one

    hs : IsArith256 successor
    hs = add-IsArith256 target one ht one-IsArith256

    value-successor : value successor ≡ suc t
    value-successor = value-add target one ht one-IsArith256 ∙ omega (arith, value-one)

    value-rest : value (complement target) ≡ 2 ^ 256 - 1 - t
    value-rest = omega (arith, value-complement target ht.1, ap modulus ht.0)

    quotient : Words
    quotient = div (complement target) successor

    hq : IsArith256 quotient
    hq = div-IsArith256 (complement target) successor (complement-IsArith256 target ht)

    divided : value quotient ≡ (2 ^ 256 - 1 - t) / suc t
    divided =
        value-div (complement target) successor (complement-IsArith256 target ht) hs
          (omega (arith, value-successor))
        ∙ ap₂ ◌/◌ value-rest value-successor
