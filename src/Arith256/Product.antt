-- ===== src/Arith256/Product.antt =====
-- `*=`: the product by a factor of 32 bits.
use mvclight.Base.{
  ℕ, ◌+◌, ◌-◌, ◌*◌, ◌/◌, ◌%◌, ◌^◌, ◌<◌, ◌≡◌, ap, sym, ◌∙◌, [], ◌∷◌, length, All, arith,
}
use mvclight.Arith256.{Words, IsWord, IsArith256, mul_loop, mul}
use mvclight.Arith256.Value.{value, modulus, modulus-suc, digit_mod}
use mathlib.Core.Path.{ap₂}
use native.Mathlib.Nat.{add-zero, mul-le-mul}

-- A word times a word, with a carry below 2 ^ 32, fits a uint64_t.
product_fits : (w f c : ℕ) → w < 2 ^ 32 → f < 2 ^ 32 → c < 2 ^ 32 → w * f + c < 2 ^ 64
product_fits w f c hw hf hc = omega (
  arith,
  mul-le-mul {n₁ = w} {m₁ = f} {n₂ = 2 ^ 32 - 1} {m₂ = 2 ^ 32 - 1} (omega arith) (omega arith),
)

value-mul_loop :
    (f c : ℕ) (ws : Words)
    → All IsWord ws
    → f < 2 ^ 32
    → c < 2 ^ 32
    → value (mul_loop f c ws) ≡ (value ws * f + c) % modulus (length ws)
unfolding mul_loop value
value-mul_loop f c [] h hf hc = omega arith
value-mul_loop f c (w ∷ ws) h hf hc =
    ap (λ (t : ℕ). cur % 2 ^ 32 + t * 2 ^ 32)
      (value-mul_loop f (cur / 2 ^ 32) ws h.1 hf (omega arith))
    ∙ sym
        (digit_mod (cur % 2 ^ 32) (value ws * f + cur / 2 ^ 32) (modulus (length ws)) (omega arith))
    ∙ ap₂ ◌%◌ (omega (arith, product_fits w f c h.0 hf hc)) (sym (modulus-suc (length ws)))
  where
    cur : ℕ
    cur = (w * f + c) % 2 ^ 64

-- `*=` multiplies modulo 2 ^ 256, for a factor of 32 bits.
pub value-mul :
    (a : Words) (f : ℕ) → IsArith256 a → f < 2 ^ 32 → value (mul a f) ≡ value a * f % 2 ^ 256
unfolding mul
value-mul a f ha hf =
    value-mul_loop f 0 a ha.1 hf (omega arith) ∙ ap₂ ◌%◌ (add-zero _) (ap modulus ha.0)
