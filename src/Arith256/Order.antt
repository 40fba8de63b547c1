-- ===== src/Arith256/Order.antt =====
-- `<` and `==` of the words are those of the numbers.
use mvclight.Base.{
  ℕ, suc, ◌+◌, ◌*◌, ◌^◌, ◌<◌, ◌≡◌, refl, ap, sym, ◌∙◌, [], ◌∷◌, ◌++◌, length, All, All-append,
  arith, ltb, length-append,
}
use mvclight.Arith256.{Words, IsWord, IsArith256, lt_loop, lt}
use mvclight.Arith256.Value.{value, modulus, modulus-suc}
use mathlib.Core.List.{reverse, reverse-cons}
use mathlib.Core.Path.{ap₂}
use native.Mathlib.Nat.{mul-le-mul_right}

-- The number of words given from the highest to the lowest.
from_top : Words → ℕ
from_top [] = 0
from_top (w ∷ ws) = w * modulus (length ws) + from_top ws

from_top-append_one : (ws : Words) (w : ℕ) → from_top (ws ++ w ∷ []) ≡ from_top ws * 2 ^ 32 + w
unfolding from_top
from_top-append_one [] w = omega arith
from_top-append_one (v ∷ ws) w = omega (
  arith,
  from_top-append_one ws w,
  ap (λ (t : ℕ). v * modulus t) longer,
  ap (λ (t : ℕ). v * t) (modulus-suc (length ws)),
)
  where
    longer : length (ws ++ w ∷ []) ≡ suc (length ws)
    longer = omega (arith, length-append ws (w ∷ []))

from_top-reverse : (ws : Words) → from_top (reverse ws) ≡ value ws
unfolding value
from_top-reverse [] = unfold from_top in refl
from_top-reverse (w ∷ ws) =
    rw (reverse-cons w ws, from_top-append_one (reverse ws) w) (omega (arith, from_top-reverse ws))

from_top-lt : (ws : Words) → All IsWord ws → from_top ws < modulus (length ws)
unfolding from_top
from_top-lt [] h = omega arith
from_top-lt (w ∷ ws) h =
    omega (
      arith,
      from_top-lt ws h.1,
      modulus-suc (length ws),
      mul-le-mul_right (modulus (length ws)) h.0,
    )

leading_lt : (x y u v m : ℕ) → x < y → u < m → x * m + u < y * m + v
leading_lt x y u v m h hu = omega (arith, mul-le-mul_right m h)

lt_loop-from_top :
    (xs ys : Words)
    → length xs ≡ length ys
    → All IsWord xs
    → All IsWord ys
    → lt_loop xs ys ≡ ltb (from_top xs) (from_top ys)
unfolding lt_loop from_top
lt_loop-from_top [] [] h hx hy = refl
lt_loop-from_top [] (y ∷ ys) h hx hy = absurd (omega arith)
lt_loop-from_top (x ∷ xs) [] h hx hy = absurd (omega arith)
lt_loop-from_top (x ∷ xs) (y ∷ ys) h hx hy = rw (pred_length) (
    ground (
      arith,
      leading_lt x y (from_top xs) (from_top ys) m,
      leading_lt y x (from_top ys) (from_top xs) m,
      lt_loop-from_top xs ys,
      from_top-lt xs hx.1,
      from_top-lt ys hy.1,
      ap modulus pred_length,
      ap (λ (t : ℕ). t * m),
    ))
  where
    pred_length : length xs ≡ length ys
    pred_length = omega arith

    m : ℕ
    m = modulus (length ys)

length-reverse : (ws : Words) → length (reverse ws) ≡ length ws
length-reverse [] = refl
length-reverse (w ∷ ws) =
    omega
      (arith, ap length (reverse-cons w ws), length-append (reverse ws) (w ∷ []), length-reverse ws)

reverse-IsWord : (ws : Words) → All IsWord ws → All IsWord (reverse ws)
reverse-IsWord [] h = tt
reverse-IsWord (w ∷ ws) h =
    rw (reverse-cons w ws)
      (All-append IsWord (reverse ws) (w ∷ []) (reverse-IsWord ws h.1) (h.0, tt))

-- `<` on words compares the numbers.
pub lt-value : (a b : Words) → IsArith256 a → IsArith256 b → lt a b ≡ ltb (value a) (value b)
unfolding lt
lt-value a b ha hb =
    lt_loop-from_top (reverse a) (reverse b)
      (length-reverse a ∙ ha.0 ∙ sym hb.0 ∙ sym (length-reverse b)) (reverse-IsWord a ha.1)
      (reverse-IsWord b hb.1)
    ∙ ap₂ ltb (from_top-reverse a) (from_top-reverse b)

-- Two numbers of as many words are equal only if their words are.
pub value-injective :
    (a b : Words) → length a ≡ length b → All IsWord a → All IsWord b → value a ≡ value b → a ≡ b
unfolding value
value-injective [] [] h ha hb e = refl
value-injective [] (y ∷ ys) h ha hb e = absurd (omega arith)
value-injective (x ∷ xs) [] h ha hb e = absurd (omega arith)
value-injective (x ∷ xs) (y ∷ ys) h ha hb e =
    ap₂ ◌∷◌ (omega arith) (value-injective xs ys (omega arith) ha.1 hb.1 (omega arith))
