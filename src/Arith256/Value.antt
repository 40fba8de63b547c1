-- ===== src/Arith256/Value.antt =====
-- The number that eight words stand for, and what `+=`, `-=`, `*=`, `~` and the tests do to it.
use mvclight.Base.{
  bit_and, ℕ, suc, ◌+◌, ◌-◌, ◌*◌, ◌/◌, ◌%◌, ◌^◌, ◌≤◌, ◌<◌, ◌≡◌, ◌↔◌, refl, ap, sym, ◌∙◌, true, [],
  ◌∷◌, length, All, arith,
}
use mvclight.Base.Bits.{and_low1}
use mvclight.Arith256.{Words, IsWord, IsArith256, add_loop, add, sub_loop, sub, complement, is_zero}
use native.Mathlib.Nat.{pow-suc, add-zero}
use mathlib.Core.Path.{ap₂}

abbrev base : ℕ
base = 2 ^ 32

unfoldable pub value : Words → ℕ
value [] = 0
value (w ∷ ws) = w + value ws * 2 ^ 32

-- The numbers of n words.
abbrev pub modulus : ℕ → ℕ
modulus n = (2 ^ 32) ^ n

pub modulus-suc : (n : ℕ) → modulus (suc n) ≡ modulus n * 2 ^ 32
modulus-suc n = pow-suc (2 ^ 32) n

pub digit_mod : (r q m : ℕ) → r < 2 ^ 32 → (r + q * 2 ^ 32) % (m * 2 ^ 32) ≡ r + q % m * 2 ^ 32
digit_mod r q m h = grind arith

pub value-lt : (ws : Words) → All IsWord ws → value ws < modulus (length ws)
unfolding value
value-lt [] h = omega arith
value-lt (w ∷ ws) h = omega (arith, value-lt ws h.1, modulus-suc (length ws))

pub length-add_loop :
    (c : ℕ) (xs ys : Words) → length xs ≡ length ys → length (add_loop c xs ys) ≡ length xs
unfolding add_loop
length-add_loop c [] ys h = refl
length-add_loop c (x ∷ xs) [] h = absurd (omega arith)
length-add_loop c (x ∷ xs) (y ∷ ys) h =
    ap suc (length-add_loop ((x + y + c) % 2 ^ 64 / 2 ^ 32) xs ys (omega arith))

add_loop-IsWord : (c : ℕ) (xs ys : Words) → All IsWord (add_loop c xs ys)
unfolding add_loop
add_loop-IsWord c [] ys = tt
add_loop-IsWord c (x ∷ xs) [] = tt
add_loop-IsWord c (x ∷ xs) (y ∷ ys) =
    (omega arith, add_loop-IsWord ((x + y + c) % 2 ^ 64 / 2 ^ 32) xs ys)

value-add_loop :
    (c : ℕ) (xs ys : Words)
    → length xs ≡ length ys
    → All IsWord xs
    → All IsWord ys
    → c ≤ 1
    → value (add_loop c xs ys) ≡ (value xs + value ys + c) % modulus (length xs)
unfolding add_loop value
value-add_loop c [] [] h hx hy hc = omega arith
value-add_loop c [] (y ∷ ys) h hx hy hc = absurd (omega arith)
value-add_loop c (x ∷ xs) [] h hx hy hc = absurd (omega arith)
value-add_loop c (x ∷ xs) (y ∷ ys) h hx hy hc =
    ap (λ (t : ℕ). cur % 2 ^ 32 + t * 2 ^ 32)
      (value-add_loop (cur / 2 ^ 32) xs ys (omega arith) hx.1 hy.1 (omega arith))
    ∙ sym (
        digit_mod (cur % 2 ^ 32) (value xs + value ys + cur / 2 ^ 32) (modulus (length xs))
          (omega arith))
    ∙ ap₂ ◌%◌ (omega arith) (sym (modulus-suc (length xs)))
  where
    cur : ℕ
    cur = (x + y + c) % 2 ^ 64

-- `+=` adds the numbers modulo 2 ^ 256.
pub value-add :
    (a b : Words) → IsArith256 a → IsArith256 b → value (add a b) ≡ (value a + value b) % 2 ^ 256
unfolding add
value-add a b ha hb =
    value-add_loop 0 a b (ha.0 ∙ sym hb.0) ha.1 hb.1 (omega arith)
    ∙ ap₂ ◌%◌ (add-zero _) (ap modulus ha.0)

pub add-IsArith256 : (a b : Words) → IsArith256 a → IsArith256 b → IsArith256 (add a b)
unfolding add
add-IsArith256 a b ha hb = (length-add_loop 0 a b (ha.0 ∙ sym hb.0) ∙ ha.0, add_loop-IsWord 0 a b)

-- The difference of two words and a borrow, as `-=` computes it in a uint64_t.
abbrev diff : ℕ → ℕ → ℕ → ℕ
diff x y c = (x + 2 ^ 64 - y + 2 ^ 64 - c) % 2 ^ 64

abbrev borrow_out : ℕ → ℕ → ℕ → ℕ
borrow_out x y c = bit_and (diff x y c / 2 ^ 32) 1

borrow_lem :
    (x y c : ℕ)
    → x < 2 ^ 32
    → y < 2 ^ 32
    → c ≤ 1
    → (x + borrow_out x y c * 2 ^ 32 ≡ y + c + diff x y c % 2 ^ 32) × (borrow_out x y c ≤ 1)
borrow_lem x y c hx hy hc = omega (arith, and_low1 (diff x y c / 2 ^ 32))

length-sub_loop :
    (c : ℕ) (xs ys : Words) → length xs ≡ length ys → length (sub_loop c xs ys) ≡ length xs
unfolding sub_loop
length-sub_loop c [] ys h = refl
length-sub_loop c (x ∷ xs) [] h = absurd (omega arith)
length-sub_loop c (x ∷ xs) (y ∷ ys) h =
    ap suc (length-sub_loop (borrow_out x y c) xs ys (omega arith))

sub_loop-IsWord : (c : ℕ) (xs ys : Words) → All IsWord (sub_loop c xs ys)
unfolding sub_loop
sub_loop-IsWord c [] ys = tt
sub_loop-IsWord c (x ∷ xs) [] = tt
sub_loop-IsWord c (x ∷ xs) (y ∷ ys) = (omega arith, sub_loop-IsWord (borrow_out x y c) xs ys)

value-sub_loop :
    (c : ℕ) (xs ys : Words)
    → length xs ≡ length ys
    → All IsWord xs
    → All IsWord ys
    → c ≤ 1
    → value (sub_loop c xs ys)
      ≡ (value xs + modulus (length xs) - value ys - c) % modulus (length xs)
unfolding sub_loop value
value-sub_loop c [] [] h hx hy hc = omega arith
value-sub_loop c [] (y ∷ ys) h hx hy hc = absurd (omega arith)
value-sub_loop c (x ∷ xs) [] h hx hy hc = absurd (omega arith)
value-sub_loop c (x ∷ xs) (y ∷ ys) h hx hy hc =
    ap (λ (t : ℕ). r + t * 2 ^ 32)
      (value-sub_loop b xs ys (omega arith) hx.1 hy.1 (borrow_lem x y c hx.0 hy.0 hc).1)
    ∙ sym (digit_mod r (value xs + m - value ys - b) m (omega arith))
    ∙ ap₂ ◌%◌
        (omega (
          arith,
          borrow_lem x y c hx.0 hy.0 hc,
          value-lt ys hy.1,
          ap modulus length_eq,
          modulus-suc (length xs),
        ))
        (sym (modulus-suc (length xs)))
  where
    b : ℕ
    b = borrow_out x y c

    r : ℕ
    r = diff x y c % 2 ^ 32

    m : ℕ
    m = modulus (length xs)

    length_eq : length ys ≡ length xs
    length_eq = omega arith

-- `-=` subtracts the numbers modulo 2 ^ 256.
pub value-sub :
    (a b : Words)
    → IsArith256 a
    → IsArith256 b
    → value (sub a b) ≡ (value a + 2 ^ 256 - value b) % 2 ^ 256
unfolding sub
value-sub a b ha hb =
    value-sub_loop 0 a b (ha.0 ∙ sym hb.0) ha.1 hb.1 (omega arith)
    ∙ ap (λ (m : ℕ). (value a + m - value b - 0) % m) (ap modulus ha.0)
    ∙ ap (λ (t : ℕ). t % 2 ^ 256) (omega arith)

pub sub-IsArith256 : (a b : Words) → IsArith256 a → IsArith256 b → IsArith256 (sub a b)
unfolding sub
sub-IsArith256 a b ha hb = (length-sub_loop 0 a b (ha.0 ∙ sym hb.0) ∙ ha.0, sub_loop-IsWord 0 a b)

-- `~` is the distance to the greatest number.
pub value-complement :
    (ws : Words) → All IsWord ws → value (complement ws) + value ws + 1 ≡ modulus (length ws)
unfolding complement value
value-complement [] h = refl
value-complement (w ∷ ws) h = omega (arith, value-complement ws h.1, modulus-suc (length ws))

pub is_zero_iff : (ws : Words) → (is_zero ws ≡ true) ↔ (value ws ≡ 0)
unfolding is_zero value
is_zero_iff [] = (λ _. refl, λ _. refl)
is_zero_iff (w ∷ ws) = ground (arith, is_zero_iff ws)
