-- ===== src/Arith256/Words.antt =====
-- Single bits of the words: reading one, setting one that is clear, and doubling.
use mvclight.Base.{
  ℕ, zero, suc, ◌+◌, ◌-◌, ◌*◌, ◌/◌, ◌%◌, ◌^◌, ◌<◌, ◌≡◌, refl, ap, sym, ◌∙◌, bit_and, bit_or, [],
  ◌∷◌, length, get_or, set, All, arith,
}
use mvclight.Base.Bits.{and_low1, or-shifted_left, or-lt, two_pow_pos, two_pow-add, double_shift}
use mvclight.Arith256.{Words, IsWord, shl_bits}
use mvclight.Arith256.Value.{value, modulus, modulus-suc, digit_mod}
use mathlib.Core.Path.{ap₂}
use native.Mathlib.Nat.{
  div-div-eq-div-mul, add-mul-div_right, add-mul-mod_self_right, mul-mod_left, div-add-mod, pow-suc,
  lt_of_le_of_lt, div-le_self,
}

-- The place value of bit `o` of word `i`.
abbrev pub place : ℕ → ℕ → ℕ
place i o = modulus i * 2 ^ o

pub place-two_pow : (i o : ℕ) → place i o ≡ 2 ^ (32 * i + o)
place-two_pow zero o = rw (zero_add) (omega arith)
  where
    zero_add : 32 * 0 + o ≡ o
    zero_add = omega arith
place-two_pow (suc i) o = rw (regroup) (
    omega (
      arith,
      two_pow-add 32 (32 * i + o),
      place-two_pow i o,
      ap (λ (t : ℕ). t * 2 ^ o) (modulus-suc i),
    ))
  where
    regroup : 32 * suc i + o ≡ 32 + (32 * i + o)
    regroup = omega arith

place-suc : (i o : ℕ) → place (suc i) o ≡ 2 ^ 32 * place i o
place-suc i o = omega (arith, ap (λ (t : ℕ). t * 2 ^ o) (modulus-suc i))

-- 2 ^ 32 holds each bit of a word twice over.
pub half_word : (o : ℕ) → o < 32 → 2 ^ 32 ≡ 2 ^ (31 - o) * 2 * 2 ^ o
half_word o h = omega (
  arith,
  two_pow-add (31 - o) (suc o),
  double_shift o (2 ^ (31 - o)),
  ap (λ (t : ℕ). 2 ^ t) whole,
)
  where
    whole : 31 - o + suc o ≡ 32
    whole = omega arith

-- `(m_words[i] >> o) & 1` is a digit of the number.
pub bit-value :
    (ws : Words) (i o : ℕ)
    → o < 32
    → i < length ws
    → All IsWord ws
    → value ws / place i o % 2 ≡ bit_and (get_or ws i 0 / 2 ^ o) 1
unfolding value
bit-value [] i o ho hi hw = absurd (omega arith)
bit-value (w ∷ ws) zero o ho hi hw =
    ap (λ (t : ℕ). t % 2)
      (ap₂ ◌/◌ (omega (arith, ap (λ (t : ℕ). value ws * t) (half_word o ho))) one_place
        ∙ add-mul-div_right w (value ws * (2 ^ (31 - o) * 2)) (two_pow_pos o))
    ∙ omega (arith, and_low1 (w / 2 ^ o))
  where
    one_place : place 0 o ≡ 2 ^ o
    one_place = omega arith
bit-value (w ∷ ws) (suc i) o ho hi hw =
    ap (λ (t : ℕ). t % 2)
      (ap (λ (t : ℕ). n / t) (place-suc i o)
        ∙ sym (div-div-eq-div-mul n (2 ^ 32) (place i o))
        ∙ ap (λ (t : ℕ). t / place i o) rest)
    ∙ bit-value ws i o ho (omega arith) hw.1
  where
    n : ℕ
    n = w + value ws * 2 ^ 32

    rest : n / 2 ^ 32 ≡ value ws
    rest = omega arith

-- A word below whose bits `o` and down nothing is set, as the number and all words above show.
word_multiple :
    (w v o c : ℕ) → o < 32 → w + v * 2 ^ 32 ≡ c * (2 * 2 ^ o) → w ≡ w / 2 ^ suc o * 2 ^ suc o
word_multiple w v o c ho h = omega (arith, div-add-mod w (2 ^ suc o), none_left)
  where
    p : ℕ
    p = 2 ^ suc o

    none_left : w % p ≡ 0
    none_left =
        sym (add-mul-mod_self_right w (v * 2 ^ (31 - o)) p)
        ∙ ap (λ (t : ℕ). t % p)
            (omega (
              arith,
              ap (λ (t : ℕ). v * t) (half_word o ho),
              ap (λ (t : ℕ). v * 2 ^ (31 - o) * t) (pow-suc 2 o),
              ap (λ (t : ℕ). c * t) (pow-suc 2 o),
            ))
        ∙ mul-mod_left c p

set_clear : (w v o c : ℕ) → o < 32 → w + v * 2 ^ 32 ≡ c * (2 * 2 ^ o) → bit_or w (2 ^ o) ≡ w + 2 ^ o
set_clear w v o c ho h =
    ap (λ (t : ℕ). bit_or t (2 ^ o)) multiple
    ∙ or-shifted_left (suc o) (w / 2 ^ suc o) (2 ^ o) (omega (arith, pow-suc 2 o, two_pow_pos o))
    ∙ ap (λ (t : ℕ). t + 2 ^ o) (sym multiple)
  where
    multiple : w ≡ w / 2 ^ suc o * 2 ^ suc o
    multiple = word_multiple w v o c ho h

-- Setting a bit that is clear, with nothing set below it, adds its place value.
pub set_bit-value :
    (ws : Words) (i o c : ℕ)
    → o < 32
    → i < length ws
    → All IsWord ws
    → value ws ≡ c * (2 * place i o)
    → value (set ws i (bit_or (get_or ws i 0) (2 ^ o))) ≡ value ws + place i o
unfolding value
set_bit-value [] i o c ho hi hw h = absurd (omega arith)
set_bit-value (w ∷ ws) zero o c ho hi hw h =
    omega (arith, set_clear w (value ws) o c ho (omega arith))
set_bit-value (w ∷ ws) (suc i) o c ho hi hw h =
    omega (arith, place-suc i o, set_bit-value ws i o c ho (omega arith) hw.1 tail)
  where
    tail : value ws ≡ c * (2 * place i o)
    tail = omega (arith, ap (λ (t : ℕ). c * t) (place-suc i o))

pub set-IsWord : (ws : Words) (i v : ℕ) → All IsWord ws → IsWord v → All IsWord (set ws i v)
set-IsWord [] i v h hv = tt
set-IsWord (w ∷ ws) zero v h hv = (hv, h.1)
set-IsWord (w ∷ ws) (suc i) v h hv = (h.0, set-IsWord ws i v h.1 hv)

pub get_or-IsWord : (ws : Words) (i : ℕ) → All IsWord ws → IsWord (get_or ws i 0)
get_or-IsWord [] i h = omega arith
get_or-IsWord (w ∷ ws) zero h = h.0
get_or-IsWord (w ∷ ws) (suc i) h = get_or-IsWord ws i h.1

pub length-shl_bits : (k below : ℕ) (ws : Words) → length (shl_bits k below ws) ≡ length ws
unfolding shl_bits
length-shl_bits k below [] = refl
length-shl_bits k below (w ∷ ws) = ap suc (length-shl_bits k w ws)

-- Doubling the words doubles the number, with the top bit of the word below coming in.
pub value-shl_one :
    (below : ℕ) (ws : Words)
    → below < 2 ^ 32
    → All IsWord ws
    → value (shl_bits 1 below ws) ≡ (value ws * 2 + below / 2 ^ 31) % modulus (length ws)
unfolding shl_bits value
value-shl_one below [] hb h = omega arith
value-shl_one below (w ∷ ws) hb h =
    ap₂ (λ (r q : ℕ). r + q * 2 ^ 32) head_sum (value-shl_one w ws h.0 h.1)
    ∙ sym (
        digit_mod (w * 2 % 2 ^ 32 + below / 2 ^ 31) (value ws * 2 + w / 2 ^ 31)
          (modulus (length ws)) (omega arith))
    ∙ ap₂ ◌%◌ (omega arith) (sym (modulus-suc (length ws)))
  where
    head_sum : bit_or (w * 2 ^ 1 % 2 ^ 32) (below / 2 ^ 31) ≡ w * 2 % 2 ^ 32 + below / 2 ^ 31
    head_sum =
        ap (λ (t : ℕ). bit_or t (below / 2 ^ 31)) (omega arith)
        ∙ or-shifted_left 1 (w % 2 ^ 31) (below / 2 ^ 31) (omega arith)
        ∙ omega arith

pub shl_bits-IsWord :
    (k below : ℕ) (ws : Words)
    → IsWord (below / 2 ^ (32 - k))
    → All IsWord ws
    → All IsWord (shl_bits k below ws)
unfolding shl_bits
shl_bits-IsWord k below [] hb h = tt
shl_bits-IsWord k below (w ∷ ws) hb h = (
  or-lt 32 _ _ (omega arith) hb,
  shl_bits-IsWord k w ws (lt_of_le_of_lt (div-le_self w _) h.0) h.1,
)
