-- ===== src/Arith256/DivStep.antt =====
-- One round of `/=`: bringing a bit of the dividend down, and setting a bit of the quotient.
use mvclight.Base.{
  ℕ, zero, suc, ◌+◌, ◌-◌, ◌*◌, ◌/◌, ◌%◌, ◌^◌, ◌≤◌, ◌<◌, ◌≡◌, refl, ap, sym, ◌∙◌, bit_and, bit_or,
  [], ◌∷◌, length, get_or, set, take, arith, length-set,
}
use mvclight.Base.Bits.{and_low1, or-shifted_left, or-lt, two_pow_pos}
use mvclight.Arith256.{Words, IsArith256, shift_left, shl_bits, move_up, bring_down, set_bit}
use mvclight.Arith256.Value.{value, modulus}
use mvclight.Arith256.Words.{
  place, half_word, place-two_pow, bit-value, set_bit-value, set-IsWord, get_or-IsWord,
  length-shl_bits, value-shl_one, shl_bits-IsWord,
}
use native.Mathlib.Nat.{le-mul_of_pos_right, pow-suc}

take_all : (n : ℕ) (ws : Words) → length ws ≡ n → take n ws ≡ ws
take_all zero [] h = refl
take_all zero (w ∷ ws) h = absurd (omega arith)
take_all (suc n) [] h = refl
take_all (suc n) (w ∷ ws) h = ap (◌∷◌ w) (take_all n ws (omega arith))

shift_left_one : (a : Words) → IsArith256 a → shift_left a 1 ≡ shl_bits 1 0 a
unfolding shift_left move_up
shift_left_one a h = ap (shl_bits 1 0) (take_all 8 a h.0)

-- A bit brought into the place that the shift left clear.
set_low :
    (ws : Words) (b : ℕ)
    → 0 < length ws
    → value ws % 2 ≡ 0
    → b ≤ 1
    → value (set ws 0 (bit_or (get_or ws 0 0) b)) ≡ value ws + b
unfolding value
set_low [] b h even hb = absurd (omega arith)
set_low (w ∷ ws) b h even hb = omega (arith, joined)
  where
    joined : bit_or w b ≡ w + b
    joined =
        ap (λ (t : ℕ). bit_or t b) (omega arith)
        ∙ or-shifted_left 1 (w / 2) b (omega arith)
        ∙ omega arith

shift_left_one-IsArith256 : (a : Words) → IsArith256 a → IsArith256 (shift_left a 1)
shift_left_one-IsArith256 a h =
    rw (shift_left_one a h) (length-shl_bits 1 0 a ∙ h.0, shl_bits-IsWord 1 0 a (omega arith) h.1)

place_of : (bit : ℕ) → place (bit / 32) (bit % 32) ≡ 2 ^ bit
place_of bit = place-two_pow (bit / 32) (bit % 32) ∙ ap (λ (t : ℕ). 2 ^ t) whole
  where
    whole : 32 * (bit / 32) + bit % 32 ≡ bit
    whole = omega arith

bit_fits : (o : ℕ) → o < 32 → 2 ^ o < 2 ^ 32
bit_fits o h = omega (
  arith,
  half_word o h,
  two_pow_pos o,
  two_pow_pos (31 - o),
  le-mul_of_pos_right (2 ^ o) (two_pow_pos (31 - o)),
)

unfoldable pub bit_of : Words → ℕ → ℕ
bit_of a bit = value a / 2 ^ bit % 2

bit_of-word :
    (a : Words) (bit : ℕ)
    → IsArith256 a
    → bit < 256
    → bit_and (get_or a (bit / 32) 0 / 2 ^ (bit % 32)) 1 ≡ bit_of a bit
unfolding bit_of
bit_of-word a bit h hb =
    sym (bit-value a (bit / 32) (bit % 32) (omega arith) (omega (arith, h.0)) h.1)
    ∙ ap (λ (t : ℕ). value a / t % 2) (place_of bit)

module _ (a rem : Words) (bit : ℕ) (ha : IsArith256 a) (hr : IsArith256 rem) (hb : bit < 256)
    (small : value rem < 2 ^ 255) where
  doubled : value (shift_left rem 1) ≡ value rem * 2
  doubled =
      ap value (shift_left_one rem hr)
      ∙ value-shl_one 0 rem (omega arith) hr.1
      ∙ ap (λ (m : ℕ). (value rem * 2 + 0 / 2 ^ 31) % m) (ap modulus hr.0)
      ∙ omega arith

  pub value-bring_down : value (bring_down a rem bit) ≡ value rem * 2 + bit_of a bit
  unfolding bring_down
  value-bring_down =
      set_low (shift_left rem 1) (bit_and (get_or a (bit / 32) 0 / 2 ^ (bit % 32)) 1)
        (omega (arith, length_shifted)) (omega (arith, doubled))
        (omega (arith, and_low1 (get_or a (bit / 32) 0 / 2 ^ (bit % 32))))
      ∙ omega (arith, doubled, bit_of-word a bit ha hb)
    where
      length_shifted : length (shift_left rem 1) ≡ 8
      length_shifted = (shift_left_one-IsArith256 rem hr).0

  pub bring_down-IsArith256 : IsArith256 (bring_down a rem bit)
  unfolding bring_down
  bring_down-IsArith256 = (
    length-set shifted 0 v ∙ whole.0,
    set-IsWord shifted 0 v whole.1 (
        or-lt 32 _ _ (get_or-IsWord shifted 0 whole.1)
          (omega (arith, and_low1 (get_or a (bit / 32) 0 / 2 ^ (bit % 32))))),
  )
    where
      shifted : Words
      shifted = shift_left rem 1

      whole : IsArith256 shifted
      whole = shift_left_one-IsArith256 rem hr

      v : ℕ
      v = bit_or (get_or shifted 0 0) (bit_and (get_or a (bit / 32) 0 / 2 ^ (bit % 32)) 1)

module _ (quo : Words) (bit q : ℕ) (hq : IsArith256 quo) (hb : bit < 256)
    (clear : value quo ≡ q * 2 ^ suc bit) where
  pub value-set_bit : value (set_bit quo bit) ≡ value quo + 2 ^ bit
  unfolding set_bit
  value-set_bit =
      set_bit-value quo (bit / 32) (bit % 32) q (omega arith) (omega (arith, hq.0)) hq.1 (
        clear
        ∙ omega
            (arith, ap (λ (t : ℕ). q * t) (pow-suc 2 bit), ap (λ (t : ℕ). q * t) (place_of bit)))
      ∙ omega (arith, place_of bit)

pub set_bit-IsArith256 : (quo : Words) (bit : ℕ) → IsArith256 quo → IsArith256 (set_bit quo bit)
unfolding set_bit
set_bit-IsArith256 quo bit hq = (
  length-set quo (bit / 32) v ∙ hq.0,
  set-IsWord quo (bit / 32) v hq.1
      (or-lt 32 _ _ (get_or-IsWord quo (bit / 32) hq.1) (bit_fits (bit % 32) (omega arith))),
)
  where
    v : ℕ
    v = bit_or (get_or quo (bit / 32) 0) (2 ^ (bit % 32))
