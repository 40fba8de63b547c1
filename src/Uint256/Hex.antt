-- ===== src/Uint256/Hex.antt =====
-- The hexadecimal form is read back.
use mvclight.Base.{
  ℕ, ◌*◌, ◌/◌, ◌%◌, ◌^◌, ◌<◌, bit_and, bit_or, ◌≡◌, refl, ap, sym, ◌∙◌, [], ◌∷◌, ◌++◌, List, some,
  length, All, arith,
}
use mvclight.Base.Bits.{or-shifted, and_low4}
use mvclight.Wire.{Bytes, IsByte}
use mvclight.Uint256.{
  Uint256, IsUint256, get_hex, set_hex, hex_chars, hex_digit, hex_digit_char, fill_hex,
  strip_prefix,
}
use mathlib.Core.List.{reverse, reverse-cons, reverse-append}

digit_back : (d : ℕ) → d < 16 → hex_digit (hex_digit_char d) ≡ some d
unfolding hex_digit hex_digit_char
digit_back d h = ground arith

-- The chars of a byte string from the last to the first, low digit first.
low_first : Bytes → List ℕ
low_first [] = []
low_first (b ∷ bs) = hex_digit_char (bit_and b 15) ∷ hex_digit_char (b / 16) ∷ low_first bs

hex_chars-append : (xs ys : Bytes) → hex_chars (xs ++ ys) ≡ hex_chars xs ++ hex_chars ys
unfolding hex_chars
hex_chars-append [] ys = refl
hex_chars-append (x ∷ xs) ys =
    ap (λ (t : List ℕ). hex_digit_char (x / 16) ∷ hex_digit_char (bit_and x 15) ∷ t)
      (hex_chars-append xs ys)

reverse-hex_chars : (xs : Bytes) → reverse (hex_chars (reverse xs)) ≡ low_first xs
unfolding low_first
reverse-hex_chars [] = unfold hex_chars in refl
reverse-hex_chars (x ∷ xs) =
    rw
      (
        reverse-cons x xs,
        hex_chars-append (reverse xs) (x ∷ []),
        reverse-append (hex_chars (reverse xs)) (hex_chars (x ∷ [])),
        reverse-hex_chars xs,
      )
      (unfold hex_chars in refl)

fill_hex-low_first : (xs : Bytes) → All IsByte xs → fill_hex (length xs) (low_first xs) ≡ some xs
unfolding fill_hex low_first
fill_hex-low_first [] h = refl
fill_hex-low_first (x ∷ xs) h =
    rw
      (
        digit_back (bit_and x 15) (omega (arith, and_low4 x)),
        digit_back (x / 16) (omega arith),
        fill_hex-low_first xs h.1,
      )
      (ap (λ (t : ℕ). some (t ∷ xs)) byte)
  where
    byte : bit_or (bit_and x 15) (x / 16 * 2 ^ 4 % 256) ≡ x
    byte =
        ap (bit_or (bit_and x 15)) (omega arith)
        ∙ or-shifted 4 (bit_and x 15) (x / 16) (omega (arith, and_low4 x))
        ∙ omega (arith, and_low4 x)

-- `GetHex` never begins with "0x": its second char is a digit.
strip_prefix-hex_chars : (bs : Bytes) → strip_prefix (hex_chars bs) ≡ hex_chars bs
unfolding strip_prefix hex_chars hex_digit_char
strip_prefix-hex_chars [] = refl
strip_prefix-hex_chars (b ∷ bs) = ground (arith, and_low4 b)

-- `SetHex` reads back what `GetHex` wrote, for every 256-bit value.
pub set_hex-get_hex : (x : Uint256) → IsUint256 x → set_hex (get_hex x) ≡ x
unfolding set_hex get_hex
set_hex-get_hex x h =
    rw (strip_prefix-hex_chars (reverse x), reverse-hex_chars x, sym h.0, fill_hex-low_first x h.1)
