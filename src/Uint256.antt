-- ===== src/Uint256.antt =====
-- light_uint256.h: the 256-bit identifiers, as their 32 bytes in memory order (little-endian), with
-- the big-endian hexadecimal form. A char is its code.
pub mod Order
pub mod Hex
use mvclight.Base.{
  ℕ, zero, suc, ◌+◌, ◌-◌, ◌*◌, ◌/◌, ◌%◌, ◌^◌, bit_and, bit_or, ◌≡◌, Bool, true, false, not, ◌&&◌,
  ◌||◌, List, [], ◌∷◌, ◌++◌, Option, none, some, ltb, leb, ◌==◌, if◌then◌else◌, length, drop,
  replicate, All,
}
use mvclight.Wire.{Bytes, IsByte}
use mathlib.Core.List.{reverse}

abbrev pub width : ℕ
width = 32

abbrev pub Uint256 : Type 0
Uint256 = Bytes

-- What every value of the class satisfies.
abbrev pub IsUint256 : Uint256 → Type 0
IsUint256 x = (length x ≡ width) × All IsByte x

-- The default constructor and `SetNull`.
abbrev pub null : Uint256
null = replicate width 0

-- `memcmp` over the bytes, as far as equality goes.
unfoldable pub eq : Uint256 → Uint256 → Bool
eq [] [] = true
eq [] (y ∷ ys) = false
eq (x ∷ xs) [] = false
eq (x ∷ xs) (y ∷ ys) = x == y && eq xs ys

unfoldable pub is_null : Uint256 → Bool
is_null [] = true
is_null (x ∷ xs) = x == 0 && is_null xs

-- `GetHex`: from the last byte to the first, the high digit first.
unfoldable pub hex_digit_char : ℕ → ℕ
hex_digit_char d = if ltb d 10 then b'0' + d else b'a' + (d - 10)

unfoldable pub hex_chars : Bytes → List ℕ
hex_chars [] = []
hex_chars (b ∷ bs) = hex_digit_char (b / 16) ∷ hex_digit_char (bit_and b 15) ∷ hex_chars bs

unfoldable pub get_hex : Uint256 → List ℕ
get_hex x = hex_chars (reverse x)

-- `HexDigit`, whose 0xFF is `none`.
unfoldable pub hex_digit : ℕ → Option ℕ
hex_digit c =
    if leb b'0' c && leb c b'9'
    then some (c - b'0')
    else (if leb b'a' c && leb c b'f'
        then some (c - b'a' + 10)
        else (if leb b'A' c && leb c b'F' then some (c - b'A' + 10) else none))

-- One byte from its low digit and, if there is one more char, its high digit.
pair_digits : ℕ → Option ℕ → Option ℕ
pair_digits lo none = none
pair_digits lo (some hi) = some (bit_or lo (hi * 2 ^ 4 % 256))

cons_byte : Option ℕ → Option Bytes → Option Bytes
cons_byte none rest = none
cons_byte (some b) none = none
cons_byte (some b) (some rest) = some (b ∷ rest)

low_digit : Option ℕ → Option ℕ → Option ℕ
unfolding pair_digits
low_digit none hi = none
low_digit (some lo) hi = pair_digits lo hi

-- The loop of `SetHex` over the chars from the last to the first; `n` bytes are left to fill.
unfoldable pub fill_hex : ℕ → List ℕ → Option Bytes
unfolding low_digit cons_byte
fill_hex zero cs = some []
fill_hex (suc n) [] = some (replicate (suc n) 0)
fill_hex (suc n) (lo ∷ []) = cons_byte (hex_digit lo) (some (replicate n 0))
fill_hex (suc n) (lo ∷ hi ∷ cs) =
    cons_byte (low_digit (hex_digit lo) (hex_digit hi)) (fill_hex n cs)

-- The chars behind "0x" or "0X".
unfoldable pub strip_prefix : List ℕ → List ℕ
strip_prefix (c ∷ x ∷ cs) = if c == b'0' && (x == b'x' || x == b'X') then cs else c ∷ x ∷ cs
strip_prefix cs = cs

null_or : Option Bytes → Uint256
null_or none = null
null_or (some x) = x

-- `SetHex`: a char that is no digit leaves the null value.
unfoldable pub set_hex : List ℕ → Uint256
unfolding null_or fill_hex strip_prefix hex_digit
set_hex str = null_or (fill_hex width (reverse (strip_prefix str)))
