-- ===== src/Arith256.antt =====
-- light_arith_uint256.cpp: 256-bit numbers as eight 32-bit words, the lowest first. An operator's
-- assignment form (`+=`) returns the new words; the loops over the words are recursions on the list.
pub mod Value
pub mod Product
pub mod Order
pub mod Words
pub mod DivStep
pub mod Division
pub mod Closed
use mvclight.Base.{
  ℕ, zero, suc, ◌+◌, ◌-◌, ◌*◌, ◌/◌, ◌%◌, ◌^◌, bit_and, bit_or, Bool, true, false, not, ◌&&◌, List,
  [], ◌∷◌, ◌++◌, ltb, leb, ◌==◌, if◌then◌else◌, length, take, drop, replicate, get_or, set, All,
  ◌<◌, ◌≡◌,
}
use mvclight.Wire.{Bytes, write_le, read_le32}
use mvclight.Uint256.{Uint256}
use mathlib.Core.List.{reverse}

abbrev pub limb_count : ℕ
limb_count = 8

-- m_words.
abbrev pub Words : Type 0
Words = List ℕ

abbrev pub IsWord : ℕ → Type 0
IsWord w = w < 2 ^ 32

abbrev pub IsArith256 : Words → Type 0
IsArith256 a = (length a ≡ limb_count) × All IsWord a

abbrev pub zero_words : Words
zero_words = replicate limb_count 0

-- The constructor from a uint64_t.
unfoldable pub from_u64 : ℕ → Words
from_u64 v = v % 2 ^ 32 ∷ v / 2 ^ 32 % 2 ^ 32 ∷ replicate 6 0

words_of : ℕ → Bytes → Words
words_of zero bytes = []
words_of (suc n) bytes = read_le32 bytes ∷ words_of n (drop 4 bytes)

unfoldable pub from_uint256 : Uint256 → Words
unfolding words_of
from_uint256 v = words_of limb_count v

unfoldable pub to_uint256 : Words → Uint256
to_uint256 [] = []
to_uint256 (w ∷ ws) = write_le 4 w ++ to_uint256 ws

-- `SetCompact`: `nSize` and `nWord` are the two parts of the compact form. A shift of 256 bits or
-- more leaves zero.
set_compact_large : ℕ → ℕ → Words
set_compact_large shift n_word =
    let word = shift / 32 in
    let bit = shift % 32 in
    let low = set zero_words word (n_word * 2 ^ bit % 2 ^ 32) in
    if ltb shift 256
    then (if bit == 0 then low else set low (word + 1) (n_word / 2 ^ (32 - bit)))
    else zero_words

unfoldable pub set_compact : ℕ → Words
unfolding set_compact_large
set_compact n_compact =
    let n_size = n_compact / 2 ^ 24 in
    let n_word = bit_and n_compact 0x007fffff in
    if leb n_size 3
    then n_word / 2 ^ (8 * (3 - n_size)) ∷ replicate 7 0
    else set_compact_large (8 * (n_size - 3)) n_word

-- The number of words up to the highest that is not zero, and that word (0 if there is none).
unfoldable pub top_word : Words → ℕ × ℕ
top_word [] = (0, 0)
top_word (w ∷ ws) =
    let (n, top) = top_word ws in
    if n == 0 then (if w == 0 then (0, 0) else (1, w)) else (n + 1, top)

-- `while (high_bit > 0 && ((nWord >> high_bit) & 1) == 0) --high_bit;`
unfoldable pub high_bit_loop : ℕ → ℕ → ℕ
high_bit_loop n_word zero = 0
high_bit_loop n_word (suc k) =
    let rest = high_bit_loop n_word k in if bit_and (n_word / 2 ^ suc k) 1 == 0 then rest else suc k

compact_parts : ℕ → ℕ → ℕ
compact_parts size word =
    if bit_and word 0x00800000 == 0
    then bit_or (size * 2 ^ 24 % 2 ^ 32) (bit_and word 0x007fffff)
    else bit_or ((size + 1) * 2 ^ 24 % 2 ^ 32) (bit_and (word / 2 ^ 8) 0x007fffff)

get_compact_of : ℕ × ℕ → ℕ
unfolding high_bit_loop compact_parts
get_compact_of (n_size, n_word) =
    if n_size == 0
    then 0
    else (let free = (31 - high_bit_loop n_word 31) / 8 in
        compact_parts (n_size * 4 - free) (n_word / 2 ^ (free * 8)))

unfoldable pub get_compact : Words → ℕ
unfolding get_compact_of top_word
get_compact a = get_compact_of (top_word a)

-- Words moved up by `word_shift`, the lowest ones zero; `m_words[src]` of the loop of `<<=`.
pub move_up : ℕ → Words → Words
move_up word_shift a = replicate word_shift 0 ++ take (limb_count - word_shift) a

-- `m_words[src] << bit_shift | m_words[src - 1] >> (32 - bit_shift)`, the word below handed on.
unfoldable pub shl_bits : ℕ → ℕ → Words → Words
shl_bits bit_shift below [] = []
shl_bits bit_shift below (w ∷ ws) =
    bit_or (w * 2 ^ bit_shift % 2 ^ 32) (below / 2 ^ (32 - bit_shift)) ∷ shl_bits bit_shift w ws

unfoldable pub shift_left : Words → ℕ → Words
shift_left a shift =
    let word_shift = shift / 32 in
    let bit_shift = shift % 32 in
    if leb limb_count word_shift
    then zero_words
    else (if bit_shift == 0
        then move_up word_shift a
        else shl_bits bit_shift 0 (move_up word_shift a))

pub move_down : ℕ → Words → Words
move_down word_shift a = drop word_shift a ++ replicate word_shift 0

-- `m_words[src] >> bit_shift | m_words[src + 1] << (32 - bit_shift)`.
unfoldable pub shr_bits : ℕ → Words → Words
shr_bits bit_shift [] = []
shr_bits bit_shift (w ∷ []) = w / 2 ^ bit_shift ∷ []
shr_bits bit_shift (w ∷ v ∷ ws) =
    bit_or (w / 2 ^ bit_shift) (v * 2 ^ (32 - bit_shift) % 2 ^ 32) ∷ shr_bits bit_shift (v ∷ ws)

unfoldable pub shift_right : Words → ℕ → Words
shift_right a shift =
    let word_shift = shift / 32 in
    let bit_shift = shift % 32 in
    if leb limb_count word_shift
    then zero_words
    else (if bit_shift == 0
        then move_down word_shift a
        else shr_bits bit_shift (move_down word_shift a))

-- The loop of `*=`: `cur` is a uint64_t.
unfoldable pub mul_loop : ℕ → ℕ → Words → Words
mul_loop factor carry [] = []
mul_loop factor carry (w ∷ ws) =
    let cur = (w * factor + carry) % 2 ^ 64 in cur % 2 ^ 32 ∷ mul_loop factor (cur / 2 ^ 32) ws

unfoldable pub mul : Words → ℕ → Words
unfolding mul_loop
mul a factor = mul_loop factor 0 a

unfoldable pub add_loop : ℕ → Words → Words → Words
add_loop carry [] bs = []
add_loop carry (x ∷ xs) [] = []
add_loop carry (x ∷ xs) (y ∷ ys) =
    let cur = (x + y + carry) % 2 ^ 64 in cur % 2 ^ 32 ∷ add_loop (cur / 2 ^ 32) xs ys

unfoldable pub add : Words → Words → Words
unfolding add_loop
add a b = add_loop 0 a b

-- The loop of `-=`; uint64_t wraps below zero, and bit 32 of what is left is the borrow.
unfoldable pub sub_loop : ℕ → Words → Words → Words
sub_loop borrow [] bs = []
sub_loop borrow (x ∷ xs) [] = []
sub_loop borrow (x ∷ xs) (y ∷ ys) =
    let cur = (x + 2 ^ 64 - y + 2 ^ 64 - borrow) % 2 ^ 64 in
    cur % 2 ^ 32 ∷ sub_loop (bit_and (cur / 2 ^ 32) 1) xs ys

unfoldable pub sub : Words → Words → Words
unfolding sub_loop
sub a b = sub_loop 0 a b

-- `~`, on each word.
unfoldable pub complement : Words → Words
complement [] = []
complement (w ∷ ws) = (2 ^ 32 - 1 - w) ∷ complement ws

unfoldable pub is_zero : Words → Bool
is_zero [] = true
is_zero (w ∷ ws) = w == 0 && is_zero ws

-- The loop of `<`, over the words from the highest to the lowest.
unfoldable pub lt_loop : Words → Words → Bool
lt_loop [] bs = false
lt_loop (x ∷ xs) [] = false
lt_loop (x ∷ xs) (y ∷ ys) =
    let rest = lt_loop xs ys in if ltb x y then true else (if ltb y x then false else rest)

unfoldable pub lt : Words → Words → Bool
unfolding lt_loop
lt a b = lt_loop (reverse a) (reverse b)

unfoldable pub eq : Words → Words → Bool
eq [] bs = true
eq (x ∷ xs) [] = true
eq (x ∷ xs) (y ∷ ys) = x == y && eq xs ys

-- One round of the long division of `/=` brings down bit `bit` of the dividend.
pub bring_down : Words → Words → ℕ → Words
bring_down a rem bit =
    let shifted = shift_left rem 1 in
    set shifted 0 (bit_or (get_or shifted 0 0) (bit_and (get_or a (bit / 32) 0 / 2 ^ (bit % 32)) 1))

pub set_bit : Words → ℕ → Words
set_bit quotient bit =
    set quotient (bit / 32) (bit_or (get_or quotient (bit / 32) 0) (2 ^ (bit % 32)))

-- `for (int bit = 255; bit >= 0; --bit)`, where the argument is bit + 1.
unfoldable pub div_loop : ℕ → Words → Words → Words → Words → Words
div_loop zero a divisor quotient rem = quotient
div_loop (suc bit) a divisor quotient rem =
    let next = bring_down a rem bit in
    div_loop bit a divisor (if lt next divisor then quotient else set_bit quotient bit)
      (if lt next divisor then next else sub next divisor)

unfoldable pub div : Words → Words → Words
unfolding div_loop bring_down set_bit
div a divisor =
    let quotient = div_loop 256 a divisor zero_words zero_words in
    if is_zero divisor then a else quotient
