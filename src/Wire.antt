-- ===== src/Wire.antt =====
-- Byte strings and the little-endian and CompactSize codecs that light_merkle.cpp, light_sync.cpp,
-- light_filter.cpp, light_peer.cpp, light_header.cpp, light_tx.cpp and light_watchstore.cpp each
-- define for themselves. A byte is a number below 256. A cursor `p` with its `end` is the list of
-- the bytes not read yet, so `p + n > end` is `length p < n`.
pub mod Endian
pub mod CompactSize
pub mod BigEndian
use mvclight.Base.{
  ℕ, zero, suc, ◌+◌, ◌*◌, ◌/◌, ◌%◌, ◌^◌, ◌<◌, bit_or, List, [], ◌∷◌, Option, none, some, ltb, leb,
  ◌==◌, if◌then◌else◌, length, take, drop, get_or, All,
}

abbrev pub IsByte : ℕ → Type 0
IsByte b = b < 256

abbrev pub Bytes : Type 0
Bytes = List ℕ

-- `for (int i = 0; i < n; ++i) out.push_back(static_cast<uint8_t>(v >> (i * 8)));`
unfoldable pub write_le : ℕ → ℕ → Bytes
write_le zero v = []
write_le (suc n) v = (v % 256) ∷ write_le n (v / 256)

-- The loop `for (int i = n - 1; i >= 0; --i) v = (v << 8) | p[i];` over n bytes.
unfoldable pub read_le : Bytes → ℕ
read_le [] = 0
read_le (b ∷ bs) = bit_or b (read_le bs * 2 ^ 8)

-- `p[i]`, where the caller has checked the length.
abbrev pub byte_at : Bytes → ℕ → ℕ
byte_at p i = get_or p i 0

unfoldable pub read_le32 : Bytes → ℕ
read_le32 p =
    bit_or (bit_or (bit_or (byte_at p 0) (byte_at p 1 * 2 ^ 8)) (byte_at p 2 * 2 ^ 16))
      (byte_at p 3 * 2 ^ 24)

-- The n-byte number under the cursor, if it is there, and the cursor behind it.
unfoldable pub read_fixed : ℕ → Bytes → Option (ℕ × Bytes)
read_fixed n p = if ltb (length p) n then none else some (read_le (take n p), drop n p)

unfoldable pub read_compact_size : Bytes → Option (ℕ × Bytes)
unfolding read_fixed
read_compact_size [] = none
read_compact_size (first ∷ p) =
    if ltb first 253
    then some (first, p)
    else (if first == 253
        then read_fixed 2 p
        else (if first == 254 then read_fixed 4 p else read_fixed 8 p))

unfoldable pub write_compact_size : ℕ → Bytes
write_compact_size v =
    if ltb v 253
    then write_le 1 v
    else (if leb v 0xffff
        then 253 ∷ write_le 2 v
        else (if leb v 0xffffffff then 254 ∷ write_le 4 v else 255 ∷ write_le 8 v))

-- The form of light_sync.cpp and light_tx.cpp, with no eight-byte branch.
unfoldable pub write_compact_size32 : ℕ → Bytes
write_compact_size32 v =
    if ltb v 253
    then write_le 1 v
    else (if leb v 0xffff then 253 ∷ write_le 2 v else 254 ∷ write_le 4 v)
