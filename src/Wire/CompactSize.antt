-- ===== src/Wire/CompactSize.antt =====
-- The variable-length numbers that count hashes, bytes and headers on the wire.
use mvclight.Base.{ℕ, ◌+◌, ◌^◌, ◌≤◌, ◌<◌, ◌≡◌, ap, [], ◌∷◌, ◌++◌, some, length, All, arith}
use mvclight.Wire.{
  IsByte, Bytes, write_le, read_compact_size, write_compact_size, write_compact_size32,
}
use mvclight.Wire.Endian.{write_le-IsByte, read_fixed-write_le, read_fixed_takes}

one_byte : (v : ℕ) → v < 256 → write_le 1 v ≡ v ∷ []
unfolding write_le
one_byte v h = ap (λ (t : ℕ). t ∷ []) (omega arith)

-- Every uint64 that `WriteCompactSize` wrote is read back by `ReadCompactSize`, and the cursor
-- stands on the bytes that follow it.
pub read_compact_size-write_compact_size :
    (v : ℕ) (rest : Bytes)
    → v < 2 ^ 64
    → read_compact_size (write_compact_size v ++ rest) ≡ some (v, rest)
unfolding read_compact_size write_compact_size
read_compact_size-write_compact_size v rest h = ground (
  arith,
  one_byte v,
  read_fixed-write_le 2 v rest,
  read_fixed-write_le 4 v rest,
  read_fixed-write_le 8 v rest,
)

-- A read that succeeds yields a uint64, takes one to nine bytes, and leaves bytes behind it.
pub read_compact_size_takes :
    (p : Bytes) (v : ℕ) (rest : Bytes)
    → All IsByte p
    → read_compact_size p ≡ some (v, rest)
    → (v < 2 ^ 64) × (length rest < length p) × (length p ≤ length rest + 9) × All IsByte rest
unfolding read_compact_size
read_compact_size_takes [] v rest b h = ground arith
read_compact_size_takes (first ∷ p) v rest b h = ground (
  arith,
  read_fixed_takes 2 p v rest b.1,
  read_fixed_takes 4 p v rest b.1,
  read_fixed_takes 8 p v rest b.1,
)

pub write_compact_size-IsByte : (v : ℕ) → All IsByte (write_compact_size v)
unfolding write_compact_size
write_compact_size-IsByte v =
    ground
      (arith, write_le-IsByte 1 v, write_le-IsByte 2 v, write_le-IsByte 4 v, write_le-IsByte 8 v)

-- The writer without the eight-byte branch agrees with the full one exactly below 2 ^ 32.
pub write_compact_size32-eq : (v : ℕ) → v < 2 ^ 32 → write_compact_size32 v ≡ write_compact_size v
unfolding write_compact_size write_compact_size32
write_compact_size32-eq v h = ground arith
