-- ===== src/Runs.antt =====
-- The theorems at concrete inputs, and runs of the code on them.
mod Node
mod Rules
mod Peers
mod Store
mod Service
mod Front
mod Window
use mvclight.Base.{
  ℕ, ◌+◌, ◌-◌, ◌*◌, ◌/◌, ◌%◌, ◌^◌, ◌≤◌, ◌<◌, ◌≡◌, ◌↔◌, ◌≢◌, refl, Bool, true, false, List, [], ◌∷◌,
  ◌++◌, Option, none, some, arith, ltb, leb, if◌then◌else◌, length, replicate, All,
}
use mvclight.Base.Int.{ℤ, pos, ◌≤ℤ◌, eqb_ℤ, to_u32, signed32, ◌+ℤ◌}
use mvclight.Base.Assoc.{find}
use mvclight.Wire.{
  IsByte, Bytes, write_le, read_le, read_le32, read_fixed, read_compact_size, write_compact_size,
}
use mvclight.Wire.CompactSize.{read_compact_size-write_compact_size, read_compact_size_takes}
use mvclight.Wire.BigEndian.{read_be}
use mvclight.Uint256.{Uint256, IsUint256, null, get_hex, set_hex}
use mvclight.Uint256
use mvclight.Uint256.Order.{eq_iff, eq_self}
use mvclight.Uint256.Hex.{set_hex-get_hex}
use mvclight.Sha256
use mvclight.Sha256.{sha256d, finish, write}
use mvclight.Sha256.Stream.{write-append, finish-empty}
use mvclight.Sha256.Digest.{sha256d_shape}
use mvclight.Arith256.{Words, IsArith256, add, sub, mul, div, lt, set_compact}
use mvclight.Arith256.Value.{value, value-add, value-sub}
use mvclight.Arith256.Product.{value-mul}
use mvclight.Arith256.Order.{lt-value}
use mvclight.Arith256.Division.{value-div}
use mvclight.Header.{LightBlockHeader, IsHeader, serialize, deserialize, get_hash, header_size}
use mvclight.Header.RoundTrip.{deserialize-serialize}

pub zeros-IsByte : (n : ℕ) → All IsByte (replicate n 0)
zeros-IsByte ℕ.zero = tt
zeros-IsByte (ℕ.suc n) = (omega arith, zeros-IsByte n)

pub null-IsUint256 : IsUint256 null
null-IsUint256 = (refl, zeros-IsByte 32)

abbrev pub small : ℕ → Words
small n = n ∷ 7 ∷ 0 ∷ 0 ∷ 0 ∷ 0 ∷ 0 ∷ 1 ∷ []

pub small-IsArith256 : (n : ℕ) → n < 2 ^ 32 → IsArith256 (small n)
small-IsArith256 n h = (
  refl,
  (
    h,
    (
      omega arith,
      (omega arith, (omega arith, (omega arith, (omega arith, (omega arith, (omega arith, tt)))))),
    ),
  ),
)

small_pos : (n : ℕ) → 0 < n → 0 < value (small n)
unfolding value
small_pos n h = omega arith

value-div_example : value (div (small 9) (small 4)) ≡ value (small 9) / value (small 4)
value-div_example =
    value-div (small 9) (small 4) (small-IsArith256 9 (omega arith))
      (small-IsArith256 4 (omega arith)) (small_pos 4 (omega arith))

read_two_bytes : read_compact_size (253 ∷ 0 ∷ 1 ∷ 9 ∷ []) ≡ some (256, 9 ∷ [])
unfolding read_compact_size read_fixed read_le
read_two_bytes = refl

new_room : length Sha256.new.m_buffer < 64
unfolding Sha256.new
new_room = omega arith

write-append_example :
    write (write Sha256.new (97 ∷ [])) (98 ∷ 99 ∷ []) ≡ write Sha256.new (97 ∷ 98 ∷ 99 ∷ [])
write-append_example = write-append Sha256.new (97 ∷ []) (98 ∷ 99 ∷ []) new_room

abbrev pub genesis : LightBlockHeader
genesis = record {
  n_version = 1;
  hash_prev_block = null;
  hash_merkle_root = null;
  n_time = 1231006505;
  n_bits = 0x1d00ffff;
  n_nonce = 2083236893;
}

pub genesis-IsHeader : IsHeader genesis
genesis-IsHeader = record {
  version_fits = omega arith;
  prev_is = null-IsUint256;
  root_is = null-IsUint256;
  time_fits = omega arith;
  bits_fit = omega arith;
  nonce_fits = omega arith;
}
