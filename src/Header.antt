-- ===== src/Header.antt =====
-- light_header.cpp: the 80-byte block header. `nVersion` is kept as the bit pattern of the int32_t.
pub mod RoundTrip
use mvclight.Base.{
  ℕ, ◌^◌, ◌<◌, Bool, ◌&&◌, Option, none, some, ltb, ◌==◌, if◌then◌else◌, length, take, drop, ◌++◌,
  ◌≡◌,
}
use mvclight.Wire.{Bytes, write_le, read_le32}
use mvclight.Uint256.{Uint256, IsUint256}
use mvclight.Uint256
use mvclight.Sha256.{sha256d}

pub record LightBlockHeader : Type 0 where
  pub n_version : ℕ
  pub hash_prev_block : Uint256
  pub hash_merkle_root : Uint256
  pub n_time : ℕ
  pub n_bits : ℕ
  pub n_nonce : ℕ

-- Every value of the struct satisfies this.
pub record IsHeader (h : LightBlockHeader) : Type 0 where
  pub version_fits : h.n_version < 2 ^ 32
  pub prev_is : IsUint256 h.hash_prev_block
  pub root_is : IsUint256 h.hash_merkle_root
  pub time_fits : h.n_time < 2 ^ 32
  pub bits_fit : h.n_bits < 2 ^ 32
  pub nonce_fits : h.n_nonce < 2 ^ 32

abbrev pub header_size : ℕ
header_size = 80

unfoldable pub serialize : LightBlockHeader → Bytes
serialize h =
    write_le 4 h.n_version
    ++ (h.hash_prev_block
        ++ (h.hash_merkle_root
            ++ (write_le 4 h.n_time ++ (write_le 4 h.n_bits ++ write_le 4 h.n_nonce))))

unfoldable pub deserialize : Bytes → Option LightBlockHeader
deserialize p =
    if ltb (length p) header_size
    then none
    else some (record {
      n_version = read_le32 p;
      hash_prev_block = take 32 (drop 4 p);
      hash_merkle_root = take 32 (drop 36 p);
      n_time = read_le32 (drop 68 p);
      n_bits = read_le32 (drop 72 p);
      n_nonce = read_le32 (drop 76 p);
    })

unfoldable pub get_hash : LightBlockHeader → Uint256
get_hash h = sha256d (serialize h)

unfoldable pub is_null : LightBlockHeader → Bool
is_null h = h.n_version == 0 && Uint256.is_null h.hash_prev_block && h.n_time == 0
