-- ===== src/Merkle/Wired.antt =====
-- Partial trees and their bytes.
use mvclight.Base.{
  le→ltb_false, ◌+◌, ◌*◌, ◌^◌, ◌≤◌, ◌<◌, ◌≡◌, refl, List, [], ◌∷◌, ◌++◌, some, arith, length, All,
  ap, ◌∙◌, append_assoc, length-append, take-append_exact, drop-append_exact,
}
use mathlib.Core.Option.{bind}
use mvclight.Wire.{Bytes, write_le, read_compact_size, write_compact_size}
use mvclight.Wire.Endian.{length-write_le, read_le32-write_le}
use mvclight.Wire.CompactSize.{read_compact_size-write_compact_size}
use mvclight.Uint256.{Uint256, IsUint256}
use mvclight.Merkle.{
  PartialMerkleTree, max_items, read_hashes, write_hashes, deserialize, deserialize_bits, serialize,
}

-- A tree whose fields have their widths and whose lists have at most 2 ^ 20 items.
pub record IsTree (t : PartialMerkleTree) : Type 0 where
  pub count_fits : t.n_transactions < 2 ^ 32
  pub hashes_are : All IsUint256 t.v_hash
  pub hashes_fit : length t.v_hash ≤ max_items
  pub bits_fit : length t.v_bits ≤ max_items

length-write_hashes :
    (hs : List Uint256) → All IsUint256 hs → length (write_hashes hs) ≡ length hs * 32
unfolding write_hashes
length-write_hashes [] h = refl
length-write_hashes (x ∷ hs) h =
    omega (arith, length-append x (write_hashes hs), h.0.0, length-write_hashes hs h.1)

read_hashes-write_hashes :
    (hs : List Uint256) (rest : Bytes)
    → All IsUint256 hs
    → read_hashes (length hs) (write_hashes hs ++ rest) ≡ hs
unfolding read_hashes write_hashes
read_hashes-write_hashes [] rest h = refl
read_hashes-write_hashes (x ∷ hs) rest h = rw (append_assoc x (write_hashes hs) rest) (
    rw (take-append_exact 32 x (write_hashes hs ++ rest) h.0.0) (
      rw (drop-append_exact 32 x (write_hashes hs ++ rest) h.0.0)
        (ap (λ (t : List Uint256). x ∷ t) (read_hashes-write_hashes hs rest h.1))))

module _ (t : PartialMerkleTree) (w : IsTree t) (rest : Bytes) where
  -- What follows the count and the hashes.
  bits_part : Bytes
  bits_part = write_compact_size (length t.v_bits) ++ (t.v_bits ++ rest)

  hash_part : Bytes
  hash_part = write_compact_size (length t.v_hash) ++ (write_hashes t.v_hash ++ bits_part)

  deserialize_bits-bits_part : deserialize_bits t.n_transactions t.v_hash bits_part ≡ some (t, rest)
  unfolding deserialize_bits bind bits_part
  deserialize_bits-bits_part =
      rw
        (read_compact_size-write_compact_size (length t.v_bits) (t.v_bits ++ rest)
          (omega (arith, w.bits_fit)))
        (rw (le→ltb_false max_items (length t.v_bits) w.bits_fit) (
          rw
            (le→ltb_false (length (t.v_bits ++ rest)) (length t.v_bits)
              (omega (arith, length-append t.v_bits rest)))
            (rw (take-append_exact (length t.v_bits) t.v_bits rest refl)
              (rw (drop-append_exact (length t.v_bits) t.v_bits rest refl) refl))))

  shape : serialize t ++ rest ≡ write_le 4 t.n_transactions ++ hash_part
  unfolding serialize bits_part hash_part
  shape = simp append_assoc

  front : length (write_le 4 t.n_transactions ++ hash_part) ≡ 4 + length hash_part
  front = omega (
    arith,
    length-append (write_le 4 t.n_transactions) hash_part,
    length-write_le 4 t.n_transactions,
  )

  hashes : length (write_hashes t.v_hash) ≡ length t.v_hash * 32
  hashes = length-write_hashes t.v_hash w.hashes_are

  deserialize-hash_part : deserialize (write_le 4 t.n_transactions ++ hash_part) ≡ some (t, rest)
  unfolding deserialize bind
  deserialize-hash_part =
      rw (le→ltb_false (length (write_le 4 t.n_transactions ++ hash_part)) 4 (omega (arith, front)))
        (rw
          (drop-append_exact 4 (write_le 4 t.n_transactions) hash_part
            (length-write_le 4 t.n_transactions))
          (rw (read_le32-write_le t.n_transactions hash_part w.count_fits) (
            rw hash_count (
              rw (le→ltb_false max_items (length t.v_hash) w.hashes_fit) (
                rw
                  (le→ltb_false (length (write_hashes t.v_hash ++ bits_part)) (length t.v_hash * 32)
                    (omega (arith, hashes, length-append (write_hashes t.v_hash) bits_part)))
                  (rw (read_hashes-write_hashes t.v_hash bits_part w.hashes_are) (
                    rw
                      (drop-append_exact (length t.v_hash * 32) (write_hashes t.v_hash) bits_part
                        hashes)
                      deserialize_bits-bits_part)))))))
    where
      hash_count :
          read_compact_size hash_part ≡ some (length t.v_hash, write_hashes t.v_hash ++ bits_part)
      hash_count =
          unfold hash_part in
          read_compact_size-write_compact_size (length t.v_hash)
            (write_hashes t.v_hash ++ bits_part) (omega (arith, w.hashes_fit))

  -- `Deserialize` reads back every partial tree from the bytes that `Serialize` wrote, whatever
  -- follows them, and leaves the cursor behind them, for a tree whose count is a uint32, whose hashes
  -- have 32 bytes, and whose lists have at most 2 ^ 20 items.
  pub deserialize-serialize_tree : deserialize (serialize t ++ rest) ≡ some (t, rest)
  deserialize-serialize_tree = ap deserialize shape ∙ deserialize-hash_part
