-- ===== src/Filter.antt =====
-- light_filter.cpp: the Bloom filter of BIP 37. The bytes of the filter are a list; a uint32_t is a
-- number below 2 ^ 32.
pub mod Members
pub mod Inserted
pub mod Found
pub mod Room
mod Runs
use mvclight.Base.{
  ℕ, zero, suc, ◌+◌, ◌-◌, ◌*◌, ◌/◌, ◌%◌, ◌^◌, bit_and, bit_or, bit_xor, Bool, true, false, List, [],
  ◌∷◌, ◌++◌, Option, none, some, ltb, leb, ◌==◌, if◌then◌else◌, length, take, drop, get_or, set,
}
use mvclight.Wire.{Bytes, write_le, read_le32, write_compact_size}

abbrev pub max_filter_elements : ℕ
max_filter_elements = 20000

abbrev pub max_filter_bytes : ℕ
max_filter_bytes = 32768

abbrev mul32 : ℕ → ℕ → ℕ
mul32 a b = a * b % 2 ^ 32

rotl : ℕ → ℕ → ℕ
rotl x n = bit_or (x * 2 ^ n % 2 ^ 32) (x / 2 ^ (32 - n))

mix_k : ℕ → ℕ
unfolding rotl
mix_k k = mul32 (rotl (mul32 k 0xcc9e2d51) 15) 0x1b873593

-- The blocks of four bytes, in the little-endian order of the machine.
blocks : ℕ → ℕ → Bytes → ℕ
unfolding mix_k rotl
blocks zero h item = h
blocks (suc n) h item =
    blocks n ((mul32 (rotl (bit_xor h (mix_k (read_le32 item))) 13) 5 + 0xe6546b64) % 2 ^ 32)
      (drop 4 item)

-- The switch on the last bytes.
tail_k : Bytes → ℕ
tail_k [] = 0
tail_k (a ∷ []) = a
tail_k (a ∷ b ∷ []) = bit_xor (b * 2 ^ 8) a
tail_k (a ∷ b ∷ c ∷ rest) = bit_xor (bit_xor (c * 2 ^ 16) (b * 2 ^ 8)) a

mix_tail : ℕ → Bytes → ℕ
unfolding mix_k tail_k
mix_tail h [] = h
mix_tail h (a ∷ rest) = bit_xor h (mix_k (tail_k (a ∷ rest)))

final_mix : ℕ → ℕ
final_mix h =
    let h1 = mul32 (bit_xor h (h / 2 ^ 16)) 0x85ebca6b in
    let h2 = mul32 (bit_xor h1 (h1 / 2 ^ 13)) 0xc2b2ae35 in bit_xor h2 (h2 / 2 ^ 16)

pub murmur_hash3 : Bytes → ℕ → ℕ
unfolding blocks mix_tail final_mix
murmur_hash3 item seed =
    let n = length item / 4 in
    final_mix (bit_xor (mix_tail (blocks n seed item) (drop (n * 4) item)) (length item % 2 ^ 32))

pub record BloomFilter : Type 0 where
  pub m_data : Bytes
  pub m_hash_funcs : ℕ
  pub m_tweak : ℕ
  pub m_flags : ℕ
  pub m_element_count : ℕ

unfoldable pub is_full : BloomFilter → Bool
is_full f = leb max_filter_elements f.m_element_count

-- `Hash`: `none` is the result false.
unfoldable pub hash_item : BloomFilter → ℕ → Bytes → Option ℕ
hash_item f hash_num item =
    if f.m_hash_funcs == 0
    then none
    else (if length f.m_data == 0
        then none
        else some (murmur_hash3 item ((hash_num * 0xfba4c795 + f.m_tweak) % 2 ^ 32)))

-- `m_vData[bit / 8] |= 1 << (bit & 7)` and the test of the same bit, for the hash `h`.
unfoldable pub bit_index : BloomFilter → ℕ → ℕ
bit_index f h = h % (length f.m_data * 8)

unfoldable pub set_bit : BloomFilter → ℕ → BloomFilter
set_bit f bit = record f {
  m_data = set f.m_data (bit / 8) (bit_or (get_or f.m_data (bit / 8) 0) (2 ^ (bit % 8)));
}

unfoldable pub test_bit : BloomFilter → ℕ → Bool
test_bit f bit = if bit_and (get_or f.m_data (bit / 8) 0) (2 ^ (bit % 8)) == 0 then false else true

-- What follows the hash of one function: the loop ends with false, or goes on.
unfoldable pub insert_step : BloomFilter → Option ℕ → (ℕ → BloomFilter × Bool) → BloomFilter × Bool
insert_step f none next = (f, false)
insert_step f (some h) next = next h

unfoldable pub contains_step : BloomFilter → Option ℕ → Bool → Bool
contains_step f none rest = false
contains_step f (some h) rest = if test_bit f (bit_index f h) then rest else false

-- The loop of `Insert` with `n` hash functions left, from number `i` on.
unfoldable pub insert_loop : ℕ → ℕ → BloomFilter → Bytes → BloomFilter × Bool
unfolding insert_step
insert_loop zero i f item = (f, true)
insert_loop (suc n) i f item =
    insert_step f (hash_item f i item) (λ h. insert_loop n (suc i) (set_bit f (bit_index f h)) item)

counted : BloomFilter × Bool → BloomFilter × Bool
counted (f, false) = (f, false)
counted (f, true) = (record f { m_element_count = suc f.m_element_count }, true)

unfoldable pub insert_item : BloomFilter → Bytes → BloomFilter × Bool
unfolding insert_loop counted
insert_item f item = if is_full f then (f, false) else counted (insert_loop f.m_hash_funcs 0 f item)

unfoldable pub contains_loop : ℕ → ℕ → BloomFilter → Bytes → Bool
unfolding contains_step
contains_loop zero i f item = true
contains_loop (suc n) i f item =
    let rest = contains_loop n (suc i) f item in contains_step f (hash_item f i item) rest

unfoldable pub contains_item : BloomFilter → Bytes → Bool
unfolding contains_loop
contains_item f item = contains_loop f.m_hash_funcs 0 f item

-- `Serialize`: `none` is the result false.
unfoldable pub serialize_filter : BloomFilter → Option Bytes
serialize_filter f =
    if ltb max_filter_bytes (length f.m_data)
    then none
    else some (
        write_compact_size (length f.m_data)
        ++ (f.m_data ++ (write_le 4 f.m_hash_funcs ++ (write_le 4 f.m_tweak ++ f.m_flags ∷ []))))
