-- ===== src/Filter/Runs.antt =====
-- The filter at a concrete input.
use mvclight.Base.{◌≡◌, refl, true, [], ◌∷◌}
use mvclight.Wire.{read_le32}
use mvclight.Filter.{
  BloomFilter, is_full, hash_item, bit_index, set_bit, insert_step, insert_loop, insert_item,
  counted, murmur_hash3, blocks, mix_tail, final_mix, mix_k, tail_k, rotl,
}

abbrev fresh : BloomFilter
fresh = record {
  m_data = 0 ∷ 0 ∷ 0 ∷ [];
  m_hash_funcs = 2;
  m_tweak = 5;
  m_flags = 2;
  m_element_count = 0;
}

-- The test vectors of MurmurHash3 for the empty string and for four bytes.
murmur_empty : murmur_hash3 [] 1 ≡ 0x514e28b7
unfolding murmur_hash3 blocks mix_tail final_mix mix_k tail_k rotl
murmur_empty = refl

murmur_four : murmur_hash3 (0x21 ∷ 0x43 ∷ 0x65 ∷ 0x87 ∷ []) 0 ≡ 0xf55b516b
unfolding murmur_hash3 blocks mix_tail final_mix mix_k tail_k rotl read_le32
murmur_four = refl

fresh_accepts : (insert_item fresh (7 ∷ [])).1 ≡ true
unfolding insert_item is_full insert_loop insert_step hash_item counted set_bit bit_index
    murmur_hash3
fresh_accepts = refl
