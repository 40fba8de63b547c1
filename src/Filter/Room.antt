-- ===== src/Filter/Room.antt =====
-- When `Insert` of light_filter.cpp accepts an item.
use mvclight.Base.{
  arith, ℕ, zero, suc, ◌+◌, ◌*◌, ◌/◌, ◌%◌, ◌^◌, ◌≤◌, ◌<◌, ◌≡◌, refl, ◌==◌, bit_or, Bool, true,
  false, Option, none, some, get_or, length, length-set, if◌then◌else◌,
}
use mvclight.Wire.{Bytes}
use mvclight.Filter.{
  BloomFilter, max_filter_elements, is_full, hash_item, bit_index, set_bit, insert_step,
  insert_loop, counted, insert_item, murmur_hash3,
}

-- A filter that is sized, with room for `n` more items.
pub record HasRoom (n : ℕ) (f : BloomFilter) : Type 0 where
  pub few : f.m_element_count + n ≤ max_filter_elements
  pub has_bytes : 0 < length f.m_data
  pub has_funcs : 0 < f.m_hash_funcs

set_bit-HasRoom : (n bit : ℕ) (f : BloomFilter) → HasRoom n f → HasRoom n (set_bit f bit)
unfolding set_bit
set_bit-HasRoom n bit f h = record {
  few = h.few;
  has_bytes = omega (
    arith,
    h.has_bytes,
    length-set f.m_data (bit / 8) (bit_or (get_or f.m_data (bit / 8) 0) (2 ^ (bit % 8))),
  );
  has_funcs = h.has_funcs;
}

hash_item-some :
    (n i : ℕ) (f : BloomFilter) (x : Bytes)
    → HasRoom n f
    → hash_item f i x ≡ some (murmur_hash3 x ((i * 0xfba4c795 + f.m_tweak) % 2 ^ 32))
unfolding hash_item
hash_item-some n i f x h = by_tests (f.m_hash_funcs == 0) (length f.m_data == 0) funcs bytes
  where
    funcs : (f.m_hash_funcs == 0) ≡ false
    funcs = ground (arith, h.has_funcs)

    bytes : (length f.m_data == 0) ≡ false
    bytes = ground (arith, h.has_bytes)

    by_tests :
        (a b : Bool) {o : Option ℕ}
        → a ≡ false
        → b ≡ false
        → (if a then none else (if b then none else o)) ≡ o
    by_tests true b p q = absurd (cc)
    by_tests false true p q = absurd (cc)
    by_tests false false p q = refl

insert_loop-HasRoom :
    (k i n : ℕ) (f : BloomFilter) (x : Bytes)
    → HasRoom n f
    → ((insert_loop k i f x).1 ≡ true) × HasRoom n (insert_loop k i f x).0
unfolding insert_loop insert_step
insert_loop-HasRoom zero i n f x h = (refl, h)
insert_loop-HasRoom (suc k) i n f x h =
    let bit = bit_index f (murmur_hash3 x ((i * 0xfba4c795 + f.m_tweak) % 2 ^ 32)) in
    rw (hash_item-some n i f x h)
      (insert_loop-HasRoom k (suc i) n (set_bit f bit) x (set_bit-HasRoom n bit f h))

counted-HasRoom :
    (n : ℕ) (r : BloomFilter × Bool)
    → r.1 ≡ true
    → HasRoom (suc n) r.0
    → ((counted r).1 ≡ true) × HasRoom n (counted r).0
unfolding counted
counted-HasRoom n (f, false) e h = absurd (cc)
counted-HasRoom n (f, true) e h =
    (refl, record { few = omega (arith, h.few); has_bytes = h.has_bytes; has_funcs = h.has_funcs })

-- A sized filter with room accepts an item, which takes the room of one.
pub insert_item-HasRoom :
    (n : ℕ) (f : BloomFilter) (x : Bytes)
    → HasRoom (suc n) f
    → ((insert_item f x).1 ≡ true) × HasRoom n (insert_item f x).0
unfolding insert_item
insert_item-HasRoom n f x h = by_test (is_full f) room
  where
    room : is_full f ≡ false
    room = unfold is_full in ground (arith, h.few)

    inserted :
        ((insert_loop f.m_hash_funcs 0 f x).1 ≡ true)
        × HasRoom (suc n) (insert_loop f.m_hash_funcs 0 f x).0
    inserted = insert_loop-HasRoom f.m_hash_funcs 0 (suc n) f x h

    by_test :
        (b : Bool)
        → b ≡ false
        → let r : BloomFilter × Bool =
            (if b then (f, false) else counted (insert_loop f.m_hash_funcs 0 f x)) in
          (r.1 ≡ true) × HasRoom n r.0
    by_test true e = absurd (cc)
    by_test false e = counted-HasRoom n (insert_loop f.m_hash_funcs 0 f x) inserted.0 inserted.1
