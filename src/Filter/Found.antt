-- ===== src/Filter/Found.antt =====
-- The filter has no false negatives.
use mvclight.Base.{
  ℕ, zero, suc, ◌≡◌, refl, sym, ap, ◌∙◌, Bool, true, false, Option, none, some, Bool-cases, inl,
  inr, arith,
}
use mvclight.Wire.{Bytes}
use mvclight.Filter.{
  BloomFilter, is_full, hash_item, bit_index, set_bit, test_bit, insert_loop, insert_item, counted,
  contains_step, contains_loop, contains_item,
}
use mvclight.Filter.Inserted.{after, after-keeps, contains-after, contains-kept}

with_count : BloomFilter → ℕ → BloomFilter
with_count f k = record f { m_element_count = k }

contains_step-with_count :
    (f : BloomFilter) (k : ℕ) (o : Option ℕ) (r : Bool)
    → contains_step (with_count f k) o r ≡ contains_step f o r
unfolding contains_step with_count test_bit bit_index
contains_step-with_count f k none r = refl
contains_step-with_count f k (some h) r = refl

contains-with_count :
    (n i : ℕ) (f : BloomFilter) (k : ℕ) (y : Bytes)
    → contains_loop n i (with_count f k) y ≡ contains_loop n i f y
unfolding contains_loop
contains-with_count zero i f k y = refl
contains-with_count (suc n) i f k y =
    contains_step-with_count f k (hash_item (with_count f k) i y)
      (contains_loop n (suc i) (with_count f k) y)
    ∙ ap (λ (t : Option ℕ). contains_step f t (contains_loop n (suc i) (with_count f k) y))
        same_hash
    ∙ ap (λ (t : Bool). contains_step f (hash_item f i y) t) (contains-with_count n (suc i) f k y)
  where
    same_hash : hash_item (with_count f k) i y ≡ hash_item f i y
    same_hash = unfold hash_item with_count in refl

contains_item-counted :
    (p : BloomFilter × Bool) (y : Bytes) → contains_item (counted p).0 y ≡ contains_item p.0 y
unfolding counted contains_item with_count
contains_item-counted (f, false) y = refl
contains_item-counted (f, true) y = contains-with_count f.m_hash_funcs 0 f (suc f.m_element_count) y

counted-true : (p : BloomFilter × Bool) → (counted p).1 ≡ true → p.1 ≡ true
unfolding counted
counted-true (f, false) h = h
counted-true (f, true) h = refl

insert_item-full : (f : BloomFilter) (x : Bytes) → is_full f ≡ true → insert_item f x ≡ (f, false)
unfolding insert_item
insert_item-full f x e = rw e refl

insert_item-room :
    (f : BloomFilter) (x : Bytes)
    → is_full f ≡ false
    → insert_item f x ≡ counted (insert_loop f.m_hash_funcs 0 f x)
unfolding insert_item
insert_item-room f x e = rw e refl

funcs-after :
    (n i : ℕ) (f : BloomFilter) (x : Bytes) → (after n i f x).m_hash_funcs ≡ f.m_hash_funcs
funcs-after n i f x =
    after-keeps (λ g. g.m_hash_funcs ≡ f.m_hash_funcs) (λ g c h p. same g c ∙ p) n i f x refl
  where
    same : (g : BloomFilter) (c : ℕ) → (set_bit g c).m_hash_funcs ≡ g.m_hash_funcs
    same g c = unfold set_bit in refl

contains_item-after :
    (f : BloomFilter) (x y : Bytes)
    → contains_loop f.m_hash_funcs 0 (after f.m_hash_funcs 0 f x) y ≡ true
    → contains_item (counted (insert_loop f.m_hash_funcs 0 f x)).0 y ≡ true
unfolding after contains_item
contains_item-after f x y h = contains_item-counted (insert_loop f.m_hash_funcs 0 f x) y ∙ shown
  where
    shown :
        contains_loop
          (insert_loop f.m_hash_funcs 0 f x).0.m_hash_funcs
          0
          (insert_loop f.m_hash_funcs 0 f x).0
          y
        ≡ true
    shown =
        ap (λ (t : ℕ). contains_loop t 0 (insert_loop f.m_hash_funcs 0 f x).0 y)
          (funcs-after f.m_hash_funcs 0 f x)
        ∙ h

-- An item that `Insert` accepted is contained in the filter afterwards.
pub contains_item-insert_item :
    (f : BloomFilter) (x : Bytes)
    → (insert_item f x).1 ≡ true
    → contains_item (insert_item f x).0 x ≡ true
contains_item-insert_item f x h = elim (Bool-cases (is_full f)) [
  | inl e ↦ ground (arith, sym (ap (λ (t : BloomFilter × Bool). t.1) (insert_item-full f x e)) ∙ h)
  | inr e ↦ rw (insert_item-room f x e) (
      contains_item-after f x x (
        contains-after f.m_hash_funcs 0 f x (
          counted-true (insert_loop f.m_hash_funcs 0 f x)
            (sym (ap (λ (t : BloomFilter × Bool). t.1) (insert_item-room f x e)) ∙ h))))
]

-- An item that the filter contains is still contained after `Insert` of any item, accepted or not.
pub contains_item_kept :
    (f : BloomFilter) (x y : Bytes)
    → contains_item f y ≡ true
    → contains_item (insert_item f x).0 y ≡ true
contains_item_kept f x y h = elim (Bool-cases (is_full f)) [
  | inl e ↦ rw (insert_item-full f x e) h
  | inr e ↦ rw (insert_item-room f x e) (
      contains_item-after f x y
        (contains-kept f.m_hash_funcs 0 y f.m_hash_funcs 0 f x (unfold contains_item in h)))
]
