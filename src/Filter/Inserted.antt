-- ===== src/Filter/Inserted.antt =====
-- What the loop of `Insert` sets, and what it keeps.
use mvclight.Base.{
  ℕ, zero, suc, ◌/◌, ◌<◌, ◌≡◌, refl, sym, ap, ◌∙◌, Bool, true, false, Option, none, some,
  Option-cases, inl, inr, arith, length,
}
use mvclight.Wire.{Bytes}
use mvclight.Filter.{
  BloomFilter, hash_item, bit_index, set_bit, test_bit, insert_loop, contains_step, contains_loop,
}
use mvclight.Filter.Members.{
  test_bit_iff, set_bit_self, set_bit-other, hash_item-set_bit, bit_index-set_bit, bit_index_fits,
}

-- The filter after the loop.
unfoldable pub after : ℕ → ℕ → BloomFilter → Bytes → BloomFilter
after n i f x = (insert_loop n i f x).0

after-none :
    (n i : ℕ) (f : BloomFilter) (x : Bytes)
    → hash_item f i x ≡ none
    → insert_loop (suc n) i f x ≡ (f, false)
unfolding insert_loop
after-none n i f x e = rw e refl

after-some :
    (n i h : ℕ) (f : BloomFilter) (x : Bytes)
    → hash_item f i x ≡ some h
    → insert_loop (suc n) i f x ≡ insert_loop n (suc i) (set_bit f (bit_index f h)) x
unfolding insert_loop
after-some n i h f x e = rw e refl

filter_none :
    (n i : ℕ) (f : BloomFilter) (x : Bytes) → hash_item f i x ≡ none → after (suc n) i f x ≡ f
unfolding after
filter_none n i f x e = ap (λ (t : BloomFilter × Bool). t.0) (after-none n i f x e)

filter_some :
    (n i h : ℕ) (f : BloomFilter) (x : Bytes)
    → hash_item f i x ≡ some h
    → after (suc n) i f x ≡ after n (suc i) (set_bit f (bit_index f h)) x
unfolding after
filter_some n i h f x e = ap (λ (t : BloomFilter × Bool). t.0) (after-some n i h f x e)

-- Every property of the filter that setting a bit keeps is kept by the loop.
pub after-keeps {ℓ} :
    (P : BloomFilter → Type ℓ)
    → ((f : BloomFilter) (c : ℕ) → c / 8 < length f.m_data → P f → P (set_bit f c))
    → (n i : ℕ) (f : BloomFilter) (x : Bytes) → P f
    → P (after n i f x)
after-keeps P keep zero i f x p = unfold after insert_loop in p
after-keeps P keep (suc n) i f x p = elim (Option-cases (hash_item f i x)) [
  | inl e ↦ rw (filter_none n i f x e) p
  | inr e ↦ rw (filter_some n i e.0 f x e.1) (
      after-keeps P keep n (suc i) (set_bit f (bit_index f e.0)) x
        (keep f (bit_index f e.0) (bit_index_fits f i e.0 x e.1) p))
]

test_bit-set_bit :
    (b : ℕ) (f : BloomFilter) (c : ℕ)
    → c / 8 < length f.m_data
    → test_bit f b ≡ true
    → test_bit (set_bit f c) b ≡ true
test_bit-set_bit b f c h t =
    (test_bit_iff (set_bit f c) b).1 (set_bit-other f b c h ((test_bit_iff f b).0 t))

hash_item-after :
    (n i : ℕ) (f : BloomFilter) (x : Bytes) (j : ℕ) (y : Bytes)
    → hash_item (after n i f x) j y ≡ hash_item f j y
hash_item-after n i f x j y =
    after-keeps (λ g. hash_item g j y ≡ hash_item f j y) (λ g c h p. hash_item-set_bit g c j y ∙ p)
      n i f x refl

bit_index-after :
    (n i : ℕ) (f : BloomFilter) (x : Bytes) (h : ℕ) → bit_index (after n i f x) h ≡ bit_index f h
bit_index-after n i f x h =
    after-keeps (λ g. bit_index g h ≡ bit_index f h) (λ g c k p. bit_index-set_bit g c h ∙ p) n i f
      x refl

test_bit-after :
    (n i : ℕ) (f : BloomFilter) (x : Bytes) (b : ℕ)
    → test_bit f b ≡ true
    → test_bit (after n i f x) b ≡ true
test_bit-after n i f x b t = after-keeps (λ g. test_bit g b ≡ true) (test_bit-set_bit b) n i f x t

contains_some :
    (n i h : ℕ) (g : BloomFilter) (x : Bytes)
    → hash_item g i x ≡ some h
    → test_bit g (bit_index g h) ≡ true
    → contains_loop n (suc i) g x ≡ true
    → contains_loop (suc n) i g x ≡ true
unfolding contains_loop
contains_some n i h g x e t r = rw e (rw t r)

-- What a loop that ended with true has set.
pub contains-after :
    (n i : ℕ) (f : BloomFilter) (x : Bytes)
    → (insert_loop n i f x).1 ≡ true
    → contains_loop n i (after n i f x) x ≡ true
contains-after zero i f x r = unfold contains_loop in refl
contains-after (suc n) i f x r = elim (Option-cases (hash_item f i x)) [
  | inl e ↦ ground (arith, sym (ap (λ (t : BloomFilter × Bool). t.1) (after-none n i f x e)) ∙ r)
  | inr e ↦ found e.0 e.1 (
      contains-after n (suc i) (set_bit f (bit_index f e.0)) x
        (sym (ap (λ (t : BloomFilter × Bool). t.1) (after-some n i e.0 f x e.1)) ∙ r))
]
  where
    bit_there :
        (h : ℕ)
        → hash_item f i x ≡ some h
        → test_bit (after (suc n) i f x) (bit_index (after (suc n) i f x) h) ≡ true
    bit_there h e = rw (bit_index-after (suc n) i f x h) (
        rw (filter_some n i h f x e) (
          test_bit-after n (suc i) (set_bit f (bit_index f h)) x (bit_index f h) (
            (test_bit_iff (set_bit f (bit_index f h)) (bit_index f h)).1
              (set_bit_self f (bit_index f h) (bit_index_fits f i h x e)))))

    found :
        (h : ℕ)
        → hash_item f i x ≡ some h
        → contains_loop n (suc i) (after n (suc i) (set_bit f (bit_index f h)) x) x ≡ true
        → contains_loop (suc n) i (after (suc n) i f x) x ≡ true
    found h e r =
        contains_some n i h (after (suc n) i f x) x (hash_item-after (suc n) i f x i x ∙ e)
          (bit_there h e)
          (ap (λ (t : BloomFilter). contains_loop n (suc i) t x) (filter_some n i h f x e) ∙ r)

contains-none :
    (m j : ℕ) (f : BloomFilter) (y : Bytes)
    → hash_item f j y ≡ none
    → contains_loop (suc m) j f y ≡ false
unfolding contains_loop
contains-none m j f y e = rw e refl

contains_step-true :
    (f : BloomFilter) (h : ℕ) (rest : Bool)
    → contains_step f (some h) rest ≡ true
    → (test_bit f (bit_index f h) ≡ true) × (rest ≡ true)
unfolding contains_step
contains_step-true f h rest r = ground arith

contains-some_parts :
    (m j h : ℕ) (f : BloomFilter) (y : Bytes)
    → hash_item f j y ≡ some h
    → contains_loop (suc m) j f y ≡ true
    → (test_bit f (bit_index f h) ≡ true) × (contains_loop m (suc j) f y ≡ true)
unfolding contains_loop
contains-some_parts m j h f y e r =
    contains_step-true f h (contains_loop m (suc j) f y)
      (ap (λ (t : Option ℕ). contains_step f t (contains_loop m (suc j) f y)) (sym e) ∙ r)

-- What was found before the loop is found after it.
pub contains-kept :
    (m j : ℕ) (y : Bytes) (n i : ℕ) (f : BloomFilter) (x : Bytes)
    → contains_loop m j f y ≡ true
    → contains_loop m j (after n i f x) y ≡ true
contains-kept zero j y n i f x r = unfold contains_loop in refl
contains-kept (suc m) j y n i f x r = elim (Option-cases (hash_item f j y)) [
  | inl e ↦ ground (arith, sym (contains-none m j f y e) ∙ r)
  | inr e ↦
      contains_some m j e.0 (after n i f x) y (hash_item-after n i f x j y ∙ e.1)
        (ap (λ (t : ℕ). test_bit (after n i f x) t) (bit_index-after n i f x e.0)
          ∙ test_bit-after n i f x (bit_index f e.0) (contains-some_parts m j e.0 f y e.1 r).0)
        (contains-kept m (suc j) y n i f x (contains-some_parts m j e.0 f y e.1 r).1)
]
