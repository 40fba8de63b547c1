-- ===== src/Filter/Members.antt =====
-- One bit of the filter: setting it keeps all others.
use mvclight.Base.{
  ℕ, zero, suc, ◌*◌, ◌/◌, ◌%◌, ◌^◌, ◌<◌, ◌≡◌, ◌≢◌, ◌↔◌, refl, bit_and, bit_or, true, [], ◌∷◌, arith,
  length, get_or, set, ◌==◌, Bool-cases, inl, inr, ap, ◌∙◌, sym, length-set, some,
}
use mvclight.Base.Bits.{or_step, and_step, and_low1}
use Prim.Native.Nat.{max}
use native.Mathlib.Nat.{pow-suc, div-div-eq-div-mul}
use mvclight.Wire.{Bytes}
use mvclight.Filter.{BloomFilter, hash_item, bit_index, set_bit, test_bit}

shift_suc : (k x : ℕ) → x / 2 ^ suc k ≡ x / 2 / 2 ^ k
shift_suc k x =
    ap (λ (t : ℕ). x / t) (pow-suc 2 k ∙ omega arith) ∙ sym (div-div-eq-div-mul x 2 (2 ^ k))

-- The mask of one bit selects that bit.
and-two_pow : (k x : ℕ) → (bit_and x (2 ^ k) ≡ 0) ↔ (x / 2 ^ k % 2 ≡ 0)
and-two_pow zero x = (λ h. omega (arith, and_low1 x), λ h. omega (arith, and_low1 x))
and-two_pow (suc k) x = (
  λ h. omega (arith, shift_suc k x, (and-two_pow k (x / 2)).0 (omega (arith, half))),
  λ h. omega (arith, half, (and-two_pow k (x / 2)).1 (omega (arith, shift_suc k x))),
)
  where
    half : bit_and x (2 ^ suc k) ≡ bit_and (x / 2) (2 ^ k) * 2
    half =
        omega (arith, and_step x (2 ^ suc k), ap (λ (t : ℕ). bit_and (x / 2) t) below, pow-suc 2 k)
      where
        below : 2 ^ suc k / 2 ≡ 2 ^ k
        below = omega (arith, pow-suc 2 k)

or-bit : (k x y : ℕ) → bit_or x y / 2 ^ k % 2 ≡ max (x / 2 ^ k % 2) (y / 2 ^ k % 2)
or-bit zero x y = omega (arith, or_step x y)
or-bit (suc k) x y = omega (
  arith,
  shift_suc k x,
  shift_suc k y,
  shift_suc k (bit_or x y),
  or-bit k (x / 2) (y / 2),
  ap (λ (t : ℕ). t / 2 ^ k % 2) halved,
)
  where
    halved : bit_or x y / 2 ≡ bit_or (x / 2) (y / 2)
    halved = omega (arith, or_step x y)

two_pow-bit : (k : ℕ) → 2 ^ k / 2 ^ k % 2 ≡ 1
two_pow-bit zero = refl
two_pow-bit (suc k) =
    ap (λ (t : ℕ). t % 2) (shift_suc k (2 ^ suc k))
    ∙ ap (λ (t : ℕ). t / 2 ^ k % 2) below
    ∙ two_pow-bit k
  where
    below : 2 ^ suc k / 2 ≡ 2 ^ k
    below = omega (arith, pow-suc 2 k)

get_or-set_self : (v : Bytes) (i x : ℕ) → i < length v → get_or (set v i x) i 0 ≡ x
get_or-set_self [] i x h = absurd (omega arith)
get_or-set_self (y ∷ v) zero x h = refl
get_or-set_self (y ∷ v) (suc i) x h = get_or-set_self v i x (omega arith)

get_or-set_ne : (v : Bytes) (i j x : ℕ) → i ≢ j → get_or (set v i x) j 0 ≡ get_or v j 0
get_or-set_ne [] i j x h = refl
get_or-set_ne (y ∷ v) zero zero x h = absurd (h refl)
get_or-set_ne (y ∷ v) zero (suc j) x h = refl
get_or-set_ne (y ∷ v) (suc i) zero x h = refl
get_or-set_ne (y ∷ v) (suc i) (suc j) x h = get_or-set_ne v i j x (λ e. h (ap suc e))

-- The bit as a number.
pub bit_at : BloomFilter → ℕ → ℕ
bit_at f b = get_or f.m_data (b / 8) 0 / 2 ^ (b % 8) % 2

pub test_bit_iff : (f : BloomFilter) (b : ℕ) → (test_bit f b ≡ true) ↔ (bit_at f b ≡ 1)
unfolding test_bit bit_at
test_bit_iff f b = ground (arith, and-two_pow (b % 8) (get_or f.m_data (b / 8) 0))

pub set_bit_self : (f : BloomFilter) (c : ℕ) → c / 8 < length f.m_data → bit_at (set_bit f c) c ≡ 1
unfolding bit_at set_bit
set_bit_self f c h =
    ap (λ (t : ℕ). t / 2 ^ (c % 8) % 2) (get_or-set_self f.m_data (c / 8) _ h)
    ∙ omega (arith, or-bit (c % 8) (get_or f.m_data (c / 8) 0) (2 ^ (c % 8)), two_pow-bit (c % 8))

pub set_bit-other :
    (f : BloomFilter) (b c : ℕ)
    → c / 8 < length f.m_data
    → bit_at f b ≡ 1
    → bit_at (set_bit f c) b ≡ 1
unfolding bit_at set_bit
set_bit-other f b c h k = elim (Bool-cases (c / 8 == b / 8)) [
  | inl e ↦ same_byte (eq_of e)
  | inr e ↦
      ap (λ (t : ℕ). t / 2 ^ (b % 8) % 2)
        (get_or-set_ne f.m_data (c / 8) (b / 8) _ (λ d. ground arith))
      ∙ k
]
  where
    eq_of : (c / 8 == b / 8) ≡ true → b / 8 ≡ c / 8
    eq_of e = ground arith

    same_byte :
        b / 8 ≡ c / 8
        → get_or (set f.m_data (c / 8) (bit_or (get_or f.m_data (c / 8) 0) (2 ^ (c % 8)))) (b / 8) 0
            / 2 ^ (b % 8)
            % 2
          ≡ 1
    same_byte e =
        ap
          (λ (t : ℕ).
            get_or (set f.m_data (c / 8) (bit_or (get_or f.m_data (c / 8) 0) (2 ^ (c % 8)))) t 0
            / 2 ^ (b % 8)
            % 2)
          e
        ∙ ap (λ (t : ℕ). t / 2 ^ (b % 8) % 2) (get_or-set_self f.m_data (c / 8) _ h)
        ∙ omega (
          arith,
          or-bit (b % 8) (get_or f.m_data (c / 8) 0) (2 ^ (c % 8)),
          ap (λ (t : ℕ). get_or f.m_data t 0 / 2 ^ (b % 8) % 2) (sym e) ∙ k,
        )

pub hash_item-set_bit :
    (f : BloomFilter) (c i : ℕ) (x : Bytes) → hash_item (set_bit f c) i x ≡ hash_item f i x
unfolding hash_item set_bit
hash_item-set_bit f c i x =
    rw (length-set f.m_data (c / 8) (bit_or (get_or f.m_data (c / 8) 0) (2 ^ (c % 8)))) refl

pub bit_index-set_bit : (f : BloomFilter) (c h : ℕ) → bit_index (set_bit f c) h ≡ bit_index f h
unfolding bit_index set_bit
bit_index-set_bit f c h =
    rw (length-set f.m_data (c / 8) (bit_or (get_or f.m_data (c / 8) 0) (2 ^ (c % 8)))) refl

pub bit_index_fits :
    (f : BloomFilter) (i h : ℕ) (x : Bytes)
    → hash_item f i x ≡ some h
    → bit_index f h / 8 < length f.m_data
unfolding hash_item bit_index
bit_index_fits f i h x e = ground arith
