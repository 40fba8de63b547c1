-- ===== src/Base/Bits.antt =====
-- The bit operations at variables: one equation for the lowest digit, and from it the laws of `|`
-- on operands whose bits lie apart, of masks and of single bits.
use Prim.Native.Nat.{min, max, digits, bit_and-bitwise, bit_or-bitwise}
use mvclight.Base.{
  ℕ, zero, suc, ◌+◌, ◌*◌, ◌/◌, ◌%◌, ◌^◌, ◌≤◌, ◌<◌, bit_and, bit_or, ◌≡◌, refl, ap, ◌∙◌, arith,
}
use native.Mathlib.Nat.{pow-suc, zero-add}

-- More fuel than the first operand changes nothing.
module _ (over : ℕ → ℕ) (op : ℕ → ℕ → ℕ) where
  fuel_irrelevant : (k m x y : ℕ) → x ≤ k → x ≤ m → digits over op k x y ≡ digits over op m x y
  fuel_irrelevant k m zero y hk hm = go k m
    where
      go : (k m : ℕ) → digits over op k zero y ≡ digits over op m zero y
      go zero zero = refl
      go zero (suc m) = refl
      go (suc k) zero = refl
      go (suc k) (suc m) = refl
  fuel_irrelevant zero m (suc x) y hk hm = absurd (omega arith)
  fuel_irrelevant (suc k) zero (suc x) y hk hm = absurd (omega arith)
  fuel_irrelevant (suc k) (suc m) (suc x) y hk hm =
      ap (λ (t : ℕ). t * 2 + op (suc x % 2) (y % 2))
        (fuel_irrelevant k m (suc x / 2) (y / 2) (omega arith) (omega arith))

pub or_step : (x y : ℕ) → bit_or x y ≡ bit_or (x / 2) (y / 2) * 2 + max (x % 2) (y % 2)
or_step zero y = omega (arith, bit_or-bitwise 0 y, bit_or-bitwise 0 (y / 2))
or_step (suc x) y = omega (
  arith,
  bit_or-bitwise (suc x) y,
  bit_or-bitwise (suc x / 2) (y / 2),
  fuel_irrelevant (λ t. t) max x (suc x / 2) (suc x / 2) (y / 2) (omega arith) (omega arith),
)

pub and_step : (x y : ℕ) → bit_and x y ≡ bit_and (x / 2) (y / 2) * 2 + min (x % 2) (y % 2)
and_step zero y = omega (arith, bit_and-bitwise 0 y, bit_and-bitwise 0 (y / 2))
and_step (suc x) y = omega (
  arith,
  bit_and-bitwise (suc x) y,
  bit_and-bitwise (suc x / 2) (y / 2),
  fuel_irrelevant (λ t. 0) min x (suc x / 2) (suc x / 2) (y / 2) (omega arith) (omega arith),
)

pub or-zero_left : (y : ℕ) → bit_or 0 y ≡ y
or-zero_left y = bit_or-bitwise 0 y

-- `2 ^ (k + 1)` times `hi` is twice `2 ^ k` times `hi`.
pub double_shift : (k hi : ℕ) → hi * 2 ^ suc k ≡ 2 * (hi * 2 ^ k)
double_shift k hi = omega (arith, ap (λ (t : ℕ). hi * t) (pow-suc 2 k))

or-even_right : (lo m r : ℕ) → bit_or (lo / 2) m ≡ r → bit_or lo (2 * m) ≡ r * 2 + lo % 2
or-even_right lo m r h = omega (arith, or_step lo (2 * m), h, halves)
  where
    halves : bit_or (lo / 2) (2 * m / 2) ≡ bit_or (lo / 2) m
    halves = ap (λ (t : ℕ). bit_or (lo / 2) t) (omega arith)

-- `lo | hi << k` is a sum where `lo` has at most k bits.
pub or-shifted : (k lo hi : ℕ) → lo < 2 ^ k → bit_or lo (hi * 2 ^ k) ≡ lo + hi * 2 ^ k
or-shifted zero zero hi h = or-zero_left _ ∙ omega arith
or-shifted zero (suc lo) hi h = absurd (omega arith)
or-shifted (suc k) lo hi h = rw (double_shift k hi) (
    or-even_right lo (hi * 2 ^ k) (lo / 2 + hi * 2 ^ k)
      (or-shifted k (lo / 2) hi (omega (arith, double_shift k 1)))
    ∙ omega arith)

and-zero_left : (y : ℕ) → bit_and 0 y ≡ 0
and-zero_left y = bit_and-bitwise 0 y

-- `x & mask` for a mask of ones, one bit at a time.
and_ones_step : (x m r : ℕ) → bit_and (x / 2) m ≡ r → bit_and x (2 * m + 1) ≡ r * 2 + x % 2
and_ones_step x m r h = omega (arith, and_step x (2 * m + 1), h, halves)
  where
    halves : bit_and (x / 2) ((2 * m + 1) / 2) ≡ bit_and (x / 2) m
    halves = ap (λ (t : ℕ). bit_and (x / 2) t) (omega arith)

and-zero_right : (k x : ℕ) → x ≤ k → bit_and x 0 ≡ 0
and-zero_right k zero h = and-zero_left 0
and-zero_right zero (suc x) h = absurd (omega arith)
and-zero_right (suc k) (suc x) h =
    omega (arith, and_step (suc x) 0, and-zero_right k (suc x / 2) (omega arith))

low_bit : (k x : ℕ) → x / 2 % 2 ^ k * 2 + x % 2 ≡ x % 2 ^ suc k
low_bit k x = rw (pow-suc 2 k) (grind arith)

-- `x & (2^k - 1)` is the remainder: `ones k` is that mask.
pub ones : ℕ → ℕ
ones zero = 0
ones (suc k) = 2 * ones k + 1

pub and-ones : (k x : ℕ) → bit_and x (ones k) ≡ x % 2 ^ k
unfolding ones
and-ones zero x = and-zero_right x x (omega arith) ∙ omega arith
and-ones (suc k) x = and_ones_step x (ones k) (x / 2 % 2 ^ k) (and-ones k (x / 2)) ∙ low_bit k x

pub and_low4 : (x : ℕ) → bit_and x 15 ≡ x % 16
unfolding ones
and_low4 = and-ones 4

pub and_low1 : (x : ℕ) → bit_and x 1 ≡ x % 2
unfolding ones
and_low1 = and-ones 1

or-zero_right : (k x : ℕ) → x ≤ k → bit_or x 0 ≡ x
or-zero_right k zero h = or-zero_left 0
or-zero_right zero (suc x) h = absurd (omega arith)
or-zero_right (suc k) (suc x) h =
    omega (arith, or_step (suc x) 0, or-zero_right k (suc x / 2) (omega arith))

or-even_left : (m lo r : ℕ) → bit_or m (lo / 2) ≡ r → bit_or (2 * m) lo ≡ r * 2 + lo % 2
or-even_left m lo r h = omega (arith, or_step (2 * m) lo, h, halves)
  where
    halves : bit_or (2 * m / 2) (lo / 2) ≡ bit_or m (lo / 2)
    halves = ap (λ (t : ℕ). bit_or t (lo / 2)) (omega arith)

-- `hi << k | lo` is a sum where `lo` has at most k bits.
pub or-shifted_left : (k hi lo : ℕ) → lo < 2 ^ k → bit_or (hi * 2 ^ k) lo ≡ hi * 2 ^ k + lo
or-shifted_left zero hi zero h = or-zero_right (hi * 1) (hi * 1) (omega arith) ∙ omega arith
or-shifted_left zero hi (suc lo) h = absurd (omega arith)
or-shifted_left (suc k) hi lo h = rw (double_shift k hi) (
    or-even_left (hi * 2 ^ k) lo (hi * 2 ^ k + lo / 2)
      (or-shifted_left k hi (lo / 2) (omega (arith, double_shift k 1)))
    ∙ omega arith)

-- `|` stays within the bits of its operands.
pub or-lt : (k x y : ℕ) → x < 2 ^ k → y < 2 ^ k → bit_or x y < 2 ^ k
or-lt zero zero zero hx hy = omega (arith, or-zero_left 0)
or-lt zero zero (suc y) hx hy = absurd (omega arith)
or-lt zero (suc x) y hx hy = absurd (omega arith)
or-lt (suc k) x y hx hy = omega (
  arith,
  or_step x y,
  double_shift k 1,
  or-lt k (x / 2) (y / 2) (omega (arith, double_shift k 1)) (omega (arith, double_shift k 1)),
)

pub two_pow_pos : (k : ℕ) → 0 < 2 ^ k
two_pow_pos zero = omega arith
two_pow_pos (suc k) = omega (arith, double_shift k 1, two_pow_pos k)

pub two_pow-add : (j k : ℕ) → 2 ^ (j + k) ≡ 2 ^ j * 2 ^ k
two_pow-add zero k = rw (zero-add k) (omega arith)
two_pow-add (suc j) k =
    rw (regroup)
      (omega (arith, pow-suc 2 (j + k), two_pow-add j k, ap (λ (t : ℕ). t * 2 ^ k) (pow-suc 2 j)))
  where
    regroup : suc j + k ≡ suc (j + k)
    regroup = omega arith

pub and_low23 : (x : ℕ) → bit_and x 0x007fffff ≡ x % 2 ^ 23
unfolding ones
and_low23 = and-ones 23
