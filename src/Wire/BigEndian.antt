-- ===== src/Wire/BigEndian.antt =====
-- Numbers given from the highest byte to the lowest, and comparisons that look at the first
-- difference.
use mvclight.Base.{
  ℕ, suc, ◌+◌, ◌*◌, ◌^◌, ◌<◌, ◌≡◌, refl, ap, true, false, [], ◌∷◌, ◌++◌, length, All, All-append,
  arith, ltb, leb, if◌then◌else◌, length-append,
}
use mvclight.Wire.{Bytes, IsByte, read_le}
use mvclight.Wire.Endian.{read_le-cons}
use mathlib.Core.List.{reverse, reverse-cons}
use native.Mathlib.Nat.{mul-le-mul_right, pow-suc}

unfoldable pub read_be : Bytes → ℕ
read_be [] = 0
read_be (b ∷ bs) = b * 256 ^ length bs + read_be bs

read_be-append_one : (bs : Bytes) (b : ℕ) → read_be (bs ++ b ∷ []) ≡ read_be bs * 256 + b
unfolding read_be
read_be-append_one [] b = omega arith
read_be-append_one (c ∷ bs) b = omega (
  arith,
  read_be-append_one bs b,
  ap (λ (n : ℕ). c * 256 ^ n) longer,
  ap (λ (t : ℕ). c * t) (pow-suc 256 (length bs)),
)
  where
    longer : length (bs ++ b ∷ []) ≡ suc (length bs)
    longer = omega (arith, length-append bs (b ∷ []))

-- Reading backwards from the end is reading little-endian.
pub read_be-reverse : (bs : Bytes) → All IsByte bs → read_be (reverse bs) ≡ read_le bs
read_be-reverse [] h = unfold read_be read_le in refl
read_be-reverse (b ∷ bs) h =
    rw (reverse-cons b bs, read_be-append_one (reverse bs) b)
      (omega (arith, read_be-reverse bs h.1, read_le-cons b bs h.0))

pub read_be-lt : (bs : Bytes) → All IsByte bs → read_be bs < 256 ^ length bs
unfolding read_be
read_be-lt [] h = omega arith
read_be-lt (b ∷ bs) h =
    omega
      (arith, read_be-lt bs h.1, pow-suc 256 (length bs), mul-le-mul_right (256 ^ length bs) h.0)

pub reverse-IsByte : (bs : Bytes) → All IsByte bs → All IsByte (reverse bs)
reverse-IsByte [] h = tt
reverse-IsByte (b ∷ bs) h =
    rw (reverse-cons b bs)
      (All-append IsByte (reverse bs) (b ∷ []) (reverse-IsByte bs h.1) (h.0, tt))

pub length-reverse : (bs : Bytes) → length (reverse bs) ≡ length bs
length-reverse [] = refl
length-reverse (b ∷ bs) =
    omega
      (arith, ap length (reverse-cons b bs), length-append (reverse bs) (b ∷ []), length-reverse bs)

-- The byte that differs first decides.
first_difference : (x y u v m : ℕ) → x < y → u < m → x * m + u < y * m + v
first_difference x y u v m h hu = omega (arith, mul-le-mul_right m h)

-- One step of a comparison by the first difference, for `leb`.
pub leb_step :
    (x y u v m : ℕ)
    → u < m
    → v < m
    → leb (x * m + u) (y * m + v) ≡ (if ltb x y then true else (if ltb y x then false else leb u v))
leb_step x y u v m hu hv =
    ground (arith, first_difference x y u v m, first_difference y x v u m, ap (λ (t : ℕ). t * m))
