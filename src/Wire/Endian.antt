-- ===== src/Wire/Endian.antt =====
-- Little-endian numbers: what the loops of `WriteLE32`, `ReadLE32` and their kin compute.
use mvclight.Base.{
  ℕ, zero, suc, ◌+◌, ◌*◌, ◌/◌, ◌%◌, ◌^◌, ◌<◌, ◌≡◌, refl, ap, ◌∙◌, [], ◌∷◌, ◌++◌, some, length, take,
  drop, All, arith, length-append, length-take, length-drop, All-take, All-drop, take-append_exact,
  drop-append_exact,
}
use mvclight.Base.Bits.{or-shifted}
use mvclight.Wire.{byte_at, IsByte, Bytes, write_le, read_le, read_le32, read_fixed}
use native.Mathlib.Nat.{pow-suc}

pub length-write_le : (n v : ℕ) → length (write_le n v) ≡ n
unfolding write_le
length-write_le zero v = refl
length-write_le (suc n) v = ap suc (length-write_le n (v / 256))

pub write_le-IsByte : (n v : ℕ) → All IsByte (write_le n v)
unfolding write_le
write_le-IsByte zero v = tt
write_le-IsByte (suc n) v = (omega arith, write_le-IsByte n (v / 256))

pub read_le-cons : (b : ℕ) (bs : Bytes) → b < 256 → read_le (b ∷ bs) ≡ b + read_le bs * 256
unfolding read_le
read_le-cons b bs h = or-shifted 8 b (read_le bs) h

-- A number that n bytes hold comes back.
pub read_le-write_le : (n v : ℕ) → v < 256 ^ n → read_le (write_le n v) ≡ v
unfolding write_le
read_le-write_le zero v h = unfold read_le in omega arith
read_le-write_le (suc n) v h =
    read_le-cons (v % 256) (write_le n (v / 256)) (omega arith)
    ∙ omega (arith, read_le-write_le n (v / 256) (omega (arith, pow-suc 256 n)))

-- n bytes hold a number below 256 ^ n.
pub read_le-lt : (bs : Bytes) → All IsByte bs → read_le bs < 256 ^ length bs
read_le-lt [] h = unfold read_le in omega arith
read_le-lt (b ∷ bs) h =
    omega (arith, read_le-cons b bs h.0, read_le-lt bs h.1, pow-suc 256 (length bs))

-- Bytes are determined by the number that they write.
pub write_le-read_le : (bs : Bytes) → All IsByte bs → write_le (length bs) (read_le bs) ≡ bs
unfolding write_le
write_le-read_le [] h = refl
write_le-read_le (b ∷ bs) h =
    ground (arith, read_le-cons b bs h.0, write_le-read_le bs h.1, ap (write_le (length bs)) parts)
  where
    parts : read_le (b ∷ bs) / 256 ≡ read_le bs
    parts = omega (arith, read_le-cons b bs h.0)

pub read_le32-eq :
    (a b c d : ℕ) (rest : Bytes)
    → a < 256
    → b < 256
    → c < 256
    → d < 256
    → read_le32 (a ∷ b ∷ c ∷ d ∷ rest) ≡ a + b * 256 + c * 65536 + d * 16777216
unfolding read_le32
read_le32-eq a b c d rest ha hb hc hd =
    rw
      (
        or-shifted 8 a b ha,
        or-shifted 16 (a + b * 2 ^ 8) c (omega arith),
        or-shifted 24 (a + b * 2 ^ 8 + c * 2 ^ 16) d (omega arith),
      )
      (omega arith)

byte_at-lt : (p : Bytes) (i : ℕ) → All IsByte p → byte_at p i < 256
byte_at-lt [] i h = omega arith
byte_at-lt (b ∷ p) zero h = h.0
byte_at-lt (b ∷ p) (suc i) h = byte_at-lt p i h.1

pub read_le32-lt : (p : Bytes) → All IsByte p → read_le32 p < 2 ^ 32
unfolding read_le32
read_le32-lt p h =
    rw
      (
        or-shifted 8 (byte_at p 0) (byte_at p 1) (byte_at-lt p 0 h),
        or-shifted 16 (byte_at p 0 + byte_at p 1 * 2 ^ 8) (byte_at p 2)
            (omega (arith, byte_at-lt p 0 h, byte_at-lt p 1 h)),
        or-shifted 24 (byte_at p 0 + byte_at p 1 * 2 ^ 8 + byte_at p 2 * 2 ^ 16) (byte_at p 3)
            (omega (arith, byte_at-lt p 0 h, byte_at-lt p 1 h, byte_at-lt p 2 h)),
      )
      (omega (arith, byte_at-lt p 0 h, byte_at-lt p 1 h, byte_at-lt p 2 h, byte_at-lt p 3 h))

-- The unrolled reader of four bytes gives back what the loop wrote.
pub read_le32-write_le : (v : ℕ) (rest : Bytes) → v < 2 ^ 32 → read_le32 (write_le 4 v ++ rest) ≡ v
unfolding write_le
read_le32-write_le v rest h =
    read_le32-eq (v % 256) (v / 256 % 256) (v / 256 / 256 % 256) (v / 256 / 256 / 256 % 256) rest
      (omega arith) (omega arith) (omega arith) (omega arith)
    ∙ omega arith

pub read_fixed-write_le :
    (n v : ℕ) (rest : Bytes) → v < 256 ^ n → read_fixed n (write_le n v ++ rest) ≡ some (v, rest)
unfolding read_fixed
read_fixed-write_le n v rest h = ground (
  arith,
  length-append (write_le n v) rest,
  length-write_le n v,
  read_le-write_le n v h,
  taken,
  dropped,
)
  where
    taken : take n (write_le n v ++ rest) ≡ write_le n v
    taken = take-append_exact n (write_le n v) rest (length-write_le n v)

    dropped : drop n (write_le n v ++ rest) ≡ rest
    dropped = drop-append_exact n (write_le n v) rest (length-write_le n v)

-- A read that succeeds takes n bytes, and its value fits them.
pub read_fixed_takes :
    (n : ℕ) (p : Bytes) (v : ℕ) (rest : Bytes)
    → All IsByte p
    → read_fixed n p ≡ some (v, rest)
    → (v < 256 ^ n) × (length p ≡ n + length rest) × All IsByte rest
unfolding read_fixed
read_fixed_takes n p v rest b h = ground (
  arith,
  read_le-lt (take n p) (All-take IsByte n p b),
  length-take n p,
  length-drop n p,
  All-drop IsByte n p b,
  pows,
)
  where
    pows : length (take n p) ≡ n → 256 ^ length (take n p) ≡ 256 ^ n
    pows e = ap (λ (t : ℕ). 256 ^ t) e
