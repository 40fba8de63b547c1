-- ===== src/Validation/Target.antt =====
-- The target that a compact form stands for in light_validation.cpp.
use mvclight.Base.{
  ℕ, zero, suc, ◌+◌, ◌-◌, ◌*◌, ◌/◌, ◌%◌, ◌^◌, ◌<◌, ◌≤◌, ◌≡◌, ◌==◌, refl, ap, subst, ◌∙◌, arith,
  Bool-cases, Bool, true, false, [], ◌∷◌, length, All, replicate, set, ltb, leb, if◌then◌else◌,
  length-replicate, length-set, ◌⊎◌, inl, inr, ltb→lt, ltb_false→le, leb→le, ==_iff,
}
use mvclight.Base.Bits.{and_low23}
use mvclight.Wire.{Bytes, IsByte}
use mvclight.Wire.BigEndian.{read_be}
use mvclight.Validation.{
  TargetResult, target, no_target, fault, target_from_bits, place_mantissa, small_target,
}
use native.Mathlib.Nat.{pow-suc, div-le_self, one-le-pow, mul-le-mul}

-- A mantissa of 23 bits, shifted by bytes to the exponent: the floating-point form of the target.
pub compact_number : ℕ → ℕ
compact_number n_bits =
    let exponent = n_bits / 2 ^ 24 in
    let mantissa = n_bits % 2 ^ 23 in
    if leb exponent 3 then mantissa / 2 ^ (8 * (3 - exponent)) else mantissa * 256 ^ (exponent - 3)

-- The 32 bytes of a number.
abbrev pub Denotes : ℕ → TargetResult → Type 0
Denotes n (target t) = (length t ≡ 32) × All IsByte t × (read_be t ≡ n)
Denotes n no_target = Unit
Denotes n fault = Unit

set-IsByte : (xs : Bytes) (i v : ℕ) → All IsByte xs → v < 256 → All IsByte (set xs i v)
set-IsByte [] i v h k = tt
set-IsByte (x ∷ xs) zero v h k = (k, h.1)
set-IsByte (x ∷ xs) (suc i) v h k = (h.0, set-IsByte xs i v h.1 k)

zeros-IsByte : (n : ℕ) → All IsByte (replicate n 0)
zeros-IsByte zero = tt
zeros-IsByte (suc n) = (omega arith, zeros-IsByte n)

read_be-zeros : (n : ℕ) → read_be (replicate n 0) ≡ 0
unfolding read_be
read_be-zeros zero = refl
read_be-zeros (suc n) = omega (arith, read_be-zeros n)

-- Three bytes in a row among zeros.
three : ℕ → ℕ → ℕ → ℕ → ℕ → Bytes
three total i x y z = set (set (set (replicate total 0) i x) (suc i) y) (suc (suc i)) z

read_be-three :
    (i total s x y z : ℕ)
    → total ≡ i + 3 + s
    → read_be (three total i x y z) ≡ (x * 65536 + y * 256 + z) * 256 ^ s
unfolding three read_be
read_be-three zero (suc (suc (suc k))) s x y z e =
    rw (same, zero_tail, pow-suc 256 (suc s), pow-suc 256 s) (omega arith)
  where
    same : length (replicate {A = ℕ} k 0) ≡ s
    same = omega (arith, length-replicate {A = ℕ} k 0)

    zero_tail : read_be (replicate k 0) ≡ 0
    zero_tail = read_be-zeros k
read_be-three zero zero s x y z e = absurd (omega arith)
read_be-three zero (suc zero) s x y z e = absurd (omega arith)
read_be-three zero (suc (suc zero)) s x y z e = absurd (omega arith)
read_be-three (suc i) zero s x y z e = absurd (omega arith)
read_be-three (suc i) (suc k) s x y z e = omega (arith, read_be-three i k s x y z (omega arith))

three-Denotes :
    (i s m : ℕ)
    → 32 ≡ i + 3 + s
    → m < 2 ^ 24
    → Denotes (m * 256 ^ s) (target (three 32 i (m / 2 ^ 16 % 256) (m / 2 ^ 8 % 256) (m % 256)))
unfolding three
three-Denotes i s m e h = (
  length-set _ (suc (suc i)) _
      ∙ length-set _ (suc i) _
      ∙ length-set (replicate 32 0) i (m / 2 ^ 16 % 256),
  set-IsByte _ (suc (suc i)) _
      (set-IsByte _ (suc i) _ (set-IsByte (replicate 32 0) i _ (zeros-IsByte 32) (omega arith))
        (omega arith))
      (omega arith),
  read_be-three i 32 s (m / 2 ^ 16 % 256) (m / 2 ^ 8 % 256) (m % 256) e
      ∙ ap (λ (n : ℕ). n * 256 ^ s) (omega arith),
)

-- With the three places given by the code's sums.
placed-Denotes :
    (i j k s m : ℕ)
    → j ≡ suc i
    → k ≡ suc (suc i)
    → 32 ≡ i + 3 + s
    → m < 2 ^ 24
    → Denotes (m * 256 ^ s) (
        target
          (set (set (set (replicate 32 0) i (m / 2 ^ 16 % 256)) j (m / 2 ^ 8 % 256)) k (m % 256)))
placed-Denotes i j k s m ej ek e h = rw (ej, ek) (unfold three in three-Denotes i s m e h)

-- What each result says of the compact form.
abbrev pub Means : ℕ → TargetResult → Type 0
Means n_bits (target t) =
    Denotes (compact_number n_bits) (target t)
    × (0 < compact_number n_bits)
    × (n_bits / 2 ^ 24 ≤ 32)
Means n_bits no_target = (compact_number n_bits ≡ 0) ⊎ (35 ≤ n_bits / 2 ^ 24)
Means n_bits fault = (0 < compact_number n_bits) × (33 ≤ n_bits / 2 ^ 24) × (n_bits / 2 ^ 24 ≤ 34)

either :
    (n_bits : ℕ) (b : Bool) (x y : TargetResult)
    → (b ≡ true → Means n_bits x)
    → (b ≡ false → Means n_bits y)
    → Means n_bits (if b then x else y)
either n_bits true x y h k = h refl
either n_bits false x y h k = k refl

small_number :
    (n_bits : ℕ)
    → n_bits / 2 ^ 24 ≤ 3
    → compact_number n_bits ≡ n_bits % 2 ^ 23 / 2 ^ (8 * (3 - n_bits / 2 ^ 24))
unfolding compact_number
small_number n_bits h = ground arith

large_number :
    (n_bits : ℕ)
    → 3 < n_bits / 2 ^ 24
    → compact_number n_bits ≡ n_bits % 2 ^ 23 * 256 ^ (n_bits / 2 ^ 24 - 3)
unfolding compact_number
large_number n_bits h = ground arith

small_target-Means :
    (n_bits : ℕ)
    → n_bits / 2 ^ 24 ≤ 3
    → Means n_bits (small_target (n_bits % 2 ^ 23 / 2 ^ (8 * (3 - n_bits / 2 ^ 24))))
unfolding small_target three
small_target-Means n_bits e =
    either n_bits (v == 0) no_target _
      (λ z. inl (omega (arith, small_number n_bits e, (==_iff v 0).0 z)))
      (λ z. (
        subst
            (λ (n : ℕ).
              Denotes n (target (three 32 29 (v / 2 ^ 16 % 256) (v / 2 ^ 8 % 256) (v % 256))))
            (omega (arith, small_number n_bits e)) (three-Denotes 29 0 v (omega arith) below),
        (ground (arith, small_number n_bits e, z)),
        (omega arith),
      ))
  where
    v : ℕ
    v = n_bits % 2 ^ 23 / 2 ^ (8 * (3 - n_bits / 2 ^ 24))

    below : v < 2 ^ 24
    below = omega (arith, div-le_self (n_bits % 2 ^ 23) (2 ^ (8 * (3 - n_bits / 2 ^ 24))))

no_mantissa : (n_bits : ℕ) → n_bits % 2 ^ 23 ≡ 0 → compact_number n_bits ≡ 0
no_mantissa n_bits h = elim (Bool-cases (leb (n_bits / 2 ^ 24) 3)) [
  | inl e ↦
      small_number n_bits (leb→le _ _ e)
      ∙ omega (arith, h, div-le_self (n_bits % 2 ^ 23) (2 ^ (8 * (3 - n_bits / 2 ^ 24))))
  | inr e ↦ large_number n_bits (ground (arith, e)) ∙ rw h (omega arith)
]

place_mantissa-Means :
    (n_bits : ℕ)
    → 3 < n_bits / 2 ^ 24
    → n_bits / 2 ^ 24 < 35
    → 0 < n_bits % 2 ^ 23
    → Means n_bits (place_mantissa (n_bits % 2 ^ 23) (n_bits / 2 ^ 24 - 3))
unfolding place_mantissa
place_mantissa-Means n_bits lo hi h =
    either n_bits (ltb (31 - shift) 2) fault _
      (λ e. (positive, (omega (arith, ltb→lt _ _ e)), (omega arith)))
      (λ e. (
        rw (large_number n_bits lo) (
            placed-Denotes (31 - shift - 2) (31 - shift - 1) (31 - shift) shift (n_bits % 2 ^ 23)
              (omega (arith, ltb_false→le _ _ e)) (omega (arith, ltb_false→le _ _ e))
              (omega (arith, ltb_false→le _ _ e)) (omega arith)),
        positive,
        (omega (arith, ltb_false→le _ _ e)),
      ))
  where
    shift : ℕ
    shift = n_bits / 2 ^ 24 - 3

    positive : 0 < compact_number n_bits
    positive = omega (
      arith,
      large_number n_bits lo,
      mul-le-mul {n₁ = 1} {m₁ = 1} {n₂ = n_bits % 2 ^ 23} {m₂ = 256 ^ shift} h
          (one-le-pow shift 256 (omega arith)),
    )

-- `TargetFromBits`, for every compact form.
pub target_from_bits-Means : (n_bits : ℕ) → Means n_bits (target_from_bits n_bits)
unfolding target_from_bits
target_from_bits-Means n_bits = rw (and_low23 n_bits) (
    either n_bits (n_bits % 2 ^ 23 == 0) no_target _
      (λ z. inl (no_mantissa n_bits ((==_iff _ 0).0 z)))
      (λ z.
        either n_bits (leb (n_bits / 2 ^ 24) 3) _ _ (λ e. small_target-Means n_bits (leb→le _ _ e))
          (λ e.
            either n_bits (leb 32 (n_bits / 2 ^ 24 - 3)) no_target _
              (λ k. inr (omega (arith, leb→le _ _ k)))
              (λ k.
                place_mantissa-Means n_bits (ground (arith, e)) (ground (arith, e, k))
                  (ground (arith, z))))))
