-- ===== src/Asert/Bounds.antt =====
-- The factor fits its machine words, and the target stays between 1 and the limit.
use mvclight.Base.{
  ℕ, ◌+◌, ◌*◌, ◌/◌, ◌^◌, ◌≤◌, ◌<◌, ◌≡◌, arith, Bool-cases, inl, inr, ◌==◌, ◌-◌, refl, some, false,
  le→leb,
}
use mathlib.Core.Option.{bind}
use mvclight.Base.Int.{ℤ, pos, negsuc, neg_part, pos_part, ◌≤ℤ◌, ◌+ℤ◌, ◌-ℤ◌, ◌*ℤ◌}
use mvclight.Arith256.{Words, IsArith256, from_u64, is_zero, lt}
use mvclight.Arith256.Value.{value, is_zero_iff}
use mvclight.Arith256.Order.{lt-value}
use mvclight.Asert.{
  quot, checked, divided, asert_exponent, target_at, asert_factor, clamp_target, calculate_asert,
  scale, int_shift,
}
use mvclight.Arith256.Closed.{mul-IsArith256, shift_left-IsArith256, shift_right-IsArith256}
use native.Mathlib.Nat.{mul-le-mul}

scale-IsArith256 :
    (t : Words) (shifts : ℤ) (p : Words)
    → IsArith256 t
    → IsArith256 p
    → IsArith256 (scale t shifts p)
unfolding scale
scale-IsArith256 t shifts p ht hp = ground (
  arith,
  shift_right-IsArith256 t (int_shift (neg_part shifts)) ht,
  shift_left-IsArith256 t (int_shift (pos_part shifts)) ht,
)

-- No step of the cubic leaves 64 bits: for every 16-bit fraction the factor is the exact sum, and
-- lies between 65536 and 131072, one doubling.
pub asert_factor_bounds :
    (frac : ℕ)
    → frac < 65536
    → (asert_factor frac
        ≡ 65536
          + (195766423245049 * frac
              + 971821376 * (frac * frac)
              + 5127 * (frac * frac * frac)
              + 2 ^ 47)
            / 2 ^ 48)
      × (65536 ≤ asert_factor frac)
      × (asert_factor frac ≤ 131072)
unfolding asert_factor
asert_factor_bounds frac h =
    let sq =
      mul-le-mul {n₁ = frac} {m₁ = frac} {n₂ = 65535} {m₂ = 65535} (omega arith) (omega arith) in
    let cube =
      mul-le-mul {n₁ = frac * frac} {m₁ = frac} {n₂ = 65535 * 65535} {m₂ = 65535} sq
        (omega arith) in
    omega (arith, sq, cube)

clamp_target_bounds :
    (t p : Words)
    → IsArith256 t
    → IsArith256 p
    → 0 < value p
    → (0 < value (clamp_target t p)) × (value (clamp_target t p) ≤ value p)
unfolding clamp_target
clamp_target_bounds t p ht hp lp = elim (Bool-cases (is_zero t)) [
  | inl z ↦ rw z (unfold from_u64 value in omega arith)
  | inr nz ↦ elim (Bool-cases (lt p t)) [
    | inl over ↦ rw (nz, over) (omega arith)
    | inr under ↦ rw (nz, under) (ground (arith, is_zero_iff t, lt-value p t hp ht))
  ]
]

-- A number of int64_t.
abbrev pub FitsInt64 : ℤ → Type 0
FitsInt64 z = (negsuc (2 ^ 63 - 1) ≤ℤ z) × (z ≤ℤ pos (2 ^ 63 - 1))

-- No step of the exponent leaves int64_t.
pub record ExponentFits (spacing time_diff height_diff : ℤ) : Type 0 where
  pub count : FitsInt64 (height_diff +ℤ pos 1)
  pub ideal : FitsInt64 (spacing *ℤ (height_diff +ℤ pos 1))
  pub late : FitsInt64 (time_diff -ℤ spacing *ℤ (height_diff +ℤ pos 1))
  pub scaled : FitsInt64 ((time_diff -ℤ spacing *ℤ (height_diff +ℤ pos 1)) *ℤ pos 65536)

checked-fits : (z : ℤ) → FitsInt64 z → checked z ≡ some z
unfolding checked
checked-fits z f = rw (le→leb _ _ f.0, le→leb _ _ f.1) refl

pub asert_exponent-fits :
    (spacing time_diff height_diff : ℤ) (half_life : ℕ)
    → ExponentFits spacing time_diff height_diff
    → 0 < half_life
    → asert_exponent spacing time_diff height_diff half_life
      ≡ some (quot ((time_diff -ℤ spacing *ℤ (height_diff +ℤ pos 1)) *ℤ pos 65536) half_life)
unfolding asert_exponent divided bind
asert_exponent-fits spacing time_diff height_diff half_life f h =
    rw
      (
        checked-fits _ f.count,
        checked-fits _ f.ideal,
        checked-fits _ f.late,
        checked-fits _ f.scaled,
        not_zero,
      )
      refl
  where
    not_zero : (half_life == 0) ≡ false
    not_zero = ground (arith, h)

-- While no step of the exponent leaves int64_t, the next target is defined, never zero and never above
-- the limit, for a limit and a half-life that are not zero.
pub calculate_asert_bounds :
    (ref_target : Words) (spacing time_diff height_diff : ℤ) (pow_limit : Words) (half_life : ℕ)
    → IsArith256 ref_target
    → IsArith256 pow_limit
    → 0 < value pow_limit
    → 0 < half_life
    → ExponentFits spacing time_diff height_diff
    → (next : Words) × (calculate_asert ref_target spacing time_diff height_diff pow_limit half_life
        ≡ some next)
      × (0 < value next)
      × (value next ≤ value pow_limit)
unfolding calculate_asert target_at
calculate_asert_bounds ref_target spacing time_diff height_diff pow_limit half_life hr hp lp hl f =
    (
      target_at ref_target pow_limit exponent,
      rw (asert_exponent-fits spacing time_diff height_diff half_life f hl) refl,
      bounds.0,
      bounds.1,
    )
  where
    exponent : ℤ
    exponent = quot ((time_diff -ℤ spacing *ℤ (height_diff +ℤ pos 1)) *ℤ pos 65536) half_life

    bounds :
        (0 < value (target_at ref_target pow_limit exponent))
        × (value (target_at ref_target pow_limit exponent) ≤ value pow_limit)
    bounds =
        clamp_target_bounds _ pow_limit
          (scale-IsArith256 _ _ pow_limit (mul-IsArith256 ref_target _ hr) hp) hp lp
