-- ===== src/Asert/HalfLives.antt =====
-- The schedule of light_asert.cpp: what whole half-lives do to the target.
use mvclight.Base.{
  ℕ, zero, suc, ◌+◌, ◌-◌, ◌*◌, ◌/◌, ◌≤◌, ◌<◌, ◌≡◌, refl, ap, ◌∙◌, arith, Bool, true, false, some,
  if◌then◌else◌,
}
use mvclight.Base.Int.{ℤ, pos, negsuc, ◌+ℤ◌, ◌-ℤ◌, ◌*ℤ◌, leb_ℤ}
use mvclight.Arith256.{Words, shift_right, mul}
use mvclight.Asert.{
  quot, shift_down16, low16, asert_factor, int_shift, scale, clamp_target, target_at,
  calculate_asert,
}
use mvclight.Asert.Bounds.{ExponentFits, asert_exponent-fits}
use native.Mathlib.Nat.{mul-div_cancel, div-le_self}

-- A deviation from the ideal time: late or early.
abbrev pub deviation : Bool → ℕ → ℤ
deviation true n = pos n
deviation false n = pos 0 -ℤ pos n

deviation-scaled :
    (late : Bool) (n : ℕ) → deviation late n *ℤ pos 65536 ≡ deviation late (n * 65536)
unfolding ◌*ℤ◌ ◌-ℤ◌
deviation-scaled true n = ground arith
deviation-scaled false zero = refl
deviation-scaled false (suc n) = ground arith

minus : (n : ℕ) → pos 0 -ℤ pos (suc n) ≡ negsuc n
unfolding ◌-ℤ◌
minus n = ground arith

quot_early : (n d : ℕ) → quot (pos 0 -ℤ pos n) d ≡ pos 0 -ℤ pos (n / d)
quot_early zero d = rw zero_over (unfold ◌-ℤ◌ quot in rw zero_over refl)
  where
    zero_over : 0 / d ≡ 0
    zero_over = omega (arith, div-le_self 0 d)
quot_early (suc n) d = rw (minus n) (unfold quot in refl)

quot-deviation :
    (late : Bool) (n d : ℕ) → 0 < d → quot (deviation late (n * d)) d ≡ deviation late n
unfolding quot ◌-ℤ◌
quot-deviation true n d h = ap pos (mul-div_cancel n h)
quot-deviation false n d h = quot_early (n * d) d ∙ ap (deviation false) (mul-div_cancel n h)

down-deviation :
    (late : Bool) (k : ℕ) → shift_down16 (deviation late (k * 65536)) ≡ deviation late k
unfolding shift_down16 ◌-ℤ◌
down-deviation true k = ap pos (omega arith)
down-deviation false zero = refl
down-deviation false (suc k) = ground arith

low-deviation : (late : Bool) (k : ℕ) → low16 (deviation late (k * 65536)) ≡ 0
unfolding low16 ◌-ℤ◌
low-deviation true k = omega arith
low-deviation false zero = refl
low-deviation false (suc k) = ground arith

factor_one : asert_factor 0 ≡ 65536
unfolding asert_factor
factor_one = refl

int_shift-small : (n : ℕ) → n ≤ 32 → int_shift n ≡ n
unfolding int_shift
int_shift-small n h = ground arith

scale-early : (n : ℕ) (t p : Words) → n ≤ 32 → scale t (pos 0 -ℤ pos n) p ≡ shift_right t n
scale-early zero t p h = unfold ◌-ℤ◌ scale int_shift in refl
scale-early (suc n) t p h =
    rw (minus n) (unfold scale in rw (below, int_shift-small (suc n) h) refl)
  where
    below : leb_ℤ (negsuc n) (pos 0) ≡ true
    below = ground arith

rounded :
    (late : Bool) (k : ℕ)
    → k ≤ 16
    → deviation late k -ℤ pos 16 ≡ pos 0 -ℤ pos (if late then 16 - k else 16 + k)
unfolding ◌-ℤ◌
rounded true k h = ground arith
rounded false k h = ground arith

scale-deviation :
    (late : Bool) (k : ℕ) (t p : Words)
    → k ≤ 16
    → scale t (deviation late k -ℤ pos 16) p ≡ shift_right t (if late then 16 - k else 16 + k)
scale-deviation late k t p h =
    rw (rounded late k h) (scale-early (if late then 16 - k else 16 + k) t p (few late))
  where
    few : (b : Bool) → (if b then 16 - k else 16 + k) ≤ 32
    few true = omega arith
    few false = omega arith

-- When the chain is exactly k half-lives late, k at most 16, the target is multiplied by 2^k, and when it
-- is k half-lives early it is divided by 2^k: the 256-bit product with 65536 is shifted down by 16 - k
-- bits, or by 16 + k, and then put between 1 and the limit. No step of the exponent leaves int64_t.
pub calculate_asert_moved :
    (ref_target : Words) (spacing time_diff height_diff : ℤ) (pow_limit : Words) (half_life : ℕ)
    (late : Bool) (k : ℕ)
    → 0 < half_life
    → k ≤ 16
    → ExponentFits spacing time_diff height_diff
    → time_diff -ℤ spacing *ℤ (height_diff +ℤ pos 1) ≡ deviation late (k * half_life)
    → calculate_asert ref_target spacing time_diff height_diff pow_limit half_life
      ≡ some (
          clamp_target
            (shift_right (mul ref_target 65536) (if late then 16 - k else 16 + k))
            pow_limit)
unfolding calculate_asert target_at
calculate_asert_moved ref_target spacing time_diff height_diff pow_limit half_life late k h small f
      e =
    rw
      (
        asert_exponent-fits spacing time_diff height_diff half_life f h,
        exponent,
        low-deviation late k,
        factor_one,
        down-deviation late k,
        scale-deviation late k (mul ref_target 65536) pow_limit small,
      )
      refl
  where
    swapped : k * half_life * 65536 ≡ k * 65536 * half_life
    swapped = omega arith

    exponent :
        quot ((time_diff -ℤ spacing *ℤ (height_diff +ℤ pos 1)) *ℤ pos 65536) half_life
        ≡ deviation late (k * 65536)
    exponent =
        ap (λ (z : ℤ). quot (z *ℤ pos 65536) half_life) e
        ∙ ap (λ (z : ℤ). quot z half_life) (deviation-scaled late (k * half_life))
        ∙ ap (λ (n : ℕ). quot (deviation late n) half_life) swapped
        ∙ quot-deviation late (k * 65536) half_life h
