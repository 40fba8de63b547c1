-- ===== src/Runs/Rules.antt =====
-- The rules for headers and difficulty at concrete inputs.
use mvclight.Base.{
  suc, ◌+◌, ◌-◌, if◌then◌else◌, ◌*◌, ◌/◌, ◌^◌, ◌≤◌, ◌<◌, ◌≡◌, ◌↔◌, refl, true, false, none, some,
  arith,
}
use mvclight.Base.Int.{pos, ◌+ℤ◌, ◌-ℤ◌, ◌*ℤ◌}
use mvclight.Arith256.{Words, set_compact, shift_right, mul}
use mvclight.Arith256.Value.{value}
use mvclight.Chain.{block_work}
use mvclight.Chain.Work.{block_work_lem}
use mvclight.Asert.{calculate_asert, clamp_target}
use mvclight.Asert.HalfLives.{deviation, calculate_asert_moved}
use mvclight.Asert.Bounds.{ExponentFits, calculate_asert_bounds}
use mvclight.Validation.{validate_header, accepted}
use mvclight.Validation.Rules.{Valid, validate_header_iff}
use mvclight.Runs.{small, small-IsArith256, genesis}

limit_value : value (set_compact 0x1d00ffff) ≡ 65535 * 2 ^ 208
unfolding set_compact value
limit_value = refl

block_work_lem_example :
    value (block_work 0x1d00ffff) ≡ 2 ^ 256 / suc (value (set_compact 0x1d00ffff))
block_work_lem_example =
    block_work_lem 0x1d00ffff (omega arith) (omega (arith, limit_value))
      (omega (arith, limit_value))

validate_header_iff_example :
    (validate_header genesis none (pos 0) false (pos 1700000000) (pos 1600000000) ≡ accepted)
    ↔ Valid genesis none (pos 0) (pos 1700000000) (pos 1600000000)
unfolding ◌+ℤ◌
validate_header_iff_example =
    validate_header_iff genesis none (pos 0) (pos 1700000000) (pos 1600000000) tt (omega arith)
      (omega arith) (omega arith) (omega arith)

small_positive : 0 < value (small 9)
unfolding value
small_positive = omega arith

-- One half-life of two days late, four blocks of ten minutes above the anchor.
one_late : ExponentFits (pos 600) (pos 175200) (pos 3)
unfolding ◌+ℤ◌ ◌-ℤ◌ ◌*ℤ◌
one_late = record {
  count = (omega arith, omega arith);
  ideal = (omega arith, omega arith);
  late = (omega arith, omega arith);
  scaled = (omega arith, omega arith);
}

two_days : pos 175200 -ℤ pos 600 *ℤ (pos 3 +ℤ pos 1) ≡ deviation true (1 * 172800)
unfolding ◌+ℤ◌ ◌-ℤ◌ ◌*ℤ◌
two_days = refl

calculate_asert_bounds_example :
    (next : Words) × (calculate_asert (small 4) (pos 600) (pos 175200) (pos 3) (small 9) 172800
      ≡ some next)
    × (0 < value next)
    × (value next ≤ value (small 9))
calculate_asert_bounds_example =
    calculate_asert_bounds (small 4) (pos 600) (pos 175200) (pos 3) (small 9) 172800
      (small-IsArith256 4 (omega arith)) (small-IsArith256 9 (omega arith)) small_positive
      (omega arith) one_late

calculate_asert_moved_example :
    calculate_asert (small 4) (pos 600) (pos 175200) (pos 3) (small 9) 172800
    ≡ some (
        clamp_target
          (shift_right (mul (small 4) 65536) (if true then 16 - 1 else 16 + 1))
          (small 9))
calculate_asert_moved_example =
    calculate_asert_moved (small 4) (pos 600) (pos 175200) (pos 3) (small 9) 172800 true 1
      (omega arith) (omega arith) one_late two_days
