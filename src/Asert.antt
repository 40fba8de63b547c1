-- ===== src/Asert.antt =====
-- light_asert.cpp: the ASERT difficulty. int64_t values are integers, and `none` is the undefined
-- behaviour of a sum or product that leaves int64_t, or of a division by 0.
pub mod Bounds
pub mod HalfLives
use mvclight.Base.{
  ℕ, ◌+◌, ◌-◌, ◌*◌, ◌/◌, ◌%◌, ◌^◌, Bool, ◌&&◌, ◌==◌, Option, none, some, suc, if◌then◌else◌, ltb,
  leb,
}
use mvclight.Base.Int.{ℤ, pos, negsuc, ◌+ℤ◌, ◌-ℤ◌, ◌*ℤ◌, leb_ℤ, ltb_ℤ, sub_ℕ, pos_part, neg_part}
use mathlib.Core.Option.{bind, map}
use mvclight.Header.{LightBlockHeader}
use mvclight.Arith256.{
  Words, from_u64, set_compact, get_compact, shift_left, shift_right, mul, is_zero, lt, eq,
}

pub record LightAsertParams : Type 0 where
  pub n_height : ℤ
  pub n_bits : ℕ
  pub n_prev_block_time : ℤ
  pub n_pow_target_spacing : ℤ
  pub n_half_life : ℕ
  pub n_pow_limit : ℕ

-- The default member values.
abbrev pub default_params : LightAsertParams
default_params = record {
  n_height = pos 21256;
  n_bits = 0x1836845b;
  n_prev_block_time = pos 1686641614;
  n_pow_target_spacing = pos 600;
  n_half_life = 2 * 24 * 60 * 60;
  n_pow_limit = 0x1d00ffff;
}

-- `/` of C on signed numbers, by a positive divisor: it rounds toward zero.
unfoldable pub quot : ℤ → ℕ → ℤ
quot (pos n) d = pos (n / d)
quot (negsuc n) d = pos 0 -ℤ pos (suc n / d)

-- `exponent >> 16` and `uint16_t(exponent)`.
unfoldable pub shift_down16 : ℤ → ℤ
shift_down16 (pos n) = pos (n / 2 ^ 16)
shift_down16 (negsuc n) = negsuc (n / 2 ^ 16)

unfoldable pub low16 : ℤ → ℕ
low16 (pos n) = n % 2 ^ 16
low16 (negsuc n) = 2 ^ 16 - 1 - n % 2 ^ 16

-- The cubic approximation of 65536 * 2 ^ (frac / 65536), in uint64_t.
unfoldable pub asert_factor : ℕ → ℕ
asert_factor frac =
    (65536
      + (195766423245049 * frac + 971821376 * (frac * frac) + 5127 * (frac * frac * frac) + 2 ^ 47)
        % 2 ^ 64
        / 2 ^ 48)
    % 2 ^ 32

-- `static_cast<int>` of a shift count; a count that comes out negative shifts by nothing.
unfoldable pub int_shift : ℕ → ℕ
int_shift m = if ltb (m % 2 ^ 32) (2 ^ 31) then m % 2 ^ 32 else 0

pub scale_up : Words → ℕ → Words → Words
scale_up target shifts pow_limit =
    let shifted = shift_left target (int_shift shifts) in
    if eq (shift_right shifted (int_shift shifts)) target then shifted else pow_limit

pub scale : Words → ℤ → Words → Words
unfolding scale_up
scale target shifts pow_limit =
    if leb_ℤ shifts (pos 0)
    then shift_right target (int_shift (neg_part shifts))
    else scale_up target (pos_part shifts) pow_limit

unfoldable pub clamp_target : Words → Words → Words
clamp_target target pow_limit =
    if is_zero target then from_u64 1 else (if lt pow_limit target then pow_limit else target)

-- An int64_t result.
unfoldable pub checked : ℤ → Option ℤ
checked z = if leb_ℤ (negsuc (2 ^ 63 - 1)) z && leb_ℤ z (pos (2 ^ 63 - 1)) then some z else none

divided : ℤ → ℕ → Option ℤ
divided z half_life = if half_life == 0 then none else some (quot z half_life)

-- `((nTimeDiff - nPowTargetSpacing * (nHeightDiff + 1)) * 65536) / nHalfLife`.
pub asert_exponent : ℤ → ℤ → ℤ → ℕ → Option ℤ
unfolding checked divided bind
asert_exponent spacing time_diff height_diff half_life =
    bind (checked (height_diff +ℤ pos 1)) (λ count. bind (checked (spacing *ℤ count)) (λ ideal.
      bind (checked (time_diff -ℤ ideal))
        (λ late. bind (checked (late *ℤ pos 65536)) (λ scaled. divided scaled half_life))))

-- From the exponent on.
pub target_at : Words → Words → ℤ → Words
target_at ref_target pow_limit exponent =
    let next_target = mul ref_target (asert_factor (low16 exponent)) in
    clamp_target (scale next_target (shift_down16 exponent -ℤ pos 16) pow_limit) pow_limit

unfoldable pub calculate_asert : Words → ℤ → ℤ → ℤ → Words → ℕ → Option Words
calculate_asert ref_target spacing time_diff height_diff pow_limit half_life =
    map (target_at ref_target pow_limit) (asert_exponent spacing time_diff height_diff half_life)

unfoldable pub get_next_asert_bits : LightBlockHeader → ℤ → LightAsertParams → Option ℕ
unfolding bind checked
get_next_asert_bits prev prev_height params =
    let pow_limit = set_compact params.n_pow_limit in
    let ref_target = set_compact params.n_bits in
    if ltb_ℤ prev_height params.n_height
    then some prev.n_bits
    else bind (checked (pos prev.n_time -ℤ params.n_prev_block_time)) (λ time_diff.
      bind (checked (prev_height -ℤ params.n_height)) (λ height_diff. map get_compact (
        calculate_asert ref_target params.n_pow_target_spacing time_diff height_diff pow_limit
          params.n_half_life)))
