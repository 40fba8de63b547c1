-- ===== src/Arith256/Division.antt =====
-- `/=`: the bitwise long division is the floor of the quotient.
use mvclight.Base.{
  ℕ, zero, suc, ◌+◌, ◌-◌, ◌*◌, ◌/◌, ◌%◌, ◌^◌, ◌≤◌, ◌<◌, ◌≡◌, refl, ap, sym, ◌∙◌, false, arith, ltb,
  ltb→lt, inl, inr, Bool-cases,
}
use mvclight.Arith256.{
  Words, IsArith256, zero_words, bring_down, set_bit, div_loop, div, lt, sub, is_zero,
}
use mvclight.Arith256.Value.{value, modulus, value-lt, value-sub, sub-IsArith256, is_zero_iff}
use mvclight.Arith256.Order.{lt-value}
use native.Mathlib.Nat.{div-div-eq-div-mul, div-eq_of_lt-le, div-le_self, pow-suc}
use mvclight.Arith256.DivStep.{
  bit_of, value-bring_down, bring_down-IsArith256, value-set_bit, set_bit-IsArith256,
}

-- What holds when the bits from `n` up are done, with the quotient so far `q`.
record Partial (n q : ℕ) (a d quo rem : Words) : Type 0 where
  quo_eq : value quo ≡ q * 2 ^ n
  rem_lt : value rem < value d
  so_far : value a / 2 ^ n ≡ q * value d + value rem

halved : (x bit : ℕ) → x / 2 ^ suc bit ≡ x / 2 ^ bit / 2
halved x bit = ap (λ (t : ℕ). x / t) (pow-suc 2 bit) ∙ sym (div-div-eq-div-mul x (2 ^ bit) 2)

rem_small :
    (bit q : ℕ) (a d quo rem : Words)
    → IsArith256 a
    → Partial (suc bit) q a d quo rem
    → value rem < 2 ^ 255
rem_small bit q a d quo rem ha p = omega (
  arith,
  p.so_far,
  halved (value a) bit,
  div-le_self (value a) (2 ^ bit),
  value-lt a ha.1,
  ap modulus ha.0,
)

ltb-false : (x y : ℕ) → ltb x y ≡ false → y ≤ x
ltb-false x y h = ground arith

value-lt_256 : (a : Words) → IsArith256 a → value a < 2 ^ 256
value-lt_256 a h = omega (arith, value-lt a h.1, ap modulus h.0)

module _ (bit q : ℕ) (a d quo rem : Words) (ha : IsArith256 a) (hd : IsArith256 d)
    (hq : IsArith256 quo) (hr : IsArith256 rem) (hn : suc bit ≤ 256)
    (p : Partial (suc bit) q a d quo rem) where
  abbrev next : Words
  next = bring_down a rem bit

  small : value rem < 2 ^ 255
  small = rem_small bit q a d quo rem ha p

  next-IsArith256 : IsArith256 next
  next-IsArith256 = bring_down-IsArith256 a rem bit ha hr hn small

  value-next : value next ≡ value rem * 2 + value a / 2 ^ bit % 2
  unfolding bit_of
  value-next = value-bring_down a rem bit ha hr hn small

  dividend : value a / 2 ^ bit ≡ 2 * q * value d + value next
  dividend = omega (arith, p.so_far, halved (value a) bit, value-next)

  below_Partial : value next < value d → Partial bit (2 * q) a d quo next
  below_Partial h = record {
    quo_eq = omega (arith, p.quo_eq, ap (λ (t : ℕ). q * t) (pow-suc 2 bit));
    rem_lt = h;
    so_far = dividend;
  }

  difference : value d ≤ value next → value (sub next d) ≡ value next - value d
  difference h =
      value-sub next d next-IsArith256 hd ∙ omega (arith, value-lt_256 next next-IsArith256)

  above_Partial : value d ≤ value next → Partial bit (2 * q + 1) a d (set_bit quo bit) (sub next d)
  above_Partial h = record {
    quo_eq = omega (
      arith,
      p.quo_eq,
      ap (λ (t : ℕ). q * t) (pow-suc 2 bit),
      value-set_bit quo bit q hq hn p.quo_eq,
    );
    rem_lt = omega (arith, difference h, value-next, p.rem_lt);
    so_far = omega (arith, dividend, difference h);
  }

value-div_loop :
    (n q : ℕ) (a d quo rem : Words)
    → n ≤ 256
    → IsArith256 a
    → IsArith256 d
    → IsArith256 quo
    → IsArith256 rem
    → Partial n q a d quo rem
    → (r : ℕ) × (value a ≡ value (div_loop n a d quo rem) * value d + r) × (r < value d)
unfolding div_loop
value-div_loop zero q a d quo rem hn ha hd hq hr p =
    (value rem, omega (arith, p.so_far, ap (λ (t : ℕ). t * value d) p.quo_eq), p.rem_lt)
value-div_loop (suc bit) q a d quo rem hn ha hd hq hr p = elim (Bool-cases (lt following d)) [
  | inl below ↦ rw below (
      value-div_loop bit (2 * q) a d quo following (omega arith) ha hd hq hf (
        below_Partial bit q a d quo rem ha hd hq hr hn p
          (ltb→lt _ _ (sym (lt-value following d hf hd) ∙ below))))
  | inr above ↦ rw above (
      value-div_loop bit (2 * q + 1) a d (set_bit quo bit) (sub following d) (omega arith) ha hd
        (set_bit-IsArith256 quo bit hq) (sub-IsArith256 following d hf hd)
        (above_Partial bit q a d quo rem ha hd hq hr hn p
          (ltb-false _ _ (sym (lt-value following d hf hd) ∙ above))))
]
  where
    following : Words
    following = bring_down a rem bit

    hf : IsArith256 following
    hf = bring_down-IsArith256 a rem bit ha hr hn (rem_small bit q a d quo rem ha p)

zero_words-IsArith256 : IsArith256 zero_words
zero_words-IsArith256 = omega arith

-- `/=` is the floor of the quotient: the result times the divisor, with a remainder below the
-- divisor, is the dividend, for every divisor but zero.
pub value-div :
    (a d : Words) → IsArith256 a → IsArith256 d → 0 < value d → value (div a d) ≡ value a / value d
unfolding div
value-div a d ha hd pos = elim (Bool-cases (is_zero d)) [
  | inl z ↦ absurd (omega (arith, (is_zero_iff d).0 z))
  | inr nz ↦ rw nz (
      floor (div_loop 256 a d zero_words zero_words) (
        value-div_loop 256 0 a d zero_words zero_words (omega arith) ha hd zero_words-IsArith256
          zero_words-IsArith256 start))
]
  where
    start : Partial 256 0 a d zero_words zero_words
    start = record {
      quo_eq = unfold value in refl;
      rem_lt = unfold value in pos;
      so_far = unfold value in omega (arith, value-lt_256 a ha);
    }

    floor :
        (q : Words)
        → ((r : ℕ) × (value a ≡ value q * value d + r) × (r < value d))
        → value q ≡ value a / value d
    floor q (r, e, less) = sym (div-eq_of_lt-le (value d) (omega (arith, e)) (omega (arith, e)))

div_loop-IsArith256 :
    (n : ℕ) (a d quo rem : Words) → IsArith256 quo → IsArith256 (div_loop n a d quo rem)
unfolding div_loop
div_loop-IsArith256 zero a d quo rem h = h
div_loop-IsArith256 (suc bit) a d quo rem h = elim (Bool-cases (lt (bring_down a rem bit) d)) [
  | inl below ↦ rw below (div_loop-IsArith256 bit a d quo (bring_down a rem bit) h)
  | inr above ↦ rw above (
      div_loop-IsArith256 bit a d (set_bit quo bit) (sub (bring_down a rem bit) d)
        (set_bit-IsArith256 quo bit h))
]

pub div-IsArith256 : (a d : Words) → IsArith256 a → IsArith256 (div a d)
unfolding div
div-IsArith256 a d h = elim (Bool-cases (is_zero d)) [
  | inl z ↦ rw z h
  | inr nz ↦ rw nz (div_loop-IsArith256 256 a d zero_words zero_words zero_words-IsArith256)
]
