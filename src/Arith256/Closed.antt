-- ===== src/Arith256/Closed.antt =====
-- `*=`, `<<=` and `>>=` yield eight words of 32 bits.
use mvclight.Base.{
  ℕ, zero, suc, ◌+◌, ◌-◌, ◌*◌, ◌/◌, ◌%◌, ◌^◌, ◌≤◌, ◌<◌, ◌≡◌, refl, ap, ◌∙◌, false, bit_and, ltb,
  set, length-set, [], ◌∷◌, length, take, drop, replicate, All, All-append, All-take, All-drop,
  arith, length-append, length-take, length-drop, length-replicate, leb, ◌==◌, Bool-cases, inl, inr,
}
use mvclight.Base.Bits.{or-lt, and_low23}
use mvclight.Arith256.{
  Words, IsWord, IsArith256, limb_count, zero_words, mul_loop, mul, shr_bits, shift_left,
  shift_right, move_up, move_down, complement, set_compact_large, set_compact,
}
use mvclight.Arith256.Words.{set-IsWord, shl_bits-IsWord, length-shl_bits}
use native.Mathlib.Nat.{lt_of_le_of_lt, div-le_self}

length-mul_loop : (f c : ℕ) (ws : Words) → length (mul_loop f c ws) ≡ length ws
unfolding mul_loop
length-mul_loop f c [] = refl
length-mul_loop f c (w ∷ ws) = ap suc (length-mul_loop f ((w * f + c) % 2 ^ 64 / 2 ^ 32) ws)

mul_loop-IsWord : (f c : ℕ) (ws : Words) → All IsWord (mul_loop f c ws)
unfolding mul_loop
mul_loop-IsWord f c [] = tt
mul_loop-IsWord f c (w ∷ ws) = (omega arith, mul_loop-IsWord f ((w * f + c) % 2 ^ 64 / 2 ^ 32) ws)

pub mul-IsArith256 : (a : Words) (f : ℕ) → IsArith256 a → IsArith256 (mul a f)
unfolding mul
mul-IsArith256 a f h = (length-mul_loop f 0 a ∙ h.0, mul_loop-IsWord f 0 a)

replicate-IsWord : (n : ℕ) → All IsWord (replicate n 0)
replicate-IsWord zero = tt
replicate-IsWord (suc n) = (omega arith, replicate-IsWord n)

move_up-IsArith256 : (n : ℕ) (a : Words) → n ≤ 8 → IsArith256 a → IsArith256 (move_up n a)
unfolding move_up
move_up-IsArith256 n a hn h = (
  omega (
    arith,
    length-append (replicate n 0) (take (8 - n) a),
    length-replicate {A = ℕ} n 0,
    length-take (8 - n) a,
    h.0,
  ),
  All-append IsWord (replicate n 0) (take (8 - n) a) (replicate-IsWord n)
      (All-take IsWord (8 - n) a h.1),
)

move_down-IsArith256 : (n : ℕ) (a : Words) → n ≤ 8 → IsArith256 a → IsArith256 (move_down n a)
unfolding move_down
move_down-IsArith256 n a hn h = (
  omega (
    arith,
    length-append (drop n a) (replicate n 0),
    length-replicate {A = ℕ} n 0,
    length-drop n a,
    h.0,
  ),
  All-append IsWord (drop n a) (replicate n 0) (All-drop IsWord n a h.1) (replicate-IsWord n),
)

length-shr_bits : (k : ℕ) (ws : Words) → length (shr_bits k ws) ≡ length ws
unfolding shr_bits
length-shr_bits k [] = refl
length-shr_bits k (w ∷ []) = refl
length-shr_bits k (w ∷ v ∷ ws) = ap suc (length-shr_bits k (v ∷ ws))

shr_bits-IsWord : (k : ℕ) (ws : Words) → All IsWord ws → All IsWord (shr_bits k ws)
unfolding shr_bits
shr_bits-IsWord k [] h = tt
shr_bits-IsWord k (w ∷ []) h = (lt_of_le_of_lt (div-le_self w _) h.0, tt)
shr_bits-IsWord k (w ∷ v ∷ ws) h = (
  or-lt 32 _ _ (lt_of_le_of_lt (div-le_self w _) h.0) (omega arith),
  shr_bits-IsWord k (v ∷ ws) h.1,
)

zero_words-IsArith256 : IsArith256 zero_words
zero_words-IsArith256 = omega arith

leb-false : (x y : ℕ) → leb x y ≡ false → y < x
leb-false x y h = ground arith

pub shift_left-IsArith256 : (a : Words) (n : ℕ) → IsArith256 a → IsArith256 (shift_left a n)
unfolding shift_left
shift_left-IsArith256 a n h = elim (Bool-cases (leb limb_count (n / 32))) [
  | inl far ↦ rw far zero_words-IsArith256
  | inr near ↦ elim (Bool-cases (n % 32 == 0)) [
    | inl whole ↦ rw (near, whole) (moved near)
    | inr part ↦
        rw (near, part)
          (
            length-shl_bits (n % 32) 0 _ ∙ (moved near).0,
            shl_bits-IsWord (n % 32) 0 _ (lt_of_le_of_lt (div-le_self 0 _) (omega arith))
                (moved near).1,
          )
  ]
]
  where
    moved : leb limb_count (n / 32) ≡ false → IsArith256 (move_up (n / 32) a)
    moved e = move_up-IsArith256 (n / 32) a (omega (arith, leb-false 8 (n / 32) e)) h

pub shift_right-IsArith256 : (a : Words) (n : ℕ) → IsArith256 a → IsArith256 (shift_right a n)
unfolding shift_right
shift_right-IsArith256 a n h = elim (Bool-cases (leb limb_count (n / 32))) [
  | inl far ↦ rw far zero_words-IsArith256
  | inr near ↦ elim (Bool-cases (n % 32 == 0)) [
    | inl whole ↦ rw (near, whole) (moved near)
    | inr part ↦
        rw (near, part)
          (length-shr_bits (n % 32) _ ∙ (moved near).0, shr_bits-IsWord (n % 32) _ (moved near).1)
  ]
]
  where
    moved : leb limb_count (n / 32) ≡ false → IsArith256 (move_down (n / 32) a)
    moved e = move_down-IsArith256 (n / 32) a (omega (arith, leb-false 8 (n / 32) e)) h

complement-IsWord : (ws : Words) → All IsWord (complement ws)
unfolding complement
complement-IsWord [] = tt
complement-IsWord (w ∷ ws) = (omega arith, complement-IsWord ws)

length-complement : (ws : Words) → length (complement ws) ≡ length ws
unfolding complement
length-complement [] = refl
length-complement (w ∷ ws) = ap suc (length-complement ws)

pub complement-IsArith256 : (a : Words) → IsArith256 a → IsArith256 (complement a)
complement-IsArith256 a h = (length-complement a ∙ h.0, complement-IsWord a)

pub set-IsArith256 : (a : Words) (i v : ℕ) → IsArith256 a → IsWord v → IsArith256 (set a i v)
set-IsArith256 a i v h hv = (length-set a i v ∙ h.0, set-IsWord a i v h.1 hv)

set_compact_large-IsArith256 :
    (shift n_word : ℕ) → n_word < 2 ^ 23 → IsArith256 (set_compact_large shift n_word)
unfolding set_compact_large
set_compact_large-IsArith256 shift n_word h = elim (Bool-cases (ltb shift 256)) [
  | inr far ↦ rw far zero_words-IsArith256
  | inl near ↦ elim (Bool-cases (shift % 32 == 0)) [
    | inl whole ↦ rw (near, whole) low
    | inr part ↦
        rw (near, part)
          (set-IsArith256 _ (shift / 32 + 1) _ low
            (lt_of_le_of_lt (div-le_self n_word _) (omega arith)))
  ]
]
  where
    low : IsArith256 (set zero_words (shift / 32) (n_word * 2 ^ (shift % 32) % 2 ^ 32))
    low = set-IsArith256 zero_words (shift / 32) _ zero_words-IsArith256 (omega arith)

pub set_compact-IsArith256 : (n : ℕ) → n < 2 ^ 32 → IsArith256 (set_compact n)
unfolding set_compact
set_compact-IsArith256 n h = elim (Bool-cases (leb (n / 2 ^ 24) 3)) [
  | inl small ↦
      rw small
        (refl, (lt_of_le_of_lt (div-le_self _ _) (omega (arith, mantissa)), replicate-IsWord 7))
  | inr large ↦ rw large (set_compact_large-IsArith256 (8 * (n / 2 ^ 24 - 3)) _ mantissa)
]
  where
    mantissa : bit_and n 0x007fffff < 2 ^ 23
    mantissa = omega (arith, and_low23 n)
