-- ===== src/Demo/Base58/RoundTrip.antt =====
-- Base58 texts are read back.
use mvclight.Base.{
  ℕ, zero, suc, ◌/◌, ◌%◌, ◌^◌, ◌<◌, ◌≡◌, refl, ap, ◌∙◌, ◌==◌, arith, Bool, true, false, ◌&&◌, ◌||◌,
  not, [], ◌∷◌, ◌++◌, Option, none, some, ltb, get_or, All, Bool-cases, inl, inr, ltb→lt,
  ltb_false→le, subst, replicate, if◌then◌else◌, ==_iff,
}
use mvclight.Wire.{Bytes, IsByte}
use mvclight.Wire.BigEndian.{read_be}
use mvclight.Demo.Base58.{
  base58_alphabet, strchr, carried, mul_add, push_carry, pushed, add_digit, digit_turn, digits_loop,
  leading_ones, with_ones, decode_base58,
}
use mvclight.Demo.Base58.Number.{read_be-pos, Number, add_digit-Number, Number-unique}
use native.Mathlib.Nat.{pow-suc}

-- The char of a digit.
pub digit_char : ℕ → ℕ
digit_char d = get_or base58_alphabet d 0

-- A number in base 58, the highest digit first, in at most `k` digits.
pub base58_digits : ℕ → ℕ → Bytes
base58_digits zero n = []
base58_digits (suc k) n =
    let front = base58_digits k (n / 58) in
    if ltb n 58 then digit_char n ∷ [] else front ++ (digit_char (n % 58) ∷ [])

-- The alphabet, checked for each digit.
for_digits : (ℕ → Bool) → ℕ → Bool
for_digits test zero = true
for_digits test (suc count) = for_digits test count && test count

for_digits-at :
    (test : ℕ → Bool) (count d : ℕ) → d < count → for_digits test count ≡ true → test d ≡ true
unfolding for_digits
for_digits-at test zero d small all = absurd (omega arith)
for_digits-at test (suc count) d small all = ground (arith, for_digits-at test count d)

is_at : Option ℕ → ℕ → Bool
is_at none d = false
is_at (some n) d = n == d

is_at-some : (o : Option ℕ) (d : ℕ) → is_at o d ≡ true → o ≡ some d
unfolding is_at
is_at-some none d h = cc
is_at-some (some n) d h = ap some ((==_iff n d).0 h)

found_table : for_digits (λ d. is_at (strchr base58_alphabet (digit_char d)) d) 58 ≡ true
unfolding for_digits is_at strchr digit_char
found_table = refl

one_table : for_digits (λ d. d == 0 || not (digit_char d == b'1')) 58 ≡ true
unfolding for_digits digit_char
one_table = refl

strchr-digit_char : (d : ℕ) → d < 58 → strchr base58_alphabet (digit_char d) ≡ some d
strchr-digit_char d h = is_at-some _ d (for_digits-at _ 58 d h found_table)

digit_char-ne-one : (d : ℕ) → d < 58 → 0 < d → (digit_char d == b'1') ≡ false
digit_char-ne-one d h k = ground (arith, for_digits-at _ 58 d h one_table)

digits_loop-append :
    (acc s t bs : Bytes) → digits_loop acc s ≡ some bs → digits_loop acc (s ++ t) ≡ digits_loop bs t
unfolding digits_loop digit_turn
digits_loop-append acc [] t bs e = cc
digits_loop-append acc (c ∷ s) t bs e =
    turn (strchr base58_alphabet c) (λ x k. digits_loop-append (add_digit acc x) s t bs k) e
  where
    turn :
        (o : Option ℕ)
        → ((x : ℕ)
            → digits_loop (add_digit acc x) s ≡ some bs
            → digits_loop (add_digit acc x) (s ++ t) ≡ digits_loop bs t)
        → digit_turn o acc (λ next. digits_loop next s) ≡ some bs
        → digit_turn o acc (λ next. digits_loop next (s ++ t)) ≡ digits_loop bs t
    turn none ih k = cc
    turn (some x) ih k = ih x k

digits_loop-one :
    (bs : Bytes) (d : ℕ) → d < 58 → digits_loop bs (digit_char d ∷ []) ≡ some (add_digit bs d)
unfolding digits_loop digit_turn
digits_loop-one bs d h = rw (strchr-digit_char d h) refl

zero-Number : (n : ℕ) → n ≡ 0 → Number n (0 ∷ [])
zero-Number n h = record {
  value = unfold read_be in omega arith;
  bytes = (omega arith, tt);
  lead = inr refl;
}

-- The chars of a number in base 58 are read as that number.
digits_loop-base58_digits :
    (k n : ℕ)
    → n < 58 ^ k
    → (bs : Bytes) × (digits_loop (0 ∷ []) (base58_digits k n) ≡ some bs) × Number n bs
unfolding base58_digits
digits_loop-base58_digits zero n h =
    (0 ∷ [], unfold digits_loop in refl, zero-Number n (omega arith))
digits_loop-base58_digits (suc k) n h = elim (Bool-cases (ltb n 58)) [
  | inl e ↦ rw e (
    add_digit (0 ∷ []) n,
    digits_loop-one (0 ∷ []) n (ltb→lt n 58 e),
    subst (λ (v : ℕ). Number v (add_digit (0 ∷ []) n)) (omega arith)
        (add_digit-Number 0 n (0 ∷ []) (zero-Number 0 refl) (ltb→lt n 58 e)),
  )
  | inr e ↦ rw e (more (digits_loop-base58_digits k (n / 58) (omega (arith, pow-suc 58 k))))
]
  where
    more :
        ((bs : Bytes) × (digits_loop (0 ∷ []) (base58_digits k (n / 58)) ≡ some bs)
          × Number (n / 58) bs)
        → (bs : Bytes) × (digits_loop
              (0 ∷ [])
              (base58_digits k (n / 58) ++ digit_char (n % 58) ∷ [])
            ≡ some bs)
          × Number n bs
    more (bs, read, num) = (
      add_digit bs (n % 58),
      digits_loop-append (0 ∷ []) (base58_digits k (n / 58)) (digit_char (n % 58) ∷ []) bs read
          ∙ digits_loop-one bs (n % 58) (omega arith),
      subst (λ (v : ℕ). Number v (add_digit bs (n % 58))) (omega arith)
          (add_digit-Number (n / 58) (n % 58) bs num (omega arith)),
    )

-- A text that does not start with `1`.
abbrev NoOne : Bytes → Type 0
NoOne [] = ⊥
NoOne (c ∷ cs) = (c == b'1') ≡ false

NoOne-append : (s t : Bytes) → NoOne s → NoOne (s ++ t)
NoOne-append [] t h = absurd h
NoOne-append (c ∷ s) t h = h

base58_digits-NoOne : (k n : ℕ) → n < 58 ^ k → 0 < n → NoOne (base58_digits k n)
unfolding base58_digits
base58_digits-NoOne zero n h p = absurd (omega arith)
base58_digits-NoOne (suc k) n h p = elim (Bool-cases (ltb n 58)) [
  | inl e ↦ rw e (digit_char-ne-one n (ltb→lt n 58 e) p)
  | inr e ↦ rw e (
      NoOne-append (base58_digits k (n / 58)) (digit_char (n % 58) ∷ []) (
        base58_digits-NoOne k (n / 58) (omega (arith, pow-suc 58 k))
          (omega (arith, ltb_false→le n 58 e))))
]

leading_ones-NoOne : (s bs : Bytes) → NoOne s → leading_ones s bs ≡ bs
unfolding leading_ones
leading_ones-NoOne [] bs h = absurd h
leading_ones-NoOne (c ∷ s) bs h = rw h refl

zero_in_front : (z : ℕ) (bs : Bytes) → replicate z 0 ++ 0 ∷ bs ≡ 0 ∷ (replicate z 0 ++ bs)
zero_in_front zero bs = refl
zero_in_front (suc z) bs = ap (λ (t : Bytes). 0 ∷ t) (zero_in_front z bs)

leading_ones-replicate :
    (z : ℕ) (s bs : Bytes) → NoOne s → leading_ones (replicate z b'1' ++ s) bs ≡ replicate z 0 ++ bs
unfolding leading_ones
leading_ones-replicate zero s bs h = leading_ones-NoOne s bs h
leading_ones-replicate (suc z) s bs h = leading_ones-replicate z s (0 ∷ bs) h ∙ zero_in_front z bs

skip_ones :
    (z : ℕ) (s : Bytes) → digits_loop (0 ∷ []) (replicate z b'1' ++ s) ≡ digits_loop (0 ∷ []) s
unfolding digits_loop digit_turn strchr add_digit pushed mul_add carried push_carry
skip_ones zero s = refl
skip_ones (suc z) s = skip_ones z s

-- Every byte string whose number is not zero comes back from its text in base 58: a `1` for each
-- leading zero byte, and then the number in base 58, in at most `k` digits.
pub decode_base58-base58_digits :
    (z k b : ℕ) (bs : Bytes)
    → All IsByte (b ∷ bs)
    → 0 < b
    → read_be (b ∷ bs) < 58 ^ k
    → decode_base58 (replicate z b'1' ++ base58_digits k (read_be (b ∷ bs)))
      ≡ some (replicate z 0 ++ b ∷ bs)
unfolding decode_base58 with_ones
decode_base58-base58_digits z k b bs h p small =
    rw (skip_ones z (base58_digits k (read_be (b ∷ bs))), found.1)
      (ap some (
        leading_ones-replicate z (base58_digits k (read_be (b ∷ bs))) found.0
          (base58_digits-NoOne k (read_be (b ∷ bs)) small positive)
        ∙ ap (λ (t : Bytes). replicate z 0 ++ t)
            (Number-unique (read_be (b ∷ bs)) found.0 b bs found.2 h p refl)))
  where
    found :
        (t : Bytes) × (digits_loop (0 ∷ []) (base58_digits k (read_be (b ∷ bs))) ≡ some t)
        × Number (read_be (b ∷ bs)) t
    found = digits_loop-base58_digits k (read_be (b ∷ bs)) small

    positive : 0 < read_be (b ∷ bs)
    positive = read_be-pos b bs p
