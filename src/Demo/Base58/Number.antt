-- ===== src/Demo/Base58/Number.antt =====
-- The big number of `DecodeBase58`: what one char does to it, and that its value determines it.
use mvclight.Base.{
  ℕ, zero, suc, ◌+◌, ◌*◌, ◌/◌, ◌%◌, ◌^◌, ◌<◌, ◌≤◌, ◌≡◌, ◌⊎◌, refl, sym, ap, ◌∙◌, ◌==◌, arith, true,
  false, [], ◌∷◌, ltb, length, All, Bool-cases, inl, inr, ltb→lt, ltb_false→le, if◌then◌else◌,
}
use mvclight.Wire.{Bytes, IsByte}
use mvclight.Wire.BigEndian.{read_be, read_be-lt}
use mvclight.Demo.Base58.{carried, mul_add, push_carry, pushed, add_digit}
use native.Mathlib.Nat.{pow-suc, mul-le-mul_right, pow-le-pow_right}

-- One byte of the product.
carried_value : (x w low : ℕ) → x % 256 * w + low + x / 256 * (256 * w) ≡ x * w + low
carried_value x w low = omega (arith, ap (λ (t : ℕ). t * w) parts)
  where
    parts : x % 256 + x / 256 * 256 ≡ x
    parts = omega arith

-- The bytes of a number after `* 58 + carry`, with the carry out above them.
record Product (bs : Bytes) (carry : ℕ) (r : Bytes × ℕ) : Type 0 where
  value : read_be r.0 + r.1 * 256 ^ length bs ≡ read_be bs * 58 + carry
  same_length : length r.0 ≡ length bs
  bytes : All IsByte r.0
  small : r.1 < 58

carried-Product :
    (b : ℕ) (bs : Bytes) (carry : ℕ) (r : Bytes × ℕ)
    → b < 256
    → Product bs carry r
    → Product (b ∷ bs) carry (carried b r)
unfolding carried read_be
carried-Product b bs carry (rs, c) hb p = record {
  value = omega (
    arith,
    carried_value (b * 58 + c) (256 ^ length bs) (read_be rs),
    p.value,
    pow-suc 256 (length bs),
    ap (λ (n : ℕ). (b * 58 + c) % 256 * 256 ^ n) p.same_length,
    ap (λ (t : ℕ). (b * 58 + c) / 256 * t) (pow-suc 256 (length bs)),
  );
  same_length = ap suc p.same_length;
  bytes = (omega arith, p.bytes);
  small = omega (arith, p.small);
}

mul_add-Product :
    (bs : Bytes) (carry : ℕ) → All IsByte bs → carry < 58 → Product bs carry (mul_add bs carry)
unfolding mul_add
mul_add-Product [] carry h k = record {
  value = unfold read_be in omega arith;
  same_length = refl;
  bytes = tt;
  small = k;
}
mul_add-Product (b ∷ bs) carry h k =
    carried-Product b bs carry (mul_add bs carry) h.0 (mul_add-Product bs carry h.1 k)

push_carry_small :
    (bs : Bytes) (c : ℕ) → c < 58 → push_carry 4 bs c ≡ (if c == 0 then bs else c ∷ bs)
unfolding push_carry
push_carry_small bs zero h = refl
push_carry_small bs (suc c) h = ground (arith, low, high)
  where
    low : suc c % 256 ≡ suc c
    low = omega arith

    high : suc c / 256 ≡ 0
    high = omega arith

-- Bytes with no leading zero, but for the number 0.
abbrev pub HasNoZero : Bytes → Type 0
HasNoZero [] = ⊥
HasNoZero (b ∷ bs) = (0 < b) ⊎ (bs ≡ [])

pub record Number (v : ℕ) (bs : Bytes) : Type 0 where
  pub value : read_be bs ≡ v
  pub bytes : All IsByte bs
  pub lead : HasNoZero bs

lead_only : (rs : Bytes) → length rs ≡ 0 → rs ≡ []
lead_only [] h = refl
lead_only (b ∷ rs) h = absurd (omega arith)

lead_of :
    (b c : ℕ) (bs rs : Bytes)
    → (0 < b) ⊎ (bs ≡ [])
    → length rs ≡ length bs
    → (0 < b * 58 + c) ⊎ (rs ≡ [])
lead_of b c bs rs (inl h) e = inl (omega arith)
lead_of b c bs rs (inr h) e = inr (lead_only rs (e ∙ ap length h))

pushed-Number :
    (x v : ℕ) (rs : Bytes)
    → x / 256 < 58
    → All IsByte rs
    → (0 < x) ⊎ (rs ≡ [])
    → read_be ((x % 256) ∷ rs) + x / 256 * 256 ^ suc (length rs) ≡ v
    → Number v (push_carry 4 ((x % 256) ∷ rs) (x / 256))
pushed-Number x v rs small bytes lead value =
    rw (push_carry_small ((x % 256) ∷ rs) (x / 256) small) (elim (Bool-cases (x / 256 == 0)) [
      | inl e ↦ rw e (record {
        value = omega (arith, value, ap (λ (t : ℕ). t * 256 ^ suc (length rs)) (none_left e));
        bytes = (omega arith, bytes);
        lead = still lead e;
      })
      | inr e ↦ rw e (record {
        value = unfold read_be in omega (arith, value);
        bytes = (omega arith, (omega arith, bytes));
        lead = inl (positive e);
      })
    ])
  where
    none_left : (x / 256 == 0) ≡ true → x / 256 ≡ 0
    none_left e = ground arith

    positive : (x / 256 == 0) ≡ false → 0 < x / 256
    positive e = ground arith

    still : (0 < x) ⊎ (rs ≡ []) → (x / 256 == 0) ≡ true → (0 < x % 256) ⊎ (rs ≡ [])
    still (inl h) e = inl (omega (arith, none_left e))
    still (inr h) e = inr h

-- A char multiplies the number by 58 and adds its digit.
pub add_digit-Number :
    (v d : ℕ) (bs : Bytes) → Number v bs → d < 58 → Number (v * 58 + d) (add_digit bs d)
unfolding add_digit pushed mul_add carried
add_digit-Number v d [] n h = absurd n.lead
add_digit-Number v d (b ∷ bs) n h =
    pushed-Number (b * 58 + (mul_add bs d).1) (v * 58 + d) (mul_add bs d).0 whole.small r.bytes
      (lead_of b (mul_add bs d).1 bs (mul_add bs d).0 n.lead r.same_length)
      (omega (
        arith,
        whole.value,
        n.value,
        ap (λ (k : ℕ). (b * 58 + (mul_add bs d).1) / 256 * 256 ^ suc k) r.same_length,
      ))
  where
    r : Product bs d (mul_add bs d)
    r = mul_add-Product bs d n.bytes.1 h

    whole : Product (b ∷ bs) d (carried b (mul_add bs d))
    whole = carried-Product b bs d (mul_add bs d) n.bytes.0 r

read_be-ge : (b : ℕ) (bs : Bytes) → 0 < b → 256 ^ length bs ≤ read_be (b ∷ bs)
unfolding read_be
read_be-ge b bs h = omega (arith, mul-le-mul_right (256 ^ length bs) h)

pub read_be-pos : (b : ℕ) (bs : Bytes) → 0 < b → 0 < read_be (b ∷ bs)
read_be-pos b bs h = omega (
  arith,
  read_be-ge b bs h,
  pow-le-pow_right {n = 256} (omega arith) {i = 0} {j = length bs} (omega arith),
)

shorter_is_less :
    (bs : Bytes) (c : ℕ) (cs : Bytes)
    → All IsByte bs
    → 0 < c
    → length bs < suc (length cs)
    → read_be bs < read_be (c ∷ cs)
shorter_is_less bs c cs hb h k = omega (
  arith,
  read_be-lt bs hb,
  read_be-ge c cs h,
  pow-le-pow_right {n = 256} (omega arith) {i = length bs} {j = length cs} (omega arith),
)

no_less : (x y u v m : ℕ) → u < m → x * m + u ≡ y * m + v → y ≤ x
no_less x y u v m hu e = elim (Bool-cases (ltb x y)) [
  | inl l ↦ absurd (omega (arith, mul-le-mul_right m (ltb→lt x y l)))
  | inr l ↦ ltb_false→le x y l
]

read_be_injective :
    (bs cs : Bytes)
    → All IsByte bs
    → All IsByte cs
    → length bs ≡ length cs
    → read_be bs ≡ read_be cs
    → bs ≡ cs
unfolding read_be
read_be_injective [] [] hb hc e h = refl
read_be_injective [] (c ∷ cs) hb hc e h = absurd (omega arith)
read_be_injective (b ∷ bs) [] hb hc e h = absurd (omega arith)
read_be_injective (b ∷ bs) (c ∷ cs) hb hc e h =
    cc (heads, read_be_injective bs cs hb.1 hc.1 (omega arith) tails)
  where
    same : 256 ^ length bs ≡ 256 ^ length cs
    same = ap (λ (n : ℕ). 256 ^ n) (omega arith)

    aligned : b * 256 ^ length bs + read_be bs ≡ c * 256 ^ length bs + read_be cs
    aligned = h ∙ omega (arith, ap (λ (t : ℕ). c * t) same)

    heads : b ≡ c
    heads = omega (
      arith,
      no_less b c (read_be bs) (read_be cs) (256 ^ length bs) (read_be-lt bs hb.1) aligned,
      no_less c b (read_be cs) (read_be bs) (256 ^ length bs)
          (omega (arith, same, read_be-lt cs hc.1)) (sym aligned),
    )

    tails : read_be bs ≡ read_be cs
    tails = omega (arith, aligned, ap (λ (t : ℕ). t * 256 ^ length bs) heads)

single : (b : ℕ) → read_be (b ∷ []) ≡ b
unfolding read_be
single b = omega arith

-- The bytes of a number that is not zero are determined.
pub Number-unique :
    (v : ℕ) (bs : Bytes) (c : ℕ) (cs : Bytes)
    → Number v bs
    → All IsByte (c ∷ cs)
    → 0 < c
    → read_be (c ∷ cs) ≡ v
    → bs ≡ c ∷ cs
Number-unique v [] c cs n h k e = absurd n.lead
Number-unique v (b ∷ bs) c cs n h k e =
    read_be_injective (b ∷ bs) (c ∷ cs) n.bytes h lengths (n.value ∙ sym e)
  where
    above : 0 < v
    above = omega (arith, e, read_be-pos c cs k)

    positive : (0 < b) ⊎ (bs ≡ []) → 0 < b
    positive (inl l) = l
    positive (inr l) =
        omega (arith, above, sym n.value ∙ ap (λ (t : Bytes). read_be (b ∷ t)) l, single b)

    no_shorter : suc (length cs) ≤ suc (length bs)
    no_shorter = elim (Bool-cases (ltb (suc (length bs)) (suc (length cs)))) [
      | inl l ↦
          absurd (omega (arith, n.value, e, shorter_is_less (b ∷ bs) c cs n.bytes k (ltb→lt _ _ l)))
      | inr l ↦ ltb_false→le _ _ l
    ]

    no_longer : suc (length bs) ≤ suc (length cs)
    no_longer = elim (Bool-cases (ltb (suc (length cs)) (suc (length bs)))) [
      | inl l ↦ absurd (
          omega
            (arith, n.value, e, shorter_is_less (c ∷ cs) b bs h (positive n.lead) (ltb→lt _ _ l)))
      | inr l ↦ ltb_false→le _ _ l
    ]

    lengths : length (b ∷ bs) ≡ length (c ∷ cs)
    lengths = omega (arith, no_shorter, no_longer)
