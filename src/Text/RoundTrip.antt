-- ===== src/Text/RoundTrip.antt =====
-- Texts that are read back.
use mvclight.Base.{
  ℕ, zero, suc, ◌+◌, ◌-◌, ◌*◌, ◌/◌, ◌%◌, ◌^◌, ◌<◌, ◌≤◌, ◌≡◌, refl, ap, ◌∙◌, ◌==◌, arith, bit_and,
  true, false, ◌&&◌, ◌||◌, [], ◌∷◌, ◌++◌, none, some, ltb, leb, length, All, All-append, Bool-cases,
  inl, inr, ltb→lt, length-append,
}
use native.Mathlib.Nat.{pow-suc}
use mvclight.Base.Bits.{and_low4, or-shifted_left}
use mvclight.Base.Int.{pos}
use mvclight.Wire.{Bytes, IsByte}
use mvclight.Uint256.{hex_digit_char}
use mvclight.Text.{
  hex_val, push_byte, hex_to_bytes, bytes_to_hex, is_digit, digits_value, signed_value, atoi,
  to_u16, split_more, rsplit, host_port, split_host_port, digits, to_string,
}

hex_val-hex_digit_char : (d : ℕ) → d < 16 → hex_val (hex_digit_char d) ≡ some d
unfolding hex_val hex_digit_char
hex_val-hex_digit_char d h = ground arith

-- Bytes come back from their hexadecimal form.
pub hex_to_bytes-bytes_to_hex :
    (bs : Bytes) → All IsByte bs → hex_to_bytes (bytes_to_hex bs) ≡ some bs
unfolding hex_to_bytes bytes_to_hex push_byte
hex_to_bytes-bytes_to_hex [] h = refl
hex_to_bytes-bytes_to_hex (b ∷ bs) h =
    rw
      (
        hex_val-hex_digit_char (b / 16) (omega arith),
        low,
        hex_val-hex_digit_char (b % 16) (omega arith),
        hex_to_bytes-bytes_to_hex bs h.1,
      )
      (ap (λ (n : ℕ). some (n ∷ bs))
        (or-shifted_left 4 (b / 16) (b % 16) (omega arith) ∙ omega arith))
  where
    low : bit_and b 15 ≡ b % 16
    low = omega (arith, and_low4 b)

abbrev pub IsDigit : ℕ → Type 0
IsDigit c = (48 ≤ c) × (c ≤ 57)

digits-IsDigit : (k n : ℕ) → All IsDigit (digits k n)
unfolding digits
digits-IsDigit zero n = tt
digits-IsDigit (suc k) n = elim (Bool-cases (ltb n 10)) [
  | inl e ↦ rw e ((omega arith, omega (arith, ltb→lt n 10 e)), tt)
  | inr e ↦ rw e (
      All-append IsDigit (digits k (n / 10)) ((b'0' + n % 10) ∷ []) (digits-IsDigit k (n / 10))
        ((omega arith, omega arith), tt))
]

digit_test : (c : ℕ) → IsDigit c → is_digit c ≡ true
digit_test c h = ground (arith, h.0, h.1)

digits_value-append :
    (m d : ℕ) (cs : Bytes)
    → All IsDigit cs
    → d < 10
    → digits_value m (cs ++ ((b'0' + d) ∷ [])) ≡ digits_value m cs * 10 + d
unfolding digits_value
digits_value-append m d [] h k = rw (digit_test (48 + d) (omega arith, omega arith)) (omega arith)
digits_value-append m d (c ∷ cs) h k =
    rw (digit_test c h.0) (digits_value-append (m * 10 + (c - b'0')) d cs h.1 k)

digits_value-digits : (k n : ℕ) → n < 10 ^ k → digits_value 0 (digits k n) ≡ n
unfolding digits
digits_value-digits zero n h = unfold digits_value in omega arith
digits_value-digits (suc k) n h = elim (Bool-cases (ltb n 10)) [
  | inl e ↦
      rw e (digits_value-append 0 n [] tt (ltb→lt n 10 e) ∙ unfold digits_value in omega arith)
  | inr e ↦ rw e (
      digits_value-append 0 (n % 10) (digits k (n / 10)) (digits-IsDigit k (n / 10)) (omega arith)
      ∙ omega (arith, digits_value-digits k (n / 10) (omega (arith, pow-suc 10 k))))
]

length-digits : (k n : ℕ) → 0 < length (digits (suc k) n)
unfolding digits
length-digits k n = elim (Bool-cases (ltb n 10)) [
  | inl e ↦ rw e (omega arith)
  | inr e ↦ rw e (omega (arith, length-append (digits k (n / 10)) ((b'0' + n % 10) ∷ [])))
]

atoi-digits : (cs : Bytes) → 0 < length cs → All IsDigit cs → atoi cs ≡ pos (digits_value 0 cs)
unfolding atoi signed_value
atoi-digits [] h k = absurd (omega arith)
atoi-digits (c ∷ cs) h k = rw (no_space, no_minus, no_plus) refl
  where
    no_space : (c == b' ' || (leb 9 c && leb c 13)) ≡ false
    no_space = ground (arith, k.0)

    no_minus : (c == b'-') ≡ false
    no_minus = ground (arith, k.0)

    no_plus : (c == b'+') ≡ false
    no_plus = ground (arith, k.0)

no_colon : (cs : Bytes) → All IsDigit cs → rsplit b':' cs ≡ none
unfolding rsplit split_more
no_colon [] h = refl
no_colon (c ∷ cs) h = rw (no_colon cs h.1, differs) refl
  where
    differs : (c == b':') ≡ false
    differs = ground (arith, h.0)

rsplit-append :
    (host cs : Bytes) → All IsDigit cs → rsplit b':' (host ++ b':' ∷ cs) ≡ some (host, cs)
unfolding rsplit split_more
rsplit-append [] cs h = rw (no_colon cs h) refl
rsplit-append (c ∷ host) cs h = rw (rsplit-append host cs h) refl

host_port-digits :
    (host cs : Bytes) (port : ℕ)
    → 0 < length cs
    → All IsDigit cs
    → digits_value 0 cs ≡ port
    → 0 < port
    → port < 2 ^ 16
    → host_port (some (host, cs)) ≡ some (host, port)
unfolding host_port to_u16
host_port-digits host [] port h k e a b = absurd (omega arith)
host_port-digits host (c ∷ cs) port h k e a b =
    rw (atoi-digits (c ∷ cs) h k, e) (rw (small, positive) refl)
  where
    small : port % 2 ^ 16 ≡ port
    small = omega arith

    positive : (port == 0) ≡ false
    positive = ground arith

-- A host of any chars, a colon and a port from 1 to 65535 in decimal are split into the host and the
-- port, as `PeerName` joins them.
pub split_host_port-to_string :
    (host : Bytes) (port : ℕ)
    → 0 < port
    → port < 2 ^ 16
    → split_host_port (host ++ b':' ∷ to_string port) ≡ some (host, port)
unfolding split_host_port to_string
split_host_port-to_string host port a b =
    rw (rsplit-append host (digits 20 port) (digits-IsDigit 20 port)) (
      host_port-digits host (digits 20 port) port (length-digits 19 port) (digits-IsDigit 20 port)
        (digits_value-digits 20 port (omega arith)) a b)
