-- ===== src/Demo/Base58.antt =====
-- demo/demo_win32.cpp: an address in Base58Check, and its P2PKH script. A char is its code.
pub mod Number
pub mod RoundTrip
pub mod Address
use mvclight.Base.{
  ℕ, zero, suc, ◌+◌, ◌*◌, ◌/◌, ◌%◌, ◌-◌, ◌==◌, not, ◌||◌, [], ◌∷◌, ◌++◌, Option, none, some, ltb,
  codes, if◌then◌else◌, length, take, drop,
}
use mvclight.Wire.{Bytes}
use mvclight.Uint256.{eq as bytes_eq}
use mvclight.Sha256.{sha256d}

abbrev pub base58_alphabet : Bytes
base58_alphabet = codes "123456789ABCDEFGHJKLMNPQRSTUVWXYZabcdefghijkmnopqrstuvwxyz"

one_further : Option ℕ → Option ℕ
one_further none = none
one_further (some n) = some (suc n)

-- `strchr`, as the distance from the start: the zero that ends the string is found too.
unfoldable pub strchr : Bytes → ℕ → Option ℕ
unfolding one_further
strchr [] c = if c == 0 then some 0 else none
strchr (x ∷ xs) c = if x == c then some 0 else one_further (strchr xs c)

carried : ℕ → Bytes × ℕ → Bytes × ℕ
carried b (bs, carry) = (((b * 58 + carry) % 256) ∷ bs, (b * 58 + carry) / 256)

-- The loop over the bytes of the number, from the last to the first: the bytes, and the carry.
unfoldable pub mul_add : Bytes → ℕ → Bytes × ℕ
unfolding carried
mul_add [] carry = ([], carry)
mul_add (b ∷ bs) carry = carried b (mul_add bs carry)

-- `while (carry > 0)`, over the four bytes of an int.
unfoldable pub push_carry : ℕ → Bytes → ℕ → Bytes
push_carry zero bs carry = bs
push_carry (suc n) bs carry =
    let rest = push_carry n ((carry % 256) ∷ bs) (carry / 256) in if carry == 0 then bs else rest

pushed : Bytes × ℕ → Bytes
unfolding push_carry
pushed (bs, carry) = push_carry 4 bs carry

-- One char of the number.
unfoldable pub add_digit : Bytes → ℕ → Bytes
unfolding pushed
add_digit bignum digit = pushed (mul_add bignum digit)

-- One turn of the loop over the chars.
digit_turn : Option ℕ → Bytes → (Bytes → Option Bytes) → Option Bytes
unfolding add_digit
digit_turn none bignum next = none
digit_turn (some digit) bignum next = next (add_digit bignum digit)

-- The loop over the chars; `none` is the result false.
unfoldable pub digits_loop : Bytes → Bytes → Option Bytes
unfolding digit_turn
digits_loop bignum [] = some bignum
digits_loop bignum (c ∷ s) =
    digit_turn (strchr base58_alphabet c) bignum (λ next. digits_loop next s)

-- A zero byte for each leading `1`.
unfoldable pub leading_ones : Bytes → Bytes → Bytes
leading_ones [] bignum = bignum
leading_ones (c ∷ s) bignum =
    let rest = leading_ones s (0 ∷ bignum) in if c == b'1' then rest else bignum

with_ones : Bytes → Option Bytes → Option Bytes
with_ones s none = none
with_ones s (some bignum) = some (leading_ones s bignum)

unfoldable pub decode_base58 : Bytes → Option Bytes
unfolding with_ones
decode_base58 s = with_ones s (digits_loop (0 ∷ []) s)

-- The payload, if the last four bytes are the first four of its double hash.
unfoldable pub verified : Bytes → Option Bytes
verified bytes =
    let payload = take (length bytes - 4) bytes in
    if ltb (length bytes) 5
    then none
    else (if bytes_eq (take 4 (sha256d payload)) (drop (length bytes - 4) bytes)
        then some payload
        else none)

checked : Option Bytes → Option Bytes
checked none = none
checked (some bytes) = verified bytes

unfoldable pub decode_base58_check : Bytes → Option Bytes
unfolding checked verified
decode_base58_check s = checked (decode_base58 s)

-- OP_DUP OP_HASH160, the 20 bytes, OP_EQUALVERIFY OP_CHECKSIG.
unfoldable pub script_of : Option Bytes → Option Bytes
script_of none = none
script_of (some []) = none
script_of (some (version ∷ hash)) =
    if not (suc (length hash) == 21) || not (version == 0)
    then none
    else some (0x76 ∷ 0xa9 ∷ 0x14 ∷ (hash ++ 0x88 ∷ 0xac ∷ []))

-- `none` is the result false.
unfoldable pub address_to_script_pubkey : Bytes → Option Bytes
unfolding script_of
address_to_script_pubkey addr = script_of (decode_base58_check addr)
