-- ===== src/Text.antt =====
-- The texts of light_api.cpp: hexadecimal bytes, `host:port`, and the decimal numbers of its results,
-- which light_connman.cpp prints too. A char is its code.
pub mod RoundTrip
use mvclight.Base.{
  ℕ, zero, suc, ◌+◌, ◌-◌, ◌*◌, ◌/◌, ◌%◌, ◌^◌, ◌==◌, bit_and, bit_or, Bool, true, false, ◌&&◌, ◌||◌,
  List, [], ◌∷◌, ◌++◌, Option, none, some, ltb, leb, if◌then◌else◌, length, take, drop,
}
use mvclight.Base.Int.{ℤ, pos, negsuc}
use mvclight.Wire.{Bytes}
use mvclight.Uint256.{hex_digit_char}

-- `HexVal`, whose -1 is `none`.
unfoldable pub hex_val : ℕ → Option ℕ
hex_val c =
    if leb b'0' c && leb c b'9'
    then some (c - b'0')
    else (if leb b'a' c && leb c b'f'
        then some (c - b'a' + 10)
        else (if leb b'A' c && leb c b'F' then some (c - b'A' + 10) else none))

unfoldable pub push_byte : Option ℕ → Option ℕ → Option Bytes → Option Bytes
push_byte (some hi) (some lo) (some out) = some (bit_or (hi * 2 ^ 4) lo ∷ out)
push_byte _ _ _ = none

-- `HexToBytes` of a string; `none` is the result false.
unfoldable pub hex_to_bytes : Bytes → Option Bytes
unfolding push_byte
hex_to_bytes [] = some []
hex_to_bytes (c ∷ []) = none
hex_to_bytes (c ∷ d ∷ cs) = push_byte (hex_val c) (hex_val d) (hex_to_bytes cs)

unfoldable pub bytes_to_hex : Bytes → Bytes
bytes_to_hex [] = []
bytes_to_hex (b ∷ bs) = hex_digit_char (b / 16) ∷ hex_digit_char (bit_and b 15) ∷ bytes_to_hex bs

-- `atoi`: spaces, a sign, and digits up to the first other char. A value beyond an int is undefined
-- in C++; here it is the number written.
abbrev pub is_digit : ℕ → Bool
is_digit c = leb b'0' c && leb c b'9'

unfoldable pub digits_value : ℕ → Bytes → ℕ
digits_value n [] = n
digits_value n (c ∷ cs) =
    let rest = digits_value (n * 10 + (c - b'0')) cs in if is_digit c then rest else n

negated : ℕ → ℤ
negated zero = pos 0
negated (suc n) = negsuc n

signed_value : Bytes → ℤ
unfolding negated
signed_value [] = pos 0
signed_value (c ∷ cs) =
    if c == b'-'
    then negated (digits_value 0 cs)
    else (if c == b'+' then pos (digits_value 0 cs) else pos (digits_value 0 (c ∷ cs)))

unfoldable pub atoi : Bytes → ℤ
unfolding signed_value
atoi [] = pos 0
atoi (c ∷ cs) =
    let rest = atoi cs in if c == b' ' || (leb 9 c && leb c 13) then rest else signed_value (c ∷ cs)

-- `static_cast<uint16_t>`.
unfoldable pub to_u16 : ℤ → ℕ
to_u16 (pos n) = n % 2 ^ 16
to_u16 (negsuc n) = 2 ^ 16 - 1 - n % 2 ^ 16

-- `rfind` of a char: what stands before its last place, and what behind.
unfoldable pub split_more : ℕ → ℕ → Bytes → Option (Bytes × Bytes) → Option (Bytes × Bytes)
split_more sep c cs none = if c == sep then some ([], cs) else none
split_more sep c cs (some (before, behind)) = some (c ∷ before, behind)

unfoldable pub rsplit : ℕ → Bytes → Option (Bytes × Bytes)
unfolding split_more
rsplit sep [] = none
rsplit sep (c ∷ cs) = split_more sep c cs (rsplit sep cs)

host_port : Option (Bytes × Bytes) → Option (Bytes × ℕ)
host_port none = none
host_port (some (host, [])) = none
host_port (some (host, c ∷ cs)) =
    let port = to_u16 (atoi (c ∷ cs)) in if port == 0 then none else some (host, port)

-- `none` is the result false.
unfoldable pub split_host_port : Bytes → Option (Bytes × ℕ)
unfolding host_port
split_host_port peer = host_port (rsplit b':' peer)

-- `std::to_string`, in 20 turns: a number of 64 bits has at most 20 digits.
unfoldable pub digits : ℕ → ℕ → Bytes
digits zero n = []
digits (suc k) n =
    let front = digits k (n / 10) in
    if ltb n 10 then (b'0' + n) ∷ [] else front ++ ((b'0' + n % 10) ∷ [])

unfoldable pub to_string : ℕ → Bytes
to_string n = digits 20 n

unfoldable pub to_string_ℤ : ℤ → Bytes
to_string_ℤ (pos n) = to_string n
to_string_ℤ (negsuc n) = b'-' ∷ to_string (suc n)
