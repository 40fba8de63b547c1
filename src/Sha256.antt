-- ===== src/Sha256.antt =====
-- light_sha256.cpp and light_sha256.h: SHA-256 by blocks of 64 bytes, and SHA256D. A uint32_t is a
-- number below 2 ^ 32; `m_buffer` with `m_buffer_len` is the list of the bytes that wait.
pub mod Sample
pub mod Stream
pub mod Digest
use mvclight.Base.{
  ℕ, zero, suc, ◌+◌, ◌-◌, ◌*◌, ◌/◌, ◌%◌, ◌^◌, bit_and, bit_or, bit_xor, List, [], ◌∷◌, ◌++◌, ltb,
  ◌==◌, if◌then◌else◌, length, take, drop, get_or,
}
use mvclight.Wire.{Bytes}

abbrev u32 : ℕ → ℕ
u32 x = x % 2 ^ 32

abbrev round_constants : List ℕ
round_constants =
    0x428a2f98 ∷ 0x71374491 ∷ 0xb5c0fbcf ∷ 0xe9b5dba5 ∷ 0x3956c25b ∷ 0x59f111f1 ∷ 0x923f82a4
    ∷ 0xab1c5ed5 ∷ 0xd807aa98 ∷ 0x12835b01 ∷ 0x243185be ∷ 0x550c7dc3 ∷ 0x72be5d74 ∷ 0x80deb1fe
    ∷ 0x9bdc06a7 ∷ 0xc19bf174 ∷ 0xe49b69c1 ∷ 0xefbe4786 ∷ 0x0fc19dc6 ∷ 0x240ca1cc ∷ 0x2de92c6f
    ∷ 0x4a7484aa ∷ 0x5cb0a9dc ∷ 0x76f988da ∷ 0x983e5152 ∷ 0xa831c66d ∷ 0xb00327c8 ∷ 0xbf597fc7
    ∷ 0xc6e00bf3 ∷ 0xd5a79147 ∷ 0x06ca6351 ∷ 0x14292967 ∷ 0x27b70a85 ∷ 0x2e1b2138 ∷ 0x4d2c6dfc
    ∷ 0x53380d13 ∷ 0x650a7354 ∷ 0x766a0abb ∷ 0x81c2c92e ∷ 0x92722c85 ∷ 0xa2bfe8a1 ∷ 0xa81a664b
    ∷ 0xc24b8b70 ∷ 0xc76c51a3 ∷ 0xd192e819 ∷ 0xd6990624 ∷ 0xf40e3585 ∷ 0x106aa070 ∷ 0x19a4c116
    ∷ 0x1e376c08 ∷ 0x2748774c ∷ 0x34b0bcb5 ∷ 0x391c0cb3 ∷ 0x4ed8aa4a ∷ 0x5b9cca4f ∷ 0x682e6ff3
    ∷ 0x748f82ee ∷ 0x78a5636f ∷ 0x84c87814 ∷ 0x8cc70208 ∷ 0x90befffa ∷ 0xa4506ceb ∷ 0xbef9a3f7
    ∷ 0xc67178f2 ∷ []

rotr : ℕ → ℕ → ℕ
rotr x n = bit_or (x / 2 ^ n) (u32 (x * 2 ^ (32 - n)))

pub record Sha256 : Type 0 where
  pub m_state : List ℕ
  pub m_bytes : ℕ
  pub m_buffer : Bytes

abbrev initial_state : List ℕ
initial_state =
    0x6a09e667 ∷ 0xbb67ae85 ∷ 0x3c6ef372 ∷ 0xa54ff53a ∷ 0x510e527f ∷ 0x9b05688c ∷ 0x1f83d9ab
    ∷ 0x5be0cd19 ∷ []

-- The constructor.
unfoldable pub new : Sha256
new = record { m_state = initial_state; m_bytes = 0; m_buffer = [] }

-- w[0] to w[15], read big-endian; the argument counts the words that are left to read.
block_words : ℕ → Bytes → List ℕ
block_words zero block = []
block_words (suc n) block =
    bit_or
      (bit_or (bit_or (get_or block 0 0 * 2 ^ 24) (get_or block 1 0 * 2 ^ 16))
        (get_or block 2 0 * 2 ^ 8))
      (get_or block 3 0)
    ∷ block_words n (drop 4 block)

small_sigma0 : ℕ → ℕ
unfolding rotr
small_sigma0 x = bit_xor (bit_xor (rotr x 7) (rotr x 18)) (x / 2 ^ 3)

small_sigma1 : ℕ → ℕ
unfolding rotr
small_sigma1 x = bit_xor (bit_xor (rotr x 17) (rotr x 19)) (x / 2 ^ 10)

-- The words from w[i] on, `n` of them.
extend_words : ℕ → ℕ → List ℕ → List ℕ
unfolding small_sigma0 small_sigma1
extend_words zero i w = w
extend_words (suc n) i w = extend_words n (i + 1) (
    w
    ++ u32 (
        get_or w (i - 16) 0
        + small_sigma0 (get_or w (i - 15) 0)
        + get_or w (i - 7) 0
        + small_sigma1 (get_or w (i - 2) 0))
      ∷ [])

-- The working variables a to h.
record Vars : Type 0 where
  a : ℕ
  b : ℕ
  c : ℕ
  d : ℕ
  e : ℕ
  f : ℕ
  g : ℕ
  h : ℕ

round : Vars → ℕ → ℕ → Vars
unfolding rotr
round v k w =
    let s1 = bit_xor (bit_xor (rotr v.e 6) (rotr v.e 11)) (rotr v.e 25) in
    let ch = bit_xor (bit_and v.e v.f) (bit_and (bit_xor v.e 0xffffffff) v.g) in
    let temp1 = u32 (v.h + s1 + ch + k + w) in
    let s0 = bit_xor (bit_xor (rotr v.a 2) (rotr v.a 13)) (rotr v.a 22) in
    let maj = bit_xor (bit_xor (bit_and v.a v.b) (bit_and v.a v.c)) (bit_and v.b v.c) in
    let temp2 = u32 (s0 + maj) in
    record {
      a = u32 (temp1 + temp2);
      b = v.a;
      c = v.b;
      d = v.c;
      e = u32 (v.d + temp1);
      f = v.e;
      g = v.f;
      h = v.g;
    }

rounds : List ℕ → List ℕ → Vars → Vars
unfolding round
rounds [] w v = v
rounds (k ∷ ks) [] v = v
rounds (k ∷ ks) (x ∷ w) v = rounds ks w (round v k x)

vars_of : List ℕ → Vars
vars_of s = record {
  a = get_or s 0 0;
  b = get_or s 1 0;
  c = get_or s 2 0;
  d = get_or s 3 0;
  e = get_or s 4 0;
  f = get_or s 5 0;
  g = get_or s 6 0;
  h = get_or s 7 0;
}

add_vars : Vars → Vars → List ℕ
add_vars s v =
    u32 (s.a + v.a)
    ∷ u32 (s.b + v.b)
    ∷ u32 (s.c + v.c)
    ∷ u32 (s.d + v.d)
    ∷ u32 (s.e + v.e)
    ∷ u32 (s.f + v.f)
    ∷ u32 (s.g + v.g)
    ∷ u32 (s.h + v.h)
    ∷ []

pub transform : List ℕ → Bytes → List ℕ
unfolding block_words extend_words rounds vars_of add_vars
transform state block =
    let v = vars_of state in
    add_vars v (rounds round_constants (extend_words 48 16 (block_words 16 block)) v)

-- The state after the bytes `buffer` stand in `m_buffer`: a full block is taken in at once.
pub settle : Sha256 → Bytes → Sha256
settle c buffer =
    if length buffer == 64
    then record c { m_state = transform c.m_state buffer; m_buffer = [] }
    else record c { m_buffer = buffer }

-- The loop of `Write`. A round takes a byte at least, so `length data` rounds are enough.
pub write_loop : ℕ → Sha256 → Bytes → Sha256
unfolding settle
write_loop fuel c [] = c
write_loop zero c (x ∷ xs) = c
write_loop (suc fuel) c (x ∷ xs) =
    let room = 64 - length c.m_buffer in
    write_loop fuel (settle c (c.m_buffer ++ take room (x ∷ xs))) (drop room (x ∷ xs))

pub write : Sha256 → Bytes → Sha256
unfolding write_loop
write c bytes =
    write_loop (length bytes) (record c { m_bytes = (c.m_bytes + length bytes) % 2 ^ 64 }) bytes

-- `while (m_buffer_len != 56) Write(&zero, 1);` with fuel.
pub pad_zeros : ℕ → Sha256 → Sha256
pad_zeros zero c = c
pad_zeros (suc fuel) c =
    let rest = pad_zeros fuel (write c (0 ∷ [])) in if length c.m_buffer == 56 then c else rest

-- `n` bytes of v, the highest of `n` first.
pub write_be : ℕ → ℕ → Bytes
write_be zero v = []
write_be (suc n) v = (v / 256 ^ n % 256) ∷ write_be n v

-- The padding of `Finalize`: 0x80, zeros up to 56 bytes, the number of bits.
pub finish : Sha256 → Sha256
finish c =
    let bits = c.m_bytes * 8 % 2 ^ 64 in
    write (pad_zeros 64 (write c (0x80 ∷ []))) (write_be 8 bits)

pub state_bytes : List ℕ → Bytes
state_bytes [] = []
state_bytes (w ∷ ws) = write_be 4 w ++ state_bytes ws

pub finalize : Sha256 → Bytes
finalize c = state_bytes (finish c).m_state

pub hash : Bytes → Bytes
hash bytes = finalize (write new bytes)

pub sha256d : Bytes → Bytes
sha256d bytes = hash (hash bytes)
