-- ===== src/Sha256/Digest.antt =====
-- The digest: `Finalize` yields 32 bytes from any context that was built by `Write`.
use mvclight.Base.{
  ℕ, zero, suc, ◌*◌, ◌≡◌, refl, ap, [], ◌∷◌, ◌++◌, List, length, take, drop, length-append, All,
  All-append, arith, Bool-cases, inl, inr, ◌==◌, ◌-◌,
}
use mvclight.Wire.{Bytes, IsByte}
use mvclight.Sha256.{
  Sha256, settle, write_loop, write, pad_zeros, write_be, finish, transform, new, hash, finalize,
  state_bytes, sha256d,
}

abbrev pub HasEight : Sha256 → Type 0
HasEight c = length c.m_state ≡ 8

settle-HasEight : (c : Sha256) (buffer : Bytes) → HasEight c → HasEight (settle c buffer)
unfolding settle transform
settle-HasEight c buffer h = elim (Bool-cases (length buffer == 64)) [
  | inl e ↦ rw e
  | inr e ↦ rw e h
]

write_loop-HasEight :
    (fuel : ℕ) (c : Sha256) (xs : Bytes) → HasEight c → HasEight (write_loop fuel c xs)
unfolding write_loop
write_loop-HasEight zero c [] h = h
write_loop-HasEight (suc fuel) c [] h = h
write_loop-HasEight zero c (x ∷ xs) h = h
write_loop-HasEight (suc fuel) c (x ∷ xs) h =
    write_loop-HasEight fuel (settle c (c.m_buffer ++ take room (x ∷ xs))) (drop room (x ∷ xs))
      (settle-HasEight c _ h)
  where
    room : ℕ
    room = 64 - length c.m_buffer

write-HasEight : (c : Sha256) (xs : Bytes) → HasEight c → HasEight (write c xs)
unfolding write
write-HasEight c xs h = write_loop-HasEight (length xs) _ xs h

pad_zeros-HasEight : (fuel : ℕ) (c : Sha256) → HasEight c → HasEight (pad_zeros fuel c)
unfolding pad_zeros
pad_zeros-HasEight zero c h = h
pad_zeros-HasEight (suc fuel) c h = elim (Bool-cases (length c.m_buffer == 56)) [
  | inl e ↦ rw e h
  | inr e ↦ rw e (pad_zeros-HasEight fuel (write c (0 ∷ [])) (write-HasEight c (0 ∷ []) h))
]

finish-HasEight : (c : Sha256) → HasEight c → HasEight (finish c)
unfolding finish
finish-HasEight c h = write-HasEight _ _ (pad_zeros-HasEight 64 _ (write-HasEight c (0x80 ∷ []) h))

length-write_be : (n v : ℕ) → length (write_be n v) ≡ n
unfolding write_be
length-write_be zero v = refl
length-write_be (suc n) v = ap suc (length-write_be n v)

write_be-IsByte : (n v : ℕ) → All IsByte (write_be n v)
unfolding write_be
write_be-IsByte zero v = tt
write_be-IsByte (suc n) v = (omega arith, write_be-IsByte n v)

length-state_bytes : (ws : List ℕ) → length (state_bytes ws) ≡ length ws * 4
unfolding state_bytes
length-state_bytes [] = refl
length-state_bytes (w ∷ ws) = omega (
  arith,
  length-append (write_be 4 w) (state_bytes ws),
  length-write_be 4 w,
  length-state_bytes ws,
)

state_bytes-IsByte : (ws : List ℕ) → All IsByte (state_bytes ws)
unfolding state_bytes
state_bytes-IsByte [] = tt
state_bytes-IsByte (w ∷ ws) =
    All-append IsByte (write_be 4 w) (state_bytes ws) (write_be-IsByte 4 w) (state_bytes-IsByte ws)

hash_shape : (bytes : Bytes) → (length (hash bytes) ≡ 32) × All IsByte (hash bytes)
unfolding hash finalize
hash_shape bytes = (omega (arith, length-state_bytes words, eight), state_bytes-IsByte words)
  where
    last : Sha256
    last = finish (write new bytes)

    words : List ℕ
    words = last.m_state

    eight : length words ≡ 8
    eight = finish-HasEight (write new bytes) (write-HasEight new bytes (unfold new in refl))

-- SHA256D of any input is 32 bytes.
pub sha256d_shape : (bytes : Bytes) → (length (sha256d bytes) ≡ 32) × All IsByte (sha256d bytes)
unfolding sha256d
sha256d_shape bytes = hash_shape (hash bytes)
