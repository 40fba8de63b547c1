-- ===== src/Sha256/Stream.antt =====
-- Writing in pieces: `Write` is a fold over single bytes, so how the input is cut does not matter,
-- and the padding of `Finalize` always ends on a full block.
use mvclight.Base.{
  ℕ, zero, suc, ◌+◌, ◌-◌, ◌%◌, ◌^◌, ◌≤◌, ◌<◌, ◌≡◌, refl, ap, sym, ◌∙◌, [], ◌∷◌, ◌++◌, length, take,
  drop, length-append, length-take, length-drop, take-append-drop, append_assoc, arith, ltb,
  if◌then◌else◌,
}
use mvclight.Wire.{Bytes}
use mvclight.Sha256.{Sha256, settle, write_loop, write, pad_zeros, write_be, finish}
use native.Mathlib.Nat.{le_of_eq}

abbrev pub HasRoom : Sha256 → Type 0
HasRoom c = length c.m_buffer < 64

-- One byte at a time.
push : Sha256 → ℕ → Sha256
unfolding settle
push c b = settle c (c.m_buffer ++ b ∷ [])

feed : Sha256 → Bytes → Sha256
feed c [] = c
feed c (b ∷ bs) = feed (push c b) bs

feed-append : (c : Sha256) (xs ys : Bytes) → feed c (xs ++ ys) ≡ feed (feed c xs) ys
unfolding feed
feed-append c [] ys = refl
feed-append c (x ∷ xs) ys = feed-append (push c x) xs ys

settle-HasRoom : (c : Sha256) (buffer : Bytes) → length buffer ≤ 64 → HasRoom (settle c buffer)
unfolding settle
settle-HasRoom c buffer h = ground arith

push-HasRoom : (c : Sha256) (b : ℕ) → HasRoom c → HasRoom (push c b)
unfolding push
push-HasRoom c b h =
    settle-HasRoom c (c.m_buffer ++ b ∷ []) (omega (arith, length-append c.m_buffer (b ∷ [])))

feed-HasRoom : (c : Sha256) (xs : Bytes) → HasRoom c → HasRoom (feed c xs)
unfolding feed
feed-HasRoom c [] h = h
feed-HasRoom c (x ∷ xs) h = feed-HasRoom (push c x) xs (push-HasRoom c x h)

-- Fewer bytes than there is room for only wait.
settle_short :
    (c : Sha256) (buffer : Bytes)
    → length buffer < 64
    → settle c buffer ≡ record c { m_buffer = buffer }
unfolding settle
settle_short c buffer h = ground arith

-- As many bytes as fit, fed one by one, settle at once.
feed-settle :
    (c : Sha256) (x : ℕ) (xs : Bytes)
    → length c.m_buffer + length (x ∷ xs) ≤ 64
    → feed c (x ∷ xs) ≡ settle c (c.m_buffer ++ x ∷ xs)
unfolding feed push
feed-settle c x [] h = refl
feed-settle c x (y ∷ ys) h =
    ap (λ (d : Sha256). feed d (y ∷ ys))
      (settle_short c (c.m_buffer ++ x ∷ []) (omega (arith, length-append c.m_buffer (x ∷ []))))
    ∙ feed-settle (record c { m_buffer = c.m_buffer ++ x ∷ [] }) y ys
        (omega (arith, length-append c.m_buffer (x ∷ [])))
    ∙ ap (settle c) (append_assoc c.m_buffer (x ∷ []) (y ∷ ys))

feed-settle-take :
    (room : ℕ) (c : Sha256) (x : ℕ) (xs : Bytes)
    → length c.m_buffer + room ≤ 64
    → 0 < room
    → settle c (c.m_buffer ++ take room (x ∷ xs)) ≡ feed c (take room (x ∷ xs))
feed-settle-take zero c x xs h pos = absurd (omega arith)
feed-settle-take (suc r) c x xs h pos =
    sym (feed-settle c x (take r xs) (omega (arith, length-take r xs)))

write_loop-feed :
    (fuel : ℕ) (c : Sha256) (xs : Bytes)
    → length xs ≤ fuel
    → HasRoom c
    → write_loop fuel c xs ≡ feed c xs
unfolding write_loop
write_loop-feed zero c [] h room = unfold feed in refl
write_loop-feed (suc fuel) c [] h room = unfold feed in refl
write_loop-feed zero c (x ∷ xs) h room = absurd (omega arith)
write_loop-feed (suc fuel) c (x ∷ xs) h room =
    write_loop-feed fuel after (drop n (x ∷ xs)) (omega (arith, length-drop n (x ∷ xs))) (
      settle-HasRoom c (c.m_buffer ++ take n (x ∷ xs))
        (omega (arith, length-append c.m_buffer (take n (x ∷ xs)), length-take n (x ∷ xs))))
    ∙ ap (λ (d : Sha256). feed d (drop n (x ∷ xs)))
        (feed-settle-take n c x xs (omega arith) (omega arith))
    ∙ sym (feed-append c (take n (x ∷ xs)) (drop n (x ∷ xs)))
    ∙ ap (feed c) (take-append-drop n (x ∷ xs))
  where
    n : ℕ
    n = 64 - length c.m_buffer

    after : Sha256
    after = settle c (c.m_buffer ++ take n (x ∷ xs))

count : Sha256 → ℕ → Sha256
count c n = record c { m_bytes = n }

write-feed :
    (c : Sha256) (xs : Bytes)
    → HasRoom c
    → write c xs ≡ feed (count c ((c.m_bytes + length xs) % 2 ^ 64)) xs
unfolding write count
write-feed c xs h = write_loop-feed (length xs) _ xs (omega arith) h

push-count : (c : Sha256) (n b : ℕ) → push (count c n) b ≡ count (push c b) n
unfolding push settle count
push-count c n b = ground arith

feed-count : (xs : Bytes) (c : Sha256) (n : ℕ) → feed (count c n) xs ≡ count (feed c xs) n
unfolding feed
feed-count [] c n = refl
feed-count (x ∷ xs) c n =
    ap (λ (d : Sha256). feed d xs) (push-count c n x) ∙ feed-count xs (push c x) n

write-count :
    (c : Sha256) (xs : Bytes)
    → HasRoom c
    → write c xs ≡ count (feed c xs) ((c.m_bytes + length xs) % 2 ^ 64)
write-count c xs h = write-feed c xs h ∙ feed-count xs c _

-- Hashing a message in two pieces is hashing it in one: `Write(a)` and then `Write(b)` leave the
-- state, the waiting bytes and the byte count that `Write` of `a` followed by `b` leaves, for a
-- context whose buffer is not full.
pub write-append :
    (c : Sha256) (xs ys : Bytes) → HasRoom c → write (write c xs) ys ≡ write c (xs ++ ys)
write-append c xs ys h =
    ap (λ (d : Sha256). write d ys) (write-count c xs h)
    ∙ write-count (count (feed c xs) n) ys (unfold count in feed-HasRoom c xs h)
    ∙ (rw (feed-count ys (feed c xs) n, ← feed-append c xs ys) (unfold count in total))
    ∙ sym (write-count c (xs ++ ys) h)
  where
    n : ℕ
    n = (c.m_bytes + length xs) % 2 ^ 64

    d : Sha256
    d = feed c (xs ++ ys)

    total : count d ((n + length ys) % 2 ^ 64) ≡ count d ((c.m_bytes + length (xs ++ ys)) % 2 ^ 64)
    total = ap (count d) (omega (arith, length-append xs ys))

write-HasRoom : (c : Sha256) (xs : Bytes) → HasRoom c → HasRoom (write c xs)
write-HasRoom c xs h = rw (write-feed c xs h) (feed-HasRoom _ xs (unfold count in h))

-- How many single zeros reach 56 bytes from a buffer of `len`.
abbrev gap : ℕ → ℕ
gap len = if ltb 56 len then 120 - len else 56 - len

length-write_one :
    (c : Sha256) (b : ℕ)
    → HasRoom c
    → length (write c (b ∷ [])).m_buffer ≡ (length c.m_buffer + 1) % 64
length-write_one c b h =
    rw (write-feed c (b ∷ []) h)
      (unfold feed push settle count in ground (arith, length-append c.m_buffer (b ∷ [])))

pad_zeros_lem :
    (fuel : ℕ) (c : Sha256)
    → HasRoom c
    → gap (length c.m_buffer) ≤ fuel
    → length (pad_zeros fuel c).m_buffer ≡ 56
unfolding pad_zeros
pad_zeros_lem zero c h g = ground arith
pad_zeros_lem (suc fuel) c h g = ground (
  arith,
  pad_zeros_lem fuel (write c (0 ∷ [])),
  write-HasRoom c (0 ∷ []) h,
  length-write_one c 0 h,
)

write_full :
    (c : Sha256) (x : ℕ) (xs : Bytes)
    → HasRoom c
    → length c.m_buffer + length (x ∷ xs) ≡ 64
    → (write c (x ∷ xs)).m_buffer ≡ []
write_full c x xs room h =
    rw (write-feed c (x ∷ xs) room, feed-settle (count c n) x xs (unfold count in le_of_eq h))
      (unfold settle count in ground (arith, length-append c.m_buffer (x ∷ xs)))
  where
    n : ℕ
    n = (c.m_bytes + length (x ∷ xs)) % 2 ^ 64

-- `Finalize` ends on a full block, whatever was written before: the zeros stop at 56 bytes within
-- 64 rounds, and the eight bytes of the length leave no byte waiting, for a context whose buffer is
-- not full.
pub finish-empty : (c : Sha256) → HasRoom c → (finish c).m_buffer ≡ []
unfolding finish write_be
finish-empty c h =
    write_full (pad_zeros 64 start) _ _ (omega (arith, padded)) (omega (arith, padded))
  where
    start : Sha256
    start = write c (0x80 ∷ [])

    padded : length (pad_zeros 64 start).m_buffer ≡ 56
    padded =
        pad_zeros_lem 64 start (write-HasRoom c (0x80 ∷ []) h)
          (ground (arith, write-HasRoom c (0x80 ∷ []) h))
