-- ===== src/Message/Failure.antt =====
-- What a read takes of the stream, and what a failure leaves.
use mvclight.Base.{
  ℕ, zero, suc, ◌+◌, ◌-◌, ◌≤◌, ◌≡◌, refl, false, [], ◌∷◌, Option, none, some, arith, length,
  length-append, ltb, Bool-cases, ltb_false→le, inl, inr, take, drop,
}
use mvclight.Wire.{Bytes, read_le32}
use mvclight.Uint256.{eq as text_eq}
use mvclight.Socket.{LightSocket, close, recv_some}
use mvclight.Socket.Receive.{volume, recv_some-volume, recv_some-fits}
use mvclight.Message.{
  LightMessage, more, go_on, read_loop, read_exact, verify_checksum, finish_read, read_body,
  read_message, max_payload_size, until_zero, command_size,
}

abbrev pub left : LightSocket → ℕ
left s = volume s.channel.incoming

-- A read takes at most what will ever arrive, and exactly its length if it succeeds.
abbrev pub Fits : ℕ → ℕ → LightSocket × Option Bytes → Type 0
Fits before len (s, none) = left s ≤ before
Fits before len (s, some bytes) = (length bytes ≡ len) × (len + left s ≤ before)

more-Fits :
    (before len : ℕ) (got : Bytes) (r : LightSocket × Option Bytes)
    → Fits before len r
    → Fits (length got + before) (length got + len) (more got r)
unfolding more
more-Fits before len got (s, none) h = omega arith
more-Fits before len got (s, some bytes) h =
    (omega (arith, length-append got bytes, h.0), omega (arith, h.1))

Fits-mono :
    (before after len size : ℕ) (r : LightSocket × Option Bytes)
    → before ≤ after
    → len ≡ size
    → Fits before len r
    → Fits after size r
Fits-mono before after len size (s, none) h e f = omega arith
Fits-mono before after len size (s, some bytes) h e f = (omega (arith, f.0), omega (arith, f.1))

go_on-Fits :
    (before len : ℕ) (r : LightSocket × Bytes) (next : LightSocket → ℕ → LightSocket × Option Bytes)
    → length r.1 ≤ suc len
    → length r.1 + left r.0 ≤ before
    → ((s : LightSocket) (got : ℕ) → Fits (left s) (len - got) (next s got))
    → Fits before (suc len) (go_on r next)
unfolding go_on
go_on-Fits before len (s, []) next f h k = omega arith
go_on-Fits before len (s, b ∷ bs) next f h k =
    Fits-mono (length (b ∷ bs) + left s) before (length (b ∷ bs) + (len - length bs)) (suc len)
      (more (b ∷ bs) (next s (length bs))) h (omega arith)
      (more-Fits (left s) (len - length bs) (b ∷ bs) (next s (length bs)) (k s (length bs)))

read_loop-Fits : (n len : ℕ) (s : LightSocket) → len ≤ n → Fits (left s) len (read_loop n s len)
unfolding read_loop
read_loop-Fits n zero s h = (refl, omega arith)
read_loop-Fits zero (suc len) s h = absurd (omega arith)
read_loop-Fits (suc n) (suc len) s h =
    go_on-Fits (left s) len (recv_some s (suc len)) (λ s' got. read_loop n s' (len - got))
      (recv_some-fits s (suc len)) (recv_some-volume s (suc len))
      (λ s' got. read_loop-Fits n (len - got) s' (omega arith))

pub read_exact-Fits : (s : LightSocket) (len : ℕ) → Fits (left s) len (read_exact s len)
unfolding read_exact
read_exact-Fits s len = read_loop-Fits len len s (omega arith)

-- A failure leaves the socket closed and takes no more than will ever arrive; a message has taken
-- its header and its payload, which fits the limit.
abbrev pub Outcome : ℕ → LightSocket × Option LightMessage → Type 0
Outcome before (s, none) = (s.m_connected ≡ false) × (left s ≤ before)
Outcome before (s, some msg) =
    (24 + length msg.payload + left s ≤ before) × (length msg.payload ≤ max_payload_size)

finish_read-Outcome :
    (before len checksum : ℕ) (command : Bytes) (r : LightSocket × Option Bytes)
    → len ≤ max_payload_size
    → Fits before len r
    → Outcome (24 + before) (finish_read command checksum r)
unfolding finish_read close
finish_read-Outcome before len checksum command (s, none) k h = (refl, omega arith)
finish_read-Outcome before len checksum command (s, some payload) k h =
    elim (Bool-cases (verify_checksum payload checksum)) [
      | inl e ↦ rw e (omega (arith, h.0, h.1), omega (arith, h.0))
      | inr e ↦ rw e (refl, omega (arith, h.1))
    ]

Outcome-mono :
    (before after : ℕ) (r : LightSocket × Option LightMessage)
    → before ≤ after
    → Outcome before r
    → Outcome after r
Outcome-mono before after (s, none) h o = (o.0, omega (arith, o.1))
Outcome-mono before after (s, some msg) h o = (omega (arith, o.0), o.1)

read_body-Outcome :
    (before : ℕ) (magic : Bytes) (r : LightSocket × Option Bytes)
    → Fits before 24 r
    → Outcome before (read_body magic r)
unfolding read_body close
read_body-Outcome before magic (s, none) h = (refl, omega arith)
read_body-Outcome before magic (s, some header) h =
    elim (Bool-cases (text_eq (take 4 header) (take 4 magic))) [
      | inl e ↦ elim (Bool-cases (ltb max_payload_size (read_le32 (drop 16 header)))) [
        | inl k ↦ rw (e, k) (refl, omega (arith, h.1))
        | inr k ↦
            rw (e, k)
              (Outcome-mono (24 + left s) before
                (finish_read (until_zero (take command_size (drop 4 header)))
                  (read_le32 (drop 20 header)) (read_exact s (read_le32 (drop 16 header))))
                h.1
                (finish_read-Outcome (left s) (read_le32 (drop 16 header))
                  (read_le32 (drop 20 header)) (until_zero (take command_size (drop 4 header)))
                  (read_exact s (read_le32 (drop 16 header)))
                  (ltb_false→le max_payload_size (read_le32 (drop 16 header)) k)
                  (read_exact-Fits s (read_le32 (drop 16 header)))))
      ]
      | inr e ↦ rw e (refl, omega (arith, h.1))
    ]

-- Whatever the peer sends, a `ReadMessage` that fails leaves the socket closed, and one that yields a
-- message has taken 24 bytes and the payload, of at most 32 MiB, from what will ever arrive.
pub read_message-Outcome :
    (magic : Bytes) (s : LightSocket) → Outcome (left s) (read_message magic s)
unfolding read_message
read_message-Outcome magic s =
    read_body-Outcome (left s) magic (read_exact s 24) (read_exact-Fits s 24)
