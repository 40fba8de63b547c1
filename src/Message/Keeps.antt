-- ===== src/Message/Keeps.antt =====
-- A read sends nothing, and leaves the connection open if it succeeds.
use mvclight.Base.{
  ℕ, zero, suc, ◌-◌, ◌≡◌, refl, sym, subst, ◌∙◌, Bool, true, List, [], ◌∷◌, Option, none, some,
  length, ltb, if◌then◌else◌, Bool-cases, inl, inr, take, drop,
}
use mvclight.Wire.{Bytes, read_le32}
use mvclight.Uint256.{eq as text_eq}
use mvclight.Socket.{
  Received, chunk, peer_closed, timed_out, broken, LightSocket, close, with_incoming, receive,
  recv_some,
}
use mvclight.Message.{
  more, go_on, read_loop, read_exact, verify_checksum, finish_read, read_body, read_message,
  max_payload_size, until_zero, command_size,
}

-- The bytes sent so far are the given ones, and a result comes with an open connection.
abbrev pub Keeps {ℓ} : {A : Type ℓ} → Bytes → LightSocket × Option A → Type 0
Keeps sent (s, none) = s.sent ≡ sent
Keeps sent (s, some a) = (s.sent ≡ sent) × (s.m_connected ≡ true)

abbrev pub Gives : Bytes → LightSocket × Bytes → Type 0
Gives sent (s, []) = s.sent ≡ sent
Gives sent (s, b ∷ bs) = (s.sent ≡ sent) × (s.m_connected ≡ true)

receive-Gives :
    (s : LightSocket) (n : ℕ) (events : List Received)
    → s.m_connected ≡ true
    → Gives s.sent (receive s (suc n) events)
unfolding receive with_incoming close
receive-Gives s n [] c = refl
receive-Gives s n (chunk b bs ∷ events) c = (refl, c)
receive-Gives s n (peer_closed ∷ events) c = refl
receive-Gives s n (timed_out ∷ events) c = refl
receive-Gives s n (broken ∷ events) c = refl

recv_some-Gives : (s : LightSocket) (n : ℕ) → Gives s.sent (recv_some s (suc n))
unfolding recv_some
recv_some-Gives s n = elim (Bool-cases s.m_connected) [
  | inl e ↦
      subst
        (λ (b : Bool). Gives s.sent (if b then receive s (suc n) s.channel.incoming else (s, [])))
        (sym e) (receive-Gives s n s.channel.incoming e)
  | inr e ↦
      subst
        (λ (b : Bool). Gives s.sent (if b then receive s (suc n) s.channel.incoming else (s, [])))
        (sym e) refl
]

pub Keeps-sent {ℓ} :
    {A : Type ℓ} (a b : Bytes) (r : LightSocket × Option A) → a ≡ b → Keeps a r → Keeps b r
Keeps-sent a b (s, none) e k = k ∙ e
Keeps-sent a b (s, some x) e k = (k.0 ∙ e, k.1)

more-Keeps :
    (sent got : Bytes) (r : LightSocket × Option Bytes) → Keeps sent r → Keeps sent (more got r)
unfolding more
more-Keeps sent got (s, none) k = k
more-Keeps sent got (s, some bytes) k = k

go_on-Keeps :
    (sent : Bytes) (r : LightSocket × Bytes) (next : LightSocket → ℕ → LightSocket × Option Bytes)
    → Gives sent r
    → ((s : LightSocket) (got : ℕ) → s.m_connected ≡ true → Keeps s.sent (next s got))
    → Keeps sent (go_on r next)
unfolding go_on
go_on-Keeps sent (s, []) next g k = g
go_on-Keeps sent (s, b ∷ bs) next g k =
    more-Keeps sent (b ∷ bs) (next s (length bs))
      (Keeps-sent s.sent sent (next s (length bs)) g.0 (k s (length bs) g.1))

read_loop-Keeps :
    (n len : ℕ) (s : LightSocket) → s.m_connected ≡ true → Keeps s.sent (read_loop n s len)
unfolding read_loop
read_loop-Keeps n zero s c = (refl, c)
read_loop-Keeps zero (suc len) s c = refl
read_loop-Keeps (suc n) (suc len) s c =
    go_on-Keeps s.sent (recv_some s (suc len)) (λ s' got. read_loop n s' (len - got))
      (recv_some-Gives s len) (λ s' got d. read_loop-Keeps n (len - got) s' d)

read_exact-Keeps :
    (s : LightSocket) (len : ℕ) → s.m_connected ≡ true → Keeps s.sent (read_exact s len)
unfolding read_exact
read_exact-Keeps s len c = read_loop-Keeps len len s c

finish_read-Keeps :
    (sent command : Bytes) (checksum : ℕ) (r : LightSocket × Option Bytes)
    → Keeps sent r
    → Keeps sent (finish_read command checksum r)
unfolding finish_read close
finish_read-Keeps sent command checksum (s, none) k = k
finish_read-Keeps sent command checksum (s, some payload) k =
    elim (Bool-cases (verify_checksum payload checksum)) [ inl e ↦ rw e k | inr e ↦ rw e k.0 ]

read_body-Keeps :
    (sent magic : Bytes) (r : LightSocket × Option Bytes)
    → Keeps sent r
    → Keeps sent (read_body magic r)
unfolding read_body close
read_body-Keeps sent magic (s, none) k = k
read_body-Keeps sent magic (s, some header) k =
    elim (Bool-cases (text_eq (take 4 header) (take 4 magic))) [
      | inl e ↦ elim (Bool-cases (ltb max_payload_size (read_le32 (drop 16 header)))) [
        | inl j ↦ rw (e, j) k.0
        | inr j ↦
            rw (e, j)
              (finish_read-Keeps sent (until_zero (take command_size (drop 4 header)))
                (read_le32 (drop 20 header)) (read_exact s (read_le32 (drop 16 header)))
                (Keeps-sent s.sent sent (read_exact s (read_le32 (drop 16 header))) k.0
                  (read_exact-Keeps s (read_le32 (drop 16 header)) k.1)))
      ]
      | inr e ↦ rw e k.0
    ]

pub read_message-Keeps :
    (magic : Bytes) (s : LightSocket) → s.m_connected ≡ true → Keeps s.sent (read_message magic s)
unfolding read_message
read_message-Keeps magic s c =
    read_body-Keeps s.sent magic (read_exact s 24) (read_exact-Keeps s 24 c)
