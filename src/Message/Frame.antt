-- ===== src/Message/Frame.antt =====
-- A frame that was encoded is read back from the stream.
use mvclight.Base.{
  ℕ, zero, suc, ◌-◌, ◌^◌, ◌≤◌, ◌<◌, ◌≡◌, ◌≢◌, refl, sym, ap, ◌∙◌, true, [], ◌∷◌, ◌++◌, some, arith,
  length, length-append, length-replicate, append_assoc, append-nil, take, drop, replicate,
  take-append_exact, drop-append_exact, All, le→ltb_false, ==_iff,
}
use mvclight.Wire.{Bytes, write_le, read_le32}
use mvclight.Wire.Endian.{length-write_le, read_le32-write_le, read_le32-lt}
use mvclight.Uint256.{eq as text_eq}
use mvclight.Uint256.Order.{eq_self}
use mvclight.Sha256.{sha256d}
use mvclight.Sha256.Digest.{sha256d_shape}
use mvclight.Socket.{LightSocket}
use mvclight.Socket.Receive.{arriving}
use mvclight.Message.{
  LightMessage, command_size, max_payload_size, checksum_of, encode_message, verify_checksum,
  until_zero, finish_read, read_body, read_exact, read_message,
}
use mvclight.Message.Exact.{Reads, read_exact-Reads}

-- A character that is not the end of a C string.
abbrev pub IsChar : ℕ → Type 0
IsChar c = c ≢ 0

until_zero-zeros : (n : ℕ) → until_zero (replicate n 0) ≡ []
unfolding until_zero
until_zero-zeros zero = refl
until_zero-zeros (suc n) = refl

until_zero-append_zeros :
    (cs : Bytes) (n : ℕ) → All IsChar cs → until_zero (cs ++ replicate n 0) ≡ cs
unfolding until_zero
until_zero-append_zeros [] n h = until_zero-zeros n
until_zero-append_zeros (c ∷ cs) n h = ground (arith, until_zero-append_zeros cs n h.1)

-- Two ways to part a list whose first parts are as long.
same_front : (a b x y : Bytes) → length a ≡ length b → a ++ x ≡ b ++ y → (a ≡ b) × (x ≡ y)
same_front a b x y h e = (
  sym (take-append_exact (length a) a x refl)
      ∙ ap (take (length a)) e
      ∙ take-append_exact (length a) b y (sym h),
  sym (drop-append_exact (length a) a x refl)
      ∙ ap (drop (length a)) e
      ∙ drop-append_exact (length a) b y (sym h),
)

checksum-lt : (payload : Bytes) → checksum_of payload < 2 ^ 32
unfolding checksum_of
checksum-lt payload = read_le32-lt (sha256d payload) (sha256d_shape payload).1

module _ (magic : Bytes) (msg : LightMessage) (four : length magic ≡ 4)
    (named : All IsChar msg.command) (short : length msg.command ≤ command_size)
    (small : length msg.payload ≤ max_payload_size) where
  padded : Bytes
  padded = msg.command ++ replicate (command_size - length msg.command) 0

  lengths_part : Bytes
  lengths_part = write_le 4 (length msg.payload) ++ write_le 4 (checksum_of msg.payload)

  pub head : Bytes
  head = take 4 magic ++ (padded ++ lengths_part)

  magic-take : take 4 magic ≡ magic
  magic-take = ap (take 4) (sym (append-nil magic)) ∙ take-append_exact 4 magic [] four

  length-padded : length padded ≡ 12
  unfolding padded
  length-padded = omega (
    arith,
    length-append msg.command (replicate (12 - length msg.command) 0),
    length-replicate {A = ℕ} (12 - length msg.command) 0,
  )

  length-head : length head ≡ 24
  unfolding head lengths_part
  length-head = omega (
    arith,
    length-append (take 4 magic) (padded ++ lengths_part),
    length-append padded lengths_part,
    length-append (write_le 4 (length msg.payload)) (write_le 4 (checksum_of msg.payload)),
    length-write_le 4 (length msg.payload),
    length-write_le 4 (checksum_of msg.payload),
    length-padded,
    ap length magic-take,
  )

  head_magic : text_eq (take 4 head) (take 4 magic) ≡ true
  unfolding head
  head_magic =
      ap (λ (t : Bytes). text_eq t (take 4 magic))
        (take-append_exact 4 (take 4 magic) (padded ++ lengths_part) (ap length magic-take ∙ four))
      ∙ eq_self (take 4 magic)

  after_magic : drop 4 head ≡ padded ++ lengths_part
  unfolding head
  after_magic =
      drop-append_exact 4 (take 4 magic) (padded ++ lengths_part) (ap length magic-take ∙ four)

  head_command : until_zero (take command_size (drop 4 head)) ≡ msg.command
  head_command =
      ap (λ (t : Bytes). until_zero (take 12 t)) after_magic
      ∙ ap until_zero (take-append_exact 12 padded lengths_part length-padded)
      ∙ (unfold padded in
          until_zero-append_zeros msg.command (command_size - length msg.command) named)

  front : Bytes
  front = take 4 magic ++ padded

  length-front : length front ≡ 16
  unfolding front
  length-front =
      omega (arith, length-append (take 4 magic) padded, length-padded, ap length magic-take)

  head-length : read_le32 (drop 16 head) ≡ length msg.payload
  head-length =
      ap (λ (t : Bytes). read_le32 (drop 16 t)) parted
      ∙ ap read_le32 (drop-append_exact 16 front lengths_part length-front)
      ∙ (unfold lengths_part in
          read_le32-write_le (length msg.payload) (write_le 4 (checksum_of msg.payload))
            (omega arith))
    where
      parted : head ≡ front ++ lengths_part
      parted = unfold head front in sym (append_assoc (take 4 magic) padded lengths_part)

  head_checksum : read_le32 (drop 20 head) ≡ checksum_of msg.payload
  head_checksum =
      ap (λ (t : Bytes). read_le32 (drop 20 t)) parted
      ∙ ap read_le32 (
          drop-append_exact 20 (front ++ write_le 4 (length msg.payload))
            (write_le 4 (checksum_of msg.payload) ++ [])
            (omega (
              arith,
              length-append front (write_le 4 (length msg.payload)),
              length-front,
              length-write_le 4 (length msg.payload),
            )))
      ∙ read_le32-write_le (checksum_of msg.payload) [] (checksum-lt msg.payload)
    where
      parted :
          head
          ≡ (front ++ write_le 4 (length msg.payload))
            ++ (write_le 4 (checksum_of msg.payload) ++ [])
      parted = unfold head front lengths_part in simp (append_assoc, append-nil)

  pub encoded : encode_message magic msg ≡ some (head ++ msg.payload)
  unfolding encode_message head padded lengths_part
  encoded =
      rw
        (
          le→ltb_false command_size (length msg.command) short,
          le→ltb_false max_payload_size (length msg.payload) small,
        )
        (ap some (simp append_assoc))

  -- A frame that `EncodeMessage` wrote, on a connection that is open.
  module _ (s : LightSocket) (rest : Bytes) (open_now : s.m_connected ≡ true)
      (coming : arriving s.channel.incoming ≡ head ++ (msg.payload ++ rest)) where
    pub header : Reads s 24 (read_exact s 24)
    header =
        read_exact-Reads s 24 open_now
          (omega (arith, ap length coming, length-append head (msg.payload ++ rest), length-head))

    pub header_is :
        (header.bytes ≡ head) × (arriving header.socket.channel.incoming ≡ msg.payload ++ rest)
    header_is =
        same_front header.bytes head (arriving header.socket.channel.incoming) (msg.payload ++ rest)
          (header.enough ∙ sym length-head) (sym header.took.in_order ∙ coming)

    pub body :
        Reads header.socket (length msg.payload) (read_exact header.socket (length msg.payload))
    body =
        read_exact-Reads header.socket (length msg.payload) header.took.still_connected
          (omega (arith, ap length header_is.1, length-append msg.payload rest))

    pub body_is : (body.bytes ≡ msg.payload) × (arriving body.socket.channel.incoming ≡ rest)
    body_is =
        same_front body.bytes msg.payload (arriving body.socket.channel.incoming) rest body.enough
          (sym body.took.in_order ∙ header_is.1)

    finished :
        finish_read msg.command
          (checksum_of msg.payload)
          (read_exact header.socket (length msg.payload))
        ≡ (body.socket, some msg)
    finished =
        ap (finish_read msg.command (checksum_of msg.payload))
          (body.result ∙ ap (λ (t : Bytes). (body.socket, some t)) body_is.0)
        ∙ (unfold finish_read verify_checksum in
            rw ((==_iff (checksum_of msg.payload) (checksum_of msg.payload)).1 refl) refl)

    pub read_back : read_message magic s ≡ (body.socket, some msg)
    unfolding read_message
    read_back =
        ap (read_body magic)
          (header.result ∙ ap (λ (t : Bytes). (header.socket, some t)) header_is.0)
        ∙ (unfold read_body in
            rw
              (
                head_magic,
                head-length,
                le→ltb_false max_payload_size (length msg.payload) small,
                head_command,
                head_checksum,
              )
              finished)
