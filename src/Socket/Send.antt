-- ===== src/Socket/Send.antt =====
-- What `SendAll` hands to the operating system.
use mvclight.Base.{
  ℕ, zero, suc, ◌-◌, ◌^◌, ◌<◌, ◌≤◌, ◌≡◌, refl, sym, ap, subst, ◌∙◌, Bool, true, false, List, [],
  ◌∷◌, ◌++◌, arith, length, length-drop, append_assoc, append-nil, take, drop, take-append-drop,
}
use mvclight.Wire.{Bytes}
use mvclight.Socket.{
  Channel, send_count, min_count, sent_off, Accepted, took, refused, LightSocket, close, send_some,
  keep_sending, send_loop, send_all,
}

-- True: all bytes were taken, each once and in order, and the connection stands. False: the
-- connection is closed, and what was taken is a front part of the bytes.
abbrev pub Delivered : Bytes → Bytes → LightSocket × Bool → Type 0
Delivered before bytes (s, true) = (s.sent ≡ before ++ bytes) × (s.m_connected ≡ true)
Delivered before bytes (s, false) =
    (s.m_connected ≡ false)
    × ((front : Bytes) × (rest : Bytes) × (bytes ≡ front ++ rest) × (s.sent ≡ before ++ front))

Delivered-more :
    (before front bytes : Bytes) (r : LightSocket × Bool)
    → Delivered (before ++ front) bytes r
    → Delivered before (front ++ bytes) r
Delivered-more before front bytes (s, true) d = (d.0 ∙ append_assoc before front bytes, d.1)
Delivered-more before front bytes (s, false) d = (
  d.0,
  (
    front ++ d.1.0,
    d.1.1,
    ap (λ (t : Bytes). front ++ t) d.1.2 ∙ sym (append_assoc front d.1.0 d.1.1),
    d.1.3 ∙ append_assoc before front d.1.0,
  ),
)

send_count_lem : (left : ℕ) → left < 2 ^ 31 → send_count left ≡ left
unfolding send_count
send_count_lem left h = ground arith

min_count-suc : (n m : ℕ) → min_count (suc n) (suc m) ≡ suc (min_count n m)
unfolding min_count
min_count-suc n m = ground arith

-- A send of `k` bytes behind the first.
sent_off-Delivered :
    (n k b : ℕ) (bs : Bytes) (s : LightSocket) (channel : Channel) (taken : ℕ)
    (next : LightSocket → Bytes → LightSocket × Bool)
    → taken ≡ suc k
    → length bs ≤ n
    → length bs < 2 ^ 31 - 1
    → s.m_connected ≡ true
    → ((t : LightSocket) (rest : Bytes)
        → length rest ≤ n
        → length rest < 2 ^ 31
        → t.m_connected ≡ true
        → Delivered t.sent rest (next t rest))
    → Delivered s.sent (b ∷ bs) (keep_sending (sent_off s channel (b ∷ bs) taken) next)
unfolding sent_off keep_sending
sent_off-Delivered n k b bs s channel taken next e h f c go =
    subst (λ (m : ℕ). Delivered s.sent (b ∷ bs) (keep_sending (sent_off s channel (b ∷ bs) m) next))
      (sym e) whole
  where
    after : LightSocket
    after = record s { sent = s.sent ++ b ∷ take k bs; channel = channel }

    whole : Delivered s.sent (b ∷ bs) (keep_sending (sent_off s channel (b ∷ bs) (suc k)) next)
    whole = rw (take-append-drop k bs) at (
        Delivered-more s.sent (b ∷ take k bs) (drop k bs) (next after (drop k bs)) (
          go after (drop k bs) (omega (arith, length-drop k bs)) (omega (arith, length-drop k bs))
            c))

keep_sending-Delivered :
    (n b : ℕ) (bs : Bytes) (s : LightSocket) (events : List Accepted)
    (next : LightSocket → Bytes → LightSocket × Bool)
    → length bs ≤ n
    → length bs < 2 ^ 31 - 1
    → s.m_connected ≡ true
    → ((t : LightSocket) (rest : Bytes)
        → length rest ≤ n
        → length rest < 2 ^ 31
        → t.m_connected ≡ true
        → Delivered t.sent rest (next t rest))
    → Delivered s.sent (b ∷ bs) (keep_sending (send_some s (b ∷ bs) events) next)
unfolding send_some close keep_sending
keep_sending-Delivered n b bs s [] next h f c k =
    sent_off-Delivered n (length bs) b bs s s.channel (send_count (suc (length bs))) next
      (send_count_lem (suc (length bs)) (omega arith)) h f c k
keep_sending-Delivered n b bs s (took m ∷ events) next h f c k =
    sent_off-Delivered n (min_count m (length bs)) b bs s (record s.channel { accepts = events })
      (min_count (suc m) (send_count (suc (length bs)))) next
      (rw (send_count_lem (suc (length bs)) (omega arith)) (min_count-suc m (length bs))) h f c k
keep_sending-Delivered n b bs s (refused ∷ events) next h f c k =
    (refl, ([], b ∷ bs, refl, sym (append-nil s.sent)))

send_loop-Delivered :
    (n : ℕ) (s : LightSocket) (bytes : Bytes)
    → length bytes ≤ n
    → length bytes < 2 ^ 31
    → s.m_connected ≡ true
    → Delivered s.sent bytes (send_loop n s bytes)
unfolding send_loop
send_loop-Delivered n s [] h f c = (sym (append-nil s.sent), c)
send_loop-Delivered zero s (b ∷ bs) h f c = absurd (omega arith)
send_loop-Delivered (suc n) s (b ∷ bs) h f c =
    keep_sending-Delivered n b bs s s.channel.accepts (λ t rest. send_loop n t rest) (omega arith)
      (omega arith) c (λ t rest k g d. send_loop-Delivered n t rest k g d)

-- On an open connection `SendAll` of fewer than 2^31 bytes ends, however few of them the system takes
-- at a time: with true, all bytes were taken, each once and in order, and the connection stands; with
-- false, the connection is closed and what was taken is a front part of the bytes.
pub send_all-Delivered :
    (s : LightSocket) (bytes : Bytes)
    → s.m_connected ≡ true
    → length bytes < 2 ^ 31
    → Delivered s.sent bytes (send_all s bytes)
unfolding send_all
send_all-Delivered s bytes c f =
    simp c (send_loop-Delivered (length bytes) s bytes (omega arith) f c)
