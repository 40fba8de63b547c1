-- ===== src/Socket/Receive.antt =====
-- What one `RecvSome` gives of a stream that arrives in chunks of any size.
use mvclight.Base.{
  ℕ, suc, ◌+◌, ◌≤◌, ◌<◌, ◌≡◌, refl, sym, ap, ◌∙◌, true, List, [], ◌∷◌, ◌++◌, arith, length, take,
  drop, length-take, length-drop, append_assoc, Bool-cases, inl, inr, take-append-drop,
}
use mvclight.Wire.{Bytes}
use mvclight.Socket.{
  Received, chunk, peer_closed, timed_out, broken, LightSocket, close, with_incoming, put_back,
  receive, recv_some,
}

-- The bytes that arrive before anything else happens.
unfoldable pub arriving : List Received → Bytes
arriving [] = []
arriving (chunk b bs ∷ events) = b ∷ (bs ++ arriving events)
arriving (peer_closed ∷ events) = []
arriving (timed_out ∷ events) = []
arriving (broken ∷ events) = []

-- All bytes that will ever arrive.
unfoldable pub volume : List Received → ℕ
volume [] = 0
volume (chunk b bs ∷ events) = suc (length bs) + volume events
volume (peer_closed ∷ events) = volume events
volume (timed_out ∷ events) = volume events
volume (broken ∷ events) = volume events

arriving-put_back :
    (bs : Bytes) (events : List Received) → arriving (put_back bs events) ≡ bs ++ arriving events
unfolding arriving put_back
arriving-put_back [] events = refl
arriving-put_back (b ∷ bs) events = refl

volume-put_back :
    (bs : Bytes) (events : List Received) → volume (put_back bs events) ≡ length bs + volume events
unfolding volume put_back
volume-put_back [] events = omega arith
volume-put_back (b ∷ bs) events = refl

-- A call on a connection with a byte to come gives a part of the stream, from its front, and leaves
-- the rest.
pub record Gave (s : LightSocket) (max_len : ℕ) (r : LightSocket × Bytes) : Type 0 where
  pub some_byte : (b : ℕ) × (bs : Bytes) × (r.1 ≡ b ∷ bs)
  pub fits : length r.1 ≤ max_len
  pub in_order : arriving s.channel.incoming ≡ r.1 ++ arriving r.0.channel.incoming
  pub still_connected : r.0.m_connected ≡ true
  pub sent_same : r.0.sent ≡ s.sent

receive-Gave :
    (s : LightSocket) (n b : ℕ) (bs : Bytes) (events : List Received)
    → s.m_connected ≡ true
    → s.channel.incoming ≡ chunk b bs ∷ events
    → Gave s (suc n) (receive s (suc n) (chunk b bs ∷ events))
unfolding receive with_incoming arriving
receive-Gave s n b bs events c e = record {
  some_byte = (b, take n bs, refl);
  fits = omega (arith, length-take n bs);
  in_order = rw e (
      ap (λ (t : Bytes). b ∷ t)
        (ap (λ (t : Bytes). t ++ arriving events) (sym (take-append-drop n bs))
          ∙ append_assoc (take n bs) (drop n bs) (arriving events)
          ∙ ap (λ (t : Bytes). take n bs ++ t) (sym (arriving-put_back (drop n bs) events))));
  still_connected = c;
  sent_same = refl;
}

pub recv_some-Gave :
    (s : LightSocket) (n : ℕ)
    → s.m_connected ≡ true
    → 0 < length (arriving s.channel.incoming)
    → Gave s (suc n) (recv_some s (suc n))
unfolding recv_some arriving
recv_some-Gave s n c h = simp c (by_events s.channel.incoming refl h)
  where
    by_events :
        (events : List Received)
        → s.channel.incoming ≡ events
        → 0 < length (arriving events)
        → Gave s (suc n) (receive s (suc n) events)
    by_events [] e p = absurd (omega arith)
    by_events (chunk b bs ∷ events) e p = receive-Gave s n b bs events c e
    by_events (peer_closed ∷ events) e p = absurd (omega arith)
    by_events (timed_out ∷ events) e p = absurd (omega arith)
    by_events (broken ∷ events) e p = absurd (omega arith)

receive-volume :
    (s : LightSocket) (n : ℕ) (events : List Received)
    → s.channel.incoming ≡ events
    → length (receive s n events).1 + volume (receive s n events).0.channel.incoming ≤ volume events
unfolding receive with_incoming volume close
receive-volume s n [] e = rw e (omega arith)
receive-volume s n (chunk b bs ∷ events) e = omega (
  arith,
  volume-put_back (drop n (b ∷ bs)) events,
  length-take n (b ∷ bs),
  length-drop n (b ∷ bs),
)
receive-volume s n (peer_closed ∷ events) e = omega arith
receive-volume s n (timed_out ∷ events) e = omega arith
receive-volume s n (broken ∷ events) e = omega arith

-- Every call takes what it gives from what will ever arrive.
pub recv_some-volume :
    (s : LightSocket) (n : ℕ)
    → length (recv_some s n).1 + volume (recv_some s n).0.channel.incoming
      ≤ volume s.channel.incoming
unfolding recv_some
recv_some-volume s n = elim (Bool-cases s.m_connected) [
  | inl e ↦ simp e (receive-volume s n s.channel.incoming refl)
  | inr e ↦ simp e (omega arith)
]

receive-fits :
    (s : LightSocket) (n : ℕ) (events : List Received) → length (receive s n events).1 ≤ n
unfolding receive
receive-fits s n [] = omega arith
receive-fits s n (chunk b bs ∷ events) = omega (arith, length-take n (b ∷ bs))
receive-fits s n (peer_closed ∷ events) = omega arith
receive-fits s n (timed_out ∷ events) = omega arith
receive-fits s n (broken ∷ events) = omega arith

pub recv_some-fits : (s : LightSocket) (n : ℕ) → length (recv_some s n).1 ≤ n
unfolding recv_some
recv_some-fits s n = elim (Bool-cases s.m_connected) [
  | inl e ↦ simp e (receive-fits s n s.channel.incoming)
  | inr e ↦ simp e (omega arith)
]
