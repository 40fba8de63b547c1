-- ===== src/Message/Exact.antt =====
-- `ReadExact` over a stream that arrives in chunks of any size.
use mvclight.Base.{
  ℕ, zero, suc, ◌-◌, ◌≤◌, ◌≡◌, refl, sym, ap, ◌∙◌, true, [], ◌∷◌, ◌++◌, Option, some, arith, length,
  length-append, append_assoc,
}
use mvclight.Wire.{Bytes}
use mvclight.Socket.{LightSocket, recv_some}
use mvclight.Socket.Receive.{arriving, recv_some-Gave}
use mvclight.Message.{more, go_on, read_loop, read_exact}

-- The bytes are the next ones of the stream, and the connection stands on what follows them.
pub record Took (s : LightSocket) (bytes : Bytes) (s' : LightSocket) : Type 0 where
  pub in_order : arriving s.channel.incoming ≡ bytes ++ arriving s'.channel.incoming
  pub still_connected : s'.m_connected ≡ true
  pub sent_same : s'.sent ≡ s.sent

more-some :
    (got : Bytes) (r : LightSocket × Option Bytes) (s : LightSocket) (bytes : Bytes)
    → r ≡ (s, some bytes)
    → more got r ≡ (s, some (got ++ bytes))
unfolding more
more-some got r s bytes e = rw e refl

-- What a read of `len` bytes yields.
pub record Reads (s : LightSocket) (len : ℕ) (r : LightSocket × Option Bytes) : Type 0 where
  pub socket : LightSocket
  pub bytes : Bytes
  pub result : r ≡ (socket, some bytes)
  pub enough : length bytes ≡ len
  pub took : Took s bytes socket

read_loop-Reads :
    (n len : ℕ) (s : LightSocket)
    → len ≤ n
    → s.m_connected ≡ true
    → len ≤ length (arriving s.channel.incoming)
    → Reads s len (read_loop n s len)
read_loop-Reads n zero s h c a = record {
  socket = s;
  bytes = [];
  result = unfold read_loop in refl;
  enough = refl;
  took = record { in_order = refl; still_connected = c; sent_same = refl };
}
read_loop-Reads zero (suc len) s h c a = absurd (omega arith)
read_loop-Reads (suc n) (suc len) s h c a =
    let g = recv_some-Gave s len c (omega arith) in
    let b = g.some_byte.0 in
    let bs = g.some_byte.1 in
    let s' = (recv_some s (suc len)).0 in
    let e : recv_some s (suc len) ≡ (s', b ∷ bs) = ap (λ (t : Bytes). (s', t)) g.some_byte.2 in
    let split = g.in_order ∙ ap (λ (t : Bytes). t ++ arriving s'.channel.incoming) g.some_byte.2 in
    let count = ap length split ∙ length-append (b ∷ bs) (arriving s'.channel.incoming) in
    let fits = ap length g.some_byte.2 in
    let ih =
      read_loop-Reads n (len - length bs) s' (omega arith) g.still_connected
        (omega (arith, count)) in
    record {
      socket = ih.socket;
      bytes = b ∷ (bs ++ ih.bytes);
      result = turn s' b bs ih.socket ih.bytes e ih.result;
      enough = omega (arith, length-append bs ih.bytes, ih.enough, fits, g.fits);
      took = record {
        in_order =
            split
            ∙ ap (λ (t : Bytes). (b ∷ bs) ++ t) ih.took.in_order
            ∙ sym (append_assoc (b ∷ bs) ih.bytes (arriving ih.socket.channel.incoming));
        still_connected = ih.took.still_connected;
        sent_same = ih.took.sent_same ∙ g.sent_same;
      };
    }
  where
    turn :
        (s' : LightSocket) (b : ℕ) (bs : Bytes) (t : LightSocket) (bytes : Bytes)
        → recv_some s (suc len) ≡ (s', b ∷ bs)
        → read_loop n s' (len - length bs) ≡ (t, some bytes)
        → read_loop (suc n) s (suc len) ≡ (t, some (b ∷ (bs ++ bytes)))
    turn s' b bs t bytes e r =
        unfold read_loop in
        (ap (λ (u : LightSocket × Bytes). go_on u (λ v got. read_loop n v (len - got))) e
          ∙ (unfold go_on in more-some (b ∷ bs) (read_loop n s' (len - length bs)) t bytes r))

-- A read of as many bytes as arrive, or fewer, on a connection that is open yields the next bytes of
-- the stream, whatever the chunks in which they arrive.
pub read_exact-Reads :
    (s : LightSocket) (len : ℕ)
    → s.m_connected ≡ true
    → len ≤ length (arriving s.channel.incoming)
    → Reads s len (read_exact s len)
unfolding read_exact
read_exact-Reads s len c a = read_loop-Reads len len s (omega arith) c a
