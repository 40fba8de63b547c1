-- ===== src/Message/RoundTrip.antt =====
-- What `EncodeMessage` writes is what `ReadMessage` reads.
use mvclight.Base.{
  ◌≤◌, ◌≡◌, sym, ap, ◌∙◌, true, ◌++◌, Option, some, arith, length, All, append_assoc,
}
use mvclight.Wire.{Bytes}
use mvclight.Socket.{LightSocket}
use mvclight.Socket.Receive.{arriving}
use mvclight.Message.{LightMessage, command_size, max_payload_size, encode_message, read_message}
use mvclight.Message.Frame.{IsChar, head, encoded, header, body, body_is, read_back}

encode_message-fits :
    (magic : Bytes) (msg : LightMessage) (bytes : Bytes)
    → encode_message magic msg ≡ some bytes
    → (length msg.command ≤ command_size) × (length msg.payload ≤ max_payload_size)
unfolding encode_message
encode_message-fits magic msg bytes e = ground arith

of_some : (a b : Bytes) → ◌≡◌ {A = Option Bytes} (some a) (some b) → a ≡ b
of_some a b e = cc

-- What a message was read from a stream, and where the connection stands afterwards.
pub record ReadBack (magic : Bytes) (msg : LightMessage) (rest : Bytes) (s : LightSocket)
    : Type 0 where
  pub socket : LightSocket
  pub result : read_message magic s ≡ (socket, some msg)
  pub behind : arriving socket.channel.incoming ≡ rest
  pub still_connected : socket.m_connected ≡ true
  pub sent_same : socket.sent ≡ s.sent

-- On an open connection `ReadMessage` reads back every message that `EncodeMessage` wrote, in
-- whatever chunks its bytes arrive, leaves the connection open, and stands on the bytes that follow
-- the frame. The magic has four bytes, and the command no zero.
pub read_message-encode_message :
    (magic : Bytes) (msg : LightMessage) (bytes rest : Bytes) (s : LightSocket)
    → length magic ≡ 4
    → All IsChar msg.command
    → s.m_connected ≡ true
    → encode_message magic msg ≡ some bytes
    → arriving s.channel.incoming ≡ bytes ++ rest
    → ReadBack magic msg rest s
read_message-encode_message magic msg bytes rest s four named c e coming =
    let fits = encode_message-fits magic msg bytes e in
    let h = head magic msg four named fits.0 fits.1 in
    let same : bytes ≡ h ++ msg.payload =
      of_some bytes (h ++ msg.payload) (sym e ∙ encoded magic msg four named fits.0 fits.1) in
    let split : arriving s.channel.incoming ≡ h ++ (msg.payload ++ rest) =
      coming ∙ ap (λ (t : Bytes). t ++ rest) same ∙ append_assoc h msg.payload rest in
    record {
      socket = (body magic msg four named fits.0 fits.1 s rest c split).socket;
      result = read_back magic msg four named fits.0 fits.1 s rest c split;
      behind = (body_is magic msg four named fits.0 fits.1 s rest c split).1;
      still_connected =
          (body magic msg four named fits.0 fits.1 s rest c split).took.still_connected;
      sent_same =
          (body magic msg four named fits.0 fits.1 s rest c split).took.sent_same
          ∙ (header magic msg four named fits.0 fits.1 s rest c split).took.sent_same;
    }
