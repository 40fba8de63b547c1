-- ===== src/Socket.antt =====
-- light_socket.cpp: a TCP connection with blocking calls. What the operating system answers is a list
-- of events in the order of the calls: `Received` for recv, `Accepted` for send, `Dial` for the name
-- lookup with the attempts that follow it, which depends on the address that is asked for. The bytes that send took are kept in `sent`. The handle is
-- the flag `has_handle`, which says whether one is open.
pub mod Receive
pub mod Send
pub mod Connect
use mvclight.Base.{
  ℕ, zero, suc, ◌-◌, ◌%◌, ◌^◌, ltb, Bool, true, false, List, [], ◌∷◌, ◌++◌, Option, none, some,
  if◌then◌else◌, length, take, drop,
}
use mvclight.Wire.{Bytes}

-- recv gives at least one byte, the first of which stands apart; or the peer has closed (0), the
-- timeout has passed (EAGAIN), or the connection is broken.
pub data Received : Type 0 where
  chunk : ℕ → Bytes → Received
  peer_closed : Received
  timed_out : Received
  broken : Received

-- send takes at least one byte of those that it is given, if there is one; or it fails.
pub data Accepted : Type 0 where
  took : ℕ → Accepted
  refused : Accepted

-- What the system does on one connection. With no event left recv waits until its timeout, and send
-- takes everything.
pub record Channel : Type 0 where
  pub incoming : List Received
  pub accepts : List Accepted

-- One address of the lookup: no socket, no connection within the timeout, or a connection.
pub data Attempt : Type 0 where
  no_socket : Attempt
  no_connection : Attempt
  opened : Channel → Attempt

pub data Dial : Type 0 where
  unresolved : Dial
  resolved : List Attempt → Dial

pub record LightSocket : Type 0 where
  pub m_connected : Bool
  pub has_handle : Bool
  pub channel : Channel
  pub sent : Bytes
  pub dials : List (Bytes → ℕ → Dial)

abbrev pub silent : Channel
silent = record { incoming = []; accepts = [] }

-- The constructor, in a system that will answer `dials` to the calls of Connect.
unfoldable pub new : List (Bytes → ℕ → Dial) → LightSocket
new dials = record {
  m_connected = false;
  has_handle = false;
  channel = silent;
  sent = [];
  dials = dials;
}

unfoldable pub close : LightSocket → LightSocket
close s = record s { m_connected = false; has_handle = false }

-- The loop over the addresses: the first that answers.
unfoldable pub first_open : List Attempt → Option Channel
first_open [] = none
first_open (no_socket ∷ rest) = first_open rest
first_open (no_connection ∷ rest) = first_open rest
first_open (opened c ∷ rest) = some c

open_channel : LightSocket → Option Channel → LightSocket × Bool
open_channel s none = (s, false)
open_channel s (some c) =
    (record s { m_connected = true; has_handle = true; channel = c; sent = [] }, true)

dial : LightSocket → Dial → LightSocket × Bool
unfolding first_open open_channel
dial s unresolved = (s, false)
dial s (resolved attempts) = open_channel s (first_open attempts)

-- The next answer of the system, to the address that is asked for.
dial_next : LightSocket → List (Bytes → ℕ → Dial) → Bytes → ℕ → LightSocket × Bool
unfolding dial
dial_next s [] host port = (s, false)
dial_next s (answer ∷ ds) host port = dial (record s { dials = ds }) (answer host port)

unfoldable pub connect : LightSocket → Bytes → ℕ → LightSocket × Bool
unfolding dial_next close
connect s host port = dial_next (close s) s.dials host port

-- `Attach` of a handle that some other code has opened.
unfoldable pub attach : LightSocket → Option Channel → LightSocket × Bool
unfolding open_channel close
attach s none = (s, false)
attach s (some c) = open_channel (close s) (some c)

unfoldable pub with_incoming : LightSocket → List Received → LightSocket
with_incoming s events = record s { channel = record s.channel { incoming = events } }

-- The rest of a chunk that did not fit the buffer waits for the next call.
unfoldable pub put_back : Bytes → List Received → List Received
put_back [] events = events
put_back (b ∷ bs) events = chunk b bs ∷ events

-- What one recv does to the socket, with the bytes that it gives.
unfoldable pub receive : LightSocket → ℕ → List Received → LightSocket × Bytes
unfolding with_incoming put_back close
receive s max_len [] = (s, [])
receive s max_len (chunk b bs ∷ events) =
    (with_incoming s (put_back (drop max_len (b ∷ bs)) events), take max_len (b ∷ bs))
receive s max_len (peer_closed ∷ events) = (close (with_incoming s events), [])
receive s max_len (timed_out ∷ events) = (with_incoming s events, [])
receive s max_len (broken ∷ events) = (close (with_incoming s events), [])

unfoldable pub recv_some : LightSocket → ℕ → LightSocket × Bytes
unfolding receive
recv_some s max_len = if s.m_connected then receive s max_len s.channel.incoming else (s, [])

-- `static_cast<int>(len - sent)`, the bytes that send is given. A count below 0 reaches send as a
-- size_t that is larger than all that is left.
unfoldable pub send_count : ℕ → ℕ
send_count left = let count = left % 2 ^ 32 in if ltb count (2 ^ 31) then count else left

unfoldable pub min_count : ℕ → ℕ → ℕ
min_count n m = if ltb n m then n else m

-- The system took the first `taken` bytes.
unfoldable pub sent_off : LightSocket → Channel → Bytes → ℕ → LightSocket × Option Bytes
sent_off s channel bytes taken =
    (record s { sent = s.sent ++ take taken bytes; channel = channel }, some (drop taken bytes))

-- One call of send: the socket, and what is left to send.
unfoldable pub send_some : LightSocket → Bytes → List Accepted → LightSocket × Option Bytes
unfolding close sent_off
send_some s bytes [] = sent_off s s.channel bytes (send_count (length bytes))
send_some s bytes (took n ∷ rest) =
    sent_off s (record s.channel { accepts = rest }) bytes
      (min_count (suc n) (send_count (length bytes)))
send_some s bytes (refused ∷ rest) =
    (close (record s { channel = record s.channel { accepts = rest } }), none)

unfoldable pub keep_sending :
    LightSocket × Option Bytes → (LightSocket → Bytes → LightSocket × Bool) → LightSocket × Bool
keep_sending (s, none) next = (s, false)
keep_sending (s, some rest) next = next s rest

-- The loop of `SendAll`. Below 2 ^ 31 bytes every turn sends a byte, so the number of bytes is enough
-- fuel. With a multiple of 2 ^ 32 bytes left the source loops for ever, and here the fuel runs out.
unfoldable pub send_loop : ℕ → LightSocket → Bytes → LightSocket × Bool
unfolding send_some keep_sending
send_loop n s [] = (s, true)
send_loop zero s (b ∷ bs) = (s, false)
send_loop (suc n) s (b ∷ bs) =
    keep_sending (send_some s (b ∷ bs) s.channel.accepts) (λ s' rest. send_loop n s' rest)

unfoldable pub send_all : LightSocket → Bytes → LightSocket × Bool
unfolding send_loop
send_all s bytes = if s.m_connected then send_loop (length bytes) s bytes else (s, false)
