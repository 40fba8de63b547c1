-- ===== src/Peer/Handshake.antt =====
-- How `ConnectAndHandshake` ends.
use mvclight.Base.{
  ℕ, ◌≡◌, refl, ap, sym, subst, ◌∙◌, ◌<◌, ◌^◌, length, arith, bit_and, ◌==◌, Bool, true, false, [],
  ◌++◌, Option, none, some, codes, Bool-cases, inl, inr, ◌+◌, ◌-◌, ◌≤◌, take, replicate,
  length-append, length-replicate, ltb,
}
use mvclight.Wire.{Bytes}
use mvclight.Socket
use mvclight.Socket.{LightSocket, close, send_all}
use mvclight.Socket.Connect.{Dialled, connect-Dialled}
use mvclight.Socket.Send.{Delivered, send_all-Delivered}
use mvclight.Wire.{write_le}
use mvclight.Wire.Endian.{length-write_le}
use mvclight.Message.{mainnet_magic, encode_message, command_size, max_payload_size, checksum_of}
use mvclight.Message.Keeps.{Keeps, Keeps-sent}
use mvclight.State.{handshake, filter_sent, disconnected, is_valid_transition, same}
use mvclight.Peer.{
  LightPeer, build_version_payload, service_node_bloom, set_state, disconnect, send_encoded,
  send_frame, wait_version, wait_verack, turns, got_verack, verack_sent, got_version, version_sent,
  do_handshake, give_up, shaken, dialled, connect_and_handshake,
}
use mvclight.Peer.Waiting.{Stands, Stands-sent, wait_version-Keeps, wait_verack-Stands}

abbrev pub frame_of : Bytes → Bytes → Option Bytes
frame_of command payload =
    encode_message mainnet_magic (record { command = command; payload = payload })

-- The socket `opened` behind the VERSION that is sent on it.
abbrev pub asked : LightSocket → ℕ → ℕ → LightSocket
asked opened nonce time = (send_frame opened (codes "version") (build_version_payload nonce time)).0

-- What the peer behind this socket says next: a VERSION whose services have the bloom bit.
pub record Announced (s : LightSocket) : Type 0 where
  pub services : ℕ
  pub answer : (wait_version (turns s) s).1 ≡ some services
  pub bloom : (bit_and services service_node_bloom == 0) ≡ false

-- A handshake on `opened` that is done: two frames have been sent, VERSION and VERACK, and the peer
-- has answered the first.
pub record Shaken (opened : LightSocket) (nonce time : ℕ) (p : LightPeer) : Type 0 where
  pub state : p.m_state ≡ filter_sent
  pub connected : p.m_sock.m_connected ≡ true
  pub version_frame : Bytes
  pub verack_frame : Bytes
  pub version_encoded :
      frame_of (codes "version") (build_version_payload nonce time) ≡ some version_frame
  pub verack_encoded : frame_of (codes "verack") [] ≡ some verack_frame
  pub sent_frames : p.m_sock.sent ≡ version_frame ++ verack_frame
  pub announced : Announced (asked opened nonce time)

-- Success: the system has opened a connection to this host and port, and the handshake is done on it.
-- A failure leaves the peer disconnected and its socket closed.
abbrev pub Ended : LightPeer → Bytes → ℕ → ℕ → LightPeer × Bool → Type 0
Ended before host port time (p, true) =
    ((Socket.connect (close before.m_sock) host port).1 ≡ true)
    × Shaken (Socket.connect (close before.m_sock) host port).0 before.m_local_nonce time p
Ended before host port time (p, false) = (p.m_state ≡ disconnected) × (p.m_sock.m_connected ≡ false)

-- The same before the clean-up of a failure, which the state `handshake` allows.
abbrev Tried : LightSocket → ℕ → ℕ → LightPeer × Bool → Type 0
Tried opened nonce time (p, true) = Shaken opened nonce time p
Tried opened nonce time (p, false) = p.m_state ≡ handshake

-- A frame that went out: it was encoded, its bytes follow what was sent, the connection stands.
abbrev pub Framed : Bytes → Option Bytes → LightSocket × Bool → Type 0
Framed before frame (s, false) = Unit
Framed before frame (s, true) =
    (bytes : Bytes) × (frame ≡ some bytes) × (s.sent ≡ before ++ bytes) × (s.m_connected ≡ true)

-- A frame is at most 24 bytes longer than the largest payload.
laid_out : Bytes → Bytes → Bytes
laid_out command payload =
    take 4 mainnet_magic
    ++ (command
        ++ (replicate (command_size - length command) 0
            ++ (write_le 4 (length payload) ++ (write_le 4 (checksum_of payload) ++ payload))))

length-laid_out :
    (command payload : Bytes)
    → length command ≤ command_size
    → length (laid_out command payload) ≡ 24 + length payload
unfolding laid_out
length-laid_out command payload h = omega (
  arith,
  length-append command (
      replicate (command_size - length command) 0
      ++ (write_le 4 (length payload) ++ (write_le 4 (checksum_of payload) ++ payload))),
  length-append (replicate (command_size - length command) 0)
      (write_le 4 (length payload) ++ (write_le 4 (checksum_of payload) ++ payload)),
  length-replicate {A = ℕ} (command_size - length command) 0,
  length-append (write_le 4 (length payload)) (write_le 4 (checksum_of payload) ++ payload),
  length-append (write_le 4 (checksum_of payload)) payload,
  length-write_le 4 (length payload),
  length-write_le 4 (checksum_of payload),
)

pub frame_of-short :
    (command payload bytes : Bytes) → frame_of command payload ≡ some bytes → length bytes < 2 ^ 31
unfolding encode_message laid_out
frame_of-short command payload bytes e = elim (Bool-cases (ltb command_size (length command))) [
  | inl c ↦ absurd (let k = rw c at e in cc)
  | inr c ↦ elim (Bool-cases (ltb max_payload_size (length payload))) [
    | inl p ↦ absurd (let k = rw (c, p) at e in cc)
    | inr p ↦
        let same : laid_out command payload ≡ bytes = (let k = rw (c, p) at e in cc) in
        let few : length (laid_out command payload) < 2 ^ 31 =
          ground (arith, length-laid_out command payload) in
        subst (λ (t : Bytes). length t < 2 ^ 31) same few
  ]
]

send_encoded-Framed :
    (s : LightSocket) (frame : Option Bytes)
    → s.m_connected ≡ true
    → ((bytes : Bytes) → frame ≡ some bytes → length bytes < 2 ^ 31)
    → Framed s.sent frame (send_encoded s frame)
unfolding send_encoded
send_encoded-Framed s none c short = tt
send_encoded-Framed s (some bytes) c short =
    by_result (send_all s bytes) (send_all-Delivered s bytes c (short bytes refl))
  where
    by_result : (r : LightSocket × Bool) → Delivered s.sent bytes r → Framed s.sent (some bytes) r
    by_result (t, true) d = (bytes, refl, d.0, d.1)
    by_result (t, false) d = tt

pub send_frame-Framed :
    (s : LightSocket) (command payload : Bytes)
    → s.m_connected ≡ true
    → Framed s.sent (frame_of command payload) (send_frame s command payload)
unfolding send_frame
send_frame-Framed s command payload c =
    send_encoded-Framed s (frame_of command payload) c (frame_of-short command payload)

-- From here on the peer is in the state `handshake`, and the first frame has been sent.
abbrev First : ℕ → ℕ → Bytes → Type 0
First nonce time first = frame_of (codes "version") (build_version_payload nonce time) ≡ some first

got_verack-Tried :
    (p : LightPeer) (o : LightSocket) (nonce time : ℕ) (first second : Bytes)
    (r : LightSocket × Bool)
    → p.m_state ≡ handshake
    → First nonce time first
    → frame_of (codes "verack") [] ≡ some second
    → Announced (asked o nonce time)
    → Stands (first ++ second) r
    → Tried o nonce time (got_verack p r)
unfolding got_verack set_state is_valid_transition same
got_verack-Tried p o nonce time first second (s, false) e f g a h = e
got_verack-Tried p o nonce time first second (s, true) e f g a h = simp e (record {
  state = refl;
  connected = h.1;
  version_frame = first;
  verack_frame = second;
  version_encoded = f;
  verack_encoded = g;
  sent_frames = h.0;
  announced = a;
})

verack_sent-Tried :
    (p : LightPeer) (o : LightSocket) (nonce time : ℕ) (first : Bytes) (r : LightSocket × Bool)
    → p.m_state ≡ handshake
    → First nonce time first
    → Announced (asked o nonce time)
    → Framed first (frame_of (codes "verack") []) r
    → Tried o nonce time (verack_sent p r)
unfolding verack_sent
verack_sent-Tried p o nonce time first (s, false) e f a h = e
verack_sent-Tried p o nonce time first (s, true) e f a h =
    got_verack-Tried p o nonce time first h.0 (wait_verack (turns s) s) e f h.1 a (
      Stands-sent s.sent (first ++ h.0) (wait_verack (turns s) s) h.2
        (wait_verack-Stands (turns s) s h.3))

Framed-before :
    (a b : Bytes) (frame : Option Bytes) (r : LightSocket × Bool)
    → a ≡ b
    → Framed a frame r
    → Framed b frame r
Framed-before a b frame (s, false) e f = tt
Framed-before a b frame (s, true) e f = (f.0, f.1, f.2 ∙ ap (λ (t : Bytes). t ++ f.0) e, f.3)

-- `u` is the socket before the loop, `r` what the loop gave.
got_version-Tried :
    (p : LightPeer) (o : LightSocket) (nonce time : ℕ) (first : Bytes) (u : LightSocket)
    (r : LightSocket × Option ℕ)
    → p.m_state ≡ handshake
    → First nonce time first
    → u ≡ asked o nonce time
    → wait_version (turns u) u ≡ r
    → Keeps first r
    → Tried o nonce time (got_version p r)
unfolding got_version
got_version-Tried p o nonce time first u (s, none) e f b w k = e
got_version-Tried p o nonce time first u (s, some services) e f b w k =
    elim (Bool-cases (bit_and services service_node_bloom == 0)) [
      | inl j ↦ rw j e
      | inr j ↦ rw j (
          verack_sent-Tried p o nonce time first (send_frame s (codes "verack") []) e f
            (subst Announced b (record {
              services = services;
              answer = ap (λ (q : LightSocket × Option ℕ). q.1) w;
              bloom = j;
            }))
            (Framed-before s.sent first (frame_of (codes "verack") [])
              (send_frame s (codes "verack") []) k.0 (send_frame-Framed s (codes "verack") [] k.1)))
    ]

version_sent-Tried :
    (p : LightPeer) (o : LightSocket) (nonce time : ℕ) (r : LightSocket × Bool)
    → p.m_state ≡ handshake
    → send_frame o (codes "version") (build_version_payload nonce time) ≡ r
    → Framed [] (frame_of (codes "version") (build_version_payload nonce time)) r
    → Tried o nonce time (version_sent p r)
unfolding version_sent
version_sent-Tried p o nonce time (s, false) e w h = e
version_sent-Tried p o nonce time (s, true) e w h =
    got_version-Tried p o nonce time h.0 s (wait_version (turns s) s) e h.1
      (sym (ap (λ (q : LightSocket × Bool). q.0) w)) refl
      (Keeps-sent s.sent h.0 (wait_version (turns s) s) h.2 (wait_version-Keeps (turns s) s h.3))

do_handshake-Tried :
    (p : LightPeer) (time : ℕ)
    → p.m_state ≡ handshake
    → p.m_sock.sent ≡ []
    → p.m_sock.m_connected ≡ true
    → Tried p.m_sock p.m_local_nonce time (do_handshake p time)
unfolding do_handshake
do_handshake-Tried p time e b c =
    version_sent-Tried p p.m_sock p.m_local_nonce time
      (send_frame p.m_sock (codes "version") (build_version_payload p.m_local_nonce time)) e refl
      (Framed-before p.m_sock.sent []
        (frame_of (codes "version") (build_version_payload p.m_local_nonce time))
        (send_frame p.m_sock (codes "version") (build_version_payload p.m_local_nonce time)) b
        (send_frame-Framed p.m_sock (codes "version") (build_version_payload p.m_local_nonce time)
          c))

-- `r` is what Connect gave.
abbrev EndedBy : LightSocket × Bool → ℕ → ℕ → LightPeer × Bool → Type 0
EndedBy r nonce time (p, true) = (r.1 ≡ true) × Shaken r.0 nonce time p
EndedBy r nonce time (p, false) = (p.m_state ≡ disconnected) × (p.m_sock.m_connected ≡ false)

shaken-EndedBy :
    (o : LightSocket) (nonce time : ℕ) (r : LightPeer × Bool)
    → Tried o nonce time r
    → EndedBy (o, true) nonce time (shaken r)
unfolding shaken give_up set_state is_valid_transition same close
shaken-EndedBy o nonce time (p, true) h = (refl, h)
shaken-EndedBy o nonce time (p, false) h = simp h (refl, refl)

dialled-EndedBy :
    (p : LightPeer) (time : ℕ) (r : LightSocket × Bool)
    → p.m_state ≡ handshake
    → Dialled r
    → EndedBy r p.m_local_nonce time (dialled p time r)
unfolding dialled set_state is_valid_transition same
dialled-EndedBy p time (s, false) e h = simp e (refl, h)
dialled-EndedBy p time (s, true) e h =
    shaken-EndedBy s p.m_local_nonce time (do_handshake (record p { m_sock = s }) time)
      (do_handshake-Tried (record p { m_sock = s }) time e h.0 h.1)

EndedBy-Ended :
    (p : LightPeer) (host : Bytes) (port time : ℕ) (r : LightPeer × Bool)
    → EndedBy (Socket.connect (close p.m_sock) host port) p.m_local_nonce time r
    → Ended p host port time r
EndedBy-Ended p host port time (q, true) h = h
EndedBy-Ended p host port time (q, false) h = h

-- `ConnectAndHandshake` ends in one of two ways, whatever the peer was doing, sends or leaves out.
-- With true, the system has opened a connection to the given host and port; the state is FILTER_SENT
-- on an open connection; exactly the VERSION frame with the peer's nonce and the VERACK frame have
-- been sent on it; and the VERSION that came back on that connection announced the bloom service.
-- With false, the state is DISCONNECTED and the socket is closed.
pub connect_and_handshake-Ended :
    (p : LightPeer) (host : Bytes) (port time : ℕ)
    → Ended p host port time (connect_and_handshake p host port time)
unfolding connect_and_handshake set_state disconnect is_valid_transition same
connect_and_handshake-Ended p host port time = EndedBy-Ended p host port time _ (
    dialled-EndedBy (record (disconnect p) { m_state = handshake }) time
      (Socket.connect (close p.m_sock) host port) refl (connect-Dialled (close p.m_sock) host port))
