-- ===== src/Peer.antt =====
-- light_peer.cpp: one connection, its handshake, its heartbeat and its messages. The time of day and
-- the clock, where the source reads them, are arguments, and so is the random nonce.
pub mod Waiting
pub mod Handshake
pub mod Counting
pub mod Heartbeat
use mvclight.Base.{
  ℕ, zero, suc, ◌+◌, ◌*◌, ◌==◌, bit_and, Bool, true, false, ◌&&◌, ◌||◌, not, List, [], ◌∷◌, ◌++◌,
  Option, none, some, ltb, leb, codes, if◌then◌else◌, length, take, drop, replicate,
}
use mvclight.Base.Int.{ℤ, pos, ◌-ℤ◌, ltb_ℤ, eqb_ℤ}
use mvclight.Wire.{Bytes, write_le, read_le, write_compact_size}
use mvclight.Uint256.{eq as text_eq}
use mvclight.Socket
use mvclight.Socket.{LightSocket, Dial, send_all}
use mvclight.Socket.Receive.{volume}
use mvclight.Message.{LightMessage, mainnet_magic, encode_message, read_message}
use mvclight.State.{
  PeerState, init, handshake, filter_sent, steady, disconnected, same, is_valid_transition,
}

abbrev pub pong_timeout_ms : ℕ
pong_timeout_ms = 60000

abbrev pub retry_base_ms : ℕ
retry_base_ms = 5000

abbrev pub retry_max_ms : ℕ
retry_max_ms = 300000

abbrev pub service_node_bloom : ℕ
service_node_bloom = 4

abbrev pub max_reorg_depth : ℕ
max_reorg_depth = 144

unfoldable pub is_deep_reorg : ℤ → Bool
is_deep_reorg fork_depth = ltb_ℤ (pos max_reorg_depth) fork_depth

pub record LightPeer : Type 0 where
  pub m_sock : LightSocket
  pub m_state : PeerState
  pub m_local_nonce : ℕ
  pub m_remote_nonce : ℕ
  pub m_ping_sent_usec : ℤ
  pub m_last_ping_usec : ℤ
  pub m_pending_pong_nonce : ℕ
  pub m_pong_timeout_count : ℕ

-- The constructor, with the random number that it draws.
unfoldable pub new : ℕ → List (Bytes → ℕ → Dial) → LightPeer
new nonce dials = record {
  m_sock = Socket.new dials;
  m_state = init;
  m_local_nonce = nonce;
  m_remote_nonce = 0;
  m_ping_sent_usec = pos 0;
  m_last_ping_usec = pos 0;
  m_pending_pong_nonce = 0;
  m_pong_timeout_count = 0;
}

abbrev pub user_agent : Bytes
user_agent = codes "/mvclight:0.1.0/"

unfoldable pub build_version_payload : ℕ → ℕ → Bytes
build_version_payload nonce time =
    write_le 4 70016
    ++ (write_le 8 5
        ++ (write_le 8 time
            ++ (replicate 26 0
                ++ (replicate 26 0
                    ++ (write_le 8 nonce
                        ++ (write_compact_size (length user_agent)
                            ++ (user_agent ++ (write_le 4 0 ++ 0 ∷ []))))))))

unfoldable pub parse_version_services : Bytes → Option ℕ
parse_version_services payload =
    if ltb (length payload) 12 then none else some (read_le (take 8 (drop 4 payload)))

unfoldable pub parse_pong_nonce : Bytes → Option ℕ
parse_pong_nonce payload = if ltb (length payload) 8 then none else some (read_le (take 8 payload))

unfoldable pub set_state : LightPeer → PeerState → LightPeer × Bool
set_state p state =
    if is_valid_transition p.m_state state then (record p { m_state = state }, true) else (p, false)

unfoldable pub disconnect : LightPeer → LightPeer
disconnect p = record p {
  m_sock = Socket.close p.m_sock;
  m_state = disconnected;
  m_pending_pong_nonce = 0;
}

unfoldable pub send_encoded : LightSocket → Option Bytes → LightSocket × Bool
send_encoded s none = (s, false)
send_encoded s (some bytes) = send_all s bytes

-- `EncodeMessage` and then `SendAll`.
unfoldable pub send_frame : LightSocket → Bytes → Bytes → LightSocket × Bool
unfolding send_encoded
send_frame s command payload =
    send_encoded s (encode_message mainnet_magic (record { command = command; payload = payload }))

-- One turn of the loop that waits for the VERSION of the peer: the services that it announces, or no
-- message or a short one, or on to the next message.
version_turn :
    LightSocket × Option LightMessage
    → (LightSocket → LightSocket × Option ℕ)
    → LightSocket × Option ℕ
version_turn (s, none) next = (s, none)
version_turn (s, some msg) next =
    if text_eq msg.command (codes "version")
    then (s, parse_version_services msg.payload)
    else next s

unfoldable pub wait_version : ℕ → LightSocket → LightSocket × Option ℕ
unfolding version_turn
wait_version zero s = (s, none)
wait_version (suc n) s = version_turn (read_message mainnet_magic s) (λ t. wait_version n t)

verack_turn :
    LightSocket × Option LightMessage → (LightSocket → LightSocket × Bool) → LightSocket × Bool
verack_turn (s, none) next = (s, false)
verack_turn (s, some msg) next = if text_eq msg.command (codes "verack") then (s, true) else next s

unfoldable pub wait_verack : ℕ → LightSocket → LightSocket × Bool
unfolding verack_turn
wait_verack zero s = (s, false)
wait_verack (suc n) s = verack_turn (read_message mainnet_magic s) (λ t. wait_verack n t)

-- Every message takes 24 bytes or more from what will ever arrive, so this is enough fuel.
abbrev pub turns : LightSocket → ℕ
turns s = suc (volume s.channel.incoming)

-- The four parts of `DoHandshake`, the last first.
got_verack : LightPeer → LightSocket × Bool → LightPeer × Bool
unfolding set_state
got_verack p (s, false) = (record p { m_sock = s }, false)
got_verack p (s, true) = ((set_state (record p { m_sock = s }) filter_sent).0, true)

verack_sent : LightPeer → LightSocket × Bool → LightPeer × Bool
unfolding got_verack
verack_sent p (s, false) = (record p { m_sock = s }, false)
verack_sent p (s, true) = got_verack p (wait_verack (turns s) s)

got_version : LightPeer → LightSocket × Option ℕ → LightPeer × Bool
unfolding verack_sent
got_version p (s, none) = (record p { m_sock = s }, false)
got_version p (s, some services) =
    if bit_and services service_node_bloom == 0
    then (record p { m_sock = s }, false)
    else verack_sent p (send_frame s (codes "verack") [])

version_sent : LightPeer → LightSocket × Bool → LightPeer × Bool
unfolding got_version
version_sent p (s, false) = (record p { m_sock = s }, false)
version_sent p (s, true) = got_version p (wait_version (turns s) s)

unfoldable pub do_handshake : LightPeer → ℕ → LightPeer × Bool
unfolding version_sent
do_handshake p time =
    version_sent p
      (send_frame p.m_sock (codes "version") (build_version_payload p.m_local_nonce time))

give_up : LightPeer → LightPeer
give_up p = (set_state (record p { m_sock = Socket.close p.m_sock }) disconnected).0

shaken : LightPeer × Bool → LightPeer × Bool
unfolding give_up
shaken (p, false) = (give_up p, false)
shaken (p, true) = (p, true)

dialled : LightPeer → ℕ → LightSocket × Bool → LightPeer × Bool
unfolding shaken
dialled p time (s, false) = ((set_state (record p { m_sock = s }) disconnected).0, false)
dialled p time (s, true) = shaken (do_handshake (record p { m_sock = s }) time)

unfoldable pub connect_and_handshake : LightPeer → Bytes → ℕ → ℕ → LightPeer × Bool
unfolding dialled
connect_and_handshake p host port time =
    let q = (set_state (disconnect p) handshake).0 in
    dialled q time (Socket.connect q.m_sock host port)
