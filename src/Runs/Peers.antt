-- ===== src/Runs/Peers.antt =====
-- The connection to a peer at concrete inputs.
use mvclight.Base.{◌≡◌, refl, arith, true, List, [], ◌∷◌, ◌++◌, some, codes, replicate}
use mvclight.Base.Int.{pos}
use mvclight.Wire.{Bytes, write_le}
use mvclight.Socket.{
  send_count, Received, chunk, took, no_connection, opened, resolved, LightSocket, send_all,
  send_loop, send_some, keep_sending,
}
use mvclight.Socket.Receive.{arriving}
use mvclight.Socket.Send.{Delivered, send_all-Delivered}
use mvclight.Message.{LightMessage, mainnet_magic, checksum_of, encode_message, read_message}
use mvclight.Message.Failure.{left, Outcome, read_message-Outcome}
use mvclight.Message.RoundTrip.{ReadBack, read_message-encode_message}
use mvclight.State.{filter_sent, same}
use mvclight.Peer.{
  LightPeer, connect_and_handshake, send_encoded, send_frame, retry_base_ms, retry_max_ms,
}
use mvclight.Peer
use mvclight.Peer.Handshake.{Ended, connect_and_handshake-Ended}
use mvclight.Peer.Heartbeat.{pinged, send_ping}

-- The VERSION of a peer with the bloom service, and its VERACK, in two chunks.
abbrev hello : List Received
hello =
    chunk 82 (
      155 ∷ 104 ∷ 150 ∷ 118 ∷ 101 ∷ 114 ∷ 115 ∷ 105 ∷ 111 ∷ 110 ∷ 0 ∷ 0 ∷ 0 ∷ 0 ∷ 0 ∷ 12 ∷ 0 ∷ 0 ∷ 0
      ∷ 239 ∷ 163 ∷ 71 ∷ 166 ∷ 128 ∷ 17 ∷ 1 ∷ 0 ∷ 5 ∷ 0 ∷ 0 ∷ 0 ∷ 0 ∷ 0 ∷ 0 ∷ 0 ∷ 82 ∷ 155 ∷ [])
    ∷ chunk 104 (
        150 ∷ 118 ∷ 101 ∷ 114 ∷ 97 ∷ 99 ∷ 107 ∷ 0 ∷ 0 ∷ 0 ∷ 0 ∷ 0 ∷ 0 ∷ 0 ∷ 0 ∷ 0 ∷ 0 ∷ 93 ∷ 246
        ∷ 224 ∷ 226 ∷ [])
    ∷ []

abbrev pub client : LightPeer
client = Peer.new 7 (
    (λ host port.
      resolved (no_connection ∷ opened (record { incoming = hello; accepts = took 3 ∷ [] }) ∷ []))
    ∷ [])

connect_and_handshake-Ended_example :
    Ended client
      (codes "seed")
      9883
      1700000000
      (connect_and_handshake client (codes "seed") 9883 1700000000)
connect_and_handshake-Ended_example =
    connect_and_handshake-Ended client (codes "seed") 9883 1700000000

abbrev unanswered : LightPeer
unanswered = record client { m_pong_timeout_count = 1 }

abbrev open_socket : LightSocket
open_socket = record {
  m_connected = true;
  has_handle = true;
  channel = record { incoming = hello; accepts = [] };
  sent = [];
  dials = [];
}

abbrev ready : LightPeer
ready = record client { m_sock = open_socket; m_state = filter_sent }

ping_sent : (send_ping ready 9 (pos 10)).1 ≡ true
unfolding send_ping pinged same send_frame send_encoded encode_message write_le send_all send_loop
    send_some keep_sending send_count
ping_sent = refl

read_message-Outcome_example : Outcome (left open_socket) (read_message mainnet_magic open_socket)
read_message-Outcome_example = read_message-Outcome mainnet_magic open_socket

send_all-Delivered_example : Delivered [] (codes "tx") (send_all open_socket (codes "tx"))
send_all-Delivered_example = send_all-Delivered open_socket (codes "tx") refl (omega arith)

abbrev greeting : LightMessage
greeting = record { command = codes "ping"; payload = 1 ∷ 2 ∷ [] }

-- The frame behind its first byte.
abbrev frame_tail : Bytes
frame_tail =
    0x9b
    ∷ 0x68
    ∷ 0x96
    ∷ (codes "ping"
        ++ (replicate 8 0
            ++ (write_le 4 2 ++ (write_le 4 (checksum_of (1 ∷ 2 ∷ [])) ++ (1 ∷ 2 ∷ [])))))

abbrev greeted : LightSocket
greeted = record open_socket {
  channel = record { incoming = chunk 0x52 frame_tail ∷ chunk 9 [] ∷ []; accepts = [] };
}

greeting_encoded : encode_message mainnet_magic greeting ≡ some (0x52 ∷ frame_tail)
unfolding encode_message
greeting_encoded = refl

greeting_arrives : arriving greeted.channel.incoming ≡ (0x52 ∷ frame_tail) ++ (9 ∷ [])
unfolding arriving write_le
greeting_arrives = refl

read_message-encode_message_example : ReadBack mainnet_magic greeting (9 ∷ []) greeted
read_message-encode_message_example =
    read_message-encode_message mainnet_magic greeting (0x52 ∷ frame_tail) (9 ∷ []) greeted refl
      (
        λ e. absurd (omega arith),
        (λ e. absurd (omega arith), (λ e. absurd (omega arith), (λ e. absurd (omega arith), tt))),
      )
      refl greeting_encoded greeting_arrives
