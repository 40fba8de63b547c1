-- ===== src/Peer/Counting.antt =====
-- A new connection keeps the count of unanswered pings.
use mvclight.Wire.{Bytes}
use mvclight.Base.{
  ℕ, ◌≡◌, refl, ◌∙◌, bit_and, ◌==◌, Bool, true, false, [], Option, none, some, codes, if◌then◌else◌,
}
use mvclight.Socket
use mvclight.Socket.{LightSocket}
use mvclight.State.{PeerState, filter_sent, handshake, disconnected, is_valid_transition}
use mvclight.Peer.{
  LightPeer, build_version_payload, service_node_bloom, set_state, disconnect, send_frame,
  wait_version, wait_verack, turns, got_verack, verack_sent, got_version, version_sent,
  do_handshake, give_up, shaken, dialled, connect_and_handshake,
}

abbrev Counts : LightPeer → LightPeer → Type 0
Counts p q = q.m_pong_timeout_count ≡ p.m_pong_timeout_count

-- What the tests of `SetState` and of the services choose between.
abbrev moved : LightPeer → PeerState → Bool → LightPeer × Bool
moved p state b = if b then (record p { m_state = state }, true) else (p, false)

abbrev tested : LightPeer → LightSocket → Bool → LightPeer × Bool
tested p s b =
    if b then (record p { m_sock = s }, false) else verack_sent p (send_frame s (codes "verack") [])

set_state_count : (p : LightPeer) (state : PeerState) → Counts p (set_state p state).0
unfolding set_state
set_state_count p state = by_test (is_valid_transition p.m_state state)
  where
    by_test : (b : Bool) → Counts p (moved p state b).0
    by_test true = refl
    by_test false = refl

got_verack_count : (p : LightPeer) (r : LightSocket × Bool) → Counts p (got_verack p r).0
unfolding got_verack
got_verack_count p (s, false) = refl
got_verack_count p (s, true) = set_state_count (record p { m_sock = s }) filter_sent

verack_sent_count : (p : LightPeer) (r : LightSocket × Bool) → Counts p (verack_sent p r).0
unfolding verack_sent
verack_sent_count p (s, false) = refl
verack_sent_count p (s, true) = got_verack_count p (wait_verack (turns s) s)

got_version_count : (p : LightPeer) (r : LightSocket × Option ℕ) → Counts p (got_version p r).0
unfolding got_version
got_version_count p (s, none) = refl
got_version_count p (s, some services) = by_test (bit_and services service_node_bloom == 0)
  where
    by_test : (b : Bool) → Counts p (tested p s b).0
    by_test true = refl
    by_test false = verack_sent_count p (send_frame s (codes "verack") [])

version_sent_count : (p : LightPeer) (r : LightSocket × Bool) → Counts p (version_sent p r).0
unfolding version_sent
version_sent_count p (s, false) = refl
version_sent_count p (s, true) = got_version_count p (wait_version (turns s) s)

give_up_count : (p : LightPeer) → Counts p (give_up p)
unfolding give_up
give_up_count p = set_state_count (record p { m_sock = Socket.close p.m_sock }) disconnected

shaken_count : (r : LightPeer × Bool) → Counts r.0 (shaken r).0
unfolding shaken
shaken_count (p, false) = give_up_count p
shaken_count (p, true) = refl

dialled_count : (p : LightPeer) (time : ℕ) (r : LightSocket × Bool) → Counts p (dialled p time r).0
unfolding dialled do_handshake
dialled_count p time (s, false) = set_state_count (record p { m_sock = s }) disconnected
dialled_count p time (s, true) =
    shaken_count (do_handshake (record p { m_sock = s }) time)
    ∙ version_sent_count (record p { m_sock = s })
        (send_frame s (codes "version") (build_version_payload p.m_local_nonce time))

pub connect_and_handshake_count :
    (p : LightPeer) (host : Bytes) (port time : ℕ)
    → Counts p (connect_and_handshake p host port time).0
unfolding connect_and_handshake disconnect
connect_and_handshake_count p host port time =
    dialled_count (set_state (disconnect p) handshake).0 time
      (Socket.connect (set_state (disconnect p) handshake).0.m_sock host port)
    ∙ set_state_count (disconnect p) handshake
