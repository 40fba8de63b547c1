-- ===== src/State.antt =====
-- light_state.cpp: the states of a connection and the transitions that are allowed.
pub mod Paths
use mvclight.Base.{ℕ, Bool, true, false, ◌≡◌, if◌then◌else◌, List, codes}

pub data PeerState : Type 0 where
  init : PeerState
  handshake : PeerState
  filter_sent : PeerState
  wait_filter_ack : PeerState
  syncing_headers : PeerState
  syncing_txs : PeerState
  steady : PeerState
  disconnected : PeerState

pub PeerState-discrete : Discrete PeerState
PeerState-discrete = hlevel

-- `==` on states, by their position in the enum.
unfoldable pub same : PeerState → PeerState → Bool
same init init = true
same handshake handshake = true
same filter_sent filter_sent = true
same wait_filter_ack wait_filter_ack = true
same syncing_headers syncing_headers = true
same syncing_txs syncing_txs = true
same steady steady = true
same disconnected disconnected = true
same _ _ = false

-- The switch of `IsValidTransition`.
next_state : PeerState → PeerState
next_state init = handshake
next_state handshake = filter_sent
next_state filter_sent = wait_filter_ack
next_state wait_filter_ack = syncing_headers
next_state syncing_headers = syncing_txs
next_state syncing_txs = steady
next_state steady = handshake
next_state disconnected = handshake

unfoldable pub is_valid_transition : PeerState → PeerState → Bool
unfolding same next_state
is_valid_transition from to =
    if same from to
    then true
    else (if same to disconnected then true else same to (next_state from))

unfoldable pub to_string : PeerState → List ℕ
to_string init = codes "INIT"
to_string handshake = codes "HANDSHAKE"
to_string filter_sent = codes "FILTER_SENT"
to_string wait_filter_ack = codes "WAIT_FILTER_ACK"
to_string syncing_headers = codes "SYNCING_HEADERS"
to_string syncing_txs = codes "SYNCING_TXS"
to_string steady = codes "STEADY"
to_string disconnected = codes "DISCONNECTED"
