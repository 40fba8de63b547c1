-- ===== src/ConnMan.antt =====
-- light_connman.cpp: the slots of the candidate peers, the first of which is the primary connection.
-- The random number of a new peer, the answers of the system to its calls and the time of a handshake
-- are arguments of the operations that use them.
pub mod Slots
pub mod Connecting
pub mod Promotion
use mvclight.Base.{
  ℕ, zero, suc, ◌+◌, ◌==◌, Bool, true, false, List, [], ◌∷◌, ◌++◌, Option, none, some, ltb,
  if◌then◌else◌, length, get_elem?, set,
}
use mvclight.Text.{to_string}
use mvclight.Wire.{Bytes}
use mvclight.Socket.{Dial}
use mvclight.Peer
use mvclight.Peer.{LightPeer, disconnect, connect_and_handshake}

pub record Slot : Type 0 where
  pub host : Bytes
  pub port : ℕ
  pub peer : Option LightPeer
  pub connected : Bool

abbrev pub ConnMan : Type 0
ConnMan = List Slot

unfoldable pub add_peer : ConnMan → Bytes → ℕ → ConnMan × Bool
add_peer m [] port = (m, false)
add_peer m (c ∷ cs) port =
    if port == 0
    then (m, false)
    else (m ++ (record { host = c ∷ cs; port = port; peer = none; connected = false } ∷ []), true)

-- What a call of `ConnectPeer` draws from its surroundings.
pub record Surroundings : Type 0 where
  pub nonce : ℕ
  pub dials : List (Bytes → ℕ → Dial)
  pub time : ℕ

peer_of : Surroundings → Option LightPeer → LightPeer
peer_of env none = Peer.new env.nonce env.dials
peer_of env (some p) = p

shaken_slot : Slot → LightPeer × Bool → Slot × Bool
shaken_slot s (p, ok) = (record s { peer = some p; connected = ok }, ok)

unfoldable pub connect_slot : Slot → Surroundings → Slot × Bool
unfolding shaken_slot peer_of
connect_slot s env =
    if s.connected
    then (s, true)
    else shaken_slot s (connect_and_handshake (peer_of env s.peer) s.host s.port env.time)

connect_at : ConnMan → ℕ → Surroundings → Option Slot → ConnMan × Bool
connect_at m idx env none = (m, false)
connect_at m idx env (some s) = let r = connect_slot s env in (set m idx r.0, r.1)

unfoldable pub connect_peer : ConnMan → ℕ → Surroundings → ConnMan × Bool
unfolding connect_at
connect_peer m idx env = connect_at m idx env (get_elem? m idx)

hang_up : Option LightPeer → Option LightPeer
hang_up none = none
hang_up (some p) = some (disconnect p)

disconnect_at : ConnMan → ℕ → Option Slot → ConnMan
unfolding hang_up
disconnect_at m idx none = m
disconnect_at m idx (some s) = set m idx (record s { peer = hang_up s.peer; connected = false })

unfoldable pub disconnect_peer : ConnMan → ℕ → ConnMan
unfolding disconnect_at
disconnect_peer m idx = disconnect_at m idx (get_elem? m idx)

connected_at : Option Slot → Bool
connected_at none = false
connected_at (some s) = s.connected

unfoldable pub is_connected : ConnMan → ℕ → Bool
unfolding connected_at
is_connected m idx = connected_at (get_elem? m idx)

count_connected : ConnMan × Bool → ℕ → (ConnMan → ℕ → ConnMan × ℕ) → ConnMan × ℕ
count_connected (m, true) connected next = next m (suc connected)
count_connected (m, false) connected next = next m connected

-- The loop of `ConnectUpTo`, with the number of slots that are left.
unfoldable pub connect_loop : ℕ → ℕ → ConnMan → (ℕ → Surroundings) → ℕ → ℕ → ConnMan × ℕ
unfolding count_connected
connect_loop zero i m env max_conns connected = (m, connected)
connect_loop (suc n) i m env max_conns connected =
    let rest =
      count_connected (connect_peer m i (env i)) connected
        (λ k c. connect_loop n (suc i) k env max_conns c) in
    if ltb connected max_conns then rest else (m, connected)

unfoldable pub connect_up_to : ConnMan → (ℕ → Surroundings) → ℕ → ConnMan × ℕ
connect_up_to m env max_conns = connect_loop (length m) 0 m env max_conns 0

-- `std::swap` of the slots 0 and `idx`.
swap_slots : ConnMan → ℕ → Option Slot → Option Slot → ConnMan
swap_slots m idx (some a) (some b) = set (set m 0 b) idx a
swap_slots m idx _ _ = m

unfoldable pub promote_to_primary : ConnMan → ℕ → ConnMan × Bool
unfolding swap_slots
promote_to_primary m idx =
    if idx == 0
    then (m, is_connected m 0)
    else (if is_connected m idx
        then (swap_slots m idx (get_elem? m 0) (get_elem? m idx), true)
        else (m, false))

name_of : Option Slot → Bytes
name_of none = []
name_of (some s) = s.host ++ b':' ∷ to_string s.port

unfoldable pub peer_name : ConnMan → ℕ → Bytes
unfolding name_of
peer_name m idx = name_of (get_elem? m idx)
