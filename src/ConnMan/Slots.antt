-- ===== src/ConnMan/Slots.antt =====
-- The invariant of the slots, and what the operations leave.
use mvclight.Base.{
  ℕ, zero, suc, ◌≡◌, ◌==◌, Bool, true, false, [], ◌∷◌, Option, none, some, if◌then◌else◌, get_elem?,
  set, All, All-append, Bool-cases, inl, inr,
}
use mvclight.Wire.{Bytes}
use mvclight.State.{filter_sent}
use mvclight.Peer.{LightPeer, connect_and_handshake}
use mvclight.Peer.Handshake.{Ended, connect_and_handshake-Ended}
use mvclight.ConnMan.{
  Slot, ConnMan, add_peer, Surroundings, peer_of, shaken_slot, connect_slot, connect_at,
  connect_peer, hang_up, disconnect_at, disconnect_peer, is_connected, swap_slots,
  promote_to_primary,
}

-- A slot that counts as connected has a peer behind a finished handshake, on an open connection.
abbrev pub Live : Bool → Option LightPeer → Type 0
Live false peer = Unit
Live true none = ⊥
Live true (some p) = (p.m_state ≡ filter_sent) × (p.m_sock.m_connected ≡ true)

abbrev pub IsSlot : Slot → Type 0
IsSlot s = Live s.connected s.peer

shaken_slot-IsSlot :
    (s : Slot) (before : LightPeer) (time : ℕ) (r : LightPeer × Bool)
    → Ended before s.host s.port time r
    → IsSlot (shaken_slot s r).0
unfolding shaken_slot
shaken_slot-IsSlot s before time (p, true) h = (h.1.state, h.1.connected)
shaken_slot-IsSlot s before time (p, false) h = tt

connect_slot-IsSlot : (s : Slot) (env : Surroundings) → IsSlot s → IsSlot (connect_slot s env).0
unfolding connect_slot
connect_slot-IsSlot s env h =
    by_test s.connected (shaken_slot s (connect_and_handshake p s.host s.port env.time)) (
      shaken_slot-IsSlot s p env.time (connect_and_handshake p s.host s.port env.time)
        (connect_and_handshake-Ended p s.host s.port env.time))
  where
    p : LightPeer
    p = peer_of env s.peer

    by_test : (b : Bool) (r : Slot × Bool) → IsSlot r.0 → IsSlot (if b then (s, true) else r).0
    by_test true r k = h
    by_test false r k = k

abbrev pub AreSlots : ConnMan → Type 0
AreSlots m = All IsSlot m

abbrev AtSlot : Option Slot → Type 0
AtSlot none = Unit
AtSlot (some s) = IsSlot s

set-AreSlots : (m : ConnMan) (i : ℕ) (s : Slot) → AreSlots m → IsSlot s → AreSlots (set m i s)
set-AreSlots [] i s h k = tt
set-AreSlots (t ∷ m) zero s h k = (k, h.1)
set-AreSlots (t ∷ m) (suc i) s h k = (h.0, set-AreSlots m i s h.1 k)

get-AtSlot : (m : ConnMan) (i : ℕ) → AreSlots m → AtSlot (get_elem? m i)
get-AtSlot [] i h = tt
get-AtSlot (s ∷ m) zero h = h.0
get-AtSlot (s ∷ m) (suc i) h = get-AtSlot m i h.1

add_peer-AreSlots :
    (m : ConnMan) (host : Bytes) (port : ℕ) → AreSlots m → AreSlots (add_peer m host port).0
unfolding add_peer
add_peer-AreSlots m [] port h = h
add_peer-AreSlots m (c ∷ cs) port h = elim (Bool-cases (port == 0)) [
  | inl e ↦ rw e h
  | inr e ↦ rw e (
      All-append IsSlot m
        (record { host = c ∷ cs; port = port; peer = none; connected = false } ∷ []) h (tt, tt))
]

connect_at-AreSlots :
    (m : ConnMan) (idx : ℕ) (env : Surroundings) (o : Option Slot)
    → AreSlots m
    → AtSlot o
    → AreSlots (connect_at m idx env o).0
unfolding connect_at
connect_at-AreSlots m idx env none h k = h
connect_at-AreSlots m idx env (some s) h k =
    set-AreSlots m idx (connect_slot s env).0 h (connect_slot-IsSlot s env k)

pub connect_peer-AreSlots :
    (m : ConnMan) (idx : ℕ) (env : Surroundings) → AreSlots m → AreSlots (connect_peer m idx env).0
unfolding connect_peer
connect_peer-AreSlots m idx env h =
    connect_at-AreSlots m idx env (get_elem? m idx) h (get-AtSlot m idx h)

disconnect_at-AreSlots :
    (m : ConnMan) (idx : ℕ) (o : Option Slot) → AreSlots m → AreSlots (disconnect_at m idx o)
unfolding disconnect_at
disconnect_at-AreSlots m idx none h = h
disconnect_at-AreSlots m idx (some s) h =
    set-AreSlots m idx (record s { peer = hang_up s.peer; connected = false }) h tt

swap_slots-AreSlots :
    (m : ConnMan) (idx : ℕ) (a b : Option Slot)
    → AreSlots m
    → AtSlot a
    → AtSlot b
    → AreSlots (swap_slots m idx a b)
unfolding swap_slots
swap_slots-AreSlots m idx (some a) (some b) h i j =
    set-AreSlots (set m 0 b) idx a (set-AreSlots m 0 b h j) i
swap_slots-AreSlots m idx (some a) none h i j = h
swap_slots-AreSlots m idx none b h i j = h

promote_to_primary-AreSlots :
    (m : ConnMan) (idx : ℕ) → AreSlots m → AreSlots (promote_to_primary m idx).0
unfolding promote_to_primary
promote_to_primary-AreSlots m idx h = elim (Bool-cases (idx == 0)) [
  | inl e ↦ rw e h
  | inr e ↦ elim (Bool-cases (is_connected m idx)) [
    | inl f ↦
        rw (e, f)
          (swap_slots-AreSlots m idx (get_elem? m 0) (get_elem? m idx) h (get-AtSlot m 0 h)
            (get-AtSlot m idx h))
    | inr f ↦ rw (e, f) h
  ]
]

-- Every operation on the slots keeps this: a slot that counts as connected has a peer in the state
-- FILTER_SENT on an open connection.
pub operations-AreSlots :
    (m : ConnMan) (idx port : ℕ) (host : Bytes) (env : Surroundings)
    → AreSlots m
    → AreSlots (add_peer m host port).0
      × AreSlots (connect_peer m idx env).0
      × AreSlots (disconnect_peer m idx)
      × AreSlots (promote_to_primary m idx).0
unfolding disconnect_peer
operations-AreSlots m idx port host env h = (
  add_peer-AreSlots m host port h,
  connect_peer-AreSlots m idx env h,
  disconnect_at-AreSlots m idx (get_elem? m idx) h,
  promote_to_primary-AreSlots m idx h,
)
