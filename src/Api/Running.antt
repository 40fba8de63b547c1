-- ===== src/Api/Running.antt =====
-- light_api.cpp: start, stop and switch of the connection. The answers of the system to the calls of
-- a connection are those that its socket has still to come; the time is an argument.
use mvclight.Base.{
  ℕ, ◌≡◌, refl, Bool, true, false, not, List, [], ◌∷◌, Option, none, some, codes, if◌then◌else◌,
  length, Bool-cases, inl, inr, ltb, suc, ◌++◌, ◌⊎◌,
}
use mvclight.Wire.{Bytes}
use mvclight.Text.{split_host_port}
use mvclight.State.{disconnected}
use mvclight.State
use mvclight.Peer.{LightPeer, disconnect, connect_and_handshake}
use mvclight.Socket
use mvclight.Peer.Handshake.{Shaken, Ended, connect_and_handshake-Ended}
use mvclight.Api.{
  LightError, ok, param_invalid, already_running, peer_disconnected, Event, LightContext,
  emit_peer_state,
}

-- A result of a function on a context: the new context, the code and the calls.
pub record Result (S : Type 0) : Type 0 where
  pub ctx : LightContext S
  pub code : LightError
  pub events : List Event

-- A finished handshake, on a connection that the system has opened to the host and port of the
-- address, with a VERSION that announces the bloom service.
pub record ConnectedTo (address : Bytes) (before after : LightPeer) (time : ℕ) : Type 0 where
  pub host : Bytes
  pub port : ℕ
  pub parsed : split_host_port address ≡ some (host, port)
  pub opened : (Socket.connect (Socket.close before.m_sock) host port).1 ≡ true
  pub shaken :
      Shaken
        (Socket.connect (Socket.close before.m_sock) host port).0
        before.m_local_nonce
        time
        after

module _ {S : Type 0} where
  started : LightContext S → LightPeer × Bool → Result S
  started c (p, false) = record {
    ctx = record c { peer_conn = p };
    code = peer_disconnected;
    events = emit_peer_state c c.peer false (codes "CONNECT_FAILED");
  }
  started c (p, true) = record {
    ctx = record c { peer_conn = p; running = true };
    code = ok;
    events = emit_peer_state c c.peer true (codes "CONNECTED");
  }

  start_at : LightContext S → ℕ → Option (Bytes × ℕ) → Result S
  unfolding started
  start_at c time none = record { ctx = c; code = param_invalid; events = [] }
  start_at c time (some (host, port)) = started c (connect_and_handshake c.peer_conn host port time)

  unfoldable pub start : LightContext S → ℕ → Result S
  unfolding start_at
  start c time =
      if c.running
      then record { ctx = c; code = already_running; events = [] }
      else start_at c time (split_host_port c.peer)

  unfoldable pub stop : LightContext S → LightContext S × List Event
  stop c = (
    record c { running = false; peer_conn = disconnect c.peer_conn },
    emit_peer_state c c.peer false (codes "STOPPED"),
  )

  switched : LightContext S → Bytes → LightPeer × Bool → Result S
  switched c address (p, false) = record {
    ctx = record c { peer_conn = p };
    code = peer_disconnected;
    events = [];
  }
  switched c address (p, true) = record {
    ctx = record c { peer_conn = p; peer = address };
    code = ok;
    events = emit_peer_state c address true (codes "SWITCHED");
  }

  switch_at : LightContext S → Bytes → ℕ → Option (Bytes × ℕ) → Result S
  unfolding switched
  switch_at c address time none = record { ctx = c; code = param_invalid; events = [] }
  switch_at c address time (some (host, port)) =
      switched c address (connect_and_handshake (disconnect c.peer_conn) host port time)

  switch_running : LightContext S → Bytes → ℕ → Result S
  unfolding switch_at
  switch_running c address time =
      if not c.running
      then record { ctx = c; code = peer_disconnected; events = [] }
      else switch_at c address time (split_host_port address)

  unfoldable pub switch_peer : LightContext S → Option Bytes → ℕ → Result S
  unfolding switch_running
  switch_peer c none time = record { ctx = c; code = param_invalid; events = [] }
  switch_peer c (some address) time = switch_running c address time

  unfoldable pub is_running : LightContext S → ℕ
  is_running c = if c.running then 1 else 0

  -- `get_peer_state` into a buffer of `len` bytes that is not null: the text with its final zero;
  -- `none` is the code of an invalid argument.
  unfoldable pub get_peer_state : LightContext S → ℕ → Option Bytes
  get_peer_state c len =
      let state = State.to_string c.peer_conn.m_state in
      if ltb len (suc (length state)) then none else some (state ++ 0 ∷ [])

  -- How `mvc_light_start` ends, by its code.
  abbrev pub StartedBy : LightError → ℕ → LightContext S → LightContext S → Type 0
  StartedBy ok time before after =
      (after.running ≡ true) × ConnectedTo before.peer before.peer_conn after.peer_conn time
  StartedBy already_running time before after = (after ≡ before) × (before.running ≡ true)
  StartedBy param_invalid time before after =
      (after ≡ before) × (split_host_port before.peer ≡ none)
  StartedBy peer_disconnected time before after =
      (after.running ≡ false)
      × (after.peer_conn.m_state ≡ disconnected)
      × (after.peer_conn.m_sock.m_connected ≡ false)
  StartedBy _ time before after = ⊥

  started-StartedBy :
      (c : LightContext S) (host : Bytes) (port time : ℕ) (r : LightPeer × Bool)
      → c.running ≡ false
      → split_host_port c.peer ≡ some (host, port)
      → Ended c.peer_conn host port time r
      → StartedBy (started c r).code time c (started c r).ctx
  unfolding started
  started-StartedBy c host port time (p, true) n a e =
      (refl, (record { host = host; port = port; parsed = a; opened = e.0; shaken = e.1 }))
  started-StartedBy c host port time (p, false) n a e = (n, e.0, e.1)

  start_at-StartedBy :
      (c : LightContext S) (time : ℕ) (o : Option (Bytes × ℕ))
      → c.running ≡ false
      → split_host_port c.peer ≡ o
      → StartedBy (start_at c time o).code time c (start_at c time o).ctx
  unfolding start_at
  start_at-StartedBy c time none n e = (refl, e)
  start_at-StartedBy c time (some (host, port)) n e =
      started-StartedBy c host port time (connect_and_handshake c.peer_conn host port time) n e
        (connect_and_handshake-Ended c.peer_conn host port time)

  -- `mvc_light_start` returns OK exactly with a running context behind a finished handshake with the
  -- host and port of its address, on an open connection. Refused because it runs, or for its address,
  -- it changes nothing; and if the peer fails it does not run and the connection is closed.
  pub start-StartedBy :
      (c : LightContext S) (time : ℕ) → StartedBy (start c time).code time c (start c time).ctx
  unfolding start
  start-StartedBy c time = elim (Bool-cases c.running) [
    | inl e ↦ simp e (refl, refl)
    | inr e ↦ simp e (start_at-StartedBy c time (split_host_port c.peer) e refl)
  ]

  -- How `mvc_light_switch_peer` ends, by its code.
  abbrev pub SwitchedBy : LightError → Bytes → ℕ → LightContext S → LightContext S → Type 0
  SwitchedBy ok address time before after =
      (before.running ≡ true)
      × (after.running ≡ true)
      × (after.peer ≡ address)
      × ConnectedTo address before.peer_conn after.peer_conn time
  SwitchedBy peer_disconnected address time before after =
      ((before.running ≡ false) × (after ≡ before))
      ⊎ ((before.running ≡ true)
          × (after.running ≡ true)
          × (after.peer ≡ before.peer)
          × (after.peer_conn.m_state ≡ disconnected)
          × (after.peer_conn.m_sock.m_connected ≡ false))
  SwitchedBy param_invalid address time before after =
      (before.running ≡ true) × (after ≡ before) × (split_host_port address ≡ none)
  SwitchedBy _ address time before after = ⊥

  switched-SwitchedBy :
      (c : LightContext S) (address host : Bytes) (port time : ℕ) (r : LightPeer × Bool)
      → c.running ≡ true
      → split_host_port address ≡ some (host, port)
      → Ended (disconnect c.peer_conn) host port time r
      → SwitchedBy (switched c address r).code address time c (switched c address r).ctx
  unfolding switched disconnect Socket.close
  switched-SwitchedBy c address host port time (p, true) n a e =
      (n, n, refl, (record { host = host; port = port; parsed = a; opened = e.0; shaken = e.1 }))
  switched-SwitchedBy c address host port time (p, false) n a e = inr (n, n, refl, e.0, e.1)

  switch_at-SwitchedBy :
      (c : LightContext S) (address : Bytes) (time : ℕ) (o : Option (Bytes × ℕ))
      → c.running ≡ true
      → split_host_port address ≡ o
      → SwitchedBy (switch_at c address time o).code address time c (switch_at c address time o).ctx
  unfolding switch_at
  switch_at-SwitchedBy c address time none n e = (n, refl, e)
  switch_at-SwitchedBy c address time (some (host, port)) n e =
      switched-SwitchedBy c address host port time
        (connect_and_handshake (disconnect c.peer_conn) host port time) n e
        (connect_and_handshake-Ended (disconnect c.peer_conn) host port time)

  -- `mvc_light_switch_peer` returns OK only in a running context and with a finished handshake on a
  -- connection to the host and port of the new address, which becomes the address of the context. An
  -- invalid address changes nothing. PEER_DISCONNECTED in a running context means that the address
  -- was valid and its peer failed: the old connection is closed too, and yet the context still counts
  -- as running, at the old address.
  pub switch_peer-SwitchedBy :
      (c : LightContext S) (address : Bytes) (time : ℕ)
      → SwitchedBy
          (switch_peer c (some address) time).code
          address
          time
          c
          (switch_peer c (some address) time).ctx
  unfolding switch_peer switch_running
  switch_peer-SwitchedBy c address time = elim (Bool-cases c.running) [
    | inl e ↦ simp e (switch_at-SwitchedBy c address time (split_host_port address) e refl)
    | inr e ↦ simp e (inl (refl, refl))
  ]
