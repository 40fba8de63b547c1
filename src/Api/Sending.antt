-- ===== src/Api/Sending.antt =====
-- light_api.cpp: `mvc_light_send_raw_tx`.
use mvclight.Base.{
  ℕ, ◌*◌, ◌≡◌, refl, arith, Bool, true, false, List, [], Option, some, ltb, codes, if◌then◌else◌,
  length, ◌≤◌, ◌++◌, ◌⊎◌, inl, inr, Bool-cases, none, ◌<◌, ◌^◌, le→ltb_false,
}
use mvclight.Base.Int.{pos}
use mvclight.Wire.{Bytes}
use mvclight.Uint256.{Uint256, get_hex}
use mvclight.Sha256.{sha256d}
use mvclight.Text.{hex_to_bytes}
use mvclight.Socket.{LightSocket, send_all}
use mvclight.Socket.Send.{Delivered, send_all-Delivered}
use mvclight.Peer.{send_encoded, send_frame}
use mvclight.Peer.Handshake.{frame_of, frame_of-short}
use mvclight.Peer.Heartbeat.{send_message}
use mvclight.TxPool.{TxPool, enqueue}
use mvclight.SendMonitor.{record_sent}
use mvclight.Api.{Event, LightContext, emit_send_result}

abbrev pub max_hex : ℕ
max_hex = 16 * 1024 * 1024 * 2

-- The context, the text that is returned, unless it is null, and the calls.
pub record Sent (S : Type 0) : Type 0 where
  pub ctx : LightContext S
  pub text : Option Bytes
  pub events : List Event

-- What became of a frame: all of it stands behind what was sent before, on an open connection; or the
-- connection is closed; or the message was too large for a frame, and nothing happened.
abbrev pub Fate : Option Bytes → LightSocket → LightSocket → Type 0
Fate frame before after =
    ((bytes : Bytes) × (frame ≡ some bytes)
      × (after.sent ≡ before.sent ++ bytes)
      × (after.m_connected ≡ true))
    ⊎ ((after.m_connected ≡ false) ⊎ ((frame ≡ none) × (after ≡ before)))

send_encoded-Fate :
    (s : LightSocket) (frame : Option Bytes)
    → ((bytes : Bytes) → frame ≡ some bytes → length bytes < 2 ^ 31)
    → Fate frame s (send_encoded s frame).0
unfolding send_encoded
send_encoded-Fate s none short = inr (inr (refl, refl))
send_encoded-Fate s (some bytes) short = elim (Bool-cases s.m_connected) [
  | inl c ↦ by_result (send_all s bytes) (send_all-Delivered s bytes c (short bytes refl))
  | inr c ↦ unfold send_all in simp c (inr (inl refl))
]
  where
    by_result : (r : LightSocket × Bool) → Delivered s.sent bytes r → Fate (some bytes) s r.0
    by_result (t, true) d = inl (bytes, refl, d.0, d.1)
    by_result (t, false) d = inr (inl d.0)

send_frame-Fate :
    (s : LightSocket) (command payload : Bytes)
    → Fate (frame_of command payload) s (send_frame s command payload).0
unfolding send_frame
send_frame-Fate s command payload =
    send_encoded-Fate s (frame_of command payload) (frame_of-short command payload)

module _ {S : Type 0} where
  -- A transaction that is new to the pool.
  send_running : LightContext S → Bytes → Uint256 → Sent S
  send_running c tx txid =
      if c.running
      then record {
        ctx = record c {
          peer_conn = (send_message c.peer_conn (codes "tx") tx).0;
          send_monitor = record_sent c.send_monitor txid (pos 0);
        };
        text = some (get_hex txid);
        events = emit_send_result c txid 0;
      }
      else record { ctx = c; text = some (get_hex txid); events = [] }

  enqueued : LightContext S → Bytes → Uint256 → TxPool × Bool → Sent S
  unfolding send_running
  enqueued c tx txid (pool, false) = record {
    ctx = record c { txpool = pool };
    text = some (get_hex txid);
    events = [];
  }
  enqueued c tx txid (pool, true) = send_running (record c { txpool = pool }) tx txid

  send_decoded : LightContext S → Option Bytes → Sent S
  unfolding enqueued
  send_decoded c none = record { ctx = c; text = none; events = [] }
  send_decoded c (some tx) = enqueued c tx (sha256d tx) (enqueue c.txpool (sha256d tx))

  unfoldable pub send_raw_tx : LightContext S → Option Bytes → Sent S
  unfolding send_decoded
  send_raw_tx c none = record { ctx = c; text = none; events = [] }
  send_raw_tx c (some hex) =
      if ltb max_hex (length hex)
      then record { ctx = c; text = none; events = [] }
      else send_decoded c (hex_to_bytes hex)

  -- A transaction that is reported: the one call, the text and the entry of the monitor.
  pub record Reported (c : LightContext S) (tx : Bytes) (txid : Uint256) (r : Sent S) : Type 0 where
    pub text_is : r.text ≡ some (get_hex txid)
    pub events_are : r.events ≡ emit_send_result c txid 0
    pub monitor_is : r.ctx.send_monitor ≡ record_sent c.send_monitor txid (pos 0)
    pub fate : Fate (frame_of (codes "tx") tx) c.peer_conn.m_sock r.ctx.peer_conn.m_sock

  enqueued-Reported :
      (c : LightContext S) (tx : Bytes) (txid : Uint256) (r : TxPool × Bool)
      → c.running ≡ true
      → r.1 ≡ true
      → Reported c tx txid (enqueued c tx txid r)
  unfolding enqueued send_running send_message
  enqueued-Reported c tx txid (pool, true) e f = simp e (record {
    text_is = refl;
    events_are = unfold emit_send_result in refl;
    monitor_is = refl;
    fate = send_frame-Fate c.peer_conn.m_sock (codes "tx") tx;
  })
  enqueued-Reported c tx txid (pool, false) e f = absurd (grind (arith, f))

  -- In a running context a valid transaction that is new to the pool is reported as sent, and awaited
  -- until two hours after time 0, whichever of three things became of it: its whole frame was sent on
  -- the open connection, the connection is closed, or it was too large for a frame and nothing was
  -- sent.
  pub send_raw_tx-Reported :
      (c : LightContext S) (hex tx : Bytes)
      → c.running ≡ true
      → length hex ≤ max_hex
      → hex_to_bytes hex ≡ some tx
      → (enqueue c.txpool (sha256d tx)).1 ≡ true
      → Reported c tx (sha256d tx) (send_raw_tx c (some hex))
  unfolding send_raw_tx send_decoded
  send_raw_tx-Reported c hex tx e l h f =
      rw (le→ltb_false max_hex (length hex) l, h)
        (enqueued-Reported c tx (sha256d tx) (enqueue c.txpool (sha256d tx)) e f)
