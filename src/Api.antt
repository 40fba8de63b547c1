-- ===== src/Api.antt =====
-- light_api.cpp: the functions of the C interface, over a context that is not null. A string argument
-- that may be null is an option. What a function calls back is a list of events, and the result of a
-- function that prints is the text; the null results of a failing allocation are left out.
pub mod Running
pub mod Sending
pub mod Watching
use mvclight.Base.{
  ℕ, zero, suc, ◌+◌, ◌-◌, Bool, true, false, ◌&&◌, ◌||◌, not, List, [], ◌∷◌, ◌++◌, Option, none,
  some, ltb, leb, codes, if◌then◌else◌, length,
}
use mvclight.Base.Int.{ℤ, pos, negsuc}
use mvclight.Wire.{Bytes}
use mvclight.Uint256.{Uint256}
use mvclight.Text.{split_host_port}
use mvclight.Socket.{LightSocket, Dial}
use mvclight.Peer.{LightPeer, disconnect, connect_and_handshake}
use mvclight.WatchStore.{LevelDb, WatchStore}
use mvclight.WatchStore.Operations.{new as new_store, open_store}
use mvclight.TxPool.{TxPool}
use mvclight.TxPool
use mvclight.SendMonitor.{SendMonitor}

-- The error codes, most of which no function returns.
pub data LightError : Type 0 where
  ok param_invalid not_running already_running net_timeout peer_no_bloom peer_disconnected :
      LightError
  deep_reorg store_open_failed store_failed disk_full filter_full invalid_tx : LightError
  cp_checkpoint_failed internal : LightError

unfoldable pub error_code : LightError → ℤ
error_code ok = pos 0
error_code param_invalid = negsuc 0
error_code not_running = negsuc 1
error_code already_running = negsuc 2
error_code net_timeout = negsuc 3
error_code peer_no_bloom = negsuc 4
error_code peer_disconnected = negsuc 5
error_code deep_reorg = negsuc 6
error_code store_open_failed = negsuc 7
error_code store_failed = negsuc 8
error_code disk_full = negsuc 9
error_code filter_full = negsuc 10
error_code invalid_tx = negsuc 11
error_code cp_checkpoint_failed = negsuc 12
error_code internal = negsuc 98

-- Which of the callbacks are set.
pub record Callbacks : Type 0 where
  pub on_peer_state : Bool
  pub on_send_result : Bool
  pub on_log : Bool

pub data Event : Type 0 where
  peer_state : Bytes → Bool → Bytes → Event
  send_result : Uint256 → ℕ → Event
  log : Bytes → Event

-- `mvc_light_config`, as far as it is used.
pub record LightConfig : Type 0 where
  pub network : Option Bytes
  pub peer : Option Bytes
  pub store_path : Option Bytes
  pub callbacks : Callbacks

pub record LightContext (S : Type 0) : Type 0 where
  pub running : Bool
  pub network : Bytes
  pub peer : Bytes
  pub store_path : Bytes
  pub callbacks : Callbacks
  pub peer_conn : LightPeer
  pub store : WatchStore S
  pub txpool : TxPool
  pub send_monitor : SendMonitor
  pub watch_addresses : List Bytes

module _ {S : Type 0} where
  unfoldable pub emit_peer_state : LightContext S → Bytes → Bool → Bytes → List Event
  emit_peer_state c peer connected event =
      if c.callbacks.on_peer_state then peer_state peer connected event ∷ [] else []

  unfoldable pub emit_send_result : LightContext S → Uint256 → ℕ → List Event
  emit_send_result c txid code =
      if c.callbacks.on_send_result then send_result txid code ∷ [] else []

-- A message to the log of a configuration, whose callback may be null.
unfoldable pub emit_log : LightConfig → Bytes → List Event
emit_log cfg text = if cfg.callbacks.on_log then log text ∷ [] else []

module _ {S : Type 0} (db : LevelDb S) where
  -- `peer_conn` is a new object, with its random number and the answers of the system to come.
  fresh_context : LightConfig → Bytes → Bytes → Bytes → LightPeer → LightContext S
  fresh_context cfg network peer path conn = record {
    running = false;
    network = network;
    peer = peer;
    store_path = path;
    callbacks = cfg.callbacks;
    peer_conn = conn;
    store = new_store db;
    txpool = TxPool.new;
    send_monitor = [];
    watch_addresses = [];
  }

  store_opened :
      LightConfig
      → LightContext S
      → Option (WatchStore S × Bool)
      → Option (Option (LightContext S) × List Event)
  store_opened cfg c none = none
  store_opened cfg c (some (w, true)) = some (some (record c { store = w }), [])
  store_opened cfg c (some (w, false)) =
      some (none, emit_log cfg (codes "mvc_light_init: failed to open LevelDB store"))

  init_with :
      LightConfig
      → LightPeer
      → Option Bytes
      → Option Bytes
      → Option Bytes
      → Option (Option (LightContext S) × List Event)
  unfolding store_opened fresh_context
  init_with cfg conn (some network) (some peer) (some path) =
      let c = fresh_context cfg network peer path conn in
      store_opened cfg c (open_store db c.store path)
  init_with cfg conn _ _ _ =
      some (none, emit_log cfg (codes "mvc_light_init: network/peer/store_path must not be null"))

  -- `mvc_light_init`: `none` inside is the null result, and outside a read out of bounds of `Open`.
  unfoldable pub init : LightConfig → LightPeer → Option (Option (LightContext S) × List Event)
  unfolding init_with
  init cfg conn = init_with cfg conn cfg.network cfg.peer cfg.store_path
