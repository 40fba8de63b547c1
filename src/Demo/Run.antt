-- ===== src/Demo/Run.antt =====
-- demo/demo_win32.cpp: `RunSyncCore`, a whole run of the worker over one peer. `create` sizes a filter,
-- `db` is LevelDB, `time` the time of day and `now` the clock of a run. The flag that stops the
-- thread is set only behind the last turn of the steady state. `none` is undefined behaviour.
pub mod Keeps
pub mod Resumed
pub mod Fresh
pub mod Unsent
use mvclight.Base.{
  ℕ, zero, suc, ◌&&◌, ◌||◌, Bool, true, false, List, [], ◌∷◌, Option, none, some, codes,
  if◌then◌else◌,
}
use mvclight.Base.Int.{ℤ, pos, negsuc, ◌-ℤ◌, leb_ℤ}
use mvclight.Wire.{Bytes}
use mvclight.Uint256
use mvclight.Uint256.{eq as text_eq}
use mvclight.Header.{LightBlockHeader, get_hash}
use mvclight.Chain
use mvclight.Chain.{ChainStore, add_header, add_work, get_tip}
use mvclight.Validation.{check_checkpoint, builtin_checkpoint}
use mvclight.Filter.{BloomFilter}
use mvclight.Message.{LightMessage}
use mvclight.Peer.{LightPeer, disconnect, connect_and_handshake}
use mvclight.Peer.Heartbeat.{send_message, read_message, send_ping}
use mvclight.WatchStore.{LevelDb}
use mvclight.WatchStore.{to_u64}
use mvclight.Demo.Watched.{Watched, handle_tx_message, handle_merkle_block}
use mvclight.Demo.FilterLoad.{Loader, rebuild_filter}
use mvclight.Demo.SyncFile.{save_sync_state, load_sync_state}
use mvclight.Demo.Headers.{
  checkpoint_height, make_get_headers, SyncError, Progress, headers_message,
}

-- The local variables of a run, with the globals that it uses.
pub record Run (S : Type 0) : Type 0 where
  pub loader : Loader
  pub watched : Watched S
  pub progress : Progress
  pub checkpoint_ok : Bool
  pub file : Option Bytes

module _ {S : Type 0} where
  -- The local variables of a run on a peer behind its handshake, at their first values.
  unfoldable pub started : Run S → Run S
  started r = record r {
    progress = record {
      chain = Chain.empty;
      locator = Uint256.null;
      reached = false;
      finished = false;
      err = none;
    };
  }

  unfoldable pub with_peer : Run S → LightPeer → Run S
  with_peer r peer = record r { loader = record r.loader { peer = peer } }

  unfoldable pub fail : Run S → SyncError → Run S
  fail r e = record r { progress = record r.progress { err = some e } }

  -- The tip of the last run becomes the only header of the chain.
  unfoldable pub resumed : Run S → Option (LightBlockHeader × ℤ) → Run S
  resumed r none = r
  resumed r (some (tip, height)) =
      let chain = add_work (add_header r.progress.chain tip height) tip.n_bits in
      if leb_ℤ (pos 0) height
      then record r {
        progress = record r.progress {
          chain = chain;
          locator = get_hash tip;
          reached = leb_ℤ (pos checkpoint_height) height || r.progress.reached;
        };
        checkpoint_ok = leb_ℤ (pos checkpoint_height) height || r.checkpoint_ok;
      }
      else r

  unfoldable pub resume : Run S → Run S
  unfolding resumed
  resume r = resumed r (load_sync_state r.file)

  -- Behind a batch: the checkpoint.
  unfoldable pub after_batch : Run S → Run S
  after_batch r =
      if r.progress.reached || leb_ℤ (pos checkpoint_height) r.progress.chain.m_tip_height
      then record r {
        checkpoint_ok = check_checkpoint r.progress.chain builtin_checkpoint || r.checkpoint_ok;
      }
      else r

  saved : Run S → Option LightBlockHeader → Run S
  saved r none = r
  saved r (some tip) = record r { file = some (save_sync_state tip r.progress.chain.m_tip_height) }

  verdict : Run S → Run S × Bool
  verdict r = (r, r.progress.reached && r.checkpoint_ok)

  -- The end of the run: the file, the connection and the result.
  unfoldable pub finish : Run S → Run S × Bool
  unfolding saved verdict with_peer
  finish r =
      let s = saved r (get_tip r.progress.chain) in verdict (with_peer s (disconnect s.loader.peer))

  with_progress : Run S → Option (Progress × Bool) → Option (Run S × Bool)
  with_progress r none = none
  with_progress r (some (g, got)) = some (record r { progress = g }, got)

  handled : Run S → Option (Watched S) → Option (Run S)
  handled r none = none
  handled r (some g) = some (record r { watched = g })

module _ {S : Type 0} (db : LevelDb S) (create : ℕ → BloomFilter) where
  -- A message other than HEADERS.
  unfoldable pub dispatch : Run S → LightMessage → ℤ → Option (Run S)
  unfolding handled with_peer
  dispatch r msg now =
      if text_eq msg.command (codes "merkleblock")
      then handled r (handle_merkle_block db r.watched r.progress.chain msg.payload now)
      else (if text_eq msg.command (codes "tx")
          then handled r (handle_tx_message db r.watched msg.payload now)
          else (if text_eq msg.command (codes "ping")
              then some (with_peer r (send_message r.loader.peer (codes "pong") msg.payload).0)
              else some r))

  unfoldable pub go_on {ℓ} : {A : Type ℓ} → Option (Run S) → (Run S → Option A) → Option A
  go_on none next = none
  go_on (some r) next = next r

  -- One of the 60 attempts to read the HEADERS; the Boolean is `got`.
  unfoldable pub attempt_turn :
      Run S
      → LightPeer × Option LightMessage
      → ℤ
      → ℤ
      → (Run S → Option (Run S × Bool))
      → Option (Run S × Bool)
  unfolding with_peer fail go_on with_progress
  attempt_turn r (peer, none) time now next =
      if peer.m_sock.m_connected
      then next (with_peer r peer)
      else some (fail (with_peer r peer) SyncError.read_failed, false)
  attempt_turn r (peer, some msg) time now next =
      if text_eq msg.command (codes "headers")
      then with_progress (with_peer r peer) (headers_message time r.progress msg.payload)
      else go_on (dispatch (with_peer r peer) msg now) next

  unfoldable pub attempts : ℕ → ℤ → ℤ → Run S → Option (Run S × Bool)
  attempts zero time now r = some (r, false)
  attempts (suc n) time now r =
      attempt_turn r (read_message r.loader.peer) time now (λ s. attempts n time now s)

  -- GETHEADERS and the answer to it.
  asked : Run S → LightPeer × Bool → ℤ → ℤ → Option (Run S × Bool)
  unfolding with_peer fail
  asked r (peer, false) time now = some (fail (with_peer r peer) SyncError.send_failed, false)
  asked r (peer, true) time now = attempts 60 time now (with_peer r peer)

  unfoldable pub batch : ℤ → ℤ → Run S → Option (Run S × Bool)
  unfolding asked
  batch time now r =
      asked r
        (send_message r.loader.peer (codes "getheaders") (make_get_headers r.progress.locator)) time
        now

  unfoldable pub batch_turn : Option (Run S × Bool) → (Run S → Option (Run S)) → Option (Run S)
  unfolding after_batch
  batch_turn none next = none
  batch_turn (some (r, false)) next = some r
  batch_turn (some (r, true)) next = next (after_batch r)

  unfoldable pub batches : ℕ → ℤ → ℤ → Run S → Option (Run S)
  batches zero time now r = some r
  batches (suc n) time now r =
      let rest = batch_turn (batch time now r) (λ s. batches n time now s) in
      if r.progress.finished then some r else rest

  -- The first half of a turn of the steady state: a ping each minute, and a changed filter.
  pinged : Run S → ℤ → ℤ → ℤ → Run S × ℤ
  unfolding with_peer
  pinged r last now usec =
      if leb_ℤ (pos 60000) (now -ℤ last)
      then (with_peer r (send_ping r.loader.peer (to_u64 now) usec).0, now)
      else (r, last)

  refiltered : Run S → ℤ → Run S
  refiltered r now =
      if r.loader.filter_dirty
      then record r { loader = rebuild_filter create r.loader r.watched.watch_addresses false now }
      else r

  -- The second half: one message.
  steady_turn :
      Run S → LightPeer × Option LightMessage → ℤ → (Run S → Option (Run S)) → Option (Run S)
  unfolding with_peer fail go_on
  steady_turn r (peer, none) now next =
      if peer.m_sock.m_connected
      then next (with_peer r peer)
      else some (fail (with_peer r peer) SyncError.disconnected)
  steady_turn r (peer, some msg) now next = go_on (dispatch (with_peer r peer) msg now) next

  -- The steady state, over the readings of the clock and of the time of day in its turns.
  unfoldable pub steady : List (ℤ × ℤ) → ℤ → Run S → Option (Run S)
  unfolding pinged refiltered steady_turn
  steady [] last r = some r
  steady ((now, usec) ∷ ts) last r =
      let p = pinged r last now usec in
      let q = refiltered p.0 now in
      steady_turn q (read_message q.loader.peer) now (λ s. steady ts p.1 s)

  is_none : Option SyncError → Bool
  is_none none = true
  is_none (some e) = false

  unfoldable pub watch_on : Bool → List (ℤ × ℤ) → ℤ → Run S → Option (Run S)
  unfolding is_none
  watch_on wait_for_txs turns now r =
      let rest = steady turns now r in
      if wait_for_txs && is_none r.progress.err then rest else some r

  finished : Option (Run S) → Option (Run S × Bool)
  finished none = none
  finished (some r) = some (finish r)

  -- `RunSyncCore` behind the connection.
  unfoldable pub run_connected : Run S → Bool → ℤ → ℤ → List (ℤ × ℤ) → Option (Run S × Bool)
  unfolding watch_on finished
  run_connected r wait_for_txs time now turns =
      let s = started r in
      let t = resume (record s {
        loader = rebuild_filter create s.loader s.watched.watch_addresses false now;
      }) in
      finished (go_on (batches 1024 time now t) (watch_on wait_for_txs turns now))

  -- The handshake of a peer of its own, at the start of a run.
  joined : Run S → LightPeer × Bool → (Run S → Option (Run S × Bool)) → Option (Run S × Bool)
  unfolding with_peer fail
  joined r (peer, false) next = some (fail (with_peer r peer) SyncError.connect_failed, false)
  joined r (peer, true) next = next (with_peer r peer)

  -- Without a `target` the run is given an external peer; else its own peer dials host and port.
  unfoldable pub run_sync_core :
      Run S → Option (Bytes × ℕ) → ℕ → Bool → ℤ → ℤ → List (ℤ × ℤ) → Option (Run S × Bool)
  unfolding joined
  run_sync_core r none seconds wait_for_txs time now turns =
      run_connected r wait_for_txs time now turns
  run_sync_core r (some (host, port)) seconds wait_for_txs time now turns =
      joined r (connect_and_handshake r.loader.peer host port seconds)
        (λ s. run_connected s wait_for_txs time now turns)
