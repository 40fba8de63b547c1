-- ===== src/Demo/Run/Unsent.antt =====
-- A run whose first GETHEADERS cannot be sent.
use mvclight.Base.{
  ℕ, suc, ◌≡◌, refl, ap, Bool, true, false, List, Option, none, some, codes, if◌then◌else◌,
}
use mvclight.Base.Int.{ℤ, pos, leb_ℤ}
use mvclight.Header.{LightBlockHeader}
use mvclight.Demo.SyncFile.{load_sync_state}
use mvclight.Peer.{LightPeer}
use mvclight.Peer.Heartbeat.{send_message}
use mvclight.Filter.{BloomFilter}
use mvclight.WatchStore.{LevelDb}
use mvclight.Demo.FilterLoad.{rebuild_filter}
use mvclight.Demo.Headers.{SyncError, make_get_headers}
use mvclight.Demo.Run.{
  Run, started, resume, resumed, with_peer, fail, finish, finished, go_on, asked, batch, batch_turn,
  batches, is_none, watch_on, run_connected,
}

module _ {S : Type 0} (db : LevelDb S) (create : ℕ → BloomFilter) where
  -- The state in front of the first batch.
  abbrev pub first : Run S → ℤ → Run S
  first r now = resume (record (started r) {
    loader = rebuild_filter create r.loader r.watched.watch_addresses false now;
  })

  asked-unsent :
      (r : Run S) (peer : LightPeer) (o : LightPeer × Bool) (time now : ℤ)
      → o ≡ (peer, false)
      → asked db create r o time now ≡ some (fail (with_peer r peer) SyncError.send_failed, false)
  asked-unsent r peer o time now e = rw e (unfold asked in refl)

  turn-unsent :
      (b : Bool) (r s : Run S) (o : Option (Run S × Bool)) (next : Run S → Option (Run S))
      → b ≡ false
      → o ≡ some (s, false)
      → (if b then some r else batch_turn db create o next) ≡ some s
  turn-unsent b r s o next f e = rw (f, e) (unfold batch_turn in refl)

  batches-unsent :
      (n : ℕ) (r : Run S) (peer : LightPeer) (time now : ℤ)
      → send_message r.loader.peer (codes "getheaders") (make_get_headers r.progress.locator)
        ≡ (peer, false)
      → r.progress.finished ≡ false
      → batches db create (suc n) time now r ≡ some (fail (with_peer r peer) SyncError.send_failed)
  unfolding batches batch
  batches-unsent n r peer time now e f =
      turn-unsent r.progress.finished r _ _ (λ s. batches db create n time now s) f
        (asked-unsent r peer _ time now e)

  resumed-finished :
      (r : Run S) (o : Option (LightBlockHeader × ℤ))
      → (resumed r o).progress.finished ≡ r.progress.finished
  unfolding resumed
  resumed-finished r none = refl
  resumed-finished r (some (tip, height)) = by_test (leb_ℤ (pos 0) height) _ refl
    where
      by_test :
          (b : Bool) (s : Run S)
          → s.progress.finished ≡ r.progress.finished
          → (if b then s else r).progress.finished ≡ r.progress.finished
      by_test true s e = e
      by_test false s e = refl

  watch_on-fail :
      (wait_for_txs : Bool) (turns : List (ℤ × ℤ)) (now : ℤ) (r : Run S) (e : SyncError)
      → watch_on db create wait_for_txs turns now (fail r e) ≡ some (fail r e)
  unfolding watch_on is_none fail
  watch_on-fail true turns now r e = refl
  watch_on-fail false turns now r e = refl

  -- A connected run that cannot send its first GETHEADERS ends at once, with the flags and the chain that it
  -- started from or took from the file.
  pub run_connected-unsent :
      (r : Run S) (peer : LightPeer) (wait_for_txs : Bool) (time now : ℤ) (turns : List (ℤ × ℤ))
      → send_message
          (first r now).loader.peer
          (codes "getheaders")
          (make_get_headers (first r now).progress.locator)
        ≡ (peer, false)
      → run_connected db create r wait_for_txs time now turns
        ≡ some (finish (fail (with_peer (first r now) peer) SyncError.send_failed))
  unfolding run_connected resume started go_on finished
  run_connected-unsent r peer wait_for_txs time now turns e =
      rw (batches-unsent 1023 (first r now) peer time now e not_finished) (
        ap (finished db create) (
          watch_on-fail wait_for_txs turns now (with_peer (first r now) peer)
            SyncError.send_failed))
    where
      not_finished : (first r now).progress.finished ≡ false
      not_finished = resumed-finished _ (load_sync_state r.file)
