-- ===== src/Demo/Run/Resumed.antt =====
-- A run that starts from a saved tip.
use mvclight.Base.{arith, ℕ, ◌≡◌, refl, Bool, true, false, ◌||◌, List, Option, none, some, le→leb}
use mvclight.Base.Int.{ℤ, pos, ◌≤ℤ◌, leb_ℤ}
use mvclight.Header.{LightBlockHeader}
use mvclight.Chain.{ChainStore, get_tip}
use mvclight.Validation.{check_checkpoint, builtin_checkpoint}
use mvclight.Wire.{Bytes}
use mvclight.Peer.{LightPeer, disconnect, connect_and_handshake}
use mvclight.Filter.{BloomFilter}
use mvclight.WatchStore.{LevelDb}
use mvclight.Demo.FilterLoad.{rebuild_filter}
use mvclight.Demo.SyncFile.{load_sync_state}
use mvclight.Demo.Headers.{checkpoint_height}
use mvclight.Demo.Headers.Keeps.{OnSome}
use mvclight.Demo.Run.{
  Run, saved, verdict, with_peer, finish, finished, go_on, batches, watch_on, started, resume,
  resumed, joined, run_connected, run_sync_core,
}
use mvclight.Demo.Run.Keeps.{rest-Holds}

-- Both flags are set.
abbrev BothSet : ChainStore → Bool → Bool → Type 0
BothSet c reached ok = (reached ≡ true) × (ok ≡ true)

module _ {S : Type 0} (db : LevelDb S) (create : ℕ → BloomFilter) where
  abbrev pub Succeeds : Run S × Bool → Type 0
  Succeeds p = p.1 ≡ true

  or_left : (a b : Bool) → a ≡ true → (a || b) ≡ true
  or_left a b h = rw h refl

  or_right : (a b : Bool) → b ≡ true → (a || b) ≡ true
  or_right true b h = refl
  or_right false b h = h

  rest-BothSet :
      (wait_for_txs : Bool) (time now : ℤ) (turns : List (ℤ × ℤ)) (r : Run S)
      → BothSet r.progress.chain r.progress.reached r.checkpoint_ok
      → OnSome
          (λ (s : Run S). BothSet s.progress.chain s.progress.reached s.checkpoint_ok)
          (go_on db create
            (batches db create 1024 time now r)
            (watch_on db create wait_for_txs turns now))
  rest-BothSet wait_for_txs time now turns r q =
      rest-Holds db create BothSet (λ ok c reached h b. (or_left reached _ b.0, b.1))
        (λ c reached ok b e. (b.0, or_right (check_checkpoint c builtin_checkpoint) ok b.1))
        wait_for_txs time now turns r q

  finished-Succeeds :
      (o : Option (Run S))
      → OnSome (λ (s : Run S). BothSet s.progress.chain s.progress.reached s.checkpoint_ok) o
      → OnSome Succeeds (finished db create o)
  unfolding finished finish saved verdict with_peer
  finished-Succeeds none q = tt
  finished-Succeeds (some r) q = by_tip (get_tip r.progress.chain)
    where
      by_tip :
          (o : Option LightBlockHeader)
          → (verdict (with_peer (saved r o) (disconnect (saved r o).loader.peer))).1 ≡ true
      by_tip none = rw (q.0, q.1) refl
      by_tip (some tip) = rw (q.0, q.1) refl

  resumed-BothSet :
      (r : Run S) (tip : LightBlockHeader) (height : ℤ)
      → pos checkpoint_height ≤ℤ height
      → let t = resumed r (some (tip, height)) in
        BothSet t.progress.chain t.progress.reached t.checkpoint_ok
  unfolding resumed
  resumed-BothSet r tip height h = rw (above_zero, at_checkpoint) (refl, refl)
    where
      above_zero : leb_ℤ (pos 0) height ≡ true
      above_zero = le→leb _ _ (omega arith)

      at_checkpoint : leb_ℤ (pos checkpoint_height) height ≡ true
      at_checkpoint = le→leb _ _ h

  run_connected-resumed :
      (r : Run S) (tip : LightBlockHeader) (height : ℤ) (wait_for_txs : Bool) (time now : ℤ)
      (turns : List (ℤ × ℤ))
      → load_sync_state r.file ≡ some (tip, height)
      → pos checkpoint_height ≤ℤ height
      → OnSome Succeeds (run_connected db create r wait_for_txs time now turns)
  unfolding run_connected resume started
  run_connected-resumed r tip height wait_for_txs time now turns e h = rw e (
      finished-Succeeds
        (go_on db create (batches db create 1024 time now t)
          (watch_on db create wait_for_txs turns now))
        (rest-BothSet wait_for_txs time now turns t (resumed-BothSet s tip height h)))
    where
      s : Run S
      s = record (started r) {
        loader =
            rebuild_filter create (started r).loader (started r).watched.watch_addresses false now;
      }

      t : Run S
      t = resumed s (some (tip, height))

  -- The run has a connection: it is given a peer, or the handshake of its own peer succeeds.
  abbrev pub Joins : Run S → Option (Bytes × ℕ) → ℕ → Type 0
  Joins r none seconds = Unit
  Joins r (some (host, port)) seconds =
      (connect_and_handshake r.loader.peer host port seconds).1 ≡ true

  joined-resumed :
      (r : Run S) (p : LightPeer × Bool) (tip : LightBlockHeader) (height : ℤ) (wait_for_txs : Bool)
      (time now : ℤ) (turns : List (ℤ × ℤ))
      → p.1 ≡ true
      → load_sync_state r.file ≡ some (tip, height)
      → pos checkpoint_height ≤ℤ height
      → OnSome Succeeds
          (joined db create r p (λ s. run_connected db create s wait_for_txs time now turns))
  unfolding joined with_peer
  joined-resumed r (peer, false) tip height wait_for_txs time now turns j e h = absurd (cc)
  joined-resumed r (peer, true) tip height wait_for_txs time now turns j e h =
      run_connected-resumed (with_peer r peer) tip height wait_for_txs time now turns e h

  -- Once a tip at or above the checkpoint has been saved, every later run that has a connection at its
  -- start and meets no undefined behaviour succeeds: with any header in the file, and whatever the
  -- peer sends, leaves out or refuses from there on.
  pub run_sync_core-resumed :
      (r : Run S) (target : Option (Bytes × ℕ)) (tip : LightBlockHeader) (height : ℤ) (seconds : ℕ)
      (wait_for_txs : Bool) (time now : ℤ) (turns : List (ℤ × ℤ))
      → Joins r target seconds
      → load_sync_state r.file ≡ some (tip, height)
      → pos checkpoint_height ≤ℤ height
      → OnSome Succeeds (run_sync_core db create r target seconds wait_for_txs time now turns)
  unfolding run_sync_core
  run_sync_core-resumed r none tip height seconds wait_for_txs time now turns j e h =
      run_connected-resumed r tip height wait_for_txs time now turns e h
  run_sync_core-resumed r (some (host, port)) tip height seconds wait_for_txs time now turns j e h =
      joined-resumed r (connect_and_handshake r.loader.peer host port seconds) tip height
        wait_for_txs time now turns j e h
