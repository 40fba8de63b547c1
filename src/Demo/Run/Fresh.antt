-- ===== src/Demo/Run/Fresh.antt =====
-- A run that starts with an empty chain.
use mvclight.Base.{
  arith, ℕ, ◌≡◌, refl, ◌∙◌, Bool, true, false, ◌&&◌, ◌||◌, List, Option, none, some, leb→le,
}
use mvclight.Base.Int.{ℤ, pos, ◌≤ℤ◌, leb_ℤ, eqb_ℤ, ltb_ℤ, ◌+ℤ◌, +ℤ_parts}
use mvclight.Base.Assoc.{int_key, find-assign}
use mvclight.Header.{LightBlockHeader}
use mvclight.Chain.{ChainStore, get_tip, add_header, add_work, get_header_at_height}
use mvclight.Validation.{check_checkpoint, builtin_checkpoint}
use mvclight.Validation.Checkpoint.{HasCheckpoint, check_checkpoint-HasCheckpoint}
use mvclight.Wire.{Bytes}
use mvclight.Peer.{LightPeer, disconnect, connect_and_handshake}
use mvclight.Filter.{BloomFilter}
use mvclight.WatchStore.{LevelDb}
use mvclight.Demo.FilterLoad.{rebuild_filter}
use mvclight.Demo.SyncFile.{load_sync_state}
use mvclight.Demo.Headers.{checkpoint_height, next_height}
use mvclight.Demo.Headers.Keeps.{OnSome}
use mvclight.Demo.Run.{
  Run, saved, verdict, with_peer, finish, finished, go_on, batches, watch_on, started, resume,
  resumed, joined, run_connected, run_sync_core,
}
use mvclight.Demo.Run.Keeps.{Holds, rest-Holds}

-- What the two flags say of the chain.
record Stands (c : ChainStore) (reached ok : Bool) : Type 0 where
  high : reached ≡ true → pos checkpoint_height ≤ℤ c.m_tip_height
  above : ok ≡ true → pos checkpoint_height ≤ℤ c.m_tip_height
  stored : ok ≡ true → HasCheckpoint c

one_higher :
    (c : ChainStore) (h : LightBlockHeader) (bits : ℕ)
    → (add_work (add_header c h (next_height c)) bits).m_tip_height ≡ next_height c
unfolding add_work add_header next_height
one_higher c h bits = rw (more) refl
  where
    more : ltb_ℤ c.m_tip_height (c.m_tip_height +ℤ pos 1) ≡ true
    more = ground (arith, +ℤ_parts c.m_tip_height (pos 1))

next_height-ge : (c : ChainStore) → c.m_tip_height ≤ℤ next_height c
unfolding next_height
next_height-ge c = omega (arith, +ℤ_parts c.m_tip_height (pos 1))

kept_below :
    (c : ChainStore) (h : LightBlockHeader) (bits : ℕ)
    → pos checkpoint_height ≤ℤ c.m_tip_height
    → get_header_at_height (add_work (add_header c h (next_height c)) bits) (pos checkpoint_height)
      ≡ get_header_at_height c (pos checkpoint_height)
unfolding add_work add_header get_header_at_height next_height
kept_below c h bits k =
    rw (find-assign (pos checkpoint_height) (c.m_tip_height +ℤ pos 1) h c.m_by_height, differs) refl
  where
    differs : eqb_ℤ (c.m_tip_height +ℤ pos 1) (pos checkpoint_height) ≡ false
    differs = ground (arith, +ℤ_parts c.m_tip_height (pos 1))

storing-Stands :
    (ok : Bool) (c : ChainStore) (reached : Bool) (h : LightBlockHeader)
    → Stands c reached ok
    → Stands
        (add_work (add_header c h (next_height c)) h.n_bits)
        (reached || eqb_ℤ (next_height c) (pos checkpoint_height))
        ok
storing-Stands ok c reached h s = record {
  high = λ e. rw (one_higher c h h.n_bits) (high reached (s.high) e);
  above = λ e. rw (one_higher c h h.n_bits) (omega (arith, s.above e, next_height-ge c));
  stored =
      λ e. ((s.stored e).0, kept_below c h h.n_bits (s.above e) ∙ (s.stored e).1, (s.stored e).2);
}
  where
    high :
        (b : Bool)
        → (b ≡ true → pos checkpoint_height ≤ℤ c.m_tip_height)
        → (b || eqb_ℤ (next_height c) (pos checkpoint_height)) ≡ true
        → pos checkpoint_height ≤ℤ next_height c
    high true k e = omega (arith, k refl, next_height-ge c)
    high false k e = ground (arith, e)

checking-Stands :
    (c : ChainStore) (reached ok : Bool)
    → Stands c reached ok
    → (reached || leb_ℤ (pos checkpoint_height) c.m_tip_height) ≡ true
    → Stands c reached (check_checkpoint c builtin_checkpoint || ok)
checking-Stands c reached ok s e =
    by_check (check_checkpoint c builtin_checkpoint) (λ k. check_checkpoint-HasCheckpoint c k)
  where
    high :
        (b : Bool)
        → (b ≡ true → pos checkpoint_height ≤ℤ c.m_tip_height)
        → (b || leb_ℤ (pos checkpoint_height) c.m_tip_height) ≡ true
        → pos checkpoint_height ≤ℤ c.m_tip_height
    high true k h = k refl
    high false k h = leb→le _ _ h

    by_check : (b : Bool) → (b ≡ true → HasCheckpoint c) → Stands c reached (b || ok)
    by_check true k = record {
      high = s.high;
      above = λ h. high reached s.high e;
      stored = λ h. k refl;
    }
    by_check false k = s

-- What the result of a run says of the chain that it ends with.
module _ {S : Type 0} (db : LevelDb S) (create : ℕ → BloomFilter) where
  abbrev pub Anchored : Run S × Bool → Type 0
  Anchored p = p.1 ≡ true → HasCheckpoint p.0.progress.chain

  finished-Anchored :
      (o : Option (Run S))
      → OnSome (Holds db create Stands storing-Stands checking-Stands) o
      → OnSome Anchored (finished db create o)
  unfolding finished finish saved verdict with_peer
  finished-Anchored none q = tt
  finished-Anchored (some r) q = by_tip (get_tip r.progress.chain)
    where
      both : (a b : Bool) → (a && b) ≡ true → b ≡ true
      both true b h = h
      both false b h = cc h

      by_tip :
          (o : Option LightBlockHeader)
          → Anchored (verdict (with_peer (saved r o) (disconnect (saved r o).loader.peer)))
      by_tip none = λ h. q.stored (both r.progress.reached r.checkpoint_ok h)
      by_tip (some tip) = λ h. q.stored (both r.progress.reached r.checkpoint_ok h)

  run_connected-Anchored :
      (r : Run S) (wait_for_txs : Bool) (time now : ℤ) (turns : List (ℤ × ℤ))
      → load_sync_state r.file ≡ none
      → r.checkpoint_ok ≡ false
      → OnSome Anchored (run_connected db create r wait_for_txs time now turns)
  unfolding run_connected resume resumed started
  run_connected-Anchored r wait_for_txs time now turns e f = rw e (
      finished-Anchored
        (go_on db create (batches db create 1024 time now s)
          (watch_on db create wait_for_txs turns now))
        (rest-Holds db create Stands storing-Stands checking-Stands wait_for_txs time now turns s
          start))
    where
      s : Run S
      s = record (started r) {
        loader =
            rebuild_filter create (started r).loader (started r).watched.watch_addresses false now;
      }

      start : Stands (started r).progress.chain false r.checkpoint_ok
      start = record { high = λ k. cc k; above = λ k. cc (k, f); stored = λ k. absurd (cc) }

  joined-Anchored :
      (r : Run S) (p : LightPeer × Bool) (wait_for_txs : Bool) (time now : ℤ) (turns : List (ℤ × ℤ))
      → load_sync_state r.file ≡ none
      → r.checkpoint_ok ≡ false
      → OnSome Anchored
          (joined db create r p (λ s. run_connected db create s wait_for_txs time now turns))
  unfolding joined with_peer
  joined-Anchored r (peer, false) wait_for_txs time now turns e f = λ k. absurd (cc)
  joined-Anchored r (peer, true) wait_for_txs time now turns e f =
      run_connected-Anchored (with_peer r peer) wait_for_txs time now turns e f

  -- A run without a saved state, with the flag of the checkpoint not set by an earlier run, and that
  -- meets no undefined behaviour, succeeds only with the checkpoint in its chain: the header at height
  -- 21256 has the built-in hash, whatever the peer sends, also behind that header.
  pub run_sync_core-Anchored :
      (r : Run S) (target : Option (Bytes × ℕ)) (seconds : ℕ) (wait_for_txs : Bool) (time now : ℤ)
      (turns : List (ℤ × ℤ))
      → load_sync_state r.file ≡ none
      → r.checkpoint_ok ≡ false
      → OnSome Anchored (run_sync_core db create r target seconds wait_for_txs time now turns)
  unfolding run_sync_core
  run_sync_core-Anchored r none seconds wait_for_txs time now turns e f =
      run_connected-Anchored r wait_for_txs time now turns e f
  run_sync_core-Anchored r (some (host, port)) seconds wait_for_txs time now turns e f =
      joined-Anchored r (connect_and_handshake r.loader.peer host port seconds) wait_for_txs time
        now turns e f
