-- ===== src/Demo/Run/Keeps.antt =====
-- What a run of `RunSyncCore` keeps, whatever the peer sends: a predicate on the chain and the two
-- flags that the storing of a header and the test of the checkpoint keep.
use mvclight.Base.{
  ℕ, zero, suc, ◌≡◌, refl, Bool, true, false, ◌&&◌, ◌||◌, List, [], ◌∷◌, Option, none, some, codes,
  if◌then◌else◌, Bool-cases, inl, inr,
}
use mvclight.Base.Int.{ℤ, pos, leb_ℤ, eqb_ℤ, ◌-ℤ◌}
use mvclight.Uint256.{eq as text_eq}
use mvclight.Header.{LightBlockHeader}
use mvclight.Chain.{ChainStore, add_header, add_work}
use mvclight.Validation.{check_checkpoint, builtin_checkpoint}
use mvclight.Filter.{BloomFilter}
use mvclight.Message.{LightMessage}
use mvclight.Peer.{LightPeer}
use mvclight.Peer.Heartbeat.{send_message, read_message}
use mvclight.WatchStore.{LevelDb}
use mvclight.Demo.Watched.{Watched, handle_tx_message, handle_merkle_block}
use mvclight.Demo.Headers.{
  checkpoint_height, next_height, SyncError, Progress, make_get_headers, headers_message,
}
use mvclight.Demo.Headers.Keeps.{OnSome, KeptPair, headers_message-Kept}
use mvclight.Demo.Run.{
  Run, with_peer, fail, after_batch, with_progress, handled, dispatch, go_on, attempt_turn,
  attempts, asked, batch, batch_turn, batches, pinged, refiltered, steady_turn, steady, watch_on,
  is_none,
}

module _ {S : Type 0} (db : LevelDb S) (create : ℕ → BloomFilter)
    (Q : ChainStore → Bool → Bool → Type 0)
    (storing : (ok : Bool) (c : ChainStore) (reached : Bool) (h : LightBlockHeader)
      → Q c reached ok
      → Q
          (add_work (add_header c h (next_height c)) h.n_bits)
          (reached || eqb_ℤ (next_height c) (pos checkpoint_height))
          ok)
    (checking : (c : ChainStore) (reached ok : Bool)
      → Q c reached ok
      → (reached || leb_ℤ (pos checkpoint_height) c.m_tip_height) ≡ true
      → Q c reached (check_checkpoint c builtin_checkpoint || ok)) where
  abbrev pub Holds : Run S → Type 0
  Holds r = Q r.progress.chain r.progress.reached r.checkpoint_ok

  abbrev HoldsPair : Run S × Bool → Type 0
  HoldsPair p = Holds p.0

  with_progress-Holds :
      (r : Run S) (o : Option (Progress × Bool))
      → OnSome (KeptPair (λ c b. Q c b r.checkpoint_ok) (λ c b. storing r.checkpoint_ok c b)) o
      → OnSome HoldsPair (with_progress r o)
  unfolding with_progress
  with_progress-Holds r none q = tt
  with_progress-Holds r (some (g, got)) q = q

  handled-Holds : (r : Run S) (o : Option (Watched S)) → Holds r → OnSome Holds (handled r o)
  unfolding handled
  handled-Holds r none q = tt
  handled-Holds r (some g) q = q

  dispatch-Holds :
      (r : Run S) (msg : LightMessage) (now : ℤ)
      → Holds r
      → OnSome Holds (dispatch db create r msg now)
  unfolding dispatch with_peer
  dispatch-Holds r msg now q =
      by_tests (text_eq msg.command (codes "merkleblock")) (text_eq msg.command (codes "tx"))
        (text_eq msg.command (codes "ping"))
    where
      by_tests :
          (a b c : Bool)
          → OnSome Holds (
              if a
              then handled r (handle_merkle_block db r.watched r.progress.chain msg.payload now)
              else (if b
                  then handled r (handle_tx_message db r.watched msg.payload now)
                  else (if c
                      then some
                          (with_peer r (send_message r.loader.peer (codes "pong") msg.payload).0)
                      else some r)))
      by_tests true b c =
          handled-Holds r (handle_merkle_block db r.watched r.progress.chain msg.payload now) q
      by_tests false true c = handled-Holds r (handle_tx_message db r.watched msg.payload now) q
      by_tests false false true = q
      by_tests false false false = q

  go_on-Holds :
      {A : Type 0} (P : A → Type 0) (o : Option (Run S)) (next : Run S → Option A)
      → OnSome Holds o
      → ((r : Run S) → Holds r → OnSome P (next r))
      → OnSome P (go_on db create o next)
  unfolding go_on
  go_on-Holds P none next q k = tt
  go_on-Holds P (some r) next q k = k r q

  attempt_turn-Holds :
      (r : Run S) (p : LightPeer × Option LightMessage) (time now : ℤ)
      (next : Run S → Option (Run S × Bool))
      → Holds r
      → ((s : Run S) → Holds s → OnSome HoldsPair (next s))
      → OnSome HoldsPair (attempt_turn db create r p time now next)
  unfolding attempt_turn with_peer fail
  attempt_turn-Holds r (peer, none) time now next q k = by_test peer.m_sock.m_connected
    where
      by_test :
          (b : Bool)
          → OnSome HoldsPair (
              if b
              then next (with_peer r peer)
              else some (fail (with_peer r peer) SyncError.read_failed, false))
      by_test true = k (with_peer r peer) q
      by_test false = q
  attempt_turn-Holds r (peer, some msg) time now next q k =
      by_test (text_eq msg.command (codes "headers"))
    where
      by_test :
          (b : Bool)
          → OnSome HoldsPair (
              if b
              then with_progress (with_peer r peer) (headers_message time r.progress msg.payload)
              else go_on db create (dispatch db create (with_peer r peer) msg now) next)
      by_test true =
          with_progress-Holds (with_peer r peer) (headers_message time r.progress msg.payload) (
            headers_message-Kept (λ c b. Q c b r.checkpoint_ok) (λ c b. storing r.checkpoint_ok c b)
              time r.progress msg.payload q)
      by_test false =
          go_on-Holds HoldsPair (dispatch db create (with_peer r peer) msg now) next
            (dispatch-Holds (with_peer r peer) msg now q) k

  attempts-Holds :
      (n : ℕ) (time now : ℤ) (r : Run S)
      → Holds r
      → OnSome HoldsPair (attempts db create n time now r)
  unfolding attempts
  attempts-Holds zero time now r q = q
  attempts-Holds (suc n) time now r q =
      attempt_turn-Holds r (read_message r.loader.peer) time now
        (λ s. attempts db create n time now s) q (λ s. attempts-Holds n time now s)

  after_batch-Holds : (r : Run S) → Holds r → Holds (after_batch r)
  unfolding after_batch
  after_batch-Holds r q =
      by_test (r.progress.reached || leb_ℤ (pos checkpoint_height) r.progress.chain.m_tip_height)
        (λ e. checking r.progress.chain r.progress.reached r.checkpoint_ok q e)
    where
      by_test :
          (b : Bool)
          → (b ≡ true
              → Q r.progress.chain r.progress.reached
                  (check_checkpoint r.progress.chain builtin_checkpoint || r.checkpoint_ok))
          → Holds (
              if b
              then record r {
                checkpoint_ok =
                    check_checkpoint r.progress.chain builtin_checkpoint || r.checkpoint_ok;
              }
              else r)
      by_test true k = k refl
      by_test false k = q

  asked-Holds :
      (r : Run S) (p : LightPeer × Bool) (time now : ℤ)
      → Holds r
      → OnSome HoldsPair (asked db create r p time now)
  unfolding asked with_peer fail
  asked-Holds r (peer, false) time now q = q
  asked-Holds r (peer, true) time now q = attempts-Holds 60 time now (with_peer r peer) q

  batch_turn-Holds :
      (o : Option (Run S × Bool)) (next : Run S → Option (Run S))
      → OnSome HoldsPair o
      → ((s : Run S) → Holds s → OnSome Holds (next s))
      → OnSome Holds (batch_turn db create o next)
  unfolding batch_turn
  batch_turn-Holds none next q k = tt
  batch_turn-Holds (some (r, false)) next q k = q
  batch_turn-Holds (some (r, true)) next q k = k (after_batch r) (after_batch-Holds r q)

  pub batches-Holds :
      (n : ℕ) (time now : ℤ) (r : Run S) → Holds r → OnSome Holds (batches db create n time now r)
  unfolding batches batch
  batches-Holds zero time now r q = q
  batches-Holds (suc n) time now r q =
      by_test r.progress.finished
        (batch_turn db create (batch db create time now r) (λ s. batches db create n time now s))
        (batch_turn-Holds (batch db create time now r) (λ s. batches db create n time now s)
          (asked-Holds r
            (send_message r.loader.peer (codes "getheaders") (make_get_headers r.progress.locator))
            time now q)
          (λ s. batches-Holds n time now s))
    where
      by_test :
          (b : Bool) (rest : Option (Run S))
          → OnSome Holds rest
          → OnSome Holds (if b then some r else rest)
      by_test true rest k = q
      by_test false rest k = k

  pinged-Holds :
      (r : Run S) (last now usec : ℤ) → Holds r → Holds (pinged db create r last now usec).0
  unfolding pinged with_peer
  pinged-Holds r last now usec q = elim (Bool-cases (leb_ℤ (pos 60000) (now -ℤ last))) [
    | inl e ↦ rw e q
    | inr e ↦ rw e q
  ]

  refiltered-Holds : (r : Run S) (now : ℤ) → Holds r → Holds (refiltered db create r now)
  unfolding refiltered
  refiltered-Holds r now q = elim (Bool-cases r.loader.filter_dirty) [
    | inl e ↦ rw e q
    | inr e ↦ rw e q
  ]

  steady_turn-Holds :
      (r : Run S) (p : LightPeer × Option LightMessage) (now : ℤ) (next : Run S → Option (Run S))
      → Holds r
      → ((s : Run S) → Holds s → OnSome Holds (next s))
      → OnSome Holds (steady_turn db create r p now next)
  unfolding steady_turn with_peer fail
  steady_turn-Holds r (peer, none) now next q k = by_test peer.m_sock.m_connected
    where
      by_test :
          (b : Bool)
          → OnSome Holds (
              if b
              then next (with_peer r peer)
              else some (fail (with_peer r peer) SyncError.disconnected))
      by_test true = k (with_peer r peer) q
      by_test false = q
  steady_turn-Holds r (peer, some msg) now next q k =
      go_on-Holds Holds (dispatch db create (with_peer r peer) msg now) next
        (dispatch-Holds (with_peer r peer) msg now q) k

  steady-Holds :
      (turns : List (ℤ × ℤ)) (last : ℤ) (r : Run S)
      → Holds r
      → OnSome Holds (steady db create turns last r)
  unfolding steady
  steady-Holds [] last r q = q
  steady-Holds ((now, usec) ∷ ts) last r q =
      let p = pinged db create r last now usec in
      let t = refiltered db create p.0 now in
      steady_turn-Holds t (read_message t.loader.peer) now (λ s. steady db create ts p.1 s)
        (refiltered-Holds p.0 now (pinged-Holds r last now usec q)) (λ s. steady-Holds ts p.1 s)

  -- The way from the first batch to the end of the steady state.
  pub rest-Holds :
      (wait_for_txs : Bool) (time now : ℤ) (turns : List (ℤ × ℤ)) (r : Run S)
      → Holds r
      → OnSome Holds (
          go_on db create
            (batches db create 1024 time now r)
            (watch_on db create wait_for_txs turns now))
  unfolding watch_on
  rest-Holds wait_for_txs time now turns r q =
      go_on-Holds Holds (batches db create 1024 time now r)
        (watch_on db create wait_for_txs turns now) (batches-Holds 1024 time now r q)
        (λ s h.
          by_test (wait_for_txs && is_none db create s.progress.err) s
            (steady db create turns now s) h (steady-Holds turns now s h))
    where
      by_test :
          (b : Bool) (s : Run S) (rest : Option (Run S))
          → Holds s
          → OnSome Holds rest
          → OnSome Holds (if b then rest else some s)
      by_test true s rest h k = k
      by_test false s rest h k = h
