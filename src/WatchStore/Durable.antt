-- ===== src/WatchStore/Durable.antt =====
-- The operations of the watch store, as their callers see them.
use mvclight.Base.{
  ◌≡◌, refl, sym, ap, subst, ◌∙◌, arith, Bool, true, false, ◌||◌, Option, none, some, if◌then◌else◌,
  length, Bool-cases, inl, inr,
}
use mvclight.Base.Assoc.{uint256_key, find}
use mvclight.Wire.{Bytes}
use mvclight.Uint256.{Uint256, eq}
use mvclight.WatchStore.Layout.{IsRecord}
use mvclight.WatchStore.{TxRecord, Pair, pair_eq, listed, Memory, no_memory, LevelDb, WatchStore}
use mvclight.WatchStore.Operations.{
  close, opened, open_result, open_store, get_tx, batch, remember, written, commit_to, commit_tx,
}
use mvclight.WatchStore.Index.{IsAddress, listed-place}
use mvclight.WatchStore.Load.{Loaded, load_lem}
use mvclight.WatchStore.Stored.{first, find-emplace-first}
use mvclight.WatchStore.Disk.{LevelDbLaws}
use mvclight.WatchStore.Commit.{Backed, written-Backed, unwritten-Backed}

module _ {S : Type 0} (db : LevelDb S) where
  state_or : S → Option S → S
  state_or d none = d
  state_or d (some s) = s

  -- What `CommitTx` does to the maps, by its result.
  abbrev pub Committed : WatchStore S → Bytes → TxRecord → WatchStore S × Bool → Type 0
  Committed w addr rec (v, true) =
      ((t : Uint256)
        → get_tx db v t ≡ first (get_tx db w t) (if eq rec.txid t then some rec else none))
      × ((k : Pair)
          → listed k v.memory.m_addr_tx_index
            ≡ (pair_eq (addr, rec.txid) k || listed k w.memory.m_addr_tx_index))
  Committed w addr rec (v, false) = v.memory ≡ w.memory

  written-Committed :
      (w : WatchStore S) (addr : Bytes) (rec : TxRecord) (r : S × Bool)
      → Committed w addr rec (written db w addr rec r)
  unfolding written remember get_tx
  written-Committed w addr rec (s, false) = refl
  written-Committed w addr rec (s, true) = (
    λ t. find-emplace-first t rec.txid rec w.memory.m_tx_store,
    λ k. listed-place (addr, rec.txid) k w.memory.m_addr_tx_index,
  )

  commit_to-Committed :
      (w : WatchStore S) (addr : Bytes) (rec : TxRecord) (o : Option S)
      → Committed w addr rec (commit_to db w addr rec o)
  unfolding commit_to remember get_tx
  commit_to-Committed w addr rec none = (
    λ t. find-emplace-first t rec.txid rec w.memory.m_tx_store,
    λ k. listed-place (addr, rec.txid) k w.memory.m_addr_tx_index,
  )
  commit_to-Committed w addr rec (some s) =
      written-Committed w addr rec (db.write s (batch db w addr rec))

  -- Whatever LevelDB does, a `CommitTx` that succeeds adds its transaction, unless one with that
  -- identifier is there, and its address, and changes no other lookup; one that fails changes none.
  pub commit_tx-Committed :
      (w : WatchStore S) (addr : Bytes) (rec : TxRecord)
      → Committed w addr rec (commit_tx db w addr rec)
  unfolding commit_tx
  commit_tx-Committed w addr rec =
      by_test w.m_disk_full (commit_to db w addr rec w.m_db) (commit_to-Committed w addr rec w.m_db)
    where
      by_test :
          (b : Bool) (r : WatchStore S × Bool)
          → Committed w addr rec r
          → Committed w addr rec (if b then (w, false) else r)
      by_test true r h = refl
      by_test false r h = h

  module _ (laws : LevelDbLaws db) where
    write_result-Backed :
        (w : WatchStore S) (s : S) (addr : Bytes) (rec : TxRecord) (r : S × Bool)
        → Backed db w s
        → IsAddress addr
        → IsRecord rec
        → length rec.txid ≡ 32
        → db.write s (batch db w addr rec) ≡ r
        → Backed db (written db w addr rec r).0 r.0
    unfolding written
    write_result-Backed w s addr rec (after, true) b a r l e =
        written-Backed db laws w s after addr rec b a r l e
    write_result-Backed w s addr rec (after, false) b a r l e =
        unwritten-Backed db laws w s after (batch db w addr rec) b e

    commit_to-Backed :
        (w : WatchStore S) (s : S) (addr : Bytes) (rec : TxRecord) (o : Option S)
        → Backed db w s
        → IsAddress addr
        → IsRecord rec
        → length rec.txid ≡ 32
        → some s ≡ o
        → (after : S) × Backed db (commit_to db w addr rec o).0 after
    unfolding commit_to state_or
    commit_to-Backed w s addr rec none b a r l e = absurd (grind (arith, e))
    commit_to-Backed w s addr rec (some t) b a r l e = (
      (db.write t (batch db w addr rec)).0,
      write_result-Backed w t addr rec (db.write t (batch db w addr rec))
          (subst (λ (z : S). Backed db w z) (ap (state_or s) e) b) a r l refl,
    )

    -- In a store whose memory is what LevelDB has, this still holds after a `CommitTx` of a record of
    -- less than 4 GiB under an address without a zero, whether the write succeeds, fails or is not
    -- tried because the disk is full.
    pub commit_tx-Backed :
        (w : WatchStore S) (s : S) (addr : Bytes) (rec : TxRecord)
        → Backed db w s
        → IsAddress addr
        → IsRecord rec
        → length rec.txid ≡ 32
        → (after : S) × Backed db (commit_tx db w addr rec).0 after
    unfolding commit_tx
    commit_tx-Backed w s addr rec b a r l = elim (Bool-cases w.m_disk_full) [
      | inl e ↦ simp e (s, b)
      | inr e ↦ simp e (commit_to-Backed w s addr rec w.m_db b a r l (sym b.is_open))
    ]

  -- What a new `Open` of the same database gives.
  pub record Reopened (w : WatchStore S) (s : S) (path : Bytes) : Type 0 where
    pub store : WatchStore S
    pub opens : open_store db w path ≡ some (store, true)
    pub backed : Backed db store s
    pub same_txs : (t : Uint256) → get_tx db store t ≡ get_tx db w t
    pub same_pairs :
        (a : Bytes) (t : Uint256)
        → IsAddress a
        → listed (a, t) store.memory.m_addr_tx_index ≡ listed (a, t) w.memory.m_addr_tx_index

  -- A store whose memory is what LevelDB has is opened again with the same transactions and the same
  -- addresses of each transaction, and its memory is again what LevelDB has.
  pub open_store-Backed :
      (w : WatchStore S) (s : S) (path : Bytes)
      → Backed db w s
      → db.open_db path ≡ some s
      → Reopened w s path
  unfolding open_store open_result opened close get_tx find listed
  open_store-Backed w s path b e = record {
    store = record w { m_db = some s; memory = loaded.0 };
    opens = rw (e, loaded.1.is_loaded) refl;
    backed = record { is_open = refl; ours = b.ours; txs = loaded.1.txs; pairs = loaded.1.pairs };
    same_txs = λ t. loaded.1.txs t ∙ sym (b.txs t);
    same_pairs = λ a t h. loaded.1.pairs a t h ∙ sym (b.pairs a t h);
  }
    where
      loaded : (n : Memory) × Loaded no_memory (db.entries s) n
      loaded = load_lem no_memory (db.entries s) b.ours
