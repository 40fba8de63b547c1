-- ===== src/Demo/Watched/Commit.antt =====
-- Under which addresses a paired transaction is stored.
use mvclight.Base.{
  ◌≡◌, refl, ap, ◌∙◌, Bool, true, false, ◌||◌, List, [], ◌∷◌, Option, none, some, if◌then◌else◌,
}
use mvclight.Wire.{Bytes}
use mvclight.Uint256.{Uint256}
use mvclight.PendingTx.{PendingEntry}
use mvclight.WatchStore.{TxRecord, Pair, pair_eq, listed, LevelDb, WatchStore}
use mvclight.WatchStore.Operations.{batch, remember, written, commit_to, commit_tx}
use mvclight.WatchStore.Index.{listed-place}
use mvclight.Demo.Watched.{
  Watched, record_of, commit_all, refresh_tx_list, commit_watched, commit_paired_tx,
}

-- Whether `k` is one of the addresses, with the identifier.
unfoldable pub among : List Bytes → Uint256 → Pair → Bool
among [] txid k = false
among (a ∷ addrs) txid k = pair_eq (a, txid) k || among addrs txid k

or_rotate : (a b c : Bool) → (a || (b || c)) ≡ ((b || a) || c)
or_rotate true true c = refl
or_rotate true false c = refl
or_rotate false true c = refl
or_rotate false false c = refl

module _ {S : Type 0} (db : LevelDb S) where
  -- LevelDB takes every write.
  abbrev pub Writes : Type 0
  Writes = (s : S) (entries : List (Bytes × Bytes)) → (db.write s entries).1 ≡ true

  -- The index behind a commit, and the switch that makes it fail.
  record Indexed (w v : WatchStore S) (addr : Bytes) (txid : Uint256) : Type 0 where
    index :
        (k : Pair)
        → listed k v.memory.m_addr_tx_index
          ≡ (pair_eq (addr, txid) k || listed k w.memory.m_addr_tx_index)
    not_full : v.m_disk_full ≡ w.m_disk_full

  written-Indexed :
      (w : WatchStore S) (addr : Bytes) (rec : TxRecord) (r : S × Bool)
      → r.1 ≡ true
      → Indexed w (written db w addr rec r).0 addr rec.txid
  unfolding written remember
  written-Indexed w addr rec (s, false) h = absurd (cc)
  written-Indexed w addr rec (s, true) h = record {
    index = λ k. listed-place (addr, rec.txid) k w.memory.m_addr_tx_index;
    not_full = refl;
  }

  commit_tx-Indexed :
      (w : WatchStore S) (addr : Bytes) (rec : TxRecord)
      → Writes
      → w.m_disk_full ≡ false
      → Indexed w (commit_tx db w addr rec).0 addr rec.txid
  unfolding commit_tx commit_to remember
  commit_tx-Indexed w addr rec takes h = by_full w.m_disk_full h
    where
      by_db : (o : Option S) → Indexed w (commit_to db w addr rec o).0 addr rec.txid
      by_db none = record {
        index = λ k. listed-place (addr, rec.txid) k w.memory.m_addr_tx_index;
        not_full = refl;
      }
      by_db (some s) =
          written-Indexed w addr rec (db.write s (batch db w addr rec))
            (takes s (batch db w addr rec))

      by_full :
          (b : Bool)
          → b ≡ false
          → Indexed w (if b then (w, false) else commit_to db w addr rec w.m_db).0 addr rec.txid
      by_full true e = absurd (cc)
      by_full false e = by_db w.m_db

  commit_all-among :
      (w : WatchStore S) (addrs : List Bytes) (rec : TxRecord) (k : Pair)
      → Writes
      → w.m_disk_full ≡ false
      → listed k (commit_all db w addrs rec).memory.m_addr_tx_index
        ≡ (among addrs rec.txid k || listed k w.memory.m_addr_tx_index)
  unfolding commit_all among
  commit_all-among w [] rec k takes h = refl
  commit_all-among w (a ∷ addrs) rec k takes h =
      commit_all-among (commit_tx db w a rec).0 addrs rec k takes (one.not_full ∙ h)
      ∙ ap (λ (b : Bool). among addrs rec.txid k || b) (one.index k)
      ∙ or_rotate (among addrs rec.txid k) (pair_eq (a, rec.txid) k)
          (listed k w.memory.m_addr_tx_index)
    where
      one : Indexed w (commit_tx db w a rec).0 a rec.txid
      one = commit_tx-Indexed w a rec takes h

  -- While LevelDB takes every write and the test switch for a full disk is off, `CommitPairedTx`
  -- indexes the transaction under every watched address, whichever of them it pays, and under no
  -- other, and keeps the rest of the index.
  pub commit_paired_tx-among :
      (g : Watched S) (out : PendingEntry) (k : Pair)
      → Writes
      → g.store.m_disk_full ≡ false
      → listed k (commit_paired_tx db g out).store.memory.m_addr_tx_index
        ≡ (among g.watch_addresses out.txid k || listed k g.store.memory.m_addr_tx_index)
  unfolding commit_paired_tx commit_watched refresh_tx_list record_of
  commit_paired_tx-among g out k takes h = by_addresses g.watch_addresses
    where
      by_addresses :
          (addrs : List Bytes)
          → listed k
              (commit_watched db g addrs
                (record_of out.txid out.height out.block_hash)).store.memory.m_addr_tx_index
            ≡ (among addrs out.txid k || listed k g.store.memory.m_addr_tx_index)
      by_addresses [] = unfold among in refl
      by_addresses (a ∷ addrs) =
          commit_all-among g.store (a ∷ addrs) (record_of out.txid out.height out.block_hash) k
            takes h
