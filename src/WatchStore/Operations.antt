-- ===== src/WatchStore/Operations.antt =====
-- The operations of `CLightWatchStore`, over a LevelDB.
use mvclight.Base.{Bool, true, false, List, [], ◌∷◌, ◌++◌, Option, none, some, if◌then◌else◌}
use mvclight.Base.Assoc.{uint256_key, find, emplace, contains}
use mvclight.Wire.{Bytes}
use mvclight.Uint256
use mvclight.Uint256.{Uint256}
use mvclight.WatchStore.{
  TxRecord, make_tx_key, make_addr_key, serialize_record, Pair, place, Memory, no_memory, LevelDb,
  WatchStore, load,
}

module _ {S : Type 0} (db : LevelDb S) where
  abbrev pub new : WatchStore S
  new = record { m_db = none; memory = no_memory; m_disk_full = false }

  unfoldable pub close : WatchStore S → WatchStore S
  close w = record w { m_db = none; memory = no_memory }

  unfoldable pub clear_memory : WatchStore S → WatchStore S
  clear_memory w = record w { memory = no_memory }

  unfoldable pub opened : WatchStore S → S → Option Memory → Option (WatchStore S × Bool)
  opened w s none = none
  opened w s (some m) = some (record w { m_db = some s; memory = m }, true)

  unfoldable pub open_result : WatchStore S → Option S → Option (WatchStore S × Bool)
  unfolding opened
  open_result w none = some (w, false)
  open_result w (some s) = opened w s (load no_memory (db.entries s))

  -- `Open` with `LoadFromDB`; `none` when the code reads out of bounds.
  unfoldable pub open_store : WatchStore S → Bytes → Option (WatchStore S × Bool)
  unfolding open_result
  open_store w path = open_result (close w) (db.open_db path)

  unfoldable pub has_tx : WatchStore S → Uint256 → Bool
  has_tx w txid = contains txid w.memory.m_tx_store

  unfoldable pub get_tx : WatchStore S → Uint256 → Option TxRecord
  get_tx w txid = find txid w.memory.m_tx_store

  txids_of : Bytes → List Pair → List Uint256
  txids_of addr [] = []
  txids_of addr ((a, txid) ∷ m) =
      if Uint256.eq a addr then txid ∷ txids_of addr m else txids_of addr m

  -- The identifiers; the result of the C++ function says whether there are any.
  unfoldable pub get_txids_by_addr : WatchStore S → Bytes → List Uint256
  unfolding txids_of
  get_txids_by_addr w addr = txids_of addr w.memory.m_addr_tx_index

  unfoldable pub batch : WatchStore S → Bytes → TxRecord → List (Bytes × Bytes)
  batch w addr rec =
      (if has_tx w rec.txid then [] else (make_tx_key rec.txid, serialize_record rec) ∷ [])
      ++ ((make_addr_key addr rec.txid, []) ∷ [])

  -- The second half of `CommitTx`: the maps in memory.
  unfoldable pub remember : Memory → Bytes → TxRecord → Memory
  remember m addr rec = record {
    m_tx_store = emplace rec.txid rec m.m_tx_store;
    m_addr_tx_index = place (addr, rec.txid) m.m_addr_tx_index;
  }

  unfoldable pub written : WatchStore S → Bytes → TxRecord → S × Bool → WatchStore S × Bool
  unfolding remember
  written w addr rec (s, false) = (record w { m_db = some s }, false)
  written w addr rec (s, true) =
      (record w { m_db = some s; memory = remember w.memory addr rec }, true)

  unfoldable pub commit_to : WatchStore S → Bytes → TxRecord → Option S → WatchStore S × Bool
  unfolding written
  commit_to w addr rec none = (record w { memory = remember w.memory addr rec }, true)
  commit_to w addr rec (some s) = written w addr rec (db.write s (batch w addr rec))

  unfoldable pub commit_tx : WatchStore S → Bytes → TxRecord → WatchStore S × Bool
  unfolding commit_to
  commit_tx w addr rec = if w.m_disk_full then (w, false) else commit_to w addr rec w.m_db
