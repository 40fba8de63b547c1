-- ===== src/Demo/Watched.antt =====
-- demo/demo_win32.cpp: the transactions of the watched addresses. The store lies on LevelDB, a
-- parameter; `none` of a whole operation is undefined behaviour of a part that it calls. The lines of
-- the log are left out.
pub mod Commit
use mvclight.Base.{
  ℕ, ◌==◌, Bool, true, false, ◌||◌, List, [], ◌∷◌, Option, none, some, if◌then◌else◌,
}
use mvclight.Base.Int.{ℤ, pos, ◌+ℤ◌}
use mvclight.Wire.{Bytes}
use mvclight.Uint256
use mvclight.Uint256.{Uint256}
use mvclight.Header.{get_hash}
use mvclight.Chain.{ChainStore, get_height_by_hash}
use mvclight.Merkle.{LightMerkleBlock, deserialize_block, extract_matches_block}
use mvclight.PendingTx.{PendingEntry, PendingTxMap, add_tx, add_merkle, try_pair}
use mvclight.WatchStore.{TxRecord, LevelDb, WatchStore}
use mvclight.WatchStore.Operations.{commit_tx, get_tx, get_txids_by_addr}
use mvclight.Demo.Parse.{Outcome, done, refused, undefined, parse_txid, Scan}

pub record TxItem : Type 0 where
  pub txid : Bytes
  pub block_hash : Bytes
  pub height : ℤ
  pub verified : Bool

-- The parts of the global state that these functions share.
pub record Watched (S : Type 0) : Type 0 where
  pub watch_addresses : List Bytes
  pub store : WatchStore S
  pub pending : PendingTxMap
  pub txs : List TxItem

-- The record that is stored for a transaction, with no bytes of it.
unfoldable pub record_of : Uint256 → ℤ → Uint256 → TxRecord
record_of txid height block_hash = record {
  txid = txid;
  height = height;
  block_hash = block_hash;
  tx_blob = [];
  proof_blob = [];
  script_verified = true;
}

-- The set `seen`.
unfoldable pub seen_in : Bytes → List Bytes → Bool
seen_in hex [] = false
seen_in hex (s ∷ ss) = Uint256.eq s hex || seen_in hex ss

item_of : Bytes → Option TxRecord → List TxItem → List TxItem
item_of hex none rest = rest
item_of hex (some rec) rest =
    record {
      txid = hex;
      block_hash = Uint256.get_hex rec.block_hash;
      height = rec.height;
      verified = rec.script_verified;
    }
    ∷ rest

module _ {S : Type 0} (db : LevelDb S) where
  -- `for (const auto& a : addrs) g_store.CommitTx(a, rec);`
  unfoldable pub commit_all : WatchStore S → List Bytes → TxRecord → WatchStore S
  commit_all w [] rec = w
  commit_all w (a ∷ addrs) rec = commit_all (commit_tx db w a rec).0 addrs rec

  -- The loop of `RefreshTxList` over the identifiers of one address, and then of the others.
  list_txids : WatchStore S → List Uint256 → List Bytes → (List Bytes → List TxItem) → List TxItem
  unfolding seen_in item_of
  list_txids w [] seen next = next seen
  list_txids w (txid ∷ ts) seen next =
      let hex = Uint256.get_hex txid in
      let skip = list_txids w ts seen next in
      let fresh = item_of hex (get_tx db w txid) (list_txids w ts (hex ∷ seen) next) in
      if seen_in hex seen then skip else fresh

  list_addresses : WatchStore S → List Bytes → List Bytes → List TxItem
  unfolding list_txids
  list_addresses w [] seen = []
  list_addresses w (a ∷ addrs) seen =
      list_txids w (get_txids_by_addr db w a) seen (λ s. list_addresses w addrs s)

  unfoldable pub refresh_tx_list : Watched S → Watched S
  unfolding list_addresses
  refresh_tx_list g = record g { txs = list_addresses g.store g.watch_addresses [] }

  -- The end of `CommitPairedTx` and `CommitBackfillTx`.
  commit_watched : Watched S → List Bytes → TxRecord → Watched S
  commit_watched g [] rec = g
  commit_watched g (a ∷ addrs) rec =
      refresh_tx_list (record g { store = commit_all g.store (a ∷ addrs) rec })

  unfoldable pub commit_paired_tx : Watched S → PendingEntry → Watched S
  unfolding commit_watched
  commit_paired_tx g out =
      commit_watched g g.watch_addresses (record_of out.txid out.height out.block_hash)

  unfoldable pub commit_backfill_tx : Watched S → Uint256 → ℤ → Uint256 → Watched S
  unfolding commit_watched
  commit_backfill_tx g txid height block_hash =
      commit_watched g g.watch_addresses (record_of txid height block_hash)

  paired : Watched S → PendingTxMap × Option PendingEntry → Watched S
  paired g (p, none) = record g { pending = p }
  paired g (p, some out) = commit_paired_tx (record g { pending = p }) out

  -- `TryPair` after an `AddTx` or `AddMerkle`, with the commit of a pair.
  unfoldable pub pair_up : Watched S → Uint256 → Option (PendingTxMap × Bool) → Option (Watched S)
  unfolding paired
  pair_up g txid none = none
  pair_up g txid (some (p, fresh)) = some (paired g (try_pair p txid))

  tx_parsed : Watched S → ℤ → Outcome Uint256 → Option (Watched S)
  tx_parsed g now refused = some g
  tx_parsed g now undefined = none
  tx_parsed g now (done txid) = pair_up g txid (add_tx g.pending txid now)

  unfoldable pub handle_tx_message : Watched S → Bytes → ℤ → Option (Watched S)
  unfolding tx_parsed
  handle_tx_message g payload now = tx_parsed g now (parse_txid payload)

  next_match : Option (Watched S) → (Watched S → Option (Watched S)) → Option (Watched S)
  next_match none next = none
  next_match (some g) next = next g

  -- The loop over the matched transactions.
  unfoldable pub pair_matches : Watched S → List Uint256 → ℤ → Uint256 → ℤ → Option (Watched S)
  unfolding next_match
  pair_matches g [] height block now = some g
  pair_matches g (txid ∷ ts) height block now =
      next_match (pair_up g txid (add_merkle g.pending txid height block now))
        (λ h. pair_matches h ts height block now)

  -- The height of a block, or one above the tip if its header is not known.
  known_height : ChainStore → Option ℤ → ℤ
  known_height chain none = chain.m_tip_height +ℤ pos 1
  known_height chain (some height) = height

  merkle_parsed : Watched S → ChainStore → ℤ → Option LightMerkleBlock → Option (Watched S)
  unfolding known_height
  merkle_parsed g chain now none = some g
  merkle_parsed g chain now (some mb) =
      let (ok, matched, root) = extract_matches_block mb Uint256.null in
      let block = get_hash mb.header in
      if ok
      then pair_matches g matched (known_height chain (get_height_by_hash chain block)) block now
      else some g

  unfoldable pub handle_merkle_block : Watched S → ChainStore → Bytes → ℤ → Option (Watched S)
  unfolding merkle_parsed
  handle_merkle_block g chain payload now = merkle_parsed g chain now (deserialize_block payload)

  -- The commits of `ParseBlockAndMatch`, in the order of the identifiers that it finds.
  unfoldable pub commit_found : Watched S → List Uint256 → ℤ → Uint256 → Watched S
  commit_found g [] height block = g
  commit_found g (txid ∷ ts) height block =
      commit_found (commit_backfill_tx g txid height block) ts height block
