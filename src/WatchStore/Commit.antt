-- ===== src/WatchStore/Commit.antt =====
-- `CommitTx` against LevelDB: what is in memory is what a later `Open` would load.
use mvclight.Base.{
  ◌≡◌, refl, sym, ap, ◌∙◌, Bool, true, false, ◌||◌, List, some, if◌then◌else◌, length, All,
}
use mvclight.Base.Assoc.{uint256_key, find, contains}
use mvclight.Wire.{Bytes}
use mvclight.Uint256.{Uint256}
use mvclight.WatchStore.Layout.{IsRecord}
use mvclight.WatchStore.{TxRecord, make_tx_key, make_addr_key, pair_eq, listed, LevelDb, WatchStore}
use mvclight.WatchStore.Operations.{batch, remember}
use mvclight.WatchStore.Stored.{Ours, stored, stored_value, find-emplace-first}
use mvclight.WatchStore.Index.{IsAddress, listed-place}
use mvclight.WatchStore.Disk.{
  put_all, LevelDbLaws, is_some, contains-is_some, put_all-Ours, All-Ours,
}
use mvclight.WatchStore.Batch.{batch_of, batch_lem, batch_of-Ours, stored_after, pairs_after}

-- What is in memory is what LevelDB has, in a state `s` whose entries are all ours.
pub record Backed {S : Type 0} (db : LevelDb S) (w : WatchStore S) (s : S) : Type 0 where
  pub is_open : w.m_db ≡ some s
  pub ours : All Ours (db.entries s)
  pub txs : (t : Uint256) → find t w.memory.m_tx_store ≡ stored t (db.entries s)
  pub pairs :
      (a : Bytes) (t : Uint256)
      → IsAddress a
      → listed (a, t) w.memory.m_addr_tx_index ≡ contains (make_addr_key a t) (db.entries s)

-- Equal finds make equal contents.
contains_same :
    (k : Bytes) (es m : List (Bytes × Bytes)) → find k es ≡ find k m → contains k es ≡ contains k m
contains_same k es m h = contains-is_some k es ∙ ap is_some h ∙ sym (contains-is_some k m)

or_if_swap : (p l c : Bool) → l ≡ c → (p || l) ≡ (if p then true else c)
or_if_swap true l c h = refl
or_if_swap false l c h = h

module _ {S : Type 0} (db : LevelDb S) (laws : LevelDbLaws db) where
  -- A write that has succeeded, with the maps that are then in memory.
  pub written-Backed :
      (w : WatchStore S) (s after : S) (addr : Bytes) (rec : TxRecord)
      → Backed db w s
      → IsAddress addr
      → IsRecord rec
      → length rec.txid ≡ 32
      → db.write s (batch db w addr rec) ≡ (after, true)
      → Backed db (record w { m_db = some after; memory = remember db w.memory addr rec }) after
  unfolding remember
  written-Backed w s after addr rec b a r l e = record {
    is_open = refl;
    ours =
        All-Ours (db.entries after) (db.entries after)
          (put_all (batch_of known addr rec) (db.entries s))
          (put_all-Ours (batch_of known addr rec) (db.entries s)
            (batch_of-Ours known addr rec a r l) b.ours)
          found (laws.each_key_once after);
    txs = λ t.
        find-emplace-first t rec.txid rec w.memory.m_tx_store
        ∙ stored_after known addr rec t w.memory.m_tx_store (db.entries s) refl r (b.txs t)
        ∙ ap (stored_value t) (sym (found (make_tx_key t)));
    pairs = λ q t h.
        listed-place (addr, rec.txid) (q, t) w.memory.m_addr_tx_index
        ∙ or_if_swap (pair_eq (addr, rec.txid) (q, t)) (listed (q, t) w.memory.m_addr_tx_index)
            (is_some (find (make_addr_key q t) (db.entries s)))
            (b.pairs q t h ∙ contains-is_some (make_addr_key q t) (db.entries s))
        ∙ sym (pairs_after known addr q rec t (db.entries s) a h)
        ∙ ap is_some (sym (found (make_addr_key q t)))
        ∙ sym (contains-is_some (make_addr_key q t) (db.entries after));
  }
    where
      known : Bool
      known = contains rec.txid w.memory.m_tx_store

      found :
          (k : Bytes)
          → find k (db.entries after) ≡ find k (put_all (batch_of known addr rec) (db.entries s))
      found k =
          laws.writes_all s after (batch db w addr rec) e k
          ∙ ap (λ (puts : List (Bytes × Bytes)). find k (put_all puts (db.entries s)))
              (batch_lem db w addr rec)

  -- A write that has failed.
  pub unwritten-Backed :
      (w : WatchStore S) (s after : S) (puts : List (Bytes × Bytes))
      → Backed db w s
      → db.write s puts ≡ (after, false)
      → Backed db (record w { m_db = some after }) after
  unwritten-Backed w s after puts b e = record {
    is_open = refl;
    ours =
        All-Ours (db.entries after) (db.entries after) (db.entries s) b.ours
          (laws.writes_nothing s after puts e) (laws.each_key_once after);
    txs = λ t.
        b.txs t ∙ ap (stored_value t) (sym (laws.writes_nothing s after puts e (make_tx_key t)));
    pairs = λ q t h.
        b.pairs q t h
        ∙ sym (
            contains_same (make_addr_key q t) (db.entries after) (db.entries s)
              (laws.writes_nothing s after puts e (make_addr_key q t)));
  }
