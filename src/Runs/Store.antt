-- ===== src/Runs/Store.antt =====
-- The watch store, the send monitor and the synchronisation at concrete inputs, with a LevelDB that is
-- a list in memory.
use mvclight.Base.{
  ◌≡◌, refl, sym, ap, arith, Bool, true, false, List, [], ◌∷◌, ◌++◌, some, codes, replicate, drop,
}
use mvclight.Base.Int.{pos}
use mvclight.Base.Assoc.{find, contains, uint256_key, assign}
use mvclight.Base.Assoc.Unique.{Unique, assign-Unique, find_each}
use mvclight.Wire.{Bytes, read_le32}
use mvclight.Uint256.{null}
use mvclight.WatchStore.Layout.{IsRecord}
use mvclight.WatchStore.{
  TxRecord, out_of_bounds, deserialize_record, LevelDb, WatchStore, no_memory, listed,
}
use mvclight.WatchStore.Operations.{commit_tx}
use mvclight.WatchStore.Record.{deserialize_record-wrapped}
use mvclight.WatchStore.Disk.{put_all, LevelDbLaws}
use mvclight.WatchStore.Commit.{Backed}
use mvclight.WatchStore.Durable.{commit_tx-Backed, Reopened, open_store-Backed}
use mvclight.SendMonitor.{SendMonitor}
use mvclight.Chain
use mvclight.Validation.{builtin_checkpoint}
use mvclight.Sync.{accept_message}
use mvclight.Sync.Batch.{Accepted, accept_message-Accepted}

abbrev seen : TxRecord
seen = record {
  txid = replicate 32 1;
  height = pos 21300;
  block_hash = replicate 32 2;
  tx_blob = 1 ∷ 0 ∷ 0 ∷ 0 ∷ [];
  proof_blob = 7 ∷ [];
  script_verified = true;
}

seen-IsRecord : IsRecord seen
seen-IsRecord = record {
  hash_length = refl;
  height_low = omega arith;
  height_high = omega arith;
  small = omega arith;
}

-- A value whose transaction has the length 2 ^ 32 - 1.
abbrev wrapping : Bytes
wrapping = replicate 41 0 ++ (255 ∷ 255 ∷ 255 ∷ 255 ∷ replicate 4 0)

wrapping_length : read_le32 (drop 41 wrapping) ≡ 4294967295
unfolding read_le32
wrapping_length = refl

deserialize_record-wrapped_example : deserialize_record null wrapping ≡ out_of_bounds
deserialize_record-wrapped_example =
    deserialize_record-wrapped null wrapping 4294967295 wrapping_length (omega arith) (omega arith)
      (omega arith) (omega arith)

-- The states of a LevelDB in memory: each key once.
abbrev pub Table : Type 0
Table = (m : List (Bytes × Bytes)) × Unique m

pub put_all-Unique : (puts m : List (Bytes × Bytes)) → Unique m → Unique (put_all puts m)
unfolding put_all
put_all-Unique [] m u = u
put_all-Unique ((k, v) ∷ puts) m u = put_all-Unique puts (assign k v m) (assign-Unique k v m u)

pub no_entries : Unique {K = Bytes} {V = Bytes} []
unfolding Unique
no_entries = tt

abbrev pub empty_table : Table
empty_table = ([], no_entries)

abbrev pub in_memory : LevelDb Table
in_memory = record {
  open_db = λ path. some empty_table;
  entries = λ s. s.0;
  write = λ s puts. ((put_all puts s.0, put_all-Unique puts s.0 s.1), true);
}

in_memory-laws : LevelDbLaws in_memory
in_memory-laws = record {
  each_key_once = λ s. find_each s.0 s.1;
  writes_all = λ s after puts e k. ap (λ (r : Table × Bool). find k r.0.0) (sym e);
  writes_nothing = λ s after puts e k. absurd (grind (arith, ap (λ (r : Table × Bool). r.1) e));
}

abbrev pub open_store : WatchStore Table
open_store = record { m_db = some empty_table; memory = no_memory; m_disk_full = false }

open-Backed : Backed in_memory open_store empty_table
unfolding find contains listed
open-Backed = record { is_open = refl; ours = tt; txs = λ t. refl; pairs = λ a t h. refl }

commit_tx-Backed_example :
    (after : Table) × Backed in_memory (commit_tx in_memory open_store (codes "1Ab") seen).0 after
commit_tx-Backed_example =
    commit_tx-Backed in_memory in_memory-laws open_store empty_table (codes "1Ab") seen open-Backed
      (λ e. absurd (omega arith), (λ e. absurd (omega arith), (λ e. absurd (omega arith), tt)))
      seen-IsRecord refl

open_store-Backed_example : Reopened in_memory open_store empty_table (codes "data")
open_store-Backed_example =
    open_store-Backed in_memory open_store empty_table (codes "data") open-Backed refl

abbrev one_sent : SendMonitor
one_sent = (null, record { deadline_ms = pos 7200000; rejected = false }) ∷ []

accept_message-Accepted_example :
    Accepted Chain.empty
      (pos 0)
      (accept_message Chain.empty builtin_checkpoint (pos 0) (pos 1700000000) (1 ∷ replicate 81 0))
accept_message-Accepted_example =
    accept_message-Accepted Chain.empty builtin_checkpoint (pos 0) (pos 1700000000)
      (1 ∷ replicate 81 0)
