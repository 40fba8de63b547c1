-- ===== src/Runs/Node.antt =====
-- The rules for connections, transactions and pools at concrete inputs.
use mvclight.Base.{◌≡◌, ◌↔◌, refl, true, false, [], ◌∷◌, none, some, arith, replicate}
use mvclight.Base.Int.{pos, negsuc}
use mvclight.Base.Assoc.{find, uint256_key}
use mvclight.Uint256.{Uint256, null}
use mvclight.Uint256
use mvclight.State.{
  handshake, filter_sent, wait_filter_ack, syncing_headers, syncing_txs, steady,
  is_valid_transition,
}
use mvclight.State.Paths.{Run}
use mvclight.TxPool.{
  TxPool, enqueue, pop_next, mark_relayed, member, is_relayed, is_pending, max_pending,
}
use mvclight.TxPool
use mvclight.TxPool.Invariant.{IsPool, operations-IsPool, enqueue_evicts}
use mvclight.Tx.{LightTx, check_transaction_common}
use mvclight.Tx.Common.{IsSane, check_transaction_common_iff}
use mvclight.PendingTx.{PendingTxMap, evict}
use mvclight.PendingTx.Pairing.{tx_then_merkle, merkle_then_tx, paired, try_pair_both}
use mvclight.PendingTx.{PendingEntry}
use mvclight.PendingTx.Stranded.{StrandedIn, add_all, evict_strands}

to_filter : Run handshake filter_sent 1
unfolding is_valid_transition
to_filter = Run.step Run.start refl

to_ack : Run handshake wait_filter_ack 2
unfolding is_valid_transition
to_ack = Run.step to_filter refl

to_headers : Run handshake syncing_headers 3
unfolding is_valid_transition
to_headers = Run.step to_ack refl

to_txs : Run handshake syncing_txs 4
unfolding is_valid_transition
to_txs = Run.step to_headers refl

to_steady : Run handshake steady 5
unfolding is_valid_transition
to_steady = Run.step to_txs refl

new-IsPool : IsPool TxPool.new
new-IsPool = record { bounded = omega arith; pending_once = tt; relayed_once = tt }

operations-IsPool_example :
    IsPool (enqueue TxPool.new null).0
    × IsPool (pop_next TxPool.new).0
    × IsPool (mark_relayed TxPool.new null)
operations-IsPool_example = operations-IsPool TxPool.new null new-IsPool

full_pool : TxPool
full_pool = record { m_relayed = []; m_pending = replicate 1024 null }

full_relayed : is_relayed full_pool null ≡ false
unfolding is_relayed member full_pool
full_relayed = refl

still_there : member null (replicate 1023 null) ≡ true
unfolding member Uint256.eq
still_there = refl

enqueue_evicts_example :
    enqueue full_pool null ≡ (record full_pool { m_pending = replicate 1023 null }, false)
unfolding full_pool
enqueue_evicts_example =
    enqueue_evicts full_pool null null (replicate 1023 null) full_relayed refl still_there
      (omega arith)

abbrev coin : LightTx
coin = record {
  n_version = 1;
  vin = record { prevout_hash = null; prevout_n = 0; script_sig = []; sequence = 0 } ∷ [];
  vout = record { n_value = pos 5000000000; script_pubkey = [] } ∷ [];
  n_lock_time = 0;
}

check_transaction_common_iff_example : (check_transaction_common coin 250 ≡ none) ↔ IsSane coin 250
check_transaction_common_iff_example = check_transaction_common_iff coin 250

abbrev no_pending : PendingTxMap
no_pending = record { m_map = []; m_fifo = [] }

absent : find null no_pending.m_map ≡ none
unfolding find
absent = refl

try_pair_both_example :
    ((q : PendingTxMap) × (tx_then_merkle no_pending null (pos 7) null (pos 10) (pos 20)
        ≡ some (q, some (paired null (pos 7) null (pos 10))))
      × (find null q.m_map ≡ none))
    × ((q : PendingTxMap) × (merkle_then_tx no_pending null (pos 7) null (pos 10) (pos 20)
          ≡ some (q, some (paired null (pos 7) null (pos 10))))
        × (find null q.m_map ≡ none))
try_pair_both_example =
    try_pair_both no_pending null (pos 7) null (pos 10) (pos 20) absent (omega arith)

abbrev id_one : Uint256
id_one = replicate 32 1

abbrev id_two : Uint256
id_two = replicate 32 2

abbrev half : PendingEntry
half = record {
  txid = id_one;
  has_tx = true;
  has_merkle = false;
  height = negsuc 0;
  block_hash = null;
  first_seen_ms = pos 5;
  retry_count = 0;
}

abbrev two_pending : PendingTxMap
two_pending = record {
  m_map = (null, half) ∷ (id_one, half) ∷ [];
  m_fifo = null ∷ id_one ∷ id_two ∷ [];
}

distinct : (Uint256.eq null id_one ≡ false) × (Uint256.eq id_two id_one ≡ false)
unfolding Uint256.eq
distinct = (refl, refl)

still_found : find id_one two_pending.m_map ≡ some half
unfolding find Uint256.eq
still_found = refl

evict_strands_example :
    (q : PendingTxMap) × (evict two_pending two_pending.m_fifo ≡ some q)
    × (find null q.m_map ≡ none)
    × (find id_one q.m_map ≡ some half)
    × StrandedIn id_one half (add_all q ((id_two, pos 9) ∷ []))
evict_strands_example =
    evict_strands two_pending null id_one (id_two ∷ []) half ((id_two, pos 9) ∷ []) refl distinct.0
      still_found (distinct.1, tt) (distinct.1, tt)
