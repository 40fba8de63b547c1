-- ===== src/Runs/Front.antt =====
-- Addresses, transactions and blocks of the front end at concrete inputs.
use mvclight.Base.{
  ◌≡◌, ◌<◌, ◌^◌, refl, arith, true, false, ◌||◌, List, [], ◌∷◌, ◌++◌, some, length, replicate,
  codes,
}
use mvclight.Base.Int.{pos, ◌-ℤ◌, ◌≤ℤ◌}
use mvclight.Wire.{Bytes, write_compact_size}
use mvclight.Wire.BigEndian.{read_be}
use mvclight.Sha256.Sample.{sample_checksum}
use mvclight.Filter.{BloomFilter}
use mvclight.PendingTx.{PendingEntry}
use mvclight.Policy.{due, filter_reload_min_interval_ms}
use mvclight.Uint256.{null}
use mvclight.WatchStore.{listed}
use mvclight.Demo.Base58.{address_to_script_pubkey}
use mvclight.Demo.Base58.RoundTrip.{base58_digits}
use mvclight.Demo.Base58.Address.{sealed, address_to_script_pubkey-sealed}
use mvclight.Demo.Parse.{done, undefined, parse_txid, parse_block_and_match}
use mvclight.Demo.Parse.Wired.{WireTx, IsWireTx, parse_txid-undefined}
use mvclight.Demo.Parse.Block.{wire_txs, paying, parse_block_and_match-wire_txs}
use mvclight.Demo.Watched.{Watched, commit_paired_tx}
use mvclight.Demo.Watched.Commit.{among, commit_paired_tx-among}
use mvclight.Demo.FilterLoad.{Loader, insert_all, rebuild_filter}
use mvclight.Demo.FilterLoad.Matched.{MatchesAll, insert_all-MatchesAll}
use mvclight.Demo.FilterLoad.Sent.{rebuild_filter-throttled}
use mvclight.Runs.Peers.{client}
use mvclight.Runs.Store.{Table, in_memory, open_store}

-- The address of the hash 1, 2, …, 20, whose number has the bytes of the hash and of the checksum.
abbrev hash160 : Bytes
hash160 =
    1 ∷ 2 ∷ 3 ∷ 4 ∷ 5 ∷ 6 ∷ 7 ∷ 8 ∷ 9 ∷ 10 ∷ 11 ∷ 12 ∷ 13 ∷ 14 ∷ 15 ∷ 16 ∷ 17 ∷ 18 ∷ 19 ∷ 20 ∷ []

abbrev behind_one : Bytes
behind_one =
    2 ∷ 3 ∷ 4 ∷ 5 ∷ 6 ∷ 7 ∷ 8 ∷ 9 ∷ 10 ∷ 11 ∷ 12 ∷ 13 ∷ 14 ∷ 15 ∷ 16 ∷ 17 ∷ 18 ∷ 19 ∷ 20 ∷ 250 ∷ 85
    ∷ 182 ∷ 74 ∷ []

sealed_hash : sealed (0 ∷ hash160) ≡ replicate 1 0 ++ 1 ∷ behind_one
unfolding sealed
sealed_hash = rw sample_checksum refl

fits_digits : read_be (1 ∷ behind_one) < 58 ^ 34
unfolding read_be
fits_digits = omega arith

address_to_script_pubkey-sealed_example :
    address_to_script_pubkey (replicate 1 b'1' ++ base58_digits 34 (read_be (1 ∷ behind_one)))
    ≡ some (0x76 ∷ 0xa9 ∷ 0x14 ∷ (hash160 ++ 0x88 ∷ 0xac ∷ []))
address_to_script_pubkey-sealed_example =
    address_to_script_pubkey-sealed hash160 1 34 1 behind_one refl sealed_hash (omega arith)
      (omega arith) fits_digits

abbrev script : Bytes
script = 0x76 ∷ 0xa9 ∷ 0x14 ∷ (hash160 ++ 0x88 ∷ 0xac ∷ [])

abbrev payment : WireTx
payment = record {
  version = 1 ∷ 0 ∷ 0 ∷ 0 ∷ [];
  vin =
      record { prevout = replicate 36 7; script_sig = 1 ∷ 2 ∷ []; sequence = replicate 4 255 } ∷ [];
  vout =
      record { amount = replicate 8 1; script_pubkey = 0x6a ∷ [] }
      ∷ record { amount = replicate 8 2; script_pubkey = script }
      ∷ [];
  lock_time = replicate 4 0;
}

payment-IsWireTx : IsWireTx payment
payment-IsWireTx = record {
  version_four = refl;
  inputs = ((refl, omega arith, refl), tt);
  inputs_few = omega arith;
  outputs = ((refl, omega arith), ((refl, omega arith), tt));
  outputs_few = omega arith;
  lock_time_four = refl;
}

abbrev two_payments : List WireTx
two_payments = payment ∷ record payment { vout = [] } ∷ []

parse_block_and_match-wire_txs_example :
    parse_block_and_match
      (replicate 80 0
        ++ (write_compact_size (length two_payments) ++ wire_txs two_payments (9 ∷ [])))
      (script ∷ [])
    ≡ (paying (script ∷ []) two_payments, done tt)
parse_block_and_match-wire_txs_example =
    parse_block_and_match-wire_txs (replicate 80 0) two_payments (script ∷ []) (9 ∷ []) refl
      (omega arith)
      (
        payment-IsWireTx,
        (
          record {
            version_four = refl;
            inputs = ((refl, omega arith, refl), tt);
            inputs_few = omega arith;
            outputs = tt;
            outputs_few = omega arith;
            lock_time_four = refl;
          },
          tt,
        ),
      )

parse_txid-undefined_example :
    parse_txid (
      replicate 4 1
      ++ (write_compact_size 1
          ++ (replicate 36 0 ++ (write_compact_size 18446744073709551571 ++ []))))
    ≡ undefined
parse_txid-undefined_example =
    parse_txid-undefined (replicate 4 1) (replicate 36 0) [] 0 18446744073709551571 refl refl
      (omega arith) (omega arith) (omega arith)

abbrev pub watched : Watched Table
watched = record {
  watch_addresses = codes "1Ab" ∷ codes "1Cd" ∷ [];
  store = open_store;
  pending = record { m_map = []; m_fifo = [] };
  txs = [];
}

abbrev pair : PendingEntry
pair = record {
  txid = replicate 32 1;
  has_tx = true;
  has_merkle = true;
  height = pos 21300;
  block_hash = null;
  first_seen_ms = pos 5;
  retry_count = 0;
}

commit_paired_tx-among_example :
    listed
      (codes "1Cd", replicate 32 1)
      (commit_paired_tx in_memory watched pair).store.memory.m_addr_tx_index
    ≡ (among (codes "1Ab" ∷ codes "1Cd" ∷ []) (replicate 32 1) (codes "1Cd", replicate 32 1)
        || listed (codes "1Cd", replicate 32 1) open_store.memory.m_addr_tx_index)
commit_paired_tx-among_example =
    commit_paired_tx-among in_memory watched pair (codes "1Cd", replicate 32 1) (λ s entries. refl)
      refl

abbrev pub sized : BloomFilter
sized = record {
  m_data = replicate 8 0;
  m_hash_funcs = 3;
  m_tweak = 0;
  m_flags = 2;
  m_element_count = 0;
}

insert_all-MatchesAll_example :
    MatchesAll (insert_all sized (codes "1Ab" ∷ codes "1Cd" ∷ [])) (codes "1Ab" ∷ codes "1Cd" ∷ [])
insert_all-MatchesAll_example =
    insert_all-MatchesAll sized (codes "1Ab" ∷ codes "1Cd" ∷ [])
      (record { few = omega arith; has_bytes = omega arith; has_funcs = omega arith })

abbrev pub loader : Loader
loader = record {
  peer = client;
  policy = record { m_last_getheaders_ms = pos 0; m_last_filter_reload_ms = pos 1000 };
  filter_dirty = true;
}

first_due :
    due loader.policy.m_last_filter_reload_ms filter_reload_min_interval_ms (pos 9000) ≡ true
unfolding due
first_due = refl

soon : pos 12000 -ℤ pos 9000 ≤ℤ pos 4999
unfolding ◌-ℤ◌
soon = omega arith

rebuild_filter-throttled_example :
    let after = rebuild_filter (λ n. sized) loader (codes "1Ab" ∷ []) false (pos 9000) in
    rebuild_filter
      (λ n. sized)
      (record after { filter_dirty = true })
      (codes "1Ab" ∷ codes "1Cd" ∷ [])
      false
      (pos 12000)
    ≡ record after { filter_dirty = false }
rebuild_filter-throttled_example =
    rebuild_filter-throttled (λ n. sized) loader (codes "1Ab" ∷ []) (codes "1Ab" ∷ codes "1Cd" ∷ [])
      (pos 9000) (pos 12000) first_due (omega arith) soon
