-- ===== src/PendingTx.antt =====
-- light_pendingtx.cpp: transactions and merkle blocks that wait for each other. `m_map` is an
-- association list, and `m_fifo` the list of its identifiers by age. `front()` and `pop_front()` of
-- an empty deque are undefined, which `none` stands for.
pub mod Pairing
pub mod Stranded
use mvclight.Base.{
  ℕ, zero, suc, Bool, true, false, ◌&&◌, List, [], ◌∷◌, ◌++◌, Option, none, some, ltb, leb,
  if◌then◌else◌, length,
}
use mathlib.Core.Option.{bind}
use mvclight.Base.Int.{ℤ, pos, negsuc, ◌-ℤ◌, leb_ℤ}
use mvclight.Base.Assoc.{find, assign, emplace, erase, uint256_key}
use mvclight.Uint256.{Uint256}
use mvclight.Uint256

abbrev pub max_pending : ℕ
max_pending = 4096

abbrev pub pair_timeout_ms : ℕ
pair_timeout_ms = 30000

abbrev pub max_retry : ℕ
max_retry = 3

pub record PendingEntry : Type 0 where
  pub txid : Uint256
  pub has_tx : Bool
  pub has_merkle : Bool
  pub height : ℤ
  pub block_hash : Uint256
  pub first_seen_ms : ℤ
  pub retry_count : ℕ

pub record PendingTxMap : Type 0 where
  pub m_map : List (Uint256 × PendingEntry)
  pub m_fifo : List Uint256

-- The loop that erases the first occurrence.
unfoldable pub erase_fifo : Uint256 → List Uint256 → List Uint256
erase_fifo txid [] = []
erase_fifo txid (p ∷ ps) = if Uint256.eq p txid then ps else p ∷ erase_fifo txid ps

unfoldable pub remove : PendingTxMap → Uint256 → PendingTxMap
remove p txid = record { m_map = erase txid p.m_map; m_fifo = erase_fifo txid p.m_fifo }

-- `pop_front()`.
pop_fifo : PendingTxMap → List Uint256 → Option PendingTxMap
pop_fifo p [] = none
pop_fifo p (t ∷ ts) = some (record p { m_fifo = ts })

-- One turn of the loop: `Erase(m_fifo.front()); m_fifo.pop_front();`. `Erase` has already taken the
-- front of the deque, so `pop_front` takes the entry behind it.
pub evict : PendingTxMap → List Uint256 → Option PendingTxMap
unfolding pop_fifo
evict p [] = none
evict p (front ∷ ts) = pop_fifo (remove p front) (remove p front).m_fifo

-- Each turn erases an entry of the map while map and deque agree, so that the size of the map is
-- enough fuel for them.
enforce_loop : ℕ → PendingTxMap → Option PendingTxMap
unfolding evict
enforce_loop zero p = if ltb max_pending (length p.m_map) then none else some p
enforce_loop (suc n) p =
    let next = bind (evict p p.m_fifo) (enforce_loop n) in
    if ltb max_pending (length p.m_map) then next else some p

enforce_fifo : PendingTxMap → Option PendingTxMap
unfolding enforce_loop
enforce_fifo p = enforce_loop (length p.m_map) p

-- `m_map.emplace`, `m_fifo.push_back` and `EnforceFifo`, for a new entry.
insert : PendingTxMap → PendingEntry → Option PendingTxMap
insert p e =
    enforce_fifo (record { m_map = emplace e.txid e p.m_map; m_fifo = p.m_fifo ++ e.txid ∷ [] })

-- The Boolean result is true for a new entry.
mark_new : Option PendingTxMap → Option (PendingTxMap × Bool)
mark_new none = none
mark_new (some p) = some (p, true)

pub add_tx : PendingTxMap → Uint256 → ℤ → Option (PendingTxMap × Bool)
add_tx p txid now_ms = go (find txid p.m_map)
  where
    go : Option PendingEntry → Option (PendingTxMap × Bool)
    go (some e) =
        some (record p { m_map = assign txid (record e { has_tx = true }) p.m_map }, false)
    go none = mark_new (
        insert p (record {
          txid = txid;
          has_tx = true;
          has_merkle = false;
          height = negsuc 0;
          block_hash = Uint256.null;
          first_seen_ms = now_ms;
          retry_count = 0;
        }))

pub add_merkle : PendingTxMap → Uint256 → ℤ → Uint256 → ℤ → Option (PendingTxMap × Bool)
add_merkle p txid height block_hash now_ms = go (find txid p.m_map)
  where
    go : Option PendingEntry → Option (PendingTxMap × Bool)
    go (some e) = some (
      record p {
        m_map =
            assign txid (record e { has_merkle = true; height = height; block_hash = block_hash })
              p.m_map;
      },
      false,
    )
    go none = mark_new (
        insert p (record {
          txid = txid;
          has_tx = false;
          has_merkle = true;
          height = height;
          block_hash = block_hash;
          first_seen_ms = now_ms;
          retry_count = 0;
        }))

pub try_pair : PendingTxMap → Uint256 → PendingTxMap × Option PendingEntry
try_pair p txid = go (find txid p.m_map)
  where
    go : Option PendingEntry → PendingTxMap × Option PendingEntry
    go none = (p, none)
    go (some e) = if e.has_tx && e.has_merkle then (remove p txid, some e) else (p, none)

pub get : PendingTxMap → Uint256 → Option PendingEntry
get p txid = find txid p.m_map

-- The first loop of `Expire`.
expired : ℤ → List (Uint256 × PendingEntry) → List Uint256
expired now_ms [] = []
expired now_ms ((k, e) ∷ m) =
    let rest = expired now_ms m in
    if e.has_tx && e.has_merkle
    then rest
    else (if leb_ℤ (pos pair_timeout_ms) (now_ms -ℤ e.first_seen_ms) then e.txid ∷ rest else rest)

-- One turn of its second loop, with the entry that `find` gave.
retry : PendingTxMap → Uint256 → Option PendingEntry → PendingTxMap × List Uint256
retry p txid none = (p, [])
retry p txid (some e) = if leb max_retry (suc e.retry_count) then (remove p txid, []) else (
  record p { m_map = assign txid (record e { retry_count = suc e.retry_count }) p.m_map },
  txid ∷ [],
)

retry_all : PendingTxMap → List Uint256 → PendingTxMap × List Uint256
unfolding retry
retry_all p [] = (p, [])
retry_all p (txid ∷ ts) =
    let (q, again) = retry p txid (find txid p.m_map) in
    let (r, rest) = retry_all q ts in (r, again ++ rest)

-- The map after `Expire`, and what it appends to `to_retry`.
pub expire : PendingTxMap → ℤ → PendingTxMap × List Uint256
unfolding expired retry_all
expire p now_ms = retry_all p (expired now_ms p.m_map)
