-- ===== src/TxPool.antt =====
-- light_txpool.cpp: the identifiers that wait to be sent, oldest first, and those already sent.
pub mod Invariant
use mvclight.Base.{
  ℕ, Bool, true, false, List, [], ◌∷◌, ◌++◌, Option, none, some, leb, if◌then◌else◌, length,
}
use mvclight.Uint256.{Uint256}
use mvclight.Uint256

abbrev pub max_pending : ℕ
max_pending = 1024

pub record TxPool : Type 0 where
  pub m_relayed : List Uint256
  pub m_pending : List Uint256

abbrev pub new : TxPool
new = record { m_relayed = []; m_pending = [] }

-- `count(txid) != 0` of the set, and the linear search of `IsPending`.
unfoldable pub member : Uint256 → List Uint256 → Bool
member txid [] = false
member txid (p ∷ ps) = if Uint256.eq p txid then true else member txid ps

unfoldable pub is_relayed : TxPool → Uint256 → Bool
is_relayed pool txid = member txid pool.m_relayed

unfoldable pub is_pending : TxPool → Uint256 → Bool
is_pending pool txid = member txid pool.m_pending

-- `pop_front()`.
unfoldable pub drop_front : List Uint256 → List Uint256
drop_front [] = []
drop_front (p ∷ ps) = ps

unfoldable pub push_back : TxPool → Uint256 → TxPool × Bool
unfolding is_pending
push_back pool txid =
    if is_pending pool txid
    then (pool, false)
    else (record pool { m_pending = pool.m_pending ++ txid ∷ [] }, true)

-- The oldest goes when the queue is full; the test for a duplicate comes after that.
unfoldable pub enqueue : TxPool → Uint256 → TxPool × Bool
unfolding push_back is_relayed drop_front
enqueue pool txid =
    if is_relayed pool txid
    then (pool, false)
    else push_back
        (if leb max_pending (length pool.m_pending)
          then record pool { m_pending = drop_front pool.m_pending }
          else pool)
        txid

pop_first : TxPool → List Uint256 → TxPool × Option Uint256
pop_first pool [] = (pool, none)
pop_first pool (p ∷ ps) = (record pool { m_pending = ps }, some p)

unfoldable pub pop_next : TxPool → TxPool × Option Uint256
unfolding pop_first
pop_next pool = pop_first pool pool.m_pending

unfoldable pub mark_relayed : TxPool → Uint256 → TxPool
unfolding is_relayed
mark_relayed pool txid =
    if is_relayed pool txid then pool else record pool { m_relayed = txid ∷ pool.m_relayed }
