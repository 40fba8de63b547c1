-- ===== src/PendingTx/Pairing.antt =====
-- A transaction and its merkle block, in either order.
use mvclight.Base.{
  le→ltb_false, ℕ, zero, suc, ◌∙◌, ◌+◌, ◌≤◌, ◌<◌, ◌≡◌, refl, true, false, List, [], ◌∷◌, ◌++◌,
  Option, none, some, arith, length, ap,
}
use mathlib.Core.Option.{bind, map}
use mvclight.Base.Int.{ℤ, negsuc}
use mvclight.Base.Assoc.{
  find, emplace, assign, erase, uint256_key, find-assign, find-erase, find-emplace, find-contains,
}
use mvclight.Uint256.{Uint256}
use mvclight.Uint256
use mvclight.Uint256.Order.{eq_self}
use mvclight.PendingTx.{
  PendingEntry, PendingTxMap, max_pending, add_tx, add_merkle, try_pair, remove, enforce_loop,
  enforce_fifo, insert, mark_new, evict, erase_fifo, pop_fifo,
}

pub tx_then_merkle :
    PendingTxMap → Uint256 → ℤ → Uint256 → ℤ → ℤ → Option (PendingTxMap × Option PendingEntry)
tx_then_merkle p txid height block_hash t1 t2 =
    bind (add_tx p txid t1)
      (λ q. map (λ r. try_pair r.0 txid) (add_merkle q.0 txid height block_hash t2))

pub merkle_then_tx :
    PendingTxMap → Uint256 → ℤ → Uint256 → ℤ → ℤ → Option (PendingTxMap × Option PendingEntry)
merkle_then_tx p txid height block_hash t1 t2 =
    bind (add_merkle p txid height block_hash t1)
      (λ q. map (λ r. try_pair r.0 txid) (add_tx q.0 txid t2))

length-emplace :
    (k : Uint256) (e : PendingEntry) (m : List (Uint256 × PendingEntry))
    → length (emplace k e m) ≤ length m + 1
unfolding emplace
length-emplace k e [] = omega arith
length-emplace k e ((j, w) ∷ m) = ground (arith, length-emplace k e m)

enforce_small : (p : PendingTxMap) → length p.m_map ≤ max_pending → enforce_fifo p ≡ some p
unfolding enforce_fifo enforce_loop
enforce_small p h = small (length p.m_map)
  where
    small : (n : ℕ) → enforce_loop n p ≡ some p
    small zero = rw (le→ltb_false max_pending (length p.m_map) h) refl
    small (suc n) = rw (le→ltb_false max_pending (length p.m_map) h) refl

-- The map after a new entry, and after a second message about it.
with_entry : PendingTxMap → PendingEntry → PendingTxMap
with_entry p e = record { m_map = emplace e.txid e p.m_map; m_fifo = p.m_fifo ++ e.txid ∷ [] }

insert-room :
    (p : PendingTxMap) (e : PendingEntry)
    → length p.m_map < max_pending
    → insert p e ≡ some (with_entry p e)
unfolding insert with_entry
insert-room p e h = enforce_small (with_entry p e) (omega (arith, length-emplace e.txid e p.m_map))

find-with_entry :
    (p : PendingTxMap) (e : PendingEntry)
    → find e.txid p.m_map ≡ none
    → find e.txid (with_entry p e).m_map ≡ some e
unfolding with_entry
find-with_entry p e h =
    find-emplace e.txid e.txid e p.m_map
    ∙ rw (find-contains e.txid p.m_map h) (rw (eq_self e.txid) refl)

find-assign_self :
    (k : Uint256) (e : PendingEntry) (m : List (Uint256 × PendingEntry))
    → find k (assign k e m) ≡ some e
find-assign_self k e m = find-assign k k e m ∙ rw (eq_self k) refl

find-erase_self : (k : Uint256) (m : List (Uint256 × PendingEntry)) → find k (erase k m) ≡ none
find-erase_self k m = find-erase k k m ∙ rw (eq_self k) refl

new_tx : Uint256 → ℤ → PendingEntry
new_tx txid t = record {
  txid = txid;
  has_tx = true;
  has_merkle = false;
  height = negsuc 0;
  block_hash = Uint256.null;
  first_seen_ms = t;
  retry_count = 0;
}

-- The entry with both halves.
abbrev pub paired : Uint256 → ℤ → Uint256 → ℤ → PendingEntry
paired txid height block_hash t = record {
  txid = txid;
  has_tx = true;
  has_merkle = true;
  height = height;
  block_hash = block_hash;
  first_seen_ms = t;
  retry_count = 0;
}

new_merkle : Uint256 → ℤ → Uint256 → ℤ → PendingEntry
new_merkle txid height block_hash t = record (paired txid height block_hash t) { has_tx = false }

with_assigned : PendingTxMap → PendingEntry → PendingTxMap
with_assigned p e = record p { m_map = assign e.txid e p.m_map }

try_pair-assigned :
    (p : PendingTxMap) (txid : Uint256) (height : ℤ) (block_hash : Uint256) (t : ℤ)
    → try_pair (with_assigned p (paired txid height block_hash t)) txid ≡ (
      remove (with_assigned p (paired txid height block_hash t)) txid,
      some (paired txid height block_hash t),
    )
unfolding try_pair with_assigned
try_pair-assigned p txid height block_hash t =
    rw (find-assign_self txid (paired txid height block_hash t) p.m_map) refl

module _ (p : PendingTxMap) (txid : Uint256) (height : ℤ) (block_hash : Uint256) (t1 t2 : ℤ)
    (absent : find txid p.m_map ≡ none) (room : length p.m_map < max_pending) where
  add_tx_new : add_tx p txid t1 ≡ some (with_entry p (new_tx txid t1), true)
  unfolding add_tx mark_new new_tx
  add_tx_new = rw absent (rw (insert-room p (new_tx txid t1) room) refl)

  add_merkle_new :
      add_merkle p txid height block_hash t1
      ≡ some (with_entry p (new_merkle txid height block_hash t1), true)
  unfolding add_merkle mark_new new_merkle
  add_merkle_new = rw absent (rw (insert-room p (new_merkle txid height block_hash t1) room) refl)

  add_merkle_second :
      add_merkle (with_entry p (new_tx txid t1)) txid height block_hash t2
      ≡ some
          (with_assigned (with_entry p (new_tx txid t1)) (paired txid height block_hash t1), false)
  unfolding add_merkle with_assigned new_tx
  add_merkle_second = rw (find-with_entry p (new_tx txid t1) absent) refl

  add_tx_second :
      add_tx (with_entry p (new_merkle txid height block_hash t1)) txid t2
      ≡ some (
        with_assigned
            (with_entry p (new_merkle txid height block_hash t1))
            (paired txid height block_hash t1),
        false,
      )
  unfolding add_tx with_assigned new_merkle
  add_tx_second = rw (find-with_entry p (new_merkle txid height block_hash t1) absent) refl

  -- A transaction that is not in the map, which has room for it, and its merkle block pair up in
  -- either order: `TryPair` yields the entry with the block's height and hash and the time of the
  -- first message, and the entry is gone from the map afterwards.
  pub try_pair_both :
      ((q : PendingTxMap) × (tx_then_merkle p txid height block_hash t1 t2
          ≡ some (q, some (paired txid height block_hash t1)))
        × (find txid q.m_map ≡ none))
      × ((q : PendingTxMap) × (merkle_then_tx p txid height block_hash t1 t2
            ≡ some (q, some (paired txid height block_hash t1)))
          × (find txid q.m_map ≡ none))
  unfolding tx_then_merkle merkle_then_tx bind remove with_assigned
  try_pair_both = (
    (
      taken (new_tx txid t1),
      rw add_tx_new (
          rw add_merkle_second (
            ap some (try_pair-assigned (with_entry p (new_tx txid t1)) txid height block_hash t1))),
      find-erase_self txid (assigned (new_tx txid t1)).m_map,
    ),
    (
      taken (new_merkle txid height block_hash t1),
      rw add_merkle_new (
          rw add_tx_second (
            ap some (
              try_pair-assigned (with_entry p (new_merkle txid height block_hash t1)) txid height
                block_hash t1))),
      find-erase_self txid (assigned (new_merkle txid height block_hash t1)).m_map,
    ),
  )
    where
      assigned : PendingEntry → PendingTxMap
      assigned e = with_assigned (with_entry p e) (paired txid height block_hash t1)

      taken : PendingEntry → PendingTxMap
      taken e = remove (assigned e) txid

-- One turn of `EnforceFifo` takes the oldest identifier out of the map and two out of the deque, so
-- that the second of them stays in the map and can never be evicted by age.
pub evict_takes_two :
    (p : PendingTxMap) (oldest next : Uint256) (ts : List Uint256)
    → p.m_fifo ≡ oldest ∷ next ∷ ts
    → (evict p p.m_fifo ≡ some (record { m_map = erase oldest p.m_map; m_fifo = ts }))
unfolding evict remove erase_fifo pop_fifo
evict_takes_two p oldest next ts h = rw h (rw (eq_self oldest) refl)
