-- ===== src/TxPool/Invariant.antt =====
-- The queue stays within its bound and holds nothing twice.
use mvclight.Base.{
  le→leb, ◌≤◌, ◌<◌, leb, ◌≡◌, refl, Bool-cases, inl, inr, true, false, List, [], ◌∷◌, ◌++◌, arith,
  length, length-append, if◌then◌else◌,
}
use mvclight.Uint256.{Uint256}
use mvclight.Uint256.Order.{eq_iff}
use mvclight.TxPool.{
  TxPool, max_pending, member, is_pending, is_relayed, enqueue, pop_next, mark_relayed, drop_front,
  push_back, pop_first,
}

-- No identifier stands in the list twice.
abbrev pub Distinct : List Uint256 → Type 0
Distinct [] = Unit {0}
Distinct (p ∷ ps) = (member p ps ≡ false) × Distinct ps

pub record IsPool (pool : TxPool) : Type 0 where
  pub bounded : length pool.m_pending ≤ max_pending
  pub pending_once : Distinct pool.m_pending
  pub relayed_once : Distinct pool.m_relayed

member-append :
    (t : Uint256) (xs ys : List Uint256)
    → member t (xs ++ ys) ≡ (if member t xs then true else member t ys)
unfolding member
member-append t [] ys = refl
member-append t (x ∷ xs) ys = ground (arith, member-append t xs ys)

Distinct-append_one :
    (xs : List Uint256) (t : Uint256) → Distinct xs → member t xs ≡ false → Distinct (xs ++ t ∷ [])
unfolding member
Distinct-append_one [] t h m = (refl, tt)
Distinct-append_one (x ∷ xs) t h m = (
  ground (arith, member-append x xs (t ∷ []), eq_iff t x, eq_iff x t),
  Distinct-append_one xs t h.1 (ground arith),
)

drop_front_lem : (xs : List Uint256) → Distinct xs → Distinct (drop_front xs)
unfolding drop_front
drop_front_lem [] h = tt
drop_front_lem (x ∷ xs) h = h.1

length-drop_front : (xs : List Uint256) → length (drop_front xs) ≤ length xs
unfolding drop_front
length-drop_front [] = omega arith
length-drop_front (x ∷ xs) = omega arith

room : (pool : TxPool) → TxPool
room pool =
    if leb max_pending (length pool.m_pending)
    then record pool { m_pending = drop_front pool.m_pending }
    else pool

evicted : TxPool → TxPool
evicted pool = record pool { m_pending = drop_front pool.m_pending }

evicted-IsPool : (pool : TxPool) → IsPool pool → IsPool (evicted pool)
unfolding evicted
evicted-IsPool pool v = record {
  bounded = omega (arith, v.bounded, length-drop_front pool.m_pending);
  pending_once = drop_front_lem pool.m_pending v.pending_once;
  relayed_once = v.relayed_once;
}

length-evicted : (pool : TxPool) → IsPool pool → length (evicted pool).m_pending < max_pending
unfolding evicted drop_front
length-evicted pool v = shorter pool.m_pending v.bounded
  where
    shorter : (xs : List Uint256) → length xs ≤ 1024 → length (drop_front xs) < 1024
    shorter [] h = omega arith
    shorter (x ∷ xs) h = omega arith

room-IsPool :
    (pool : TxPool)
    → IsPool pool
    → IsPool (room pool) × (length (room pool).m_pending < max_pending)
unfolding room evicted
room-IsPool pool v = elim (Bool-cases (leb max_pending (length pool.m_pending))) [
  | inl e ↦ rw e (full)
  | inr e ↦ rw e (v, ground arith)
]
  where
    full : IsPool (evicted pool) × (length (evicted pool).m_pending < max_pending)
    full = (evicted-IsPool pool v, length-evicted pool v)

push_back-IsPool :
    (pool : TxPool) (txid : Uint256)
    → IsPool pool
    → length pool.m_pending < max_pending
    → IsPool (push_back pool txid).0
unfolding push_back is_pending
push_back-IsPool pool txid v h = elim (Bool-cases (member txid pool.m_pending)) [
  | inl e ↦ rw e v
  | inr e ↦ rw e (record {
    bounded = omega (arith, length-append pool.m_pending (txid ∷ []));
    pending_once = Distinct-append_one pool.m_pending txid v.pending_once e;
    relayed_once = v.relayed_once;
  })
]

enqueue-IsPool : (pool : TxPool) (txid : Uint256) → IsPool pool → IsPool (enqueue pool txid).0
unfolding enqueue room
enqueue-IsPool pool txid v = elim (Bool-cases (is_relayed pool txid)) [
  | inl e ↦ rw e v
  | inr e ↦ rw e (push_back-IsPool (room pool) txid (room-IsPool pool v).0 (room-IsPool pool v).1)
]

pop_first-IsPool :
    (pool : TxPool) (ps : List Uint256)
    → length ps ≤ max_pending
    → Distinct ps
    → Distinct pool.m_relayed
    → IsPool pool
    → IsPool (pop_first pool ps).0
unfolding pop_first
pop_first-IsPool pool [] b d r v = v
pop_first-IsPool pool (p ∷ ps) b d r v = record {
  bounded = omega arith;
  pending_once = d.1;
  relayed_once = r;
}

mark_relayed-IsPool :
    (pool : TxPool) (txid : Uint256) → IsPool pool → IsPool (mark_relayed pool txid)
unfolding mark_relayed is_relayed
mark_relayed-IsPool pool txid v = elim (Bool-cases (member txid pool.m_relayed)) [
  | inl e ↦ rw e v
  | inr e ↦ rw e (record {
    bounded = v.bounded;
    pending_once = v.pending_once;
    relayed_once = (e, v.relayed_once);
  })
]

-- `Enqueue`, `PopNext` and `MarkRelayed` each keep the queue within 1024 entries and the queue and
-- the set of relayed identifiers free of duplicates.
pub operations-IsPool :
    (pool : TxPool) (txid : Uint256)
    → IsPool pool
    → IsPool (enqueue pool txid).0 × IsPool (pop_next pool).0 × IsPool (mark_relayed pool txid)
unfolding pop_next
operations-IsPool pool txid v = (
  enqueue-IsPool pool txid v,
  pop_first-IsPool pool pool.m_pending v.bounded v.pending_once v.relayed_once v,
  mark_relayed-IsPool pool txid v,
)

-- When the queue is full, an identifier that is pending already and is not the oldest is refused,
-- and the oldest entry is lost all the same.
pub enqueue_evicts :
    (pool : TxPool) (txid first : Uint256) (rest : List Uint256)
    → is_relayed pool txid ≡ false
    → pool.m_pending ≡ first ∷ rest
    → member txid rest ≡ true
    → max_pending ≤ length pool.m_pending
    → enqueue pool txid ≡ (record pool { m_pending = rest }, false)
unfolding enqueue push_back is_pending drop_front
enqueue_evicts pool txid first rest hr hq hm hl =
    rw (hr, le→leb max_pending (length pool.m_pending) hl, hq, hm) refl
