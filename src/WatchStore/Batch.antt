-- ===== src/WatchStore/Batch.antt =====
-- What the batch of `CommitTx` leaves in LevelDB.
use mvclight.Base.{
  ◌≡◌, refl, sym, ap, ◌∙◌, arith, Bool, true, false, List, [], ◌∷◌, ◌++◌, Option, none, some,
  if◌then◌else◌, length, All, Bool-cases, inl, inr,
}
use mvclight.Base.Assoc.{
  uint256_key, find, assign, contains, find-assign, contains-find, find-contains,
}
use mvclight.Wire.{Bytes}
use mvclight.Uint256.{Uint256, eq}
use mvclight.Uint256.Order.{eq_iff}
use mvclight.WatchStore.Layout.{IsRecord}
use mvclight.WatchStore.{
  TxRecord, make_tx_key, make_addr_key, serialize_record, pair_eq, LevelDb, WatchStore,
}
use mvclight.WatchStore.Operations.{has_tx, batch}
use mvclight.WatchStore.Stored.{
  Ours, tx_entry, addr_entry, stored, stored_value, first, first-none, stored_here,
}
use mvclight.WatchStore.Index.{IsAddress, addr_key_eq}
use mvclight.WatchStore.Disk.{put_all, is_some}

-- The batch, by whether the transaction is known.
abbrev pub batch_of : Bool → Bytes → TxRecord → List (Bytes × Bytes)
batch_of true addr rec = (make_addr_key addr rec.txid, []) ∷ []
batch_of false addr rec =
    (make_tx_key rec.txid, serialize_record rec) ∷ (make_addr_key addr rec.txid, []) ∷ []

pub batch_lem :
    {S : Type 0} (db : LevelDb S) (w : WatchStore S) (addr : Bytes) (rec : TxRecord)
    → batch db w addr rec ≡ batch_of (contains rec.txid w.memory.m_tx_store) addr rec
unfolding batch has_tx
batch_lem db w addr rec = by_test (contains rec.txid w.memory.m_tx_store)
  where
    by_test :
        (b : Bool)
        → ((if b then [] else (make_tx_key rec.txid, serialize_record rec) ∷ [])
            ++ ((make_addr_key addr rec.txid, []) ∷ []))
          ≡ batch_of b addr rec
    by_test true = refl
    by_test false = refl

pub batch_of-Ours :
    (b : Bool) (addr : Bytes) (rec : TxRecord)
    → IsAddress addr
    → IsRecord rec
    → length rec.txid ≡ 32
    → All Ours (batch_of b addr rec)
batch_of-Ours true addr rec a r l = (addr_entry addr rec.txid a l, tt)
batch_of-Ours false addr rec a r l = (tx_entry rec r l, (addr_entry addr rec.txid a l, tt))

-- A known transaction is found, and emplaced to no effect.
known_stays :
    (t : Uint256) (rec : TxRecord) (m : List (Uint256 × TxRecord))
    → contains rec.txid m ≡ true
    → first (find t m) (if eq rec.txid t then some rec else none) ≡ find t m
known_stays t rec m c = elim (Bool-cases (eq rec.txid t)) [
  | inl e ↦ rw e (by_find (find t m) refl ((eq_iff rec.txid t).0 e))
  | inr e ↦ rw e (first-none (find t m))
]
  where
    by_find : (o : Option TxRecord) → find t m ≡ o → rec.txid ≡ t → first o (some rec) ≡ o
    by_find none f e =
        absurd (grind (arith, c, find-contains t m f, ap (λ (z : Uint256). contains z m) e))
    by_find (some r) f e = refl

-- The transactions that LevelDB has once the batch is applied.
pub stored_after :
    (b : Bool) (addr : Bytes) (rec : TxRecord) (t : Uint256) (m : List (Uint256 × TxRecord))
    (es : List (Bytes × Bytes))
    → contains rec.txid m ≡ b
    → IsRecord rec
    → find t m ≡ stored t es
    → first (find t m) (if eq rec.txid t then some rec else none)
      ≡ stored_value t (find (make_tx_key t) (put_all (batch_of b addr rec) es))
unfolding put_all make_tx_key make_addr_key eq
stored_after true addr rec t m es c r h =
    known_stays t rec m c
    ∙ h
    ∙ ap (stored_value t) (sym (find-assign (make_tx_key t) (make_addr_key addr rec.txid) [] es))
stored_after false addr rec t m es c r h = by_key ∙ ap (stored_value t) (sym found)
  where
    missing : rec.txid ≡ t → find t m ≡ none
    missing e = ap (λ (z : Uint256). find z m) (sym e) ∙ contains-find rec.txid m c

    found :
        find (make_tx_key t) (put_all (batch_of false addr rec) es)
        ≡ (if eq rec.txid t then some (serialize_record rec) else find (make_tx_key t) es)
    found =
        find-assign (make_tx_key t) (make_addr_key addr rec.txid) []
          (assign (make_tx_key rec.txid) (serialize_record rec) es)
        ∙ find-assign (make_tx_key t) (make_tx_key rec.txid) (serialize_record rec) es

    by_key :
        first (find t m) (if eq rec.txid t then some rec else none)
        ≡ stored_value t
            (if eq rec.txid t then some (serialize_record rec) else find (make_tx_key t) es)
    by_key = elim (Bool-cases (eq rec.txid t)) [
      | inl e ↦
          rw (e, missing ((eq_iff rec.txid t).0 e))
            (sym (stored_here t rec r ((eq_iff rec.txid t).0 e)))
      | inr e ↦ rw e (first-none (find t m) ∙ h)
    ]

-- One put of an index entry.
pair_after :
    (addr a : Bytes) (u t : Uint256) (es : List (Bytes × Bytes))
    → IsAddress addr
    → IsAddress a
    → is_some (find (make_addr_key a t) (assign (make_addr_key addr u) [] es))
      ≡ (if pair_eq (addr, u) (a, t) then true else is_some (find (make_addr_key a t) es))
unfolding make_addr_key eq
pair_after addr a u t es k h =
    ap is_some (find-assign (make_addr_key a t) (make_addr_key addr u) [] es)
    ∙ rw (addr_key_eq addr a u t k h) (by_test (pair_eq (addr, u) (a, t)))
  where
    by_test :
        (b : Bool)
        → is_some (if b then some [] else find (make_addr_key a t) es)
          ≡ (if b then true else is_some (find (make_addr_key a t) es))
    by_test true = refl
    by_test false = refl

-- The index that LevelDB has once the batch is applied.
pub pairs_after :
    (b : Bool) (addr a : Bytes) (rec : TxRecord) (t : Uint256) (es : List (Bytes × Bytes))
    → IsAddress addr
    → IsAddress a
    → is_some (find (make_addr_key a t) (put_all (batch_of b addr rec) es))
      ≡ (if pair_eq (addr, rec.txid) (a, t) then true else is_some (find (make_addr_key a t) es))
unfolding put_all make_tx_key make_addr_key eq
pairs_after true addr a rec t es k h = pair_after addr a rec.txid t es k h
pairs_after false addr a rec t es k h =
    pair_after addr a rec.txid t (assign (make_tx_key rec.txid) (serialize_record rec) es) k h
    ∙ ap (λ (o : Option Bytes). if pair_eq (addr, rec.txid) (a, t) then true else is_some o)
        (find-assign (make_addr_key a t) (make_tx_key rec.txid) (serialize_record rec) es)
