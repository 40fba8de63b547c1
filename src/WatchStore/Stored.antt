-- ===== src/WatchStore/Stored.antt =====
-- The records that LevelDB has for the identifiers.
use mvclight.Base.{
  ◌≡◌, refl, sym, ap, ◌∙◌, true, false, List, [], ◌∷◌, Option, none, some, if◌then◌else◌, length,
  Bool-cases, inl, inr,
}
use mvclight.Base.Assoc.{uint256_key, find, emplace}
use mvclight.Wire.{Bytes}
use mvclight.Uint256.{Uint256, eq}
use mvclight.Uint256.Order.{eq_iff}
use mvclight.WatchStore.Layout.{IsRecord}
use mvclight.WatchStore.{
  TxRecord, make_tx_key, make_addr_key, serialize_record, Decoded, rejected, out_of_bounds, decoded,
  deserialize_record,
}
use mvclight.WatchStore.Index.{IsAddress}
use mvclight.WatchStore.Record.{deserialize_record-serialize_record}

-- An entry that `CommitTx` has written.
pub data Ours : Bytes × Bytes → Type 0 where
  tx_entry :
      (rec : TxRecord)
      → IsRecord rec
      → length rec.txid ≡ 32
      → Ours (make_tx_key rec.txid, serialize_record rec)
  addr_entry :
      (addr : Bytes) (txid : Uint256)
      → IsAddress addr
      → length txid ≡ 32
      → Ours (make_addr_key addr txid, [])

-- The record that the entries have for an identifier.
abbrev pub record_of : Decoded → Option TxRecord
record_of rejected = none
record_of out_of_bounds = none
record_of (decoded rec) = some rec

abbrev pub stored_value : Uint256 → Option Bytes → Option TxRecord
stored_value t none = none
stored_value t (some val) = record_of (deserialize_record t val)

abbrev pub stored : Uint256 → List (Bytes × Bytes) → Option TxRecord
stored t es = stored_value t (find (make_tx_key t) es)

abbrev pub first : Option TxRecord → Option TxRecord → Option TxRecord
first none other = other
first (some rec) other = some rec

pub first-none : (o : Option TxRecord) → first o none ≡ o
first-none none = refl
first-none (some r) = refl

first_assoc : (a b c : Option TxRecord) → first (first a b) c ≡ first a (first b c)
first_assoc none b c = refl
first_assoc (some r) b c = refl

pub find-emplace-first :
    (t k : Uint256) (rec : TxRecord) (m : List (Uint256 × TxRecord))
    → find t (emplace k rec m) ≡ first (find t m) (if eq k t then some rec else none)
unfolding find emplace
find-emplace-first t k rec [] = refl
find-emplace-first t k rec ((j, w) ∷ m) = elim (Bool-cases (eq j t)) [
  | inl e ↦ elim (Bool-cases (eq j k)) [
    | inl f ↦ rw (e, f) (rw e refl)
    | inr f ↦ rw (e, f) (rw e refl)
  ]
  | inr e ↦ elim (Bool-cases (eq j k)) [
    | inl f ↦ rw (e, f, key_differs e f) (rw e (sym (first-none (find t m))))
    | inr f ↦ rw (e, f) (rw e (find-emplace-first t k rec m))
  ]
]
  where
    key_differs : eq j t ≡ false → eq j k ≡ true → eq k t ≡ false
    key_differs e f = ap (λ (z : Uint256). eq z t) (sym ((eq_iff j k).0 f)) ∙ e

pub stored_here :
    (t : Uint256) (rec : TxRecord)
    → IsRecord rec
    → rec.txid ≡ t
    → record_of (deserialize_record t (serialize_record rec)) ≡ some rec
stored_here t rec h e =
    ap (λ (z : Uint256). record_of (deserialize_record z (serialize_record rec))) (sym e)
    ∙ ap record_of (deserialize_record-serialize_record rec h)

-- One more entry in the store of transactions.
pub find_more :
    (t : Uint256) (rec : TxRecord) (store : List (Uint256 × TxRecord)) (es : List (Bytes × Bytes))
    → IsRecord rec
    → first (find t (emplace rec.txid rec store)) (stored t es)
      ≡ first (find t store) (stored t ((make_tx_key rec.txid, serialize_record rec) ∷ es))
unfolding find make_tx_key eq
find_more t rec store es h =
    ap (λ (o : Option TxRecord). first o (stored t es)) (find-emplace-first t rec.txid rec store)
    ∙ first_assoc (find t store) (if eq rec.txid t then some rec else none) (stored t es)
    ∙ ap (first (find t store)) by_key
  where
    by_key :
        first (if eq rec.txid t then some rec else none) (stored t es)
        ≡ stored_value t
            (if eq rec.txid t then some (serialize_record rec) else find (make_tx_key t) es)
    by_key = elim (Bool-cases (eq rec.txid t)) [
      | inl e ↦ rw e (sym (stored_here t rec h ((eq_iff rec.txid t).0 e)))
      | inr e ↦ rw e refl
    ]
