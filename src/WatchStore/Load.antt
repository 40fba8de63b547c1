-- ===== src/WatchStore/Load.antt =====
-- What `LoadFromDB` makes of the entries that `CommitTx` writes.
use mvclight.Base.{
  ℕ, zero, suc, ◌≡◌, refl, sym, ap, ◌∙◌, ◌==◌, arith, Bool, true, false, ◌||◌, List, [], ◌∷◌, ◌++◌,
  some, le→leb, lt→ltb, if◌then◌else◌, length, take, length-append, All,
}
use mvclight.Base.Assoc.{uint256_key, find, emplace, contains}
use mvclight.Wire.{Bytes}
use mvclight.Uint256.{Uint256, eq}
use mvclight.WatchStore.Layout.{IsRecord}
use mvclight.WatchStore.{
  TxRecord, make_tx_key, make_addr_key, serialize_record, Pair, pair_eq, place, listed, Memory,
  before, split_zero, load_tx, load_addr, load_entry, load_rest, load,
}
use mvclight.WatchStore.Index.{IsAddress, addr_key_eq, listed-place}
use mvclight.WatchStore.Record.{deserialize_record-serialize_record}
use mvclight.WatchStore.Stored.{Ours, tx_entry, addr_entry, stored, first, first-none, find_more}

take_all : (n : ℕ) (xs : Bytes) → length xs ≡ n → take n xs ≡ xs
take_all zero [] h = refl
take_all zero (x ∷ xs) h = absurd (omega arith)
take_all (suc n) [] h = absurd (omega arith)
take_all (suc n) (x ∷ xs) h = ap (λ (t : Bytes). x ∷ t) (take_all n xs (omega arith))

split_zero-address :
    (addr txid : Bytes) → IsAddress addr → split_zero (addr ++ 0 ∷ txid) ≡ some (addr, txid)
unfolding split_zero before
split_zero-address [] txid h = refl
split_zero-address (c ∷ cs) txid h = rw (is_not, split_zero-address cs txid h.1) refl
  where
    is_not : (c == 0) ≡ false
    is_not = ground (arith, h.0)

load_entry-tx :
    (m : Memory) (rec : TxRecord)
    → IsRecord rec
    → length rec.txid ≡ 32
    → load_entry m (make_tx_key rec.txid) (serialize_record rec)
      ≡ some (record m { m_tx_store = emplace rec.txid rec m.m_tx_store })
unfolding load_entry load_tx make_tx_key
load_entry-tx m rec h l =
    rw
      (
        le→leb 32 (length rec.txid) (omega arith),
        take_all 32 rec.txid l,
        deserialize_record-serialize_record rec h,
      )
      refl

load_entry-addr :
    (m : Memory) (addr txid : Bytes)
    → IsAddress addr
    → length txid ≡ 32
    → load_entry m (make_addr_key addr txid) []
      ≡ some (record m { m_addr_tx_index = place (addr, txid) m.m_addr_tx_index })
unfolding load_entry load_addr make_addr_key
load_entry-addr m addr txid h l =
    rw
      (
        le→leb 32 (length (addr ++ 0 ∷ txid)) (omega (arith, length-append addr (0 ∷ txid))),
        lt→ltb 32 (length (addr ++ 0 ∷ txid)) (omega (arith, length-append addr (0 ∷ txid))),
        split_zero-address addr txid h,
        l,
      )
      refl

-- What the entries add to the maps.
pub record Loaded (m : Memory) (es : List (Bytes × Bytes)) (n : Memory) : Type 0 where
  pub is_loaded : load m es ≡ some n
  pub txs : (t : Uint256) → find t n.m_tx_store ≡ first (find t m.m_tx_store) (stored t es)
  pub pairs :
      (a : Bytes) (t : Uint256)
      → IsAddress a
      → listed (a, t) n.m_addr_tx_index
        ≡ (listed (a, t) m.m_addr_tx_index || contains (make_addr_key a t) es)

or_if : (p l c : Bool) → ((p || l) || c) ≡ (l || (if p then true else c))
or_if true true c = refl
or_if true false c = refl
or_if false l c = refl

or_false : (b : Bool) → b ≡ (b || false)
or_false true = refl
or_false false = refl

-- One more entry in the index.
listed_more :
    (a b : Bytes) (t u : Uint256) (index : List Pair) (es : List (Bytes × Bytes))
    → IsAddress a
    → IsAddress b
    → (listed (a, t) (place (b, u) index) || contains (make_addr_key a t) es)
      ≡ (listed (a, t) index || contains (make_addr_key a t) ((make_addr_key b u, []) ∷ es))
unfolding contains make_addr_key eq
listed_more a b t u index es h k =
    rw (listed-place (b, u) (a, t) index, addr_key_eq b a u t k h)
      (or_if (pair_eq (b, u) (a, t)) (listed (a, t) index) (contains (2 ∷ (a ++ 0 ∷ t)) es))

load_tx_entry :
    (m : Memory) (rec : TxRecord) (es : List (Bytes × Bytes)) (n : Memory)
    → IsRecord rec
    → length rec.txid ≡ 32
    → Loaded (record m { m_tx_store = emplace rec.txid rec m.m_tx_store }) es n
    → Loaded m ((make_tx_key rec.txid, serialize_record rec) ∷ es) n
unfolding load load_rest contains make_tx_key make_addr_key eq
load_tx_entry m rec es n h l k = record {
  is_loaded = rw (load_entry-tx m rec h l) k.is_loaded;
  txs = λ t. k.txs t ∙ find_more t rec m.m_tx_store es h;
  pairs = k.pairs;
}

load_addr_entry :
    (m : Memory) (b : Bytes) (u : Uint256) (es : List (Bytes × Bytes)) (n : Memory)
    → IsAddress b
    → length u ≡ 32
    → Loaded (record m { m_addr_tx_index = place (b, u) m.m_addr_tx_index }) es n
    → Loaded m ((make_addr_key b u, []) ∷ es) n
unfolding load load_rest find make_tx_key make_addr_key eq
load_addr_entry m b u es n h l k = record {
  is_loaded = rw (load_entry-addr m b u h l) k.is_loaded;
  txs = k.txs;
  pairs = λ a t i. k.pairs a t i ∙ listed_more a b t u m.m_addr_tx_index es i h;
}

load_one :
    (m : Memory) (es : List (Bytes × Bytes)) (e : Bytes × Bytes)
    → Ours e
    → ((k : Memory) → (n : Memory) × Loaded k es n)
    → (n : Memory) × Loaded m (e ∷ es) n
load_one m es e (tx_entry rec r l) rest =
    let found = rest (record m { m_tx_store = emplace rec.txid rec m.m_tx_store }) in
    (found.0, load_tx_entry m rec es found.0 r l found.1)
load_one m es e (addr_entry b u a l) rest =
    let found = rest (record m { m_addr_tx_index = place (b, u) m.m_addr_tx_index }) in
    (found.0, load_addr_entry m b u es found.0 a l found.1)

-- Entries that `CommitTx` has written are loaded with no read out of bounds, and the maps then hold
-- what they held and what the entries say: the first record for an identifier stays.
pub load_lem : (m : Memory) (es : List (Bytes × Bytes)) → All Ours es → (n : Memory) × Loaded m es n
unfolding load load_rest find contains
load_lem m [] h = (
  m,
  record {
    is_loaded = refl;
    txs = λ t. sym (first-none (find t m.m_tx_store));
    pairs = λ a t i. or_false (listed (a, t) m.m_addr_tx_index);
  },
)
load_lem m (e ∷ es) h = load_one m es e h.0 (λ k. load_lem k es h.1)
