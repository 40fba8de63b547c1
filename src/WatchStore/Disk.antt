-- ===== src/WatchStore/Disk.antt =====
-- What the store relies on of LevelDB, and the entries that its batches leave.
use mvclight.Base.{
  ◌≡◌, refl, sym, ap, subst, ◌∙◌, arith, Bool, true, false, List, [], ◌∷◌, Option, none, some, All,
  Bool-cases, inl, inr,
}
use mvclight.Base.Assoc.{uint256_key, find, assign, contains}
use mvclight.Wire.{Bytes}
use mvclight.Uint256.{eq}
use mvclight.Uint256.Order.{eq_iff}
use mvclight.WatchStore.{LevelDb}
use mvclight.WatchStore.Stored.{Ours}

-- The puts of a batch, in their order, on a map.
unfoldable pub put_all : List (Bytes × Bytes) → List (Bytes × Bytes) → List (Bytes × Bytes)
put_all [] m = m
put_all ((k, v) ∷ puts) m = put_all puts (assign k v m)

-- What the documentation of LevelDB says of an iterator and of `Write`: each key is visited once; a
-- batch is applied in its order and as a whole, or not at all.
pub record LevelDbLaws {S : Type 0} (db : LevelDb S) : Type 0 where
  pub each_key_once :
      (s : S) → All (λ (e : Bytes × Bytes). find e.0 (db.entries s) ≡ some e.1) (db.entries s)
  pub writes_all :
      (s after : S) (puts : List (Bytes × Bytes))
      → db.write s puts ≡ (after, true)
      → (k : Bytes) → find k (db.entries after) ≡ find k (put_all puts (db.entries s))
  pub writes_nothing :
      (s after : S) (puts : List (Bytes × Bytes))
      → db.write s puts ≡ (after, false)
      → (k : Bytes) → find k (db.entries after) ≡ find k (db.entries s)

abbrev pub is_some : Option Bytes → Bool
is_some none = false
is_some (some v) = true

pub contains-is_some : (k : Bytes) (m : List (Bytes × Bytes)) → contains k m ≡ is_some (find k m)
unfolding contains find
contains-is_some k [] = refl
contains-is_some k ((j, w) ∷ m) = elim (Bool-cases (eq j k)) [
  | inl e ↦ rw e refl
  | inr e ↦ rw e (contains-is_some k m)
]

value_or : Bytes → Option Bytes → Bytes
value_or d none = d
value_or d (some v) = v

find-Ours : (k v : Bytes) (m : List (Bytes × Bytes)) → All Ours m → find k m ≡ some v → Ours (k, v)
unfolding find value_or
find-Ours k v [] h e = absurd (grind (arith, e))
find-Ours k v ((j, w) ∷ m) h e = elim (Bool-cases (eq j k)) [
  | inl f ↦ subst Ours (λ i. ((eq_iff j k).0 f i, ap (value_or w) (rw f at e) i)) h.0
  | inr f ↦ find-Ours k v m h.1 (rw f at e)
]

assign-Ours :
    (k v : Bytes) (m : List (Bytes × Bytes)) → Ours (k, v) → All Ours m → All Ours (assign k v m)
unfolding assign
assign-Ours k v [] o h = (o, tt)
assign-Ours k v ((j, w) ∷ m) o h = elim (Bool-cases (eq j k)) [
  | inl f ↦ rw f (o, h.1)
  | inr f ↦ rw f (h.0, assign-Ours k v m o h.1)
]

pub put_all-Ours :
    (puts m : List (Bytes × Bytes)) → All Ours puts → All Ours m → All Ours (put_all puts m)
unfolding put_all
put_all-Ours [] m h k = k
put_all-Ours ((j, w) ∷ puts) m h k = put_all-Ours puts (assign j w m) h.1 (assign-Ours j w m h.0 k)

-- Entries that are found in a map of our entries are ours.
pub All-Ours :
    (es all m : List (Bytes × Bytes))
    → All Ours m
    → ((k : Bytes) → find k all ≡ find k m)
    → All (λ (e : Bytes × Bytes). find e.0 all ≡ some e.1) es
    → All Ours es
All-Ours [] all m o f h = tt
All-Ours ((j, w) ∷ es) all m o f h =
    (find-Ours j w m o (sym (f j) ∙ h.0), All-Ours es all m o f h.1)
