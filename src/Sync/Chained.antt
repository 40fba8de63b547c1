-- ===== src/Sync/Chained.antt =====
-- The headers that one HEADERS message adds to the store.
use mvclight.Base.{
  ◌⊎◌, leb→le, ltb_false→le, ℕ, ◌+◌, ◌<◌, ◌≡◌, refl, ◌∙◌, arith, Bool, true, false, ◌&&◌, not,
  Option, none, some, ◌==◌, if◌then◌else◌, take, Bool-cases, inl, inr,
}
use mvclight.Uint256.Order.{eq_iff}
use mvclight.Base.Int.{◌≤ℤ◌, ℤ, pos, pos_part, neg_part, ◌+ℤ◌, ◌-ℤ◌, ltb_ℤ, leb_ℤ, eqb_ℤ}
use mvclight.Base.Assoc.{int_key, find-assign}
use mvclight.Wire.{Bytes, byte_at}
use mvclight.Header.{get_hash, LightBlockHeader, header_size, deserialize}
use mvclight.Chain.{ChainStore, add_header, get_header_at_height, add_work}
use mvclight.Validation.{Verdict, prev_ok, validate_header, LightCheckpoint}
use mvclight.Asert.{default_params, get_next_asert_bits}
use mvclight.Sync.{
  SyncReason, Checked, stop, undefined, passed, previous, median_before, asert_bits, check_bits,
  after_rules, check_rules, check_parsed, check_header, SyncResult, processed, failed,
  undefined_result,
}

-- A header that passes names the previous header, if there is one.
abbrev pub Names : Option LightBlockHeader → ℤ → Checked → Type 0
Names prev height (stop reason) = Unit
Names prev height undefined = Unit
Names prev height (passed h) = prev_ok h prev height ≡ true

asert_bits-Names :
    (h : LightBlockHeader) (prev : Option LightBlockHeader) (height : ℤ) (o : Option ℕ)
    → prev_ok h prev height ≡ true
    → Names prev height (asert_bits h o)
unfolding asert_bits
asert_bits-Names h prev height none e = tt
asert_bits-Names h prev height (some bits) e = by_test (h.n_bits == bits)
  where
    by_test : (b : Bool) → Names prev height (if b then passed h else stop SyncReason.bad_diffbits)
    by_test true = e
    by_test false = tt

check_bits-Names :
    (h : LightBlockHeader) (other prev : Option LightBlockHeader) (height : ℤ) (historical : Bool)
    → prev_ok h prev height ≡ true
    → Names prev height (check_bits h other height historical)
unfolding check_bits
check_bits-Names h none prev height historical e = e
check_bits-Names h (some p) prev height historical e =
    by_test (not historical && ltb_ℤ (pos 0) height)
      (asert_bits-Names h prev height (get_next_asert_bits p (height -ℤ pos 1) default_params) e)
  where
    by_test :
        (b : Bool)
        → Names prev height (asert_bits h (get_next_asert_bits p (height -ℤ pos 1) default_params))
        → Names prev height (
            if b
            then asert_bits h (get_next_asert_bits p (height -ℤ pos 1) default_params)
            else passed h)
    by_test true k = k
    by_test false k = e

after_rules-Names :
    (v : Verdict) (prev : Option LightBlockHeader) (height : ℤ) (rest : Checked)
    → Names prev height rest
    → Names prev height (after_rules v rest)
unfolding after_rules
after_rules-Names Verdict.accepted prev height rest h = h
after_rules-Names (Verdict.rejected reason) prev height rest h = tt
after_rules-Names Verdict.undefined prev height rest h = tt

-- Without the name of the previous header the rules stop.
refused-Names :
    (h : LightBlockHeader) (prev : Option LightBlockHeader) (height now mtp : ℤ) (historical : Bool)
    (rest : Checked)
    → prev_ok h prev height ≡ false
    → Names prev height (after_rules (validate_header h prev height historical now mtp) rest)
unfolding after_rules validate_header
refused-Names h prev height now mtp historical rest e = elim (Bool-cases (ltb_ℤ height (pos 0))) [
  | inl f ↦ rw f tt
  | inr f ↦ rw (f, e) tt
]

check_rules-Names :
    (store : ChainStore) (cp : LightCheckpoint) (height now : ℤ) (h : LightBlockHeader)
    → Names (previous store height) height (check_rules store cp height now h)
unfolding check_rules
check_rules-Names store cp height now h =
    elim (Bool-cases (prev_ok h (previous store height) height)) [
      | inl e ↦
          after_rules-Names
            (validate_header h (previous store height) height (leb_ℤ height cp.height) now
              (median_before store height (previous store height)))
            (previous store height) height
            (check_bits h (previous store height) height (leb_ℤ height cp.height))
            (check_bits-Names h (previous store height) (previous store height) height
              (leb_ℤ height cp.height) e)
      | inr e ↦
          refused-Names h (previous store height) height now
            (median_before store height (previous store height)) (leb_ℤ height cp.height)
            (check_bits h (previous store height) height (leb_ℤ height cp.height)) e
    ]

check_parsed-Names :
    (store : ChainStore) (cp : LightCheckpoint) (height now : ℤ) (hp : Bytes)
    (o : Option LightBlockHeader)
    → Names (previous store height) height (check_parsed store cp height now hp o)
unfolding check_parsed
check_parsed-Names store cp height now hp none = tt
check_parsed-Names store cp height now hp (some h) =
    elim (Bool-cases (byte_at hp header_size == 0)) [
      | inl e ↦ rw e (check_rules-Names store cp height now h)
      | inr e ↦ rw e tt
    ]

pub check_header-Names :
    (store : ChainStore) (cp : LightCheckpoint) (height now : ℤ) (hp : Bytes)
    → Names (previous store height) height (check_header store cp height now hp)
unfolding check_header
check_header-Names store cp height now hp =
    check_parsed-Names store cp height now hp (deserialize (take header_size hp))

-- Above height 0 the header names the hash of the one below it.
abbrev pub Follows : LightBlockHeader → ℤ → Option LightBlockHeader → Type 0
Follows h k none = k ≤ℤ pos 0
Follows h k (some prev) = (k ≤ℤ pos 0) ⊎ (h.hash_prev_block ≡ get_hash prev)

prev_ok-Follows :
    (h : LightBlockHeader) (k : ℤ) (o : Option LightBlockHeader)
    → prev_ok h (if ltb_ℤ (pos 0) k then o else none) k ≡ true
    → Follows h k o
unfolding prev_ok
prev_ok-Follows h k none e = elim (Bool-cases (ltb_ℤ (pos 0) k)) [
  | inl f ↦ leb→le (pos_part k + 0) (0 + neg_part k) (rw f at e)
  | inr f ↦ ltb_false→le (0 + neg_part k) (pos_part k + 0) f
]
prev_ok-Follows h k (some prev) e = elim (Bool-cases (ltb_ℤ (pos 0) k)) [
  | inl f ↦ inr ((eq_iff h.hash_prev_block (get_hash prev)).0 (rw f at e))
  | inr f ↦ inl (ltb_false→le (0 + neg_part k) (pos_part k + 0) f)
]

-- A stored header that follows the one below it.
abbrev pub Linked : ChainStore → ℤ → Type 0
Linked s k =
    (h : LightBlockHeader) × (get_header_at_height s k ≡ some h)
    × Follows h k (get_header_at_height s (k -ℤ pos 1))

pub previous-Linked :
    (s : ChainStore) (k : ℤ) (h : LightBlockHeader)
    → get_header_at_height s k ≡ some h
    → prev_ok h (previous s k) k ≡ true
    → Linked s k
unfolding previous
previous-Linked s k h e f = (h, e, prev_ok-Follows h k (get_header_at_height s (k -ℤ pos 1)) f)

abbrev pub Below : ℤ → ℤ → Type 0
Below j k = pos_part j + neg_part k < pos_part k + neg_part j

abbrev pub Frame : ChainStore → ℤ → ChainStore → Type 0
Frame s height t = (k : ℤ) → Below k height → get_header_at_height t k ≡ get_header_at_height s k

-- The `n` headers from `height` on are stored and linked, if the loop came through.
abbrev pub Chained : ℕ → ℤ → ℕ → ChainStore × SyncResult → Type 0
Chained n height done (s, processed d) =
    (d ≡ done + n) × ((i : ℕ) → i < n → Linked s (height +ℤ pos i))
Chained n height done (s, failed reason) = Unit
Chained n height done (s, undefined_result) = Unit

abbrev pub stored : ChainStore → LightBlockHeader → ℤ → ChainStore
stored s h height = add_work (add_header s h height) h.n_bits

pub stored-other :
    (s : ChainStore) (h : LightBlockHeader) (height k : ℤ)
    → Below k height
    → get_header_at_height (stored s h height) k ≡ get_header_at_height s k
unfolding add_work add_header get_header_at_height
stored-other s h height k b = find-assign k height h s.m_by_height ∙ rw different refl
  where
    different : eqb_ℤ height k ≡ false
    different = ground arith

pub stored-same :
    (s : ChainStore) (h : LightBlockHeader) (height : ℤ)
    → get_header_at_height (stored s h height) height ≡ some h
unfolding add_work add_header get_header_at_height
stored-same s h height = find-assign height height h s.m_by_height ∙ rw equal refl
  where
    equal : eqb_ℤ height height ≡ true
    equal = ground arith
