-- ===== src/Chain.antt =====
-- light_chainstore.cpp: the header store by height and by hash, the median of the last times and
-- the accumulated work. A height is an integer; the maps are association lists.
pub mod Lookup
pub mod Work
use mvclight.Base.{
  ℕ, zero, suc, ◌+◌, ◌/◌, Bool, List, [], ◌∷◌, Option, none, some, leb, if◌then◌else◌, length,
  get_or,
}
use mvclight.Base.Int.{ℤ, pos, negsuc, ◌-ℤ◌, ltb_ℤ, leb_ℤ}
use mvclight.Base.Assoc.{int_key, uint256_key, find, assign, contains}
use mvclight.Uint256.{Uint256, null}
use mvclight.Header.{LightBlockHeader, get_hash}
use mvclight.Arith256.{Words, from_u64, to_uint256, set_compact, add, div, complement, zero_words}

pub record ChainStore : Type 0 where
  pub m_by_height : List (ℤ × LightBlockHeader)
  pub m_by_hash : List (Uint256 × ℤ)
  pub m_tip_height : ℤ
  pub m_chainwork : Uint256
  pub m_chainwork_arith : Words

-- The default member values, which `Reset` restores.
abbrev pub empty : ChainStore
empty = record {
  m_by_height = [];
  m_by_hash = [];
  m_tip_height = negsuc 0;
  m_chainwork = null;
  m_chainwork_arith = zero_words;
}

unfoldable pub add_header : ChainStore → LightBlockHeader → ℤ → ChainStore
add_header s header height = record s {
  m_by_height = assign height header s.m_by_height;
  m_by_hash = assign (get_hash header) height s.m_by_hash;
  m_tip_height = if ltb_ℤ s.m_tip_height height then height else s.m_tip_height;
}

unfoldable pub get_header_at_height : ChainStore → ℤ → Option LightBlockHeader
get_header_at_height s height = find height s.m_by_height

unfoldable pub get_height_by_hash : ChainStore → Uint256 → Option ℤ
get_height_by_hash s h = find h s.m_by_hash

unfoldable pub has_hash : ChainStore → Uint256 → Bool
has_hash s h = contains h s.m_by_hash

unfoldable pub get_tip : ChainStore → Option LightBlockHeader
unfolding get_header_at_height
get_tip s = get_header_at_height s s.m_tip_height

-- The times from `height` down while there are headers, at most `n` of them.
next_time : Option LightBlockHeader → List ℕ → List ℕ
next_time none rest = []
next_time (some hdr) rest = hdr.n_time ∷ rest

unfoldable pub last_times : ℕ → ChainStore → ℤ → List ℕ
unfolding next_time
last_times zero s height = []
last_times (suc n) s height =
    let rest = last_times n s (height -ℤ pos 1) in
    if ltb_ℤ height (pos 0) then [] else next_time (get_header_at_height s height) rest

-- `std::sort`.
unfoldable pub insert_sorted : ℕ → List ℕ → List ℕ
insert_sorted x [] = x ∷ []
insert_sorted x (y ∷ ys) = if leb x y then x ∷ y ∷ ys else y ∷ insert_sorted x ys

unfoldable pub sort : List ℕ → List ℕ
unfolding insert_sorted
sort [] = []
sort (x ∷ xs) = insert_sorted x (sort xs)

-- `times[times.size() / 2]` of the sorted times; none gives 0.
unfoldable pub median : List ℕ → ℕ
median times = get_or (sort times) (length times / 2) 0

unfoldable pub get_median_time_past : ChainStore → ℤ → ℕ
get_median_time_past s height = median (last_times 11 s height)

-- The work of one block, `(~target / (target + 1)) + 1`.
unfoldable pub block_work : ℕ → Words
block_work n_bits =
    let target = set_compact n_bits in
    add (div (complement target) (add target (from_u64 1))) (from_u64 1)

unfoldable pub add_work : ChainStore → ℕ → ChainStore
add_work s n_bits =
    let total = add s.m_chainwork_arith (block_work n_bits) in
    record s { m_chainwork_arith = total; m_chainwork = to_uint256 total }

unfoldable pub reset : ChainStore → ChainStore
reset s = empty
