-- ===== src/Chain/Lookup.antt =====
-- What `AddHeader` changes and what it leaves.
use mvclight.Base.{◌≡◌, some, if◌then◌else◌, arith}
use mvclight.Base.Int.{ℤ, eqb_ℤ, ◌≤ℤ◌}
use mvclight.Base.Assoc.{int_key, uint256_key, find-assign}
use mvclight.Uint256.{Uint256}
use mvclight.Uint256
use mvclight.Header.{LightBlockHeader, get_hash}
use mvclight.Chain.{ChainStore, add_header, get_header_at_height, get_height_by_hash}

-- After `AddHeader` the header stands at its height, its hash leads to that height, every other
-- height and every other hash is as before, and the tip is at least that height and the old tip.
pub get-add_header :
    (s : ChainStore) (header : LightBlockHeader) (height k : ℤ) (hash : Uint256)
    → (get_header_at_height (add_header s header height) k
        ≡ (if eqb_ℤ height k then some header else get_header_at_height s k))
      × (get_height_by_hash (add_header s header height) hash
          ≡ (if Uint256.eq (get_hash header) hash then some height else get_height_by_hash s hash))
      × (s.m_tip_height ≤ℤ (add_header s header height).m_tip_height)
      × (height ≤ℤ (add_header s header height).m_tip_height)
unfolding add_header get_header_at_height get_height_by_hash
get-add_header s header height k hash = (
  find-assign k height header s.m_by_height,
  find-assign hash (get_hash header) height s.m_by_hash,
  ground arith,
  ground arith,
)
