-- ===== src/Merkle.antt =====
-- light_merkle.cpp: Merkle roots, and the partial trees of BIP 37 that a MERKLEBLOCK message carries.
-- The captured counters of `traverse` are a record that is passed on.
pub mod Root
pub mod Wired
pub mod Matches
mod Runs
use mvclight.Base.{
  ℕ, zero, suc, ◌+◌, ◌-◌, ◌*◌, ◌/◌, ◌%◌, ◌^◌, Bool, true, false, ◌&&◌, ◌||◌, not, List, [], ◌∷◌,
  ◌++◌, Option, none, some, ltb, leb, ◌==◌, if◌then◌else◌, length, take, drop, get_or,
}
use mathlib.Core.Option.{bind}
use mvclight.Wire.{Bytes, write_le, read_le32, read_compact_size, write_compact_size}
use mvclight.Uint256.{Uint256}
use mvclight.Uint256
use mvclight.Header.{LightBlockHeader, header_size}
use mvclight.Header
use mvclight.Sha256.{sha256d}

pub hash_pair : Uint256 → Uint256 → Uint256
hash_pair a b = sha256d (a ++ b)

-- One turn of the loop: the last of an odd number of hashes is paired with itself.
unfoldable pub next_level : List Uint256 → List Uint256
next_level [] = []
next_level (a ∷ []) = hash_pair a a ∷ []
next_level (a ∷ b ∷ level) = hash_pair a b ∷ next_level level

-- The number of hashes is fuel enough: a turn leaves half of them, and the loop ends at one.
unfoldable pub root_loop : ℕ → List Uint256 → Uint256
root_loop n [] = Uint256.null
root_loop n (a ∷ []) = a
root_loop zero (a ∷ b ∷ level) = Uint256.null
root_loop (suc n) (a ∷ b ∷ level) = root_loop n (next_level (a ∷ b ∷ level))

unfoldable pub compute_merkle_root : List Uint256 → Uint256
unfolding root_loop
compute_merkle_root txids = root_loop (length txids) txids

pub record PartialMerkleTree : Type 0 where
  pub n_transactions : ℕ
  pub v_bits : Bytes
  pub v_hash : List Uint256

abbrev pub max_items : ℕ
max_items = 1024 * 1024

unfoldable pub read_hashes : ℕ → Bytes → List Uint256
read_hashes zero p = []
read_hashes (suc n) p = take 32 p ∷ read_hashes n (drop 32 p)

-- The bytes after the hashes.
unfoldable pub deserialize_bits : ℕ → List Uint256 → Bytes → Option (PartialMerkleTree × Bytes)
deserialize_bits n_transactions v_hash p = bind (read_compact_size p) (λ r.
    if ltb max_items r.0 || ltb (length r.1) r.0
    then none
    else some (
      record { n_transactions = n_transactions; v_bits = take r.0 r.1; v_hash = v_hash },
      drop r.0 r.1,
    ))

-- `none` is the result false; `some` has the tree and the cursor behind it.
unfoldable pub deserialize : Bytes → Option (PartialMerkleTree × Bytes)
unfolding deserialize_bits
deserialize p =
    if ltb (length p) 4
    then none
    else bind (read_compact_size (drop 4 p)) (λ r.
      if ltb max_items r.0 || ltb (length r.1) (r.0 * 32)
      then none
      else deserialize_bits (read_le32 p) (read_hashes r.0 r.1) (drop (r.0 * 32) r.1))

unfoldable pub write_hashes : List Uint256 → Bytes
write_hashes [] = []
write_hashes (h ∷ hs) = h ++ write_hashes hs

unfoldable pub serialize : PartialMerkleTree → Bytes
unfolding write_hashes
serialize t =
    write_le 4 t.n_transactions
    ++ (write_compact_size (length t.v_hash)
        ++ (write_hashes t.v_hash ++ (write_compact_size (length t.v_bits) ++ t.v_bits)))

-- The sum is a uint32_t, as all operands are.
unfoldable pub tree_width : ℕ → ℕ → ℕ
tree_width n_transactions height = (n_transactions + 2 ^ height - 1) % 2 ^ 32 / 2 ^ height

-- `while (TreeWidth(nHeight) > 1) ++nHeight;` from `height` on. At height 31 the width of every
-- uint32_t is at most one, so that 31 turns are enough.
unfoldable pub height_loop : ℕ → ℕ → ℕ → ℕ
height_loop zero n_transactions height = height
height_loop (suc n) n_transactions height =
    let higher = height_loop n n_transactions (suc height) in
    if ltb 1 (tree_width n_transactions height) then higher else height

abbrev pub tree_height : ℕ → ℕ
tree_height n_transactions = height_loop 31 n_transactions 0

-- `GetBit`, for an index within the bits.
unfoldable pub get_bit : Bytes → ℕ → Bool
get_bit v_bits idx = get_or v_bits (idx / 8) 0 / 2 ^ (idx % 8) % 2 == 1

pub record Traversal : Type 0 where
  pub n_bits_used : ℕ
  pub n_hash_used : ℕ
  pub f_bad : Bool
  pub v_match : List Uint256

-- The next hash, at a leaf or under a node with no match.
take_hash : PartialMerkleTree → Bool → Traversal → Traversal × Uint256
take_hash t is_match s =
    if leb (length t.v_hash) s.n_hash_used then (record s { f_bad = true }, Uint256.null) else (
      record s {
        n_hash_used = suc s.n_hash_used;
        v_match =
            if is_match
            then s.v_match ++ get_or t.v_hash s.n_hash_used Uint256.null ∷ []
            else s.v_match;
      },
      get_or t.v_hash s.n_hash_used Uint256.null,
    )

join : Uint256 → Traversal × Uint256 → Traversal × Uint256
join left (s, right) =
    (if Uint256.eq right left then record s { f_bad = true } else s, hash_pair left right)

-- A node above a match, with the traversal of the height below.
parent :
    PartialMerkleTree
    → ℕ
    → ℕ
    → (ℕ → Traversal → Traversal × Uint256)
    → Traversal × Uint256
    → Traversal × Uint256
unfolding join
parent t height pos below (s, left) =
    elim (ltb ((pos * 2 + 1) % 2 ^ 32) (tree_width t.n_transactions height)) [
      | true ↦ join left (below ((pos * 2 + 1) % 2 ^ 32) s)
      | false ↦ (s, hash_pair left left)
    ]

-- `traverse`, by recursion on the height.
pub traverse : PartialMerkleTree → ℕ → ℕ → Traversal → Traversal × Uint256
unfolding take_hash parent
traverse t zero pos s =
    if leb (length t.v_bits * 8) s.n_bits_used
    then (record s { f_bad = true }, Uint256.null)
    else take_hash t (get_bit t.v_bits s.n_bits_used) (record s { n_bits_used = suc s.n_bits_used })
traverse t (suc height) pos s = elim (leb (length t.v_bits * 8) s.n_bits_used) [
  | true ↦ (record s { f_bad = true }, Uint256.null)
  | false ↦ elim (get_bit t.v_bits s.n_bits_used) [
    | false ↦ take_hash t false (record s { n_bits_used = suc s.n_bits_used })
    | true ↦
        parent t height pos (λ q r. traverse t height q r)
          (traverse t height (pos * 2 % 2 ^ 32) (record s { n_bits_used = suc s.n_bits_used }))
  ]
]

abbrev pub start : Traversal
start = record { n_bits_used = 0; n_hash_used = 0; f_bad = false; v_match = [] }

unfoldable pub is_empty {ℓ} : {A : Type ℓ} → List A → Bool
is_empty [] = true
is_empty (x ∷ xs) = false

-- The tests before the traversal: the early returns are false.
unfoldable pub may_traverse : PartialMerkleTree → Bool
unfolding is_empty
may_traverse t =
    if t.n_transactions == 0 || is_empty t.v_hash || is_empty t.v_bits
    then false
    else not (ltb (length t.v_bits * 8) (length t.v_hash))

-- The tests after it. `vBits` holds bytes, so `vBits.size()` counts bytes.
unfoldable pub used_up : PartialMerkleTree → Traversal → Bool
used_up t s =
    not s.f_bad
    && ((s.n_bits_used + 7) / 8 == (length t.v_bits + 7) / 8)
    && (s.n_hash_used == length t.v_hash)

-- The way on from the first tests: the end of the function, or an early return.
unfoldable pub conclude : PartialMerkleTree → Uint256 → Bool → Bool × List Uint256 × Uint256
unfolding used_up
conclude t root false = (false, [], root)
conclude t root true = finish (traverse t (tree_height t.n_transactions) 0 start)
  where
    finish : Traversal × Uint256 → Bool × List Uint256 × Uint256
    finish (s, top) = (used_up t s, s.v_match, top)

-- The Boolean result, and the values of `vMatch` and `root` afterwards; `root` keeps the caller's
-- value on an early return.
unfoldable pub extract_matches : PartialMerkleTree → Uint256 → Bool × List Uint256 × Uint256
unfolding conclude
extract_matches t root = conclude t root (may_traverse t)

pub record LightMerkleBlock : Type 0 where
  pub header : LightBlockHeader
  pub txn : PartialMerkleTree

-- `Deserialize` of the message.
pub deserialize_block : Bytes → Option LightMerkleBlock
deserialize_block p =
    if ltb (length p) header_size
    then none
    else bind (Header.deserialize p) (λ h.
      bind (deserialize (drop header_size p)) (λ r. some (record { header = h; txn = r.0 })))

-- `ExtractMatches` of the message.
pub extract_matches_block : LightMerkleBlock → Uint256 → Bool × List Uint256 × Uint256
extract_matches_block b root =
    let (ok, v_match, top) = extract_matches b.txn root in
    (ok && Uint256.eq top b.header.hash_merkle_root, v_match, top)
