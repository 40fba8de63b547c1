-- ===== src/WatchStore.antt =====
-- light_watchstore.cpp: the transactions of the watched addresses, in memory and in LevelDB. LevelDB
-- is the record `LevelDb`, over a type `S` of states on disk: what it opens, the entries that an
-- iterator visits, and an atomic write of a batch of puts. A key or a value is a byte string.
pub mod Operations
pub mod Layout
pub mod Record
pub mod Index
pub mod Stored
pub mod Load
pub mod Disk
pub mod Batch
pub mod Commit
pub mod Durable
use mvclight.Base.{
  ℕ, zero, suc, ◌+◌, ◌-◌, ◌%◌, ◌^◌, ◌==◌, Bool, true, false, ◌&&◌, ◌||◌, not, List, [], ◌∷◌, ◌++◌,
  Option, none, some, ltb, leb, if◌then◌else◌, length, take, drop,
}
use mvclight.Base.Int.{ℤ, pos, negsuc}
use mvclight.Base.Assoc.{uint256_key, find, emplace, contains}
use mvclight.Wire.{Bytes, write_le, read_le, read_le32, byte_at}
use mvclight.Uint256
use mvclight.Uint256.{Uint256}

pub record TxRecord : Type 0 where
  pub txid : Uint256
  pub height : ℤ
  pub block_hash : Uint256
  pub tx_blob : Bytes
  pub proof_blob : Bytes
  pub script_verified : Bool

abbrev pub prefix_tx_store : ℕ
prefix_tx_store = 1

abbrev pub prefix_addr_index : ℕ
prefix_addr_index = 2

unfoldable pub make_tx_key : Uint256 → Bytes
make_tx_key txid = prefix_tx_store ∷ txid

unfoldable pub make_addr_key : Bytes → Uint256 → Bytes
make_addr_key addr txid = prefix_addr_index ∷ (addr ++ 0 ∷ txid)

-- The casts between int64_t and uint64_t.
unfoldable pub to_u64 : ℤ → ℕ
to_u64 (pos n) = n % 2 ^ 64
to_u64 (negsuc n) = 2 ^ 64 - 1 - n % 2 ^ 64

unfoldable pub to_i64 : ℕ → ℤ
to_i64 w = if ltb w (2 ^ 63) then pos w else negsuc (2 ^ 64 - 1 - w)

unfoldable pub serialize_record : TxRecord → Bytes
serialize_record rec =
    write_le 8 (to_u64 rec.height)
    ++ (rec.block_hash
        ++ ((if rec.script_verified then 1 else 0)
            ∷ (write_le 4 (length rec.tx_blob)
                ++ (rec.tx_blob ++ (write_le 4 (length rec.proof_blob) ++ rec.proof_blob)))))

-- `out_of_bounds`: the code reads past the end of the value.
pub data Decoded : Type 0 where
  rejected : Decoded
  out_of_bounds : Decoded
  decoded : TxRecord → Decoded

-- From the length of the proof on. The sum is a uint32_t, the length of the value a size_t.
read_proof : Uint256 → Bytes → ℕ → ℕ → Decoded
read_proof txid p blob_len proof_len =
    if ltb (length p) ((49 + blob_len + proof_len) % 2 ^ 32)
    then rejected
    else (if ltb (length p) (49 + blob_len + proof_len)
        then out_of_bounds
        else decoded (record {
          txid = txid;
          height = to_i64 (read_le (take 8 p));
          block_hash = take 32 (drop 8 p);
          tx_blob = take blob_len (drop 45 p);
          proof_blob = take proof_len (drop (49 + blob_len) p);
          script_verified = not (byte_at p 40 == 0);
        }))

-- From the length of the transaction on.
read_blobs : Uint256 → Bytes → ℕ → Decoded
unfolding read_proof
read_blobs txid p blob_len =
    if ltb (length p) ((49 + blob_len) % 2 ^ 32)
    then rejected
    else (if ltb (length p) (49 + blob_len)
        then out_of_bounds
        else read_proof txid p blob_len (read_le32 (drop (45 + blob_len) p)))

unfoldable pub deserialize_record : Uint256 → Bytes → Decoded
unfolding read_blobs
deserialize_record txid p =
    if ltb (length p) 45 then rejected else read_blobs txid p (read_le32 (drop 41 p))

-- The order of the index: `<` of strings and of identifiers, bytes first to last.
unfoldable pub bytes_lt : Bytes → Bytes → Bool
bytes_lt xs [] = false
bytes_lt [] (y ∷ ys) = true
bytes_lt (x ∷ xs) (y ∷ ys) = ltb x y || (x == y && bytes_lt xs ys)

abbrev pub Pair : Type 0
Pair = Bytes × Uint256

unfoldable pub pair_lt : Pair → Pair → Bool
pair_lt j k = bytes_lt j.0 k.0 || (Uint256.eq j.0 k.0 && bytes_lt j.1 k.1)

unfoldable pub pair_eq : Pair → Pair → Bool
pair_eq j k = Uint256.eq j.0 k.0 && Uint256.eq j.1 k.1

-- `emplace` into the ordered map, whose values are all true.
unfoldable pub place : Pair → List Pair → List Pair
place k [] = k ∷ []
place k (j ∷ m) = if pair_lt k j then k ∷ j ∷ m else (if pair_eq j k then j ∷ m else j ∷ place k m)

unfoldable pub listed : Pair → List Pair → Bool
listed k [] = false
listed k (j ∷ m) = pair_eq j k || listed k m

-- The two maps in memory.
pub record Memory : Type 0 where
  pub m_tx_store : List (Uint256 × TxRecord)
  pub m_addr_tx_index : List Pair

abbrev pub no_memory : Memory
no_memory = record { m_tx_store = []; m_addr_tx_index = [] }

pub record LevelDb (S : Type 0) : Type 0 where
  pub open_db : Bytes → Option S
  pub entries : S → List (Bytes × Bytes)
  pub write : S → List (Bytes × Bytes) → S × Bool

pub record WatchStore (S : Type 0) : Type 0 where
  pub m_db : Option S
  pub memory : Memory
  pub m_disk_full : Bool

before : ℕ → Option (Bytes × Bytes) → Option (Bytes × Bytes)
before c none = none
before c (some (addr, txid)) = some (c ∷ addr, txid)

-- `std::find` of a zero: the bytes before it and those after it.
unfoldable pub split_zero : Bytes → Option (Bytes × Bytes)
unfolding before
split_zero [] = none
split_zero (c ∷ cs) = let rest = split_zero cs in if c == 0 then some ([], cs) else before c rest

load_tx : Memory → Uint256 → Decoded → Option Memory
load_tx m txid rejected = some m
load_tx m txid out_of_bounds = none
load_tx m txid (decoded rec) = some (record m { m_tx_store = emplace txid rec m.m_tx_store })

load_addr : Memory → Option (Bytes × Bytes) → Memory
load_addr m none = m
load_addr m (some (addr, txid)) =
    if length txid == 32
    then record m { m_addr_tx_index = place (addr, txid) m.m_addr_tx_index }
    else m

-- One turn of the loop of `LoadFromDB`; `none` when the code reads out of bounds.
unfoldable pub load_entry : Memory → Bytes → Bytes → Option Memory
unfolding load_tx load_addr
load_entry m [] val = some m
load_entry m (prefix ∷ rest) val =
    if leb 32 (length rest) && prefix == prefix_tx_store
    then load_tx m (take 32 rest) (deserialize_record (take 32 rest) val)
    else (if ltb 32 (length rest) && prefix == prefix_addr_index
        then some (load_addr m (split_zero rest))
        else some m)

load_rest : Option Memory → (Memory → Option Memory) → Option Memory
load_rest none next = none
load_rest (some m) next = next m

unfoldable pub load : Memory → List (Bytes × Bytes) → Option Memory
unfolding load_rest
load m [] = some m
load m ((key, val) ∷ es) = load_rest (load_entry m key val) (λ n. load n es)
