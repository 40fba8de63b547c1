-- ===== src/Validation.antt =====
-- light_validation.cpp and light_checkpoints.cpp: the rules for one header and the checkpoint.
-- `fault` stands for undefined behaviour: a write outside `target_be`.
pub mod Target
pub mod Compact
pub mod Rules
pub mod Undefined
pub mod Checkpoint
use mvclight.Base.{
  ℕ, suc, ◌+◌, ◌-◌, ◌*◌, ◌/◌, ◌%◌, ◌^◌, Bool, true, false, not, List, [], ◌∷◌, Option, none, some,
  bit_and, codes, ltb, leb, ◌==◌, if◌then◌else◌, replicate, set,
}
use mvclight.Base.Int.{ℤ, pos, negsuc, ◌+ℤ◌, ltb_ℤ, leb_ℤ, to_u32, signed32}
use mvclight.Wire.{Bytes}
use mvclight.Uint256.{Uint256}
use mvclight.Uint256
use mvclight.Header.{LightBlockHeader, get_hash}
use mvclight.Chain.{ChainStore, get_header_at_height}
use mathlib.Core.List.{reverse}

pub data TargetResult : Type 0 where
  target : Bytes → TargetResult
  no_target : TargetResult
  fault : TargetResult

-- The mantissa at `pos - 2`, `pos - 1` and `pos` of the 32 big-endian bytes.
place_mantissa : ℕ → ℕ → TargetResult
place_mantissa mantissa shift =
    let p = 31 - shift in
    if ltb p 2
    then fault
    else target (
        set
          (set (set (replicate 32 0) (p - 2) (mantissa / 2 ^ 16 % 256)) (p - 1)
            (mantissa / 2 ^ 8 % 256))
          p (mantissa % 256))

small_target : ℕ → TargetResult
small_target v =
    if v == 0
    then no_target
    else target
        (set (set (set (replicate 32 0) 31 (v % 256)) 30 (v / 2 ^ 8 % 256)) 29 (v / 2 ^ 16 % 256))

unfoldable pub target_from_bits : ℕ → TargetResult
unfolding place_mantissa small_target
target_from_bits n_bits =
    let exponent = n_bits / 2 ^ 24 in
    let mantissa = bit_and n_bits 0x007fffff in
    if mantissa == 0
    then no_target
    else (if leb exponent 3
        then small_target (mantissa / 2 ^ (8 * (3 - exponent)))
        else (if leb 32 (exponent - 3) then no_target else place_mantissa mantissa (exponent - 3)))

-- The loop of `HashLeTarget` over the big-endian bytes, the first difference decides.
unfoldable pub le_loop : Bytes → Bytes → Bool
le_loop [] ts = true
le_loop (x ∷ xs) [] = true
le_loop (x ∷ xs) (t ∷ ts) =
    let rest = le_loop xs ts in if ltb x t then true else (if ltb t x then false else rest)

unfoldable pub hash_le_target : Uint256 → Bytes → Bool
unfolding le_loop
hash_le_target hash target_be = le_loop (reverse hash) target_be

pub data Reason : Type 0 where
  bad_height bad_prevblk bad_diffbits high_hash time_too_old time_too_new bad_version : Reason

pub data Verdict : Type 0 where
  accepted : Verdict
  rejected : Reason → Verdict
  undefined : Verdict

-- The time that a header must pass: the median if there is one, else the previous header's.
unfoldable pub min_time : Option LightBlockHeader → ℤ → ℕ
min_time none mtp = if leb_ℤ (pos 0) mtp then to_u32 mtp else 0
min_time (some prev) mtp = if leb_ℤ (pos 0) mtp then to_u32 mtp else to_u32 (pos prev.n_time)

unfoldable pub check_times : LightBlockHeader → ℕ → ℤ → Verdict
check_times h lowest adjusted_time_now =
    if leb h.n_time lowest
    then rejected time_too_old
    else (if ltb (to_u32 (adjusted_time_now +ℤ pos (2 * 3600))) h.n_time
        then rejected time_too_new
        else (if ltb_ℤ (signed32 h.n_version) (pos 4) then rejected bad_version else accepted))

unfoldable pub check_pow : LightBlockHeader → TargetResult → Verdict → Verdict
check_pow h no_target rest = rejected bad_diffbits
check_pow h fault rest = undefined
check_pow h (target t) rest = if hash_le_target (get_hash h) t then rest else rejected high_hash

-- `h.hashPrevBlock != prev->GetHash()`, and no previous header above height 0.
unfoldable pub prev_ok : LightBlockHeader → Option LightBlockHeader → ℤ → Bool
prev_ok h none height = leb_ℤ height (pos 0)
prev_ok h (some prev) height = Uint256.eq h.hash_prev_block (get_hash prev)

unfoldable pub validate_header :
    LightBlockHeader → Option LightBlockHeader → ℤ → Bool → ℤ → ℤ → Verdict
validate_header h prev height historical_segment adjusted_time_now mtp =
    if ltb_ℤ height (pos 0)
    then rejected bad_height
    else (if prev_ok h prev height
        then (if historical_segment
            then accepted
            else check_pow h (target_from_bits h.n_bits)
                (check_times h (min_time prev mtp) adjusted_time_now))
        else rejected bad_prevblk)

pub record LightCheckpoint : Type 0 where
  pub height : ℤ
  pub hash : Uint256
  pub n_chain_work : Uint256

-- The loop of `ChainWorkGe`, over both values from the last byte to the first.
unfoldable pub ge_loop : Bytes → Bytes → Bool
ge_loop [] bs = true
ge_loop (x ∷ xs) [] = true
ge_loop (x ∷ xs) (y ∷ ys) = let rest = ge_loop xs ys in if x == y then rest else ltb y x

unfoldable pub chain_work_ge : Uint256 → Uint256 → Bool
unfolding ge_loop
chain_work_ge a b = ge_loop (reverse a) (reverse b)

hash_is : Option LightBlockHeader → Uint256 → Bool
hash_is none hash = false
hash_is (some hdr) hash = Uint256.eq (get_hash hdr) hash

anchored : ChainStore → LightCheckpoint → Bool
unfolding hash_is
anchored store cp =
    if Uint256.is_null cp.hash then true else hash_is (get_header_at_height store cp.height) cp.hash

unfoldable pub check_checkpoint : ChainStore → LightCheckpoint → Bool
unfolding anchored
check_checkpoint store cp =
    if Uint256.is_null cp.n_chain_work
    then anchored store cp
    else (if chain_work_ge store.m_chainwork cp.n_chain_work then anchored store cp else false)

-- `GetBuiltinCheckpoint`.
abbrev builtin_hash : List ℕ
builtin_hash = codes "000000000000000006f6631897b7095706a61148245e5dbf94166fe1d3c67623"

abbrev builtin_work : List ℕ
builtin_work = codes "000000000000000000000000000000000000000000023dfb816b391d12d40116"

pub builtin_checkpoint : LightCheckpoint
builtin_checkpoint = record {
  height = pos 21256;
  hash = Uint256.set_hex builtin_hash;
  n_chain_work = Uint256.set_hex builtin_work;
}
