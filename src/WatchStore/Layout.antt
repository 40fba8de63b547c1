-- ===== src/WatchStore/Layout.antt =====
-- Where the fields of a stored transaction stand.
use mvclight.Base.{
  ℕ, zero, suc, ◌+◌, ◌-◌, ◌^◌, ◌<◌, ◌≡◌, ap, ◌∙◌, arith, [], ◌∷◌, ◌++◌, if◌then◌else◌, length, drop,
  length-append,
}
use mvclight.Base.Int.{pos, negsuc, ◌≤ℤ◌}
use mvclight.Wire.{Bytes, write_le}
use mvclight.Wire.Endian.{length-write_le}
use mvclight.WatchStore.{TxRecord, to_u64}

-- A block hash of 32 bytes, a height of 64 bits, and less than 4 GiB in all.
pub record IsRecord (rec : TxRecord) : Type 0 where
  pub hash_length : length rec.block_hash ≡ 32
  pub height_low : negsuc (2 ^ 63 - 1) ≤ℤ rec.height
  pub height_high : rec.height ≤ℤ pos (2 ^ 63 - 1)
  pub small : 49 + length rec.tx_blob + length rec.proof_blob < 2 ^ 32

-- The value from the flag on, from the transaction on, and from the length of the proof on.
abbrev pub proof_part : TxRecord → Bytes
proof_part rec = write_le 4 (length rec.proof_blob) ++ rec.proof_blob

abbrev pub blob_part : TxRecord → Bytes
blob_part rec = rec.tx_blob ++ proof_part rec

abbrev pub flag : TxRecord → ℕ
flag rec = if rec.script_verified then 1 else 0

abbrev pub flag_part : TxRecord → Bytes
flag_part rec = flag rec ∷ (write_le 4 (length rec.tx_blob) ++ blob_part rec)

abbrev pub fields : TxRecord → Bytes
fields rec = write_le 8 (to_u64 rec.height) ++ (rec.block_hash ++ flag_part rec)

pub drop_past : (m k : ℕ) (xs ys : Bytes) → m ≡ length xs + k → drop m (xs ++ ys) ≡ drop k ys
drop_past m k [] ys h = ap (λ (n : ℕ). drop n ys) (omega arith)
drop_past zero k (x ∷ xs) ys h = absurd (omega arith)
drop_past (suc m) k (x ∷ xs) ys h = drop_past m k xs ys (omega arith)

pub drop_to_flag :
    (rec : TxRecord) (m k : ℕ)
    → IsRecord rec
    → m ≡ 40 + k
    → drop m (fields rec) ≡ drop k (flag_part rec)
drop_to_flag rec m k h e =
    drop_past m (32 + k) (write_le 8 (to_u64 rec.height)) (rec.block_hash ++ flag_part rec)
      (omega (arith, length-write_le 8 (to_u64 rec.height)))
    ∙ drop_past (32 + k) k rec.block_hash (flag_part rec) (omega (arith, h.hash_length))

pub drop_to_blob :
    (rec : TxRecord) (m k : ℕ)
    → IsRecord rec
    → m ≡ 45 + k
    → drop m (fields rec) ≡ drop k (blob_part rec)
drop_to_blob rec m k h e =
    drop_to_flag rec m (5 + k) h (omega arith)
    ∙ drop_past (5 + k) k (flag rec ∷ write_le 4 (length rec.tx_blob)) (blob_part rec)
        (omega (arith, length-write_le 4 (length rec.tx_blob)))

pub drop_to_length :
    (rec : TxRecord) (m : ℕ)
    → IsRecord rec
    → m ≡ 45 + length rec.tx_blob
    → drop m (fields rec) ≡ proof_part rec
drop_to_length rec m h e =
    drop_to_blob rec m (length rec.tx_blob) h e
    ∙ drop_past (length rec.tx_blob) 0 rec.tx_blob (proof_part rec) (omega arith)

pub drop_to_proof :
    (rec : TxRecord) (m : ℕ)
    → IsRecord rec
    → m ≡ 49 + length rec.tx_blob
    → drop m (fields rec) ≡ rec.proof_blob
drop_to_proof rec m h e =
    drop_to_blob rec m (length rec.tx_blob + 4) h (omega arith)
    ∙ drop_past (length rec.tx_blob + 4) 4 rec.tx_blob (proof_part rec) (omega arith)
    ∙ drop_past 4 0 (write_le 4 (length rec.proof_blob)) rec.proof_blob
        (omega (arith, length-write_le 4 (length rec.proof_blob)))

pub length-fields :
    (rec : TxRecord)
    → IsRecord rec
    → length (fields rec) ≡ 49 + length rec.tx_blob + length rec.proof_blob
length-fields rec h = omega (
  arith,
  h.hash_length,
  length-append (write_le 8 (to_u64 rec.height)) (rec.block_hash ++ flag_part rec),
  length-append rec.block_hash (flag_part rec),
  length-append (write_le 4 (length rec.tx_blob)) (blob_part rec),
  length-append rec.tx_blob (proof_part rec),
  length-append (write_le 4 (length rec.proof_blob)) rec.proof_blob,
  length-write_le 8 (to_u64 rec.height),
  length-write_le 4 (length rec.tx_blob),
  length-write_le 4 (length rec.proof_blob),
)
