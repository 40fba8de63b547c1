-- ===== src/WatchStore/Record.antt =====
-- The value that LevelDB keeps for a transaction.
use mvclight.Base.{
  ℕ, zero, suc, ◌+◌, ◌-◌, ◌%◌, ◌^◌, ◌<◌, ◌≤◌, ◌≡◌, refl, ap, ◌∙◌, ◌==◌, arith, Bool, true, false,
  not, [], ◌∷◌, ◌++◌, le→ltb_false, lt→ltb, if◌then◌else◌, length, take, drop, take-append_exact,
  drop-append_exact,
}
use mvclight.Base.Int.{ℤ, pos, negsuc, ◌≤ℤ◌}
use mvclight.Wire.{Bytes, write_le, read_le, read_le32, byte_at}
use mvclight.Wire.Endian.{length-write_le, read_le-write_le, read_le32-write_le}
use mvclight.WatchStore.{
  TxRecord, to_u64, to_i64, serialize_record, out_of_bounds, decoded, read_proof, read_blobs,
  deserialize_record,
}
use mvclight.WatchStore.Layout.{
  IsRecord, proof_part, blob_part, flag_part, fields, drop_to_flag, drop_to_blob, drop_to_length,
  drop_to_proof, length-fields,
}

pub to_i64-to_u64 :
    (h : ℤ) → negsuc (2 ^ 63 - 1) ≤ℤ h → h ≤ℤ pos (2 ^ 63 - 1) → to_i64 (to_u64 h) ≡ h
unfolding to_i64 to_u64
to_i64-to_u64 h a b = ground arith

pub to_u64-lt : (h : ℤ) → to_u64 h < 2 ^ 64
unfolding to_u64
to_u64-lt h = ground arith

pub take_all : (xs : Bytes) → take (length xs) xs ≡ xs
take_all [] = refl
take_all (x ∷ xs) = ap (λ (t : Bytes). x ∷ t) (take_all xs)

flag_kept : (b : Bool) → not ((if b then 1 else 0) == 0) ≡ b
flag_kept true = refl
flag_kept false = refl

byte_at-drop : (p : Bytes) (i : ℕ) → byte_at p i ≡ byte_at (drop i p) 0
byte_at-drop [] zero = refl
byte_at-drop [] (suc i) = refl
byte_at-drop (b ∷ p) zero = refl
byte_at-drop (b ∷ p) (suc i) = byte_at-drop p i

-- The five fields that are read back.
read_fields :
    (rec : TxRecord)
    → IsRecord rec
    → decoded (record {
      txid = rec.txid;
      height = to_i64 (read_le (take 8 (fields rec)));
      block_hash = take 32 (drop 8 (fields rec));
      tx_blob = take (length rec.tx_blob) (drop 45 (fields rec));
      proof_blob = take (length rec.proof_blob) (drop (49 + length rec.tx_blob) (fields rec));
      script_verified = not (byte_at (fields rec) 40 == 0);
    })
      ≡ decoded rec
read_fields rec h = λ i. decoded (record {
  txid = rec.txid;
  height = height_read i;
  block_hash = hash_read i;
  tx_blob = blob_read i;
  proof_blob = proof_read i;
  script_verified = flag_read i;
})
  where
    height_read : to_i64 (read_le (take 8 (fields rec))) ≡ rec.height
    height_read =
        ap (λ (t : Bytes). to_i64 (read_le t))
          (take-append_exact 8 (write_le 8 (to_u64 rec.height)) (rec.block_hash ++ flag_part rec)
            (length-write_le 8 (to_u64 rec.height)))
        ∙ ap to_i64 (read_le-write_le 8 (to_u64 rec.height) (to_u64-lt rec.height))
        ∙ to_i64-to_u64 rec.height h.height_low h.height_high

    hash_read : take 32 (drop 8 (fields rec)) ≡ rec.block_hash
    hash_read =
        ap (take 32) (
          drop-append_exact 8 (write_le 8 (to_u64 rec.height)) (rec.block_hash ++ flag_part rec)
            (length-write_le 8 (to_u64 rec.height)))
        ∙ take-append_exact 32 rec.block_hash (flag_part rec) h.hash_length

    blob_read : take (length rec.tx_blob) (drop 45 (fields rec)) ≡ rec.tx_blob
    blob_read =
        ap (take (length rec.tx_blob)) (drop_to_blob rec 45 0 h refl)
        ∙ take-append_exact (length rec.tx_blob) rec.tx_blob (proof_part rec) refl

    proof_read :
        take (length rec.proof_blob) (drop (49 + length rec.tx_blob) (fields rec)) ≡ rec.proof_blob
    proof_read =
        ap (take (length rec.proof_blob)) (drop_to_proof rec (49 + length rec.tx_blob) h refl)
        ∙ take_all rec.proof_blob

    flag_read : not (byte_at (fields rec) 40 == 0) ≡ rec.script_verified
    flag_read =
        ap (λ (b : ℕ). not (b == 0))
          (byte_at-drop (fields rec) 40
            ∙ ap (λ (t : Bytes). byte_at t 0) (drop_to_flag rec 40 0 h refl))
        ∙ flag_kept rec.script_verified

read_proof_lem :
    (rec : TxRecord)
    → IsRecord rec
    → read_proof rec.txid (fields rec) (length rec.tx_blob) (length rec.proof_blob) ≡ decoded rec
unfolding read_proof
read_proof_lem rec h =
    rw
      (
        le→ltb_false (length (fields rec))
            ((49 + length rec.tx_blob + length rec.proof_blob) % 2 ^ 32)
            (omega (arith, length-fields rec h, h.small)),
        le→ltb_false (length (fields rec)) (49 + length rec.tx_blob + length rec.proof_blob)
            (omega (arith, length-fields rec h)),
      )
      (read_fields rec h)

read_blobs_lem :
    (rec : TxRecord)
    → IsRecord rec
    → read_blobs rec.txid (fields rec) (length rec.tx_blob) ≡ decoded rec
unfolding read_blobs
read_blobs_lem rec h =
    rw
      (
        le→ltb_false (length (fields rec)) ((49 + length rec.tx_blob) % 2 ^ 32)
            (omega (arith, length-fields rec h, h.small)),
        le→ltb_false (length (fields rec)) (49 + length rec.tx_blob)
            (omega (arith, length-fields rec h)),
        proof_length,
      )
      (read_proof_lem rec h)
  where
    proof_length : read_le32 (drop (45 + length rec.tx_blob) (fields rec)) ≡ length rec.proof_blob
    proof_length =
        ap read_le32 (drop_to_length rec (45 + length rec.tx_blob) h refl)
        ∙ read_le32-write_le (length rec.proof_blob) rec.proof_blob (omega (arith, h.small))

-- A record with a block hash of 32 bytes, a height of 64 bits and less than 4 GiB of data comes back
-- from its value in LevelDB under its identifier, with no read past the end of the value.
pub deserialize_record-serialize_record :
    (rec : TxRecord)
    → IsRecord rec
    → deserialize_record rec.txid (serialize_record rec) ≡ decoded rec
unfolding deserialize_record serialize_record
deserialize_record-serialize_record rec h =
    rw (le→ltb_false (length (fields rec)) 45 (omega (arith, length-fields rec h)), blob_length)
      (read_blobs_lem rec h)
  where
    blob_length : read_le32 (drop 41 (fields rec)) ≡ length rec.tx_blob
    blob_length =
        ap read_le32 (drop_to_flag rec 41 1 h refl)
        ∙ read_le32-write_le (length rec.tx_blob) (blob_part rec) (omega (arith, h.small))

-- A value of 49 bytes or more, of less than 4 GiB, whose transaction length is one of the largest 49
-- numbers of 32 bits is read past its end: the sum of the lengths wraps before it is compared.
pub deserialize_record-wrapped :
    (txid p : Bytes) (blob_len : ℕ)
    → read_le32 (drop 41 p) ≡ blob_len
    → 2 ^ 32 - 49 ≤ blob_len
    → blob_len < 2 ^ 32
    → 49 ≤ length p
    → length p < 2 ^ 32 - 49
    → deserialize_record txid p ≡ out_of_bounds
unfolding deserialize_record read_blobs
deserialize_record-wrapped txid p blob_len e a b c d =
    rw
      (
        le→ltb_false (length p) 45 (omega arith),
        e,
        le→ltb_false (length p) ((49 + blob_len) % 2 ^ 32) (omega arith),
        lt→ltb (length p) (49 + blob_len) (omega arith),
      )
      refl
