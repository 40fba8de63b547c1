-- ===== src/Tx.antt =====
-- light_tx.cpp: the plain transaction, its identifier, and the context-free checks on it. An amount
-- is an int64_t; the version is the bit pattern of the int32_t.
pub mod Common
use mvclight.Base.{
  ℕ, ◌*◌, ◌-◌, ltb, List, [], ◌∷◌, ◌++◌, Option, none, some, if◌then◌else◌, length, ◌&&◌,
}
use mvclight.Base.Int.{ℤ, pos, pos_part, neg_part, ◌+ℤ◌, ltb_ℤ, leb_ℤ}
use mvclight.Wire.{Bytes, write_le, write_compact_size32}
use mvclight.Uint256.{Uint256}
use mvclight.Sha256.{sha256d}

abbrev pub max_money : ℕ
max_money = 2100000000000000

abbrev pub max_tx_size : ℕ
max_tx_size = 32 * 1024 * 1024

pub record LightTxIn : Type 0 where
  pub prevout_hash : Uint256
  pub prevout_n : ℕ
  pub script_sig : Bytes
  pub sequence : ℕ

pub record LightTxOut : Type 0 where
  pub n_value : ℤ
  pub script_pubkey : Bytes

pub record LightTx : Type 0 where
  pub n_version : ℕ
  pub vin : List LightTxIn
  pub vout : List LightTxOut
  pub n_lock_time : ℕ

-- The eight bytes of an int64_t, in two's complement.
write_value : ℤ → Bytes
write_value (pos n) = write_le 8 n
write_value (ℤ.negsuc n) = write_le 8 (18446744073709551615 - n)

write_inputs : List LightTxIn → Bytes
write_inputs [] = []
write_inputs (i ∷ is) = i.prevout_hash ++ write_le 4 i.prevout_n ++ write_inputs is

write_outputs : List LightTxOut → Bytes
unfolding write_value
write_outputs [] = []
write_outputs (o ∷ os) = write_value o.n_value ++ write_outputs os

-- What `GetTxid` hashes; the scripts and the sequence numbers are not part of it.
raw : LightTx → Bytes
unfolding write_inputs write_outputs
raw tx =
    write_le 4 tx.n_version
    ++ write_compact_size32 (length tx.vin)
    ++ write_inputs tx.vin
    ++ write_compact_size32 (length tx.vout)
    ++ write_outputs tx.vout
    ++ write_le 4 tx.n_lock_time

pub get_txid : LightTx → Uint256
unfolding raw
get_txid tx = sha256d (raw tx)

-- The reject codes.
pub data TxReject : Type 0 where
  vin_empty : TxReject
  vout_empty : TxReject
  oversize : TxReject
  vout_negative : TxReject
  vout_toolarge : TxReject
  txouttotal_toolarge : TxReject

-- The loop over the outputs; `none` is the way on.
unfoldable pub check_outputs : List LightTxOut → ℤ → Option TxReject
check_outputs [] value_out = none
check_outputs (txout ∷ os) value_out =
    let rest = check_outputs os (value_out +ℤ txout.n_value) in
    if ltb_ℤ txout.n_value (pos 0)
    then some TxReject.vout_negative
    else (if ltb_ℤ (pos max_money) txout.n_value
        then some TxReject.vout_toolarge
        else (if leb_ℤ (pos 0) (value_out +ℤ txout.n_value)
              && leb_ℤ (value_out +ℤ txout.n_value) (pos max_money)
            then rest
            else some TxReject.txouttotal_toolarge))

-- The checks in their order, on the two lists of the transaction.
unfoldable pub check_lists : List LightTxIn → List LightTxOut → ℕ → Option TxReject
check_lists [] vout serialized_size = some TxReject.vin_empty
check_lists (i ∷ is) [] serialized_size = some TxReject.vout_empty
check_lists (i ∷ is) (o ∷ os) serialized_size =
    if ltb max_tx_size serialized_size
    then some TxReject.oversize
    else check_outputs (o ∷ os) (pos 0)

-- `none` is the result true, `some` the result false with that code.
unfoldable pub check_transaction_common : LightTx → ℕ → Option TxReject
unfolding check_lists
check_transaction_common tx serialized_size = check_lists tx.vin tx.vout serialized_size
