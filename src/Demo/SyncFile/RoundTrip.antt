-- ===== src/Demo/SyncFile/RoundTrip.antt =====
-- The saved tip is read back.
use mvclight.Base.{
  arith, ℕ, ◌+◌, ◌-◌, ◌^◌, ltb, ◌≡◌, refl, sym, ap, ◌∙◌, false, ◌++◌, some, length, take, drop,
  length-append, take-append_exact, drop-append_exact,
}
use mvclight.Base.Int.{ℤ, pos, negsuc, ◌≤ℤ◌}
use mvclight.Wire.{Bytes, write_le, read_le}
use mvclight.Wire.Endian.{read_le-write_le, length-write_le}
use mvclight.Uint256.Order.{eq_self}
use mvclight.Header.{LightBlockHeader, IsHeader, header_size, serialize}
use mvclight.Header.RoundTrip.{deserialize-serialize}
use mvclight.WatchStore.{to_u64, to_i64}
use mvclight.WatchStore.Record.{to_i64-to_u64, to_u64-lt, take_all}
use mvclight.Demo.SyncFile.{file_magic, save_sync_state, with_height, load_bytes, load_sync_state}

-- `LoadSyncState` reads back the tip and the height that `SaveSyncState` wrote, for a header whose
-- fields have their widths and a height of 64 bits.
pub load_sync_state-save_sync_state :
    (tip : LightBlockHeader) (height : ℤ)
    → IsHeader tip
    → negsuc (2 ^ 63 - 1) ≤ℤ height
    → height ≤ℤ pos (2 ^ 63 - 1)
    → load_sync_state (some (save_sync_state tip height)) ≡ some (tip, height)
unfolding load_sync_state load_bytes save_sync_state with_height
load_sync_state-save_sync_state tip height w a b =
    rw (eq_self file_magic, long, height_read, tip_read, (deserialize-serialize tip w).0) refl
  where
    bytes : Bytes
    bytes = write_le 8 (to_u64 height) ++ serialize tip

    size : length bytes ≡ 88
    size = omega (
      arith,
      length-append (write_le 8 (to_u64 height)) (serialize tip),
      length-write_le 8 (to_u64 height),
      (deserialize-serialize tip w).1,
    )

    long : ltb (length (file_magic ++ bytes)) (16 + header_size) ≡ false
    long = ground (arith, size)

    height_read : to_i64 (read_le (take 8 bytes)) ≡ height
    height_read =
        ap (λ (t : Bytes). to_i64 (read_le t))
          (take-append_exact 8 (write_le 8 (to_u64 height)) (serialize tip)
            (length-write_le 8 (to_u64 height)))
        ∙ ap to_i64 (read_le-write_le 8 (to_u64 height) (to_u64-lt height))
        ∙ to_i64-to_u64 height a b

    tip_read : take 80 (drop 8 bytes) ≡ serialize tip
    tip_read =
        ap (take 80) (
          drop-append_exact 8 (write_le 8 (to_u64 height)) (serialize tip)
            (length-write_le 8 (to_u64 height)))
        ∙ ap (λ (n : ℕ). take n (serialize tip)) (sym (deserialize-serialize tip w).1)
        ∙ take_all (serialize tip)
