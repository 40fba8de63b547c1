-- ===== src/Demo/SyncFile.antt =====
-- demo/demo_win32.cpp: the file that keeps the tip between two runs.
pub mod RoundTrip
use mvclight.Base.{
  ℕ, ◌+◌, ltb, ◌∷◌, ◌++◌, Option, none, some, codes, if◌then◌else◌, length, take, drop,
}
use mvclight.Base.Int.{ℤ}
use mvclight.Wire.{Bytes, write_le, read_le}
use mvclight.Uint256.{eq as bytes_eq}
use mvclight.Header.{LightBlockHeader, header_size, serialize, deserialize}
use mvclight.WatchStore.{to_u64, to_i64}

abbrev pub file_magic : Bytes
file_magic = codes "MVCLDEMO"

-- The bytes of the file that `SaveSyncState` writes; the height in the byte order of the machine.
unfoldable pub save_sync_state : LightBlockHeader → ℤ → Bytes
save_sync_state tip height = file_magic ++ (write_le 8 (to_u64 height) ++ serialize tip)

with_height : ℤ → Option LightBlockHeader → Option (LightBlockHeader × ℤ)
with_height height none = none
with_height height (some tip) = some (tip, height)

load_bytes : Bytes → Option (LightBlockHeader × ℤ)
unfolding with_height
load_bytes file =
    if bytes_eq (take 8 file) file_magic
    then (if ltb (length file) (16 + header_size)
        then none
        else with_height (to_i64 (read_le (take 8 (drop 8 file))))
            (deserialize (take header_size (drop 16 file))))
    else none

-- `none` is a file that cannot be opened, and the result false.
unfoldable pub load_sync_state : Option Bytes → Option (LightBlockHeader × ℤ)
unfolding load_bytes
load_sync_state none = none
load_sync_state (some file) = load_bytes file
