-- ===== src/Demo/Headers.antt =====
-- demo/demo_win32.cpp: the part of `RunSyncCore` that takes one HEADERS message. There is no test of
-- the difficulty by ASERT here. `none` of a whole function is undefined behaviour of `ValidateHeader`.
pub mod Keeps
use mvclight.Base.{
  ℕ, zero, suc, ◌*◌, ◌==◌, Bool, true, false, ◌||◌, ◌∷◌, ◌++◌, Option, none, some, ltb,
  if◌then◌else◌, length, take, drop, replicate,
}
use mvclight.Base.Int.{ℤ, pos, negsuc, ◌+ℤ◌, ◌-ℤ◌, leb_ℤ, eqb_ℤ}
use mvclight.Wire.{Bytes, byte_at, write_le, read_compact_size}
use mvclight.Uint256.{Uint256}
use mvclight.Header.{LightBlockHeader, header_size, deserialize, get_hash}
use mvclight.Chain.{ChainStore, add_header, get_tip, get_median_time_past, add_work}
use mvclight.Validation
use mvclight.Validation.{Reason, Verdict, validate_header}
use mvclight.Sync.{previous}

abbrev pub checkpoint_height : ℕ
checkpoint_height = 21256

-- `AppendCompactSize`, with no form for more than two bytes.
unfoldable pub append_compact_size : ℕ → Bytes
append_compact_size v = if ltb v 253 then write_le 1 v else 253 ∷ write_le 2 v

unfoldable pub make_get_headers : Uint256 → Bytes
make_get_headers locator =
    write_le 4 70016 ++ (append_compact_size 1 ++ (locator ++ replicate 32 0))

-- The texts of `err_out`.
pub data SyncError : Type 0 where
  connect_failed send_failed read_failed bad_headers_format bad_header_deserialize : SyncError
  bad_headers_txcount : SyncError
  bad_header : Reason → SyncError
  disconnected did_not_reach : SyncError

pub data Check : Type 0 where
  bad : SyncError → Check
  undefined : Check
  good : LightBlockHeader → Check

check_verdict : LightBlockHeader → Verdict → Check
check_verdict h Verdict.accepted = good h
check_verdict h (Verdict.rejected reason) = bad (bad_header reason)
check_verdict h Verdict.undefined = undefined

mtp_before : ChainStore → ℤ → Option LightBlockHeader → ℤ
mtp_before chain height none = negsuc 0
mtp_before chain height (some prev) = pos (get_median_time_past chain (height -ℤ pos 1))

unfoldable pub next_height : ChainStore → ℤ
next_height chain = chain.m_tip_height +ℤ pos 1

unfoldable pub check_rules : ChainStore → ℤ → LightBlockHeader → Check
unfolding check_verdict mtp_before
check_rules chain time h =
    let height = next_height chain in
    check_verdict h (
      validate_header h (previous chain height) height (leb_ℤ height (pos checkpoint_height)) time
        (mtp_before chain height (previous chain height)))

check_parsed : ChainStore → ℤ → Bytes → Option LightBlockHeader → Check
check_parsed chain time hp none = bad bad_header_deserialize
check_parsed chain time hp (some h) =
    if byte_at hp header_size == 0 then check_rules chain time h else bad bad_headers_txcount

-- One header of the message, under the cursor.
unfoldable pub check_header : ChainStore → ℤ → Bytes → Check
unfolding check_parsed
check_header chain time hp = check_parsed chain time hp (deserialize (take header_size hp))

-- The local variables that the message changes.
pub record Progress : Type 0 where
  pub chain : ChainStore
  pub locator : Uint256
  pub reached : Bool
  pub finished : Bool
  pub err : Option SyncError

unfoldable pub store_header : Progress → LightBlockHeader → Progress
store_header g h =
    let height = next_height g.chain in
    record g {
      chain = add_work (add_header g.chain h height) h.n_bits;
      reached = g.reached || eqb_ℤ height (pos checkpoint_height);
    }

-- One turn of the loop over the headers; a bad one ends the loop.
unfoldable pub accept_turn : Check → Progress → (Progress → Option Progress) → Option Progress
accept_turn (bad e) g next = some (record g { err = some e })
accept_turn undefined g next = none
accept_turn (good h) g next = next (store_header g h)

unfoldable pub accept_headers : ℕ → ℤ → Bytes → Progress → Option Progress
accept_headers zero time p g = some g
accept_headers (suc n) time p g =
    accept_turn (check_header g.chain time p) g (λ s. accept_headers n time (drop 81 p) s)

-- Behind the loop: the new locator, and the end of the chain. Without a tip the code leaves at once.
relocated : ℕ → Progress → Option LightBlockHeader → Progress
relocated count g none = g
relocated count g (some tip) = record g {
  locator = get_hash tip;
  finished = if ltb count 2000 then true else g.finished;
}

unfoldable pub relocate : ℕ → Option Progress → Option (Progress × Bool)
unfolding relocated
relocate count none = none
relocate count (some g) = some (relocated count g (get_tip g.chain), true)

counted : ℤ → Progress → Option (ℕ × Bytes) → Option (Progress × Bool)
counted time g none = some (record g { err = some bad_headers_format }, false)
counted time g (some (count, p)) =
    if ltb 2000 count || ltb (length p) (count * 81)
    then some (record g { err = some bad_headers_format }, false)
    else (if count == 0
        then some (record g { finished = true }, true)
        else relocate count (accept_headers count time p g))

-- A HEADERS message; the Boolean is `got`.
unfoldable pub headers_message : ℤ → Progress → Bytes → Option (Progress × Bool)
unfolding counted
headers_message time g payload = counted time g (read_compact_size payload)
