-- ===== src/SendMonitor.antt =====
-- light_sendmonitor.cpp: the transactions that were sent and are not yet seen in the chain. The calls
-- of the callback are the list of the identifiers that it gets, in order; code and reason are fixed.
pub mod Timeouts
use mvclight.Base.{◌*◌, Bool, true, false, not, List, [], ◌∷◌, Option, none, some, if◌then◌else◌}
use mvclight.Base.Int.{ℤ, pos, ◌+ℤ◌, leb_ℤ}
use mvclight.Base.Assoc.{uint256_key, find, assign, erase}
use mvclight.Uint256.{Uint256}
use mvclight.WatchStore.{LevelDb, WatchStore}
use mvclight.WatchStore.Operations.{has_tx}

abbrev pub confirm_timeout_ms : ℤ
confirm_timeout_ms = pos (120 * 60 * 1000)

pub record Entry : Type 0 where
  pub deadline_ms : ℤ
  pub rejected : Bool

abbrev pub SendMonitor : Type 0
SendMonitor = List (Uint256 × Entry)

unfoldable pub record_sent : SendMonitor → Uint256 → ℤ → SendMonitor
record_sent m txid now_ms =
    assign txid (record { deadline_ms = now_ms +ℤ confirm_timeout_ms; rejected = false }) m

reject : SendMonitor → Uint256 → Option Entry → SendMonitor
reject m txid none = m
reject m txid (some e) = assign txid (record e { rejected = true }) m

unfoldable pub record_rejected : SendMonitor → Uint256 → SendMonitor
unfolding reject
record_rejected m txid = reject m txid (find txid m)

unfoldable pub due : ℤ → Entry → Bool
due now_ms e = if e.rejected then false else leb_ℤ e.deadline_ms now_ms

-- The first loop of `CheckTimeouts`.
unfoldable pub expired : ℤ → SendMonitor → List Uint256
expired now_ms [] = []
expired now_ms ((txid, e) ∷ m) = if due now_ms e then txid ∷ expired now_ms m else expired now_ms m

module _ {S : Type 0} (db : LevelDb S) where
  -- The second loop: the entries that are left.
  unfoldable pub erase_all : List Uint256 → SendMonitor → SendMonitor
  erase_all [] m = m
  erase_all (txid ∷ txids) m = erase_all txids (erase txid m)

  -- The second loop: the calls.
  unfoldable pub called : WatchStore S → List Uint256 → List Uint256
  called store [] = []
  called store (txid ∷ txids) =
      if not (has_tx db store txid) then txid ∷ called store txids else called store txids

  unfoldable pub check_timeouts : SendMonitor → ℤ → WatchStore S → SendMonitor × List Uint256
  check_timeouts m now_ms store = (erase_all (expired now_ms m) m, called store (expired now_ms m))
