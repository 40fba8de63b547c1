-- ===== src/SendMonitor/Timeouts.antt =====
-- What `CheckTimeouts` drops and reports.
use mvclight.Base.{Bool, true, false, ◌||◌, List, [], ◌∷◌, Option, none, some}
use mvclight.Base.Int.{ℤ, ◌+ℤ◌}
use mvclight.Base.Assoc.{uint256_key, find, erase}
use mvclight.Base.Assoc.Unique.{Unique, assign-Unique, erase-Unique}
use mvclight.Uint256.{Uint256, eq}
use mvclight.WatchStore.{LevelDb, WatchStore}
use mvclight.SendMonitor.{
  confirm_timeout_ms, Entry, SendMonitor, record_sent, reject, record_rejected, due, expired,
  erase_all, check_timeouts,
}

abbrev pub among : Uint256 → List Uint256 → Bool
among t [] = false
among t (u ∷ us) = eq u t || among t us

-- Whether a lookup gives an entry whose time is over.
abbrev pub is_due : ℤ → Option Entry → Bool
is_due now_ms none = false
is_due now_ms (some e) = due now_ms e

reject-Unique :
    (m : SendMonitor) (t : Uint256) (o : Option Entry) → Unique m → Unique (reject m t o)
unfolding reject
reject-Unique m t none u = u
reject-Unique m t (some e) u = assign-Unique t (record e { rejected = true }) m u

erase_all-Unique :
    {S : Type 0} (db : LevelDb S) (us : List Uint256) (m : SendMonitor)
    → Unique m
    → Unique (erase_all db us m)
unfolding erase_all
erase_all-Unique db [] m u = u
erase_all-Unique db (t ∷ us) m u = erase_all-Unique db us (erase t m) (erase-Unique t m u)

-- Every operation keeps at most one entry for each identifier.
pub operations-Unique :
    {S : Type 0} (db : LevelDb S) (m : SendMonitor) (t : Uint256) (now_ms : ℤ)
    (store : WatchStore S)
    → Unique m
    → Unique (record_sent m t now_ms)
      × Unique (record_rejected m t)
      × Unique (check_timeouts db m now_ms store).0
unfolding record_sent record_rejected check_timeouts
operations-Unique db m t now_ms store u = (
  assign-Unique t (record { deadline_ms = now_ms +ℤ confirm_timeout_ms; rejected = false }) m u,
  reject-Unique m t (find t m) u,
  erase_all-Unique db (expired now_ms m) m u,
)
