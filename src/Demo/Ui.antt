-- ===== src/Demo/Ui.antt =====
-- demo/demo_win32.cpp: the buttons of the window, as far as they change the state of the program.
-- A text is what the field of the window holds. `none` of `connect` is the end of the program
-- by `std::terminate`, and of `reset` undefined behaviour of the store.
pub mod Threads
use mvclight.Base.{
  ℕ, zero, suc, Bool, true, false, ◌||◌, List, [], ◌∷◌, Option, none, some, ltb, if◌then◌else◌,
}
use mvclight.Base.Int.{ℤ, pos, negsuc, ltb_ℤ, leb_ℤ}
use mvclight.Wire.{Bytes}
use mvclight.Text.{rsplit, atoi}
use mvclight.Chain.{ChainStore}
use mvclight.WatchStore.{LevelDb, WatchStore}
use mvclight.WatchStore.Operations.{close, open_store}
use mvclight.Demo.Watched.{Watched, refresh_tx_list}
use mvclight.Demo.WatchFile.{save_watch_list}

host_port : Option (Bytes × Bytes) → Option (Bytes × ℤ)
host_port none = none
host_port (some (host, [])) = none
host_port (some (host, c ∷ cs)) =
    let port = atoi (c ∷ cs) in if ltb_ℤ (pos 0) port then some (host, port) else none

-- `SplitHostPort`, with no upper limit of the port.
unfoldable pub split_host_port : Bytes → Option (Bytes × ℤ)
unfolding host_port
split_host_port peer = host_port (rsplit b':' peer)

append : Bytes → List Bytes → List Bytes
append a [] = a ∷ []
append a (b ∷ bs) = b ∷ append a bs

added : Bytes → List Bytes → List Bytes
unfolding append
added [] addrs = addrs
added (c ∷ cs) addrs = append (c ∷ cs) addrs

erase_at : ℕ → List Bytes → List Bytes
erase_at n [] = []
erase_at zero (a ∷ addrs) = addrs
erase_at (suc n) (a ∷ addrs) = a ∷ erase_at n addrs

selected : Option ℕ → List Bytes → List Bytes
unfolding erase_at
selected none addrs = addrs
selected (some sel) addrs = erase_at sel addrs

-- The globals that the buttons change. `worker` is the thread of the last connect and its target,
-- until it is joined.
pub record Ui (S : Type 0) : Type 0 where
  pub watched : Watched S
  pub g_stop : Bool
  pub worker_running : Bool
  pub worker : Option (Bytes × ℤ)
  pub filter_dirty : Bool
  pub backfill_running : Bool
  pub checkpoint_ok : Bool
  pub synced_height : ℤ
  pub chain : ChainStore
  pub sync_file : Option Bytes
  pub watch_file : Option Bytes

module _ {S : Type 0} where
  -- A thread object that is joinable must not be assigned to.
  launch : Ui S → Option (Bytes × ℤ) → Bytes × ℤ → Option (Ui S)
  launch u none target = some (record u { worker = some target })
  launch u (some old) target = none

  connect_to : Ui S → Option (Bytes × ℤ) → Option (Ui S)
  unfolding launch
  connect_to u none = some u
  connect_to u (some target) =
      launch (record u { g_stop = false; checkpoint_ok = false }) u.worker target

  unfoldable pub connect : Ui S → Bytes → Option (Ui S)
  unfolding connect_to
  connect u text = if u.worker_running then some u else connect_to u (split_host_port text)

  unfoldable pub disconnect : Ui S → Ui S
  disconnect u = record u { g_stop = true }

  -- The first and the last lines of `WorkerMain`.
  unfoldable pub worker_begins : Ui S → Ui S
  worker_begins u = record u { worker_running = true }

  unfoldable pub worker_ends : Ui S → Ui S
  worker_ends u = record u { worker_running = false; g_stop = false }

  unfoldable pub with_addresses : Ui S → List Bytes → Ui S
  with_addresses u addrs = record u {
    watched = record u.watched { watch_addresses = addrs };
    watch_file = some (save_watch_list addrs);
  }

  unfoldable pub watch_add : Ui S → Bytes → Ui S
  unfolding added
  watch_add u text = record (with_addresses u (added text u.watched.watch_addresses)) {
    filter_dirty = true;
  }

module _ {S : Type 0} (db : LevelDb S) where
  -- `sel` is the selected line of the list, if there is one.
  unfoldable pub watch_del : Ui S → Option ℕ → Ui S
  unfolding selected
  watch_del u sel =
      let v = with_addresses u (selected sel u.watched.watch_addresses) in
      record v { watched = refresh_tx_list db v.watched }

  reopened : Ui S → Option (WatchStore S × Bool) → Option (Ui S)
  reopened u none = none
  reopened u (some (store, ok)) = some (record u {
    watched = record u.watched { store = store; txs = [] };
    sync_file = none;
    synced_height = negsuc 0;
    checkpoint_ok = false;
  })

  -- Reset: `db` is LevelDB over the directory that has been removed.
  unfoldable pub reset : Ui S → Bytes → Option (Ui S)
  unfolding reopened
  reset u path = reopened u (open_store db (close db u.watched.store) path)

-- The number of blocks of a backfill, and what is launched for it.
unfoldable pub backfill_count : Bytes → ℤ
backfill_count text =
    let n = atoi text in if leb_ℤ n (pos 0) || ltb_ℤ (pos 10000) n then pos 100 else n

with_count : ℤ → Option (Bytes × ℤ) → Option (Bytes × (ℤ × ℤ))
with_count n none = none
with_count n (some (host, port)) = some (host, (port, n))

unfoldable pub request_backfill : {S : Type 0} → Ui S → Bytes → Bytes → Option (Bytes × (ℤ × ℤ))
unfolding with_count
request_backfill u count peer =
    if u.backfill_running || ltb_ℤ u.chain.m_tip_height (pos 0)
    then none
    else with_count (backfill_count count) (split_host_port peer)
