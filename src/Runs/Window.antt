-- ===== src/Runs/Window.antt =====
-- Runs of the front end and of the node core at concrete inputs.
use mvclight.Base.{◌≡◌, refl, arith, true, false, [], ◌∷◌, none, some, codes}
use mvclight.Base.Int.{pos, negsuc}
use mvclight.Uint256.{null}
use mvclight.Chain
use mvclight.Demo.Headers.Keeps.{OnSome}
use mvclight.Demo.SyncFile.{save_sync_state, load_sync_state}
use mvclight.Demo.SyncFile.RoundTrip.{load_sync_state-save_sync_state}
use mvclight.Demo.Run.{Run, run_sync_core}
use mvclight.Demo.Run.Fresh.{Anchored, run_sync_core-Anchored}
use mvclight.Demo.Run.Resumed.{Succeeds, run_sync_core-resumed}
use mvclight.Demo.Ui.{split_host_port, Ui, connect, disconnect, worker_ends}
use mvclight.Demo.Ui.Threads.{here, next, disconnects, ends, connect-again}
use mvclight.NodeCore.{
  Upstream, World, State, start, start_network, open_chainstate, make_threads, make_connman,
  make_peer_logic, run_time, stop,
}
use mvclight.NodeCore
use mvclight.NodeCore.Lifecycle.{IsLeft, stop-start-IsLeft, Leaks, start_again-Leaks}
use mvclight.Text.{rsplit, atoi, split_more, digits_value}
use mvclight.Runs.{genesis, genesis-IsHeader}
use mvclight.Runs.Front.{sized, loader, watched}
use mvclight.Runs.Store.{Table, in_memory}

load_sync_state-save_sync_state_example :
    load_sync_state (some (save_sync_state genesis (pos 21300))) ≡ some (genesis, pos 21300)
load_sync_state-save_sync_state_example =
    load_sync_state-save_sync_state genesis (pos 21300) genesis-IsHeader (omega arith) (omega arith)

abbrev first_run : Run Table
first_run = record {
  loader = loader;
  watched = watched;
  progress = record {
    chain = Chain.empty;
    locator = null;
    reached = false;
    finished = false;
    err = none;
  };
  checkpoint_ok = false;
  file = none;
}

no_file : load_sync_state none ≡ none
unfolding load_sync_state
no_file = refl

run_sync_core-Anchored_example : OnSome (Anchored in_memory (λ n. sized)) (
    run_sync_core in_memory
      (λ n. sized)
      first_run
      (some (codes "seed", 9883))
      1700000000
      true
      (pos 1700000000)
      (pos 9000)
      ((pos 70000, pos 5) ∷ []))
run_sync_core-Anchored_example =
    run_sync_core-Anchored in_memory (λ n. sized) first_run (some (codes "seed", 9883)) 1700000000
      true (pos 1700000000) (pos 9000) ((pos 70000, pos 5) ∷ []) no_file refl

abbrev later_run : Run Table
later_run = record first_run { file = some (save_sync_state genesis (pos 21300)) }

run_sync_core-resumed_example : OnSome (Succeeds in_memory (λ n. sized)) (
    run_sync_core in_memory
      (λ n. sized)
      later_run
      none
      1700000000
      false
      (pos 1700000000)
      (pos 9000)
      [])
run_sync_core-resumed_example =
    run_sync_core-resumed in_memory (λ n. sized) later_run none genesis (pos 21300) 1700000000 false
      (pos 1700000000) (pos 9000) [] tt
      (load_sync_state-save_sync_state genesis (pos 21300) genesis-IsHeader (omega arith)
        (omega arith))
      (omega arith)

abbrev window : Ui Table
window = record {
  watched = watched;
  g_stop = false;
  worker_running = true;
  worker = some (codes "8.217.120.15", pos 9883);
  filter_dirty = false;
  backfill_running = false;
  checkpoint_ok = false;
  synced_height = negsuc 0;
  chain = Chain.empty;
  sync_file = none;
  watch_file = none;
}

idle : (worker_ends (disconnect window)).worker_running ≡ false
unfolding worker_ends
idle = refl

valid : split_host_port (codes "h:83") ≡ some (codes "h", pos 83)
unfolding split_host_port rsplit split_more atoi digits_value
valid = refl

connect-again_example : connect (worker_ends (disconnect window)) (codes "h:83") ≡ none
connect-again_example =
    connect-again in_memory window (worker_ends (disconnect window))
      (codes "8.217.120.15", pos 9883) (codes "h", pos 83) (codes "h:83") refl
      (next (next here (disconnects window)) (ends (disconnect window))) idle valid

abbrev willing : Upstream
willing = record {
  load_block_index = true;
  init_block_index = true;
  replay_blocks = true;
  activate_best_chain = λ cancelled. true;
  setup_networking = true;
  connman_start = true;
  open_connection = true;
}

abbrev world : World
world = record {
  cancelled = false;
  g_connman = none;
  pblocktree = false;
  pcoins_tip = false;
  mining_factory = false;
  webhook_client = false;
  node_signals = false;
  script_queues = false;
  thread_groups = [];
  schedulers = [];
  peer_logics = [];
  interfaces = [];
  next = 0;
}

stop-start-IsLeft_example : IsLeft world (stop (start willing (world, NodeCore.new)).0).0
stop-start-IsLeft_example =
    stop-start-IsLeft willing world NodeCore.new
      (record { no_peer_logic = refl; no_scheduler = refl; no_threads = refl })

abbrev begun : State
begun = (world, NodeCore.new)

both_start : ((start willing begun).1 ≡ true) × ((start willing (start willing begun).0).1 ≡ true)
unfolding start start_network
both_start = (refl, refl)

start_again-Leaks_example : Leaks world (stop (start willing (start willing begun).0).0).0
start_again-Leaks_example = start_again-Leaks willing world NodeCore.new both_start.0 both_start.1
