-- ===== src/NodeCore.antt =====
-- light_nodecore.cpp: the upstream node inside this program. The upstream code is not ours: what its
-- calls answer is the record `Upstream`. An object of it that this file makes is a number, and the
-- globals and the live objects are the record `World`; a message on the console leaves no trace.
pub mod Memory
pub mod Lifecycle
use mvclight.Base.{
  ℕ, zero, suc, ◌+◌, ◌-◌, ◌*◌, ◌/◌, ◌^◌, ◌==◌, Bool, true, false, not, List, [], ◌∷◌, Option, none,
  some, ltb, codes, if◌then◌else◌,
}
use mvclight.Base.Int.{ℤ, pos, pos_part, ltb_ℤ}
use mvclight.Wire.{Bytes}

pub record Upstream : Type 0 where
  pub load_block_index : Bool
  pub init_block_index : Bool
  pub replay_blocks : Bool
  -- The answer of `ActivateBestChain` to a token that is cancelled or not.
  pub activate_best_chain : Bool → Bool
  pub setup_networking : Bool
  pub connman_start : Bool
  pub open_connection : Bool

pub record World : Type 0 where
  pub cancelled : Bool
  pub g_connman : Option ℕ
  pub pblocktree : Bool
  pub pcoins_tip : Bool
  pub mining_factory : Bool
  pub webhook_client : Bool
  pub node_signals : Bool
  pub script_queues : Bool
  -- The objects that are allocated, and the registered listeners of the validation.
  pub thread_groups : List ℕ
  pub schedulers : List ℕ
  pub peer_logics : List ℕ
  pub interfaces : List ℕ
  -- The number of the next object.
  pub next : ℕ

pub record NodeCore : Type 0 where
  pub m_running : Bool
  pub m_seed : Bytes
  pub m_connman : Option ℕ
  pub m_peer_logic : Option ℕ
  pub m_scheduler : Option ℕ
  pub m_thread_group : Option ℕ

abbrev pub new : NodeCore
new = record {
  m_running = false;
  m_seed = [];
  m_connman = none;
  m_peer_logic = none;
  m_scheduler = none;
  m_thread_group = none;
}

unfoldable pub set_seed : NodeCore → Bytes → NodeCore
set_seed c hostport = record c { m_seed = hostport }

-- The sizes of the three caches, from the argument in bytes and the limits in MiB.
pub record Caches : Type 0 where
  pub block_tree : ℕ
  pub coin_db : ℕ
  pub coin_usage : ℕ

unfoldable pub limited : ℤ → ℕ → ℕ → ℕ
limited asked low high =
    let raised = if ltb_ℤ asked (pos low) then low else pos_part asked in
    if ltb high raised then high else raised

unfoldable pub split_caches : ℕ → Caches
split_caches total =
    let block_tree = total / 8 in
    let rest = total - block_tree in
    let half = rest / 2 in
    let quarter = rest / 4 + 2 ^ 23 in
    let coin_db = if ltb quarter half then quarter else half in
    record { block_tree = block_tree; coin_db = coin_db; coin_usage = rest - coin_db }

unfoldable pub cache_sizes : ℤ → ℕ → ℕ → Caches
cache_sizes asked min_db_cache max_db_cache =
    split_caches (limited asked (min_db_cache * 2 ^ 20) (max_db_cache * 2 ^ 20))

abbrev pub State : Type 0
State = World × NodeCore

erase : ℕ → List ℕ → List ℕ
erase n [] = []
erase n (m ∷ ms) = if m == n then ms else m ∷ erase n ms

-- The block index and the coins are made anew.
unfoldable pub open_chainstate : World → World
open_chainstate w = record w { pblocktree = true; pcoins_tip = true }

-- The threads, the connection manager and the logic of the peers.
unfoldable pub make_threads : State → State
make_threads (w, c) = (
  record w {
    thread_groups = w.next ∷ w.thread_groups;
    schedulers = suc w.next ∷ w.schedulers;
    script_queues = true;
    next = suc (suc w.next);
  },
  record c { m_thread_group = some w.next; m_scheduler = some (suc w.next) },
)

unfoldable pub make_connman : State → State
make_connman (w, c) =
    (record w { g_connman = some w.next; next = suc w.next }, record c { m_connman = some w.next })

unfoldable pub make_peer_logic : State → State
make_peer_logic (w, c) = (
  record w {
    peer_logics = w.next ∷ w.peer_logics;
    interfaces = w.next ∷ w.interfaces;
    node_signals = true;
    next = suc w.next;
  },
  record c { m_peer_logic = some w.next },
)

unfoldable pub run_time : State → State
run_time (w, c) =
    (record w { mining_factory = true; webhook_client = true }, record c { m_running = true })

-- From the networking on.
unfoldable pub start_network : Upstream → State → State × Bool
start_network u s =
    let t = make_peer_logic (make_connman (make_threads s)) in
    if not u.setup_networking
    then (s, false)
    else (if not u.connman_start then (t, false) else (run_time t, true))

unfoldable pub start : Upstream → State → State × Bool
start u (w, c) =
    let s : State = (open_chainstate w, c) in
    if not u.load_block_index
    then (s, false)
    else (if not u.init_block_index
        then (s, false)
        else (if not u.replay_blocks
            then (s, false)
            else (if not (u.activate_best_chain w.cancelled)
                then (s, false)
                else start_network u s)))

-- `Init`, after the upstream calls that only set parameters.
unfoldable pub init : State → State × Bool
init (w, c) = ((w, record c { m_running = false }), true)

-- `delete` of a pointer, or the removal of a listener; a null pointer is left alone.
unfoldable pub without : Option ℕ → List ℕ → List ℕ
unfolding erase
without none ms = ms
without (some n) ms = erase n ms

-- The connection manager is only interrupted: `g_connman` stays.
unfoldable pub stop : State → State
unfolding without
stop (w, c) = (
  record w {
    cancelled = true;
    interfaces = without c.m_peer_logic w.interfaces;
    peer_logics = without c.m_peer_logic w.peer_logics;
    webhook_client = false;
    mining_factory = false;
    script_queues = false;
    node_signals = false;
    schedulers = without c.m_scheduler w.schedulers;
    thread_groups = without c.m_thread_group w.thread_groups;
    pcoins_tip = false;
    pblocktree = false;
  },
  record c {
    m_running = false;
    m_connman = none;
    m_peer_logic = none;
    m_scheduler = none;
    m_thread_group = none;
  },
)

-- The number of outbound connections, which upstream counts for a connection manager.
unfoldable pub get_node_count : (ℕ → ℕ) → World → ℕ
get_node_count outbound w = elim w.g_connman [ none ↦ 0 | some n ↦ outbound n ]
