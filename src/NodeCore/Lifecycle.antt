-- ===== src/NodeCore/Lifecycle.antt =====
-- What is alive after a start and a stop.
use mvclight.Base.{
  arith, ℕ, suc, ◌≡◌, ◌⊎◌, inl, inr, refl, ap, ◌∙◌, Bool, true, false, not, List, ◌∷◌, none, some,
  if◌then◌else◌,
}
use mvclight.NodeCore.{
  Upstream, World, NodeCore, State, erase, open_chainstate, make_threads, make_connman,
  make_peer_logic, run_time, start_network, start, without, stop,
}

-- A core that holds no object: a new one, or one behind a stop.
pub record IsIdle (c : NodeCore) : Type 0 where
  pub no_peer_logic : c.m_peer_logic ≡ none
  pub no_scheduler : c.m_scheduler ≡ none
  pub no_threads : c.m_thread_group ≡ none

-- The objects that are alive and the listeners are those of `w`, and the chain is closed.
pub record IsLeft (w v : World) : Type 0 where
  pub thread_groups : v.thread_groups ≡ w.thread_groups
  pub schedulers : v.schedulers ≡ w.schedulers
  pub peer_logics : v.peer_logics ≡ w.peer_logics
  pub interfaces : v.interfaces ≡ w.interfaces
  pub chain_closed : (v.pblocktree ≡ false) × (v.pcoins_tip ≡ false)

erase_first : (n : ℕ) (ms : List ℕ) → erase n (n ∷ ms) ≡ ms
unfolding erase
erase_first n ms = ground arith

without_first : (n : ℕ) (ms : List ℕ) → without (some n) (n ∷ ms) ≡ ms
unfolding without
without_first n ms = erase_first n ms

-- The two states in which a start leaves the objects.
stop-IsLeft_early : (w : World) (c : NodeCore) → IsIdle c → IsLeft w (stop (open_chainstate w, c)).0
unfolding stop open_chainstate
stop-IsLeft_early w c i = record {
  thread_groups = rw i.no_threads (unfold without in refl);
  schedulers = rw i.no_scheduler (unfold without in refl);
  peer_logics = rw i.no_peer_logic (unfold without in refl);
  interfaces = rw i.no_peer_logic (unfold without in refl);
  chain_closed = (refl, refl);
}

abbrev connected : World → NodeCore → State
connected w c = make_peer_logic (make_connman (make_threads (open_chainstate w, c)))

stop-IsLeft_late : (w : World) (c : NodeCore) → IsLeft w (stop (connected w c)).0
unfolding stop open_chainstate make_peer_logic make_connman make_threads
stop-IsLeft_late w c = record {
  thread_groups = without_first w.next w.thread_groups;
  schedulers = without_first (suc w.next) w.schedulers;
  peer_logics = without_first (suc (suc (suc w.next))) w.peer_logics;
  interfaces = without_first (suc (suc (suc w.next))) w.interfaces;
  chain_closed = (refl, refl);
}

stop-IsLeft_running : (w : World) (c : NodeCore) → IsLeft w (stop (run_time (connected w c))).0
unfolding stop open_chainstate make_peer_logic make_connman make_threads run_time
stop-IsLeft_running w c = record {
  thread_groups = without_first w.next w.thread_groups;
  schedulers = without_first (suc w.next) w.schedulers;
  peer_logics = without_first (suc (suc (suc w.next))) w.peer_logics;
  interfaces = without_first (suc (suc (suc w.next))) w.interfaces;
  chain_closed = (refl, refl);
}

-- The three ways in which a start ends.
Ends : World → NodeCore → State × Bool → Type 0
Ends w c r =
    (r ≡ ((open_chainstate w, c), false))
    ⊎ ((r ≡ (connected w c, false)) ⊎ (r ≡ (run_time (connected w c), true)))

start-Ends : (u : Upstream) (w : World) (c : NodeCore) → Ends w c (start u (w, c))
unfolding start start_network Ends
start-Ends u w c =
    by_answers u.load_block_index u.init_block_index u.replay_blocks
      (u.activate_best_chain w.cancelled) u.setup_networking u.connman_start
  where
    by_answers :
        (l b r a n m : Bool)
        → let s : State = (open_chainstate w, c) in
          Ends w c (
            if not l
            then (s, false)
            else (if not b
                then (s, false)
                else (if not r
                    then (s, false)
                    else (if not a
                        then (s, false)
                        else (if not n
                            then (s, false)
                            else (if not m
                                then (connected w c, false)
                                else (run_time (connected w c), true)))))))
    by_answers false b r a n m = inl refl
    by_answers true false r a n m = inl refl
    by_answers true true false a n m = inl refl
    by_answers true true true false n m = inl refl
    by_answers true true true true false m = inl refl
    by_answers true true true true true false = inr (inl refl)
    by_answers true true true true true true = inr (inr refl)

-- Whatever the upstream calls answer, a `Start` of a core that holds no object followed by a `Stop`
-- frees every thread group, scheduler and peer logic that it made, removes its listener, and closes
-- the chain.
pub stop-start-IsLeft :
    (u : Upstream) (w : World) (c : NodeCore) → IsIdle c → IsLeft w (stop (start u (w, c)).0).0
stop-start-IsLeft u w c i = by_end (start u (w, c)) (start-Ends u w c)
  where
    by_end : (r : State × Bool) → Ends w c r → IsLeft w (stop r.0).0
    by_end r e =
        unfold Ends in
        elim e [
          | inl f ↦ rw f (stop-IsLeft_early w c i)
          | inr (inl f) ↦ rw f (stop-IsLeft_late w c)
          | inr (inr f) ↦ rw f (stop-IsLeft_running w c)
        ]

success-running :
    (w : World) (c : NodeCore) (r : State × Bool)
    → Ends w c r
    → r.1 ≡ true
    → r.0 ≡ run_time (connected w c)
unfolding Ends
success-running w c r (inl f) h = absurd (cc)
success-running w c r (inr (inl f)) h = absurd (cc)
success-running w c r (inr (inr f)) h = ap (λ (t : State × Bool). t.0) f

-- The objects of a second start, which nothing frees.
pub record Leaks (w v : World) : Type 0 where
  pub thread_group : v.thread_groups ≡ w.next ∷ w.thread_groups
  pub scheduler : v.schedulers ≡ suc w.next ∷ w.schedulers
  pub peer_logic : v.peer_logics ≡ suc (suc (suc w.next)) ∷ w.peer_logics
  pub interface : v.interfaces ≡ suc (suc (suc w.next)) ∷ w.interfaces
  pub connman_replaced : v.g_connman ≡ some (suc (suc (suc (suc (suc (suc w.next))))))

running_twice-Leaks :
    (w : World) (c : NodeCore)
    → let s = run_time (connected w c) in Leaks w (stop (run_time (connected s.0 s.1))).0
unfolding stop open_chainstate make_peer_logic make_connman make_threads run_time
running_twice-Leaks w c = record {
  thread_group = without_first _ _;
  scheduler = without_first _ _;
  peer_logic = without_first _ _;
  interface = without_first _ _;
  connman_replaced = refl;
}

-- When a running core is started again and both starts succeed, a `Stop` frees the objects of the
-- second start only. The thread group, the scheduler and the peer logic of the first stay alive, and
-- its listener stays registered, although the connection manager that it points to is replaced.
pub start_again-Leaks :
    (u : Upstream) (w : World) (c : NodeCore)
    → (start u (w, c)).1 ≡ true
    → (start u (start u (w, c)).0).1 ≡ true
    → Leaks w (stop (start u (start u (w, c)).0).0).0
start_again-Leaks u w c h k = rw second (running_twice-Leaks w c)
  where
    first : (start u (w, c)).0 ≡ run_time (connected w c)
    first = success-running w c (start u (w, c)) (start-Ends u w c) h

    second :
        (start u (start u (w, c)).0).0
        ≡ run_time (connected (run_time (connected w c)).0 (run_time (connected w c)).1)
    second =
        ap (λ (s : State). (start u s).0) first
        ∙ success-running (run_time (connected w c)).0 (run_time (connected w c)).1
            (start u (run_time (connected w c)))
            (start-Ends u (run_time (connected w c)).0 (run_time (connected w c)).1) (rw first at k)
