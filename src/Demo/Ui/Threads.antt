-- ===== src/Demo/Ui/Threads.antt =====
-- The thread of the worker over the life of the window.
use mvclight.Base.{◌≡◌, refl, Bool, true, false, Option, none, some, ℕ, if◌then◌else◌}
use mvclight.Base.Int.{ℤ}
use mvclight.Wire.{Bytes}
use mvclight.WatchStore.{LevelDb, WatchStore}
use mvclight.WatchStore.Operations.{close, open_store}
use mvclight.Demo.Ui.{
  split_host_port, Ui, launch, connect_to, connect, disconnect, worker_begins, worker_ends,
  with_addresses, watch_add, watch_del, reopened, reset,
}

module _ {S : Type 0} (db : LevelDb S) where
  -- What the buttons and the worker may do, in any order.
  pub data Step : Ui S → Ui S → Type 0 where
    connects : (u v : Ui S) (text : Bytes) → connect u text ≡ some v → Step u v
    disconnects : (u : Ui S) → Step u (disconnect u)
    begins : (u : Ui S) → Step u (worker_begins u)
    ends : (u : Ui S) → Step u (worker_ends u)
    adds : (u : Ui S) (text : Bytes) → Step u (watch_add u text)
    deletes : (u : Ui S) (sel : Option ℕ) → Step u (watch_del db u sel)
    resets : (u v : Ui S) (path : Bytes) → reset db u path ≡ some v → Step u v

  pub data Reach (u : Ui S) : Ui S → Type 0 where
    here : Reach u u
    next : {v w : Ui S} → Reach u v → Step v w → Reach u w

  launch-again :
      (u v : Ui S) (o : Option (Bytes × ℤ)) (old target : Bytes × ℤ)
      → o ≡ some old
      → launch u o target ≡ none
  unfolding launch
  launch-again u v none old target e = absurd (cc)
  launch-again u v (some t) old target e = refl

  connect_to-keeps :
      (u v : Ui S) (o : Option (Bytes × ℤ)) (old : Bytes × ℤ)
      → u.worker ≡ some old
      → connect_to u o ≡ some v
      → v.worker ≡ some old
  unfolding connect_to
  connect_to-keeps u v none old h e = cc
  connect_to-keeps u v (some target) old h e = absurd (
      cc
        (launch-again (record u { g_stop = false; checkpoint_ok = false }) v u.worker old target h))

  connect-keeps :
      (u v : Ui S) (text : Bytes) (old : Bytes × ℤ)
      → u.worker ≡ some old
      → connect u text ≡ some v
      → v.worker ≡ some old
  unfolding connect
  connect-keeps u v text old h e = by_test u.worker_running e
    where
      by_test :
          (b : Bool)
          → (if b then some u else connect_to u (split_host_port text)) ≡ some v
          → v.worker ≡ some old
      by_test true k = cc
      by_test false k = connect_to-keeps u v (split_host_port text) old h k

  reset-keeps :
      (u v : Ui S) (path : Bytes) (old : Bytes × ℤ)
      → u.worker ≡ some old
      → reset db u path ≡ some v
      → v.worker ≡ some old
  unfolding reset reopened
  reset-keeps u v path old h e = by_store (open_store db (close db u.watched.store) path) e
    where
      by_store : (o : Option (WatchStore S × Bool)) → reopened db u o ≡ some v → v.worker ≡ some old
      by_store none k = absurd (cc)
      by_store (some (store, ok)) k = cc

  Step-keeps : {u v : Ui S} (old : Bytes × ℤ) → Step u v → u.worker ≡ some old → v.worker ≡ some old
  unfolding disconnect worker_begins worker_ends watch_add watch_del with_addresses
  Step-keeps old (connects u v text e) h = connect-keeps u v text old h e
  Step-keeps old (disconnects u) h = h
  Step-keeps old (begins u) h = h
  Step-keeps old (ends u) h = h
  Step-keeps old (adds u text) h = h
  Step-keeps old (deletes u sel) h = h
  Step-keeps old (resets u v path e) h = reset-keeps u v path old h e

  Reach-keeps :
      {u v : Ui S} (old : Bytes × ℤ) → Reach u v → u.worker ≡ some old → v.worker ≡ some old
  Reach-keeps old here h = h
  Reach-keeps old (next r s) h = Step-keeps old s (Reach-keeps old r h)

  -- Once a worker has been launched, the program ends by `std::terminate` at the next valid connect
  -- while no worker runs: whatever the buttons and the worker do in between, nothing joins the old
  -- thread.
  pub connect-again :
      (u v : Ui S) (old target : Bytes × ℤ) (text : Bytes)
      → u.worker ≡ some old
      → Reach u v
      → v.worker_running ≡ false
      → split_host_port text ≡ some target
      → connect v text ≡ none
  unfolding connect connect_to
  connect-again u v old target text h r idle valid = by_test v.worker_running idle
    where
      refused : (o : Option (Bytes × ℤ)) → o ≡ some target → connect_to v o ≡ none
      refused none e = absurd (cc)
      refused (some t) e =
          launch-again (record v { g_stop = false; checkpoint_ok = false }) v v.worker old t
            (Reach-keeps old r h)

      by_test :
          (b : Bool)
          → b ≡ false
          → (if b then some v else connect_to v (split_host_port text)) ≡ none
      by_test true e = absurd (cc)
      by_test false e = refused (split_host_port text) valid
