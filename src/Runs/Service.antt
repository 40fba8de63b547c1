-- ===== src/Runs/Service.antt =====
-- The connection manager, the texts and the C interface at concrete inputs.
use mvclight.Base.{◌≡◌, refl, arith, true, false, [], ◌∷◌, some, codes, length}
use mvclight.Text.{hex_val, hex_to_bytes, push_byte}
use mvclight.Sha256.{sha256d}
use mvclight.ConnMan.{Slot, ConnMan, Surroundings, connect_up_to}
use mvclight.ConnMan.Connecting.{Counted, connect_up_to-Counted}
use mvclight.TxPool
use mvclight.TxPool.{enqueue, push_back, is_relayed, is_pending, member}
use mvclight.Api.{LightContext}
use mvclight.Api.Running.{
  StartedBy, start, start-StartedBy, SwitchedBy, switch_peer, switch_peer-SwitchedBy,
}
use mvclight.Api.Sending.{Reported, send_raw_tx, send_raw_tx-Reported}
use mvclight.Runs.Peers.{client}
use mvclight.Runs.Store.{Table, open_store}

abbrev waiting : Slot
waiting = record { host = codes "seed"; port = 9883; peer = some client; connected = false }

abbrev two_slots : ConnMan
two_slots = waiting ∷ waiting ∷ []

abbrev around : Surroundings
around = record { nonce = 5; dials = []; time = 1700000000 }

connect_up_to-Counted_example :
    Counted (length two_slots) 1 (connect_up_to two_slots (λ i. around) 1)
connect_up_to-Counted_example = connect_up_to-Counted two_slots (λ i. around) 1 (tt, (tt, tt))

abbrev one_up : ConnMan
one_up = waiting ∷ record waiting { connected = true } ∷ []

abbrev context : LightContext Table
context = record {
  running = false;
  network = codes "main";
  peer = codes "47.242.24.63:9883";
  store_path = codes "data";
  callbacks = record { on_peer_state = true; on_send_result = true; on_log = false };
  peer_conn = client;
  store = open_store;
  txpool = TxPool.new;
  send_monitor = [];
  watch_addresses = [];
}

start-StartedBy_example :
    StartedBy (start context 1700000000).code 1700000000 context (start context 1700000000).ctx
start-StartedBy_example = start-StartedBy context 1700000000

abbrev running_context : LightContext Table
running_context = record context { running = true }

switch_peer-SwitchedBy_example :
    SwitchedBy
      (switch_peer running_context (some (codes "1.2.3.4:1")) 1700000000).code
      (codes "1.2.3.4:1")
      1700000000
      running_context
      (switch_peer running_context (some (codes "1.2.3.4:1")) 1700000000).ctx
switch_peer-SwitchedBy_example =
    switch_peer-SwitchedBy running_context (codes "1.2.3.4:1") 1700000000

decoded_hex : hex_to_bytes (codes "0aF1") ≡ some (10 ∷ 241 ∷ [])
unfolding hex_to_bytes hex_val push_byte
decoded_hex = refl

new_to_pool : (enqueue TxPool.new (sha256d (10 ∷ 241 ∷ []))).1 ≡ true
unfolding enqueue push_back is_relayed is_pending member
new_to_pool = refl

send_raw_tx-Reported_example :
    Reported running_context
      (10 ∷ 241 ∷ [])
      (sha256d (10 ∷ 241 ∷ []))
      (send_raw_tx running_context (some (codes "0aF1")))
send_raw_tx-Reported_example =
    send_raw_tx-Reported running_context (codes "0aF1") (10 ∷ 241 ∷ []) refl (omega arith)
      decoded_hex new_to_pool
