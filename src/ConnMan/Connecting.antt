-- ===== src/ConnMan/Connecting.antt =====
-- How many slots `ConnectUpTo` connects, and which slot becomes the primary one.
use mvclight.Base.{
  ℕ, zero, suc, ◌+◌, ◌<◌, ◌≤◌, ◌≡◌, refl, ap, ◌∙◌, arith, Bool, true, false, [], ◌∷◌, Option, none,
  some, ltb, ltb→lt, if◌then◌else◌, length, get_elem?, set, length-set, Bool-cases, inl, inr,
}
use mvclight.Peer.{LightPeer, connect_and_handshake}
use mvclight.ConnMan.{
  Slot, ConnMan, Surroundings, peer_of, shaken_slot, connect_slot, connect_at, connect_peer,
  count_connected, connect_loop, connect_up_to,
}
use mvclight.ConnMan.Slots.{AreSlots, connect_peer-AreSlots}

-- The connected ones of the first slots.
abbrev pub live : ℕ → ConnMan → ℕ
live zero m = 0
live (suc i) [] = 0
live (suc i) (s ∷ m) = (if s.connected then 1 else 0) + live i m

live-suc : (i : ℕ) (m : ConnMan) → live i m ≤ live (suc i) m
live-suc zero m = omega arith
live-suc (suc i) [] = omega arith
live-suc (suc i) (s ∷ m) = omega (arith, live-suc i m)

live-set : (i : ℕ) (m : ConnMan) (s : Slot) → live i (set m i s) ≡ live i m
live-set zero m s = refl
live-set (suc i) [] s = refl
live-set (suc i) (t ∷ m) s = ap (λ (n : ℕ). (if t.connected then 1 else 0) + n) (live-set i m s)

live-set_last :
    (i : ℕ) (m : ConnMan) (s t : Slot)
    → get_elem? m i ≡ some t
    → live (suc i) (set m i s) ≡ live i m + (if s.connected then 1 else 0)
live-set_last i [] s t e = absurd (grind (arith, e))
live-set_last zero (u ∷ m) s t e = omega arith
live-set_last (suc i) (u ∷ m) s t e = omega (arith, live-set_last i m s t e)

connect_slot_ok :
    (s : Slot) (env : Surroundings) → (connect_slot s env).0.connected ≡ (connect_slot s env).1
unfolding connect_slot shaken_slot
connect_slot_ok s env = elim (Bool-cases s.connected) [
  | inl e ↦ simp e refl
  | inr e ↦ simp e (by_result (connect_and_handshake (peer_of env s.peer) s.host s.port env.time))
]
  where
    by_result : (r : LightPeer × Bool) → (shaken_slot s r).0.connected ≡ (shaken_slot s r).1
    by_result (p, ok) = refl

-- What one call adds to the connected slots.
abbrev Added : ℕ → ConnMan → ConnMan × Bool → Type 0
Added i m r = (live i m + (if r.1 then 1 else 0) ≤ live (suc i) r.0) × (length r.0 ≡ length m)

connect_at-Added :
    (m : ConnMan) (i : ℕ) (env : Surroundings) (o : Option Slot)
    → get_elem? m i ≡ o
    → Added i m (connect_at m i env o)
unfolding connect_at
connect_at-Added m i env none e = (omega (arith, live-suc i m), refl)
connect_at-Added m i env (some t) e = (
  omega (
    arith,
    live-set_last i m (connect_slot t env).0 t e,
    ap {B = ℕ} (λ (b : Bool). if b then 1 else 0) (connect_slot_ok t env),
  ),
  length-set m i (connect_slot t env).0,
)

connect_peer-Added : (m : ConnMan) (i : ℕ) (env : Surroundings) → Added i m (connect_peer m i env)
unfolding connect_peer
connect_peer-Added m i env = connect_at-Added m i env (get_elem? m i) refl

live-length : (i : ℕ) (m : ConnMan) → live i m ≤ live (length m) m
live-length zero m = omega arith
live-length (suc i) [] = omega arith
live-length (suc i) (s ∷ m) = omega (arith, live-length i m)

-- The number that is returned, against the limit and the slots.
pub record Counted (size max_conns : ℕ) (r : ConnMan × ℕ) : Type 0 where
  pub within : r.1 ≤ max_conns
  pub all_live : r.1 ≤ live size r.0
  pub same_size : length r.0 ≡ size
  pub are_slots : AreSlots r.0

count_connected-Counted :
    (size max_conns i connected : ℕ) (m : ConnMan) (r : ConnMan × Bool)
    (next : ConnMan → ℕ → ConnMan × ℕ)
    → connected < max_conns
    → connected ≤ live i m
    → length m ≡ size
    → Added i m r
    → AreSlots r.0
    → ((k : ConnMan) (c : ℕ)
        → c ≤ max_conns
        → c ≤ live (suc i) k
        → length k ≡ size
        → AreSlots k
        → Counted size max_conns (next k c))
    → Counted size max_conns (count_connected r connected next)
unfolding count_connected
count_connected-Counted size max_conns i connected m (k, true) next a b l d s h =
    h k (suc connected) (omega arith) (omega (arith, d.0)) (d.1 ∙ l) s
count_connected-Counted size max_conns i connected m (k, false) next a b l d s h =
    h k connected (omega arith) (omega (arith, d.0)) (d.1 ∙ l) s

connect_loop-Counted :
    (n i : ℕ) (m : ConnMan) (env : ℕ → Surroundings) (max_conns connected size : ℕ)
    → connected ≤ max_conns
    → connected ≤ live i m
    → length m ≡ size
    → AreSlots m
    → Counted size max_conns (connect_loop n i m env max_conns connected)
unfolding connect_loop
connect_loop-Counted zero i m env max_conns connected size a b l s = record {
  within = a;
  all_live = omega (arith, live-length i m, ap (λ (k : ℕ). live k m) l);
  same_size = l;
  are_slots = s;
}
connect_loop-Counted (suc n) i m env max_conns connected size a b l s =
    elim (Bool-cases (ltb connected max_conns)) [
      | inl e ↦ rw e (
          count_connected-Counted size max_conns i connected m (connect_peer m i (env i))
            (λ k c. connect_loop n (suc i) k env max_conns c) (ltb→lt connected max_conns e) b l
            (connect_peer-Added m i (env i)) (connect_peer-AreSlots m i (env i) s)
            (λ k c p q r t. connect_loop-Counted n (suc i) k env max_conns c size p q r t))
      | inr e ↦ rw e (record {
        within = a;
        all_live = omega (arith, live-length i m, ap (λ (k : ℕ). live k m) l);
        same_size = l;
        are_slots = s;
      })
    ]

-- `ConnectUpTo` returns at most the number asked for, and at least that many slots are then connected
-- with a peer behind a finished handshake, if this held of the connected slots before.
pub connect_up_to-Counted :
    (m : ConnMan) (env : ℕ → Surroundings) (max_conns : ℕ)
    → AreSlots m
    → Counted (length m) max_conns (connect_up_to m env max_conns)
unfolding connect_up_to
connect_up_to-Counted m env max_conns s =
    connect_loop-Counted (length m) 0 m env max_conns 0 (length m) (omega arith) (omega arith) refl
      s
