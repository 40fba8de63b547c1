-- ===== src/Peer/Heartbeat/Timeout.antt =====
-- What the heartbeat does over several calls, and the growth of the retry delay.
use mvclight.Base.{
  ℕ, zero, suc, ◌*◌, ◌^◌, ◌≤◌, ◌≡◌, refl, sym, ap, ◌∙◌, Bool, true, false, arith, ltb, Bool-cases,
  inl, inr, ltb_false→le, ltb→lt, if◌then◌else◌,
}
use mvclight.Base.Int.{pos, negsuc}
use native.Mathlib.Nat.{pow-suc}
use mvclight.State.{disconnected}
use mvclight.Peer.{LightPeer, retry_base_ms, retry_max_ms}
use mvclight.Peer.Heartbeat.{count_timeout, retry_loop, attempts, retry_base}

-- `min`, as the loop computes it.
abbrev capped : ℕ → ℕ
capped x = if ltb retry_max_ms x then retry_max_ms else x

capped-max : (x : ℕ) → retry_max_ms ≤ x → capped x ≡ retry_max_ms
capped-max x h = ground arith

twice : (x n : ℕ) → x * 2 ^ suc n ≡ x * 2 * 2 ^ n
twice x n = grind (arith, pow-suc 2 n)

times_power : (x n : ℕ) → x ≤ x * 2 ^ n
times_power x zero = omega arith
times_power x (suc n) = omega (arith, twice x n, times_power (x * 2) n)

-- The loop is the minimum of the doubled delay and the largest delay.
retry_loop_lem : (n base : ℕ) → base ≤ retry_max_ms → retry_loop n base ≡ capped (base * 2 ^ n)
unfolding retry_loop
retry_loop_lem zero base h = ground arith
retry_loop_lem (suc n) base h = elim (Bool-cases (ltb base retry_max_ms)) [
  | inl e ↦ elim (Bool-cases (ltb retry_max_ms (base * 2))) [
    | inl k ↦
        rw (e, k)
          (retry_loop_lem n retry_max_ms (omega arith)
            ∙ capped-max (retry_max_ms * 2 ^ n) (times_power retry_max_ms n)
            ∙ sym (
                capped-max (base * 2 ^ suc n) (
                  omega (
                    arith,
                    ltb→lt retry_max_ms (base * 2) k,
                    twice base n,
                    times_power (base * 2) n,
                  ))))
    | inr k ↦
        rw (e, k)
          (retry_loop_lem n (base * 2) (ltb_false→le retry_max_ms (base * 2) k)
            ∙ ap capped (sym (twice base n)))
  ]
  | inr e ↦ rw e (
      omega (arith, ltb_false→le base retry_max_ms e)
      ∙ sym (
          capped-max (base * 2 ^ suc n)
            (omega (arith, ltb_false→le base retry_max_ms e, times_power base (suc n)))))
]

-- The delay before the jitter is 5 seconds, doubled for each attempt, and at most 300 seconds; a
-- negative attempt counts as the first.
pub retry_base_lem :
    (n : ℕ)
    → (retry_base (pos n) ≡ (
        if ltb retry_max_ms (retry_base_ms * 2 ^ n) then retry_max_ms else retry_base_ms * 2 ^ n))
      × (retry_base (negsuc n) ≡ retry_base_ms)
unfolding retry_base attempts retry_loop
retry_base_lem n = (
  ap capped (retry_loop_lem n retry_base_ms (omega arith)) ∙ capped-capped (retry_base_ms * 2 ^ n),
  refl,
)
  where
    capped-capped : (x : ℕ) → capped (capped x) ≡ capped x
    capped-capped x = ground arith

-- How `CheckPingTimeout` ends, by its two tests.
abbrev tested : LightPeer → Bool → Bool → LightPeer × Bool
tested p b c = if b then (p, false) else (if c then (p, false) else (count_timeout p, true))

-- A check that finds a timeout leaves the peer disconnected; one that finds none changes nothing.
abbrev pub Severed : LightPeer → LightPeer × Bool → Type 0
Severed p (q, true) = q.m_state ≡ disconnected
Severed p (q, false) = q ≡ p
