-- ===== src/State/Paths.antt =====
-- Runs of allowed transitions: no stage of the synchronisation is skipped.
use mvclight.Base.{ℕ, zero, suc, ◌+◌, ◌≤◌, ◌≡◌, true, arith}
use mvclight.State.{
  PeerState, init, handshake, filter_sent, wait_filter_ack, syncing_headers, syncing_txs, steady,
  disconnected, is_valid_transition,
}

-- A run of n allowed transitions.
pub data Run (s : PeerState) : PeerState → ℕ → Type 0 where
  start : Run s s zero
  step : {t u : PeerState} {n : ℕ} → Run s t n → is_valid_transition t u ≡ true → Run s u (suc n)

-- How many stages of a connection lie behind a state.
unfoldable pub stage : PeerState → ℕ
stage init = 0
stage handshake = 0
stage filter_sent = 1
stage wait_filter_ack = 2
stage syncing_headers = 3
stage syncing_txs = 4
stage steady = 5
stage disconnected = 0

stage-step : (s t : PeerState) → is_valid_transition s t ≡ true → stage t ≤ stage s + 1
unfolding is_valid_transition stage
stage-step s t h = ground arith

stage-run : {s t : PeerState} {n : ℕ} → Run s t n → stage t ≤ stage s + n
stage-run start = omega arith
stage-run {s} (step {t} {u} r h) = omega (arith, stage-run r, stage-step t u h)

-- No run of allowed transitions skips a stage: from a new connection, a broken one or the handshake
-- to the steady state it takes at least the five steps of the synchronisation.
pub steady_takes_five : (s : PeerState) (n : ℕ) → stage s ≡ 0 → Run s steady n → 5 ≤ n
unfolding stage
steady_takes_five s n h r = omega (arith, stage-run r)
