-- ===== src/Sync/Reading.antt =====
-- The loop of `ProcessHeaders` that waits for a HEADERS message.
use mvclight.Base.{
  ℕ, zero, suc, ◌<◌, ◌≡◌, refl, arith, Option, none, some, codes, Bool-cases, inl, inr,
}
use mvclight.Base.Int.{ℤ}
use mvclight.Uint256.{eq as text_eq}
use mvclight.Chain.{ChainStore}
use mvclight.Validation.{LightCheckpoint}
use mvclight.Socket.{LightSocket}
use mvclight.Message
use mvclight.Message.{LightMessage, mainnet_magic}
use mvclight.Message.Failure.{left, Outcome, read_message-Outcome}
use mvclight.Peer.{LightPeer}
use mvclight.Peer.Heartbeat.{read_message}
use mvclight.Sync.{SyncResult, headers_turn, headers_loop}

headers_turn-agree :
    (before : ℕ) (store : ChainStore) (cp : LightCheckpoint) (height now : ℤ) (peer : LightPeer)
    (r : LightSocket × Option LightMessage)
    (next other : LightPeer → LightPeer × (ChainStore × SyncResult))
    → Outcome before r
    → ((p : LightPeer) → left p.m_sock < before → next p ≡ other p)
    → headers_turn store cp height now (record peer { m_sock = r.0 }, r.1) next
      ≡ headers_turn store cp height now (record peer { m_sock = r.0 }, r.1) other
unfolding headers_turn
headers_turn-agree before store cp height now peer (s, none) next other o k = refl
headers_turn-agree before store cp height now peer (s, some msg) next other o k =
    elim (Bool-cases (text_eq msg.command (codes "headers"))) [
      | inl e ↦ rw e refl
      | inr e ↦ rw e (k (record peer { m_sock = s }) (omega (arith, o.0)))
    ]

-- Over the bytes of a connection that ends, the fuel of the loop of `ProcessHeaders` is enough: with
-- more fuel than bytes that will ever arrive the result is the same whatever the fuel.
pub headers_loop-fuel :
    (n m : ℕ) (peer : LightPeer) (store : ChainStore) (cp : LightCheckpoint) (height now : ℤ)
    → left peer.m_sock < n
    → left peer.m_sock < m
    → headers_loop n peer store cp height now ≡ headers_loop m peer store cp height now
unfolding headers_loop read_message
headers_loop-fuel zero m peer store cp height now h k = absurd (omega arith)
headers_loop-fuel (suc n) zero peer store cp height now h k = absurd (omega arith)
headers_loop-fuel (suc n) (suc m) peer store cp height now h k =
    headers_turn-agree (left peer.m_sock) store cp height now peer
      (Message.read_message mainnet_magic peer.m_sock) (λ p. headers_loop n p store cp height now)
      (λ p. headers_loop m p store cp height now) (read_message-Outcome mainnet_magic peer.m_sock)
      (λ p j. headers_loop-fuel n m p store cp height now (omega arith) (omega arith))
