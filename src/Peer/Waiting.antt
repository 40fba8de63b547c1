-- ===== src/Peer/Waiting.antt =====
-- The two loops of `DoHandshake` that wait for a message of the peer.
use mvclight.Base.{
  ℕ, zero, suc, ◌<◌, ◌≡◌, refl, ◌∙◌, Bool, true, false, Option, none, some, arith, codes,
  Bool-cases, inl, inr,
}
use mvclight.Wire.{Bytes}
use mvclight.Uint256.{eq as text_eq}
use mvclight.Socket.{LightSocket}
use mvclight.Message.{LightMessage, mainnet_magic, read_message}
use mvclight.Message.Failure.{left, Outcome, read_message-Outcome}
use mvclight.Message.Keeps.{Keeps, Keeps-sent, read_message-Keeps}
use mvclight.Peer.{parse_version_services, version_turn, wait_version, verack_turn, wait_verack}

version_turn-agree :
    (before : ℕ) (r : LightSocket × Option LightMessage)
    (next other : LightSocket → LightSocket × Option ℕ)
    → Outcome before r
    → ((t : LightSocket) → left t < before → next t ≡ other t)
    → version_turn r next ≡ version_turn r other
unfolding version_turn
version_turn-agree before (s, none) next other o k = refl
version_turn-agree before (s, some msg) next other o k =
    elim (Bool-cases (text_eq msg.command (codes "version"))) [
      | inl e ↦ rw e refl
      | inr e ↦ rw e (k s (omega (arith, o.0)))
    ]

-- With more fuel than bytes that will ever arrive, the loop that waits for the VERSION gives the same
-- result whatever the fuel: it ends by itself.
pub wait_version-fuel :
    (n m : ℕ) (s : LightSocket) → left s < n → left s < m → wait_version n s ≡ wait_version m s
unfolding wait_version
wait_version-fuel zero m s h k = absurd (omega arith)
wait_version-fuel (suc n) zero s h k = absurd (omega arith)
wait_version-fuel (suc n) (suc m) s h k =
    version_turn-agree (left s) (read_message mainnet_magic s) (λ t. wait_version n t)
      (λ t. wait_version m t) (read_message-Outcome mainnet_magic s)
      (λ t j. wait_version-fuel n m t (omega arith) (omega arith))

verack_turn-agree :
    (before : ℕ) (r : LightSocket × Option LightMessage)
    (next other : LightSocket → LightSocket × Bool)
    → Outcome before r
    → ((t : LightSocket) → left t < before → next t ≡ other t)
    → verack_turn r next ≡ verack_turn r other
unfolding verack_turn
verack_turn-agree before (s, none) next other o k = refl
verack_turn-agree before (s, some msg) next other o k =
    elim (Bool-cases (text_eq msg.command (codes "verack"))) [
      | inl e ↦ rw e refl
      | inr e ↦ rw e (k s (omega (arith, o.0)))
    ]

-- The same for the loop that waits for the VERACK.
pub wait_verack-fuel :
    (n m : ℕ) (s : LightSocket) → left s < n → left s < m → wait_verack n s ≡ wait_verack m s
unfolding wait_verack
wait_verack-fuel zero m s h k = absurd (omega arith)
wait_verack-fuel (suc n) zero s h k = absurd (omega arith)
wait_verack-fuel (suc n) (suc m) s h k =
    verack_turn-agree (left s) (read_message mainnet_magic s) (λ t. wait_verack n t)
      (λ t. wait_verack m t) (read_message-Outcome mainnet_magic s)
      (λ t j. wait_verack-fuel n m t (omega arith) (omega arith))

-- The bytes sent so far are the given ones, and after a success the connection stands.
abbrev pub Stands : Bytes → LightSocket × Bool → Type 0
Stands sent (s, false) = s.sent ≡ sent
Stands sent (s, true) = (s.sent ≡ sent) × (s.m_connected ≡ true)

pub Stands-sent : (a b : Bytes) (r : LightSocket × Bool) → a ≡ b → Stands a r → Stands b r
Stands-sent a b (s, false) e k = k ∙ e
Stands-sent a b (s, true) e k = (k.0 ∙ e, k.1)

services-Keeps :
    (sent : Bytes) (s : LightSocket) (services : Option ℕ)
    → s.sent ≡ sent
    → s.m_connected ≡ true
    → Keeps sent (s, services)
services-Keeps sent s none e c = e
services-Keeps sent s (some n) e c = (e, c)

version_turn-Keeps :
    (sent : Bytes) (r : LightSocket × Option LightMessage)
    (next : LightSocket → LightSocket × Option ℕ)
    → Keeps sent r
    → ((t : LightSocket) → t.m_connected ≡ true → Keeps t.sent (next t))
    → Keeps sent (version_turn r next)
unfolding version_turn
version_turn-Keeps sent (s, none) next h k = h
version_turn-Keeps sent (s, some msg) next h k =
    elim (Bool-cases (text_eq msg.command (codes "version"))) [
      | inl e ↦ rw e (services-Keeps sent s (parse_version_services msg.payload) h.0 h.1)
      | inr e ↦ rw e (Keeps-sent s.sent sent (next s) h.0 (k s h.1))
    ]

pub wait_version-Keeps :
    (n : ℕ) (s : LightSocket) → s.m_connected ≡ true → Keeps s.sent (wait_version n s)
unfolding wait_version
wait_version-Keeps zero s c = refl
wait_version-Keeps (suc n) s c =
    version_turn-Keeps s.sent (read_message mainnet_magic s) (λ t. wait_version n t)
      (read_message-Keeps mainnet_magic s c) (λ t d. wait_version-Keeps n t d)

verack_turn-Stands :
    (sent : Bytes) (r : LightSocket × Option LightMessage) (next : LightSocket → LightSocket × Bool)
    → Keeps sent r
    → ((t : LightSocket) → t.m_connected ≡ true → Stands t.sent (next t))
    → Stands sent (verack_turn r next)
unfolding verack_turn
verack_turn-Stands sent (s, none) next h k = h
verack_turn-Stands sent (s, some msg) next h k =
    elim (Bool-cases (text_eq msg.command (codes "verack"))) [
      | inl e ↦ rw e h
      | inr e ↦ rw e (Stands-sent s.sent sent (next s) h.0 (k s h.1))
    ]

pub wait_verack-Stands :
    (n : ℕ) (s : LightSocket) → s.m_connected ≡ true → Stands s.sent (wait_verack n s)
unfolding wait_verack
wait_verack-Stands zero s c = refl
wait_verack-Stands (suc n) s c =
    verack_turn-Stands s.sent (read_message mainnet_magic s) (λ t. wait_verack n t)
      (read_message-Keeps mainnet_magic s c) (λ t d. wait_verack-Stands n t d)
