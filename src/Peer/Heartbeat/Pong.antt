-- ===== src/Peer/Heartbeat/Pong.antt =====
-- A ping that is answered.
use mvclight.Base.{
  ℕ, ◌^◌, ◌<◌, ◌≡◌, refl, sym, ap, ==_iff, ◌&&◌, not, Bool, true, false, some, arith, codes,
  if◌then◌else◌,
}
use mvclight.Base.Int.{ℤ, pos, ◌-ℤ◌, eqb_ℤ}
use mvclight.Wire.{write_le}
use mvclight.Wire.Endian.{read_le-write_le}
use mvclight.Uint256.{eq as text_eq}
use mvclight.Socket.{LightSocket}
use mvclight.Message.{LightMessage}
use mvclight.State.{filter_sent, steady, same}
use mvclight.Peer.{LightPeer, parse_pong_nonce, send_frame}
use mvclight.Peer.Heartbeat.{
  pinged, send_ping, check_ping_timeout, answered, handle_pong, handle_message,
}

abbrev pub pong : ℕ → LightMessage
pong nonce = record { command = codes "pong"; payload = write_le 8 nonce }

parse_pong_nonce-write_le :
    (nonce : ℕ) → nonce < 2 ^ 64 → parse_pong_nonce (write_le 8 nonce) ≡ some nonce
unfolding parse_pong_nonce write_le
parse_pong_nonce-write_le nonce h =
    ap (λ (n : ℕ). some n) (unfold write_le in read_le-write_le 8 nonce h)

-- No ping is waited for, none was missed, and the time of the answer is kept.
pub record Answered (p : LightPeer) (took : ℤ) (now : ℤ) : Type 0 where
  pub no_timeout : check_ping_timeout p now ≡ (p, false)
  pub no_count : p.m_pong_timeout_count ≡ 0
  pub round_trip : p.m_last_ping_usec ≡ took

handle_pong-Answered :
    (p : LightPeer) (nonce : ℕ) (at now : ℤ)
    → p.m_pending_pong_nonce ≡ nonce
    → eqb_ℤ p.m_ping_sent_usec (pos 0) ≡ false
    → Answered (handle_pong p at (some nonce)).0 (at -ℤ p.m_ping_sent_usec) now
unfolding handle_pong answered check_ping_timeout
handle_pong-Answered p nonce at now e f =
    simp (f, (==_iff nonce p.m_pending_pong_nonce).1 (sym e))
      (record { no_timeout = refl; no_count = refl; round_trip = refl })

pinged-Answered :
    (p : LightPeer) (nonce : ℕ) (sent_at at now : ℤ) (r : LightSocket × Bool)
    → nonce < 2 ^ 64
    → eqb_ℤ sent_at (pos 0) ≡ false
    → (pinged p nonce sent_at r).1 ≡ true
    → Answered (handle_message (pinged p nonce sent_at r).0 (pong nonce) at).0 (at -ℤ sent_at) now
unfolding pinged handle_message text_eq
pinged-Answered p nonce sent_at at now (s, false) h f e = absurd (grind (arith, e))
pinged-Answered p nonce sent_at at now (s, true) h f e = rw (parse_pong_nonce-write_le nonce h) (
    handle_pong-Answered
      (record p { m_sock = s; m_pending_pong_nonce = nonce; m_ping_sent_usec = sent_at }) nonce at
      now refl f)

-- After a ping that was sent with a 64-bit nonce at a time other than 0, the pong with that nonce
-- keeps the round-trip time and sets the count of missed pings to 0, and no later check finds a
-- timeout.
pub pong_answers :
    (p : LightPeer) (nonce : ℕ) (sent_at at now : ℤ)
    → nonce < 2 ^ 64
    → eqb_ℤ sent_at (pos 0) ≡ false
    → (send_ping p nonce sent_at).1 ≡ true
    → Answered (handle_message (send_ping p nonce sent_at).0 (pong nonce) at).0 (at -ℤ sent_at) now
unfolding send_ping
pong_answers p nonce sent_at at now h f =
    by_test (not (same p.m_state filter_sent) && not (same p.m_state steady))
  where
    by_test :
        (b : Bool)
        → (if b
            then (p, false)
            else pinged p nonce sent_at (send_frame p.m_sock (codes "ping") (write_le 8 nonce))).1
          ≡ true
        → Answered
            (handle_message
              (if b
                then (p, false)
                else pinged p nonce sent_at
                    (send_frame p.m_sock (codes "ping") (write_le 8 nonce))).0
              (pong nonce)
              at).0
            (at -ℤ sent_at)
            now
    by_test true e = absurd (grind (arith, e))
    by_test false e =
        pinged-Answered p nonce sent_at at now
          (send_frame p.m_sock (codes "ping") (write_le 8 nonce)) h f e
