-- ===== src/Peer/Heartbeat.antt =====
-- The heartbeat and the messages of light_peer.cpp: pings, pongs and their timeout, and the delay of a
-- retry before its jitter. Times are microseconds of the clock, passed in where the source reads it.
pub mod Timeout
pub mod Pong
use mvclight.Base.{
  ℕ, zero, suc, ◌+◌, ◌-◌, ◌*◌, ◌==◌, Bool, true, false, ◌&&◌, ◌||◌, not, Option, none, some, ltb,
  leb, codes, if◌then◌else◌,
}
use mvclight.Base.Int.{ℤ, pos, negsuc, ◌-ℤ◌, ltb_ℤ, eqb_ℤ}
use mvclight.Wire.{Bytes, write_le}
use mvclight.Uint256.{eq as text_eq}
use mvclight.Socket.{LightSocket}
use mvclight.Message
use mvclight.Message.{LightMessage, mainnet_magic}
use mvclight.State.{filter_sent, steady, same}
use mvclight.Peer.{
  LightPeer, parse_pong_nonce, disconnect, send_frame, pong_timeout_ms, retry_base_ms, retry_max_ms,
}

unfoldable pub pinged : LightPeer → ℕ → ℤ → LightSocket × Bool → LightPeer × Bool
pinged p nonce now (s, false) = (record p { m_sock = s }, false)
pinged p nonce now (s, true) =
    (record p { m_sock = s; m_pending_pong_nonce = nonce; m_ping_sent_usec = now }, true)

unfoldable pub send_ping : LightPeer → ℕ → ℤ → LightPeer × Bool
unfolding pinged
send_ping p nonce now =
    if not (same p.m_state filter_sent) && not (same p.m_state steady)
    then (p, false)
    else pinged p nonce now (send_frame p.m_sock (codes "ping") (write_le 8 nonce))

-- The end of a ping that has timed out.
count_timeout : LightPeer → LightPeer
count_timeout p =
    let q = record p {
      m_pong_timeout_count = suc p.m_pong_timeout_count;
      m_pending_pong_nonce = 0;
      m_ping_sent_usec = pos 0;
    } in
    if leb 2 q.m_pong_timeout_count then disconnect q else q

unfoldable pub check_ping_timeout : LightPeer → ℤ → LightPeer × Bool
unfolding count_timeout
check_ping_timeout p now =
    if p.m_pending_pong_nonce == 0 || eqb_ℤ p.m_ping_sent_usec (pos 0)
    then (p, false)
    else (if ltb_ℤ (now -ℤ p.m_ping_sent_usec) (pos (pong_timeout_ms * 1000))
        then (p, false)
        else (count_timeout p, true))

-- A pong that names the ping that is waited for.
answered : LightPeer → ℤ → LightPeer
answered p now = record p {
  m_last_ping_usec = now -ℤ p.m_ping_sent_usec;
  m_pending_pong_nonce = 0;
  m_ping_sent_usec = pos 0;
  m_pong_timeout_count = 0;
}

handle_pong : LightPeer → ℤ → Option ℕ → LightPeer × Bool
unfolding answered
handle_pong p now none = (p, false)
handle_pong p now (some nonce) = (
  if nonce == p.m_pending_pong_nonce && not (eqb_ℤ p.m_ping_sent_usec (pos 0))
      then answered p now
      else p,
  true,
)

unfoldable pub handle_message : LightPeer → LightMessage → ℤ → LightPeer × Bool
unfolding handle_pong
handle_message p msg now =
    if text_eq msg.command (codes "pong")
    then handle_pong p now (parse_pong_nonce msg.payload)
    else (if text_eq msg.command (codes "ping")
        then (record p { m_sock = (send_frame p.m_sock (codes "pong") msg.payload).0 }, true)
        else (p, true))

handle_read : LightPeer → ℤ → LightSocket × Option LightMessage → LightPeer × Bool
handle_read p now (s, none) = (record p { m_sock = s }, false)
handle_read p now (s, some msg) = handle_message (record p { m_sock = s }) msg now

unfoldable pub read_and_handle : LightPeer → Bytes → ℤ → LightPeer × Bool
unfolding handle_read
read_and_handle p magic now = handle_read p now (Message.read_message magic p.m_sock)

unfoldable pub send_message : LightPeer → Bytes → Bytes → LightPeer × Bool
send_message p command payload =
    let r = send_frame p.m_sock command payload in (record p { m_sock = r.0 }, r.1)

unfoldable pub read_message : LightPeer → LightPeer × Option LightMessage
read_message p =
    let r = Message.read_message mainnet_magic p.m_sock in (record p { m_sock = r.0 }, r.1)

-- The loop of `NextRetryDelayMs`, as often as attempts are left.
unfoldable pub retry_loop : ℕ → ℕ → ℕ
retry_loop zero base = base
retry_loop (suc n) base =
    let rest = retry_loop n (if ltb retry_max_ms (base * 2) then retry_max_ms else base * 2) in
    if ltb base retry_max_ms then rest else base

attempts : ℤ → ℕ
attempts (pos n) = n
attempts (negsuc n) = 0

-- The delay before the jitter.
unfoldable pub retry_base : ℤ → ℕ
unfolding attempts
retry_base attempt =
    let base = retry_loop (attempts attempt) retry_base_ms in
    if ltb retry_max_ms base then retry_max_ms else base
