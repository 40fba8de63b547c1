-- ===== src/Sync.antt =====
-- light_sync.cpp: GETHEADERS, and the HEADERS that answer it. The rate limit, a static object of
-- `SendGetHeaders`, and the clock before and after its sleep are arguments. A result -1 with its
-- reason is `failed`.
pub mod Chained
pub mod Batch
pub mod Reading
use mvclight.Base.{
  ℕ, zero, suc, ◌*◌, ◌==◌, Bool, true, false, ◌&&◌, not, List, [], ◌∷◌, ◌++◌, Option, none, some,
  ltb, leb, codes, if◌then◌else◌, length, take, drop, replicate,
}
use mvclight.Base.Int.{ℤ, pos, negsuc, ◌+ℤ◌, ◌-ℤ◌, ltb_ℤ, leb_ℤ}
use mvclight.Wire.{Bytes, byte_at, write_le, write_compact_size32, read_compact_size}
use mvclight.Uint256.{eq as text_eq}
use mvclight.Header.{LightBlockHeader, header_size, deserialize, get_hash}
use mvclight.Chain.{
  ChainStore, add_header, get_header_at_height, get_tip, get_median_time_past, add_work,
}
use mvclight.Validation
use mvclight.Validation.{Reason, Verdict, validate_header, LightCheckpoint}
use mvclight.Asert.{default_params, get_next_asert_bits}
use mvclight.Policy.{PeerPolicy, allow_get_headers}
use mvclight.Message.{LightMessage}
use mvclight.Socket.Receive.{volume}
use mvclight.Peer.{LightPeer}
use mvclight.Peer.Heartbeat.{send_message, read_message}

-- The wait for the rate limit.
spaced : PeerPolicy → ℤ → ℤ → PeerPolicy
spaced policy now later =
    let asked = allow_get_headers policy now in
    if asked.1 then asked.0 else (allow_get_headers asked.0 later).0

-- The hash of the tip, or that of the checkpoint in an empty store.
tip_hash : Option LightBlockHeader → Option Bytes
tip_hash none = none
tip_hash (some tip) = some (get_hash tip)

unfoldable pub locator : ChainStore → LightCheckpoint → Option Bytes
unfolding tip_hash
locator store cp =
    if leb_ℤ (pos 0) store.m_tip_height then tip_hash (get_tip store) else some cp.hash

unfoldable pub get_headers_payload : Bytes → Bytes
get_headers_payload hash = write_le 4 70016 ++ (write_compact_size32 1 ++ (hash ++ replicate 32 0))

ask : LightPeer → Option Bytes → LightPeer × Bool
ask peer none = (peer, false)
ask peer (some hash) = send_message peer (codes "getheaders") (get_headers_payload hash)

unfoldable pub send_get_headers :
    PeerPolicy → LightPeer → LightCheckpoint → ChainStore → ℤ → ℤ → PeerPolicy × (LightPeer × Bool)
unfolding spaced ask
send_get_headers policy peer cp store now later =
    (spaced policy now later, ask peer (locator store cp))

pub data SyncReason : Type 0 where
  read_failed bad_headers_format bad_header_deserialize bad_headers_txcount : SyncReason
  invalid : Reason → SyncReason
  bad_diffbits : SyncReason

pub data Checked : Type 0 where
  stop : SyncReason → Checked
  undefined : Checked
  passed : LightBlockHeader → Checked

unfoldable pub previous : ChainStore → ℤ → Option LightBlockHeader
previous store height =
    if ltb_ℤ (pos 0) height then get_header_at_height store (height -ℤ pos 1) else none

median_before : ChainStore → ℤ → Option LightBlockHeader → ℤ
median_before store height none = negsuc 0
median_before store height (some prev) = pos (get_median_time_past store (height -ℤ pos 1))

asert_bits : LightBlockHeader → Option ℕ → Checked
asert_bits h none = undefined
asert_bits h (some bits) = if h.n_bits == bits then passed h else stop bad_diffbits

-- The comparison with the difficulty of ASERT, above the checkpoint.
check_bits : LightBlockHeader → Option LightBlockHeader → ℤ → Bool → Checked
unfolding asert_bits
check_bits h none height historical = passed h
check_bits h (some prev) height historical =
    if not historical && ltb_ℤ (pos 0) height
    then asert_bits h (get_next_asert_bits prev (height -ℤ pos 1) default_params)
    else passed h

after_rules : Verdict → Checked → Checked
after_rules Verdict.accepted rest = rest
after_rules (Verdict.rejected reason) rest = stop (invalid reason)
after_rules Verdict.undefined rest = undefined

check_rules : ChainStore → LightCheckpoint → ℤ → ℤ → LightBlockHeader → Checked
unfolding check_bits after_rules median_before
check_rules store cp height adjusted_time_now h =
    let prev = previous store height in
    let historical = leb_ℤ height cp.height in
    after_rules
      (validate_header h prev height historical adjusted_time_now (median_before store height prev))
      (check_bits h prev height historical)

check_parsed : ChainStore → LightCheckpoint → ℤ → ℤ → Bytes → Option LightBlockHeader → Checked
unfolding check_rules
check_parsed store cp height adjusted_time_now hp none = stop bad_header_deserialize
check_parsed store cp height adjusted_time_now hp (some h) =
    if byte_at hp header_size == 0
    then check_rules store cp height adjusted_time_now h
    else stop bad_headers_txcount

-- One header of the message, under the cursor.
unfoldable pub check_header : ChainStore → LightCheckpoint → ℤ → ℤ → Bytes → Checked
unfolding check_parsed
check_header store cp height adjusted_time_now hp =
    check_parsed store cp height adjusted_time_now hp (deserialize (take header_size hp))

pub data SyncResult : Type 0 where
  processed : ℕ → SyncResult
  failed : SyncReason → SyncResult
  undefined_result : SyncResult

advance :
    Checked → ChainStore → ℤ → (ChainStore → ChainStore × SyncResult) → ChainStore × SyncResult
advance (stop reason) store height next = (store, failed reason)
advance undefined store height next = (store, undefined_result)
advance (passed h) store height next = next (add_work (add_header store h height) h.n_bits)

-- The loop over the headers that are left, `done` of which have been stored.
unfoldable pub accept_headers :
    ℕ → ChainStore → LightCheckpoint → ℤ → ℤ → Bytes → ℕ → ChainStore × SyncResult
unfolding advance
accept_headers zero store cp height now p done = (store, processed done)
accept_headers (suc n) store cp height now p done =
    advance (check_header store cp height now p) store height
      (λ s. accept_headers n s cp (height +ℤ pos 1) now (drop 81 p) (suc done))

accept_counted : Option (ℕ × Bytes) → ChainStore → LightCheckpoint → ℤ → ℤ → ChainStore × SyncResult
accept_counted none store cp height now = (store, failed bad_headers_format)
accept_counted (some (count, p)) store cp height now =
    if ltb 2000 count
    then (store, failed bad_headers_format)
    else (if ltb (length p) (count * 81)
        then (store, failed bad_headers_format)
        else accept_headers count store cp height now p 0)

unfoldable pub accept_message :
    ChainStore → LightCheckpoint → ℤ → ℤ → Bytes → ChainStore × SyncResult
unfolding accept_counted
accept_message store cp height now payload =
    accept_counted (read_compact_size payload) store cp height now

-- One turn of the loop that waits for HEADERS; any other message is dropped.
headers_turn :
    ChainStore
    → LightCheckpoint
    → ℤ
    → ℤ
    → LightPeer × Option LightMessage
    → (LightPeer → LightPeer × (ChainStore × SyncResult))
    → LightPeer × (ChainStore × SyncResult)
headers_turn store cp height now (peer, none) next = (peer, (store, failed read_failed))
headers_turn store cp height now (peer, some msg) next =
    if text_eq msg.command (codes "headers")
    then (peer, accept_message store cp height now msg.payload)
    else next peer

unfoldable pub headers_loop :
    ℕ → LightPeer → ChainStore → LightCheckpoint → ℤ → ℤ → LightPeer × (ChainStore × SyncResult)
unfolding headers_turn
headers_loop zero peer store cp height now = (peer, (store, failed read_failed))
headers_loop (suc n) peer store cp height now =
    headers_turn store cp height now (read_message peer) (λ p. headers_loop n p store cp height now)

-- Every message takes 24 bytes or more from what will ever arrive, so this is enough fuel.
unfoldable pub process_headers :
    LightPeer → ChainStore → LightCheckpoint → ℤ → ℤ → LightPeer × (ChainStore × SyncResult)
process_headers peer store cp start_height adjusted_time_now =
    headers_loop (suc (volume peer.m_sock.channel.incoming)) peer store cp start_height
      adjusted_time_now
