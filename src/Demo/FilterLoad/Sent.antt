-- ===== src/Demo/FilterLoad/Sent.antt =====
-- When a changed filter reaches the peer.
use mvclight.Base.{
  arith, ℕ, ◌≡◌, refl, sym, ap, subst, Bool, true, false, List, [], ◌∷◌, Option, none, some, length,
  codes, if◌then◌else◌,
}
use mvclight.Base.Int.{ℤ, pos, ◌≤ℤ◌, ◌-ℤ◌, ltb_ℤ, leb_ℤ}
use mvclight.Wire.{Bytes}
use mvclight.Filter.{BloomFilter}
use mvclight.Peer.{LightPeer}
use mvclight.Peer.Heartbeat.{send_message}
use mvclight.Policy.{
  PeerPolicy, filter_reload_min_interval_ms, is_valid_bloom, allow_filter_reload, due,
}
use mvclight.Demo.FilterLoad.{Loader, load_sent, load_payload, load_filter, limited, rebuild_filter}

load_sent-policy : (l : Loader) (r : LightPeer × Bool) → (load_sent l r).policy ≡ l.policy
unfolding load_sent
load_sent-policy l (peer, true) = refl
load_sent-policy l (peer, false) = refl

load_payload-policy :
    (l : Loader) (elements : ℕ) (payload : Option Bytes)
    → (load_payload l elements payload).policy ≡ l.policy
unfolding load_payload
load_payload-policy l elements none = refl
load_payload-policy l elements (some payload) =
    by_test (is_valid_bloom elements (length payload) 0 2)
  where
    by_test :
        (b : Bool)
        → (if b
            then load_sent l (send_message l.peer (codes "filterload") payload)
            else record l { filter_dirty = false }).policy
          ≡ l.policy
    by_test true = load_sent-policy l (send_message l.peer (codes "filterload") payload)
    by_test false = refl

load_filter-policy :
    (create : ℕ → BloomFilter) (l : Loader) (addrs : List Bytes)
    → (load_filter create l addrs).policy ≡ l.policy
unfolding load_filter
load_filter-policy create l [] = refl
load_filter-policy create l (a ∷ addrs) = load_payload-policy l (length (a ∷ addrs)) _

-- A rebuild that the rate limit lets through takes its time down, whatever becomes of the filter.
allowed-policy :
    (create : ℕ → BloomFilter) (l : Loader) (addrs : List Bytes) (now : ℤ)
    → due l.policy.m_last_filter_reload_ms filter_reload_min_interval_ms now ≡ true
    → (rebuild_filter create l addrs false now).policy.m_last_filter_reload_ms ≡ now
unfolding rebuild_filter limited allow_filter_reload
allowed-policy create l addrs now h = rw h (
    ap (λ (p : PeerPolicy). p.m_last_filter_reload_ms)
      (load_filter-policy create
        (record l { policy = record l.policy { m_last_filter_reload_ms = now } }) addrs))

refused :
    (create : ℕ → BloomFilter) (l : Loader) (addrs : List Bytes) (now : ℤ)
    → pos 0 ≤ℤ l.policy.m_last_filter_reload_ms
    → now -ℤ l.policy.m_last_filter_reload_ms ≤ℤ pos 4999
    → rebuild_filter create l addrs false now ≡ record l { filter_dirty = false }
unfolding rebuild_filter limited allow_filter_reload due
refused create l addrs now h k = rw (seen, early) refl
  where
    seen : ltb_ℤ l.policy.m_last_filter_reload_ms (pos 0) ≡ false
    seen = ground arith

    early : leb_ℤ (pos 5000) (now -ℤ l.policy.m_last_filter_reload_ms) ≡ false
    early = ground arith

-- A rebuild of the filter at time `first` that the rate limit lets through, whatever then became of
-- it, and a second one less than five seconds later for a list of addresses that has changed in
-- between: the second sends nothing and yet clears the flag that asks for it, so that nothing asks
-- for the changed filter any more.
pub rebuild_filter-throttled :
    (create : ℕ → BloomFilter) (l : Loader) (addrs changed : List Bytes) (first second : ℤ)
    → due l.policy.m_last_filter_reload_ms filter_reload_min_interval_ms first ≡ true
    → pos 0 ≤ℤ first
    → second -ℤ first ≤ℤ pos 4999
    → let after = rebuild_filter create l addrs false first in
      rebuild_filter create (record after { filter_dirty = true }) changed false second
      ≡ record after { filter_dirty = false }
rebuild_filter-throttled create l addrs changed first second d h k =
    refused create (record after { filter_dirty = true }) changed second
      (subst (λ (t : ℤ). pos 0 ≤ℤ t) (sym at) h)
      (subst (λ (t : ℤ). second -ℤ t ≤ℤ pos 4999) (sym at) k)
  where
    after : Loader
    after = rebuild_filter create l addrs false first

    at : after.policy.m_last_filter_reload_ms ≡ first
    at = allowed-policy create l addrs first d
