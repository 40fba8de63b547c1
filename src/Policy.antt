-- ===== src/Policy.antt =====
-- light_peer_policy.cpp: how often headers and filters may be asked for, and which filters may be
-- sent.
pub mod Spacing
use mvclight.Base.{ℕ, Bool, true, false, ltb, if◌then◌else◌}
use mvclight.Base.Int.{ℤ, pos, negsuc, ◌-ℤ◌, ltb_ℤ, leb_ℤ}

abbrev pub get_headers_min_interval_ms : ℕ
get_headers_min_interval_ms = 100

abbrev pub filter_reload_min_interval_ms : ℕ
filter_reload_min_interval_ms = 5000

abbrev pub max_bloom_elements : ℕ
max_bloom_elements = 20000

abbrev pub max_bloom_bytes : ℕ
max_bloom_bytes = 32768

abbrev pub max_bloom_hash_funcs : ℕ
max_bloom_hash_funcs = 50

pub record PeerPolicy : Type 0 where
  pub m_last_getheaders_ms : ℤ
  pub m_last_filter_reload_ms : ℤ

abbrev pub new : PeerPolicy
new = record { m_last_getheaders_ms = negsuc 0; m_last_filter_reload_ms = negsuc 0 }

-- The test of both limits: never before, or long enough ago.
unfoldable pub due : ℤ → ℕ → ℤ → Bool
unfolding ◌-ℤ◌
due last interval now_ms =
    if ltb_ℤ last (pos 0) then true else leb_ℤ (pos interval) (now_ms -ℤ last)

unfoldable pub allow_get_headers : PeerPolicy → ℤ → PeerPolicy × Bool
unfolding due
allow_get_headers p now_ms =
    if due p.m_last_getheaders_ms get_headers_min_interval_ms now_ms
    then (record p { m_last_getheaders_ms = now_ms }, true)
    else (p, false)

unfoldable pub allow_filter_reload : PeerPolicy → ℤ → PeerPolicy × Bool
unfolding due
allow_filter_reload p now_ms =
    if due p.m_last_filter_reload_ms filter_reload_min_interval_ms now_ms
    then (record p { m_last_filter_reload_ms = now_ms }, true)
    else (p, false)

unfoldable pub is_valid_bloom : ℕ → ℕ → ℕ → ℕ → Bool
is_valid_bloom elements bytes hash_funcs flags =
    if ltb max_bloom_elements elements
    then false
    else (if ltb max_bloom_bytes bytes
        then false
        else (if ltb max_bloom_hash_funcs hash_funcs
            then false
            else (if ltb 2 flags then false else true)))
