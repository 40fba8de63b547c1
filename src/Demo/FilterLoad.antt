-- ===== src/Demo/FilterLoad.antt =====
-- demo/demo_win32.cpp: the Bloom filter of the watched addresses. The filter that `Create` sizes, in
-- floating point, for a number of elements is the argument `create`.
pub mod Sent
pub mod Matched
use mvclight.Base.{
  ℕ, Bool, true, false, List, [], ◌∷◌, Option, none, some, codes, if◌then◌else◌, length,
}
use mvclight.Base.Int.{ℤ}
use mvclight.Wire.{Bytes}
use mvclight.Filter.{BloomFilter, insert_item, serialize_filter}
use mvclight.Policy.{PeerPolicy, allow_filter_reload, is_valid_bloom}
use mvclight.Peer.{LightPeer}
use mvclight.Peer.Heartbeat.{send_message}
use mvclight.Demo.Base58.{address_to_script_pubkey}

-- The peer, the static policy, and `g_filter_dirty`.
pub record Loader : Type 0 where
  pub peer : LightPeer
  pub policy : PeerPolicy
  pub filter_dirty : Bool

insert_script : BloomFilter → Option Bytes → BloomFilter
insert_script f none = f
insert_script f (some spk) = (insert_item f spk).0

-- The loop over the addresses; one that is not supported is left out.
unfoldable pub insert_all : BloomFilter → List Bytes → BloomFilter
unfolding insert_script
insert_all f [] = f
insert_all f (a ∷ addrs) = insert_all (insert_script f (address_to_script_pubkey a)) addrs

load_sent : Loader → LightPeer × Bool → Loader
load_sent l (peer, true) = record l { peer = peer; filter_dirty = false }
load_sent l (peer, false) = record l { peer = peer }

-- From the serialized filter on.
unfoldable pub load_payload : Loader → ℕ → Option Bytes → Loader
unfolding load_sent
load_payload l elements none = l
load_payload l elements (some payload) =
    if is_valid_bloom elements (length payload) 0 2
    then load_sent l (send_message l.peer (codes "filterload") payload)
    else record l { filter_dirty = false }

-- From the watched addresses on.
unfoldable pub load_filter : (ℕ → BloomFilter) → Loader → List Bytes → Loader
unfolding insert_all
load_filter create l [] = record l { filter_dirty = false }
load_filter create l (a ∷ addrs) =
    load_payload l (length (a ∷ addrs))
      (serialize_filter (insert_all (create (length (a ∷ addrs))) (a ∷ addrs)))

limited : (ℕ → BloomFilter) → Loader → List Bytes → PeerPolicy × Bool → Loader
limited create l addrs (policy, true) = load_filter create (record l { policy = policy }) addrs
limited create l addrs (policy, false) = record l { policy = policy; filter_dirty = false }

unfoldable pub rebuild_filter : (ℕ → BloomFilter) → Loader → List Bytes → Bool → ℤ → Loader
unfolding limited
rebuild_filter create l addrs force now =
    if force
    then load_filter create l addrs
    else limited create l addrs (allow_filter_reload l.policy now)
