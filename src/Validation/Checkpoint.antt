-- ===== src/Validation/Checkpoint.antt =====
-- light_checkpoints.cpp: what a passed check of the built-in checkpoint says.
use mvclight.Base.{◌≡◌, refl, Bool, true, false, Option, none, some, if◌then◌else◌}
use mvclight.Base.Int.{pos}
use mvclight.Uint256.{is_null, set_hex}
use mvclight.Uint256.Order.{eq_iff}
use mvclight.Header.{LightBlockHeader, get_hash}
use mvclight.Chain.{ChainStore, get_header_at_height}
use mvclight.Validation.{check_checkpoint, builtin_checkpoint, anchored, hash_is, chain_work_ge}

-- The header at the height of the checkpoint has its hash.
abbrev pub HasCheckpoint : ChainStore → Type 0
HasCheckpoint c =
    (h : LightBlockHeader) × (get_header_at_height c (pos 21256) ≡ some h)
    × (get_hash h ≡ builtin_checkpoint.hash)

is_null_hash : is_null builtin_checkpoint.hash ≡ false
unfolding builtin_checkpoint is_null set_hex
is_null_hash = refl

checkpoint_height_lem : builtin_checkpoint.height ≡ pos 21256
unfolding builtin_checkpoint
checkpoint_height_lem = refl

anchored-HasCheckpoint : (c : ChainStore) → anchored c builtin_checkpoint ≡ true → HasCheckpoint c
unfolding anchored
anchored-HasCheckpoint c e =
    found (get_header_at_height c (pos 21256)) refl (rw (is_null_hash, checkpoint_height_lem) at e)
  where
    found :
        (o : Option LightBlockHeader)
        → get_header_at_height c (pos 21256) ≡ o
        → hash_is o builtin_checkpoint.hash ≡ true
        → HasCheckpoint c
    found none k t = unfold hash_is in cc t
    found (some h) k t =
        (h, k, (eq_iff (get_hash h) builtin_checkpoint.hash).0 (unfold hash_is in t))

-- If the check of the built-in checkpoint passes, the chain has the header with its hash at its
-- height.
pub check_checkpoint-HasCheckpoint :
    (c : ChainStore) → check_checkpoint c builtin_checkpoint ≡ true → HasCheckpoint c
unfolding check_checkpoint
check_checkpoint-HasCheckpoint c e = anchored-HasCheckpoint c (
    by_tests (is_null builtin_checkpoint.n_chain_work)
      (chain_work_ge c.m_chainwork builtin_checkpoint.n_chain_work) e)
  where
    by_tests :
        (a b : Bool)
        → (if a
            then anchored c builtin_checkpoint
            else (if b then anchored c builtin_checkpoint else false))
          ≡ true
        → anchored c builtin_checkpoint ≡ true
    by_tests true b h = h
    by_tests false true h = h
    by_tests false false h = cc h
