-- ===== src/NodeCore/Memory.antt =====
-- The memory that the node may use.
use mvclight.Base.{arith, ℕ, ◌+◌, ◌*◌, ◌/◌, ◌^◌, ◌≤◌, ◌≡◌, refl}
use mvclight.Base.Int.{ℤ}
use mvclight.NodeCore.{limited, split_caches, cache_sizes}

split_total :
    (total : ℕ)
    → (split_caches total).block_tree
        + (split_caches total).coin_db
        + (split_caches total).coin_usage
      ≡ total
unfolding split_caches
split_total total = ground arith

limited-ge : (asked : ℤ) (low high : ℕ) → low ≤ high → low ≤ limited asked low high
unfolding limited
limited-ge asked low high h = ground arith

limited-le : (asked : ℤ) (low high : ℕ) → limited asked low high ≤ high
unfolding limited
limited-le asked low high = ground arith

-- The three caches together take what the argument asks for, raised to the lower limit and cut at the
-- upper one; so they stay between the limits, and the block index takes an eighth, rounded down.
pub cache_sizes-total :
    (asked : ℤ) (low high : ℕ)
    → low ≤ high
    → let c = cache_sizes asked low high in
      let total = c.block_tree + c.coin_db + c.coin_usage in
      (low * 2 ^ 20 ≤ total) × (total ≤ high * 2 ^ 20) × (c.block_tree ≡ total / 8)
unfolding cache_sizes
cache_sizes-total asked low high h =
    rw (split_total (limited asked (low * 2 ^ 20) (high * 2 ^ 20))) (
      limited-ge asked (low * 2 ^ 20) (high * 2 ^ 20) (omega arith),
      limited-le asked (low * 2 ^ 20) (high * 2 ^ 20),
      unfold split_caches in refl,
    )
