-- ===== src/PageTable/Access.antt =====
-- Faults in memory that a virtual pool has granted.
use multi_process.Base.{ℕ, Bool, List, ◌||◌}
use multi_process.ContFramePool.{ContFramePool}
use multi_process.VmPool
use multi_process.VmPool.{VmPool}
use multi_process.PageTable.{PageTable, found_pool}

-- The pools that a fault searches, in both lists.
abbrev searched : (ℕ → VmPool) → ℕ → List ℕ × PageTable → Bool
searched pool_at x (kernel_pools, t) =
    found_pool pool_at x kernel_pools || found_pool pool_at x t.pools
