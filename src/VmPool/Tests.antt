-- ===== src/VmPool/Tests.antt =====
-- Runs of the virtual memory pool, and its theorems at the kernel's pool of 256 MB at 512 MB.
use multi_process.Base.{ℕ, ◌+◌, ◌*◌, ◌≡◌, refl, List, [], ◌∷◌, arith, ◌^◌}
use multi_process.VmPool.{
  VmPool, done, initial_tables, first_index, round_up, carve, allocate, address, free_pages,
  give_back, release,
}
use multi_process.VmPool.Regions.{IsPartition, initial_tables-IsPartition}
use multi_process.VmPool.Allocate.{entry, allocate_lem}
use multi_process.VmPool.Allocate
use multi_process.VmPool.Release
use multi_process.VmPool.Reachable.{
  Reachable, start, next, allocation, deallocation, Reachable-IsPartition, allocated-IsPartition,
}
use multi_process.VmPool.Return.{Returned, release-allocate}
use multi_process.VmPool.Release.{pages, release_lem}

abbrev base : ℕ
base = 512 * 2 ^ 20

abbrev size : ℕ
size = 256 * 2 ^ 20

abbrev pool : VmPool
pool = initial_tables base size

pool-IsPartition : IsPartition pool
pool-IsPartition = initial_tables-IsPartition base size (omega arith) (omega arith)

-- The page table here is the list of the pages that were freed, the latest first.
abbrev log : ℕ → List ℕ → List ℕ
log a as_yet = a ∷ as_yet

two_pages : address (allocate pool 5000).0 ≡ base + 8192
unfolding allocate initial_tables round_up carve first_index
two_pages = refl

freed_pages :
    (release log (allocate pool 5000).1 (base + 8192) []).2 ≡ (base + 12288) ∷ (base + 8192) ∷ []
unfolding release give_back free_pages allocate initial_tables round_up carve first_index
freed_pages = refl

allocate_lem_example : Allocate.Explains pool 5000 (allocate pool 5000)
allocate_lem_example = allocate_lem pool pool-IsPartition 5000

release_lem_example :
    Release.Explains log
      (allocate pool 5000).1
      (base + 8192)
      []
      (release log (allocate pool 5000).1 (base + 8192) [])
unfolding allocate initial_tables round_up carve first_index
release_lem_example =
    release_lem log (allocate pool 5000).1 (base + 8192) []
      (allocated-IsPartition pool 5000 (allocate pool 5000) pool-IsPartition
        (allocate_lem pool pool-IsPartition 5000))
      refl

granted : (allocate pool 5000).0 ≡ done (base + 8192)
unfolding allocate initial_tables round_up carve first_index
granted = refl

second_unused : (entry (allocate pool 5000).1.free 1).size ≡ 0
unfolding allocate initial_tables round_up carve first_index
second_unused = refl

release-allocate_example :
    Returned log pool
      (pages (round_up 5000))
      (base + 8192)
      []
      (release log (allocate pool 5000).1 (base + 8192) [])
release-allocate_example =
    release-allocate log pool 5000 (base + 8192) 1 [] pool-IsPartition granted (omega arith)
      second_unused

-- An allocation, then its release.
abbrev pool_history :
    Reachable log
      (pool, [])
      (
        (release log (allocate pool 5000).1 (base + 8192) []).1,
        (release log (allocate pool 5000).1 (base + 8192) []).2,
      )
unfolding allocate initial_tables round_up carve first_index
pool_history = next (next start (allocation 5000 refl)) (deallocation (base + 8192) refl refl)

Reachable-IsPartition_example : IsPartition (release log (allocate pool 5000).1 (base + 8192) []).1
Reachable-IsPartition_example = Reachable-IsPartition log pool-IsPartition pool_history
