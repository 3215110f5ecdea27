-- ===== src/Heap.antt =====
-- The operators new and delete of kernel.C.
use multi_process.Base.{ℕ}
use multi_process.VmPool
use multi_process.VmPool.{VmPool}

-- `operator new` and `operator new[]` on the pool that MEMORY_POOL points to; 0 if the pool refuses.
unfoldable pub operator_new : VmPool → ℕ → ℕ × VmPool
operator_new memory_pool size =
    let (a, memory_pool') = VmPool.allocate memory_pool size in (VmPool.address a, memory_pool')

-- `operator delete` and `operator delete[]`; the outcome is not looked at.
unfoldable pub operator_delete : {Pt : Type 0} → (ℕ → Pt → Pt) → VmPool → ℕ → Pt → VmPool × Pt
operator_delete free_page memory_pool p pt =
    let (_, memory_pool', pt') = VmPool.release free_page memory_pool p pt in (memory_pool', pt')
