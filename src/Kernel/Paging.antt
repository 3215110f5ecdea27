-- ===== src/Kernel/Paging.antt =====
-- The first page table that main makes, on the pools that it has made.
use multi_process.Base.{ℕ, ◌*◌, ◌%◌, ◌^◌, ◌<◌, ◌≡◌, word, arith}
use multi_process.ContFramePool
use multi_process.ContFramePool.{ContFramePool}
use multi_process.PageTable.{Memory}
use multi_process.PageTable.Recursive.{Walks, Closed}
use multi_process.PageTable.Directory.{Mapped}
use multi_process.PageTable.Handle.{Direct}
use multi_process.PageTable.Boot.{Behind, construct_kernel-Mapped}
use multi_process.Kernel.{page_size, boot_pools, boot_paging}
use multi_process.Kernel.Boot.{Booted, boot_pools-Booted, get_frames-first}

-- A directory that is its own table, under which the first 4 MB are mapped to themselves.
pub record Paged (mmu : Memory → ℕ → ℕ → ℕ) (d : ℕ) (m : Memory) : Type 0 where
  pub at : d ≡ page_size * 514
  pub mapped : Mapped d m
  pub closed : Closed m d
  pub direct : Direct m d
  pub identity : (addr : ℕ) → addr < 2 ^ 22 → mmu m d addr ≡ addr

module _ (mmu : Memory → ℕ → ℕ → ℕ) (walks : Walks mmu) where
  -- The third frame of the kernel's pool is the first free one.
  directory_frame :
      (kernel process : ContFramePool)
      → Booted kernel process
      → (ContFramePool.get_frames kernel 1).0 ≡ 514
  directory_frame kernel process b =
      let (base, size) = b.kernel_place in
      let g =
        get_frames-first kernel 2 b.kernel_valid (omega (arith, size))
          (λ g lt e. ground (arith, b.kernel_states g)) (ground (arith, b.kernel_states 2)) in
      omega (arith, g.frame, base)

  Booted-Paged :
      (kernel process : ContFramePool) (m : Memory)
      → Booted kernel process
      → let r = boot_paging (kernel, process) m in Paged mmu r.0 r.3
  unfolding boot_paging
  Booted-Paged kernel process m b =
      let at = directory_frame kernel process b in
      let d = page_size * (ContFramePool.get_frames kernel 1).0 % word in
      let here : d ≡ page_size * 514 = omega (arith, at) in
      let (base, size) = b.process_place in
      let behind : Behind d process = record {
        usable = b.process_valid;
        low = omega (arith, here);
        high = omega (arith, here, base);
        placed = omega (arith, base, size);
      } in
      let (mapped, closed, direct, identity) =
        construct_kernel-Mapped mmu walks d process m (omega (arith, here)) (omega (arith, here))
          behind in
      record { at = here; mapped = mapped; closed = closed; direct = direct; identity = identity }

  -- Whatever the memory held, the first page table that `main` makes has its directory in frame
  -- 514, is its own last table of the kernel's half, and maps the first 4 MB, where the kernel is, to
  -- themselves.
  pub boot_paging-Paged :
      (memory : ℕ → ℕ) (m : Memory)
      → ((i : ℕ) → memory i < 256)
      → let r = boot_paging (boot_pools memory) m in Paged mmu r.0 r.3
  boot_paging-Paged memory m bytes =
      Booted-Paged (boot_pools memory).0 (boot_pools memory).1 m (boot_pools-Booted memory bytes)
