-- ===== src/PageTable/Outcome.antt =====
-- How handle_fault ends.
use multi_process.Base.{
  ℕ, ◌+◌, ◌*◌, ◌/◌, ◌%◌, ◌^◌, ◌<◌, ◌≡◌, ◌≢◌, sym, ap, ◌∙◌, true, false, List, word, arith, ◌||◌,
  update,
}
use multi_process.ContFramePool
use multi_process.ContFramePool.{ContFramePool}
use multi_process.VmPool.{VmPool}
use multi_process.PageTable.{
  Memory, PageTable, page_size, entry, absent, is_present, frame_of, pde_address, fill,
  directory_fault, page_fault, handle_fault, found_pool, handled,
}
use multi_process.PageTable.Recursive.{Walks, slot}
use multi_process.PageTable.Directory.{update_self, update_other, fill-outside, fill-inside}
use multi_process.PageTable.Fault.{
  Ready, Apart, with_page, page_fault_lem, with_page-mmu, entry_lem,
}
use multi_process.PageTable.Handle.{Direct, mmu-pde_address, make_table_lem, with_table, page_apart}

module _ (mmu : Memory → ℕ → ℕ → ℕ) (walks : Walks mmu) where
  with_table-Ready :
      (m : Memory) (d addr f : ℕ)
      → Ready m d addr
      → f < 2 ^ 20
      → page_size * f ≢ d
      → Ready (with_table mmu walks m d addr f) d addr
        × (with_table mmu walks m d addr f (d + 4 * (addr / 2 ^ 22)) ≡ entry f)
  with_table-Ready m d addr f r lt ne =
      let c = r.closed in
      let c1 = c.aligned in
      let o = r.outside in
      let small = r.small in
      let x = d + 4 * (addr / 2 ^ 22) in
      let m1 = update m x (entry f) in
      let far : (k : ℕ)
          → k < 1024
          → fill (page_size * f) (λ _. absent) 1024 m1 (d + 4 * k) ≡ m1 (d + 4 * k) =
        λ k h.
          fill-outside (page_size * f) (λ _. absent) 1024 m1 (d + 4 * k)
            (page_apart (page_size * f) d k 1024 (omega arith) c.aligned ne h (omega arith)) in
      (
        record {
          closed = record {
            aligned = c.aligned;
            itself =
                far 255 (omega arith)
                ∙ update_other m x (entry f) (d + 4 * 255) (λ e. o (omega arith))
                ∙ c.itself;
          };
          small = r.small;
          outside = r.outside;
        },
        far (addr / 2 ^ 22) (omega arith) ∙ update_self m x (entry f),
      )

  -- With the directory of the current page table in the register cr3, which is not so while a thread
  -- runs for the first time: a fault on an address of a registered pool whose page is absent and
  -- whose table is present. The directory lies in the first 4 MB, which are mapped to themselves, is
  -- its own last table of the kernel's half, and does not serve as the table. If
  -- a frame is found, the memory changes at the entry for the page only, and the address leads to
  -- that frame.
  pub handle_fault-page :
      (pool_at : ℕ → VmPool) (kernel_pools : List ℕ) (current : PageTable) (err_code addr : ℕ)
      (p : ContFramePool) (m : Memory)
      → err_code % 2 ≡ 0
      → (found_pool pool_at addr kernel_pools || found_pool pool_at addr current.pools) ≡ true
      → Ready m current.page_directory addr
      → Direct m current.page_directory
      → Apart current.page_directory (m (current.page_directory + 4 * (addr / 2 ^ 22)))
      → is_present (m (slot m current.page_directory addr)) ≡ false
      → (ContFramePool.get_frames p 1).0 < 2 ^ 20
      → (m' : Memory) × (handle_fault mmu pool_at kernel_pools current current.page_directory
            err_code addr
            (p, m)
          ≡ (handled, ((ContFramePool.get_frames p 1).1, m')))
        × (mmu m' current.page_directory addr
            ≡ page_size * (ContFramePool.get_frames p 1).0 + addr % page_size)
        × ((x : ℕ) → slot m current.page_directory addr ≢ x → m' x ≡ m x)
  unfolding handle_fault directory_fault
  handle_fault-page pool_at kp cur err addr p m even found r di a gone lt =
      let d = cur.page_directory in
      let c = r.closed in
      let f = (ContFramePool.get_frames p 1).0 in
      let x = slot m d addr in
      let at : is_present (m (mmu m d (pde_address d addr))) ≡ true =
        ap (λ k. is_present (m k)) (mmu-pde_address mmu walks m d addr di c.aligned r.small)
        ∙ a.present in
      (
        with_page mmu walks m d addr f,
        rw (even, found, at)
            (ap (λ k. (handled, k)) (page_fault_lem mmu walks p m d addr r a gone)),
        with_page-mmu mmu walks m d addr f r a lt,
        λ y ne.
            update_other (update m x (page_size * f % word)) x (entry f) y ne
            ∙ update_other m x (page_size * f % word) y ne,
      )

  -- With the directory of the current page table in the register cr3, which is not so while a thread
  -- runs for the first time: a fault on an address of a registered pool whose page and whose table
  -- are absent. The directory lies in the first 4 MB, which are mapped to themselves, and is its own
  -- last table of the kernel's half. If two frames, the first of them not the directory's own,
  -- are found, the first becomes the table, and the address leads to the second.
  pub handle_fault-table :
      (pool_at : ℕ → VmPool) (kernel_pools : List ℕ) (current : PageTable) (err_code addr : ℕ)
      (p : ContFramePool) (m : Memory)
      → err_code % 2 ≡ 0
      → (found_pool pool_at addr kernel_pools || found_pool pool_at addr current.pools) ≡ true
      → Ready m current.page_directory addr
      → Direct m current.page_directory
      → is_present (m (current.page_directory + 4 * (addr / 2 ^ 22))) ≡ false
      → (ContFramePool.get_frames p 1).0 < 2 ^ 20
      → page_size * (ContFramePool.get_frames p 1).0 ≢ current.page_directory
      → (ContFramePool.get_frames (ContFramePool.get_frames p 1).1 1).0 < 2 ^ 20
      → (m' : Memory) × (handle_fault mmu pool_at kernel_pools current current.page_directory
            err_code addr
            (p, m)
          ≡ (handled, ((ContFramePool.get_frames (ContFramePool.get_frames p 1).1 1).1, m')))
        × (mmu m' current.page_directory addr
            ≡ page_size * (ContFramePool.get_frames (ContFramePool.get_frames p 1).1 1).0
              + addr % page_size)
  unfolding handle_fault directory_fault
  handle_fault-table pool_at kp cur err addr p m even found r di gone lt ne lt' =
      let d = cur.page_directory in
      let c = r.closed in
      let f = (ContFramePool.get_frames p 1).0 in
      let p1 = (ContFramePool.get_frames p 1).1 in
      let f' = (ContFramePool.get_frames p1 1).0 in
      let m1 = with_table mmu walks m d addr f in
      let (r1, e) = with_table-Ready m d addr f r lt ne in
      let named : frame_of (m1 (d + 4 * (addr / 2 ^ 22))) ≡ page_size * f =
        ap frame_of e ∙ (entry_lem f lt).0 in
      let a1 : Apart d (m1 (d + 4 * (addr / 2 ^ 22))) = record {
        present = ap is_present e ∙ (entry_lem f lt).1;
        table = λ eq. ne (sym named ∙ eq);
      } in
      let gone1 : is_present (m1 (slot m1 d addr)) ≡ false =
        ap (λ t. is_present (m1 (t + 4 * (addr / 2 ^ 12 % 2 ^ 10)))) named
        ∙ ap is_present (
            fill-inside (page_size * f) (λ _. absent) 1024
              (update m (d + 4 * (addr / 2 ^ 22)) (entry f)) (addr / 2 ^ 12 % 2 ^ 10)
              (omega arith)) in
      let at : is_present (m (mmu m d (pde_address d addr))) ≡ false =
        ap (λ k. is_present (m k)) (mmu-pde_address mmu walks m d addr di c.aligned r.small)
        ∙ gone in
      (
        with_page mmu walks m1 d addr f',
        rw (even, found, at)
            (ap (λ k. (handled, page_fault mmu d addr k))
                (make_table_lem mmu walks p m d addr r di lt ne)
              ∙ ap (λ k. (handled, k)) (page_fault_lem mmu walks p1 m1 d addr r1 a1 gone1)),
        with_page-mmu mmu walks m1 d addr f' r1 a1 lt',
      )
