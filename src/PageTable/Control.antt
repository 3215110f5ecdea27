-- ===== src/PageTable/Control.antt =====
-- The static part of class PageTable in page_table.C, with the control registers: the set-up of
-- paging, and the loading of page tables.
use multi_process.Base.{ℕ, ◌+◌, ◌/◌, ◌%◌, ◌^◌, ◌<◌, ◌≡◌, refl, word, arith}
use multi_process.PageTable.{PageTable}

-- The pools and the page tables are addresses of objects.
pub record Control : Type 0 where
  pub current_page_table : ℕ
  pub kernel_mem_pool : ℕ
  pub process_mem_pool : ℕ
  pub shared_size : ℕ
  pub paging_enabled : ℕ
  pub cr0 : ℕ
  pub cr3 : ℕ

unfoldable pub init_paging : ℕ → ℕ → ℕ → Control → Control
init_paging kernel_mem_pool process_mem_pool shared_size c = record c {
  kernel_mem_pool = kernel_mem_pool;
  process_mem_pool = process_mem_pool;
  shared_size = shared_size;
}

-- `load` of the page table `t` at the address `this`.
unfoldable pub load : ℕ → PageTable → Control → Control
load this t c = record c { current_page_table = this; cr3 = t.page_directory }

-- `| 0x80000000` sets the highest of the 32 bits.
unfoldable pub enable_paging : Control → Control
enable_paging c = record c { paging_enabled = 1; cr0 = c.cr0 % 2 ^ 31 + 2 ^ 31 }

-- The set-up in the order of `main`: the page table and its directory are in force, paging is on,
-- and the other bits of the register cr0 are as before.
enable_paging-load :
    (kernel process shared this : ℕ) (t : PageTable) (c : Control)
    → c.cr0 < word
    → let c' = enable_paging (load this t (init_paging kernel process shared c)) in
      (c'.current_page_table ≡ this)
      × (c'.cr3 ≡ t.page_directory)
      × (c'.process_mem_pool ≡ process)
      × (c'.cr0 / 2 ^ 31 ≡ 1)
      × (c'.cr0 % 2 ^ 31 ≡ c.cr0 % 2 ^ 31)
      × (c'.cr0 < word)
unfolding enable_paging load init_paging
enable_paging-load kernel process shared this t c small =
    (refl, refl, refl, omega arith, omega arith, omega arith)
