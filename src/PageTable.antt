-- ===== src/PageTable.antt =====
-- The paging of page_table.C. The memory holds words of 32 bits, by physical address; the processor
-- translates logical ones, `mmu memory cr3 address`. Neither the bitmaps of the frame pools nor the
-- regions of the virtual pools are part of this memory.
pub mod Recursive
pub mod Directory
pub mod Fault
pub mod Handle
pub mod Outcome
pub mod Return
pub mod Control
pub mod Access
pub mod Boot
mod Tests
use multi_process.Base.{
  ℕ, zero, suc, ◌+◌, ◌-◌, ◌*◌, ◌/◌, ◌%◌, ◌^◌, Bool, true, false, ◌||◌, List, [], ◌∷◌, ◌==◌,
  if◌then◌else◌, update, word,
}
use multi_process.ContFramePool
use multi_process.ContFramePool.{ContFramePool}
use multi_process.VmPool
use multi_process.VmPool.{VmPool}

abbrev pub page_size : ℕ
page_size = 4096

abbrev pub entries_per_page : ℕ
entries_per_page = 1024

abbrev pub kernel_mem_limit : ℕ
kernel_mem_limit = 2 ^ 30

abbrev pub kernel_pde_limit : ℕ
kernel_pde_limit = 256

abbrev pub Memory : Type 0
Memory = ℕ → ℕ

-- `class PageTable`: the address of the directory, and the list `head_pool` of pools by their
-- addresses.
pub record PageTable : Type 0 where
  pub page_directory : ℕ
  pub pools : List ℕ

-- An entry for a frame: `| 3` on a multiple of the page size.
unfoldable pub entry : ℕ → ℕ
entry frame_no = page_size * frame_no % word + 3

-- The entry of an absent page, `0 | 2`.
abbrev pub absent : ℕ
absent = 2

unfoldable pub is_present : ℕ → Bool
is_present e = e % 2 == 1

-- `& ~0xFFF`
unfoldable pub frame_of : ℕ → ℕ
frame_of e = e / page_size * page_size

unfoldable pub pde_address : ℕ → ℕ → ℕ
pde_address page_directory addr = page_directory + 4 * (addr / 2 ^ 22 % 2 ^ 10)

-- The window of 4 MB below the limit of the kernel's memory; `addr >> 10` is below 2 ^ 22, so it
-- has no bit in common with the start of the window and `|` is a sum. `& ~0x3` clears two bits.
unfoldable pub pte_address : ℕ → ℕ
pte_address addr = (kernel_mem_limit - 4 * 2 ^ 20 + addr % word / 2 ^ 10) / 4 * 4

-- The loop that stores `f i` at `at + 4 * i` for the `n` entries from the first on.
unfoldable pub fill : ℕ → (ℕ → ℕ) → ℕ → Memory → Memory
fill at f zero m = m
fill at f (suc n) m = update (fill at f n m) (at + 4 * n) (f n)

-- The loop that copies the `n` first entries.
unfoldable pub copy : ℕ → ℕ → ℕ → Memory → Memory
copy at from zero m = m
copy at from (suc n) m = let m' = copy at from n m in update m' (at + 4 * n) (m' (from + 4 * n))

-- The loop over the entries of the kernel's half: a table for each, all of its pages absent.
unfoldable pub kernel_tables : ℕ → ℕ → ContFramePool × Memory → ContFramePool × Memory
unfolding fill entry
kernel_tables directory zero s = s
kernel_tables directory (suc n) s =
    let (process_mem_pool, m) = kernel_tables directory n s in
    let (frame_no, process_mem_pool') = ContFramePool.get_frames process_mem_pool 1 in
    (
      process_mem_pool',
      update (fill (page_size * frame_no % word) (λ _. absent) entries_per_page m)
          (directory + 4 * n) (entry frame_no),
    )

-- The first 4 MB mapped to themselves, the entries behind the kernel's half absent, and the
-- directory as its own last table of the kernel's half.
unfoldable pub map_first : ℕ → Memory → Memory
unfolding fill frame_of
map_first directory m =
    let mapped = fill (frame_of (m directory)) (λ i. page_size * i + 3) entries_per_page m in
    let closed =
      fill (directory + 4 * kernel_pde_limit) (λ _. absent) (entries_per_page - kernel_pde_limit)
        mapped in
    update closed (directory + 4 * (kernel_pde_limit - 1)) (directory + 3)

-- The constructor of the first page table.
unfoldable pub construct_kernel : ℕ → ContFramePool × Memory → ContFramePool × Memory
unfolding kernel_tables map_first
construct_kernel directory s =
    let (process_mem_pool, m) = kernel_tables directory kernel_pde_limit s in
    (process_mem_pool, map_first directory m)

-- The constructor of any later one.
unfoldable pub construct_user : ℕ → ℕ → Memory → Memory
unfolding copy
construct_user kernel_page_directory directory m =
    update (copy directory kernel_page_directory kernel_pde_limit m)
      (directory + 4 * (kernel_pde_limit - 1)) (directory + 3)

-- `register_pool`; the kernel's page table has its list, `kernel_head_pool`, in the static part.
unfoldable pub register_pool : Bool → ℕ → List ℕ → PageTable → List ℕ × PageTable
register_pool is_kernel vm_pool kernel_pools t =
    if is_kernel
    then (vm_pool ∷ kernel_pools, t)
    else (kernel_pools, record { page_directory = t.page_directory; pools = vm_pool ∷ t.pools })

-- The search of a list of pools. The objects of the pools are found by their address.
unfoldable pub found_pool : (ℕ → VmPool) → ℕ → List ℕ → Bool
found_pool pool_at addr [] = false
found_pool pool_at addr (ptr ∷ next) =
    VmPool.is_legitimate (pool_at ptr) addr || found_pool pool_at addr next

-- How a fault ends.
pub data FaultResult : Type 0 where
  protection_fault : FaultResult
  invalid_fault : FaultResult
  handled : FaultResult

module _ (mmu : Memory → ℕ → ℕ → ℕ) where
  -- A read and a write of the word at a logical address.
  abbrev pub load_word : Memory → ℕ → ℕ → ℕ
  load_word m cr3 addr = m (mmu m cr3 addr)

  abbrev pub store_word : Memory → ℕ → ℕ → ℕ → Memory
  store_word m cr3 addr v = update m (mmu m cr3 addr) v

  -- The loop that stores `absent` in a table of pages, through its logical address.
  unfoldable pub clear_table : ℕ → ℕ → ℕ → Memory → Memory
  clear_table cr3 page_table zero m = m
  clear_table cr3 page_table (suc n) m =
      let m' = clear_table cr3 page_table n m in store_word m' cr3 (page_table + 4 * n) absent

  -- A new table for the address, entered in the directory of the current page table and cleared
  -- through the window of the one in the register: `& ~((1 << 22) - 1)` clears the low 22 bits.
  unfoldable pub make_table : ℕ → ℕ → ℕ → ContFramePool × Memory → ContFramePool × Memory
  unfolding entry pde_address pte_address clear_table
  make_table cr3 directory addr (process_mem_pool, m) =
      let (frame_no, process_mem_pool') = ContFramePool.get_frames process_mem_pool 1 in
      let m' = store_word m cr3 (pde_address directory addr) (entry frame_no) in
      (
        process_mem_pool',
        clear_table cr3 (pte_address (addr / 2 ^ 22 * 2 ^ 22)) entries_per_page m',
      )

  -- The directory fault.
  unfoldable pub directory_fault : ℕ → ℕ → ℕ → ContFramePool × Memory → ContFramePool × Memory
  unfolding is_present pde_address make_table
  directory_fault cr3 directory addr s =
      if is_present (load_word s.1 cr3 (pde_address directory addr))
      then s
      else make_table cr3 directory addr s

  -- The page fault; the entry is stored without its low bits first.
  unfoldable pub page_fault : ℕ → ℕ → ContFramePool × Memory → ContFramePool × Memory
  unfolding is_present entry pte_address
  page_fault cr3 addr (process_mem_pool, m) =
      let pte = pte_address addr in
      if is_present (load_word m cr3 pte)
      then (process_mem_pool, m)
      else (let (frame_no, process_mem_pool') = ContFramePool.get_frames process_mem_pool 1 in
          let m' = store_word m cr3 pte (page_size * frame_no % word) in
          (process_mem_pool', store_word m' cr3 pte (load_word m' cr3 pte + 3)))

  -- `handle_fault`; `current` is the current page table. The register `cr3` can hold the directory of
  -- another one, as when a thread runs for the first time.
  unfoldable pub handle_fault :
      (ℕ → VmPool)
      → List ℕ
      → PageTable
      → ℕ
      → ℕ
      → ℕ
      → ContFramePool × Memory
      → FaultResult × (ContFramePool × Memory)
  unfolding found_pool directory_fault page_fault
  handle_fault pool_at kernel_pools current cr3 err_code fault_addr s =
      if err_code % 2 == 1
      then (protection_fault, s)
      else if found_pool pool_at fault_addr kernel_pools
          || found_pool pool_at fault_addr (current.pools)
      then (
        handled,
        page_fault cr3 fault_addr (directory_fault cr3 (current.page_directory) fault_addr s),
      )
      else (invalid_fault, s)

  -- `free_page` of the page table whose directory is `this`, while `cr3` is loaded; the pools are
  -- the ones the release searches. It ends with `load`, which makes `this` the one loaded.
  unfoldable pub free_page :
      ℕ → ℕ → ℕ × (List ContFramePool × Memory) → ℕ × (List ContFramePool × Memory)
  unfolding is_present pte_address
  free_page this page_no (cr3, (pools, m)) =
      let addr = pte_address page_no in
      if is_present (load_word m cr3 addr)
      then (
        this,
        (
          (ContFramePool.release_frames pools (load_word m cr3 addr / page_size)).1,
          store_word m cr3 addr absent,
        ),
      )
      else (cr3, (pools, m))
