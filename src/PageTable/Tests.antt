-- ===== src/PageTable/Tests.antt =====
-- The paging theorems at a directory in frame 2, whose first table is in frame 3.
use multi_process.Base.{
  ℕ, ◌+◌, ◌-◌, ◌*◌, ◌/◌, ◌%◌, ◌^◌, ◌<◌, ◌≤◌, ◌≡◌, ◌≢◌, refl, [], ◌∷◌, ◌++◌, ◌⊎◌, inl, arith, false,
  ltb, leb, ◌&&◌, ◌==◌, if◌then◌else◌,
}
use multi_process.ContFramePool
use multi_process.ContFramePool.{ContFramePool}
use multi_process.VmPool
use multi_process.VmPool.{VmPool}
use multi_process.PageTable.{
  Memory, PageTable, page_size, is_present, frame_of, found_pool, handle_fault, handled,
  pte_address, page_fault, free_page, construct_user, construct_kernel,
}
use multi_process.PageTable.Recursive.{Walks, Closed, slot, mmu-pte_address}
use multi_process.PageTable.Directory.{Mapped, construct_user_lem}
use multi_process.PageTable.Fault.{Ready, Apart}
use multi_process.PageTable.Boot.{Behind, construct_kernel-Mapped}
use multi_process.PageTable.Return.{Vacated, free_page-page_fault}
use multi_process.ContFramePool.Boot.{construct-Fresh}
use multi_process.ContFramePool.Chain.{SameFrames}
use multi_process.PageTable.Handle.{Direct}
use multi_process.PageTable.Outcome.{handle_fault-page, handle_fault-table}

-- A processor that walks the tables, and answers 0 where it would fault.
abbrev walk : Memory → ℕ → ℕ → ℕ
walk m cr3 addr =
    if is_present (m (cr3 + 4 * (addr / 2 ^ 22)))
    then if is_present (m (frame_of (m (cr3 + 4 * (addr / 2 ^ 22))) + 4 * (addr / 2 ^ 12 % 2 ^ 10)))
      then frame_of (m (frame_of (m (cr3 + 4 * (addr / 2 ^ 22))) + 4 * (addr / 2 ^ 12 % 2 ^ 10)))
        + addr % 2 ^ 12
      else 0
    else 0

walk-Walks : Walks walk
walk-Walks m cr3 addr small first second = rw (first, second) refl

abbrev directory : ℕ
directory = 8192

-- Entry 0 of the directory is the table in frame 3, entry 255 the directory, and entry 128 the
-- table in frame 4, without pages.
abbrev memory : Memory
memory x =
    if leb 12288 x && ltb x 16384
    then (x - 12288) / 4 * 4096 + 3
    else if x == 8192
    then 12288 + 3
    else if x == 9212
    then 8192 + 3
    else if x == 8704
    then 16384 + 3
    else 2

abbrev frames : ContFramePool
frames = ContFramePool.construct (λ _. 0xff) 8 8 2

-- A pool at 512 MB and one at 1 GB.
abbrev pool_at : ℕ → VmPool
pool_at p = VmPool.initial_tables (p * 2 ^ 29) (2 ^ 26)

abbrev current : PageTable
current = record { page_directory = directory; pools = 2 ∷ [] }

closed : Closed memory directory
closed = record { aligned = refl; itself = refl }

direct : Direct memory directory
unfolding frame_of is_present
direct = record { low = omega arith; present = refl; identity = λ i lt. ground arith }

mmu-pte_address_example :
    walk memory directory (pte_address (2 ^ 29 + 5000)) ≡ slot memory directory (2 ^ 29 + 5000)
unfolding is_present
mmu-pte_address_example =
    mmu-pte_address walk walk-Walks memory directory (2 ^ 29 + 5000) closed (omega arith) refl

memory-Ready : (addr : ℕ) → addr < 2 ^ 29 + 2 ^ 22 → 2 ^ 29 ≤ addr → Ready memory directory addr
memory-Ready addr lt le = record {
  closed = closed;
  small = omega arith;
  outside = λ e. omega arith;
}

apart : Apart directory (memory (directory + 4 * 128))
unfolding is_present frame_of
apart = record { present = refl; table = λ e. omega arith }

-- an address of the pool at 1 GB, which has no table yet
user-Ready : Ready memory directory (2 ^ 30 + 5000)
user-Ready = record { closed = closed; small = omega arith; outside = λ e. omega arith }

granted : (ContFramePool.get_frames frames 1).0 ≡ 8
unfolding ContFramePool.construct ContFramePool.initial_pool ContFramePool.reserve_info
    ContFramePool.set_states ContFramePool.set_state ContFramePool.read_byte
    ContFramePool.write_byte ContFramePool.get_state ContFramePool.needed_info_frames
    ContFramePool.scan ContFramePool.take_frames ContFramePool.get_frames
granted = refl

granted_next : (ContFramePool.get_frames (ContFramePool.get_frames frames 1).1 1).0 ≡ 9
unfolding ContFramePool.construct ContFramePool.initial_pool ContFramePool.reserve_info
    ContFramePool.set_states ContFramePool.set_state ContFramePool.read_byte
    ContFramePool.write_byte ContFramePool.get_state ContFramePool.needed_info_frames
    ContFramePool.scan ContFramePool.take_frames ContFramePool.get_frames
granted_next = refl

handle_fault-page_example :
    (m' : Memory) × (handle_fault walk pool_at
        (1 ∷ [])
        current
        current.page_directory
        2
        (2 ^ 29 + 5000)
        (frames, memory)
      ≡ (handled, ((ContFramePool.get_frames frames 1).1, m')))
    × (walk m' directory (2 ^ 29 + 5000)
        ≡ page_size * (ContFramePool.get_frames frames 1).0 + (2 ^ 29 + 5000) % page_size)
    × ((x : ℕ) → slot memory directory (2 ^ 29 + 5000) ≢ x → m' x ≡ memory x)
unfolding is_present frame_of found_pool VmPool.is_legitimate VmPool.initial_tables
    VmPool.in_some_region
handle_fault-page_example =
    handle_fault-page walk walk-Walks pool_at (1 ∷ []) current 2 (2 ^ 29 + 5000) frames memory refl
      refl (memory-Ready (2 ^ 29 + 5000) (omega arith) (omega arith)) direct apart refl
      (omega (arith, granted))

handle_fault-table_example :
    (m' : Memory) × (handle_fault walk pool_at
        (1 ∷ [])
        current
        current.page_directory
        2
        (2 ^ 30 + 5000)
        (frames, memory)
      ≡ (handled, ((ContFramePool.get_frames (ContFramePool.get_frames frames 1).1 1).1, m')))
    × (walk m' directory (2 ^ 30 + 5000)
        ≡ page_size * (ContFramePool.get_frames (ContFramePool.get_frames frames 1).1 1).0
          + (2 ^ 30 + 5000) % page_size)
unfolding is_present frame_of found_pool VmPool.is_legitimate VmPool.initial_tables
    VmPool.in_some_region
handle_fault-table_example =
    handle_fault-table walk walk-Walks pool_at (1 ∷ []) current 2 (2 ^ 30 + 5000) frames memory refl
      refl user-Ready direct refl (omega (arith, granted)) (λ e. omega (arith, granted, e))
      (omega (arith, granted_next))

construct_user_lem_example :
    ((i : ℕ)
      → i < 255
      → construct_user directory 32768 memory (32768 + 4 * i) ≡ memory (directory + 4 * i))
    × (construct_user directory 32768 memory (32768 + 4 * 255) ≡ 32768 + 3)
    × ((i : ℕ)
        → 256 ≤ i
        → construct_user directory 32768 memory (32768 + 4 * i) ≡ memory (32768 + 4 * i))
    × ((x : ℕ)
        → (x < 32768) ⊎ (32768 + page_size ≤ x)
        → construct_user directory 32768 memory x ≡ memory x)
construct_user_lem_example = construct_user_lem directory 32768 memory (inl (omega arith))

vacant : is_present (memory (slot memory directory (2 ^ 29 + 5000))) ≡ false
unfolding is_present frame_of
vacant = refl

free_page-page_fault_example :
    (q : ContFramePool) × (m' : Memory) × (free_page walk 7 (2 ^ 29 + 5000) (
      directory,
      (
        [] ++ ((page_fault walk directory (2 ^ 29 + 5000) (frames, memory)).0 ∷ []),
        (page_fault walk directory (2 ^ 29 + 5000) (frames, memory)).1,
      ),
    )
      ≡ (7, ([] ++ (q ∷ []), m')))
    × SameFrames frames q
    × Vacated memory (slot memory directory (2 ^ 29 + 5000)) m'
free_page-page_fault_example =
    free_page-page_fault walk walk-Walks memory 7 directory (2 ^ 29 + 5000) [] [] frames
      (memory-Ready (2 ^ 29 + 5000) (omega arith) (omega arith)) apart vacant
      (construct-Fresh (λ _. 0xff) 8 8 2 (λ i. omega arith) (omega arith) (omega arith)).1
      (omega (arith, granted)) (omega (arith, granted)) tt

-- The pool at 1 GB, at the address 9, when it has granted two pages.
abbrev granting : ℕ → VmPool
granting p = (VmPool.allocate (pool_at 2) 5000).1

-- Eight frames from 8 on, behind the directory in frame 2.
behind : Behind directory frames
behind = record {
  usable =
      (construct-Fresh (λ _. 0xff) 8 8 2 (λ i. omega arith) (omega arith) (omega arith)).1.usable;
  low = omega arith;
  high = frames_at.0;
  placed = frames_at.1;
}
  where
    frames_at :
        (directory + page_size ≤ page_size * frames.base_frame_no)
        × (frames.base_frame_no + frames.nframes ≤ 2 ^ 20)
    frames_at =
        let f =
          (construct-Fresh (λ _. 0xff) 8 8 2 (λ i. omega arith) (omega arith) (omega arith)).0 in
        (omega (arith, f.at), omega (arith, f.at, f.size))

-- With eight frames the pool runs out of them before the last of the 256 tables.
construct_kernel-Mapped_example :
    Mapped directory (construct_kernel directory (frames, memory)).1
    × Closed (construct_kernel directory (frames, memory)).1 directory
    × Direct (construct_kernel directory (frames, memory)).1 directory
    × ((addr : ℕ)
        → addr < 2 ^ 22
        → walk (construct_kernel directory (frames, memory)).1 directory addr ≡ addr)
construct_kernel-Mapped_example =
    construct_kernel-Mapped walk walk-Walks directory frames memory refl (omega arith) behind
