-- ===== src/Kernel.antt =====
-- The kernel's main program in kernel.C: the layout of physical memory, the frame pools at boot, the
-- output of the threads' functions, and the start of the threads.
pub mod Boot
pub mod Output
mod TestThreads
pub mod Threads
pub mod Multitasking
pub mod Held
pub mod Conserved
pub mod Served
pub mod Nested
pub mod Started
pub mod Stock
pub mod Exit
pub mod Life
pub mod Sound
pub mod Reclaim
pub mod Returns
mod History
pub mod SetUp
pub mod Main
pub mod Objects
pub mod Creation
pub mod Ownership
pub mod Handlers
pub mod Paging
mod Tests
use multi_process.Base.{ℕ, zero, suc, ◌+◌, ◌*◌, ◌/◌, ◌%◌, ◌^◌, word, List, [], ◌∷◌, ◌++◌, Option}
use multi_process.Base.Int.{pos}
use multi_process.ContFramePool
use multi_process.ContFramePool.{ContFramePool}
use multi_process.Console.{Console, puts}
use multi_process.Console.Format.{puti}
use multi_process.PageTable
use multi_process.PageTable.{Memory}
use multi_process.Scheduler
use multi_process.Scheduler.{Scheduler, ◌>>=◌}

abbrev pub page_size : ℕ
page_size = 4096

abbrev pub mb : ℕ
mb = 2 ^ 20

abbrev pub kernel_pool_start_frame : ℕ
kernel_pool_start_frame = 2 * mb / page_size

abbrev pub kernel_pool_size : ℕ
kernel_pool_size = 2 * mb / page_size

abbrev pub process_pool_start_frame : ℕ
process_pool_start_frame = 4 * mb / page_size

abbrev pub process_pool_size : ℕ
process_pool_size = 28 * mb / page_size

abbrev pub mem_hole_start_frame : ℕ
mem_hole_start_frame = 15 * mb / page_size

abbrev pub mem_hole_size : ℕ
mem_hole_size = 1 * mb / page_size

-- The two frame pools, as `main` makes them; `memory` is the memory before. The bitmaps stand in
-- different frames.
unfoldable pub boot_pools : (ℕ → ℕ) → ContFramePool × ContFramePool
boot_pools memory =
    let kernel_mem_pool =
      ContFramePool.construct memory kernel_pool_start_frame kernel_pool_size 0 in
    let n_info_frames = ContFramePool.needed_info_frames process_pool_size in
    let (process_mem_pool_info_frame, kernel_mem_pool') =
      ContFramePool.get_frames kernel_mem_pool n_info_frames in
    let process_mem_pool =
      ContFramePool.construct memory process_pool_start_frame process_pool_size
        process_mem_pool_info_frame in
    (
      kernel_mem_pool',
      ContFramePool.mark_inaccessible process_mem_pool mem_hole_start_frame mem_hole_size,
    )

-- The first page table of `main`, `PageTable pt1`: its directory is in a frame of the kernel's pool.
-- `m` is the memory of the tables. The result is the address of the directory, the pools and the
-- memory.
unfoldable pub boot_paging :
    ContFramePool × ContFramePool → Memory → ℕ × ContFramePool × ContFramePool × Memory
boot_paging (kernel_mem_pool, process_mem_pool) m =
    let (frame_no, kernel_mem_pool') = ContFramePool.get_frames kernel_mem_pool 1 in
    let page_directory = page_size * frame_no % word in
    let (process_mem_pool', m') = PageTable.construct_kernel page_directory (process_mem_pool, m) in
    (page_directory, kernel_mem_pool', process_mem_pool', m')

-- `pass_on_CPU`, where both the scheduler and round robin are compiled in: its body is empty.
unfoldable pub pass_on_cpu : {S : Type 0} → S → S
pass_on_cpu s = s

-- The name that the function of thread `digit` prints, "FUN 1" to "FUN 4".
abbrev pub fun_name : ℕ → List ℕ
fun_name digit = b'F' ∷ b'U' ∷ b'N' ∷ b' ' ∷ digit ∷ []

-- ": TICK ["
abbrev pub tick_text : List ℕ
tick_text = b':' ∷ b' ' ∷ b'T' ∷ b'I' ∷ b'C' ∷ b'K' ∷ b' ' ∷ b'[' ∷ []

-- " IN BURST["
abbrev pub burst_text : List ℕ
burst_text = b' ' ∷ b'I' ∷ b'N' ∷ b' ' ∷ b'B' ∷ b'U' ∷ b'R' ∷ b'S' ∷ b'T' ∷ b'[' ∷ []

-- " INVOKED!\n"
abbrev pub invoked_text : List ℕ
invoked_text = b' ' ∷ b'I' ∷ b'N' ∷ b'V' ∷ b'O' ∷ b'K' ∷ b'E' ∷ b'D' ∷ b'!' ∷ 10 ∷ []

-- "Thread: "
abbrev pub thread_text : List ℕ
thread_text = b'T' ∷ b'h' ∷ b'r' ∷ b'e' ∷ b'a' ∷ b'd' ∷ b':' ∷ b' ' ∷ []

-- "]\n"
abbrev pub close_text : List ℕ
close_text = b']' ∷ 10 ∷ []

-- The inner loop, from `i` on; `n` rounds are left.
unfoldable pub ticks : ℕ → ℕ → ℕ → Console → Console
ticks digit zero i c = c
ticks digit (suc n) i c =
    ticks digit n (i + 1) (puts (puti (puts c (fun_name digit ++ tick_text)) (pos i)) close_text)

-- The outer loop, from burst `j` on, for `n` bursts. `j` is an `int`, which holds no more than 2 ^ 31
-- bursts; beyond, the source overflows.
unfoldable pub bursts : ℕ → ℕ → ℕ → Console → Console
unfolding ticks pass_on_cpu
bursts digit zero j c = c
bursts digit (suc n) j c = bursts digit n (j + 1) (
    pass_on_cpu
      (ticks digit 10 0 (puts (puti (puts c (fun_name digit ++ burst_text)) (pos j)) close_text)))

-- The functions `fun1` to `fun4`, up to burst `n`: the first two return behind burst 10, the others
-- go on for ever.
unfoldable pub fun_prefix : ℕ → ℕ → ℕ → Console → Console
unfolding bursts
fun_prefix digit thread_id n c = bursts digit n 0 (
    puts (puts (puti (puts c thread_text) (pos thread_id)) (10 ∷ []))
      (fun_name digit ++ invoked_text))

unfoldable pub fun1 : ℕ → Console → Console
unfolding fun_prefix
fun1 thread_id c = fun_prefix b'1' thread_id 10 c

unfoldable pub fun2 : ℕ → Console → Console
unfolding fun_prefix
fun2 thread_id c = fun_prefix b'2' thread_id 10 c

-- `main` from the enabling of the interrupts on, on the scheduler it has made: three threads are
-- added and the first is dispatched, which begins in `thread_start`.
unfoldable pub start_threads : ℕ → ℕ → ℕ → ℕ → Scheduler → Option Scheduler
start_threads thread1 thread2 thread3 thread4 s = Scheduler.enable_interrupts s >>= λ s1.
    Scheduler.add s1 thread2 >>= λ s2. Scheduler.add s2 thread3 >>= λ s3.
    Scheduler.add s3 thread4 >>= λ s4. Scheduler.thread_start (Scheduler.dispatch_to s4 thread1)
