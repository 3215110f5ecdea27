-- ===== src/Kernel/Main.antt =====
-- The whole of main in kernel.C, as a function of what the compiler and the linker have fixed and of
-- the machine before. The sizes of classes and the addresses of functions and of main's own objects
-- are arguments. The page faults on the way, where memory is touched for the first time, and the
-- ports of the timer are left out.
use multi_process.Base.{ℕ, ◌+◌, ◌*◌, false, [], ◌∷◌, Option, some, update}
use multi_process.ContFramePool.{ContFramePool}
use multi_process.VmPool
use multi_process.VmPool.{VmPool}
use multi_process.PageTable.{Memory}
use multi_process.PageTable.Control.{Control, init_paging, load, enable_paging}
use multi_process.Gdt.{Gdt}
use multi_process.Console.{Console}
use multi_process.Interrupts.{HandlerTable}
use multi_process.Thread.Life
use multi_process.Thread.Life.{World, ThreadObject, construct_process, construct_kernel_thread}
use multi_process.Thread.Switch.{Switch, dispatch_to}
use multi_process.Scheduler.{Scheduler, null, construct_rr, ◌>>=◌}
use multi_process.Kernel.{mb, boot_pools, boot_paging, start_threads}
use multi_process.Kernel.SetUp.{Devices, set_up, register_handlers}

-- `pool`, `pt1`, `kernel_mem_pool` and `process_mem_pool` are the addresses of those objects, and
-- `timer` is the place of the timer within the round robin scheduler.
pub record Linked : Type 0 where
  pub isr : ℕ → ℕ
  pub irq : ℕ → ℕ
  pub thread_shutdown : ℕ
  pub thread_start : ℕ
  pub terminate_thread : ℕ
  pub functions : ℕ → ℕ
  pub dbz_handler : ℕ
  pub pagefault_handler : ℕ
  pub kernel_mem_pool : ℕ
  pub process_mem_pool : ℕ
  pub pt1 : ℕ
  pub pool : ℕ
  pub timer : ℕ
  pub sizeof_rr_scheduler : ℕ
  pub sizeof_thread : ℕ
  pub sizeof_page_table : ℕ
  pub sizeof_vm_pool : ℕ

-- The machine before: the bitmaps' memory, that of the page tables, that of the stacks, and what
-- stands where the objects of class VMPool will be.
pub record BootState : Type 0 where
  pub gdt : Gdt
  pub console : Console
  pub control : Control
  pub bitmaps : ℕ → ℕ
  pub tables : Memory
  pub words : ℕ → ℕ
  pub pools : ℕ → VmPool

-- The kernel when the first thread runs: `page_directory` is that of the first page table, `tables`
-- the memory of the tables when that one is made. `threads` has the addresses and the objects of
-- the control thread, which is 0, and of the threads 1 to 4, and `switch` the page table and the
-- memory pool in force.
pub record Kernel : Type 0 where
  pub devices : Devices
  pub kernel_mem_pool : ContFramePool
  pub process_mem_pool : ContFramePool
  pub tables : Memory
  pub page_directory : ℕ
  pub cr0 : ℕ
  pub switch : Switch
  pub scheduler : Scheduler
  pub threads : ℕ → ℕ × ThreadObject

-- `VMPool pool(512 MB, 256 MB, ...)`, registered at the page table `pt1`, which is in force.
unfoldable pub main_world : Linked → (ℕ → VmPool) → (ℕ → ℕ) → VmPool → World
main_world l pools words pool = record {
  pools = update pools l.pool pool;
  memory_pool = l.pool;
  loaded = l.pt1;
  kernel_page_table = l.pt1;
  next_free_pid = 0;
  memory = words;
  registered = update (λ _. []) l.pt1 (l.pool ∷ []);
  freed = [];
}

-- `new Thread(function, 1024, &MEMORY_POOL, &process_mem_pool)`
unfoldable pub new_thread : Linked → ℕ → World → (ℕ × ThreadObject) × World
unfolding Life.new construct_process
new_thread l function w =
    let (a, w1) = Life.new l.sizeof_thread w in
    let (t, w2) =
      construct_process l.sizeof_page_table l.sizeof_vm_pool l.thread_shutdown l.thread_start
        function 1024 w1 in
    ((a, t), w2)

-- `new RRScheduler(1, &pt1, &MEMORY_POOL)`, with the control thread that it makes.
unfoldable pub new_scheduler : Linked → World → ℕ × (ℕ × ThreadObject) × World
unfolding Life.new construct_kernel_thread
new_scheduler l w =
    let (scheduler, w1) = Life.new l.sizeof_rr_scheduler w in
    let (control_thread, w2) = Life.new l.sizeof_thread w1 in
    let (t, w3) =
      construct_kernel_thread l.thread_shutdown l.thread_start l.terminate_thread 1024 l.pt1 w2 in
    (scheduler, (control_thread, t), w3)

-- The objects that main makes with `new`, in its order.
unfoldable pub main_objects : Linked → World → ℕ × (ℕ → ℕ × ThreadObject) × World
unfolding new_scheduler new_thread
main_objects l w =
    let (scheduler, control_thread, w0) = new_scheduler l w in
    let (thread1, w1) = new_thread l (l.functions 1) w0 in
    let (thread2, w2) = new_thread l (l.functions 2) w1 in
    let (thread3, w3) = new_thread l (l.functions 3) w2 in
    let (thread4, w4) = new_thread l (l.functions 4) w3 in
    (
      scheduler,
      update (update (update (update (λ _. control_thread) 4 thread4) 3 thread3) 2 thread2) 1
          thread1,
      w4,
    )

-- The construction of the scheduler object and what main does with the threads that it has made.
unfoldable pub main_threads :
    Linked → HandlerTable → ℕ → (ℕ → ℕ × ThreadObject) → Option (HandlerTable × Scheduler)
unfolding construct_rr start_threads
main_threads l table scheduler threads =
    let (s, _, registered) = construct_rr 1 (λ _. null) (threads 0).0 (scheduler + l.timer) table in
    registered >>= λ table'.
    start_threads (threads 1).0 (threads 2).0 (threads 3).0 (threads 4).0 s >>= λ s'.
    some (table', s')

-- The threads by their address, before the first dispatch: the register cr3 has the page table that
-- was loaded last.
unfoldable pub main_switch : (ℕ → ℕ × ThreadObject) → World → Switch
main_switch threads w = record {
  world = w;
  thread =
      update
        (update
          (update (update (λ _. (threads 0).1) (threads 4).0 (threads 4).1) (threads 3).0
            (threads 3).1)
          (threads 2).0 (threads 2).1)
        (threads 1).0 (threads 1).1;
  started = λ _. false;
  current = null;
  cr3 = w.loaded;
}

-- `main`, up to the first instruction of the first thread. `none` is a failed assertion.
unfoldable pub main : Linked → BootState → Option Kernel
unfolding set_up register_handlers boot_pools boot_paging init_paging load enable_paging main_world
    main_objects main_threads main_switch dispatch_to
main l b =
    register_handlers l.dbz_handler l.pagefault_handler (set_up l.isr l.irq b.gdt b.console)
    >>= λ d. VmPool.construct (512 * mb) (256 * mb) >>= λ pool.
        let (page_directory, kernel_mem_pool, process_mem_pool, tables) =
          boot_paging (boot_pools b.bitmaps) b.tables in
        let control = enable_paging (
          load l.pt1 (record { page_directory = page_directory; pools = [] })
            (init_paging l.kernel_mem_pool l.process_mem_pool (4 * mb) b.control)) in
        let (scheduler, threads, world) = main_objects l (main_world l b.pools b.words pool) in
        main_threads l d.interrupts scheduler threads >>= λ (table, s). some (record {
          devices = record d { interrupts = table };
          kernel_mem_pool = kernel_mem_pool;
          process_mem_pool = process_mem_pool;
          tables = tables;
          page_directory = page_directory;
          cr0 = control.cr0;
          switch = dispatch_to (threads 1).0 (main_switch threads world);
          scheduler = s;
          threads = threads;
        })
