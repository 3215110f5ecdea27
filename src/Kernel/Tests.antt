-- ===== src/Kernel/Tests.antt =====
-- The boot on a memory full of ones, the output of the first thread from the end of the screen on,
-- and the start of four threads with a quantum of one tick.
use multi_process.VmPool
use multi_process.Kernel.Main.{Linked, BootState, Kernel, main}
use multi_process.Kernel.Objects.{Small}
use multi_process.Kernel.Started.{Started, main-Started}
use multi_process.Kernel.Life.{Sound, created, boot}
use multi_process.Kernel.Reclaim.{Returned}
use multi_process.Kernel.Returns.{Lives-Returned}
use multi_process.Kernel.Multitasking.{Alive}
use multi_process.Kernel.Exit.{shut_down, Left, shut_down-main}
use multi_process.Gdt.{Gdt}
use multi_process.PageTable.{is_present, frame_of}
use multi_process.PageTable.Recursive.{Walks}
use multi_process.Base.{
  ap, length, ℕ, ◌+◌, ◌*◌, ◌/◌, ◌%◌, ◌^◌, if◌then◌else◌, ◌≡◌, refl, [], ◌∷◌, true, some, none,
  replicate, arith,
}
use multi_process.Interrupts.{HandlerTable}
use multi_process.Scheduler.{Scheduler, construct_rr}
use multi_process.Scheduler.RoundRobin.{Runs}
use multi_process.Scheduler.Quanta.{quanta}
use multi_process.Kernel.{start_threads}
use multi_process.Kernel.Threads.{start_threads-quanta}
use multi_process.Console.{Console}
use multi_process.Console.Echo.{Prints}
use multi_process.Kernel.{boot_pools, fun_prefix}
use multi_process.Kernel.Boot.{Booted, boot_pools-Booted}
use multi_process.Kernel.Output.{fun_text, fun_prefix-Prints}

boot_pools-Booted_example : Booted (boot_pools (λ _. 0xff)).0 (boot_pools (λ _. 0xff)).1
boot_pools-Booted_example = boot_pools-Booted (λ _. 0xff) (λ i. omega arith)

abbrev screen : Console
screen = record {
  attrib = 7;
  csr_x = 79;
  csr_y = 24;
  text = λ i. i;
  redirect_output = true;
  out = [];
}

fun_prefix-Prints_example : Prints screen (fun_text b'1' 3 10) (fun_prefix b'1' 3 10 screen)
fun_prefix-Prints_example =
    fun_prefix-Prints b'1' 3 10 screen (omega arith) (omega arith)
      (record { redirected = refl; on = record { column = omega arith; row = omega arith } })

abbrev handlers : HandlerTable
handlers = replicate 16 none

start_threads-quanta_example :
    (s : Scheduler) × (s' : Scheduler) × (start_threads 20 30 40 50
        (construct_rr 1 (λ _. 0) 10 7 handlers).0
      ≡ some s)
    × Runs s 20 (30 ∷ 40 ∷ 50 ∷ [])
    × (quanta 4 s ≡ some (20 ∷ 30 ∷ 40 ∷ 50 ∷ [], s'))
    × Runs s' 20 (30 ∷ 40 ∷ 50 ∷ [])
start_threads-quanta_example =
    start_threads-quanta 1 7 10 (λ _. 0) handlers 20 30 40 50 (omega arith) (omega arith)

abbrev blank : Gdt
blank _ = record {
  limit_low = 0;
  base_low = 0;
  base_middle = 0;
  access = 0;
  granularity = 0;
  base_high = 0;
}

-- The stubs of the exceptions from 1 MB on, those of the interrupts behind them.
abbrev isr : ℕ → ℕ
isr i = 0x100000

abbrev irq : ℕ → ℕ
irq i = 0x110000

-- A processor that walks the tables, and answers 0 where it would fault.
abbrev walk : (ℕ → ℕ) → ℕ → ℕ → ℕ
walk m cr3 addr =
    let table = m (cr3 + 4 * (addr / 2 ^ 22)) in
    let page = m (frame_of table + 4 * (addr / 2 ^ 12 % 2 ^ 10)) in
    if is_present table then (if is_present page then frame_of page + addr % 2 ^ 12 else 0) else 0

walk-Walks : Walks walk
walk-Walks m cr3 addr small first second = rw (first, second) refl

-- Main's objects on its stack below 4 MB; the functions of the threads from 0x102000 on.
abbrev linked : Linked
linked = record {
  isr = isr;
  irq = irq;
  thread_shutdown = 0x101000;
  thread_start = 0x101100;
  terminate_thread = 0x101200;
  functions = λ i. 0x102000 + 256 * i;
  dbz_handler = 0x200010;
  pagefault_handler = 0x200020;
  kernel_mem_pool = 0x200030;
  process_mem_pool = 0x200060;
  pt1 = 0x200090;
  pool = 0x2000c0;
  timer = 40;
  sizeof_rr_scheduler = 64;
  sizeof_thread = 44;
  sizeof_page_table = 12;
  sizeof_vm_pool = 40;
}

abbrev machine : BootState
machine = record {
  gdt = blank;
  console = screen;
  control = record {
    current_page_table = 0;
    kernel_mem_pool = 0;
    process_mem_pool = 0;
    shared_size = 0;
    paging_enabled = 0;
    cr0 = 0x11;
    cr3 = 0;
  };
  bitmaps = λ _. 0xff;
  tables = λ i. i;
  words = λ i. i;
  pools = λ _. VmPool.initial_tables 0 0;
}

linked-Small : Small linked
linked-Small = record {
  rr_scheduler = omega arith;
  thread = omega arith;
  page_table = omega arith;
  vm_pool = omega arith;
  low = omega arith;
}

main-Started_example : (k : Kernel) × (main linked machine ≡ some k) × Started walk linked k
main-Started_example =
    main-Started walk walk-Walks linked machine linked-Small (λ i. omega arith) (λ i. omega arith)
      (λ i. omega arith)

shut_down-main_example :
    (k : Kernel) × (k' : Kernel) × (main linked machine ≡ some k)
    × (shut_down 0 k ≡ some k')
    × Left linked k k'
shut_down-main_example =
    shut_down-main walk linked machine 0 walk-Walks linked-Small (λ i. omega arith)
      (λ i. omega arith) (λ i. omega arith)

main_run : (k : Kernel) × (main linked machine ≡ some k) × Started walk linked k
main_run =
    main-Started walk walk-Walks linked machine linked-Small (λ i. omega arith) (λ i. omega arith)
      (λ i. omega arith)

-- The kernel that main leaves.
abbrev kernel : Kernel
kernel = main_run.0

kernel-Alive : Alive 3 kernel.scheduler (created kernel)
kernel-Alive = omega (arith, ap (length {0}) main_run.2.running.none_deleted)

Lives-Returned_example : Sound linked kernel × (k' : Kernel) × Returned 0 linked kernel k'
Lives-Returned_example =
    Lives-Returned walk linked machine kernel 0 walk-Walks linked-Small (λ i. omega arith)
      (λ i. omega arith) (λ i. omega arith) (boot main_run.1) kernel-Alive
