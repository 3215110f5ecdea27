-- ===== src/Kernel/Started.antt =====
-- What main has made of the machine when the first thread runs.
use multi_process.Base.{
  ℕ, ◌+◌, ◌*◌, ◌/◌, ◌^◌, ◌<◌, ◌≡◌, refl, List, [], ◌∷◌, some, word, arith, true, ◌==◌,
}
use mathlib.Core.Path.{subst}
use multi_process.VmPool
use multi_process.Timer
use multi_process.Idt.Gates.{Leads}
use multi_process.Console.Echo.{Ready}
use multi_process.Exceptions.{handle_exception, dispatch_exception}
use multi_process.Interrupts.{HandlerTable, Event, dispatch_interrupt}
use multi_process.Interrupts.Dispatch.{handlers}
use multi_process.PageTable.{Memory}
use multi_process.PageTable.Control.{init_paging, load, enable_paging}
use multi_process.PageTable.Recursive.{Walks}
use multi_process.Thread.Switch.{low_switch, return_to, dispatch_to}
use multi_process.Thread.Life.{World, ThreadObject}
use multi_process.Scheduler.{Scheduler, null, construct, construct_rr}
use multi_process.Scheduler.Fifo.{Proper, IsQueue}
use multi_process.Scheduler.RoundRobin.{Runs}
use multi_process.Kernel.{mb, boot_pools, boot_paging}
use multi_process.Kernel.Handlers.{register_handlers-Operational}
use multi_process.Kernel.Paging.{Paged, boot_paging-Paged}
use multi_process.Kernel.Threads.{start_threads-Runs}
use multi_process.Kernel.Multitasking.{Reachable, start}
use multi_process.Kernel.Main.{
  main_switch, Linked, BootState, Kernel, main, main_world, main_objects, main_threads,
}
use multi_process.Kernel.Objects.{page, Stocked, Small, main_world-Stocked}
use multi_process.Thread.End.{Owns}
use multi_process.Kernel.Ownership.{main_objects-Owns}
use multi_process.Kernel.Creation.{Made, main_objects-Objects}

-- The threads run: the first, and the others wait in their order.
pub record Running (k : Kernel) : Type 0 where
  pub runs :
      Runs k.scheduler (k.threads 1).0 ((k.threads 2).0 ∷ (k.threads 3).0 ∷ (k.threads 4).0 ∷ [])
  pub reachable :
      Reachable k.scheduler
        ((k.threads 1).0 ∷ (k.threads 2).0 ∷ (k.threads 3).0 ∷ (k.threads 4).0 ∷ [])
  pub none_deleted : k.scheduler.deleted ≡ []

-- Exceptions and the timer's interrupt lead to their handlers, `timer` at its address.
pub record Wired (l : Linked) (timer : ℕ) (k : Kernel) : Type 0 where
  pub ready : Ready k.devices.console
  pub exception_gates : (i : ℕ) → i < 32 → Leads (k.devices.idt i) (l.isr i)
  pub interrupt_gates : (i : ℕ) → i < 16 → Leads (k.devices.idt (32 + i)) (l.irq i)
  pub page_fault : dispatch_exception k.devices.exceptions 14 ≡ handle_exception l.pagefault_handler
  pub quantum :
      (es : List Event) × (dispatch_interrupt k.devices.interrupts 32 ≡ some es)
      × (handlers es ≡ timer ∷ [])

pub record Started (mmu : Memory → ℕ → ℕ → ℕ) (l : Linked) (k : Kernel) : Type 0 where
  pub running : Running k
  pub wired : Wired l (page 0 + l.timer) k
  pub paged : Paged mmu k.page_directory k.tables
  pub paging_on : k.cr0 / 2 ^ 31 ≡ 1
  pub control : (k.threads 0).0 ≡ page 1
  pub one : Made l 3 1 (k.threads 1)
  pub two : Made l 6 2 (k.threads 2)
  pub three : Made l 9 3 (k.threads 3)
  pub four : Made l 12 4 (k.threads 4)
  pub stocked : Stocked l k.switch.world 15 5
  pub owns :
      Owns 1024 (k.threads 1).1 k.switch.world
      × Owns 1024 (k.threads 2).1 k.switch.world
      × Owns 1024 (k.threads 3).1 k.switch.world
      × Owns 1024 (k.threads 4).1 k.switch.world
  pub dispatched : k.switch ≡ dispatch_to (k.threads 1).0 (main_switch k.threads k.switch.world)
  pub in_force : (k.switch.cr3 ≡ (k.threads 1).1.pt) × (k.switch.world.loaded ≡ (k.threads 4).1.pt)

module _ (l : Linked) (b : BootState) where
  abbrev objects : ℕ × (ℕ → ℕ × ThreadObject) × World
  objects = main_objects l (main_world l b.pools b.words (VmPool.initial_tables (2 ^ 29) (2 ^ 28)))

  threads-Proper :
      Small l → Proper ((objects.1 1).0 ∷ (objects.1 2).0 ∷ (objects.1 3).0 ∷ (objects.1 4).0 ∷ [])
  threads-Proper small =
      let o =
        main_objects-Objects l
          (main_world l b.pools b.words (VmPool.initial_tables (2 ^ 29) (2 ^ 28))) small
          (main_world-Stocked l b.pools b.words) in
      omega (arith, o.one.at, o.two.at, o.three.at, o.four.at)

-- The first dispatch loads the page table of thread 1.
main_switch-cr3 :
    (threads : ℕ → ℕ × ThreadObject) (w : World)
    → (dispatch_to (threads 1).0 (main_switch threads w)).cr3 ≡ (threads 1).1.pt
unfolding main_switch dispatch_to low_switch return_to
main_switch-cr3 threads w =
    let same : ((threads 1).0 == (threads 1).0) ≡ true = ground arith in rw same refl

-- The scheduler that main makes, and the threads that it starts.
main_threads-Runs :
    (l : Linked) (table t : HandlerTable) (scheduler : ℕ) (threads : ℕ → ℕ × ThreadObject)
    → (construct_rr 1 (λ _. null) (threads 0).0 (scheduler + l.timer) table).2 ≡ some t
    → Proper ((threads 1).0 ∷ (threads 2).0 ∷ (threads 3).0 ∷ (threads 4).0 ∷ [])
    → (s : Scheduler) × (main_threads l table scheduler threads ≡ some (t, s))
      × Runs s (threads 1).0 ((threads 2).0 ∷ (threads 3).0 ∷ (threads 4).0 ∷ [])
      × Reachable s ((threads 1).0 ∷ (threads 2).0 ∷ (threads 3).0 ∷ (threads 4).0 ∷ [])
      × (s.deleted ≡ [])
unfolding main_threads construct_rr construct Timer.construct Timer.set_frequency
main_threads-Runs l table t scheduler threads e p =
    let s0 = (construct_rr 1 (λ _. null) (threads 0).0 (scheduler + l.timer) table).0 in
    let q : IsQueue s0 [] = record { proper = tt; shape = (refl, refl) } in
    let (s, step, runs, _, _, _, deleted) =
      start_threads-Runs (threads 1).0 (threads 2).0 (threads 3).0 (threads 4).0 s0 p q refl in
    (
      s,
      rw (e, step) refl,
      runs,
      start 1 (scheduler + l.timer) (threads 0).0 (λ _. null) table (omega arith) p step,
      deleted,
    )

module _ (mmu : Memory → ℕ → ℕ → ℕ) (walks : Walks mmu) where
  -- `main` never fails an assertion, and starts the threads. Then thread 1 runs and threads 2 to
  -- 4 wait in their order, in a state from which the steps of multitasking go on; the console is
  -- ready, all gates lead to their stubs, a page fault calls its handler and the timer's
  -- interrupt the timer of the scheduler; paging is on, and the first page table maps the first 4
  -- MB to themselves; the control thread, and each thread with its page table and its memory
  -- pool, stand in pages of their own in the kernel's virtual pool, the threads with the ids 1 to
  -- 4, and each has its stack in its own pool. The register cr3 has the page table of thread 1,
  -- but the pool in use is still the kernel's and the current page table that of thread 4, the
  -- last one made. Each class of an object that `main` makes with `new` takes at most a page, the
  -- pool of the kernel is an object below 512 MB, the addresses of the stubs are words of 32
  -- bits, the bitmaps' memory holds bytes, and the processor translates addresses by the two
  -- levels of tables.
  pub main-Started :
      (l : Linked) (b : BootState)
      → Small l
      → ((i : ℕ) → l.isr i < word)
      → ((i : ℕ) → l.irq i < word)
      → ((i : ℕ) → b.bitmaps i < 256)
      → (k : Kernel) × (main l b ≡ some k) × Started mmu l k
  unfolding main main_switch dispatch_to low_switch return_to VmPool.construct init_paging load
      enable_paging
  main-Started l b small isr irq bytes =
      let (scheduler, threads, world) = objects l b in
      let o =
        main_objects-Objects l
          (main_world l b.pools b.words (VmPool.initial_tables (2 ^ 29) (2 ^ 28))) small
          (main_world-Stocked l b.pools b.words) in
      let (d, set, op) =
        register_handlers-Operational l.isr l.irq b.gdt b.console isr irq l.dbz_handler
          l.pagefault_handler (scheduler + l.timer) in
      let (t, registered, es, served, called) = op.quantum 1 (λ _. null) (threads 0).0 in
      let (s, step, runs, reachable, deleted) =
        main_threads-Runs l d.interrupts t scheduler threads registered
          (threads-Proper l b small) in
      let r = boot_paging (boot_pools b.bitmaps) b.tables in
      let control = enable_paging (
        load l.pt1 (record { page_directory = r.0; pools = [] })
          (init_paging l.kernel_mem_pool l.process_mem_pool (4 * mb) b.control)) in
      (
        record {
          devices = record d { interrupts = t };
          kernel_mem_pool = r.1;
          process_mem_pool = r.2;
          tables = r.3;
          page_directory = r.0;
          cr0 = control.cr0;
          switch = dispatch_to (threads 1).0 (main_switch threads world);
          scheduler = s;
          threads = threads;
        },
        rw (set, step) refl,
        record {
          running = record { runs = runs; reachable = reachable; none_deleted = deleted };
          wired = record {
            ready = op.ready;
            exception_gates = op.exception_gates;
            interrupt_gates = op.interrupt_gates;
            page_fault = op.page_fault;
            quantum =
                subst
                  (λ a.
                    (es : List Event) × (dispatch_interrupt t 32 ≡ some es)
                    × (handlers es ≡ (a + l.timer) ∷ []))
                  o.at (es, served, called);
          };
          paged = boot_paging-Paged mmu walks b.bitmaps b.tables bytes;
          paging_on = omega arith;
          control = o.control;
          one = o.one;
          two = o.two;
          three = o.three;
          four = o.four;
          stocked = o.stocked;
          owns =
              main_objects-Owns l
                (main_world l b.pools b.words (VmPool.initial_tables (2 ^ 29) (2 ^ 28))) small
                (main_world-Stocked l b.pools b.words);
          dispatched = refl;
          in_force = (main_switch-cr3 threads world, o.loaded);
        },
      )
