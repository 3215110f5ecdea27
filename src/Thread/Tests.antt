-- ===== src/Thread/Tests.antt =====
-- A thread with a stack of 1 KB.
use multi_process.Thread.Switch.{Switch, dispatches}
use multi_process.Thread.InForce.{InForce, has_run, dispatches-InForce}
use multi_process.Base.{
  false, ◌==◌, if◌then◌else◌, ◌∷◌, ◌++◌, ℕ, ◌+◌, ◌-◌, ◌*◌, ◌^◌, ◌<◌, ◌≤◌, ◌≡◌, ◌⊎◌, refl, arith, [],
  some, get_elem?, sym,
}
use multi_process.Heap.{operator_new}
use multi_process.VmPool
use multi_process.VmPool.{VmPool}
use multi_process.Thread.Life.{
  World, ThreadObject, construct_process, destroy, new, make_pool, finish,
}
use multi_process.VmPool.{region}
use multi_process.VmPool.Allocate.{entry, allocate_lem}
use multi_process.VmPool.Release.{Freed, pages, visit}
use multi_process.VmPool.Regions.{IsPartition, initial_tables-IsPartition}
use multi_process.VmPool.Reachable.{allocated-IsPartition}
use mathlib.Core.Path.{subst}
use multi_process.Thread.End.{log_of, Ended, Owns, end_thread, end_thread_lem}
use multi_process.Thread.Lifetime.{
  construct_process-fields, Destroyed, destroy-construct_process, stack_freed, with_objects,
}
use multi_process.Thread.{Stack, push, pushes, context, setup_context, initialize}
use multi_process.Thread.Context.{regs_at, starting, setup_context_lem}

abbrev stack : Stack
stack = record { esp = 0x20000400; memory = λ _. 0xee }

stack_pointer : (initialize 1 2 3 0x20000000 0x400 (λ _. 0) 5).1.1.esp ≡ 0x200003b0
unfolding initialize setup_context context pushes push
stack_pointer = refl

setup_context_lem_example :
    ((setup_context 0x5000 0x6000 0x7000 stack).esp ≡ stack.esp - 80)
    × (regs_at (setup_context 0x5000 0x6000 0x7000 stack).memory (stack.esp - 80) ≡ starting 0x6000)
    × ((setup_context 0x5000 0x6000 0x7000 stack).memory (stack.esp - 12) ≡ 0x7000)
    × ((setup_context 0x5000 0x6000 0x7000 stack).memory (stack.esp - 8) ≡ 0x5000)
    × ((setup_context 0x5000 0x6000 0x7000 stack).memory (stack.esp - 4) ≡ 0)
    × ((x : ℕ)
        → (x < stack.esp - 80) ⊎ (stack.esp ≤ x)
        → (setup_context 0x5000 0x6000 0x7000 stack).memory x ≡ stack.memory x)
setup_context_lem_example = setup_context_lem 0x5000 0x6000 0x7000 stack (omega arith) (omega arith)

-- The pool of `main` at address 100, the page table of the kernel at 200.
abbrev world : World
world = record {
  pools = λ _. (operator_new (VmPool.initial_tables (512 * 2 ^ 20) (256 * 2 ^ 20)) 60).1;
  memory_pool = 100;
  loaded = 200;
  kernel_page_table = 200;
  next_free_pid = 1;
  memory = λ _. 0;
  registered = λ _. [];
  freed = [];
}

abbrev thread : ThreadObject
thread = (construct_process 12 40 1 2 3 1024 world).0

abbrev behind : World
behind = (construct_process 12 40 1 2 3 1024 world).1

own_pool : thread.pool ≡ 512 * 2 ^ 20 + 4 * 4096
unfolding construct_process new make_pool finish operator_new VmPool.allocate VmPool.initial_tables
    VmPool.round_up VmPool.carve VmPool.first_index
own_pool = refl

destroy-construct_process_example :
    Destroyed 1024 thread behind (destroy thread behind)
    × ((destroy thread behind).memory_pool ≡ world.memory_pool)
    × ((destroy thread behind).loaded ≡ world.kernel_page_table)
    × ((destroy thread behind).freed ≡ stack_freed thread.pool 1024 thread.stack world.freed)
    × ((destroy thread behind).pools world.memory_pool
        ≡ with_objects (world.pools world.memory_pool) 12 40)
destroy-construct_process_example =
    destroy-construct_process 12 40 1 2 3 1024 world (omega arith) (omega arith) refl
      (λ e. omega (arith, e, own_pool))

-- Two new threads, at the addresses 1 and 2.
abbrev two_threads : Switch
two_threads = record {
  world = world;
  thread = λ t. record thread { pt = 300 + t; pool = 400 + t };
  started = λ _. false;
  current = 0;
  cr3 = 200;
}

-- The first thread runs, then the second for the first time.
dispatches-InForce_example :
    InForce
      (has_run two_threads (1 ∷ []) 2)
      (two_threads.thread 2)
      (dispatches (1 ∷ []) two_threads)
      (dispatches ((1 ∷ []) ++ (2 ∷ [])) two_threads)
dispatches-InForce_example = dispatches-InForce (1 ∷ []) 2 two_threads

-- The address of the thread, in the third page of the kernel's pool.
abbrev object : ℕ
object = 512 * 2 ^ 20 + 2 * 4096

-- The thread has been running, and a new one is at address 2.
abbrev one_running : Switch
one_running = record {
  world = behind;
  thread = λ t. if t == object then thread else record thread { pt = 300; pool = 400 };
  started = λ t. t == object;
  current = object;
  cr3 = thread.pt;
}

thread-Owns : Owns 1024 thread behind
thread-Owns =
    let c =
      construct_process-fields 12 40 1 2 3 1024 world (omega arith) (omega arith)
        (λ e. omega (arith, e, own_pool)) in
    record { stack = c.stack; own = c.own; apart = λ e. omega (arith, e, own_pool, c.kernel_pool) }

abbrev kernel_pool : VmPool
kernel_pool = behind.pools thread.kernel_memory_pool

object_entry :
    (get_elem? kernel_pool.alloc 1 ≡ some (region object 4096))
    × ((entry kernel_pool.free 1).size ≡ 0)
unfolding construct_process new make_pool finish operator_new VmPool.allocate VmPool.initial_tables
    VmPool.round_up VmPool.carve VmPool.first_index
object_entry = (refl, refl)

operator_new-IsPartition : (p : VmPool) (n : ℕ) → IsPartition p → IsPartition (operator_new p n).1
unfolding operator_new
operator_new-IsPartition p n v =
    allocated-IsPartition p n (VmPool.allocate p n) v (allocate_lem p v n)

kernel_pool-IsPartition : IsPartition kernel_pool
unfolding construct_process new make_pool finish
kernel_pool-IsPartition =
    let c =
      construct_process-fields 12 40 1 2 3 1024 world (omega arith) (omega arith)
        (λ e. omega (arith, e, own_pool)) in
    subst IsPartition (sym c.objects) (
      operator_new-IsPartition (operator_new (world.pools 100) 12).1 40 (
        operator_new-IsPartition (world.pools 100) 12 (
          operator_new-IsPartition (VmPool.initial_tables (512 * 2 ^ 20) (256 * 2 ^ 20)) 60 (
            initial_tables-IsPartition (512 * 2 ^ 20) (256 * 2 ^ 20) (omega arith) (omega arith)))))

end_thread_lem_example :
    let s' = end_thread 90 object 2 one_running in
    Ended 1024 object thread behind s'.world
    × Freed kernel_pool 4096 object (s'.world.pools thread.kernel_memory_pool)
    × (s'.world.freed
        ≡ visit
            (log_of thread.kernel_memory_pool)
            (pages 4096)
            object
            (stack_freed thread.pool 1024 thread.stack behind.freed))
    × (s'.cr3 ≡ 300)
    × (s'.world.memory_pool ≡ thread.kernel_memory_pool)
unfolding construct_process VmPool.allocate VmPool.initial_tables VmPool.first_index VmPool.round_up
    VmPool.carve
end_thread_lem_example =
    end_thread_lem 1024 90 object 4096 2 one_running (omega arith) (omega arith) thread-Owns
      (record {
        parted = kernel_pool-IsPartition;
        held = (1, object_entry.0);
        positive = omega arith;
        slot = (1, omega arith, object_entry.1);
      })
      refl
