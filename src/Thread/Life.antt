-- ===== src/Thread/Life.antt =====
-- How threads are made and destroyed, with the memory pool and the page table that this switches.
use multi_process.Base.{ℕ, ◌*◌, ◌^◌, List, ◌∷◌, update}
use multi_process.Heap.{operator_new, operator_delete}
use multi_process.VmPool
use multi_process.VmPool.{VmPool}
use multi_process.Thread.{initialize}

-- What the constructors and the destructor share: the objects of class VMPool by their address, the
-- pool that MEMORY_POOL points to, the page table that is loaded and that of the kernel, the counter
-- `nextFreePid`, the memory, the pools registered at each page table, the latest first, and a log of
-- the pages freed, with the pool that they were in. `memory` is one for all page tables: the stacks of
-- all threads stand at the same address in it, and only that of the thread under construction is read.
pub record World : Type 0 where
  pub pools : ℕ → VmPool
  pub memory_pool : ℕ
  pub loaded : ℕ
  pub kernel_page_table : ℕ
  pub next_free_pid : ℕ
  pub memory : ℕ → ℕ
  pub registered : ℕ → List ℕ
  pub freed : List (ℕ × ℕ)

-- `class Thread`
pub record ThreadObject : Type 0 where
  pub esp : ℕ
  pub thread_id : ℕ
  pub stack : ℕ
  pub stack_size : ℕ
  pub pt : ℕ
  pub pool : ℕ
  pub kernel_memory_pool : ℕ

-- `new` of an object or an array of `size` bytes.
unfoldable pub new : ℕ → World → ℕ × World
unfolding operator_new
new size w =
    let (a, p) = operator_new (w.pools w.memory_pool) size in
    (a, record w { pools = update w.pools w.memory_pool p })

-- `delete[]`. Each page that the pool gives back is freed at the page table of the pool.
unfoldable pub delete : ℕ → World → World
unfolding operator_delete
delete a w =
    let log = λ (page : ℕ) (l : List (ℕ × ℕ)). (w.memory_pool, page) ∷ l in
    let (p, freed) = operator_delete log (w.pools w.memory_pool) a w.freed in
    record w { pools = update w.pools w.memory_pool p; freed = freed }

-- `VMPool((1 << 30), (64 << 20), frame_pool, pt)` at an address; the assertion on the size holds.
unfoldable pub make_pool : ℕ → ℕ → World → World
make_pool pool pt w = record w {
  pools = update w.pools pool (VmPool.initial_tables (2 ^ 30) (64 * 2 ^ 20));
  registered = update w.registered pt (pool ∷ w.registered pt);
}

-- What both constructors do behind the choice of the pool: the stack, the id and the context.
unfoldable pub finish : ℕ → ℕ → ℕ → ℕ → ℕ → ℕ → ℕ → World → ThreadObject × World
unfolding new initialize
finish thread_shutdown thread_start tfunction stack_size pt pool kernel_memory_pool w =
    let (stack, w1) = new stack_size w in
    let (pid, (thread_id, s)) =
      initialize thread_shutdown thread_start tfunction stack stack_size w1.memory
        w1.next_free_pid in
    (
      record {
        esp = s.esp;
        thread_id = thread_id;
        stack = stack;
        stack_size = stack_size;
        pt = pt;
        pool = pool;
        kernel_memory_pool = kernel_memory_pool;
      },
      record w1 { next_free_pid = pid; memory = s.memory },
    )

-- The constructor with a frame pool; the sizes of the classes PageTable and VMPool are arguments. The
-- frame that `new PageTable()` takes from the kernel's frame pool for its directory is left out.
unfoldable pub construct_process : ℕ → ℕ → ℕ → ℕ → ℕ → ℕ → World → ThreadObject × World
unfolding new make_pool finish
construct_process sizeof_page_table sizeof_vm_pool thread_shutdown thread_start tfunction stack_size
      w =
    let (pt, w1) = new sizeof_page_table w in
    let w2 = record w1 { loaded = pt } in
    let (pool, w3) = new sizeof_vm_pool w2 in
    let w4 = make_pool pool pt w3 in
    let kernel_memory_pool = w4.memory_pool in
    let (t, w5) =
      finish thread_shutdown thread_start tfunction stack_size pt pool kernel_memory_pool
        (record w4 { memory_pool = pool }) in
    (t, record w5 { memory_pool = kernel_memory_pool })

-- The constructor with a page table, of a thread of the kernel.
unfoldable pub construct_kernel_thread : ℕ → ℕ → ℕ → ℕ → ℕ → World → ThreadObject × World
unfolding finish
construct_kernel_thread thread_shutdown thread_start tfunction stack_size pt w =
    finish thread_shutdown thread_start tfunction stack_size pt w.memory_pool w.memory_pool
      (record w { loaded = pt })

-- The destructor.
unfoldable pub destroy : ThreadObject → World → World
unfolding delete
destroy t w =
    let w1 = delete t.stack (record w { loaded = t.pt; memory_pool = t.pool }) in
    record w1 { loaded = w1.kernel_page_table; memory_pool = t.kernel_memory_pool }
