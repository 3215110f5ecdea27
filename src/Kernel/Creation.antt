-- ===== src/Kernel/Creation.antt =====
-- The scheduler and the threads that main makes: their objects and their ids.
use multi_process.Base.{ℕ, suc, ◌+◌, ◌*◌, ◌^◌, ◌<◌, ◌≡◌, refl, sym, ap, ◌∙◌, arith}
use multi_process.Heap.{operator_new}
use multi_process.VmPool.{page_size}
use multi_process.Thread.Life
use multi_process.Thread.Life.{
  World, ThreadObject, construct_process, construct_kernel_thread, finish, make_pool,
}
use multi_process.Thread.Lifetime.{Constructed, construct_process-fields, update_self}
use multi_process.Thread.End.{Owns}
use multi_process.Kernel.Main.{Linked, main_objects, new_thread, new_scheduler}
use multi_process.Kernel.Objects.{granted, page, Stocked, Small, operator_new-page, new-Stocked}

-- A thread whose objects, itself, its page table and its pool, stand in the pages from `k` on.
pub record Made (l : Linked) (k i : ℕ) (o : ℕ × ThreadObject) : Type 0 where
  pub at : o.0 ≡ page k
  pub table : o.1.pt ≡ page (k + 1)
  pub own_pool : o.1.pool ≡ page (k + 2)
  pub id : o.1.thread_id ≡ i
  pub stack : o.1.stack ≡ 2 ^ 30 + 2 * page_size
  pub kernel_pool : o.1.kernel_memory_pool ≡ l.pool

construct_process-objects :
    (s1 s2 shut start f n : ℕ) (w : World)
    → let t = (construct_process s1 s2 shut start f n w).0 in
      (t.pt ≡ (operator_new (w.pools w.memory_pool) s1).0)
      × (t.pool ≡ (operator_new (operator_new (w.pools w.memory_pool) s1).1 s2).0)
unfolding construct_process finish make_pool Life.new
construct_process-objects s1 s2 shut start f n w = (
  refl,
  ap (λ p. (operator_new p s2).0)
      (update_self w.pools w.memory_pool (operator_new (w.pools w.memory_pool) s1).1),
)

-- The two objects that the constructor of a thread makes, when `k` pages are allocated.
module _ (l : Linked) (w : World) (k i : ℕ) (small : Small l) (s : Stocked l w k i)
    (room : suc k < 16) where
  here : w.pools w.memory_pool ≡ granted k
  here = ap w.pools s.in_use ∙ s.pool

  first :
      ((operator_new (granted k) l.sizeof_page_table).0 ≡ page k)
      × ((operator_new (granted k) l.sizeof_page_table).1 ≡ granted (suc k))
  first =
      operator_new-page k l.sizeof_page_table small.page_table.0 small.page_table.1 (omega arith)

  second :
      ((operator_new (granted (suc k)) l.sizeof_vm_pool).0 ≡ page (suc k))
      × ((operator_new (granted (suc k)) l.sizeof_vm_pool).1 ≡ granted (suc (suc k)))
  second = operator_new-page (suc k) l.sizeof_vm_pool small.vm_pool.0 small.vm_pool.1 room

  behind_first : (operator_new (w.pools w.memory_pool) l.sizeof_page_table).1 ≡ granted (suc k)
  behind_first = ap (λ p. (operator_new p l.sizeof_page_table).1) here ∙ first.1

  construct_process-Stocked :
      (f : ℕ)
      → let o =
          construct_process l.sizeof_page_table l.sizeof_vm_pool l.thread_shutdown l.thread_start f
            1024 w in
        (o.0.pt ≡ page k)
        × (o.0.pool ≡ page (suc k))
        × Constructed l.sizeof_page_table l.sizeof_vm_pool 1024 w o.0 o.1
        × Stocked l o.1 (suc (suc k)) (i + 1)
  construct_process-Stocked f =
      let (table, object) =
        construct_process-objects l.sizeof_page_table l.sizeof_vm_pool l.thread_shutdown
          l.thread_start f 1024 w in
      let at : page (suc k) ≡ _ =
        sym (object ∙ ap (λ p. (operator_new p l.sizeof_vm_pool).0) behind_first ∙ second.0) in
      let w' : World =
        (construct_process l.sizeof_page_table l.sizeof_vm_pool l.thread_shutdown l.thread_start f
          1024 w).1 in
      let c =
        construct_process-fields l.sizeof_page_table l.sizeof_vm_pool l.thread_shutdown
          l.thread_start f 1024 w (omega arith) (omega arith)
          (λ e. omega (arith, at, e, s.in_use, small.low)) in
      (
        table ∙ ap (λ p. (operator_new p l.sizeof_page_table).0) here ∙ first.0,
        sym at,
        c,
        record {
          in_use = c.same_pool ∙ s.in_use;
          pool =
              ap w'.pools (sym s.in_use)
              ∙ c.objects
              ∙ ap (λ p. (operator_new p l.sizeof_vm_pool).1) behind_first
              ∙ second.1;
          ids = c.next_id ∙ ap (λ n. n + 1) s.ids;
          freed = c.freed ∙ s.freed;
          kernel = c.same_kernel ∙ s.kernel;
        },
      )

-- `new Thread`: three pages and one id.
pub new_thread-Made :
    (l : Linked) (w : World) (k i f : ℕ)
    → Small l
    → Stocked l w k i
    → suc (suc k) < 16
    → Made l k i (new_thread l f w).0
      × Stocked l (new_thread l f w).1 (suc (suc (suc k))) (i + 1)
      × ((new_thread l f w).1.loaded ≡ (new_thread l f w).0.1.pt)
      × Owns 1024 (new_thread l f w).0.1 (new_thread l f w).1
unfolding new_thread
new_thread-Made l w k i f small s room =
    let (at, s1) =
      new-Stocked l w k i l.sizeof_thread s small.thread.0 small.thread.1 (omega arith) in
    let w1 = (Life.new l.sizeof_thread w).1 in
    let (table, own_pool, c, s2) = construct_process-Stocked l w1 (suc k) i small s1 room f in
    (
      record {
        at = at;
        table = omega (arith, table);
        own_pool = omega (arith, own_pool);
        id = c.id ∙ s1.ids;
        stack = c.stack;
        kernel_pool = c.kernel_pool ∙ s1.in_use;
      },
      s2,
      c.loaded,
      record {
        stack = c.stack;
        own = c.own;
        apart = λ e. omega (arith, own_pool, e, c.kernel_pool, s1.in_use, small.low);
      },
    )

-- The scheduler, its control thread and that thread's stack: a page each, and the first id.
pub new_scheduler-Stocked :
    (l : Linked) (w : World) (k i : ℕ)
    → Small l
    → Stocked l w k i
    → suc (suc k) < 16
    → ((new_scheduler l w).0 ≡ page k)
      × ((new_scheduler l w).1.0 ≡ page (suc k))
      × Stocked l (new_scheduler l w).2 (suc (suc (suc k))) (i + 1)
unfolding new_scheduler construct_kernel_thread finish
new_scheduler-Stocked l w k i small s room =
    let (at, s1) =
      new-Stocked l w k i l.sizeof_rr_scheduler s small.rr_scheduler.0 small.rr_scheduler.1
        (omega arith) in
    let w1 = (Life.new l.sizeof_rr_scheduler w).1 in
    let (control, s2) =
      new-Stocked l w1 (suc k) i l.sizeof_thread s1 small.thread.0 small.thread.1 (omega arith) in
    let w2 = (Life.new l.sizeof_thread w1).1 in
    let loaded : Stocked l (record w2 { loaded = l.pt1 }) (suc (suc k)) i = record {
      in_use = s2.in_use;
      pool = s2.pool;
      ids = s2.ids;
      freed = s2.freed;
      kernel = s2.kernel;
    } in
    let (_, s3) =
      new-Stocked l (record w2 { loaded = l.pt1 }) (suc (suc k)) i 1024 loaded (omega arith)
        (omega arith) room in
    (
      at,
      control,
      record {
        in_use = s3.in_use;
        pool = s3.pool;
        ids = ap (λ n. n + 1) s3.ids;
        freed = s3.freed;
        kernel = s3.kernel;
      },
    )

-- All that main makes: the scheduler and its control thread, then the four threads, of three pages
-- each, with the ids 1 to 4.
pub record Objects (l : Linked) (scheduler : ℕ) (threads : ℕ → ℕ × ThreadObject) (w : World)
    : Type 0 where
  pub at : scheduler ≡ page 0
  pub control : (threads 0).0 ≡ page 1
  pub one : Made l 3 1 (threads 1)
  pub two : Made l 6 2 (threads 2)
  pub three : Made l 9 3 (threads 3)
  pub four : Made l 12 4 (threads 4)
  pub stocked : Stocked l w 15 5
  pub loaded : w.loaded ≡ (threads 4).1.pt

pub main_objects-Objects :
    (l : Linked) (w : World)
    → Small l
    → Stocked l w 0 0
    → let o = main_objects l w in Objects l o.0 o.1 o.2
unfolding main_objects
main_objects-Objects l w small s =
    let (scheduler, control, s0) = new_scheduler-Stocked l w 0 0 small s (omega arith) in
    let w0 = (new_scheduler l w).2 in
    let (one, s1, _, _) = new_thread-Made l w0 3 1 (l.functions 1) small s0 (omega arith) in
    let w1 = (new_thread l (l.functions 1) w0).1 in
    let (two, s2, _, _) = new_thread-Made l w1 6 2 (l.functions 2) small s1 (omega arith) in
    let w2 = (new_thread l (l.functions 2) w1).1 in
    let (three, s3, _, _) = new_thread-Made l w2 9 3 (l.functions 3) small s2 (omega arith) in
    let w3 = (new_thread l (l.functions 3) w2).1 in
    let (four, s4, loaded, _) = new_thread-Made l w3 12 4 (l.functions 4) small s3 (omega arith) in
    record {
      at = scheduler;
      control = control;
      one = one;
      two = two;
      three = three;
      four = four;
      stocked = s4;
      loaded = loaded;
    }
