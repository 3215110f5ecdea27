-- ===== src/Thread/Lifetime.antt =====
-- From the constructor of a thread to its destructor.
use multi_process.Base.{
  ℕ, ◌+◌, ◌-◌, ◌*◌, ◌^◌, ◌≤◌, ◌<◌, ◌≡◌, ◌≢◌, refl, sym, ap, ◌∙◌, true, false, ◌||◌, List, ◌∷◌, ltb,
  leb, ◌==◌, update, sub32, arith,
}
use mathlib.Core.Path.{subst}
use multi_process.Heap.{operator_new, operator_delete}
use multi_process.VmPool
use multi_process.VmPool.{VmPool, Outcome, done, page_size, round_up, allocate, release}
use multi_process.VmPool.Regions.{cover, initial_tables-IsPartition}
use multi_process.VmPool.Allocate.{entry, round_up_lem}
use multi_process.VmPool.Release.{visit, pages}
use multi_process.VmPool.Return.{Returned, release-allocate}
use multi_process.Thread.Life.{
  World, ThreadObject, new, make_pool, finish, construct_process, destroy,
}

-- The pool that a new thread gets.
abbrev pub thread_pool : VmPool
thread_pool = VmPool.initial_tables (2 ^ 30) (64 * 2 ^ 20)

-- Its first allocation is behind the two pages of the tables.
module _ (n : ℕ) (positive : 0 < n) (small : n ≤ 64 * 2 ^ 20 - 2 * page_size) where
  valid : (n == 0 || ltb (sub32 (64 * 2 ^ 20) (2 * page_size)) n) ≡ false
  valid = ground arith

  enough : leb (round_up n) (sub32 (64 * 2 ^ 20) (2 * page_size)) ≡ true
  enough = ground (arith, round_up_lem n)

  thread_pool-allocate : (allocate thread_pool n).0 ≡ done (2 ^ 30 + 2 * page_size)
  unfolding allocate VmPool.initial_tables VmPool.first_index
  thread_pool-allocate = rw (valid, enough) refl

  thread_pool-unused : (entry (allocate thread_pool n).1.free 1).size ≡ 0
  unfolding allocate VmPool.initial_tables VmPool.first_index VmPool.carve
  thread_pool-unused = rw (valid, enough) refl

pub update_self : {A : Type 0} (m : ℕ → A) (i : ℕ) (v : A) → update m i v i ≡ v
update_self m i v = let e : (i == i) ≡ true = ground arith in rw e refl

pub update_other : {A : Type 0} (m : ℕ → A) (i j : ℕ) (v : A) → i ≢ j → update m i v j ≡ m j
update_other m i j v ne = let e : (i == j) ≡ false = ground arith in rw e refl

-- The kernel's pool when the objects of a thread, of `n` and of `k` bytes, are allocated.
abbrev pub with_objects : VmPool → ℕ → ℕ → VmPool
with_objects p n k = (operator_new (operator_new p n).1 k).1

-- What the constructor of a thread with a stack of `n` bytes makes of `w`.
pub record Constructed (sizeof_page_table sizeof_vm_pool n : ℕ) (w : World) (t : ThreadObject)
    (w' : World) : Type 0 where
  pub same_pool : w'.memory_pool ≡ w.memory_pool
  pub kernel_pool : t.kernel_memory_pool ≡ w.memory_pool
  pub loaded : w'.loaded ≡ t.pt
  pub same_kernel : w'.kernel_page_table ≡ w.kernel_page_table
  pub id : t.thread_id ≡ w.next_free_pid
  pub next_id : w'.next_free_pid ≡ w.next_free_pid + 1
  pub stack : t.stack ≡ 2 ^ 30 + 2 * page_size
  pub registered : w'.registered t.pt ≡ t.pool ∷ w.registered t.pt
  pub own : w'.pools t.pool ≡ (allocate thread_pool n).1
  pub objects :
      w'.pools w.memory_pool ≡ with_objects (w.pools w.memory_pool) sizeof_page_table sizeof_vm_pool
  pub freed : w'.freed ≡ w.freed

pub construct_process-fields :
    (s1 s2 shut start f n : ℕ) (w : World)
    → 0 < n
    → n ≤ 64 * 2 ^ 20 - 2 * page_size
    → (construct_process s1 s2 shut start f n w).0.pool ≢ w.memory_pool
    → Constructed s1 s2 n w
        (construct_process s1 s2 shut start f n w).0
        (construct_process s1 s2 shut start f n w).1
unfolding construct_process finish make_pool new operator_new
construct_process-fields s1 s2 shut start f n w positive small ne =
    let mp = w.memory_pool in
    let one = operator_new (w.pools mp) s1 in
    let m1 = update w.pools mp one.1 in
    let two = operator_new (m1 mp) s2 in
    let pool = two.0 in
    let m3 = update m1 mp two.1 in
    let m4 = update m3 pool thread_pool in
    let three = operator_new (m4 pool) n in
    record {
      same_pool = refl;
      kernel_pool = refl;
      loaded = refl;
      same_kernel = refl;
      id = refl;
      next_id = refl;
      stack =
          ap (λ p. (operator_new p n).0) (update_self m3 pool thread_pool)
          ∙ ap VmPool.address (thread_pool-allocate n positive small);
      registered = update_self w.registered one.0 (pool ∷ w.registered one.0);
      own =
          update_self m4 pool three.1
          ∙ ap (λ p. (operator_new p n).1) (update_self m3 pool thread_pool);
      objects =
          update_other m4 pool mp three.1 ne
          ∙ update_other m3 pool mp thread_pool ne
          ∙ update_self m1 mp two.1
          ∙ ap (λ p. (operator_new p s2).1) (update_self w.pools mp one.1);
      freed = refl;
    }

-- The constructor of a thread takes its page table and its memory pool, as objects, out of the
-- pool in use, registers the new pool at the new page table, and takes the stack out of the new
-- pool. Behind it the pool in use is the one before, the new page table is loaded, and ids count
-- up. The object of the new pool must not be that of the pool in use.
construct_process-Constructed :
    (sizeof_page_table sizeof_vm_pool thread_shutdown thread_start tfunction n : ℕ) (w : World)
    {t : ThreadObject} {w' : World}
    → 0 < n
    → n ≤ 64 * 2 ^ 20 - 2 * page_size
    → construct_process sizeof_page_table sizeof_vm_pool thread_shutdown thread_start tfunction n w
      ≡ (t, w')
    → t.pool ≢ w.memory_pool
    → Constructed sizeof_page_table sizeof_vm_pool n w t w'
construct_process-Constructed s1 s2 shut start f n w {t} {w'} positive small e ne =
    subst (λ (o : ThreadObject × World). Constructed s1 s2 n w o.0 o.1) e
      (construct_process-fields s1 s2 shut start f n w positive small
        (λ same. ne (sym (ap (λ (o : ThreadObject × World). o.0.pool) e) ∙ same)))

-- The pages of a stack, with their pool, logged behind `l`.
abbrev pub stack_freed : ℕ → ℕ → ℕ → List (ℕ × ℕ) → List (ℕ × ℕ)
stack_freed pool n stack l = visit (λ page l. (pool, page) ∷ l) (pages (round_up n)) stack l

-- What the destructor of a thread leaves of `w'`, the world behind its constructor.
pub record Destroyed (n : ℕ) (t : ThreadObject) (w' w'' : World) : Type 0 where
  pub kernel_pool : w''.memory_pool ≡ t.kernel_memory_pool
  pub kernel_table : w''.loaded ≡ w'.kernel_page_table
  pub alloc : (x : ℕ) → cover x (w''.pools t.pool).alloc ≡ cover x thread_pool.alloc
  pub free : (x : ℕ) → cover x (w''.pools t.pool).free ≡ cover x thread_pool.free
  pub freed : w''.freed ≡ stack_freed t.pool n t.stack w'.freed
  pub others : (a : ℕ) → t.pool ≢ a → w''.pools a ≡ w'.pools a

pub destroy-Destroyed :
    (n : ℕ) (t : ThreadObject) (w' : World)
    → 0 < n
    → n ≤ 64 * 2 ^ 20 - 2 * page_size
    → t.stack ≡ 2 ^ 30 + 2 * page_size
    → w'.pools t.pool ≡ (allocate thread_pool n).1
    → Destroyed n t w' (destroy t w')
unfolding destroy operator_delete
destroy-Destroyed n t w' positive small at own =
    let log : ℕ → List (ℕ × ℕ) → List (ℕ × ℕ) = λ page l. (t.pool, page) ∷ l in
    let q = (allocate thread_pool n).1 in
    let out = release log q t.stack w'.freed in
    let same : release log (w'.pools t.pool) t.stack w'.freed ≡ out =
      ap (λ p. release log p t.stack w'.freed) own in
    let r : Returned log thread_pool (pages (round_up n)) t.stack w'.freed out =
      release-allocate log thread_pool n t.stack 1 w'.freed
        (initial_tables-IsPartition (2 ^ 30) (64 * 2 ^ 20) (omega arith) (omega arith))
        (thread_pool-allocate n positive small ∙ ap done (sym at)) (omega arith)
        (thread_pool-unused n positive small) in
    let back : update w'.pools t.pool (release log (w'.pools t.pool) t.stack w'.freed).1 t.pool
        ≡ out.1 =
      update_self w'.pools t.pool _
      ∙ ap (λ (o : Outcome (Unit {0}) × VmPool × List (ℕ × ℕ)). o.1) same in
    record {
      kernel_pool = refl;
      kernel_table = refl;
      alloc = λ x. ap (λ (p : VmPool). cover x p.alloc) back ∙ r.alloc x;
      free = λ x. ap (λ (p : VmPool). cover x p.free) back ∙ r.free x;
      freed = ap (λ (o : Outcome (Unit {0}) × VmPool × List (ℕ × ℕ)). o.2) same ∙ r.visited;
      others = λ a ne. update_other w'.pools t.pool a _ ne;
    }

-- The constructor of a thread, then its destructor: the pool in use is the one before, the kernel's
-- page table is loaded, the stack is given back to the thread's pool, which is as when it was new,
-- and each page of the stack is freed once. The objects of the page table and of the pool stay
-- allocated in the pool in use. The object of the new pool must not be that of the pool in use.
pub destroy-construct_process :
    (sizeof_page_table sizeof_vm_pool thread_shutdown thread_start tfunction n : ℕ) (w : World)
    {t : ThreadObject} {w' : World}
    → 0 < n
    → n ≤ 64 * 2 ^ 20 - 2 * page_size
    → construct_process sizeof_page_table sizeof_vm_pool thread_shutdown thread_start tfunction n w
      ≡ (t, w')
    → t.pool ≢ w.memory_pool
    → Destroyed n t w' (destroy t w')
      × ((destroy t w').memory_pool ≡ w.memory_pool)
      × ((destroy t w').loaded ≡ w.kernel_page_table)
      × ((destroy t w').freed ≡ stack_freed t.pool n t.stack w.freed)
      × ((destroy t w').pools w.memory_pool
          ≡ with_objects (w.pools w.memory_pool) sizeof_page_table sizeof_vm_pool)
destroy-construct_process s1 s2 shut start f n w {t} {w'} positive small e ne =
    let c = construct_process-Constructed s1 s2 shut start f n w positive small e ne in
    let d = destroy-Destroyed n t w' positive small c.stack c.own in
    (
      d,
      d.kernel_pool ∙ c.kernel_pool,
      d.kernel_table ∙ c.same_kernel,
      d.freed ∙ ap (stack_freed t.pool n t.stack) c.freed,
      d.others w.memory_pool ne ∙ c.objects,
    )
