-- ===== src/Thread/End.antt =====
-- The end of a thread in the states of Switch: the control thread of scheduler.C deletes it, and
-- gives the CPU to the next one.
use multi_process.Base.{
  ℕ, ◌+◌, ◌-◌, ◌*◌, ◌^◌, ◌≤◌, ◌<◌, ◌≡◌, ◌≢◌, refl, sym, ap, ◌∙◌, List, ◌∷◌, if◌then◌else◌, ◌==◌,
  ◌||◌, false, Bool-cases, inl, inr,
}
use multi_process.Heap.{operator_delete}
use multi_process.VmPool.{VmPool, page_size, allocate}
use multi_process.VmPool.Regions.{cover}
use multi_process.VmPool.Release.{Freed, management, pages, visit}
use multi_process.VmPool.Return.{Takes, release-Takes}
use multi_process.Thread.Life
use multi_process.Thread.Life.{World, ThreadObject, destroy}
use multi_process.Thread.Lifetime.{
  thread_pool, stack_freed, destroy-Destroyed, update_self, update_other,
}
use mathlib.Core.Path.{subst}
use multi_process.Thread.InForce.{dispatch_to-InForce, dispatch_to-started}
use multi_process.Thread.Switch.{Switch, low_switch, return_to, dispatch_to}

-- `delete` of the thread at the address `a`: the destructor, which ends with the page table of the
-- kernel loaded, and the operator, on the pool that is in use then.
unfoldable pub delete_thread : ℕ → Switch → Switch
unfolding destroy Life.delete
delete_thread a s = record s {
  world = Life.delete a (destroy (s.thread a) s.world);
  cr3 = s.world.kernel_page_table;
}

-- From the dispatch to the control thread in `terminate` to the dispatch of the next thread in
-- `yield`, one round of `TerminateThread`.
unfoldable pub end_thread : ℕ → ℕ → ℕ → Switch → Switch
unfolding dispatch_to delete_thread
end_thread control_thread a next s =
    dispatch_to next (delete_thread a (dispatch_to control_thread s))

-- A dispatch changes no pool.
pub record Unmoved (s s' : Switch) : Type 0 where
  pub pools : s'.world.pools ≡ s.world.pools
  pub freed : s'.world.freed ≡ s.world.freed
  pub thread : s'.thread ≡ s.thread
  pub kernel : s'.world.kernel_page_table ≡ s.world.kernel_page_table

pub dispatch_to-Unmoved : (t : ℕ) (s : Switch) → Unmoved s (dispatch_to t s)
unfolding dispatch_to low_switch return_to
dispatch_to-Unmoved t s = elim (Bool-cases (s.started t)) [
  | inl before ↦ rw before (record { pools = refl; freed = refl; thread = refl; kernel = refl })
  | inr new ↦ rw new (record { pools = refl; freed = refl; thread = refl; kernel = refl })
]

-- The pages that a pool gives back, logged with the pool.
abbrev pub log_of : ℕ → ℕ → List (ℕ × ℕ) → List (ℕ × ℕ)
log_of pool page l = (pool, page) ∷ l

-- What the end of the thread `t` at the address `a`, with a stack of `n` bytes, makes of `w`.
pub record Ended (n a : ℕ) (t : ThreadObject) (w w' : World) : Type 0 where
  pub alloc : (x : ℕ) → cover x (w'.pools t.pool).alloc ≡ cover x thread_pool.alloc
  pub free : (x : ℕ) → cover x (w'.pools t.pool).free ≡ cover x thread_pool.free
  pub object :
      (w'.pools t.kernel_memory_pool, w'.freed)
      ≡ operator_delete
          (log_of t.kernel_memory_pool)
          (w.pools t.kernel_memory_pool)
          a
          (stack_freed t.pool n t.stack w.freed)
  pub others : (b : ℕ) → t.pool ≢ b → t.kernel_memory_pool ≢ b → w'.pools b ≡ w.pools b

-- The thread's own pool, as its constructor left it.
pub record Owns (n : ℕ) (t : ThreadObject) (w : World) : Type 0 where
  pub stack : t.stack ≡ 2 ^ 30 + 2 * page_size
  pub own : w.pools t.pool ≡ (allocate thread_pool n).1
  pub apart : t.pool ≢ t.kernel_memory_pool

delete-Ended :
    (n a : ℕ) (t : ThreadObject) (w : World)
    → 0 < n
    → n ≤ 64 * 2 ^ 20 - 2 * page_size
    → Owns n t w
    → Ended n a t w (Life.delete a (destroy t w))
      × ((Life.delete a (destroy t w)).memory_pool ≡ t.kernel_memory_pool)
unfolding Life.delete destroy
delete-Ended n a t w positive small o =
    let d = destroy-Destroyed n t w positive small o.stack o.own in
    let w1 = destroy t w in
    let released : ℕ → VmPool × List (ℕ × ℕ) =
      λ m. operator_delete (log_of m) (w1.pools m) a w1.freed in
    let moved : (b : ℕ) → t.kernel_memory_pool ≢ b → (Life.delete a w1).pools b ≡ w1.pools b =
      λ b ne. update_other w1.pools t.kernel_memory_pool b (released t.kernel_memory_pool).0 ne in
    (
      record {
        alloc = λ x.
            ap (λ (p : VmPool). cover x p.alloc) (moved t.pool (λ e. o.apart (sym e))) ∙ d.alloc x;
        free = λ x.
            ap (λ (p : VmPool). cover x p.free) (moved t.pool (λ e. o.apart (sym e))) ∙ d.free x;
        object =
            ap (λ p. (p, (released t.kernel_memory_pool).1))
              (update_self w1.pools t.kernel_memory_pool (released t.kernel_memory_pool).0)
            ∙ ap (λ p. operator_delete (log_of t.kernel_memory_pool) p a w1.freed)
                (d.others t.kernel_memory_pool o.apart)
            ∙ ap (operator_delete (log_of t.kernel_memory_pool) (w.pools t.kernel_memory_pool) a)
                d.freed;
        others = λ b ne ne'. moved b ne' ∙ d.others b ne;
      },
      refl,
    )

-- Of the worlds only the pools and the log matter.
Ended-before :
    (n a : ℕ) (t : ThreadObject) (w v w' : World)
    → w.pools ≡ v.pools
    → w.freed ≡ v.freed
    → Ended n a t w w'
    → Ended n a t v w'
Ended-before n a t w v w' pools freed e = record {
  alloc = e.alloc;
  free = e.free;
  object =
      e.object
      ∙ ap
          (λ p.
            operator_delete (log_of t.kernel_memory_pool) (p t.kernel_memory_pool) a
              (stack_freed t.pool n t.stack w.freed))
          pools
      ∙ ap
          (λ f.
            operator_delete (log_of t.kernel_memory_pool) (v.pools t.kernel_memory_pool) a
              (stack_freed t.pool n t.stack f))
          freed;
  others = λ b ne ne'. e.others b ne ne' ∙ ap (λ p. p b) pools;
}

Ended-behind :
    (n a : ℕ) (t : ThreadObject) (w w' v' : World)
    → v'.pools ≡ w'.pools
    → v'.freed ≡ w'.freed
    → Ended n a t w w'
    → Ended n a t w v'
Ended-behind n a t w w' v' pools freed e = record {
  alloc = λ x. ap (λ p. cover x (p t.pool).alloc) pools ∙ e.alloc x;
  free = λ x. ap (λ p. cover x (p t.pool).free) pools ∙ e.free x;
  object =
      ap (λ p. (p t.kernel_memory_pool, v'.freed)) pools
      ∙ ap (λ f. (w'.pools t.kernel_memory_pool, f)) freed
      ∙ e.object;
  others = λ b ne ne'. ap (λ p. p b) pools ∙ e.others b ne ne';
}

-- A thread is deleted in a state that dispatches have led to.
delete_thread-Ended :
    (n a : ℕ) (s s1 : Switch)
    → 0 < n
    → n ≤ 64 * 2 ^ 20 - 2 * page_size
    → Unmoved s s1
    → Owns n (s.thread a) s.world
    → Ended n a (s.thread a) s.world (delete_thread a s1).world
      × ((delete_thread a s1).world.memory_pool ≡ (s.thread a).kernel_memory_pool)
unfolding delete_thread
delete_thread-Ended n a s s1 positive small u o =
    let t = s.thread a in
    let (e, mp) =
      delete-Ended n a t s1.world positive small
        (record { stack = o.stack; own = ap (λ p. p t.pool) u.pools ∙ o.own; apart = o.apart }) in
    subst
      (λ f.
        Ended n a t s.world (Life.delete a (destroy (f a) s1.world))
        × ((Life.delete a (destroy (f a) s1.world)).memory_pool ≡ t.kernel_memory_pool))
      (sym u.thread)
      (
        Ended-before n a t s1.world s.world (Life.delete a (destroy t s1.world)) u.pools u.freed e,
        mp,
      )

-- The thread's own pool is as its constructor left it, and is not the kernel's.
pub end_thread-Ended :
    (n control_thread a next : ℕ) (s : Switch)
    → 0 < n
    → n ≤ 64 * 2 ^ 20 - 2 * page_size
    → Owns n (s.thread a) s.world
    → let s' = end_thread control_thread a next s in
      Ended n a (s.thread a) s.world s'.world
      × (s'.cr3 ≡ (s.thread next).pt)
      × (s'.world.memory_pool ≡ (
          if next == control_thread || s.started next
          then (s.thread next).pool
          else (s.thread a).kernel_memory_pool))
unfolding end_thread delete_thread
end_thread-Ended n control_thread a next s positive small o =
    let s1 = dispatch_to control_thread s in
    let u = dispatch_to-Unmoved control_thread s in
    let (e, mp) = delete_thread-Ended n a s s1 positive small u o in
    let s2 = delete_thread a s1 in
    let v = dispatch_to-Unmoved next s2 in
    let f = dispatch_to-InForce next s2 in
    (
      Ended-behind n a (s.thread a) s.world s2.world (dispatch_to next s2).world v.pools v.freed e,
      f.table ∙ ap (λ g. (g next).pt) u.thread,
      f.pool
          ∙ ap (λ b. if b then (s1.thread next).pool else s2.world.memory_pool)
              (dispatch_to-started control_thread s next)
          ∙ ap
              (λ g.
                if next == control_thread || s.started next
                then (g next).pool
                else s2.world.memory_pool)
              u.thread
          ∙ ap (λ m. if next == control_thread || s.started next then (s.thread next).pool else m)
              mp,
    )

-- The object's release, where the kernel's pool can take it back.
pub Ended-Freed :
    (n a size : ℕ) (t : ThreadObject) (w w' : World)
    → Ended n a t w w'
    → Takes (w.pools t.kernel_memory_pool) size a
    → Freed (w.pools t.kernel_memory_pool) size a (w'.pools t.kernel_memory_pool)
      × (w'.freed
          ≡ visit
              (log_of t.kernel_memory_pool)
              (pages size)
              a
              (stack_freed t.pool n t.stack w.freed))
unfolding operator_delete
Ended-Freed n a size t w w' e takes =
    let (freed, visited) =
      release-Takes (log_of t.kernel_memory_pool) (w.pools t.kernel_memory_pool) size a
        (stack_freed t.pool n t.stack w.freed) takes in
    (
      subst (Freed (w.pools t.kernel_memory_pool) size a) (sym (ap (λ o. o.0) e.object)) freed,
      ap (λ o. o.1) e.object ∙ visited,
    )

-- When the function of a thread returns, the control thread deletes it and the next thread runs.
-- Whatever page table and memory pool were in force: the thread's stack is given back to its own
-- pool, which is as when it was new, and each page of the stack is freed once; then its object goes
-- from the allocated to the free regions of the kernel's pool, and each of its pages is freed once;
-- no other pool changes. The next thread runs with its own page table in the register, and the
-- memory pool in use is its own if it has run before, and the kernel's if it has not. The thread's
-- own pool is as its constructor left it, and is not the kernel's; the kernel's pool is parted, has
-- granted the object's region outside the pages of its tables, and has an entry for a free region
-- left.
pub end_thread_lem :
    (n control_thread a size next : ℕ) (s : Switch)
    → 0 < n
    → n ≤ 64 * 2 ^ 20 - 2 * page_size
    → Owns n (s.thread a) s.world
    → Takes (s.world.pools (s.thread a).kernel_memory_pool) size a
    → management (s.world.pools (s.thread a).kernel_memory_pool) a ≡ false
    → let s' = end_thread control_thread a next s in
      let t = s.thread a in
      Ended n a t s.world s'.world
      × Freed (s.world.pools t.kernel_memory_pool) size a (s'.world.pools t.kernel_memory_pool)
      × (s'.world.freed
          ≡ visit
              (log_of t.kernel_memory_pool)
              (pages size)
              a
              (stack_freed t.pool n t.stack s.world.freed))
      × (s'.cr3 ≡ (s.thread next).pt)
      × (s'.world.memory_pool ≡ (
          if next == control_thread || s.started next
          then (s.thread next).pool
          else t.kernel_memory_pool))
end_thread_lem n control_thread a size next s positive small o takes outside =
    let t = s.thread a in
    let (e, table, pool) = end_thread-Ended n control_thread a next s positive small o in
    let s' = end_thread control_thread a next s in
    let (freed, visited) = Ended-Freed n a size t s.world s'.world e takes in
    (e, freed, visited, table, pool)
