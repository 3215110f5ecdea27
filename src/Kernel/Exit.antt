-- ===== src/Kernel/Exit.antt =====
-- The end of a thread in the whole kernel: the scheduler of scheduler.C, the destructor of thread.C and
-- the operator delete of kernel.C.
use multi_process.Base.{
  ◌≢◌, ℕ, ◌<◌, ◌≡◌, refl, sym, ap, ◌∙◌, true, false, [], ◌∷◌, Option, some, ◌==◌, ◌||◌,
  if◌then◌else◌, word, arith,
}
use mathlib.Core.Path.{subst}
use multi_process.PageTable.{Memory}
use multi_process.PageTable.Recursive.{Walks}
use multi_process.Scheduler.{leave, rr_yield, terminate_thread, thread_shutdown, ◌>>=◌}
use multi_process.Scheduler.RoundRobin.{Runs}
use multi_process.Scheduler.Exit.{thread_shutdown-terminate_thread}
use multi_process.Thread.Life.{ThreadObject}
use multi_process.Thread.Switch.{Switch, low_switch, return_to, dispatch_to}
use multi_process.Thread.End.{end_thread, Ended, Owns, end_thread-Ended}
use multi_process.Kernel.Main.{Linked, BootState, Kernel, main, main_switch}
use multi_process.Kernel.Objects.{Small, page}
use multi_process.Kernel.Started.{Started, main-Started}

-- The function of the running thread returns, up to where the next thread runs.
unfoldable pub shut_down : ℕ → Kernel → Option Kernel
unfolding thread_shutdown leave terminate_thread rr_yield end_thread
shut_down fuel k =
    ((thread_shutdown fuel k.scheduler >>= leave) >>= terminate_thread rr_yield) >>= λ s.
    some (record k {
      scheduler = s;
      switch = end_thread (k.threads 0).0 k.scheduler.current s.current k.switch;
    })

-- What is left of thread 1 when it has ended and thread 2 runs.
pub record Reclaimed (l : Linked) (k : Kernel) (s : Switch) : Type 0 where
  pub ended : Ended 1024 (k.threads 1).0 (k.threads 1).1 k.switch.world s.world
  pub table : s.cr3 ≡ (k.threads 2).1.pt
  pub pool : s.world.memory_pool ≡ l.pool

module _ (mmu : Memory → ℕ → ℕ → ℕ) (l : Linked) (k : Kernel) (st : Started mmu l k) where
  pub object_at :
      (k.switch.thread (k.threads 1).0 ≡ (k.threads 1).1)
      × (k.switch.thread (k.threads 2).0 ≡ (k.threads 2).1)
      × (k.switch.thread (k.threads 3).0 ≡ (k.threads 3).1)
      × (k.switch.thread (k.threads 4).0 ≡ (k.threads 4).1)
  unfolding main_switch dispatch_to low_switch return_to
  object_at =
      let own : (t : ℕ) → (t == t) ≡ true = λ t. ground arith in
      let apart : (i j t u : ℕ) → t ≡ page i → u ≡ page j → i ≢ j → (t == u) ≡ false =
        λ i j t u e e' ne. ground (arith, e, e') in
      let at1 = st.one.at in
      let at2 = st.two.at in
      let at3 = st.three.at in
      let at4 = st.four.at in
      (
        ap (λ s. s.thread (k.threads 1).0) st.dispatched ∙ rw (own (k.threads 1).0) refl,
        ap (λ s. s.thread (k.threads 2).0) st.dispatched
            ∙ rw (apart 3 6 _ _ at1 at2 (omega arith), own (k.threads 2).0) refl,
        ap (λ s. s.thread (k.threads 3).0) st.dispatched
            ∙ rw
                (
                  apart 3 9 _ _ at1 at3 (omega arith),
                  apart 6 9 _ _ at2 at3 (omega arith),
                  own (k.threads 3).0,
                )
                refl,
        ap (λ s. s.thread (k.threads 4).0) st.dispatched
            ∙ rw
                (
                  apart 3 12 _ _ at1 at4 (omega arith),
                  apart 6 12 _ _ at2 at4 (omega arith),
                  apart 9 12 _ _ at3 at4 (omega arith),
                  own (k.threads 4).0,
                )
                refl,
      )

  second_new : ((k.threads 2).0 == (k.threads 0).0 || k.switch.started (k.threads 2).0) ≡ false
  unfolding main_switch dispatch_to low_switch return_to
  second_new =
      let apart : ((k.threads 1).0 == (k.threads 2).0) ≡ false =
        ground (arith, st.one.at, st.two.at) in
      let unlike : ((k.threads 2).0 == (k.threads 0).0) ≡ false =
        ground (arith, st.control, st.two.at) in
      let new : k.switch.started (k.threads 2).0 ≡ false =
        ap (λ s. s.started (k.threads 2).0) st.dispatched ∙ rw apart refl in
      rw (unlike, new) refl

  first-Reclaimed :
      Reclaimed l k (end_thread (k.threads 0).0 (k.threads 1).0 (k.threads 2).0 k.switch)
  first-Reclaimed =
      let (here, next, _, _) = object_at in
      let (e, table, pool) =
        end_thread-Ended 1024 (k.threads 0).0 (k.threads 1).0 (k.threads 2).0 k.switch (omega arith)
          (omega arith) (subst (λ t. Owns 1024 t k.switch.world) (sym here) st.owns.0) in
      record {
        ended =
            subst
              (λ t.
                Ended 1024 (k.threads 1).0 t k.switch.world
                  (end_thread (k.threads 0).0 (k.threads 1).0 (k.threads 2).0 k.switch).world)
              here e;
        table = table ∙ ap (λ (t : ThreadObject). t.pt) next;
        pool =
            pool
            ∙ ap
                (λ b.
                  if b
                  then (k.switch.thread (k.threads 2).0).pool
                  else (k.switch.thread (k.threads 1).0).kernel_memory_pool)
                second_new
            ∙ ap (λ (t : ThreadObject). t.kernel_memory_pool) here
            ∙ st.one.kernel_pool;
      }

-- The kernel when thread 1 has ended.
pub record Left (l : Linked) (k k' : Kernel) : Type 0 where
  pub runs : Runs k'.scheduler (k.threads 2).0 ((k.threads 3).0 ∷ (k.threads 4).0 ∷ [])
  pub deleted : k'.scheduler.deleted ≡ (k.threads 1).0 ∷ k.scheduler.deleted
  pub reclaimed : Reclaimed l k k'.switch

Started-Left :
    (mmu : Memory → ℕ → ℕ → ℕ) (l : Linked) (k : Kernel) (fuel : ℕ)
    → Started mmu l k
    → (k' : Kernel) × (shut_down fuel k ≡ some k') × Left l k k'
unfolding shut_down
Started-Left mmu l k fuel st =
    let runs = st.running.runs in
    let (s, step, e) =
      thread_shutdown-terminate_thread fuel k.scheduler (k.threads 1).0 (k.threads 2).0
        (k.threads 3).0 ((k.threads 4).0 ∷ []) runs in
    let same : end_thread (k.threads 0).0 (k.threads 1).0 (k.threads 2).0 k.switch
        ≡ end_thread (k.threads 0).0 k.scheduler.current s.current k.switch =
      ap (λ a. end_thread (k.threads 0).0 a (k.threads 2).0 k.switch) (sym runs.current)
      ∙ ap (λ a. end_thread (k.threads 0).0 k.scheduler.current a k.switch) (sym e.runs.current) in
    (
      record k {
        scheduler = s;
        switch = end_thread (k.threads 0).0 k.scheduler.current s.current k.switch;
      },
      rw step refl,
      record {
        runs = e.runs;
        deleted = e.deleted;
        reclaimed = subst (Reclaimed l k) same (first-Reclaimed mmu l k st);
      },
    )

-- When thread 1 that `main` has started returns, thread 2 runs, with its own page table in the
-- register and the kernel's pool in use, and threads 3 and 4 wait. Thread 1 is deleted once: each
-- page of its stack is freed once, its own pool is as when it was new, its object is released in
-- the kernel's pool, and no other pool changes. Each class of an object that `main` makes with
-- `new` takes at most a page, the pool of the kernel is an object below 512 MB, the addresses of
-- the stubs are words of 32 bits, the bitmaps' memory holds bytes, and the processor translates
-- addresses by the two levels of tables.
pub shut_down-main :
    (mmu : Memory → ℕ → ℕ → ℕ) (l : Linked) (b : BootState) (fuel : ℕ)
    → Walks mmu
    → Small l
    → ((i : ℕ) → l.isr i < word)
    → ((i : ℕ) → l.irq i < word)
    → ((i : ℕ) → b.bitmaps i < 256)
    → (k : Kernel) × (k' : Kernel) × (main l b ≡ some k)
      × (shut_down fuel k ≡ some k')
      × Left l k k'
shut_down-main mmu l b fuel walks small isr irq bytes =
    let (k, started, st) = main-Started mmu walks l b small isr irq bytes in
    let (k', step, left) = Started-Left mmu l k fuel st in (k, k', started, step, left)
