-- ===== src/Kernel/Returns.antt =====
-- Every state of Life is sound, and every thread that returns in it is reclaimed.
use multi_process.Base.{ℕ, ◌+◌, ◌^◌, ◌<◌, ◌≡◌, refl, sym, ap, ◌∙◌, List, [], ◌∷◌, word, arith}
use mathlib.Core.Path.{subst}
use multi_process.PageTable.{Memory}
use multi_process.PageTable.Recursive.{Walks}
use multi_process.Scheduler.{Thread}
use multi_process.Scheduler.Population.{count}
use multi_process.Scheduler.Exit.{thread_shutdown-terminate_thread}
use multi_process.Thread.End.{end_thread, end_thread-Ended}
use multi_process.Kernel.Main.{Linked, BootState, Kernel}
use multi_process.Kernel.Objects.{Small}
use multi_process.Kernel.Multitasking.{Alive, exit}
use multi_process.Kernel.Held.{Held, returned}
use multi_process.Kernel.Conserved.{Reachable-Conserved}
use multi_process.Kernel.Started.{main-Started}
use multi_process.Kernel.Exit.{shut_down}
use multi_process.Kernel.Life.{created, Lives, boot, interrupted, ended, Sound}
use multi_process.Kernel.Sound.{Started-Sound}
use multi_process.Kernel.Reclaim.{
  interrupt-Sound, running-count, Returned, Ended-object, Ended-Sound,
}

shut_down-Returned :
    (fuel : ℕ) (l : Linked) (k : Kernel)
    → Sound l k
    → Alive 3 k.scheduler (created k)
    → l.pool < 2 ^ 29
    → (k' : Kernel) × Returned fuel l k k'
unfolding shut_down
shut_down-Returned fuel l k h al low =
    let (c, xs, held) = Reachable-Conserved h.reachable in go c xs held
  where
    go :
        (c : Thread) (xs : List Thread)
        → Held k.scheduler (created k) c xs
        → (k' : Kernel) × Returned fuel l k k'
    go c [] held = absurd (omega (arith, held.others))
    go c (x ∷ []) held = absurd (omega (arith, held.total, al))
    go c (x ∷ y ∷ ys) held =
        let a = k.scheduler.current in
        let (s, step, e) = thread_shutdown-terminate_thread fuel k.scheduler c x y ys held.runs in
        let (alive, once) =
          subst
            (λ t.
              (count t k.scheduler.deleted < count t (created k))
              × (count t (created k) ≡ count t k.scheduler.deleted + 1))
            (sym held.runs.current) (running-count k.scheduler (created k) c (x ∷ y ∷ ys) held) in
        let deleted = e.deleted ∙ ap (λ t. t ∷ k.scheduler.deleted) (sym held.runs.current) in
        let (reclaimed, table, _) =
          end_thread-Ended 1024 (k.threads 0).0 a s.current k.switch (omega arith) (omega arith)
            (h.owns a alive) in
        let object = Ended-object fuel l k h al low s alive reclaimed in
        (
          record k { scheduler = s; switch = end_thread (k.threads 0).0 a s.current k.switch },
          record {
            step = rw step refl;
            sound =
                Ended-Sound fuel l k h al low s (exit fuel h.reachable al step) deleted alive once
                  reclaimed table;
            deleted = deleted;
            ended = reclaimed;
            object = object.0;
            log = object.1;
          },
        )

Lives-Sound :
    (mmu : Memory → ℕ → ℕ → ℕ) (l : Linked) (b : BootState) (k : Kernel)
    → Walks mmu
    → Small l
    → ((i : ℕ) → l.isr i < word)
    → ((i : ℕ) → l.irq i < word)
    → ((i : ℕ) → b.bitmaps i < 256)
    → Lives l b k
    → Sound l k
Lives-Sound mmu l b k walks small isr irq bytes (boot e) =
    let (k0, started, st) = main-Started mmu walks l b small isr irq bytes in
    returned (Sound l) started e (Started-Sound mmu l k0 st)
Lives-Sound mmu l b k walks small isr irq bytes (interrupted {k = k0} r e) =
    let (k1, step, h) = interrupt-Sound l k0 (Lives-Sound mmu l b k0 walks small isr irq bytes r) in
    returned (Sound l) step e h
Lives-Sound mmu l b k walks small isr irq bytes (ended {k = k0} fuel r al e) =
    let (k1, w) =
      shut_down-Returned fuel l k0 (Lives-Sound mmu l b k0 walks small isr irq bytes r) al
        small.low in
    returned (Sound l) w.step e w.sound

-- As long as no timer interrupt comes inside a call, neither between `resume` and `yield` nor while
-- the control thread deletes a thread: in every state that timer interrupts and returns of threads
-- lead to from `main`, in any order, the return of the running thread succeeds while two others
-- wait: the thread is deleted, its own pool is as when it was new, the page of its object goes from
-- the allocated to the free regions of the kernel's pool, the pages of its stack and then that of
-- its object are freed, each once, and no other pool changes. The state before and the one behind
-- are sound: the register cr3 has the page table of the running thread, each thread that is alive
-- owns its memory pool with its stack in it and has a page for its object granted in the kernel's
-- pool, and the scheduler is in a state of multitasking. Each class of an object that `main` makes
-- with `new` takes at most a page, the pool of the kernel is an object below 512 MB, the addresses
-- of the stubs are words of 32 bits, the bitmaps' memory holds bytes, and the processor translates
-- addresses by the two levels of tables.
pub Lives-Returned :
    (mmu : Memory → ℕ → ℕ → ℕ) (l : Linked) (b : BootState) (k : Kernel) (fuel : ℕ)
    → Walks mmu
    → Small l
    → ((i : ℕ) → l.isr i < word)
    → ((i : ℕ) → l.irq i < word)
    → ((i : ℕ) → b.bitmaps i < 256)
    → Lives l b k
    → Alive 3 k.scheduler (created k)
    → Sound l k × (k' : Kernel) × Returned fuel l k k'
Lives-Returned mmu l b k fuel walks small isr irq bytes r al =
    let h = Lives-Sound mmu l b k walks small isr irq bytes r in
    let (k', w) = shut_down-Returned fuel l k h al small.low in (h, k', w)
