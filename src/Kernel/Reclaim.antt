-- ===== src/Kernel/Reclaim.antt =====
-- Whatever the order of interrupts and returns in Life, each thread that ends is reclaimed.
use multi_process.Base.{
  Bool, ℕ, ◌+◌, ◌^◌, ◌<◌, ◌≡◌, ◌≢◌, refl, sym, ap, ◌∙◌, true, false, List, [], ◌∷◌, some,
  if◌then◌else◌, arith, dec_lt,
}
use multi_process.Scheduler.{Thread, Scheduler, handle_interrupt, resume, rr_yield, ◌>>=◌}
use multi_process.Scheduler.Population.{count}
use multi_process.Scheduler.Ring.{NotIn-ne}
use multi_process.Scheduler.RoundRobin.{resume-rr_yield-Switched}
use multi_process.Scheduler.Quanta.{handle_interrupt-tick, handle_interrupt-last, Runs-ticks}
use multi_process.Thread.Life.{ThreadObject}
use multi_process.Thread.Switch.{Switch, dispatch_to}
use multi_process.Thread.InForce.{dispatch_to-InForce}
use multi_process.VmPool.{page_size}
use multi_process.VmPool.Release.{Freed, visit, pages}
use multi_process.VmPool.Return.{Takes}
use multi_process.Thread.Lifetime.{stack_freed}
use multi_process.Kernel.Stock.{Keeps, Keeps-Takes, Freed-Keeps}
use mathlib.Core.Path.{subst}
use multi_process.Thread.End.{
  log_of, Ended-Freed, Ended, dispatch_to-Unmoved, delete_thread, end_thread,
}
use multi_process.Kernel.Main.{Linked, Kernel}
use multi_process.Kernel.Multitasking.{Reachable, Alive, tick}
use multi_process.Kernel.Held.{Held}
use multi_process.Kernel.Conserved.{Reachable-Conserved}
use multi_process.Kernel.Exit.{shut_down}
use multi_process.Kernel.Life.{quantum_over, interrupt, created, Sound}
use multi_process.Kernel.Sound.{Placed-thread, Owns-pool, Unmoved-Sound}

interrupt-some :
    (k : Kernel) (s : Scheduler) (b : Bool)
    → handle_interrupt k.scheduler ≡ some s
    → quantum_over k.scheduler ≡ b
    → interrupt k
      ≡ some (record k {
        scheduler = s;
        switch = if b then dispatch_to s.current k.switch else k.switch;
      })
unfolding interrupt
interrupt-some k s b step over = rw (step, over) refl

module _ (l : Linked) (k : Kernel) (h : Sound l k) where
  -- Before the quantum is over.
  tick-Sound :
      (c : Thread) (xs : List Thread)
      → Held k.scheduler (created k) c xs
      → k.scheduler.ticks + 1 < k.scheduler.hz
      → (k' : Kernel) × (interrupt k ≡ some k') × Sound l k'
  tick-Sound c xs held lt =
      let s : Scheduler = record k.scheduler { ticks = k.scheduler.ticks + 1 } in
      let step = handle_interrupt-tick k.scheduler held.runs.started lt in
      let goes_on : quantum_over k.scheduler ≡ false = ground (arith, held.runs.started) in
      (
        record k { scheduler = s },
        interrupt-some k s false step goes_on,
        Unmoved-Sound l k s k.switch h
            (record { pools = refl; freed = refl; thread = refl; kernel = refl }) refl
            (tick h.reachable step) h.table,
      )

  -- At its end the first of the waiting threads is dispatched.
  switch-Sound :
      (c x : Thread) (ys : List Thread)
      → Held k.scheduler (created k) c (x ∷ ys)
      → k.scheduler.ticks + 1 ≡ k.scheduler.hz
      → (k' : Kernel) × (interrupt k ≡ some k') × Sound l k'
  switch-Sound c x ys held e =
      let s0 : Scheduler = record k.scheduler { ticks = 0 } in
      let (s, step, w) =
        resume-rr_yield-Switched s0 c x ys (Runs-ticks k.scheduler c (x ∷ ys) 0 held.runs) in
      let last : handle_interrupt k.scheduler ≡ some s =
        handle_interrupt-last k.scheduler held.runs.started e
        ∙ ap (λ t. resume s0 t >>= rr_yield) held.runs.current
        ∙ step in
      let over : quantum_over k.scheduler ≡ true = ground (arith, held.runs.started) in
      (
        record k { scheduler = s; switch = dispatch_to s.current k.switch },
        interrupt-some k s true last over,
        Unmoved-Sound l k s (dispatch_to s.current k.switch) h
            (dispatch_to-Unmoved s.current k.switch) w.kept (tick h.reachable last)
            (dispatch_to-InForce s.current k.switch).table,
      )

  pub interrupt-Sound : (k' : Kernel) × (interrupt k ≡ some k') × Sound l k'
  interrupt-Sound =
      let (c, xs, held) = Reachable-Conserved h.reachable in
      elim (dec_lt (k.scheduler.ticks + 1) k.scheduler.hz) [
        | yes lt ↦ tick-Sound c xs held lt
        | no ge ↦ at_end c xs held (omega (arith, held.quantum))
      ]
    where
      at_end :
          (c : Thread) (xs : List Thread)
          → Held k.scheduler (created k) c xs
          → k.scheduler.ticks + 1 ≡ k.scheduler.hz
          → (k' : Kernel) × (interrupt k ≡ some k') × Sound l k'
      at_end c [] held e = absurd (omega (arith, held.others))
      at_end c (x ∷ ys) held e = switch-Sound c x ys held e

end_thread-thread :
    (control a next : ℕ) (s : Switch) → (end_thread control a next s).thread ≡ s.thread
unfolding end_thread delete_thread
end_thread-thread control a next s =
    (dispatch_to-Unmoved next (delete_thread a (dispatch_to control s))).thread
    ∙ (dispatch_to-Unmoved control s).thread

-- The running thread is alive, and once.
pub running-count :
    (s : Scheduler) (created : List Thread) (c : Thread) (xs : List Thread)
    → Held s created c xs
    → (count c s.deleted < count c created) × (count c created ≡ count c s.deleted + 1)
unfolding count
running-count s created c xs h =
    let waits : count c xs ≡ 0 = elim (dec_lt 0 (count c xs)) [
      | yes pos ↦ absurd (NotIn-ne c c xs h.runs.proper.1 pos refl)
      | no none ↦ omega (arith, none)
    ] in
    (ground (arith, h.balance c, waits), ground (arith, h.balance c, waits))

-- The running thread has ended. Its object, which has a page, is taken back by the kernel's pool, and
-- the pages of its stack and of its object are freed in this order, and no other.
pub record Returned (fuel : ℕ) (l : Linked) (k k' : Kernel) : Type 0 where
  pub step : shut_down fuel k ≡ some k'
  pub sound : Sound l k'
  pub deleted : k'.scheduler.deleted ≡ k.scheduler.current ∷ k.scheduler.deleted
  pub ended :
      Ended 1024 k.scheduler.current
        (k.switch.thread k.scheduler.current)
        k.switch.world
        k'.switch.world
  pub object :
      Freed
        (k.switch.world.pools l.pool)
        page_size
        k.scheduler.current
        (k'.switch.world.pools l.pool)
  pub log :
      k'.switch.world.freed
      ≡ visit (log_of l.pool) (pages page_size) k.scheduler.current (
          stack_freed
            (k.switch.thread k.scheduler.current).pool
            1024
            (k.switch.thread k.scheduler.current).stack
            k.switch.world.freed)

module _ (fuel : ℕ) (l : Linked) (k : Kernel) (h : Sound l k) (al : Alive 3 k.scheduler (created k))
    (low : l.pool < 2 ^ 29) (s : Scheduler) where
  abbrev behind : Kernel
  behind = record k {
    scheduler = s;
    switch = end_thread (k.threads 0).0 k.scheduler.current s.current k.switch;
  }

  -- The kernel's pool takes the object of the running thread back.
  pub Ended-object :
      count k.scheduler.current k.scheduler.deleted < count k.scheduler.current (created k)
      → Ended 1024 k.scheduler.current
          (k.switch.thread k.scheduler.current)
          k.switch.world
          behind.switch.world
      → Freed
          (k.switch.world.pools l.pool)
          page_size
          k.scheduler.current
          (behind.switch.world.pools l.pool)
        × (behind.switch.world.freed
            ≡ visit (log_of l.pool) (pages page_size) k.scheduler.current (
                stack_freed
                  (k.switch.thread k.scheduler.current).pool
                  1024
                  (k.switch.thread k.scheduler.current).stack
                  k.switch.world.freed))
  Ended-object alive e =
      let a = k.scheduler.current in
      let t = k.switch.thread a in
      let p = h.placed a (omega (arith, alive)) in
      let takes =
        Keeps-Takes (k.switch.world.pools l.pool) (created k) k.scheduler.deleted a h.stock alive
          (omega (arith, al)) in
      subst
        (λ m.
          Freed (k.switch.world.pools m) page_size a (behind.switch.world.pools m)
          × (behind.switch.world.freed
              ≡ visit (log_of m) (pages page_size) a
                  (stack_freed t.pool 1024 t.stack k.switch.world.freed)))
        p.kernel
        (Ended-Freed 1024 a page_size t k.switch.world behind.switch.world e
          (subst (λ m. Takes (k.switch.world.pools m) page_size a) (sym p.kernel) takes))

  -- What is left of the others when the running thread `a` has been reclaimed.
  pub Ended-Sound :
      Reachable s (created k)
      → s.deleted ≡ k.scheduler.current ∷ k.scheduler.deleted
      → count k.scheduler.current k.scheduler.deleted < count k.scheduler.current (created k)
      → count k.scheduler.current (created k) ≡ count k.scheduler.current k.scheduler.deleted + 1
      → Ended 1024 k.scheduler.current
          (k.switch.thread k.scheduler.current)
          k.switch.world
          behind.switch.world
      → behind.switch.cr3 ≡ (k.switch.thread s.current).pt
      → Sound l behind
  unfolding count
  Ended-Sound r deleted alive once e table =
      let a = k.scheduler.current in
      let same = end_thread-thread (k.threads 0).0 a s.current k.switch in
      let p = h.placed a (omega (arith, alive)) in
      record {
        reachable = r;
        table = table ∙ ap (λ (f : ℕ → ThreadObject). (f s.current).pt) (sym same);
        owns = λ t lt.
            let ne : a ≢ t = λ e. ground (
              arith,
              lt,
              ap (count t) deleted,
              once,
              ap (λ z. count z (created k)) e,
              ap (λ z. count z k.scheduler.deleted) e,
            ) in
            let before : count t k.scheduler.deleted < count t (created k) =
              ground (arith, lt, ap (count t) deleted) in
            let q = h.placed t (omega (arith, before)) in
            Owns-pool 1024 k.switch behind.switch t same
              (e.others (k.switch.thread t).pool
                (λ f. ne (omega (arith, f, p.pool, q.pool, p.at, q.at)))
                (λ f. omega (arith, f, p.kernel, q.pool, low)))
              (h.owns t before);
        placed = λ t pos. Placed-thread l k behind t same (h.placed t pos);
        stock = subst (Keeps (behind.switch.world.pools l.pool) (created k)) (sym deleted) (
            Freed-Keeps (k.switch.world.pools l.pool) (behind.switch.world.pools l.pool) (created k)
              k.scheduler.deleted a h.stock (omega (arith, al)) once (Ended-object alive e).0);
      }
