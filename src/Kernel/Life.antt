-- ===== src/Kernel/Life.antt =====
-- The whole kernel behind main, as timer interrupts and returns of threads come in any order, each a
-- whole step: no interrupt comes in the course of another or of a return.
use multi_process.Base.{
  ℕ, ◌+◌, ◌*◌, ◌<◌, ◌≡◌, Bool, List, [], ◌∷◌, Option, some, leb, if◌then◌else◌,
}
use multi_process.Scheduler.{Thread, Scheduler, handle_interrupt, ◌>>=◌}
use multi_process.Scheduler.Population.{count}
use multi_process.Thread.Switch.{dispatch_to}
use multi_process.Thread.End.{Owns}
use multi_process.Kernel.Main.{Linked, BootState, Kernel, main}
use multi_process.Kernel.Objects.{page}
use multi_process.Kernel.Multitasking.{Reachable, Alive}
use multi_process.Kernel.Exit.{shut_down}
use multi_process.Kernel.Stock.{Keeps}

-- The tick that comes ends the quantum.
abbrev pub quantum_over : Scheduler → Bool
quantum_over s = leb s.hz (if s.running then s.ticks + 1 else s.ticks)

-- A timer interrupt: at the end of a quantum the scheduler's choice is dispatched.
unfoldable pub interrupt : Kernel → Option Kernel
unfolding handle_interrupt dispatch_to
interrupt k = handle_interrupt k.scheduler >>= λ s. some (record k {
  scheduler = s;
  switch = if quantum_over k.scheduler then dispatch_to s.current k.switch else k.switch;
})

-- The threads that main has made.
abbrev pub created : Kernel → List Thread
created k = (k.threads 1).0 ∷ (k.threads 2).0 ∷ (k.threads 3).0 ∷ (k.threads 4).0 ∷ []

-- The kernel's states; a thread returns only while two others wait.
pub data Lives (l : Linked) (b : BootState) : Kernel → Type 0 where
  boot : {k : Kernel} → main l b ≡ some k → Lives l b k
  interrupted : {k k' : Kernel} → Lives l b k → interrupt k ≡ some k' → Lives l b k'
  ended :
      {k k' : Kernel} (fuel : ℕ)
      → Lives l b k
      → Alive 3 k.scheduler (created k)
      → shut_down fuel k ≡ some k'
      → Lives l b k'

-- Thread `t` stands with its memory pool in pages of its own.
pub record Placed (l : Linked) (k : Kernel) (t : Thread) : Type 0 where
  pub i : ℕ
  pub at : t ≡ page (3 * i)
  pub pool : (k.switch.thread t).pool ≡ page (3 * i + 2)
  pub kernel : (k.switch.thread t).kernel_memory_pool ≡ l.pool

-- The scheduler is in a state of multitasking, the register cr3 has the page table of the running
-- thread, and each thread that has not been deleted owns its memory pool, with its stack in it, and
-- has its object in the kernel's pool.
pub record Sound (l : Linked) (k : Kernel) : Type 0 where
  pub reachable : Reachable k.scheduler (created k)
  pub table : k.switch.cr3 ≡ (k.switch.thread k.scheduler.current).pt
  pub owns :
      (t : Thread)
      → count t k.scheduler.deleted < count t (created k)
      → Owns 1024 (k.switch.thread t) k.switch.world
  pub placed : (t : Thread) → 0 < count t (created k) → Placed l k t
  pub stock : Keeps (k.switch.world.pools l.pool) (created k) k.scheduler.deleted
