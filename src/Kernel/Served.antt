-- ===== src/Kernel/Served.antt =====
-- Every thread that is alive gets its quantum, whatever went before.
use multi_process.Base.{◌+◌, ◌-◌, ◌≡◌, List, some, length}
use multi_process.Scheduler.{Thread, Scheduler}
use multi_process.Scheduler.Quanta.{interrupts, quanta}
use multi_process.Scheduler.Population.{count}
use multi_process.Kernel.Held.{Held}

-- The rest of the running quantum, and then one quantum for each of the threads `ts`, the threads
-- that are alive, each once.
pub record Served (s : Scheduler) (created : List Thread) (s1 : Scheduler) (ts : List Thread)
    (s2 : Scheduler) : Type 0 where
  pub rest : interrupts (s.hz - s.ticks) s ≡ some s1
  pub round : quanta (length ts) s1 ≡ some (ts, s2)
  pub alive : (t : Thread) → count t ts + count t s.deleted ≡ count t created
  pub total : length ts + length s.deleted ≡ length created
