-- ===== src/Thread/Switch.antt =====
-- `dispatch_to` of thread.C, with the page table and the memory pool that it puts in force.
use multi_process.Base.{ℕ, Bool, true, List, [], ◌∷◌, if◌then◌else◌, update}
use multi_process.Thread.Life.{World, ThreadObject}

-- The threads by their address, which of them have run, the one that runs, and the page table whose
-- directory is in the register cr3; `world.loaded` is `current_page_table`.
pub record Switch : Type 0 where
  pub world : World
  pub thread : ℕ → ThreadObject
  pub started : ℕ → Bool
  pub current : ℕ
  pub cr3 : ℕ

-- `threads_low_switch_to`, which loads cr3 itself.
unfoldable pub low_switch : ℕ → Switch → Switch
low_switch t s = record s { started = update s.started t true; current = t; cr3 = (s.thread t).pt }

-- The end of `dispatch_to`, in the thread that runs.
unfoldable pub return_to : Switch → Switch
return_to s =
    let t = s.thread s.current in
    record s { world = record s.world { loaded = t.pt; memory_pool = t.pool }; cr3 = t.pt }

-- The call up to the point where the thread `t` goes on with its own code: one that has run returns
-- from its own call, a new one begins in `thread_start` instead.
unfoldable pub dispatch_to : ℕ → Switch → Switch
unfolding low_switch return_to
dispatch_to t s = let s1 = low_switch t s in if s.started t then return_to s1 else s1

-- A history of dispatches, the first one first.
unfoldable pub dispatches : List ℕ → Switch → Switch
unfolding dispatch_to
dispatches [] s = s
dispatches (t ∷ ts) s = dispatches ts (dispatch_to t s)
