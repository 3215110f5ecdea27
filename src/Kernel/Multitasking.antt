-- ===== src/Kernel/Multitasking.antt =====
-- The kernel from the start of the threads on, as steps that can come in any order: timer
-- interrupts, and the calls of threads on the round robin scheduler. A step is a whole call: that no
-- timer interrupt comes inside one is an assumption, since the interrupts are enabled between `resume`
-- and `yield`, and while the control thread deletes a thread. Nested drops it in one place.
use multi_process.Base.{ℕ, ◌+◌, ◌<◌, ◌≤◌, ◌≡◌, ◌≢◌, List, [], ◌∷◌, some, length, update}
use multi_process.Interrupts.{HandlerTable}
use multi_process.Scheduler.{
  Thread, null, Scheduler, add, construct_rr, handle_interrupt, leave, resume, rr_yield, terminate,
  terminate_thread, thread_shutdown, ◌>>=◌,
}
use multi_process.Scheduler.Fifo.{Proper}
use multi_process.Scheduler.Population.{count}
use multi_process.Kernel.{start_threads}

-- As many threads are alive, running or waiting.
abbrev pub Alive : ℕ → Scheduler → List Thread → Type 0
Alive n s created = n + length s.deleted ≤ length created

-- The thread is not alive: each that was created at its address has been deleted.
abbrev pub Gone : Thread → Scheduler → List Thread → Type 0
Gone t s created = count t created ≡ count t s.deleted

-- The constructor of a thread sets its link to NULL.
abbrev pub linked_nowhere : Scheduler → Thread → Scheduler
linked_nowhere s t = record s { next = update s.next t null }

-- The states of the scheduler, with the threads created so far, the latest first. A thread gives
-- the CPU away with `resume` and `yield`; its function returns only while two others wait; a
-- thread is added when it is new, at an address where no thread is alive; one that is terminated
-- by another waits behind a third.
pub data Reachable : Scheduler → List Thread → Type 0 where
  start :
      {a b c d : Thread} {s : Scheduler} (hz timer control : ℕ) (next : Thread → Thread)
      (table : HandlerTable)
      → 0 < hz
      → Proper (a ∷ b ∷ c ∷ d ∷ [])
      → start_threads a b c d (construct_rr hz next control timer table).0 ≡ some s
      → Reachable s (a ∷ b ∷ c ∷ d ∷ [])
  tick :
      {s s' : Scheduler} {created : List Thread}
      → Reachable s created
      → handle_interrupt s ≡ some s'
      → Reachable s' created
  pass :
      {s s' : Scheduler} {created : List Thread}
      → Reachable s created
      → (resume s s.current >>= rr_yield) ≡ some s'
      → Reachable s' created
  exit :
      {s s' : Scheduler} {created : List Thread} (fuel : ℕ)
      → Reachable s created
      → Alive 3 s created
      → ((thread_shutdown fuel s >>= leave) >>= terminate_thread rr_yield) ≡ some s'
      → Reachable s' created
  create :
      {s s' : Scheduler} {created : List Thread} (t : Thread)
      → Reachable s created
      → 0 < t
      → Gone t s created
      → add (linked_nowhere s t) t ≡ some s'
      → Reachable s' (t ∷ created)
  kill :
      {s s' : Scheduler} {created : List Thread} (fuel : ℕ) (t : Thread)
      → Reachable s created
      → length created < fuel
      → count t s.deleted < count t created
      → t ≢ s.current
      → t ≢ s.head
      → terminate fuel s t ≡ some s'
      → Reachable s' created
