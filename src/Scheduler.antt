-- ===== src/Scheduler.antt =====
-- The schedulers of scheduler.C: a FIFO of threads, linked through `Thread::next`, the round robin
-- scheduler with its end-of-quantum timer, and the interrupt flag of machine.C.
-- A thread is its address, and 0 is NULL. `none` is a failed assertion or a loop out of fuel.
pub mod Fifo
pub mod Stale
pub mod RoundRobin
pub mod Quanta
pub mod Terminate
pub mod Exit
pub mod Population
pub mod Ring
pub mod Rotation
mod Tests
use multi_process.Base.{
  ℕ, zero, suc, ◌+◌, Bool, true, false, not, List, [], ◌∷◌, Option, none, some, ltb, leb, ◌==◌,
  ◌&&◌, ◌||◌, if◌then◌else◌, update,
}
use multi_process.Interrupts.{HandlerTable, register_handler}
use multi_process.Timer

abbrev pub Thread : Type 0
Thread = ℕ

abbrev pub null : Thread
null = 0

-- `next` is the field `Thread::next` of every thread. `interrupts` is the flag IF of the running
-- thread's EFLAGS, `current` is `current_thread`, `cargo` the cargo of the control thread, and
-- `deleted` lists the threads that `delete` was applied to, the latest first.
pub record Scheduler : Type 0 where
  pub next : Thread → Thread
  pub head : Thread
  pub tail : Thread
  pub control_thread : Thread
  pub cargo : Thread
  pub current : Thread
  pub running : Bool
  pub interrupts : Bool
  pub ticks : ℕ
  pub hz : ℕ
  pub deleted : List Thread

infixl 5 ◌>>=◌
abbrev pub ◌>>=◌ {ℓ κ} : {A : Type ℓ} {B : Type κ} → Option A → (A → Option B) → Option B
none >>= f = none
some a >>= f = f a

-- `Machine::enable_interrupts` and `disable_interrupts`, each with its assertion.
unfoldable pub enable_interrupts : Scheduler → Option Scheduler
enable_interrupts s = if s.interrupts then none else some (record s { interrupts = true })

unfoldable pub disable_interrupts : Scheduler → Option Scheduler
disable_interrupts s = if s.interrupts then some (record s { interrupts = false }) else none

-- `if (Machine::interrupts_enabled()) Machine::disable_interrupts();` and its counterpart.
unfoldable pub enter : Scheduler → Option Scheduler
unfolding disable_interrupts
enter s = if s.interrupts then disable_interrupts s else some s

unfoldable pub leave : Scheduler → Option Scheduler
unfolding enable_interrupts
leave s = if not s.interrupts then enable_interrupts s else some s

unfoldable pub enqueue : Scheduler → Thread → Scheduler
enqueue s t =
    if s.tail == null
    then record s { head = t; tail = t }
    else record s { next = update s.next s.tail t; tail = t }

unfoldable pub dequeue : Scheduler → Thread × Scheduler
dequeue s =
    let head' = s.next s.head in
    if s.head == null
    then (null, s)
    else (s.head, record s { head = head'; tail = if head' == null then null else s.tail })

-- `Thread::dispatch_to`. The thread switched to goes on where it was switched away from, or in
-- `thread_start`; in both its saved EFLAGS have the interrupts disabled.
unfoldable pub dispatch_to : Scheduler → Thread → Scheduler
dispatch_to s t = record s { running = true; current = t; interrupts = false }

-- `resume`, which `add` only calls.
unfoldable pub resume : Scheduler → Thread → Option Scheduler
resume s t = enter s >>= λ s1. leave (enqueue s1 t)

unfoldable pub add : Scheduler → Thread → Option Scheduler
add s t = resume s t

-- The dispatch of the next thread, and what that thread runs at once: the end of its own `yield`,
-- or `thread_start`. Both enable the interrupts.
unfoldable pub hand_over : Scheduler → Option Scheduler
hand_over s = let (t, s1) = dequeue s in leave (if t == null then s1 else dispatch_to s1 t)

-- `Scheduler::yield`
unfoldable pub yield : Scheduler → Option Scheduler
yield s = enter s >>= hand_over

-- `RRScheduler::yield`, which overrides it
unfoldable pub rr_yield : Scheduler → Option Scheduler
rr_yield s = enter s >>= λ s1. hand_over (record s1 { ticks = 0 })

-- `EOQTimer::handle_interrupt`, taken as one step. `resume` enables the interrupts, so another one may
-- come before `yield`: that is `nested_interrupt` of Kernel.Nested.
unfoldable pub handle_interrupt : Scheduler → Option Scheduler
handle_interrupt s =
    let s1 = (if s.running then record s { ticks = s.ticks + 1 } else s) in
    if leb s1.hz s1.ticks then resume (record s1 { ticks = 0 }) s1.current >>= rr_yield else some s1

-- The walk of `terminate` to the thread whose `next` is `t`, or to NULL.
unfoldable pub find_prev : ℕ → (Thread → Thread) → Thread → Thread → Option Thread
find_prev zero next prev t = none
find_prev (suc fuel) next prev t =
    let rest = find_prev fuel next (next prev) t in
    if prev == null then some null else if next prev == t then some prev else rest

-- The end of that walk. `delete` is only logged here: what the destructor does to the pools and to the
-- page table in force is in Thread.End, for the thread that ends itself.
unfoldable pub unlink : Scheduler → Thread → Thread → Option Scheduler
unlink s prev t =
    if prev == null || not (s.next prev == t)
    then some s
    else leave (record s {
      next = update s.next prev (s.next t);
      tail = if t == s.tail then prev else s.tail;
      deleted = t ∷ s.deleted;
    })

-- `Scheduler::terminate` up to the point where it returns, or gives up the CPU for good by the
-- dispatch to the control thread.
unfoldable pub terminate : ℕ → Scheduler → Thread → Option Scheduler
terminate fuel s t = enter s >>= λ s1.
    if t == null
    then some s1
    else if t == s1.current
    then some (dispatch_to (record s1 { cargo = t }) s1.control_thread)
    else if s1.head == s1.tail
    then some (
        if s1.head == t
        then record s1 { head = null; tail = null; deleted = t ∷ s1.deleted }
        else s1)
    else find_prev fuel s1.next s1.head t >>= λ prev. unlink s1 prev t

-- One round of `TerminateThread`, run by the control thread, with the `yield` that is in force. It is
-- taken as one step, though it runs with the interrupts enabled.
unfoldable pub terminate_thread : (Scheduler → Option Scheduler) → Scheduler → Option Scheduler
terminate_thread yield s = yield (record s { deleted = s.cargo ∷ s.deleted })

-- `thread_start` and `thread_shutdown`, the latter up to the point where the thread gives up the CPU.
unfoldable pub thread_start : Scheduler → Option Scheduler
unfolding enable_interrupts
thread_start s = enable_interrupts s

unfoldable pub thread_shutdown : ℕ → Scheduler → Option Scheduler
unfolding enter terminate
thread_shutdown fuel s = enter s >>= λ s1. terminate fuel s1 s1.current

-- The constructor of `Scheduler`, for the new control thread; `next` are the links of the threads
-- there are, and interrupts are not enabled yet.
unfoldable pub construct : (Thread → Thread) → Thread → Scheduler
construct next control_thread = record {
  next = next;
  head = null;
  tail = null;
  control_thread = control_thread;
  cargo = null;
  current = null;
  running = false;
  interrupts = false;
  ticks = 0;
  hz = 0;
  deleted = [];
}

-- The constructor of `RRScheduler`, whose timer is at the address `timer`: the scheduler, the
-- timer's writes to ports, and the handlers.
unfoldable pub construct_rr :
    ℕ
    → (Thread → Thread)
    → Thread
    → ℕ
    → HandlerTable
    → Scheduler × List (ℕ × ℕ) × Option HandlerTable
unfolding construct
construct_rr hz next control_thread timer table =
    let (t, ports) = Timer.construct hz in
    (
      record (construct next control_thread) { ticks = t.ticks; hz = t.hz },
      ports,
      register_handler table 0 timer,
    )
