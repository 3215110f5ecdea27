-- ===== src/Kernel/Threads.antt =====
-- The threads that main starts take turns.
use multi_process.Base.{ℕ, ◌<◌, ◌≡◌, refl, ◌∙◌, true, false, List, [], ◌∷◌, ◌++◌, some, arith}
use multi_process.Interrupts.{HandlerTable}
use multi_process.Timer
use multi_process.Scheduler.{
  Thread, Scheduler, enqueue, add, resume, enable_interrupts, thread_start, dispatch_to, construct,
  construct_rr,
}
use multi_process.Scheduler.Fifo.{Proper, NotIn, IsQueue, IsQueue-fields, enqueue-append}
use multi_process.Scheduler.RoundRobin.{Runs, enter-some, leave-some, enqueue-fields}
use multi_process.Scheduler.Quanta.{quanta, quanta-round}
use multi_process.Kernel.{start_threads}

-- A thread added while the threads `xs` wait.
pub record Added (s : Scheduler) (t : Thread) (xs : List Thread) (s' : Scheduler) : Type 0 where
  pub step : add s t ≡ some s'
  pub queue : IsQueue s' (xs ++ (t ∷ []))
  pub ticks : s'.ticks ≡ s.ticks
  pub hz : s'.hz ≡ s.hz
  pub others :
      (s'.current ≡ s.current)
      × (s'.running ≡ s.running)
      × (s'.interrupts ≡ true)
      × (s'.deleted ≡ s.deleted)

abbrev pub added : Scheduler → Thread → Scheduler
added s t = record (enqueue (record s { interrupts = false }) t) { interrupts = true }

pub add-Added :
    (s : Scheduler) (t : Thread) (xs : List Thread)
    → IsQueue s xs
    → 0 < t
    → NotIn t xs
    → Added s t xs (added s t)
unfolding add resume
add-Added s t xs q pos out =
    let s1 : Scheduler = record s { interrupts = false } in
    let (current, running, hz, ticks, deleted) = enqueue-fields s1 t in
    record {
      step = rw (enter-some s) (leave-some (enqueue s1 t));
      queue =
          IsQueue-fields (enqueue s1 t) (added s t) (xs ++ (t ∷ [])) refl refl refl
            (enqueue-append s1 t xs (IsQueue-fields s s1 xs refl refl refl q) pos out);
      ticks = ticks;
      hz = hz;
      others = (current, running, refl, deleted);
    }

pub start_threads-Runs :
    (a b c d : Thread) (s : Scheduler)
    → Proper (a ∷ b ∷ c ∷ d ∷ [])
    → IsQueue s []
    → s.interrupts ≡ false
    → (s' : Scheduler) × (start_threads a b c d s ≡ some s')
      × Runs s' a (b ∷ c ∷ d ∷ [])
      × (s'.ticks ≡ s.ticks)
      × (s'.hz ≡ s.hz)
      × (s'.interrupts ≡ true)
      × (s'.deleted ≡ s.deleted)
unfolding start_threads enable_interrupts thread_start dispatch_to
start_threads-Runs a b c d s p q off =
    let s1 : Scheduler = record s { interrupts = true } in
    let one = add-Added s1 b [] (IsQueue-fields s s1 [] refl refl refl q) (omega (arith, p)) tt in
    let s2 = added s1 b in
    let two = add-Added s2 c (b ∷ []) one.queue (omega (arith, p)) (ground (arith, p)) in
    let s3 = added s2 c in
    let three = add-Added s3 d (b ∷ c ∷ []) two.queue (omega (arith, p)) (ground (arith, p)) in
    let s4 = added s3 d in
    let s' : Scheduler = record s4 { running = true; current = a; interrupts = true } in
    (
      s',
      rw (off, one.step, two.step, three.step) refl,
      record {
        queue = IsQueue-fields s4 s' (b ∷ c ∷ d ∷ []) refl refl refl three.queue;
        current = refl;
        started = refl;
        proper = (p.0, p.1);
      },
      three.ticks ∙ two.ticks ∙ one.ticks,
      three.hz ∙ two.hz ∙ one.hz,
      refl,
      three.others.3 ∙ two.others.3 ∙ one.others.3,
    )

-- On a new round robin scheduler with a quantum of `hz` ticks, `hz` positive, the start of the four
-- threads succeeds, whatever the links of the threads are; then the first runs and the others wait
-- in their order, and each has one quantum in every four, the first one first.
pub start_threads-quanta :
    (hz timer control : ℕ) (next : Thread → Thread) (table : HandlerTable) (a b c d : Thread)
    → 0 < hz
    → Proper (a ∷ b ∷ c ∷ d ∷ [])
    → (s : Scheduler) × (s' : Scheduler) × (start_threads a b c d
          (construct_rr hz next control timer table).0
        ≡ some s)
      × Runs s a (b ∷ c ∷ d ∷ [])
      × (quanta 4 s ≡ some (a ∷ b ∷ c ∷ d ∷ [], s'))
      × Runs s' a (b ∷ c ∷ d ∷ [])
unfolding construct_rr construct Timer.construct Timer.set_frequency
start_threads-quanta hz timer control next table a b c d pos p =
    let s0 = (construct_rr hz next control timer table).0 in
    let q : IsQueue s0 [] = record { proper = tt; shape = (refl, refl) } in
    let (s, start, r, ticks, quantum, _, _) = start_threads-Runs a b c d s0 p q refl in
    let (s', round, r', _) =
      quanta-round s a (b ∷ c ∷ d ∷ []) r (omega arith) ticks (omega (arith, quantum)) in
    (s, s', start, r, round, r')
