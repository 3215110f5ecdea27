-- ===== src/Scheduler/Tests.antt =====
-- Runs of the schedulers, and their theorems at a queue of three threads.
use multi_process.Base.{ℕ, ◌≡◌, none, update, refl, true, false, [], ◌∷◌, ◌++◌, arith, some, length}
use multi_process.Scheduler.{null, Scheduler, enqueue, dequeue, terminate}
use multi_process.Scheduler.Ring.{Ring, terminate-diverges}
use multi_process.Scheduler.Rotation.{quanta-Ring, terminate-dequeue}
use multi_process.Scheduler.Fifo.{IsQueue}
use multi_process.Scheduler.Stale.{rotate, drain, rotate-stale}
use multi_process.Scheduler.RoundRobin.{Runs}
use multi_process.Scheduler.Quanta.{quanta}
use multi_process.Scheduler.Terminate.{Removed, terminate-Removed}

abbrev idle : Scheduler
idle = record {
  next = λ _. null;
  head = null;
  tail = null;
  control_thread = 90;
  cargo = null;
  current = null;
  running = false;
  interrupts = true;
  ticks = 0;
  hz = 2;
  deleted = [];
}

abbrev queued : Scheduler
queued = enqueue (enqueue (enqueue idle 20) 30) 40

queued-IsQueue : IsQueue queued (20 ∷ 30 ∷ 40 ∷ [])
unfolding enqueue
queued-IsQueue = record { proper = omega arith; shape = (refl, (refl, (refl, refl))) }

-- Thread 10 runs, as after the kernel's `dispatch_to(thread1)`.
abbrev started : Scheduler
started = record queued { current = 10; running = true }

started-Runs : Runs started 10 (20 ∷ 30 ∷ 40 ∷ [])
unfolding enqueue
started-Runs = record {
  queue = record { proper = omega arith; shape = (refl, (refl, (refl, refl))) };
  current = refl;
  started = refl;
  proper = omega arith;
}

rotate-stale_example : (dequeue (drain (length {A = ℕ} (20 ∷ 30 ∷ 40 ∷ [])) (rotate queued))).0 ≡ 30
rotate-stale_example = rotate-stale queued 20 30 (40 ∷ []) queued-IsQueue

terminate-Removed_example :
    (s' : Scheduler) × (terminate 4 started 30 ≡ some s')
    × Removed started (20 ∷ ([] ++ (40 ∷ []))) 30 s'
unfolding enqueue
terminate-Removed_example =
    terminate-Removed started 20 30 [] (40 ∷ []) started-Runs.queue 4 (omega arith) (omega arith)

-- The same threads, once the links are closed to a ring.
abbrev ringed : Scheduler
ringed = record started { next = update (update started.next 40 10) 10 20 }

ringed-Ring : Ring ringed 10 (20 ∷ 30 ∷ 40 ∷ [])
unfolding enqueue
ringed-Ring = record {
  runs = record {
    queue = record { proper = omega arith; shape = (refl, (refl, (refl, refl))) };
    current = refl;
    started = refl;
    proper = omega arith;
  };
  back = refl;
  front = refl;
}

terminate-diverges_example : terminate 1000 ringed 50 ≡ none
terminate-diverges_example =
    terminate-diverges ringed 10 20 30 (40 ∷ []) 50 ringed-Ring (omega arith) (omega arith) 1000

terminate-dequeue_example :
    (s' : Scheduler) × (terminate 4 ringed 20 ≡ some s')
    × (s'.deleted ≡ 20 ∷ ringed.deleted)
    × ((dequeue s').0 ≡ 20)
terminate-dequeue_example = terminate-dequeue 4 ringed 10 20 30 (40 ∷ []) ringed-Ring (omega arith)

quanta-Ring_example :
    (s' : Scheduler) × (quanta 2 started ≡ some (10 ∷ 20 ∷ [], s'))
    × Ring s' 30 (((40 ∷ []) ++ (10 ∷ [])) ++ (20 ∷ []))
unfolding enqueue
quanta-Ring_example =
    quanta-Ring started 10 20 30 (40 ∷ []) started-Runs (omega arith) (omega arith)
