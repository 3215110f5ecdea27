-- ===== src/Kernel/History.antt =====
-- A history of the kernel with every kind of step: four threads with a quantum of one tick.
use multi_process.Base.{◌≡◌, refl, [], ◌∷◌, true, update, some, none, replicate, arith}
use multi_process.Interrupts.{HandlerTable}
use multi_process.Timer
use multi_process.Scheduler.{
  null, Scheduler, enter, leave, enable_interrupts, disable_interrupts, enqueue, dequeue, hand_over,
  dispatch_to, thread_start, find_prev, unlink, add, construct, construct_rr, handle_interrupt,
  resume, rr_yield, terminate, terminate_thread, thread_shutdown, ◌>>=◌,
}
use multi_process.Scheduler.Population.{count}
use multi_process.Kernel.{start_threads}
use multi_process.Kernel.Multitasking.{
  linked_nowhere, Reachable, start, tick, pass, exit, create, kill,
}
use multi_process.Kernel.Held.{Conserved}
use multi_process.Kernel.Nested.{Lost, nested_interrupt-Lost}
use multi_process.Scheduler.RoundRobin.{Runs}
use multi_process.Kernel.Served.{Served}

abbrev handlers : HandlerTable
handlers = replicate 16 none

abbrev booted : Scheduler
booted = record {
  next = update (update (λ _. 0) 30 40) 40 50;
  head = 30;
  tail = 50;
  control_thread = 10;
  cargo = null;
  current = 20;
  running = true;
  interrupts = true;
  ticks = 0;
  hz = 1;
  deleted = [];
}

booted_step : start_threads 20 30 40 50 (construct_rr 1 (λ _. 0) 10 7 handlers).0 ≡ some booted
unfolding start_threads construct_rr construct Timer.construct Timer.set_frequency enable_interrupts
    disable_interrupts enter leave enqueue dispatch_to thread_start add resume
booted_step = refl

abbrev interrupted : Scheduler
interrupted = record booted { next = update booted.next 50 20; head = 40; tail = 20; current = 30 }

interrupted_step : handle_interrupt booted ≡ some interrupted
unfolding handle_interrupt resume rr_yield enter leave enable_interrupts disable_interrupts enqueue
    dequeue hand_over dispatch_to
interrupted_step = refl

-- Thread 30 returns.
abbrev ended : Scheduler
ended = record interrupted { head = 50; current = 40; cargo = 30; deleted = 30 ∷ [] }

ended_step : ((thread_shutdown 0 interrupted >>= leave) >>= terminate_thread rr_yield) ≡ some ended
unfolding thread_shutdown terminate terminate_thread rr_yield enter leave enable_interrupts
    disable_interrupts dequeue hand_over dispatch_to
ended_step = refl

-- A new thread is made at the same address.
abbrev reused : Scheduler
reused = record ended { next = update (update ended.next 30 null) 20 30; tail = 30 }

reused_step : add (linked_nowhere ended 30) 30 ≡ some reused
unfolding add resume enter leave enable_interrupts disable_interrupts enqueue
reused_step = refl

-- Thread 20 is terminated by thread 40.
abbrev killed : Scheduler
killed = record reused { next = update reused.next 50 30; deleted = 20 ∷ 30 ∷ [] }

killed_step : terminate 6 reused 20 ≡ some killed
unfolding terminate find_prev unlink enter leave enable_interrupts disable_interrupts
killed_step = refl

-- Thread 40 gives the CPU away.
abbrev passed : Scheduler
passed = record killed { next = update killed.next 30 40; head = 30; tail = 40; current = 50 }

passed_step : (resume killed 40 >>= rr_yield) ≡ some passed
unfolding resume rr_yield enter leave enable_interrupts disable_interrupts enqueue dequeue hand_over
    dispatch_to
passed_step = refl

abbrev history : Reachable passed (30 ∷ 20 ∷ 30 ∷ 40 ∷ 50 ∷ [])
unfolding count
history =
    pass
      (kill 6 20
        (create 30
          (exit 0
            (tick (start 1 7 10 (λ _. 0) handlers (omega arith) (omega arith) booted_step)
              interrupted_step)
            (omega arith) ended_step)
          (omega arith) refl reused_step)
        (omega arith) (omega arith) (omega arith) (omega arith) killed_step)
      passed_step

booted-Runs : Runs booted 20 (30 ∷ 40 ∷ 50 ∷ [])
booted-Runs = record {
  queue = record { proper = omega arith; shape = (refl, (refl, (refl, refl))) };
  current = refl;
  started = refl;
  proper = omega arith;
}

nested_interrupt-Lost_example :
    (s1 : Scheduler) × (s2 : Scheduler) × (s3 : Scheduler) × Lost booted 20 30
      (40 ∷ 50 ∷ [])
      s1
      s2
      s3
nested_interrupt-Lost_example = nested_interrupt-Lost booted 20 30 40 (50 ∷ []) booted-Runs refl
