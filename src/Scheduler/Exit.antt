-- ===== src/Scheduler/Exit.antt =====
-- The end of a thread whose function has returned.
use multi_process.Base.{ℕ, ◌<◌, ◌≡◌, refl, true, false, List, ◌∷◌, some, ◌==◌, arith, ap, ◌∙◌}
use multi_process.Scheduler.{
  Thread, null, Scheduler, dequeue, dispatch_to, leave, hand_over, rr_yield, terminate,
  terminate_thread, thread_shutdown, ◌>>=◌,
}
use multi_process.Scheduler.Fifo.{IsQueue-fields, dequeue-cons}
use multi_process.Scheduler.RoundRobin.{Runs, enter-some, leave-some}

-- The state in which the control thread goes on.
abbrev at_control : Scheduler → Scheduler
at_control s = record s {
  cargo = s.current;
  running = true;
  current = s.control_thread;
  interrupts = true;
}

thread_shutdown-at_control :
    (fuel : ℕ) (s : Scheduler)
    → 0 < s.current
    → (thread_shutdown fuel s >>= leave) ≡ some (at_control s)
unfolding thread_shutdown terminate dispatch_to
thread_shutdown-at_control fuel s pos =
    let there : (s.current == null) ≡ false = ground arith in
    let itself : (s.current == s.current) ≡ true = ground arith in
    rw (enter-some s, enter-some (record s { interrupts = false }), there, itself) (leave-some _)

-- The state in which the control thread takes the next thread off the queue.
abbrev at_dequeue : Scheduler → Scheduler
at_dequeue s = record s { deleted = s.cargo ∷ s.deleted; interrupts = false; ticks = 0 }

terminate_thread-rr_yield :
    (s : Scheduler)
    → 0 < (dequeue (at_dequeue s)).0
    → terminate_thread rr_yield s
      ≡ some (record (dequeue (at_dequeue s)).1 {
        running = true;
        current = (dequeue (at_dequeue s)).0;
        interrupts = true;
      })
unfolding terminate_thread rr_yield hand_over dispatch_to
terminate_thread-rr_yield s pos =
    let there : ((dequeue (at_dequeue s)).0 == null) ≡ false = ground arith in
    rw (enter-some (record s { deleted = s.cargo ∷ s.deleted }), there) (leave-some _)

-- The threads when `c` has ended and `x` runs, with `xs` waiting.
pub record Exited (s : Scheduler) (c x : Thread) (xs : List Thread) (s' : Scheduler) : Type 0 where
  pub runs : Runs s' x xs
  pub deleted : s'.deleted ≡ c ∷ s.deleted
  pub reset : s'.ticks ≡ 0
  pub enabled : s'.interrupts ≡ true
  pub control : s'.control_thread ≡ s.control_thread
  pub quantum : s'.hz ≡ s.hz

dequeue-kept :
    (s : Scheduler)
    → ((dequeue s).1.deleted ≡ s.deleted)
      × ((dequeue s).1.ticks ≡ s.ticks)
      × ((dequeue s).1.control_thread ≡ s.control_thread)
      × ((dequeue s).1.hz ≡ s.hz)
unfolding dequeue
dequeue-kept s = ground arith

-- When the function of a thread returns while two or more threads wait, its shutdown passes the CPU
-- to the control thread, and one round of that, under round robin, deletes the thread once and
-- runs the first of the waiting ones, with a full quantum before it and the interrupts enabled.
-- No thread is lost from the queue.
pub thread_shutdown-terminate_thread :
    (fuel : ℕ) (s : Scheduler) (c x y : Thread) (ys : List Thread)
    → Runs s c (x ∷ y ∷ ys)
    → (s' : Scheduler) × (((thread_shutdown fuel s >>= leave) >>= terminate_thread rr_yield)
        ≡ some s')
      × Exited s c x (y ∷ ys) s'
thread_shutdown-terminate_thread fuel s c x y ys r =
    let s1 = at_dequeue (at_control s) in
    let q = IsQueue-fields s s1 (x ∷ y ∷ ys) refl refl refl r.queue in
    let (first, rest, _) = dequeue-cons s1 x y ys q in
    let (deleted, ticks, control, hz) = dequeue-kept s1 in
    (
      record (dequeue s1).1 { running = true; current = (dequeue s1).0; interrupts = true },
      rw (thread_shutdown-at_control fuel s (omega (arith, r.current, r.proper.0)))
          (terminate_thread-rr_yield (at_control s) (omega (arith, first, r.queue.proper.0))),
      record {
        runs = record {
          queue = IsQueue-fields (dequeue s1).1 _ (y ∷ ys) refl refl refl rest;
          current = first;
          started = refl;
          proper = (r.queue.proper.0, r.queue.proper.1);
        };
        deleted = deleted ∙ ap (λ t. t ∷ s.deleted) r.current;
        reset = ticks;
        enabled = refl;
        control = control;
        quantum = hz;
      },
    )
