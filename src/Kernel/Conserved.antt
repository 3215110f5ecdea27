-- ===== src/Kernel/Conserved.antt =====
-- No thread is lost: every run of Multitasking keeps the invariant.
use multi_process.Base.{
  ◌∙◌, ap, sym, ℕ, ◌<◌, ◌≡◌, refl, ◌≢◌, List, [], ◌∷◌, ◌++◌, some, arith, length, length-append,
}
use mathlib.Core.Path.{subst}
use multi_process.Scheduler.{null, Thread, Scheduler, add, construct_rr, terminate}
use multi_process.Scheduler.Fifo.{NotIn, Proper, NotIn-append, IsQueue}
use multi_process.Scheduler.Terminate.{Removed, NotIn-remove, IsQueue-update, terminate-Removed}
use multi_process.Scheduler.Population.{count, count-append, count-NotIn, count-split, count-remove}
use multi_process.Kernel.Multitasking.{
  Reachable, linked_nowhere, Gone, start, tick, pass, exit, create, kill,
}
use multi_process.Kernel.Threads.{add-Added, start_threads-Runs}
use multi_process.Timer
use multi_process.Interrupts.{HandlerTable}
use multi_process.Kernel.{start_threads}
use multi_process.Scheduler.{construct}
use multi_process.Kernel.Held.{
  Held, Conserved, returned, pass-Conserved, tick-Conserved, exit-Conserved,
}

-- The address of a thread that is gone is neither the running one's nor in the queue.
Gone-NotIn :
    (s : Scheduler) (created : List Thread) (c : Thread) (xs : List Thread) (t : Thread)
    → Held s created c xs
    → Gone t s created
    → NotIn t (c ∷ xs)
Gone-NotIn s created c xs t h gone = count-NotIn t (c ∷ xs) (omega (arith, h.balance t, gone))

create-Conserved :
    (s s' : Scheduler) (created : List Thread) (c : Thread) (xs : List Thread) (t : Thread)
    → Held s created c xs
    → 0 < t
    → Gone t s created
    → add (linked_nowhere s t) t ≡ some s'
    → Conserved s' (t ∷ created)
unfolding count
create-Conserved s s' created c xs t h pos gone e =
    let (away, out) = Gone-NotIn s created c xs t h gone in
    let s0 = linked_nowhere s t in
    let a = add-Added s0 t xs (IsQueue-update s t null xs h.runs.queue out) pos out in
    let (current, running, enabled, deleted) = a.others in
    (
      c,
      xs ++ (t ∷ []),
      returned (λ u. Held u (t ∷ created) c (xs ++ (t ∷ []))) a.step e
          (record {
            runs = record {
              queue = a.queue;
              current = current ∙ h.runs.current;
              started = running ∙ h.runs.started;
              proper =
                  (h.runs.proper.0, NotIn-append c t xs h.runs.proper.1 (λ same. away (sym same)));
            };
            balance =
                λ z. ground (arith, count-append z xs (t ∷ []), h.balance z, ap (count z) deleted);
            total = omega (arith, length-append {0} xs (t ∷ []), h.total, ap (length {0}) deleted);
            others = omega (arith, length-append {0} xs (t ∷ []));
            quantum = omega (arith, a.ticks, a.hz, h.quantum);
            enabled = enabled;
          }),
    )

Removed-Held :
    (s s' : Scheduler) (created : List Thread) (c x t : Thread) (pre post : List Thread)
    → Held s created c (x ∷ (pre ++ (t ∷ post)))
    → Removed s (x ∷ (pre ++ post)) t s'
    → Held s' created c (x ∷ (pre ++ post))
unfolding count
Removed-Held s s' created c x t pre post h w = record {
  runs = record {
    queue = w.queue;
    current = w.current ∙ h.runs.current;
    started = w.timer.0 ∙ h.runs.started;
    proper = (h.runs.proper.0, NotIn-remove c t (x ∷ pre) post h.runs.proper.1);
  };
  balance = λ z. ground (arith, count-remove z t pre post, h.balance z, ap (count z) w.destroyed);
  total = omega (
    arith,
    length-append {0} pre (t ∷ post),
    length-append {0} pre post,
    h.total,
    ap (length {0}) w.destroyed,
  );
  others = omega arith;
  quantum = omega (arith, w.timer.1, w.timer.2, h.quantum);
  enabled = w.enabled;
}

killed-Conserved :
    (fuel : ℕ) (s s' : Scheduler) (created : List Thread) (c t : Thread) (xs pre post : List Thread)
    → xs ≡ pre ++ (t ∷ post)
    → Held s created c xs
    → length created < fuel
    → t ≢ s.current
    → t ≢ s.head
    → terminate fuel s t ≡ some s'
    → Conserved s' created
killed-Conserved fuel s s' created c t xs [] post at h lt ne first e =
    absurd (first (sym (subst (λ l. IsQueue s l) at h.runs.queue).shape.0))
killed-Conserved fuel s s' created c t xs (x ∷ pre) post at h lt ne first e =
    let h' = subst (λ l. Held s created c l) at h in
    let (s1, step, w) =
      terminate-Removed s x t pre post h'.runs.queue fuel
        (omega (arith, h'.total, length-append {0} pre (t ∷ post))) ne in
    (
      c,
      x ∷ (pre ++ post),
      returned (λ u. Held u created c (x ∷ (pre ++ post))) step e
          (Removed-Held s s1 created c x t pre post h' w),
    )

kill-Conserved :
    (fuel : ℕ) (s s' : Scheduler) (created : List Thread) (c t : Thread) (xs : List Thread)
    → Held s created c xs
    → length created < fuel
    → count t s.deleted < count t created
    → t ≢ s.current
    → t ≢ s.head
    → terminate fuel s t ≡ some s'
    → Conserved s' created
unfolding count
kill-Conserved fuel s s' created c t xs h lt al ne first e =
    let waits : 0 < count t xs = ground (arith, h.balance t, h.runs.current) in
    let (pre, post, at) = count-split t xs waits in
    killed-Conserved fuel s s' created c t xs pre post at h lt ne first e

start-Conserved :
    {a b c d : Thread} {s : Scheduler} (hz timer control : ℕ) (next : Thread → Thread)
    (table : HandlerTable)
    → 0 < hz
    → Proper (a ∷ b ∷ c ∷ d ∷ [])
    → start_threads a b c d (construct_rr hz next control timer table).0 ≡ some s
    → Conserved s (a ∷ b ∷ c ∷ d ∷ [])
unfolding construct_rr construct Timer.construct Timer.set_frequency count
start-Conserved {a} {b} {c} {d} {s} hz timer control next table pos p e =
    let s0 = (construct_rr hz next control timer table).0 in
    let q : IsQueue s0 [] = record { proper = tt; shape = (refl, refl) } in
    let (s1, step, runs, ticks, quantum, enabled, deleted) =
      start_threads-Runs a b c d s0 p q refl in
    (
      a,
      b ∷ c ∷ d ∷ [],
      returned (λ t. Held t (a ∷ b ∷ c ∷ d ∷ []) a (b ∷ c ∷ d ∷ [])) step e
          (record {
            runs = runs;
            balance = λ t. ground (arith, ap (count t) deleted);
            total = omega (arith, ap (length {0}) deleted);
            others = omega arith;
            quantum = omega (arith, ticks, quantum);
            enabled = enabled;
          }),
    )

pub Reachable-Conserved :
    {s : Scheduler} {created : List Thread} → Reachable s created → Conserved s created
Reachable-Conserved (start hz timer control next table pos p e) =
    start-Conserved hz timer control next table pos p e
Reachable-Conserved (tick {s} {s'} {created} r e) =
    let (c, xs, h) = Reachable-Conserved r in tick-Conserved s s' created c xs h e
Reachable-Conserved (pass {s} {s'} {created} r e) =
    let (c, xs, h) = Reachable-Conserved r in pass-Conserved s s' created c xs h e
Reachable-Conserved (exit {s} {s'} {created} fuel r al e) =
    let (c, xs, h) = Reachable-Conserved r in exit-Conserved fuel s s' created c xs h al e
Reachable-Conserved (create {s} {s'} {created} t r pos gone e) =
    let (c, xs, h) = Reachable-Conserved r in create-Conserved s s' created c xs t h pos gone e
Reachable-Conserved (kill {s} {s'} {created} fuel t r lt al ne first e) =
    let (c, xs, h) = Reachable-Conserved r in
    kill-Conserved fuel s s' created c t xs h lt al ne first e
