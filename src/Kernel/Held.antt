-- ===== src/Kernel/Held.antt =====
-- The invariant of the runs of Multitasking, and how the steps that switch threads keep it.
use multi_process.Base.{
  ◌∙◌, ap, sym, ℕ, suc, ◌+◌, ◌<◌, ◌≤◌, ◌≡◌, true, List, [], ◌∷◌, ◌++◌, Option, some, arith, length,
  length-append, dec_lt,
}
use mathlib.Core.Path.{subst}
use mathlib.Core.Option.{some-injective}
use multi_process.Scheduler.{
  Thread, Scheduler, handle_interrupt, leave, resume, rr_yield, terminate_thread, thread_shutdown,
  ◌>>=◌,
}
use multi_process.Scheduler.RoundRobin.{Runs, Switched, resume-rr_yield-Switched}
use multi_process.Scheduler.Quanta.{Runs-ticks, handle_interrupt-tick, handle_interrupt-last}
use multi_process.Scheduler.Exit.{Exited, thread_shutdown-terminate_thread}
use multi_process.Scheduler.Population.{count, count-rotate}
use multi_process.Kernel.Multitasking.{Alive}

-- Thread `c` runs, with part of its quantum left and the interrupts enabled, and the threads `xs`,
-- at least one, wait; these and the deleted ones are the threads created, each as often.
pub record Held (s : Scheduler) (created : List Thread) (c : Thread) (xs : List Thread)
    : Type 0 where
  pub runs : Runs s c xs
  pub balance : (t : Thread) → count t (c ∷ xs) + count t s.deleted ≡ count t created
  pub total : suc (length xs) + length s.deleted ≡ length created
  pub others : 1 ≤ length xs
  pub quantum : s.ticks < s.hz
  pub enabled : s.interrupts ≡ true

abbrev pub Conserved : Scheduler → List Thread → Type 0
Conserved s created = (c : Thread) × (xs : List Thread) × Held s created c xs

-- A step returns one state.
pub returned {ℓ κ} :
    {A : Type ℓ} (P : A → Type κ) {m : Option A} {a b : A} → m ≡ some a → m ≡ some b → P a → P b
returned P e e' p = subst P (some-injective _ _ (sym e ∙ e')) p

Switched-Held :
    (s s' : Scheduler) (created : List Thread) (c x : Thread) (ys : List Thread)
    → Held s created c (x ∷ ys)
    → Switched s x (ys ++ (c ∷ [])) s'
    → Held s' created x (ys ++ (c ∷ []))
Switched-Held s s' created c x ys h w = record {
  runs = w.runs;
  balance = λ t. omega (arith, count-rotate t c x ys, h.balance t, ap (count t) w.kept);
  total = omega (arith, length-append {0} ys (c ∷ []), h.total, ap (length {0}) w.kept);
  others = omega (arith, length-append {0} ys (c ∷ []));
  quantum = omega (arith, w.reset, w.quantum, h.quantum);
  enabled = w.enabled;
}

pub pass-Conserved :
    (s s' : Scheduler) (created : List Thread) (c : Thread) (xs : List Thread)
    → Held s created c xs
    → (resume s s.current >>= rr_yield) ≡ some s'
    → Conserved s' created
pass-Conserved s s' created c [] h e = absurd (omega (arith, h.others))
pass-Conserved s s' created c (x ∷ ys) h e =
    let (s1, step, w) = resume-rr_yield-Switched s c x ys h.runs in
    (
      x,
      ys ++ (c ∷ []),
      returned (λ t. Held t created x (ys ++ (c ∷ [])))
          (ap (λ t. resume s t >>= rr_yield) h.runs.current ∙ step) e
          (Switched-Held s s1 created c x ys h w),
    )

-- What changes neither the queue nor the quantum.
Held-ticks :
    (s : Scheduler) (created : List Thread) (c : Thread) (xs : List Thread) (n : ℕ)
    → n < s.hz
    → Held s created c xs
    → Held (record s { ticks = n }) created c xs
Held-ticks s created c xs n lt h = record {
  runs = Runs-ticks s c xs n h.runs;
  balance = h.balance;
  total = h.total;
  others = h.others;
  quantum = lt;
  enabled = h.enabled;
}

pub tick-Conserved :
    (s s' : Scheduler) (created : List Thread) (c : Thread) (xs : List Thread)
    → Held s created c xs
    → handle_interrupt s ≡ some s'
    → Conserved s' created
tick-Conserved s s' created c xs h e = elim (dec_lt (s.ticks + 1) s.hz) [
  | yes lt ↦ (
    c,
    xs,
    returned (λ t. Held t created c xs) (handle_interrupt-tick s h.runs.started lt) e
        (Held-ticks s created c xs (s.ticks + 1) lt h),
  )
  | no ge ↦
      pass-Conserved (record s { ticks = 0 }) s' created c xs
        (Held-ticks s created c xs 0 (omega (arith, h.quantum)) h)
        (sym (handle_interrupt-last s h.runs.started (omega (arith, h.quantum))) ∙ e)
]

Exited-Held :
    (s s1 : Scheduler) (created : List Thread) (c x y : Thread) (ys : List Thread)
    → Held s created c (x ∷ y ∷ ys)
    → Exited s c x (y ∷ ys) s1
    → Held s1 created x (y ∷ ys)
unfolding count
Exited-Held s s1 created c x y ys h w = record {
  runs = w.runs;
  balance = λ t. ground (arith, h.balance t, ap (count t) w.deleted);
  total = omega (arith, h.total, ap (length {0}) w.deleted);
  others = omega arith;
  quantum = omega (arith, w.reset, w.quantum, h.quantum);
  enabled = w.enabled;
}

pub exit-Conserved :
    (fuel : ℕ) (s s' : Scheduler) (created : List Thread) (c : Thread) (xs : List Thread)
    → Held s created c xs
    → Alive 3 s created
    → ((thread_shutdown fuel s >>= leave) >>= terminate_thread rr_yield) ≡ some s'
    → Conserved s' created
exit-Conserved fuel s s' created c [] h al e = absurd (omega (arith, h.total))
exit-Conserved fuel s s' created c (x ∷ []) h al e = absurd (omega (arith, h.total))
exit-Conserved fuel s s' created c (x ∷ y ∷ ys) h al e =
    let (s1, step, w) = thread_shutdown-terminate_thread fuel s c x y ys h.runs in
    (
      x,
      y ∷ ys,
      returned (λ t. Held t created x (y ∷ ys)) step e (Exited-Held s s1 created c x y ys h w),
    )
