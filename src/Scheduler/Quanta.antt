-- ===== src/Scheduler/Quanta.antt =====
-- The timer of the round robin scheduler: whole quanta, one after the other.
use multi_process.Base.{
  ◌-◌, ℕ, zero, suc, ◌+◌, ◌<◌, ◌≤◌, ◌≡◌, refl, true, false, List, [], ◌∷◌, ◌++◌, Option, some, leb,
  arith, length, ap, ◌∙◌, length-append,
}
use mathlib.Core.List.{append-nil, append_assoc}
use multi_process.Scheduler.{Thread, Scheduler, ◌>>=◌, resume, rr_yield, handle_interrupt}
use multi_process.Scheduler.Fifo.{IsQueue-fields}
use multi_process.Scheduler.RoundRobin.{bind-some, Runs, Switched, resume-rr_yield-Switched}

-- `k` timer interrupts, one after the other.
pub interrupts : ℕ → Scheduler → Option Scheduler
interrupts zero s = some s
interrupts (suc k) s = handle_interrupt s >>= interrupts k

-- Before the quantum is over a timer interrupt only counts.
pub handle_interrupt-tick :
    (s : Scheduler)
    → s.running ≡ true
    → s.ticks + 1 < s.hz
    → handle_interrupt s ≡ some (record s { ticks = s.ticks + 1 })
unfolding handle_interrupt
handle_interrupt-tick s on lt =
    let early : leb s.hz (s.ticks + 1) ≡ false = ground arith in rw (on, early)

pub handle_interrupt-last :
    (s : Scheduler)
    → s.running ≡ true
    → s.ticks + 1 ≡ s.hz
    → handle_interrupt s ≡ (resume (record s { ticks = 0 }) s.current >>= rr_yield)
unfolding handle_interrupt
handle_interrupt-last s on e =
    let over : leb s.hz (s.ticks + 1) ≡ true = ground arith in rw (on, over)

pub Runs-ticks :
    (s : Scheduler) (c : Thread) (xs : List Thread) (t : ℕ)
    → Runs s c xs
    → Runs (record s { ticks = t }) c xs
Runs-ticks s c xs t r = record {
  queue = IsQueue-fields s (record s { ticks = t }) xs refl refl refl r.queue;
  current = r.current;
  started = r.started;
  proper = r.proper;
}

Switched-ticks :
    (s : Scheduler) (n : ℕ) (x : Thread) (xs : List Thread) (s' : Scheduler)
    → Switched (record s { ticks = n }) x xs s'
    → Switched s x xs s'
Switched-ticks s n x xs s' w = record {
  runs = w.runs;
  reset = w.reset;
  enabled = w.enabled;
  quantum = w.quantum;
  kept = w.kept;
  follow = w.follow;
  links = w.links;
}

-- With `k + 1` ticks of the quantum left, that many timer interrupts end it.
pub interrupts-Switched :
    (k : ℕ) (s : Scheduler) (c x : Thread) (ys : List Thread)
    → Runs s c (x ∷ ys)
    → s.ticks + suc k ≡ s.hz
    → (s' : Scheduler) × (interrupts (suc k) s ≡ some s') × Switched s x (ys ++ (c ∷ [])) s'
unfolding interrupts
interrupts-Switched zero s c x ys r e =
    let s0 : Scheduler = record s { ticks = 0 } in
    let (s', step, sw) = resume-rr_yield-Switched s0 c x ys (Runs-ticks s c (x ∷ ys) 0 r) in
    let last = handle_interrupt-last s r.started (omega (arith, e)) in
    (
      s',
      bind-some (λ t. some t)
          (last ∙ ap (λ t. resume (record s { ticks = 0 }) t >>= rr_yield) r.current ∙ step) refl,
      Switched-ticks s 0 x _ s' sw,
    )
interrupts-Switched (suc k) s c x ys r e =
    let s1 : Scheduler = record s { ticks = s.ticks + 1 } in
    let (s', steps, sw) =
      interrupts-Switched k s1 c x ys (Runs-ticks s c (x ∷ ys) (s.ticks + 1) r)
        (omega (arith, e)) in
    let tick = handle_interrupt-tick s r.started (omega (arith, e)) in
    (s', rw (tick, steps), Switched-ticks s (s.ticks + 1) x _ s' sw)

-- The threads in the order in which they run from now on, the running one first.
abbrev pub Order : Scheduler → List Thread → Type 0
Order s [] = ⊥
Order s (c ∷ xs) = Runs s c xs

-- `k` whole quanta: the threads that had them, and the state after the last.
unfoldable pub quanta : ℕ → Scheduler → Option (List Thread × Scheduler)
quanta zero s = some ([], s)
quanta (suc k) s = interrupts s.hz s >>= λ s1. quanta k s1 >>= λ (ts, s2). some (s.current ∷ ts, s2)

turn :
    (s : Scheduler) (c : Thread) (xs : List Thread)
    → Runs s c xs
    → 1 ≤ length xs
    → s.ticks ≡ 0
    → 0 < s.hz
    → (s' : Scheduler) × (interrupts s.hz s ≡ some s')
      × Order s' (xs ++ (c ∷ []))
      × (s'.ticks ≡ 0)
      × (s'.hz ≡ s.hz)
      × (s'.deleted ≡ s.deleted)
turn s c [] r len t h = absurd (omega arith)
turn s c (x ∷ ys) r len t h =
    let e : s.hz ≡ suc (s.hz - 1) = omega arith in
    let (s', run, w) = interrupts-Switched (s.hz - 1) s c x ys r (omega arith) in
    (s', ap (λ n. interrupts n s) e ∙ run, w.runs, w.reset, w.quantum, w.kept)

pub quanta-Order :
    (ts us : List Thread) (s : Scheduler)
    → Order s (ts ++ us)
    → 2 ≤ length (ts ++ us)
    → s.ticks ≡ 0
    → 0 < s.hz
    → (s' : Scheduler) × (quanta (length ts) s ≡ some (ts, s'))
      × Order s' (us ++ ts)
      × (s'.ticks ≡ 0)
      × (s'.deleted ≡ s.deleted)
unfolding quanta
quanta-Order [] us s o len t h = (s, refl, rw append-nil o, t, refl)
quanta-Order (c ∷ ts) us s o len t h =
    let (s1, run, o1, t1, h1, k1) = turn s c (ts ++ us) o (omega arith) t h in
    let (s2, runs, o2, t2, k2) =
      quanta-Order ts (us ++ (c ∷ [])) s1 (rw append_assoc at o1)
        (omega (
          arith,
          length-append {0} ts us,
          length-append {0} us (c ∷ []),
          length-append {0} ts (us ++ (c ∷ [])),
        ))
        t1 (omega (arith, h1)) in
    (s2, rw (run, runs, o.current), rw append_assoc at o2, t2, k2 ∙ k1)

-- A full round: with two or more threads, after as many whole quanta as there are threads, each
-- has had exactly one, in the order of the queue, and they stand as before.
pub quanta-round :
    (s : Scheduler) (c : Thread) (xs : List Thread)
    → Runs s c xs
    → 1 ≤ length xs
    → s.ticks ≡ 0
    → 0 < s.hz
    → (s' : Scheduler) × (quanta (length (c ∷ xs)) s ≡ some (c ∷ xs, s'))
      × Runs s' c xs
      × (s'.ticks ≡ 0)
quanta-round s c xs r len t h =
    let (s', run, o, t', _) =
      quanta-Order (c ∷ xs) [] s (rw append-nil r) (rw append-nil (omega arith)) t h in
    (s', run, o, t')
