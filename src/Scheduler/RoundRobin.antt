-- ===== src/Scheduler/RoundRobin.antt =====
-- The round robin scheduler: how the CPU passes from the running thread to the first that waits.
use multi_process.Base.{
  ◌<◌, ◌≡◌, refl, true, false, List, [], ◌∷◌, ◌++◌, Option, some, ◌==◌, arith, ap, ◌∙◌, sym, ◌≢◌,
}
use multi_process.Scheduler.{
  Thread, null, Scheduler, ◌>>=◌, enter, leave, enqueue, dequeue, dispatch_to, resume, hand_over,
  rr_yield,
}
use multi_process.Scheduler.Fifo.{
  NotIn, IsQueue, IsQueue-fields, enqueue-append, dequeue-cons, dequeue-stale,
}

-- A chain goes on with what its first step returns.
pub bind-some {ℓ κ} :
    {A : Type ℓ} {B : Type κ} {m : Option A} (f : A → Option B) {a : A} {b : Option B}
    → m ≡ some a
    → f a ≡ b
    → (m >>= f) ≡ b
bind-some f e e' = rw e e'

-- The assertions of machine.C never fail where the scheduler enables or disables interrupts.
pub enter-some : (s : Scheduler) → enter s ≡ some (record s { interrupts = false })
unfolding enter
enter-some s = ground arith

pub leave-some : (s : Scheduler) → leave s ≡ some (record s { interrupts = true })
unfolding leave
leave-some s = ground arith

-- Thread `c` runs with the interrupts enabled, and the threads of the list wait, all distinct.
pub record Runs (s : Scheduler) (c : Thread) (xs : List Thread) : Type 0 where
  pub queue : IsQueue s xs
  pub current : s.current ≡ c
  pub started : s.running ≡ true
  pub proper : (0 < c) × NotIn c xs

pub enqueue-fields :
    (s : Scheduler) (t : Thread)
    → ((enqueue s t).current ≡ s.current)
      × ((enqueue s t).running ≡ s.running)
      × ((enqueue s t).hz ≡ s.hz)
      × ((enqueue s t).ticks ≡ s.ticks)
      × ((enqueue s t).deleted ≡ s.deleted)
unfolding enqueue
enqueue-fields s t = ground arith

enqueue-links : (s : Scheduler) (t z : Thread) → z ≢ s.tail → (enqueue s t).next z ≡ s.next z
unfolding enqueue
enqueue-links s t z ne = ground arith

pub dequeue-fields :
    (s : Scheduler)
    → ((dequeue s).1.hz ≡ s.hz)
      × ((dequeue s).1.ticks ≡ s.ticks)
      × ((dequeue s).1.deleted ≡ s.deleted)
unfolding dequeue
dequeue-fields s = ground arith

-- What `resume` of the running thread and `yield` leave: the next thread runs, the other waits
-- last.
pub record Switched (s : Scheduler) (x : Thread) (xs : List Thread) (s' : Scheduler) : Type 0 where
  pub runs : Runs s' x xs
  pub reset : s'.ticks ≡ 0
  pub enabled : s'.interrupts ≡ true
  pub quantum : s'.hz ≡ s.hz
  pub kept : s'.deleted ≡ s.deleted
  pub follow : s'.next s'.current ≡ s'.head
  pub links : (z : Thread) → z ≢ s.tail → s'.next z ≡ s.next z

-- the queue once the running thread has been put behind the others
unfoldable pub joined : Scheduler → Thread → Scheduler
joined s c = record (enqueue (record s { interrupts = false }) c) { interrupts = false; ticks = 0 }

unfoldable pub switched : Scheduler → Scheduler
switched s = let (t, s1) = dequeue s in record (dispatch_to s1 t) { interrupts = true }

pub hand_over-some : (s : Scheduler) → 0 < (dequeue s).0 → hand_over s ≡ some (switched s)
unfolding hand_over switched
hand_over-some s pos =
    let there : ((dequeue s).0 == null) ≡ false = ground arith in rw (there, leave-some)

pub resume-rr_yield :
    (s : Scheduler) (c : Thread)
    → 0 < (dequeue (joined s c)).0
    → (resume s c >>= rr_yield) ≡ some (switched (joined s c))
unfolding resume rr_yield joined
resume-rr_yield s c pos = rw (enter-some s, leave-some, enter-some) (hand_over-some _ pos)

module _ (s : Scheduler) (c x : Thread) (ys : List Thread) (r : Runs s c (x ∷ ys)) where
  joined-IsQueue : IsQueue (joined s c) (x ∷ (ys ++ (c ∷ [])))
  unfolding joined
  joined-IsQueue =
      IsQueue-fields (enqueue (record s { interrupts = false }) c) (joined s c) _ refl refl refl (
        enqueue-append (record s { interrupts = false }) c (x ∷ ys)
          (IsQueue-fields s (record s { interrupts = false }) _ refl refl refl r.queue) r.proper.0
          r.proper.1)

  joined-links : (z : Thread) → z ≢ s.tail → (joined s c).next z ≡ s.next z
  unfolding joined
  joined-links z ne = enqueue-links (record s { interrupts = false }) c z ne

  joined-started : ((joined s c).hz ≡ s.hz) × ((joined s c).deleted ≡ s.deleted)
  unfolding joined
  joined-started =
      let (_, _, hz, _, deleted) = enqueue-fields (record s { interrupts = false }) c in
      (hz, deleted)

joined-ticks : (s : Scheduler) (c : Thread) → (joined s c).ticks ≡ 0
unfolding joined
joined-ticks s c = refl

-- Whatever waits behind it, the first thread is taken off as long as another one waits.
pub dequeue-first :
    (s : Scheduler) (x c : Thread) (ys : List Thread)
    → IsQueue s (x ∷ (ys ++ (c ∷ [])))
    → ((dequeue s).0 ≡ x) × IsQueue (dequeue s).1 (ys ++ (c ∷ []))
dequeue-first s x c [] q = let (first, rest, _) = dequeue-cons s x c [] q in (first, rest)
dequeue-first s x c (y ∷ ys) q =
    let (first, rest, _) = dequeue-cons s x y (ys ++ (c ∷ [])) q in (first, rest)

pub switched-Runs :
    (s : Scheduler) (x c : Thread) (ys : List Thread)
    → IsQueue s (x ∷ (ys ++ (c ∷ [])))
    → s.ticks ≡ 0
    → Switched s x (ys ++ (c ∷ [])) (switched s)
unfolding switched dispatch_to
switched-Runs s x c ys q zero_ticks =
    let (first, rest) = dequeue-first s x c ys q in
    let (_, follow, next) = dequeue-stale s x (ys ++ (c ∷ [])) q in
    record {
      runs = record {
        queue = IsQueue-fields (dequeue s).1 _ (ys ++ (c ∷ [])) refl refl refl rest;
        current = first;
        started = refl;
        proper = (q.proper.0, q.proper.1);
      };
      reset = (dequeue-fields s).1 ∙ zero_ticks;
      enabled = refl;
      quantum = (dequeue-fields s).0;
      kept = (dequeue-fields s).2;
      follow = ap (λ g. g (dequeue s).0) next ∙ ap s.next first ∙ sym follow;
      links = λ z _. ap (λ g. g z) next;
    }

switched-next : (s : Scheduler) → (switched s).next ≡ s.next
unfolding switched dispatch_to dequeue
switched-next s = ground arith

-- The running thread is put behind the waiting ones and the first of those runs, with a full
-- quantum before it and the interrupts enabled.
pub resume-rr_yield-Switched :
    (s : Scheduler) (c x : Thread) (ys : List Thread)
    → Runs s c (x ∷ ys)
    → (s' : Scheduler) × ((resume s c >>= rr_yield) ≡ some s') × Switched s x (ys ++ (c ∷ [])) s'
resume-rr_yield-Switched s c x ys r =
    let queue = joined-IsQueue s c x ys r in
    let sw = switched-Runs (joined s c) x c ys queue (joined-ticks s c) in
    let first = (dequeue-first (joined s c) x c ys queue).0 in
    (
      switched (joined s c),
      resume-rr_yield s c (omega (arith, first, r.queue.proper.0)),
      record {
        runs = sw.runs;
        reset = sw.reset;
        enabled = sw.enabled;
        quantum = sw.quantum ∙ (joined-started s c x ys r).0;
        kept = sw.kept ∙ (joined-started s c x ys r).1;
        follow = sw.follow;
        links = λ z ne. ap (λ g. g z) (switched-next (joined s c)) ∙ joined-links s c x ys r z ne;
      },
    )
