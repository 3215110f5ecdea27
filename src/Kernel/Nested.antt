-- ===== src/Kernel/Nested.antt =====
-- A timer interrupt between `resume` and `yield` in the handler of the one before: `resume` has
-- enabled the interrupts again, and the interrupt controller has been told of the end.
use multi_process.Base.{
  ◌∙◌, ap, ◌<◌, ◌≡◌, refl, false, List, [], ◌∷◌, ◌++◌, Option, some, ◌==◌, update, arith, length,
  length-append,
}
use mathlib.Core.Path.{subst}
use multi_process.Scheduler.{
  Thread, null, Scheduler, add, enqueue, dequeue, resume, rr_yield, dispatch_to, handle_interrupt,
  ◌>>=◌,
}
use multi_process.Scheduler.Fifo.{Proper, Links, IsQueue, IsQueue-fields, tail-ne, dequeue-cons}
use multi_process.Scheduler.Rotation.{IsQueue-last}
use multi_process.Scheduler.RoundRobin.{
  Runs, joined, switched, hand_over-some, resume-rr_yield, switched-Runs, dequeue-first,
  dequeue-fields, enqueue-fields, enter-some,
}
use multi_process.Scheduler.Quanta.{handle_interrupt-last, quanta, quanta-Order}
use multi_process.Kernel.Threads.{Added, added, add-Added}

-- The handler of the end of a quantum, in which the next interrupt is handled behind `resume`, up to
-- the dispatch in that one. The interrupted thread is left in the handler, before its own `yield`.
unfoldable pub nested_interrupt : Scheduler → Option Scheduler
unfolding resume handle_interrupt
nested_interrupt s = resume (record s { ticks = 0 }) s.current >>= handle_interrupt

Links-tail :
    (next : Thread → Thread) (x tail v : Thread) (xs : List Thread)
    → Links next x xs tail
    → Proper (x ∷ xs)
    → Links (update next tail v) x xs tail
Links-tail next x tail v [] l p = l
Links-tail next x tail v (y ∷ ys) l p =
    (ground (arith, l.0, tail-ne next y tail x ys l.1 p.1), Links-tail next y tail v ys l.1 p.2)

-- The thread that is last already is put behind itself.
enqueue-again :
    (s : Scheduler) (c x : Thread) (zs : List Thread)
    → IsQueue s (x ∷ (zs ++ (c ∷ [])))
    → 0 < c
    → IsQueue (enqueue s c) (x ∷ (zs ++ (c ∷ [])))
unfolding enqueue
enqueue-again s c x zs q pos =
    let last : s.tail ≡ c = IsQueue-last s c (x ∷ zs) q in
    let there : (s.tail == null) ≡ false = ground (arith, last) in
    rw there (record {
      proper = q.proper;
      shape = (
        q.shape.0,
        subst (Links (update s.next s.tail c) x (zs ++ (c ∷ []))) last
            (Links-tail s.next x s.tail c (zs ++ (c ∷ [])) q.shape.1 q.proper),
      );
    })

module _ (s : Scheduler) (c x : Thread) (ys : List Thread) (r : Runs s c (x ∷ ys))
    (one : s.hz ≡ 1) where
  abbrev resumed : Scheduler
  resumed = added (record s { ticks = 0 }) c

  resumed-Added : Added (record s { ticks = 0 }) c (x ∷ ys) resumed
  resumed-Added =
      add-Added (record s { ticks = 0 }) c (x ∷ ys)
        (IsQueue-fields s (record s { ticks = 0 }) (x ∷ ys) refl refl refl r.queue) r.proper.0
        r.proper.1

  nested-Switched :
      (s' : Scheduler) × (nested_interrupt s ≡ some s')
      × Runs s' x (ys ++ (c ∷ []))
      × (s'.ticks ≡ 0)
      × (s'.hz ≡ 1)
      × (s'.deleted ≡ s.deleted)
  unfolding nested_interrupt add joined
  nested-Switched =
      let a = resumed-Added in
      let (current, running, _, deleted) = a.others in
      let s1 : Scheduler = record resumed { ticks = 0 } in
      let queue : IsQueue (joined s1 c) (x ∷ (ys ++ (c ∷ []))) =
        IsQueue-fields (enqueue (record s1 { interrupts = false }) c) (joined s1 c) _ refl refl refl
          (enqueue-again (record s1 { interrupts = false }) c x ys
            (IsQueue-fields resumed (record s1 { interrupts = false }) _ refl refl refl a.queue)
            r.proper.0) in
      let w = switched-Runs (joined s1 c) x c ys queue refl in
      let (first, _) = dequeue-first (joined s1 c) x c ys queue in
      let (_, _, hz, _, kept) = enqueue-fields (record s1 { interrupts = false }) c in
      let last : handle_interrupt resumed ≡ some (switched (joined s1 c)) =
        handle_interrupt-last resumed (running ∙ r.started) (omega (arith, a.ticks, a.hz, one))
        ∙ ap (λ t. resume s1 t >>= rr_yield) (current ∙ r.current)
        ∙ resume-rr_yield s1 c (omega (arith, first, r.queue.proper.0)) in
      (
        switched (joined s1 c),
        ap (λ t. resume (record s { ticks = 0 }) t >>= handle_interrupt) r.current ∙ rw a.step last,
        w.runs,
        w.reset,
        w.quantum ∙ hz ∙ a.hz ∙ one,
        w.kept ∙ kept ∙ deleted,
      )

-- `yield` of a thread that is not in the queue.
yield-Runs :
    (s : Scheduler) (c x y : Thread) (ys : List Thread)
    → Runs s c (x ∷ y ∷ ys)
    → (s' : Scheduler) × (rr_yield s ≡ some s') × Runs s' x (y ∷ ys) × (s'.deleted ≡ s.deleted)
unfolding rr_yield switched dispatch_to
yield-Runs s c x y ys r =
    let s1 : Scheduler = record s { interrupts = false; ticks = 0 } in
    let q = IsQueue-fields s s1 (x ∷ y ∷ ys) refl refl refl r.queue in
    let (first, rest, _) = dequeue-cons s1 x y ys q in
    (
      switched s1,
      rw (enter-some s) (hand_over-some s1 (omega (arith, first, r.queue.proper.0))),
      record {
        queue = IsQueue-fields (dequeue s1).1 (switched s1) (y ∷ ys) refl refl refl rest;
        current = first;
        started = refl;
        proper = (r.queue.proper.0, r.queue.proper.1);
      },
      (dequeue-fields s1).2,
    )

-- How a thread is lost: `s1` behind the nested interrupt, `s2` when the interrupted thread `c` has
-- the CPU again, `s3` behind the `yield` that it was left before.
pub record Lost (s : Scheduler) (c x : Thread) (xs : List Thread) (s1 s2 s3 : Scheduler)
    : Type 0 where
  pub nested : nested_interrupt s ≡ some s1
  pub round : quanta (length (x ∷ xs)) s1 ≡ some (x ∷ xs, s2)
  pub again : Runs s2 c (x ∷ xs)
  pub left : rr_yield s2 ≡ some s3
  pub runs : Runs s3 x xs
  pub kept : s3.deleted ≡ s.deleted

-- With a quantum of one tick and two or more threads waiting, a timer interrupt between `resume` and
-- `yield` in the handler of the one before loses the interrupted thread: the others have a quantum
-- each, and the thread has the CPU again; there it goes on with the `yield` that it was left before,
-- which does not put it back. Then only the others run or wait, and it has not been deleted.
pub nested_interrupt-Lost :
    (s : Scheduler) (c x y : Thread) (ys : List Thread)
    → Runs s c (x ∷ y ∷ ys)
    → s.hz ≡ 1
    → (s1 : Scheduler) × (s2 : Scheduler) × (s3 : Scheduler) × Lost s c x (y ∷ ys) s1 s2 s3
nested_interrupt-Lost s c x y ys r one =
    let (s1, nested, runs1, ticks, hz, kept1) = nested-Switched s c x (y ∷ ys) r one in
    let (s2, round, runs2, _, kept2) =
      quanta-Order (x ∷ y ∷ ys) (c ∷ []) s1 runs1 (omega (arith, length-append {0} ys (c ∷ [])))
        ticks (omega (arith, hz)) in
    let (s3, left, runs3, kept3) = yield-Runs s2 c x y ys runs2 in
    (
      s1,
      s2,
      s3,
      record {
        nested = nested;
        round = round;
        again = runs2;
        left = left;
        runs = runs3;
        kept = kept3 ∙ kept2 ∙ kept1;
      },
    )
