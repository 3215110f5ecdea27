-- ===== src/Scheduler/Stale.antt =====
-- Neither `enqueue` nor `dequeue` clears `Thread::next`, so a link outlives the place in the
-- queue that it came from.
use multi_process.Base.{ℕ, zero, suc, ◌<◌, ◌≡◌, refl, List, [], ◌∷◌, ◌++◌, arith, length, ap, ◌∙◌}
use multi_process.Scheduler.{Thread, Scheduler, enqueue, dequeue}
use multi_process.Scheduler.Fifo.{
  IsQueue, enqueue-append, dequeue-cons, dequeue-stale, enqueue-next,
}

-- The first thread is taken off the queue and put behind the others.
pub rotate : Scheduler → Scheduler
rotate s = let (x, s1) = dequeue s in enqueue s1 x

pub drain : ℕ → Scheduler → Scheduler
drain zero s = s
drain (suc k) s = drain k (dequeue s).1

dequeue-head : (s : Scheduler) (y : Thread) → s.head ≡ y → 0 < y → (dequeue s).0 ≡ y
unfolding dequeue
dequeue-head s y e pos = ground arith

-- What a drained queue has left is its last thread, and no link has changed.
drain-append :
    (s : Scheduler) (xs : List Thread) (x : Thread)
    → IsQueue s (xs ++ (x ∷ []))
    → IsQueue (drain (length xs) s) (x ∷ []) × ((drain (length xs) s).next ≡ s.next)
unfolding drain
drain-append s [] x q = (q, refl)
drain-append s (y ∷ []) x q = let (_, rest, same) = dequeue-cons s y x [] q in (rest, same)
drain-append s (y ∷ z ∷ ys) x q =
    let (_, rest, same) = dequeue-cons s y z (ys ++ (x ∷ [])) q in
    let (last, same') = drain-append (dequeue s).1 (z ∷ ys) x rest in (last, same' ∙ same)

-- Rotating leaves the link of the thread that now stands last.
rotate-next :
    (s : Scheduler) (x y : Thread) (ys : List Thread)
    → IsQueue s (x ∷ y ∷ ys)
    → IsQueue (rotate s) ((y ∷ ys) ++ (x ∷ [])) × ((rotate s).next x ≡ y)
unfolding rotate
rotate-next s x y ys q =
    let (first, rest, same) = dequeue-cons s x y ys q in
    rw first (
      enqueue-append (dequeue s).1 x (y ∷ ys) rest q.proper.0 q.proper.1,
      enqueue-next (dequeue s).1 x x (y ∷ ys) rest q.proper.1
          ∙ ap (λ (f : Thread → Thread). f x) same
          ∙ q.shape.1.0,
    )

drain-suc : (n : ℕ) (s : Scheduler) → drain (suc n) s ≡ (dequeue (drain n s)).1
unfolding drain
drain-suc zero s = refl
drain-suc (suc n) s = drain-suc n (dequeue s).1

-- If a queue of two threads or more is rotated and then emptied, one more `dequeue` does not
-- return NULL, but the thread that once stood second.
pub rotate-stale :
    (s : Scheduler) (x y : Thread) (ys : List Thread)
    → IsQueue s (x ∷ y ∷ ys)
    → (dequeue (drain (length (x ∷ y ∷ ys)) (rotate s))).0 ≡ y
rotate-stale s x y ys q =
    let (queue, link) = rotate-next s x y ys q in
    let (last, same) = drain-append (rotate s) (y ∷ ys) x queue in
    let (_, head, _) = dequeue-stale (drain (length (y ∷ ys)) (rotate s)) x [] last in
    let at : (dequeue (drain (length (y ∷ ys)) (rotate s))).1.head ≡ y =
      head ∙ ap (λ (f : Thread → Thread). f x) same ∙ link in
    rw (drain-suc (length (y ∷ ys)) (rotate s)) (dequeue-head _ y at (omega (arith, q.proper.2.0)))
