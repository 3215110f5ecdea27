-- ===== src/Scheduler/Fifo.antt =====
-- The linked list is a FIFO, as long as it is not emptied.
use multi_process.Base.{
  ◌∙◌, ap, ◌<◌, ◌≡◌, refl, ◌≢◌, true, false, List, [], ◌∷◌, ◌++◌, ◌==◌, update, arith,
}
use multi_process.Scheduler.{Thread, null, Scheduler, enqueue, dequeue}

-- `t` is none of the threads of the list.
abbrev pub NotIn : Thread → List Thread → Type 0
NotIn t [] = Unit {0}
NotIn t (x ∷ xs) = (t ≢ x) × NotIn t xs

-- Distinct threads, none of them NULL.
abbrev pub Proper : List Thread → Type 0
Proper [] = Unit {0}
Proper (x ∷ xs) = (0 < x) × NotIn x xs × Proper xs

-- From `x` the links lead through the list to `tail`. Nothing is said of the link of `tail`.
abbrev pub Links : (Thread → Thread) → Thread → List Thread → Thread → Type 0
Links next x [] tail = tail ≡ x
Links next x (y ∷ ys) tail = (next x ≡ y) × Links next y ys tail

abbrev pub Shape : Scheduler → List Thread → Type 0
Shape s [] = (s.head ≡ null) × (s.tail ≡ null)
Shape s (x ∷ xs) = (s.head ≡ x) × Links s.next x xs s.tail

-- The queue holds the threads of the list, the next one first.
pub record IsQueue (s : Scheduler) (xs : List Thread) : Type 0 where
  pub proper : Proper xs
  pub shape : Shape s xs

-- Only the links and the two ends matter.
pub IsQueue-fields :
    (s s' : Scheduler) (xs : List Thread)
    → s'.head ≡ s.head
    → s'.tail ≡ s.tail
    → s'.next ≡ s.next
    → IsQueue s xs
    → IsQueue s' xs
IsQueue-fields s s' [] h t n q = record {
  proper = q.proper;
  shape = (h ∙ q.shape.0, t ∙ q.shape.1);
}
IsQueue-fields s s' (x ∷ xs) h t n q = record {
  proper = q.proper;
  shape = (h ∙ q.shape.0, rw (n, t) q.shape.1);
}

pub NotIn-append : (t u : Thread) (xs : List Thread) → NotIn t xs → t ≢ u → NotIn t (xs ++ (u ∷ []))
NotIn-append t u [] h ne = (ne, tt)
NotIn-append t u (x ∷ xs) h ne = (h.0, NotIn-append t u xs h.1 ne)

Proper-append :
    (t : Thread) (xs : List Thread) → Proper xs → 0 < t → NotIn t xs → Proper (xs ++ (t ∷ []))
Proper-append t [] h pos out = (pos, tt, tt)
Proper-append t (x ∷ xs) h pos out =
    (h.0, NotIn-append x t xs h.1 (λ e. out.0 (omega arith)), Proper-append t xs h.2 pos out.1)

-- the last thread is one of the list
tail-pos :
    (next : Thread → Thread) (x tail : Thread) (xs : List Thread)
    → Links next x xs tail
    → Proper (x ∷ xs)
    → 0 < tail
tail-pos next x tail [] l p = omega arith
tail-pos next x tail (y ∷ ys) l p = tail-pos next y tail ys l.1 p.2

pub tail-ne :
    (next : Thread → Thread) (x tail z : Thread) (xs : List Thread)
    → Links next x xs tail
    → NotIn z (x ∷ xs)
    → z ≢ tail
tail-ne next x tail z [] l out = λ e. out.0 (omega arith)
tail-ne next x tail z (y ∷ ys) l out = tail-ne next y tail z ys l.1 out.1

-- A new link behind the last thread lengthens the list by that thread.
Links-append :
    (next : Thread → Thread) (x tail t : Thread) (xs : List Thread)
    → Links next x xs tail
    → Proper (x ∷ xs)
    → Links (update next tail t) x (xs ++ (t ∷ [])) t
Links-append next x tail t [] l p = (ground arith, refl)
Links-append next x tail t (y ∷ ys) l p =
    (ground (arith, tail-ne next y tail x ys l.1 p.1), Links-append next y tail t ys l.1 p.2)

-- `enqueue` puts a thread that is not in the queue behind the others.
pub enqueue-append :
    (s : Scheduler) (t : Thread) (xs : List Thread)
    → IsQueue s xs
    → 0 < t
    → NotIn t xs
    → IsQueue (enqueue s t) (xs ++ (t ∷ []))
unfolding enqueue
enqueue-append s t [] q pos out =
    let none_there : (s.tail == null) ≡ true = ground (arith, q.shape.1) in
    rw none_there (record { proper = (pos, tt, tt); shape = (refl, refl) })
enqueue-append s t (x ∷ xs) q pos out =
    let some_there : (s.tail == null) ≡ false =
      ground (arith, tail-pos s.next x s.tail xs q.shape.1 q.proper) in
    rw some_there (record {
      proper = Proper-append t (x ∷ xs) q.proper pos out;
      shape = (q.shape.0, Links-append s.next x s.tail t xs q.shape.1 q.proper);
    })

-- It writes the link of the last thread only.
pub enqueue-next :
    (s : Scheduler) (t z : Thread) (xs : List Thread)
    → IsQueue s xs
    → NotIn z xs
    → (enqueue s t).next z ≡ s.next z
unfolding enqueue
enqueue-next s t z [] q out =
    let none_there : (s.tail == null) ≡ true = ground (arith, q.shape.1) in rw none_there
enqueue-next s t z (x ∷ xs) q out = ground (arith, tail-ne s.next x s.tail z xs q.shape.1 out)

-- While another thread waits behind it, `dequeue` takes the first thread off, and leaves its
-- link as it is.
pub dequeue-cons :
    (s : Scheduler) (x y : Thread) (ys : List Thread)
    → IsQueue s (x ∷ y ∷ ys)
    → ((dequeue s).0 ≡ x) × IsQueue (dequeue s).1 (y ∷ ys) × ((dequeue s).1.next ≡ s.next)
unfolding dequeue
dequeue-cons s x y ys q =
    let there : (s.head == null) ≡ false = ground (arith, q.shape.0, q.proper.0) in
    let next : s.next s.head ≡ y = rw q.shape.0 q.shape.1.0 in
    let more : (s.next s.head == null) ≡ false = ground (arith, next, q.proper.2.0) in
    rw there (q.shape.0, record { proper = q.proper.2; shape = (next, rw more q.shape.1.1) }, refl)

-- On an empty queue it returns NULL and changes nothing.
dequeue-nil : (s : Scheduler) → IsQueue s [] → dequeue s ≡ (null, s)
unfolding dequeue
dequeue-nil s q = ground (arith, q.shape.0)

-- The last thread leaves an empty queue, if its link is NULL.
dequeue-last :
    (s : Scheduler) (x : Thread)
    → IsQueue s (x ∷ [])
    → s.next x ≡ null
    → ((dequeue s).0 ≡ x) × IsQueue (dequeue s).1 []
unfolding dequeue
dequeue-last s x q e =
    let there : (s.head == null) ≡ false = ground (arith, q.shape.0, q.proper.0) in
    let next : s.next s.head ≡ null = rw q.shape.0 e in
    rw there (q.shape.0, record { proper = tt; shape = (next, ground (arith, next)) })

-- Whatever the link of the first thread leads to becomes the head, also where the queue should be
-- empty.
pub dequeue-stale :
    (s : Scheduler) (x : Thread) (xs : List Thread)
    → IsQueue s (x ∷ xs)
    → ((dequeue s).0 ≡ x) × ((dequeue s).1.head ≡ s.next x) × ((dequeue s).1.next ≡ s.next)
unfolding dequeue
dequeue-stale s x xs q =
    let there : (s.head == null) ≡ false = ground (arith, q.shape.0, q.proper.0) in
    rw there (q.shape.0, ap s.next q.shape.0, refl)
