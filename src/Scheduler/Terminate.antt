-- ===== src/Scheduler/Terminate.antt =====
-- `Scheduler::terminate` of a thread that waits in the queue.
use multi_process.Base.{
  ℕ, zero, suc, ◌<◌, ◌≡◌, refl, ◌≢◌, true, false, not, List, [], ◌∷◌, ◌++◌, some, ◌==◌, ◌||◌,
  if◌then◌else◌, update, arith, length, ap, ◌∙◌, sym,
}
use multi_process.Scheduler.{Thread, null, Scheduler, find_prev, unlink, terminate}
use multi_process.Scheduler.Fifo.{NotIn, Proper, Links, IsQueue, tail-ne}
use multi_process.Scheduler.RoundRobin.{enter-some, leave-some, bind-some}

-- A new link of a thread that is not on the way changes nothing.
Links-update :
    (next : Thread → Thread) (x tail z v : Thread) (xs : List Thread)
    → Links next x xs tail
    → NotIn z (x ∷ xs)
    → Links (update next z v) x xs tail
Links-update next x tail z v [] l out = l
Links-update next x tail z v (y ∷ ys) l out =
    (ground (arith, l.0, out.0), Links-update next y tail z v ys l.1 out.1)

-- The link of a thread that is not in the queue does not matter.
pub IsQueue-update :
    (s : Scheduler) (z v : Thread) (xs : List Thread)
    → IsQueue s xs
    → NotIn z xs
    → IsQueue (record s { next = update s.next z v }) xs
IsQueue-update s z v [] q out = record { proper = tt; shape = q.shape }
IsQueue-update s z v (x ∷ xs) q out = record {
  proper = q.proper;
  shape = (q.shape.0, Links-update s.next x s.tail z v xs q.shape.1 out);
}

pub NotIn-remove :
    (z t : Thread) (pre post : List Thread) → NotIn z (pre ++ (t ∷ post)) → NotIn z (pre ++ post)
NotIn-remove z t [] post h = h.1
NotIn-remove z t (x ∷ pre) post h = (h.0, NotIn-remove z t pre post h.1)

NotIn-prefix : (z : Thread) (pre post : List Thread) → NotIn z (pre ++ post) → NotIn z pre
NotIn-prefix z [] post h = tt
NotIn-prefix z (x ∷ pre) post h = (h.0, NotIn-prefix z pre post h.1)

NotIn-mid : (z t : Thread) (pre post : List Thread) → NotIn z (pre ++ (t ∷ post)) → z ≢ t
NotIn-mid z t [] post h = h.0
NotIn-mid z t (x ∷ pre) post h = NotIn-mid z t pre post h.1

Proper-remove :
    (t : Thread) (pre post : List Thread) → Proper (pre ++ (t ∷ post)) → Proper (pre ++ post)
Proper-remove t [] post h = h.2
Proper-remove t (x ∷ pre) post h =
    (h.0, NotIn-remove x t pre post h.1, Proper-remove t pre post h.2)

abbrev tail_after : Thread → Thread → Thread → Thread
tail_after t tail prev = if t == tail then prev else tail

-- What the walk finds: the thread before `t`, and the chain once it is relinked past `t`.
record Before (next : Thread → Thread) (x tail t : Thread) (pre post : List Thread) (prev : Thread)
    : Type 0 where
  pos : 0 < prev
  link : next prev ≡ t
  chain : Links (update next prev (next t)) x (pre ++ post) (tail_after t tail prev)
  apart : (z : Thread) → NotIn z (x ∷ pre) → prev ≢ z

Before-here :
    (next : Thread → Thread) (x tail t : Thread) (post : List Thread)
    → Links next x (t ∷ post) tail
    → Proper (x ∷ t ∷ post)
    → Before next x tail t [] post x
Before-here next x tail t [] l p = record {
  pos = p.0;
  link = l.0;
  chain = ground (arith, l.1);
  apart = λ z out e. out.0 (omega arith);
}
Before-here next x tail t (z ∷ zs) l p = record {
  pos = p.0;
  link = l.0;
  chain = (
    ground (arith, l.1.0),
    (let other : (t == tail) ≡ false = ground (arith, tail-ne next z tail t zs l.1.1 p.2.1) in
        rw other (Links-update next z tail x (next t) zs l.1.1 p.1.1)),
  );
  apart = λ z out e. out.0 (omega arith);
}

find_prev-Before :
    (fuel : ℕ) (next : Thread → Thread) (x tail t : Thread) (pre post : List Thread)
    → Links next x (pre ++ (t ∷ post)) tail
    → Proper (x ∷ (pre ++ (t ∷ post)))
    → length pre < fuel
    → (prev : Thread) × (find_prev fuel next x t ≡ some prev) × Before next x tail t pre post prev
unfolding find_prev
find_prev-Before zero next x tail t pre post l p lt = absurd (omega arith)
find_prev-Before (suc fuel) next x tail t [] post l p lt =
    let there : (x == null) ≡ false = ground (arith, p.0) in
    let hit : (next x == t) ≡ true = ground (arith, l.0) in
    (x, rw (there, hit), Before-here next x tail t post l p)
find_prev-Before (suc fuel) next x tail t (y ∷ pre) post l p lt =
    let there : (x == null) ≡ false = ground (arith, p.0) in
    let miss : (next x == t) ≡ false = ground (arith, l.0, NotIn-mid y t pre post p.2.1) in
    let (prev, found, b) = find_prev-Before fuel next y tail t pre post l.1 p.2 (omega arith) in
    (
      prev,
      rw (there, miss) (ap (λ z. find_prev fuel next z t) l.0 ∙ found),
      record {
        pos = b.pos;
        link = b.link;
        chain = (ground (arith, l.0, b.apart x (NotIn-prefix x (y ∷ pre) (t ∷ post) p.1)), b.chain);
        apart = λ z out. b.apart z out.1;
      },
    )

ends-ne :
    (next : Thread → Thread) (x tail t : Thread) (pre post : List Thread)
    → Links next x (pre ++ (t ∷ post)) tail
    → NotIn x (pre ++ (t ∷ post))
    → x ≢ tail
ends-ne next x tail t [] post l out = tail-ne next t tail x post l.1 out
ends-ne next x tail t (y ∷ pre) post l out = tail-ne next y tail x (pre ++ (t ∷ post)) l.1 out

Proper-mid : (t : Thread) (pre post : List Thread) → Proper (pre ++ (t ∷ post)) → 0 < t
Proper-mid t [] post p = p.0
Proper-mid t (x ∷ pre) post p = Proper-mid t pre post p.2

-- The state that `terminate` leaves when it has taken `t` out of the queue.
pub record Removed (s : Scheduler) (xs : List Thread) (t : Thread) (s' : Scheduler) : Type 0 where
  pub queue : IsQueue s' xs
  pub destroyed : s'.deleted ≡ t ∷ s.deleted
  pub enabled : s'.interrupts ≡ true
  pub current : s'.current ≡ s.current
  pub timer : (s'.running ≡ s.running) × (s'.ticks ≡ s.ticks) × (s'.hz ≡ s.hz)

module _ (s : Scheduler) (x t : Thread) (pre post : List Thread)
    (q : IsQueue s (x ∷ (pre ++ (t ∷ post)))) where
  ends-differ : (s.head == s.tail) ≡ false
  ends-differ = ground (arith, q.shape.0, ends-ne s.next x s.tail t pre post q.shape.1 q.proper.1)

  unlinked : Thread → Scheduler
  unlinked prev = record s {
    next = update s.next prev (s.next t);
    tail = tail_after t s.tail prev;
    deleted = t ∷ s.deleted;
    interrupts = true;
  }

  unlink-some :
      (prev : Thread)
      → 0 < prev
      → s.next prev ≡ t
      → unlink (record s { interrupts = false }) prev t ≡ some (unlinked prev)
  unfolding unlink unlinked
  unlink-some prev pos link =
      let ok : (prev == null || not (s.next prev == t)) ≡ false = ground (arith, link) in
      rw (ok, leave-some)

  unlinked-Removed :
      (prev : Thread)
      → Before s.next x s.tail t pre post prev
      → Removed s (x ∷ (pre ++ post)) t (unlinked prev)
  unfolding unlinked
  unlinked-Removed prev b = record {
    queue = record {
      proper = Proper-remove t (x ∷ pre) post q.proper;
      shape = (q.shape.0, b.chain);
    };
    destroyed = refl;
    enabled = refl;
    current = refl;
    timer = (refl, refl, refl);
  }

  -- A thread that waits in the queue behind another one, and is not the running one, is taken out
  -- of the queue and deleted; the others keep their order, and the interrupts are enabled. A round
  -- for each thread before it and one more is fuel enough.
  pub terminate-Removed :
      (fuel : ℕ)
      → length pre < fuel
      → t ≢ s.current
      → (s' : Scheduler) × (terminate fuel s t ≡ some s') × Removed s (x ∷ (pre ++ post)) t s'
  unfolding terminate
  terminate-Removed fuel enough ne =
      let (prev, found, b) =
        find_prev-Before fuel s.next x s.tail t pre post q.shape.1 q.proper enough in
      let there : (t == null) ≡ false = ground (arith, Proper-mid t pre post q.proper.2) in
      let other : (t == s.current) ≡ false = ground (arith, ne) in
      (
        unlinked prev,
        rw (enter-some, there, other, ends-differ)
            (bind-some (λ z. unlink (record s { interrupts = false }) z t)
              (ap (λ z. find_prev fuel s.next z t) q.shape.0 ∙ found)
              (unlink-some prev b.pos b.link)),
        unlinked-Removed prev b,
      )

-- The walk never finds the thread that it starts from.
find_prev-head :
    (fuel : ℕ) (next : Thread → Thread) (x tail t : Thread) (xs : List Thread)
    → Links next x xs tail
    → Proper (x ∷ xs)
    → NotIn t xs
    → 0 < t
    → next tail ≡ null
    → suc (length xs) < fuel
    → find_prev fuel next x t ≡ some null
unfolding find_prev
find_prev-head zero next x tail t xs l p out pos end lt = absurd (omega arith)
find_prev-head (suc zero) next x tail t xs l p out pos end lt = absurd (omega arith)
find_prev-head (suc (suc fuel)) next x tail t [] l p out pos end lt =
    let there : (x == null) ≡ false = ground (arith, p.0) in
    let over : next x ≡ null = ap next (sym l) ∙ end in
    let miss : (next x == t) ≡ false = ground (arith, over) in
    let gone : (next x == null) ≡ true = ground (arith, over) in rw (there, miss, gone)
find_prev-head (suc (suc fuel)) next x tail t (y ∷ ys) l p out pos end lt =
    let there : (x == null) ≡ false = ground (arith, p.0) in
    let miss : (next x == t) ≡ false = ground (arith, l.0, out.0) in
    rw (there, miss)
      (ap (λ z. find_prev (suc fuel) next z t) l.0
        ∙ find_prev-head (suc fuel) next y tail t ys l.1 p.2 out.1 pos end (omega arith))

-- The first of two or more waiting threads cannot be terminated: if the last link is NULL,
-- `terminate` returns with the thread still queued, and with the interrupts disabled.
terminate-head :
    (fuel : ℕ) (s : Scheduler) (t y : Thread) (ys : List Thread)
    → IsQueue s (t ∷ y ∷ ys)
    → t ≢ s.current
    → s.next s.tail ≡ null
    → suc (suc (length ys)) < fuel
    → terminate fuel s t ≡ some (record s { interrupts = false })
unfolding terminate unlink
terminate-head fuel s t y ys q ne end lt =
    let there : (t == null) ≡ false = ground (arith, q.proper.0) in
    let other : (t == s.current) ≡ false = ground (arith, ne) in
    let apart : (s.head == s.tail) ≡ false =
      ground (arith, q.shape.0, tail-ne s.next y s.tail t ys q.shape.1.1 q.proper.1) in
    rw (enter-some, there, other, apart)
      (bind-some (λ z. unlink (record s { interrupts = false }) z t)
        (ap (λ z. find_prev fuel s.next z t) q.shape.0
          ∙ find_prev-head fuel s.next t s.tail t (y ∷ ys) q.shape.1 q.proper q.proper.1 q.proper.0
              end lt)
        refl)
