-- ===== src/Scheduler/Rotation.antt =====
-- Two quanta close the links to a ring; then the first of the waiting threads survives its deletion.
use multi_process.Base.{
  ◌∙◌, ap, sym, ℕ, zero, suc, ◌-◌, ◌<◌, ◌≡◌, refl, ◌≢◌, true, false, not, List, [], ◌∷◌, ◌++◌, some,
  ◌==◌, ◌||◌, if◌then◌else◌, update, arith, length,
}
use multi_process.Scheduler.{Thread, null, Scheduler, dequeue, find_prev, unlink, terminate}
use multi_process.Scheduler.Fifo.{NotIn, Proper, Links, IsQueue, tail-ne}
use multi_process.Scheduler.Ring.{Ring}
use multi_process.Scheduler.RoundRobin.{Runs, Switched, enter-some, leave-some}
use multi_process.Scheduler.Quanta.{interrupts, interrupts-Switched, quanta}

Links-last :
    (next : Thread → Thread) (a tail x : Thread) (zs : List Thread)
    → Links next a (zs ++ (x ∷ [])) tail
    → tail ≡ x
Links-last next a tail x [] l = l.1
Links-last next a tail x (z ∷ zs) l = Links-last next z tail x zs l.1

-- The thread that was put behind the others is the tail.
pub IsQueue-last :
    (s : Scheduler) (x : Thread) (zs : List Thread) → IsQueue s (zs ++ (x ∷ [])) → s.tail ≡ x
IsQueue-last s x [] q = q.shape.1
IsQueue-last s x (z ∷ zs) q = Links-last s.next z s.tail x zs q.shape.1

-- One whole quantum.
quantum-Switched :
    (s : Scheduler) (c x : Thread) (ys : List Thread)
    → Runs s c (x ∷ ys)
    → s.ticks ≡ 0
    → 0 < s.hz
    → (s' : Scheduler) × (interrupts s.hz s ≡ some s') × Switched s x (ys ++ (c ∷ [])) s'
quantum-Switched s c x ys r t h =
    let e : s.hz ≡ suc (s.hz - 1) = omega arith in
    let (s', run, w) = interrupts-Switched (s.hz - 1) s c x ys r (omega arith) in
    (s', ap (λ n. interrupts n s) e ∙ run, w)

-- With at least three threads alive, two whole quanta leave the links closed to a ring through all
-- of them: the link of the last waiting thread leads to the running one, and the running one's
-- to the first that waits.
pub quanta-Ring :
    (s : Scheduler) (c x y : Thread) (ys : List Thread)
    → Runs s c (x ∷ y ∷ ys)
    → s.ticks ≡ 0
    → 0 < s.hz
    → (s' : Scheduler) × (quanta 2 s ≡ some (c ∷ x ∷ [], s'))
      × Ring s' y ((ys ++ (c ∷ [])) ++ (x ∷ []))
unfolding quanta
quanta-Ring s c x y ys r t h =
    let (s1, run1, w1) = quantum-Switched s c x (y ∷ ys) r t h in
    let (s2, run2, w2) =
      quantum-Switched s1 x y (ys ++ (c ∷ [])) w1.runs w1.reset (omega (arith, w1.quantum)) in
    let last1 = IsQueue-last s1 c (y ∷ ys) w1.runs.queue in
    let last2 = IsQueue-last s2 x (ys ++ (c ∷ [])) w2.runs.queue in
    let apart : x ≢ s1.tail =
      tail-ne s1.next y s1.tail x (ys ++ (c ∷ [])) w1.runs.queue.shape.1 w1.runs.proper.1 in
    (
      s2,
      rw (run1, run2, r.current, w1.runs.current) refl,
      record {
        runs = w2.runs;
        back =
            ap s2.next last2
            ∙ w2.links x apart
            ∙ ap s1.next (sym w1.runs.current)
            ∙ w1.follow
            ∙ w1.runs.queue.shape.0;
        front = ap s2.next (sym w2.runs.current) ∙ w2.follow;
      },
    )

-- The walk over a chain, to a thread behind it.
find_prev-Links :
    (fuel : ℕ) (next : Thread → Thread) (x tail c t : Thread) (xs : List Thread)
    → Links next x xs tail
    → Proper (x ∷ xs)
    → NotIn t xs
    → next tail ≡ c
    → next c ≡ t
    → c ≢ t
    → 0 < c
    → suc (length xs) < fuel
    → find_prev fuel next x t ≡ some c
unfolding find_prev
find_prev-Links zero next x tail c t xs l p out to hit ne pos lt = absurd (omega arith)
find_prev-Links (suc zero) next x tail c t xs l p out to hit ne pos lt = absurd (omega arith)
find_prev-Links (suc (suc fuel)) next x tail c t [] l p out to hit ne pos lt =
    let there : (x == null) ≡ false = ground (arith, p.0) in
    let on : next x ≡ c = ap next (sym l) ∙ to in
    let miss : (next x == t) ≡ false = ground (arith, on, ne) in
    let found : (next c == t) ≡ true = ground (arith, hit) in
    let here : (c == null) ≡ false = ground (arith, pos) in rw (there, miss, on, here, found) refl
find_prev-Links (suc (suc fuel)) next x tail c t (y ∷ ys) l p out to hit ne pos lt =
    let there : (x == null) ≡ false = ground (arith, p.0) in
    let miss : (next x == t) ≡ false = ground (arith, l.0, out.0) in
    rw (there, miss)
      (ap (λ z. find_prev (suc fuel) next z t) l.0
        ∙ find_prev-Links (suc fuel) next y tail c t ys l.1 p.2 out.1 to hit ne pos (omega arith))

-- In a ring, `terminate` of the first of two or more waiting threads deletes it, but leaves it at
-- the head of the queue: it is the next to be given the CPU. Two rounds more than there are
-- other waiting threads are fuel enough.
pub terminate-dequeue :
    (fuel : ℕ) (s : Scheduler) (c x y : Thread) (ys : List Thread)
    → Ring s c (x ∷ y ∷ ys)
    → suc (suc (length ys)) < fuel
    → (s' : Scheduler) × (terminate fuel s x ≡ some s')
      × (s'.deleted ≡ x ∷ s.deleted)
      × ((dequeue s').0 ≡ x)
unfolding terminate unlink dequeue
terminate-dequeue fuel s c x y ys r lt =
    let q = r.runs.queue in
    let there : (x == null) ≡ false = ground (arith, q.proper.0) in
    let other : (x == s.current) ≡ false = ground (arith, r.runs.current, r.runs.proper.1.0) in
    let tail : x ≢ s.tail = tail-ne s.next y s.tail x ys q.shape.1.1 q.proper.1 in
    let apart : (s.head == s.tail) ≡ false = ground (arith, q.shape.0, tail) in
    let hit : s.next c ≡ x = r.front ∙ q.shape.0 in
    let found : find_prev fuel s.next s.head x ≡ some c =
      ap (λ z. find_prev fuel s.next z x) q.shape.0
      ∙ find_prev-Links fuel s.next x s.tail c x (y ∷ ys) q.shape.1 q.proper q.proper.1 r.back hit
          r.runs.proper.1.0 r.runs.proper.0 lt in
    let ok : (c == null || not (s.next c == x)) ≡ false = ground (arith, hit, r.runs.proper.0) in
    (
      record s {
        next = update s.next c (s.next x);
        tail = if x == s.tail then c else s.tail;
        deleted = x ∷ s.deleted;
        interrupts = true;
      },
      rw (enter-some, there, other, apart, found, ok) (leave-some _),
      refl,
      ground (arith, q.shape.0, q.proper.0),
    )
