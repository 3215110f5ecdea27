-- ===== src/Scheduler/Ring.antt =====
-- The links of the waiting and the running thread close to a ring, and what `terminate` does then.
use multi_process.Base.{
  ◌∙◌, ap, sym, ℕ, zero, suc, ◌<◌, ◌≡◌, refl, ◌≢◌, false, List, [], ◌∷◌, none, ◌==◌, arith,
  Bool-cases, inl, inr, ◌⊎◌,
}
use multi_process.Scheduler.{Thread, null, Scheduler, find_prev, terminate}
use multi_process.Scheduler.Fifo.{NotIn, Proper, Links, tail-ne}
use multi_process.Scheduler.Population.{count}
use multi_process.Scheduler.RoundRobin.{Runs, enter-some}

-- Thread `c` runs and the threads of the list wait, and the link of the last one leads to `c`,
-- whose own link leads to the first one.
pub record Ring (s : Scheduler) (c : Thread) (xs : List Thread) : Type 0 where
  pub runs : Runs s c xs
  pub back : s.next s.tail ≡ c
  pub front : s.next c ≡ s.head

-- The walk over threads whose links lead to each other, and none to `t`, never ends.
find_prev-none :
    (P : Thread → Type 0) (next : Thread → Thread) (t : Thread)
    → ((z : Thread) → P z → (0 < z) × (next z ≢ t) × P (next z))
    → (n : ℕ) (z : Thread) → P z
    → find_prev n next z t ≡ none
unfolding find_prev
find_prev-none P next t closed zero z h = refl
find_prev-none P next t closed (suc n) z h =
    let (pos, ne, on) = closed z h in
    let there : (z == null) ≡ false = ground (arith, pos) in
    let miss : (next z == t) ≡ false = ground (arith, ne) in
    rw (there, miss) (find_prev-none P next t closed n (next z) on)

Links-count :
    (next : Thread → Thread) (x tail z : Thread) (xs : List Thread)
    → Links next x xs tail
    → 0 < count z (x ∷ xs)
    → (z ≡ tail) ⊎ (0 < count (next z) xs)
unfolding count
Links-count next x tail z [] l h = inl (ground (arith, h))
Links-count next x tail z (y ∷ ys) l h = elim (Bool-cases (x == z)) [
  | inl here ↦
      let same : x ≡ z = ground (arith, here) in
      let to : next z ≡ y = ap next (sym same) ∙ l.0 in inr (ground (arith, to))
  | inr there ↦ elim (Links-count next y tail z ys l.1 (ground (arith, h, there))) [
    | inl last ↦ inl last
    | inr more ↦ inr (ground (arith, more))
  ]
]

Proper-count : (z : Thread) (xs : List Thread) → Proper xs → 0 < count z xs → 0 < z
unfolding count
Proper-count z [] p h = absurd (omega arith)
Proper-count z (x ∷ xs) p h = elim (Bool-cases (x == z)) [
  | inl here ↦ ground (arith, here)
  | inr there ↦ Proper-count z xs p.2 (ground (arith, h, there))
]

pub NotIn-ne : (t z : Thread) (xs : List Thread) → NotIn t xs → 0 < count z xs → z ≢ t
unfolding count
NotIn-ne t z [] out h = absurd (omega arith)
NotIn-ne t z (x ∷ xs) out h = elim (Bool-cases (x == z)) [
  | inl here ↦ λ e. out.0 (ground (arith, here, e))
  | inr there ↦ NotIn-ne t z xs out.1 (ground (arith, h, there))
]

module _ (s : Scheduler) (c x : Thread) (xs : List Thread) (r : Ring s c (x ∷ xs)) where
  Ring-next : (z : Thread) → 0 < count z (c ∷ x ∷ xs) → 0 < count (s.next z) (c ∷ x ∷ xs)
  unfolding count
  Ring-next z h = elim (Bool-cases (c == z)) [
    | inl here ↦
        let same : c ≡ z = ground (arith, here) in
        let to : s.next z ≡ x = ap s.next (sym same) ∙ r.front ∙ r.runs.queue.shape.0 in
        ground (arith, to)
    | inr there ↦
        elim (Links-count s.next x s.tail z xs r.runs.queue.shape.1 (ground (arith, h, there))) [
          | inl last ↦ let to : s.next z ≡ c = ap s.next last ∙ r.back in ground (arith, to)
          | inr more ↦ ground (arith, more)
        ]
  ]

  Ring-none : (t : Thread) → NotIn t (c ∷ x ∷ xs) → (n : ℕ) → find_prev n s.next s.head t ≡ none
  unfolding count
  Ring-none t out n =
      find_prev-none (λ z. 0 < count z (c ∷ x ∷ xs)) s.next t
        (λ z h. (
          Proper-count z (c ∷ x ∷ xs) (r.runs.proper.0, r.runs.proper.1, r.runs.queue.proper) h,
          NotIn-ne t (s.next z) (c ∷ x ∷ xs) out (Ring-next z h),
          Ring-next z h,
        ))
        n s.head (ground (arith, r.runs.queue.shape.0))

-- In a ring of three or more threads, `terminate` of any thread outside of it never returns: no
-- number of rounds is enough for its walk.
pub terminate-diverges :
    (s : Scheduler) (c x y : Thread) (ys : List Thread) (t : Thread)
    → Ring s c (x ∷ y ∷ ys)
    → 0 < t
    → NotIn t (c ∷ x ∷ y ∷ ys)
    → (fuel : ℕ) → terminate fuel s t ≡ none
unfolding terminate
terminate-diverges s c x y ys t r pos out fuel =
    let there : (t == null) ≡ false = ground (arith, pos) in
    let other : (t == s.current) ≡ false = ground (arith, r.runs.current, out.0) in
    let apart : (s.head == s.tail) ≡ false = ground (
      arith,
      r.runs.queue.shape.0,
      tail-ne s.next y s.tail x ys r.runs.queue.shape.1.1 r.runs.queue.proper.1,
    ) in
    rw (enter-some, there, other, apart, Ring-none s c x (y ∷ ys) r t out fuel) refl
