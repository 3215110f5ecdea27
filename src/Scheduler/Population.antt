-- ===== src/Scheduler/Population.antt =====
-- How often a thread is in a list of threads.
use multi_process.Base.{
  ℕ, suc, ◌+◌, ◌<◌, ◌≡◌, refl, List, [], ◌∷◌, ◌++◌, ◌==◌, if◌then◌else◌, arith, ap, Bool-cases, inl,
  inr,
}
use multi_process.Scheduler.{Thread}
use multi_process.Scheduler.Fifo.{NotIn}

unfoldable pub count : Thread → List Thread → ℕ
count t [] = 0
count t (x ∷ xs) = if x == t then suc (count t xs) else count t xs

pub count-append : (t : Thread) (xs ys : List Thread) → count t (xs ++ ys) ≡ count t xs + count t ys
unfolding count
count-append t [] ys = omega arith
count-append t (x ∷ xs) ys = ground (arith, count-append t xs ys)

pub count-NotIn : (t : Thread) (xs : List Thread) → count t xs ≡ 0 → NotIn t xs
unfolding count
count-NotIn t [] e = tt
count-NotIn t (x ∷ xs) e = (ground (arith, e), count-NotIn t xs (ground (arith, e)))

-- The running thread and those behind it, one place further on.
pub count-rotate :
    (t c x : Thread) (ys : List Thread) → count t (x ∷ (ys ++ (c ∷ []))) ≡ count t (c ∷ x ∷ ys)
unfolding count
count-rotate t c x ys = ground (arith, count-append t ys (c ∷ []))

pub count-remove :
    (z t : Thread) (pre post : List Thread)
    → count z (pre ++ (t ∷ post)) ≡ count z (t ∷ (pre ++ post))
unfolding count
count-remove z t [] post = refl
count-remove z t (x ∷ pre) post = ground (arith, count-remove z t pre post)

-- A thread that is counted stands somewhere.
pub count-split :
    (t : Thread) (xs : List Thread)
    → 0 < count t xs
    → (pre : List Thread) × (post : List Thread) × (xs ≡ pre ++ (t ∷ post))
unfolding count
count-split t [] pos = absurd (omega arith)
count-split t (x ∷ xs) pos = elim (Bool-cases (x == t)) [
  | inl here ↦ ([], xs, ap (λ z. z ∷ xs) (ground (arith, here)))
  | inr there ↦
      let (pre, post, e) = count-split t xs (ground (arith, pos, there)) in
      (x ∷ pre, post, ap (λ l. x ∷ l) e)
]
