-- ===== src/Thread/InForce.antt =====
-- Which page table and which memory pool are in force when a thread runs.
use multi_process.Base.{
  ℕ, ◌≡◌, refl, sym, ap, ◌∙◌, Bool, ◌||◌, List, [], ◌∷◌, ◌++◌, ◌==◌, if◌then◌else◌, Bool-cases, inl,
  inr, arith,
}
use multi_process.Thread.Life.{ThreadObject}
use multi_process.Thread.Switch.{Switch, low_switch, return_to, dispatch_to, dispatches}

-- The thread has run before the history or in it.
abbrev pub has_run : Switch → List ℕ → ℕ → Bool
has_run s [] t = s.started t
has_run s (x ∷ ts) t = t == x || has_run s ts t

dispatches-append :
    (ts : List ℕ) (t : ℕ) (s : Switch)
    → dispatches (ts ++ (t ∷ [])) s ≡ dispatch_to t (dispatches ts s)
unfolding dispatches
dispatches-append [] t s = refl
dispatches-append (x ∷ ts) t s = dispatches-append ts t (dispatch_to x s)

pub dispatch_to-started :
    (x : ℕ) (s : Switch) (t : ℕ) → (dispatch_to x s).started t ≡ (t == x || s.started t)
unfolding dispatch_to low_switch return_to
dispatch_to-started x s t = elim (Bool-cases (s.started x)) [
  | inl before ↦ rw before (ground arith)
  | inr new ↦ rw new (ground arith)
]

dispatch_to-thread : (x : ℕ) (s : Switch) → (dispatch_to x s).thread ≡ s.thread
unfolding dispatch_to low_switch return_to
dispatch_to-thread x s = elim (Bool-cases (s.started x)) [
  | inl before ↦ rw before refl
  | inr new ↦ rw new refl
]

has_run-dispatch_to :
    (x : ℕ) (s : Switch) (ts : List ℕ) (t : ℕ)
    → has_run (dispatch_to x s) ts t ≡ (t == x || has_run s ts t)
has_run-dispatch_to x s [] t = dispatch_to-started x s t
has_run-dispatch_to x s (y ∷ ts) t = ground (arith, has_run-dispatch_to x s ts t)

dispatches-started :
    (ts : List ℕ) (s : Switch) (t : ℕ) → (dispatches ts s).started t ≡ has_run s ts t
unfolding dispatches
dispatches-started [] s t = refl
dispatches-started (x ∷ ts) s t =
    dispatches-started ts (dispatch_to x s) t ∙ has_run-dispatch_to x s ts t

dispatches-thread : (ts : List ℕ) (s : Switch) → (dispatches ts s).thread ≡ s.thread
unfolding dispatches
dispatches-thread [] s = refl
dispatches-thread (x ∷ ts) s = dispatches-thread ts (dispatch_to x s) ∙ dispatch_to-thread x s

-- What is in force when the thread `t` runs, from what was so before.
pub record InForce (ran : Bool) (t : ThreadObject) (before after : Switch) : Type 0 where
  pub table : after.cr3 ≡ t.pt
  pub pool : after.world.memory_pool ≡ (if ran then t.pool else before.world.memory_pool)
  pub loaded : after.world.loaded ≡ (if ran then t.pt else before.world.loaded)

pub dispatch_to-InForce :
    (t : ℕ) (s : Switch) → InForce (s.started t) (s.thread t) s (dispatch_to t s)
unfolding dispatch_to low_switch return_to
dispatch_to-InForce t s = elim (Bool-cases (s.started t)) [
  | inl before ↦ rw before (record { table = refl; pool = refl; loaded = refl })
  | inr new ↦ rw new (record { table = refl; pool = refl; loaded = refl })
]

-- Behind any history of dispatches, the next one puts the page table of its thread into the
-- register. If the thread has run before, the memory pool and the current page table are its own.
-- If it runs for the first time, they are still those of the thread before it.
pub dispatches-InForce :
    (ts : List ℕ) (t : ℕ) (s : Switch)
    → InForce (has_run s ts t) (s.thread t) (dispatches ts s) (dispatches (ts ++ (t ∷ [])) s)
dispatches-InForce ts t s =
    let same : (dispatches ts s).thread t ≡ s.thread t = ap (λ f. f t) (dispatches-thread ts s) in
    rw (dispatches-append ts t s, sym (dispatches-started ts s t), sym same)
      (dispatch_to-InForce t (dispatches ts s))
