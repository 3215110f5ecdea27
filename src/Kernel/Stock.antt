-- ===== src/Kernel/Stock.antt =====
-- What the kernel's pool keeps of the objects of the threads, as interrupts and returns come.
use multi_process.Base.{
  ℕ, zero, suc, ◌+◌, ◌^◌, ◌<◌, ◌≤◌, ◌≡◌, ◌≢◌, refl, ap, ◌∙◌, List, ◌∷◌, some, get_elem?, length,
  arith,
}
use multi_process.VmPool
use multi_process.VmPool.{VmPool, Region, region, page_size, allocate, first_index, carve, round_up}
use multi_process.VmPool.Allocate.{entry, allocate_lem}
use multi_process.VmPool.Regions.{IsPartition, initial_tables-IsPartition}
use multi_process.VmPool.Reachable.{allocated-IsPartition}
use multi_process.VmPool.Release.{Freed}
use multi_process.VmPool.Return.{Takes}
use multi_process.Scheduler.{Thread}
use multi_process.Scheduler.Population.{count}
use multi_process.Kernel.Objects.{granted, page}

-- The pool `p` has a page granted for the object of each thread of `created` that is not deleted, and
-- has entries left to take two of them back.
pub record Keeps (p : VmPool) (created deleted : List Thread) : Type 0 where
  pub parted : IsPartition p
  pub held :
      (t : Thread)
      → count t deleted < count t created
      → (i : ℕ) × (get_elem? p.alloc i ≡ some (region t page_size))
  pub spare : (j : ℕ) → length deleted < j → j ≤ 2 → (entry p.free j).size ≡ 0

pub granted-IsPartition : (k : ℕ) → IsPartition (granted k)
unfolding granted
granted-IsPartition zero = initial_tables-IsPartition (2 ^ 29) (2 ^ 28) (omega arith) (omega arith)
granted-IsPartition (suc k) =
    let v = granted-IsPartition k in
    allocated-IsPartition (granted k) page_size (allocate (granted k) page_size) v
      (allocate_lem (granted k) v page_size)

-- The entries of the four threads when main has made its objects.
pub granted-held :
    (get_elem? (granted 15).alloc 4 ≡ some (region (page 3) page_size))
    × (get_elem? (granted 15).alloc 7 ≡ some (region (page 6) page_size))
    × (get_elem? (granted 15).alloc 10 ≡ some (region (page 9) page_size))
    × (get_elem? (granted 15).alloc 13 ≡ some (region (page 12) page_size))
unfolding granted allocate VmPool.initial_tables first_index carve round_up
granted-held = (refl, refl, refl, refl)

granted-spare : ((entry (granted 15).free 1).size ≡ 0) × ((entry (granted 15).free 2).size ≡ 0)
unfolding granted allocate VmPool.initial_tables first_index carve round_up
granted-spare = (refl, refl)

pub spare_at : (j : ℕ) → 0 < j → j ≤ 2 → (entry (granted 15).free j).size ≡ 0
spare_at zero pos le = absurd (omega arith)
spare_at (suc zero) pos le = granted-spare.0
spare_at (suc (suc zero)) pos le = granted-spare.1
spare_at (suc (suc (suc j))) pos le = absurd (omega arith)

-- The pool takes back the object of a thread that is alive, as long as at most one is deleted.
pub Keeps-Takes :
    (p : VmPool) (created deleted : List Thread) (a : Thread)
    → Keeps p created deleted
    → count a deleted < count a created
    → length deleted < 2
    → Takes p page_size a
Keeps-Takes p created deleted a h alive few = record {
  parted = h.parted;
  held = h.held a alive;
  positive = omega arith;
  slot = (
    length deleted + 1,
    omega (arith, few),
    h.spare (length deleted + 1) (omega arith) (omega (arith, few)),
  );
}

-- When it has been taken back, the others are kept.
pub Freed-Keeps :
    (p q : VmPool) (created deleted : List Thread) (a : Thread)
    → Keeps p created deleted
    → length deleted < 2
    → count a created ≡ count a deleted + 1
    → Freed p page_size a q
    → Keeps q created (a ∷ deleted)
unfolding count
Freed-Keeps p q created deleted a h few once f = record {
  parted = f.parted;
  held = λ t lt.
      let ne : t ≢ a =
        λ e. ground (arith, lt, once, ap (λ z. count z created) e, ap (λ z. count z deleted) e) in
      let before : count t deleted < count t created = ground (arith, lt) in
      let (i, at) = h.held t before in (i, f.kept i (region t page_size) at ne);
  spare = λ j lt le.
      let next = length deleted + 1 in
      ap (λ (r : Region). r.size)
        (f.lowest next j (omega (arith, few)) (h.spare next (omega arith) (omega (arith, few)))
          (omega (arith, lt)))
      ∙ h.spare j (omega (arith, lt)) le;
}
