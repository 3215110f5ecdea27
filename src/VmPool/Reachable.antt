-- ===== src/VmPool/Reachable.antt =====
-- Any history of allocations and releases on a virtual memory pool.
use multi_process.Base.{ℕ, ◌≡◌, sym, false}
use mathlib.Core.Path.{subst}
use multi_process.VmPool.{VmPool, Error, Outcome, done, failed, allocate, release}
use multi_process.VmPool.Regions.{IsPartition}
use multi_process.VmPool.Allocate
use multi_process.VmPool.Allocate.{allocate_lem}
use multi_process.VmPool.Release
use multi_process.VmPool.Release.{management, release_lem}

-- One call on the pool and its page table, with any size and with any address but those of the two
-- pages of the tables: a release there frees the pages under the tables, which are lists here.
pub data Step {Pt : Type 0} (free_page : ℕ → Pt → Pt) (s t : VmPool × Pt) : Type 0 where
  allocation : (n : ℕ) → t ≡ ((allocate s.0 n).1, s.1) → Step free_page s t
  deallocation :
      (a : ℕ)
      → management s.0 a ≡ false
      → t ≡ ((release free_page s.0 a s.1).1, (release free_page s.0 a s.1).2)
      → Step free_page s t

pub data Reachable {Pt : Type 0} (free_page : ℕ → Pt → Pt) (s : VmPool × Pt)
    : VmPool × Pt → Type 0 where
  start : Reachable free_page s s
  next :
      {t u : VmPool × Pt} → Reachable free_page s t → Step free_page t u → Reachable free_page s u

pub allocated-IsPartition :
    (p : VmPool) (n : ℕ) (o : Outcome ℕ × VmPool)
    → IsPartition p
    → Allocate.Explains p n o
    → IsPartition o.1
allocated-IsPartition p n (done a, q) v (t, _) = t.parted
allocated-IsPartition p n (failed Error.invalid_size, q) v (same, why) =
    subst IsPartition (sym same) v
allocated-IsPartition p n (failed Error.no_free_region, q) v (same, why, _) =
    subst IsPartition (sym same) v
allocated-IsPartition p n (failed Error.no_alloc_region, q) v (same, why) =
    subst IsPartition (sym same) v
allocated-IsPartition p n (failed Error.oob_addr, q) v h = elim h [ ]
allocated-IsPartition p n (failed Error.invalid_addr, q) v h = elim h [ ]

module _ {Pt : Type 0} (free_page : ℕ → Pt → Pt) where
  released-IsPartition :
      (p : VmPool) (a : ℕ) (pt : Pt) (o : Outcome (Unit {0}) × VmPool × Pt)
      → IsPartition p
      → Release.Explains free_page p a pt o
      → IsPartition o.1
  released-IsPartition p a pt (done u, q, pt') v (size, f, at) = f.parted
  released-IsPartition p a pt (failed Error.oob_addr, q, pt') v (same, out, why) =
      subst IsPartition (sym same) v
  released-IsPartition p a pt (failed Error.invalid_addr, q, pt') v (same, out, why) =
      subst IsPartition (sym same) v
  released-IsPartition p a pt (failed Error.no_free_region, q, pt') v (same, out, why) =
      subst IsPartition (sym same) v
  released-IsPartition p a pt (failed Error.invalid_size, q, pt') v h = elim h [ ]
  released-IsPartition p a pt (failed Error.no_alloc_region, q, pt') v h = elim h [ ]

  Step-IsPartition : {s t : VmPool × Pt} → IsPartition s.0 → Step free_page s t → IsPartition t.0
  Step-IsPartition {s} v (allocation n to) =
      subst (λ (o : VmPool × Pt). IsPartition o.0) (sym to)
        (allocated-IsPartition s.0 n (allocate s.0 n) v (allocate_lem s.0 v n))
  Step-IsPartition {s} v (deallocation a outside to) =
      subst (λ (o : VmPool × Pt). IsPartition o.0) (sym to)
        (released-IsPartition s.0 a s.1 (release free_page s.0 a s.1) v
          (release_lem free_page s.0 a s.1 v outside))

  -- From a parted pool, every history of allocations and releases, of any sizes, and at any
  -- addresses but those of the two pages of the tables, granted or refused, leaves it parted: no address is in two regions, and every
  -- region lies in the pool.
  pub Reachable-IsPartition :
      {s t : VmPool × Pt} → IsPartition s.0 → Reachable free_page s t → IsPartition t.0
  Reachable-IsPartition v start = v
  Reachable-IsPartition v (next r step) = Step-IsPartition (Reachable-IsPartition v r) step
