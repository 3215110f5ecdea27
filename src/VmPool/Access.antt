-- ===== src/VmPool/Access.antt =====
-- Which addresses an allocation makes legitimate.
use multi_process.Base.{ℕ, ◌*◌, ◌≡◌, ap, ◌||◌, arith}
use mathlib.Core.Path.{subst}
use multi_process.VmPool.{VmPool, region, done, page_size, round_up, allocate, is_legitimate}
use multi_process.VmPool.Regions.{holds, IsPartition}
use multi_process.VmPool.Allocate
use multi_process.VmPool.Allocate.{Allocated, allocate_lem}
use multi_process.VmPool.Release.{management, is_legitimate_lem}

Allocated-is_legitimate :
    (p : VmPool) (size a : ℕ) (q : VmPool) (x : ℕ)
    → IsPartition p
    → Allocated p size a q
    → is_legitimate q x ≡ (is_legitimate p x || holds x (region a size))
Allocated-is_legitimate p size a q x v t =
    let same : management q x ≡ management p x =
      ap (λ b. holds x (region b (2 * page_size))) t.base in
    rw (is_legitimate_lem q x t.parted, is_legitimate_lem p x v, same) (ground (arith, t.alloc x))

-- After an allocation that succeeded, an address is legitimate exactly if it was before or lies in
-- the region granted, whose size is the request rounded up to whole pages.
pub is_legitimate-allocate :
    (p : VmPool) (n a x : ℕ)
    → IsPartition p
    → (allocate p n).0 ≡ done a
    → is_legitimate (allocate p n).1 x ≡ (is_legitimate p x || holds x (region a (round_up n)))
is_legitimate-allocate p n a x v success =
    Allocated-is_legitimate p (round_up n) a (allocate p n).1 x v
      (subst (λ o. Allocate.Explains p n (o, (allocate p n).1)) success (allocate_lem p v n)).0
