-- ===== src/VmPool/Return.antt =====
-- A region that is allocated and released again.
use multi_process.Base.{
  ℕ, zero, suc, ◌+◌, ◌≤◌, ◌<◌, ◌≡◌, ◌≢◌, refl, sym, ap, true, List, [], ◌∷◌, some, ◌==◌, get_elem?,
  arith, get_elem?-lt, get_elem?-get_or, Bool-cases, inl, inr, ◌∙◌,
}
use mathlib.Core.Path.{subst}
use multi_process.VmPool.{
  Error, Region, region, no_region, VmPool, Outcome, done, failed, max_regions, round_up, allocate,
  release,
}
use multi_process.VmPool.Regions.{holds, one, cover, IsPartition}
use multi_process.VmPool.Allocate
use multi_process.VmPool.Allocate.{entry, Allocated, allocate_lem}
use multi_process.VmPool.Release
use multi_process.VmPool.Release.{Freed, visit, pages, release-Explains}

cover-ge :
    (a : ℕ) (rs : List Region) (i : ℕ) {r : Region}
    → get_elem? rs i ≡ some r
    → one (holds a r) ≤ cover a rs
unfolding cover
cover-ge a [] i h = absurd (ground arith)
cover-ge a (x ∷ rs) zero h = ground arith
cover-ge a (x ∷ rs) (suc i) h = omega (arith, cover-ge a rs i h)

-- An address of two entries is covered twice.
cover-two :
    (a : ℕ) (rs : List Region) (i j : ℕ) {r s : Region}
    → get_elem? rs i ≡ some r
    → get_elem? rs j ≡ some s
    → i ≢ j
    → one (holds a r) + one (holds a s) ≤ cover a rs
unfolding cover
cover-two a [] i j h k ne = absurd (ground arith)
cover-two a (x ∷ rs) zero zero h k ne = absurd (ne refl)
cover-two a (x ∷ rs) zero (suc j) h k ne = ground (arith, cover-ge a rs j k)
cover-two a (x ∷ rs) (suc i) zero h k ne = ground (arith, cover-ge a rs i h)
cover-two a (x ∷ rs) (suc i) (suc j) h k ne =
    omega (arith, cover-two a rs i j h k (λ e. ne (ap suc e)))

-- In a parted pool, the used entry of `alloc` that starts at an address is the only one.
same_size :
    (p : VmPool) (v : IsPartition p) (a i j k l : ℕ)
    → get_elem? p.alloc i ≡ some (region a k)
    → get_elem? p.alloc j ≡ some (region a l)
    → 0 < k
    → 0 < l
    → k ≡ l
same_size p v a i j k l hi hj pi pj = elim (Bool-cases (i == j)) [
  | inl same ↦
      let e : i ≡ j = ground arith in
      let both : some (region a k) ≡ some (region a l) = sym hi ∙ ap (get_elem? p.alloc) e ∙ hj in
      cc
  | inr other ↦
      let two = cover-two a p.alloc i j hi hj (λ e. ground arith) in
      let onei : holds a (region a k) ≡ true = ground arith in
      let onej : holds a (region a l) ≡ true = ground arith in
      absurd (ground (arith, two, v.once a))
]

-- The pool `q'` covers what `p` does, and the page table `pt'` has `k` pages from `a` on freed.
pub record Returned {Pt : Type 0} (free_page : ℕ → Pt → Pt) (p : VmPool) (k a : ℕ) (pt : Pt)
    (out : Outcome (Unit {0}) × VmPool × Pt) : Type 0 where
  pub success : out.0 ≡ done tt
  pub alloc : (x : ℕ) → cover x out.1.alloc ≡ cover x p.alloc
  pub free : (x : ℕ) → cover x out.1.free ≡ cover x p.free
  pub parted : IsPartition out.1
  pub visited : out.2 ≡ visit free_page k a pt

module _ {Pt : Type 0} (free_page : ℕ → Pt → Pt) (p : VmPool) (size a : ℕ) (q : VmPool) (pt : Pt)
    (t : Allocated p size a q) (k : ℕ) (in_table : k < max_regions)
    (unused : (entry q.free k).size ≡ 0) where
  Explains-Returned :
      (out : Outcome (Unit {0}) × VmPool × Pt)
      → Release.Explains free_page q a pt out
      → Returned free_page p (pages size) a pt out
  Explains-Returned (done tt, q', pt') (n, f, at) =
      let (i, hi) = t.held in
      let (j, hj) = f.held in
      let e : n ≡ size = same_size q t.parted a j i n size hj hi f.nonempty t.positive in
      record {
        success = refl;
        alloc = λ x.
            let same : one (holds x (region a n)) ≡ one (holds x (region a size)) =
              ap (λ n. one (holds x (region a n))) e in
            omega (arith, f.alloc x, t.alloc x, same);
        free = λ x.
            let same : one (holds x (region a n)) ≡ one (holds x (region a size)) =
              ap (λ n. one (holds x (region a n))) e in
            omega (arith, f.free x, t.free x, same);
        parted = f.parted;
        visited = at ∙ ap (λ n. visit free_page (pages n) a pt) e;
      }
  Explains-Returned (failed Error.oob_addr, q', pt') (same, still, out) =
      absurd (ground (arith, t.alloc a, t.positive, t.parted.once a))
  Explains-Returned (failed Error.invalid_addr, q', pt') (same, still, nowhere) =
      let (i, hi) = t.held in
      let here = get_elem?-get_or q.alloc i no_region hi in
      absurd (
        ground
          (arith, nowhere i, here, t.positive, get_elem?-lt q.alloc i hi, t.parted.alloc_length))
  Explains-Returned (failed Error.no_free_region, q', pt') (same, still, full) =
      absurd (omega (arith, full k in_table, unused))
  Explains-Returned (failed Error.invalid_size, q', pt') h = elim h [ ]
  Explains-Returned (failed Error.no_alloc_region, q', pt') h = elim h [ ]

-- The pool has granted the region of `size` bytes at `a`, and has an entry left to take it back.
pub record Takes (p : VmPool) (size a : ℕ) : Type 0 where
  pub parted : IsPartition p
  pub held : (i : ℕ) × (get_elem? p.alloc i ≡ some (region a size))
  pub positive : 0 < size
  pub slot : (k : ℕ) × (k < max_regions) × ((entry p.free k).size ≡ 0)

-- `release` of such a region succeeds.
pub release-Takes :
    {Pt : Type 0} (free_page : ℕ → Pt → Pt) (p : VmPool) (size a : ℕ) (pt : Pt)
    → Takes p size a
    → let out = release free_page p a pt in
      Freed p size a out.1 × (out.2 ≡ visit free_page (pages size) a pt)
release-Takes free_page p size a pt t =
    go (release free_page p a pt) (release-Explains free_page p a pt t.parted)
  where
    go :
        (out : Outcome (Unit {0}) × VmPool × _)
        → Release.Explains free_page p a pt out
        → Freed p size a out.1 × (out.2 ≡ visit free_page (pages size) a pt)
    go (done _, q, pt') (n, f, at) =
        let (i, hi) = t.held in
        let (j, hj) = f.held in
        let e : n ≡ size = same_size p t.parted a j i n size hj hi f.nonempty t.positive in
        subst (λ m. Freed p m a q × (pt' ≡ visit free_page (pages m) a pt)) e (f, at)
    go (failed Error.oob_addr, q, pt') (same, still, out) =
        let (i, hi) = t.held in
        let here : holds a (region a size) ≡ true = ground (arith, t.positive) in
        absurd (ground (arith, out, here, cover-ge a p.alloc i hi, t.parted.once a))
    go (failed Error.invalid_addr, q, pt') (same, still, nowhere) =
        let (i, hi) = t.held in
        let here = get_elem?-get_or p.alloc i no_region hi in
        absurd (
          ground
            (arith, nowhere i, here, t.positive, get_elem?-lt p.alloc i hi, t.parted.alloc_length))
    go (failed Error.no_free_region, q, pt') (same, still, full) =
        let (k, lt, unused) = t.slot in absurd (omega (arith, full k lt, unused))
    go (failed Error.invalid_size, q, pt') h = elim h [ ]
    go (failed Error.no_alloc_region, q, pt') h = elim h [ ]

-- A region that `allocate` returned and that `release` gets back, where the table of free regions
-- has an unused entry left: every address is allocated or free as it was before, the pool stays
-- parted, and each page of the region is freed once.
pub release-allocate :
    {Pt : Type 0} (free_page : ℕ → Pt → Pt) (p : VmPool) (n a k : ℕ) (pt : Pt)
    → IsPartition p
    → (allocate p n).0 ≡ done a
    → k < max_regions
    → (entry (allocate p n).1.free k).size ≡ 0
    → Returned free_page p (pages (round_up n)) a pt (release free_page (allocate p n).1 a pt)
release-allocate free_page p n a k pt v success in_table unused =
    let q = (allocate p n).1 in
    let t : Allocated p (round_up n) a q =
      (subst (λ o. Allocate.Explains p n (o, q)) success (allocate_lem p v n)).0 in
    Explains-Returned free_page p (round_up n) a q pt t k in_table unused (release free_page q a pt)
      (release-Explains free_page q a pt t.parted)
