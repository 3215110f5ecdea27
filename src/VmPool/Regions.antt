-- ===== src/VmPool/Regions.antt =====
-- Which addresses the regions of a table cover, and the invariant of a pool.
use multi_process.Base.{
  Bool-cases, ltb→lt, inl, inr, ◌⊎◌, ◌∙◌, length-set, length-replicate, ℕ, zero, suc, ◌+◌, ◌*◌, ◌≤◌,
  ◌<◌, ◌≡◌, refl, Bool, true, false, List, [], ◌∷◌, none, some, ltb, leb, ◌&&◌, word, add32, sub32,
  set, get_or, get_elem?, replicate, length, arith,
}
use multi_process.VmPool.{
  Region, region, no_region, VmPool, page_size, max_regions, first_index, initial_tables, construct,
}

abbrev pub holds : ℕ → Region → Bool
holds a r = leb r.base_address a && ltb a (r.base_address + r.size)

abbrev pub one : Bool → ℕ
one true = 1
one false = 0

-- In how many regions of the table the address lies.
unfoldable pub cover : ℕ → List Region → ℕ
cover a [] = 0
cover a (r ∷ rs) = one (holds a r) + cover a rs

-- Every region ends at `end` or before.
abbrev pub AllWithin : ℕ → List Region → Type 0
AllWithin end [] = Unit {0}
AllWithin end (r ∷ rs) = (r.base_address + r.size ≤ end) × AllWithin end rs

-- The addresses of the pool are parted among the regions: each lies in exactly one, allocated or
-- free, and no region holds an address outside the pool.
pub record IsPartition (p : VmPool) : Type 0 where
  pub placed : p.base_address + p.size + page_size ≤ word
  pub large : 2 * page_size < p.size
  pub alloc_within : AllWithin (p.base_address + p.size) p.alloc
  pub free_within : AllWithin (p.base_address + p.size) p.free
  pub once :
      (a : ℕ) → cover a p.alloc + cover a p.free ≡ one (holds a (region p.base_address p.size))
  pub alloc_length : length p.alloc ≡ max_regions
  pub free_length : length p.free ≡ max_regions

pub cover-set :
    (a : ℕ) (rs : List Region) (i : ℕ) (s : Region) {r : Region}
    → get_elem? rs i ≡ some r
    → cover a (set rs i s) + one (holds a r) ≡ cover a rs + one (holds a s)
unfolding cover
cover-set a [] i s h = absurd (ground arith)
cover-set a (x ∷ rs) zero s {r} h = ground arith
cover-set a (x ∷ rs) (suc i) s h = omega (arith, cover-set a rs i s h)

pub AllWithin-set :
    (end : ℕ) (rs : List Region) (i : ℕ) (s : Region)
    → AllWithin end rs
    → s.base_address + s.size ≤ end
    → AllWithin end (set rs i s)
AllWithin-set end [] i s h le = tt
AllWithin-set end (x ∷ rs) zero s h le = (le, h.1)
AllWithin-set end (x ∷ rs) (suc i) s h le = (h.0, AllWithin-set end rs i s h.1 le)

pub AllWithin-get :
    (end : ℕ) (rs : List Region) (i : ℕ) {r : Region}
    → AllWithin end rs
    → get_elem? rs i ≡ some r
    → r.base_address + r.size ≤ end
AllWithin-get end [] i h e = absurd (ground arith)
AllWithin-get end (x ∷ rs) zero h e = ground arith
AllWithin-get end (x ∷ rs) (suc i) h e = AllWithin-get end rs i h.1 e

-- A search that succeeds gives an entry that passes the test.
pub first_index-some :
    (test : Region → Bool) (rs : List Region) (i : ℕ)
    → first_index test rs ≡ some i
    → (get_elem? rs i ≡ some (get_or rs i no_region)) × (test (get_or rs i no_region) ≡ true)
unfolding first_index
first_index-some test [] i e = absurd (ground arith)
first_index-some test (r ∷ rs) zero e = (refl, ground arith)
first_index-some test (r ∷ rs) (suc i) e = ground (arith, first_index-some test rs i)

-- A search finds the lowest entry that passes.
pub first_index-lowest :
    (test : Region → Bool) (rs : List Region) (i j : ℕ)
    → first_index test rs ≡ some i
    → j < length rs
    → test (get_or rs j no_region) ≡ true
    → i ≤ j
unfolding first_index
first_index-lowest test [] i j e lt h = absurd (omega arith)
first_index-lowest test (r ∷ rs) i zero e lt h = ground (arith, h)
first_index-lowest test (r ∷ rs) zero (suc j) e lt h = omega arith
first_index-lowest test (r ∷ rs) (suc i) (suc j) e lt h =
    ground (arith, first_index-lowest test rs i j, lt, h)

-- A search that fails has tried every entry.
pub first_index-none :
    (test : Region → Bool) (rs : List Region) (i : ℕ)
    → first_index test rs ≡ none
    → i < length rs
    → test (get_or rs i no_region) ≡ false
unfolding first_index
first_index-none test [] i e h = absurd (omega arith)
first_index-none test (r ∷ rs) zero e h = ground arith
first_index-none test (r ∷ rs) (suc i) e h = ground (arith, first_index-none test rs i)

cover-replicate : (a n : ℕ) → cover a (replicate n no_region) ≡ 0
unfolding cover
cover-replicate a zero = refl
cover-replicate a (suc n) = ground (arith, cover-replicate a n)

AllWithin-fresh :
    (end n : ℕ) (r : Region)
    → r.base_address + r.size ≤ end
    → AllWithin end (set (replicate (suc n) no_region) 0 r)
AllWithin-fresh end n r h = (h, rest n)
  where
    rest : (k : ℕ) → AllWithin end (replicate k no_region)
    rest zero = tt
    rest (suc k) = (omega arith, rest k)

length-fresh : (n : ℕ) (r : Region) → length (set (replicate n no_region) 0 r) ≡ n
length-fresh n r = length-set (replicate n no_region) 0 r ∙ length-replicate n no_region

cover-fresh :
    (a n : ℕ) (r : Region) → cover a (set (replicate (suc n) no_region) 0 r) ≡ one (holds a r)
unfolding cover
cover-fresh a n r = omega (arith, cover-replicate a n)

pub initial_tables-IsPartition :
    (base size : ℕ)
    → base + size + page_size ≤ word
    → 2 * page_size < size
    → IsPartition (initial_tables base size)
unfolding initial_tables
initial_tables-IsPartition base size placed large = record {
  placed = placed;
  large = large;
  alloc_within = AllWithin-fresh (base + size) 511 (region base (page_size * 2)) (omega arith);
  free_within =
      AllWithin-fresh (base + size) 511
        (region (add32 base (page_size * 2)) (sub32 size (2 * page_size))) (omega arith);
  once = λ a. ground (
    arith,
    cover-fresh a 511 (region base (page_size * 2)),
    cover-fresh a 511 (region (add32 base (page_size * 2)) (sub32 size (2 * page_size))),
  );
  alloc_length = length-fresh 512 (region base (page_size * 2));
  free_length = length-fresh 512 (region (add32 base (page_size * 2)) (sub32 size (2 * page_size)));
}

-- A new pool is parted into its two management pages, which count as allocated, and one free
-- region. A size that leaves no room behind those pages fails the assertion.
construct-IsPartition :
    (base size : ℕ)
    → base + size + page_size ≤ word
    → ((p : VmPool) × (construct base size ≡ some p) × IsPartition p × (2 * page_size < size))
      ⊎ ((construct base size ≡ none) × (size ≤ 2 * page_size))
unfolding construct
construct-IsPartition base size placed = elim (Bool-cases (ltb (2 * page_size) size)) [
  | inl fits ↦
      let large = ltb→lt _ _ fits in
      inl (
        initial_tables base size,
        rw fits,
        initial_tables-IsPartition base size placed large,
        large,
      )
  | inr short ↦ inr (rw short, ground arith)
]
