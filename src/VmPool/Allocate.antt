-- ===== src/VmPool/Allocate.antt =====
-- `VMPool::allocate` on every branch.
use multi_process.Base.{
  ℕ, ◌+◌, ◌-◌, ◌*◌, ◌%◌, ◌≤◌, ◌<◌, ◌≡◌, refl, true, false, List, some, ltb, leb, ◌==◌, ◌||◌, word,
  add32, sub32, get_or, get_elem?, arith, Bool-cases, Option-cases, inl, inr, ◌⊎◌, ◌∙◌, length-set,
  get_elem?-set_self, get_elem?-lt,
}
use multi_process.VmPool.{
  Region, region, no_region, VmPool, Outcome, done, failed, invalid_size, no_free_region,
  no_alloc_region, oob_addr, invalid_addr, page_size, max_regions, first_index, round_up, carve,
  allocate,
}
use multi_process.VmPool.Regions.{
  holds, one, cover, IsPartition, cover-set, AllWithin-set, AllWithin-get, first_index-some,
  first_index-none,
}

-- The least multiple of the page size that holds `n` bytes.
abbrev pub IsRounded : ℕ → ℕ → Type 0
IsRounded n size = (n ≤ size) × (size < n + page_size) × (size % page_size ≡ 0)

pub round_up_lem : (n : ℕ) → 0 < n → n + page_size < word → IsRounded n (round_up n)
unfolding round_up
round_up_lem n pos small = omega arith

-- The call took a region of `size` bytes at `a` out of the free ones, and made it allocated, as an
-- entry of its own.
pub record Allocated (p : VmPool) (size a : ℕ) (q : VmPool) : Type 0 where
  pub positive : 0 < size
  pub fresh : (x : ℕ) → holds x (region a size) ≡ true → cover x p.alloc ≡ 0
  pub alloc : (x : ℕ) → cover x q.alloc ≡ cover x p.alloc + one (holds x (region a size))
  pub free : (x : ℕ) → cover x q.free + one (holds x (region a size)) ≡ cover x p.free
  pub held : (i : ℕ) × (get_elem? q.alloc i ≡ some (region a size))
  pub base : q.base_address ≡ p.base_address
  pub inside : (p.base_address ≤ a) × (a + size ≤ p.base_address + p.size)
  pub parted : IsPartition q

abbrev pub entry : List Region → ℕ → Region
entry rs i = get_or rs i no_region

-- Where the region of a free entry starts, and what is left of it.
abbrev head : VmPool → ℕ → ℕ
head p idx = (entry p.free idx).base_address

abbrev remains : VmPool → ℕ → ℕ → Region
remains p adj idx =
    region (add32 (entry p.free idx).base_address adj) (sub32 (entry p.free idx).size adj)

module _ (p : VmPool) (v : IsPartition p) (adj idx i : ℕ) (pos : 0 < adj)
    (at : get_elem? p.free idx ≡ some (entry p.free idx)) (enough : adj ≤ (entry p.free idx).size)
    (slot : get_elem? p.alloc i ≡ some (entry p.alloc i))
    (unused : (entry p.alloc i).size ≡ 0) where
  fits : (entry p.free idx).base_address + (entry p.free idx).size ≤ p.base_address + p.size
  fits = AllWithin-get (p.base_address + p.size) p.free idx v.free_within at

  cover-alloc :
      (x : ℕ)
      → cover x (carve p adj idx i).alloc
        ≡ cover x p.alloc + one (holds x (region (head p idx) adj))
  unfolding carve
  cover-alloc x = ground (arith, cover-set x p.alloc i (region (head p idx) adj) slot)

  cover-free :
      (x : ℕ)
      → cover x (carve p adj idx i).free + one (holds x (region (head p idx) adj)) ≡ cover x p.free
  unfolding carve
  cover-free x = ground (arith, cover-set x p.free idx (remains p adj idx) at, fits, v.placed)

  carve-Allocated : Allocated p adj (head p idx) (carve p adj idx i)
  unfolding carve
  carve-Allocated = record {
    positive = pos;
    fresh = λ x h. ground (arith, cover-free x, v.once x);
    alloc = cover-alloc;
    free = cover-free;
    held =
        (i, get_elem?-set_self p.alloc i (region (head p idx) adj) (get_elem?-lt p.alloc i slot));
    base = refl;
    inside = (ground (arith, cover-free (head p idx), v.once (head p idx)), omega (arith, fits));
    parted = record {
      placed = v.placed;
      large = v.large;
      alloc_within =
          AllWithin-set (p.base_address + p.size) p.alloc i (region (head p idx) adj) v.alloc_within
            (omega (arith, fits));
      free_within =
          AllWithin-set (p.base_address + p.size) p.free idx (remains p adj idx) v.free_within
            (omega (arith, fits, v.placed));
      once = λ x. omega (arith, cover-alloc x, cover-free x, v.once x);
      alloc_length = length-set p.alloc i (region (head p idx) adj) ∙ v.alloc_length;
      free_length = length-set p.free idx (remains p adj idx) ∙ v.free_length;
    };
  }

-- What `allocate` promises for each way to end.
abbrev pub Explains : VmPool → ℕ → Outcome ℕ × VmPool → Type 0
Explains p n (done a, q) = Allocated p (round_up n) a q × IsRounded n (round_up n)
Explains p n (failed invalid_size, q) = (q ≡ p) × ((n ≡ 0) ⊎ (p.size - 2 * page_size < n))
Explains p n (failed no_free_region, q) =
    (q ≡ p)
    × ((i : ℕ) → i < max_regions → (entry p.free i).size < round_up n)
    × IsRounded n (round_up n)
Explains p n (failed no_alloc_region, q) =
    (q ≡ p) × ((i : ℕ) → i < max_regions → 0 < (entry p.alloc i).size)
Explains p n (failed oob_addr, q) = ⊥
Explains p n (failed invalid_addr, q) = ⊥

module _ (p : VmPool) (v : IsPartition p) (n : ℕ) where
  allocate-valid :
      0 < n → n ≤ p.size - 2 * page_size → (n == 0 || ltb (sub32 p.size (2 * page_size)) n) ≡ false
  allocate-valid pos small = ground (arith, v.placed, v.large)

  rounded : (n == 0 || ltb (sub32 p.size (2 * page_size)) n) ≡ false → IsRounded n (round_up n)
  rounded good =
      let pos : 0 < n = ground arith in
      let small : n + page_size < word = ground (arith, v.placed, v.large) in
      round_up_lem n pos small

  -- On a parted pool, with a request of `n` bytes: on success a region of the least number of whole
  -- pages that hold `n` bytes moves from the free to the allocated addresses, and the pool stays parted. On
  -- error the pool is unchanged, and the error tells why: the size is 0 or more than the pool
  -- holds, no free region is large enough, or no entry for an allocated region is left.
  pub allocate_lem : Explains p n (allocate p n)
  unfolding allocate
  allocate_lem = elim (Bool-cases (n == 0 || ltb (sub32 p.size (2 * page_size)) n)) [
    | inl bad ↦ rw bad (refl, ground (arith, v.placed, v.large))
    | inr good ↦ elim (Option-cases (first_index (λ r. leb (round_up n) r.size) p.free)) [
      | inl no_free ↦
          rw (good, no_free)
            (
              refl,
              λ i lt. ground (
                arith,
                first_index-none (λ r. leb (round_up n) r.size) p.free i no_free,
                v.free_length,
              ),
              rounded good,
            )
      | inr (idx, found) ↦ elim (Option-cases (first_index (λ r. r.size == 0) p.alloc)) [
        | inl no_slot ↦
            rw (good, found, no_slot)
              (
                refl,
                λ i lt.
                    ground (
                      arith,
                      first_index-none (λ r. r.size == 0) p.alloc i no_slot,
                      v.alloc_length,
                    ),
              )
        | inr (i, slot) ↦
            let (at, enough) = first_index-some (λ r. leb (round_up n) r.size) p.free idx found in
            let (at', unused) = first_index-some (λ r. r.size == 0) p.alloc i slot in
            rw (good, found, slot)
              (
                carve-Allocated p v (round_up n) idx i
                    (ground (arith, round_up_lem n, v.placed, v.large)) at (ground arith) at'
                    (ground arith),
                rounded good,
              )
      ]
    ]
  ]
