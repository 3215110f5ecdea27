-- ===== src/VmPool/Release.antt =====
-- `VMPool::release` on every branch, and what `is_legitimate` answers.
use multi_process.Base.{
  ◌≢◌, get_elem?-set, get_or-set, ℕ, zero, suc, ◌+◌, ◌-◌, ◌*◌, ◌/◌, ◌≤◌, ◌<◌, ◌≡◌, refl, Bool, true,
  false, List, [], ◌∷◌, some, ltb, leb, ◌==◌, ◌&&◌, ◌||◌, word, add32, set, get_elem?, arith, sym,
  ap, Bool-cases, Option-cases, inl, inr, ◌⊎◌, ◌∙◌, length-set,
}
use multi_process.VmPool.{
  Region, region, VmPool, no_region, Outcome, done, failed, invalid_size, no_free_region,
  no_alloc_region, oob_addr, invalid_addr, page_size, max_regions, first_index, free_pages,
  give_back, release, in_some_region, is_legitimate,
}
use multi_process.VmPool.Regions.{
  holds, one, cover, AllWithin, IsPartition, cover-set, AllWithin-set, AllWithin-get,
  first_index-some, first_index-none, first_index-lowest,
}
use multi_process.VmPool.Allocate.{entry}

-- The other entries for allocated regions stay, and the region takes the first unused entry for a free
-- one. The call moved the entry for the region of `size` bytes at `a` from the allocated to the free ones.
pub record Freed (p : VmPool) (size a : ℕ) (q : VmPool) : Type 0 where
  pub nonempty : 0 < size
  pub held : (i : ℕ) × (get_elem? p.alloc i ≡ some (region a size))
  pub alloc : (x : ℕ) → cover x q.alloc + one (holds x (region a size)) ≡ cover x p.alloc
  pub free : (x : ℕ) → cover x q.free ≡ cover x p.free + one (holds x (region a size))
  pub parted : IsPartition q
  pub kept :
      (j : ℕ) (r : Region)
      → get_elem? p.alloc j ≡ some r
      → r.base_address ≢ a
      → get_elem? q.alloc j ≡ some r
  pub lowest :
      (j n : ℕ)
      → j < max_regions
      → (entry p.free j).size ≡ 0
      → j < n
      → entry q.free n ≡ entry p.free n

-- The two pages that hold the tables.
abbrev pub management : VmPool → ℕ → Bool
management p a = holds a (region p.base_address (2 * page_size))

module _ {Pt : Type 0} (free_page : ℕ → Pt → Pt) where
  -- `k` pages from `a` on, in order.
  unfoldable pub visit : ℕ → ℕ → Pt → Pt
  visit zero a pt = pt
  visit (suc k) a pt = visit k (a + page_size) (free_page a pt)

  -- The loop frees each page that the region touches, once, and ends by its test.
  free_pages-visit :
      (fuel k a end : ℕ) (pt : Pt)
      → k ≤ fuel
      → end ≤ a + k * page_size
      → a + k * page_size < end + page_size
      → end + page_size ≤ word
      → free_pages free_page fuel a end pt ≡ visit k a pt
  unfolding free_pages visit
  free_pages-visit zero zero a end pt le lo hi small = refl
  free_pages-visit zero (suc k) a end pt le lo hi small = absurd (omega arith)
  free_pages-visit (suc fuel) zero a end pt le lo hi small =
      let stop : ltb a end ≡ false = ground arith in rw stop
  free_pages-visit (suc fuel) (suc k) a end pt le lo hi small =
      let go : ltb a end ≡ true = ground arith in
      let next : add32 a page_size ≡ a + page_size = omega arith in
      rw (go, next)
        (free_pages-visit fuel k (a + page_size) end (free_page a pt) (omega arith) (omega arith)
          (omega arith) small)

-- The number of pages that `size` bytes touch.
abbrev pub pages : ℕ → ℕ
pages size = (size + page_size - 1) / page_size

module _ (p : VmPool) (v : IsPartition p) (start idx i : ℕ)
    (at : get_elem? p.alloc idx ≡ some (entry p.alloc idx))
    (base : start ≡ (entry p.alloc idx).base_address) (used : 0 < (entry p.alloc idx).size)
    (slot : get_elem? p.free i ≡ some (entry p.free i)) (unused : (entry p.free i).size ≡ 0)
    (first : first_index (λ r. r.size == 0) p.free ≡ some i) where
  -- the two tables after the writes
  returned : VmPool
  returned = record p {
    alloc = set p.alloc idx (region (entry p.alloc idx).base_address 0);
    free = set p.free i (region start (entry p.alloc idx).size);
  }

  fits : start + (entry p.alloc idx).size ≤ p.base_address + p.size
  fits = omega (arith, AllWithin-get (p.base_address + p.size) p.alloc idx v.alloc_within at, base)

  cover-alloc :
      (x : ℕ)
      → cover x returned.alloc + one (holds x (region start (entry p.alloc idx).size))
        ≡ cover x p.alloc
  unfolding returned
  cover-alloc x =
      ground (arith, cover-set x p.alloc idx (region (entry p.alloc idx).base_address 0) at, base)

  cover-free :
      (x : ℕ)
      → cover x returned.free
        ≡ cover x p.free + one (holds x (region start (entry p.alloc idx).size))
  unfolding returned
  cover-free x = ground (arith, cover-set x p.free i (region start (entry p.alloc idx).size) slot)

  kept_entry :
      (j : ℕ) (r : Region)
      → get_elem? p.alloc j ≡ some r
      → r.base_address ≢ start
      → get_elem? returned.alloc j ≡ some r
  unfolding returned
  kept_entry j r h ne = elim (Bool-cases (idx == j)) [
    | inl same ↦
        let e : idx ≡ j = ground (arith, same) in
        let there : some (entry p.alloc idx) ≡ some r = sym at ∙ ap (get_elem? p.alloc) e ∙ h in
        absurd (ground (arith, there, base, ne))
    | inr other ↦
        get_elem?-set p.alloc idx j (region (entry p.alloc idx).base_address 0)
          (λ e. ground (arith, e, other))
        ∙ h
  ]

  lowest_entry :
      (j n : ℕ)
      → j < max_regions
      → (entry p.free j).size ≡ 0
      → j < n
      → entry returned.free n ≡ entry p.free n
  unfolding returned
  lowest_entry j n small none lt =
      let le : i ≤ j =
        first_index-lowest (λ r. r.size == 0) p.free i j first (omega (arith, small, v.free_length))
          (ground (arith, none)) in
      get_or-set p.free i n (region start (entry p.alloc idx).size) no_region
        (λ e. omega (arith, le, lt, e))

  returned-Freed : Freed p (entry p.alloc idx).size start returned
  unfolding returned
  returned-Freed = record {
    nonempty = used;
    held = (idx, at ∙ ap (λ b. some (region b (entry p.alloc idx).size)) (sym base));
    alloc = cover-alloc;
    free = cover-free;
    kept = kept_entry;
    lowest = lowest_entry;
    parted = record {
      placed = v.placed;
      large = v.large;
      alloc_within =
          AllWithin-set (p.base_address + p.size) p.alloc idx
            (region (entry p.alloc idx).base_address 0) v.alloc_within (omega (arith, fits, base));
      free_within =
          AllWithin-set (p.base_address + p.size) p.free i (region start (entry p.alloc idx).size)
            v.free_within fits;
      once = λ x. omega (arith, cover-alloc x, cover-free x, v.once x);
      alloc_length =
          length-set p.alloc idx (region (entry p.alloc idx).base_address 0) ∙ v.alloc_length;
      free_length = length-set p.free i (region start (entry p.alloc idx).size) ∙ v.free_length;
    };
  }

  give_back-Freed :
      {Pt : Type 0} (free_page : ℕ → Pt → Pt) (pt : Pt)
      → give_back free_page p start idx i pt
        ≡ (returned, visit free_page (pages (entry p.alloc idx).size) start pt)
  unfolding give_back returned
  give_back-Freed free_page pt =
      let end : add32 start (entry p.alloc idx).size ≡ start + (entry p.alloc idx).size =
        omega (arith, fits, v.placed) in
      rw end (
        ap (λ t. (returned, t))
          (free_pages-visit free_page ((entry p.alloc idx).size / page_size + 1)
            (pages (entry p.alloc idx).size) start (start + (entry p.alloc idx).size) pt
            (omega arith) (omega arith) (omega (arith, used)) (omega (arith, fits, v.placed))))

module _ {Pt : Type 0} (free_page : ℕ → Pt → Pt) (p : VmPool) (start : ℕ) (pt : Pt) where
  -- What `release` promises for each way to end.
  abbrev pub Explains : Outcome (Unit {0}) × VmPool × Pt → Type 0
  Explains (done _, q, pt') =
      (size : ℕ) × Freed p size start q × (pt' ≡ visit free_page (pages size) start pt)
  Explains (failed oob_addr, q, pt') =
      (q ≡ p) × (pt' ≡ pt) × ((start < p.base_address) ⊎ (p.base_address + p.size ≤ start))
  Explains (failed invalid_addr, q, pt') =
      (q ≡ p)
      × (pt' ≡ pt)
      × ((i : ℕ)
          → i < max_regions
          → start ≡ (entry p.alloc i).base_address
          → (entry p.alloc i).size ≡ 0)
  Explains (failed no_free_region, q, pt') =
      (q ≡ p) × (pt' ≡ pt) × ((i : ℕ) → i < max_regions → 0 < (entry p.free i).size)
  Explains (failed invalid_size, q, pt') = ⊥
  Explains (failed no_alloc_region, q, pt') = ⊥

  abbrev starts_at : Region → Bool
  starts_at r = start == r.base_address && ltb 0 r.size

  -- Of the tables alone, as lists.
  pub release-Explains : IsPartition p → Explains (release free_page p start pt)
  unfolding release
  release-Explains v =
      elim (Bool-cases (ltb start p.base_address || leb (add32 p.base_address p.size) start)) [
        | inl bad ↦ rw bad (refl, refl, ground (arith, v.placed))
        | inr good ↦ elim (Option-cases (first_index starts_at p.alloc)) [
          | inl no_alloc ↦
              rw (good, no_alloc)
                (
                  refl,
                  refl,
                  λ i lt e.
                      ground (arith, first_index-none starts_at p.alloc i no_alloc, v.alloc_length),
                )
          | inr (idx, found) ↦ elim (Option-cases (first_index (λ r. r.size == 0) p.free)) [
            | inl no_slot ↦
                rw (good, found, no_slot)
                  (
                    refl,
                    refl,
                    λ i lt. ground (
                      arith,
                      first_index-none (λ r. r.size == 0) p.free i no_slot,
                      v.free_length,
                    ),
                  )
            | inr (i, slot) ↦
                let (at, hit) = first_index-some starts_at p.alloc idx found in
                let (at', none_there) = first_index-some (λ r. r.size == 0) p.free i slot in
                let base : start ≡ (entry p.alloc idx).base_address = ground arith in
                let used : 0 < (entry p.alloc idx).size = ground arith in
                let unused : (entry p.free i).size ≡ 0 = ground arith in
                rw
                  (
                    good,
                    found,
                    slot,
                    give_back-Freed p v start idx i at base used at' unused slot free_page pt,
                  )
                  (
                    (entry p.alloc idx).size,
                    returned-Freed p v start idx i at base used at' unused slot,
                    refl,
                  )
          ]
        ]
      ]

  -- On a parted pool, for an address that is not in the two pages of the tables, which would be freed
  -- under them: on success the region that starts at the address moves from the allocated to the
  -- free addresses, the pool stays parted, and each page that the region touches is freed once, in
  -- order. On error neither the pool nor the page table changes, and the error tells why: the
  -- address is outside the pool, no allocated region starts there, or no entry for a free region is
  -- left.
  pub release_lem :
      IsPartition p → management p start ≡ false → Explains (release free_page p start pt)
  release_lem v outside = release-Explains v

in_some_region-cover :
    (a end : ℕ) (rs : List Region)
    → AllWithin end rs
    → end < word
    → in_some_region a rs ≡ ltb 0 (cover a rs)
unfolding in_some_region cover
in_some_region-cover a end [] h lt = refl
in_some_region-cover a end (r ∷ rs) h lt = ground (arith, in_some_region-cover a end rs h.1 lt, h.0)

-- An address is legitimate exactly if it lies in the management pages or in an allocated region.
pub is_legitimate_lem :
    (p : VmPool) (a : ℕ)
    → IsPartition p
    → is_legitimate p a ≡ (management p a || ltb 0 (cover a p.alloc))
unfolding is_legitimate
is_legitimate_lem p a v =
    let end : add32 p.base_address (2 * page_size) ≡ p.base_address + 2 * page_size =
      omega (arith, v.placed, v.large) in
    rw (
      end,
      in_some_region-cover a (p.base_address + p.size) p.alloc v.alloc_within
          (omega (arith, v.placed)),
    )
